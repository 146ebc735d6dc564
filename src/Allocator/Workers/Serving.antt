-- ===== src/Allocator/Workers/Serving.antt =====
-- What the steps of the workers keep count of.
use memory3d.Prelude.{
  ℕ, zero, suc, ◌+◌, ◌*◌, ◌≡◌, refl, sym, ap, ◌∙◌, inl, inr, some, List, [], ◌∷◌, ◌++◌, arith, ltb,
  ◌==◌, if◌then◌else◌, Bool-cases, length, length-append, get_elem?, subst,
}
use memory3d.Prelude.{Option, none, some}
use memory3d.Allocator.State.{Allocator3D, Result, got, nothing, panicked, failed}
use memory3d.Allocator.Workers.{
  AllocRequest, Pool, run_request, take_oldest, take_request, remove_at, deliver, run_taken, worked,
  none_taken,
}

-- Steps of workers, in any interleaving, counted.
pub data Works : ℕ → Pool → Pool → Type 0 where
  rest : (p : Pool) → Works 0 p p
  takes : (n : ℕ) (p p' q : Pool) → take_request p ≡ some p' → Works n p' q → Works (suc n) p q
  runs :
      (n now place : ℕ) (p p' q : Pool)
      → run_taken now p place ≡ worked p'
      → Works n p' q
      → Works (suc n) p q

-- How many of the requests, and of the answers, have the result channel.
abbrev pub waiting : ℕ → List AllocRequest → ℕ
waiting id [] = 0
waiting id (r ∷ rs) = (if r.result == id then 1 else 0) + waiting id rs

abbrev pub answered : ℕ → List (ℕ × Result) → ℕ
answered id [] = 0
answered id ((j, r) ∷ rs) = (if j == id then 1 else 0) + answered id rs

waiting-append :
    (id : ℕ) (rs ss : List AllocRequest) → waiting id (rs ++ ss) ≡ waiting id rs + waiting id ss
waiting-append id [] ss = omega arith
waiting-append id (r ∷ rs) ss = omega (arith, waiting-append id rs ss)

-- What is still to do: a take and a run for each request that waits, a run for each that is taken.
abbrev pub work_left : Pool → ℕ
work_left p = 2 * length p.queue + length p.taken

-- What one step does to the counts.
pub record Moves (p q : Pool) : Type 0 where
  pub left : suc (work_left q) ≡ work_left p
  pub account :
      (id : ℕ)
      → answered id q.answers + waiting id q.taken + waiting id q.queue
        ≡ answered id p.answers + waiting id p.taken + waiting id p.queue
  pub same_workers : q.workers ≡ p.workers

take_oldest-Moves :
    (p q : Pool) (rs : List AllocRequest) → p.queue ≡ rs → take_oldest p rs ≡ some q → Moves p q
unfolding take_oldest
take_oldest-Moves p q [] e taken = cc
take_oldest-Moves p q (r ∷ rs) e taken =
    let is_q : record p { queue = rs; taken = p.taken ++ r ∷ [] } ≡ q = cc in
    subst (Moves p) is_q (record {
      left = omega (arith, ap length e, length-append p.taken (r ∷ []));
      account = λ id. omega (arith, ap (waiting id) e, waiting-append id p.taken (r ∷ []));
      same_workers = refl;
    })

pub take_request-Moves : (p q : Pool) → take_request p ≡ some q → Moves p q
unfolding take_request
take_request-Moves p q e = elim (Bool-cases (ltb (length p.taken) p.workers)) [
  | inl idle ↦ take_oldest-Moves p q p.queue refl (ground (arith, e, idle))
  | inr busy ↦ absurd (ground (arith, e, busy))
]

remove_at-counts :
    (place id : ℕ) (rs : List AllocRequest) (r : AllocRequest)
    → get_elem? rs place ≡ some r
    → (suc (length (remove_at place rs)) ≡ length rs)
      × (waiting id (remove_at place rs) + (if r.result == id then 1 else 0) ≡ waiting id rs)
unfolding remove_at
remove_at-counts place id [] r e = cc
remove_at-counts zero id (x ∷ rs) r e = let same : x ≡ r = cc in rw same (refl, omega arith)
remove_at-counts (suc place) id (x ∷ rs) r e =
    let rest = remove_at-counts place id rs r e in (omega (arith, rest.0), omega (arith, rest.1))

delivered :
    (p q : Pool) (place : ℕ) (r : AllocRequest) (a : Allocator3D) (answer : Result)
    → get_elem? p.taken place ≡ some r
    → record p {
      allocator = a;
      taken = remove_at place p.taken;
      answers = (r.result, answer) ∷ p.answers;
    }
      ≡ q
    → Moves p q
delivered p q place r a answer there is_q = subst (Moves p) is_q (record {
  left = omega (arith, (remove_at-counts place 0 p.taken r there).0);
  account = λ id. omega (arith, (remove_at-counts place id p.taken r there).1);
  same_workers = refl;
})

-- A request that a worker runs and answers.
deliver-Moves :
    (p q : Pool) (place : ℕ) (r : AllocRequest) (t : Allocator3D × Result)
    → get_elem? p.taken place ≡ some r
    → deliver p place r t ≡ worked q
    → Moves p q
unfolding deliver
deliver-Moves p q place r (a, panicked) there e = cc
deliver-Moves p q place r (a, nothing) there e = cc
deliver-Moves p q place r (a, got ptr) there e = delivered p q place r a (got ptr) there cc
deliver-Moves p q place r (a, failed x) there e = delivered p q place r a (failed x) there cc

pub run_taken-Moves : (now place : ℕ) (p q : Pool) → run_taken now p place ≡ worked q → Moves p q
unfolding run_taken
run_taken-Moves now place p q e = go (get_elem? p.taken place) refl
  where
    go : (o : Option AllocRequest) → get_elem? p.taken place ≡ o → Moves p q
    go none f = let idle : run_taken now p place ≡ none_taken = rw (f, run_taken) refl in absurd cc
    go (some r) f =
        let opened : run_taken now p place ≡ deliver p place r (run_request now p.allocator r) =
          rw (f, run_taken) refl in
        deliver-Moves p q place r (run_request now p.allocator r) f (sym opened ∙ e)

-- What any interleaving does.
pub record Served (n : ℕ) (p q : Pool) : Type 0 where
  pub left : n + work_left q ≡ work_left p
  pub account :
      (id : ℕ)
      → answered id q.answers + waiting id q.taken + waiting id q.queue
        ≡ answered id p.answers + waiting id p.taken + waiting id p.queue
  pub same_workers : q.workers ≡ p.workers

after_step : (n : ℕ) (p p' q : Pool) → Moves p p' → Served n p' q → Served (suc n) p q
after_step n p p' q m s = record {
  left = omega (arith, s.left, m.left);
  account = λ id. s.account id ∙ m.account id;
  same_workers = s.same_workers ∙ m.same_workers;
}

pub Works-Served : (n : ℕ) (p q : Pool) → Works n p q → Served n p q
Works-Served _ _ _ (rest p) = record {
  left = omega arith;
  account = λ id. refl;
  same_workers = refl;
}
Works-Served _ _ _ (takes n p p' q e w) =
    after_step n p p' q (take_request-Moves p p' e) (Works-Served n p' q w)
Works-Served _ _ _ (runs n now place p p' q e w) =
    after_step n p p' q (run_taken-Moves now place p p' e) (Works-Served n p' q w)
