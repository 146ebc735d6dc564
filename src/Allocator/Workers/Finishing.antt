-- ===== src/Allocator/Workers/Finishing.antt =====
-- Wherever the workers are, they get to the end of what there is to do, or to a request that panics.
use memory3d.Prelude.{
  ℕ, zero, suc, ◌+◌, ◌<◌, ◌≡◌, refl, ap, ◌∙◌, ◌⊎◌, inl, inr, Bool, none, some, List, [], ◌∷◌, ◌++◌,
  arith, leb, ltb, if◌then◌else◌, true, lt→ltb, length, get_elem?, Bool-cases, u64,
}
use memory3d.Types.Plane.{Plane, free_bytes}
use memory3d.Allocator.State.{
  Allocator3D, Result, got, nothing, panicked, failed, failed_in_new_plane, insufficient_memory,
  get_plane_from_pool,
}
use memory3d.Allocator.Fast.{Placed, placed, unplaced, crashed, place, commit, try_fast_allocation}
use memory3d.Allocator.Promotion.{try_y_promotion}
use memory3d.Allocator.Sync.{allocate_new_region, or_else, allocate_sync, do_allocate}
use memory3d.Allocator.Workers.{
  AllocRequest, Pool, run_request, take_oldest, take_request, worked, deliver, run_taken,
}
use memory3d.Allocator.Workers.Serving.{
  Works, rest, takes, runs, waiting, answered, work_left, Works-Served, take_request-Moves,
  run_taken-Moves,
}

-- The last path of an allocation has an answer of some kind.
allocate_new_region-answers :
    (now : ℕ) (a : Allocator3D) (size kind flags : ℕ)
    → (allocate_new_region now a size kind flags).1 ≡ nothing
    → ⊥
unfolding allocate_new_region commit
allocate_new_region-answers now a size kind flags e =
    elim (Bool-cases (leb size (free_bytes plane))) [
      | inr few ↦
          let refused : (allocate_new_region now a size kind flags).1
              ≡ failed (insufficient_memory size) =
            rw (few, allocate_new_region) refl in
          absurd cc
      | inl enough ↦ go enough (place (length a.heap) size (plane ∷ [])) refl
    ]
  where
    plane : Plane
    plane = get_plane_from_pool a.config 0 (u64 (a.next_region_id + 1))

    go :
        leb size (free_bytes plane) ≡ true
        → (r : Placed) → place (length a.heap) size (plane ∷ []) ≡ r
        → ⊥
    go enough (placed ps id start) f =
        let answer : (allocate_new_region now a size kind flags).1 ≡ got (length a.heap) =
          rw (enough, allocate_new_region, f, commit) refl in
        cc
    go enough unplaced f =
        let answer : (allocate_new_region now a size kind flags).1 ≡ failed failed_in_new_plane =
          rw (enough, allocate_new_region, f) refl in
        cc
    go enough crashed f =
        let answer : (allocate_new_region now a size kind flags).1 ≡ panicked =
          rw (enough, allocate_new_region, f) refl in
        cc

pub run_request-answers :
    (now : ℕ) (a : Allocator3D) (r : AllocRequest) → (run_request now a r).1 ≡ nothing → ⊥
unfolding run_request do_allocate allocate_sync
run_request-answers now a r e = after_fast (try_fast_allocation now a r.size r.region_type) e
  where
    after_promotion :
        (t : Allocator3D × Result)
        → (or_else t (λ a2. allocate_new_region now a2 r.size r.region_type r.flags)).1 ≡ nothing
        → ⊥
    after_promotion (b, nothing) f =
        allocate_new_region-answers now b r.size r.region_type r.flags f
    after_promotion (b, got ptr) f = cc
    after_promotion (b, panicked) f = cc
    after_promotion (b, failed x) f = cc

    after_fast :
        (t : Allocator3D × Result)
        → (or_else t (λ a1.
            or_else
              (try_y_promotion now a1 r.size r.region_type r.flags)
              λ a2. allocate_new_region now a2 r.size r.region_type r.flags)).1
          ≡ nothing
        → ⊥
    after_fast (b, nothing) f =
        after_promotion (try_y_promotion now b r.size r.region_type r.flags) f
    after_fast (b, got ptr) f = cc
    after_fast (b, panicked) f = cc
    after_fast (b, failed x) f = cc

take_request-eq :
    (p : Pool) (r : AllocRequest) (rs : List AllocRequest)
    → p.queue ≡ r ∷ rs
    → length p.taken < p.workers
    → take_request p ≡ some (record p { queue = rs; taken = p.taken ++ r ∷ [] })
unfolding take_request take_oldest
take_request-eq p r rs f idle =
    let test : ltb (length p.taken) p.workers ≡ true = lt→ltb _ _ idle in
    ap (λ (b : Bool). if b then take_oldest p p.queue else none) test ∙ ap (take_oldest p) f

-- A request of those taken is run and answered, or the allocator panics on it.
run_cases :
    (now place : ℕ) (p : Pool) (r : AllocRequest)
    → get_elem? p.taken place ≡ some r
    → ((q : Pool) × (run_taken now p place ≡ worked q))
      ⊎ ((run_request now p.allocator r).1 ≡ panicked)
unfolding run_taken deliver
run_cases now place p r there = go (run_request now p.allocator r) refl
  where
    opened :
        (t : Allocator3D × Result)
        → run_request now p.allocator r ≡ t
        → run_taken now p place ≡ deliver p place r t
    opened t e = rw (there, run_taken) (ap (deliver p place r) e)

    go :
        (t : Allocator3D × Result)
        → run_request now p.allocator r ≡ t
        → ((q : Pool) × (run_taken now p place ≡ worked q))
          ⊎ ((run_request now p.allocator r).1 ≡ panicked)
    go (a, panicked) e = inr (ap (λ (t : Allocator3D × Result). t.1) e)
    go (a, nothing) e =
        absurd (run_request-answers now p.allocator r (ap (λ (t : Allocator3D × Result). t.1) e))
    go (a, got ptr) e = inl (_, opened (a, got ptr) e)
    go (a, failed x) e = inl (_, opened (a, failed x) e)

-- How a run of the workers ends, at the time of its last steps: nothing is left, or the allocator
-- panics on a request that a worker has taken.
abbrev pub Ends : ℕ → Pool → Type 0
Ends now p =
    ((p.queue ≡ []) × (p.taken ≡ []))
    ⊎ ((place : ℕ) × (r : AllocRequest) × (get_elem? p.taken place ≡ some r)
        × ((run_request now p.allocator r).1 ≡ panicked))

-- Something can be done while something is left.
finishes :
    (now m : ℕ) (p : Pool)
    → work_left p ≡ m
    → 0 < p.workers
    → (n : ℕ) × (q : Pool) × Works n p q × Ends now q
finishes now zero p done pos =
    (0, p, rest p, inl (empty p.queue (omega arith), empty p.taken (omega arith)))
  where
    empty : (rs : List AllocRequest) → length rs ≡ 0 → rs ≡ []
    empty [] e = refl
    empty (r ∷ rs) e = absurd (omega (arith, e))
finishes now (suc m) p some_left pos = go p.taken p.queue refl refl (λ p'. finishes now m p')
  where
    go :
        (ts rs : List AllocRequest)
        → p.taken ≡ ts
        → p.queue ≡ rs
        → ((p' : Pool)
            → work_left p' ≡ m
            → 0 < p'.workers
            → (n : ℕ) × (q : Pool) × Works n p' q × Ends now q)
        → (n : ℕ) × (q : Pool) × Works n p q × Ends now q
    go [] [] e f again = absurd (omega (arith, some_left, ap length e, ap length f))
    go (t ∷ ts) rs e f again =
        let there : get_elem? p.taken 0 ≡ some t =
          ap (λ (l : List AllocRequest). get_elem? l 0) e in
        elim (run_cases now 0 p t there) [
          | inr panic ↦ (0, p, rest p, inr (0, t, there, panic))
          | inl (p', runs_it) ↦
              let moved = run_taken-Moves now 0 p p' runs_it in
              let (n, q, w, end) =
                again p' (omega (arith, moved.left, some_left))
                  (omega (arith, moved.same_workers, pos)) in
              (suc n, q, runs n now 0 p p' q runs_it w, end)
        ]
    go [] (r ∷ rs) e f again =
        let next = record p { queue = rs; taken = p.taken ++ r ∷ [] } in
        let takes_it = take_request-eq p r rs f (omega (arith, ap length e, pos)) in
        let moved = take_request-Moves p next takes_it in
        let (n, q, w, end) = again next (omega (arith, moved.left, some_left)) pos in
        (suc n, q, takes n p next q takes_it w, end)

-- From where any interleaving of the workers' steps has led, with at least one worker, further
-- steps, at any time `now`, lead to a state where nothing waits and nothing is taken, or where
-- the allocator panics on a request that a worker has taken, which ends the process. On the way
-- each request is accounted for on its result channel: the answers and the requests that wait or
-- are taken are as many as at the start; and the steps of both parts with what is left to do,
-- two steps for a request that waits and one for a request that is taken, are as many as there
-- was to do at the start.
pub workers_serve :
    (n now : ℕ) (p q : Pool)
    → 0 < p.workers
    → Works n p q
    → (m : ℕ) × (last : Pool) × Works m q last
      × Ends now last
      × (n + m + work_left last ≡ work_left p)
      × ((id : ℕ)
          → answered id last.answers + waiting id last.taken + waiting id last.queue
            ≡ answered id p.answers + waiting id p.taken + waiting id p.queue)
workers_serve n now p q pos w =
    let s = Works-Served n p q w in
    let (m, last, w', end) =
      finishes now (work_left q) q refl (omega (arith, s.same_workers, pos)) in
    let s' = Works-Served m q last w' in
    (m, last, w', end, omega (arith, s.left, s'.left), λ id. s'.account id ∙ s.account id)
