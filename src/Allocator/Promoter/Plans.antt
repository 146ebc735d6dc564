-- ===== src/Allocator/Promoter/Plans.antt =====
-- What a plan adds up to, and what the search for one leaves behind.
pub mod Covering
use memory3d.Prelude.{
  suc, some, subst, get_elem?, All, All-append, either, ℕ, ◌^◌, ◌≤◌, ◌<◌, ◌≡◌, refl, ap, inl, inr,
  true, false, ◌||◌, List, [], ◌∷◌, ◌++◌, arith, ltb, leb, ◌==◌, leb→le, Bool-cases, length, min,
  length-append, u16, sub32, not_ltb→le,
}
use memory3d.Types.Allocation.{Heap}
use memory3d.Types.Bitmap
use memory3d.Types.Bitmap.{Search, found, not_found, panic}
use memory3d.Types.Plane.{Plane, allocate, free_bytes}
use memory3d.Allocator.Promoter.{
  PromotionFragment, PromotionPlan, Planned, planned, unplanned, crashed, behind_plan, tested,
  single_plan, find_single_plane, find_multi_plane, find_multi_plane_fit, or_multi, find_best_fit,
}
use memory3d.Allocator.Promoter.Plans.Covering.{
  sum_sizes, plane_ids, Among, Found, Covers, PlanCovers, behind_plan-PlanCovers, free_bytes_small,
  Gathered, gather_one,
}

module _ (h : Heap) (all : List Plane) (size : ℕ) where
  single_plan-Covers :
      (p : Plane) (start : ℕ)
      → size < 2 ^ 16
      → Among p all
      → (allocate p (u16 size)).1 ≡ found start
      → Covers all size (single_plan p.id start size)
  single_plan-Covers p start fits among e = record {
    total = refl;
    sums = omega arith;
    same_planes = refl;
    places = ((p, among, refl, e), tt);
  }

  find_single_plane-PlanCovers :
      (ps : List Plane)
      → ((q : Plane) → Among q ps → Among q all)
      → PlanCovers all size (find_single_plane h size ps)
  unfolding find_single_plane
  find_single_plane-PlanCovers [] inside = tt
  find_single_plane-PlanCovers (p ∷ ps) inside =
      let rest =
        behind_plan-PlanCovers all size p _
          (find_single_plane-PlanCovers ps (λ q (place, e). inside q (suc place, e))) in
      elim (Bool-cases (ltb 0 (free_bytes p))) [
        | inr full ↦ rw (full) rest
        | inl room ↦ elim (Bool-cases (leb size (free_bytes p))) [
          | inr few ↦ rw (room, few) rest
          | inl enough ↦ go room enough rest ((allocate p (u16 size)).1) refl
        ]
      ]
    where
      go :
          ltb 0 (free_bytes p) ≡ true
          → leb size (free_bytes p) ≡ true
          → PlanCovers all size (behind_plan p (find_single_plane h size ps))
          → (r : Search) → (allocate p (u16 size)).1 ≡ r
          → PlanCovers all size (find_single_plane h size (p ∷ ps))
      go room enough rest (found s) e =
          rw (room, enough, find_single_plane, e)
            (single_plan-Covers p s
              (omega (arith, leb→le size (free_bytes p) enough, free_bytes_small p))
              (inside p (0, refl)) e)
      go room enough rest not_found e = rw (room, enough, find_single_plane, e) rest
      go room enough rest panic e = rw (room, enough, find_single_plane, e) tt

module _ (h : Heap) (all : List Plane) (total : ℕ) where
  -- One round of the loop of findMultiPlaneFit.
  multi_step :
      (remaining : ℕ) (used : List ℕ) (fragments : List PromotionFragment) (p : Plane)
      (ps : List Plane)
      → Among p all
      → Gathered all total remaining used fragments
      → ((m : ℕ) (us : List ℕ) (fs : List PromotionFragment)
          → Gathered all total m us fs
          → PlanCovers all total (find_multi_plane h total m us fs ps))
      → PlanCovers all total (find_multi_plane h total remaining used fragments (p ∷ ps))
  unfolding find_multi_plane
  multi_step remaining used fragments p ps among g again =
      elim (Bool-cases ((remaining == 0) || (free_bytes p == 0))) [
        | inl full ↦ rw (full) skipped
        | inr room ↦ go room ((allocate p size).1) refl
      ]
    where
      size : ℕ
      size = u16 (min (free_bytes p) remaining)

      within : size ≤ remaining
      within = omega arith

      skipped :
          PlanCovers all total
            (behind_plan p (find_multi_plane h total remaining used fragments ps))
      skipped = behind_plan-PlanCovers all total p _ (again remaining used fragments g)

      go :
          ((remaining == 0) || (free_bytes p == 0)) ≡ false
          → (r : Search) → (allocate p size).1 ≡ r
          → PlanCovers all total (find_multi_plane h total remaining used fragments (p ∷ ps))
      go room (found start) e =
          rw (room, find_multi_plane, e)
            (behind_plan-PlanCovers all total (tested h p size start) _ (
              again _ _ _
                (gather_one all total remaining size start used fragments p within among e g)))
      go room not_found e = rw (room, find_multi_plane, e) skipped
      go room panic e = rw (room, find_multi_plane, e) tt

  find_multi_plane-PlanCovers :
      (remaining : ℕ) (used : List ℕ) (fragments : List PromotionFragment) (ps : List Plane)
      → ((q : Plane) → Among q ps → Among q all)
      → Gathered all total remaining used fragments
      → PlanCovers all total (find_multi_plane h total remaining used fragments ps)
  unfolding find_multi_plane
  find_multi_plane-PlanCovers remaining used fragments [] inside g =
      elim (Bool-cases (ltb 0 remaining)) [
        | inl short ↦ rw (short) tt
        | inr done ↦
            let none_left : remaining ≤ 0 = not_ltb→le 0 remaining done in
            rw (done) (record {
              total = refl;
              sums = omega (arith, g.sums);
              same_planes = g.same_planes;
              places = g.places;
            })
      ]
  find_multi_plane-PlanCovers remaining used fragments (p ∷ ps) inside g =
      multi_step remaining used fragments p ps (inside p (0, refl)) g (λ m us fs.
        find_multi_plane-PlanCovers m us fs ps (λ q (place, e). inside q (suc place, e)))

-- A search that finds no single plane leaves the planes as they are.
abbrev Left : List Plane → Planned → Type 0
Left ps (planned qs plan) = Unit {0}
Left ps (unplanned qs) = qs ≡ ps
Left ps crashed = Unit {0}

behind_plan-Left :
    (p : Plane) (ps : List Plane) (r : Planned) → Left ps r → Left (p ∷ ps) (behind_plan p r)
behind_plan-Left p ps (planned qs plan) l = tt
behind_plan-Left p ps (unplanned qs) l = ap (λ (t : List Plane). p ∷ t) l
behind_plan-Left p ps crashed l = tt

find_single_plane-Left :
    (h : Heap) (size : ℕ) (ps : List Plane) → Left ps (find_single_plane h size ps)
unfolding find_single_plane
find_single_plane-Left h size [] = refl
find_single_plane-Left h size (p ∷ ps) =
    let rest = behind_plan-Left p ps _ (find_single_plane-Left h size ps) in
    either (Left (p ∷ ps)) (ltb 0 (free_bytes p))
      (either (Left (p ∷ ps)) (leb size (free_bytes p)) (go ((allocate p (u16 size)).1) rest) rest)
      rest
  where
    go :
        (r : Search)
        → Left (p ∷ ps) (behind_plan p (find_single_plane h size ps))
        → Left (p ∷ ps) (elim r [
          | found start ↦ planned (tested h p (u16 size) start ∷ ps) (single_plan p.id start size)
          | not_found ↦ behind_plan p (find_single_plane h size ps)
          | panic ↦ crashed
        ])
    go (found start) rest = tt
    go not_found rest = rest
    go panic rest = tt

or_multi-PlanCovers :
    (h : Heap) (size : ℕ) (all : List Plane) (r : Planned)
    → size < 2 ^ 32
    → Left all r
    → PlanCovers all size r
    → PlanCovers all size (or_multi h size r)
unfolding find_multi_plane_fit
or_multi-PlanCovers h size all (planned ps plan) fits l c = c
or_multi-PlanCovers h size all (unplanned ps) fits l c =
    find_multi_plane-PlanCovers h all size size [] [] ps (λ q among. subst (Among q) l among)
      (record { small = fits; sums = omega arith; same_planes = refl; places = tt })
or_multi-PlanCovers h size all crashed fits l c = c

-- A plan of findBestFit, for a request of a uint32 size over any planes, has fragments whose
-- sizes add up to the request; its planes are those of its fragments in order, and each fragment
-- is at the start that Allocate finds for its size in one of the given planes, the one whose ID
-- it names.
pub find_best_fit-PlanCovers :
    (h : Heap) (size : ℕ) (ps : List Plane)
    → size < 2 ^ 32
    → PlanCovers ps size (find_best_fit h size ps)
unfolding find_best_fit
find_best_fit-PlanCovers h size ps fits =
    or_multi-PlanCovers h size ps _ fits (find_single_plane-Left h size ps)
      (find_single_plane-PlanCovers h ps size ps (λ q among. among))

-- The planes that a search leaves.
abbrev pub planes_left : List Plane → Planned → List Plane
planes_left before (planned ps plan) = ps
planes_left before (unplanned ps) = ps
planes_left before crashed = before
