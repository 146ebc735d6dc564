-- ===== src/Allocator/Promoter/Plans/Covering.antt =====
-- What a plan of ypromotion.go covers, and what the loop for one has gathered.
use memory3d.Prelude.{
  some, get_elem?, All, All-append, ℕ, ◌+◌, ◌^◌, ◌≤◌, ◌<◌, ◌≡◌, refl, ap, ◌∙◌, List, [], ◌∷◌, ◌++◌,
  arith, sub32,
}
use memory3d.Types.Bitmap
use memory3d.Types.Bitmap.{Search, found, not_found, panic}
use memory3d.Types.Plane.{Plane, allocate, free_bytes}
use memory3d.Allocator.Promoter.{
  PromotionFragment, PromotionPlan, Planned, planned, unplanned, crashed, behind_plan,
}

abbrev pub sum_sizes : List PromotionFragment → ℕ
sum_sizes [] = 0
sum_sizes (f ∷ fs) = f.size + sum_sizes fs

pub sum_sizes-append :
    (fs gs : List PromotionFragment) → sum_sizes (fs ++ gs) ≡ sum_sizes fs + sum_sizes gs
sum_sizes-append [] gs = omega arith
sum_sizes-append (f ∷ fs) gs = omega (arith, sum_sizes-append fs gs)

-- The planes of the fragments, in order.
abbrev pub plane_ids : List PromotionFragment → List ℕ
plane_ids [] = []
plane_ids (f ∷ fs) = f.plane_id ∷ plane_ids fs

pub plane_ids-append :
    (fs gs : List PromotionFragment) → plane_ids (fs ++ gs) ≡ plane_ids fs ++ plane_ids gs
plane_ids-append [] gs = refl
plane_ids-append (f ∷ fs) gs = ap (λ (t : List ℕ). f.plane_id ∷ t) (plane_ids-append fs gs)

-- The plane is one of these.
abbrev pub Among : Plane → List Plane → Type 0
Among p ps = (place : ℕ) × (get_elem? ps place ≡ some p)

-- The fragment names one of these planes, and the place that Allocate finds there for its size.
abbrev pub Found : List Plane → PromotionFragment → Type 0
Found ps f =
    (p : Plane) × Among p ps × (f.plane_id ≡ p.id) × ((allocate p f.size).1 ≡ found f.start_z)

-- The plan covers `size` bytes: its planes are those of its fragments, and each fragment is a place
-- that was found in its plane.
pub record Covers (all : List Plane) (size : ℕ) (plan : PromotionPlan) : Type 0 where
  pub total : plan.total_size ≡ size
  pub sums : sum_sizes plan.fragments ≡ size
  pub same_planes : plane_ids plan.fragments ≡ plan.planes
  pub places : All (Found all) plan.fragments

abbrev pub PlanCovers : List Plane → ℕ → Planned → Type 0
PlanCovers all size (planned ps plan) = Covers all size plan
PlanCovers all size (unplanned ps) = Unit
PlanCovers all size crashed = Unit

pub behind_plan-PlanCovers :
    (all : List Plane) (size : ℕ) (p : Plane) (r : Planned)
    → PlanCovers all size r
    → PlanCovers all size (behind_plan p r)
behind_plan-PlanCovers all size p (planned ps plan) c = c
behind_plan-PlanCovers all size p (unplanned ps) c = tt
behind_plan-PlanCovers all size p crashed c = tt

pub free_bytes_small : (p : Plane) → free_bytes p < 2 ^ 16
unfolding Bitmap.free_bytes
free_bytes_small p = omega arith

-- What the loop of findMultiPlaneFit has gathered, with what remains of the request.
pub record Gathered (all : List Plane) (total remaining : ℕ) (used : List ℕ)
    (fragments : List PromotionFragment) : Type 0 where
  pub small : remaining < 2 ^ 32
  pub sums : remaining + sum_sizes fragments ≡ total
  pub same_planes : plane_ids fragments ≡ used
  pub places : All (Found all) fragments

pub gather_one :
    (all : List Plane) (total remaining size start : ℕ) (used : List ℕ)
    (fragments : List PromotionFragment) (p : Plane)
    → size ≤ remaining
    → Among p all
    → (allocate p size).1 ≡ found start
    → Gathered all total remaining used fragments
    → Gathered all total
        (sub32 remaining size)
        (used ++ p.id ∷ [])
        (fragments ++ record { plane_id = p.id; start_z = start; size = size } ∷ [])
gather_one all total remaining size start used fragments p within among e g =
    let small = g.small in
    let one : PromotionFragment = record { plane_id = p.id; start_z = start; size = size } in
    record {
      small = omega arith;
      sums = omega (arith, g.sums, sum_sizes-append fragments (one ∷ []));
      same_planes =
          plane_ids-append fragments (one ∷ []) ∙ ap (λ (t : List ℕ). t ++ p.id ∷ []) g.same_planes;
      places = All-append (Found all) fragments (one ∷ []) g.places ((p, among, refl, e), tt);
    }
