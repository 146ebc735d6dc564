-- ===== src/Allocator/Promoter.antt =====
-- internal/allocator/ypromotion.go: plans for a block over several planes. YPromotionStrategy has no
-- implementation, and the fields of BestFitPromoter are never read. The planes change, since a test
-- allocation is made in them.
pub mod Plans
use memory3d.Prelude.{
  ℕ, ◌+◌, ◌-◌, ◌*◌, ◌%◌, ◌^◌, Bool, true, false, ◌||◌, List, [], ◌∷◌, ◌++◌, ltb, leb, ◌==◌,
  if◌then◌else◌, length, min, u16, u32, u64, sub32,
}
use memory3d.Types.Allocation.{Heap}
use memory3d.Types.Bitmap.{Search, found, not_found, panic}
use memory3d.Types.Constants.{gas_base_allocation, gas_per_byte, gas_y_promotion}
use memory3d.Types.Float.{FloatOps}
use memory3d.Types.Plane.{Plane, allocate, free, free_bytes}
use memory3d.Types.Region.{Region}

pub record PromotionFragment : Type 0 where
  pub plane_id : ℕ
  pub start_z : ℕ
  pub size : ℕ

-- Cost and Score come last in the search: a plan of findBestFit has them at zero.
pub record PromotionPlan : Type 0 where
  pub region_id : ℕ
  pub planes : List ℕ
  pub fragments : List PromotionFragment
  pub total_size : ℕ

-- The planes after a search, with a plan, without one, or a run-time panic.
pub data Planned : Type 0 where
  planned : List Plane → PromotionPlan → Planned
  unplanned : List Plane → Planned
  crashed : Planned

abbrev pub behind_plan : Plane → Planned → Planned
behind_plan p (planned ps plan) = planned (p ∷ ps) plan
behind_plan p (unplanned ps) = unplanned (p ∷ ps)
behind_plan p crashed = crashed

-- The plane after a test allocation of a success, and the Free whose result is not looked at.
abbrev pub tested : Heap → Plane → ℕ → ℕ → Plane
tested h p size start = (free h (allocate p size).0 start).0

abbrev pub single_plan : ℕ → ℕ → ℕ → PromotionPlan
single_plan id start size = record {
  region_id = 0;
  planes = id ∷ [];
  fragments = record { plane_id = id; start_z = start; size = u16 size } ∷ [];
  total_size = size;
}

-- The loop of findBestFit over the planes with free space.
unfoldable pub find_single_plane : Heap → ℕ → List Plane → Planned
find_single_plane h size [] = unplanned []
find_single_plane h size (p ∷ ps) =
    let rest = behind_plan p (find_single_plane h size ps) in
    if ltb 0 (free_bytes p)
    then if leb size (free_bytes p)
      then elim ((allocate p (u16 size)).1) [
        | found start ↦ planned (tested h p (u16 size) start ∷ ps) (single_plan p.id start size)
        | not_found ↦ rest
        | panic ↦ crashed
      ]
      else rest
    else rest

-- The fragments and the planes used, as the loop gathers them.
unfoldable pub find_multi_plane :
    Heap → ℕ → ℕ → List ℕ → List PromotionFragment → List Plane → Planned
find_multi_plane h total remaining used fragments [] =
    if ltb 0 remaining
    then unplanned []
    else planned []
        (record { region_id = 0; planes = used; fragments = fragments; total_size = total })
find_multi_plane h total remaining used fragments (p ∷ ps) =
    let size = u16 (min (free_bytes p) remaining) in
    let skip = behind_plan p (find_multi_plane h total remaining used fragments ps) in
    if remaining == 0 || free_bytes p == 0 then skip else elim ((allocate p size).1) [
      | found start ↦ behind_plan (tested h p size start) (
          find_multi_plane h total (sub32 remaining size) (used ++ p.id ∷ [])
            (fragments ++ record { plane_id = p.id; start_z = start; size = size } ∷ []) ps)
      | not_found ↦ skip
      | panic ↦ crashed
    ]

unfoldable pub find_multi_plane_fit : Heap → ℕ → List Plane → Planned
find_multi_plane_fit h size ps = find_multi_plane h size size [] [] ps

abbrev pub or_multi : Heap → ℕ → Planned → Planned
or_multi h size (planned ps plan) = planned ps plan
or_multi h size (unplanned ps) = find_multi_plane_fit h size ps
or_multi h size crashed = crashed

unfoldable pub find_best_fit : Heap → ℕ → List Plane → Planned
find_best_fit h size ps = or_multi h size (find_single_plane h size ps)

-- A plan with no plane, of a request for no bytes, has one plane too few: the difference wraps.
unfoldable pub calculate_cost : PromotionPlan → ℕ
calculate_cost plan =
    let base = u64 (gas_base_allocation + gas_per_byte * plan.total_size) in
    u64 (base + u64 ((length plan.planes + 2 ^ 64 - 1) * gas_y_promotion))

unfoldable pub are_planes_adjacent : List ℕ → Bool
are_planes_adjacent [] = true
are_planes_adjacent (x ∷ []) = true
are_planes_adjacent (x ∷ y ∷ xs) =
    let rest = are_planes_adjacent (y ∷ xs) in if y == u32 (x + 1) then rest else false

-- A plan with its cost and its score, nil, or a run-time panic.
pub data FoundPlan (F : Type 0) : Type 0 where
  a_plan : PromotionPlan → ℕ → F → FoundPlan F
  no_plan plan_crashed : FoundPlan F

module _ {F : Type 0} (float : FloatOps F) where
  unfoldable pub reward_large : F → List PromotionFragment → F
  reward_large score [] = score
  reward_large score (f ∷ fs) =
      reward_large (if ltb 1024 f.size then float.add score (float.decimal 5 2) else score) fs

  unfoldable pub calculate_score : PromotionPlan → F
  calculate_score plan =
      let penalty = float.mul (float.of_nat (length plan.planes)) (float.decimal 1 1) in
      let score = float.sub (float.decimal 10 1) penalty in
      let adjacent =
        if are_planes_adjacent plan.planes then float.add score (float.decimal 2 1) else score in
      reward_large adjacent plan.fragments

  -- FindPromotion. RegionID is set before the cost and the score are computed.
  unfoldable pub complete_plan : Region → Planned → Region × FoundPlan F
  complete_plan r (planned ps plan) =
      let plan' = record plan { region_id = r.id } in
      (record r { planes = ps }, a_plan plan' (calculate_cost plan') (calculate_score plan'))
  complete_plan r (unplanned ps) = (record r { planes = ps }, no_plan)
  complete_plan r crashed = (r, plan_crashed)

  unfoldable pub find_promotion : Heap → ℕ → Region → Region × FoundPlan F
  find_promotion h size r = complete_plan r (find_best_fit h size r.planes)
