-- ===== src/Allocator/Compaction.antt =====
-- GetCompactionReport and AnalyzeCompaction of internal/allocator/allocator.go. The maps are lists in
-- the order in which range visits them.
pub mod Movable
use Prim.Native.Nat.{bit_and}
use memory3d.Prelude.{
  ℕ, ◌+◌, Bool, true, false, not, ◌&&◌, ◌||◌, Option, none, some, List, [], ◌∷◌, ◌++◌, map, leb,
  ◌==◌, if◌then◌else◌, length, insert,
}
use memory3d.Types.Allocation.{Allocation, Heap, deref, flag_pinned, is_y_promoted}
use memory3d.Types.Float.{FloatOps}
use memory3d.Types.Fragmentation.{CompactionReport, get_compaction_report}
use memory3d.Types.Plane.{Plane}
use memory3d.Types.Region.{Region}
use memory3d.Allocator.State.{Allocator3D}

pub record CompactionConfig (F : Type 0) : Type 0 where
  pub fragmentation_threshold : F
  pub max_allocations_to_move : ℕ
  pub gas_refund_percentage : F

-- Neither pinned nor split over several planes.
unfoldable pub is_movable : Allocation → Bool
is_movable a = (bit_and a.flags flag_pinned == 0) && not (is_y_promoted a)

-- The loop over a plane's allocations: the IDs so far, and whether there are enough. A nil pointer
-- is in no plane's map.
unfoldable pub collect_allocations : Heap → ℕ → List ℕ → List (ℕ × ℕ) → List ℕ × Bool
collect_allocations h max ids [] = (ids, false)
collect_allocations h max ids ((start, ptr) ∷ entries) = elim (deref h ptr) [
  | none ↦ collect_allocations h max ids entries
  | some a ↦
      let ids' = if is_movable a then ids ++ a.id ∷ [] else ids in
      let rest = collect_allocations h max ids' entries in
      if is_movable a && leb max (length ids') then (ids', true) else rest
]

unfoldable pub collect_planes : Heap → ℕ → List ℕ → List Plane → List ℕ × Bool
collect_planes h max ids [] = (ids, false)
collect_planes h max ids (p ∷ ps) =
    let here = collect_allocations h max ids p.allocations in
    let rest = collect_planes h max here.0 ps in if here.1 then here else rest

module _ {F : Type 0} (float : FloatOps F) where
  unfoldable pub default_compaction_config : CompactionConfig F
  default_compaction_config = record {
    fragmentation_threshold = float.decimal 30 2;
    max_allocations_to_move = 10;
    gas_refund_percentage = float.decimal 50 2;
  }

  -- The region is not fragmented enough.
  unfoldable pub skips : CompactionConfig F → Region → Bool
  skips config r =
      let report = get_compaction_report float r in
      not report.recommend_compact
      || float.below report.fragmentation config.fragmentation_threshold

  unfoldable pub collect_regions : Heap → CompactionConfig F → List ℕ → List (ℕ × Region) → List ℕ
  collect_regions h config ids [] = ids
  collect_regions h config ids ((x, r) ∷ rs) =
      let here =
        if skips config r
        then (ids, false)
        else collect_planes h config.max_allocations_to_move ids r.planes in
      let rest = collect_regions h config here.0 rs in if here.1 then here.0 else rest

  unfoldable pub analyze_compaction : Allocator3D → CompactionConfig F → List ℕ
  analyze_compaction a config = collect_regions a.heap config [] a.regions

  unfoldable pub add_reports :
      List (ℕ × Region) → List (ℕ × CompactionReport F) → List (ℕ × CompactionReport F)
  add_reports [] m = m
  add_reports ((x, r) ∷ rs) m = add_reports rs (insert r.id (get_compaction_report float r) m)

  unfoldable pub allocator_report : Allocator3D → List (ℕ × CompactionReport F)
  allocator_report a = add_reports a.regions []
