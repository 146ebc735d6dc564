-- ===== src/Types/Fragmentation.antt =====
-- The floating-point measures of internal/types: Fragmentation of bitmap.go, plane.go and region.go,
-- GetHotnessScore of allocation.go, and the CompactionReport of region.go.
use memory3d.Prelude.{
  ℕ, ◌-◌, ◌*◌, ◌/◌, ◌^◌, Bool, false, ◌&&◌, List, [], ◌∷◌, ltb, ◌==◌, if◌then◌else◌, length, u32,
  u64, sub64,
}
use memory3d.Types.Allocation.{Allocation}
use memory3d.Types.Bitmap.{Bitmap, count_holes}
use memory3d.Types.Bitmap
use memory3d.Types.Float.{FloatOps}
use memory3d.Types.Plane.{Plane}
use memory3d.Types.Region.{Region}

pub record CompactionReport (F : Type 0) : Type 0 where
  pub region_id : ℕ
  pub total_bytes : ℕ
  pub used_bytes : ℕ
  pub free_bytes : ℕ
  pub fragmentation : F
  pub allocation_count : ℕ
  pub recommend_compact : Bool
  pub estimated_gas_savings : ℕ

module _ {F : Type 0} (float : FloatOps F) where
  -- The difference of two small counts is exact.
  unfoldable pub bitmap_fragmentation : Bitmap → F
  bitmap_fragmentation b =
      if Bitmap.free_bytes b == 0
      then float.decimal 0 1
      else float.quotient
          (float.sub (float.of_nat (count_holes b.size b 0 0 false)) (float.of_nat 1))
          (float.of_nat (Bitmap.free_bytes b))

  abbrev pub plane_fragmentation : Plane → F
  plane_fragmentation p = bitmap_fragmentation p.free_map

  unfoldable pub total_fragmentation : F → List Plane → F
  total_fragmentation total [] = total
  total_fragmentation total (p ∷ ps) =
      total_fragmentation (float.add total (plane_fragmentation p)) ps

  unfoldable pub region_fragmentation : Region → F
  region_fragmentation r =
      if length r.planes == 0
      then float.decimal 0 1
      else float.quotient (total_fragmentation (float.decimal 0 1) r.planes)
          (float.of_nat (length r.planes))

  unfoldable pub get_compaction_report : Region → CompactionReport F
  get_compaction_report r =
      let fragmentation = region_fragmentation r in
      let recommend = float.below (float.decimal 30 2) fragmentation && ltb 0 r.free_bytes in
      record {
        region_id = r.id;
        total_bytes = r.total_bytes;
        used_bytes = sub64 r.total_bytes r.free_bytes;
        free_bytes = r.free_bytes;
        fragmentation = fragmentation;
        allocation_count = u32 r.alloc_count;
        recommend_compact = recommend;
        estimated_gas_savings =
            if recommend && ltb 1024 r.free_bytes then u64 (r.free_bytes / 1024 * 50) else 0;
      }

  -- `elapsed` is the time since the last use in nanoseconds, `now - LastUsed`, where the clock does
  -- not run backwards.
  unfoldable pub get_hotness_score : ℕ → Allocation → F
  get_hotness_score now a =
      let one = float.decimal 10 1 in
      let seconds = float.quotient (float.of_nat (now - a.last_used)) (float.of_nat (10 ^ 9)) in
      let penalty = float.quotient one (float.add one (float.mul seconds (float.decimal 5 1))) in
      let frequency = float.quotient (float.of_nat a.access_count) (float.decimal 10000 1) in
      float.mul penalty frequency
