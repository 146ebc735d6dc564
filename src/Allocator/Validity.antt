-- ===== src/Allocator/Validity.antt =====
-- Every plane of every region stays well formed, whatever the allocator is asked to do.
pub mod Planes
use memory3d.Prelude.{
  ℕ, zero, suc, ◌+◌, ◌-◌, ◌%◌, ◌^◌, ◌≤◌, ◌<◌, ◌≡◌, refl, sym, ap, ◌∙◌, subst, ◌⊎◌, inl, inr, Bool,
  true, false, Option, none, some, List, [], ◌∷◌, ◌++◌, arith, ltb, leb, ◌==◌, not, ◌||◌, ◌&&◌,
  if◌then◌else◌, Bool-cases, Option-cases, length, lookup, insert, u16, u32, u64, sub32, min, All,
  All-append,
}
use memory3d.Types.Allocation.{Allocation, Fragment, Heap, is_y_promoted}
use memory3d.Types.Bitmap.{Search, found, not_found, panic, find_contiguous}
use memory3d.Types.Bitmap.Ranges.{
  set_range-IsValid, clear_range-IsValid, set_range-size, clear_range-size,
}
use memory3d.Types.Plane.{Plane, new_plane, allocate, free, free_bytes, record_allocation}
use memory3d.Types.Plane.Laws.{IsValid, new_plane-IsValid}
use memory3d.Types.Region.{Region, new_region, add_plane, find_plane, write_plane}
use memory3d.Allocator.State.{
  Config, Allocator3D, Result, got, nothing, panicked, failed, new_allocator3d, remove_id,
  promote_region_lru, get_plane_from_pool,
}
use memory3d.Allocator.Fast.{
  Placed, placed, unplaced, crashed, behind, place, commit, fast_loop, try_fast_allocation,
  allocate_in_region,
}
use memory3d.Allocator.Promotion.{
  best_region, Fragmented, behind_fragmented, fragment_loop, rollback_one, rollback, record_first,
  first_place, finish_promotion, try_y_promotion,
}
use memory3d.Allocator.Sync.{
  allocate_new_region, or_else, allocate_sync, do_allocate, allocate_concurrent,
}
use memory3d.Allocator.Sync
use memory3d.Allocator.Validity.Planes.{
  AllPlanes, PlacedValid, place-valid, FragmentedValid, fragment_loop-valid, rollback-valid,
  record_first-valid, free_in_region-valid,
}
use memory3d.Allocator.Release.{
  FreeResult, free_fragments, free_in_region, settle_free, free_sync, free_concurrent,
  free_allocation,
}

-- The planes of every region are valid, and a new plane will be.
pub record IsSound (a : Allocator3D) : Type 0 where
  pub regions_valid : All (λ (e : ℕ × Region). AllPlanes e.1.planes) a.regions
  pub small : a.config.plane_size < 2 ^ 16

abbrev pub AllRegions : List (ℕ × Region) → Type 0
AllRegions rs = All (λ (e : ℕ × Region). AllPlanes e.1.planes) rs

pub insert-valid :
    (id : ℕ) (r : Region) (rs : List (ℕ × Region))
    → AllPlanes r.planes
    → AllRegions rs
    → AllRegions (insert id r rs)
insert-valid id r [] v vs = (v, tt)
insert-valid id r ((j, s) ∷ rs) v (w, vs) = elim (Bool-cases (j == id)) [
  | inl e ↦ rw (e) (v, vs)
  | inr e ↦ rw (e) (w, insert-valid id r rs v vs)
]

pub lookup-valid :
    (id : ℕ) (rs : List (ℕ × Region)) (r : Region)
    → lookup id rs ≡ some r
    → AllRegions rs
    → AllPlanes r.planes
lookup-valid id [] r e vs = cc
lookup-valid id ((j, s) ∷ rs) r e (v, vs) = elim (Bool-cases (j == id)) [
  | inl same ↦ let s_is_r : s ≡ r = here same e in subst (λ t. AllPlanes t.planes) s_is_r v
  | inr other ↦ lookup-valid id rs r (later other e) vs
]
  where
    here : (j == id) ≡ true → lookup id ((j, s) ∷ rs) ≡ some r → s ≡ r
    here same e = ground arith

    later : (j == id) ≡ false → lookup id ((j, s) ∷ rs) ≡ some r → lookup id rs ≡ some r
    later other e = ground arith

-- The allocator with other planes in a region.
pub put_region :
    (a : Allocator3D) (id : ℕ) (r : Region)
    → IsSound a
    → AllPlanes r.planes
    → IsSound (record a { regions = insert id r a.regions })
put_region a id r s v = record {
  regions_valid = insert-valid id r a.regions v s.regions_valid;
  small = s.small;
}

pub new_allocator3d-IsSound :
    (config : Config) → config.plane_size < 2 ^ 16 → IsSound (new_allocator3d config)
unfolding new_allocator3d
new_allocator3d-IsSound config h = record { regions_valid = tt; small = h }

pub promote_region_lru-IsSound :
    (a : Allocator3D) (id : ℕ) → IsSound a → IsSound (promote_region_lru a id)
unfolding promote_region_lru
promote_region_lru-IsSound a id s = elim (Option-cases (lookup id a.regions)) [
  | inl e ↦ rw (e, promote_region_lru) (record { regions_valid = s.regions_valid; small = s.small })
  | inr (r, e) ↦
      rw (e, promote_region_lru) (record { regions_valid = s.regions_valid; small = s.small })
]

pub pooled-IsValid :
    (config : Config) (id region_id : ℕ)
    → config.plane_size < 2 ^ 16
    → IsValid (get_plane_from_pool config id region_id)
unfolding get_plane_from_pool
pooled-IsValid config id region_id h = elim (Bool-cases config.enable_pooling) [
  | inl e ↦
      let v = new_plane-IsValid 0 0 config.plane_size h in
      rw (e) (record { map_valid = v.map_valid; map_size = v.map_size; bytes_size = v.bytes_size })
  | inr e ↦ rw (e) (new_plane-IsValid id region_id config.plane_size h)
]

pub add_plane-valid :
    (r : Region) (p : Plane) → AllPlanes r.planes → IsValid p → AllPlanes (add_plane r p).planes
unfolding add_plane
add_plane-valid r p vs v = All-append IsValid r.planes (p ∷ []) vs (v, tt)

pub commit-IsSound :
    (now : ℕ) (a : Allocator3D) (r : Region) (ps : List Plane) (id start size kind flags : ℕ)
    → IsSound a
    → AllPlanes ps
    → IsSound (commit now a r ps id start size kind flags).0
unfolding commit
commit-IsSound now a r ps id start size kind flags s v =
    promote_region_lru-IsSound _ r.id
      (record { regions_valid = insert-valid r.id _ a.regions v s.regions_valid; small = s.small })
