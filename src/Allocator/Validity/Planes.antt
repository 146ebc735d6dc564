-- ===== src/Allocator/Validity/Planes.antt =====
-- Allocation and freeing keep the planes of a list valid.
use memory3d.Prelude.{
  ℕ, ◌+◌, ◌≡◌, refl, ◌∙◌, subst, inl, inr, true, false, Option, none, some, List, [], ◌∷◌, arith,
  leb, ◌==◌, Bool-cases, lookup, u16, min, All,
}
use memory3d.Types.Allocation.{Allocation, Fragment, Heap, is_y_promoted}
use memory3d.Types.Bitmap.{Search, found, not_found, panic, find_contiguous, clear_range}
use memory3d.Types.Bitmap.Ranges.{
  set_range-IsValid, clear_range-IsValid, set_range-size, clear_range-size,
}
use memory3d.Types.Plane.{Plane, allocate, free, free_bytes, record_allocation}
use memory3d.Types.Plane.Laws.{IsValid}
use memory3d.Types.Region.{find_plane, write_plane}
use memory3d.Allocator.Fast.{Placed, placed, unplaced, crashed, behind, place}
use memory3d.Allocator.Promotion.{
  Fragmented, behind_fragmented, fragment_loop, rollback_one, rollback, record_first,
}
use memory3d.Allocator.Release.{free_fragments, free_in_region}

abbrev pub AllPlanes : List Plane → Type 0
AllPlanes ps = All IsValid ps

clear_plane-IsValid :
    (p : Plane) (lo hi : ℕ) (entries : List (ℕ × ℕ))
    → IsValid p
    → IsValid (record p { free_map = clear_range p.free_map lo hi; allocations = entries })
clear_plane-IsValid p lo hi entries v = record {
  map_valid = clear_range-IsValid p.free_map lo hi v.map_valid;
  map_size = clear_range-size p.free_map lo hi ∙ v.map_size;
  bytes_size = v.bytes_size;
}

allocate-IsValid : (p : Plane) (n : ℕ) → IsValid p → IsValid (allocate p n).0
unfolding allocate
allocate-IsValid p n v = go (find_contiguous p.free_map n) refl
  where
    go : (r : Search) → find_contiguous p.free_map n ≡ r → IsValid (allocate p n).0
    go (found s) e =
        rw (e, allocate)
          (record {
            map_valid = set_range-IsValid p.free_map s (u16 (s + n)) v.map_valid;
            map_size = set_range-size p.free_map s (u16 (s + n)) ∙ v.map_size;
            bytes_size = v.bytes_size;
          })
    go not_found e = rw (e, allocate) v
    go panic e = rw (e, allocate) v

record-IsValid : (p : Plane) (start ptr : ℕ) → IsValid p → IsValid (record_allocation p start ptr)
record-IsValid p start ptr v = record {
  map_valid = v.map_valid;
  map_size = v.map_size;
  bytes_size = v.bytes_size;
}

free-IsValid : (h : Heap) (p : Plane) (start : ℕ) → IsValid p → IsValid (free h p start).0
unfolding free
free-IsValid h p start v = go (lookup start p.allocations) refl
  where
    go : (r : Option ℕ) → lookup start p.allocations ≡ r → IsValid (free h p start).0
    go none e = rw (e, free) v
    go (some ptr) e = rw (e, free) (clear_plane-IsValid p _ _ _ v)

-- Lists of planes.
abbrev pub PlacedValid : Placed → Type 0
PlacedValid (placed ps id start) = AllPlanes ps
PlacedValid unplaced = Unit
PlacedValid crashed = Unit

behind-valid : (p : Plane) (r : Placed) → IsValid p → PlacedValid r → PlacedValid (behind p r)
behind-valid p (placed ps id start) v vs = (v, vs)
behind-valid p unplaced v vs = tt
behind-valid p crashed v vs = tt

pub place-valid : (ptr size : ℕ) (ps : List Plane) → AllPlanes ps → PlacedValid (place ptr size ps)
unfolding place
place-valid ptr size [] vs = tt
place-valid ptr size (p ∷ ps) (v, vs) =
    let rest = behind-valid p (place ptr size ps) v (place-valid ptr size ps vs) in
    elim (Bool-cases (leb size (free_bytes p))) [
      | inr few ↦ rw (few, place) rest
      | inl enough ↦ go enough rest ((allocate p (u16 size)).1) refl
    ]
  where
    go :
        leb size (free_bytes p) ≡ true
        → PlacedValid (behind p (place ptr size ps))
        → (r : Search) → (allocate p (u16 size)).1 ≡ r
        → PlacedValid (place ptr size (p ∷ ps))
    go enough rest (found s) e =
        rw (enough, e, place) (record-IsValid _ s ptr (allocate-IsValid p (u16 size) v), vs)
    go enough rest not_found e = rw (enough, e, place) rest
    go enough rest panic e = rw (enough, e, place) tt

abbrev pub FragmentedValid : Option Fragmented → Type 0
FragmentedValid none = Unit
FragmentedValid (some f) = AllPlanes f.planes

behind_fragmented-valid :
    (p : Plane) (r : Option Fragmented)
    → IsValid p
    → FragmentedValid r
    → FragmentedValid (behind_fragmented p r)
behind_fragmented-valid p none v vs = tt
behind_fragmented-valid p (some f) v vs = (v, vs)

fragment_step :
    (remaining : ℕ) (fragments : List Fragment) (p : Plane) (ps : List Plane)
    → IsValid p
    → AllPlanes ps
    → ((m : ℕ) (fs : List Fragment) → FragmentedValid (fragment_loop m fs ps))
    → FragmentedValid (fragment_loop remaining fragments (p ∷ ps))
unfolding fragment_loop
fragment_step remaining fragments p ps v all_valid again = elim (Bool-cases (remaining == 0)) [
  | inl done ↦ rw (done, fragment_loop) (v, all_valid)
  | inr more ↦ elim (Bool-cases (u16 (min (free_bytes p) remaining) == 0)) [
    | inl full ↦ rw (more, full, fragment_loop) skipped
    | inr room ↦ go more room ((allocate p (u16 (min (free_bytes p) remaining))).1) refl
  ]
]
  where
    skipped : FragmentedValid (behind_fragmented p (fragment_loop remaining fragments ps))
    skipped =
        behind_fragmented-valid p (fragment_loop remaining fragments ps) v
          (again remaining fragments)

    go :
        (remaining == 0) ≡ false
        → (u16 (min (free_bytes p) remaining) == 0) ≡ false
        → (r : Search) → (allocate p (u16 (min (free_bytes p) remaining))).1 ≡ r
        → FragmentedValid (fragment_loop remaining fragments (p ∷ ps))
    go more room (found s) e =
        rw (more, room, e, fragment_loop)
          (behind_fragmented-valid _ (fragment_loop _ _ ps) (allocate-IsValid p _ v) (again _ _))
    go more room not_found e = rw (more, room, e, fragment_loop) skipped
    go more room panic e = rw (more, room, e, fragment_loop) tt

pub fragment_loop-valid :
    (remaining : ℕ) (fragments : List Fragment) (ps : List Plane)
    → AllPlanes ps
    → FragmentedValid (fragment_loop remaining fragments ps)
unfolding fragment_loop
fragment_loop-valid remaining fragments [] vs = vs
fragment_loop-valid remaining fragments (p ∷ ps) (v, vs) =
    fragment_step remaining fragments p ps v vs (λ m fs. fragment_loop-valid m fs ps vs)

rollback_one-valid : (f : Fragment) (ps : List Plane) → AllPlanes ps → AllPlanes (rollback_one f ps)
unfolding rollback_one
rollback_one-valid f [] vs = vs
rollback_one-valid f (p ∷ ps) (v, vs) = elim (Bool-cases (p.id == f.plane_id)) [
  | inl e ↦ rw (e) (clear_plane-IsValid p _ _ _ v, vs)
  | inr e ↦ rw (e) (v, rollback_one-valid f ps vs)
]

pub rollback-valid :
    (fs : List Fragment) (ps : List Plane) → AllPlanes ps → AllPlanes (rollback fs ps)
unfolding rollback
rollback-valid [] ps vs = vs
rollback-valid (f ∷ fs) ps vs = rollback-valid fs (rollback_one f ps) (rollback_one-valid f ps vs)

pub record_first-valid :
    (plane_id start ptr : ℕ) (ps : List Plane)
    → AllPlanes ps
    → AllPlanes (record_first plane_id start ptr ps)
unfolding record_first
record_first-valid plane_id start ptr [] vs = vs
record_first-valid plane_id start ptr (p ∷ ps) (v, vs) = elim (Bool-cases (p.id == plane_id)) [
  | inl e ↦ rw (e) (record-IsValid p start ptr v, vs)
  | inr e ↦ rw (e) (v, record_first-valid plane_id start ptr ps vs)
]

pub write_plane-valid :
    (p : Plane) (ps : List Plane) → IsValid p → AllPlanes ps → AllPlanes (write_plane p ps)
unfolding write_plane
write_plane-valid p [] v vs = vs
write_plane-valid p (q ∷ ps) v (w, vs) = elim (Bool-cases (q.id == p.id)) [
  | inl e ↦ rw (e) (v, vs)
  | inr e ↦ rw (e) (w, write_plane-valid p ps v vs)
]

pub find_plane-IsValid :
    (id : ℕ) (ps : List Plane) (p : Plane) → find_plane id ps ≡ some p → AllPlanes ps → IsValid p
unfolding find_plane
find_plane-IsValid id [] p e vs = cc
find_plane-IsValid id (q ∷ ps) p e (v, vs) = elim (Bool-cases (q.id == id)) [
  | inl same ↦ let q_is_p : q ≡ p = here same e in subst IsValid q_is_p v
  | inr other ↦ find_plane-IsValid id ps p (later other e) vs
]
  where
    here : (q.id == id) ≡ true → find_plane id (q ∷ ps) ≡ some p → q ≡ p
    here same e = ground arith

    later : (q.id == id) ≡ false → find_plane id (q ∷ ps) ≡ some p → find_plane id ps ≡ some p
    later other e = ground arith

freed :
    (h : Heap) (id start : ℕ) (ps : List Plane) (p : Plane)
    → find_plane id ps ≡ some p
    → AllPlanes ps
    → AllPlanes (write_plane (free h p start).0 ps)
freed h id start ps p e vs =
    write_plane-valid _ ps (free-IsValid h p start (find_plane-IsValid id ps p e vs)) vs

pub free_fragments-valid :
    (h : Heap) (fs : List Fragment) (ps : List Plane)
    → AllPlanes ps
    → AllPlanes (free_fragments h fs ps)
unfolding free_fragments
free_fragments-valid h [] ps vs = vs
free_fragments-valid h (f ∷ fs) ps vs =
    go (λ qs. free_fragments-valid h fs qs) (find_plane f.plane_id ps) refl
  where
    go :
        ((qs : List Plane) → AllPlanes qs → AllPlanes (free_fragments h fs qs))
        → (r : Option Plane) → find_plane f.plane_id ps ≡ r
        → AllPlanes (free_fragments h (f ∷ fs) ps)
    go again none e = rw (free_fragments, e) (again ps vs)
    go again (some p) e = rw (free_fragments, e) (again _ (freed h f.plane_id f.start_z ps p e vs))

pub free_in_region-valid :
    (h : Heap) (alloc : Allocation) (ps : List Plane)
    → AllPlanes ps
    → AllPlanes (free_in_region h alloc ps).0
unfolding free_in_region
free_in_region-valid h alloc ps vs = elim (Bool-cases (is_y_promoted alloc)) [
  | inl several ↦ rw (several) (free_fragments-valid h alloc.fragments ps vs)
  | inr one ↦ go one (find_plane alloc.address.y ps) refl
]
  where
    go :
        is_y_promoted alloc ≡ false
        → (r : Option Plane) → find_plane alloc.address.y ps ≡ r
        → AllPlanes (free_in_region h alloc ps).0
    go one none e = rw (one, free_in_region, e) vs
    go one (some p) e = elim (Bool-cases ((free h p alloc.address.z).1)) [
      | inl done ↦
          rw (one, free_in_region, e, done) (freed h alloc.address.y alloc.address.z ps p e vs)
      | inr not_there ↦ rw (one, free_in_region, e, not_there) vs
    ]
