-- ===== src/Allocator/Preservation.antt =====
-- Each path of Allocate keeps the planes valid.
use memory3d.Prelude.{
  ℕ, ◌+◌, ◌/◌, ◌≡◌, refl, inl, inr, Bool, true, false, Option, none, some, List, [], ◌∷◌, ltb, leb,
  ◌==◌, not, ◌||◌, if◌then◌else◌, Bool-cases, Option-cases, length, lookup, insert, u32, u64, sub32,
}
use memory3d.Types.Plane.{Plane, free_bytes}
use memory3d.Types.Plane.Laws.{IsValid}
use memory3d.Types.Region.{Region, new_region, add_plane}
use memory3d.Allocator.State.{Allocator3D, get_plane_from_pool}
use memory3d.Allocator.Fast.{Placed, placed, unplaced, crashed, place, fast_loop}
use memory3d.Allocator.Promotion.{
  best_region, Fragmented, fragment_loop, finish_promotion, promote_in, promote_best,
  try_y_promotion,
}
use memory3d.Allocator.Sync.{allocate_new_region}
use memory3d.Allocator.Validity.Planes.{
  AllPlanes, PlacedValid, place-valid, FragmentedValid, fragment_loop-valid, rollback-valid,
  record_first-valid,
}
use memory3d.Allocator.Validity.{
  IsSound, AllRegions, lookup-valid, put_region, pooled-IsValid, add_plane-valid, commit-IsSound,
  promote_region_lru-IsSound, insert-valid,
}

pub fast_loop-IsSound :
    (now size kind : ℕ) (a : Allocator3D) (ids : List ℕ)
    → IsSound a
    → IsSound (fast_loop now size kind a ids).0
unfolding fast_loop
fast_loop-IsSound now size kind a [] s = s
fast_loop-IsSound now size kind a (id ∷ ids) s =
    let rest = fast_loop-IsSound now size kind a ids s in
    elim (Option-cases (lookup id a.regions)) [
      | inl e ↦ rw (fast_loop, e) rest
      | inr (r, e) ↦ elim (Bool-cases (not (r.kind == kind) || ltb r.free_bytes size)) [
        | inl skip ↦ rw (fast_loop, e, skip) rest
        | inr try ↦ go r e try rest (place (length a.heap) size r.planes) refl (
            place-valid (length a.heap) size r.planes
              (lookup-valid id a.regions r e s.regions_valid))
      ]
    ]
  where
    go :
        (r : Region)
        → lookup id a.regions ≡ some r
        → (not (r.kind == kind) || ltb r.free_bytes size) ≡ false
        → IsSound (fast_loop now size kind a ids).0
        → (t : Placed) → place (length a.heap) size r.planes ≡ t
        → PlacedValid t
        → IsSound (fast_loop now size kind a (id ∷ ids)).0
    go r e try rest (placed ps at start) p v =
        rw (fast_loop, e, try, p) (commit-IsSound now a r ps at start size kind 0 s v)
    go r e try rest unplaced p v = rw (fast_loop, e, try, p) rest
    go r e try rest crashed p v = rw (fast_loop, e, try, p) s

abbrev ChosenValid : Option Region → Type 0
ChosenValid none = Unit
ChosenValid (some r) = AllPlanes r.planes

best_region-valid :
    (size kind needed : ℕ) (rs : List (ℕ × Region)) (best : Option Region) (best_free : ℕ)
    → AllRegions rs
    → ChosenValid best
    → ChosenValid (best_region size kind needed rs best best_free)
unfolding best_region
best_region-valid size kind needed [] best best_free vs v = v
best_region-valid size kind needed ((id, r) ∷ rs) best best_free (w, vs) v =
    best_region-valid size kind needed rs _ _ vs (chosen _)
  where
    chosen : (fits : Bool) → ChosenValid (if fits then some r else best)
    chosen true = w
    chosen false = v

finish_promotion-IsSound :
    (now : ℕ) (a : Allocator3D) (size kind flags : ℕ) (r : Region) (f : Fragmented)
    → IsSound a
    → AllPlanes f.planes
    → IsSound (finish_promotion now a size kind flags r f).0
unfolding finish_promotion
finish_promotion-IsSound now a size kind flags r f s v = elim (Bool-cases (ltb 0 f.remaining)) [
  | inl short ↦ rw (short) (put_region a r.id _ s (rollback-valid f.fragments f.planes v))
  | inr done ↦
      let after = promote_region_lru-IsSound _ r.id (record {
        regions_valid =
            insert-valid r.id _ a.regions (record_first-valid _ _ _ f.planes v) s.regions_valid;
        small = s.small;
      }) in
      rw (done) (record { regions_valid = after.regions_valid; small = after.small })
]

promote_best-IsSound :
    (now : ℕ) (a : Allocator3D) (size kind flags : ℕ) (r : Option Region)
    → IsSound a
    → ChosenValid r
    → IsSound (promote_best now a size kind flags r).0
unfolding promote_best promote_in
promote_best-IsSound now a size kind flags none s v = s
promote_best-IsSound now a size kind flags (some r) s v =
    fragmented (fragment_loop size [] r.planes) (fragment_loop-valid size [] r.planes v)
  where
    fragmented :
        (f : Option Fragmented)
        → FragmentedValid f
        → IsSound (promote_in now a size kind flags r f).0
    fragmented none w = s
    fragmented (some f) w = finish_promotion-IsSound now a size kind flags r f s w

pub try_y_promotion-IsSound :
    (now : ℕ) (a : Allocator3D) (size kind flags : ℕ)
    → IsSound a
    → IsSound (try_y_promotion now a size kind flags).0
unfolding try_y_promotion
try_y_promotion-IsSound now a size kind flags s =
    let needed = sub32 (u32 (size + a.config.plane_size)) 1 / a.config.plane_size in
    elim (Bool-cases (a.config.plane_size == 0)) [
      | inl no_size ↦ rw (no_size) s
      | inr sized ↦ elim (Bool-cases (ltb a.config.max_y_promotions needed)) [
        | inl many ↦ rw (sized, many) s
        | inr few ↦
            rw (sized, few)
              (promote_best-IsSound now a size kind flags _ s
                (best_region-valid size kind needed a.regions none 0 s.regions_valid tt))
      ]
    ]

pub allocate_new_region-IsSound :
    (now : ℕ) (a : Allocator3D) (size kind flags : ℕ)
    → IsSound a
    → IsSound (allocate_new_region now a size kind flags).0
unfolding allocate_new_region new_region
allocate_new_region-IsSound now a size kind flags s =
    elim (Bool-cases (leb size (free_bytes plane))) [
      | inr large ↦ rw (large) s'
      | inl enough ↦
          go enough (place (length a.heap) size (plane ∷ [])) refl
            (place-valid (length a.heap) size (plane ∷ []) (plane_valid, tt))
    ]
  where
    id : ℕ
    id = u64 (a.next_region_id + 1)

    plane : Plane
    plane = get_plane_from_pool a.config 0 id

    region : Region
    region = add_plane (new_region now id kind) plane

    a' : Allocator3D
    a' = record a { next_region_id = id; regions = insert id region a.regions }

    plane_valid : IsValid plane
    plane_valid = pooled-IsValid a.config 0 id s.small

    s' : IsSound a'
    s' = record {
      regions_valid =
          insert-valid id region a.regions
            (add_plane-valid (new_region now id kind) plane tt plane_valid) s.regions_valid;
      small = s.small;
    }

    go :
        leb size (free_bytes plane) ≡ true
        → (t : Placed) → place (length a.heap) size (plane ∷ []) ≡ t
        → PlacedValid t
        → IsSound (allocate_new_region now a size kind flags).0
    go enough (placed ps at start) e v =
        rw (enough, allocate_new_region, e)
          (commit-IsSound now a' region ps at start size kind flags s' v)
    go enough unplaced e v = rw (enough, allocate_new_region, e) s'
    go enough crashed e v = rw (enough, allocate_new_region, e) s'
