-- ===== src/Allocator/Ownership/Fresh.antt =====
-- AllocateInRegion and allocateNewRegion of allocator.go: the paths that add a plane.
use memory3d.Prelude.{
  ℕ, ◌+◌, ◌^◌, ◌≤◌, ◌<◌, ◌≡◌, refl, ◌∙◌, inl, inr, true, List, [], ◌∷◌, ◌++◌, arith, leb,
  Bool-cases, length, insert, u64,
}
use memory3d.Types.Allocation.{Heap}
use memory3d.Types.Plane.{Plane, free_bytes, new_plane}
use memory3d.Types.Region.{Region, new_region, add_plane}
use memory3d.Allocator.{
  Config, Allocator3D, get_plane_from_pool, Placed, placed, unplaced, crashed, place,
  allocate_in_region, allocate_new_region,
}
use memory3d.Allocator.Placing.{InPlane}
use memory3d.Allocator.Ownership.Planes.{Owns, new_plane-Owns}
use memory3d.Allocator.Ownership.Regions.{InPlane-behind, Kept, add_plane-Kept}
use memory3d.Allocator.Ownership.Paths.{
  Holds, insert-AllKept, PlacedIn, place-PlacedIn, Settled, commit-Settled,
}

-- A plane from the pool is a new one.
pooled-Owns :
    (h : Heap) (config : Config) (id region_id : ℕ)
    → 0 < config.plane_size
    → config.plane_size ≤ 2 ^ 15
    → let p = get_plane_from_pool config id region_id in
      Owns h p × (p.size ≤ 2 ^ 15) × (p.allocations ≡ []) × (p.id ≡ id)
unfolding get_plane_from_pool new_plane
pooled-Owns h config id region_id sized half = elim (Bool-cases config.enable_pooling) [
  | inl e ↦
      let w = new_plane-Owns h 0 0 config.plane_size (omega arith) in
      rw e (
        record {
          valid = record {
            map_valid = w.valid.map_valid;
            map_size = w.valid.map_size;
            bytes_size = w.valid.bytes_size;
          };
          live = w.live;
          unique = w.unique;
          inside = w.inside;
          used = w.used;
          apart = w.apart;
          counted = w.counted;
        },
        ground arith,
        refl,
        refl,
      )
  | inr e ↦
      rw e (new_plane-Owns h id region_id config.plane_size (omega arith), ground arith, refl, refl)
]

new_region-Kept : (h : Heap) (now id kind : ℕ) → Kept h (new_region now id kind)
unfolding new_region
new_region-Kept h now id kind = record { owned = tt; free = refl; count = refl; numbered = tt }

-- A new plane is put into a region, and the block into that plane or nowhere.
module _ (a : Allocator3D) (size : ℕ) (r : Region) (id : ℕ) (pos : 0 < size) (s : Holds a)
    (k : Kept a.heap r) (is_last : id ≡ length r.planes) where
  abbrev plane : Plane
  plane = get_plane_from_pool a.config id r.id

  abbrev grown : Region
  grown = add_plane r plane

  new_plane_facts :
      Owns a.heap plane × (plane.size ≤ 2 ^ 15) × (plane.allocations ≡ []) × (plane.id ≡ id)
  new_plane_facts = pooled-Owns a.heap a.config id r.id s.sized s.half

  grown-Kept : Kept a.heap grown
  grown-Kept =
      let (w, half, empty, is_id) = new_plane_facts in
      add_plane-Kept a.heap r plane k w half empty (is_id ∙ is_last)

  -- The search of the new plane alone.
  alone : PlacedIn a.heap size (plane ∷ []) (place (length a.heap) size (plane ∷ []))
  alone =
      let (w, half, empty, is_id) = new_plane_facts in
      place-PlacedIn a.heap size (plane ∷ []) ((w, half), tt) pos

  in_grown :
      (qs : List Plane) (at start : ℕ)
      → InPlane (length a.heap) size start (plane ∷ []) qs at
      → InPlane (length a.heap) size start grown.planes (r.planes ++ qs) at
  unfolding add_plane
  in_grown qs at start put =
      InPlane-behind (length a.heap) size start r.planes (plane ∷ []) qs at put

with_region-Holds :
    (a : Allocator3D) (id : ℕ) (r : Region)
    → r.id ≡ id
    → Holds a
    → Kept a.heap r
    → Holds (record a { regions = insert id r a.regions })
with_region-Holds a id r is_id s k = record {
  kept = insert-AllKept a.heap id r a.regions is_id k s.kept;
  sized = s.sized;
  half = s.half;
}

pub allocate_in_region-Settled :
    (now : ℕ) (a : Allocator3D) (size : ℕ) (r : Region) (flags : ℕ)
    → 0 < size
    → Holds a
    → Kept a.heap r
    → Settled size (allocate_in_region now a size r flags)
unfolding allocate_in_region add_plane
allocate_in_region-Settled now a size r flags pos s k =
    old (place (length a.heap) size r.planes) refl (place-PlacedIn a.heap size r.planes k.owned pos)
  where
    n : ℕ
    n = length r.planes

    p : Plane
    p = get_plane_from_pool a.config n r.id

    r' : Region
    r' = add_plane r p

    a' : Allocator3D
    a' = record a { regions = insert r.id r' a.regions }

    k' : Kept a.heap r'
    k' = grown-Kept a size r n pos s k refl

    s' : Holds a'
    s' = with_region-Holds a r.id r' refl s k'

    new :
        place (length a.heap) size r.planes ≡ unplaced
        → leb size (free_bytes p) ≡ true
        → (t : Placed) → place (length a.heap) size (p ∷ []) ≡ t
        → PlacedIn a.heap size (p ∷ []) t
        → Settled size (allocate_in_region now a size r flags)
    new none_there enough (placed qs at start) e put =
        rw (allocate_in_region, none_there, enough, e)
          (commit-Settled now a' r' (r.planes ++ qs) at start size r.kind flags pos s' k'
            (in_grown a size r n pos s k refl qs at start put))
    new none_there enough unplaced e put = rw (allocate_in_region, none_there, enough, e) (s', tt)
    new none_there enough crashed e put = absurd put

    old :
        (t : Placed)
        → place (length a.heap) size r.planes ≡ t
        → PlacedIn a.heap size r.planes t
        → Settled size (allocate_in_region now a size r flags)
    old (placed qs at start) e put =
        rw (allocate_in_region, e)
          (commit-Settled now a r qs at start size r.kind flags pos s k put)
    old crashed e put = absurd put
    old unplaced e put = elim (Bool-cases (leb size (free_bytes p))) [
      | inr large ↦ rw (allocate_in_region, e, large) (s', tt)
      | inl enough ↦
          new e enough (place (length a.heap) size (p ∷ [])) refl (alone a size r n pos s k refl)
    ]

pub allocate_new_region-Settled :
    (now : ℕ) (a : Allocator3D) (size kind flags : ℕ)
    → 0 < size
    → Holds a
    → Settled size (allocate_new_region now a size kind flags)
unfolding allocate_new_region add_plane new_region
allocate_new_region-Settled now a size kind flags pos s =
    elim (Bool-cases (leb size (free_bytes p))) [
      | inr large ↦ rw large (s', tt)
      | inl enough ↦
          go enough (place (length a.heap) size (p ∷ [])) refl (alone a size r 0 pos s k refl)
    ]
  where
    id : ℕ
    id = u64 (a.next_region_id + 1)

    r : Region
    r = new_region now id kind

    k : Kept a.heap r
    k = new_region-Kept a.heap now id kind

    p : Plane
    p = get_plane_from_pool a.config 0 id

    a' : Allocator3D
    a' = record a { next_region_id = id; regions = insert id (add_plane r p) a.regions }

    k' : Kept a.heap (add_plane r p)
    k' = grown-Kept a size r 0 pos s k refl

    s' : Holds a'
    s' =
        let t = with_region-Holds a id (add_plane r p) refl s k' in
        record { kept = t.kept; sized = t.sized; half = t.half }

    go :
        leb size (free_bytes p) ≡ true
        → (t : Placed) → place (length a.heap) size (p ∷ []) ≡ t
        → PlacedIn a.heap size (p ∷ []) t
        → Settled size (allocate_new_region now a size kind flags)
    go enough (placed qs at start) e put =
        rw (enough, allocate_new_region, e)
          (commit-Settled now a' (add_plane r p) qs at start size kind flags pos s' k' put)
    go enough unplaced e put = rw (enough, allocate_new_region, e) (s', tt)
    go enough crashed e put = absurd put
