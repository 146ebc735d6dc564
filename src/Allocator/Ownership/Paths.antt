-- ===== src/Allocator/Ownership/Paths.antt =====
-- Each path of allocator.go keeps what the objects own and the counters of the regions, but for the
-- path that splits a block over planes.
use memory3d.Prelude.{
  ℕ, ◌^◌, ◌≤◌, ◌<◌, ◌≡◌, refl, sym, subst, ◌∙◌, inl, inr, false, some, List, [], ◌∷◌, arith, ltb,
  leb, ◌==◌, not, ◌||◌, Bool-cases, Option-cases, lt→not_leb, ltb→lt, not_ltb→le, ==→eq,
  get_elem?-append, lookup-insert_self, length, lookup, insert, All,
}
use memory3d.Types.Allocation.{Allocation, Heap, new_allocation, alloc_object, deref}
use memory3d.Types.Plane.{Plane, free_bytes}
use memory3d.Types.Region.{Region, find_plane}
use memory3d.Types.Plane.Laws.{IsValid}
use memory3d.Allocator.{
  Allocator3D, Result, got, nothing, panicked, failed, promote_region_lru, Placed, placed, unplaced,
  crashed, place, commit, fast_loop,
}
use memory3d.Allocator.Placing.{PlaceOutcome, place-PlaceOutcome, InPlane}
use memory3d.Allocator.Ownership.Regions.{
  Owned, Owned-not-Wraps, Kept, Kept-grow, placed-Kept, InPlane-found,
}

abbrev pub Regions : Type 0
Regions = List (ℕ × Region)

-- Every region stands under its ID.
abbrev pub AllKept : Heap → Regions → Type 0
AllKept h rs = All (λ (e : ℕ × Region). (e.1.id ≡ e.0) × Kept h e.1) rs

-- Every region is kept, and a new plane will be no larger than half the range of an offset.
pub record Holds (a : Allocator3D) : Type 0 where
  pub kept : AllKept a.heap a.regions
  pub sized : 0 < a.config.plane_size
  pub half : a.config.plane_size ≤ 2 ^ 15

AllKept-grow :
    (h : Heap) (o : Allocation) (rs : Regions) → AllKept h rs → AllKept (alloc_object h o) rs
AllKept-grow h o [] k = tt
AllKept-grow h o ((id, r) ∷ rs) ((is_id, k), ks) =
    ((is_id, Kept-grow h o r k), AllKept-grow h o rs ks)

pub insert-AllKept :
    (h : Heap) (id : ℕ) (r : Region) (rs : Regions)
    → r.id ≡ id
    → Kept h r
    → AllKept h rs
    → AllKept h (insert id r rs)
insert-AllKept h id r [] is_id k ks = ((is_id, k), tt)
insert-AllKept h id r ((j, s) ∷ rs) is_id k (l, ks) = elim (Bool-cases (j == id)) [
  | inl same ↦ rw same ((is_id, k), ks)
  | inr other ↦ rw other (l, insert-AllKept h id r rs is_id k ks)
]

pub lookup-Kept :
    (h : Heap) (id : ℕ) (rs : Regions) (r : Region)
    → lookup id rs ≡ some r
    → AllKept h rs
    → (r.id ≡ id) × Kept h r
lookup-Kept h id [] r e ks = cc
lookup-Kept h id ((j, s) ∷ rs) r e ((is_id, k), ks) = elim (Bool-cases (j == id)) [
  | inl same ↦
      let is_r : s ≡ r = ground (arith, e, same) in
      subst (λ t. (t.id ≡ id) × Kept h t) is_r (is_id ∙ ==→eq j id same, k)
  | inr other ↦ lookup-Kept h id rs r (ground (arith, e, other)) ks
]

-- What a search for `size` bytes in planes that own their objects may answer.
abbrev pub PlacedIn : Heap → ℕ → List Plane → Placed → Type 0
PlacedIn h size ps (placed qs id start) = InPlane (length h) size start ps qs id
PlacedIn h size ps unplaced = Unit {0}
PlacedIn h size ps crashed = ⊥

Owned-IsValid : (h : Heap) (ps : List Plane) → Owned h ps → All IsValid ps
Owned-IsValid h [] w = tt
Owned-IsValid h (p ∷ ps) ((w, half), ws) = (w.valid, Owned-IsValid h ps ws)

-- No plane has so many bytes.
place_large :
    (h : Heap) (ptr size : ℕ) (ps : List Plane)
    → Owned h ps
    → 2 ^ 15 < size
    → place ptr size ps ≡ unplaced
unfolding place
place_large h ptr size [] w large = refl
place_large h ptr size (p ∷ ps) ((w, half), ws) large =
    let few : leb size (free_bytes p) ≡ false =
      lt→not_leb size (free_bytes p) (omega (arith, w.counted)) in
    rw (few, place_large h ptr size ps ws large) refl

pub place-PlacedIn :
    (h : Heap) (size : ℕ) (ps : List Plane)
    → Owned h ps
    → 0 < size
    → PlacedIn h size ps (place (length h) size ps)
place-PlacedIn h size ps w pos = elim (Bool-cases (ltb (2 ^ 15) size)) [
  | inl large ↦
      subst (PlacedIn h size ps)
        (sym (place_large h (length h) size ps w (ltb→lt (2 ^ 15) size large))) tt
  | inr small ↦
      let fits : size < 2 ^ 16 = omega (arith, not_ltb→le (2 ^ 15) size small) in
      go (place (length h) size ps)
        (place-PlaceOutcome (length h) size ps (Owned-IsValid h ps w) pos fits)
]
  where
    go : (r : Placed) → PlaceOutcome (length h) size ps r → PlacedIn h size ps r
    go (placed qs id start) (inl put) = put
    go (placed qs id start) (inr wraps) = absurd (Owned-not-Wraps h size start ps w wraps)
    go unplaced o = tt
    go crashed (s, wraps) = Owned-not-Wraps h size s ps w wraps

-- The object at `ptr` has the size asked for, is not split, and its address leads to the region, the
-- plane and the entry of that pointer.
pub record Located (a : Allocator3D) (ptr size : ℕ) : Type 0 where
  pub object : Allocation
  pub is_object : deref a.heap ptr ≡ some object
  pub is_size : object.size ≡ size
  pub whole : object.fragments ≡ []
  pub region : Region
  pub is_region : lookup object.address.x a.regions ≡ some region
  pub plane : Plane
  pub is_plane : find_plane object.address.y region.planes ≡ some plane
  pub entered : lookup object.address.z plane.allocations ≡ some ptr

-- What a request for `size` bytes may answer: no panic, and a pointer only to a block that is located.
abbrev pub Answer : ℕ → Allocator3D × Result → Type 0
Answer size (a, got ptr) = Located a ptr size
Answer size (a, nothing) = Unit {0}
Answer size (a, panicked) = ⊥
Answer size (a, failed e) = Unit {0}

abbrev pub Settled : ℕ → Allocator3D × Result → Type 0
Settled size r = Holds r.0 × Answer size r

-- The LRU list plays no part in this.
promote-Settled :
    (a : Allocator3D) (id ptr size : ℕ)
    → Holds a
    → Located a ptr size
    → Settled size (promote_region_lru a id, got ptr)
unfolding promote_region_lru
promote-Settled a id ptr size s t = elim (Option-cases (lookup id a.regions)) [
  | inl e ↦ rw (e, promote_region_lru) (kept_state, place_of)
  | inr (r, e) ↦ rw (e, promote_region_lru) (kept_state, place_of)
]
  where
    kept_state : {lru : List ℕ} → Holds (record a { region_lru = lru })
    kept_state {lru} = record { kept = s.kept; sized = s.sized; half = s.half }

    place_of : {lru : List ℕ} → Located (record a { region_lru = lru }) ptr size
    place_of {lru} = record {
      object = t.object;
      is_object = t.is_object;
      is_size = t.is_size;
      whole = t.whole;
      region = t.region;
      is_region = t.is_region;
      plane = t.plane;
      is_plane = t.is_plane;
      entered = t.entered;
    }

pub commit-Settled :
    (now : ℕ) (a : Allocator3D) (r : Region) (qs : List Plane) (id start size kind flags : ℕ)
    → 0 < size
    → Holds a
    → Kept a.heap r
    → InPlane (length a.heap) size start r.planes qs id
    → Settled size (commit now a r qs id start size kind flags)
unfolding commit new_allocation
commit-Settled now a r qs id start size kind flags pos s k put =
    let found = (InPlane-found (length a.heap) size start 0 r.planes qs id put k.numbered).1 in
    promote-Settled _ r.id (length a.heap) size
      (record {
        kept =
            insert-AllKept _ r.id _ a.regions refl (placed-Kept a.heap _ r qs id start pos k put)
              (AllKept-grow a.heap _ a.regions s.kept);
        sized = s.sized;
        half = s.half;
      })
      (record {
        object = _;
        is_object = get_elem?-append a.heap _;
        is_size = refl;
        whole = refl;
        region = _;
        is_region = lookup-insert_self r.id _ a.regions;
        plane = found.0;
        is_plane = found.1;
        entered = found.2;
      })

-- tryFastAllocation.
pub fast_loop-Settled :
    (now size kind : ℕ) (a : Allocator3D) (ids : List ℕ)
    → 0 < size
    → Holds a
    → Settled size (fast_loop now size kind a ids)
unfolding fast_loop
fast_loop-Settled now size kind a [] pos s = (s, tt)
fast_loop-Settled now size kind a (id ∷ ids) pos s =
    let rest = fast_loop-Settled now size kind a ids pos s in
    elim (Option-cases (lookup id a.regions)) [
      | inl e ↦ rw (fast_loop, e) rest
      | inr (r, e) ↦ elim (Bool-cases (not (r.kind == kind) || ltb r.free_bytes size)) [
        | inl skip ↦ rw (fast_loop, e, skip) rest
        | inr try ↦
            let k = (lookup-Kept a.heap id a.regions r e s.kept).1 in
            go r e try rest k (place (length a.heap) size r.planes) refl
              (place-PlacedIn a.heap size r.planes k.owned pos)
      ]
    ]
  where
    go :
        (r : Region)
        → lookup id a.regions ≡ some r
        → (not (r.kind == kind) || ltb r.free_bytes size) ≡ false
        → Settled size (fast_loop now size kind a ids)
        → Kept a.heap r
        → (t : Placed) → place (length a.heap) size r.planes ≡ t
        → PlacedIn a.heap size r.planes t
        → Settled size (fast_loop now size kind a (id ∷ ids))
    go r e try rest k (placed ps at start) p put =
        rw (fast_loop, e, try, p) (commit-Settled now a r ps at start size kind 0 pos s k put)
    go r e try rest k unplaced p put = rw (fast_loop, e, try, p) rest
    go r e try rest k crashed p put = absurd put
