-- ===== src/Allocator/Ownership/Regions.antt =====
-- The planes of a region, what the objects entered in them own, and the region's counters, as
-- allocator.go updates them.
use memory3d.Prelude.{
  ℕ, ◌+◌, ◌^◌, ◌≤◌, ◌<◌, ◌≡◌, refl, ap, ◌∙◌, inl, inr, true, false, some, List, [], ◌∷◌, ◌++◌,
  arith, ◌==◌, length, lookup, lookup-insert_self, All, All-append, u64,
}
use memory3d.Types.Allocation.{Allocation, Heap, alloc_object}
use memory3d.Types.Plane.{Plane, record_allocation}
use memory3d.Types.Region.{Region, add_plane, find_plane}
use memory3d.Types.Region.Laws.{plane_free, plane_free-append}
use memory3d.Allocator.{take_bytes}
use memory3d.Allocator.Placing.{InPlane, here, there, Wraps}
use memory3d.Allocator.Ownership.Planes.{Owns, Owns-grow}
use memory3d.Allocator.Ownership.Entering.{entered-Owns, entered_length}

-- Planes of at most half the range of an offset, in which no sum of a start and a size wraps.
abbrev pub Owned : Heap → List Plane → Type 0
Owned h ps = All (λ p. Owns h p × (p.size ≤ 2 ^ 15)) ps

-- How many objects are entered.
abbrev pub entries : List Plane → ℕ
entries [] = 0
entries (p ∷ ps) = length p.allocations + entries ps

pub entries-append : (ps qs : List Plane) → entries (ps ++ qs) ≡ entries ps + entries qs
entries-append [] qs = omega arith
entries-append (p ∷ ps) qs = omega (arith, entries-append ps qs)

-- The plane at position k has the ID k, counted from `n`.
abbrev pub Numbered : ℕ → List Plane → Type 0
Numbered n [] = Unit {0}
Numbered n (p ∷ ps) = (p.id ≡ n) × Numbered (n + 1) ps

Numbered-append :
    (n : ℕ) (ps : List Plane) (p : Plane)
    → Numbered n ps
    → p.id ≡ n + length ps
    → Numbered n (ps ++ p ∷ [])
Numbered-append n [] p w e = (omega (arith, e), tt)
Numbered-append n (q ∷ ps) p (is_n, w) e = (is_n, Numbered-append (n + 1) ps p w (omega (arith, e)))

InPlane-Numbered :
    (ptr size start n : ℕ) (ps qs : List Plane) (id : ℕ)
    → InPlane ptr size start ps qs id
    → Numbered n ps
    → Numbered n qs
InPlane-Numbered ptr size start n _ _ _ (here p q ps id is_id took) (is_n, w) =
    (took.same_id ∙ is_n, w)
InPlane-Numbered ptr size start n _ _ _ (there p ps qs id later) (is_n, w) =
    (is_n, InPlane-Numbered ptr size start (n + 1) ps qs id later w)

-- The plane of a placement is the one that its ID leads to, and has the entry.
pub InPlane-found :
    (ptr size start n : ℕ) (ps qs : List Plane) (id : ℕ)
    → InPlane ptr size start ps qs id
    → Numbered n ps
    → (n ≤ id)
      × ((p : Plane) × (find_plane id qs ≡ some p) × (lookup start p.allocations ≡ some ptr))
unfolding find_plane
InPlane-found ptr size start n _ _ _ (here p q ps id is_id took) (is_n, w) =
    let same : (q.id == id) ≡ true = ground (arith, took.same_id, is_id) in
    (
      omega (arith, is_id, is_n),
      (record_allocation q start ptr, rw same refl, lookup-insert_self start ptr q.allocations),
    )
InPlane-found ptr size start n _ _ _ (there p ps qs id later) (is_n, w) =
    let (above, (q, is_found, entered)) = InPlane-found ptr size start (n + 1) ps qs id later w in
    let other : (p.id == id) ≡ false = ground (arith, above, is_n) in
    (omega (arith, above), (q, rw other is_found, entered))

-- A placement in planes that stand behind others.
pub InPlane-behind :
    (ptr size start : ℕ) (ps qs rs : List Plane) (id : ℕ)
    → InPlane ptr size start qs rs id
    → InPlane ptr size start (ps ++ qs) (ps ++ rs) id
InPlane-behind ptr size start [] qs rs id put = put
InPlane-behind ptr size start (p ∷ ps) qs rs id put =
    there p (ps ++ qs) (ps ++ rs) id (InPlane-behind ptr size start ps qs rs id put)

pub Owned-grow :
    (h : Heap) (o : Allocation) (ps : List Plane) → Owned h ps → Owned (alloc_object h o) ps
Owned-grow h o [] w = tt
Owned-grow h o (p ∷ ps) ((w, half), ws) = ((Owns-grow h o p w, half), Owned-grow h o ps ws)

-- No search wraps in such planes.
pub Owned-not-Wraps :
    (h : Heap) (size start : ℕ) (ps : List Plane) → Owned h ps → ¬ Wraps size start ps
Owned-not-Wraps h size start [] w wraps = wraps
Owned-not-Wraps h size start (p ∷ ps) ((w, half), ws) (inl (lo, few, wraps)) =
    absurd (omega (arith, w.counted))
Owned-not-Wraps h size start (p ∷ ps) ((w, half), ws) (inr later) =
    Owned-not-Wraps h size start ps ws later

-- The planes after a placement of a new object.
record Placing (h : Heap) (o : Allocation) (ps qs : List Plane) : Type 0 where
  pub owned : Owned (alloc_object h o) qs
  pub free : plane_free qs + o.size ≡ plane_free ps
  pub count : entries qs ≡ entries ps + 1
  pub small : o.size ≤ 2 ^ 15

InPlane-Placing :
    (h : Heap) (o : Allocation) (start : ℕ) (ps qs : List Plane) (id : ℕ)
    → 0 < o.size
    → InPlane (length h) o.size start ps qs id
    → Owned h ps
    → Placing h o ps qs
InPlane-Placing h o start _ _ _ pos (here p q ps id is_id took) ((w, half), ws) = record {
  owned = (
    (entered-Owns h p q start o.size w pos took o refl, omega (arith, took.same_size)),
    Owned-grow h o ps ws,
  );
  free = omega (arith, took.counted);
  count = omega (arith, entered_length h p q start o.size w pos took o refl);
  small = omega (arith, took.inside);
}
InPlane-Placing h o start _ _ _ pos (there p ps qs id later) ((w, half), ws) =
    let rest = InPlane-Placing h o start ps qs id pos later ws in
    record {
      owned = ((Owns-grow h o p w, half), rest.owned);
      free = omega (arith, rest.free);
      count = omega (arith, rest.count);
      small = rest.small;
    }

-- The region's planes own their objects, and its counters are exact, but for the wrap of uint64.
pub record Kept (h : Heap) (r : Region) : Type 0 where
  pub owned : Owned h r.planes
  pub free : r.free_bytes ≡ u64 (plane_free r.planes)
  pub count : r.alloc_count ≡ u64 (entries r.planes)
  pub numbered : Numbered 0 r.planes

pub Kept-grow : (h : Heap) (o : Allocation) (r : Region) → Kept h r → Kept (alloc_object h o) r
Kept-grow h o r k = record {
  owned = Owned-grow h o r.planes k.owned;
  free = k.free;
  count = k.count;
  numbered = k.numbered;
}

-- The region as `commit` leaves it.
pub placed-Kept :
    (h : Heap) (o : Allocation) (r : Region) (qs : List Plane) (id start : ℕ)
    → 0 < o.size
    → Kept h r
    → InPlane (length h) o.size start r.planes qs id
    → Kept (alloc_object h o) (record r {
      planes = qs;
      alloc_count = u64 (r.alloc_count + 1);
      free_bytes = take_bytes r.free_bytes o.size;
    })
placed-Kept h o r qs id start pos k put =
    let put' = InPlane-Placing h o start r.planes qs id pos put k.owned in
    record {
      owned = put'.owned;
      free = omega (arith, k.free, put'.free, put'.small);
      count = omega (arith, k.count, put'.count);
      numbered = InPlane-Numbered (length h) o.size start 0 r.planes qs id put k.numbered;
    }

pub add_plane-Kept :
    (h : Heap) (r : Region) (p : Plane)
    → Kept h r
    → Owns h p
    → p.size ≤ 2 ^ 15
    → p.allocations ≡ []
    → p.id ≡ length r.planes
    → Kept h (add_plane r p)
unfolding add_plane
add_plane-Kept h r p k w half empty is_last = record {
  owned = All-append (λ q. Owns h q × (q.size ≤ 2 ^ 15)) r.planes (p ∷ []) k.owned ((w, half), tt);
  free = omega (arith, k.free, plane_free-append r.planes (p ∷ []));
  count = omega (arith, k.count, entries-append r.planes (p ∷ []), ap length empty);
  numbered = Numbered-append 0 r.planes p k.numbered (omega (arith, is_last));
}
