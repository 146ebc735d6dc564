-- ===== src/Allocator/Ownership/Releasing.antt =====
-- Free of an object of a region: freeSync of allocator.go over the region's planes and counters.
use memory3d.Prelude.{
  ℕ, ◌+◌, ◌^◌, ◌≤◌, ◌≡◌, refl, sym, ap, subst, ◌∙◌, inl, inr, true, false, Option, none, some, List,
  [], ◌∷◌, arith, ◌==◌, ==→eq, if◌then◌else◌, Bool-cases, length, lookup,
}
use memory3d.Types.Allocation.{Allocation, Heap, size_at, is_y_promoted}
use memory3d.Types.Plane.{Plane, free, free_bytes}
use memory3d.Types.Region.{find_plane, write_plane}
use memory3d.Types.Region.Laws.{plane_free}
use memory3d.Allocator.{Error, plane_not_found, free_failed, free_in_region}
use memory3d.Allocator.Ownership.{erase_counts}
use memory3d.Allocator.Ownership.Planes.{Owns, without, freed_eq, free_bytes-without, without-Owns}
use memory3d.Allocator.Ownership.Regions.{Owned, entries, Numbered}

-- The plane found has the ID asked for, and is one of the planes.
pub found_plane :
    (h : Heap) (id : ℕ) (ps : List Plane) (p : Plane)
    → find_plane id ps ≡ some p
    → Owned h ps
    → (p.id ≡ id) × Owns h p × (p.size ≤ 2 ^ 15)
unfolding find_plane
found_plane h id [] p e w = cc
found_plane h id (q ∷ ps) p e (w, ws) = elim (Bool-cases (q.id == id)) [
  | inl same ↦
      let is_p : q ≡ p = ground (arith, e, same) in
      subst (λ t. (t.id ≡ id) × Owns h t × (t.size ≤ 2 ^ 15)) is_p (==→eq _ _ same, w.0, w.1)
  | inr other ↦ found_plane h id ps p (ground (arith, e, other)) ws
]

-- The planes after an object of `n` bytes is freed.
pub record Releasing (h : Heap) (n : ℕ) (ps qs : List Plane) : Type 0 where
  pub owned : Owned h qs
  pub free : plane_free qs ≡ plane_free ps + n
  pub count : entries qs + 1 ≡ entries ps
  pub numbered : (n : ℕ) → Numbered n ps → Numbered n qs

-- A plane written back with one object less.
written-Releasing :
    (h : Heap) (n : ℕ) (ps : List Plane) (p r : Plane)
    → find_plane p.id ps ≡ some p
    → r.id ≡ p.id
    → Owns h r
    → r.size ≤ 2 ^ 15
    → free_bytes r ≡ free_bytes p + n
    → length r.allocations + 1 ≡ length p.allocations
    → Owned h ps
    → Releasing h n ps (write_plane r ps)
unfolding find_plane write_plane
written-Releasing h n [] p r e same_id own half more fewer ws = cc
written-Releasing h n (q ∷ ps) p r e same_id own half more fewer (w, ws) =
    elim (Bool-cases (q.id == r.id)) [
      | inl same ↦
          let is_p : q ≡ p = ground (arith, e, same, same_id) in
          rw same (record {
            owned = ((own, half), ws);
            free = omega (arith, more, ap free_bytes is_p);
            count = omega (arith, fewer, ap (λ (t : Plane). length t.allocations) is_p);
            numbered = λ n (is_n, v). (sym (==→eq _ _ same) ∙ is_n, v);
          })
      | inr other ↦
          let rest =
            written-Releasing h n ps p r (ground (arith, e, other, same_id)) same_id own half more
              fewer ws in
          rw other (record {
            owned = (w, rest.owned);
            free = omega (arith, rest.free);
            count = omega (arith, rest.count);
            numbered = λ n (is_n, v). (is_n, rest.numbered (n + 1) v);
          })
    ]

module _ (h : Heap) (ps : List Plane) (p : Plane) (z ptr : ℕ) (ws : Owned h ps)
    (is_plane : find_plane p.id ps ≡ some p) (entered : lookup z p.allocations ≡ some ptr) where
  own : Owns h p
  own = (found_plane h p.id ps p is_plane ws).1

  pub freed-Releasing : Releasing h (size_at h ptr) ps (write_plane (free h p z).0 ps)
  freed-Releasing = rw (freed_eq h p z ptr own entered) (
      written-Releasing h (size_at h ptr) ps p (without h p z ptr own entered) is_plane refl
        (without-Owns h p z ptr own entered) (found_plane h p.id ps p is_plane ws).2
        (free_bytes-without h p z ptr own entered)
        (erase_counts h z ptr p.allocations own.unique entered).1 ws)

  pub freed_true : (free h p z).1 ≡ true
  freed_true = rw (freed_eq h p z ptr own entered) refl

pub free_absent :
    (h : Heap) (p : Plane) (z : ℕ) → lookup z p.allocations ≡ none → (free h p z).1 ≡ false
unfolding free
free_absent h p z e = rw (e, free) refl

-- The caller's block is not split over planes, and where an object is entered at its address it has
-- the block's size. A block that has been freed before, with nothing entered in its place since,
-- has none there.
pub record Matching (h : Heap) (ps : List Plane) (alloc : Allocation) : Type 0 where
  pub whole : is_y_promoted alloc ≡ false
  pub same_size :
      (p : Plane) (ptr : ℕ)
      → find_plane alloc.address.y ps ≡ some p
      → lookup alloc.address.z p.allocations ≡ some ptr
      → size_at h ptr ≡ alloc.size

abbrev pub FreeOutcome : Heap → Allocation → List Plane → List Plane × Option Error → Type 0
FreeOutcome h alloc ps (qs, none) = Releasing h alloc.size ps qs
FreeOutcome h alloc ps (qs, some e) = Unit

-- What freeing the block does to the planes of its region.
pub free_in_region-FreeOutcome :
    (h : Heap) (alloc : Allocation) (ps : List Plane)
    → Owned h ps
    → Matching h ps alloc
    → FreeOutcome h alloc ps (free_in_region h alloc ps)
unfolding free_in_region
free_in_region-FreeOutcome h alloc ps ws m = rw m.whole (go (find_plane alloc.address.y ps) refl)
  where
    entered :
        (p : Plane)
        → find_plane alloc.address.y ps ≡ some p
        → (o : Option ℕ) → lookup alloc.address.z p.allocations ≡ o
        → FreeOutcome h alloc ps (
            if (free h p alloc.address.z).1
            then (write_plane (free h p alloc.address.z).0 ps, none)
            else (ps, some (free_failed alloc.address)))
    entered p e none f = rw (free_absent h p alloc.address.z f) tt
    entered p e (some ptr) f =
        let (is_y, _, _) = found_plane h alloc.address.y ps p e ws in
        let is_plane : find_plane p.id ps ≡ some p = ap (λ (i : ℕ). find_plane i ps) is_y ∙ e in
        rw (freed_true h ps p alloc.address.z ptr ws is_plane f) (
          subst (λ n. Releasing h n ps (write_plane (free h p alloc.address.z).0 ps))
            (m.same_size p ptr e f) (freed-Releasing h ps p alloc.address.z ptr ws is_plane f))

    go :
        (o : Option Plane)
        → find_plane alloc.address.y ps ≡ o
        → FreeOutcome h alloc ps (elim o [
          | none ↦ (ps, some (plane_not_found alloc.address.y))
          | some p ↦
              if (free h p alloc.address.z).1
              then (write_plane (free h p alloc.address.z).0 ps, none)
              else (ps, some (free_failed alloc.address))
        ])
    go none e = tt
    go (some p) e = entered p e (lookup alloc.address.z p.allocations) refl
