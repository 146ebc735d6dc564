-- ===== src/Allocator/Ownership/Entering.antt =====
-- A run of a plane taken, and the new object entered at its start, as the allocator does on each of its
-- paths that does not split the block.
use memory3d.Prelude.{
  ℕ, ◌+◌, ◌≤◌, ◌<◌, ◌≡◌, ◌≢◌, ◌⊎◌, sym, ap, subst, ◌∙◌, inl, inr, true, false, none, some, List, [],
  ◌∷◌, ◌++◌, arith, ltb, ◌==◌, ==→eq, Bool-cases, Option-cases, length, length-append, lookup,
  insert, lookup-insert, All-append,
}
use memory3d.Types.Allocation.{Allocation, Heap, alloc_object, size_at}
use memory3d.Types.Bitmap.Positions.{bit_at}
use memory3d.Types.Bitmap.Ranges.{within}
use memory3d.Types.Plane.{Plane, record_allocation}
use memory3d.Types.Plane.Laws.{Takes}
use memory3d.Allocator.Ownership.{
  Live, Unique, held, size_at-new, size_at-grow, Live-lookup, Live-grow, held-grow, insert_fresh,
  held-append, Unique-insert,
}
use memory3d.Allocator.Ownership.Planes.{Owns}

-- A run that was free has no entry at its start, and lies apart from every object.
module _ (h : Heap) (p q : Plane) (t n : ℕ) (w : Owns h p) (pos : 0 < n)
    (took : Takes p t n q) where
  no_entry : lookup t p.allocations ≡ none
  no_entry = elim (Option-cases (lookup t p.allocations)) [
    | inl none_there ↦ none_there
    | inr (ptr, there) ↦
        let taken =
          w.used t ptr t there (omega arith)
            (omega (arith, Live-lookup h p.allocations t ptr w.live there)) in
        let free = took.were_free t (omega arith) (omega arith) in cc
  ]

  -- A position of an object is not in the run.
  outside :
      (s ptr x : ℕ)
      → lookup s p.allocations ≡ some ptr
      → s ≤ x
      → x < s + size_at h ptr
      → within t (t + n) x ≡ false
  outside s ptr x e lo hi = elim (Bool-cases (within t (t + n) x)) [
    | inr out ↦ out
    | inl hit ↦
        let taken = w.used s ptr x e lo hi in
        let free = took.were_free x (ground (arith, hit)) (ground (arith, hit)) in cc
  ]

  before : (s ptr : ℕ) → lookup s p.allocations ≡ some ptr → s < t → s + size_at h ptr ≤ t
  before s ptr e lt = elim (Bool-cases (ltb t (s + size_at h ptr))) [
    | inr apart ↦ ground (arith, apart)
    | inl over ↦
        let out = outside s ptr t e (omega arith) (ground (arith, over)) in
        absurd (ground (arith, out))
  ]

  after : (s ptr : ℕ) → lookup s p.allocations ≡ some ptr → t < s → t + n ≤ s
  after s ptr e lt = elim (Bool-cases (ltb s (t + n))) [
    | inr apart ↦ ground (arith, apart)
    | inl over ↦
        let positive = Live-lookup h p.allocations s ptr w.live e in
        let out = outside s ptr s e (omega arith) (omega (arith, positive)) in
        absurd (ground (arith, out, over))
  ]

  module _ (o : Allocation) (is_n : o.size ≡ n) where
    abbrev entries : List (ℕ × ℕ)
    entries = insert t (length h) q.allocations

    found_entry :
        (s ptr : ℕ)
        → lookup s entries ≡ some ptr
        → ((t ≡ s) × (ptr ≡ length h)) ⊎ ((t ≢ s) × (lookup s p.allocations ≡ some ptr))
    found_entry s ptr e =
        let at_s = lookup-insert t s (length h) q.allocations in
        let old = ap (lookup s) took.same_allocations in
        elim (Bool-cases (t == s)) [
          | inl same ↦ inl (==→eq t s same, ground (arith, at_s, same, e))
          | inr other ↦
              inr (λ same. ground (arith, other, same), ground (arith, at_s, other, e, old))
        ]

    abbrev h' : Heap
    h' = alloc_object h o

    new_size : size_at h' (length h) ≡ n
    new_size = size_at-new h o ∙ is_n

    old_size : (s ptr : ℕ) → lookup s p.allocations ≡ some ptr → size_at h' ptr ≡ size_at h ptr
    old_size s ptr e = size_at-grow h o p.allocations s ptr w.live e

    entered-inside : (s ptr : ℕ) → lookup s entries ≡ some ptr → s + size_at h' ptr ≤ q.size
    entered-inside s ptr e = elim (found_entry s ptr e) [
      | inl (same, new) ↦ rw new (omega (arith, same, new_size, took.inside, took.same_size))
      | inr (other, old) ↦ omega (arith, old_size s ptr old, w.inside s ptr old, took.same_size)
    ]

    entered-used :
        (s ptr pos : ℕ)
        → lookup s entries ≡ some ptr
        → s ≤ pos
        → pos < s + size_at h' ptr
        → bit_at q.free_map pos ≡ true
    entered-used s ptr x e lo hi = elim (found_entry s ptr e) [
      | inl (same, new) ↦
          let end : x < t + n =
            omega (arith, subst (λ i. x < s + size_at h' i) new hi, new_size, same) in
          ground (arith, took.positions x, same)
      | inr (other, old) ↦
          let taken = w.used s ptr x old lo (omega (arith, old_size s ptr old)) in
          ground (arith, took.positions x, taken)
    ]

    entered-apart :
        (s u i j : ℕ)
        → lookup s entries ≡ some i
        → lookup u entries ≡ some j
        → s < u
        → s + size_at h' i ≤ u
    entered-apart s u i j e f lt = elim (found_entry s i e) [
      | inl (same, new) ↦ elim (found_entry u j f) [
        | inl (same', _) ↦ absurd (omega (arith, same, same'))
        | inr (_, old') ↦
            rw new (omega (arith, new_size, same, after u j old' (omega (arith, same))))
      ]
      | inr (other, old) ↦ elim (found_entry u j f) [
        | inl (same', _) ↦
            omega (arith, old_size s i old, same', before s i old (omega (arith, same')))
        | inr (_, old') ↦ omega (arith, old_size s i old, w.apart s u i j old old' lt)
      ]
    ]

    appended : entries ≡ p.allocations ++ (t, length h) ∷ []
    appended =
        ap (insert t (length h)) took.same_allocations
        ∙ insert_fresh t (length h) p.allocations no_entry

    -- The plane with the run taken and the new object entered.
    pub entered-Owns : Owns h' (record_allocation q t (length h))
    entered-Owns = record {
      valid = record {
        map_valid = took.valid.map_valid;
        map_size = took.valid.map_size;
        bytes_size = took.valid.bytes_size;
      };
      live = subst (Live h') (sym appended) (
          All-append (λ (e : ℕ × ℕ). 0 < size_at h' e.1) p.allocations _
            (Live-grow h o p.allocations w.live) (omega (arith, new_size), tt));
      unique =
          Unique-insert t (length h) q.allocations
            (subst Unique (sym took.same_allocations) w.unique);
      inside = entered-inside;
      used = entered-used;
      apart = entered-apart;
      counted = omega (
        arith,
        ap (held h') appended,
        held-append h' p.allocations ((t, length h) ∷ []),
        held-grow h o p.allocations w.live,
        new_size,
        took.counted,
        took.same_size,
        w.counted,
      );
    }

    pub entered_length : length entries ≡ length p.allocations + 1
    entered_length = ap length appended ∙ length-append p.allocations _
