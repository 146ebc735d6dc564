-- ===== src/Vm/Memory/Access/Splicing.antt =====
-- The pieces that a store changes, read again: the bytes, the object and the plane.
use memory3d.Prelude.{
  ℕ, zero, suc, ◌+◌, ◌≤◌, ◌≡◌, refl, sym, ap, ◌∙◌, inl, inr, none, some, List, [], ◌∷◌, ◌++◌, arith,
  ◌==◌, if◌then◌else◌, Bool-cases, Option-cases, ==→eq, ==_refl, length, take, drop, take-append,
  length-append, length-take, length-drop, get_elem?,
}
use memory3d.Prelude.{set as update}
use memory3d.Types.Address.{Address3D}
use memory3d.Types.Allocation.{Allocation, Heap, deref, is_y_promoted, update_access}
use memory3d.Vm.Memory.{
  AllocationMap, splice, touch, holds_fragment, find_fragment, get_allocation, tracked,
}

pub length-splice :
    (start : ℕ) (new bs : List ℕ)
    → start + length new ≤ length bs
    → length (splice start new bs) ≡ length bs
length-splice start new bs h = omega (
  arith,
  length-append (take start bs) (new ++ drop (start + length new) bs),
  length-append new (drop (start + length new) bs),
  length-take start bs,
  length-drop (start + length new) bs,
)

drop-take :
    (start : ℕ) (bs rest : List ℕ) → start ≤ length bs → drop start (take start bs ++ rest) ≡ rest
drop-take zero bs rest h = refl
drop-take (suc start) [] rest h = elim h [ ]
drop-take (suc start) (b ∷ bs) rest h = drop-take start bs rest (omega arith)

pub take-drop-splice :
    (start : ℕ) (new bs : List ℕ)
    → start + length new ≤ length bs
    → take (length new) (drop start (splice start new bs)) ≡ new
take-drop-splice start new bs h =
    ap (take (length new)) (drop-take start bs (new ++ drop (start + length new) bs) (omega arith))
    ∙ take-append new (drop (start + length new) bs)

-- Objects.
get_elem?-set :
    (h : Heap) (i j : ℕ) (old new : Allocation)
    → get_elem? h i ≡ some old
    → get_elem? (update h i new) j ≡ (if i == j then some new else get_elem? h j)
get_elem?-set [] zero j old new e = cc
get_elem?-set [] (suc i) j old new e = cc
get_elem?-set (a ∷ h) zero zero old new e = refl
get_elem?-set (a ∷ h) zero (suc j) old new e = ground arith
get_elem?-set (a ∷ h) (suc i) zero old new e = ground arith
get_elem?-set (a ∷ h) (suc i) (suc j) old new e = ground (arith, get_elem?-set h i j old new e)

module _ (now : ℕ) (h : Heap) (ptr : ℕ) where
  pub deref-touch :
      (a : Allocation)
      → deref h ptr ≡ some a
      → deref (touch now h ptr) ptr ≡ some (update_access now a 0)
  unfolding touch
  deref-touch a e =
      rw (touch, e) (get_elem?-set h ptr ptr a (update_access now a 0) e ∙ rw (==_refl ptr) refl)

  same_fragments :
      (addr : Address3D) (q : ℕ) (a : Allocation) (k : Heap)
      → get_elem? k q ≡ some (update_access now a 0)
      → get_elem? h q ≡ some a
      → holds_fragment k addr q ≡ holds_fragment h addr q
  unfolding holds_fragment update_access is_y_promoted
  same_fragments addr q a k there before = rw (there, before, holds_fragment) refl

  same_object :
      (addr : Address3D) (q : ℕ) (k : Heap)
      → get_elem? k q ≡ get_elem? h q
      → holds_fragment k addr q ≡ holds_fragment h addr q
  unfolding holds_fragment
  same_object addr q k there = rw (there, holds_fragment) refl

  holds_fragment-touch :
      (addr : Address3D) (q : ℕ) → holds_fragment (touch now h ptr) addr q ≡ holds_fragment h addr q
  unfolding touch
  holds_fragment-touch addr q = elim (Option-cases (deref h ptr)) [
    | inl e ↦ rw (touch, e) refl
    | inr (a, e) ↦ elim (Bool-cases (ptr == q)) [
      | inl same ↦
          let there : get_elem? (touch now h ptr) q ≡ some (update_access now a 0) =
            rw (touch, e) (get_elem?-set h ptr q a (update_access now a 0) e ∙ rw (same) refl) in
          let before : get_elem? h q ≡ some a = ap (get_elem? h) (sym (==→eq ptr q same)) ∙ e in
          same_fragments addr q a (touch now h ptr) there before
      | inr other ↦
          let there : get_elem? (touch now h ptr) q ≡ get_elem? h q =
            rw (touch, e) (get_elem?-set h ptr q a (update_access now a 0) e ∙ rw (other) refl) in
          same_object addr q (touch now h ptr) there
    ]
  ]

  find_fragment-touch :
      (addr : Address3D) (m : List (Address3D × ℕ))
      → find_fragment (touch now h ptr) addr m ≡ find_fragment h addr m
  unfolding find_fragment
  find_fragment-touch addr [] = refl
  find_fragment-touch addr ((a, q) ∷ m) =
      ground (arith, holds_fragment-touch addr q, find_fragment-touch addr m)

  pub get_allocation-touch :
      (visit : AllocationMap → AllocationMap) (addr : Address3D) (m : AllocationMap)
      → get_allocation visit (touch now h ptr) addr m ≡ get_allocation visit h addr m
  unfolding get_allocation
  get_allocation-touch visit addr m =
      ap (λ t. elim (tracked addr m) [ none ↦ t | some q ↦ some q ])
        (find_fragment-touch addr (visit m))
