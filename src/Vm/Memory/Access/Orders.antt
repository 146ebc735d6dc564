-- ===== src/Vm/Memory/Access/Orders.antt =====
-- The loop of getAllocation over the map of allocations, in any order.
use memory3d.Prelude.{
  ℕ, ◌≡◌, refl, sym, ap, ◌∙◌, ◌↔◌, inl, inr, true, false, none, some, [], ◌∷◌, arith, Bool-cases,
  Option-cases, get_elem?, zero, suc,
}
use memory3d.Types.Address.{Address3D}
use memory3d.Types.Allocation.{Heap}
use memory3d.Vm.Memory.{AllocationMap, holds_fragment, find_fragment, get_allocation, tracked}

-- The entry stands in the list.
abbrev pub Occurs : Address3D × ℕ → AllocationMap → Type 0
Occurs e m = (place : ℕ) × (get_elem? m place ≡ some e)

-- What Go says of range: it visits every entry of the map, and no other.
abbrev pub VisitsAll : (AllocationMap → AllocationMap) → Type 0
VisitsAll visit = (m : AllocationMap) (e : Address3D × ℕ) → Occurs e (visit m) ↔ Occurs e m

-- The address is the key of an entry, or no two of the allocations hold it in a fragment.
abbrev pub OneAnswer : Heap → Address3D → AllocationMap → Type 0
OneAnswer h addr m =
    tracked addr m ≡ none
    → (a b : Address3D) (p q : ℕ) → Occurs (a, p) m
    → Occurs (b, q) m
    → holds_fragment h addr p ≡ true
    → holds_fragment h addr q ≡ true
    → p ≡ q

module _ (h : Heap) (addr : Address3D) where
  find_fragment-found :
      (m : AllocationMap) (p : ℕ)
      → find_fragment h addr m ≡ some p
      → (a : Address3D) × Occurs (a, p) m × (holds_fragment h addr p ≡ true)
  unfolding find_fragment
  find_fragment-found [] p e = cc
  find_fragment-found ((a, q) ∷ m) p e = elim (Bool-cases (holds_fragment h addr q)) [
    | inl here ↦
        let same : q ≡ p = ground (arith, e, here) in
        (a, (0, ap (λ (t : ℕ). some (a, t)) same), rw (← same) here)
    | inr other ↦
        let (b, (place, there), holds) = find_fragment-found m p (ground (arith, e, other)) in
        (b, (suc place, there), holds)
  ]

  find_fragment-finds :
      (m : AllocationMap) (a : Address3D) (p : ℕ)
      → Occurs (a, p) m
      → holds_fragment h addr p ≡ true
      → (q : ℕ) × (find_fragment h addr m ≡ some q)
  unfolding find_fragment
  find_fragment-finds [] a p (place, e) holds = cc
  find_fragment-finds ((b, q) ∷ m) a p there holds = elim (Bool-cases (holds_fragment h addr q)) [
    | inl here ↦ (q, rw (here, find_fragment) refl)
    | inr other ↦ go other there (λ place e. find_fragment-finds m a p (place, e) holds)
  ]
    where
      go :
          holds_fragment h addr q ≡ false
          → Occurs (a, p) ((b, q) ∷ m)
          → ((place : ℕ)
              → get_elem? m place ≡ some (a, p)
              → (r : ℕ) × (find_fragment h addr m ≡ some r))
          → (r : ℕ) × (find_fragment h addr ((b, q) ∷ m) ≡ some r)
      go other (zero, e) again =
          let is_p : q ≡ p = cc in
          let clash : false ≡ true = sym other ∙ ap (holds_fragment h addr) is_p ∙ holds in cc
      go other (suc place, e) again = let (r, f) = again place e in (r, rw (other, find_fragment) f)

  -- With one answer the order does not matter.
  pub get_allocation-orders :
      (visit visit' : AllocationMap → AllocationMap) (m : AllocationMap) (p : ℕ)
      → VisitsAll visit
      → VisitsAll visit'
      → OneAnswer h addr m
      → get_allocation visit h addr m ≡ some p
      → get_allocation visit' h addr m ≡ some p
  unfolding get_allocation
  get_allocation-orders visit visit' m p all all' one e = elim (Option-cases (tracked addr m)) [
    | inr (q, exact) ↦ rw (exact, get_allocation) (sym (rw (exact, get_allocation) refl) ∙ e)
    | inl none_exact ↦
        let first : find_fragment h addr (visit m) ≡ some p =
          sym (rw (none_exact, get_allocation) refl) ∙ e in
        let (a, there, holds) = find_fragment-found (visit m) p first in
        let (q, second) =
          find_fragment-finds (visit' m) a p ((all' m (a, p)).1 ((all m (a, p)).0 there)) holds in
        let (b, there', holds') = find_fragment-found (visit' m) q second in
        let same : p ≡ q =
          one none_exact a b p q ((all m (a, p)).0 there) ((all' m (b, q)).0 there') holds holds' in
        rw (none_exact, get_allocation) (second ∙ ap some (sym same))
  ]
