-- ===== src/Allocator/Ownership.antt =====
-- The objects entered in a plane own its used positions. allocator.go keeps a plane's bitmap and its
-- map of allocations apart; these are the facts that tie the two together.
pub mod Planes
pub mod Entering
pub mod Regions
pub mod Releasing
pub mod Paths
pub mod Fresh
pub mod Reachability
pub mod Blocks
use memory3d.Prelude.{
  ℕ, zero, suc, ◌+◌, ◌^◌, ◌≤◌, ◌<◌, ◌≡◌, refl, sym, ap, subst, ◌∙◌, inl, inr, true, false, none,
  some, List, [], ◌∷◌, ◌++◌, arith, ◌==◌, ==→eq, if◌then◌else◌, Bool-cases, Option-cases, length,
  get_elem?, get_elem?-append, lookup, insert, erase, lookup-insert, lookup-erase, All,
}
use memory3d.Types.Allocation.{Allocation, Heap, alloc_object, deref, size_at}

abbrev pub Entries : Type 0
Entries = List (ℕ × ℕ)

-- Every entry leads to an object of at least one byte.
abbrev pub Live : Heap → Entries → Type 0
Live h m = All (λ (e : ℕ × ℕ). 0 < size_at h e.1) m

-- No start is entered twice.
abbrev pub Unique : Entries → Type 0
Unique [] = Unit {0}
Unique ((s, ptr) ∷ m) = (lookup s m ≡ none) × Unique m

-- The bytes of the objects entered.
abbrev pub held : Heap → Entries → ℕ
held h [] = 0
held h ((s, ptr) ∷ m) = size_at h ptr + held h m

-- A new object leaves the others where they are.
size_at-live :
    (h : Heap) (o : Allocation) (ptr : ℕ)
    → 0 < size_at h ptr
    → size_at (alloc_object h o) ptr ≡ size_at h ptr
size_at-live [] o ptr pos = absurd (omega arith)
size_at-live (a ∷ h) o zero pos = refl
size_at-live (a ∷ h) o (suc ptr) pos = size_at-live h o ptr pos

pub size_at-new : (h : Heap) (o : Allocation) → size_at (alloc_object h o) (length h) ≡ o.size
size_at-new [] o = refl
size_at-new (a ∷ h) o = size_at-new h o

pub Live-lookup :
    (h : Heap) (m : Entries) (s ptr : ℕ) → Live h m → lookup s m ≡ some ptr → 0 < size_at h ptr
Live-lookup h [] s ptr l e = cc
Live-lookup h ((t, i) ∷ m) s ptr (pos, l) e = elim (Bool-cases (t == s)) [
  | inl same ↦ let is_ptr : i ≡ ptr = ground (arith, e, same) in rw (← is_ptr) pos
  | inr other ↦ Live-lookup h m s ptr l (ground (arith, e, other))
]

pub Live-grow : (h : Heap) (o : Allocation) (m : Entries) → Live h m → Live (alloc_object h o) m
Live-grow h o [] l = tt
Live-grow h o ((s, ptr) ∷ m) (pos, l) =
    (subst (λ n. 0 < n) (sym (size_at-live h o ptr pos)) pos, Live-grow h o m l)

pub size_at-grow :
    (h : Heap) (o : Allocation) (m : Entries) (s ptr : ℕ)
    → Live h m
    → lookup s m ≡ some ptr
    → size_at (alloc_object h o) ptr ≡ size_at h ptr
size_at-grow h o m s ptr l e = size_at-live h o ptr (Live-lookup h m s ptr l e)

pub held-grow :
    (h : Heap) (o : Allocation) (m : Entries) → Live h m → held (alloc_object h o) m ≡ held h m
held-grow h o [] l = refl
held-grow h o ((s, ptr) ∷ m) (pos, l) = omega (arith, size_at-live h o ptr pos, held-grow h o m l)

-- Entering an object at a start that was free of one.
pub insert_fresh :
    (s ptr : ℕ) (m : Entries) → lookup s m ≡ none → insert s ptr m ≡ m ++ (s, ptr) ∷ []
insert_fresh s ptr [] e = refl
insert_fresh s ptr ((t, i) ∷ m) e = elim (Bool-cases (t == s)) [
  | inl same ↦ absurd (ground (arith, e, same))
  | inr other ↦ rw other (ap (◌∷◌ (t, i)) (insert_fresh s ptr m (ground (arith, e, other))))
]

pub held-append : (h : Heap) (m n : Entries) → held h (m ++ n) ≡ held h m + held h n
held-append h [] n = omega arith
held-append h ((s, ptr) ∷ m) n = omega (arith, held-append h m n)

pub Unique-insert : (s ptr : ℕ) (m : Entries) → Unique m → Unique (insert s ptr m)
Unique-insert s ptr [] u = (refl, tt)
Unique-insert s ptr ((t, i) ∷ m) (new, u) = elim (Bool-cases (t == s)) [
  | inl same ↦ rw same (subst (λ k. lookup k m ≡ none) (==→eq t s same) new, u)
  | inr other ↦
      rw other (ground (arith, lookup-insert s t ptr m, new, other), Unique-insert s ptr m u)
]

pub Unique-erase : (s : ℕ) (m : Entries) → Unique m → Unique (erase s m)
Unique-erase s [] u = tt
Unique-erase s ((t, i) ∷ m) (new, u) = elim (Bool-cases (t == s)) [
  | inl same ↦ rw same (Unique-erase s m u)
  | inr other ↦ rw other (ground (arith, lookup-erase s t m, new), Unique-erase s m u)
]

pub Live-erase : (h : Heap) (s : ℕ) (m : Entries) → Live h m → Live h (erase s m)
Live-erase h s [] l = tt
Live-erase h s ((t, i) ∷ m) (pos, l) = elim (Bool-cases (t == s)) [
  | inl same ↦ rw same (Live-erase h s m l)
  | inr other ↦ rw other (pos, Live-erase h s m l)
]

-- An entry that is not there changes nothing by its erasure.
erase_absent : (s : ℕ) (m : Entries) → lookup s m ≡ none → erase s m ≡ m
erase_absent s [] e = refl
erase_absent s ((t, i) ∷ m) e = elim (Bool-cases (t == s)) [
  | inl same ↦ absurd (ground (arith, e, same))
  | inr other ↦ rw other (ap (◌∷◌ (t, i)) (erase_absent s m (ground (arith, e, other))))
]

-- Erasing an entry takes the bytes of its object, and one entry, off.
pub erase_counts :
    (h : Heap) (s ptr : ℕ) (m : Entries)
    → Unique m
    → lookup s m ≡ some ptr
    → (held h (erase s m) + size_at h ptr ≡ held h m) × (length (erase s m) + 1 ≡ length m)
erase_counts h s ptr [] u e = cc
erase_counts h s ptr ((t, i) ∷ m) (new, u) e = elim (Bool-cases (t == s)) [
  | inl same ↦
      let gone : erase s m ≡ m =
        erase_absent s m (subst (λ k. lookup k m ≡ none) (==→eq t s same) new) in
      let is_ptr : i ≡ ptr = ground (arith, e, same) in
      rw (same, gone, is_ptr) (omega arith, omega arith)
  | inr other ↦
      let rest = erase_counts h s ptr m u (ground (arith, e, other)) in
      rw other (omega (arith, rest.0), omega (arith, rest.1))
]
