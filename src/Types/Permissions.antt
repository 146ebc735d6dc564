-- ===== src/Types/Permissions.antt =====
-- internal/types/permissions.go.
use memory3d.Prelude.{
  zero, suc, ◌+◌, ◌≤◌, ◌⊎◌, List, [], ◌∷◌, ltb, ◌&&◌, get_elem?, u16, ℕ, ◌<◌, ◌≡◌, refl, inl, inr,
  Option-cases, ◌↔◌, Bool-cases, ==→eq, Bool, true, false, not, Option, none, some, arith, leb,
  ◌==◌, if◌then◌else◌,
}
use memory3d.Types.Address.{Address3D}
use memory3d.Types.Allocation.{Heap, size_at}
use memory3d.Types.Plane.{Plane, containing, is_allocated}
use memory3d.Types.Region.{Permissions, Region, get_plane}

-- Permission is a byte with one bit set.
abbrev pub permission_read : ℕ
permission_read = 1

abbrev pub permission_write : ℕ
permission_write = 2

abbrev pub permission_execute : ℕ
permission_execute = 4

abbrev pub permission_free : ℕ
permission_free = 8

abbrev pub permission_share : ℕ
permission_share = 16

unfoldable pub check_permission : Permissions → ℕ → Bool
check_permission p perm =
    if perm == permission_read
    then p.readable
    else if perm == permission_write
    then p.writable
    else if perm == permission_execute
    then p.executable
    else if perm == permission_free
    then true
    else if perm == permission_share
    then p.shared
    else false

-- `none` is the nil region.
unfoldable pub can_access : Heap → Address3D → ℕ → Option Region → Bool
unfolding check_permission
can_access h addr perm none = false
can_access h addr perm (some region) =
    if not (check_permission region.permissions perm)
    then false
    else elim (get_plane region addr.y) [
      | none ↦ false
      | some plane ↦
          if leb plane.size addr.z
          then false
          else if perm == permission_write
          then is_allocated h plane addr.z
          else true
    ]

-- The tests of CanAccess, one by one.
can_access_tests :
    (h : Heap) (addr : Address3D) (perm : ℕ) (region : Region)
    → (can_access h addr perm (some region) ≡ true) ↔ (
        (plane : Plane) × (get_plane region addr.y ≡ some plane)
        × (check_permission region.permissions perm ≡ true)
        × (addr.z < plane.size)
        × ((perm ≡ permission_write) → is_allocated h plane addr.z ≡ true))
unfolding can_access
can_access_tests h addr perm region = elim (Option-cases (get_plane region addr.y)) [
  | inl missing ↦ (λ e. absurd (ground (arith, missing)), λ r. absurd (cc (r.1)))
  | inr (plane, there) ↦ (
    λ e. (plane, there, ground (arith, there), ground (arith, there), λ w. ground (arith, there)),
    λ r.
        let same : r.0 ≡ plane = cc in
        elim (Bool-cases (perm == permission_write)) [
          | inl write ↦ let covered = r.4 (==→eq _ _ write) in ground (arith, there)
          | inr other ↦ ground (arith, there)
        ],
  )
]

-- The permissions that a region grants, by their bits; freeing is always granted.
abbrev pub Grants : Permissions → ℕ → Type 0
Grants p perm =
    ((perm ≡ 1) × (p.readable ≡ true))
    ⊎ (((perm ≡ 2) × (p.writable ≡ true))
        ⊎ (((perm ≡ 4) × (p.executable ≡ true)) ⊎ ((perm ≡ 8) ⊎ ((perm ≡ 16) × (p.shared ≡ true)))))

check_permission-Grants :
    (p : Permissions) (perm : ℕ) → (check_permission p perm ≡ true) ↔ Grants p perm
unfolding check_permission
check_permission-Grants p perm = (λ e. ground (arith, e), λ g. ground (arith, g))

-- An entry of the plane whose object, from its start on, has the position. The end is a uint16.
abbrev pub Covered : Heap → List (ℕ × ℕ) → ℕ → Type 0
Covered h m pos =
    (place start ptr : ℕ) × (get_elem? m place ≡ some (start, ptr))
    × (start ≤ pos)
    × (pos < u16 (start + u16 (size_at h ptr)))

containing-Covered :
    (h : Heap) (m : List (ℕ × ℕ)) (pos ptr : ℕ) → containing h m pos ≡ some ptr → Covered h m pos
unfolding containing
containing-Covered h [] pos ptr e = cc
containing-Covered h ((s, q) ∷ m) pos ptr e =
    elim (Bool-cases (leb s pos && ltb pos (u16 (s + u16 (size_at h q))))) [
      | inl here ↦ (0, s, q, refl, ground (arith, here), ground (arith, here))
      | inr other ↦
          let (place, start, i, there, lo, hi) =
            containing-Covered h m pos ptr (ground (arith, e, other)) in
          (suc place, start, i, there, lo, hi)
    ]

Covered-containing :
    (h : Heap) (m : List (ℕ × ℕ)) (pos : ℕ) → Covered h m pos → containing h m pos ≡ none → ⊥
unfolding containing
Covered-containing h [] pos (place, start, ptr, there, lo, hi) e = cc
Covered-containing h ((s, q) ∷ m) pos (zero, start, ptr, there, lo, hi) e =
    let same_start : s ≡ start = cc in
    let same_ptr : q ≡ ptr = cc in
    let end : pos < u16 (s + u16 (size_at h q)) = rw (same_start, same_ptr) hi in
    ground (arith, e, end, lo, same_start)
Covered-containing h ((s, q) ∷ m) pos (suc place, start, ptr, there, lo, hi) e =
    elim (Bool-cases (leb s pos && ltb pos (u16 (s + u16 (size_at h q))))) [
      | inl here ↦ absurd (ground (arith, e, here))
      | inr other ↦
          Covered-containing h m pos (place, start, ptr, there, lo, hi) (ground (arith, e, other))
    ]

is_allocated-Covered :
    (h : Heap) (p : Plane) (pos : ℕ) → (is_allocated h p pos ≡ true) ↔ Covered h p.allocations pos
unfolding is_allocated
is_allocated-Covered h p pos = elim (Option-cases (containing h p.allocations pos)) [
  | inl e ↦
      (λ a. absurd (ground (arith, a, e)), λ c. absurd (Covered-containing h p.allocations pos c e))
  | inr (ptr, e) ↦ (λ a. containing-Covered h p.allocations pos ptr e, λ c. ground (arith, e))
]

-- CanAccess is false of a nil region; of a region it is true exactly when the region grants the
-- permission by its bit (1 readable, 2 writable, 4 executable, 8 always, 16 shared), has the
-- plane, the offset lies in the plane and, for a write, some entry of the plane has an object
-- whose bytes, from its start up to an end taken modulo 2 ^ 16, hold the offset.
pub can_access_iff :
    (h : Heap) (addr : Address3D) (perm : ℕ) (region : Region)
    → (can_access h addr perm none ≡ false)
      × ((can_access h addr perm (some region) ≡ true) ↔ (
          (plane : Plane) × (get_plane region addr.y ≡ some plane)
          × Grants region.permissions perm
          × (addr.z < plane.size)
          × ((perm ≡ 2) → Covered h plane.allocations addr.z)))
unfolding can_access
can_access_iff h addr perm region =
    let tests = can_access_tests h addr perm region in
    (
      refl,
      (
        λ e.
            let (plane, there, granted, inside, written) = tests.0 e in
            (
              plane,
              there,
              (check_permission-Grants region.permissions perm).0 granted,
              inside,
              λ w. (is_allocated-Covered h plane addr.z).0 (written w),
            ),
        λ (plane, there, grants, inside, covered). tests.1 (
          plane,
          there,
          (check_permission-Grants region.permissions perm).1 grants,
          inside,
          λ w. (is_allocated-Covered h plane addr.z).1 (covered w),
        ),
      ),
    )
