-- ===== src/Types/Allocation.antt =====
-- internal/types/allocation.go. Planes, the memory manager and the callers hold pointers to the same
-- Allocation objects, so the objects stand on a heap and a pointer is an index into it.
use memory3d.Prelude.{
  ℕ, ◌+◌, Bool, Option, none, some, List, [], ◌∷◌, ◌++◌, ltb, length, get_elem?, u64,
}
use memory3d.Prelude.{set as update}
use memory3d.Types.Address.{Address3D}

pub record Fragment : Type 0 where
  pub plane_id : ℕ
  pub start_z : ℕ
  pub size : ℕ
  pub is_first : Bool

-- Times are Unix nanoseconds. `next` is never set.
pub record Allocation : Type 0 where
  pub id : ℕ
  pub address : Address3D
  pub size : ℕ
  pub region_type : ℕ
  pub flags : ℕ
  pub created_at : ℕ
  pub last_used : ℕ
  pub access_count : ℕ
  pub gas_used : ℕ
  pub fragments : List Fragment
  pub next : Option ℕ

-- AllocationFlags, by bit.
abbrev pub flag_pinned : ℕ
flag_pinned = 4

unfoldable pub new_allocation : ℕ → ℕ → Address3D → ℕ → ℕ → Allocation
new_allocation now id addr size region_type = record {
  id = id;
  address = addr;
  size = size;
  region_type = region_type;
  flags = 0;
  created_at = now;
  last_used = now;
  access_count = 0;
  gas_used = 0;
  fragments = [];
  next = none;
}

unfoldable pub add_fragment : Allocation → ℕ → ℕ → ℕ → Bool → Allocation
add_fragment a plane_id start_z size is_first = record a {
  fragments =
      a.fragments
      ++ record { plane_id = plane_id; start_z = start_z; size = size; is_first = is_first } ∷ [];
}

unfoldable pub is_y_promoted : Allocation → Bool
is_y_promoted a = ltb 1 (length a.fragments)

unfoldable pub update_access : ℕ → Allocation → ℕ → Allocation
update_access now a gas_used = record a {
  last_used = now;
  access_count = u64 (a.access_count + 1);
  gas_used = u64 (a.gas_used + gas_used);
}

abbrev pub Heap : Type 0
Heap = List Allocation

abbrev pub deref : Heap → ℕ → Option Allocation
deref h ptr = get_elem? h ptr

-- A new object gets the next index.
abbrev pub alloc_object : Heap → Allocation → Heap
alloc_object h a = h ++ a ∷ []

abbrev pub write_object : Heap → ℕ → Allocation → Heap
write_object h ptr a = update h ptr a

-- The Size that a pointer leads to.
abbrev pub size_at : Heap → ℕ → ℕ
size_at h ptr = elim (deref h ptr) [ none ↦ 0 | some a ↦ a.size ]
