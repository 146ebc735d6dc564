-- ===== src/Types/Region.antt =====
-- internal/types/region.go: a region, its planes and its statistics. HotnessScore is never read or
-- written and is left out; Fragmentation and the compaction report stand in Types/Fragmentation.
pub mod Laws
use memory3d.Prelude.{
  ℕ, ◌+◌, ◌-◌, ◌%◌, ◌^◌, Bool, true, false, ◌||◌, Option, none, some, List, [], ◌∷◌, ◌++◌, ◌==◌,
  if◌then◌else◌, replicate, u64, sub16, not64,
}
use memory3d.Types.Plane.{Plane}
use memory3d.Types.Plane

-- RegionType is a byte.
abbrev pub region_type_vm_control : ℕ
region_type_vm_control = 1

abbrev pub region_type_code : ℕ
region_type_code = 2

abbrev pub region_type_state : ℕ
region_type_state = 3

abbrev pub region_type_heap : ℕ
region_type_heap = 4

abbrev pub region_type_stack : ℕ
region_type_stack = 5

abbrev pub region_type_shared : ℕ
region_type_shared = 6

abbrev pub region_type_transient : ℕ
region_type_transient = 7

pub record Permissions : Type 0 where
  pub readable : Bool
  pub writable : Bool
  pub executable : Bool
  pub shared : Bool
  pub atomic : Bool

pub record Region : Type 0 where
  pub id : ℕ
  pub kind : ℕ
  pub permissions : Permissions
  pub planes : List Plane
  pub merkle_root : List ℕ
  pub alloc_count : ℕ
  pub free_bytes : ℕ
  pub total_bytes : ℕ
  pub access_count : ℕ
  pub last_access : ℕ

abbrev no_permissions : Permissions
no_permissions = record {
  readable = false;
  writable = false;
  executable = false;
  shared = false;
  atomic = false;
}

abbrev read_write : Permissions
read_write = record no_permissions { readable = true; writable = true }

unfoldable pub get_default_permissions : ℕ → Permissions
get_default_permissions kind =
    if kind == region_type_code
    then record no_permissions { readable = true; executable = true }
    else if kind == region_type_shared
    then record read_write { shared = true }
    else if (kind == region_type_vm_control || kind == region_type_state)
        || ((kind == region_type_heap || kind == region_type_stack)
            || kind == region_type_transient)
    then read_write
    else no_permissions

unfoldable pub new_region : ℕ → ℕ → ℕ → Region
unfolding get_default_permissions
new_region now id kind = record {
  id = id;
  kind = kind;
  permissions = get_default_permissions kind;
  planes = [];
  merkle_root = replicate 32 0;
  alloc_count = 0;
  free_bytes = 0;
  total_bytes = 0;
  access_count = 0;
  last_access = now;
}

unfoldable pub add_plane : Region → Plane → Region
add_plane r plane = record r {
  planes = r.planes ++ plane ∷ [];
  total_bytes = u64 (r.total_bytes + plane.size);
  free_bytes = u64 (r.free_bytes + Plane.free_bytes plane);
}

-- The first plane of an ID, and the planes without it.
unfoldable pub find_plane : ℕ → List Plane → Option Plane
find_plane plane_id [] = none
find_plane plane_id (plane ∷ planes) =
    if plane.id == plane_id then some plane else find_plane plane_id planes

unfoldable pub drop_plane : ℕ → List Plane → List Plane
drop_plane plane_id [] = []
drop_plane plane_id (plane ∷ planes) =
    if plane.id == plane_id then planes else plane ∷ drop_plane plane_id planes

-- `^uint64(plane.Size-1)` takes the difference on uint16, before the conversion.
unfoldable pub remove_plane : Region → ℕ → Region × Bool
unfolding find_plane drop_plane
remove_plane r plane_id = elim (find_plane plane_id r.planes) [
  | none ↦ (r, false)
  | some plane ↦ (
    record r {
      planes = drop_plane plane_id r.planes;
      total_bytes = u64 (r.total_bytes + not64 (sub16 plane.size 1));
      free_bytes = u64 (r.free_bytes + not64 (sub16 (Plane.free_bytes plane) 1));
    },
    true,
  )
]

unfoldable pub get_plane : Region → ℕ → Option Plane
unfolding find_plane
get_plane r plane_id = find_plane plane_id r.planes

-- A change made through the pointer to the first plane of an ID.
unfoldable pub write_plane : Plane → List Plane → List Plane
write_plane plane [] = []
write_plane plane (p ∷ planes) =
    if p.id == plane.id then plane ∷ planes else p ∷ write_plane plane planes

unfoldable pub update_access : ℕ → Region → Region
update_access now r = record r { last_access = now; access_count = u64 (r.access_count + 1) }

abbrev pub update_merkle_root : Region → List ℕ → Region
update_merkle_root r root = record r { merkle_root = root }

abbrev pub get_merkle_root : Region → List ℕ
get_merkle_root r = r.merkle_root
