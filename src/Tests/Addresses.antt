-- ===== src/Tests/Addresses.antt =====
-- Addresses and permissions on concrete inputs.
use memory3d.Prelude.{refl, ◌<◌, ◌≡◌, ◌↔◌, arith, true, false, none, some, [], ◌∷◌}
use memory3d.Types.Address.{Address3D, minus, null, bytes, from_bytes, compare_address}
use memory3d.Types.Address.Laws.{Before, flip, from_bytes-bytes, compare_address-IsOrder}
use memory3d.Types.Address.Text.{parse_address, print_fields}
use memory3d.Types.Address.Parsing.{parse_address-print_fields}
use memory3d.Types.Allocation.{Allocation, new_allocation}
use memory3d.Types.Permissions.{
  check_permission, permission_write, can_access, Grants, Covered, can_access_iff,
}
use memory3d.Types.Plane.{Plane, new_plane, containing, is_allocated}
use memory3d.Types.Region.{Region, get_plane, find_plane, new_region}

abbrev low : Address3D
low = record { x = 1; y = 65536; z = 3 }

abbrev middle : Address3D
middle = record { x = 2; y = 0; z = 0 }

abbrev high : Address3D
high = record { x = 2; y = 0; z = 258 }

from_bytes-bytes_example : from_bytes (bytes low) ≡ some low
from_bytes-bytes_example = from_bytes-bytes low (omega arith, omega arith, omega arith)

compare_address-IsOrder_example :
    ((compare_address low middle ≡ minus) ↔ Before low middle)
    × ((compare_address low middle ≡ null) ↔ (low ≡ middle))
    × (compare_address middle low ≡ flip (compare_address low middle))
    × (compare_address low middle ≡ minus
        → compare_address middle high ≡ minus
        → compare_address low high ≡ minus)
compare_address-IsOrder_example = compare_address-IsOrder low middle high

abbrev at_three : Allocation
at_three = new_allocation 0 1 low 4 4

-- One plane, with a block of four bytes at 3.
abbrev heap_region : Region
heap_region = record (new_region 0 1 4) {
  planes = record (new_plane 65536 1 32) { allocations = (3, 0) ∷ [] } ∷ [];
}

can_access_iff_example :
    (can_access (at_three ∷ []) low permission_write none ≡ false)
    × ((can_access (at_three ∷ []) low permission_write (some heap_region) ≡ true) ↔ (
        (plane : Plane) × (get_plane heap_region 65536 ≡ some plane)
        × Grants heap_region.permissions permission_write
        × (3 < plane.size)
        × ((permission_write ≡ 2) → Covered (at_three ∷ []) plane.allocations 3)))
can_access_iff_example = can_access_iff (at_three ∷ []) low permission_write heap_region

may_write : can_access (at_three ∷ []) low permission_write (some heap_region) ≡ true
unfolding can_access check_permission new_region new_plane new_allocation get_plane find_plane
    is_allocated containing
may_write = refl

-- A y and a z beyond their types, of which the conversions keep 1 and 2.
parse_address-print_fields_example :
    parse_address (print_fields 7 4294967297 65538) ≡ some (record { x = 7; y = 1; z = 2 })
parse_address-print_fields_example =
    parse_address-print_fields 7 4294967297 65538 (omega arith) (omega arith) (omega arith)
