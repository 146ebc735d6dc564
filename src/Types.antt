-- ===== src/Types.antt =====
-- internal/types: addresses, bitmaps, planes, allocations, regions and permissions.
pub mod Constants
pub mod Bitmap
pub mod Address
pub mod Allocation
pub mod Plane
pub mod Region
pub mod Permissions
pub mod Float
pub mod Fragmentation
