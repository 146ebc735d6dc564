-- ===== src/Vm/Memory/Soundness.antt =====
-- The memory manager keeps the planes of its allocator well formed.
use memory3d.Prelude.{
  ℕ, ◌+◌, ◌-◌, ◌≤◌, ◌≡◌, refl, ◌∙◌, inl, inr, false, Option, none, some, List, arith, ltb,
  Option-cases, length, length-take, u32,
}
use memory3d.Allocator.Validity.{IsSound, insert-valid, lookup-valid}
use memory3d.Allocator.Validity.Planes.{write_plane-valid, find_plane-IsValid}
use memory3d.Types.Address.{Address3D}
use memory3d.Types.Plane.{Plane}
use memory3d.Types.Plane.Laws.{IsValid}
use memory3d.Types.Region.{get_plane}
use memory3d.Vm.Memory.{
  MemoryManager, read, write, Located, at_plane, refused, crashed, locate, load3d, finish_load,
  splice, written, store3d, finish_store, log_access, tracked,
}
use memory3d.Vm.Memory.Access.{locate-Reaches}
use memory3d.Vm.Memory.Access.Splicing.{length-splice}
use memory3d.Vm.Memory.Tracking.{
  update_access_at, untrack_allocation, untrack_object, tracked_object,
}

pub load3d-allocator :
    (now : ℕ) (mm : MemoryManager) (addr : Address3D) (size : ℕ)
    → (load3d now mm addr size).0.allocator ≡ mm.allocator
unfolding load3d finish_load log_access
load3d-allocator now mm addr size = go (locate (mm.visits now read) mm addr size)
  where
    go : (l : Located) → (finish_load now mm addr size l).0.allocator ≡ mm.allocator
    go (at_plane ptr region plane) = refl
    go (refused e) = refl
    go crashed = refl

pub update_access_at-sound :
    (now : ℕ) (mm : MemoryManager) (addr : Address3D)
    → IsSound mm.allocator
    → IsSound (update_access_at now mm addr).allocator
unfolding update_access_at
update_access_at-sound now mm addr s = elim (Option-cases (tracked addr mm.allocations)) [
  | inl e ↦ rw (update_access_at, e) s
  | inr (ptr, e) ↦
      rw (update_access_at, e) (record { regions_valid = s.regions_valid; small = s.small })
]

pub untrack_allocation-allocator :
    (now : ℕ) (mm : MemoryManager) (addr : Address3D)
    → (untrack_allocation now mm addr).allocator ≡ mm.allocator
unfolding untrack_allocation untrack_object log_access
untrack_allocation-allocator now mm addr = go (tracked_object mm addr)
  where
    go : (o : Option _) → (untrack_object now mm addr o).allocator ≡ mm.allocator
    go none = refl
    go (some object) = refl

-- The slice that a store writes to lies within the plane.
written-inside :
    (addr : Address3D) (content : List ℕ) (plane : Plane)
    → ltb (length plane.bytes) (u32 (addr.z + u32 (length content))) ≡ false
    → ltb (u32 (addr.z + u32 (length content))) addr.z ≡ false
    → addr.z + length (written addr content) ≤ length plane.bytes
written-inside addr content plane fits forward =
    ground (arith, length-take (u32 (addr.z + u32 (length content)) - addr.z) content)

stored_plane-IsValid :
    (addr : Address3D) (content : List ℕ) (plane : Plane)
    → addr.z + length (written addr content) ≤ length plane.bytes
    → IsValid plane
    → IsValid (record plane { bytes = splice addr.z (written addr content) plane.bytes })
stored_plane-IsValid addr content plane inside v = record {
  map_valid = v.map_valid;
  map_size = v.map_size;
  bytes_size = length-splice addr.z (written addr content) plane.bytes inside ∙ v.bytes_size;
}

-- Store3D keeps every plane's bitmap and bytes at the plane's size, whatever the content.
pub store3d-sound :
    (now : ℕ) (mm : MemoryManager) (addr : Address3D) (content : List ℕ)
    → IsSound mm.allocator
    → IsSound (store3d now mm addr content).0.allocator
unfolding store3d finish_store log_access get_plane
store3d-sound now mm addr content s =
    go (locate (mm.visits now write) mm addr (u32 (length content))) refl
  where
    go :
        (l : Located)
        → locate (mm.visits now write) mm addr (u32 (length content)) ≡ l
        → IsSound (finish_store now mm addr content l).0.allocator
    go (refused e) at = s
    go crashed at = s
    go (at_plane ptr region plane) at =
        let r =
          locate-Reaches (mm.visits now write) mm addr (u32 (length content)) ptr region plane at in
        let planes = lookup-valid addr.x mm.allocator.regions region r.in_region s.regions_valid in
        let v = find_plane-IsValid addr.y region.planes plane r.in_plane planes in
        record {
          regions_valid =
              insert-valid addr.x _ mm.allocator.regions
                (write_plane-valid _ region.planes
                  (stored_plane-IsValid addr content plane
                    (written-inside addr content plane r.fits r.forward) v)
                  planes)
                s.regions_valid;
          small = s.small;
        }
