-- ===== src/Tests/Memory.antt =====
-- The memory manager on concrete inputs.
use memory3d.Prelude.{
  zero, suc, true, sym, ◌∙◌, get_elem?, ℕ, ◌≡◌, refl, arith, false, if◌then◌else◌, none, some, [],
  ◌∷◌,
}
use memory3d.Types.Address.{Address3D, same_address}
use memory3d.Types.Allocation.{Allocation, new_allocation, is_y_promoted}
use memory3d.Types.Plane.{new_plane}
use memory3d.Types.Region.{Region, new_region, get_plane, find_plane}
use memory3d.Allocator.{Config, Allocator3D, new_allocator3d}
use memory3d.Vm.Memory.{
  AccessType, MemoryManager, new_memory_manager, tracked, in_fragments, holds_fragment,
  find_fragment, get_allocation, locate, check_pointer, check_bounds, check_region, check_plane,
  loaded, load3d, stored, store3d, finish_store,
}
use memory3d.Vm.Memory.Access.{load3d-store3d}
use memory3d.Vm.Memory.Access.Orders.{VisitsAll, OneAnswer}
use memory3d.Vm.Memory.Tracking.{relocate_allocation, relocated}
use memory3d.Vm.Memory.Tracking.Laws.{tracked-relocate_allocation}

abbrev pub home : Address3D
home = record { x = 1; y = 0; z = 4 }

abbrev elsewhere : Address3D
elsewhere = record { x = 1; y = 0; z = 20 }

abbrev pub block : Allocation
block = new_allocation 0 1 home 10 4

abbrev pub region : Region
region = record (new_region 0 1 4) { planes = new_plane 0 1 32 ∷ [] }

abbrev config : Config
config = record {
  plane_size = 32;
  max_y_planes = 1024;
  max_y_promotions = 8;
  worker_count = 4;
  enable_concurrent = false;
  enable_pooling = false;
}

abbrev pub allocator : Allocator3D
allocator = record (new_allocator3d config) { heap = block ∷ []; regions = (1, region) ∷ [] }

abbrev pub memory : MemoryManager
memory = record (new_memory_manager (λ now kind m. m) allocator) { allocations = (home, 0) ∷ [] }

-- A block split over two planes, and an address in its second fragment, which is no key of the map.
abbrev split_block : Allocation
split_block = record block {
  fragments =
      record { plane_id = 0; start_z = 4; size = 5; is_first = true }
      ∷ record { plane_id = 1; start_z = 4; size = 5; is_first = false }
      ∷ [];
}

abbrev second : Address3D
second = record { x = 1; y = 1; z = 6 }

abbrev split_memory : MemoryManager
split_memory = record memory {
  allocator = record allocator {
    heap = split_block ∷ [];
    regions = (1, record region { planes = new_plane 0 1 32 ∷ new_plane 1 1 32 ∷ [] }) ∷ [];
  };
}

stores : (store3d 7 split_memory second (1 ∷ 2 ∷ 3 ∷ [])).1 ≡ stored
unfolding store3d locate check_pointer check_bounds check_region check_plane get_allocation tracked
    find_fragment holds_fragment in_fragments is_y_promoted get_plane find_plane new_memory_manager
    new_plane new_region new_allocation new_allocator3d finish_store
stores = refl

visits_all : (time : ℕ) (kind : AccessType) → VisitsAll (split_memory.visits time kind)
unfolding new_memory_manager
visits_all time kind m e = (λ o. o, λ o. o)

only_entry :
    (a : Address3D) (p place : ℕ)
    → get_elem? {A = Address3D × ℕ} ((home, 0) ∷ []) place ≡ some (a, p)
    → p ≡ 0
only_entry a p zero e = cc
only_entry a p (suc place) e = cc

one_answer : OneAnswer split_memory.allocator.heap second split_memory.allocations
unfolding new_memory_manager
one_answer none_exact a b p q (i, here) (j, there) holds holds' =
    only_entry a p i here ∙ sym (only_entry b q j there)

load3d-store3d_example :
    (load3d 8 (store3d 7 split_memory second (1 ∷ 2 ∷ 3 ∷ [])).0 second 3).1
    ≡ loaded (1 ∷ 2 ∷ 3 ∷ [])
load3d-store3d_example =
    load3d-store3d 7 8 split_memory second (1 ∷ 2 ∷ 3 ∷ []) (omega arith) visits_all one_answer
      stores

is_tracked : tracked home memory.allocations ≡ some 0
unfolding tracked new_memory_manager
is_tracked = refl

is_free : tracked elsewhere memory.allocations ≡ none
unfolding tracked new_memory_manager
is_free = refl

tracked-relocate_allocation_example :
    let r = relocate_allocation 7 memory home elsewhere in
    (r.1 ≡ relocated)
    × (tracked home r.0.allocations ≡ (
        if same_address elsewhere home
        then some 0
        else if same_address home home
        then none
        else tracked home memory.allocations))
tracked-relocate_allocation_example =
    tracked-relocate_allocation 7 memory home elsewhere home 0 is_tracked is_free
