-- ===== src/Vm/Memory.antt =====
-- internal/vm/memory_manager.go: which allocation an address belongs to, and the bytes behind it. The
-- manager reaches the allocator's regions and planes by a pointer, so the allocator is a part of
-- the state here. A map is a list, and the order of a loop over it is a function of the list. GetFragmentation
-- stands with the queries of the machine; the number that GetFreeMemory prints is left out.
pub mod Access
pub mod Tracking
pub mod Soundness
use memory3d.Prelude.{
  ℕ, ◌+◌, ◌-◌, ◌%◌, ◌^◌, Bool, true, false, ◌&&◌, Option, none, some, List, [], ◌∷◌, ◌++◌, ltb, leb,
  ◌==◌, if◌then◌else◌, length, take, drop, lookup, insert, u16, u32, u64, sub16, sub32, not64,
}
use memory3d.Types.Address.{Address3D, same_address}
use memory3d.Types.Allocation.{
  Allocation, Fragment, Heap, deref, write_object, is_y_promoted, update_access,
}
use memory3d.Types.Plane.{Plane}
use memory3d.Types.Region.{Region, get_plane, write_plane}
use memory3d.Allocator.{Allocator3D}

pub record RegionStats : Type 0 where
  pub total_allocations : ℕ
  pub total_frees : ℕ
  pub current_usage : ℕ
  pub max_usage : ℕ
  pub access_count : ℕ

pub data AccessType : Type 0 where
  read write alloc release : AccessType

pub record AccessEntry : Type 0 where
  pub address : Address3D
  pub time : ℕ
  pub kind : AccessType
  pub size : ℕ

-- The map of allocations, from addresses to pointers.
abbrev pub AllocationMap : Type 0
AllocationMap = List (Address3D × ℕ)

-- With the allocator that it points to. `visits` is no field of the source: it is the order in
-- which range visits the map in a call at that time. Every loop over a Go map has an order of its
-- own, so that a load and a store at one time may have different ones.
pub record MemoryManager : Type 0 where
  pub allocator : Allocator3D
  pub allocations : AllocationMap
  pub visits : ℕ → AccessType → AllocationMap → AllocationMap
  pub regions : List (ℕ × RegionStats)
  pub access_log : List AccessEntry

unfoldable pub new_memory_manager :
    (ℕ → AccessType → AllocationMap → AllocationMap) → Allocator3D → MemoryManager
new_memory_manager visits a = record {
  allocator = a;
  allocations = [];
  visits = visits;
  regions = [];
  access_log = [];
}

-- The map of allocations.
unfoldable pub tracked : Address3D → List (Address3D × ℕ) → Option ℕ
tracked addr [] = none
tracked addr ((a, ptr) ∷ m) = if same_address a addr then some ptr else tracked addr m

unfoldable pub track : Address3D → ℕ → List (Address3D × ℕ) → List (Address3D × ℕ)
track addr ptr [] = (addr, ptr) ∷ []
track addr ptr ((a, q) ∷ m) =
    if same_address a addr then (addr, ptr) ∷ m else (a, q) ∷ track addr ptr m

unfoldable pub untrack : Address3D → List (Address3D × ℕ) → List (Address3D × ℕ)
untrack addr [] = []
untrack addr ((a, q) ∷ m) = if same_address a addr then untrack addr m else (a, q) ∷ untrack addr m

-- Whether a fragment holds the address. The region X is not looked at.
unfoldable pub in_fragments : Address3D → List Fragment → Bool
in_fragments addr [] = false
in_fragments addr (f ∷ fs) =
    if (addr.y == f.plane_id && leb f.start_z addr.z) && ltb addr.z (u16 (f.start_z + f.size))
    then true
    else in_fragments addr fs

unfoldable pub holds_fragment : Heap → Address3D → ℕ → Bool
holds_fragment h addr ptr = elim (deref h ptr) [
  | none ↦ false
  | some a ↦ if is_y_promoted a then in_fragments addr a.fragments else false
]

unfoldable pub find_fragment : Heap → Address3D → List (Address3D × ℕ) → Option ℕ
find_fragment h addr [] = none
find_fragment h addr ((a, ptr) ∷ m) =
    if holds_fragment h addr ptr then some ptr else find_fragment h addr m

-- getAllocation and getAllocationLocked, with the order of their loop.
unfoldable pub get_allocation :
    (AllocationMap → AllocationMap) → Heap → Address3D → AllocationMap → Option ℕ
get_allocation visit h addr m = elim (tracked addr m) [
  | none ↦ find_fragment h addr (visit m)
  | some ptr ↦ some ptr
]

pub data AccessError : Type 0 where
  address_not_allocated out_of_bounds region_missing plane_missing plane_out_of_bounds : AccessError

-- What the checks of an access end in: the pointer, the region and the plane, an error, or a
-- run-time panic.
pub data Located : Type 0 where
  at_plane : ℕ → Region → Plane → Located
  refused : AccessError → Located
  crashed : Located

-- A slice whose end lies before its start panics; the end is a uint32.
unfoldable pub check_plane : Address3D → ℕ → ℕ → Region → Option Plane → Located
check_plane addr size ptr region none = refused plane_missing
check_plane addr size ptr region (some plane) =
    if ltb (length plane.bytes) (u32 (addr.z + size))
    then refused plane_out_of_bounds
    else if ltb (u32 (addr.z + size)) addr.z
    then crashed
    else at_plane ptr region plane

unfoldable pub check_region : Address3D → ℕ → ℕ → Option Region → Located
check_region addr size ptr none = refused region_missing
check_region addr size ptr (some region) =
    check_plane addr size ptr region (get_plane region addr.y)

unfoldable pub check_bounds : Allocator3D → Address3D → ℕ → ℕ → Option Allocation → Located
check_bounds a addr size ptr none = crashed
check_bounds a addr size ptr (some object) =
    if ltb (u16 object.size) (u16 (sub16 addr.z object.address.z + u16 size))
    then refused out_of_bounds
    else check_region addr size ptr (lookup addr.x a.regions)

unfoldable pub check_pointer : Allocator3D → Address3D → ℕ → Option ℕ → Located
check_pointer a addr size none = refused address_not_allocated
check_pointer a addr size (some ptr) = check_bounds a addr size ptr (deref a.heap ptr)

-- The checks that Load3D and Store3D share.
unfoldable pub locate : (AllocationMap → AllocationMap) → MemoryManager → Address3D → ℕ → Located
locate visit mm addr size =
    check_pointer mm.allocator addr size
      (get_allocation visit mm.allocator.heap addr mm.allocations)

-- The log keeps its last 9001 to 10000 entries.
unfoldable pub log_access : ℕ → MemoryManager → Address3D → AccessType → ℕ → MemoryManager
log_access now mm addr kind size =
    let entry : AccessEntry = record { address = addr; time = now; kind = kind; size = size } in
    let log = mm.access_log ++ entry ∷ [] in
    record mm { access_log = if ltb 10000 (length log) then drop 1000 log else log }

abbrev pub count_access : Option RegionStats → ℕ → List (ℕ × RegionStats) → List (ℕ × RegionStats)
count_access none x m = m
count_access (some s) x m = insert x (record s { access_count = u64 (s.access_count + 1) }) m

pub data Loaded : Type 0 where
  loaded : List ℕ → Loaded
  load_refused : AccessError → Loaded
  load_crashed : Loaded

unfoldable pub finish_load : ℕ → MemoryManager → Address3D → ℕ → Located → MemoryManager × Loaded
finish_load now mm addr size (refused e) = (mm, load_refused e)
finish_load now mm addr size crashed = (mm, load_crashed)
finish_load now mm addr size (at_plane ptr region plane) =
    let logged = log_access now mm addr read size in
    (
      record logged { regions = count_access (lookup addr.x mm.regions) addr.x mm.regions },
      loaded (take size (drop addr.z plane.bytes)),
    )

unfoldable pub load3d : ℕ → MemoryManager → Address3D → ℕ → MemoryManager × Loaded
load3d now mm addr size = finish_load now mm addr size (locate (mm.visits now read) mm addr size)

-- What copy takes of the content: as much as the slice of the plane is long.
abbrev pub written : Address3D → List ℕ → List ℕ
written addr content = take (u32 (addr.z + u32 (length content)) - addr.z) content

-- copy(bytes[start:], content), of content that fits.
abbrev pub splice : ℕ → List ℕ → List ℕ → List ℕ
splice start content bs = take start bs ++ (content ++ drop (start + length content) bs)

-- UpdateAccess(0) on the object.
unfoldable pub touch : ℕ → Heap → ℕ → Heap
touch now h ptr = elim (deref h ptr) [
  | none ↦ h
  | some a ↦ write_object h ptr (update_access now a 0)
]

pub data Stored : Type 0 where
  stored : Stored
  store_refused : AccessError → Stored
  store_crashed : Stored

unfoldable pub finish_store :
    ℕ → MemoryManager → Address3D → List ℕ → Located → MemoryManager × Stored
finish_store now mm addr content (refused e) = (mm, store_refused e)
finish_store now mm addr content crashed = (mm, store_crashed)
finish_store now mm addr content (at_plane ptr region plane) =
    let plane' = record plane { bytes = splice addr.z (written addr content) plane.bytes } in
    let region' = record region { planes = write_plane plane' region.planes } in
    let logged = log_access now mm addr write (u32 (length content)) in
    (
      record logged {
        allocator = record mm.allocator {
          regions = insert addr.x region' mm.allocator.regions;
          heap = touch now mm.allocator.heap ptr;
        };
      },
      stored,
    )

unfoldable pub store3d : ℕ → MemoryManager → Address3D → List ℕ → MemoryManager × Stored
store3d now mm addr content =
    finish_store now mm addr content (locate (mm.visits now write) mm addr (u32 (length content)))
