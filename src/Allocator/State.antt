-- ===== src/Allocator/State.antt =====
-- The allocator's state. The regions are found by their ID, in the map and in the LRU list alike,
-- since a region is never removed and its key is its ID. The heap of Allocation objects is kept here
-- for all who hold pointers to them. Allocate and Free hold the allocator's mutex throughout.
use memory3d.Prelude.{
  ℕ, ◌+◌, Bool, Option, none, some, List, [], ◌∷◌, ltb, ◌==◌, if◌then◌else◌, length, lookup, take,
  u64, not64, sub32,
}
use memory3d.Types.Address.{Address3D}
use memory3d.Types.Allocation.{Heap}
use memory3d.Types.Region.{Region}
use memory3d.Types.Plane.{Plane, new_plane}

pub record Config : Type 0 where
  pub plane_size : ℕ
  pub max_y_planes : ℕ
  pub max_y_promotions : ℕ
  pub worker_count : ℕ
  pub enable_concurrent : Bool
  pub enable_pooling : Bool

-- Stats without Fragmentation, which is never written.
pub record Stats : Type 0 where
  pub allocations : ℕ
  pub frees : ℕ
  pub y_promotions : ℕ
  pub cache_hits : ℕ
  pub cache_misses : ℕ

pub record Allocator3D : Type 0 where
  pub heap : Heap
  pub regions : List (ℕ × Region)
  pub config : Config
  pub stats : Stats
  pub region_lru : List ℕ
  pub next_region_id : ℕ
  pub next_alloc_id : ℕ

pub data Error : Type 0 where
  failed_in_new_plane failed_in_region : Error
  insufficient_memory : ℕ → Error
  region_not_found plane_not_found : ℕ → Error
  free_failed : Address3D → Error

-- A pointer to the new allocation, nil, an error, or a run-time panic.
pub data Result : Type 0 where
  got : ℕ → Result
  nothing panicked : Result
  failed : Error → Result

unfoldable pub new_allocator3d : Config → Allocator3D
new_allocator3d config = record {
  heap = [];
  regions = [];
  config = config;
  stats = record { allocations = 0; frees = 0; y_promotions = 0; cache_hits = 0; cache_misses = 0 };
  region_lru = [];
  next_region_id = 1;
  next_alloc_id = 1;
}

abbrev pub get_region : Allocator3D → ℕ → Option Region
get_region a x = lookup x a.regions

-- The first element of that ID taken out of the list.
unfoldable pub remove_id : ℕ → List ℕ → List ℕ
remove_id id [] = []
remove_id id (x ∷ xs) = if x == id then xs else x ∷ remove_id id xs

unfoldable pub promote_region_lru : Allocator3D → ℕ → Allocator3D
unfolding remove_id
promote_region_lru a id =
    let without = remove_id id a.region_lru in
    elim (lookup id a.regions) [
      | none ↦ record a { region_lru = without }
      | some region ↦ record a {
        region_lru =
            if ltb 100 (length (id ∷ without)) then take 100 (id ∷ without) else id ∷ without;
      }
    ]

-- Nothing is ever put into the pool, so that Get makes a new plane with New.
unfoldable pub get_plane_from_pool : Config → ℕ → ℕ → Plane
unfolding new_plane
get_plane_from_pool config id region_id =
    if config.enable_pooling
    then record (new_plane 0 0 config.plane_size) { id = id; region_id = region_id }
    else new_plane id region_id config.plane_size

-- `AddUint64(&FreeBytes, ^uint64(size-1))`, with `size` a uint32.
abbrev pub take_bytes : ℕ → ℕ → ℕ
take_bytes free size = u64 (free + not64 (sub32 size 1))
