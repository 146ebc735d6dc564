-- ===== src/Vm/Cache.antt =====
-- internal/vm/spatial.go. The list elements are shared by the map and by the list, so they stand in a
-- store and the map and the list hold their indices, the front of the list first. The goroutine
-- that a miss starts touches none of these; it stands in Vm/Cache/Prefetch. Each method is one step.
pub mod Laws
pub mod Bounds
pub mod Prefetch
use memory3d.Prelude.{
  ℕ, ◌+◌, ◌-◌, Bool, true, false, Option, none, some, List, [], ◌∷◌, ◌++◌, ltb, ◌==◌, if◌then◌else◌,
  length, take, get_or,
}
use memory3d.Prelude.{set as update}
use memory3d.Types.Address.{Address3D, same_address}

pub record SpatialCache : Type 0 where
  pub elements : List (List ℕ)
  pub cache : List (Address3D × ℕ)
  pub ll : List ℕ
  pub capacity : ℕ

unfoldable pub new_spatial_cache : SpatialCache
new_spatial_cache = record { elements = []; cache = []; ll = []; capacity = 1000 }

unfoldable pub element_of : Address3D → List (Address3D × ℕ) → Option ℕ
element_of addr [] = none
element_of addr ((a, e) ∷ m) = if same_address a addr then some e else element_of addr m

unfoldable pub forget : Address3D → List (Address3D × ℕ) → List (Address3D × ℕ)
forget addr [] = []
forget addr ((a, e) ∷ m) = if same_address a addr then forget addr m else (a, e) ∷ forget addr m

-- Whether the list holds the element, and the list without it.
unfoldable pub in_list : ℕ → List ℕ → Bool
in_list e [] = false
in_list e (x ∷ xs) = let rest = in_list e xs in if x == e then true else rest

unfoldable pub remove_element : ℕ → List ℕ → List ℕ
remove_element e [] = []
remove_element e (x ∷ xs) = let rest = remove_element e xs in if x == e then xs else x ∷ rest

-- MoveToFront does nothing with an element that has been removed from the list.
unfoldable pub move_to_front : ℕ → List ℕ → List ℕ
move_to_front e xs = if in_list e xs then e ∷ remove_element e xs else xs

unfoldable pub get_cached : SpatialCache → Address3D → SpatialCache × Option (List ℕ)
get_cached c addr = elim (element_of addr c.cache) [
  | none ↦ (c, none)
  | some e ↦ (record c { ll = move_to_front e c.ll }, some (get_or c.elements e []))
]

-- The oldest element leaves the list, and stays in the map.
abbrev pub evict : ℕ → List ℕ → List ℕ
evict capacity xs = if ltb capacity (length xs) then take (length xs - 1) xs else xs

unfoldable pub put_element : SpatialCache → Address3D → List ℕ → Option ℕ → SpatialCache
put_element c addr content (some e) = record c {
  elements = update c.elements e content;
  ll = move_to_front e c.ll;
}
put_element c addr content none = record c {
  elements = c.elements ++ content ∷ [];
  cache = (addr, length c.elements) ∷ c.cache;
  ll = evict c.capacity (length c.elements ∷ c.ll);
}

unfoldable pub put_cached : SpatialCache → Address3D → List ℕ → SpatialCache
put_cached c addr content = put_element c addr content (element_of addr c.cache)

unfoldable pub invalidate : SpatialCache → Address3D → SpatialCache
invalidate c addr = elim (element_of addr c.cache) [
  | none ↦ c
  | some e ↦ record c { ll = remove_element e c.ll; cache = forget addr c.cache }
]
