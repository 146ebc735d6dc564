-- ===== src/Vm/Cache/Bounds.antt =====
-- What every method of spatial.go keeps: the map leads into the store, and the list is within the
-- capacity that NewSpatialCache sets.
use memory3d.Prelude.{
  ℕ, ◌≤◌, ◌≡◌, refl, ◌∙◌, inl, inr, none, some, List, [], ◌∷◌, arith, if◌then◌else◌, Option-cases,
  length,
}
use memory3d.Types.Address.{Address3D, same_address}
use memory3d.Vm.Cache.{
  SpatialCache, new_spatial_cache, element_of, forget, remove_element, get_cached, put_element,
  put_cached, invalidate,
}
use memory3d.Vm.Cache.Laws.{
  IsValid, new_spatial_cache-IsValid, put_cached-IsValid, put_cached_bounded, length-move_to_front,
}

pub record IsHeld (c : SpatialCache) : Type 0 where
  pub valid : IsValid c
  pub capacity : c.capacity ≡ 1000
  pub bounded : length c.ll ≤ 1000

pub new_spatial_cache-IsHeld : IsHeld new_spatial_cache
unfolding new_spatial_cache
new_spatial_cache-IsHeld = record {
  valid = record { stored = λ addr e there. new_spatial_cache-IsValid.stored addr e there };
  capacity = refl;
  bounded = omega arith;
}

put_capacity :
    (c : SpatialCache) (addr : Address3D) (content : List ℕ)
    → (put_cached c addr content).capacity ≡ c.capacity
unfolding put_cached put_element
put_capacity c addr content = elim (Option-cases (element_of addr c.cache)) [
  | inl missing ↦ rw (missing, put_element) refl
  | inr (e, there) ↦ rw (there, put_element) refl
]

pub put_cached-IsHeld :
    (c : SpatialCache) (addr : Address3D) (content : List ℕ)
    → IsHeld c
    → IsHeld (put_cached c addr content)
put_cached-IsHeld c addr content h =
    let same = put_capacity c addr content in
    record {
      valid = put_cached-IsValid c addr content h.valid;
      capacity = same ∙ h.capacity;
      bounded = omega (
        arith,
        put_cached_bounded c addr content (omega (arith, h.bounded, h.capacity)),
        same,
        h.capacity,
      );
    }

pub get_cached-IsHeld :
    (c : SpatialCache) (addr : Address3D) → IsHeld c → IsHeld (get_cached c addr).0
unfolding get_cached
get_cached-IsHeld c addr h = elim (Option-cases (element_of addr c.cache)) [
  | inl missing ↦ rw (missing, get_cached) h
  | inr (e, there) ↦
      rw (there, get_cached)
        (record {
          valid = record { stored = h.valid.stored };
          capacity = h.capacity;
          bounded = omega (arith, length-move_to_front e c.ll, h.bounded);
        })
]

element_of-forget :
    (addr b : Address3D) (m : List (Address3D × ℕ))
    → element_of b (forget addr m) ≡ (if same_address addr b then none else element_of b m)
unfolding element_of forget
element_of-forget addr b [] = ground arith
element_of-forget addr b ((a, i) ∷ m) = ground (arith, element_of-forget addr b m)

kept_element :
    (addr b : Address3D) (e : ℕ) (m : List (Address3D × ℕ))
    → element_of b (forget addr m) ≡ some e
    → element_of b m ≡ some e
kept_element addr b e m there = let same = element_of-forget addr b m in ground (arith, same, there)

length-remove_element-le : (e : ℕ) (xs : List ℕ) → length (remove_element e xs) ≤ length xs
unfolding remove_element
length-remove_element-le e [] = omega arith
length-remove_element-le e (x ∷ xs) = ground (arith, length-remove_element-le e xs)

pub invalidate-IsHeld :
    (c : SpatialCache) (addr : Address3D) → IsHeld c → IsHeld (invalidate c addr)
unfolding invalidate
invalidate-IsHeld c addr h = elim (Option-cases (element_of addr c.cache)) [
  | inl missing ↦ rw (missing, invalidate) h
  | inr (e, there) ↦
      rw (there, invalidate)
        (record {
          valid = record {
            stored = λ b i found. h.valid.stored b i (kept_element addr b i c.cache found);
          };
          capacity = h.capacity;
          bounded = omega (arith, length-remove_element-le e c.ll, h.bounded);
        })
]
