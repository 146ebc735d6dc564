-- ===== src/Tests/Cache.antt =====
-- The cache on concrete inputs.
use memory3d.Prelude.{◌+◌, ◌*◌, min, length, ◌≡◌, refl, arith, none, some, [], ◌∷◌}
use memory3d.Types.Address.{Address3D}
use memory3d.Vm.Cache.{
  SpatialCache, new_spatial_cache, get_cached, put_cached, put_element, element_of,
}
use memory3d.Vm.Cache.Prefetch.{prefetch_spatial, prefetch_endless}
use memory3d.Vm.Cache.Prefetch.Counting.{sent, prefetch_ends}
use memory3d.Vm.Cache.Prefetch.{Gathered}
use memory3d.Vm.Cache.Laws.{IsValid, put_cached-IsValid, get_cached-put_cached}

abbrev spot : Address3D
spot = record { x = 1; y = 2; z = 3 }

abbrev next_spot : Address3D
next_spot = record { x = 1; y = 2; z = 4 }

-- One element of capacity, and one entry.
abbrev tiny : SpatialCache
tiny = record new_spatial_cache { capacity = 1 }

tiny-IsValid : IsValid tiny
unfolding new_spatial_cache element_of
tiny-IsValid = record { stored = λ addr e there. cc }

get_cached-put_cached_example :
    (get_cached (put_cached (put_cached tiny spot (5 ∷ [])) next_spot (6 ∷ [])) next_spot).1
    ≡ some (6 ∷ [])
get_cached-put_cached_example =
    get_cached-put_cached (put_cached tiny spot (5 ∷ [])) next_spot (6 ∷ [])
      (put_cached-IsValid tiny spot (5 ∷ []) tiny-IsValid)

-- The evicted entry is still answered.
evicted_answers :
    (get_cached (put_cached (put_cached tiny spot (5 ∷ [])) next_spot (6 ∷ [])) spot).1
    ≡ some (5 ∷ [])
unfolding get_cached put_cached put_element element_of new_spatial_cache
evicted_answers = refl

-- A miss at the last place of a plane.
prefetch_endless_example : prefetch_spatial 1000 (record { x = 100; y = 70; z = 65535 }) [] ≡ none
prefetch_endless_example =
    prefetch_endless 1000 (record { x = 100; y = 70; z = 65535 }) [] (omega arith) (omega arith)
      (omega arith) (omega arith) (omega arith) (omega arith)

-- A miss at the start of a plane: 129 regions, 129 planes, and 65 places in each.
prefetch_ends_example :
    (g : Gathered) × (prefetch_spatial 130 (record { x = 100; y = 70; z = 0 }) [] ≡ some g)
    × (length g.addrs + sent g.prefetch_queue ≡ 129 * (129 * (min 64 0 + 65)))
prefetch_ends_example =
    prefetch_ends 130 (record { x = 100; y = 70; z = 0 }) (omega arith) (omega arith) (omega arith)
      (omega arith) (omega arith) (omega arith)
