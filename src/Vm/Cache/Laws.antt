-- ===== src/Vm/Cache/Laws.antt =====
-- What the cache answers, and how long its list grows.
use memory3d.Prelude.{
  ℕ, suc, ◌+◌, ◌-◌, ◌≤◌, ◌<◌, ◌≡◌, refl, sym, ap, ◌∙◌, inl, inr, true, false, some, List, [], ◌∷◌,
  ◌++◌, arith, ltb, not_ltb→le, ◌==◌, ==_refl, if◌then◌else◌, Bool-cases, Option-cases, length,
  get_or, get_or-set, length-take, length-set, length-append, subst,
}
use memory3d.Types.Address.Laws.{same_address_refl}
use memory3d.Types.Address.{Address3D, same_address}
use memory3d.Vm.Cache.{
  SpatialCache, new_spatial_cache, element_of, in_list, remove_element, move_to_front, get_cached,
  evict, put_element, put_cached,
}

length-remove_element :
    (e : ℕ) (xs : List ℕ) → in_list e xs ≡ true → suc (length (remove_element e xs)) ≡ length xs
unfolding in_list remove_element
length-remove_element e [] there = cc
length-remove_element e (x ∷ xs) there = elim (Bool-cases (x == e)) [
  | inl here ↦ rw (here) refl
  | inr later ↦ rw (later) (ap suc (length-remove_element e xs (ground (arith, there, later))))
]

pub length-move_to_front : (e : ℕ) (xs : List ℕ) → length (move_to_front e xs) ≡ length xs
unfolding move_to_front
length-move_to_front e xs = elim (Bool-cases (in_list e xs)) [
  | inl there ↦ rw (there) (length-remove_element e xs there)
  | inr absent ↦ rw (absent) refl
]

evict_bounded :
    (capacity : ℕ) (xs : List ℕ) → length xs ≤ capacity + 1 → length (evict capacity xs) ≤ capacity
evict_bounded capacity xs h = elim (Bool-cases (ltb capacity (length xs))) [
  | inl long ↦ rw (long) (omega (arith, length-take (length xs - 1) xs))
  | inr short ↦ rw (short) (not_ltb→le capacity (length xs) short)
]

-- Put keeps a list that is within its capacity within it.
pub put_cached_bounded :
    (c : SpatialCache) (addr : Address3D) (content : List ℕ)
    → length c.ll ≤ c.capacity
    → length (put_cached c addr content).ll ≤ (put_cached c addr content).capacity
unfolding put_cached put_element
put_cached_bounded c addr content h = elim (Option-cases (element_of addr c.cache)) [
  | inl missing ↦
      rw (missing, put_element) (evict_bounded c.capacity (length c.elements ∷ c.ll) (omega arith))
  | inr (e, there) ↦ rw (there, put_element) (omega (arith, length-move_to_front e c.ll))
]

-- Every element that the map leads to is in the store.
pub record IsValid (c : SpatialCache) : Type 0 where
  pub stored : (addr : Address3D) (e : ℕ) → element_of addr c.cache ≡ some e → e < length c.elements

last_element :
    (es : List (List ℕ)) (content : List ℕ) → get_or (es ++ content ∷ []) (length es) [] ≡ content
last_element [] content = refl
last_element (e ∷ es) content = last_element es content

newest :
    (addr : Address3D) (e : ℕ) (m : List (Address3D × ℕ)) → element_of addr ((addr, e) ∷ m) ≡ some e
unfolding element_of
newest addr e m = rw (same_address_refl addr) refl

ends :
    (a b : Address3D) (n e : ℕ) (m : List (Address3D × ℕ))
    → same_address a b ≡ true
    → element_of b ((a, n) ∷ m) ≡ some e
    → n ≡ e
unfolding element_of
ends a b n e m same there = ground (arith, same, there)

older :
    (a b : Address3D) (n e : ℕ) (m : List (Address3D × ℕ))
    → same_address a b ≡ false
    → element_of b ((a, n) ∷ m) ≡ some e
    → element_of b m ≡ some e
unfolding element_of
older a b n e m other there = sym (ap (λ t. if t then some n else element_of b m) other) ∙ there

hit :
    (c : SpatialCache) (addr : Address3D) (e : ℕ)
    → element_of addr c.cache ≡ some e
    → (get_cached c addr).1 ≡ some (get_or c.elements e [])
unfolding get_cached
hit c addr e there = rw (there, get_cached) refl

pub new_spatial_cache-IsValid : IsValid new_spatial_cache
unfolding new_spatial_cache element_of
new_spatial_cache-IsValid = record { stored = λ addr e there. cc }

pub put_cached-IsValid :
    (c : SpatialCache) (addr : Address3D) (content : List ℕ)
    → IsValid c
    → IsValid (put_cached c addr content)
unfolding put_cached put_element
put_cached-IsValid c addr content v = elim (Option-cases (element_of addr c.cache)) [
  | inl missing ↦
      rw (missing, put_element)
        (record { stored = λ b e there. added (length-append c.elements (content ∷ [])) b e there })
  | inr (e, there) ↦
      rw (there, put_element)
        (record {
          stored = λ b e' there'.
              subst (λ n. e' < n) (sym (length-set c.elements e content)) (v.stored b e' there');
        })
]
  where
    added :
        length (c.elements ++ content ∷ []) ≡ length c.elements + 1
        → (b : Address3D) (e : ℕ) → element_of b ((addr, length c.elements) ∷ c.cache) ≡ some e
        → e < length (c.elements ++ content ∷ [])
    added longer b e there = elim (Bool-cases (same_address addr b)) [
      | inl same ↦
          let at_end : length c.elements ≡ e =
            ends addr b (length c.elements) e c.cache same there in
          omega arith
      | inr other ↦
          let old : e < length c.elements =
            v.stored b e (older addr b (length c.elements) e c.cache other there) in
          omega arith
    ]

-- After a Put, of a cache whose map leads into its elements, a Get of the same address gives the
-- content, whatever was evicted.
pub get_cached-put_cached :
    (c : SpatialCache) (addr : Address3D) (content : List ℕ)
    → IsValid c
    → (get_cached (put_cached c addr content) addr).1 ≡ some content
unfolding put_cached put_element
get_cached-put_cached c addr content v = elim (Option-cases (element_of addr c.cache)) [
  | inl missing ↦
      rw (missing, put_element)
        (hit _ addr (length c.elements) (newest addr (length c.elements) c.cache)
          ∙ ap some (last_element c.elements content))
  | inr (e, there) ↦
      rw (there, put_element)
        (hit _ addr e there
          ∙ ap some (
              get_or-set c.elements e e content [] (v.stored addr e there)
              ∙ ap (λ b. if b then content else get_or c.elements e []) (==_refl e)))
]
