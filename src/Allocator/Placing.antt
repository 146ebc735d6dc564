-- ===== src/Allocator/Placing.antt =====
-- What the search over a region's planes answers.
use memory3d.Prelude.{
  ℕ, ◌+◌, ◌^◌, ◌≤◌, ◌<◌, ◌≡◌, refl, subst, ◌⊎◌, inl, inr, true, List, [], ◌∷◌, arith, leb,
  Bool-cases, u16, All, not_leb→lt, leb→le,
}
use memory3d.Types.Bitmap.{Search, found, not_found, panic, find_contiguous}
use memory3d.Types.Bitmap.Finding.{Outcome, NoRun, find_contiguous-Outcome}
use memory3d.Types.Plane.{Plane, free_bytes, record_allocation}
use memory3d.Types.Plane.Laws.{
  IsValid, Takes, taking, allocate-Takes, allocate_found, allocate_not_found, allocate_panic,
}
use memory3d.Allocator.Fast.{Placed, placed, unplaced, crashed, behind, place}

-- `qs` is `ps` where one plane, of the given ID, has the `size` bytes from `start` on taken and the
-- new entry. Every other plane is as it was.
pub data InPlane (ptr size start : ℕ) : List Plane → List Plane → ℕ → Type 0 where
  here :
      (p q : Plane) (ps : List Plane) (id : ℕ)
      → p.id ≡ id
      → Takes p start size q
      → InPlane ptr size start (p ∷ ps) (record_allocation q start ptr ∷ ps) id
  there :
      (p : Plane) (ps qs : List Plane) (id : ℕ)
      → InPlane ptr size start ps qs id
      → InPlane ptr size start (p ∷ ps) (p ∷ qs) id

-- Some plane has `size` bytes free and the start in it, and the sum of start and size wraps.
abbrev pub Wraps : ℕ → ℕ → List Plane → Type 0
Wraps size start [] = ⊥
Wraps size start (p ∷ ps) =
    ((start < p.size) × (size ≤ free_bytes p) × (2 ^ 16 ≤ start + size)) ⊎ Wraps size start ps

-- What a search for `size` bytes may answer. A start where the sum wraps proves nothing.
abbrev pub PlaceOutcome : ℕ → ℕ → List Plane → Placed → Type 0
PlaceOutcome ptr size ps (placed qs id start) =
    InPlane ptr size start ps qs id ⊎ Wraps size start ps
PlaceOutcome ptr size ps unplaced = All (λ p. NoRun p.free_map size 0 p.size) ps
PlaceOutcome ptr size ps crashed = (s : ℕ) × Wraps size s ps

behind-PlaceOutcome :
    (ptr size : ℕ) (p : Plane) (ps : List Plane) (r : Placed)
    → NoRun p.free_map size 0 p.size
    → PlaceOutcome ptr size ps r
    → PlaceOutcome ptr size (p ∷ ps) (behind p r)
behind-PlaceOutcome ptr size p ps (placed qs id start) none_here (inl in_plane) =
    inl (there p ps qs id in_plane)
behind-PlaceOutcome ptr size p ps (placed qs id start) none_here (inr wraps) = inr (inr wraps)
behind-PlaceOutcome ptr size p ps unplaced none_here o = (none_here, o)
behind-PlaceOutcome ptr size p ps crashed none_here (s, wraps) = (s, inr wraps)

module _ (ptr size : ℕ) (p : Plane) (v : IsValid p) (pos : 0 < size) (fits : size < 2 ^ 16) where
  too_few : free_bytes p < size → NoRun p.free_map size 0 p.size
  too_few few s lo hi run =
      let took = (allocate-Takes p size s v pos run).4 in absurd (omega (arith, took.counted))

  exact : u16 size ≡ size
  exact = omega arith

  in_plane : (s : ℕ) → s < p.free_map.size → s < p.size
  in_plane s inside = omega (arith, v.map_size)

  place-cons :
      (ps : List Plane)
      → PlaceOutcome ptr size ps (place ptr size ps)
      → PlaceOutcome ptr size (p ∷ ps) (place ptr size (p ∷ ps))
  unfolding place
  place-cons ps rest = elim (Bool-cases (leb size (free_bytes p))) [
    | inr few ↦
        rw (few, place)
          (behind-PlaceOutcome ptr size p ps _ (too_few (not_leb→lt size (free_bytes p) few)) rest)
    | inl enough ↦
        go enough (find_contiguous p.free_map size) refl
          (find_contiguous-Outcome p.free_map size v.map_valid pos fits)
  ]
    where
      go :
          leb size (free_bytes p) ≡ true
          → (r : Search) → find_contiguous p.free_map size ≡ r
          → Outcome p.free_map size 0 r
          → PlaceOutcome ptr size (p ∷ ps) (place ptr size (p ∷ ps))
      go enough (found s) e (lo, inside, free, before, is_run) =
          rw (enough, exact, allocate_found p size s e)
            (elim is_run [
              | inl run ↦ inl (
                  here p _ ps p.id refl
                    (rw (exact, allocate_found p size s e) (taking p size s v pos run)))
              | inr wraps ↦ inr (inl (in_plane s inside, leb→le size (free_bytes p) enough, wraps))
            ])
      go enough not_found e none_here =
          rw (enough, exact, allocate_not_found p size e)
            (behind-PlaceOutcome ptr size p ps _
              (subst (NoRun p.free_map size 0) v.map_size none_here) rest)
      go enough panic e (s, lo, inside, before, wraps) =
          rw (enough, exact, allocate_panic p size e)
            (s, inl (in_plane s inside, leb→le size (free_bytes p) enough, wraps))

-- The search of a positive size below 2 ^ 16 over valid planes takes a free run in one plane,
-- enters it there and changes no other plane; without an answer no plane has such a run. The
-- exceptions are a start or a crash where some plane holds the start, has that many bytes free,
-- and the start and the size add up to 2 ^ 16 or more.
pub place-PlaceOutcome :
    (ptr size : ℕ) (ps : List Plane)
    → All IsValid ps
    → 0 < size
    → size < 2 ^ 16
    → PlaceOutcome ptr size ps (place ptr size ps)
unfolding place
place-PlaceOutcome ptr size [] v pos fits = v
place-PlaceOutcome ptr size (p ∷ ps) (v, vs) pos fits =
    place-cons ptr size p v pos fits ps (place-PlaceOutcome ptr size ps vs pos fits)
