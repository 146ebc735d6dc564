-- ===== src/Allocator/Compaction/Movable.antt =====
-- Which allocations AnalyzeCompaction names, and how many.
use Prim.Native.Nat.{bit_and}
use memory3d.Prelude.{
  ℕ, ◌+◌, ◌≤◌, ◌<◌, ◌≡◌, refl, inl, inr, Bool, true, false, Option, none, some, List, [], ◌∷◌, ◌++◌,
  arith, leb, if◌then◌else◌, Bool-cases, either_tested, not_leb→lt, length, length-append, All,
  All-append,
}
use memory3d.Types.Allocation.{Allocation, Heap, deref, is_y_promoted}
use memory3d.Types.Float.{FloatOps}
use memory3d.Types.Plane.{Plane}
use memory3d.Types.Region.{Region}
use memory3d.Allocator.State.{Allocator3D}
use memory3d.Allocator.Compaction.{
  CompactionConfig, is_movable, collect_allocations, collect_planes, skips, collect_regions,
  analyze_compaction,
}

-- The bit of AllocationPinned, and the number of an object's fragments.
movable_flags :
    (a : Allocation) → is_movable a ≡ true → (bit_and a.flags 4 ≡ 0) × (length a.fragments ≤ 1)
unfolding is_movable is_y_promoted
movable_flags a e = (ground (arith, e), ground (arith, e))

-- The ID of an object of the heap that is neither pinned nor split.
pub record IsMovable (h : Heap) (id : ℕ) : Type 0 where
  pub ptr : ℕ
  pub object : Allocation
  pub there : deref h ptr ≡ some object
  pub named : object.id ≡ id
  pub not_pinned : bit_and object.flags 4 ≡ 0
  pub not_split : length object.fragments ≤ 1

-- Movable IDs, at most `max` of them, and fewer while the search goes on.
pub record Collected (h : Heap) (max : ℕ) (r : List ℕ × Bool) : Type 0 where
  pub all_movable : All (IsMovable h) r.0
  pub within : length r.0 ≤ max
  pub open_ended : r.1 ≡ false → length r.0 < max

module _ (h : Heap) (max : ℕ) where
  collect_allocations-Collected :
      (ids : List ℕ) (entries : List (ℕ × ℕ))
      → Collected h max (ids, false)
      → Collected h max (collect_allocations h max ids entries)
  unfolding collect_allocations
  collect_allocations-Collected ids [] c = c
  collect_allocations-Collected ids ((start, ptr) ∷ entries) c =
      go (λ ids'. collect_allocations-Collected ids' entries) (deref h ptr) refl
    where
      go :
          ((ids' : List ℕ)
            → Collected h max (ids', false)
            → Collected h max (collect_allocations h max ids' entries))
          → (o : Option Allocation) → deref h ptr ≡ o
          → Collected h max (collect_allocations h max ids ((start, ptr) ∷ entries))
      go again none e = rw (collect_allocations, e) (again ids c)
      go again (some a) e = elim (Bool-cases (is_movable a)) [
        | inr fixed ↦ rw (collect_allocations, e, fixed) (again ids c)
        | inl moves ↦
            let more = ids ++ a.id ∷ [] in
            let movable : All (IsMovable h) more =
              All-append (IsMovable h) ids (a.id ∷ []) c.all_movable (
                record {
                  ptr = ptr;
                  object = a;
                  there = e;
                  named = refl;
                  not_pinned = (movable_flags a moves).0;
                  not_split = (movable_flags a moves).1;
                },
                tt,
              ) in
            let longer : length more ≡ length ids + 1 = length-append ids (a.id ∷ []) in
            let fits : length more ≤ max = omega (arith, longer, c.open_ended refl) in
            elim (Bool-cases (leb max (length more))) [
              | inl enough ↦
                  rw (collect_allocations, e, moves, enough)
                    (record { all_movable = movable; within = fits; open_ended = λ f. cc })
              | inr few ↦
                  rw (collect_allocations, e, moves, few)
                    (again more (record {
                      all_movable = movable;
                      within = fits;
                      open_ended = λ f. not_leb→lt max (length more) few;
                    }))
            ]
      ]

  collect_planes-Collected :
      (ids : List ℕ) (ps : List Plane)
      → Collected h max (ids, false)
      → Collected h max (collect_planes h max ids ps)
  unfolding collect_planes
  collect_planes-Collected ids [] c = c
  collect_planes-Collected ids (p ∷ ps) c =
      let here = collect_allocations-Collected ids p.allocations c in
      either_tested (Collected h max) ((collect_allocations h max ids p.allocations).1) (λ e. here)
        (λ more.
          collect_planes-Collected (collect_allocations h max ids p.allocations).0 ps (record {
            all_movable = here.all_movable;
            within = here.within;
            open_ended = λ f. here.open_ended more;
          }))

module _ {F : Type 0} (float : FloatOps F) (h : Heap) (config : CompactionConfig F) where
  abbrev found_in : List ℕ → Region → List ℕ × Bool
  found_in ids r =
      if skips float config r
      then (ids, false)
      else collect_planes h config.max_allocations_to_move ids r.planes

  found_in-Collected :
      (ids : List ℕ) (r : Region)
      → Collected h config.max_allocations_to_move (ids, false)
      → Collected h config.max_allocations_to_move (found_in ids r)
  found_in-Collected ids r c = elim (Bool-cases (skips float config r)) [
    | inl skipped ↦ rw (skipped) c
    | inr taken ↦
        rw (taken) (collect_planes-Collected h config.max_allocations_to_move ids r.planes c)
  ]

  collect_regions-Collected :
      (ids : List ℕ) (rs : List (ℕ × Region))
      → Collected h config.max_allocations_to_move (ids, false)
      → Collected h config.max_allocations_to_move (collect_regions float h config ids rs, true)
  unfolding collect_regions
  collect_regions-Collected ids [] c = record {
    all_movable = c.all_movable;
    within = c.within;
    open_ended = λ f. cc;
  }
  collect_regions-Collected ids ((x, r) ∷ rs) c =
      let here = found_in-Collected ids r c in
      elim (Bool-cases ((found_in ids r).1)) [
        | inl enough ↦
            rw (enough) (record {
              all_movable = here.all_movable;
              within = here.within;
              open_ended = λ f. cc;
            })
        | inr more ↦ rw (more) (
            collect_regions-Collected (found_in ids r).0 rs (record {
              all_movable = here.all_movable;
              within = here.within;
              open_ended = λ f. here.open_ended more;
            }))
      ]

-- AnalyzeCompaction, asked for at least one allocation, names at most as many as asked for, each
-- by the ID of an object on the heap that does not have the pinned bit, 4, among its flags and
-- that has at most one fragment.
pub analyze_compaction-IsMovable :
    {F : Type 0} (float : FloatOps F) (a : Allocator3D) (config : CompactionConfig F)
    → 0 < config.max_allocations_to_move
    → All (IsMovable a.heap) (analyze_compaction float a config)
      × (length (analyze_compaction float a config) ≤ config.max_allocations_to_move)
unfolding analyze_compaction
analyze_compaction-IsMovable float a config some_wanted =
    let c =
      collect_regions-Collected float a.heap config [] a.regions
        (record { all_movable = tt; within = omega arith; open_ended = λ f. some_wanted }) in
    (c.all_movable, c.within)
