-- ===== src/Allocator/Ownership/Planes.antt =====
-- What the objects entered in one plane of plane.go own, and that Allocate with its entry, and Free,
-- keep it so.
use memory3d.Prelude.{
  ℕ, ◌+◌, ◌^◌, ◌≤◌, ◌<◌, ◌≡◌, ◌≢◌, refl, ◌∙◌, inl, inr, true, some, arith, ltb, ◌==◌, if◌then◌else◌,
  Bool-cases, lookup, erase, lookup-erase, u16,
}
use memory3d.Types.Allocation.{Allocation, Heap, alloc_object, size_at}
use memory3d.Types.Bitmap.{clear_range}
use memory3d.Types.Bitmap.Positions.{bit_at}
use memory3d.Types.Bitmap.Ranges.{bit_at-clear_range, clear_range-IsValid, clear_range-size}
use memory3d.Types.Bitmap.Counting.{free_bytes-new_bitmap, free_bytes-clear_range}
use memory3d.Types.Plane.{Plane, new_plane, free, free_bytes}
use memory3d.Types.Plane.Laws.{IsValid, new_plane-IsValid}
use memory3d.Allocator.Ownership.{
  Live, Unique, held, size_at-grow, Live-grow, held-grow, Unique-erase, Live-erase, erase_counts,
}

-- The objects entered in the plane lie in it, on used positions, apart from each other, and there
-- are no other used positions.
pub record Owns (h : Heap) (p : Plane) : Type 0 where
  pub valid : IsValid p
  pub live : Live h p.allocations
  pub unique : Unique p.allocations
  pub inside : (s ptr : ℕ) → lookup s p.allocations ≡ some ptr → s + size_at h ptr ≤ p.size
  pub used :
      (s ptr pos : ℕ)
      → lookup s p.allocations ≡ some ptr
      → s ≤ pos
      → pos < s + size_at h ptr
      → bit_at p.free_map pos ≡ true
  pub apart :
      (s t i j : ℕ)
      → lookup s p.allocations ≡ some i
      → lookup t p.allocations ≡ some j
      → s < t
      → s + size_at h i ≤ t
  pub counted : free_bytes p + held h p.allocations ≡ p.size

-- The heap gains an object.
pub Owns-grow : (h : Heap) (o : Allocation) (p : Plane) → Owns h p → Owns (alloc_object h o) p
Owns-grow h o p w = record {
  valid = w.valid;
  live = Live-grow h o p.allocations w.live;
  unique = w.unique;
  inside = λ s ptr e. omega (arith, w.inside s ptr e, same s ptr e);
  used = λ s ptr pos e lo hi. w.used s ptr pos e lo (omega (arith, same s ptr e));
  apart = λ s t i j e f lt. omega (arith, w.apart s t i j e f lt, same s i e);
  counted = omega (arith, w.counted, held-grow h o p.allocations w.live);
}
  where
    same :
        (s ptr : ℕ)
        → lookup s p.allocations ≡ some ptr
        → size_at (alloc_object h o) ptr ≡ size_at h ptr
    same s ptr e = size_at-grow h o p.allocations s ptr w.live e

-- A new plane holds nothing.
pub new_plane-Owns :
    (h : Heap) (id region_id size : ℕ) → size < 2 ^ 16 → Owns h (new_plane id region_id size)
unfolding new_plane
new_plane-Owns h id region_id size small = record {
  valid = new_plane-IsValid id region_id size small;
  live = tt;
  unique = tt;
  inside = λ s ptr e. cc;
  used = λ s ptr pos e. cc;
  apart = λ s t i j e. cc;
  counted =
      let full = free_bytes-new_bitmap (if size == 0 then 65535 else size) (ground arith) in
      omega (arith, full);
}

-- Free of an entry: its object's positions, and only they, become free, and the entry goes.
module _ (h : Heap) (p : Plane) (start ptr : ℕ) (w : Owns h p)
    (there : lookup start p.allocations ≡ some ptr) where
  abbrev pub without : Plane
  without = record p {
    free_map = clear_range p.free_map start (start + size_at h ptr);
    allocations = erase start p.allocations;
  }

  pub freed_eq : free h p start ≡ (without, true)
  unfolding free
  freed_eq =
      let end : u16 (start + u16 (size_at h ptr)) ≡ start + size_at h ptr =
        omega (arith, w.inside start ptr there, w.valid.map_valid.small, w.valid.map_size) in
      rw (there, free, end) refl

  old_entry :
      (s i : ℕ)
      → lookup s (erase start p.allocations) ≡ some i
      → (start ≢ s) × (lookup s p.allocations ≡ some i)
  old_entry s i e =
      let erased = lookup-erase start s p.allocations in
      elim (Bool-cases (start == s)) [
        | inl same ↦ absurd (ground (arith, erased, same, e))
        | inr other ↦ (λ same. ground (arith, other, same), ground (arith, erased, other, e))
      ]

  without-used :
      (s i pos : ℕ)
      → lookup s (erase start p.allocations) ≡ some i
      → s ≤ pos
      → pos < s + size_at h i
      → bit_at (clear_range p.free_map start (start + size_at h ptr)) pos ≡ true
  without-used s i pos e lo hi =
      let (other, old) = old_entry s i e in
      let taken = w.used s i pos old lo hi in
      let cleared =
        bit_at-clear_range p.free_map start (start + size_at h ptr) pos w.valid.map_valid in
      elim (Bool-cases (ltb start s)) [
        | inl later ↦
            let gap = w.apart start s ptr i there old (ground (arith, later)) in
            ground (arith, cleared, taken, gap)
        | inr earlier ↦
            let gap = w.apart s start i ptr old there (ground (arith, earlier, other)) in
            ground (arith, cleared, taken, gap)
      ]

  pub free_bytes-without : free_bytes without ≡ free_bytes p + size_at h ptr
  free_bytes-without = omega (
    arith,
    free_bytes-clear_range p.free_map w.valid.map_valid start (start + size_at h ptr)
        (omega (arith, w.inside start ptr there, w.valid.map_size))
        (λ pos lo hi. w.used start ptr pos there lo hi),
  )

  pub without-Owns : Owns h without
  without-Owns = record {
    valid = record {
      map_valid = clear_range-IsValid p.free_map start (start + size_at h ptr) w.valid.map_valid;
      map_size = clear_range-size p.free_map start (start + size_at h ptr) ∙ w.valid.map_size;
      bytes_size = w.valid.bytes_size;
    };
    live = Live-erase h start p.allocations w.live;
    unique = Unique-erase start p.allocations w.unique;
    inside = λ s i e. w.inside s i (old_entry s i e).1;
    used = without-used;
    apart = λ s t i j e f lt. w.apart s t i j (old_entry s i e).1 (old_entry t j f).1 lt;
    counted = omega (
      arith,
      w.counted,
      free_bytes-without,
      (erase_counts h start ptr p.allocations w.unique there).0,
    );
  }
