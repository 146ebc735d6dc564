-- ===== src/Types/Plane/Laws.antt =====
-- Allocate and Free of plane.go against the bitmap's positions.
use memory3d.Prelude.{
  ℕ, ◌+◌, ◌^◌, ◌≤◌, ◌<◌, ◌≡◌, refl, sym, ap, subst, ◌∙◌, true, false, none, some, arith, ◌==◌,
  ==_refl, if◌then◌else◌, lookup, insert, lookup-insert, lookup-erase, length, length-replicate,
  u16,
}
use memory3d.Types.Bitmap.{Search, found, not_found, panic, find_contiguous, set_range}
use memory3d.Types.Bitmap.Positions.{bit_at, new_bitmap-IsValid}
use memory3d.Types.Bitmap.Positions
use memory3d.Types.Bitmap.Ranges.{
  within, bit_at-set_range, bit_at-clear_range, set_range-IsValid, set_range-size,
}
use memory3d.Types.Bitmap.Finding.{IsRun, NoRun, find_contiguous-IsRun, find_contiguous_sound}
use memory3d.Types.Bitmap.Counting.{free_bytes-set_range, free_bytes-clear_range}
use memory3d.Types.Allocation.{Heap, size_at}
use memory3d.Types.Plane.{Plane, new_plane, allocate, free, free_bytes, record_allocation}

-- The bitmap covers the plane's bytes.
pub record IsValid (p : Plane) : Type 0 where
  pub map_valid : Positions.IsValid p.free_map
  pub map_size : p.free_map.size ≡ p.size
  pub bytes_size : length p.bytes ≡ p.size

pub new_plane-IsValid :
    (id region_id size : ℕ) → size < 2 ^ 16 → IsValid (new_plane id region_id size)
unfolding new_plane
new_plane-IsValid id region_id size h =
    let size' = if size == 0 then 65535 else size in
    record {
      map_valid = new_bitmap-IsValid size' (ground arith);
      map_size = refl;
      bytes_size = length-replicate {A = ℕ} size' 0;
    }

-- `q` is `p` with the `n` bytes from `start` on taken, which were free and within the plane.
pub record Takes (p : Plane) (start n : ℕ) (q : Plane) : Type 0 where
  pub inside : start + n ≤ p.size
  pub valid : IsValid q
  pub positions :
      (pos : ℕ)
      → bit_at q.free_map pos
        ≡ (if within start (start + n) pos then true else bit_at p.free_map pos)
  pub were_free : (pos : ℕ) → start ≤ pos → pos < start + n → bit_at p.free_map pos ≡ false
  pub counted : free_bytes q + n ≡ free_bytes p
  pub same_bytes : q.bytes ≡ p.bytes
  pub same_size : q.size ≡ p.size
  pub same_id : q.id ≡ p.id
  pub same_allocations : q.allocations ≡ p.allocations

abbrev taken : Plane → ℕ → ℕ → Plane
taken p n start = record p { free_map = set_range p.free_map start (u16 (start + n)) }

pub taking :
    (p : Plane) (n start : ℕ)
    → IsValid p
    → 0 < n
    → IsRun p.free_map n start
    → Takes p start n (record p { free_map = set_range p.free_map start (u16 (start + n)) })
taking p n start v pos run =
    let end : u16 (start + n) ≡ start + n = omega (arith, run.0, v.map_valid.small) in
    rw end (record {
      inside = omega (arith, run.0, v.map_size);
      valid = record {
        map_valid = set_range-IsValid p.free_map start (start + n) v.map_valid;
        map_size = set_range-size p.free_map start (start + n) ∙ v.map_size;
        bytes_size = v.bytes_size;
      };
      positions =
          λ q. bit_at-set_range p.free_map start (start + n) q v.map_valid ∙ ground (arith, run.0);
      were_free = run.1;
      counted =
          omega (arith, free_bytes-set_range p.free_map v.map_valid start (start + n) run.0 run.1);
      same_bytes = refl;
      same_size = refl;
      same_id = refl;
      same_allocations = refl;
    })

-- Where a valid plane has a free run of n > 0 bytes, Allocate finds the first such run and takes
-- it, and only it: exactly these positions become used, they were free, FreeBytes drops by n,
-- and the bytes and the entries stay.
pub allocate-Takes :
    (p : Plane) (n s : ℕ)
    → IsValid p
    → 0 < n
    → IsRun p.free_map n s
    → (t : ℕ) × ((allocate p n).1 ≡ found t)
      × (t ≤ s)
      × NoRun p.free_map n 0 t
      × Takes p t n (allocate p n).0
unfolding allocate
allocate-Takes p n s v pos run =
    let (t, e, first, is_run, none_before) =
      find_contiguous-IsRun p.free_map n s v.map_valid pos run in
    (t, rw (e, allocate), first, none_before, rw (e, allocate) (taking p n t v pos is_run))

module _ (p : Plane) (n : ℕ) where
  pub allocate_found :
      (u : ℕ) → find_contiguous p.free_map n ≡ found u → allocate p n ≡ (taken p n u, found u)
  unfolding allocate
  allocate_found u f = rw (f, allocate) refl

  pub allocate_not_found : find_contiguous p.free_map n ≡ not_found → allocate p n ≡ (p, not_found)
  unfolding allocate
  allocate_not_found f = rw (f, allocate) refl

  pub allocate_panic : find_contiguous p.free_map n ≡ panic → allocate p n ≡ (p, panic)
  unfolding allocate
  allocate_panic f = rw (f, allocate) refl

-- A success of Allocate, of a positive uint16 size on a valid plane, whose range does not wrap
-- took a free run of the plane and changed nothing else.
pub allocate_sound :
    (p q : Plane) (n t : ℕ)
    → IsValid p
    → 0 < n
    → n < 2 ^ 16
    → allocate p n ≡ (q, found t)
    → t + n < 2 ^ 16
    → Takes p t n q
allocate_sound p q n t v pos fits e exact = go (find_contiguous p.free_map n) refl
  where
    go : (r : Search) → find_contiguous p.free_map n ≡ r → Takes p t n q
    go (found u) f =
        let e' = sym (allocate_found p n u f) ∙ e in
        let same : u ≡ t = cc in
        let is_q : taken p n u ≡ q = cc in
        let run =
          find_contiguous_sound p.free_map n t v.map_valid pos fits (f ∙ ap found same) exact in
        subst (Takes p t n) (ap (taken p n) (sym same) ∙ is_q) (taking p n t v pos run)
    go not_found f = let e' = sym (allocate_not_found p n f) ∙ e in cc
    go panic f = let e' = sym (allocate_panic p n f) ∙ e in cc

-- Freeing the n > 0 bytes that were taken from a valid plane at a start, and recorded there with
-- an object of size n, gives the plane back as it was: every position is used or free as before,
-- FreeBytes is as before, the entry is gone and no other entry has changed.
pub free-allocate :
    (h : Heap) (p q : Plane) (n t ptr : ℕ)
    → IsValid p
    → 0 < n
    → Takes p t n q
    → size_at h ptr ≡ n
    → let r = free h (record_allocation q t ptr) t in
      (r.1 ≡ true)
      × ((pos : ℕ) → bit_at r.0.free_map pos ≡ bit_at p.free_map pos)
      × (free_bytes r.0 ≡ free_bytes p)
      × ((s : ℕ) → lookup s r.0.allocations ≡ (if t == s then none else lookup s p.allocations))
unfolding free
free-allocate h p q n t ptr v pos took is_n =
    let small = v.map_valid.small in
    let end : u16 (t + u16 (size_at h ptr)) ≡ t + n = omega (arith, took.inside, v.map_size) in
    let hit : lookup t (insert t ptr q.allocations) ≡ some ptr =
      lookup-insert t t ptr q.allocations ∙ rw ==_refl in
    let qv = took.valid.map_valid in
    let fits : t + n ≤ q.free_map.size =
      omega (arith, took.inside, took.valid.map_size, took.same_size) in
    rw (hit, free, end)
      (
        refl,
        λ pos.
            bit_at-clear_range q.free_map t (t + n) pos qv
            ∙ ground (arith, took.positions pos, took.were_free pos, fits),
        omega (
          arith,
          free_bytes-clear_range q.free_map qv t (t + n) fits
              (λ pos a b. ground (arith, took.positions pos)),
          took.counted,
        ),
        λ s.
            lookup-erase t s (insert t ptr q.allocations)
            ∙ ground
                (arith, lookup-insert t s ptr q.allocations, ap (lookup s) took.same_allocations),
      )
