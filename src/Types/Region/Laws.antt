-- ===== src/Types/Region/Laws.antt =====
-- The planes of a region and its byte counts.
use memory3d.Prelude.{
  ℕ, ◌+◌, ◌^◌, ◌≤◌, ◌<◌, ◌≡◌, inl, inr, ◌==◌, Bool-cases, some, List, [], ◌∷◌, ◌++◌, arith,
}
use memory3d.Types.Plane.{Plane}
use memory3d.Types.Plane
use memory3d.Types.Region.{
  Region, add_plane, remove_plane, get_plane, find_plane, drop_plane, write_plane,
}

-- What the planes hold together.
abbrev pub plane_free : List Plane → ℕ
plane_free [] = 0
plane_free (p ∷ ps) = Plane.free_bytes p + plane_free ps

abbrev pub plane_total : List Plane → ℕ
plane_total [] = 0
plane_total (p ∷ ps) = p.size + plane_total ps

-- The counters of the region are the sums over its planes.
pub record IsCounted (r : Region) : Type 0 where
  pub free : r.free_bytes ≡ plane_free r.planes
  pub total : r.total_bytes ≡ plane_total r.planes

pub plane_free-append : (ps qs : List Plane) → plane_free (ps ++ qs) ≡ plane_free ps + plane_free qs
plane_free-append [] qs = omega arith
plane_free-append (p ∷ ps) qs = omega (arith, plane_free-append ps qs)

plane_total-append : (ps qs : List Plane) → plane_total (ps ++ qs) ≡ plane_total ps + plane_total qs
plane_total-append [] qs = omega arith
plane_total-append (p ∷ ps) qs = omega (arith, plane_total-append ps qs)

-- What the lookup of a plane's ID finds, also after the plane has been written back.
pub found_id : (id : ℕ) (ps : List Plane) (p : Plane) → find_plane id ps ≡ some p → p.id ≡ id
unfolding find_plane
found_id id [] p e = cc
found_id id (r ∷ ps) p e = ground (arith, found_id id ps p)

pub find_plane-write_plane :
    (id : ℕ) (ps : List Plane) (p q : Plane)
    → find_plane id ps ≡ some p
    → q.id ≡ p.id
    → find_plane id (write_plane q ps) ≡ some q
unfolding find_plane write_plane
find_plane-write_plane id [] p q e same = cc
find_plane-write_plane id (r ∷ ps) p q e same = elim (Bool-cases (r.id == id)) [
  | inl here ↦ ground (arith, found_id id (r ∷ ps) p e)
  | inr later ↦ ground (arith, found_id id (r ∷ ps) p e, find_plane-write_plane id ps p q)
]

-- AddPlane keeps the region's counters equal to the sums over its planes, while the sums fit
-- uint64.
pub add_plane-IsCounted :
    (r : Region) (p : Plane)
    → IsCounted r
    → r.total_bytes + p.size < 2 ^ 64
    → r.free_bytes + Plane.free_bytes p < 2 ^ 64
    → IsCounted (add_plane r p)
unfolding add_plane
add_plane-IsCounted r p c fits fits' = record {
  free = omega (arith, c.free, plane_free-append r.planes (p ∷ []));
  total = omega (arith, c.total, plane_total-append r.planes (p ∷ []));
}

drop_plane-sums :
    (plane_id : ℕ) (ps : List Plane) (p : Plane)
    → find_plane plane_id ps ≡ some p
    → (plane_free ps ≡ plane_free (drop_plane plane_id ps) + Plane.free_bytes p)
      × (plane_total ps ≡ plane_total (drop_plane plane_id ps) + p.size)
unfolding find_plane drop_plane
drop_plane-sums plane_id [] p e = cc
drop_plane-sums plane_id (q ∷ ps) p e = ground (arith, drop_plane-sums plane_id ps p)

-- RemovePlane of a plane of the region, whose size and free bytes are positive uint16, keeps the
-- region's counters, where they fit uint64, equal to the sums over its planes.
pub remove_plane-IsCounted :
    (r : Region) (p : Plane)
    → IsCounted r
    → r.total_bytes < 2 ^ 64
    → r.free_bytes < 2 ^ 64
    → get_plane r p.id ≡ some p
    → 0 < p.size
    → p.size < 2 ^ 16
    → 0 < Plane.free_bytes p
    → Plane.free_bytes p < 2 ^ 16
    → IsCounted (remove_plane r p.id).0
unfolding remove_plane get_plane
remove_plane-IsCounted r p c fits fits' e pos small free free_small =
    let sums = drop_plane-sums p.id r.planes p e in
    rw (e, remove_plane)
      (record { free = omega (arith, c.free, sums.0); total = omega (arith, c.total, sums.1) })

-- RemovePlane of a full plane of the region takes 65536 bytes off the FreeBytes of a region that
-- has them (and where it fits uint64), though the plane has none free.
pub remove_plane_full :
    (r : Region) (p : Plane)
    → get_plane r p.id ≡ some p
    → Plane.free_bytes p ≡ 0
    → 2 ^ 16 ≤ r.free_bytes
    → r.free_bytes < 2 ^ 64
    → (remove_plane r p.id).0.free_bytes + 2 ^ 16 ≡ r.free_bytes
unfolding remove_plane get_plane
remove_plane_full r p e full enough fits = rw (e, remove_plane) (omega arith)
