-- ===== src/Vm/Memory/Access.antt =====
-- A load after a store.
pub mod Splicing
pub mod Orders
use memory3d.Prelude.{
  ℕ, ◌+◌, ◌-◌, ◌%◌, ◌^◌, ◌≤◌, ◌<◌, ◌≡◌, refl, sym, ap, ◌∙◌, subst, ◌⊎◌, inl, inr, Bool, true, false,
  Option, none, some, List, [], ◌∷◌, ◌++◌, arith, ltb, ◌==◌, ==_refl, if◌then◌else◌, Bool-cases,
  length, take, drop, take-length, lookup, insert, lookup-insert, u16, u32, sub16,
}
use memory3d.Types.Address.{Address3D}
use memory3d.Types.Allocation.{Allocation, Heap, deref, update_access}
use memory3d.Types.Plane.{Plane}
use memory3d.Types.Region.{Region, get_plane, find_plane, write_plane}
use memory3d.Types.Region.Laws.{find_plane-write_plane}
use memory3d.Allocator.{Allocator3D}
use memory3d.Vm.Memory.{
  AllocationMap, AccessType, MemoryManager, read, write, get_allocation, Located, at_plane, refused,
  crashed, check_plane, check_region, check_bounds, check_pointer, locate, Loaded, loaded,
  log_access, finish_load, load3d, splice, written, touch, Stored, stored, store_refused,
  store_crashed, finish_store, store3d,
}
use memory3d.Vm.Memory.Access.Orders.{VisitsAll, OneAnswer, get_allocation-orders}
use memory3d.Vm.Memory.Access.Splicing.{
  length-splice, take-drop-splice, deref-touch, get_allocation-touch,
}

-- The checks of an access of `n` bytes pass, and lead to this plane.
pub record Reaches (visit : AllocationMap → AllocationMap) (mm : MemoryManager) (addr : Address3D)
    (n ptr : ℕ) (region : Region) (plane : Plane) : Type 0 where
  pub points : get_allocation visit mm.allocator.heap addr mm.allocations ≡ some ptr
  pub object : Allocation
  pub is_object : deref mm.allocator.heap ptr ≡ some object
  pub inside : ltb (u16 object.size) (u16 (sub16 addr.z object.address.z + u16 n)) ≡ false
  pub in_region : lookup addr.x mm.allocator.regions ≡ some region
  pub in_plane : get_plane region addr.y ≡ some plane
  pub fits : ltb (length plane.bytes) (u32 (addr.z + n)) ≡ false
  pub forward : ltb (u32 (addr.z + n)) addr.z ≡ false

Reaches-locate :
    (visit : AllocationMap → AllocationMap) (mm : MemoryManager) (addr : Address3D) (n ptr : ℕ)
    (region : Region) (plane : Plane)
    → Reaches visit mm addr n ptr region plane
    → locate visit mm addr n ≡ at_plane ptr region plane
unfolding locate check_pointer check_bounds check_region check_plane
Reaches-locate visit mm addr n ptr region plane r =
    rw (r.points, r.is_object, r.inside, r.in_region, r.in_plane, r.fits, r.forward) refl

module _ (visit : AllocationMap → AllocationMap) (mm : MemoryManager) (addr : Address3D) (n ptr : ℕ)
    (region : Region) (plane : Plane) where
  by_plane :
      (q : ℕ) (object : Allocation) (g : Region) (o : Option Plane)
      → get_allocation visit mm.allocator.heap addr mm.allocations ≡ some q
      → deref mm.allocator.heap q ≡ some object
      → ltb (u16 object.size) (u16 (sub16 addr.z object.address.z + u16 n)) ≡ false
      → lookup addr.x mm.allocator.regions ≡ some g
      → get_plane g addr.y ≡ o
      → check_plane addr n q g o ≡ at_plane ptr region plane
      → Reaches visit mm addr n ptr region plane
  unfolding check_plane
  by_plane q object g none e1 e2 e3 e4 e5 e = cc
  by_plane q object g (some p) e1 e2 e3 e4 e5 e =
      elim (Bool-cases (ltb (length p.bytes) (u32 (addr.z + n)))) [
        | inl long ↦ absurd (ground (arith, e, long))
        | inr fits ↦ elim (Bool-cases (ltb (u32 (addr.z + n)) addr.z)) [
          | inl back ↦ absurd (ground (arith, e, fits, back))
          | inr forward ↦
              let same : at_plane q g p ≡ at_plane ptr region plane =
                ground (arith, e, fits, forward) in
              let same_ptr : q ≡ ptr = cc in
              let same_region : g ≡ region = cc in
              let same_plane : p ≡ plane = cc in
              record {
                points = e1 ∙ ap some same_ptr;
                object = object;
                is_object = ap (deref mm.allocator.heap) (sym same_ptr) ∙ e2;
                inside = e3;
                in_region = e4 ∙ ap some same_region;
                in_plane =
                    ap (λ (t : Region). get_plane t addr.y) (sym same_region)
                    ∙ e5
                    ∙ ap some same_plane;
                fits =
                    subst (λ (t : Plane). ltb (length t.bytes) (u32 (addr.z + n)) ≡ false)
                      same_plane fits;
                forward = forward;
              }
        ]
      ]

  by_region :
      (q : ℕ) (object : Allocation) (o : Option Region)
      → get_allocation visit mm.allocator.heap addr mm.allocations ≡ some q
      → deref mm.allocator.heap q ≡ some object
      → ltb (u16 object.size) (u16 (sub16 addr.z object.address.z + u16 n)) ≡ false
      → lookup addr.x mm.allocator.regions ≡ o
      → check_region addr n q o ≡ at_plane ptr region plane
      → Reaches visit mm addr n ptr region plane
  unfolding check_region
  by_region q object none e1 e2 e3 e4 e = cc
  by_region q object (some g) e1 e2 e3 e4 e =
      by_plane q object g (get_plane g addr.y) e1 e2 e3 e4 refl e

  by_object :
      (q : ℕ) (o : Option Allocation)
      → get_allocation visit mm.allocator.heap addr mm.allocations ≡ some q
      → deref mm.allocator.heap q ≡ o
      → check_bounds mm.allocator addr n q o ≡ at_plane ptr region plane
      → Reaches visit mm addr n ptr region plane
  unfolding check_bounds
  by_object q none e1 e2 e = cc
  by_object q (some object) e1 e2 e =
      elim (Bool-cases (ltb (u16 object.size) (u16 (sub16 addr.z object.address.z + u16 n)))) [
        | inl out ↦ absurd (ground (arith, e, out))
        | inr inside ↦
            by_region q object (lookup addr.x mm.allocator.regions) e1 e2 inside refl
              (ground (arith, e, inside))
      ]

  by_pointer :
      (o : Option ℕ)
      → get_allocation visit mm.allocator.heap addr mm.allocations ≡ o
      → check_pointer mm.allocator addr n o ≡ at_plane ptr region plane
      → Reaches visit mm addr n ptr region plane
  unfolding check_pointer
  by_pointer none e1 e = cc
  by_pointer (some q) e1 e = by_object q (deref mm.allocator.heap q) e1 refl e

  pub locate-Reaches :
      locate visit mm addr n ≡ at_plane ptr region plane → Reaches visit mm addr n ptr region plane
  unfolding locate
  locate-Reaches e = by_pointer (get_allocation visit mm.allocator.heap addr mm.allocations) refl e

-- The plane and the region that a store leaves.
abbrev stored_plane : Address3D → List ℕ → Plane → Plane
stored_plane addr content plane = record plane {
  bytes = splice addr.z (written addr content) plane.bytes;
}

abbrev stored_region : Address3D → List ℕ → Region → Plane → Region
stored_region addr content region plane = record region {
  planes = write_plane (stored_plane addr content plane) region.planes;
}

module _ (now later : ℕ) (mm : MemoryManager) (addr : Address3D) (content : List ℕ) (ptr : ℕ)
    (region : Region) (plane : Plane) (small : length content < 2 ^ 32)
    (r : Reaches (mm.visits now write) mm addr (length content) ptr region plane)
    (all : (time : ℕ) (kind : AccessType) → VisitsAll (mm.visits time kind))
    (one : OneAnswer mm.allocator.heap addr mm.allocations) where
  room : addr.z + length content ≤ length plane.bytes
  room = ground (arith, r.fits, r.forward)

  whole : written addr content ≡ content
  whole = ap (λ (t : ℕ). take t content) (ground (arith, r.fits, r.forward)) ∙ take-length content

  same_length : length (splice addr.z (written addr content) plane.bytes) ≡ length plane.bytes
  same_length =
      ap (λ t. length (splice addr.z t plane.bytes)) whole
      ∙ length-splice addr.z content plane.bytes room

  stored-Reaches :
      Reaches
        (mm.visits later read)
        (finish_store now mm addr content (at_plane ptr region plane)).0
        addr
        (length content)
        ptr
        (stored_region addr content region plane)
        (stored_plane addr content plane)
  unfolding finish_store log_access update_access get_plane
  stored-Reaches = record {
    points =
        get_allocation-touch now mm.allocator.heap ptr (mm.visits later read) addr mm.allocations
        ∙ get_allocation-orders mm.allocator.heap addr (mm.visits now write) (mm.visits later read)
            mm.allocations ptr (all now write) (all later read) one r.points;
    object = update_access now r.object 0;
    is_object = deref-touch now mm.allocator.heap ptr r.object r.is_object;
    inside = r.inside;
    in_region =
        lookup-insert addr.x addr.x (stored_region addr content region plane) mm.allocator.regions
        ∙ rw (==_refl addr.x) refl;
    in_plane =
        find_plane-write_plane addr.y region.planes plane (stored_plane addr content plane)
          r.in_plane refl;
    fits = ap (λ (t : ℕ). ltb t (u32 (addr.z + length content))) same_length ∙ r.fits;
    forward = r.forward;
  }

  load-stored :
      (load3d later
        (finish_store now mm addr content (at_plane ptr region plane)).0
        addr
        (length content)).1
      ≡ loaded content
  unfolding load3d finish_load finish_store log_access
  load-stored =
      rw (Reaches-locate (mm.visits later read) _ addr (length content) ptr _ _ stored-Reaches) (
        ap loaded (
          ap (λ t. take (length content) (drop addr.z (splice addr.z t plane.bytes))) whole
          ∙ take-drop-splice addr.z content plane.bytes room))

-- A store that succeeds, of content shorter than 2 ^ 32, is followed by a load of as many bytes
-- from the same address that succeeds and gives the content, whatever the orders in which the
-- two loops visit the map of allocations, as long as each visits all entries and no other: where
-- the address is the key of an entry of the map, or all tracked allocations that hold it in a
-- fragment are one and the same.
pub load3d-store3d :
    (now later : ℕ) (mm : MemoryManager) (addr : Address3D) (content : List ℕ)
    → length content < 2 ^ 32
    → ((time : ℕ) (kind : AccessType) → VisitsAll (mm.visits time kind))
    → OneAnswer mm.allocator.heap addr mm.allocations
    → (store3d now mm addr content).1 ≡ stored
    → (load3d later (store3d now mm addr content).0 addr (length content)).1 ≡ loaded content
unfolding store3d finish_store
load3d-store3d now later mm addr content small all one ok =
    go (locate (mm.visits now write) mm addr (u32 (length content))) refl
  where
    exact : u32 (length content) ≡ length content
    exact = omega arith

    go :
        (l : Located)
        → locate (mm.visits now write) mm addr (u32 (length content)) ≡ l
        → (load3d later (store3d now mm addr content).0 addr (length content)).1 ≡ loaded content
    go (at_plane ptr region plane) e =
        rw (store3d, e)
          (load-stored now later mm addr content ptr region plane small
            (locate-Reaches (mm.visits now write) mm addr (length content) ptr region plane
              (ap (locate (mm.visits now write) mm addr) (sym exact) ∙ e))
            all one)
    go (refused error) e =
        let refusal : (store3d now mm addr content).1 ≡ store_refused error =
          rw (store3d, e) refl in
        let clash : store_refused error ≡ stored = sym refusal ∙ ok in cc
    go crashed e =
        let crash : (store3d now mm addr content).1 ≡ store_crashed = rw (store3d, e) refl in
        let clash : store_crashed ≡ stored = sym crash ∙ ok in cc
