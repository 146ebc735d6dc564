-- ===== src/Vm/Memory/Tracking/Laws.antt =====
-- What tracking, untracking and relocating do to the map and to the log.
use memory3d.Prelude.{
  ℕ, ◌≤◌, ◌≡◌, refl, ap, ◌∙◌, inl, inr, none, some, List, [], ◌∷◌, ◌++◌, arith, ltb, if◌then◌else◌,
  Bool-cases, length, drop, length-append, length-drop, not_ltb→le,
}
use memory3d.Types.Address.{Address3D, same_address}
use memory3d.Types.Allocation.{Allocation, deref}
use memory3d.Vm.Memory.{MemoryManager, AccessEntry, AccessType, tracked, track, untrack, log_access}
use memory3d.Vm.Memory.Tracking.{
  track_allocation, untrack_allocation, untrack_object, tracked_object, relocate_allocation,
  relocate, update_allocation_address, relocated,
}

tracked-track :
    (a b : Address3D) (ptr : ℕ) (m : List (Address3D × ℕ))
    → tracked b (track a ptr m) ≡ (if same_address a b then some ptr else tracked b m)
unfolding tracked track
tracked-track a b ptr [] = refl
tracked-track a b ptr ((c, q) ∷ m) = ground (arith, tracked-track a b ptr m)

tracked-untrack :
    (a b : Address3D) (m : List (Address3D × ℕ))
    → tracked b (untrack a m) ≡ (if same_address a b then none else tracked b m)
unfolding tracked untrack
tracked-untrack a b [] = ground arith
tracked-untrack a b ((c, q) ∷ m) = ground (arith, tracked-untrack a b m)

shortened :
    (log : List AccessEntry)
    → length log ≤ 10001
    → length (if ltb 10000 (length log) then drop 1000 log else log) ≤ 10000
shortened log h = elim (Bool-cases (ltb 10000 (length log))) [
  | inl long ↦ rw (long) (omega (arith, length-drop 1000 log))
  | inr short ↦ rw (short) (not_ltb→le 10000 (length log) short)
]

module _ (now : ℕ) (mm : MemoryManager) where
  -- Logging an access keeps a log of at most 10000 entries at 10000 entries at most.
  pub log_access_bounded :
      (addr : Address3D) (kind : AccessType) (size : ℕ)
      → length mm.access_log ≤ 10000
      → length (log_access now mm addr kind size).access_log ≤ 10000
  unfolding log_access
  log_access_bounded addr kind size h =
      let entry : AccessEntry = record { address = addr; time = now; kind = kind; size = size } in
      shortened (mm.access_log ++ entry ∷ [])
        (omega (arith, length-append mm.access_log (entry ∷ [])))

  -- After trackAllocation the address of the allocation leads to it, and an exact match at any
  -- other address is as before.
  pub tracked-track_allocation :
      (ptr : ℕ) (object : Allocation) (addr : Address3D)
      → tracked addr (track_allocation now mm ptr object).allocations
        ≡ (if same_address object.address addr then some ptr else tracked addr mm.allocations)
  unfolding track_allocation log_access
  tracked-track_allocation ptr object addr = tracked-track object.address addr ptr mm.allocations

  -- RelocateAllocation of a tracked allocation to a free address succeeds; then the new address
  -- leads to it, the old one to nothing, and every other address where it did before.
  pub tracked-relocate_allocation :
      (old_addr new_addr addr : Address3D) (ptr : ℕ)
      → tracked old_addr mm.allocations ≡ some ptr
      → tracked new_addr mm.allocations ≡ none
      → let r = relocate_allocation now mm old_addr new_addr in
        (r.1 ≡ relocated)
        × (tracked addr r.0.allocations ≡ (
            if same_address new_addr addr
            then some ptr
            else if same_address old_addr addr
            then none
            else tracked addr mm.allocations))
  unfolding relocate_allocation relocate update_allocation_address log_access
  tracked-relocate_allocation old_addr new_addr addr ptr e free =
      rw (e, free, relocate)
        (
          refl,
          tracked-track new_addr addr ptr (untrack old_addr mm.allocations)
              ∙ ap (λ t. if same_address new_addr addr then some ptr else t)
                  (tracked-untrack old_addr addr mm.allocations),
        )

  -- untrackAllocation of a tracked address, whose pointer leads to an object, makes that address
  -- lead to nothing and leaves every other address where it did.
  pub tracked-untrack_allocation :
      (old_addr addr : Address3D) (ptr : ℕ) (object : Allocation)
      → tracked old_addr mm.allocations ≡ some ptr
      → deref mm.allocator.heap ptr ≡ some object
      → tracked addr (untrack_allocation now mm old_addr).allocations
        ≡ (if same_address old_addr addr then none else tracked addr mm.allocations)
  unfolding untrack_allocation untrack_object log_access
  tracked-untrack_allocation old_addr addr ptr object e there =
      let is_object : tracked_object mm old_addr ≡ some object = rw (tracked_object, e) there in
      rw (is_object) (tracked-untrack old_addr addr mm.allocations)
