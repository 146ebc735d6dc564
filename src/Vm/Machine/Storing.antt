-- ===== src/Vm/Machine/Storing.antt =====
-- MLOAD3D after MSTORE3D: the bytes come back through the cache.
use memory3d.Prelude.{
  ℕ, ◌^◌, ◌≤◌, ◌<◌, ◌≡◌, refl, sym, ap, ◌∙◌, Bool, true, false, some, List, arith, min, ltb, leb,
  le→leb, not_ltb→le, ◌==◌, if◌then◌else◌, length, length-take, take, take-length, u32,
}
use memory3d.Types.Address.{Address3D}
use memory3d.Vm.Cache.{SpatialCache, get_cached, put_cached}
use memory3d.Vm.Cache.Laws.{IsValid, get_cached-put_cached}
use memory3d.Vm.Memory.{MemoryManager, Stored, stored, store_refused, store_crashed, store3d}
use memory3d.Vm.Registers.{get_register}
use memory3d.Vm.Registers.Laws
use memory3d.Vm.Registers.Laws.{get_register-set_register}
use memory3d.Vm.Machine.{Host, Core, VmError, register_too_small, Ran, done, error}
use memory3d.Vm.Machine.Operations.{finish_mstore, mstore, mload_after, mload}

-- What a successful store leaves in the cache and in the registers.
record Cached (c : Core) (addr : Address3D) (content : List ℕ) (after : Core) : Type 0 where
  put : after.cache ≡ put_cached c.cache addr content
  same_registers : after.registers ≡ c.registers

finish_mstore-Cached :
    (host : Host) (now : ℕ) (c : Core) (addr : Address3D) (content : List ℕ)
    (r : MemoryManager × Stored)
    → (finish_mstore host now c addr content r).1 ≡ done
    → Cached c addr content (finish_mstore host now c addr content r).0
unfolding finish_mstore
finish_mstore-Cached host now c addr content (mm, stored) e = record {
  put = refl;
  same_registers = refl;
}
finish_mstore-Cached host now c addr content (mm, store_refused x) e = cc
finish_mstore-Cached host now c addr content (mm, store_crashed) e = cc

-- A test that guards a store has failed when the store is done.
guard-passed :
    (b : Bool) (c : Core) (e : VmError) (next : Core × Ran)
    → (if b then (c, error e) else next).1 ≡ done
    → (b ≡ false) × (next.1 ≡ done)
guard-passed true c e next h = cc
guard-passed false c e next h = (refl, h)

module _ (host : Host) (now : ℕ) (c : Core) (addr : Address3D) (reg size : ℕ)
    (ok : (mstore host now c addr reg size).1 ≡ done) where
  abbrev content : List ℕ
  content = take size (get_register c.registers reg)

  passed :
      (ltb (u32 (length (get_register c.registers reg))) size ≡ false)
      × ((finish_mstore host now c addr content (store3d now c.memory addr content)).1 ≡ done)
  unfolding mstore
  passed =
      guard-passed (ltb (u32 (length (get_register c.registers reg))) size) c register_too_small
        (finish_mstore host now c addr content (store3d now c.memory addr content)) ok

  is_long : size ≤ u32 (length (get_register c.registers reg))
  is_long = not_ltb→le _ size passed.0

  mstore-Cached : Cached c addr content (mstore host now c addr reg size).0
  unfolding mstore
  mstore-Cached =
      rw (mstore, passed.0)
        (finish_mstore-Cached host now c addr content (store3d now c.memory addr content) passed.1)

  exact : length content ≡ size
  exact = length-take size (get_register c.registers reg) ∙ shorter is_long
    where
      shorter :
          size ≤ u32 (length (get_register c.registers reg))
          → min size (length (get_register c.registers reg)) ≡ size
      shorter h = omega (arith, h)

  -- MSTORE3D that succeeds, then MLOAD3D of as many bytes, less than 2 ^ 32, from the same
  -- address into one of the sixteen registers: it succeeds, whatever the memory would answer,
  -- and that register holds the bytes stored, while every other register is as before. The cache
  -- is one whose map leads into its elements, and there are sixteen registers.
  pub mload-mstore :
      (later dest other : ℕ)
      → dest < 16
      → size < 2 ^ 32
      → Laws.IsValid c.registers
      → IsValid c.cache
      → let r = mload later (mstore host now c addr reg size).0 addr size dest in
        (r.1 ≡ done)
        × (get_register r.0.registers other
            ≡ (if dest == other then content else get_register c.registers other))
  unfolding mload mload_after
  mload-mstore later dest other h small rv cv =
      let s = mstore-Cached in
      let hit : (get_cached (mstore host now c addr reg size).0.cache addr).1 ≡ some content =
        ap (λ (t : SpatialCache). (get_cached t addr).1) s.put
        ∙ get_cached-put_cached c.cache addr content cv in
      let enough : leb size (u32 (length content)) ≡ true =
        le→leb size _ (omega (arith, exact, small)) in
      let whole : take size content ≡ content =
        ap (λ (n : ℕ). take n content) (sym exact) ∙ take-length content in
      rw (hit, mload_after, enough, whole, s.same_registers)
        (refl, get_register-set_register c.registers rv dest other content h)
