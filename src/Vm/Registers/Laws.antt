-- ===== src/Vm/Registers/Laws.antt =====
-- What is written to a register is read back from it, and from no other.
use memory3d.Prelude.{
  ℕ, ◌^◌, ◌<◌, ◌≡◌, refl, ap, ◌∙◌, inl, inr, Bool-cases, some, List, [], arith, leb, ◌==◌,
  if◌then◌else◌, length, get_or, set, length-set, get_or-set, le→leb, ==_refl,
}
use memory3d.Types.Address.{Address3D, bytes, put_big_endian}
use memory3d.Types.Address.Laws.{Fits, big_endian-put, from_bytes-bytes}
use memory3d.Vm.Registers.{
  Registers, new_registers, get_register, set_register, get_uint64, set_uint64, get_address,
  set_address, uint64_to_bytes,
}

-- There are sixteen general registers.
pub record IsValid (r : Registers) : Type 0 where
  pub sixteen : length r.general ≡ 16

pub new_registers-IsValid : IsValid new_registers
unfolding new_registers
new_registers-IsValid = record { sixteen = refl }

pub set_register-IsValid :
    (r : Registers) → IsValid r → (reg : ℕ) (value : List ℕ) → IsValid (set_register r reg value)
unfolding set_register
set_register-IsValid r v reg value = elim (Bool-cases (leb reg 15)) [
  | inl e ↦ rw (e) (record { sixteen = length-set r.general reg value ∙ v.sixteen })
  | inr e ↦ rw (e) v
]

pub set_uint64-IsValid :
    (r : Registers) → IsValid r → (reg value : ℕ) → IsValid (set_uint64 r reg value)
unfolding set_uint64
set_uint64-IsValid r v reg value = elim (Bool-cases (leb reg 15)) [
  | inl e ↦ rw e (record { sixteen = length-set r.general reg (uint64_to_bytes value) ∙ v.sixteen })
  | inr e ↦ rw e v
]

module _ (r : Registers) (v : IsValid r) where
  -- After a Set of one of the sixteen registers it reads as the value, and every other register,
  -- the out of range ones too, reads as before.
  pub get_register-set_register :
      (reg other : ℕ) (value : List ℕ)
      → reg < 16
      → get_register (set_register r reg value) other
        ≡ (if reg == other then value else get_register r other)
  unfolding get_register set_register
  get_register-set_register reg other value h = elim (Bool-cases (leb other 15)) [
    | inl known ↦
        rw (le→leb reg 15 (omega arith), known)
          (get_or-set r.general reg other value [] (rw (v.sixteen) h))
    | inr beyond ↦ rw (beyond) (ground arith)
  ]

  same_register :
      (reg : ℕ) (value : List ℕ) → reg < 16 → get_or (set r.general reg value) reg [] ≡ value
  same_register reg value h =
      get_or-set r.general reg reg value [] (rw (v.sixteen) h)
      ∙ ap (λ b. if b then value else get_or r.general reg []) (==_refl reg)

  -- A uint64 survives SetUint64 and GetUint64 of one of the sixteen registers.
  pub get_uint64-set_uint64 :
      (reg value : ℕ) → reg < 16 → value < 2 ^ 64 → get_uint64 (set_uint64 r reg value) reg ≡ value
  unfolding get_uint64 set_uint64 put_big_endian
  get_uint64-set_uint64 reg value h fits =
      rw (le→leb reg 15 (omega arith), same_register reg (uint64_to_bytes value) h)
        (big_endian-put 8 value (omega arith))

  -- An address whose fields fit survives SetAddress and GetAddress of one of the sixteen
  -- registers.
  pub get_address-set_address :
      (reg : ℕ) (addr : Address3D)
      → reg < 16
      → Fits addr
      → get_address (set_address r reg addr) reg ≡ some addr
  unfolding get_address set_address bytes
  get_address-set_address reg addr h fits =
      rw (get_register-set_register reg reg (bytes addr) h, ==_refl reg)
        (from_bytes-bytes addr fits)
