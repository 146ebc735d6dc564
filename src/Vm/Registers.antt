-- ===== src/Vm/Registers.antt =====
-- internal/vm/registers.go, and the conversions of internal/vm/executor.go. The general registers
-- hold byte strings; the special registers and the address cache are never read or written. A nil
-- slice is the empty one: the program tells them apart nowhere.
pub mod Laws
use memory3d.Prelude.{
  ℕ, zero, suc, ◌+◌, ◌-◌, ◌^◌, Bool, true, false, Option, none, some, List, [], ◌∷◌, ltb, leb, ◌==◌,
  if◌then◌else◌, length, get_or, set, take, replicate,
}
use memory3d.Types.Address.{Address3D, put_big_endian, big_endian, bytes, from_bytes}

abbrev pub r15 : ℕ
r15 = 15

pub record Registers : Type 0 where
  pub general : List (List ℕ)

unfoldable pub new_registers : Registers
new_registers = record { general = replicate 16 [] }

abbrev pub uint64_to_bytes : ℕ → List ℕ
uint64_to_bytes v = put_big_endian 8 v

abbrev pub bytes_to_uint64 : List ℕ → ℕ
bytes_to_uint64 bs = if ltb (length bs) 8 then 0 else big_endian (take 8 bs)

unfoldable pub get_register : Registers → ℕ → List ℕ
get_register r reg = if leb reg r15 then get_or r.general reg [] else []

unfoldable pub set_register : Registers → ℕ → List ℕ → Registers
set_register r reg value = if leb reg r15 then record r { general = set r.general reg value } else r

unfoldable pub get_uint64 : Registers → ℕ → ℕ
get_uint64 r reg =
    if leb reg r15
    then if leb 8 (length (get_or r.general reg []))
      then bytes_to_uint64 (take 8 (get_or r.general reg []))
      else 0
    else 0

unfoldable pub set_uint64 : Registers → ℕ → ℕ → Registers
set_uint64 r reg value =
    if leb reg r15 then record r { general = set r.general reg (uint64_to_bytes value) } else r

-- `none` is the error "invalid address length".
unfoldable pub get_address : Registers → ℕ → Option Address3D
get_address r reg =
    if length (get_register r reg) == 14 then from_bytes (get_register r reg) else none

unfoldable pub set_address : Registers → ℕ → Address3D → Registers
set_address r reg addr = set_register r reg (bytes addr)
