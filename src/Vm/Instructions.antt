-- ===== src/Vm/Instructions.antt =====
-- internal/vm/opcodes.go, internal/vm/instructions.go, and fetchInstruction of internal/vm/vm.go: the
-- bytes of a program and the instructions they stand for. An operand's Go type is its constructor.
pub mod Fetching
pub mod Encoding
pub mod Reading
use memory3d.Prelude.{
  ℕ, zero, suc, ◌+◌, ◌-◌, ◌^◌, Bool, true, false, ◌||◌, Option, none, some, List, [], ◌∷◌, ltb,
  ◌==◌, if◌then◌else◌, length, get_elem?, get_or, take, drop, sub64, u64,
}
use memory3d.Types.Address.{Address3D, big_endian}

abbrev pub op_nop : ℕ
op_nop = 0

abbrev pub op_mload : ℕ
op_mload = 16

abbrev pub op_mstore : ℕ
op_mstore = 17

abbrev pub op_malloc : ℕ
op_malloc = 18

abbrev pub op_mfree : ℕ
op_mfree = 19

abbrev pub op_mcopy : ℕ
op_mcopy = 20

abbrev pub op_msize : ℕ
op_msize = 21

abbrev pub op_mquery : ℕ
op_mquery = 22

abbrev pub op_mcompact : ℕ
op_mcompact = 23

abbrev pub op_mov : ℕ
op_mov = 48

abbrev pub op_add : ℕ
op_add = 49

abbrev pub op_sub : ℕ
op_sub = 50

abbrev pub op_halt : ℕ
op_halt = 255

pub data Operand : Type 0 where
  register : ℕ → Operand
  address : Address3D → Operand
  size_of : ℕ → Operand
  region_type : ℕ → Operand
  flags : ℕ → Operand
  byte : ℕ → Operand

-- The fields PC and GasLimit are 0 in every instruction that the program makes.
pub record Instruction3D : Type 0 where
  pub opcode : ℕ
  pub operands : List Operand
  pub size : ℕ

-- The errors of the decoder and of fetchInstruction.
pub data FetchError : Type 0 where
  empty_instruction wrong_length no_more_instructions incomplete : FetchError
  unknown_opcode : ℕ → FetchError

-- `panic` is an index out of range.
pub data Fetched : Type 0 where
  decoded : Instruction3D → Fetched
  failed : FetchError → Fetched
  panic : Fetched

-- data[from:to] as a big-endian number.
abbrev pub field : ℕ → ℕ → List ℕ → ℕ
field from to bs = big_endian (take (to - from) (drop from bs))

abbrev pub address_field : List ℕ → Address3D
address_field bs = record { x = field 1 9 bs; y = field 9 13 bs; z = field 13 15 bs }

abbrev pub byte_at : List ℕ → ℕ → ℕ
byte_at bs i = get_or bs i 0

-- An instruction of `width` bytes.
abbrev pub sized : ℕ → ℕ → List Operand → List ℕ → Fetched
sized width op operands bs =
    if length bs == width
    then decoded (record { opcode = op; operands = operands; size = width })
    else failed wrong_length

-- `op` is ADD3D or SUB3D: the two decoders differ in the opcode only.
abbrev pub decode_arithmetic : ℕ → List ℕ → Fetched
decode_arithmetic op bs =
    sized 4 op (register (byte_at bs 1) ∷ register (byte_at bs 2) ∷ register (byte_at bs 3) ∷ []) bs

abbrev pub decode_mcopy : List ℕ → Fetched
decode_mcopy bs =
    sized 20 op_mcopy
      (address (record { x = field 1 9 bs; y = field 9 11 bs; z = field 11 13 bs })
        ∷ address (record { x = field 13 17 bs; y = field 17 19 bs; z = 0 })
        ∷ size_of (byte_at bs 19)
        ∷ [])
      bs

abbrev pub decode_mfree : List ℕ → Fetched
decode_mfree bs = sized 15 op_mfree (address (address_field bs) ∷ []) bs

abbrev pub decode_malloc : List ℕ → Fetched
decode_malloc bs =
    sized 14 op_malloc
      (size_of (field 1 5 bs) ∷ region_type (byte_at bs 5) ∷ flags (byte_at bs 6) ∷ []) bs

abbrev pub decode_mload : List ℕ → Fetched
decode_mload bs =
    sized 20 op_mload
      (address (address_field bs) ∷ size_of (field 15 19 bs) ∷ register (byte_at bs 19) ∷ []) bs

abbrev pub decode_mstore : List ℕ → Fetched
decode_mstore bs =
    sized 20 op_mstore
      (address (address_field bs) ∷ register (byte_at bs 15) ∷ size_of (field 16 20 bs) ∷ []) bs

abbrev pub decode_mov : List ℕ → Fetched
decode_mov bs = sized 8 op_mov (register (byte_at bs 1) ∷ register (byte_at bs 2) ∷ []) bs

abbrev pub decode_msize : List ℕ → Fetched
decode_msize bs = sized 16 op_msize (address (address_field bs) ∷ register (byte_at bs 15) ∷ []) bs

-- The switch on the opcode, in the source's order.
unfoldable pub decode_as : ℕ → List ℕ → Fetched
decode_as op bs =
    if op == op_mload
    then decode_mload bs
    else if op == op_mstore
    then decode_mstore bs
    else if op == op_malloc
    then decode_malloc bs
    else if op == op_mfree
    then decode_mfree bs
    else if op == op_mcopy
    then decode_mcopy bs
    else if op == op_add
    then decode_arithmetic op_add bs
    else if op == op_sub
    then decode_arithmetic op_sub bs
    else if op == op_mov
    then decode_mov bs
    else if op == op_msize
    then decode_msize bs
    else if op == op_nop
    then decoded (record { opcode = op_nop; operands = []; size = 1 })
    else if op == op_halt
    then decoded (record { opcode = op_halt; operands = []; size = 1 })
    else failed (unknown_opcode op)

unfoldable pub decode_instruction : List ℕ → Fetched
decode_instruction [] = failed empty_instruction
decode_instruction (op ∷ bs) = decode_as op (op ∷ bs)

-- The width that fetchInstruction cuts for an opcode.
unfoldable pub instruction_size : ℕ → ℕ
instruction_size op =
    if op == op_mload || op == op_mstore || op == op_mcopy
    then 20
    else if op == op_malloc
    then 14
    else if op == op_mfree
    then 15
    else if op == op_msize
    then 16
    else if op == op_mov
    then 8
    else if op == op_add || op == op_sub
    then 4
    else 1

-- The rest of fetchInstruction, once the opcode at `pc` is read.
unfoldable pub fetch_as : List ℕ → ℕ → Option ℕ → Fetched
fetch_as program pc none = panic
fetch_as program pc (some op) =
    if ltb (sub64 (length program) pc) (instruction_size op)
    then failed incomplete
    else decode_instruction (take (instruction_size op) (drop pc program))

unfoldable pub fetch_instruction : List ℕ → ℕ → Fetched
fetch_instruction program pc =
    if ltb (sub64 (length program) pc) 1
    then failed no_more_instructions
    else fetch_as program pc (get_elem? program pc)
