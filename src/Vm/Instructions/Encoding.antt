-- ===== src/Vm/Instructions/Encoding.antt =====
-- The byte formats that the decoders' comments give, written down as an assembler.
use memory3d.Prelude.{ℕ, ◌^◌, ◌<◌, ◌≡◌, refl, sym, ap, ap₂, List, [], ◌∷◌, ◌++◌, arith}
use memory3d.Types.Address.{Address3D, put_big_endian, big_endian, bytes}
use memory3d.Types.Address.Laws.{Fits, big_endian-put}
use memory3d.Vm.Instructions.{
  register, address, size_of, region_type, flags, Instruction3D, decoded, decode_as,
  decode_instruction, op_nop, op_mload, op_mstore, op_malloc, op_mfree, op_mcopy, op_msize, op_mov,
  op_add, op_sub, op_halt,
}

-- An instruction of a program in the words of the formats' comments.
pub data Assembly : Type 0 where
  mload : Address3D → ℕ → ℕ → Assembly
  mstore : Address3D → ℕ → ℕ → Assembly
  malloc : ℕ → ℕ → ℕ → ℕ → Assembly
  mfree : Address3D → Assembly
  mcopy : Address3D → Address3D → ℕ → Assembly
  msize : Address3D → ℕ → Assembly
  mov : ℕ → ℕ → Assembly
  add : ℕ → ℕ → ℕ → Assembly
  sub : ℕ → ℕ → ℕ → Assembly
  nop halt : Assembly

-- The numbers fit the bytes that the format gives them. MCOPY3D has 2 bytes for a Y, 4 for the
-- second X and none for the second Z.
unfoldable pub Encodable : Assembly → Type 0
Encodable (mload a size reg) = Fits a × (size < 2 ^ 32)
Encodable (mstore a reg size) = Fits a × (size < 2 ^ 32)
Encodable (malloc size region bits reg) = size < 2 ^ 32
Encodable (mfree a) = Fits a
Encodable (mcopy a b size) =
    (a.x < 2 ^ 64) × (a.y < 2 ^ 16) × (a.z < 2 ^ 16) × (b.x < 2 ^ 32) × (b.y < 2 ^ 16) × (b.z ≡ 0)
Encodable (msize a reg) = Fits a
Encodable (mov dest src) = Unit
Encodable (add dest a b) = Unit
Encodable (sub dest a b) = Unit
Encodable nop = Unit
Encodable halt = Unit

-- The bytes, with zeros for padding.
unfoldable pub assemble : Assembly → List ℕ
assemble (mload a size reg) = op_mload ∷ (bytes a ++ (put_big_endian 4 size ++ (reg ∷ [])))
assemble (mstore a reg size) = op_mstore ∷ (bytes a ++ (reg ∷ put_big_endian 4 size))
assemble (malloc size region bits reg) =
    op_malloc ∷ (put_big_endian 4 size ++ (region ∷ bits ∷ reg ∷ 0 ∷ 0 ∷ 0 ∷ 0 ∷ 0 ∷ 0 ∷ []))
assemble (mfree a) = op_mfree ∷ bytes a
assemble (mcopy a b size) =
    op_mcopy
    ∷ (put_big_endian 8 a.x
        ++ (put_big_endian 2 a.y
            ++ (put_big_endian 2 a.z
                ++ (put_big_endian 4 b.x ++ (put_big_endian 2 b.y ++ (size ∷ []))))))
assemble (msize a reg) = op_msize ∷ (bytes a ++ (reg ∷ []))
assemble (mov dest src) = op_mov ∷ dest ∷ src ∷ 0 ∷ 0 ∷ 0 ∷ 0 ∷ 0 ∷ []
assemble (add dest a b) = op_add ∷ dest ∷ a ∷ b ∷ []
assemble (sub dest a b) = op_sub ∷ dest ∷ a ∷ b ∷ []
assemble nop = op_nop ∷ []
assemble halt = op_halt ∷ []

-- The instruction meant.
unfoldable pub meaning : Assembly → Instruction3D
meaning (mload a size reg) = record {
  opcode = op_mload;
  operands = address a ∷ size_of size ∷ register reg ∷ [];
  size = 20;
}
meaning (mstore a reg size) = record {
  opcode = op_mstore;
  operands = address a ∷ register reg ∷ size_of size ∷ [];
  size = 20;
}
meaning (malloc size region bits reg) = record {
  opcode = op_malloc;
  operands = size_of size ∷ region_type region ∷ flags bits ∷ [];
  size = 14;
}
meaning (mfree a) = record { opcode = op_mfree; operands = address a ∷ []; size = 15 }
meaning (mcopy a b size) = record {
  opcode = op_mcopy;
  operands = address a ∷ address b ∷ size_of size ∷ [];
  size = 20;
}
meaning (msize a reg) = record {
  opcode = op_msize;
  operands = address a ∷ register reg ∷ [];
  size = 16;
}
meaning (mov dest src) = record {
  opcode = op_mov;
  operands = register dest ∷ register src ∷ [];
  size = 8;
}
meaning (add dest a b) = record {
  opcode = op_add;
  operands = register dest ∷ register a ∷ register b ∷ [];
  size = 4;
}
meaning (sub dest a b) = record {
  opcode = op_sub;
  operands = register dest ∷ register a ∷ register b ∷ [];
  size = 4;
}
meaning nop = record { opcode = op_nop; operands = []; size = 1 }
meaning halt = record { opcode = op_halt; operands = []; size = 1 }

read_address :
    (a : Address3D)
    → Fits a
    → Path Address3D
        (record {
          x = big_endian (put_big_endian 8 a.x);
          y = big_endian (put_big_endian 4 a.y);
          z = big_endian (put_big_endian 2 a.z);
        })
        a
read_address a (hx, hy, hz) = λ i. record {
  x = big_endian-put 8 a.x (omega arith) i;
  y = big_endian-put 4 a.y (omega arith) i;
  z = big_endian-put 2 a.z (omega arith) i;
}

-- An instruction whose numbers fit its format is decoded from its bytes to the operands it was
-- assembled from, with the width of the format, for each of the eleven opcodes that the decoder
-- knows.
pub decode_instruction-assemble :
    (i : Assembly) → Encodable i → decode_instruction (assemble i) ≡ decoded (meaning i)
unfolding decode_instruction decode_as assemble meaning Encodable bytes put_big_endian
decode_instruction-assemble (mload a size reg) (ha, hs) =
    ap₂
      (λ b s. decoded (record {
        opcode = op_mload;
        operands = address b ∷ size_of s ∷ register reg ∷ [];
        size = 20;
      }))
      (read_address a ha) (big_endian-put 4 size (omega arith))
decode_instruction-assemble (mstore a reg size) (ha, hs) =
    ap₂
      (λ b s. decoded (record {
        opcode = op_mstore;
        operands = address b ∷ register reg ∷ size_of s ∷ [];
        size = 20;
      }))
      (read_address a ha) (big_endian-put 4 size (omega arith))
decode_instruction-assemble (malloc size region bits reg) h =
    ap
      (λ s. decoded (record {
        opcode = op_malloc;
        operands = size_of s ∷ region_type region ∷ flags bits ∷ [];
        size = 14;
      }))
      (big_endian-put 4 size (omega arith))
decode_instruction-assemble (mfree a) ha =
    ap (λ b. decoded (record { opcode = op_mfree; operands = address b ∷ []; size = 15 }))
      (read_address a ha)
decode_instruction-assemble (mcopy a b size) (ax, ay, az, bx, by, bz) =
    ap₂
      (λ c d. decoded (record {
        opcode = op_mcopy;
        operands = address c ∷ address d ∷ size_of size ∷ [];
        size = 20;
      }))
      (λ i. record {
        x = big_endian-put 8 a.x (omega arith) i;
        y = big_endian-put 2 a.y (omega arith) i;
        z = big_endian-put 2 a.z (omega arith) i;
      })
      (λ i. record {
        x = big_endian-put 4 b.x (omega arith) i;
        y = big_endian-put 2 b.y (omega arith) i;
        z = sym bz i;
      })
decode_instruction-assemble (msize a reg) ha =
    ap
      (λ b.
        decoded (record { opcode = op_msize; operands = address b ∷ register reg ∷ []; size = 16 }))
      (read_address a ha)
decode_instruction-assemble (mov dest src) h = refl
decode_instruction-assemble (add dest a b) h = refl
decode_instruction-assemble (sub dest a b) h = refl
decode_instruction-assemble nop h = refl
decode_instruction-assemble halt h = refl
