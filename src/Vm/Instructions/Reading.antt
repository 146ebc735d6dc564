-- ===== src/Vm/Instructions/Reading.antt =====
-- fetchInstruction on a program that an assembler has written.
use memory3d.Prelude.{
  ℕ, ◌+◌, ◌^◌, ◌≤◌, ◌<◌, ◌≡◌, refl, sym, ap, ◌∙◌, some, List, [], ◌∷◌, ◌++◌, arith, false, ltb,
  le→not_ltb, length, take, drop, get_elem?, length-append, take-append, drop-append,
  get_elem?-append, sub64,
}
use memory3d.Types.Address.{bytes, put_big_endian}
use memory3d.Vm.Instructions.{decoded, instruction_size, fetch_as, fetch_instruction}
use memory3d.Vm.Instructions.Encoding.{
  Assembly, mload, mstore, malloc, mfree, mcopy, msize, mov, add, sub, nop, halt, Encodable,
  assemble, meaning, decode_instruction-assemble,
}

-- The bytes of an instruction: as many as it is wide, with the opcode first.
record Written (i : Assembly) : Type 0 where
  width : length (assemble i) ≡ instruction_size ((meaning i).opcode)
  head : get_elem? (assemble i) 0 ≡ some ((meaning i).opcode)
  positive : 1 ≤ length (assemble i)

assemble-Written : (i : Assembly) → Written i
unfolding assemble meaning instruction_size bytes put_big_endian
assemble-Written (mload a size reg) = record { width = refl; head = refl; positive = omega arith }
assemble-Written (mstore a reg size) = record { width = refl; head = refl; positive = omega arith }
assemble-Written (malloc size region bits reg) = record {
  width = refl;
  head = refl;
  positive = omega arith;
}
assemble-Written (mfree a) = record { width = refl; head = refl; positive = omega arith }
assemble-Written (mcopy a b size) = record { width = refl; head = refl; positive = omega arith }
assemble-Written (msize a reg) = record { width = refl; head = refl; positive = omega arith }
assemble-Written (mov dest src) = record { width = refl; head = refl; positive = omega arith }
assemble-Written (add dest a b) = record { width = refl; head = refl; positive = omega arith }
assemble-Written (sub dest a b) = record { width = refl; head = refl; positive = omega arith }
assemble-Written nop = record { width = refl; head = refl; positive = omega arith }
assemble-Written halt = record { width = refl; head = refl; positive = omega arith }

head-append : (xs ys : List ℕ) (a : ℕ) → get_elem? xs 0 ≡ some a → get_elem? (xs ++ ys) 0 ≡ some a
head-append [] ys a e = cc
head-append (x ∷ xs) ys a e = e

left_over :
    (before here after total : ℕ)
    → total ≡ before + (here + after)
    → total < 2 ^ 64
    → sub64 total before ≡ here + after
left_over before here after total e small = omega arith

-- What an instruction's bytes are fetched as, wherever they stand in a program.
pub fetch_instruction-assemble :
    (before after : List ℕ) (i : Assembly)
    → Encodable i
    → length (before ++ (assemble i ++ after)) < 2 ^ 64
    → fetch_instruction (before ++ (assemble i ++ after)) (length before) ≡ decoded (meaning i)
unfolding fetch_instruction fetch_as meaning
fetch_instruction-assemble before after i fits small =
    let w = assemble-Written i in
    let all = before ++ (assemble i ++ after) in
    let total : length all ≡ length before + (length (assemble i) + length after) =
      length-append before (assemble i ++ after)
      ∙ ap (λ (n : ℕ). length before + n) (length-append (assemble i) after) in
    let left : sub64 (length all) (length before) ≡ length (assemble i) + length after =
      left_over (length before) (length (assemble i)) (length after) (length all) total small in
    let found : get_elem? all (length before) ≡ some ((meaning i).opcode) =
      get_elem?-append before (assemble i ++ after)
      ∙ head-append (assemble i) after ((meaning i).opcode) w.head in
    let cut : take (instruction_size ((meaning i).opcode)) (drop (length before) all) ≡ assemble i =
      ap (take (instruction_size ((meaning i).opcode))) (drop-append before (assemble i ++ after))
      ∙ ap (λ (n : ℕ). take n (assemble i ++ after)) (sym w.width)
      ∙ take-append (assemble i) after in
    let some_left : ltb (sub64 (length all) (length before)) 1 ≡ false =
      le→not_ltb _ 1 (omega (arith, left, w.positive)) in
    let enough : ltb (sub64 (length all) (length before)) (instruction_size ((meaning i).opcode))
        ≡ false =
      le→not_ltb _ _ (omega (arith, left, w.width)) in
    rw (some_left, found, fetch_as, enough, cut) (decode_instruction-assemble i fits)
