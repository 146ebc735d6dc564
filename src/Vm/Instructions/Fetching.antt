-- ===== src/Vm/Instructions/Fetching.antt =====
-- What fetchInstruction returns: the widths of the fetcher and of the decoders agree.
use memory3d.Prelude.{
  ℕ, zero, suc, ◌+◌, ◌-◌, ◌^◌, ◌≤◌, ◌<◌, ◌≡◌, ◌≢◌, refl, sym, ap, ◌∙◌, subst, inl, inr, Bool, true,
  false, ◌||◌, Option, none, some, List, [], ◌∷◌, arith, ltb, ◌==◌, Bool-cases, ==→eq, length,
  get_elem?, take, drop, length-take, length-drop, sub64, le→not_ltb,
}
use memory3d.Vm.Instructions.{
  op_nop, op_mload, op_mstore, op_malloc, op_mfree, op_mcopy, op_msize, op_mov, op_add, op_sub,
  op_halt, Instruction3D, Fetched, decoded, failed, incomplete, unknown_opcode, decode_as,
  decode_instruction, instruction_size, fetch_as, fetch_instruction,
}

-- The opcodes that a decoder is there for.
unfoldable pub is_known : ℕ → Bool
is_known op =
    (op == op_nop || op == op_mload || op == op_mstore || op == op_malloc)
    || (op == op_mfree || op == op_mcopy || op == op_msize || op == op_mov)
    || (op == op_add || op == op_sub || op == op_halt)

-- A fetch at `pc` that ends well, or in one of the two errors that a program can cause. A decoded
-- instruction has the opcode that stands at `pc`, a known one, moves the counter on, and not past the end.
pub data Progress (program : List ℕ) (pc : ℕ) : Fetched → Type 0 where
  steps :
      (inst : Instruction3D)
      → get_elem? program pc ≡ some inst.opcode
      → is_known inst.opcode ≡ true
      → 1 ≤ inst.size
      → pc + inst.size ≤ length program
      → Progress program pc (decoded inst)
  cut_short :
      (op : ℕ)
      → get_elem? program pc ≡ some op
      → length program < pc + instruction_size op
      → Progress program pc (failed incomplete)
  unknown :
      (op : ℕ) → get_elem? program pc ≡ some op → Progress program pc (failed (unknown_opcode op))

-- What a decoder gives on the width that was cut for its opcode.
data Decodes (op : ℕ) : Fetched → Type 0 where
  well :
      (inst : Instruction3D)
      → inst.opcode ≡ op
      → is_known inst.opcode ≡ true
      → inst.size ≡ instruction_size op
      → Decodes op (decoded inst)
  not_known : Decodes op (failed (unknown_opcode op))

module _ (op : ℕ) (bs : List ℕ) (cut : length bs ≡ instruction_size op) where
  at :
      (k : ℕ)
      → op == k ≡ true
      → (length bs ≡ instruction_size k → Decodes k (decode_as k bs))
      → Decodes op (decode_as op bs)
  at k e known =
      subst (λ o. length bs ≡ instruction_size o → Decodes o (decode_as o bs)) (sym (==→eq op k e))
        known cut

  decode_as-Decodes : Decodes op (decode_as op bs)
  unfolding decode_as instruction_size is_known
  decode_as-Decodes = elim (Bool-cases (op == 16)) [
    | inl e ↦ at 16 e (λ h. rw (h) (well _ refl refl refl))
    | inr n16 ↦ elim (Bool-cases (op == 17)) [
      | inl e ↦ at 17 e (λ h. rw (h) (well _ refl refl refl))
      | inr n17 ↦ elim (Bool-cases (op == 18)) [
        | inl e ↦ at 18 e (λ h. rw (h) (well _ refl refl refl))
        | inr n18 ↦ elim (Bool-cases (op == 19)) [
          | inl e ↦ at 19 e (λ h. rw (h) (well _ refl refl refl))
          | inr n19 ↦ elim (Bool-cases (op == 20)) [
            | inl e ↦ at 20 e (λ h. rw (h) (well _ refl refl refl))
            | inr n20 ↦ elim (Bool-cases (op == 49)) [
              | inl e ↦ at 49 e (λ h. rw (h) (well _ refl refl refl))
              | inr n49 ↦ elim (Bool-cases (op == 50)) [
                | inl e ↦ at 50 e (λ h. rw (h) (well _ refl refl refl))
                | inr n50 ↦ elim (Bool-cases (op == 48)) [
                  | inl e ↦ at 48 e (λ h. rw (h) (well _ refl refl refl))
                  | inr n48 ↦ elim (Bool-cases (op == 21)) [
                    | inl e ↦ at 21 e (λ h. rw (h) (well _ refl refl refl))
                    | inr n21 ↦ elim (Bool-cases (op == 0)) [
                      | inl e ↦ at 0 e (λ h. well _ refl refl refl)
                      | inr n0 ↦ elim (Bool-cases (op == 255)) [
                        | inl e ↦ at 255 e (λ h. well _ refl refl refl)
                        | inr n255 ↦
                            rw (n16, n17, n18, n19, n20, n49, n50, n48, n21, n0, n255) not_known
                      ]
                    ]
                  ]
                ]
              ]
            ]
          ]
        ]
      ]
    ]
  ]

drop-get_elem? :
    (xs : List ℕ) (i a : ℕ)
    → get_elem? xs i ≡ some a
    → (drop i xs ≡ a ∷ drop (suc i) xs) × (i < length xs)
drop-get_elem? [] zero a e = cc
drop-get_elem? [] (suc i) a e = cc
drop-get_elem? (x ∷ xs) zero a e =
    (ap (λ y. y ∷ xs) (ap (λ o. elim o [ none ↦ a | some b ↦ b ]) e), omega arith)
drop-get_elem? (x ∷ xs) (suc i) a e =
    let rest = drop-get_elem? xs i a e in (rest.0, omega (arith, rest.1))

take-head : (n a : ℕ) (xs : List ℕ) → 1 ≤ n → take n (a ∷ xs) ≡ a ∷ take (n - 1) xs
take-head zero a xs h = elim h [ ]
take-head (suc n) a xs h = ap (λ m. a ∷ take m xs) (omega arith)

instruction_size-positive : (op : ℕ) → 1 ≤ instruction_size op
unfolding instruction_size
instruction_size-positive op = ground arith

get_elem?-inside : (xs : List ℕ) (i : ℕ) → i < length xs → get_elem? xs i ≢ none
get_elem?-inside [] i h e = elim h [ ]
get_elem?-inside (x ∷ xs) zero h e = cc
get_elem?-inside (x ∷ xs) (suc i) h e = get_elem?-inside xs i (omega arith) e

module _ (program : List ℕ) (pc : ℕ) where
  progress :
      (op : ℕ)
      → get_elem? program pc ≡ some op
      → (r : Fetched) → pc + instruction_size op ≤ length program
      → Decodes op r
      → Progress program pc r
  progress op e r fits (well inst same known width) =
      steps inst (e ∙ ap some (sym same)) known (rw (width) (instruction_size-positive op))
        (rw (width) fits)
  progress op e r fits not_known = unknown op e

  whole :
      (op : ℕ)
      → get_elem? program pc ≡ some op
      → pc + instruction_size op ≤ length program
      → Progress program pc (decode_instruction (take (instruction_size op) (drop pc program)))
  unfolding decode_instruction
  whole op e fits =
      let w = instruction_size op in
      let there = drop-get_elem? program pc op e in
      let cut : take w (drop pc program) ≡ op ∷ take (w - 1) (drop (suc pc) program) =
        ap (take w) there.0
        ∙ take-head w op (drop (suc pc) program) (instruction_size-positive op) in
      let width : length (take w (drop pc program)) ≡ w =
        length-take w (drop pc program) ∙ omega (arith, length-drop pc program) in
      subst (λ bs. Progress program pc (decode_instruction bs)) (sym cut)
        (progress op e _ fits (
          decode_as-Decodes op (op ∷ take (w - 1) (drop (suc pc) program))
            (sym (ap length cut) ∙ width)))

  fetched :
      (r : Option ℕ)
      → get_elem? program pc ≡ r
      → pc < length program
      → length program < 2 ^ 64
      → Progress program pc (fetch_as program pc r)
  unfolding fetch_as
  fetched none e inside small = elim (get_elem?-inside program pc inside e) [ ]
  fetched (some op) e inside small =
      elim (Bool-cases (ltb (sub64 (length program) pc) (instruction_size op))) [
        | inl short ↦ rw (short) (cut_short op e (past op short))
        | inr enough ↦ rw (enough) (whole op e (within op enough))
      ]
    where
      past :
          (op : ℕ)
          → ltb (sub64 (length program) pc) (instruction_size op) ≡ true
          → length program < pc + instruction_size op
      past op h = ground arith

      within :
          (op : ℕ)
          → ltb (sub64 (length program) pc) (instruction_size op) ≡ false
          → pc + instruction_size op ≤ length program
      within op h = ground arith

pub fetch_instruction-Progress :
    (program : List ℕ) (pc : ℕ)
    → pc < length program
    → length program < 2 ^ 64
    → Progress program pc (fetch_instruction program pc)
unfolding fetch_instruction
fetch_instruction-Progress program pc inside small =
    rw (le→not_ltb (sub64 (length program) pc) 1 (omega arith))
      (fetched program pc _ refl inside small)
