-- ===== src/Vm/Machine/Arithmetic/Views.antt =====
-- The numbers that the registers show, after each of the writes.
use memory3d.Prelude.{
  ℕ, ◌^◌, ◌<◌, ◌≡◌, refl, sym, ap, ◌∙◌, inl, inr, List, [], arith, leb, ◌==◌, if◌then◌else◌,
  Bool-cases, length, take, get_or-replicate,
}
use memory3d.Types.Address.{put_big_endian}
use memory3d.Types.Address.Laws.{big_endian-put}
use memory3d.Vm.Registers.{
  Registers, new_registers, get_register, set_register, get_uint64, set_uint64, bytes_to_uint64,
  uint64_to_bytes,
}
use memory3d.Vm.Registers.Laws.{
  IsValid, new_registers-IsValid, set_register-IsValid, get_register-set_register,
}
use memory3d.Vm.Machine.Arithmetic.{View, assign}

-- The registers show these numbers.
pub record Shows (r : Registers) (view : View) : Type 0 where
  pub valid : IsValid r
  pub reads : (reg : ℕ) → get_uint64 r reg ≡ view reg

-- The number that a register's bytes show.
abbrev number_of : List ℕ → ℕ
number_of bs = if leb 8 (length bs) then bytes_to_uint64 (take 8 bs) else 0

get_uint64-number_of : (r : Registers) (reg : ℕ) → get_uint64 r reg ≡ number_of (get_register r reg)
unfolding get_uint64 get_register
get_uint64-number_of r reg = elim (Bool-cases (leb reg 15)) [
  | inl e ↦ rw (e) refl
  | inr e ↦ rw (e) refl
]

number_of-bytes : (value : ℕ) → value < 2 ^ 64 → number_of (uint64_to_bytes value) ≡ value
unfolding put_big_endian
number_of-bytes value h = big_endian-put 8 value (omega arith)

set_register-Shows :
    (r : Registers) (view : View) (dest : ℕ) (content : List ℕ)
    → dest < 16
    → Shows r view
    → Shows (set_register r dest content) (assign dest (number_of content) view)
set_register-Shows r view dest content h s = record {
  valid = set_register-IsValid r s.valid dest content;
  reads = λ reg.
      get_uint64-number_of (set_register r dest content) reg
      ∙ ap number_of (get_register-set_register r s.valid dest reg content h)
      ∙ chosen reg;
}
  where
    chosen :
        (reg : ℕ)
        → number_of (if dest == reg then content else get_register r reg)
          ≡ assign dest (number_of content) view reg
    chosen reg = elim (Bool-cases (dest == reg)) [
      | inl e ↦ rw (e) refl
      | inr e ↦ rw (e) (sym (get_uint64-number_of r reg) ∙ s.reads reg)
    ]

pub new_registers-Shows : Shows new_registers (λ reg. 0)
unfolding new_registers get_uint64
new_registers-Shows = record {
  valid = new_registers-IsValid;
  reads = λ reg. elim (Bool-cases (leb reg 15)) [
    | inl e ↦ rw (e, get_or-replicate {A = List ℕ} 16 reg []) refl
    | inr e ↦ rw (e) refl
  ];
}

pub set_uint64-Shows :
    (r : Registers) (view : View) (dest value shown : ℕ)
    → dest < 16
    → value < 2 ^ 64
    → value ≡ shown
    → Shows r view
    → Shows (set_uint64 r dest value) (assign dest shown view)
unfolding set_uint64 set_register
set_uint64-Shows r view dest value shown h fits same s =
    let t = set_register-Shows r view dest (uint64_to_bytes value) h s in
    record {
      valid = t.valid;
      reads =
          λ reg. t.reads reg ∙ ap (λ n. assign dest n view reg) (number_of-bytes value fits ∙ same);
    }

pub copy-Shows :
    (r : Registers) (view : View) (dest src : ℕ)
    → dest < 16
    → Shows r view
    → Shows (set_register r dest (get_register r src)) (assign dest (view src) view)
copy-Shows r view dest src h s =
    let t = set_register-Shows r view dest (get_register r src) h s in
    record {
      valid = t.valid;
      reads = λ reg.
          t.reads reg
          ∙ ap (λ n. assign dest n view reg) (sym (get_uint64-number_of r src) ∙ s.reads src);
    }
