-- ===== src/Types/Address/Parsing.antt =====
-- ParseAddress of internal/types/address.go reads back what String prints.
use mathlib.Core.List.{append_assoc, append-nil}
use memory3d.Prelude.{
  ℕ, zero, suc, ◌+◌, ◌/◌, ◌%◌, ◌^◌, ◌<◌, ◌≡◌, refl, sym, ap, ◌∙◌, inl, inr, true, false, some, [],
  ◌∷◌, ◌++◌, arith, ltb, Bool-cases, lt→ltb, u16, u32, All, All-append,
}
use memory3d.Types.Address.{Address3D}
use memory3d.Types.Address.Laws.{Fits}
use memory3d.Types.Address.Text.{
  Text, decimal, number, x_label, y_label, z_label, print_fields, to_string, is_bracket, trim_left,
  trim_right, trim, expect, is_space, skip_space, is_digit, scan_digits, scan_number, scan_field,
  parse_address,
}

-- The digits of a number are read back as the number.
scan_digits-decimal :
    (fuel n : ℕ) (rest : Text)
    → n < 10 ^ fuel
    → scan_digits 0 (decimal fuel n ++ rest) ≡ scan_digits n rest
unfolding decimal scan_digits
scan_digits-decimal zero n rest h = ap (λ (k : ℕ). scan_digits k rest) (omega arith)
scan_digits-decimal (suc fuel) n rest h = elim (Bool-cases (ltb n 10)) [
  | inl one ↦ rw one (ground arith)
  | inr more ↦
      rw (more, append_assoc (decimal fuel (n / 10)) ((b'0' + n % 10) ∷ []) rest)
        (scan_digits-decimal fuel (n / 10) ((b'0' + n % 10) ∷ rest) (omega arith) ∙ ground arith)
]

abbrev IsDigit : ℕ → Type 0
IsDigit c = is_digit c ≡ true

decimal-IsDigit : (fuel n : ℕ) → All IsDigit (decimal fuel n)
unfolding decimal
decimal-IsDigit zero n = tt
decimal-IsDigit (suc fuel) n = elim (Bool-cases (ltb n 10)) [
  | inl one ↦ rw one (ground arith, tt)
  | inr more ↦ rw more (
      All-append IsDigit (decimal fuel (n / 10)) _ (decimal-IsDigit fuel (n / 10))
        (ground arith, tt))
]

-- A number starts with a digit.
decimal_starts : (fuel n : ℕ) → (c : ℕ) × (s : Text) × (decimal (suc fuel) n ≡ c ∷ s) × IsDigit c
unfolding decimal
decimal_starts zero n = elim (Bool-cases (ltb n 10)) [
  | inl one ↦ (b'0' + n, [], rw one refl, ground arith)
  | inr more ↦ (b'0' + n % 10, [], rw more refl, ground arith)
]
decimal_starts (suc fuel) n = elim (Bool-cases (ltb n 10)) [
  | inl one ↦ (b'0' + n, [], rw one refl, ground arith)
  | inr more ↦
      let (c, s, e, digit) = decimal_starts fuel (n / 10) in
      (c, s ++ (b'0' + n % 10) ∷ [], rw (more, e) refl, digit)
]

-- What may follow a number.
abbrev Ends : Text → Type 0
Ends [] = Unit {0}
Ends (c ∷ s) = is_digit c ≡ false

scan_digits-Ends : (n : ℕ) (rest : Text) → Ends rest → scan_digits n rest ≡ (n, rest)
unfolding scan_digits
scan_digits-Ends n [] ends = refl
scan_digits-Ends n (c ∷ s) ends = rw ends refl

scan_number-number :
    (n : ℕ) (rest : Text) → n < 2 ^ 64 → Ends rest → scan_number (number n ++ rest) ≡ some (n, rest)
unfolding scan_number
scan_number-number n rest fits ends =
    let (c, s, e, digit) = decimal_starts 19 n in
    let value : scan_digits 0 (c ∷ (s ++ rest)) ≡ (n, rest) =
      ap (λ (t : Text). scan_digits 0 (t ++ rest)) (sym e)
      ∙ scan_digits-decimal 20 n rest (omega arith)
      ∙ scan_digits-Ends n rest ends in
    rw (e, digit, value, lt→ltb n (2 ^ 64) fits) refl

skip_space-number : (n : ℕ) (rest : Text) → skip_space (number n ++ rest) ≡ some (number n ++ rest)
unfolding skip_space is_space
skip_space-number n rest =
    let (c, s, e, digit) = decimal_starts 19 n in rw e (ground (arith, digit))

expect_self : (label rest : Text) → expect label (label ++ rest) ≡ some rest
unfolding expect
expect_self [] rest = refl
expect_self (c ∷ label) rest = ground (arith, expect_self label rest)

scan_field-number :
    (label : Text) (n : ℕ) (rest : Text)
    → n < 2 ^ 64
    → Ends rest
    → scan_field label (label ++ (number n ++ rest)) ≡ some (n, rest)
unfolding scan_field
scan_field-number label n rest fits ends =
    rw
      (
        expect_self label (number n ++ rest),
        skip_space-number n rest,
        scan_number-number n rest fits ends,
      )
      refl

-- Trim takes the last bracket, and no more.
abbrev Plain : Text → Type 0
Plain s = All (λ (c : ℕ). is_bracket c ≡ false) s

trim_right-bracket : (s : Text) → Plain s → trim_right (s ++ b']' ∷ []) ≡ s
unfolding trim_right
trim_right-bracket [] plain = refl
trim_right-bracket (c ∷ []) (plain, _) = rw plain refl
trim_right-bracket (c ∷ d ∷ s) (plain, rest) = rw (trim_right-bracket (d ∷ s) rest) refl

IsDigit-Plain : (s : Text) → All IsDigit s → Plain s
IsDigit-Plain [] digits = tt
IsDigit-Plain (c ∷ s) (digit, digits) = (ground (arith, digit), IsDigit-Plain s digits)

number-Plain : (n : ℕ) (rest : Text) → Plain rest → Plain (number n ++ rest)
number-Plain n rest plain =
    All-append (λ (c : ℕ). is_bracket c ≡ false) (number n) rest
      (IsDigit-Plain (number n) (decimal-IsDigit 20 n)) plain

abbrev body : ℕ → ℕ → ℕ → Text
body x y z = x_label ++ (number x ++ (y_label ++ (number y ++ (z_label ++ (number z ++ [])))))

body-Plain : (x y z : ℕ) → Plain (body x y z)
body-Plain x y z = (
  refl,
  (
    refl,
    number-Plain x _
        (refl, (refl, (refl, number-Plain y _ (refl, (refl, (refl, number-Plain z [] tt)))))),
  ),
)

reassociated :
    (x y z : ℕ)
    → x_label ++ (number x ++ (y_label ++ (number y ++ (z_label ++ (number z ++ b']' ∷ [])))))
      ≡ body x y z ++ b']' ∷ []
reassociated x y z = simp (append_assoc, append-nil)

trim-print_fields : (x y z : ℕ) → trim (print_fields x y z) ≡ body x y z
unfolding trim trim_left print_fields
trim-print_fields x y z =
    ap trim_right (reassociated x y z) ∙ trim_right-bracket (body x y z) (body-Plain x y z)

-- What String's format prints of three uint64 numbers is read back by ParseAddress, but for the
-- conversions of the second to uint32 and of the third to uint16, which drop what does not fit.
pub parse_address-print_fields :
    (x y z : ℕ)
    → x < 2 ^ 64
    → y < 2 ^ 64
    → z < 2 ^ 64
    → parse_address (print_fields x y z) ≡ some (record { x = x; y = u32 y; z = u16 z })
unfolding parse_address
parse_address-print_fields x y z fits_x fits_y fits_z =
    rw
      (
        trim-print_fields x y z,
        scan_field-number x_label x _ fits_x refl,
        scan_field-number y_label y _ fits_y refl,
        scan_field-number z_label z [] fits_z tt,
      )
      refl

-- Every address whose fields fit their Go types is parsed from what String prints of it.
pub parse_address-to_string : (a : Address3D) → Fits a → parse_address (to_string a) ≡ some a
unfolding to_string
parse_address-to_string a (fits_x, fits_y, fits_z) =
    parse_address-print_fields a.x a.y a.z fits_x (omega arith) (omega arith) ∙ ground arith
