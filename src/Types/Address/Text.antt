-- ===== src/Types/Address/Text.antt =====
-- String and ParseAddress of internal/types/address.go, with what they use of fmt and strings. A text
-- is the list of its code points.
use memory3d.Prelude.{
  ℕ, zero, suc, ◌+◌, ◌-◌, ◌*◌, ◌/◌, ◌%◌, ◌^◌, Bool, ◌&&◌, ◌||◌, Option, none, some, List, [], ◌∷◌,
  ◌++◌, ltb, leb, ◌==◌, if◌then◌else◌, u16, u32,
}
use memory3d.Types.Address.{Address3D}

abbrev pub Text : Type 0
Text = List ℕ

-- `%d` of Sprintf, for a number of at most `fuel` digits.
unfoldable pub decimal : ℕ → ℕ → Text
decimal zero n = []
decimal (suc fuel) n =
    let front = decimal fuel (n / 10) in
    if ltb n 10 then (b'0' + n) ∷ [] else front ++ (b'0' + n % 10) ∷ []

-- A uint64 has at most 20 digits.
abbrev pub number : ℕ → Text
number n = decimal 20 n

abbrev pub x_label : Text
x_label = b'X' ∷ b':' ∷ []

abbrev pub y_label : Text
y_label = b',' ∷ b'Y' ∷ b':' ∷ []

abbrev pub z_label : Text
z_label = b',' ∷ b'Z' ∷ b':' ∷ []

-- `Sprintf("[X:%d,Y:%d,Z:%d]", x, y, z)`.
unfoldable pub print_fields : ℕ → ℕ → ℕ → Text
print_fields x y z =
    b'[' ∷ x_label ++ (number x ++ (y_label ++ (number y ++ (z_label ++ (number z ++ b']' ∷ [])))))

unfoldable pub to_string : Address3D → Text
to_string a = print_fields a.x a.y a.z

abbrev pub is_bracket : ℕ → Bool
is_bracket c = c == b'[' || c == b']'

-- `strings.Trim(s, "[]")`.
unfoldable pub trim_left : Text → Text
trim_left [] = []
trim_left (c ∷ s) = let rest = trim_left s in if is_bracket c then rest else c ∷ s

abbrev pub drop_last_bracket : ℕ → Text → Text
drop_last_bracket c [] = if is_bracket c then [] else c ∷ []
drop_last_bracket c (d ∷ s) = c ∷ d ∷ s

unfoldable pub trim_right : Text → Text
trim_right [] = []
trim_right (c ∷ s) = drop_last_bracket c (trim_right s)

unfoldable pub trim : Text → Text
trim s = trim_right (trim_left s)

-- A literal part of the format: `none` is a mismatch or the end of the input.
unfoldable pub expect : Text → Text → Option Text
expect [] s = some s
expect (l ∷ ls) [] = none
expect (l ∷ ls) (c ∷ s) = let rest = expect ls s in if l == c then rest else none

-- unicode.IsSpace, as fmt has it.
unfoldable pub is_space : ℕ → Bool
is_space c =
    (leb 0x09 c && leb c 0x0d || (c == 0x20 || (c == 0x85 || (c == 0xa0 || c == 0x1680))))
    || (leb 0x2000 c && leb c 0x200a
        || ((c == 0x2028 || c == 0x2029) || (c == 0x202f || (c == 0x205f || c == 0x3000))))

-- A newline among the spaces is an error.
unfoldable pub skip_space : Text → Option Text
unfolding is_space
skip_space [] = some []
skip_space (c ∷ s) =
    let rest = skip_space s in if c == 0x0a then none else if is_space c then rest else some (c ∷ s)

abbrev pub is_digit : ℕ → Bool
is_digit c = leb b'0' c && leb c b'9'

-- The digits' value and what follows them.
unfoldable pub scan_digits : ℕ → Text → ℕ × Text
scan_digits acc [] = (acc, [])
scan_digits acc (c ∷ s) =
    let rest = scan_digits (acc * 10 + (c - b'0')) s in if is_digit c then rest else (acc, c ∷ s)

-- A number needs a digit, and must fit uint64.
abbrev pub in_range : ℕ × Text → Option (ℕ × Text)
in_range (n, s) = if ltb n (2 ^ 64) then some (n, s) else none

unfoldable pub scan_number : Text → Option (ℕ × Text)
scan_number [] = none
scan_number (c ∷ s) = if is_digit c then in_range (scan_digits 0 (c ∷ s)) else none

infixl 5 ◌>>=◌
abbrev ◌>>=◌ {ℓ κ} : {A : Type ℓ} {B : Type κ} → Option A → (A → Option B) → Option B
none >>= f = none
some a >>= f = f a

-- `%d` of Sscanf.
unfoldable pub scan_field : Text → Text → Option (ℕ × Text)
scan_field label s = do s1 ← expect label s; s2 ← skip_space s1; scan_number s2

-- What is left of the input after the last field does not matter. The conversions of y and z drop
-- what does not fit.
unfoldable pub parse_address : Text → Option Address3D
parse_address s = do
  (x, s1) ← scan_field x_label (trim s)
  (y, s2) ← scan_field y_label s1
  (z, s3) ← scan_field z_label s2
  some (record { x = x; y = u32 y; z = u16 z })
