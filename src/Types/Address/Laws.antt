-- ===== src/Types/Address/Laws.antt =====
-- The 14 bytes of an address, and the order of addresses.
use native.Mathlib.Nat.{
  pow-suc, mod-eq_of_lt, mod_def, mod-one, add-mul, mul-add, mul_comm, div-add-mod,
  div-div-eq-div-mul,
}
use mathlib.Core.List.{append-nil}
use memory3d.Prelude.{
  ℕ, zero, suc, ◌+◌, ◌*◌, ◌/◌, ◌%◌, ◌^◌, ◌<◌, ◌≡◌, refl, sym, ap, ◌∙◌, ◌↔◌, ◌⊎◌, true, some, List,
  [], ◌++◌, arith, length,
}
use memory3d.Types.Address.{
  Address3D, Sign, minus, null, plus, put_big_endian, big_endian, big_endian_from, bytes,
  from_bytes, compare_address, same_address,
}

-- The fields fit their Go types.
abbrev pub Fits : Address3D → Type 0
Fits a = (a.x < 2 ^ 64) × (a.y < 2 ^ 32) × (a.z < 2 ^ 16)

length-put_big_endian : (k n : ℕ) → length (put_big_endian k n) ≡ k
unfolding put_big_endian
length-put_big_endian zero n = refl
length-put_big_endian (suc k) n = ap suc (length-put_big_endian k n)

next_digit : (m acc n : ℕ) → (acc * 256 + n / m % 256) * m + n % m ≡ acc * (m * 256) + n % (m * 256)
next_digit m acc n =
    let q = n / m in
    let whole : n ≡ m * q + n % m = sym (div-add-mod n m) in
    let digits : m * q ≡ m * (256 * (q / 256) + q % 256) =
      ap (λ (t : ℕ). m * t) (sym (div-add-mod q 256)) in
    let top : m * 256 * (n / (m * 256)) ≡ m * 256 * (q / 256) =
      ap (λ (t : ℕ). m * 256 * t) (sym (div-div-eq-div-mul n m 256)) in
    omega (
      arith,
      mod_def n (m * 256),
      add-mul (acc * 256) (q % 256) m,
      mul_comm (q % 256) m,
      mul-add m (256 * (q / 256)) (q % 256),
    )

big_endian_from-put :
    (k acc n : ℕ) (rest : List ℕ)
    → big_endian_from acc (put_big_endian k n ++ rest)
      ≡ big_endian_from (acc * 256 ^ k + n % 256 ^ k) rest
unfolding big_endian_from put_big_endian
big_endian_from-put zero acc n rest =
    ap (λ (t : ℕ). big_endian_from t rest) (omega (arith, mod-one n))
big_endian_from-put (suc k) acc n rest =
    big_endian_from-put k (acc * 256 + (n / 256 ^ k) % 256) n rest
    ∙ ap (λ (t : ℕ). big_endian_from t rest)
        (next_digit (256 ^ k) acc n ∙ ap (λ (t : ℕ). acc * t + n % t) (sym (pow-suc 256 k)))

-- Reading back what was written gives the number, cut to its width.
pub big_endian-put : (k n : ℕ) → n < 256 ^ k → big_endian (put_big_endian k n) ≡ n
unfolding big_endian
big_endian-put k n h =
    ap (big_endian_from 0) (sym (append-nil (put_big_endian k n)))
    ∙ big_endian_from-put k 0 n []
    ∙ omega (arith, mod-eq_of_lt h)

-- Every address whose fields fit their Go types survives its 14 bytes.
pub from_bytes-bytes : (a : Address3D) → Fits a → from_bytes (bytes a) ≡ some a
unfolding from_bytes bytes
from_bytes-bytes a (hx, hy, hz) =
    let x = big_endian-put 8 a.x (omega arith) in
    let y = big_endian-put 4 a.y (omega arith) in
    let z = big_endian-put 2 a.z (omega arith) in
    ap some (λ i. record { x = x i; y = y i; z = z i })

pub length-bytes : (a : Address3D) → length (bytes a) ≡ 14
unfolding bytes
length-bytes a = refl

abbrev pub flip : Sign → Sign
flip minus = plus
flip null = null
flip plus = minus

pub compare_address-flip : (a b : Address3D) → compare_address b a ≡ flip (compare_address a b)
unfolding compare_address
compare_address-flip a b = ground arith

pub compare_address-null : (a b : Address3D) → (compare_address a b ≡ null) ↔ (a ≡ b)
unfolding compare_address
compare_address-null a b = ground arith

pub compare_address_trans :
    (a b c : Address3D)
    → compare_address a b ≡ minus
    → compare_address b c ≡ minus
    → compare_address a c ≡ minus
unfolding compare_address
compare_address_trans a b c p q = ground arith

-- The order of the fields: X before Y before Z.
abbrev pub Before : Address3D → Address3D → Type 0
Before a b = (a.x < b.x) ⊎ ((a.x ≡ b.x) × ((a.y < b.y) ⊎ ((a.y ≡ b.y) × (a.z < b.z))))

compare_address-Before : (a b : Address3D) → (compare_address a b ≡ minus) ↔ Before a b
unfolding compare_address
compare_address-Before a b = (λ e. ground (arith, e), λ l. ground (arith, l))

-- Compare is the lexicographic order of X, Y and Z: it is less-than exactly where the first
-- field that differs is smaller, it tells equality, turning the arguments round turns the sign
-- round, and less-than chains.
pub compare_address-IsOrder :
    (a b c : Address3D)
    → ((compare_address a b ≡ minus) ↔ Before a b)
      × ((compare_address a b ≡ null) ↔ (a ≡ b))
      × (compare_address b a ≡ flip (compare_address a b))
      × (compare_address a b ≡ minus → compare_address b c ≡ minus → compare_address a c ≡ minus)
compare_address-IsOrder a b c = (
  compare_address-Before a b,
  compare_address-null a b,
  compare_address-flip a b,
  compare_address_trans a b c,
)

pub same_address_iff : (a b : Address3D) → (same_address a b ≡ true) ↔ (a ≡ b)
same_address_iff a b = ground arith

pub same_address_refl : (a : Address3D) → same_address a a ≡ true
same_address_refl a = ground arith
