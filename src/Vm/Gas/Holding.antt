-- ===== src/Vm/Gas/Holding.antt =====
-- An accountant's one bucket, charged and refunded.
use memory3d.Prelude.{
  ℕ, ◌+◌, ◌-◌, ◌/◌, ◌%◌, ◌^◌, ◌≤◌, ◌<◌, ◌≡◌, refl, sym, ap, ◌∙◌, inl, inr, true, false, [], ◌∷◌,
  arith, leb, ◌==◌, if◌then◌else◌, Bool-cases, ==→eq, lt→not_leb, lt→ltb, le→not_ltb, get_elem?,
  some, u64,
}
use memory3d.Vm.Gas.{
  GasBucket, GasAccountant3D, new_accountant, new_bucket, get_bucket, consume, refund, remaining,
  used, sum_remaining, sum_used, refund_used, consume_from, refund_first,
}

-- The accountant has its one bucket, whose two counters are `left` and `spent`.
pub record Holds (g : GasAccountant3D) (left spent : ℕ) : Type 0 where
  pub bucket : GasBucket
  pub only : g.buckets ≡ bucket ∷ []
  pub left_is : bucket.remaining ≡ left
  pub spent_is : bucket.used ≡ spent

one_bucket : (limit : ℕ) → limit < 2 ^ 64 → u64 (limit / 1 + limit % 1) ≡ limit
one_bucket limit h = omega arith

pub new_accountant-Holds : (limit : ℕ) → limit < 2 ^ 64 → Holds (new_accountant limit) limit 0
unfolding new_accountant new_bucket
new_accountant-Holds limit h = record {
  bucket = new_bucket limit;
  only = ap (λ n. new_bucket n ∷ []) (one_bucket limit h);
  left_is = refl;
  spent_is = refl;
}

picks : (g : GasAccountant3D) (b : GasBucket) → g.buckets ≡ b ∷ [] → (get_bucket g).1 ≡ 0
unfolding get_bucket
picks g b only = rw (only) (omega arith)

gets :
    (g : GasAccountant3D) (b : GasBucket)
    → g.buckets ≡ b ∷ []
    → get_elem? g.buckets (get_bucket g).1 ≡ some b
gets g b only = rw (picks g b only, only)

nothing : (spent gas : ℕ) → spent ≡ 0 → spent ≡ spent - gas
nothing spent gas none_spent = omega arith

keeps : (n : ℕ) → n < 2 ^ 63 → u64 (n + 0) ≡ n
keeps n h = omega arith

module _ (g : GasAccountant3D) (left spent : ℕ) (holds : Holds g left spent) where
  -- Consume within what is left moves the gas from left to spent.
  pub consume-Holds :
      (gas : ℕ)
      → gas ≤ left
      → left + spent < 2 ^ 64
      → ((consume g gas).1 ≡ true) × Holds (consume g gas).0 (left - gas) (spent + gas)
  unfolding consume consume_from get_bucket
  consume-Holds gas h fits =
      rw
        (
          gets g holds.bucket holds.only,
          le→not_ltb holds.bucket.remaining gas (rw (holds.left_is) h),
          picks g holds.bucket holds.only,
          holds.only,
        )
        (
          refl,
          record {
            bucket = record (holds.bucket) {
              remaining = holds.bucket.remaining - gas;
              used = u64 (holds.bucket.used + gas);
            };
            only = refl;
            left_is = ap (λ n. n - gas) holds.left_is;
            spent_is = rw (holds.spent_is) (omega arith);
          },
        )

  pub consume_refused :
      (gas : ℕ) → left < gas → ((consume g gas).1 ≡ false) × Holds (consume g gas).0 left spent
  unfolding consume consume_from get_bucket
  consume_refused gas h =
      rw (gets g holds.bucket holds.only, lt→ltb holds.bucket.remaining gas (rw (holds.left_is) h))
        (
          refl,
          record {
            bucket = holds.bucket;
            only = holds.only;
            left_is = holds.left_is;
            spent_is = holds.spent_is;
          },
        )

  pub refund-Holds :
      (gas : ℕ) → left + gas < 2 ^ 64 → Holds (refund g gas) (left + gas) (spent - gas)
  unfolding refund refund_used refund_first
  refund-Holds gas fits = rw (holds.only) (elim (Bool-cases (holds.bucket.used == 0)) [
    | inl unused ↦ rw (unused) (record {
      bucket = record (holds.bucket) { remaining = u64 (holds.bucket.remaining + gas) };
      only = refl;
      left_is = rw (holds.left_is) (omega arith);
      spent_is = holds.spent_is ∙ nothing spent gas (sym holds.spent_is ∙ ==→eq _ _ unused);
    })
    | inr some_used ↦ rw (some_used) (record {
      bucket = record (holds.bucket) {
        used = if leb holds.bucket.used gas then 0 else holds.bucket.used - gas;
        remaining = u64 (holds.bucket.remaining + gas);
      };
      only = refl;
      left_is = rw (holds.left_is) (omega arith);
      spent_is = rw (holds.spent_is) (ground arith);
    })
  ])

  pub remaining-eq : left < 2 ^ 63 → remaining g ≡ left
  unfolding remaining sum_remaining
  remaining-eq small =
      rw (holds.only, holds.left_is) (rw (keeps left small, lt→not_leb (2 ^ 63) left small) refl)

  pub used-eq : spent < 2 ^ 64 → used g ≡ spent
  unfolding used sum_used
  used-eq small = rw (holds.only, holds.spent_is) (omega arith)
