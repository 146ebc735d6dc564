-- ===== src/Vm/Gas.antt =====
-- internal/vm/gas.go. A method's loop of compare-and-swap is one atomic step here: it repeats until
-- no other thread has come between.
pub mod Holding
pub mod Balance
use memory3d.Prelude.{
  ℕ, zero, suc, ◌+◌, ◌-◌, ◌*◌, ◌/◌, ◌%◌, ◌^◌, Bool, true, false, Option, none, some, List, [], ◌∷◌,
  ltb, leb, ◌==◌, if◌then◌else◌, length, get_elem?, u32, u64,
}
use memory3d.Prelude.{set as update}
use memory3d.Types.Address.{Address3D, abs_diff}

pub record GasBucket : Type 0 where
  pub remaining : ℕ
  pub used : ℕ
  pub promotions : ℕ
  pub region_changes : ℕ

pub record GasAccountant3D : Type 0 where
  pub buckets : List GasBucket
  pub bucket_idx : ℕ
  pub total_gas : ℕ

unfoldable pub new_bucket : ℕ → GasBucket
new_bucket gas = record { remaining = gas; used = 0; promotions = 0; region_changes = 0 }

-- One bucket, to which the share and the remainder of the limit go.
unfoldable pub new_accountant : ℕ → GasAccountant3D
unfolding new_bucket
new_accountant limit = record {
  buckets = new_bucket (u64 (limit / 1 + limit % 1)) ∷ [];
  bucket_idx = 0;
  total_gas = limit;
}

unfoldable pub sum_remaining : List GasBucket → ℕ
sum_remaining [] = 0
sum_remaining (b ∷ bs) = u64 (b.remaining + sum_remaining bs)

-- The sum is an int64: from 2 ^ 63 on it is negative.
unfoldable pub remaining : GasAccountant3D → ℕ
unfolding sum_remaining
remaining g = let total = sum_remaining g.buckets in if leb (2 ^ 63) total then 0 else total

unfoldable pub sum_used : List GasBucket → ℕ
sum_used [] = 0
sum_used (b ∷ bs) = u64 (b.used + sum_used bs)

unfoldable pub used : GasAccountant3D → ℕ
unfolding sum_used
used g = sum_used g.buckets

-- The accountant with the counter advanced, and the index of the chosen bucket.
unfoldable pub get_bucket : GasAccountant3D → GasAccountant3D × ℕ
get_bucket g =
    let idx = u64 (g.bucket_idx + 1) in (record g { bucket_idx = idx }, idx % length g.buckets)

-- `false` is ErrInsufficientGas. The bucket is at `idx`.
unfoldable pub consume_from : GasAccountant3D → ℕ → ℕ → Option GasBucket → GasAccountant3D × Bool
consume_from g idx gas none = (g, false)
consume_from g idx gas (some b) = if ltb b.remaining gas then (g, false) else (
  record g {
    buckets =
        update g.buckets idx
          (record b { remaining = b.remaining - gas; used = u64 (b.used + gas) });
  },
  true,
)

unfoldable pub consume : GasAccountant3D → ℕ → GasAccountant3D × Bool
consume g gas =
    consume_from (get_bucket g).0 (get_bucket g).1 gas (get_elem? g.buckets (get_bucket g).1)

-- The first bucket with used gas takes the refund; `none` if there is none.
unfoldable pub refund_used : ℕ → List GasBucket → Option (List GasBucket)
refund_used gas [] = none
refund_used gas (b ∷ bs) =
    let rest = refund_used gas bs in
    if b.used == 0
    then elim rest [ none ↦ none | some bs' ↦ some (b ∷ bs') ]
    else some (
        record b {
          used = if leb b.used gas then 0 else b.used - gas;
          remaining = u64 (b.remaining + gas);
        }
        ∷ bs)

-- With no used gas anywhere the first bucket takes it.
unfoldable pub refund_first : ℕ → List GasBucket → Option (List GasBucket) → List GasBucket
refund_first gas bs (some refunded) = refunded
refund_first gas [] none = []
refund_first gas (b ∷ bs) none = record b { remaining = u64 (b.remaining + gas) } ∷ bs

unfoldable pub refund : GasAccountant3D → ℕ → GasAccountant3D
refund g gas = record g { buckets = refund_first gas g.buckets (refund_used gas g.buckets) }

-- The three distances are added in order. `3 + size` and the plane distance times 10 are uint32.
unfoldable pub calculate_gas : Address3D → Address3D → ℕ → ℕ
unfolding abs_diff
calculate_gas from to size =
    let dx = u64 (abs_diff from.x to.x * 100) in
    let dy = u32 (abs_diff from.y to.y * 10) in
    let dz = abs_diff from.z to.z in u64 (u64 (u64 (u32 (3 + size) + dx) + dy) + dz)
