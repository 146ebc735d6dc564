-- ===== src/Vm/Cache/Prefetch.antt =====
-- prefetchSpatial of internal/vm/spatial.go, which a miss starts in a goroutine of its own. Nothing
-- reads the channel that it fills, of ten places. Each loop counts on fuel; `none` is that it ran out.
pub mod Counting
use memory3d.Prelude.{
  ℕ, zero, suc, ◌+◌, ◌-◌, ◌^◌, ◌≤◌, ◌<◌, ◌≡◌, refl, true, false, Option, none, some, List, [], ◌∷◌,
  ◌++◌, arith, ltb, leb, le→leb, lt→not_leb, if◌then◌else◌, length, min, u16, u32, u64,
}
use memory3d.Types.Address.{Address3D}

abbrev pub prefetch_window : ℕ
prefetch_window = 64

-- The addresses gathered and the batches in the channel.
pub record Gathered : Type 0 where
  pub addrs : List Address3D
  pub prefetch_queue : List (List Address3D)

-- A batch of 64 goes to the channel; where that is full the addresses stay.
unfoldable pub gather : Gathered → Address3D → Gathered
gather g addr =
    let addrs = g.addrs ++ addr ∷ [] in
    if leb 64 (length addrs)
    then if ltb (length g.prefetch_queue) 10
      then record { addrs = []; prefetch_queue = g.prefetch_queue ++ addrs ∷ [] }
      else record g { addrs = addrs }
    else record g { addrs = addrs }

-- `for z := minZ; z <= maxZ; z++`, and the loops over y and x around it, on their unsigned types.
unfoldable pub sweep_z : ℕ → ℕ → ℕ → ℕ → ℕ → Gathered → Option Gathered
sweep_z zero x y z max_z g = none
sweep_z (suc fuel) x y z max_z g = elim (leb z max_z) [
  | true ↦ sweep_z fuel x y (u16 (z + 1)) max_z (gather g (record { x = x; y = y; z = z }))
  | false ↦ some g
]

abbrev pub and_then : Option Gathered → (Gathered → Option Gathered) → Option Gathered
and_then none next = none
and_then (some g) next = next g

module _ (fuel min_z max_z : ℕ) where
  unfoldable pub sweep_y : ℕ → ℕ → ℕ → ℕ → Gathered → Option Gathered
  sweep_y zero x y max_y g = none
  sweep_y (suc rounds) x y max_y g = elim (leb y max_y) [
    | true ↦ and_then (sweep_z fuel x y min_z max_z g) λ g'. sweep_y rounds x (u32 (y + 1)) max_y g'
    | false ↦ some g
  ]

  unfoldable pub sweep_x : ℕ → ℕ → ℕ → ℕ → ℕ → Gathered → Option Gathered
  sweep_x zero x max_x min_y max_y g = none
  sweep_x (suc rounds) x max_x min_y max_y g = elim (leb x max_x) [
    | true ↦
        and_then (sweep_y fuel x min_y max_y g)
          λ g'. sweep_x rounds (u64 (x + 1)) max_x min_y max_y g'
    | false ↦ some g
  ]

-- The bounds of x and y wrap; those of z are cut to their range.
unfoldable pub prefetch_spatial : ℕ → Address3D → List (List Address3D) → Option Gathered
prefetch_spatial fuel center queue =
    sweep_x fuel (center.z - prefetch_window) (min 65535 (center.z + prefetch_window)) fuel
      (u64 (center.x + 2 ^ 64 - prefetch_window)) (u64 (center.x + prefetch_window))
      (u32 (center.y + 2 ^ 32 - prefetch_window)) (u32 (center.y + prefetch_window))
      (record { addrs = []; prefetch_queue = queue })

-- No uint16 lies above 65535.
sweep_z_endless : (fuel x y z : ℕ) (g : Gathered) → z < 2 ^ 16 → sweep_z fuel x y z 65535 g ≡ none
unfolding sweep_z
sweep_z_endless zero x y z g h = refl
sweep_z_endless (suc fuel) x y z g h =
    rw (sweep_z, le→leb z 65535 (omega arith))
      (sweep_z_endless fuel x y (u16 (z + 1)) _ (omega arith))

sweep_y_endless :
    (fuel min_z rounds x y max_y : ℕ) (g : Gathered)
    → min_z < 2 ^ 16
    → y ≤ max_y
    → sweep_y fuel min_z 65535 rounds x y max_y g ≡ none
unfolding sweep_y
sweep_y_endless fuel min_z zero x y max_y g h le = refl
sweep_y_endless fuel min_z (suc rounds) x y max_y g h le =
    rw (sweep_y, le→leb y max_y le, sweep_z_endless fuel x y min_z g h) refl

sweep_x_endless :
    (fuel min_z rounds x max_x min_y max_y : ℕ) (g : Gathered)
    → min_z < 2 ^ 16
    → x ≤ max_x
    → min_y ≤ max_y
    → sweep_x fuel min_z 65535 rounds x max_x min_y max_y g ≡ none
unfolding sweep_x
sweep_x_endless fuel min_z zero x max_x min_y max_y g h le le_y = refl
sweep_x_endless fuel min_z (suc rounds) x max_x min_y max_y g h le le_y =
    rw (sweep_x, le→leb x max_x le, sweep_y_endless fuel min_z fuel x min_y max_y g h le_y) refl

-- A prefetch around a center in the last 65 places of a plane, at an X and a Y whose bounds do
-- not wrap, does not end: no amount of fuel is enough.
pub prefetch_endless :
    (fuel : ℕ) (center : Address3D) (queue : List (List Address3D))
    → 64 ≤ center.x
    → center.x + 64 < 2 ^ 64
    → 64 ≤ center.y
    → center.y + 64 < 2 ^ 32
    → 65471 ≤ center.z
    → center.z < 2 ^ 16
    → prefetch_spatial fuel center queue ≡ none
unfolding prefetch_spatial
prefetch_endless fuel center queue lo_x hi_x lo_y hi_y lo_z hi_z =
    let top : min 65535 (center.z + 64) ≡ 65535 = omega arith in
    rw top (
      sweep_x_endless fuel (center.z - 64) fuel _ _ _ _ _ (omega arith) (omega arith) (omega arith))

-- Where X is below 64 the lower bound wraps above the upper one, and nothing is gathered.
prefetch_idle :
    (fuel : ℕ) (center : Address3D) (queue : List (List Address3D))
    → center.x < 64
    → prefetch_spatial (suc fuel) center queue
      ≡ some (record { addrs = []; prefetch_queue = queue })
unfolding prefetch_spatial sweep_x
prefetch_idle fuel center queue low =
    rw (sweep_x, lt→not_leb (u64 (center.x + 2 ^ 64 - 64)) (u64 (center.x + 64)) (omega arith)) refl
