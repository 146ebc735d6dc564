-- ===== src/Vm/Cache/Prefetch/Counting.antt =====
-- The prefetch of spatial.go where its loops end, and how many addresses it goes through.
use memory3d.Prelude.{
  ℕ, zero, suc, ◌+◌, ◌-◌, ◌*◌, ◌^◌, ◌≤◌, ◌<◌, ◌≡◌, refl, inl, inr, Option, some, List, [], ◌∷◌,
  ◌++◌, arith, ltb, leb, le→leb, lt→not_leb, Bool-cases, length, length-append, min, u16, u32, u64,
}
use memory3d.Types.Address.{Address3D}
use memory3d.Vm.Cache.Prefetch.{Gathered, gather, sweep_z, sweep_y, sweep_x, prefetch_spatial}

-- The addresses in the batches, and all that were gathered.
abbrev pub sent : List (List Address3D) → ℕ
sent [] = 0
sent (batch ∷ batches) = length batch + sent batches

abbrev pub gathered : Gathered → ℕ
gathered g = length g.addrs + sent g.prefetch_queue

sent-append :
    (batches : List (List Address3D)) (batch : List Address3D)
    → sent (batches ++ batch ∷ []) ≡ sent batches + length batch
sent-append [] batch = omega arith
sent-append (b ∷ batches) batch = omega (arith, sent-append batches batch)

gathered-gather : (g : Gathered) (addr : Address3D) → gathered (gather g addr) ≡ gathered g + 1
unfolding gather
gathered-gather g addr = elim (Bool-cases (leb 64 (length (g.addrs ++ addr ∷ [])))) [
  | inr few ↦ rw (few, gather) (omega (arith, more))
  | inl many ↦ elim (Bool-cases (ltb (length g.prefetch_queue) 10)) [
    | inl room ↦
        rw (many, room, gather)
          (omega (arith, more, sent-append g.prefetch_queue (g.addrs ++ addr ∷ [])))
    | inr full ↦ rw (many, full, gather) (omega (arith, more))
  ]
]
  where
    more : length (g.addrs ++ addr ∷ []) ≡ length g.addrs + 1
    more = length-append g.addrs (addr ∷ [])

-- The loop ends, with n more addresses.
abbrev pub Gathers : ℕ → Gathered → Option Gathered → Type 0
Gathers n g r = (g' : Gathered) × (r ≡ some g') × (gathered g' ≡ gathered g + n)

sweep_z-Gathers :
    (n fuel x y z max_z : ℕ) (g : Gathered)
    → z + n ≡ max_z + 1
    → n < fuel
    → max_z < 65535
    → Gathers n g (sweep_z fuel x y z max_z g)
unfolding sweep_z
sweep_z-Gathers n zero x y z max_z g steps enough below = absurd (omega arith)
sweep_z-Gathers zero (suc fuel) x y z max_z g steps enough below =
    rw (lt→not_leb z max_z (omega arith), sweep_z) (g, refl, omega arith)
sweep_z-Gathers (suc n) (suc fuel) x y z max_z g steps enough below =
    let next = gather g (record { x = x; y = y; z = z }) in
    let up : u16 (z + 1) ≡ z + 1 = omega arith in
    let (g', e, more) =
      sweep_z-Gathers n fuel x y (z + 1) max_z next (omega arith) (omega arith) below in
    rw (le→leb z max_z (omega arith), sweep_z, up)
      (g', e, omega (arith, more, gathered-gather g (record { x = x; y = y; z = z })))

module _ (n fuel min_z max_z : ℕ) (steps_z : min_z + n ≡ max_z + 1) (enough_z : n < fuel)
    (below_z : max_z < 65535) where
  sweep_y-Gathers :
      (m rounds x y max_y : ℕ) (g : Gathered)
      → y + m ≡ max_y + 1
      → m < rounds
      → max_y + 1 < 2 ^ 32
      → Gathers (m * n) g (sweep_y fuel min_z max_z rounds x y max_y g)
  unfolding sweep_y
  sweep_y-Gathers m zero x y max_y g steps enough below = absurd (omega arith)
  sweep_y-Gathers zero (suc rounds) x y max_y g steps enough below =
      rw (lt→not_leb y max_y (omega arith), sweep_y) (g, refl, omega arith)
  sweep_y-Gathers (suc m) (suc rounds) x y max_y g steps enough below =
      let (g1, e1, more1) = sweep_z-Gathers n fuel x y min_z max_z g steps_z enough_z below_z in
      let up : u32 (y + 1) ≡ y + 1 = omega arith in
      let (g2, e2, more2) =
        sweep_y-Gathers m rounds x (y + 1) max_y g1 (omega arith) (omega arith) below in
      rw (le→leb y max_y (omega arith), sweep_y, e1, up) (g2, e2, ground (arith, more1, more2))

  sweep_x-Gathers :
      (k m rounds x max_x min_y max_y : ℕ) (g : Gathered)
      → x + k ≡ max_x + 1
      → k < rounds
      → max_x + 1 < 2 ^ 64
      → min_y + m ≡ max_y + 1
      → m < fuel
      → max_y + 1 < 2 ^ 32
      → Gathers (k * (m * n)) g (sweep_x fuel min_z max_z rounds x max_x min_y max_y g)
  unfolding sweep_x
  sweep_x-Gathers k m zero x max_x min_y max_y g steps enough below steps_y enough_y below_y =
      absurd (omega arith)
  sweep_x-Gathers zero m (suc rounds) x max_x min_y max_y g steps enough below steps_y enough_y
        below_y =
      rw (lt→not_leb x max_x (omega arith), sweep_x) (g, refl, omega arith)
  sweep_x-Gathers (suc k) m (suc rounds) x max_x min_y max_y g steps enough below steps_y enough_y
        below_y =
      let (g1, e1, more1) = sweep_y-Gathers m fuel x min_y max_y g steps_y enough_y below_y in
      let up : u64 (x + 1) ≡ x + 1 = omega arith in
      let (g2, e2, more2) =
        sweep_x-Gathers k m rounds (x + 1) max_x min_y max_y g1 (omega arith) (omega arith) below
          steps_y enough_y below_y in
      rw (le→leb x max_x (omega arith), sweep_x, e1, up) (g2, e2, ground (arith, more1, more2))

-- A prefetch around a center whose X and Y lie more than their window away from both ends of
-- their types, and whose Z is below the last 65 places, ends with fuel of 130 for each loop, and
-- goes through 129 regions, 129 planes and all places of the window: with an empty channel at
-- the start, the addresses left over and those in the batches are as many.
pub prefetch_ends :
    (fuel : ℕ) (center : Address3D)
    → 130 ≤ fuel
    → 64 ≤ center.x
    → center.x + 65 < 2 ^ 64
    → 64 ≤ center.y
    → center.y + 65 < 2 ^ 32
    → center.z + 64 < 65535
    → (g : Gathered) × (prefetch_spatial fuel center [] ≡ some g)
      × (length g.addrs + sent g.prefetch_queue ≡ 129 * (129 * (min 64 center.z + 65)))
unfolding prefetch_spatial
prefetch_ends fuel center enough lo_x hi_x lo_y hi_y hi_z =
    let start : Gathered = record { addrs = []; prefetch_queue = [] } in
    let (g, e, more) =
      sweep_x-Gathers (min 64 center.z + 65) fuel (center.z - 64) (min 65535 (center.z + 64))
        (omega arith) (omega arith) (omega arith) 129 129 fuel (u64 (center.x + 2 ^ 64 - 64))
        (u64 (center.x + 64)) (u32 (center.y + 2 ^ 32 - 64)) (u32 (center.y + 64)) start
        (omega arith) (omega arith) (omega arith) (omega arith) (omega arith) (omega arith) in
    (g, e, omega (arith, more))
