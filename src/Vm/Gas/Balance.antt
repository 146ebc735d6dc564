-- ===== src/Vm/Gas/Balance.antt =====
-- Gas is conserved: what is left and what is used add up to the limit.
use memory3d.Prelude.{
  ℕ, ◌+◌, ◌-◌, ◌*◌, ◌^◌, ◌≤◌, ◌<◌, ◌≡◌, sym, ◌∙◌, inl, inr, List, [], ◌∷◌, arith, ltb, Bool-cases,
  ltb→lt, not_ltb→le,
}
use memory3d.Types.Address.{Address3D, abs_diff, manhattan_distance}
use memory3d.Vm.Gas.{
  GasAccountant3D, new_accountant, consume, refund, remaining, used, calculate_gas,
}
use memory3d.Vm.Gas.Holding.{
  Holds, new_accountant-Holds, consume-Holds, consume_refused, refund-Holds, remaining-eq, used-eq,
}

-- The accountant after a run of charges, of which those over what is left are refused.
unfoldable pub consume_all : GasAccountant3D → List ℕ → GasAccountant3D
consume_all g [] = g
consume_all g (gas ∷ costs) = consume_all (consume g gas).0 costs

-- The accountant's two counters, where they add up to `limit`.
pub record Within (limit : ℕ) (g : GasAccountant3D) : Type 0 where
  pub left : ℕ
  pub spent : ℕ
  pub holds : Holds g left spent
  pub adds_up : left + spent ≡ limit

pub consume-Within :
    (limit : ℕ)
    → limit < 2 ^ 63
    → (g : GasAccountant3D) → Within limit g
    → (gas : ℕ) → Within limit (consume g gas).0
consume-Within limit small g w gas = elim (Bool-cases (ltb w.left gas)) [
  | inl over ↦ record {
    left = w.left;
    spent = w.spent;
    holds = (consume_refused g w.left w.spent w.holds gas (ltb→lt w.left gas over)).1;
    adds_up = w.adds_up;
  }
  | inr enough ↦ record {
    left = w.left - gas;
    spent = w.spent + gas;
    holds =
        (consume-Holds g w.left w.spent w.holds gas (not_ltb→le w.left gas enough)
          (moved w.adds_up)).1;
    adds_up = kept (not_ltb→le w.left gas enough) w.adds_up;
  }
]
  where
    moved : w.left + w.spent ≡ limit → w.left + w.spent < 2 ^ 64
    moved e = omega arith

    kept : gas ≤ w.left → w.left + w.spent ≡ limit → w.left - gas + (w.spent + gas) ≡ limit
    kept h e = omega arith

consume_all-Within :
    (limit : ℕ)
    → limit < 2 ^ 63
    → (costs : List ℕ) (g : GasAccountant3D) → Within limit g
    → Within limit (consume_all g costs)
unfolding consume_all
consume_all-Within limit small [] g w = w
consume_all-Within limit small (gas ∷ costs) g w =
    consume_all-Within limit small costs (consume g gas).0 (consume-Within limit small g w gas)

pub new_accountant-Within : (limit : ℕ) → limit < 2 ^ 63 → Within limit (new_accountant limit)
new_accountant-Within limit small = record {
  left = limit;
  spent = 0;
  holds = new_accountant-Holds limit (omega arith);
  adds_up = omega arith;
}

pub Within-sum :
    (limit : ℕ)
    → limit < 2 ^ 63
    → (g : GasAccountant3D) → Within limit g
    → remaining g + used g ≡ limit
Within-sum limit small g w =
    rw
      (
        remaining-eq g w.left w.spent w.holds (part w.left w.spent w.adds_up),
        used-eq g w.left w.spent w.holds (rest w.left w.spent w.adds_up),
      )
      w.adds_up
  where
    part : (l s : ℕ) → l + s ≡ limit → l < 2 ^ 63
    part l s e = omega arith

    rest : (l s : ℕ) → l + s ≡ limit → s < 2 ^ 64
    rest l s e = omega arith

-- An accountant made with a limit below 2 ^ 63, charged any costs in any order (refused ones
-- included), has what is left and what is used add up to the limit.
pub gas_conserved :
    (limit : ℕ)
    → limit < 2 ^ 63
    → (costs : List ℕ)
    → let g = consume_all (new_accountant limit) costs in remaining g + used g ≡ limit
gas_conserved limit small costs =
    Within-sum limit small _
      (consume_all-Within limit small costs _ (new_accountant-Within limit small))

-- From an accountant whose one bucket has gas left and spent (together below 2 ^ 63), after a
-- charge within what is left and the refund of the same gas, Remaining and Used are what they
-- were.
pub refund-consume :
    (g : GasAccountant3D)
    → (left spent gas : ℕ) → Holds g left spent
    → left + spent < 2 ^ 63
    → gas ≤ left
    → let h = refund (consume g gas).0 gas in (remaining h ≡ remaining g) × (used h ≡ used g)
refund-consume g left spent gas holds fits within = (
  remaining-eq _ _ _ back (omega arith)
      ∙ same_left
      ∙ sym (remaining-eq g left spent holds (omega arith)),
  used-eq _ _ _ back (omega arith) ∙ same_spent ∙ sym (used-eq g left spent holds (omega arith)),
)
  where
    back : Holds (refund (consume g gas).0 gas) (left - gas + gas) (spent + gas - gas)
    back =
        refund-Holds _ _ _ (consume-Holds g left spent holds gas within (omega arith)).1 gas
          (omega arith)

    same_left : left - gas + gas ≡ left
    same_left = omega arith

    same_spent : spent + gas - gas ≡ spent
    same_spent = omega arith

-- A refund of at least the gas that was used, to an accountant with one bucket whose remaining
-- gas stays below 2 ^ 63, creates gas: what is left and what is used then add up to more than
-- before, by the part of the refund that was not used.
pub refund_creates :
    (g : GasAccountant3D)
    → (left spent gas : ℕ) → Holds g left spent
    → left + gas < 2 ^ 63
    → spent < 2 ^ 64
    → spent ≤ gas
    → remaining (refund g gas) + used (refund g gas) ≡ remaining g + used g + (gas - spent)
refund_creates g left spent gas holds fits small over =
    rw
      (
        remaining-eq _ _ _ after fits,
        used-eq _ _ _ after (omega arith),
        remaining-eq g left spent holds (omega arith),
        used-eq g left spent holds small,
      )
      (omega arith)
  where
    after : Holds (refund g gas) (left + gas) (spent - gas)
    after = refund-Holds g left spent holds gas (omega arith)

-- The gas of a move is 3, a gas for each byte and the Manhattan distance, while the size, the
-- weighted distance of the planes and the sum fit their Go types.
pub calculate_gas-manhattan_distance :
    (from to : Address3D) (size : ℕ)
    → 3 + size < 2 ^ 32
    → abs_diff from.y to.y * 10 < 2 ^ 32
    → 3 + size + abs_diff from.x to.x * 100 + abs_diff from.y to.y * 10 + abs_diff from.z to.z
      < 2 ^ 64
    → calculate_gas from to size ≡ 3 + size + manhattan_distance from to
unfolding calculate_gas manhattan_distance
calculate_gas-manhattan_distance from to size small near fits = omega arith
