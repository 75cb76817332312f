-- ===== src/Treasury/Examples.antt =====
-- Runs of offchain/treasury.py.
use jamswap.Prelude.{
  ℕ, ◌+◌, ◌*◌, ◌≡◌, refl, ◌≤◌, ◌↔◌, max, true, ◌||◌, [], ◌∷◌, arith, ◌==◌, if◌then◌else◌, ltb,
}
use jamswap.Prelude.Int.{pos}
use jamswap.Treasury.{
  usdc, jamkb, Balances, balance_of, profit_split, max_withdrawable, reserve_target, topup_due,
  solvency,
}
use jamswap.Treasury.Laws.{profit_split_lem, topup_due_keeps}

abbrev held : Balances
held = (jamkb, 90) ∷ (usdc, 7000) ∷ []

held_split : profit_split held 40 ≡ record {
  rent_reserve = 40;
  reserve_held = 40;
  shortfall = 0;
  over_reserved = 50;
  solvent = true;
  withdrawable = (jamkb, 0) ∷ (usdc, 7000) ∷ [];
}
unfolding profit_split
held_split = refl

profit_split_lem_example :
    let s = profit_split held 40 in
    (s.reserve_held + s.shortfall ≡ 40)
    × (s.reserve_held + s.over_reserved ≡ balance_of jamkb held)
    × (solvency (balance_of jamkb held) 40 ≡ (s.solvent, s.shortfall))
    × ((s.solvent ≡ true) ↔ (40 ≤ balance_of jamkb held))
    × ((a : ℕ)
        → max_withdrawable held 40 a
          ≡ (if a == jamkb || ltb (balance_of jamkb held) 40 then 0 else balance_of a held))
profit_split_lem_example = profit_split_lem held 40

topup_due_keeps_example :
    let target = reserve_target 40 (pos 10) 1000 * 100 in
    let after = 3900 + topup_due 3900 target (pos (10 * 100)) in
    (40 * 100 ≤ after) × (after ≤ max 3900 target)
topup_due_keeps_example = topup_due_keeps 100 40 3900 1000 10 (omega arith) (omega arith)
