-- ===== src/Treasury/Laws.antt =====
-- What the treasury of offchain/treasury.py keeps for rent, lets go as profit and tops up.
use jamswap.Prelude.{
  ℕ, ◌+◌, ◌-◌, ◌*◌, ◌≡◌, refl, ◌≤◌, ◌<◌, ◌↔◌, max, Bool, true, [], ◌∷◌, arith, ◌==◌, ◌||◌, not,
  if◌then◌else◌, ltb,
}
use jamswap.Prelude.Int.{pos}
use jamswap.Treasury.{
  jamkb, jamkb_rent, Balances, balance_of, profits, profit_split, max_withdrawable, reserve_target,
  topup_due, solvency,
}

-- The rent is the footprint in whole kilobytes, rounded up.
pub jamkb_rent_ceil :
    (octets : ℕ) → (octets ≤ jamkb_rent octets * 1024) × (jamkb_rent octets * 1024 < octets + 1024)
unfolding jamkb_rent
jamkb_rent_ceil octets = omega arith

balance_of-profits :
    (solvent : Bool) (a : ℕ) (bs : Balances)
    → balance_of a (profits solvent bs) ≡ (if a == jamkb || not solvent then 0 else balance_of a bs)
unfolding balance_of profits
balance_of-profits solvent a [] = ground arith
balance_of-profits solvent a ((b, v) ∷ bs) = ground (arith, balance_of-profits solvent a bs)

-- The split accounts for the whole reserve and the whole JAMKB balance, calls the service solvent
-- exactly if the balance covers the rent, as `solvency` does, and lets an asset be withdrawn only if
-- it is not JAMKB and the rent is covered: then all of it.
pub profit_split_lem :
    (t : Balances) (rent : ℕ)
    → let s = profit_split t rent in
      (s.reserve_held + s.shortfall ≡ rent)
      × (s.reserve_held + s.over_reserved ≡ balance_of jamkb t)
      × (solvency (balance_of jamkb t) rent ≡ (s.solvent, s.shortfall))
      × ((s.solvent ≡ true) ↔ (rent ≤ balance_of jamkb t))
      × ((a : ℕ)
          → max_withdrawable t rent a
            ≡ (if a == jamkb || ltb (balance_of jamkb t) rent then 0 else balance_of a t))
unfolding profit_split max_withdrawable solvency
profit_split_lem t rent = (
  omega arith,
  omega arith,
  refl,
  (λ h. ground arith, λ h. ground arith),
  λ a. ground (arith, balance_of-profits (rent - balance_of jamkb t == 0) a t),
)

-- The reserve keeper, in any one unit (a positive `scale` of atomic units to a JAMKB): after the top-up that it
-- calls for, the reserve covers the obligation, and a top-up never takes it above the target. The
-- target has to be within the finite supply.
pub topup_due_keeps :
    (scale obligation held supply : ℕ) (buffer : ℕ)
    → 0 < scale
    → obligation + buffer ≤ supply
    → let target = reserve_target obligation (pos buffer) supply * scale in
      let after = held + topup_due held target (pos (buffer * scale)) in
      (obligation * scale ≤ after) × (after ≤ max held target)
unfolding reserve_target topup_due
topup_due_keeps scale obligation held supply buffer pos_scale room = grind arith
