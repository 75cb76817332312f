-- ===== src/Treasury.antt =====
-- The self-funding treasury, offchain/treasury.py. Balances, footprints and reserves come from
-- unsigned chain state, so they are naturals; the operator's buffer is a setting and may be negative.
pub mod Laws
pub mod Keeper
pub mod Examples
use jamswap.Prelude.{
  ℕ, ◌+◌, ◌-◌, ◌/◌, ◌≤◌, min, max, Bool, true, false, List, [], ◌∷◌, leb, ◌==◌, if◌then◌else◌,
}
use jamswap.Prelude.Int.{ℤ, pos, negsuc, pos_part}

-- `USDC, DOT, JAMKB = 0, 1, 2`
abbrev pub usdc : ℕ
usdc = 0

abbrev pub dot : ℕ
dot = 1

abbrev pub jamkb : ℕ
jamkb = 2

abbrev pub jamkb_supply : ℕ
jamkb_supply = 1_048_576

-- `(int(footprint_octets) + 1023) // 1024`
unfoldable pub jamkb_rent : ℕ → ℕ
jamkb_rent footprint_octets = (footprint_octets + 1023) / 1024

-- A dict from asset ids to amounts, in insertion order.
abbrev pub Balances : Type 0
Balances = List (ℕ × ℕ)

-- `balances.get(asset, 0)`
unfoldable pub balance_of : ℕ → Balances → ℕ
balance_of a [] = 0
balance_of a ((b, v) ∷ bs) = if a == b then v else balance_of a bs

-- The dict that `profit_split` returns.
pub record Split : Type 0 where
  pub rent_reserve : ℕ
  pub reserve_held : ℕ
  pub shortfall : ℕ
  pub over_reserved : ℕ
  pub solvent : Bool
  pub withdrawable : Balances

-- The loop over `treasury.items()`.
unfoldable pub profits : Bool → Balances → Balances
profits solvent [] = []
profits solvent ((a, v) ∷ bs) =
    (a, if a == jamkb then 0 else if solvent then v else 0) ∷ profits solvent bs

-- `max(0, a - b)` is the truncated difference.
unfoldable pub profit_split : Balances → ℕ → Split
unfolding balance_of profits
profit_split treasury rent_reserve =
    let jamkb_bal = balance_of jamkb treasury in
    let shortfall = rent_reserve - jamkb_bal in
    record {
      rent_reserve = rent_reserve;
      reserve_held = min jamkb_bal rent_reserve;
      shortfall = shortfall;
      over_reserved = jamkb_bal - rent_reserve;
      solvent = shortfall == 0;
      withdrawable = profits (shortfall == 0) treasury;
    }

unfoldable pub max_withdrawable : Balances → ℕ → ℕ → ℕ
unfolding profit_split balance_of
max_withdrawable treasury rent_reserve asset =
    balance_of asset (profit_split treasury rent_reserve).withdrawable

-- `min(int(obligation) + max(0, int(buffer_kb)), supply)`
unfoldable pub reserve_target : ℕ → ℤ → ℕ → ℕ
reserve_target obligation buffer_kb supply = min (obligation + pos_part buffer_kb) supply

-- `max(1, int(buffer) // 2)`
abbrev pub trigger : ℤ → ℕ
trigger (pos n) = max 1 (n / 2)
trigger (negsuc n) = 1

-- `short if short >= max(1, buffer // 2) else 0`. A negative `short` is below the trigger, as the
-- truncated difference 0 is.
unfoldable pub topup_due : ℕ → ℕ → ℤ → ℕ
topup_due held target buffer =
    let short = target - held in if leb (trigger buffer) short then short else 0

unfoldable pub solvency : ℕ → ℕ → Bool × ℕ
solvency jamkb_held rent_reserve =
    let shortfall = rent_reserve - jamkb_held in (shortfall == 0, shortfall)
