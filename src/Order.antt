-- ===== src/Order.antt =====
-- The order dict that offchain/clearing.py, offchain/round.py and offchain/server.py share.
use jamswap.Prelude.{ℕ, ◌≡◌, refl, ◌⊎◌, inl, inr, Bool, true, false, Option}

-- `BUY, SELL = 0, 1`
pub data Side : Type 0 where
  buy sell : Side

-- The keys of an order dict. `tag` stands for the object's identity (`id(o)`), `sealed` for
-- `o.get("sealed")`, `expiry` for `o.get("expiry")`, `seq` for `o.get("seq", 0)`. Times are whole ticks
-- of any fine unit:
-- the code only compares them.
pub record Order : Type 0 where
  pub tag : ℕ
  pub account : ℕ
  pub oid : ℕ
  pub side : Side
  pub price : ℕ
  pub qty : ℕ
  pub sealed : Bool
  pub expiry : Option ℕ
  pub seq : ℕ

-- `o["side"] == BUY`
abbrev pub is_buy : Side → Bool
is_buy buy = true
is_buy sell = false

-- `o["side"] == SELL`
abbrev pub is_sell : Side → Bool
is_sell buy = false
is_sell sell = true

pub Side-cases : (s : Side) → (s ≡ buy) ⊎ (s ≡ sell)
Side-cases buy = inl refl
Side-cases sell = inr refl
