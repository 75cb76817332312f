-- ===== src/Server/Pricing.antt =====
-- offchain/server.py: `market_price`, `_price_market_orders`, `expired_pairs`, `_order_gas` and `_committee_size`.
-- Which orders are market orders is a parameter, by their identity.
use jamswap.Prelude.{
  ℕ, ◌+◌, ◌-◌, ◌*◌, ◌/◌, ◌≡◌, ◌≤◌, ◌<◌, inl, inr, Bool, true, false, not, List, [], ◌∷◌, All, map,
  filter, any, arith, max, Bool-cases, ◌==◌, if◌then◌else◌,
}
use jamswap.Order.{Order, Side, buy, sell}
use jamswap.Settle.Cancel.{parse_book}
use jamswap.Settle.Market.{order_expiry}
use jamswap.Settle.Finish.{is_over}
use jamswap.Codec.{Bytes}

-- MARKET_BAND_PCT
abbrev pub market_band : ℕ
market_band = 10

-- A floor for a buy, a ceiling for a sell, at least 1.
unfoldable pub market_price : Side → ℕ → ℕ
market_price buy lp = lp * (100 + market_band) / 100
market_price sell lp = max 1 ((lp * (100 - market_band) + 99) / 100)

module _ (is_market : ℕ → Bool) where
  abbrev pub priced : ℕ → Order → Order
  priced lp o = if is_market o.tag then record o { price = market_price o.side lp } else o

  -- `_price_market_orders(m, public)` at the market's last price: the orders, and those that are dead.
  unfoldable pub price_market_orders : ℕ → List Order → List Order × List Order
  price_market_orders lp public =
      if not (any (λ o. is_market o.tag) public)
      then (public, [])
      else if lp == 0
      then (filter (λ o. not (is_market o.tag)) public, filter (λ o. is_market o.tag) public)
      else (map (priced lp) public, [])

-- `expired_pairs(m, rest_bytes)`
unfoldable pub pairs_over : ℕ → List (ℕ × ℕ × ℕ) → List Order → List (ℕ × ℕ)
pairs_over now expiry [] = []
pairs_over now expiry (o ∷ os) =
    if is_over now (order_expiry o.account o.oid expiry)
    then (o.account, o.oid) ∷ pairs_over now expiry os
    else pairs_over now expiry os

unfoldable pub expired_pairs : ℕ → List (ℕ × ℕ × ℕ) → Bytes → List (ℕ × ℕ)
expired_pairs now expiry raw = pairs_over now expiry (parse_book raw)

-- `_committee_size()`, on the bytes under `committee`.
unfoldable pub committee_size : Bytes → ℕ
committee_size [] = 2
committee_size (n ∷ raw) = max 1 n

-- `_order_gas(o, committee_n)`; `encrypts` is ENC_MODE.
unfoldable pub order_gas : Bool → ℕ → Order → ℕ
order_gas encrypts n o = if not o.sealed then 5290000 else if encrypts then n * 18700000 else 10100

-- The service accepts a market order's price within the band around the last price.
abbrev pub InBand : ℕ → ℕ → Type 0
InBand lp p = (lp * 90 ≤ p * 100) × (p * 100 ≤ lp * 110)

-- No accepted price is better for the other side to trade with.
abbrev pub IsEdge : Side → ℕ → ℕ → Type 0
IsEdge buy lp p = (q : ℕ) → InBand lp q → q ≤ p
IsEdge sell lp p = (q : ℕ) → InBand lp q → p ≤ q

market_price-InBand :
    (side : Side) (lp : ℕ)
    → 0 < lp
    → InBand lp (market_price side lp) × IsEdge side lp (market_price side lp)
unfolding market_price
market_price-InBand buy lp pos = ((omega arith, omega arith), λ q h. omega (arith, h.1))
market_price-InBand sell lp pos = ((omega arith, omega arith), λ q h. omega (arith, h.0))

module _ (is_market : ℕ → Bool) where
  -- An order that a round carries after pricing.
  abbrev pub IsPriced : ℕ → Order → Type 0
  IsPriced lp o = is_market o.tag ≡ true → (0 < lp) × InBand lp o.price × IsEdge o.side lp o.price

  no_market :
      (lp : ℕ) (os : List Order) → any (λ o. is_market o.tag) os ≡ false → All (IsPriced lp) os
  no_market lp [] h = tt
  no_market lp (o ∷ os) h = (λ is. absurd (ground arith), no_market lp os (ground arith))

  All-limit :
      (lp : ℕ) (os : List Order) → All (IsPriced lp) (filter (λ o. not (is_market o.tag)) os)
  All-limit lp [] = tt
  All-limit lp (o ∷ os) = elim (Bool-cases (is_market o.tag)) [
    | inl e ↦ rw e (All-limit lp os)
    | inr e ↦ rw e (λ is. absurd (cc (e, is)), All-limit lp os)
  ]

  All-priced :
      (lp : ℕ) (os : List Order) → 0 < lp → All (IsPriced lp) (map (priced is_market lp) os)
  All-priced lp [] pos = tt
  All-priced lp (o ∷ os) pos = elim (Bool-cases (is_market o.tag)) [
    | inl e ↦ rw e (
      λ is. (pos, (market_price-InBand o.side lp pos).0, (market_price-InBand o.side lp pos).1),
      All-priced lp os pos,
    )
    | inr e ↦ rw e (λ is. absurd (cc (e, is)), All-priced lp os pos)
  ]

  -- After pricing, each market order that is left stands at the edge of the service's band around the last
  -- price: within it, and no accepted price is higher for a buy, or lower for a sell. Without a last price
  -- no market order is left.
  pub price_market_orders-IsPriced :
      (lp : ℕ) (public : List Order) → All (IsPriced lp) (price_market_orders is_market lp public).0
  unfolding price_market_orders
  price_market_orders-IsPriced lp public = elim (Bool-cases (any (λ o. is_market o.tag) public)) [
    | inl some_market ↦ rw some_market (elim (Bool-cases (lp == 0)) [
      | inl zero_price ↦ rw zero_price (All-limit lp public)
      | inr pos ↦ rw pos (All-priced lp public (ground arith))
    ])
    | inr no_one ↦ rw no_one (no_market lp public no_one)
  ]
