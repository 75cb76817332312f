-- ===== src/Clearing/Volume.antt =====
-- Demand and supply as functions of the price, and the volume of `clear` of offchain/clearing.py
-- against every uniform price.
use jamswap.Prelude.{
  ℕ, ◌≡◌, refl, ◌≤◌, ◌⊎◌, inl, inr, List, [], ◌∷◌, arith, min, In, leb, Bool-cases,
}
use jamswap.Order.{Order}
use jamswap.Clearing.{prices, buys_at, demand, supply, matched, clear, settle}
use jamswap.Clearing.Optimal.{In-insert_price, best-le}

pub demand_antitone : (os : List Order) (p q : ℕ) → p ≤ q → demand os q ≤ demand os p
unfolding demand
demand_antitone [] p q h = omega arith
demand_antitone (o ∷ os) p q h = ground (arith, demand_antitone os p q h)

pub supply_monotone : (os : List Order) (p q : ℕ) → p ≤ q → supply os p ≤ supply os q
unfolding supply
supply_monotone [] p q h = omega arith
supply_monotone (o ∷ os) p q h = ground (arith, supply_monotone os p q h)

-- Demand is 0, or it is the same at the price of some order that is not lower.
demand_attained :
    (os : List Order) (p : ℕ)
    → (demand os p ≡ 0) ⊎ ((q : ℕ) × In q (prices os) × (p ≤ q) × (demand os q ≡ demand os p))
unfolding demand prices
demand_attained [] p = inl refl
demand_attained (o ∷ os) p = elim (Bool-cases (buys_at p o)) [
  | inl counts ↦ elim (demand_attained os p) [
    | inl none_left ↦ inr (
      o.price,
      In-insert_price o.price o.price (prices os) (inl refl),
      ground arith,
      ground (arith, demand_antitone os p o.price (ground arith)),
    )
    | inr (q, m, le, e) ↦ elim (Bool-cases (leb o.price q)) [
      | inl lower ↦ inr (
        o.price,
        In-insert_price o.price o.price (prices os) (inl refl),
        ground arith,
        ground (
          arith,
          demand_antitone os p o.price (ground arith),
          demand_antitone os o.price q (ground arith),
        ),
      )
      | inr higher ↦ inr (q, In-insert_price o.price q (prices os) (inr m), le, ground arith)
    ]
  ]
  | inr skips ↦ elim (demand_attained os p) [
    | inl none_left ↦ inl (ground arith)
    | inr (q, m, le, e) ↦ inr (q, In-insert_price o.price q (prices os) (inr m), le, ground arith)
  ]
]

-- No uniform price whatever, an order's or not, trades more than `clear` does.
pub clear_volume_max :
    (os : List Order) (p : ℕ) → min (demand os p) (supply os p) ≤ (clear os).volume
unfolding clear settle
clear_volume_max os p = elim (demand_attained os p) [
  | inl z ↦ omega (arith, z)
  | inr (q, m, le, e) ↦ unfold matched in ground (arith, best-le os q m, supply_monotone os p q le)
]
