-- ===== src/Round/Reveal.antt =====
-- What `plan_round` of offchain/round.py reveals and what it carries, against the liquidity.
use jamswap.Prelude.{
  ℕ, ◌≡◌, refl, sym, ap, ◌≤◌, ◌⊎◌, inl, inr, Bool, true, false, some, List, [], ◌∷◌, ◌++◌, map,
  arith, leb, filter, In, In-filter, In-filter_inv, In-append, In-append_left, In-append_right,
  Bool-cases, Option-cases, if◌then◌else◌,
}
use mathlib.Core.Path.{subst}
use jamswap.Order.{Order, buy, sell, Side-cases}
use jamswap.Clearing.{clear}
use jamswap.Clearing.Neutral.{Thins, done, keep, leave, IsIdle, clear-Thins}
use jamswap.Round.{
  RoundPlan, min_price, max_price, price_of, selling, buying, best_opposing, crosses, is_public,
  liquidity, plan_round,
}
use jamswap.Round.Partition.{ready, reveal-plan_round, public-plan_round}

min_price-le : (ps : List ℕ) (p : ℕ) → In p ps → (q : ℕ) × (min_price ps ≡ some q) × (q ≤ p)
unfolding min_price
min_price-le [] p m = elim m [ ]
min_price-le (x ∷ xs) p (inl e) = elim (Option-cases (min_price xs)) [
  | inl gone ↦ (x, rw gone, omega arith)
  | inr (q, h) ↦ (if leb x q then x else q, rw h, ground arith)
]
min_price-le (x ∷ xs) p (inr m) =
    let (q, h, le) = min_price-le xs p m in (if leb x q then x else q, rw h, ground arith)

max_price-le : (ps : List ℕ) (p : ℕ) → In p ps → (q : ℕ) × (max_price ps ≡ some q) × (p ≤ q)
unfolding max_price
max_price-le [] p m = elim m [ ]
max_price-le (x ∷ xs) p (inl e) = elim (Option-cases (max_price xs)) [
  | inl gone ↦ (x, rw gone, omega arith)
  | inr (q, h) ↦ (if leb q x then x else q, rw h, ground arith)
]
max_price-le (x ∷ xs) p (inr m) =
    let (q, h, le) = max_price-le xs p m in (if leb q x then x else q, rw h, ground arith)

In-min_price : (ps : List ℕ) (q : ℕ) → min_price ps ≡ some q → In q ps
unfolding min_price
In-min_price [] q h = cc
In-min_price (x ∷ xs) q h = elim (Option-cases (min_price xs)) [
  | inl gone ↦ inl (ground arith)
  | inr (r, e) ↦ elim (Bool-cases (leb x r)) [
    | inl lower ↦ inl (ground arith)
    | inr higher ↦ inr (In-min_price xs q (ground arith))
  ]
]

In-max_price : (ps : List ℕ) (q : ℕ) → max_price ps ≡ some q → In q ps
unfolding max_price
In-max_price [] q h = cc
In-max_price (x ∷ xs) q h = elim (Option-cases (max_price xs)) [
  | inl gone ↦ inl (ground arith)
  | inr (r, e) ↦ elim (Bool-cases (leb r x)) [
    | inl higher ↦ inl (ground arith)
    | inr lower ↦ inr (In-max_price xs q (ground arith))
  ]
]

In-map_price :
    (p : ℕ) (os : List Order) → In p (map price_of os) → (o : Order) × In o os × (o.price ≡ p)
In-map_price p [] m = elim m [ ]
In-map_price p (o ∷ os) (inl e) = (o, inl refl, sym e)
In-map_price p (o ∷ os) (inr m) = let (x, k, e) = In-map_price p os m in (x, inr k, e)

map_price-In : (o : Order) (os : List Order) → In o os → In o.price (map price_of os)
map_price-In o [] m = elim m [ ]
map_price-In o (x ∷ xs) (inl e) = inl (ap price_of e)
map_price-In o (x ∷ xs) (inr m) = inr (map_price-In o xs m)

-- Two orders on opposite sides whose limits meet.
abbrev pub Meets : Order → Order → Type 0
Meets o c =
    ((o.side ≡ buy) × (c.side ≡ sell) × (c.price ≤ o.price))
    ⊎ ((o.side ≡ sell) × (c.side ≡ buy) × (o.price ≤ c.price))

-- An order crosses the best opposing prices exactly when it meets some order of the liquidity.
module _ (os : List Order) (o : Order) where
  seller_at :
      (q : ℕ)
      → min_price (map price_of (filter selling os)) ≡ some q
      → (c : Order) × In c os × (c.side ≡ sell) × (c.price ≡ q)
  seller_at q e =
      let (c, m, p) = In-map_price q (filter selling os) (In-min_price _ q e) in
      let (k, s) = In-filter_inv selling c os m in (c, k, ground arith, p)

  buyer_at :
      (q : ℕ)
      → max_price (map price_of (filter buying os)) ≡ some q
      → (c : Order) × In c os × (c.side ≡ buy) × (c.price ≡ q)
  buyer_at q e =
      let (c, m, p) = In-map_price q (filter buying os) (In-max_price _ q e) in
      let (k, s) = In-filter_inv buying c os m in (c, k, ground arith, p)

  pub crosses-Meets :
      crosses o (best_opposing os).0 (best_opposing os).1 ≡ true → (c : Order) × In c os × Meets o c
  unfolding crosses best_opposing
  crosses-Meets h = elim (Side-cases o.side) [
    | inl buys ↦ elim (Option-cases (min_price (map price_of (filter selling os)))) [
      | inl gone ↦ absurd (ground arith)
      | inr (q, e) ↦ let (c, m, s, p) = seller_at q e in (c, m, inl (buys, s, ground arith))
    ]
    | inr sells ↦ elim (Option-cases (max_price (map price_of (filter buying os)))) [
      | inl gone ↦ absurd (ground arith)
      | inr (q, e) ↦ let (c, m, s, p) = buyer_at q e in (c, m, inr (sells, s, ground arith))
    ]
  ]

  pub Meets-crosses :
      (c : Order) → In c os → Meets o c → crosses o (best_opposing os).0 (best_opposing os).1 ≡ true
  unfolding crosses best_opposing
  Meets-crosses c m (inl (buys, sells, le)) =
      let k = map_price-In c (filter selling os) (In-filter selling c os m (ground arith)) in
      let (q, e, lq) = min_price-le (map price_of (filter selling os)) c.price k in ground arith
  Meets-crosses c m (inr (sells, buys, le)) =
      let k = map_price-In c (filter buying os) (In-filter buying c os m (ground arith)) in
      let (q, e, lq) = max_price-le (map price_of (filter buying os)) c.price k in ground arith

Meets-sym : (o c : Order) → Meets o c → Meets c o
Meets-sym o c h = ground arith

module _ (pending resting : List Order) (now : ℕ) (sealed_ready : Order → Bool) where
  abbrev plan : RoundPlan
  plan = plan_round pending resting now sealed_ready

  abbrev everything : List Order
  everything = liquidity pending resting sealed_ready

  abbrev set_ready : List Order
  set_ready = ready pending resting now sealed_ready

  abbrev takes : Order → Bool
  takes o = crosses o (best_opposing everything).0 (best_opposing everything).1

  -- What the builder submits: the book, the public orders and the revealed ones.
  abbrev pub submitted : List Order
  submitted = resting ++ (plan.public ++ plan.reveal)

  reveal-takes : plan.reveal ≡ filter takes set_ready
  reveal-takes = reveal-plan_round pending resting now sealed_ready

  submitted-takes : submitted ≡ resting ++ (filter is_public pending ++ filter takes set_ready)
  submitted-takes = rw (reveal-takes, public-plan_round pending resting now sealed_ready)

  In-submitted : (c : Order) → In c everything → takes c ≡ true → In c submitted
  unfolding liquidity
  In-submitted c m t = rw submitted-takes (elim (In-append c resting _ m) [
    | inl book ↦ In-append_left c resting _ book
    | inr queue ↦
        In-append_right c resting _ (elim (In-append c (filter is_public pending) _ queue) [
          | inl open_order ↦ In-append_left c (filter is_public pending) _ open_order
          | inr waits ↦
              In-append_right c (filter is_public pending) _ (In-filter takes c set_ready waits t)
        ])
  ])

  In-everything : (o : Order) → In o set_ready → In o everything
  unfolding liquidity
  In-everything o m = In-append_right o resting _ (In-append_right o (filter is_public pending) _ m)

  -- Every revealed order meets an order, on the other side and at a price that both accept, which
  -- is itself in the submitted batch: no order is revealed alone.
  pub revealed_not_alone : (o : Order) → In o plan.reveal → (c : Order) × In c submitted × Meets o c
  revealed_not_alone o m =
      let (k, crossed) = In-filter_inv takes o set_ready (subst (In o) reveal-takes m) in
      let (c, found, meets) = crosses-Meets everything o crossed in
      let crossed_too = Meets-crosses everything c o (In-everything o k) (Meets-sym o c meets) in
      (c, In-submitted c found crossed_too, meets)

  -- An order that does not cross is met by no order of the liquidity.
  not_taken-IsIdle : (o : Order) → takes o ≡ false → IsIdle everything o
  not_taken-IsIdle o h s m = (
    (λ b k.
        ground
          (arith, λ (le : s.price ≤ o.price). Meets-crosses everything o s m (inl (b, k, le)))),
    (λ b k.
        ground
          (arith, λ (le : o.price ≤ s.price). Meets-crosses everything o s m (inr (b, k, le)))),
  )

  Thins-filter : (xs : List Order) → Thins (IsIdle everything) xs (filter takes xs)
  Thins-filter [] = done
  Thins-filter (x ∷ xs) = elim (Bool-cases (takes x)) [
    | inl taken ↦ rw taken (keep x (Thins-filter xs))
    | inr left ↦ rw left (leave x (not_taken-IsIdle x left) (Thins-filter xs))
  ]

  Thins-append :
      (xs : List Order) {ys zs : List Order}
      → Thins (IsIdle everything) ys zs
      → Thins (IsIdle everything) (xs ++ ys) (xs ++ zs)
  Thins-append [] t = t
  Thins-append (x ∷ xs) t = keep x (Thins-append xs t)

  -- The ready orders that the plan holds back change nothing of the auction: the submitted batch clears
  -- exactly as the whole liquidity would, at the same price, with the same volume and fills.
  pub carry_clearing_neutral : clear submitted ≡ clear everything
  carry_clearing_neutral = clear-Thins everything submitted (
      rw submitted-takes (
        unfold liquidity in
        Thins-append resting (Thins-append (filter is_public pending) (Thins-filter set_ready))))
