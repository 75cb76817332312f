-- ===== src/Settle/Assembled.antt =====
-- `_assemble_round` of offchain/server.py leaves no order of its batch behind.
use jamswap.Prelude.{
  ℕ, ◌+◌, ◌≡◌, refl, ap, inl, inr, Bool, true, not, ◌||◌, Option, List, [], ◌∷◌, ◌++◌, map, any,
  filter, arith, ◌==◌, Bool-cases, count, count-append, ltb,
}
use jamswap.Order.{Order}
use jamswap.Round.{has}
use jamswap.Server.{seq_sanitize, Reason}
use jamswap.Server.Seq.{order_of, seq_sanitize_partition}
use jamswap.Server.Pricing.{market_price, priced, price_market_orders}
use jamswap.Settle.Market.{Queued, OrderKey, okey, same_order, mem, Market}
use jamswap.Settle.Judge.{Settings}
use jamswap.Settle.Keys.{map-append, mem-append}
use jamswap.Settle.Build.{Inputs, Building, as_queued, check_public, keep_met, met}
use jamswap.Settle.Ends.{settled_at}

-- An order of a list is in the part that passes a test or in the part that does not.
mem-split :
    (k : OrderKey) (p : Queued → Bool) (os : List Queued)
    → mem k (map okey os)
      ≡ (mem k (map okey (filter p os)) || mem k (map okey (filter (λ o. not (p o)) os)))
mem-split k p [] = refl
mem-split k p (o ∷ os) = elim (Bool-cases (p o)) [
  | inl e ↦ rw e (ground (arith, mem-split k p os))
  | inr e ↦ rw e (ground (arith, mem-split k p os))
]

module _ (is_market : ℕ → Bool) (q : Order → Bool)
    (same : (o : Order) (p : ℕ) → q (record o { price = p }) ≡ q o) where
  count-priced : (lp : ℕ) (os : List Order) → count q (map (priced is_market lp) os) ≡ count q os
  count-priced lp [] = refl
  count-priced lp (o ∷ os) = elim (Bool-cases (is_market o.tag)) [
    | inl e ↦ rw e (ground (arith, same o (market_price o.side lp), count-priced lp os))
    | inr e ↦ rw e (ground (arith, count-priced lp os))
  ]

  count-both :
      (p : Order → Bool) (os : List Order)
      → count q (filter (λ o. not (p o)) os) + count q (filter p os) ≡ count q os
  count-both p [] = refl
  count-both p (o ∷ os) = elim (Bool-cases (p o)) [
    | inl e ↦ rw e (ground (arith, count-both p os))
    | inr e ↦ rw e (ground (arith, count-both p os))
  ]

  -- Pricing drops no order: each is kept or dead.
  count-price_market_orders :
      (lp : ℕ) (os : List Order)
      → let r = price_market_orders is_market lp os in count q r.0 + count q r.1 ≡ count q os
  unfolding price_market_orders
  count-price_market_orders lp os = elim (Bool-cases (any (λ o. is_market o.tag) os)) [
    | inl e ↦ rw e (elim (Bool-cases (lp == 0)) [
      | inl z ↦ rw z (count-both (λ o. is_market o.tag) os)
      | inr z ↦ rw z (ground (arith, count-priced lp os))
    ])
    | inr e ↦ rw e (omega arith)
  ]

module _ (k : OrderKey) (pend : List Queued) where
  abbrev has_key : Order → Bool
  has_key o = same_order k (okey (as_queued pend o))

  mem-as_queued :
      (os : List Order) → mem k (map okey (map (as_queued pend) os)) ≡ ltb 0 (count has_key os)
  mem-as_queued [] = refl
  mem-as_queued (o ∷ os) = elim (Bool-cases (has_key o)) [
    | inl e ↦ rw e (ground arith)
    | inr e ↦ rw e (ground (arith, mem-as_queued os))
  ]

  has_key-price : (o : Order) (p : ℕ) → has_key (record o { price = p }) ≡ has_key o
  unfolding okey
  has_key-price o p = refl

  orders-as_queued : (os : List Order) → map (λ o. o.order) (map (as_queued pend) os) ≡ os
  orders-as_queued [] = refl
  orders-as_queued (o ∷ os) = ap (λ l. o ∷ l) (orders-as_queued os)

  map-order_of : (ds : List (Order × Reason)) → map (λ d. d.0) ds ≡ map order_of ds
  map-order_of [] = refl
  map-order_of (d ∷ ds) = ap (λ l. d.0 ∷ l) (map-order_of ds)

module _ (new_tag : Queued → ℕ) (seal : Queued → Option ℕ) (submit : Queued → Bool) (c : Settings)
    (i : Inputs) (k : OrderKey) where
  -- Pricing and the sequence check end an order or keep it.
  pub mem-check_public :
      (lp : ℕ) (pend : List Queued) (os : List Order) (b : Building)
      → b.public ≡ map (as_queued pend) os
      → mem k (map okey b.public) ≡ true
      → let r = check_public new_tag seal submit c i lp pend b in
        (mem k (map okey r.public) || mem k (map okey r.dead)) ≡ true
  unfolding check_public
  mem-check_public lp pend os b e h =
      let q = has_key k pend in
      let p = price_market_orders i.is_market lp (map (λ o. o.order) b.public) in
      let r = seq_sanitize i.seq_floor p.0 in
      let gone = p.1 ++ map (λ d. d.0) r.dead in
      rw (mem-as_queued k pend r.kept) (
        rw (mem-as_queued k pend gone) (
          let n =
            count-price_market_orders i.is_market q (has_key-price k pend) lp
              (map (λ o. o.order) b.public) in
          let s = seq_sanitize_partition i.seq_floor q p.0 in
          let g = count-append q p.1 (map (λ d. d.0) r.dead) in
          let g' : count q (map (λ d. d.0) r.dead) ≡ count q (map order_of r.dead) =
            ap (count q) (map-order_of k pend r.dead) in
          let m : count q (map (λ o. o.order) b.public) ≡ count q os =
            rw e (ap (count q) (orders-as_queued k pend os)) in
          let a : ltb 0 (count q os) ≡ true = rw (← mem-as_queued k pend os) (rw (← e) h) in
          ground arith))

  -- A sealed order without a counterparty is queued again.
  pub mem-keep_met :
      (resting : List Order) (b : Building) (s : Market)
      → (mem k (map okey b.revealed) || (mem k (map okey b.public) || settled_at k s)) ≡ true
      → let r = keep_met new_tag seal submit c i resting (b, s) in
        (mem k (map okey r.0.revealed) || (mem k (map okey r.0.public) || settled_at k r.1)) ≡ true
  unfolding keep_met
  mem-keep_met resting b s h =
      let kept = map (λ (o : Order). o.tag) (met new_tag seal submit c i resting b) in
      let split = mem-split k (λ o. has kept o.order) b.revealed in
      let back = filter (λ o. not (has kept o.order)) b.revealed in
      rw (map-append okey back s.pending)
        (rw (mem-append k (map okey back) (map okey s.pending)) (ground arith))

  pub settled_at-keep_met :
      (resting : List Order) (b : Building) (s : Market)
      → settled_at k s ≡ true
      → settled_at k (keep_met new_tag seal submit c i resting (b, s)).1 ≡ true
  unfolding keep_met
  settled_at-keep_met resting b s h =
      let kept = map (λ (o : Order). o.tag) (met new_tag seal submit c i resting b) in
      let back = filter (λ o. not (has kept o.order)) b.revealed in
      rw (map-append okey back s.pending)
        (rw (mem-append k (map okey back) (map okey s.pending)) (ground arith))

  pub zombies-keep_met :
      (resting : List Order) (b : Building) (s : Market)
      → (keep_met new_tag seal submit c i resting (b, s)).1.zombies ≡ s.zombies
  unfolding keep_met
  zombies-keep_met resting b s = refl
