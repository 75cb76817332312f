-- ===== src/Clearing/Ration.antt =====
-- What `ration` and `clear` of offchain/clearing.py hand out in all, and to each order id.
use jamswap.Prelude.{
  ℕ, ◌+◌, ◌-◌, ◌≡◌, refl, ◌≤◌, ◌<◌, inl, inr, Bool, true, ◌&&◌, ◌||◌, List, [], ◌∷◌, arith, min,
  ltb, ◌==◌, if◌then◌else◌, filter, Bool-cases, ltb→lt,
}
use jamswap.Order.{Order}
use jamswap.Clearing.{
  buys_at, sells_at, buy_first, sell_first, sum_qty, demand, supply, matched, insert_by, sort_by,
  Fills, fill_of, add_fill, ration, eligible_buys, eligible_sells, settle, clear,
}
use jamswap.Clearing.Optimal.{clear_chosen}

abbrev pub sum_fills : Fills → ℕ
sum_fills [] = 0
sum_fills ((j, f) ∷ fs) = f + sum_fills fs

sum_fills-add_fill : (k f : ℕ) (fs : Fills) → sum_fills (add_fill k f fs) ≡ sum_fills fs + f
unfolding add_fill
sum_fills-add_fill k f [] = omega arith
sum_fills-add_fill k f ((j, g) ∷ fs) = ground (arith, sum_fills-add_fill k f fs)

pub fill_of-add_fill :
    (j k f : ℕ) (fs : Fills)
    → fill_of j (add_fill k f fs) ≡ (if j == k then fill_of j fs + f else fill_of j fs)
unfolding add_fill
fill_of-add_fill j k f [] = ground arith
fill_of-add_fill j k f ((i, g) ∷ fs) = ground (arith, fill_of-add_fill j k f fs)

-- A side hands out the volume, or all that it has.
sum_fills-ration :
    (os : List Order) (v : ℕ) (fs : Fills)
    → sum_fills (ration os v fs) ≡ sum_fills fs + min v (sum_qty os)
unfolding ration
sum_fills-ration [] v fs = omega arith
sum_fills-ration (o ∷ os) v fs = ground (
  arith,
  sum_fills-add_fill o.oid (min v o.qty) fs,
  sum_fills-ration os (v - min v o.qty) (add_fill o.oid (min v o.qty) fs),
)

-- An order id gets no more than its orders on the side ask for.
fill_of-ration-le :
    (k : ℕ) (os : List Order) (v : ℕ) (fs : Fills)
    → fill_of k (ration os v fs) ≤ fill_of k fs + sum_qty (filter (λ o. k == o.oid) os)
unfolding ration
fill_of-ration-le k [] v fs = omega arith
fill_of-ration-le k (o ∷ os) v fs = ground (
  arith,
  fill_of-add_fill k o.oid (min v o.qty) fs,
  fill_of-ration-le k os (v - min v o.qty) (add_fill o.oid (min v o.qty) fs),
)

module _ (first : Order → Order → Bool) (p : Order → Bool) where
  sum_qty-insert_by :
      (o : Order) (os : List Order)
      → sum_qty (filter p (insert_by first o os)) ≡ sum_qty (filter p (o ∷ os))
  unfolding insert_by
  sum_qty-insert_by o [] = refl
  sum_qty-insert_by o (x ∷ xs) = ground (arith, sum_qty-insert_by o xs)

  -- Sorting keeps the total of every selection.
  pub sum_qty-sort_by :
      (os : List Order) → sum_qty (filter p (sort_by first os)) ≡ sum_qty (filter p os)
  unfolding sort_by
  sum_qty-sort_by [] = refl
  sum_qty-sort_by (o ∷ os) =
      ground (arith, sum_qty-insert_by o (sort_by first os), sum_qty-sort_by os)

sum_qty-filter-true : (os : List Order) → sum_qty (filter (λ _. true) os) ≡ sum_qty os
sum_qty-filter-true [] = refl
sum_qty-filter-true (o ∷ os) = omega (arith, sum_qty-filter-true os)

pub sum_qty-sort :
    (first : Order → Order → Bool) (os : List Order) → sum_qty (sort_by first os) ≡ sum_qty os
sum_qty-sort first os = omega (
  arith,
  sum_qty-filter-true (sort_by first os),
  sum_qty-filter-true os,
  sum_qty-sort_by first (λ _. true) os,
)

module _ (os : List Order) where
  -- The volume is covered by each side's eligible orders.
  clear_covered :
      0 < (clear os).volume
      → ((clear os).volume ≤ demand os (clear os).price)
        × ((clear os).volume ≤ supply os (clear os).price)
  clear_covered h = let (_, _, em) = clear_chosen os h in rw em (unfold matched in omega arith)

  pub clear-fills :
      0 < (clear os).volume
      → (clear os).fills
        ≡ ration
            (eligible_sells os (clear os).price)
            (clear os).volume
            (ration (eligible_buys os (clear os).price) (clear os).volume [])
  unfolding clear settle
  clear-fills h = ground arith

  sum_qty-eligible_buys : (p : ℕ) → sum_qty (eligible_buys os p) ≡ demand os p
  unfolding eligible_buys demand
  sum_qty-eligible_buys p = sum_qty-sort _ _

  sum_qty-eligible_sells : (p : ℕ) → sum_qty (eligible_sells os p) ≡ supply os p
  unfolding eligible_sells supply
  sum_qty-eligible_sells p = sum_qty-sort _ _

  -- A round that trades hands exactly its volume to the eligible buys and exactly its volume to
  -- the eligible sells: the fills that it records add up to the volume once for each side.
  pub clear_conserves :
      0 < (clear os).volume
      → let c = clear os in
        (sum_fills (ration (eligible_buys os c.price) c.volume []) ≡ c.volume)
        × (sum_fills c.fills ≡ c.volume + c.volume)
  clear_conserves h =
      let c = clear os in
      let bought = sum_fills-ration (eligible_buys os c.price) c.volume [] in
      let sold =
        sum_fills-ration (eligible_sells os c.price) c.volume
          (ration (eligible_buys os c.price) c.volume []) in
      let (cd, cs) = clear_covered h in
      let eb = sum_qty-eligible_buys c.price in
      let es = sum_qty-eligible_sells c.price in (omega arith, rw (clear-fills h) (omega arith))

  -- The orders of one id that may trade at a price.
  abbrev pub may_trade : ℕ → ℕ → Order → Bool
  may_trade p k o = (buys_at p o || sells_at p o) && k == o.oid

  sum_qty-may_trade :
      (p k : ℕ) (xs : List Order)
      → sum_qty (filter (λ o. k == o.oid) (filter (buys_at p) xs))
          + sum_qty (filter (λ o. k == o.oid) (filter (sells_at p) xs))
        ≡ sum_qty (filter (may_trade p k) xs)
  sum_qty-may_trade p k [] = refl
  sum_qty-may_trade p k (o ∷ xs) = ground (arith, sum_qty-may_trade p k xs)

  -- No order id is filled beyond what its own orders ask for at the clearing price: an order whose
  -- limit the price does not meet gets nothing, and no order gets more than its quantity.
  pub clear_fill_bound :
      (k : ℕ) → fill_of k (clear os).fills ≤ sum_qty (filter (may_trade (clear os).price k) os)
  clear_fill_bound k = elim (Bool-cases (ltb 0 (clear os).volume)) [
    | inl trades ↦
        let c = clear os in
        let buys = eligible_buys os c.price in
        let lb = fill_of-ration-le k buys c.volume [] in
        let ls =
          fill_of-ration-le k (eligible_sells os c.price) c.volume (ration buys c.volume []) in
        let qb = sum_qty-sort_by buy_first (λ o. k == o.oid) (filter (buys_at c.price) os) in
        let qs = sum_qty-sort_by sell_first (λ o. k == o.oid) (filter (sells_at c.price) os) in
        let all = sum_qty-may_trade c.price k os in
        rw (clear-fills (ltb→lt 0 c.volume trades))
          (unfold eligible_buys eligible_sells in omega arith)
    | inr idle ↦ unfold clear settle in ground arith
  ]
