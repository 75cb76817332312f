-- ===== src/Clearing/Priority.antt =====
-- Price-time priority in offchain/clearing.py: each order's fill, as a formula.
use jamswap.Prelude.{
  ℕ, ◌+◌, ◌-◌, ◌≡◌, refl, ◌≢◌, inl, inr, Bool, true, ◌&&◌, List, [], ◌∷◌, arith, min, filter, All,
  All-In, In, In-filter, Bool-cases, ap, sym, ltb, ltb→lt, false, ◌∙◌,
}
use jamswap.Order.{Order}
use jamswap.Clearing.{
  buys_at, sells_at, sum_qty, buy_first, sell_first, sort_by, insert_by, Fills, fill_of, add_fill,
  ration, eligible_buys, eligible_sells, settle, clear,
}
use jamswap.Clearing.Ration.{fill_of-add_fill, sum_qty-sort_by, clear-fills}
use jamswap.Clearing.Sorting.{
  Distinct, ahead, outranks, IsOrdering, Separates, buy_first-Separates, sell_first-Separates,
  buy_first-IsOrdering, sell_first-IsOrdering, All-sort_by, sort_by-IsSorted, sort_by-Distinct,
  ahead-eq-outranks,
}

-- An id with no order on the side gets nothing from it.
fill_of-ration_absent :
    (k : ℕ) (os : List Order) (v : ℕ) (fs : Fills)
    → All (λ x. x.oid ≢ k) os
    → fill_of k (ration os v fs) ≡ fill_of k fs
unfolding ration
fill_of-ration_absent k [] v fs a = refl
fill_of-ration_absent k (o ∷ os) v fs (ne, a) = ground (
  arith,
  fill_of-add_fill k o.oid (min v o.qty) fs,
  fill_of-ration_absent k os (v - min v o.qty) (add_fill o.oid (min v o.qty) fs) a,
)

-- An order of the side gets what those before it leave, up to its quantity.
fill_of-ration :
    (o : Order) (os : List Order) (v : ℕ) (fs : Fills)
    → Distinct os
    → In o os
    → fill_of o.oid (ration os v fs) ≡ fill_of o.oid fs + min o.qty (v - ahead o.oid os)
unfolding ration
fill_of-ration o [] v fs d m = elim m [ ]
fill_of-ration o (x ∷ xs) v fs (ne, d) (inl e) = ground (
  arith,
  ap (λ (z : Order). z.oid) e,
  ap (λ (z : Order). z.qty) e,
  fill_of-add_fill o.oid x.oid (min v x.qty) fs,
  fill_of-ration_absent o.oid xs (v - min v x.qty) (add_fill x.oid (min v x.qty) fs) (rw e ne),
)
fill_of-ration o (x ∷ xs) v fs (ne, d) (inr m) = ground (
  arith,
  All-In (λ y. y.oid ≢ x.oid) o xs ne m,
  fill_of-add_fill o.oid x.oid (min v x.qty) fs,
  fill_of-ration o xs (v - min v x.qty) (add_fill x.oid (min v x.qty) fs) d m,
)

In-insert_by :
    (first : Order → Order → Bool) (o x : Order) (xs : List Order)
    → In o (x ∷ xs)
    → In o (insert_by first x xs)
unfolding insert_by
In-insert_by first o x [] m = m
In-insert_by first o x (y ∷ ys) m = elim (Bool-cases (first x y)) [
  | inl before ↦ rw before m
  | inr after ↦ rw after (elim m [
    | inl e ↦ inr (In-insert_by first o x ys (inl e))
    | inr (inl e) ↦ inl e
    | inr (inr k) ↦ inr (In-insert_by first o x ys (inr k))
  ])
]

pub In-sort_by :
    (first : Order → Order → Bool) (o : Order) (os : List Order) → In o os → In o (sort_by first os)
unfolding sort_by
In-sort_by first o [] m = m
In-sort_by first o (x ∷ xs) (inl e) = In-insert_by first o x (sort_by first xs) (inl e)
In-sort_by first o (x ∷ xs) (inr m) =
    In-insert_by first o x (sort_by first xs) (inr (In-sort_by first o xs m))

module _ (p : Order → Bool) where
  All-filter : (P : Order → Type 0) (os : List Order) → All P os → All P (filter p os)
  All-filter P [] a = tt
  All-filter P (x ∷ xs) (h, a) = elim (Bool-cases (p x)) [
    | inl kept ↦ rw kept (h, All-filter P xs a)
    | inr dropped ↦ rw dropped (All-filter P xs a)
  ]

  Distinct-filter : (os : List Order) → Distinct os → Distinct (filter p os)
  Distinct-filter [] d = tt
  Distinct-filter (x ∷ xs) (a, d) = elim (Bool-cases (p x)) [
    | inl kept ↦ rw kept (All-filter (λ y. y.oid ≢ x.oid) xs a, Distinct-filter xs d)
    | inr dropped ↦ rw dropped (Distinct-filter xs d)
  ]

  -- An order that the test drops leaves no trace of its id behind.
  absent-filter :
      (o : Order) (os : List Order)
      → Distinct os
      → In o os
      → p o ≡ false
      → All (λ x. x.oid ≢ o.oid) (filter p os)
  absent-filter o [] d m h = tt
  absent-filter o (x ∷ xs) (ne, d) (inl e) h =
      let g : p x ≡ false = rw (← e) h in rw g (All-filter (λ y. y.oid ≢ o.oid) xs (rw e ne))
  absent-filter o (x ∷ xs) (ne, d) (inr m) h = elim (Bool-cases (p x)) [
    | inl kept ↦
        let other = All-In (λ y. y.oid ≢ x.oid) o xs ne m in
        rw kept (λ k. other (sym k), absent-filter o xs d m h)
    | inr dropped ↦ rw dropped (absent-filter o xs d m h)
  ]

  sum_qty-filter-filter :
      (q : Order → Bool) (os : List Order)
      → sum_qty (filter q (filter p os)) ≡ sum_qty (filter (λ x. p x && q x) os)
  sum_qty-filter-filter q [] = refl
  sum_qty-filter-filter q (x ∷ xs) = ground (arith, sum_qty-filter-filter q xs)

  -- A side: the orders that a test selects, in the order of a sort key.
  module _ (first : Order → Order → Bool) (order : IsOrdering first)
      (separate : Separates first) where
    fill_of-side :
        (o : Order) (os : List Order) (v : ℕ) (fs : Fills)
        → Distinct os
        → In o os
        → p o ≡ true
        → fill_of o.oid (ration (sort_by first (filter p os)) v fs)
          ≡ fill_of o.oid fs + min o.qty (v - sum_qty (filter (λ x. p x && outranks first o x) os))
    fill_of-side o os v fs d m h =
        let side = sort_by first (filter p os) in
        let d' = sort_by-Distinct first order (filter p os) (Distinct-filter os d) in
        let m' = In-sort_by first o (filter p os) (In-filter p o os m h) in
        let stands =
          ahead-eq-outranks first order separate o side (sort_by-IsSorted first order (filter p os))
            d' m' in
        let total = sum_qty-sort_by first (outranks first o) (filter p os) in
        let split = sum_qty-filter-filter (outranks first o) os in
        omega (arith, fill_of-ration o side v fs d' m', stands, total, split)

module _ (os : List Order) (o : Order) (distinct : Distinct os) (member : In o os) where
  -- What is ahead of a buy at a price: the eligible buys with a higher limit, or with the same
  -- limit and a smaller id.
  abbrev pub buys_ahead : ℕ → ℕ
  buys_ahead p = sum_qty (filter (λ x. buys_at p x && outranks buy_first o x) os)

  -- What is ahead of a sell: the eligible sells with a lower limit, or the same and a smaller id.
  abbrev pub sells_ahead : ℕ → ℕ
  sells_ahead p = sum_qty (filter (λ x. sells_at p x && outranks sell_first o x) os)

  idle_fill :
      (n v : ℕ)
      → (clear os).volume ≡ 0
      → fill_of o.oid (clear os).fills ≡ min n ((clear os).volume - v)
  unfolding clear settle
  idle_fill n v z = ground arith

  -- Where order ids are distinct, a buy that the clearing price meets is filled with what the
  -- buys ahead of it leave of the round's volume, up to its quantity.
  pub clear_buy_priority :
      buys_at (clear os).price o ≡ true
      → fill_of o.oid (clear os).fills ≡ min o.qty ((clear os).volume - buys_ahead (clear os).price)
  clear_buy_priority h = elim (Bool-cases (ltb 0 (clear os).volume)) [
    | inl trades ↦
        let c = clear os in
        let bought = ration (eligible_buys os c.price) c.volume [] in
        let none_sold = fill_of-ration_absent o.oid (eligible_sells os c.price) c.volume bought (
          unfold eligible_sells in
          All-sort_by sell_first sell_first-IsOrdering (λ x. x.oid ≢ o.oid)
            (filter (sells_at c.price) os)
            (absent-filter (sells_at c.price) o os distinct member (ground arith))) in
        let side =
          fill_of-side (buys_at c.price) buy_first buy_first-IsOrdering buy_first-Separates o os
            c.volume [] distinct member h in
        rw (clear-fills os (ltb→lt 0 c.volume trades))
          (none_sold ∙ unfold eligible_buys in side ∙ omega arith)
    | inr idle ↦ idle_fill o.qty (buys_ahead (clear os).price) (ground arith)
  ]

  -- Where order ids are distinct, a sell that the clearing price meets is filled with what the
  -- sells ahead of it leave of the round's volume, up to its quantity.
  pub clear_sell_priority :
      sells_at (clear os).price o ≡ true
      → fill_of o.oid (clear os).fills
        ≡ min o.qty ((clear os).volume - sells_ahead (clear os).price)
  clear_sell_priority h = elim (Bool-cases (ltb 0 (clear os).volume)) [
    | inl trades ↦
        let c = clear os in
        let bought = ration (eligible_buys os c.price) c.volume [] in
        let none_bought = fill_of-ration_absent o.oid (eligible_buys os c.price) c.volume [] (
          unfold eligible_buys in
          All-sort_by buy_first buy_first-IsOrdering (λ x. x.oid ≢ o.oid)
            (filter (buys_at c.price) os)
            (absent-filter (buys_at c.price) o os distinct member (ground arith))) in
        let side =
          fill_of-side (sells_at c.price) sell_first sell_first-IsOrdering sell_first-Separates o os
            c.volume bought distinct member h in
        rw (clear-fills os (ltb→lt 0 c.volume trades))
          (unfold eligible_sells in omega (arith, side, none_bought))
    | inr idle ↦ idle_fill o.qty (sells_ahead (clear os).price) (ground arith)
  ]
