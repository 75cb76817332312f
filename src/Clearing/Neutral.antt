-- ===== src/Clearing/Neutral.antt =====
-- Orders that meet no opposing order do not bear on `clear` of offchain/clearing.py.
use jamswap.Prelude.{
  ℕ, suc, ◌≡◌, refl, sym, ◌∙◌, ◌≤◌, ◌<◌, inl, inr, Bool, true, false, List, [], ◌∷◌, arith, ltb,
  filter, All, In, Bool-cases, if◌then◌else◌,
}
use jamswap.Order.{Order, buy, sell}
use jamswap.Clearing.{
  prices, insert_price, buys_at, sells_at, sum_qty, demand, supply, matched, imbalance, Best,
  consider, scan, no_best, best, eligible_buys, eligible_sells, settle, clear,
}
use jamswap.Clearing.Optimal.{Ascending, prices-Ascending, best_sound}

-- The second list is the first less some orders that have a property.
pub data Thins (P : Order → Type 0) : List Order → List Order → Type 0 where
  done : Thins P [] []
  keep : (o : Order) {xs ys : List Order} → Thins P xs ys → Thins P (o ∷ xs) (o ∷ ys)
  leave : (o : Order) {xs ys : List Order} → P o → Thins P xs ys → Thins P (o ∷ xs) ys

-- An order that no opposing order of the list meets.
abbrev pub IsIdle : List Order → Order → Type 0
IsIdle os o =
    (s : Order)
    → In s os
    → (o.side ≡ buy → s.side ≡ sell → o.price < s.price)
      × (o.side ≡ sell → s.side ≡ buy → s.price < o.price)

filter-Thins :
    {P : Order → Type 0} (q : Order → Bool)
    → ((o : Order) → P o → q o ≡ false)
    → {xs ys : List Order} → Thins P xs ys
    → filter q xs ≡ filter q ys
filter-Thins q out done = refl
filter-Thins q out (keep o t) = ground (arith, filter-Thins q out t)
filter-Thins q out (leave o p t) = ground (arith, out o p, filter-Thins q out t)

sum_qty-Thins :
    {P : Order → Type 0} (q : Order → Bool) {xs ys : List Order}
    → Thins P xs ys
    → sum_qty (filter q ys) ≤ sum_qty (filter q xs)
sum_qty-Thins q done = omega arith
sum_qty-Thins q (keep o t) = ground (arith, sum_qty-Thins q t)
sum_qty-Thins q (leave o p t) = ground (arith, sum_qty-Thins q t)

-- A quantity that is not 0 has an order behind it.
some_order :
    (q : Order → Bool) (os : List Order)
    → 0 < sum_qty (filter q os)
    → (o : Order) × In o os × (q o ≡ true)
some_order q [] h = absurd (omega arith)
some_order q (o ∷ os) h = elim (Bool-cases (q o)) [
  | inl counts ↦ (o, inl refl, counts)
  | inr skips ↦ let (x, m, e) = some_order q os (rw skips at h) in (x, inr m, e)
]

consider_dead : (os : List Order) (p : ℕ) (b : Best) → matched os p ≡ 0 → consider os p b ≡ b
unfolding consider
consider_dead os p b z = ground arith

-- The candidates at which something trades.
abbrev live : List Order → ℕ → Bool
live os p = ltb 0 (matched os p)

scan_step :
    (os : List Order) (p : ℕ) (ps : List ℕ) (b : Best)
    → scan os (p ∷ ps) b ≡ scan os ps (consider os p b)
unfolding scan
scan_step os p ps b = refl

scan-live :
    (os : List Order) (ps : List ℕ) (b : Best) → scan os ps b ≡ scan os (filter (live os) ps) b
scan-live os [] b = refl
scan-live os (p ∷ ps) b = elim (Bool-cases (live os p)) [
  | inl on ↦ rw (on, scan_step, scan_step) (scan-live os ps (consider os p b))
  | inr off ↦ rw (off, scan_step, consider_dead os p b (ground arith)) (scan-live os ps b)
]

module _ (f : ℕ → Bool) where
  All-above : (p q : ℕ) (qs : List ℕ) → p < q → Ascending q qs → All (λ x. p < x) (filter f qs)
  All-above p q [] lt a = tt
  All-above p q (x ∷ xs) lt (le, a) = elim (Bool-cases (f x)) [
    | inl on ↦ rw on (omega arith, All-above p (suc x) xs (omega arith) a)
    | inr off ↦ rw off (All-above p (suc x) xs (omega arith) a)
  ]

  insert_below : (p : ℕ) (qs : List ℕ) → All (λ x. p < x) qs → insert_price p qs ≡ p ∷ qs
  unfolding insert_price
  insert_below p [] a = refl
  insert_below p (q ∷ qs) (lt, a) = ground arith

  filter-insert_price :
      (p lo : ℕ) (ps : List ℕ)
      → Ascending lo ps
      → filter f (insert_price p ps) ≡ (if f p then insert_price p (filter f ps) else filter f ps)
  unfolding insert_price
  filter-insert_price p lo [] a = ground arith
  filter-insert_price p lo (q ∷ qs) (le, a) = ground (
    arith,
    filter-insert_price p (suc q) qs a,
    λ (lt : p < q). insert_below p (filter f qs) (All-above p (suc q) qs (omega arith) a),
  )

module _ (os ys : List Order) (t : Thins (IsIdle os) os ys) where
  idle_buys : (p : ℕ) → 0 < supply os p → filter (buys_at p) os ≡ filter (buys_at p) ys
  unfolding supply
  idle_buys p h =
      let (s, m, e) = some_order (sells_at p) os h in
      filter-Thins (buys_at p) (λ o idle. ground (arith, idle s m)) t

  idle_sells : (p : ℕ) → 0 < demand os p → filter (sells_at p) os ≡ filter (sells_at p) ys
  unfolding demand
  idle_sells p h =
      let (s, m, e) = some_order (buys_at p) os h in
      filter-Thins (sells_at p) (λ o idle. ground (arith, idle s m)) t

  demand-le : (p : ℕ) → demand ys p ≤ demand os p
  unfolding demand
  demand-le p = sum_qty-Thins (buys_at p) t

  supply-le : (p : ℕ) → supply ys p ≤ supply os p
  unfolding supply
  supply-le p = sum_qty-Thins (sells_at p) t

  demand-eq : (p : ℕ) → 0 < supply os p → demand ys p ≡ demand os p
  unfolding demand
  demand-eq p h = rw (idle_buys p h)

  supply-eq : (p : ℕ) → 0 < demand os p → supply ys p ≡ supply os p
  unfolding supply
  supply-eq p h = rw (idle_sells p h)

  matched-eq : (p : ℕ) → matched ys p ≡ matched os p
  unfolding matched
  matched-eq p = grind (arith, demand-le p, supply-le p, demand-eq p, supply-eq p)

  imbalance-eq : (p : ℕ) → 0 < matched os p → imbalance ys p ≡ imbalance os p
  unfolding matched imbalance
  imbalance-eq p h = rw (demand-eq p (omega arith), supply-eq p (omega arith))

  consider-eq : (p : ℕ) (b : Best) → consider ys p b ≡ consider os p b
  unfolding consider
  consider-eq p b = ground (arith, matched-eq p, imbalance-eq p)

  scan-eq : (ps : List ℕ) (b : Best) → scan ys ps b ≡ scan os ps b
  scan-eq [] b = unfold scan in refl
  scan-eq (p ∷ ps) b = rw (scan_step, scan_step, consider-eq p b) (scan-eq ps (consider os p b))

-- An idle order's own price trades nothing.
idle_dead : (os : List Order) (o : Order) → IsIdle os o → matched os o.price ≡ 0
idle_dead os o idle = elim (Bool-cases (live os o.price)) [
  | inl on ↦
      let (b, mb, eb) = some_order (buys_at o.price) os (unfold matched demand in ground arith) in
      let (s, ms, es) = some_order (sells_at o.price) os (unfold matched supply in ground arith) in
      absurd (ground (arith, idle b mb, idle s ms))
  | inr off ↦ ground arith
]

-- The candidates that trade are the same with and without the idle orders.
prices-Thins :
    (os : List Order) {xs ys : List Order}
    → Thins (IsIdle os) xs ys
    → filter (live os) (prices xs) ≡ filter (live os) (prices ys)
unfolding prices
prices-Thins os done = refl
prices-Thins os (keep o {xs} {ys} t) =
    filter-insert_price (live os) o.price 0 (prices xs) (prices-Ascending xs)
    ∙ rw (prices-Thins os t)
        (sym (filter-insert_price (live os) o.price 0 (prices ys) (prices-Ascending ys)))
prices-Thins os (leave o {xs} idle t) =
    filter-insert_price (live os) o.price 0 (prices xs) (prices-Ascending xs)
    ∙ rw (idle_dead os o idle) (prices-Thins os t)

clear-settle : (os : List Order) → clear os ≡ settle os (best os).price (best os).volume
unfolding clear
clear-settle os = refl

settle_zero :
    (os : List Order) (p : ℕ) → settle os p 0 ≡ record { price = 0; volume = 0; fills = [] }
unfolding settle
settle_zero os p = refl

module _ (os ys : List Order) (t : Thins (IsIdle os) os ys) where
  best-Thins : best ys ≡ best os
  unfolding best
  best-Thins =
      scan-eq os ys t (prices ys) no_best
      ∙ scan-live os (prices ys) no_best
      ∙ rw (← prices-Thins os t) (sym (scan-live os (prices os) no_best))

  settle-Thins : (p : ℕ) → settle ys p (matched os p) ≡ settle os p (matched os p)
  unfolding settle
  settle-Thins p = elim (Bool-cases (live os p)) [
    | inl on ↦
        let db : 0 < demand os p = unfold matched in ground arith in
        let sb : 0 < supply os p = unfold matched in ground arith in
        unfold eligible_buys eligible_sells in rw (idle_buys os ys t p sb, idle_sells os ys t p db)
    | inr off ↦ ground arith
  ]

  -- Leaving out orders that no opposing order of the list meets changes nothing of the result: not
  -- the price, not the volume and not one fill.
  pub clear-Thins : clear ys ≡ clear os
  clear-Thins =
      clear-settle ys
      ∙ rw best-Thins (elim (best_sound os) [
        | inl z ↦ rw z (settle_zero ys _ ∙ sym (settle_zero os _))
        | inr e ↦ rw e (settle-Thins (best os).price)
      ])
      ∙ sym (clear-settle os)
