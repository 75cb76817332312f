-- ===== src/Clearing/Sorting.antt =====
-- The sorted sides of offchain/clearing.py: what `sorted` does under a total order, and what stands
-- ahead of an order.
use jamswap.Prelude.{
  ℕ, ◌+◌, ◌≡◌, refl, ◌≢◌, inl, inr, Bool, true, false, not, ◌&&◌, List, [], ◌∷◌, arith, ◌==◌,
  filter, All, All-In, In, if◌then◌else◌, Bool-cases, sym, ap,
}
use jamswap.Order.{Order}
use jamswap.Clearing.{sum_qty, insert_by, sort_by, buy_first, sell_first}

-- No two orders share an id.
abbrev pub Distinct : List Order → Type 0
Distinct [] = Unit
Distinct (o ∷ os) = All (λ x. x.oid ≢ o.oid) os × Distinct os

-- The quantity that stands before the order with id `k`.
abbrev pub ahead : ℕ → List Order → ℕ
ahead k [] = 0
ahead k (x ∷ xs) = if k == x.oid then 0 else x.qty + ahead k xs

-- What a sort key has to be.
pub record IsOrdering (first : Order → Order → Bool) : Type 0 where
  pub trans : (a b c : Order) → first a b ≡ true → first b c ≡ true → first a c ≡ true
  pub total : (a b : Order) → first a b ≡ false → first b a ≡ true

-- Orders that go before each other share their id.
abbrev pub Separates : (Order → Order → Bool) → Type 0
Separates first = (a b : Order) → first a b ≡ true → first b a ≡ true → a.oid ≡ b.oid

pub buy_first-Separates : Separates buy_first
buy_first-Separates a b h k = ground arith

pub sell_first-Separates : Separates sell_first
sell_first-Separates a b h k = ground arith

pub buy_first-IsOrdering : IsOrdering buy_first
buy_first-IsOrdering = record { trans = λ a b c h k. ground arith; total = λ a b h. ground arith }

pub sell_first-IsOrdering : IsOrdering sell_first
sell_first-IsOrdering = record { trans = λ a b c h k. ground arith; total = λ a b h. ground arith }

-- Does `x` go strictly before `o`?
abbrev pub outranks : (Order → Order → Bool) → Order → Order → Bool
outranks first o x = first x o && not (o.oid == x.oid)

module _ (first : Order → Order → Bool) (order : IsOrdering first) where
  abbrev pub IsSorted : List Order → Type 0
  IsSorted [] = Unit
  IsSorted (x ∷ xs) = All (λ y. first x y ≡ true) xs × IsSorted xs

  All-first_trans :
      (x y : Order) (ys : List Order)
      → first x y ≡ true
      → All (λ z. first y z ≡ true) ys
      → All (λ z. first x z ≡ true) ys
  All-first_trans x y [] h a = tt
  All-first_trans x y (z ∷ zs) h (b, bs) = (order.trans x y z h b, All-first_trans x y zs h bs)

  All-insert_by :
      (P : Order → Type 0) (o : Order) (xs : List Order)
      → P o
      → All P xs
      → All P (insert_by first o xs)
  unfolding insert_by
  All-insert_by P o [] po h = (po, tt)
  All-insert_by P o (x ∷ xs) po (px, h) =
      elim (first o x) as (λ b. All P (if b then o ∷ x ∷ xs else x ∷ insert_by first o xs)) [
        | true ↦ (po, (px, h))
        | false ↦ (px, All-insert_by P o xs po h)
      ]

  insert_by-IsSorted : (o : Order) (xs : List Order) → IsSorted xs → IsSorted (insert_by first o xs)
  unfolding insert_by
  insert_by-IsSorted o [] h = (tt, tt)
  insert_by-IsSorted o (x ∷ xs) (a, h) = elim (Bool-cases (first o x)) [
    | inl before ↦ rw before ((before, All-first_trans o x xs before a), (a, h))
    | inr after ↦ rw after (
      All-insert_by (λ y. first x y ≡ true) o xs (order.total o x after) a,
      insert_by-IsSorted o xs h,
    )
  ]

  pub sort_by-IsSorted : (os : List Order) → IsSorted (sort_by first os)
  unfolding sort_by
  sort_by-IsSorted [] = tt
  sort_by-IsSorted (o ∷ os) = insert_by-IsSorted o (sort_by first os) (sort_by-IsSorted os)

  pub All-sort_by : (P : Order → Type 0) (os : List Order) → All P os → All P (sort_by first os)
  unfolding sort_by
  All-sort_by P [] h = tt
  All-sort_by P (o ∷ os) (p, h) = All-insert_by P o (sort_by first os) p (All-sort_by P os h)

  insert_by-Distinct :
      (o : Order) (xs : List Order)
      → All (λ x. x.oid ≢ o.oid) xs
      → Distinct xs
      → Distinct (insert_by first o xs)
  unfolding insert_by
  insert_by-Distinct o [] a d = (tt, tt)
  insert_by-Distinct o (x ∷ xs) (ne, a) (b, d) = elim (Bool-cases (first o x)) [
    | inl before ↦ rw before ((ne, a), (b, d))
    | inr after ↦
        rw after
          (All-insert_by (λ y. y.oid ≢ x.oid) o xs (λ e. ne (sym e)) b, insert_by-Distinct o xs a d)
  ]

  pub sort_by-Distinct : (os : List Order) → Distinct os → Distinct (sort_by first os)
  unfolding sort_by
  sort_by-Distinct [] d = tt
  sort_by-Distinct (o ∷ os) (a, d) =
      insert_by-Distinct o (sort_by first os) (All-sort_by (λ x. x.oid ≢ o.oid) os a)
        (sort_by-Distinct os d)

module _ (first : Order → Order → Bool) (order : IsOrdering first)
    (separate : Separates first) where
  outranks_none :
      (o : Order) (xs : List Order)
      → All (λ y. first o y ≡ true) xs
      → sum_qty (filter (outranks first o) xs) ≡ 0
  outranks_none o [] a = refl
  outranks_none o (x ∷ xs) (h, a) = ground (arith, separate o x h, outranks_none o xs a)

  -- In a sorted side, what stands ahead of an order is what outranks it.
  pub ahead-eq-outranks :
      (o : Order) (xs : List Order)
      → IsSorted first order xs
      → Distinct xs
      → In o xs
      → ahead o.oid xs ≡ sum_qty (filter (outranks first o) xs)
  ahead-eq-outranks o [] s d m = elim m [ ]
  ahead-eq-outranks o (x ∷ xs) (a, s) (ne, d) (inl e) =
      ground (arith, ap (λ (z : Order). z.oid) e, outranks_none o xs (rw e a))
  ahead-eq-outranks o (x ∷ xs) (a, s) (ne, d) (inr m) =
      ground (arith, All-In _ o xs ne m, All-In _ o xs a m, ahead-eq-outranks o xs s d m)
