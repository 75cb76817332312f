-- ===== src/Server/Dealt.antt =====
-- The queue as `_cap_batch` of offchain/server.py deals it again: each account's public orders, oldest
-- first.
use jamswap.Prelude.{
  ℕ, zero, suc, ◌≡◌, refl, sym, ap, ◌∙◌, inl, inr, ◌<◌, ◌+◌, Bool, true, false, not, ◌&&◌, List, [],
  ◌∷◌, ◌++◌, arith, length, drop, filter, count_all, In, In-filter_inv, ◌==◌, if◌then◌else◌,
  Bool-cases,
}
use jamswap.Order.{Order}
use jamswap.Clearing.{sort_by}
use jamswap.Clearing.Sorting.{IsOrdering, IsSorted, sort_by-IsSorted}
use jamswap.Server.{public_of, seq_first, nth, redeal_from, redeal}
use jamswap.Server.Seq.{count-sort_by}
use jamswap.Server.Cap.{nth-In, In-sort_by_inv}

pub seq_first-IsOrdering : IsOrdering seq_first
seq_first-IsOrdering = record { trans = λ a b c h k. ground arith; total = λ a b h. ground arith }

drop_all : (n : ℕ) (xs : List Order) → n ≡ length xs → drop n xs ≡ []
drop_all zero [] h = refl
drop_all zero (x ∷ xs) h = absurd (omega arith)
drop_all (suc n) [] h = refl
drop_all (suc n) (x ∷ xs) h = drop_all n xs (omega arith)

drop-nth :
    (n : ℕ) (xs : List Order) (o : Order) → n < length xs → drop n xs ≡ nth n xs o ∷ drop (suc n) xs
drop-nth n [] o h = absurd (omega arith)
drop-nth zero (x ∷ xs) o h = refl
drop-nth (suc n) (x ∷ xs) o h = drop-nth n xs o (omega arith)

nth-In_short : (n : ℕ) (xs : List Order) (o : Order) → n < length xs → In (nth n xs o) xs
nth-In_short n [] o h = absurd (omega arith)
nth-In_short zero (x ∷ xs) o h = inl refl
nth-In_short (suc n) (x ∷ xs) o h = inr (nth-In_short n xs o (omega arith))

pub length-sort_by :
    (first : Order → Order → Bool) (os : List Order) → length (sort_by first os) ≡ length os
length-sort_by first os =
    omega (arith, count_all (sort_by first os), count_all os, count-sort_by (λ _. true) first os)

abbrev pub is_of : ℕ → Order → Bool
is_of a o = not o.sealed && o.account == a

length-public-snoc :
    (a : ℕ) (os : List Order) (o : Order)
    → length (public_of a (os ++ o ∷ []))
      ≡ (if is_of a o then suc (length (public_of a os)) else length (public_of a os))
length-public-snoc a [] o = ground arith
length-public-snoc a (x ∷ xs) o = ground (arith, length-public-snoc a xs o)

if_true : (b : Bool) (y z : Order) → b ≡ true → (if b then y else z) ≡ y
if_true true y z h = refl
if_true false y z h = absurd (cc h)

if_false : (b : Bool) (y z : Order) → b ≡ false → (if b then y else z) ≡ z
if_false true y z h = absurd (cc h)
if_false false y z h = refl

filter_kept :
    (a : ℕ) (y z : Order) (ys : List Order)
    → y ≡ z
    → is_of a z ≡ true
    → filter (is_of a) (y ∷ ys) ≡ z ∷ filter (is_of a) ys
filter_kept a y z ys e h = ap (λ w. filter (is_of a) (w ∷ ys)) e ∙ rw h refl

filter_dropped :
    (a : ℕ) (y z : Order) (ys : List Order)
    → y ≡ z
    → is_of a z ≡ false
    → filter (is_of a) (y ∷ ys) ≡ filter (is_of a) ys
filter_dropped a y z ys e h = ap (λ w. filter (is_of a) (w ∷ ys)) e ∙ rw h refl

module _ (orders : List Order) (a : ℕ) where
  -- The account's public orders by sequence number.
  abbrev pub by_age : List Order
  by_age = sort_by seq_first (public_of a orders)

  dealt_of : (o : Order) → In o (sort_by seq_first (public_of a orders)) → is_of a o ≡ true
  dealt_of o m =
      (In-filter_inv (is_of a) o orders (In-sort_by_inv seq_first o (public_of a orders) m)).1

  -- An order of another account stays another account's.
  other_dealt :
      (n : ℕ) (o : Order)
      → o.sealed ≡ false
      → (o.account == a) ≡ false
      → is_of a (nth n (sort_by seq_first (public_of o.account orders)) o) ≡ false
  other_dealt n o open_order other =
      elim (nth-In n (sort_by seq_first (public_of o.account orders)) o) [
        | inl own ↦ rw own (ground arith)
        | inr m ↦
            let d = nth n (sort_by seq_first (public_of o.account orders)) o in
            let k = In-sort_by_inv seq_first d (public_of o.account orders) m in
            let of_its_own = (In-filter_inv (is_of o.account) d orders k).1 in ground arith
      ]

  moved_on :
      (before os : List Order) (o : Order)
      → length (public_of a before) + length (public_of a (o ∷ os)) ≡ length by_age
      → length (public_of a (before ++ o ∷ [])) + length (public_of a os) ≡ length by_age
  moved_on before os o h = ground (arith, length-public-snoc a before o)

  dealt :
      (before os : List Order)
      → length (public_of a before) + length (public_of a os) ≡ length by_age
      → filter (is_of a) (redeal_from orders before os) ≡ drop (length (public_of a before)) by_age
  unfolding redeal_from
  dealt before [] h = sym (drop_all (length (public_of a before)) by_age (omega arith))
  dealt before (o ∷ os) h = elim (Bool-cases o.sealed) [
    | inl hidden ↦
        let later = dealt (before ++ o ∷ []) os (moved_on before os o h) in
        let same : length (public_of a (before ++ o ∷ [])) ≡ length (public_of a before) =
          ground (arith, length-public-snoc a before o) in
        let none_of : is_of a o ≡ false = ground arith in
        filter_dropped a _ o (redeal_from orders (before ++ o ∷ []) os)
          (if_true o.sealed o _ hidden) none_of
        ∙ (later ∙ ap (λ n. drop n by_age) same)
    | inr open_order ↦ elim (Bool-cases (o.account == a)) [
      | inl own ↦
          let n = length (public_of a before) in
          let later = dealt (before ++ o ∷ []) os (moved_on before os o h) in
          let next : length (public_of a (before ++ o ∷ [])) ≡ suc n =
            ground (arith, length-public-snoc a before o) in
          let short : n < length by_age = ground arith in
          let account_same : o.account ≡ a = ground arith in
          let kept = dealt_of (nth n by_age o) (nth-In_short n by_age o short) in
          let head =
            if_false o.sealed o _ open_order
            ∙ ap (λ b. nth (length (public_of b before)) (sort_by seq_first (public_of b orders)) o)
                account_same in
          filter_kept a _ (nth n by_age o) (redeal_from orders (before ++ o ∷ []) os) head kept
          ∙ (ap (λ zs. nth n by_age o ∷ zs) (later ∙ ap (λ k. drop k by_age) next)
              ∙ sym (drop-nth n by_age o short))
      | inr other ↦
          let later = dealt (before ++ o ∷ []) os (moved_on before os o h) in
          let same : length (public_of a (before ++ o ∷ [])) ≡ length (public_of a before) =
            ground (arith, length-public-snoc a before o) in
          filter_dropped a _ _ (redeal_from orders (before ++ o ∷ []) os)
            (if_false o.sealed o _ open_order)
            (other_dealt (length (public_of o.account before)) o open_order other)
          ∙ (later ∙ ap (λ n. drop n by_age) same)
    ]
  ]

  -- The redealt queue holds the account's public orders by sequence number.
  pub redeal-by_age : filter (is_of a) (redeal orders) ≡ by_age
  unfolding redeal
  redeal-by_age = dealt [] orders (omega (arith, length-sort_by seq_first (public_of a orders)))

  pub redeal-IsSorted : IsSorted seq_first seq_first-IsOrdering (filter (is_of a) (redeal orders))
  redeal-IsSorted =
      rw redeal-by_age (sort_by-IsSorted seq_first seq_first-IsOrdering (public_of a orders))
