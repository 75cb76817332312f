-- ===== src/Server/Seq.antt =====
-- What `_seq_sanitize` of offchain/server.py keeps: a round that the service accepts, with every order
-- that can still settle.
use mathlib.Core.Path.{subst}
use jamswap.Prelude.{
  ℕ, ◌≡◌, refl, sym, ap, ◌⊎◌, inl, inr, ◌≤◌, ◌<◌, ◌+◌, Bool, true, List, [], ◌∷◌, ◌++◌, map, arith,
  All-In, In, count, count-append, ◌==◌, Bool-cases, Option, some, none, Option-cases,
  In-append_left, In-append_right,
}
use jamswap.Order.{Order}
use jamswap.Clearing.{sort_by, insert_by}
use jamswap.Clearing.Sorting.{IsOrdering, IsSorted, sort_by-IsSorted}
use jamswap.Clearing.Priority.{In-sort_by}
use jamswap.Server.{
  account_first, raise, Reason, Sanitized, seq_verdict, run_after, filed, walk, seq_sanitize,
}

pub account_first-IsOrdering : IsOrdering account_first
account_first-IsOrdering = record {
  trans = λ a b c h k. ground arith;
  total = λ a b h. ground arith;
}

-- What the service asks of a round's orders: each is above its account's running floor, and becomes it.
abbrev pub IsAccepted : (ℕ → ℕ) → List Order → Type 0
IsAccepted run [] = Unit
IsAccepted run (o ∷ os) = (run o.account < o.seq) × IsAccepted (raise run o.account o.seq) os

-- The running floors after a round.
abbrev after : (ℕ → ℕ) → List Order → ℕ → ℕ
after run [] = run
after run (o ∷ os) = after (raise run o.account o.seq) os

IsAccepted-snoc :
    (run : ℕ → ℕ) (ks : List Order) (o : Order)
    → IsAccepted run ks
    → after run ks o.account < o.seq
    → IsAccepted run (ks ++ o ∷ [])
IsAccepted-snoc run [] o a h = (h, tt)
IsAccepted-snoc run (k ∷ ks) o (b, a) h = (b, IsAccepted-snoc (raise run k.account k.seq) ks o a h)

after-snoc :
    (run : ℕ → ℕ) (ks : List Order) (o : Order)
    → after run (ks ++ o ∷ []) ≡ raise (after run ks) o.account o.seq
after-snoc run [] o = refl
after-snoc run (k ∷ ks) o = after-snoc (raise run k.account k.seq) ks o

abbrev pub order_of : Order × Reason → Order
order_of (o, r) = o

map-append :
    (xs ys : List (Order × Reason)) → map order_of (xs ++ ys) ≡ map order_of xs ++ map order_of ys
map-append [] ys = refl
map-append (x ∷ xs) ys = ap (λ zs. order_of x ∷ zs) (map-append xs ys)

count-insert_by :
    (q : Order → Bool) (first : Order → Order → Bool) (o : Order) (os : List Order)
    → count q (insert_by first o os) ≡ count q (o ∷ os)
unfolding insert_by
count-insert_by q first o [] = refl
count-insert_by q first o (x ∷ xs) = ground (arith, count-insert_by q first o xs)

pub count-sort_by :
    (q : Order → Bool) (first : Order → Order → Bool) (os : List Order)
    → count q (sort_by first os) ≡ count q os
unfolding sort_by
count-sort_by q first [] = refl
count-sort_by q first (o ∷ os) =
    ground (arith, count-insert_by q first o (sort_by first os), count-sort_by q first os)

kept_above :
    (floor running s : ℕ) → seq_verdict floor running s ≡ none → (floor < s) × (running < s)
unfolding seq_verdict
kept_above floor running s h = ground arith

-- A dead order is not above its floor, or is repeated.
dead_below :
    (floor running s : ℕ) (why : Reason)
    → seq_verdict floor running s ≡ some why
    → (s ≤ floor) ⊎ (s ≤ running)
unfolding seq_verdict
dead_below floor running s why h = ground arith

abbrev nothing : Sanitized
nothing = record { kept = []; dead = []; floors = [] }

module _ (seq_floor : ℕ → ℕ) where
  walk-verdict :
      (o : Order) (os : List Order) (run : ℕ → ℕ) (r : Sanitized) {v : Option Reason}
      → seq_verdict (seq_floor o.account) (run o.account) o.seq ≡ v
      → walk seq_floor (o ∷ os) run r
        ≡ walk seq_floor os (run_after run o v) (filed (seq_floor o.account) o v r)
  unfolding walk
  walk-verdict o os run r e =
      ap (λ v. walk seq_floor os (run_after run o v) (filed (seq_floor o.account) o v r)) e

  walk-IsAccepted :
      (os : List Order) (r : Sanitized)
      → IsAccepted seq_floor r.kept
      → IsAccepted seq_floor (walk seq_floor os (after seq_floor r.kept) r).kept
  unfolding walk
  walk-IsAccepted [] r a = a
  walk-IsAccepted (o ∷ os) r a =
      elim (Option-cases
        (seq_verdict (seq_floor o.account) (after seq_floor r.kept o.account) o.seq)) [
          | inl keep ↦
              let (above, rises) = kept_above (seq_floor o.account) _ o.seq keep in
              rw
                (walk-verdict o os (after seq_floor r.kept) r keep, ← after-snoc seq_floor r.kept o)
                (walk-IsAccepted os (filed (seq_floor o.account) o none r)
                  (IsAccepted-snoc seq_floor r.kept o a rises))
          | inr (why, drop) ↦
              rw (walk-verdict o os (after seq_floor r.kept) r drop)
                (walk-IsAccepted os (filed (seq_floor o.account) o (some why) r) a)
        ]

  -- The service accepts the sequence numbers of what is kept, in its order, from the on-chain floors on.
  pub seq_sanitize-IsAccepted :
      (orders : List Order) → IsAccepted seq_floor (seq_sanitize seq_floor orders).kept
  unfolding seq_sanitize
  seq_sanitize-IsAccepted orders = walk-IsAccepted (sort_by account_first orders) nothing tt

  -- A sequence number of an account is among the kept ones.
  abbrev pub IsKept : Order → List Order → Type 0
  IsKept o ks = (k : Order) × In k ks × (k.account ≡ o.account) × (k.seq ≡ o.seq)

  walk-keeps :
      (os : List Order) (run : ℕ → ℕ) (r : Sanitized) (o : Order)
      → IsKept o r.kept
      → IsKept o (walk seq_floor os run r).kept
  unfolding walk
  walk-keeps [] run r o k = k
  walk-keeps (x ∷ xs) run r o (k, m, a, s) =
      elim (Option-cases (seq_verdict (seq_floor x.account) (run x.account) x.seq)) [
        | inl keep ↦
            rw (walk-verdict x xs run r keep)
              (walk-keeps xs _ _ o (k, In-append_left k r.kept _ m, a, s))
        | inr (why, drop) ↦ rw (walk-verdict x xs run r drop) (walk-keeps xs _ _ o (k, m, a, s))
      ]

  -- A live order that is dropped repeats its account's running floor.
  repeat :
      (x : Order) (run : ℕ → ℕ) (o : Order) (why : Reason)
      → seq_verdict (seq_floor x.account) (run x.account) x.seq ≡ some why
      → o ≡ x
      → seq_floor o.account < o.seq
      → (seq_floor x.account < x.seq → run x.account ≤ x.seq)
      → run o.account ≡ o.seq
  repeat x run o why drop e live below =
      let above = subst (λ (z : Order). seq_floor z.account < z.seq) e live in
      let at_most = below above in
      subst (λ (z : Order). run z.account ≡ z.seq) (sym e)
        (elim (dead_below (seq_floor x.account) (run x.account) x.seq why drop) [
          | inl low ↦ absurd (omega arith)
          | inr again ↦ omega arith
        ])

  -- The running floors are not above what is left, and each that has risen is a kept number.
  walk_complete :
      (os : List Order) (run : ℕ → ℕ) (r : Sanitized) (o : Order)
      → IsSorted account_first account_first-IsOrdering os
      → ((x : Order) → In x os → seq_floor x.account < x.seq → run x.account ≤ x.seq)
      → In o os
      → seq_floor o.account < o.seq
      → (run o.account ≡ o.seq → IsKept o r.kept)
      → IsKept o (walk seq_floor os run r).kept
  unfolding walk
  walk_complete [] run r o sorted below m live had = elim m [ ]
  walk_complete (x ∷ xs) run r o (first, sorted) below m live had =
      elim (Option-cases (seq_verdict (seq_floor x.account) (run x.account) x.seq)) [
        | inl keep ↦
            let (above, rises) = kept_above (seq_floor x.account) (run x.account) x.seq keep in
            rw (walk-verdict x xs run r keep) (elim m [
              | inl e ↦
                  walk-keeps xs (run_after run x none) (filed (seq_floor x.account) x none r) o (
                    x,
                    In-append_right x r.kept _ (inl refl),
                    sym (ap (λ (z : Order). z.account) e),
                    sym (ap (λ (z : Order). z.seq) e),
                  )
              | inr later ↦
                  walk_complete xs (run_after run x none) (filed (seq_floor x.account) x none r) o
                    sorted
                    (λ y k ly. elim (Bool-cases (y.account == x.account)) [
                      | inl same ↦
                          ground (arith, All-In (λ z. account_first x z ≡ true) y xs first k)
                      | inr other ↦ ground (arith, below y (inr k) ly)
                    ])
                    later live
                    (λ h. elim (Bool-cases (o.account == x.account)) [
                      | inl same ↦
                          (x, In-append_right x r.kept _ (inl refl), ground arith, ground arith)
                      | inr other ↦
                          let (k, i, a, s) = had (ground arith) in
                          (k, In-append_left k r.kept _ i, a, s)
                    ])
            ])
        | inr (why, drop) ↦ rw (walk-verdict x xs run r drop) (elim m [
          | inl e ↦
              walk-keeps xs run (filed (seq_floor x.account) x (some why) r) o
                (had (repeat x run o why drop e live (below x (inl refl))))
          | inr later ↦
              walk_complete xs run (filed (seq_floor x.account) x (some why) r) o sorted
                (λ y k. below y (inr k)) later live had
        ])
      ]

  -- Every queued order above its account's on-chain floor is kept, or another of the account with the
  -- same sequence number is.
  pub seq_sanitize_complete :
      (orders : List Order) (o : Order)
      → In o orders
      → seq_floor o.account < o.seq
      → IsKept o (seq_sanitize seq_floor orders).kept
  unfolding seq_sanitize
  seq_sanitize_complete orders o m live =
      walk_complete (sort_by account_first orders) seq_floor nothing o
        (sort_by-IsSorted account_first account_first-IsOrdering orders) (λ x k above. omega arith)
        (In-sort_by account_first o orders m) live (λ h. absurd (omega arith))

  count-walk :
      (q : Order → Bool) (os : List Order) (run : ℕ → ℕ) (r : Sanitized)
      → count q (walk seq_floor os run r).kept
          + count q (map order_of (walk seq_floor os run r).dead)
        ≡ count q r.kept + count q (map order_of r.dead) + count q os
  unfolding walk
  count-walk q [] run r = omega arith
  count-walk q (x ∷ xs) run r =
      elim (Option-cases (seq_verdict (seq_floor x.account) (run x.account) x.seq)) [
        | inl keep ↦ rw (walk-verdict x xs run r keep) (
            ground (
              arith,
              count-append q r.kept (x ∷ []),
              count-walk q xs (run_after run x none) (filed (seq_floor x.account) x none r),
            ))
        | inr (why, drop) ↦ rw (walk-verdict x xs run r drop) (
            ground (
              arith,
              ap (count q) (map-append r.dead ((x, why) ∷ [])),
              count-append q (map order_of r.dead) (x ∷ []),
              count-walk q xs run (filed (seq_floor x.account) x (some why) r),
            ))
      ]

  -- Each queued order is either kept or dead, as often as it is queued.
  pub seq_sanitize_partition :
      (q : Order → Bool) (orders : List Order)
      → let r = seq_sanitize seq_floor orders in
        count q r.kept + count q (map order_of r.dead) ≡ count q orders
  unfolding seq_sanitize
  seq_sanitize_partition q orders = omega (
    arith,
    count-walk q (sort_by account_first orders) seq_floor nothing,
    count-sort_by q account_first orders,
  )
