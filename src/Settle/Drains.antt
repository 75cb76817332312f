-- ===== src/Settle/Drains.antt =====
-- `_drain_carry_retry` of offchain/server.py: what becomes of each remainder that waits to be sealed again.
use jamswap.Prelude.{
  ℕ, ◌≡◌, refl, ap, ◌⊎◌, inl, inr, Bool, true, false, not, ◌&&◌, Option, none, some, List, [], ◌∷◌,
  ◌++◌, map, filter, ltb, ◌==◌, arith, Bool-cases, All, Empty, if◌then◌else◌, ◌∙◌,
}
use jamswap.Settle.Market.{Queued, Market, Note, order_expiry, cancelled, is_set}
use jamswap.Settle.Finish.{
  drain, drain_carry_retry, went_through, post_carry_seal, with_seal, record_exec, is_over, Drained,
}

-- An expiry that is set and not after `now`.
abbrev pub passed : ℕ → Option ℕ → Bool
passed now none = false
passed now (some e) = not (e == 0) && not (ltb now e)

is_over-passed : (now : ℕ) (e : Option ℕ) → is_over now e ≡ passed now e
is_over-passed now none = refl
is_over-passed now (some e) = ground arith

-- The receipts of remainders that have expired.
abbrev pub cancels : List Queued → List Note
cancels [] = []
cancels (r ∷ rs) = record_exec r (some cancelled) 0 true ++ cancels rs

module _ (new_tag : Queued → ℕ) (seal : Queued → Option ℕ) (submit : Queued → Bool) (now : ℕ)
    (reads : Queued → Bool) (expiry : List (ℕ × ℕ × ℕ)) where
  abbrev pub has_expired : Queued → Bool
  has_expired r = passed now (order_expiry r.order.account r.order.oid expiry)

  -- It is sealed, or can be, and the submit of the seal goes through.
  abbrev pub can_post : Queued → Bool
  can_post r = let sealed = with_seal new_tag seal submit r in is_set sealed.commit && submit sealed

  abbrev pub posts : Queued → Bool
  posts r = not (has_expired r) && can_post r

  abbrev pub waits : Queued → Bool
  waits r = not (has_expired r) && not (can_post r)

  -- How the loop leaves a remainder that it has come past.
  abbrev pub touched : Queued → Queued
  touched r = if has_expired r then r else with_seal new_tag seal submit r

  went_through-set :
      (r : Queued) (c : Option ℕ) → went_through new_tag seal submit r c ≡ (is_set c && submit r)
  went_through-set r none = refl
  went_through-set r (some c) = refl

  post_carry_seal-can :
      (r : Queued)
      → post_carry_seal new_tag seal submit r ≡ (with_seal new_tag seal submit r, can_post r)
  unfolding post_carry_seal
  post_carry_seal-can r =
      let q = with_seal new_tag seal submit r in
      ap (λ (b : Bool). (q, b)) (went_through-set q q.commit)

  -- The price for the receipt of the first could not be read.
  abbrev pub Fails : List Queued → Type 0
  Fails [] = Empty
  Fails (r ∷ rs) = (has_expired r ≡ true) × (reads r ≡ false)

  abbrev pub sealed : List Queued → List Queued
  sealed rs = map (with_seal new_tag seal submit) rs

  -- The remainders that the loop has come past, and those behind them, with what has become of them.
  abbrev Fates : List Queued → Drained → Type 0
  Fates rs d =
      (tried : List Queued) × (rest : List Queued) × (rs ≡ tried ++ rest)
      × (d.back ≡ sealed (filter posts tried))
      × (d.notes ≡ cancels (filter has_expired tried))
      × All (λ r. has_expired r ≡ true → reads r ≡ true) tried
      × (((d.completes ≡ true) × (rest ≡ []) × (d.kept ≡ sealed (filter waits tried)))
          ⊎ ((d.completes ≡ false) × Fails rest × (d.kept ≡ map touched tried ++ rest)))

  drain-Fates : (rs : List Queued) → Fates rs (drain new_tag seal submit now reads expiry rs)
  unfolding drain
  drain-Fates [] = ([], [], refl, refl, refl, tt, inl (refl, refl, refl))
  drain-Fates (r ∷ rs) =
      let (tried, rest, split, back, notes, read, ends) = drain-Fates rs in
      let exp = order_expiry r.order.account r.order.oid expiry in
      elim (Bool-cases (has_expired r)) [
        | inl x ↦ rw (is_over-passed now exp ∙ x) (elim (Bool-cases (reads r)) [
          | inl y ↦ rw y (
            r ∷ tried,
            rest,
            ap (λ l. r ∷ l) split,
            rw x back,
            rw x (ap (λ l. record_exec r (some cancelled) 0 true ++ l) notes),
            ((λ _. y), read),
            elim ends [
              | inl (c, gone, kept) ↦ inl (c, gone, rw (c, x) kept)
              | inr (c, fails, kept) ↦ inr (c, fails, rw (c, x) (ap (λ l. r ∷ l) kept))
            ],
          )
          | inr n ↦ rw n ([], r ∷ rs, refl, refl, refl, tt, inr (refl, (x, n), refl))
        ])
        | inr x ↦
            rw (is_over-passed now exp ∙ x, post_carry_seal-can r)
              (elim (Bool-cases (can_post r)) [
                | inl y ↦ rw y (
                  r ∷ tried,
                  rest,
                  ap (λ l. r ∷ l) split,
                  rw (x, y) (ap (λ l. with_seal new_tag seal submit r ∷ l) back),
                  rw x notes,
                  ((λ over. absurd (ground arith)), read),
                  elim ends [
                    | inl (c, gone, kept) ↦ inl (c, gone, rw (c, x, y) kept)
                    | inr (c, fails, kept) ↦
                        inr
                          (c, fails, rw (c, x) (ap (λ l. with_seal new_tag seal submit r ∷ l) kept))
                  ],
                )
                | inr n ↦ rw n (
                  r ∷ tried,
                  rest,
                  ap (λ l. r ∷ l) split,
                  rw (x, n) back,
                  rw x notes,
                  ((λ over. absurd (ground arith)), read),
                  elim ends [
                    | inl (c, gone, kept) ↦
                        inl
                          (c, gone, rw (x, n) (ap (λ l. with_seal new_tag seal submit r ∷ l) kept))
                    | inr (c, fails, kept) ↦
                        inr (c, fails, rw x (ap (λ l. with_seal new_tag seal submit r ∷ l) kept))
                  ],
                )
              ])
      ]

  -- What is shared out of the market `s`, in `d`: the remainders that the loop has come past, and the rest.
  abbrev pub SharedOut : Market → Market × Bool → Type 0
  SharedOut s d =
      (tried : List Queued) × (rest : List Queued) × (s.retry ≡ tried ++ rest)
      × (d.0.pending ≡ s.pending ++ sealed (filter posts tried))
      × (d.0.log ≡ s.log ++ cancels (filter has_expired tried))
      × All (λ r. has_expired r ≡ true → reads r ≡ true) tried
      × (((d.1 ≡ true) × (rest ≡ []) × (d.0.retry ≡ sealed (filter waits tried)))
          ⊎ ((d.1 ≡ false) × Fails rest × (d.0.retry ≡ map touched tried ++ rest)))

module _ (new_tag : Queued → ℕ) (seal : Queued → Option ℕ) (submit : Queued → Bool) where
  -- Draining a market's queue of re-seals. The loop comes past the remainders in order. Of those that it has come
  -- past, exactly the ones that have not expired and could be sealed and posted join the mempool, sealed, and
  -- exactly the expired ones get a receipt that ends them. Either it comes past all of them, and exactly those
  -- that have not expired and could not be posted stay queued; or it stops at the first expired one for which
  -- the price cannot be read, and then all of them stay queued, in order, those that have joined the mempool
  -- or have got their receipt too.
  pub drain_carry_retry-SharedOut :
      (now : ℕ) (reads : Queued → Bool) (s : Market)
      → SharedOut new_tag seal submit now reads s.expiry s
          (drain_carry_retry new_tag seal submit now reads s)
  unfolding drain_carry_retry
  drain_carry_retry-SharedOut now reads s =
      let (tried, rest, split, back, notes, read, ends) =
        drain-Fates new_tag seal submit now reads s.expiry s.retry in
      (tried, rest, split, ap (λ l. s.pending ++ l) back, ap (λ l. s.log ++ l) notes, read, ends)
