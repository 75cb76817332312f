-- ===== src/Settle/Moves.antt =====
-- How a first sighting (`_claim`) and an erased landing (`_unclaim`) of offchain/server.py change which landed
-- rounds hold a key. The round `z` stands between the rounds `xs` and `ys`.
use jamswap.Prelude.{
  ℕ, ◌≡◌, ◌≢◌, refl, inl, inr, true, not, ◌&&◌, ◌||◌, none, some, List, ◌∷◌, ◌++◌, map, filter,
  arith, ◌==◌, ==_iff, Bool-cases, sym, ◌∙◌,
}
use jamswap.Settle.Market.{
  OrderKey, mem, Tracked, Note, is_sighted, keys_of, note_claim, free_claim,
}
use jamswap.Settle.Keys.{any-append}
use jamswap.Settle.Recorded.{recorded}
use jamswap.Settle.Account.{
  backed, backs, Founded, Held, All-mono, All-hold_keys, All-filter_holds, All-filter_both,
  backed-note_claim, backs-note_claim, backed-free_claim, backs-free_claim,
}

pub backed-append :
    (k : OrderKey) (xs ys : List Tracked) → backed k (xs ++ ys) ≡ (backed k xs || backed k ys)
backed-append k xs ys = any-append (λ z. is_sighted z && mem k (keys_of z)) xs ys

pub backs-append :
    (k : OrderKey) (r : ℕ) (xs ys : List Tracked)
    → backs k r (xs ++ ys) ≡ (backs k r xs || backs k r ys)
backs-append k r xs ys = any-append (λ z. is_sighted z && (z.rid == r && mem k (keys_of z))) xs ys

abbrev pub sighted_at : ℕ → Tracked → Tracked
sighted_at now z = record z { ok_since = some now }

abbrev pub unsighted : Tracked → Tracked
unsighted z = record z { ok_since = none }

module _ (now : ℕ) (z : Tracked) (xs ys : List Tracked) where
  -- The released rounds after a first sighting.
  abbrev pub taking : List Tracked
  taking = map (note_claim z) xs ++ sighted_at now z ∷ map (note_claim z) ys

  pub backed-taking : (k : OrderKey) → backed k (xs ++ z ∷ ys) ≡ true → backed k taking ≡ true
  unfolding keys_of
  backed-taking k h =
      rw (backed-append k (map (note_claim z) xs) (sighted_at now z ∷ map (note_claim z) ys)) (
        rw (backed-note_claim z k xs)
          (rw (backed-note_claim z k ys) (let parts = backed-append k xs (z ∷ ys) in ground arith)))

  pub backs-taking :
      (k : OrderKey) (r : ℕ) → backs k r (xs ++ z ∷ ys) ≡ true → backs k r taking ≡ true
  unfolding keys_of
  backs-taking k r h =
      rw (backs-append k r (map (note_claim z) xs) (sighted_at now z ∷ map (note_claim z) ys)) (
        rw (backs-note_claim z k r xs) (
          rw (backs-note_claim z k r ys)
            (let parts = backs-append k r xs (z ∷ ys) in ground arith)))

  -- The sighted round backs its own keys.
  pub backs-own : (k : OrderKey) → mem k (keys_of z) ≡ true → backs k z.rid taking ≡ true
  unfolding keys_of
  backs-own k h =
      rw (backs-append k z.rid (map (note_claim z) xs) (sighted_at now z ∷ map (note_claim z) ys))
        (let e = (==_iff z.rid z.rid).1 refl in ground arith)

  -- What was founded stays so.
  pub Founded-taking :
      (log : List Note) (fr : Tracked) (c : OrderKey × ℕ)
      → Founded (xs ++ z ∷ ys) log fr c
      → Founded taking log fr c
  Founded-taking log fr c (apart, h) = (
    apart,
    elim (Bool-cases (backs c.0 c.1 (xs ++ z ∷ ys))) [
      | inl e ↦ rw (backs-taking c.0 c.1 e) refl
      | inr e ↦ let r : recorded c.0 log ≡ true = ground arith in ground arith
    ],
  )

  pub Held-note_claim :
      (log : List Note) (fr : Tracked)
      → Held (xs ++ z ∷ ys) log fr
      → z.rid ≢ fr.rid
      → Held taking log (note_claim z fr)
  unfolding note_claim
  Held-note_claim log fr h apart =
      All-hold_keys (Founded taking log fr) z.rid (filter (λ k. mem k (keys_of z)) (keys_of fr))
        fr.claimed
        (All-mono (λ k. mem k (keys_of z) ≡ true) (λ k. Founded taking log fr (k, z.rid))
          (filter (λ k. mem k (keys_of z)) (keys_of fr))
          (λ k own. (apart, rw (backs-own k own) refl))
          (All-filter_holds (λ k. mem k (keys_of z)) (keys_of fr)))
        (All-mono (Founded (xs ++ z ∷ ys) log fr) (Founded taking log fr) fr.claimed
          (Founded-taking log fr) h)

module _ (z : Tracked) (xs ys : List Tracked) where
  -- The released rounds after an erased landing.
  abbrev pub giving : List Tracked
  giving = map (free_claim z) xs ++ unsighted z ∷ map (free_claim z) ys

  pub backed-giving : (k : OrderKey) → backed k giving ≡ backed k (xs ++ ys)
  unfolding keys_of
  backed-giving k =
      backed-append k (map (free_claim z) xs) (unsighted z ∷ map (free_claim z) ys)
      ∙ rw (backed-free_claim z k xs) (rw (backed-free_claim z k ys) (sym (backed-append k xs ys)))

  pub backs-giving :
      (k : OrderKey) (r : ℕ) → r ≢ z.rid → backs k r (xs ++ z ∷ ys) ≡ true → backs k r giving ≡ true
  unfolding keys_of
  backs-giving k r apart h =
      rw (backs-append k r (map (free_claim z) xs) (unsighted z ∷ map (free_claim z) ys)) (
        rw (backs-free_claim z k r xs) (
          rw (backs-free_claim z k r ys)
            (let parts = backs-append k r xs (z ∷ ys) in ground arith)))

  pub Founded-giving :
      (log : List Note) (fr : Tracked) (c : OrderKey × ℕ)
      → c.1 ≢ z.rid
      → Founded (xs ++ z ∷ ys) log fr c
      → Founded giving log fr c
  Founded-giving log fr c other (apart, h) = (
    apart,
    elim (Bool-cases (backs c.0 c.1 (xs ++ z ∷ ys))) [
      | inl e ↦ rw (backs-giving c.0 c.1 other e) refl
      | inr e ↦ let r : recorded c.0 log ≡ true = ground arith in ground arith
    ],
  )

  pub Held-free_claim :
      (log : List Note) (fr : Tracked)
      → Held (xs ++ z ∷ ys) log fr
      → Held giving log (free_claim z fr)
  unfolding free_claim
  Held-free_claim log fr h =
      All-filter_both (Founded (xs ++ z ∷ ys) log fr) (Founded giving log fr)
        (λ c. not (c.1 == z.rid)) fr.claimed
        (λ c other f. Founded-giving log fr c (λ e. ground arith) f) h
