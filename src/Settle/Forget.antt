-- ===== src/Settle/Forget.antt =====
-- Forgetting old zombies in `_abandon` of offchain/server.py: only rounds not seen landed go.
use jamswap.Prelude.{
  ℕ, zero, suc, ◌≡◌, ◌≢◌, refl, inl, inr, List, [], ◌∷◌, ◌++◌, All, arith, Bool-cases, sym, ◌∙◌,
}
use jamswap.Settle.Market.{OrderKey, Tracked, is_sighted}
use jamswap.Settle.Sweep.{forget, forget_oldest}
use jamswap.Settle.Keys.{map-append}
use jamswap.Settle.Account.{backed, backs, Apart, All-append}
use jamswap.Settle.Walks.{ids}

-- What the forgetting of the oldest zombies leaves.
backed-forget_oldest :
    (k : OrderKey) (zs : List Tracked) → backed k (forget_oldest zs) ≡ backed k zs
unfolding forget_oldest
backed-forget_oldest k [] = refl
backed-forget_oldest k (z ∷ zs) =
    let ih = backed-forget_oldest k zs in
    elim (Bool-cases (is_sighted z)) [ inl e ↦ rw e (ground arith) | inr e ↦ rw e (ground arith) ]

backs-forget_oldest :
    (k : OrderKey) (r : ℕ) (zs : List Tracked) → backs k r (forget_oldest zs) ≡ backs k r zs
unfolding forget_oldest
backs-forget_oldest k r [] = refl
backs-forget_oldest k r (z ∷ zs) =
    let ih = backs-forget_oldest k r zs in
    elim (Bool-cases (is_sighted z)) [ inl e ↦ rw e (ground arith) | inr e ↦ rw e (ground arith) ]

All-forget_oldest : (P : Tracked → Type 0) (zs : List Tracked) → All P zs → All P (forget_oldest zs)
unfolding forget_oldest
All-forget_oldest P [] h = h
All-forget_oldest P (z ∷ zs) (p, h) = elim (Bool-cases (is_sighted z)) [
  | inl e ↦ rw e (p, All-forget_oldest P zs h)
  | inr e ↦ rw e h
]

All-ids-forget_oldest :
    (P : ℕ → Type 0) (zs : List Tracked) → All P (ids zs) → All P (ids (forget_oldest zs))
unfolding forget_oldest
All-ids-forget_oldest P [] h = h
All-ids-forget_oldest P (z ∷ zs) (p, h) = elim (Bool-cases (is_sighted z)) [
  | inl e ↦ rw e (p, All-ids-forget_oldest P zs h)
  | inr e ↦ rw e h
]

Apart-forget_oldest : (zs : List Tracked) → Apart (ids zs) → Apart (ids (forget_oldest zs))
unfolding forget_oldest
Apart-forget_oldest [] h = h
Apart-forget_oldest (z ∷ zs) (p, h) = elim (Bool-cases (is_sighted z)) [
  | inl e ↦ rw e (All-ids-forget_oldest (λ q. q ≢ z.rid) zs p, Apart-forget_oldest zs h)
  | inr e ↦ rw e h
]

pub backed-forget :
    (k : OrderKey) (n : ℕ) (zs : List Tracked) → backed k (forget n zs) ≡ backed k zs
unfolding forget
backed-forget k zero zs = refl
backed-forget k (suc n) zs = backed-forget k n (forget_oldest zs) ∙ backed-forget_oldest k zs

pub backs-forget :
    (k : OrderKey) (r : ℕ) (n : ℕ) (zs : List Tracked) → backs k r (forget n zs) ≡ backs k r zs
unfolding forget
backs-forget k r zero zs = refl
backs-forget k r (suc n) zs = backs-forget k r n (forget_oldest zs) ∙ backs-forget_oldest k r zs

pub All-forget : (P : Tracked → Type 0) (n : ℕ) (zs : List Tracked) → All P zs → All P (forget n zs)
unfolding forget
All-forget P zero zs h = h
All-forget P (suc n) zs h = All-forget P n (forget_oldest zs) (All-forget_oldest P zs h)

pub Apart-forget : (n : ℕ) (zs : List Tracked) → Apart (ids zs) → Apart (ids (forget n zs))
unfolding forget
Apart-forget zero zs h = h
Apart-forget (suc n) zs h = Apart-forget n (forget_oldest zs) (Apart-forget_oldest zs h)

pub Apart-last :
    (z : Tracked) (zs : List Tracked)
    → All (λ q. q ≢ z.rid) (ids zs)
    → Apart (ids zs)
    → Apart (ids (zs ++ z ∷ []))
Apart-last z [] h a = (tt, tt)
Apart-last z (y ∷ ys) (p, h) (q, a) =
    let last : ids (ys ++ z ∷ []) ≡ ids ys ++ z.rid ∷ [] = map-append (λ fr. fr.rid) ys (z ∷ []) in
    (
      rw last (All-append (λ r. r ≢ y.rid) (ids ys) (z.rid ∷ []) q (λ e. p (sym e), tt)),
      Apart-last z ys h a,
    )
