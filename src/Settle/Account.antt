-- ===== src/Settle/Account.antt =====
-- The state of offchain/server.py's tracked rounds: where an order is, and which landed round stands behind a
-- key that `_claim` noted.
use jamswap.Prelude.{
  ℕ, ◌≡◌, ◌≢◌, refl, inl, inr, Bool, true, ◌&&◌, ◌||◌, Option, List, [], ◌∷◌, ◌++◌, map, any,
  filter, All, arith, ◌==◌, Bool-cases,
}
use jamswap.Settle.Market.{
  OrderKey, okey, same_order, mem, Tracked, Market, Note, is_sighted, keys_of, in_flight, hold_key,
  hold_keys, note_claim, free_claim,
}
use jamswap.Settle.Keys.{same_order_eq}
use jamswap.Settle.Recorded.{recorded}

-- Does a round seen landed hold the key? And one with the id `r`?
abbrev pub backed : OrderKey → List Tracked → Bool
backed k zs = any (λ z. is_sighted z && mem k (keys_of z)) zs

abbrev pub backs : OrderKey → ℕ → List Tracked → Bool
backs k r zs = any (λ z. is_sighted z && (z.rid == r && mem k (keys_of z))) zs

abbrev pub flies : OrderKey → Option Tracked → Bool
flies k f = any (λ fr. mem k (keys_of fr)) (in_flight f)

-- The order is queued, in flight, in a released round seen landed, or recorded. The released rounds are
-- `zs`.
abbrev pub Accounted : OrderKey → List Tracked → Market → Type 0
Accounted k zs s =
    (mem k (map okey s.pending) || (flies k s.inflight || (backed k zs || recorded k s.log))) ≡ true

-- A claim noted on a round: another round holds the key and was seen landed, or the order is recorded.
abbrev pub Founded : List Tracked → List Note → Tracked → OrderKey × ℕ → Type 0
Founded zs log fr c = (c.1 ≢ fr.rid) × ((backs c.0 c.1 zs || recorded c.0 log) ≡ true)

abbrev pub Held : List Tracked → List Note → Tracked → Type 0
Held zs log fr = All (Founded zs log fr) fr.claimed

-- No two rounds have one id.
abbrev pub Apart : List ℕ → Type 0
Apart [] = Unit
Apart (r ∷ rs) = All (λ q. q ≢ r) rs × Apart rs

module _ {ℓ} {A : Type ℓ} where
  pub All-both {κ} : (P : A → Type κ) (xs ys : List A) → All P (xs ++ ys) → All P xs × All P ys
  All-both P [] ys h = (tt, h)
  All-both P (x ∷ xs) ys (p, h) = let b = All-both P xs ys h in ((p, b.0), b.1)

  pub All-append {κ} : (P : A → Type κ) (xs ys : List A) → All P xs → All P ys → All P (xs ++ ys)
  All-append P [] ys a b = b
  All-append P (x ∷ xs) ys (p, a) b = (p, All-append P xs ys a b)

  pub All-mono {κ μ} :
      (P : A → Type κ) (Q : A → Type μ) (xs : List A) → ((x : A) → P x → Q x) → All P xs → All Q xs
  All-mono P Q [] f h = tt
  All-mono P Q (x ∷ xs) f (p, h) = (f x p, All-mono P Q xs f h)

  pub All-map_both {κ μ ν} :
      (P : A → Type κ) (Q : A → Type μ) (R : A → Type ν) (g : A → A) (xs : List A)
      → ((x : A) → P x → Q x → R (g x))
      → All P xs
      → All Q xs
      → All R (map g xs)
  All-map_both P Q R g [] f p q = tt
  All-map_both P Q R g (x ∷ xs) f (p, ps) (q, qs) = (f x p q, All-map_both P Q R g xs f ps qs)

-- A note of a claim leaves every round as it is but for its claims.
pub backed-note_claim :
    (z : Tracked) (k : OrderKey) (zs : List Tracked)
    → backed k (map (note_claim z) zs) ≡ backed k zs
unfolding note_claim keys_of
backed-note_claim z k [] = refl
backed-note_claim z k (x ∷ xs) = let ih = backed-note_claim z k xs in ground arith

pub backs-note_claim :
    (z : Tracked) (k : OrderKey) (r : ℕ) (zs : List Tracked)
    → backs k r (map (note_claim z) zs) ≡ backs k r zs
unfolding note_claim keys_of
backs-note_claim z k r [] = refl
backs-note_claim z k r (x ∷ xs) = let ih = backs-note_claim z k r xs in ground arith

pub backed-free_claim :
    (z : Tracked) (k : OrderKey) (zs : List Tracked)
    → backed k (map (free_claim z) zs) ≡ backed k zs
unfolding free_claim keys_of
backed-free_claim z k [] = refl
backed-free_claim z k (x ∷ xs) = let ih = backed-free_claim z k xs in ground arith

pub backs-free_claim :
    (z : Tracked) (k : OrderKey) (r : ℕ) (zs : List Tracked)
    → backs k r (map (free_claim z) zs) ≡ backs k r zs
unfolding free_claim keys_of
backs-free_claim z k r [] = refl
backs-free_claim z k r (x ∷ xs) = let ih = backs-free_claim z k r xs in ground arith

-- What backs a claim holds its key.
pub backs-backed :
    (k : OrderKey) (r : ℕ) (zs : List Tracked) → backs k r zs ≡ true → backed k zs ≡ true
backs-backed k r [] h = absurd (ground arith)
backs-backed k r (z ∷ zs) h = let ih = backs-backed k r zs in ground arith

All-hold_key :
    (P : OrderKey × ℕ → Type 0) (k : OrderKey) (r : ℕ) (cl : List (OrderKey × ℕ))
    → P (k, r)
    → All P cl
    → All P (hold_key k r cl)
unfolding hold_key
All-hold_key P k r [] p h = (p, tt)
All-hold_key P k r ((j, q) ∷ cl) p (a, h) = elim (Bool-cases (same_order k j)) [
  | inl e ↦ rw e (rw (← same_order_eq k j e) p, h)
  | inr e ↦ rw e (a, All-hold_key P k r cl p h)
]

pub All-hold_keys :
    (P : OrderKey × ℕ → Type 0) (r : ℕ) (ks : List OrderKey) (cl : List (OrderKey × ℕ))
    → All (λ k. P (k, r)) ks
    → All P cl
    → All P (hold_keys ks r cl)
All-hold_keys P r [] cl p h = h
All-hold_keys P r (k ∷ ks) cl (p, ps) h =
    All-hold_keys P r ks (hold_key k r cl) ps (All-hold_key P k r cl p h)

pub All-filter_holds {ℓ} :
    {A : Type ℓ} (p : A → Bool) (xs : List A) → All (λ x. p x ≡ true) (filter p xs)
All-filter_holds p [] = tt
All-filter_holds p (x ∷ xs) = elim (Bool-cases (p x)) [
  | inl e ↦ rw e (e, All-filter_holds p xs)
  | inr e ↦ rw e (All-filter_holds p xs)
]

pub All-filter_both {ℓ κ μ} :
    {A : Type ℓ} (P : A → Type κ) (R : A → Type μ) (p : A → Bool) (xs : List A)
    → ((x : A) → p x ≡ true → P x → R x)
    → All P xs
    → All R (filter p xs)
All-filter_both P R p [] f h = tt
All-filter_both P R p (x ∷ xs) f (a, h) = elim (Bool-cases (p x)) [
  | inl e ↦ rw e (f x e a, All-filter_both P R p xs f h)
  | inr e ↦ rw e (All-filter_both P R p xs f h)
]
