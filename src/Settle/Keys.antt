-- ===== src/Settle/Keys.antt =====
-- Lemmas on the order keys of offchain/server.py (`_okey`, `_keys`): membership, and lists from which the
-- orders of some keys are taken out.
use jamswap.Prelude.{
  ℕ, ◌≡◌, refl, inl, inr, Bool, true, not, ◌||◌, Option, none, some, List, [], ◌∷◌, ◌++◌, map, any,
  filter, arith, ==_iff, Bool-cases, ap,
}
use jamswap.Settle.Market.{Queued, OrderKey, okey, same_commit, same_order, mem}

pub or_true : (a b : Bool) → a ≡ true → (a || b) ≡ true
or_true a b h = ground arith

pub any-append {ℓ} :
    {A : Type ℓ} (p : A → Bool) (xs ys : List A) → any p (xs ++ ys) ≡ (any p xs || any p ys)
any-append p [] ys = refl
any-append p (x ∷ xs) ys = let ih = any-append p xs ys in ground arith

pub mem-append : (k : OrderKey) (xs ys : List OrderKey) → mem k (xs ++ ys) ≡ (mem k xs || mem k ys)
mem-append k xs ys = any-append (λ j. same_order k j) xs ys

pub map-append {ℓ κ} :
    {A : Type ℓ} {B : Type κ} (f : A → B) (xs ys : List A) → map f (xs ++ ys) ≡ map f xs ++ map f ys
map-append f [] ys = refl
map-append f (x ∷ xs) ys = ap (λ l. f x ∷ l) (map-append f xs ys)

same_commit_eq : (a b : Option ℕ) → same_commit a b ≡ true → a ≡ b
same_commit_eq none none h = refl
same_commit_eq none (some b) h = absurd (ground arith)
same_commit_eq (some a) none h = absurd (ground arith)
same_commit_eq (some a) (some b) h = ap (λ n. some n) ((==_iff a b).0 h)

pub same_order_eq : (j k : OrderKey) → same_order j k ≡ true → j ≡ k
same_order_eq j k h =
    let c : same_commit j.commit k.commit ≡ true = ground arith in
    ground (arith, same_commit_eq j.commit k.commit c)

same_commit_refl : (a : Option ℕ) → same_commit a a ≡ true
same_commit_refl none = refl
same_commit_refl (some a) = (==_iff a a).1 refl

pub same_order_refl : (k : OrderKey) → same_order k k ≡ true
same_order_refl k = ground (arith, same_commit_refl k.commit)

module _ (gone : OrderKey → Bool) (k : OrderKey) where
  -- An order that is filtered out by its key has one of the keys.
  pub mem-filter_out :
      (os : List Queued)
      → mem k (map okey os) ≡ true
      → (mem k (map okey (filter (λ o. not (gone (okey o))) os)) || gone k) ≡ true
  mem-filter_out [] h = absurd (ground arith)
  mem-filter_out (o ∷ os) h = elim (Bool-cases (same_order k (okey o))) [
    | inl e ↦
        let f = same_order_eq k (okey o) e in
        elim (Bool-cases (gone (okey o))) [
          | inl g ↦ rw f (rw g (ground arith))
          | inr g ↦ rw f (rw g (ground (arith, same_order_refl (okey o))))
        ]
    | inr e ↦
        let later = mem-filter_out os (ground arith) in
        elim (Bool-cases (gone (okey o))) [ inl g ↦ rw g later | inr g ↦ rw g (ground arith) ]
  ]
