-- ===== src/Telemetry/Store.antt =====
-- The dict `_orders` of offchain/order_telemetry.py, by the key (market, account, oid).
use jamswap.Prelude.{
  ℕ, ◌≡◌, refl, Bool, true, ◌&&◌, Option, none, some, List, [], ◌∷◌, arith, ◌==◌, if◌then◌else◌,
}

pub record Key : Type 0 where
  pub market : ℕ
  pub account : ℕ
  pub oid : ℕ

abbrev pub same_key : Key → Key → Bool
same_key a b = a.market == b.market && (a.account == b.account && a.oid == b.oid)

pub same_key_eq : (a b : Key) → same_key a b ≡ true → a ≡ b
same_key_eq a b h = ground arith

pub same_key_refl : (a : Key) → same_key a a ≡ true
same_key_refl a = ground arith

module _ {ℓ} {V : Type ℓ} where
  -- `d.get(k)`
  unfoldable pub find : Key → List (Key × V) → Option V
  find k [] = none
  find k ((j, v) ∷ d) = if same_key k j then some v else find k d

  -- `d[k] = v`
  unfoldable pub put : Key → V → List (Key × V) → List (Key × V)
  put k v [] = (k, v) ∷ []
  put k v ((j, w) ∷ d) = if same_key k j then (j, v) ∷ d else (j, w) ∷ put k v d

  -- `d.pop(k, None)`, as the dict that is left.
  unfoldable pub pop : Key → List (Key × V) → List (Key × V)
  pop k [] = []
  pop k ((j, v) ∷ d) = if same_key k j then pop k d else (j, v) ∷ pop k d

  pub find-put :
      (i k : Key) (v : V) (d : List (Key × V))
      → find i (put k v d) ≡ (if same_key i k then some v else find i d)
  unfolding find put
  find-put i k v [] = refl
  find-put i k v ((j, w) ∷ d) = ground (arith, find-put i k v d)

  pub find-pop :
      (i k : Key) (d : List (Key × V))
      → find i (pop k d) ≡ (if same_key i k then none else find i d)
  unfolding find pop
  find-pop i k [] = ground arith
  find-pop i k ((j, w) ∷ d) = ground (arith, find-pop i k d)
