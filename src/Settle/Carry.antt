-- ===== src/Settle/Carry.antt =====
-- `_carry_sealed_remainders` of offchain/server.py: no quantity of a revealed order is dropped, and every order
-- ends or goes on in one remainder.
use jamswap.Prelude.{
  ℕ, ◌+◌, ◌-◌, ◌≡◌, refl, inl, inr, Bool, true, false, Option, List, [], ◌∷◌, arith, min,
  Bool-cases, ltb, length, count, if◌then◌else◌,
}
use jamswap.Clearing.{Fills, fill_of}
use jamswap.Settle.Market.{Queued, Disposition, order_expiry}
use jamswap.Settle.Finish.{
  Carrying, carry_one, carry_remainders, carry_outcome, expiry_outcome, post_carry_seal, remainder,
  is_over, ends_order,
}

abbrev pub quantity : List Queued → ℕ
quantity [] = 0
quantity (o ∷ os) = o.order.qty + quantity os

-- What the clearing filled of the orders, and what is left of those that have expired.
abbrev pub filled_of : Fills → List Queued → ℕ
filled_of fills [] = 0
filled_of fills (o ∷ os) = min (fill_of o.order.oid fills) o.order.qty + filled_of fills os

abbrev pub lapsed : ℕ → List (ℕ × ℕ × ℕ) → Fills → List Queued → ℕ
lapsed now expiry fills [] = 0
lapsed now expiry fills (o ∷ os) =
    (if is_over now (order_expiry o.order.account o.order.oid expiry)
      then o.order.qty - fill_of o.order.oid fills
      else 0)
    + lapsed now expiry fills os

-- The orders whose stamp ends them.
abbrev pub ends_of : List (Queued × Disposition) → ℕ
ends_of ds = count (λ d. ends_order d.1) ds

carry_outcome_lives : (f : ℕ) → ends_order (carry_outcome f) ≡ false
carry_outcome_lives f = elim (Bool-cases (ltb 0 f)) [ inl e ↦ rw e refl | inr e ↦ rw e refl ]

expiry_outcome_ends : (f : ℕ) → ends_order (expiry_outcome f) ≡ true
expiry_outcome_ends f = elim (Bool-cases (ltb 0 f)) [ inl e ↦ rw e refl | inr e ↦ rw e refl ]

module _ (new_tag : Queued → ℕ) (seal : Queued → Option ℕ) (submit : Queued → Bool) where
  -- One order: its quantity, and whether it ends.
  carry_one_lem :
      (now : ℕ) (exp : Option ℕ) (f : ℕ) (o : Queued) (c : Carrying)
      → let d = carry_one new_tag seal submit now exp f o c in
        (quantity d.carried_now
            + quantity d.unposted
            + min f o.order.qty
            + (if is_over now exp then o.order.qty - f else 0)
          ≡ o.order.qty + quantity c.carried_now + quantity c.unposted)
        × (ends_of d.stamped + length d.carried_now + length d.unposted
            ≡ 1 + ends_of c.stamped + length c.carried_now + length c.unposted)
  unfolding carry_one post_carry_seal remainder
  carry_one_lem now exp f o c =
      let a = carry_outcome_lives f in let b = expiry_outcome_ends f in ground arith

  -- The carry of the revealed orders of a settled round drops nothing: what the clearing filled, what is
  -- sealed again, what is queued to be sealed and what is left of expired orders add up to the orders'
  -- quantity, and each order is either ended by its receipt or goes on in exactly one remainder, whatever
  -- can be sealed and posted.
  pub carry_remainders_conserves :
      (now : ℕ) (expiry : List (ℕ × ℕ × ℕ)) (fills : Fills) (os : List Queued)
      → let c = carry_remainders new_tag seal submit now expiry fills os in
        (filled_of fills os
            + quantity c.carried_now
            + quantity c.unposted
            + lapsed now expiry fills os
          ≡ quantity os)
        × (ends_of c.stamped + length c.carried_now + length c.unposted ≡ length os)
  unfolding carry_remainders
  carry_remainders_conserves now expiry fills [] = (omega arith, omega arith)
  carry_remainders_conserves now expiry fills (o ∷ os) =
      let ih = carry_remainders_conserves now expiry fills os in
      let exp = order_expiry o.order.account o.order.oid expiry in
      let one =
        carry_one_lem now exp (fill_of o.order.oid fills) o
          (carry_remainders new_tag seal submit now expiry fills os) in
      (omega (arith, one.0, ih.0), omega (arith, one.1, ih.1))
