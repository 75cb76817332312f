-- ===== src/Settle/Recorded.antt =====
-- What `_finalize_round` of offchain/server.py writes about the orders of its round: a receipt, or that they
-- rest on the book.
use jamswap.Prelude.{
  ℕ, ◌≡◌, refl, inl, inr, Bool, true, false, not, ◌&&◌, ◌||◌, Option, none, some, List, [], ◌∷◌,
  ◌++◌, map, any, filter, arith, ltb, ◌==◌, Bool-cases, if◌then◌else◌, ap, ◌∙◌, length,
}
use jamswap.Order.{Order}
use jamswap.Clearing.{Cleared, Fills, fill_of}
use jamswap.Settle.Market.{
  Queued, OrderKey, okey, same_order, mem, Tracked, Market, Disposition, Note, settled, landed,
  late_landed, erased, abandoned, receipt, ended, rested, requeued, reverted, rounded, deferred,
  expired, is_lost, keys_of, order_expiry, noting,
}
use jamswap.Settle.Finish.{
  Carrying, record_exec, record_own, record_owns, record_executions, record_makers, carry_one,
  post_carry_seal, carry_remainders, settle_orders, end_pruned, finalize_round, grow_cap,
}
use jamswap.Settle.Keys.{
  any-append, map-append, mem-append, same_order_refl, same_order_eq, mem-filter_out,
}

-- A note of an order's receipt, or of its rest.
abbrev pub about : OrderKey → Note → Bool
about k (settled r) = false
about k (landed r) = false
about k (late_landed r) = false
about k (erased r) = false
about k (abandoned r why) = false
about k (receipt j d f) = same_order k j
about k (ended j d f) = false
about k (rested j p x f e) = same_order k j
about k (requeued j) = false
about k (reverted j) = false
about k (rounded j) = false
about k (deferred j) = false
about k (expired a oid) = false

abbrev pub recorded : OrderKey → List Note → Bool
recorded k log = any (λ n. about k n) log

pub recorded-append :
    (k : OrderKey) (xs ys : List Note) → recorded k (xs ++ ys) ≡ (recorded k xs || recorded k ys)
recorded-append k xs ys = any-append (λ n. about k n) xs ys

-- What is recorded stays so.
pub recorded-noting :
    (k : OrderKey) (es : List Note) (s : Market)
    → recorded k s.log ≡ true
    → recorded k (noting es s).log ≡ true
recorded-noting k es s h = rw (recorded-append k s.log es) (ground arith)

module _ (c : Cleared) (expiry : List (ℕ × ℕ × ℕ)) where
  recorded-record_own :
      (o : Queued) (d : Option Disposition) (f : ℕ) (b : Bool)
      → recorded (okey o) (record_own c expiry o d f b) ≡ true
  unfolding record_own record_exec
  recorded-record_own o d f b = elim (Bool-cases (not b && ltb f o.order.qty)) [
    | inl e ↦ rw e (rw (same_order_refl (okey o)) refl)
    | inr e ↦ rw e (rw (same_order_refl (okey o)) refl)
  ]

  -- Each of the round's own orders is recorded.
  recorded-record_owns :
      (k : OrderKey) (ids : List ℕ) (os : List (Queued × Option Disposition))
      → mem k (map (λ r. okey r.0) os) ≡ true
      → recorded k (record_owns c expiry ids os) ≡ true
  unfolding record_owns
  recorded-record_owns k ids [] h = absurd (ground arith)
  recorded-record_owns k ids ((o, d) ∷ os) h =
      let b = any (λ i. o.order.oid == i) ids in
      let f = fill_of o.order.oid c.fills in
      rw (recorded-append k (record_own c expiry o d f b) (record_owns c expiry ids os))
        (elim (Bool-cases (same_order k (okey o))) [
          | inl e ↦ rw (same_order_eq k (okey o) e) (rw (recorded-record_own o d f b) refl)
          | inr e ↦ let later = recorded-record_owns k ids os (ground arith) in ground arith
        ])

module _ (new_tag : Queued → ℕ) (seal : Queued → Option ℕ) (submit : Queued → Bool) where
  carry_one-stamped :
      (now : ℕ) (exp : Option ℕ) (f : ℕ) (o : Queued) (c : Carrying)
      → map (λ r. r.0) (carry_one new_tag seal submit now exp f o c).stamped
        ≡ o ∷ map (λ r. r.0) c.stamped
  unfolding carry_one post_carry_seal
  carry_one-stamped now exp f o c = ground arith

  pub carry_remainders-stamped :
      (now : ℕ) (expiry : List (ℕ × ℕ × ℕ)) (fills : Fills) (os : List Queued)
      → map (λ r. r.0) (carry_remainders new_tag seal submit now expiry fills os).stamped ≡ os
  unfolding carry_remainders
  carry_remainders-stamped now expiry fills [] = refl
  carry_remainders-stamped now expiry fills (o ∷ os) =
      carry_one-stamped now (order_expiry o.order.account o.order.oid expiry)
        (fill_of o.order.oid fills) o (carry_remainders new_tag seal submit now expiry fills os)
      ∙ ap (λ l. o ∷ l) (carry_remainders-stamped now expiry fills os)

own_keys :
    (reveal : List (Queued × Disposition)) (public : List Queued)
    → map
        (λ (r : Queued × Option Disposition). okey r.0)
        (map (λ r. (r.0, some r.1)) reveal ++ map (λ o. (o, none)) public)
      ≡ map okey (map (λ r. r.0) reveal ++ public)
own_keys [] [] = refl
own_keys [] (o ∷ os) = ap (λ l. okey o ∷ l) (own_keys [] os)
own_keys ((o, d) ∷ reveal) public = ap (λ l. okey o ∷ l) (own_keys reveal public)

recorded-record_executions :
    (k : OrderKey) (c : Cleared) (expiry : List (ℕ × ℕ × ℕ)) (makers : List Order)
    (reveal : List (Queued × Disposition)) (public : List Queued)
    → mem k (map okey (map (λ r. r.0) reveal ++ public)) ≡ true
    → recorded k (record_executions c expiry makers reveal public) ≡ true
unfolding record_executions
recorded-record_executions k c expiry makers reveal public h =
    let ids = map (λ (r : Queued × Disposition). r.0.order.oid) reveal in
    let os =
      map (λ (r : Queued × Disposition). (r.0, some r.1)) reveal
      ++ map (λ (o : Queued). (o, none)) public in
    let own = recorded-record_owns c expiry k ids os (rw (own_keys reveal public) h) in
    rw (recorded-append k (record_owns c expiry ids os) (record_makers c expiry makers))
      (rw own refl)

pub end_pruned-keeps :
    (k : OrderKey) (ps : List (ℕ × ℕ)) (s : Market)
    → ((end_pruned ps s).pending ≡ s.pending)
      × ((end_pruned ps s).inflight ≡ s.inflight)
      × (recorded k s.log ≡ true → recorded k (end_pruned ps s).log ≡ true)
end_pruned-keeps k [] s = (refl, refl, λ h. h)
end_pruned-keeps k ((a, oid) ∷ ps) s =
    let t : Market = record s {
      expiry = filter (λ e. not (a == e.0 && oid == e.1)) s.expiry;
      log = s.log ++ expired a oid ∷ [];
    } in
    let later = end_pruned-keeps k ps t in
    (later.0, later.1, λ h. later.2 (rw (recorded-append k s.log (expired a oid ∷ [])) (rw h refl)))

end_pruned-zombies : (ps : List (ℕ × ℕ)) (s : Market) → (end_pruned ps s).zombies ≡ s.zombies
end_pruned-zombies [] s = refl
end_pruned-zombies ((a, oid) ∷ ps) s = end_pruned-zombies ps _

-- An order of a list is held by another landed round, or is left in.
pub mem-not_lost :
    (k : OrderKey) (fr : Tracked) (os : List Queued)
    → mem k (map okey os) ≡ true
    → (mem k (map okey (filter (λ o. not (is_lost fr o)) os))
        || any (λ c. same_order k c.0) fr.claimed)
      ≡ true
mem-not_lost k fr os h = mem-filter_out (λ j. any (λ c. same_order j c.0) fr.claimed) k os h

module _ (new_tag : Queued → ℕ) (seal : Queued → Option ℕ) (submit : Queued → Bool) (most now : ℕ)
    (fr : Tracked) (s : Market) where
  -- What finalizing a round leaves as it was, or adds to.
  pub finalize_round-keeps :
      (k : OrderKey)
      → ((finalize_round new_tag seal submit most now fr s).inflight ≡ s.inflight)
        × (mem k (map okey s.pending) ≡ true
            → mem k (map okey (finalize_round new_tag seal submit most now fr s).pending) ≡ true)
        × (recorded k s.log ≡ true
            → recorded k (finalize_round new_tag seal submit most now fr s).log ≡ true)
  unfolding finalize_round
  finalize_round-keeps k =
      let sealed = filter (λ o. not (is_lost fr o)) fr.sealed in
      let public = filter (λ o. not (is_lost fr o)) fr.public in
      let c = carry_remainders new_tag seal submit now s.expiry fr.clearing.fills sealed in
      let grown =
        if fr.encset && ltb 0 (length fr.sealed)
        then grow_cap most (length fr.sealed) s.enc_cap
        else s.enc_cap in
      let t = settle_orders fr c public (record s { enc_cap = grown }) in
      let ends = end_pruned-keeps k fr.pruned t in
      (
        ends.1,
        λ h. rw ends.0 (
            rw (map-append okey s.pending c.carried_now)
              (rw (mem-append k (map okey s.pending) (map okey c.carried_now)) (rw h refl))),
        λ h. recorded-noting k (settled fr.rid ∷ []) (end_pruned fr.pruned t) (
            ends.2 (
              rw
                (recorded-append k s.log
                  (record_executions fr.clearing s.expiry fr.resting c.stamped public))
                (rw h refl))),
      )

  -- Each order of the round is recorded, or another landed round holds it.
  pub finalize_round-records :
      (k : OrderKey)
      → mem k (keys_of fr) ≡ true
      → (recorded k (finalize_round new_tag seal submit most now fr s).log
          || any (λ c. same_order k c.0) fr.claimed)
        ≡ true
  unfolding finalize_round keys_of
  finalize_round-records k h =
      let sealed = filter (λ o. not (is_lost fr o)) fr.sealed in
      let public = filter (λ o. not (is_lost fr o)) fr.public in
      let c = carry_remainders new_tag seal submit now s.expiry fr.clearing.fills sealed in
      let grown =
        if fr.encset && ltb 0 (length fr.sealed)
        then grow_cap most (length fr.sealed) s.enc_cap
        else s.enc_cap in
      let t = settle_orders fr c public (record s { enc_cap = grown }) in
      let es = record_executions fr.clearing s.expiry fr.resting c.stamped public in
      let ends = end_pruned-keeps k fr.pruned t in
      let left : (mem k (map okey (sealed ++ public)) || any (λ c. same_order k c.0) fr.claimed)
          ≡ true =
        rw (map-append okey sealed public) (
          rw (mem-append k (map okey sealed) (map okey public)) (
            let parts : (mem k (map okey fr.sealed) || mem k (map okey fr.public)) ≡ true =
              rw (← mem-append k (map okey fr.sealed) (map okey fr.public))
                (rw (← map-append okey fr.sealed fr.public) h) in
            let a = mem-not_lost k fr fr.sealed in
            let b = mem-not_lost k fr fr.public in
            elim (Bool-cases (mem k (map okey fr.sealed))) [
              | inl e ↦ let u = a e in ground arith
              | inr e ↦ let u = b (ground arith) in ground arith
            ])) in
      elim (Bool-cases (any (λ c. same_order k c.0) fr.claimed)) [
        | inl e ↦ rw e (ground arith)
        | inr e ↦
            let own : mem k (map okey (map (λ r. r.0) c.stamped ++ public)) ≡ true =
              rw
                (carry_remainders-stamped new_tag seal submit now s.expiry fr.clearing.fills sealed)
                (ground arith) in
            let new =
              recorded-record_executions k fr.clearing s.expiry fr.resting c.stamped public own in
            let all : recorded k t.log ≡ true =
              rw (recorded-append k s.log es) (rw new (ground arith)) in
            rw (recorded-noting k (settled fr.rid ∷ []) (end_pruned fr.pruned t) (ends.2 all)) refl
      ]

  pub finalize_round-zombies :
      (finalize_round new_tag seal submit most now fr s).zombies ≡ s.zombies
  unfolding finalize_round
  finalize_round-zombies = end_pruned-zombies fr.pruned _
