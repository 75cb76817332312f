-- ===== src/Round/Capped.antt =====
-- What `plan_batch` of offchain/round.py promises of the plan that it returns.
use mathlib.Core.Path.{subst}
use jamswap.Prelude.{
  ℕ, zero, suc, ◌+◌, ◌≡◌, refl, sym, ap, ◌≤◌, ◌⊎◌, inl, inr, Bool, true, false, not, Option, List,
  [], ◌∷◌, ◌++◌, map, arith, filter, In, In-filter_inv, In-append, if◌then◌else◌, length, ◌==◌,
  count_all, List-cases,
}
use jamswap.Order.{Order}
use jamswap.Round.{
  RoundPlan, is_sealed, plan_round, all_ready, fit_passes, tag_of, Batch, candidates, batch_plan,
  take_out, refill, plan_batch, public_plan,
}
use jamswap.Round.Partition.{
  joins, rests, lapses, is_past, is_waiting, ready, not_ready, min_sell, max_buy, reveal-plan_round,
  carry-plan_round, expired-plan_round, deferred-plan_round, plan_round_partition,
}
use jamswap.Round.Reveal.{Meets, revealed_not_alone}

module _ (pending resting : List Order) (fit : List Order → List Order × List Order) (now : ℕ)
    (sealed_ready : Order → Bool) where
  abbrev pub plan : RoundPlan
  plan = plan_batch pending resting fit now sealed_ready

  abbrev pub full : RoundPlan
  full = plan_round pending resting now sealed_ready

  abbrev pub start : Batch
  start = record {
    crossing = map tag_of full.reveal;
    carry = full.carry;
    expired = full.expired;
    plan = public_plan [];
  }

  abbrev pub last : Batch
  last = refill pending resting fit now (suc fit_passes) start

  abbrev pub batch_of : List ℕ → List Order
  batch_of c = (fit (candidates pending resting fit now c)).0

  -- What competes in a pass, by the passes left after it.
  abbrev pub competing : ℕ → Batch → List ℕ
  competing n b = if n == 0 then map tag_of b.plan.reveal else b.crossing

  abbrev pub pass : List ℕ → RoundPlan
  pass c = batch_plan pending resting fit now c

  abbrev round : ℕ → Batch → List Order → Batch
  round n b stuck = elim stuck [
    | [] ↦ record b { crossing = competing n b; plan = pass (competing n b) }
    | ◌∷◌ _ _ ↦
        refill pending resting fit now n
          (take_out pending resting fit now b (competing n b) (pass (competing n b)))
  ]

  refill-round :
      (n : ℕ) (b : Batch) {stuck : List Order}
      → (pass (competing n b)).carry ++ (pass (competing n b)).expired ≡ stuck
      → refill pending resting fit now (suc n) b ≡ round n b stuck
  unfolding refill
  refill-round n b e = ap (round n b) e

  pub refill-plan :
      (n : ℕ) (b : Batch)
      → (c : List ℕ) × ((refill pending resting fit now (suc n) b).plan
          ≡ plan_round (batch_of c) resting now all_ready)
  refill-plan zero b =
      let p = pass (competing zero b) in
      elim (List-cases (p.carry ++ p.expired)) [
        | inl none_stuck ↦
            (competing zero b, rw (refill-round zero b none_stuck) (unfold batch_plan in refl))
        | inr (y, ys, e) ↦
            (competing zero b, rw (refill-round zero b e) (unfold refill take_out in refl))
      ]
  refill-plan (suc n) b =
      let p = pass (competing (suc n) b) in
      elim (List-cases (p.carry ++ p.expired)) [
        | inl none_stuck ↦ (
          competing (suc n) b,
          rw (refill-round (suc n) b none_stuck) (unfold batch_plan in refl),
        )
        | inr (y, ys, e) ↦
            let (d, h) =
              refill-plan n (take_out pending resting fit now b (competing (suc n) b) p) in
            (d, rw (refill-round (suc n) b e) h)
      ]

  pub last-plan : (c : List ℕ) × (last.plan ≡ plan_round (batch_of c) resting now all_ready)
  last-plan = refill-plan fit_passes start

  plan-parts :
      (plan.reveal ≡ last.plan.reveal)
      × (plan.public ≡ last.plan.public)
      × (plan.carry ≡ last.carry)
      × (plan.expired ≡ last.expired)
      × (plan.deferred ≡ full.deferred)
  unfolding plan_batch
  plan-parts = (refl, refl, refl, refl, refl)

  -- Every order that the capped plan reveals meets an order, on the other side and at a price that
  -- both accept, which is in the book or itself in the batch: nothing is revealed alone, whatever
  -- the capacity policy leaves out.
  pub plan_batch_not_alone :
      (o : Order)
      → In o plan.reveal
      → (c : Order) × In c (resting ++ (plan.public ++ plan.reveal)) × Meets o c
  unfolding plan_batch
  plan_batch_not_alone o m =
      let (c, e) = last-plan in
      let found =
        revealed_not_alone (batch_of c) resting now all_ready o
          (subst (λ (p : RoundPlan). In o p.reveal) e m) in
      subst (λ (p : RoundPlan). (x : Order) × In x (resting ++ (p.public ++ p.reveal)) × Meets o x)
        (sym e) found

  -- The orders of the batch are among those that the capacity policy admitted for some set of
  -- candidates, so the batch is within any bound that the policy keeps.
  pub plan_batch_within_cap :
      (limit : ℕ)
      → ((xs : List Order) → length (fit xs).0 ≤ limit)
      → length plan.reveal + length plan.public ≤ limit
  unfolding plan_batch
  plan_batch_within_cap limit bound =
      let (c, e) = last-plan in
      let (shared, _) = plan_round_partition (batch_of c) resting now all_ready (λ _. true) in
      subst (λ (p : RoundPlan). length p.reveal + length p.public ≤ limit) (sym e)
        (omega (
          arith,
          shared,
          bound (candidates pending resting fit now c),
          count_all (plan_round (batch_of c) resting now all_ready).reveal,
          count_all (plan_round (batch_of c) resting now all_ready).public,
          count_all (batch_of c),
        ))

  abbrev pub lo : Option ℕ
  lo = min_sell pending resting now sealed_ready

  abbrev pub hi : Option ℕ
  hi = max_buy pending resting now sealed_ready

  abbrev pub takes : Order → Bool
  takes = joins lo hi

  abbrev pub resting_still : Order → Bool
  resting_still = rests lo hi now

  abbrev pub lapsing : Order → Bool
  lapsing = lapses lo hi now

  ready_queue :
      (o : Order)
      → In o (ready pending resting now sealed_ready)
      → In o pending × (sealed_ready o ≡ true)
  ready_queue o i =
      let (j, r) = In-filter_inv sealed_ready o (filter is_sealed pending) i in
      ((In-filter_inv is_sealed o pending j).0, r)

  -- What each list of the first plan, over the whole queue, holds.
  pub full-ready :
      (o : Order)
      → In o full.reveal
      → In o pending × (o.sealed ≡ true) × (sealed_ready o ≡ true) × (takes o ≡ true)
  full-ready o m =
      let k = subst (In o) (reveal-plan_round pending resting now sealed_ready) m in
      let (i, t) = In-filter_inv takes o (ready pending resting now sealed_ready) k in
      let (j, r) = In-filter_inv sealed_ready o (filter is_sealed pending) i in
      let (q, s) = In-filter_inv is_sealed o pending j in (q, s, r, t)

  pub full-out :
      (o : Order)
      → In o full.carry ⊎ In o full.expired
      → In o pending × ((takes o ≡ false) ⊎ (sealed_ready o ≡ false))
  full-out o (inl m) =
      let k = subst (In o) (carry-plan_round pending resting now sealed_ready) m in
      let (i, t) = In-filter_inv resting_still o (ready pending resting now sealed_ready) k in
      ((ready_queue o i).0, inl (ground arith))
  full-out o (inr m) =
      let k = subst (In o) (expired-plan_round pending resting now sealed_ready) m in
      elim (In-append o (filter lapsing (ready pending resting now sealed_ready))
        (filter (is_past now) (not_ready pending resting now sealed_ready)) k) [
          | inl lapsed ↦
              let (i, t) =
                In-filter_inv lapsing o (ready pending resting now sealed_ready) lapsed in
              ((ready_queue o i).0, inl (ground arith))
          | inr waits ↦
              let (i, t) =
                In-filter_inv (is_past now) o (not_ready pending resting now sealed_ready) waits in
              let (j, r) =
                In-filter_inv (λ x. not (sealed_ready x)) o (filter is_sealed pending) i in
              ((In-filter_inv is_sealed o pending j).0, inr (ground arith))
        ]

  pub full-deferred : (o : Order) → In o full.deferred → In o pending × (sealed_ready o ≡ false)
  full-deferred o m =
      let k = subst (In o) (deferred-plan_round pending resting now sealed_ready) m in
      let (i, t) =
        In-filter_inv (is_waiting now) o (not_ready pending resting now sealed_ready) k in
      let (j, r) = In-filter_inv (λ x. not (sealed_ready x)) o (filter is_sealed pending) i in
      ((In-filter_inv is_sealed o pending j).0, ground arith)
