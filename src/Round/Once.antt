-- ===== src/Round/Once.antt =====
-- The six lists of the plan of `plan_batch`, offchain/round.py, against the queue.
use mathlib.Core.Path.{subst}
use jamswap.Prelude.{
  ℕ, suc, ◌≡◌, refl, ap, inl, inr, ◌↔◌, Bool, true, false, not, ◌||◌, List, ◌++◌, map, arith, In,
  In-filter, In-filter_inv, In-append, In-append_left, In-append_right, Bool-cases,
}
use jamswap.Order.{Order}
use jamswap.Round.{
  RoundPlan, is_public, all_ready, fit_passes, tag_of, has, batch_plan, candidates, plan_batch,
}
use jamswap.Round.Partition.{public-plan_round}
use jamswap.Round.Batches.{IsKept, refill-IsKept, tags-has, has-tags, reveal-pass}
use jamswap.Round.Capped.{
  plan, full, start, last, batch_of, takes, last-plan, full-ready, full-out, full-deferred,
}

module _ (pending resting : List Order) (fit : List Order → List Order × List Order) (now : ℕ)
    (admits : (xs : List Order) (o : Order) → In o (fit xs).0 → In o xs)
    (apart : (o x : Order) → In o pending → In x pending → o.tag ≡ x.tag → o ≡ x)
    (sealed_ready : Order → Bool) where
  abbrev whole : RoundPlan
  whole = full pending resting fit now sealed_ready

  abbrev result : RoundPlan
  result = plan pending resting fit now sealed_ready

  start-IsKept :
      IsKept pending resting fit now admits apart whole (start pending resting fit now sealed_ready)
  start-IsKept = record {
    in_queue = λ o m. (full-out pending resting fit now sealed_ready o m).0;
    out = λ o m. elim (Bool-cases (has (map tag_of whole.reveal) o)) [
      | inr gone ↦ gone
      | inl tagged ↦
          let (x, k, e) = tags-has whole.reveal o tagged in
          let (q, s, r, t) = full-ready pending resting fit now sealed_ready x k in
          let (q', either) = full-out pending resting fit now sealed_ready o m in
          let same = apart x o q q' e in
          elim either [
            | inl f ↦ cc (ap (takes pending resting fit now sealed_ready) same)
            | inr f ↦ cc (ap sealed_ready same)
          ]
    ];
    out_proven = λ o m. refl;
    from_full = λ o h. h;
    from_proven = λ o h. cc;
  }

  last-IsKept :
      IsKept pending resting fit now admits apart whole (last pending resting fit now sealed_ready)
  last-IsKept =
      refill-IsKept pending resting fit now admits apart whole (suc fit_passes)
        (start pending resting fit now sealed_ready) start-IsKept

  abbrev end_plan : RoundPlan
  end_plan = (last pending resting fit now sealed_ready).plan

  -- A revealed order is a sealed order of the queue.
  In-reveal : (o : Order) → In o end_plan.reveal → In o pending × (o.sealed ≡ true)
  In-reveal o m =
      let (c, e) = last-plan pending resting fit now sealed_ready in
      let k = subst (λ (p : RoundPlan). In o p.reveal) e m in
      let ((i, h, s), t) =
        reveal-pass pending resting fit now admits c o (unfold batch_plan in k) in
      (i, s)

  -- A public order of the batch is a public order of the queue.
  In-public : (o : Order) → In o end_plan.public → In o pending × (o.sealed ≡ false)
  unfolding candidates
  In-public o m =
      let (c, e) = last-plan pending resting fit now sealed_ready in
      let batch = batch_of pending resting fit now sealed_ready c in
      let k = subst (λ (p : RoundPlan). In o p.public) e m in
      let (i, s) =
        In-filter_inv is_public o batch
          (subst (In o) (public-plan_round batch resting now all_ready) k) in
      ((In-filter_inv (λ x. not x.sealed || has c x) o pending (admits _ o i)).0, ground arith)

  -- What overflows is what is in no other list.
  abbrev pub placed : List Order
  placed = result.reveal ++ (result.public ++ (result.carry ++ (result.expired ++ result.deferred)))

  In-overflow :
      (o : Order) → In o result.overflow → In o pending × (has (map tag_of placed) o ≡ false)
  unfolding plan_batch
  In-overflow o m =
      let (i, h) = In-filter_inv (λ x. not (has (map tag_of placed) x)) o pending m in
      (i, ground arith)

  overflow-In :
      (o : Order) → In o pending → has (map tag_of placed) o ≡ false → In o result.overflow
  unfolding plan_batch
  overflow-In o m h = In-filter (λ x. not (has (map tag_of placed) x)) o pending m (rw h)

  In-deferred : (o : Order) → In o result.deferred → In o pending × (sealed_ready o ≡ false)
  unfolding plan_batch
  In-deferred o m = full-deferred pending resting fit now sealed_ready o m

  revealed-not-deferred : (o : Order) → In o end_plan.reveal → ¬ (In o result.deferred)
  revealed-not-deferred o m k =
      let (q, f) = In-deferred o k in
      let (x, i, e) =
        tags-has whole.reveal o (last-IsKept.from_proven o (has-tags end_plan.reveal o m)) in
      let (q', s, r, t) = full-ready pending resting fit now sealed_ready x i in
      cc (ap sealed_ready (apart x o q' q e))

  revealed-not-overflow : (o : Order) → In o result.reveal → ¬ (In o result.overflow)
  revealed-not-overflow o m k =
      cc (has-tags placed o (In-append_left o result.reveal _ m), (In-overflow o k).1)

  -- A revealed order is in none of the other lists of the plan, so it is never queued again nor
  -- dropped: with a capacity policy that only selects, and orders told apart by their identity.
  pub plan_batch_once :
      (o : Order)
      → In o result.reveal
      → ¬ (In o result.public)
        × ¬ (In o result.carry)
        × ¬ (In o result.expired)
        × ¬ (In o result.deferred)
        × ¬ (In o result.overflow)
  plan_batch_once o m = (
    (λ k. cc ((In-reveal o (shown m)).1, (In-public o (unfold plan_batch in k)).1)),
    (λ k. cc (
      has-tags end_plan.reveal o (shown m),
      last-IsKept.out_proven o (inl (unfold plan_batch in k)),
    )),
    (λ k. cc (
      has-tags end_plan.reveal o (shown m),
      last-IsKept.out_proven o (inr (unfold plan_batch in k)),
    )),
    revealed-not-deferred o (shown m),
    revealed-not-overflow o m,
  )
    where
      shown : In o result.reveal → In o end_plan.reveal
      shown k = unfold plan_batch in k

  In-placed : (o : Order) → In o placed → In o pending
  unfolding plan_batch
  In-placed o m = elim (In-append o result.reveal _ m) [
    | inl a ↦ (In-reveal o a).0
    | inr m1 ↦ elim (In-append o result.public _ m1) [
      | inl a ↦ (In-public o a).0
      | inr m2 ↦ elim (In-append o result.carry _ m2) [
        | inl a ↦ last-IsKept.in_queue o (inl a)
        | inr m3 ↦ elim (In-append o result.expired _ m3) [
          | inl a ↦ last-IsKept.in_queue o (inr a)
          | inr a ↦ (In-deferred o a).0
        ]
      ]
    ]
  ]

  -- With a capacity policy that only selects, and orders told apart by their identity, no order of
  -- the queue is lost and none is invented: the queue holds exactly the orders of the plan's six lists.
  pub plan_batch_keeps_all : (o : Order) → In o pending ↔ In o (placed ++ result.overflow)
  plan_batch_keeps_all o = (
    (λ m. elim (Bool-cases (has (map tag_of placed) o)) [
      | inl tagged ↦
          let (x, k, e) = tags-has placed o tagged in
          In-append_left o placed result.overflow (rw (← apart x o (In-placed x k) m e) k)
      | inr untagged ↦ In-append_right o placed result.overflow (overflow-In o m untagged)
    ]),
    (λ m. elim (In-append o placed result.overflow m) [
      | inl a ↦ In-placed o a
      | inr a ↦ (In-overflow o a).0
    ]),
  )
