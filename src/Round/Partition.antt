-- ===== src/Round/Partition.antt =====
-- The lists of `plan_round` of offchain/round.py, in closed form, and that they share out the queue.
use jamswap.Prelude.{
  ℕ, ◌+◌, ◌≡◌, refl, ◌∙◌, Bool, not, ◌&&◌, Option, List, [], ◌∷◌, ◌++◌, arith, filter, count,
  count-append, Bool-cases, inl, inr, ap,
}
use mathlib.Core.List.{append_assoc, append-nil}
use jamswap.Order.{Order}
use jamswap.Round.{
  RoundPlan, best_opposing, crosses, past, judge_ready, judge_waiting, is_public, is_sealed,
  public_plan, liquidity, plan_round,
}

abbrev pub joins : Option ℕ → Option ℕ → Order → Bool
joins min_sell max_buy o = crosses o min_sell max_buy

abbrev pub lapses : Option ℕ → Option ℕ → ℕ → Order → Bool
lapses min_sell max_buy now o = not (crosses o min_sell max_buy) && past o.expiry now

abbrev pub rests : Option ℕ → Option ℕ → ℕ → Order → Bool
rests min_sell max_buy now o = not (crosses o min_sell max_buy) && not (past o.expiry now)

abbrev pub is_past : ℕ → Order → Bool
is_past now o = past o.expiry now

abbrev pub is_waiting : ℕ → Order → Bool
is_waiting now o = not (past o.expiry now)

judge_ready_lem :
    (os : List Order) (min_sell max_buy : Option ℕ) (now : ℕ) (plan : RoundPlan)
    → judge_ready os min_sell max_buy now plan ≡ record plan {
      reveal = plan.reveal ++ filter (joins min_sell max_buy) os;
      carry = plan.carry ++ filter (rests min_sell max_buy now) os;
      expired = plan.expired ++ filter (lapses min_sell max_buy now) os;
    }
unfolding judge_ready
judge_ready_lem [] min_sell max_buy now plan = simp append-nil
judge_ready_lem (o ∷ os) min_sell max_buy now plan =
    elim (Bool-cases (crosses o min_sell max_buy)) [
      | inl yes_crosses ↦
          rw (yes_crosses, judge_ready_lem os min_sell max_buy now) (simp append_assoc)
      | inr no_crosses ↦ elim (Bool-cases (past o.expiry now)) [
        | inl late ↦
            rw (no_crosses, late, judge_ready_lem os min_sell max_buy now) (simp append_assoc)
        | inr early ↦
            rw (no_crosses, early, judge_ready_lem os min_sell max_buy now) (simp append_assoc)
      ]
    ]

judge_waiting_lem :
    (os : List Order) (now : ℕ) (plan : RoundPlan)
    → judge_waiting os now plan ≡ record plan {
      expired = plan.expired ++ filter (is_past now) os;
      deferred = plan.deferred ++ filter (is_waiting now) os;
    }
unfolding judge_waiting
judge_waiting_lem [] now plan = simp append-nil
judge_waiting_lem (o ∷ os) now plan = elim (Bool-cases (past o.expiry now)) [
  | inl late ↦ rw (late, judge_waiting_lem os now) (simp append_assoc)
  | inr early ↦ rw (early, judge_waiting_lem os now) (simp append_assoc)
]

module _ (pending resting : List Order) (now : ℕ) (sealed_ready : Order → Bool) where
  abbrev pub ready : List Order
  ready = filter sealed_ready (filter is_sealed pending)

  abbrev pub not_ready : List Order
  not_ready = filter (λ o. not (sealed_ready o)) (filter is_sealed pending)

  abbrev pub min_sell : Option ℕ
  min_sell = (best_opposing (liquidity pending resting sealed_ready)).0

  abbrev pub max_buy : Option ℕ
  max_buy = (best_opposing (liquidity pending resting sealed_ready)).1

  -- Every list of the plan is a selection of the queue.
  pub plan_round_lem : plan_round pending resting now sealed_ready ≡ record {
    reveal = filter (joins min_sell max_buy) ready;
    public = filter is_public pending;
    carry = filter (rests min_sell max_buy now) ready;
    expired = filter (lapses min_sell max_buy now) ready ++ filter (is_past now) not_ready;
    deferred = filter (is_waiting now) not_ready;
    overflow = [];
  }
  unfolding plan_round
  plan_round_lem =
      judge_waiting_lem not_ready now
        (judge_ready ready min_sell max_buy now (public_plan (filter is_public pending)))
      ∙ ap
          (λ (plan : RoundPlan). record plan {
            expired = plan.expired ++ filter (is_past now) not_ready;
            deferred = plan.deferred ++ filter (is_waiting now) not_ready;
          })
          (judge_ready_lem ready min_sell max_buy now (public_plan (filter is_public pending)))

  pub reveal-plan_round :
      (plan_round pending resting now sealed_ready).reveal ≡ filter (joins min_sell max_buy) ready
  reveal-plan_round = ap (λ (p : RoundPlan). p.reveal) plan_round_lem

  pub public-plan_round :
      (plan_round pending resting now sealed_ready).public ≡ filter is_public pending
  public-plan_round = ap (λ (p : RoundPlan). p.public) plan_round_lem

  pub carry-plan_round :
      (plan_round pending resting now sealed_ready).carry
      ≡ filter (rests min_sell max_buy now) ready
  carry-plan_round = ap (λ (p : RoundPlan). p.carry) plan_round_lem

  pub expired-plan_round :
      (plan_round pending resting now sealed_ready).expired
      ≡ filter (lapses min_sell max_buy now) ready ++ filter (is_past now) not_ready
  expired-plan_round = ap (λ (p : RoundPlan). p.expired) plan_round_lem

  pub deferred-plan_round :
      (plan_round pending resting now sealed_ready).deferred ≡ filter (is_waiting now) not_ready
  deferred-plan_round = ap (λ (p : RoundPlan). p.deferred) plan_round_lem

  -- Two complementary selections of the queue count each order once.
  count-split :
      (q p r : Order → Bool) (xs : List Order)
      → count q (filter (λ o. p o && r o) xs) + count q (filter (λ o. p o && not (r o)) xs)
        ≡ count q (filter p xs)
  count-split q p r [] = refl
  count-split q p r (x ∷ xs) = ground (arith, count-split q p r xs)

  count-not :
      (q p : Order → Bool) (xs : List Order)
      → count q (filter p xs) + count q (filter (λ o. not (p o)) xs) ≡ count q xs
  count-not q p [] = refl
  count-not q p (x ∷ xs) = ground (arith, count-not q p xs)

  abbrev pub plan : RoundPlan
  plan = plan_round pending resting now sealed_ready

  -- `plan_round` shares out the queue: each order lands in exactly one of reveal, public, carry,
  -- expired and deferred, however often it stands there; nothing overflows.
  pub plan_round_partition :
      (q : Order → Bool)
      → (count q plan.reveal
            + count q plan.public
            + count q plan.carry
            + count q plan.expired
            + count q plan.deferred
          ≡ count q pending)
        × (plan.overflow ≡ [])
  plan_round_partition q = rw plan_round_lem (
    omega (
      arith,
      count-append q (filter (lapses min_sell max_buy now) ready) (filter (is_past now) not_ready),
      count-split q (λ o. not (crosses o min_sell max_buy)) (is_past now) ready,
      count-not q (joins min_sell max_buy) ready,
      count-not q (is_past now) not_ready,
      count-not q sealed_ready (filter is_sealed pending),
      count-not q is_sealed pending,
    ),
    refl,
  )
