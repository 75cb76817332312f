-- ===== src/Round/Examples.antt =====
-- Runs of offchain/round.py on a small queue: a sealed buy that crosses the book, one that rests and
-- one whose commit is not on chain yet.
use jamswap.Prelude.{
  ℕ, ◌+◌, ◌≡◌, refl, ◌≤◌, inl, inr, ◌↔◌, Bool, true, false, some, List, [], ◌∷◌, ◌++◌, arith,
  length, count, In, ◌==◌,
}
use jamswap.Order.{Order, buy}
use jamswap.Clearing.{clear}
use jamswap.Clearing.Examples.{ask, bid}
use jamswap.Round.{RoundPlan, is_public, liquidity, plan_round, plan_batch}
use jamswap.Round.Partition.{plan_round_partition}
use jamswap.Round.Reveal.{Meets, submitted, carry_clearing_neutral}
use jamswap.Round.Capped.{plan_batch_not_alone}
use jamswap.Round.Once.{plan_batch_once, plan_batch_keeps_all, placed}

abbrev sealed_bid : ℕ → ℕ → Order
sealed_bid tag price = record {
  tag = tag;
  account = tag;
  oid = tag;
  side = buy;
  price = price;
  qty = 2;
  sealed = true;
  expiry = some 50;
  seq = 1;
}

abbrev crossing_bid : Order
crossing_bid = sealed_bid 5 11

abbrev queue : List Order
queue = crossing_bid ∷ bid ∷ sealed_bid 6 4 ∷ sealed_bid 7 11 ∷ []

abbrev book : List Order
book = ask ∷ []

-- The order with tag 7 has no commit yet.
abbrev committed : Order → Bool
committed o = elim (o.tag == 7) [ true ↦ false | false ↦ true ]

-- A policy that takes the whole queue, as far as two orders.
abbrev fit_two : List Order → List Order × List Order
fit_two (a ∷ b ∷ os) = (a ∷ b ∷ [], os)
fit_two os = (os, [])

abbrev round_plan : RoundPlan
round_plan = plan_round queue book 20 committed

abbrev batch : RoundPlan
batch = plan_batch queue book fit_two 20 committed

round_plan_result : round_plan ≡ record {
  reveal = crossing_bid ∷ [];
  public = bid ∷ [];
  carry = sealed_bid 6 4 ∷ [];
  expired = [];
  deferred = sealed_bid 7 11 ∷ [];
  overflow = [];
}
unfolding plan_round
round_plan_result = refl

batch_result : batch ≡ round_plan
unfolding plan_batch plan_round
batch_result = refl

In-reveal_batch : In crossing_bid batch.reveal
unfolding plan_batch plan_round
In-reveal_batch = inl refl

fit_two-admits : (xs : List Order) (o : Order) → In o (fit_two xs).0 → In o xs
fit_two-admits [] o m = m
fit_two-admits (a ∷ []) o m = m
fit_two-admits (a ∷ b ∷ os) o (inl e) = inl e
fit_two-admits (a ∷ b ∷ os) o (inr (inl e)) = inr (inl e)
fit_two-admits (a ∷ b ∷ os) o (inr (inr m)) = elim m [ ]

length-fit_two : (xs : List Order) → length (fit_two xs).0 ≤ 2
length-fit_two [] = omega arith
length-fit_two (a ∷ []) = omega arith
length-fit_two (a ∷ b ∷ os) = omega arith

queue-apart : (o x : Order) → In o queue → In x queue → o.tag ≡ x.tag → o ≡ x
queue-apart o x m n e = ground arith

plan_round_partition_example :
    (count is_public round_plan.reveal
        + count is_public round_plan.public
        + count is_public round_plan.carry
        + count is_public round_plan.expired
        + count is_public round_plan.deferred
      ≡ count is_public queue)
    × (round_plan.overflow ≡ [])
plan_round_partition_example = plan_round_partition queue book 20 committed is_public

carry_clearing_neutral_example :
    clear (submitted queue book 20 committed) ≡ clear (liquidity queue book committed)
carry_clearing_neutral_example = carry_clearing_neutral queue book 20 committed

plan_batch_not_alone_example :
    (c : Order) × In c (book ++ (batch.public ++ batch.reveal)) × Meets crossing_bid c
plan_batch_not_alone_example =
    plan_batch_not_alone queue book fit_two 20 committed crossing_bid In-reveal_batch

plan_batch_once_example :
    ¬ (In crossing_bid batch.public)
    × ¬ (In crossing_bid batch.carry)
    × ¬ (In crossing_bid batch.expired)
    × ¬ (In crossing_bid batch.deferred)
    × ¬ (In crossing_bid batch.overflow)
plan_batch_once_example =
    plan_batch_once queue book fit_two 20 fit_two-admits queue-apart committed crossing_bid
      In-reveal_batch

plan_batch_keeps_all_example :
    In bid queue
    ↔ In bid (placed queue book fit_two 20 fit_two-admits queue-apart committed ++ batch.overflow)
plan_batch_keeps_all_example =
    plan_batch_keeps_all queue book fit_two 20 fit_two-admits queue-apart committed bid
