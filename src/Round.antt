-- ===== src/Round.antt =====
-- Round planning, offchain/round.py: which orders an auction takes, and which sealed orders rest.
pub mod Partition
pub mod Reveal
pub mod Batches
pub mod Capped
pub mod Once
pub mod Examples
use jamswap.Prelude.{
  ℕ, zero, suc, Bool, true, false, not, ◌&&◌, ◌||◌, Option, none, some, List, [], ◌∷◌, ◌++◌, map,
  ltb, leb, ◌==◌, if◌then◌else◌, filter, any,
}
use jamswap.Order.{Order, Side, buy, sell, is_buy, is_sell}

-- `RoundPlan`
pub record RoundPlan : Type 0 where
  pub reveal : List Order
  pub public : List Order
  pub carry : List Order
  pub expired : List Order
  pub deferred : List Order
  pub overflow : List Order

-- `min(ps) if ps else None`
unfoldable pub min_price : List ℕ → Option ℕ
min_price [] = none
min_price (p ∷ ps) = elim (min_price ps) [
  | none ↦ some p
  | some q ↦ some (if leb p q then p else q)
]

-- `max(ps) if ps else None`
unfoldable pub max_price : List ℕ → Option ℕ
max_price [] = none
max_price (p ∷ ps) = elim (max_price ps) [
  | none ↦ some p
  | some q ↦ some (if leb q p then p else q)
]

abbrev pub price_of : Order → ℕ
price_of o = o.price

abbrev pub selling : Order → Bool
selling o = is_sell o.side

abbrev pub buying : Order → Bool
buying o = is_buy o.side

-- `_best_opposing`: the lowest sell and the highest buy.
unfoldable pub best_opposing : List Order → Option ℕ × Option ℕ
unfolding min_price max_price
best_opposing os =
    (min_price (map price_of (filter selling os)), max_price (map price_of (filter buying os)))

-- `min_sell is not None and price >= min_sell`
abbrev pub at_or_above : ℕ → Option ℕ → Bool
at_or_above p none = false
at_or_above p (some q) = leb q p

-- `max_buy is not None and price <= max_buy`
abbrev pub at_or_below : ℕ → Option ℕ → Bool
at_or_below p none = false
at_or_below p (some q) = leb p q

unfoldable pub crosses : Order → Option ℕ → Option ℕ → Bool
crosses o min_sell max_buy =
    if is_buy o.side then at_or_above o.price min_sell else at_or_below o.price max_buy

-- `exp is not None and exp <= now`
abbrev pub past : Option ℕ → ℕ → Bool
past none now = false
past (some t) now = leb t now

-- The loop over the ready sealed orders.
unfoldable pub judge_ready : List Order → Option ℕ → Option ℕ → ℕ → RoundPlan → RoundPlan
judge_ready [] min_sell max_buy now plan = plan
judge_ready (o ∷ os) min_sell max_buy now plan = judge_ready os min_sell max_buy now (
    if crosses o min_sell max_buy
    then record plan { reveal = plan.reveal ++ o ∷ [] }
    else if past o.expiry now
    then record plan { expired = plan.expired ++ o ∷ [] }
    else record plan { carry = plan.carry ++ o ∷ [] })

-- The loop over the sealed orders whose commit is not on chain yet.
unfoldable pub judge_waiting : List Order → ℕ → RoundPlan → RoundPlan
judge_waiting [] now plan = plan
judge_waiting (o ∷ os) now plan = judge_waiting os now (
    if past o.expiry now
    then record plan { expired = plan.expired ++ o ∷ [] }
    else record plan { deferred = plan.deferred ++ o ∷ [] })

abbrev pub is_public : Order → Bool
is_public o = not o.sealed

abbrev pub is_sealed : Order → Bool
is_sealed o = o.sealed

abbrev pub public_plan : List Order → RoundPlan
public_plan os = record {
  reveal = [];
  public = os;
  carry = [];
  expired = [];
  deferred = [];
  overflow = [];
}

-- The orders against which crossing is judged, `everything`.
unfoldable pub liquidity : List Order → List Order → (Order → Bool) → List Order
liquidity pending resting sealed_ready =
    resting ++ (filter is_public pending ++ filter sealed_ready (filter is_sealed pending))

unfoldable pub plan_round : List Order → List Order → ℕ → (Order → Bool) → RoundPlan
unfolding best_opposing crosses judge_ready judge_waiting liquidity
plan_round pending resting now sealed_ready =
    let sealed = filter is_sealed pending in
    let ready = filter sealed_ready sealed in
    let not_ready = filter (λ o. not (sealed_ready o)) sealed in
    let (min_sell, max_buy) = best_opposing (liquidity pending resting sealed_ready) in
    judge_waiting not_ready now
      (judge_ready ready min_sell max_buy now (public_plan (filter is_public pending)))

-- `sealed_ready=None`: every sealed order counts as ready.
abbrev pub all_ready : Order → Bool
all_ready o = true

abbrev pub fit_passes : ℕ
fit_passes = 4

abbrev pub tag_of : Order → ℕ
tag_of o = o.tag

-- `id(o) in tags`
abbrev pub has : List ℕ → Order → Bool
has tags o = any (λ t. t == o.tag) tags

-- The variables of the loop of `plan_batch`. `plan` is unbound in the source before the first
-- pass, which does not read it.
pub record Batch : Type 0 where
  pub crossing : List ℕ
  pub carry : List Order
  pub expired : List Order
  pub plan : RoundPlan

-- The capacity policy is an argument of `plan_batch`, as in the source.
module _ (pending resting : List Order) (fit : List Order → List Order × List Order) (now : ℕ) where
  -- `cands`: public orders, and the sealed ones that still compete.
  unfoldable pub candidates : List ℕ → List Order
  candidates crossing = filter (λ o. not o.sealed || has crossing o) pending

  -- One pass: `crossing` as it stands, and the plan of the batch that fits.
  unfoldable pub batch_plan : List ℕ → RoundPlan
  unfolding candidates
  batch_plan crossing =
      let (batch, _) = fit (candidates crossing) in plan_round batch resting now all_ready

  -- `crossing -= {id(o) for o in stuck}`
  abbrev pub without : List ℕ → List Order → List ℕ
  without tags stuck = filter (λ t. not (any (λ o. t == o.tag) stuck)) tags

  -- What a pass whose plan has stuck orders leaves for the next one.
  unfoldable pub take_out : Batch → List ℕ → RoundPlan → Batch
  take_out b crossing plan = record {
    crossing = without crossing (plan.carry ++ plan.expired);
    carry = b.carry ++ plan.carry;
    expired = b.expired ++ plan.expired;
    plan = plan;
  }

  -- The loop, by the passes left. In the last one only the proven reveals compete.
  unfoldable pub refill : ℕ → Batch → Batch
  unfolding take_out batch_plan
  refill zero b = b
  refill (suc left) b =
      let crossing = if left == 0 then map tag_of b.plan.reveal else b.crossing in
      let plan = batch_plan crossing in
      elim (plan.carry ++ plan.expired) [
        | [] ↦ record b { crossing = crossing; plan = plan }
        | ◌∷◌ _ _ ↦ refill left (take_out b crossing plan)
      ]

  -- The orders of the queue that are in none of the lists.
  abbrev pub unplaced : List Order → List Order
  unplaced placed = filter (λ o. not (has (map tag_of placed) o)) pending

  unfoldable pub plan_batch : (Order → Bool) → RoundPlan
  unfolding refill
  plan_batch sealed_ready =
      let full = plan_round pending resting now sealed_ready in
      let b = refill (suc fit_passes) (record {
        crossing = map tag_of full.reveal;
        carry = full.carry;
        expired = full.expired;
        plan = public_plan [];
      }) in
      record {
        reveal = b.plan.reveal;
        public = b.plan.public;
        carry = b.carry;
        expired = b.expired;
        deferred = full.deferred;
        overflow =
            unplaced
              (b.plan.reveal ++ (b.plan.public ++ (b.carry ++ (b.expired ++ full.deferred))));
      }
