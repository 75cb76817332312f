-- ===== src/Server.antt =====
-- What offchain/server.py does with the orders of a round before it submits them: `_seq_sanitize` and
-- `_cap_batch`. The on-chain floor of an account, which `_seq_floor` reads, is a parameter.
pub mod Seq
pub mod Cap
pub mod Dealt
pub mod Oldest
pub mod Pricing
pub mod Examples
use jamswap.Prelude.{
  ℕ, zero, suc, ◌+◌, Bool, true, false, not, ◌&&◌, ◌||◌, Option, some, none, List, [], ◌∷◌, ◌++◌,
  map, any, filter, length, ltb, leb, ◌==◌, if◌then◌else◌,
}
use jamswap.Order.{Order}
use jamswap.Clearing.{sort_by}
use jamswap.Round.{has, tag_of}

-- The sort key `(o["account"], o.get("seq", 0))`.
abbrev pub account_first : Order → Order → Bool
account_first a b = ltb a.account b.account || (a.account == b.account && leb a.seq b.seq)

-- `run[a] = s`, on the dict as a function.
abbrev pub raise : (ℕ → ℕ) → ℕ → ℕ → ℕ → ℕ
raise run a s b = if b == a then s else run b

-- Why an order is dead, with the floor and the sequence number of the message.
pub data Reason : Type 0 where
  superseded : ℕ → ℕ → Reason
  duplicate : ℕ → Reason

-- `kept, dead, floors`
pub record Sanitized : Type 0 where
  pub kept : List Order
  pub dead : List (Order × Reason)
  pub floors : List (ℕ × ℕ)

-- `a not in floors`, then `floors[a] = ...`
unfoldable pub see : ℕ → ℕ → List (ℕ × ℕ) → List (ℕ × ℕ)
see a f [] = (a, f) ∷ []
see a f ((b, g) ∷ fs) = if a == b then (b, g) ∷ fs else (b, g) ∷ see a f fs

-- The tests on an order's sequence number, with its account's floor and running floor.
unfoldable pub seq_verdict : ℕ → ℕ → ℕ → Option Reason
seq_verdict floor running s =
    if leb s floor
    then some (superseded floor s)
    else if leb s running
    then some (duplicate s)
    else none

-- What a verdict does to the running floors, and where it files the order.
abbrev pub run_after : (ℕ → ℕ) → Order → Option Reason → ℕ → ℕ
run_after run o none = raise run o.account o.seq
run_after run o (some r) = run

abbrev pub filed : ℕ → Order → Option Reason → Sanitized → Sanitized
filed floor o none r = record r { kept = r.kept ++ o ∷ []; floors = see o.account floor r.floors }
filed floor o (some why) r = record r {
  dead = r.dead ++ (o, why) ∷ [];
  floors = see o.account floor r.floors;
}

module _ (seq_floor : ℕ → ℕ) where
  -- The loop, with the running floors. An account's running floor starts as its on-chain floor, which
  -- `floors` holds from the account's first order on.
  unfoldable pub walk : List Order → (ℕ → ℕ) → Sanitized → Sanitized
  walk [] run r = r
  walk (o ∷ os) run r =
      let floor = seq_floor o.account in
      let v = seq_verdict floor (run o.account) o.seq in
      walk os (run_after run o v) (filed floor o v r)

  unfoldable pub seq_sanitize : List Order → Sanitized
  seq_sanitize orders =
      walk (sort_by account_first orders) seq_floor (record { kept = []; dead = []; floors = [] })

-- An account's public orders, which `slots` finds by their positions.
abbrev pub public_of : ℕ → List Order → List Order
public_of a os = filter (λ o. not o.sealed && o.account == a) os

-- The sort key `o.get("seq", 0)`.
abbrev pub seq_first : Order → Order → Bool
seq_first a b = leb a.seq b.seq

abbrev pub nth : ℕ → List Order → Order → Order
nth n [] o = o
nth zero (x ∷ xs) o = x
nth (suc n) (x ∷ xs) o = nth n xs o

-- `out`, from the orders before a position and those from it on: the public orders of an account take
-- its positions by sequence number, and sealed orders stay.
unfoldable pub redeal_from : List Order → List Order → List Order → List Order
redeal_from orders before [] = []
redeal_from orders before (o ∷ os) =
    (if o.sealed
      then o
      else nth (length (public_of o.account before))
          (sort_by seq_first (public_of o.account orders)) o)
    ∷ redeal_from orders (before ++ o ∷ []) os

unfoldable pub redeal : List Order → List Order
redeal orders = redeal_from orders [] orders

-- `batch, used, sealed`
pub record Filling : Type 0 where
  pub batch : List Order
  pub used : ℕ
  pub sealed : ℕ

-- What the loop does with an order: pass over it, stop there, or take it.
pub data Room : Type 0 where
  pass stop take : Room

-- `sealed_cap is not None and sealed >= sealed_cap`
abbrev pub at_cap : ℕ → Option ℕ → Bool
at_cap n none = false
at_cap n (some m) = leb m n

-- The gas of an order is 0 where the source has no `gas`.
module _ (cap : ℕ) (gas : Order → ℕ) (budget : ℕ) (sealed_cap : Option ℕ) where
  unfoldable pub room : Filling → Order → Room
  room f o =
      if ltb budget (gas o)
      then pass
      else if leb cap (length f.batch)
          || (ltb budget (f.used + gas o) || (o.sealed && at_cap f.sealed sealed_cap))
      then stop
      else take

  abbrev pub after_room : Room → Filling → Order → Filling
  after_room take f o = record {
    batch = f.batch ++ o ∷ [];
    used = f.used + gas o;
    sealed = if o.sealed then suc f.sealed else f.sealed;
  }
  after_room _ f o = f

  -- The state where the loop ends: here on a stop, later otherwise.
  abbrev pub ends : Room → Filling → Filling → Filling
  ends stop here later = here
  ends _ here later = later

  unfoldable pub fill_batch : List Order → Filling → Filling
  fill_batch [] f = f
  fill_batch (o ∷ os) f =
      let v = room f o in let later = fill_batch os (after_room v f o) in ends v f later

  unfoldable pub cap_batch : List Order → List Order × List Order
  cap_batch orders =
      let out = redeal orders in
      let batch = (fill_batch out (record { batch = []; used = 0; sealed = 0 })).batch in
      (batch, filter (λ o. not (has (map tag_of batch) o)) out)
