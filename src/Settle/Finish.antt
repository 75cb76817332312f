-- ===== src/Settle/Finish.antt =====
-- offchain/server.py: `_post_carry_seal`, `_carry_sealed_remainders`, `_drain_carry_retry`, `_record_exec`,
-- `record_executions` and `_finalize_round`. Parameters: the identity of a new dict, the commitment that
-- `_seal_material` makes for it (`none` where that raises), and whether a submit goes through.
use jamswap.Prelude.{
  ℕ, ◌-◌, ◌*◌, max, Bool, true, false, not, ◌&&◌, ◌||◌, Option, none, some, List, [], ◌∷◌, ◌++◌,
  map, any, filter, length, ltb, leb, ◌==◌, if◌then◌else◌,
}
use jamswap.Order.{Order, is_buy}
use jamswap.Clearing.{Cleared, Fills, fill_of}
use jamswap.Settle.Market.{
  Queued, OrderKey, okey, Tracked, Market, Disposition, filled, carried, partial_carried, cancelled,
  partial_cancelled, rejected, resting, partial_resting, Note, settled, receipt, ended, rested,
  expired, noting, order_expiry, drop_expiry, is_lost,
}

-- `exp and exp <= now`
abbrev pub is_over : ℕ → Option ℕ → Bool
is_over now none = false
is_over now (some e) = ltb 0 e && leb e now

-- What `_carry_sealed_remainders` does with the orders: the outcomes stamped on them, the remainders that
-- are sealed again, and those whose seal could not be posted.
pub record Carrying : Type 0 where
  pub stamped : List (Queued × Disposition)
  pub carried_now : List Queued
  pub unposted : List Queued

abbrev pub stamp : Queued → Disposition → Carrying → Carrying
stamp o d c = record c { stamped = (o, d) ∷ c.stamped }

-- `"partial-carried" if filled > 0 else "carried"`, and the same for an expired remainder.
abbrev pub carry_outcome : ℕ → Disposition
carry_outcome f = if ltb 0 f then partial_carried else carried

abbrev pub expiry_outcome : ℕ → Disposition
expiry_outcome f = if ltb 0 f then partial_cancelled else cancelled

-- `disp_` of `_record_exec`, from the outcome stamped on the order, if any.
unfoldable pub disposition : Option Disposition → ℕ → ℕ → Bool → Disposition
disposition (some d) f qty sealed = d
disposition none f qty sealed =
    if leb qty f
    then filled
    else if sealed
    then expiry_outcome f
    else if ltb 0 f
    then partial_resting
    else resting

-- `_TERMINAL_DISP`
abbrev pub ends_order : Disposition → Bool
ends_order filled = true
ends_order carried = false
ends_order partial_carried = false
ends_order cancelled = true
ends_order partial_cancelled = true
ends_order rejected = true
ends_order resting = false
ends_order partial_resting = false

-- A receipt, and the terminal of an order that it ends.
abbrev pub receipts : OrderKey → Disposition → ℕ → List Note
receipts k d f = receipt k d f ∷ (if ends_order d then ended k d f ∷ [] else [])

unfoldable pub record_exec : Queued → Option Disposition → ℕ → Bool → List Note
record_exec o outcome f sealed = receipts (okey o) (disposition outcome f o.order.qty sealed) f

-- `crossed(o)`: did the order's limit reach the clearing price?
abbrev pub reached : Cleared → Order → Bool
reached c o = ltb 0 c.volume && (if is_buy o.side then leb c.price o.price else leb o.price c.price)

module _ (c : Cleared) (expiry : List (ℕ × ℕ × ℕ)) where
  -- `rests(o, filled)`
  abbrev pub rests_at : Queued → ℕ → Note
  rests_at o f =
      rested (okey o) c.price (reached c o.order) f
        (order_expiry o.order.account o.order.oid expiry)

  -- One of the round's own orders; `sealed` says that its id is among the revealed ones.
  unfoldable pub record_own : Queued → Option Disposition → ℕ → Bool → List Note
  record_own o outcome f sealed =
      if not sealed && ltb f o.order.qty
      then rests_at o f ∷ (if f == 0 then [] else record_exec o outcome f sealed)
      else record_exec o outcome f sealed

  unfoldable pub record_owns : List ℕ → List (Queued × Option Disposition) → List Note
  record_owns ids [] = []
  record_owns ids ((o, d) ∷ os) =
      record_own o d (fill_of o.order.oid c.fills) (any (λ i. o.order.oid == i) ids)
      ++ record_owns ids os

  -- One of the resting orders.
  unfoldable pub record_maker : Order → ℕ → List Note
  record_maker o f =
      (if ltb f o.qty && (ltb 0 f || reached c o)
        then rests_at (record { order = o; commit = none }) f ∷ []
        else [])
      ++ (if ltb 0 f then record_exec (record { order = o; commit = none }) none f false else [])

  abbrev pub record_makers : List Order → List Note
  record_makers [] = []
  record_makers (o ∷ os) = record_maker o (fill_of o.oid c.fills) ++ record_makers os

-- `record_executions`, with the outcomes stamped on the revealed orders.
unfoldable pub record_executions :
    Cleared → List (ℕ × ℕ × ℕ) → List Order → List (Queued × Disposition) → List Queued → List Note
record_executions c expiry makers reveal public =
    record_owns c expiry (map (λ r. r.0.order.oid) reveal)
      (map (λ r. (r.0, some r.1)) reveal ++ map (λ o. (o, none)) public)
    ++ record_makers c expiry makers

-- `_enc_cap` once a round with `n` revealed orders has landed.
unfoldable pub grow_cap : ℕ → ℕ → Option ℕ → Option ℕ
grow_cap most n none = none
grow_cap most n (some k) = if leb most (max k (2 * n)) then none else some (max k (2 * n))

abbrev pub end_pruned : List (ℕ × ℕ) → Market → Market
end_pruned [] s = s
end_pruned ((a, oid) ∷ ps) s =
    end_pruned ps
      (record s { expiry = drop_expiry a oid s.expiry; log = s.log ++ expired a oid ∷ [] })

-- The carries and the receipts, of the orders that no other landed round holds.
abbrev pub settle_orders : Tracked → Carrying → List Queued → Market → Market
settle_orders fr c public s = record s {
  pending = s.pending ++ c.carried_now;
  retry = s.retry ++ c.unposted;
  log = s.log ++ record_executions fr.clearing s.expiry fr.resting c.stamped public;
}

-- The queued re-seals of the market: the mempool, the queue that is left, the notes, and whether the loop
-- ran to its end. Reading the price for a receipt may raise: then nothing leaves the queue.
pub record Drained : Type 0 where
  pub back : List Queued
  pub kept : List Queued
  pub notes : List Note
  pub completes : Bool

abbrev pub drain_posted : Queued × Bool → Drained → Drained
drain_posted (r, true) d = record d {
  back = r ∷ d.back;
  kept = if d.completes then d.kept else r ∷ d.kept;
}
drain_posted (r, false) d = record d { kept = r ∷ d.kept }

abbrev pub drain_expired : Bool → Queued → List Queued → Drained → Drained
drain_expired true r rs d = record d {
  kept = if d.completes then d.kept else r ∷ d.kept;
  notes = record_exec r (some cancelled) 0 true ++ d.notes;
}
drain_expired false r rs d = record { back = []; kept = r ∷ rs; notes = []; completes = false }

module _ (new_tag : Queued → ℕ) (seal : Queued → Option ℕ) (submit : Queued → Bool) where
  -- The new dict `r` of a remainder.
  unfoldable pub remainder : Queued → ℕ → Queued
  remainder o rem = record {
    order = record o.order { tag = new_tag o; qty = rem; sealed = true; expiry = none; seq = 0 };
    commit = none;
  }

  abbrev pub sealed_with : Queued → Option ℕ → Option ℕ → Queued
  sealed_with r none made = record r { commit = made }
  sealed_with r (some c) made = r

  -- A seal is made once: a retry posts the same commitment.
  abbrev pub with_seal : Queued → Queued
  with_seal r = sealed_with r r.commit (seal r)

  abbrev pub went_through : Queued → Option ℕ → Bool
  went_through r none = false
  went_through r (some c) = submit r

  -- `_post_carry_seal`: the remainder as it leaves it, and whether it returned.
  unfoldable pub post_carry_seal : Queued → Queued × Bool
  post_carry_seal r = (with_seal r, went_through (with_seal r) (with_seal r).commit)

  abbrev pub carry_posted : Queued → ℕ → Queued × Bool → Carrying → Carrying
  carry_posted o f (r, true) c =
      stamp o (carry_outcome f) (record c { carried_now = r ∷ c.carried_now })
  carry_posted o f (r, false) c = stamp o (carry_outcome f) (record c { unposted = r ∷ c.unposted })

  -- One order of the loop, in front of what the loop does with the later ones.
  unfoldable pub carry_one : ℕ → Option ℕ → ℕ → Queued → Carrying → Carrying
  carry_one now exp f o c =
      if leb o.order.qty f
      then stamp o filled c
      else if is_over now exp
      then stamp o (expiry_outcome f) c
      else carry_posted o f (post_carry_seal (remainder o (o.order.qty - f))) c

  unfoldable pub carry_remainders : ℕ → List (ℕ × ℕ × ℕ) → Fills → List Queued → Carrying
  carry_remainders now expiry fills [] = record { stamped = []; carried_now = []; unposted = [] }
  carry_remainders now expiry fills (o ∷ os) =
      carry_one now (order_expiry o.order.account o.order.oid expiry) (fill_of o.order.oid fills) o
        (carry_remainders now expiry fills os)

  -- `_finalize_round(m, fr)`; `most` is MAX_ROUND_ORDERS.
  unfoldable pub finalize_round : ℕ → ℕ → Tracked → Market → Market
  finalize_round most now fr s =
      let sealed = filter (λ o. not (is_lost fr o)) fr.sealed in
      let public = filter (λ o. not (is_lost fr o)) fr.public in
      let grown =
        if fr.encset && ltb 0 (length fr.sealed)
        then grow_cap most (length fr.sealed) s.enc_cap
        else s.enc_cap in
      let c = carry_remainders now s.expiry fr.clearing.fills sealed in
      noting (settled fr.rid ∷ [])
        (end_pruned fr.pruned (settle_orders fr c public (record s { enc_cap = grown })))

  unfoldable pub drain : ℕ → (Queued → Bool) → List (ℕ × ℕ × ℕ) → List Queued → Drained
  drain now reads expiry [] = record { back = []; kept = []; notes = []; completes = true }
  drain now reads expiry (r ∷ rs) =
      let later = drain now reads expiry rs in
      if is_over now (order_expiry r.order.account r.order.oid expiry)
      then drain_expired (reads r) r rs later
      else drain_posted (post_carry_seal r) later

  -- `_drain_carry_retry(now)` on one market, and whether it returns.
  unfoldable pub drain_carry_retry : ℕ → (Queued → Bool) → Market → Market × Bool
  drain_carry_retry now reads s =
      let d = drain now reads s.expiry s.retry in
      (
        record s { pending = s.pending ++ d.back; retry = d.kept; log = s.log ++ d.notes },
        d.completes,
      )
