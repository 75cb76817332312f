-- ===== src/Settle/Market.antt =====
-- offchain/server.py: what the builder keeps of one market (`pending`, `_inflight`, `_zombies`,
-- `_carry_retry`, `_round_gate`, `_enc_cap`, `order_expiry`), with `_okey`, `_keys`, `_records`, `_claim` and
-- `_unclaim`. The calls of the metrics, the telemetry and the receipt feed are a log.
use jamswap.Prelude.{
  ℕ, Bool, true, false, not, ◌&&◌, Option, none, some, List, [], ◌∷◌, ◌++◌, map, any, filter, ◌==◌,
  if◌then◌else◌,
}
use jamswap.Order.{Order}
use jamswap.Clearing.{Cleared}

-- An order dict with its `commit`, by which a carried remainder differs from the copy that traded.
pub record Queued : Type 0 where
  pub order : Order
  pub commit : Option ℕ

-- `_okey(o)`
pub record OrderKey : Type 0 where
  pub account : ℕ
  pub oid : ℕ
  pub commit : Option ℕ

unfoldable pub okey : Queued → OrderKey
okey o = record { account = o.order.account; oid = o.order.oid; commit = o.commit }

abbrev pub same_commit : Option ℕ → Option ℕ → Bool
same_commit none none = true
same_commit none (some b) = false
same_commit (some a) none = false
same_commit (some a) (some b) = a == b

abbrev pub same_order : OrderKey → OrderKey → Bool
same_order j k = j.account == k.account && (j.oid == k.oid && same_commit j.commit k.commit)

-- `k in keys`
abbrev pub mem : OrderKey → List OrderKey → Bool
mem k ks = any (λ j. same_order k j) ks

-- Why a round is released.
pub data Why : Type 0 where
  book_moved commit_gone seq_floor timeout : Why

-- A tracked round: `rec` of `_assemble_round` with the keys that the resolver sets on it. `encset` says
-- that `set_key` is `b"encset"`; `why` and `abandoned_at` are set when the round is released.
pub record Tracked : Type 0 where
  pub rid : ℕ
  pub begun : ℕ
  pub sealed : List Queued
  pub public : List Queued
  pub resting : List Order
  pub clearing : Cleared
  pub pruned : List (ℕ × ℕ)
  pub book_hash : ℕ
  pub consumed : List ℕ
  pub encset : Bool
  pub minseq : List (ℕ × ℕ)
  pub ok_since : Option ℕ
  pub dead_since : Option ℕ
  pub claimed : List (OrderKey × ℕ)
  pub abandoned_at : ℕ
  pub why : Option Why

abbrev pub orders_of : Tracked → List Queued
orders_of fr = fr.sealed ++ fr.public

-- `_keys(fr)`
unfoldable pub keys_of : Tracked → List OrderKey
keys_of fr = map okey (orders_of fr)

-- How a receipt describes an order's outcome.
pub data Disposition : Type 0 where
  filled carried partial_carried cancelled partial_cancelled rejected resting partial_resting :
      Disposition

-- A call of the metrics, of the order telemetry, or of the receipt feed.
pub data Note : Type 0 where
  settled landed late_landed erased : ℕ → Note
  abandoned : ℕ → Why → Note
  receipt : OrderKey → Disposition → ℕ → Note
  ended : OrderKey → Disposition → ℕ → Note
  rested : OrderKey → ℕ → Bool → ℕ → Option ℕ → Note
  requeued reverted rounded deferred : OrderKey → Note
  expired : ℕ → ℕ → Note

-- The part of the server's state that belongs to one market. `gate` is the time of the cooldown, `cap` is
-- `_enc_cap`, and `expiry` is `order_expiry` by account and id.
pub record Market : Type 0 where
  pub pending : List Queued
  pub inflight : Option Tracked
  pub zombies : List Tracked
  pub retry : List Queued
  pub gate : Option ℕ
  pub enc_cap : Option ℕ
  pub expiry : List (ℕ × ℕ × ℕ)
  pub log : List Note

abbrev pub noting : List Note → Market → Market
noting es s = record s { log = s.log ++ es }

-- `order_expiry.get((m, a, oid))`
unfoldable pub order_expiry : ℕ → ℕ → List (ℕ × ℕ × ℕ) → Option ℕ
order_expiry a oid [] = none
order_expiry a oid ((b, j, t) ∷ es) = if a == b && oid == j then some t else order_expiry a oid es

-- `order_expiry.pop((m, a, oid), None)`
abbrev pub drop_expiry : ℕ → ℕ → List (ℕ × ℕ × ℕ) → List (ℕ × ℕ × ℕ)
drop_expiry a oid es = filter (λ e. not (a == e.0 && oid == e.1)) es

-- `_okey(o) not in lost`
abbrev pub is_lost : Tracked → Queued → Bool
is_lost fr o = any (λ c. same_order (okey o) c.0) fr.claimed

abbrev pub in_flight : Option Tracked → List Tracked
in_flight none = []
in_flight (some fr) = fr ∷ []

-- `_records(m)`, less the round itself where that is one of the released ones, which `others` leaves out.
abbrev pub records : Market → List Tracked → List Tracked
records s others = in_flight s.inflight ++ others

-- `fr.setdefault("claimed", {})[k] = z["rid"]`
unfoldable pub hold_key : OrderKey → ℕ → List (OrderKey × ℕ) → List (OrderKey × ℕ)
hold_key k r [] = (k, r) ∷ []
hold_key k r ((j, q) ∷ cl) = if same_order k j then (j, r) ∷ cl else (j, q) ∷ hold_key k r cl

abbrev pub hold_keys : List OrderKey → ℕ → List (OrderKey × ℕ) → List (OrderKey × ℕ)
hold_keys [] r cl = cl
hold_keys (k ∷ ks) r cl = hold_keys ks r (hold_key k r cl)

-- What `_claim` notes on another round: the keys that the two share.
unfoldable pub note_claim : Tracked → Tracked → Tracked
note_claim z fr = record fr {
  claimed = hold_keys (filter (λ k. mem k (keys_of z)) (keys_of fr)) z.rid fr.claimed;
}

abbrev pub on_flight : (Tracked → Tracked) → Option Tracked → Option Tracked
on_flight f none = none
on_flight f (some fr) = some (f fr)

-- `_claim(m, z)` on the mempool and the round in flight; the other released rounds get `note_claim z`.
unfoldable pub claim : Tracked → Market → Market
claim z s = record s {
  pending = filter (λ o. not (mem (okey o) (keys_of z))) s.pending;
  inflight = on_flight (note_claim z) s.inflight;
}

-- What `_unclaim` does to another round: the keys that `z` held there are free.
unfoldable pub free_claim : Tracked → Tracked → Tracked
free_claim z fr = record fr { claimed = filter (λ c. not (c.1 == z.rid)) fr.claimed }

abbrev pub is_set : Option ℕ → Bool
is_set none = false
is_set (some t) = true

-- `fr.get("ok_since") is not None`
abbrev pub is_sighted : Tracked → Bool
is_sighted fr = is_set fr.ok_since

abbrev pub held_keys : List Tracked → List OrderKey
held_keys [] = []
held_keys (fr ∷ frs) = keys_of fr ++ held_keys frs

-- `busy`: the keys of the round in flight, of the other rounds that have landed, and of the mempool.
abbrev pub busy : List Tracked → Market → List OrderKey
busy others s =
    held_keys (in_flight s.inflight) ++ (held_keys (filter is_sighted others) ++ map okey s.pending)

-- The orders that `_unclaim` puts back to the front.
unfoldable pub freed : Tracked → List Tracked → Market → List Queued
freed z others s = filter (λ o. not (mem (okey o) (busy others s))) (orders_of z)

-- `_unclaim(m, z)` on the mempool and the round in flight; the others get `free_claim z`.
unfoldable pub unclaim : Tracked → List Tracked → Market → Market
unclaim z others s = record s {
  pending = freed z others s ++ s.pending;
  inflight = on_flight (free_claim z) s.inflight;
}
