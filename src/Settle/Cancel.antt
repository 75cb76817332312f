-- ===== src/Settle/Cancel.antt =====
-- offchain/server.py: `_parse_book`, `_resting_entry`, `_may_fill` and `_resolve_cancels`. The bytes of the on-chain
-- book, an account's nonce and the landed markers are read from the chain; `none` where a read raises.
use jamswap.Prelude.{
  ℕ, zero, suc, ◌+◌, ◌*◌, ◌/◌, Bool, true, false, not, ◌&&◌, Option, none, some, List, [], ◌∷◌,
  ◌++◌, ltb, any, leb, ◌==◌, if◌then◌else◌, length,
}
use jamswap.Order.{Order, buy, sell}
use jamswap.Codec.{Bytes, le_value, slice}
use jamswap.Clearing.{fill_of}
use jamswap.Settle.Market.{Tracked, Market, Note, cancelled, in_flight, drop_expiry}
use jamswap.Settle.Finish.{record_exec}

-- The entry of the book at an index, `struct.unpack_from("<IIBII", raw, i * 17)`; a side other than 0 is
-- taken for a sell.
abbrev pub entry_order : Bytes → ℕ → Order
entry_order raw i = record {
  tag = i;
  account = le_value (slice raw (i * 17) 4);
  oid = le_value (slice raw (i * 17 + 4) 4);
  side = if le_value (slice raw (i * 17 + 8) 1) == 0 then buy else sell;
  price = le_value (slice raw (i * 17 + 9) 4);
  qty = le_value (slice raw (i * 17 + 13) 4);
  sealed = false;
  expiry = none;
  seq = 0;
}

-- `n` entries from index `i` on.
unfoldable pub entries_from : Bytes → ℕ → ℕ → List Order
entries_from raw i zero = []
entries_from raw i (suc n) = entry_order raw i ∷ entries_from raw (suc i) n

-- `_parse_book(raw)`
unfoldable pub parse_book : Bytes → List Order
parse_book raw = entries_from raw 0 (length raw / 17)

unfoldable pub entry_of : ℕ → ℕ → List Order → Option Order
entry_of a oid [] = none
entry_of a oid (o ∷ os) = if o.account == a && o.oid == oid then some o else entry_of a oid os

-- `_resting_entry(m, acct, oid)`, with the bytes of the book.
unfoldable pub resting_entry : Bytes → ℕ → ℕ → Option Order
resting_entry raw a oid = entry_of a oid (parse_book raw)

-- A watched cancel; `order` holds the terms of the resting order.
pub record Cancel : Type 0 where
  pub account : ℕ
  pub oid : ℕ
  pub nonce : ℕ
  pub since : ℕ
  pub order : Order

-- What a cancel's resolution reads.
pub record CancelReads : Type 0 where
  pub nonce_of : ℕ → Option ℕ
  pub marker : Tracked → Option (Option ℕ)
  pub book : Option Bytes
  pub is_open : ℕ → ℕ → Bool

abbrev pub after_marker : Option (Option ℕ) → Option Bool → Option Bool
after_marker none later = none
after_marker (some none) later = later
after_marker (some (some slot)) later = some true

-- `_may_fill(m, oid)`, with the tracked rounds; `none` where a read raises.
unfoldable pub may_fill : (Tracked → Option (Option ℕ)) → ℕ → List Tracked → Option Bool
may_fill marker oid [] = some false
may_fill marker oid (fr ∷ frs) =
    let later = may_fill marker oid frs in
    if ltb 0 (fill_of oid fr.clearing.fills) then after_marker (marker fr) later else later

-- What becomes of a cancel: it stays watched, is no longer, or ends the order.
pub data Outcome : Type 0 where
  stays leaves ends : Outcome

abbrev pub off_book : Bool → Option Order → Outcome
off_book open_still (some o) = leaves
off_book open_still none = if open_still then ends else leaves

abbrev pub on_book : Bool → Cancel → Option Bytes → Outcome
on_book open_still c none = stays
on_book open_still c (some raw) = off_book open_still (resting_entry raw c.account c.oid)

abbrev pub unless_fill : Option Bool → Outcome → Outcome
unless_fill none later = stays
unless_fill (some true) later = stays
unless_fill (some false) later = later

abbrev pub once_landed : ℕ → Option ℕ → Outcome → Outcome
once_landed nonce none later = stays
once_landed nonce (some n) later = if leb n nonce then stays else later

-- The loop over the cancels: those that stay watched, the orders that it has ended, which the telemetry no
-- longer calls open, and the market.
pub record Cancelling : Type 0 where
  pub keep : List Cancel
  pub closed : List (ℕ × ℕ)
  pub market : Market

abbrev pub is_closed : ℕ → ℕ → List (ℕ × ℕ) → Bool
is_closed a oid ks = any (λ k. a == k.0 && oid == k.1) ks

abbrev pub cancel_notes : Cancel → List Note
cancel_notes c =
    record_exec
      (record { order = record c.order { account = c.account; oid = c.oid }; commit = none })
      (some cancelled) 0 false

abbrev pub act_cancel : Outcome → Cancel → Cancelling → Cancelling
act_cancel stays c w = record w { keep = w.keep ++ c ∷ [] }
act_cancel leaves c w = w
act_cancel ends c w = record w {
  closed = (c.account, c.oid) ∷ w.closed;
  market = record w.market {
    expiry = drop_expiry c.account c.oid w.market.expiry;
    log = w.market.log ++ cancel_notes c;
  };
}

module _ (watch_secs now : ℕ) (r : CancelReads) (rounds : List Tracked) where
  unfoldable pub judge_cancel : Bool → Cancel → Outcome
  judge_cancel open_still c =
      if ltb (c.since + watch_secs) now
      then leaves
      else once_landed c.nonce (r.nonce_of c.account)
          (unless_fill (may_fill r.marker c.oid rounds) (on_book open_still c r.book))

  abbrev pub open_yet : Cancel → Cancelling → Bool
  open_yet c w = r.is_open c.account c.oid && not (is_closed c.account c.oid w.closed)

  unfoldable pub resolve_each : List Cancel → Cancelling → Cancelling
  resolve_each [] w = w
  resolve_each (c ∷ cs) w = resolve_each cs (act_cancel (judge_cancel (open_yet c w) c) c w)

-- `_resolve_cancels(now)` on the cancels of one market: those that stay go ahead of what was appended
-- meanwhile.
unfoldable pub resolve_cancels :
    ℕ → ℕ → CancelReads → List Cancel → List Cancel → Market → List Cancel × Market
resolve_cancels watch_secs now r batch appended s =
    let w =
      resolve_each watch_secs now r (in_flight s.inflight ++ s.zombies) batch
        (record { keep = []; closed = []; market = s }) in
    (w.keep ++ appended, w.market)
