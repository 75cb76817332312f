-- ===== src/Telemetry.antt =====
-- The per-order lifecycle of offchain/order_telemetry.py. Times are whole milliseconds (the event log
-- rounds to that). The Prometheus counters and the latency are only written here and are left out.
-- Every operation takes the time at which it runs; the log holds each line that was written.
pub mod Store
use Store.{Key, same_key, find, put, pop}
use jamswap.Prelude.{
  ℕ, zero, suc, ◌+◌, ◌-◌, max, Bool, true, false, not, ◌&&◌, ◌||◌, Option, none, some, List, [],
  ◌∷◌, ◌++◌, ltb, if◌then◌else◌,
}

-- The strings that a record's `phase` and a terminal's `outcome` hold: the live phases, the members of
-- `TERMINAL`, and any other outcome.
pub data Status : Type 0 where
  placed rounded deferred rested : Status
  filled partial_cancelled cancelled expired rejected lost other : Status

-- `s in TERMINAL`
abbrev pub is_terminal : Status → Bool
is_terminal placed = false
is_terminal rounded = false
is_terminal deferred = false
is_terminal rested = false
is_terminal other = false
is_terminal _ = true

-- `s in CLEARED`
abbrev pub is_cleared : Status → Bool
is_cleared filled = true
is_cleared _ = false

-- `outcome in ("expired", "lost", "partial-cancelled", "rejected")`
abbrev pub is_live_miss : Status → Bool
is_live_miss expired = true
is_live_miss lost = true
is_live_miss partial_cancelled = true
is_live_miss rejected = true
is_live_miss _ = false

-- The record of a live order. `last` is absent until its first event is logged.
pub record Rec : Type 0 where
  pub side : ℕ
  pub price : ℕ
  pub qty : ℕ
  pub sealed : Bool
  pub marketable : Bool
  pub placed_at : ℕ
  pub phase : Status
  pub retries : ℕ
  pub rounded_at : Option ℕ
  pub crossed : Bool
  pub last : Option ℕ
  pub expires_at : Option ℕ

pub data Kind : Type 0 where
  placing rounding reverting requeueing deferring resting ending : Kind

-- A line of the event log. A field that a line does not carry has the value that its readers take
-- for a missing one.
pub record Event : Type 0 where
  pub key : Key
  pub ts : ℕ
  pub kind : Kind
  pub marketable : Bool
  pub sealed : Bool
  pub retries : ℕ
  pub crossed : Bool
  pub outcome : Status
  pub filled : ℕ
  pub expires_at : Option ℕ

pub record Telemetry : Type 0 where
  pub orders : List (Key × Rec)
  pub cleared : ℕ
  pub missed : ℕ
  pub log : List Event

abbrev pub empty : Telemetry
empty = record { orders = []; cleared = 0; missed = 0; log = [] }

-- A line with its `extra` fields missing.
abbrev pub line : Key → ℕ → Kind → Bool → Event
line k now kind marketable = record {
  key = k;
  ts = now;
  kind = kind;
  marketable = marketable;
  sealed = false;
  retries = 0;
  crossed = false;
  outcome = other;
  filled = 0;
  expires_at = none;
}

-- `x or y`, where a missing value and 0 are false.
abbrev pub or_else : Option ℕ → Option ℕ → Option ℕ
or_else (some (suc n)) y = some (suc n)
or_else _ y = y

-- `_log` on a record that stays in the table: the line, and the record's last event and expiry.
unfoldable pub log_live : Rec → Event → Telemetry → Telemetry
log_live r e t = record t {
  orders =
      put e.key (record r { last = some e.ts; expires_at = or_else e.expires_at r.expires_at })
        t.orders;
  log = t.log ++ e ∷ [];
}

-- What the operations on a live order share: nothing happens to an unknown order; the record is
-- changed unless its phase is terminal, and the event is logged either way.
abbrev pub on_found : (Rec → Rec) → (Rec → Event) → Telemetry → Option Rec → Telemetry
on_found change event t none = t
on_found change event t (some r) =
    let r' = if not (is_terminal r.phase) then change r else r in log_live r' (event r') t

unfoldable pub on_live : Key → (Rec → Rec) → (Rec → Event) → Telemetry → Telemetry
on_live k change event t = on_found change event t (find k t.orders)

-- `placed`
unfoldable pub place : Key → ℕ → ℕ → ℕ → Bool → Bool → ℕ → Telemetry → Telemetry
place k side price qty sealed marketable now t =
    log_live
      (record {
        side = side;
        price = price;
        qty = qty;
        sealed = sealed;
        marketable = marketable;
        placed_at = now;
        phase = placed;
        retries = 0;
        rounded_at = none;
        crossed = false;
        last = none;
        expires_at = none;
      })
      (record (line k now placing marketable) { sealed = sealed }) t

-- `rec.setdefault("rounded_at", time.time())`
abbrev pub set_default : Option ℕ → ℕ → Option ℕ
set_default none now = some now
set_default (some t) now = some t

-- `rounded`
unfoldable pub round_order : Key → ℕ → Telemetry → Telemetry
round_order k now =
    on_live k (λ r. record r { phase = rounded; rounded_at = set_default r.rounded_at now })
      (λ r. line k now rounding r.marketable)

-- `reverted`
unfoldable pub revert : Key → ℕ → Telemetry → Telemetry
revert k now =
    on_live k (λ r. record r { phase = rounded; retries = r.retries + 1 })
      (λ r. record (line k now reverting r.marketable) { retries = r.retries })

-- `requeued`
unfoldable pub requeue : Key → ℕ → Telemetry → Telemetry
requeue k now =
    on_live k (λ r. record r { phase = placed; retries = r.retries + 1 })
      (λ r. record (line k now requeueing r.marketable) { retries = r.retries })

-- `deferred`
unfoldable pub defer : Key → ℕ → Telemetry → Telemetry
defer k now =
    on_live k (λ r. record r { phase = deferred }) (λ r. line k now deferring r.marketable)

-- `rested`: the auction decides the order, so it is not counted as marketable any more.
unfoldable pub rest : Key → Bool → ℕ → Option ℕ → ℕ → Telemetry → Telemetry
rest k crossed traded expires_at now =
    on_live k (λ r. record r { phase = rested; crossed = r.crossed || crossed; marketable = false })
      (λ r. record (line k now resting r.marketable) {
        crossed = crossed;
        filled = traded;
        expires_at = or_else expires_at none;
      })

-- The marketable flag and the retries of the order that `terminal` pops; an order that was never seen
-- has neither.
abbrev pub popped : Option Rec → Bool × ℕ
popped none = (false, 0)
popped (some r) = (r.marketable, r.retries)

-- `terminal`
unfoldable pub end_order : Key → Status → ℕ → ℕ → Telemetry → Telemetry
end_order k outcome traded now t =
    let (marketable, retries) = popped (find k t.orders) in
    record {
      orders = pop k t.orders;
      cleared = if marketable && is_cleared outcome then t.cleared + 1 else t.cleared;
      missed =
          if marketable && (not (is_cleared outcome) && is_live_miss outcome)
          then t.missed + 1
          else t.missed;
      log =
          t.log
          ++ record (line k now ending marketable) {
            retries = retries;
            outcome = outcome;
            filled = traded;
          }
            ∷ [];
    }

-- `is_open`
abbrev pub is_open : Key → Telemetry → Bool
is_open k t = elim (find k t.orders) [ none ↦ false | some _ ↦ true ]

-- `OPEN_GRACE`, 600 s.
abbrev pub open_grace : ℕ
open_grace = 600_000

abbrev pub is_rested : Status → Bool
is_rested rested = true
is_rested _ = false

abbrev pub from_last : Option ℕ → ℕ → ℕ
from_last none placed_at = placed_at
from_last (some t) placed_at = t

-- `late` of `snapshot`. A negative lateness is 0 here: it is compared with positive numbers only.
unfoldable pub late : ℕ → Rec → ℕ
late now r =
    if is_rested r.phase
    then elim (or_else r.expires_at none) [ none ↦ 0 | some t ↦ now - t ]
    else now - from_last r.last r.placed_at

-- The counts of `snapshot`: the live orders, the stale ones among them, and the longest lateness.
unfoldable pub count_stale : ℕ → List (Key × Rec) → ℕ
unfolding late
count_stale now [] = 0
count_stale now ((k, r) ∷ rs) =
    if ltb open_grace (late now r) then suc (count_stale now rs) else count_stale now rs

unfoldable pub oldest : ℕ → List (Key × Rec) → ℕ
unfolding late
oldest now [] = 0
oldest now ((k, r) ∷ rs) = max (late now r) (oldest now rs)
