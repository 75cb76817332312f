-- ===== src/Verdict.antt =====
-- The soak verdict of offchain/soak_verdict.py on the event log: `load`, `judge` and `score`. The
-- latency percentiles, the samples for display and the report's printing are left out. The target is a
-- fraction, and the two floats that `score` compares are compared as fractions.
pub mod History
pub mod Track
pub mod Reach
pub mod Load
pub mod Agreement
pub mod Gauge
pub mod Score
pub mod Examples
use jamswap.Prelude.{
  ℕ, zero, suc, ◌+◌, ◌-◌, ◌*◌, max, Bool, true, false, ◌&&◌, ◌||◌, Option, none, some, List, [],
  ◌∷◌, ◌++◌, length, filter, any, count, ltb, leb, ◌==◌, if◌then◌else◌,
}
use jamswap.Telemetry.{
  Status, partial_cancelled, cancelled, expired, rejected, lost, is_cleared, placing, reverting,
  deferring, resting, ending, Event,
}
use jamswap.Telemetry.Store.{Key, same_key}

-- `outcome in MISSED`
abbrev pub is_missed : Status → Bool
is_missed expired = true
is_missed lost = true
is_missed cancelled = true
is_missed partial_cancelled = true
is_missed rejected = true
is_missed _ = false

-- `e["event"] == ...`
abbrev pub is_placing : Event → Bool
is_placing e = elim e.kind [ placing ↦ true | _ ↦ false ]

abbrev pub is_ending : Event → Bool
is_ending e = elim e.kind [ ending ↦ true | _ ↦ false ]

abbrev pub is_resting : Event → Bool
is_resting e = elim e.kind [ resting ↦ true | _ ↦ false ]

abbrev pub is_deferring : Event → Bool
is_deferring e = elim e.kind [ deferring ↦ true | _ ↦ false ]

abbrev pub is_reverting : Event → Bool
is_reverting e = elim e.kind [ reverting ↦ true | _ ↦ false ]

-- `next((e for e in events if p(e)), None)`
abbrev pub first_with : (Event → Bool) → List Event → Option Event
first_with p [] = none
first_with p (e ∷ es) = if p e then some e else first_with p es

-- `events[-1]`
abbrev pub last_event : List Event → Option Event
last_event [] = none
last_event (e ∷ es) = elim (last_event es) [ none ↦ some e | some f ↦ some f ]

abbrev pub max_retries : List Event → ℕ
max_retries [] = 0
max_retries (e ∷ es) = max e.retries (max_retries es)

-- `max(e["ts"] for e in events)`
abbrev pub max_ts : List Event → ℕ
max_ts [] = 0
max_ts (e ∷ es) = max e.ts (max_ts es)

abbrev pub is_marketable : Event → Bool
is_marketable e = e.marketable

abbrev pub has_crossed : Event → Bool
has_crossed e = e.crossed

pub data Class : Type 0 where
  cleared missed expired_nonmarketable on_book left_open unknown : Class

pub record Judgement : Type 0 where
  pub marketable : Bool
  pub crossed : Bool
  pub sealed : Bool
  pub deferrals : ℕ
  pub retries : ℕ
  pub reverts : ℕ
  pub placed : Bool
  pub terminal : Option Status
  pub filled : ℕ
  pub expires_at : Option ℕ
  pub class : Class

abbrev pub is_empty : List Event → Bool
is_empty [] = true
is_empty (e ∷ es) = false

abbrev pub is_sealed_placing : Option Event → Bool
is_sealed_placing none = false
is_sealed_placing (some e) = e.sealed

abbrev pub is_some : Option Event → Bool
is_some none = false
is_some (some e) = true

abbrev pub rests_last : Option Event → Bool
rests_last none = false
rests_last (some e) = is_resting e

abbrev pub expiry_of : Option Event → Option ℕ
expiry_of none = none
expiry_of (some e) = e.expires_at

-- `v["class"]`
unfoldable pub classify : Option Event → Bool → Option Event → Class
classify none marketable last = if rests_last last then on_book else left_open
classify (some term) marketable last =
    if is_cleared term.outcome
    then cleared
    else if is_missed term.outcome
    then (if marketable then missed else expired_nonmarketable)
    else unknown

-- `marketable` of `judge`: an auction that left the order resting has decided it.
unfoldable pub judged_marketable : List Event → Bool
judged_marketable events =
    if is_empty (filter is_resting events) then any is_marketable events else false

unfoldable pub judge : List Event → Judgement
unfolding classify judged_marketable
judge events =
    let term = first_with is_ending events in
    let rests = filter is_resting events in
    record {
      marketable = judged_marketable events;
      crossed = any has_crossed rests;
      sealed = is_sealed_placing (first_with is_placing events);
      deferrals = count is_deferring events;
      retries = max_retries events;
      reverts = count is_reverting events;
      placed = is_some (first_with is_placing events);
      terminal = elim term [ none ↦ none | some e ↦ some e.outcome ];
      filled = elim term [ none ↦ 0 | some e ↦ e.filled ];
      expires_at = expiry_of (last_event rests);
      class = classify term (judged_marketable events) (last_event events);
    }

-- `orders.setdefault(key, []).append(e)`
unfoldable pub add_event : Event → List (Key × List Event) → List (Key × List Event)
add_event e [] = (e.key, e ∷ []) ∷ []
add_event e ((k, es) ∷ orders) =
    if same_key e.key k then (k, es ++ e ∷ []) ∷ orders else (k, es) ∷ add_event e orders

-- The loop of `load`, over the lines that parsed.
unfoldable pub load_from : List (Key × List Event) → List Event → List (Key × List Event)
unfolding add_event
load_from orders [] = orders
load_from orders (e ∷ es) = load_from (add_event e orders) es

unfoldable pub load : List Event → List (Key × List Event)
unfolding load_from
load lines = load_from [] lines

abbrev pub is_class_open : Class → Bool
is_class_open left_open = true
is_class_open _ = false

abbrev pub is_class_resting : Class → Bool
is_class_resting on_book = true
is_class_resting _ = false

abbrev pub is_class_cleared : Class → Bool
is_class_cleared cleared = true
is_class_cleared _ = false

abbrev pub is_class_missed : Class → Bool
is_class_missed missed = true
is_class_missed _ = false

-- Open past the grace time since its last event.
unfoldable pub stuck_silent : ℕ → ℕ → List Event → Bool
unfolding judge
stuck_silent grace now events =
    is_class_open (judge events).class && ltb grace (now - max_ts events)

-- `v["expires_at"] and now - v["expires_at"] > open_grace`
abbrev pub overdue : ℕ → ℕ → Option ℕ → Bool
overdue grace now none = false
overdue grace now (some zero) = false
overdue grace now (some (suc t)) = ltb grace (now - suc t)

-- Still resting past the grace time since its own expiry.
unfoldable pub stuck_resting : ℕ → ℕ → List Event → Bool
unfolding judge
stuck_resting grace now events =
    is_class_resting (judge events).class && overdue grace now (judge events).expires_at

-- The variables of the loop of `score`, of those that the verdict is made of. An order is in
-- `stuck_open` at most once, since its class is one or the other.
pub record Tally : Type 0 where
  pub cleared : ℕ
  pub missed : ℕ
  pub resting : ℕ
  pub resting_crossed : ℕ
  pub retried : ℕ
  pub stuck_open : List Key
  pub sealed_seen : ℕ
  pub sealed_terminal : ℕ
  pub sealed_stuck : ℕ

abbrev pub no_tally : Tally
no_tally = record {
  cleared = 0;
  missed = 0;
  resting = 0;
  resting_crossed = 0;
  retried = 0;
  stuck_open = [];
  sealed_seen = 0;
  sealed_terminal = 0;
  sealed_stuck = 0;
}

-- `n += b`
abbrev pub plus : ℕ → Bool → ℕ
plus n true = n + 1
plus n false = n

abbrev pub is_terminal_some : Option Status → Bool
is_terminal_some none = false
is_terminal_some (some s) = true

-- The body of the loop.
unfoldable pub tally_order : ℕ → ℕ → Key → List Event → Tally → Tally
unfolding judge stuck_silent stuck_resting
tally_order grace now key events t =
    let v = judge events in
    record {
      cleared = plus t.cleared (is_class_cleared v.class);
      missed = plus t.missed (is_class_missed v.class);
      resting = plus t.resting (is_class_resting v.class);
      resting_crossed = plus t.resting_crossed (is_class_resting v.class && v.crossed);
      retried = plus t.retried (ltb 0 v.retries);
      stuck_open =
          if stuck_silent grace now events || stuck_resting grace now events
          then t.stuck_open ++ key ∷ []
          else t.stuck_open;
      sealed_seen = plus t.sealed_seen v.sealed;
      sealed_terminal = plus t.sealed_terminal (v.sealed && is_terminal_some v.terminal);
      sealed_stuck = plus t.sealed_stuck (v.sealed && stuck_silent grace now events);
    }

unfoldable pub tally_all : ℕ → ℕ → List (Key × List Event) → Tally → Tally
unfolding tally_order
tally_all grace now [] t = t
tally_all grace now ((k, es) ∷ orders) t = tally_all grace now orders (tally_order grace now k es t)

pub record Report : Type 0 where
  pub orders_seen : ℕ
  pub cleared : ℕ
  pub missed : ℕ
  pub tally : Tally
  pub zero_loss : Bool
  pub pass : Bool

-- `slo >= target` for `slo = cleared / denom if denom else 1.0`.
abbrev pub meets_target : ℕ → ℕ → ℕ → ℕ → Bool
meets_target num den passed denom =
    if denom == 0 then leb num den else leb (num * denom) (passed * den)

unfoldable pub score : List (Key × List Event) → ℕ → ℕ → ℕ → ℕ → Report
unfolding tally_all
score orders num den grace now =
    let t = tally_all grace now orders no_tally in
    let missed = t.missed + length t.stuck_open in
    let zero_loss = t.sealed_stuck == 0 in
    record {
      orders_seen = length orders;
      cleared = t.cleared;
      missed = missed;
      tally = t;
      zero_loss = zero_loss;
      pass =
          meets_target num den t.cleared (t.cleared + missed)
          && (length t.stuck_open == 0 && zero_loss);
    }
