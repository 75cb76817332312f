-- ===== src/Verdict/Examples.antt =====
-- A short life of one order in offchain/order_telemetry.py, judged by offchain/soak_verdict.py.
use jamswap.Prelude.{◌≡◌, refl, ◌↔◌, true, false, some, none, List, [], ◌∷◌, arith, filter, All}
use jamswap.Telemetry.{
  Event, Rec, Telemetry, line, placing, rounding, empty, rounded, log_live, on_live, place,
  round_order, rest, end_order, filled, cancelled,
}
use jamswap.Telemetry.Store.{Key, find, put}
use jamswap.Verdict.{is_resting, stuck_silent, stuck_resting, load, judge, score, Class}
use jamswap.Verdict.History.{history}
use jamswap.Verdict.Reach.{Reaches, start, then_place, then_round}
use jamswap.Verdict.Load.{joined, load_groups}
use jamswap.Verdict.Agreement.{is_stale, is_stuck, stuck_iff_stale}
use jamswap.Verdict.Gauge.{cancelled_gauge, rested_gauge}
use jamswap.Verdict.Score.{leaks, MeetsTarget, score_pass_iff}

abbrev key : Key
key = record { market = 0; account = 1; oid = 2 }

abbrev one_placed : Telemetry
one_placed = place key 0 12 3 true true 5 empty

abbrev one_rounded : Telemetry
one_rounded = round_order key 7 one_placed

one_rounded-Reaches : Reaches 7 one_rounded
one_rounded-Reaches =
    then_round 7 key (omega arith) (then_place 5 key 0 12 3 true true (omega arith) refl start)

abbrev one_rec : Rec
one_rec = record {
  side = 0;
  price = 12;
  qty = 3;
  sealed = true;
  marketable = true;
  placed_at = 5;
  phase = rounded;
  retries = 0;
  rounded_at = some 7;
  crossed = false;
  last = some 7;
  expires_at = none;
}

one_rounded_live : find key one_rounded.orders ≡ some one_rec
unfolding find round_order on_live log_live place put
one_rounded_live = refl

abbrev one_log : List Event
one_log = record (line key 5 placing true) { sealed = true } ∷ line key 7 rounding true ∷ []

one_rounded_log : one_rounded.log ≡ one_log
unfolding find round_order on_live log_live place put
one_rounded_log = refl

one_loaded : find key (load one_rounded.log) ≡ some one_log
unfolding find load round_order on_live log_live place put
one_loaded = refl

one_never_rested : filter is_resting (history key one_rounded.log) ≡ []
unfolding find round_order on_live log_live place put
one_never_rested = refl

load_groups_example : find key (load one_log) ≡ joined none (history key one_log)
load_groups_example = load_groups key one_log

stuck_iff_stale_example : is_stuck 900_000 one_log ≡ is_stale 900_000 (find key one_rounded.orders)
stuck_iff_stale_example =
    stuck_iff_stale 7 900_000 one_rounded key one_log one_rounded-Reaches one_loaded

one_stuck : is_stuck 900_000 one_log ≡ true
unfolding stuck_silent stuck_resting
one_stuck = refl

cancelled_gauge_example :
    let u = end_order key cancelled 0 9 one_rounded in
    (u.cleared ≡ one_rounded.cleared)
    × (u.missed ≡ one_rounded.missed)
    × ((judge (history key u.log)).class ≡ Class.missed)
cancelled_gauge_example =
    cancelled_gauge 7 9 0 one_rounded key one_rec one_rounded-Reaches one_rounded_live refl
      one_never_rested

rested_gauge_example :
    let u = end_order key filled 3 20 (rest key true 1 (some 40) 9 one_rounded) in
    (u.cleared ≡ one_rounded.cleared)
    × (u.missed ≡ one_rounded.missed)
    × ((judge (history key u.log)).class ≡ Class.cleared)
rested_gauge_example =
    rested_gauge 7 9 20 1 3 39 true one_rounded key one_rec one_rounded-Reaches (omega arith)
      one_rounded_live

score_pass_iff_example :
    ((score ((key, one_log) ∷ []) 9_999 10_000 600_000 900_000).pass ≡ true) ↔ (
      All (λ o. leaks 600_000 900_000 o ≡ false) ((key, one_log) ∷ [])
      × MeetsTarget 9_999 10_000 ((key, one_log) ∷ []))
score_pass_iff_example = score_pass_iff ((key, one_log) ∷ []) 9_999 10_000 600_000 900_000
