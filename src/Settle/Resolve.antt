-- ===== src/Settle/Resolve.antt =====
-- offchain/server.py: `_resolve_inflight`, and what `_resolve_rounds_once` does for one market: the queued
-- re-seals, the released rounds, then the round in flight.
use jamswap.Prelude.{
  ℕ, ◌+◌, Bool, not, Option, none, some, List, [], ◌∷◌, map, ltb, leb, if◌then◌else◌,
}
use jamswap.Settle.Market.{
  Queued, OrderKey, okey, Tracked, Market, landed, erased, reverted, Why, timeout, orders_of,
  noting,
}
use jamswap.Settle.Finish.{finalize_round, drain_carry_retry}
use jamswap.Settle.Judge.{Settings, ChainReads, round_dead}
use jamswap.Settle.Sweep.{
  Sighting, forgotten, hiccup, first_seen, waiting, settling, raising, vanished, absent, sight,
  abandon, resolve_zombies,
}

-- What the sweep does with the round in flight.
pub data Ruling : Type 0 where
  sees : Sighting → Ruling
  dying : Why → Ruling
  undecided : Ruling

-- A round that has not landed, nor was seen landed, is judged by its preconditions.
abbrev pub rule_on : Sighting → Option Why → Ruling
rule_on absent none = undecided
rule_on absent (some why) = dying why
rule_on forgotten why = sees forgotten
rule_on hiccup why = sees hiccup
rule_on first_seen why = sees first_seen
rule_on waiting why = sees waiting
rule_on settling why = sees settling
rule_on raising why = sees raising
rule_on vanished why = sees vanished

abbrev pub rule : Option (Option Why) → Sighting → Ruling
rule none seen = sees hiccup
rule (some why) seen = rule_on seen why

-- `fr.setdefault("dead_since", now)`
abbrev pub since_or : Option ℕ → ℕ → ℕ
since_or none now = now
since_or (some t) now = t

abbrev pub hold : Tracked → Market → Market
hold fr s = record s { inflight = some fr }

module _ (new_tag : Queued → ℕ) (seal : Queued → Option ℕ) (submit : Queued → Bool) (c : Settings)
    (now : ℕ) where
  -- Dead for long enough, or not yet.
  abbrev pub while_dying : Tracked → Why → Market → Market
  while_dying fr why s =
      if leb (since_or fr.dead_since now + c.dead_confirm) now
      then abandon c (record fr { dead_since = some (since_or fr.dead_since now) }) why now
          (record s { inflight = none })
      else hold (record fr { dead_since = some (since_or fr.dead_since now) }) s

  -- Overdue, or not yet.
  abbrev pub while_undecided : Tracked → Market → Market
  while_undecided fr s =
      if ltb (fr.begun + c.round_gate) now
      then abandon c (record fr { dead_since = none }) timeout now (record s { inflight = none })
      else hold (record fr { dead_since = none }) s

  unfoldable pub act_inflight : Ruling → Tracked → Market → Market
  act_inflight (sees forgotten) fr s = s
  act_inflight (sees hiccup) fr s = s
  act_inflight (sees first_seen) fr s =
      noting (landed fr.rid ∷ []) (hold (record fr { ok_since = some now; dead_since = none }) s)
  act_inflight (sees waiting) fr s = hold (record fr { dead_since = none }) s
  act_inflight (sees settling) fr s =
      finalize_round new_tag seal submit c.max_orders now (record fr { dead_since = none })
        (record s { inflight = none })
  act_inflight (sees raising) fr s = hold (record fr { dead_since = none }) s
  act_inflight (sees vanished) fr s =
      noting (erased fr.rid ∷ map (λ o. reverted (okey o)) (orders_of fr))
        (hold (record fr { ok_since = none }) s)
  act_inflight (sees absent) fr s = s
  act_inflight (dying why) fr s = while_dying fr why s
  act_inflight undecided fr s = while_undecided fr s

  -- `_resolve_inflight(m, fr, now)`, with the reads that judge the round.
  unfoldable pub resolve_inflight : ChainReads → Tracked → Market → Market
  resolve_inflight r fr s = act_inflight (rule (round_dead r fr) (sight c now r fr s.zombies)) fr s

  abbrev pub flight_step : ChainReads → Option Tracked → Market → Market
  flight_step r none s = s
  flight_step r (some fr) s = resolve_inflight r fr s

  module _ (reads : Tracked → ChainReads) (flight : ChainReads) where
    -- The rounds of one market, whose lock is free. A raise ends the sweep.
    abbrev pub then_flight : Market × List OrderKey × Bool → Market
    then_flight (s, taken, raised) = if raised then s else flight_step flight s.inflight s

    unfoldable pub resolve_rounds : Market → Market
    resolve_rounds s = then_flight (resolve_zombies new_tag seal submit c now reads s)

    -- `_resolve_rounds_once`, on one market: `prices` says where the price for a receipt can be read, and
    -- `is_free` whether the market's lock is.
    abbrev pub then_rounds : Bool → Market × Bool → Market
    then_rounds is_free (s, completes) =
        if not completes then s else if is_free then resolve_rounds s else s

    unfoldable pub resolve_rounds_once : (Queued → Bool) → Bool → Market → Market
    resolve_rounds_once prices is_free s =
        then_rounds is_free (drain_carry_retry new_tag seal submit now prices s)
