-- ===== src/Settle/Sweeps.antt =====
-- No sweep of offchain/server.py loses an order: `_resolve_zombies`, then `_resolve_inflight`.
use jamswap.Prelude.{
  ℕ, map, Bool, true, false, Option, none, some, List, [], ◌∷◌, Bool-cases, inl, inr, leb, ltb, ◌+◌,
}
use jamswap.Settle.Market.{
  Queued, OrderKey, okey, Tracked, Market, orders_of, reverted, landed, erased, timeout,
}
use jamswap.Settle.Judge.{Settings, ChainReads, round_dead}
use jamswap.Settle.Sweep.{
  forgotten, hiccup, first_seen, waiting, settling, raising, vanished, absent, sight, sweep_all,
  resolve_zombies,
}
use jamswap.Settle.Resolve.{
  Ruling, sees, dying, undecided, act_inflight, resolve_inflight, rule, since_or, flight_step,
  then_flight, resolve_rounds,
}
use jamswap.Settle.Account.{Accounted}
use jamswap.Settle.Loop.{walk_at}
use jamswap.Settle.Swept.{Whole, sweep_all-Kept}
use jamswap.Settle.Lossless.{Sound, done-Accounted}
use jamswap.Settle.Flight.{hold-Accounted, rest-Accounted, settle-Accounted, abandon-Accounted}

module _ (new_tag : Queued → ℕ) (seal : Queued → Option ℕ) (submit : Queued → Bool) (c : Settings)
    (now : ℕ) (reads : Tracked → ChainReads) where
  pub resolve_zombies-Accounted :
      (k : OrderKey) (s : Market)
      → Accounted k s.zombies s
      → Sound s
      → Whole new_tag seal submit c now reads s.zombies (walk_at [] s.zombies [] s false)
      → let u = (resolve_zombies new_tag seal submit c now reads s).0 in
        Accounted k u.zombies u × Sound u
  unfolding resolve_zombies
  resolve_zombies-Accounted k s h sound whole =
      let w =
        sweep_all new_tag seal submit c now reads s.zombies (walk_at [] s.zombies [] s false) in
      let kept =
        sweep_all-Kept new_tag seal submit c now k reads s.zombies (walk_at [] s.zombies [] s false)
          (record {
            accounted = h;
            flight = sound.flight;
            released = sound.released;
            gone = tt;
            apart = sound.apart;
          })
          whole in
      done-Accounted k w.before w.after w.taken w.market w.raised kept

module _ (new_tag : Queued → ℕ) (seal : Queued → Option ℕ) (submit : Queued → Bool) (c : Settings)
    (now : ℕ) (k : OrderKey) where
  -- What a step keeps.
  abbrev Keeps : Market → Type 0
  Keeps u = Accounted k u.zombies u × Sound u

  act_inflight-Accounted :
      (g : Ruling) (fr : Tracked) (s : Market)
      → Keeps (record s { inflight = some fr })
      → Keeps (act_inflight new_tag seal submit c now g fr (record s { inflight = some fr }))
  unfolding act_inflight
  act_inflight-Accounted (sees forgotten) fr s h = h
  act_inflight-Accounted (sees hiccup) fr s h = h
  act_inflight-Accounted (sees first_seen) fr s h =
      hold-Accounted k fr s (some now) none (landed fr.rid ∷ []) h.0 h.1
  act_inflight-Accounted (sees waiting) fr s h = rest-Accounted k fr s fr.ok_since none h.0 h.1
  act_inflight-Accounted (sees settling) fr s h =
      settle-Accounted k fr s new_tag seal submit c.max_orders now h.0 h.1
  act_inflight-Accounted (sees raising) fr s h = rest-Accounted k fr s fr.ok_since none h.0 h.1
  act_inflight-Accounted (sees vanished) fr s h =
      hold-Accounted k fr s none fr.dead_since
        (erased fr.rid ∷ map (λ o. reverted (okey o)) (orders_of fr)) h.0 h.1
  act_inflight-Accounted (sees absent) fr s h = h
  act_inflight-Accounted (dying why) fr s h =
      let since = since_or fr.dead_since now in
      elim (Bool-cases (leb (since + c.dead_confirm) now)) [
        | inl late ↦ rw late (abandon-Accounted k fr s c (some since) why now h.0 h.1)
        | inr early ↦ rw early (rest-Accounted k fr s fr.ok_since (some since) h.0 h.1)
      ]
  act_inflight-Accounted undecided fr s h = elim (Bool-cases (ltb (fr.begun + c.round_gate) now)) [
    | inl late ↦ rw late (abandon-Accounted k fr s c none timeout now h.0 h.1)
    | inr early ↦ rw early (rest-Accounted k fr s fr.ok_since none h.0 h.1)
  ]

  flight_step-Accounted :
      (r : ChainReads) (f : Option Tracked) (s : Market)
      → Keeps (record s { inflight = f })
      → Keeps (flight_step new_tag seal submit c now r f (record s { inflight = f }))
  unfolding resolve_inflight
  flight_step-Accounted r none s h = h
  flight_step-Accounted r (some fr) s h =
      act_inflight-Accounted (rule (round_dead r fr) (sight c now r fr s.zombies)) fr s h

  then_flight-Accounted :
      (reads : Tracked → ChainReads) (r : ChainReads) (u : Market) (t : List OrderKey)
      (raised : Bool)
      → Keeps u
      → Keeps (then_flight new_tag seal submit c now reads r (u, t, raised))
  then_flight-Accounted reads r u t true h = h
  then_flight-Accounted reads r u t false h = flight_step-Accounted r u.inflight u h

  -- A sweep of a market's rounds loses no order. An order is accounted for when it is queued, in the round
  -- in flight, in a released round seen landed, or recorded by a receipt or as resting. Where every claim
  -- noted on a round is founded, tracked rounds have different ids, and no released round is finalized
  -- while an order of it is noted as held by another, an order that is accounted for stays so, and so do
  -- the claims and the ids, whatever the chain answers.
  pub resolve_rounds-Accounted :
      (reads : Tracked → ChainReads) (flight : ChainReads) (s : Market)
      → Accounted k s.zombies s
      → Sound s
      → Whole new_tag seal submit c now reads s.zombies (walk_at [] s.zombies [] s false)
      → let u = resolve_rounds new_tag seal submit c now reads flight s in
        Accounted k u.zombies u × Sound u
  unfolding resolve_rounds
  resolve_rounds-Accounted reads flight s h sound whole =
      let w = resolve_zombies new_tag seal submit c now reads s in
      then_flight-Accounted reads flight w.0 w.1 w.2
        (resolve_zombies-Accounted new_tag seal submit c now reads k s h sound whole)
