-- ===== src/Settle/Release.antt =====
-- How a round in flight ends in offchain/server.py: what `_resolve_inflight` needs to finalize it, and that
-- a round that does not land is released.
use jamswap.Prelude.{
  ℕ, ◌+◌, ◌≡◌, ◌≤◌, ◌<◌, refl, ◌⊎◌, inl, inr, Bool, Option, none, some, List, ◌++◌, arith,
  Bool-cases, leb, le→leb, lt→ltb, if◌then◌else◌,
}
use jamswap.Settle.Market.{Queued, Tracked, Market, Why, timeout}
use jamswap.Settle.Judge.{Settings, ChainReads, round_dead}
use jamswap.Settle.Sweep.{sight, abandon, own_orders}
use jamswap.Settle.Resolve.{
  dying, undecided, act_inflight, resolve_inflight, rule, since_or, flight_step,
}
use jamswap.Settle.Flight.{cool_down-same}

-- A read of the round that says it has not landed, and that its preconditions could be read.
abbrev pub NotLanded : ChainReads → Tracked → Type 0
NotLanded r fr = (r.landed ≡ some none) × ((d : Option Why) × (round_dead r fr ≡ some d))

-- The market with the round `fr` in flight.
abbrev pub flying : Tracked → Market → Market
flying fr s = record s { inflight = some fr }

-- The round is released, and its orders stand at the front of the mempool.
abbrev pub Released : Tracked → Market → Market → Type 0
Released fr s u = (u.inflight ≡ none) × (u.pending ≡ own_orders fr ++ s.pending)

pub abandon-Released :
    (c : Settings) (fr : Tracked) (dead : Option ℕ) (why : Why) (now : ℕ) (s : Market)
    → Released fr s
        (abandon c (record fr { dead_since = dead }) why now (record s { inflight = none }))
unfolding abandon
abandon-Released c fr dead why now s =
    let same = cool_down-same (record fr { dead_since = dead }) why now _ in (same.1, same.0)

-- What the sweep rules on a round that has not landed and was not seen landed.
absent_rule :
    (c : Settings) (now : ℕ) (r : ChainReads) (fr : Tracked) (zs : List Tracked)
    → fr.ok_since ≡ none
    → NotLanded r fr
    → ((why : Why) × (rule (round_dead r fr) (sight c now r fr zs) ≡ dying why))
      ⊎ (rule (round_dead r fr) (sight c now r fr zs) ≡ undecided)
unfolding sight
absent_rule c now r fr zs unseen (marker, (none, d)) = inr (rw (d, marker, unseen) refl)
absent_rule c now r fr zs unseen (marker, (some why, d)) = inl (why, rw (d, marker, unseen) refl)

since_or_le :
    (dead : Option ℕ) (now : ℕ) → ((t : ℕ) → dead ≡ some t → t ≤ now) → since_or dead now ≤ now
since_or_le none now h = omega arith
since_or_le (some t) now h = h t refl

module _ (new_tag : Queued → ℕ) (seal : Queued → Option ℕ) (submit : Queued → Bool) (c : Settings)
    (fr : Tracked) (s : Market) (unseen : fr.ok_since ≡ none) where
  abbrev step_at : ℕ → ChainReads → Market
  step_at now r = resolve_inflight new_tag seal submit c now r fr (flying fr s)

  -- A sweep of an overdue round that has not landed releases it, or notes since when it is dead.
  first_step :
      (now : ℕ) (r : ChainReads)
      → ((t : ℕ) → fr.dead_since ≡ some t → t ≤ now)
      → fr.begun + c.round_gate < now
      → NotLanded r fr
      → Released fr s (step_at now r)
        ⊎ ((t : ℕ) × (t ≤ now) × (step_at now r ≡ flying (record fr { dead_since = some t }) s))
  unfolding resolve_inflight act_inflight
  first_step now r before overdue out = elim (absent_rule c now r fr s.zombies unseen out) [
    | inl (why, e) ↦
        let t = since_or fr.dead_since now in
        rw e (elim (Bool-cases (leb (t + c.dead_confirm) now)) [
          | inl late ↦ inl (rw late (abandon-Released c fr (some t) why now s))
          | inr early ↦ inr (t, since_or_le fr.dead_since now before, rw early refl)
        ])
    | inr e ↦ inl (
        rw (e, lt→ltb (fr.begun + c.round_gate) now overdue)
          (abandon-Released c fr none timeout now s))
  ]

  -- A sweep after it has been dead for long enough, and overdue, releases it.
  last_step :
      (now : ℕ) (r : ChainReads) (t : ℕ)
      → fr.dead_since ≡ some t
      → t + c.dead_confirm ≤ now
      → fr.begun + c.round_gate < now
      → NotLanded r fr
      → Released fr s (step_at now r)
  unfolding resolve_inflight act_inflight
  last_step now r t dead long overdue out = elim (absent_rule c now r fr s.zombies unseen out) [
    | inl (why, e) ↦ rw e (on_dead fr.dead_since dead why)
    | inr e ↦
        rw (e, lt→ltb (fr.begun + c.round_gate) now overdue)
          (abandon-Released c fr none timeout now s)
  ]
    where
      on_dead :
          (d : Option ℕ)
          → d ≡ some t
          → (why : Why)
          → Released fr s (
              if leb (since_or d now + c.dead_confirm) now
              then abandon c
                  (record fr { dead_since = some (since_or d now) })
                  why
                  now
                  (record s { inflight = none })
              else flying (record fr { dead_since = some (since_or d now) }) s)
      on_dead d e why =
          rw e
            (rw (le→leb (t + c.dead_confirm) now long) (abandon-Released c fr (some t) why now s))

module _ (new_tag : Queued → ℕ) (seal : Queued → Option ℕ) (submit : Queued → Bool) (c : Settings)
    (fr : Tracked) (s : Market) where
  stays-Released :
      (later : ℕ) (q : ChainReads) (f : Option Tracked) (u : Market)
      → f ≡ none
      → Released fr s u
      → Released fr s (flight_step new_tag seal submit c later q f u)
  stays-Released later q f u e h = rw e h

  -- A round in flight that does not land is released: after two sweeps that read that it has not landed,
  -- the first once the round is overdue and the second at least DEAD_CONFIRM_SECS later, nothing is in
  -- flight, and its orders that no landed round holds are in front of the mempool, whatever else the chain
  -- answers, provided that the round had not been seen landed, and was not noted as dead after the first
  -- sweep's time.
  pub resolve_inflight_releases :
      (now later : ℕ) (r q : ChainReads)
      → fr.ok_since ≡ none
      → ((t : ℕ) → fr.dead_since ≡ some t → t ≤ now)
      → fr.begun + c.round_gate < now
      → now + c.dead_confirm ≤ later
      → NotLanded r fr
      → NotLanded q fr
      → let u = flight_step new_tag seal submit c now r (some fr) (flying fr s) in
        Released fr s (flight_step new_tag seal submit c later q u.inflight u)
  unfolding round_dead
  resolve_inflight_releases now later r q unseen before overdue long out still =
      let u = flight_step new_tag seal submit c now r (some fr) (flying fr s) in
      elim (first_step new_tag seal submit c fr s unseen now r before overdue out) [
        | inl done ↦ stays-Released later q u.inflight u done.0 done
        | inr (t, past, e) ↦ rw e (
            last_step new_tag seal submit c (record fr { dead_since = some t }) s unseen later q t
              refl (omega arith) (omega arith) still)
      ]
