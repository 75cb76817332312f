-- ===== src/Settle/Durable.antt =====
-- `_resolve_inflight` of offchain/server.py finalizes a round only when its landing is durable.
use jamswap.Prelude.{
  ℕ, ◌+◌, ◌≡◌, refl, ◌⊎◌, inl, inr, Bool, Option, none, some, List, [], ◌∷◌, ◌++◌, map, arith,
  Bool-cases, leb, ltb, ap, ◌∙◌, count, count-append,
}
use jamswap.Settle.Market.{
  Queued, okey, Tracked, Market, Why, timeout, Note, landed, erased, abandoned, requeued, reverted,
  orders_of,
}
use jamswap.Settle.Judge.{Settings, ChainReads, round_dead}
use jamswap.Settle.Sweep.{
  Sighting, forgotten, hiccup, first_seen, waiting, settling, raising, vanished, absent, sight,
  abandon, own_orders,
}
use jamswap.Settle.Resolve.{
  Ruling, sees, dying, undecided, act_inflight, resolve_inflight, rule, rule_on, since_or,
  flight_step,
}
use jamswap.Settle.Recorded.{finalize_round-keeps}
use jamswap.Settle.Flight.{cool_down-same}
use jamswap.Settle.Release.{flying, abandon-Released}
use jamswap.Settle.Sighted.{
  History, IsLanded, Unread, Sighted, Found, is_hiccup, is_first, is_waiting, is_raising,
  is_settling, is_vanished, is_absent, sight-Found, is_settled, settlements,
}

-- The round in flight with other times.
abbrev pub timed : Tracked → Option ℕ → Option ℕ → Tracked
timed fr ok dead = record fr { ok_since = ok; dead_since = dead }

-- The round is still in flight, seen landed as the sweeps say, or nothing is.
abbrev pub After : Tracked → History → Option Tracked → Type 0
After fr h f =
    (f ≡ none)
    ⊎ ((ok : Option ℕ) × (dead : Option ℕ) × (f ≡ some (timed fr ok dead)) × Sighted fr ok h)

Sighted-extend :
    (fr : Tracked) (ok : Option ℕ) (h : History) (n : ℕ) (r : ChainReads)
    → IsLanded r ⊎ Unread r fr
    → Sighted fr ok h
    → Sighted fr ok ((n, r) ∷ h)
Sighted-extend fr none h n r e s = tt
Sighted-extend fr (some t) h n r e s = inr (e, s)

module _ (new_tag : Queued → ℕ) (seal : Queued → Option ℕ) (submit : Queued → Bool) (c : Settings)
    (fr : Tracked) where
  module _ (now : ℕ) (r : ChainReads) (ok dead : Option ℕ) (h : History) (seen : Sighted fr ok h)
      (s : Market) where
    abbrev act_on : Sighting → Option Why → Market
    act_on g why =
        act_inflight new_tag seal submit c now (rule_on g why) (timed fr ok dead)
          (flying (timed fr ok dead) s)

    absent-After :
        (why : Option Why) → ok ≡ none → After fr ((now, r) ∷ h) (act_on absent why).inflight
    unfolding act_inflight
    absent-After none unseen = elim (Bool-cases (ltb (fr.begun + c.round_gate) now)) [
      | inl late ↦ inl (rw late (abandon-Released c (timed fr ok dead) none timeout now s).0)
      | inr early ↦ inr (ok, none, rw early refl, rw unseen tt)
    ]
    absent-After (some why) unseen =
        let t = since_or dead now in
        elim (Bool-cases (leb (t + c.dead_confirm) now)) [
          | inl late ↦ inl (rw late (abandon-Released c (timed fr ok dead) (some t) why now s).0)
          | inr early ↦ inr (ok, some t, rw early refl, rw unseen tt)
        ]

    act-After :
        (g : Sighting) (why : Option Why)
        → Found c now r (timed fr ok dead) s.zombies g
        → After fr ((now, r) ∷ h) (act_on g why).inflight
    unfolding act_inflight
    act-After forgotten why f = elim f [ ]
    act-After hiccup why (is_hiccup e) =
        inr (ok, dead, refl, Sighted-extend fr ok h now r (inr (inl e)) seen)
    act-After first_seen why (is_first l e) = inr (some now, none, refl, inl (refl, l))
    act-After waiting why (is_waiting l) =
        inr (ok, none, refl, Sighted-extend fr ok h now r (inl l) seen)
    act-After settling why (is_settling t l e v q) =
        inl
          (finalize_round-keeps new_tag seal submit c.max_orders now (timed fr ok none)
            (record s { inflight = none }) (record { account = 0; oid = 0; commit = none })).0
    act-After raising why (is_raising l) =
        inr (ok, none, refl, Sighted-extend fr ok h now r (inl l) seen)
    act-After vanished why is_vanished = inr (none, dead, refl, tt)
    act-After absent why (is_absent e) = absent-After why e

    resolve_inflight-After :
        After fr
          ((now, r) ∷ h)
          (resolve_inflight new_tag seal submit c now r
            (timed fr ok dead)
            (flying (timed fr ok dead) s)).inflight
    unfolding resolve_inflight round_dead act_inflight
    resolve_inflight-After = on_dead (round_dead r fr) refl
      where
        on_dead :
            (d : Option (Option Why))
            → round_dead r fr ≡ d
            → After fr
                ((now, r) ∷ h)
                (act_inflight new_tag seal submit c now
                  (rule d (sight c now r (timed fr ok dead) s.zombies))
                  (timed fr ok dead)
                  (flying (timed fr ok dead) s)).inflight
        on_dead none e = inr (ok, dead, refl, Sighted-extend fr ok h now r (inr (inr e)) seen)
        on_dead (some why) e =
            act-After (sight c now r (timed fr ok dead) s.zombies) why
              (sight-Found c now r (timed fr ok dead) s.zombies)

-- What is noted of other things leaves the settlements as they are.
count-reverted :
    (rid : ℕ) (os : List Queued)
    → count (λ n. is_settled rid n) (map (λ o. reverted (okey o)) os) ≡ 0
count-reverted rid [] = refl
count-reverted rid (o ∷ os) = count-reverted rid os

count-requeued :
    (rid : ℕ) (os : List Queued)
    → count (λ n. is_settled rid n) (map (λ o. requeued (okey o)) os) ≡ 0
count-requeued rid [] = refl
count-requeued rid (o ∷ os) = count-requeued rid os

count-log :
    (rid : ℕ) (xs es : List Note)
    → count (λ n. is_settled rid n) es ≡ 0
    → count (λ n. is_settled rid n) (xs ++ es) ≡ count (λ n. is_settled rid n) xs
count-log rid xs es h = count-append (λ n. is_settled rid n) xs es ∙ rw h (omega arith)

abandon-log :
    (c : Settings) (fr : Tracked) (why : Why) (now : ℕ) (s : Market)
    → (abandon c fr why now s).log
      ≡ (s.log ++ map (λ o. requeued (okey o)) (own_orders fr)) ++ abandoned fr.rid why ∷ []
unfolding abandon
abandon-log c fr why now s =
    ap (λ (l : List Note). l ++ abandoned fr.rid why ∷ []) (cool_down-same fr why now _).3

settlements-abandon :
    (rid : ℕ) (c : Settings) (fr : Tracked) (why : Why) (now : ℕ) (s : Market)
    → settlements rid (abandon c fr why now s) ≡ settlements rid s
settlements-abandon rid c fr why now s =
    let es = map (λ o. requeued (okey o)) (own_orders fr) in
    ap (λ l. count (λ n. is_settled rid n) l) (abandon-log c fr why now s)
    ∙ (count-log rid (s.log ++ es) (abandoned fr.rid why ∷ []) refl
        ∙ count-log rid s.log es (count-requeued rid (own_orders fr)))

module _ (new_tag : Queued → ℕ) (seal : Queued → Option ℕ) (submit : Queued → Bool) (c : Settings)
    (now : ℕ) (fr : Tracked) (s : Market) (rid : ℕ) where
  -- Only a ruling to settle settles the round.
  pub unsettled :
      (g : Ruling)
      → (g ≡ sees settling)
        ⊎ (settlements rid (act_inflight new_tag seal submit c now g fr (flying fr s))
            ≡ settlements rid s)
  unfolding act_inflight
  unsettled (sees forgotten) = inr refl
  unsettled (sees hiccup) = inr refl
  unsettled (sees first_seen) = inr (count-log rid s.log (landed fr.rid ∷ []) refl)
  unsettled (sees waiting) = inr refl
  unsettled (sees settling) = inl refl
  unsettled (sees raising) = inr refl
  unsettled (sees vanished) = inr (
      count-log rid s.log (erased fr.rid ∷ map (λ o. reverted (okey o)) (orders_of fr))
        (count-reverted rid (orders_of fr)))
  unsettled (sees absent) = inr refl
  unsettled (dying why) =
      let t = since_or fr.dead_since now in
      elim (Bool-cases (leb (t + c.dead_confirm) now)) [
        | inl late ↦ inr (
            rw late (
              settlements-abandon rid c (record fr { dead_since = some t }) why now
                (record s { inflight = none })))
        | inr early ↦ inr (rw early refl)
      ]
  unsettled undecided = elim (Bool-cases (ltb (fr.begun + c.round_gate) now)) [
    | inl late ↦ inr (
        rw late (
          settlements-abandon rid c (record fr { dead_since = none }) timeout now
            (record s { inflight = none })))
    | inr early ↦ inr (rw early refl)
  ]

pub flying_same : (fr : Tracked) (s : Market) → s.inflight ≡ some fr → s ≡ flying fr s
flying_same fr s e = λ i. record s { inflight = e i }

-- The sweeps of a history on the market's round in flight.
module _ (new_tag : Queued → ℕ) (seal : Queued → Option ℕ) (submit : Queued → Bool)
    (c : Settings) where
  abbrev pub sweeps : History → Market → Market
  sweeps [] s = s
  sweeps ((now, r) ∷ h) s =
      let u = sweeps h s in flight_step new_tag seal submit c now r u.inflight u

  module _ (fr : Tracked) (unseen : fr.ok_since ≡ none) where
    step-After :
        (now : ℕ) (r : ChainReads) (h : History) (u : Market) (f : Option Tracked)
        → After fr h f
        → u.inflight ≡ f
        → After fr ((now, r) ∷ h) (flight_step new_tag seal submit c now r f u).inflight
    step-After now r h u f (inl e) is = inl (rw e (is ∙ e))
    step-After now r h u f (inr (ok, dead, e, seen)) is =
        let g = timed fr ok dead in
        let same : u ≡ flying g u = flying_same g u (is ∙ e) in
        rw e (rw same (resolve_inflight-After new_tag seal submit c fr now r ok dead h seen u))

    pub sweeps-After : (h : History) (s : Market) → After fr h (sweeps h (flying fr s)).inflight
    sweeps-After [] s = inr (none, fr.dead_since, rw (← unseen) refl, tt)
    sweeps-After ((now, r) ∷ h) s =
        step-After now r h (sweeps h (flying fr s)) (sweeps h (flying fr s)).inflight
          (sweeps-After h s) refl
