-- ===== src/Settle/Settles.antt =====
-- The round in flight of offchain/server.py is finalized only after its landing has held, over the sweeps
-- since it was submitted.
use jamswap.Prelude.{
  ℕ, ◌+◌, ◌≡◌, ◌≢◌, ◌≤◌, refl, ◌⊎◌, inl, inr, Bool, true, false, Option, none, some, List, [], ◌∷◌,
  arith, max, ◌∙◌, ap, if◌then◌else◌,
}
use jamswap.Settle.Finality.{settle_hold}
use jamswap.Settle.Market.{Queued, Tracked, Market, Why, keys_of}
use jamswap.Settle.Judge.{
  Settings, ChainReads, round_dead, confirmed, confirmed_by, rival_landed, shares, after_rival,
}
use jamswap.Settle.Sweep.{
  Sighting, forgotten, hiccup, first_seen, waiting, settling, raising, vanished, absent, sight,
}
use jamswap.Settle.Resolve.{sees, resolve_inflight, rule, flight_step}
use jamswap.Settle.Release.{flying}
use jamswap.Settle.Sighted.{
  History, IsLanded, SeenSince, Sighted, Found, is_hiccup, is_first, is_waiting, is_raising,
  is_settling, is_vanished, is_absent, sight-Found, settlements,
}
use jamswap.Settle.Durable.{After, timed, unsettled, sweeps, sweeps-After, flying_same}

-- The landing is in the finalized state, or has held since `t`.
abbrev pub IsDurable : Settings → ℕ → ChainReads → ℕ → Type 0
IsDurable c now r t =
    (r.landed_final ≡ some (some true))
    ⊎ (t + max (settle_hold c.hold_secs c.held r.advancing) c.min_confirm ≤ now)

confirmed-IsDurable :
    (c : Settings) (now : ℕ) (r : ChainReads) (t : ℕ)
    → confirmed c r t now ≡ true
    → IsDurable c now r t
unfolding confirmed
confirmed-IsDurable c now r t = by_final r.landed_final refl
  where
    by_final :
        (m : Option (Option Bool))
        → r.landed_final ≡ m
        → confirmed_by c r.advancing t now m ≡ true
        → IsDurable c now r t
    by_final none e h = absurd (ground arith)
    by_final (some none) e h = inr (ground arith)
    by_final (some (some true)) e h = inl e
    by_final (some (some false)) e h = inr (ground arith)

-- What a sighting to settle rests on.
abbrev Grounds : Settings → ℕ → ChainReads → Tracked → List Tracked → Type 0
Grounds c now r fr others =
    (t : ℕ) × IsLanded r
    × (fr.ok_since ≡ some t)
    × IsDurable c now r t
    × (rival_landed r fr others ≡ some false)

found-Grounds :
    (c : Settings) (now : ℕ) (r : ChainReads) (fr : Tracked) (others : List Tracked) (g : Sighting)
    → Found c now r fr others g
    → g ≡ settling
    → Grounds c now r fr others
found-Grounds c now r fr others forgotten f e = elim f [ ]
found-Grounds c now r fr others hiccup (is_hiccup h) e = absurd (ground arith)
found-Grounds c now r fr others first_seen (is_first l h) e = absurd (ground arith)
found-Grounds c now r fr others waiting (is_waiting l) e = absurd (ground arith)
found-Grounds c now r fr others raising (is_raising l) e = absurd (ground arith)
found-Grounds c now r fr others settling (is_settling t l o v q) e =
    (t, l, o, confirmed-IsDurable c now r t v, q)
found-Grounds c now r fr others vanished is_vanished e = absurd (ground arith)
found-Grounds c now r fr others absent (is_absent h) e = absurd (ground arith)

rule-settling : (d : Option (Option Why)) (g : Sighting) → rule d g ≡ sees settling → g ≡ settling
rule-settling none g h = absurd (ground arith)
rule-settling (some none) g h = ground arith
rule-settling (some (some why)) g h = ground arith

-- The times of a round do not matter for its orders.
rival_landed-timed :
    (r : ChainReads) (fr : Tracked) (ok dead : Option ℕ) (zs : List Tracked)
    → rival_landed r fr zs ≡ rival_landed r (timed fr ok dead) zs
unfolding rival_landed keys_of
rival_landed-timed r fr ok dead [] = refl
rival_landed-timed r fr ok dead (z ∷ zs) =
    let ih = rival_landed-timed r fr ok dead zs in
    ap (λ b. if shares fr z then after_rival (r.rival z) b else b) ih

module _ (new_tag : Queued → ℕ) (seal : Queued → Option ℕ) (submit : Queued → Bool) (c : Settings)
    (fr : Tracked) (now : ℕ) (r : ChainReads) (h : History) where
  abbrev pub Durable : Market → Type 0
  Durable u =
      (t : ℕ) × SeenSince fr t h
      × IsLanded r
      × IsDurable c now r t
      × (rival_landed r fr u.zombies ≡ some false)

  flying-Durable :
      (u : Market) (ok dead : Option ℕ)
      → Sighted fr ok h
      → settlements fr.rid (
          resolve_inflight new_tag seal submit c now r
            (timed fr ok dead)
            (flying (timed fr ok dead) u))
        ≢ settlements fr.rid u
      → Durable u
  unfolding resolve_inflight
  flying-Durable u ok dead seen settles =
      let g = timed fr ok dead in
      let seeing = sight c now r g u.zombies in
      elim (unsettled new_tag seal submit c now g u fr.rid (rule (round_dead r g) seeing)) [
        | inl e ↦
            let found =
              found-Grounds c now r g u.zombies seeing (sight-Found c now r g u.zombies)
                (rule-settling (round_dead r g) seeing e) in
            (
              found.0,
              seen_at found.0 ok found.2 seen,
              found.1,
              found.3,
              rival_same u.zombies ∙ found.4,
            )
        | inr e ↦ absurd (settles e)
      ]
    where
      seen_at : (t : ℕ) (o : Option ℕ) → o ≡ some t → Sighted fr o h → SeenSince fr t h
      seen_at t o e = rw e (λ x. x)

      rival_same : (zs : List Tracked) → rival_landed r fr zs ≡ rival_landed r (timed fr ok dead) zs
      rival_same zs = rival_landed-timed r fr ok dead zs

  flight-Durable :
      (f : Option Tracked) (v : Market)
      → v.inflight ≡ f
      → After fr h f
      → settlements fr.rid (flight_step new_tag seal submit c now r f v) ≢ settlements fr.rid v
      → Durable v
  flight-Durable f v is (inl e) = rw e (λ settles. absurd (settles refl))
  flight-Durable f v is (inr (ok, dead, e, seen)) =
      rw e (rw (flying_same (timed fr ok dead) v (is ∙ e)) (flying-Durable v ok dead seen))

  -- When a sweep finalizes the round in flight (it notes a settlement of its id), then over the sweeps
  -- since it was submitted, not yet seen landed, it was seen landed at some sweep, at each sweep since
  -- that could read it, and at this one; either the landing is in the finalized state, or the settle hold
  -- and one resolver period have passed since; and no tracked round that shares an order with it reads as
  -- landed.
  pub settled-Durable :
      (s : Market)
      → fr.ok_since ≡ none
      → let u = sweeps new_tag seal submit c h (flying fr s) in
        settlements fr.rid (flight_step new_tag seal submit c now r u.inflight u)
          ≢ settlements fr.rid u
        → Durable u
  settled-Durable s unseen =
      let u = sweeps new_tag seal submit c h (flying fr s) in
      flight-Durable u.inflight u refl (sweeps-After new_tag seal submit c fr unseen h s)
