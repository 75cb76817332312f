-- ===== src/Verdict/Agreement.antt =====
-- The live gauge of `snapshot` in offchain/order_telemetry.py against the verdict of
-- offchain/soak_verdict.py on the log that the same process wrote.
use jamswap.Prelude.{
  ℕ, ◌≡◌, refl, ◌∙◌, ◌-◌, Bool, true, false, ◌||◌, Option, some, none, List, [], ◌∷◌, filter, any,
  ltb, arith, Bool-cases, Option-cases, inl, inr, sym,
}
use jamswap.Telemetry.{Rec, Event, Telemetry, open_grace, late}
use jamswap.Telemetry.Store.{Key, find}
use jamswap.Verdict.{
  first_with, last_event, is_ending, is_resting, judge, classify, judged_marketable, is_class_open,
  is_class_resting, stuck_silent, stuck_resting, load,
}
use jamswap.Verdict.History.{history}
use jamswap.Verdict.Track.{Tracks}
use jamswap.Verdict.Reach.{Reaches, reached-IsTracked}
use jamswap.Verdict.Load.{joined, load_groups}

-- `late > OPEN_GRACE`, for an order that may be live.
abbrev pub is_stale : ℕ → Option Rec → Bool
is_stale now none = false
is_stale now (some r) = ltb open_grace (late now r)

-- What `score` appends to `stuck_open`.
abbrev pub is_stuck : ℕ → List Event → Bool
is_stuck now es = stuck_silent open_grace now es || stuck_resting open_grace now es

first_ending :
    (es : List Event) → any is_ending es ≡ true → (e : Event) × (first_with is_ending es ≡ some e)
first_ending [] h = absurd (cc h)
first_ending (e ∷ es) h = elim (Bool-cases (is_ending e)) [
  | inl ends ↦ (e, rw ends refl)
  | inr goes_on ↦ let (f, g) = first_ending es (rw goes_on at h) in (f, rw goes_on g)
]

no_ending : (es : List Event) → any is_ending es ≡ false → first_with is_ending es ≡ none
no_ending [] h = refl
no_ending (e ∷ es) h = ground (arith, no_ending es)

class_ended :
    (e : Event) (marketable : Bool) (last : Option Event)
    → (is_class_open (classify (some e) marketable last) ≡ false)
      × (is_class_resting (classify (some e) marketable last) ≡ false)
unfolding classify
class_ended e marketable last = ground arith

ended-stuck : (now : ℕ) (es : List Event) → any is_ending es ≡ true → is_stuck now es ≡ false
unfolding stuck_silent stuck_resting judge
ended-stuck now es h =
    let (e, f) = first_ending es h in
    let (o, r) = class_ended e (judged_marketable es) (last_event es) in rw f (rw (o, r) refl)

last_event-none : (es : List Event) → last_event es ≡ none → es ≡ []
last_event-none [] h = refl
last_event-none (e ∷ es) h = elim (Option-cases (last_event es)) [
  | inl gone ↦ absurd (cc (rw gone at h))
  | inr (f, g) ↦ absurd (cc (rw g at h))
]

last_rest :
    (es : List Event) (e : Event)
    → last_event es ≡ some e
    → is_resting e ≡ true
    → last_event (filter is_resting es) ≡ some e
last_rest [] e h r = absurd (cc h)
last_rest (x ∷ xs) e h r = elim (Option-cases (last_event xs)) [
  | inl gone ↦
      let same : some x ≡ some e = rw gone at h in
      let rests : is_resting x ≡ true = cc (r, same) in rw (last_event-none xs gone, rests) same
  | inr (f, g) ↦
      let same : some f ≡ some e = rw g at h in
      let later = last_rest xs e (g ∙ same) r in
      elim (Bool-cases (is_resting x)) [
        | inl rests ↦ rw (rests, later) refl
        | inr moves ↦ rw moves later
      ]
]

or_false : (b : Bool) → (b || false) ≡ b
or_false true = refl
or_false false = refl

tracked-stuck :
    (now : ℕ) (es : List Event) (r : Rec)
    → Tracks es r
    → is_stuck now es ≡ ltb open_grace (late now r)
unfolding stuck_silent stuck_resting judge classify late
tracked-stuck now es r t = elim (Bool-cases (is_resting t.last)) [
  | inl on_rest ↦
      let (n, e, f) = t.expiry on_rest in
      rw
        (
          no_ending es t.unended,
          t.is_last,
          on_rest,
          last_rest es t.last t.is_last on_rest,
          f,
          t.phase,
          on_rest,
          e,
        )
        refl
  | inr silent ↦
      rw (no_ending es t.unended, t.is_last, silent, t.phase, silent, t.seen, t.newest)
        (or_false (ltb open_grace (now - t.last.ts)))
]

joined-some : (xs es : List Event) → joined none xs ≡ some es → (xs ≡ es) × ¬ (xs ≡ [])
joined-some [] es h = absurd (cc h)
joined-some (x ∷ xs) es h = (cc h, λ e. cc e)

-- In every state that the transitions reach, whatever the time, an order of the log is stuck open for
-- the verdict exactly if it is live and counted as stale by the live gauge.
pub stuck_iff_stale :
    (s now : ℕ) (t : Telemetry) (k : Key) (es : List Event)
    → Reaches s t
    → find k (load t.log) ≡ some es
    → is_stuck now es ≡ is_stale now (find k t.orders)
stuck_iff_stale s now t k es steps h =
    let i = reached-IsTracked steps in
    let (same, some_event) = joined-some (history k t.log) es (sym (load_groups k t.log) ∙ h) in
    elim (Option-cases (find k t.orders)) [
      | inl dead ↦ rw dead (elim (i.gone k dead) [
        | inl unseen ↦ absurd (some_event unseen)
        | inr ended ↦ ended-stuck now es (rw same at ended)
      ])
      | inr (r, found) ↦
          rw (found, ← same) (tracked-stuck now (history k t.log) r (i.known k r found))
    ]
