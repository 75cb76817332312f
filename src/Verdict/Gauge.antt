-- ===== src/Verdict/Gauge.antt =====
-- Where the SLO tallies of offchain/order_telemetry.py and the verdict of offchain/soak_verdict.py part
-- on the same order.
use jamswap.Prelude.{
  ℕ, suc, ◌≡◌, refl, ◌∙◌, ◌≤◌, Bool, true, false, ◌||◌, Option, some, none, List, [], ◌∷◌, ◌++◌,
  filter, any, arith, Bool-cases, inl, inr,
}
use jamswap.Telemetry.{
  Rec, Event, Telemetry, ending, line, log_live, on_live, rest, end_order, is_terminal, filled,
  cancelled, rested, or_else,
}
use jamswap.Telemetry.Store.{Key, same_key_refl, find, find-put}
use jamswap.Verdict.{
  first_with, is_ending, is_resting, is_marketable, judge, judged_marketable, classify, Class,
}
use jamswap.Verdict.History.{history, history-snoc}
use jamswap.Verdict.Reach.{Reaches, then_rest, reached-IsTracked}

-- The first ending of a list that had none before.
first_ending-snoc :
    (es : List Event) (e : Event)
    → any is_ending es ≡ false
    → is_ending e ≡ true
    → first_with is_ending (es ++ e ∷ []) ≡ some e
first_ending-snoc [] e h k = rw k refl
first_ending-snoc (x ∷ xs) e h k = elim (Bool-cases (is_ending x)) [
  | inl ends ↦ absurd (cc (rw ends at h))
  | inr goes_on ↦ rw goes_on (first_ending-snoc xs e (rw goes_on at h) k)
]

no_rest-snoc :
    (es : List Event) (e : Event)
    → filter is_resting es ≡ []
    → is_resting e ≡ false
    → filter is_resting (es ++ e ∷ []) ≡ []
no_rest-snoc [] e h k = rw k refl
no_rest-snoc (x ∷ xs) e h k = elim (Bool-cases (is_resting x)) [
  | inl rests ↦ absurd (cc (rw rests at h))
  | inr moves ↦ rw moves (no_rest-snoc xs e (rw moves at h) k)
]

any_marketable-snoc :
    (es : List Event) (e : Event) → e.marketable ≡ true → any is_marketable (es ++ e ∷ []) ≡ true
any_marketable-snoc [] e h = rw h refl
any_marketable-snoc (x ∷ xs) e h = ground (arith, any_marketable-snoc xs e h)

class_cancelled :
    (es : List Event) (e : Event)
    → first_with is_ending es ≡ some e
    → e.outcome ≡ cancelled
    → filter is_resting es ≡ []
    → any is_marketable es ≡ true
    → (judge es).class ≡ Class.missed
unfolding judge classify judged_marketable
class_cancelled es e first outcome never market = rw (first, outcome, never, market) refl

class_filled :
    (es : List Event) (e : Event)
    → first_with is_ending es ≡ some e
    → e.outcome ≡ filled
    → (judge es).class ≡ Class.cleared
unfolding judge classify
class_filled es e first outcome = rw (first, outcome) refl

-- In a reached state, a live marketable order that has not rested and ends as cancelled is a miss for
-- the verdict, and leaves both tallies of the live gauge as they were.
pub cancelled_gauge :
    (s now traded : ℕ) (t : Telemetry) (k : Key) (r : Rec)
    → Reaches s t
    → find k t.orders ≡ some r
    → r.marketable ≡ true
    → filter is_resting (history k t.log) ≡ []
    → let u = end_order k cancelled traded now t in
      (u.cleared ≡ t.cleared)
      × (u.missed ≡ t.missed)
      × ((judge (history k u.log)).class ≡ Class.missed)
unfolding end_order
cancelled_gauge s now traded t k r steps found sells never =
    let tr = (reached-IsTracked steps).known k r found in
    let e : Event = record (line k now ending r.marketable) {
      retries = r.retries;
      outcome = cancelled;
      filled = traded;
    } in
    let es = history k t.log in
    let first = first_ending-snoc es e tr.unended refl in
    let no_rest = no_rest-snoc es e never refl in
    let market = any_marketable-snoc es e sells in
    (
      rw found (ground arith),
      rw found (ground arith),
      rw (found, history-snoc k t.log e, same_key_refl k)
          (class_cancelled (es ++ e ∷ []) e first refl no_rest market),
    )

-- The record of a live order after `rest`.
abbrev left_resting : Rec → Bool → Option ℕ → ℕ → Rec
left_resting r crossed expires_at now = record r {
  phase = rested;
  crossed = r.crossed || crossed;
  marketable = false;
  last = some now;
  expires_at = or_else (or_else expires_at none) r.expires_at;
}

-- An auction's rest leaves its order live, no longer marketable, and the tallies as they were.
rest-find :
    (k : Key) (r : Rec) (crossed : Bool) (traded : ℕ) (expires_at : Option ℕ) (now : ℕ)
    (t : Telemetry)
    → find k t.orders ≡ some r
    → is_terminal r.phase ≡ false
    → let v = rest k crossed traded expires_at now t in
      (q : Rec) × (find k v.orders ≡ some q)
      × (q.marketable ≡ false)
      × (v.cleared ≡ t.cleared)
      × (v.missed ≡ t.missed)
unfolding rest on_live log_live
rest-find k r crossed traded expires_at now t found live =
    let q = left_resting r crossed expires_at now in
    rw (found, live) (q, find-put k k q t.orders ∙ rw (same_key_refl k) refl, refl, refl, refl)

-- In a reached state, a live order that an auction leaves resting and that fills later has cleared for
-- the verdict, and leaves both tallies of the live gauge as they were.
pub rested_gauge :
    (s now later part traded before_expiry : ℕ) (crossed : Bool) (t : Telemetry) (k : Key) (r : Rec)
    → Reaches s t
    → s ≤ now
    → find k t.orders ≡ some r
    → let u =
        end_order k filled traded later (rest k crossed part (some (suc before_expiry)) now t) in
      (u.cleared ≡ t.cleared)
      × (u.missed ≡ t.missed)
      × ((judge (history k u.log)).class ≡ Class.cleared)
rested_gauge s now later part traded before_expiry crossed t k r steps le found =
    let v = rest k crossed part (some (suc before_expiry)) now t in
    let i = reached-IsTracked (then_rest now k crossed part before_expiry le steps) in
    let (q, f, m, c, d) =
      rest-find k r crossed part (some (suc before_expiry)) now t found
        ((reached-IsTracked steps).known k r found).live in
    let e : Event = record (line k later ending q.marketable) {
      retries = q.retries;
      outcome = filled;
      filled = traded;
    } in
    let es = history k v.log in
    let first = first_ending-snoc es e (i.known k q f).unended refl in
    unfold end_order in
    (
      rw (f, m) c,
      rw (f, m) d,
      rw (f, history-snoc k v.log e, same_key_refl k) (class_filled (es ++ e ∷ []) e first refl),
    )
