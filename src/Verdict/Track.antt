-- ===== src/Verdict/Track.antt =====
-- The records of offchain/order_telemetry.py against the event log that it writes: every state that
-- the transitions reach.
use jamswap.Prelude.{
  ℕ, suc, ◌≡◌, refl, ◌≤◌, ◌⊎◌, inl, inr, true, false, some, none, List, [], ◌∷◌, ◌++◌, arith, any,
  Option-cases, Bool-cases, ◌∙◌,
}
use jamswap.Telemetry.{is_terminal, is_rested, Rec, Event, or_else, log_live, on_live, Telemetry}
use jamswap.Telemetry.Store.{Key, same_key, same_key_eq, find, put, pop, find-put, find-pop}
use jamswap.Verdict.{last_event, max_ts, is_ending, is_resting}
use jamswap.Verdict.History.{history, history-snoc, last_event-snoc, max_ts-snoc, any_ending-snoc}

-- What a live record knows of its order's events.
pub record Tracks (es : List Event) (r : Rec) : Type 0 where
  pub last : Event
  pub is_last : last_event es ≡ some last
  pub seen : r.last ≡ some last.ts
  pub live : is_terminal r.phase ≡ false
  pub phase : is_rested r.phase ≡ is_resting last
  pub expiry :
      is_resting last ≡ true
      → (n : ℕ) × (r.expires_at ≡ some (suc n)) × (last.expires_at ≡ some (suc n))
  pub unended : any is_ending es ≡ false
  pub newest : max_ts es ≡ last.ts

-- At the time `now`: the live records track their orders, the other orders are unknown or ended, and
-- no event is later.
pub record IsTracked (now : ℕ) (t : Telemetry) : Type 0 where
  pub known : (k : Key) (r : Rec) → find k t.orders ≡ some r → Tracks (history k t.log) r
  pub gone :
      (k : Key)
      → find k t.orders ≡ none
      → (history k t.log ≡ []) ⊎ (any is_ending (history k t.log) ≡ true)
  pub past : (k : Key) → max_ts (history k t.log) ≤ now

-- An event that leaves its order live, with the record that goes with it.
pub record IsLive (now : ℕ) (r : Rec) (e : Event) : Type 0 where
  pub at : e.ts ≡ now
  pub goes_on : is_ending e ≡ false
  pub live : is_terminal r.phase ≡ false
  pub phase : is_rested r.phase ≡ is_resting e
  pub expiry : is_resting e ≡ true → (n : ℕ) × (e.expires_at ≡ some (suc n))

pub past-snoc :
    (s now : ℕ) (k : Key) (log : List Event) (e : Event)
    → s ≤ now
    → e.ts ≡ now
    → max_ts (history k log) ≤ s
    → max_ts (history k (log ++ e ∷ [])) ≤ now
past-snoc s now k log e le at h =
    rw (history-snoc k log e) (ground (arith, max_ts-snoc (history k log) e))

Tracks-snoc :
    (s now : ℕ) (r : Rec) (e : Event) (es : List Event)
    → s ≤ now
    → max_ts es ≤ s
    → any is_ending es ≡ false
    → IsLive now r e
    → Tracks
        (es ++ e ∷ [])
        (record r { last = some e.ts; expires_at = or_else e.expires_at r.expires_at })
Tracks-snoc s now r e es le past un l = record {
  last = e;
  is_last = last_event-snoc es e;
  seen = refl;
  live = l.live;
  phase = l.phase;
  expiry = λ h. let (n, eq) = l.expiry h in (n, rw eq refl, eq);
  unended = any_ending-snoc es e ∙ rw (un, l.goes_on) refl;
  newest = omega (arith, max_ts-snoc es e, l.at);
}

find-put_same :
    (k j : Key) (r : Rec) (d : List (Key × Rec)) → same_key k j ≡ true → find k (put j r d) ≡ some r
find-put_same k j r d h = find-put k j r d ∙ rw h refl

find-put_other :
    (k j : Key) (r : Rec) (d : List (Key × Rec))
    → same_key k j ≡ false
    → find k (put j r d) ≡ find k d
find-put_other k j r d h = find-put k j r d ∙ rw h refl

pub find-pop_same :
    (k j : Key) (d : List (Key × Rec)) → same_key k j ≡ true → find k (pop j d) ≡ none
find-pop_same k j d h = find-pop k j d ∙ rw h refl

pub find-pop_other :
    (k j : Key) (d : List (Key × Rec)) → same_key k j ≡ false → find k (pop j d) ≡ find k d
find-pop_other k j d h = find-pop k j d ∙ rw h refl

pub log_live-IsTracked :
    (s now : ℕ) (r : Rec) (e : Event) (t : Telemetry)
    → s ≤ now
    → IsTracked s t
    → any is_ending (history e.key t.log) ≡ false
    → IsLive now r e
    → IsTracked now (log_live r e t)
unfolding log_live
log_live-IsTracked s now r e t le i un l =
    let r' : Rec = record r { last = some e.ts; expires_at = or_else e.expires_at r.expires_at } in
    record {
      known = λ k q h. elim (Bool-cases (same_key k e.key)) [
        | inl same ↦
            let f = find-put_same k e.key r' t.orders same in
            let eq : r' ≡ q = cc (f, h) in
            let un' : any is_ending (history k t.log) ≡ false = rw (same_key_eq k e.key same) un in
            rw (history-snoc k t.log e, same, ← eq)
              (Tracks-snoc s now r e (history k t.log) le (i.past k) un' l)
        | inr other ↦
            let f = find-put_other k e.key r' t.orders other in
            rw (history-snoc k t.log e, other) (i.known k q (cc (f, h)))
      ];
      gone = λ k h. elim (Bool-cases (same_key k e.key)) [
        | inl same ↦ absurd (cc (find-put_same k e.key r' t.orders same, h))
        | inr other ↦
            let f = find-put_other k e.key r' t.orders other in
            rw (history-snoc k t.log e, other) (i.gone k (cc (f, h)))
      ];
      past = λ k. past-snoc s now k t.log e le l.at (i.past k);
    }

-- What a transition on a live order has to do: to leave it live, with the event that it logs.
abbrev pub Advances : ℕ → (Rec → Rec) → (Rec → Event) → Type 0
Advances now change event =
    (r : Rec) → is_terminal r.phase ≡ false → IsLive now (change r) (event (change r))

IsTracked-later : (s now : ℕ) (t : Telemetry) → s ≤ now → IsTracked s t → IsTracked now t
IsTracked-later s now t le i = record {
  known = i.known;
  gone = i.gone;
  past = λ k. omega (arith, i.past k);
}

pub on_live-IsTracked :
    (s now : ℕ) (k : Key) (change : Rec → Rec) (event : Rec → Event) (t : Telemetry)
    → s ≤ now
    → IsTracked s t
    → Advances now change event
    → ((r : Rec) → (event r).key ≡ k)
    → IsTracked now (on_live k change event t)
unfolding on_live
on_live-IsTracked s now k change event t le i advances of_key =
    elim (Option-cases (find k t.orders)) [
      | inl unknown_order ↦ rw unknown_order (IsTracked-later s now t le i)
      | inr (r, found) ↦
          let tr = i.known k r found in
          rw (found, tr.live)
            (log_live-IsTracked s now (change r) (event (change r)) t le i
              (rw (of_key (change r)) tr.unended) (advances r tr.live))
    ]
