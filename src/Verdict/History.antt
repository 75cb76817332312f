-- ===== src/Verdict/History.antt =====
-- The events of one order in the log, as offchain/soak_verdict.py groups them, and what one more line
-- of the log does to them.
use jamswap.Prelude.{
  ◌≡◌, refl, max, ◌||◌, some, List, [], ◌∷◌, ◌++◌, arith, filter, any, if◌then◌else◌,
}
use jamswap.Telemetry.{Event}
use jamswap.Telemetry.Store.{Key, same_key}
use jamswap.Verdict.{last_event, max_ts, is_ending}

abbrev pub history : Key → List Event → List Event
history k log = filter (λ e. same_key k e.key) log

pub history-snoc :
    (k : Key) (log : List Event) (e : Event)
    → history k (log ++ e ∷ [])
      ≡ (if same_key k e.key then history k log ++ e ∷ [] else history k log)
history-snoc k [] e = ground arith
history-snoc k (x ∷ xs) e = ground (arith, history-snoc k xs e)

pub last_event-snoc : (es : List Event) (e : Event) → last_event (es ++ e ∷ []) ≡ some e
last_event-snoc [] e = refl
last_event-snoc (x ∷ xs) e = rw (last_event-snoc xs e) refl

pub max_ts-snoc : (es : List Event) (e : Event) → max_ts (es ++ e ∷ []) ≡ max (max_ts es) e.ts
max_ts-snoc [] e = omega arith
max_ts-snoc (x ∷ xs) e = omega (arith, max_ts-snoc xs e)

pub any_ending-snoc :
    (es : List Event) (e : Event) → any is_ending (es ++ e ∷ []) ≡ (any is_ending es || is_ending e)
any_ending-snoc [] e = ground arith
any_ending-snoc (x ∷ xs) e = ground (arith, any_ending-snoc xs e)
