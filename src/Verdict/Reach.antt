-- ===== src/Verdict/Reach.antt =====
-- The states of offchain/order_telemetry.py that its transitions reach, in any order, as time goes on.
use jamswap.Prelude.{
  ℕ, suc, ◌≡◌, refl, ◌≤◌, inl, inr, Bool, false, some, arith, any, Bool-cases, ◌∙◌,
}
use jamswap.Telemetry.{
  Status, Rec, place, round_order, revert, requeue, defer, rest, end_order, Telemetry, empty,
}
use jamswap.Telemetry.Store.{Key, same_key, find}
use jamswap.Verdict.{is_ending}
use jamswap.Verdict.History.{history, history-snoc, any_ending-snoc}
use jamswap.Verdict.Track.{
  IsTracked, log_live-IsTracked, on_live-IsTracked, past-snoc, find-pop_same, find-pop_other,
}

-- A state and the time of its last transition. An order id is not placed again once it has ended, and
-- an auction that leaves an order resting says when it expires.
pub data Reaches : ℕ → Telemetry → Type 0 where
  start : Reaches 0 empty
  then_place :
      {s : ℕ} {t : Telemetry} (now : ℕ) (k : Key) (side price qty : ℕ) (sealed marketable : Bool)
      → s ≤ now
      → any is_ending (history k t.log) ≡ false
      → Reaches s t
      → Reaches now (place k side price qty sealed marketable now t)
  then_round :
      {s : ℕ} {t : Telemetry} (now : ℕ) (k : Key)
      → s ≤ now
      → Reaches s t
      → Reaches now (round_order k now t)
  then_revert :
      {s : ℕ} {t : Telemetry} (now : ℕ) (k : Key)
      → s ≤ now
      → Reaches s t
      → Reaches now (revert k now t)
  then_requeue :
      {s : ℕ} {t : Telemetry} (now : ℕ) (k : Key)
      → s ≤ now
      → Reaches s t
      → Reaches now (requeue k now t)
  then_defer :
      {s : ℕ} {t : Telemetry} (now : ℕ) (k : Key)
      → s ≤ now
      → Reaches s t
      → Reaches now (defer k now t)
  then_rest :
      {s : ℕ} {t : Telemetry} (now : ℕ) (k : Key) (crossed : Bool) (traded before_expiry : ℕ)
      → s ≤ now
      → Reaches s t
      → Reaches now (rest k crossed traded (some (suc before_expiry)) now t)
  then_end :
      {s : ℕ} {t : Telemetry} (now : ℕ) (k : Key) (outcome : Status) (traded : ℕ)
      → s ≤ now
      → Reaches s t
      → Reaches now (end_order k outcome traded now t)

end_order-IsTracked :
    (s now : ℕ) (k : Key) (outcome : Status) (traded : ℕ) (t : Telemetry)
    → s ≤ now
    → IsTracked s t
    → IsTracked now (end_order k outcome traded now t)
unfolding end_order
end_order-IsTracked s now k outcome traded t le i = record {
  known = λ j q h. elim (Bool-cases (same_key j k)) [
    | inl same ↦ absurd (cc (find-pop_same j k t.orders same, h))
    | inr differs ↦
        rw (history-snoc j t.log _, differs)
          (i.known j q (cc (find-pop_other j k t.orders differs, h)))
  ];
  gone = λ j h. elim (Bool-cases (same_key j k)) [
    | inl same ↦
        inr (rw (history-snoc j t.log _, same) (any_ending-snoc (history j t.log) _ ∙ ground arith))
    | inr differs ↦
        rw (history-snoc j t.log _, differs)
          (i.gone j (cc (find-pop_other j k t.orders differs, h)))
  ];
  past = λ j. past-snoc s now j t.log _ le refl (i.past j);
}

no_order : (k : Key) (r : Rec) → find k empty.orders ≡ some r → ⊥
unfolding find
no_order k r h = cc

-- Each state that the transitions reach is tracked.
pub reached-IsTracked : {s : ℕ} {t : Telemetry} → Reaches s t → IsTracked s t
unfolding place round_order revert requeue defer rest
reached-IsTracked start = record {
  known = λ k r h. absurd (no_order k r h);
  gone = λ k h. inl refl;
  past = λ k. omega arith;
}
reached-IsTracked (then_place {s} {t} now k side price qty sealed marketable le un steps) =
    log_live-IsTracked s now _ _ t le (reached-IsTracked steps) un
      (record { at = refl; goes_on = refl; live = refl; phase = refl; expiry = λ h. absurd (cc h) })
reached-IsTracked (then_round {s} {t} now k le steps) =
    on_live-IsTracked s now k _ _ t le (reached-IsTracked steps)
      (λ r h. record {
        at = refl;
        goes_on = refl;
        live = refl;
        phase = refl;
        expiry = λ e. absurd (cc e);
      })
      (λ r. refl)
reached-IsTracked (then_revert {s} {t} now k le steps) =
    on_live-IsTracked s now k _ _ t le (reached-IsTracked steps)
      (λ r h. record {
        at = refl;
        goes_on = refl;
        live = refl;
        phase = refl;
        expiry = λ e. absurd (cc e);
      })
      (λ r. refl)
reached-IsTracked (then_requeue {s} {t} now k le steps) =
    on_live-IsTracked s now k _ _ t le (reached-IsTracked steps)
      (λ r h. record {
        at = refl;
        goes_on = refl;
        live = refl;
        phase = refl;
        expiry = λ e. absurd (cc e);
      })
      (λ r. refl)
reached-IsTracked (then_defer {s} {t} now k le steps) =
    on_live-IsTracked s now k _ _ t le (reached-IsTracked steps)
      (λ r h. record {
        at = refl;
        goes_on = refl;
        live = refl;
        phase = refl;
        expiry = λ e. absurd (cc e);
      })
      (λ r. refl)
reached-IsTracked (then_rest {s} {t} now k crossed traded before_expiry le steps) =
    on_live-IsTracked s now k _ _ t le (reached-IsTracked steps)
      (λ r h. record {
        at = refl;
        goes_on = refl;
        live = refl;
        phase = refl;
        expiry = λ e. (before_expiry, refl);
      })
      (λ r. refl)
reached-IsTracked (then_end {s} {t} now k outcome traded le steps) =
    end_order-IsTracked s now k outcome traded t le (reached-IsTracked steps)
