-- ===== src/Verdict/Score.antt =====
-- What passes the `score` of offchain/soak_verdict.py.
use jamswap.Prelude.{
  ℕ, ◌+◌, ◌≡◌, refl, ◌∙◌, ◌↔◌, ◌≤◌, ap, sym, Bool, true, false, ◌&&◌, ◌||◌, List, [], ◌∷◌, arith,
  length, length-append, count, All, ◌==◌, Bool-cases, inl, inr,
}
use jamswap.Telemetry.{Event}
use jamswap.Telemetry.Store.{Key}
use jamswap.Verdict.{
  judge, is_class_cleared, is_class_missed, stuck_silent, stuck_resting, Tally, no_tally,
  tally_order, tally_all, meets_target, score,
}

abbrev pub ends_cleared : Key × List Event → Bool
ends_cleared (k, es) = is_class_cleared (judge es).class

abbrev pub ends_missed : Key × List Event → Bool
ends_missed (k, es) = is_class_missed (judge es).class

abbrev pub leaks : ℕ → ℕ → Key × List Event → Bool
leaks grace now (k, es) = stuck_silent grace now es || stuck_resting grace now es

abbrev drops_sealed : ℕ → ℕ → Key × List Event → Bool
drops_sealed grace now (k, es) = (judge es).sealed && stuck_silent grace now es

cleared-tally_all :
    (grace now : ℕ) (orders : List (Key × List Event)) (t : Tally)
    → (tally_all grace now orders t).cleared ≡ t.cleared + count ends_cleared orders
unfolding tally_all
cleared-tally_all grace now [] t = omega arith
cleared-tally_all grace now ((k, es) ∷ orders) t =
    unfold tally_order in
    ground (arith, cleared-tally_all grace now orders (tally_order grace now k es t))

missed-tally_all :
    (grace now : ℕ) (orders : List (Key × List Event)) (t : Tally)
    → (tally_all grace now orders t).missed ≡ t.missed + count ends_missed orders
unfolding tally_all
missed-tally_all grace now [] t = omega arith
missed-tally_all grace now ((k, es) ∷ orders) t =
    unfold tally_order in
    ground (arith, missed-tally_all grace now orders (tally_order grace now k es t))

stuck-tally_all :
    (grace now : ℕ) (orders : List (Key × List Event)) (t : Tally)
    → length (tally_all grace now orders t).stuck_open
      ≡ length t.stuck_open + count (leaks grace now) orders
unfolding tally_all
stuck-tally_all grace now [] t = omega arith
stuck-tally_all grace now ((k, es) ∷ orders) t =
    unfold tally_order in
    ground (
      arith,
      length-append t.stuck_open (k ∷ []),
      stuck-tally_all grace now orders (tally_order grace now k es t),
    )

sealed-tally_all :
    (grace now : ℕ) (orders : List (Key × List Event)) (t : Tally)
    → (tally_all grace now orders t).sealed_stuck
      ≡ t.sealed_stuck + count (drops_sealed grace now) orders
unfolding tally_all
sealed-tally_all grace now [] t = omega arith
sealed-tally_all grace now ((k, es) ∷ orders) t =
    unfold tally_order in
    ground (arith, sealed-tally_all grace now orders (tally_order grace now k es t))

-- A sealed order that is dropped is stuck.
dropped-le :
    (grace now : ℕ) (orders : List (Key × List Event))
    → count (drops_sealed grace now) orders ≤ count (leaks grace now) orders
dropped-le grace now [] = omega arith
dropped-le grace now ((k, es) ∷ orders) = ground (arith, dropped-le grace now orders)

none_leak :
    (grace now : ℕ) (orders : List (Key × List Event))
    → count (leaks grace now) orders ≡ 0
    → All (λ o. leaks grace now o ≡ false) orders
none_leak grace now [] h = tt
none_leak grace now ((k, es) ∷ orders) h = elim (Bool-cases (leaks grace now (k, es))) [
  | inl stuck ↦ absurd (ground arith)
  | inr fine ↦ (fine, none_leak grace now orders (rw fine at h))
]

leak_none :
    (grace now : ℕ) (orders : List (Key × List Event))
    → All (λ o. leaks grace now o ≡ false) orders
    → count (leaks grace now) orders ≡ 0
leak_none grace now [] a = refl
leak_none grace now ((k, es) ∷ orders) (fine, a) = rw fine (leak_none grace now orders a)

-- The fraction of the orders that cleared, of those that cleared or were missed, reaches the target.
abbrev pub MeetsTarget : ℕ → ℕ → List (Key × List Event) → Type 0
MeetsTarget num den orders =
    let c = count ends_cleared orders in
    meets_target num den c (c + count ends_missed orders) ≡ true

pass_parts :
    (num den c m s z : ℕ)
    → (meets_target num den c (c + (m + s)) && (s == 0 && z == 0)) ≡ true
    → (s ≡ 0) × (meets_target num den c (c + m) ≡ true)
pass_parts num den c m s z h = elim (Bool-cases (s == 0)) [
  | inl none ↦
      let s_zero : s ≡ 0 = ground arith in
      let e : c + (m + s) ≡ c + m = omega arith in
      (
        s_zero,
        elim (Bool-cases (meets_target num den c (c + (m + s)))) [
          | inl met ↦ ap (meets_target num den c) (sym e) ∙ met
          | inr unmet ↦ absurd (cc (rw unmet at h))
        ],
      )
  | inr stuck ↦ absurd (failed (meets_target num den c (c + (m + s))) (z == 0) (rw stuck at h))
]
  where
    failed : (a b : Bool) → (a && (false && b)) ≡ true → ⊥
    failed a b k = ground arith

pass_whole :
    (num den c m s z : ℕ)
    → s ≡ 0
    → z ≡ 0
    → meets_target num den c (c + m) ≡ true
    → (meets_target num den c (c + (m + s)) && (s == 0 && z == 0)) ≡ true
pass_whole num den c m s z hs hz h =
    let e : c + (m + s) ≡ c + m = omega arith in
    let met = ap (meets_target num den c) e ∙ h in
    let none_stuck : (s == 0) ≡ true = ground arith in
    let none_dropped : (z == 0) ≡ true = ground arith in rw (met, none_stuck, none_dropped) refl

-- The verdict passes exactly if no order is stuck, neither silent past the grace time nor resting past
-- its expiry, and the orders that cleared are a large enough part of those that cleared or ended as
-- missed: a sealed order that is silently dropped needs no test of its own.
pub score_pass_iff :
    (orders : List (Key × List Event)) (num den grace now : ℕ)
    → ((score orders num den grace now).pass ≡ true)
      ↔ (All (λ o. leaks grace now o ≡ false) orders × MeetsTarget num den orders)
unfolding score
score_pass_iff orders num den grace now =
    let t = tally_all grace now orders no_tally in
    let c : t.cleared ≡ count ends_cleared orders =
      omega (arith, cleared-tally_all grace now orders no_tally) in
    let m : t.missed ≡ count ends_missed orders =
      omega (arith, missed-tally_all grace now orders no_tally) in
    let s = stuck-tally_all grace now orders no_tally in
    let z = sealed-tally_all grace now orders no_tally in
    let le = dropped-le grace now orders in
    (
      (λ h.
          let (zero_stuck, met) =
            pass_parts num den t.cleared t.missed (length t.stuck_open) t.sealed_stuck h in
          (none_leak grace now orders (omega arith), rw (c, m) at met)),
      (λ (a, h).
          let none_stuck = leak_none grace now orders a in
          pass_whole num den t.cleared t.missed (length t.stuck_open) t.sealed_stuck (omega arith)
            (omega arith) (rw (c, m) h)),
    )
