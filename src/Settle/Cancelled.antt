-- ===== src/Settle/Cancelled.antt =====
-- When `_resolve_cancels` of offchain/server.py ends an order, and that it ends it once.
use jamswap.Prelude.{
  ℕ, ◌+◌, ◌≡◌, ◌≤◌, ◌<◌, refl, ◌⊎◌, inl, inr, Bool, true, false, ◌&&◌, Option, none, some, List, [],
  ◌∷◌, ◌++◌, All, arith, Bool-cases, leb, ltb, ◌==◌, ◌∙◌, count, count-append, if◌then◌else◌,
  Option-cases, In,
}
use jamswap.Order.{Order}
use jamswap.Codec.{Bytes}
use jamswap.Clearing.{fill_of}
use jamswap.Settle.Market.{
  okey, Tracked, Market, Note, settled, landed, late_landed, erased, abandoned, receipt, ended,
  rested, requeued, reverted, rounded, deferred, expired, in_flight,
}
use jamswap.Settle.Finish.{record_exec, disposition}
use jamswap.Settle.Cancel.{
  Cancel, CancelReads, may_fill, after_marker, Outcome, stays, leaves, ends, on_book, unless_fill,
  once_landed, judge_cancel, Cancelling, is_closed, cancel_notes, act_cancel, open_yet,
  resolve_each, resolve_cancels, entry_of, resting_entry, parse_book,
}

may_fill-All :
    (marker : Tracked → Option (Option ℕ)) (oid : ℕ) (frs : List Tracked)
    → may_fill marker oid frs ≡ some false
    → All (λ fr. 0 < fill_of oid fr.clearing.fills → marker fr ≡ some none) frs
unfolding may_fill
may_fill-All marker oid [] h = tt
may_fill-All marker oid (fr ∷ frs) h = elim (Bool-cases (ltb 0 (fill_of oid fr.clearing.fills))) [
  | inl e ↦
      let split = read (marker fr) (may_fill marker oid frs) (rw e at h) in
      (λ fills. split.0, may_fill-All marker oid frs split.1)
  | inr e ↦ (λ fills. absurd (ground arith), may_fill-All marker oid frs (rw e at h))
]
  where
    read :
        (m : Option (Option ℕ)) (later : Option Bool)
        → after_marker m later ≡ some false
        → (m ≡ some none) × (later ≡ some false)
    read none later h = absurd (ground arith)
    read (some none) later h = (refl, h)
    read (some (some slot)) later h = absurd (ground arith)

-- The order does not stand in the book.
entry_of-All :
    (a oid : ℕ) (os : List Order)
    → entry_of a oid os ≡ none
    → All (λ o. ¬ ((o.account ≡ a) × (o.oid ≡ oid))) os
unfolding entry_of
entry_of-All a oid [] h = tt
entry_of-All a oid (o ∷ os) h = elim (Bool-cases (o.account == a && o.oid == oid)) [
  | inl e ↦ absurd (cc (rw e at h))
  | inr e ↦ (λ same. ground (arith, same.0, same.1), entry_of-All a oid os (rw e at h))
]

-- The terminals of an order among some notes.
abbrev pub is_ended : ℕ → ℕ → Note → Bool
is_ended a oid (settled r) = false
is_ended a oid (landed r) = false
is_ended a oid (late_landed r) = false
is_ended a oid (erased r) = false
is_ended a oid (abandoned r why) = false
is_ended a oid (receipt j d f) = false
is_ended a oid (ended j d f) = a == j.account && oid == j.oid
is_ended a oid (rested j p x f e) = false
is_ended a oid (requeued j) = false
is_ended a oid (reverted j) = false
is_ended a oid (rounded j) = false
is_ended a oid (deferred j) = false
is_ended a oid (expired b j) = false

abbrev pub endings : ℕ → ℕ → List Note → ℕ
endings a oid es = count (λ n. is_ended a oid n) es

endings-cancel_notes :
    (a oid : ℕ) (c : Cancel)
    → endings a oid (cancel_notes c) ≡ (if a == c.account && oid == c.oid then 1 else 0)
unfolding record_exec disposition okey
endings-cancel_notes a oid c = ground arith

module _ (watch_secs now : ℕ) (r : CancelReads) (rounds : List Tracked) where
  -- What a cancel that ends its order rests on.
  abbrev pub Justified : Cancel → Type 0
  Justified c =
      (now ≤ c.since + watch_secs)
      × ((n : ℕ) × (r.nonce_of c.account ≡ some n) × (c.nonce < n))
      × All (λ fr. 0 < fill_of c.oid fr.clearing.fills → r.marker fr ≡ some none) rounds
      × ((raw : Bytes) × (r.book ≡ some raw)
          × All (λ o. ¬ ((o.account ≡ c.account) × (o.oid ≡ c.oid))) (parse_book raw))
      × (r.is_open c.account c.oid ≡ true)

  on_book-ends :
      (b : Bool) (c : Cancel) (m : Option Bytes)
      → on_book b c m ≡ ends
      → (b ≡ true)
        × ((raw : Bytes) × (m ≡ some raw)
            × All (λ o. ¬ ((o.account ≡ c.account) × (o.oid ≡ c.oid))) (parse_book raw))
  unfolding resting_entry
  on_book-ends b c none h = absurd (ground arith)
  on_book-ends b c (some raw) h = elim (Option-cases (entry_of c.account c.oid (parse_book raw))) [
    | inl gone ↦ (ground arith, (raw, refl, entry_of-All c.account c.oid (parse_book raw) gone))
    | inr (o, there) ↦ absurd (ground arith)
  ]

  unless_fill-ends :
      (f : Option Bool) (later : Outcome)
      → unless_fill f later ≡ ends
      → (f ≡ some false) × (later ≡ ends)
  unless_fill-ends none later h = absurd (ground arith)
  unless_fill-ends (some true) later h = absurd (ground arith)
  unless_fill-ends (some false) later h = (refl, h)

  once_landed-ends :
      (nonce : ℕ) (n : Option ℕ) (later : Outcome)
      → once_landed nonce n later ≡ ends
      → ((m : ℕ) × (n ≡ some m) × (nonce < m)) × (later ≡ ends)
  once_landed-ends nonce none later h = absurd (ground arith)
  once_landed-ends nonce (some n) later h = elim (Bool-cases (leb n nonce)) [
    | inl e ↦ absurd (cc (rw e at h))
    | inr e ↦ ((n, refl, ground arith), rw e at h)
  ]

  judge_cancel-Justified :
      (c : Cancel) (w : Cancelling)
      → judge_cancel watch_secs now r rounds (open_yet watch_secs now r rounds c w) c ≡ ends
      → Justified c × (is_closed c.account c.oid w.closed ≡ false)
  unfolding judge_cancel
  judge_cancel-Justified c w h =
      let b = open_yet watch_secs now r rounds c w in
      elim (Bool-cases (ltb (c.since + watch_secs) now)) [
        | inl late ↦ absurd (cc (rw late at h))
        | inr early ↦
            let one =
              once_landed-ends c.nonce (r.nonce_of c.account)
                (unless_fill (may_fill r.marker c.oid rounds) (on_book b c r.book))
                (rw early at h) in
            let two =
              unless_fill-ends (may_fill r.marker c.oid rounds) (on_book b c r.book) one.1 in
            let three = on_book-ends b c r.book two.1 in
            let is = three.0 in
            (
              (
                ground arith,
                one.0,
                may_fill-All r.marker c.oid rounds two.0,
                three.1,
                ground arith,
              ),
              ground arith,
            )
      ]

  -- The order ends with a cancel of the list, for good reason.
  abbrev pub EndedBy : ℕ → ℕ → List Cancel → Type 0
  EndedBy a oid cs = (c : Cancel) × In c cs × (c.account ≡ a) × (c.oid ≡ oid) × Justified c

  abbrev pub ended_in : ℕ → ℕ → Cancelling → ℕ
  ended_in a oid w = endings a oid w.market.log

  ends_step :
      (a oid : ℕ) (c : Cancel) (w : Cancelling)
      → let v = act_cancel ends c w in
        ((is_closed a oid v.closed ≡ is_closed a oid w.closed)
          × (ended_in a oid v ≡ ended_in a oid w))
        ⊎ ((c.account ≡ a)
            × (c.oid ≡ oid)
            × (is_closed a oid v.closed ≡ true)
            × (ended_in a oid v ≡ ended_in a oid w + 1))
  ends_step a oid c w =
      let added = count-append (λ n. is_ended a oid n) w.market.log (cancel_notes c) in
      let one = endings-cancel_notes a oid c in
      elim (Bool-cases (a == c.account && oid == c.oid)) [
        | inl e ↦ inr (ground arith, ground arith, ground arith, ground arith)
        | inr e ↦ inl (ground arith, ground arith)
      ]

  closed_ends_no_more :
      (a oid : ℕ) (cs : List Cancel) (w : Cancelling)
      → is_closed a oid w.closed ≡ true
      → ended_in a oid (resolve_each watch_secs now r rounds cs w) ≡ ended_in a oid w
  unfolding resolve_each
  closed_ends_no_more a oid [] w h = refl
  closed_ends_no_more a oid (c ∷ cs) w h =
      by_outcome (closed_ends_no_more a oid cs)
        (judge_cancel watch_secs now r rounds (open_yet watch_secs now r rounds c w) c) refl
    where
      by_outcome :
          ((v : Cancelling)
            → is_closed a oid v.closed ≡ true
            → ended_in a oid (resolve_each watch_secs now r rounds cs v) ≡ ended_in a oid v)
          → (g : Outcome)
          → judge_cancel watch_secs now r rounds (open_yet watch_secs now r rounds c w) c ≡ g
          → ended_in a oid (resolve_each watch_secs now r rounds cs (act_cancel g c w))
            ≡ ended_in a oid w
      by_outcome later stays e = later (act_cancel stays c w) h
      by_outcome later leaves e = later w h
      by_outcome later ends e = elim (ends_step a oid c w) [
        | inl (closed, same) ↦ later (act_cancel ends c w) (closed ∙ h) ∙ same
        | inr (is_a, is_oid, closed, more) ↦
            let open_then = (judge_cancel-Justified c w e).1 in absurd (ground arith)
      ]

  resolve_each_ends :
      (a oid : ℕ) (cs : List Cancel) (w : Cancelling)
      → let v = resolve_each watch_secs now r rounds cs w in
        (ended_in a oid v ≡ ended_in a oid w)
        ⊎ ((ended_in a oid v ≡ ended_in a oid w + 1) × EndedBy a oid cs)
  unfolding resolve_each
  resolve_each_ends a oid [] w = inl refl
  resolve_each_ends a oid (c ∷ cs) w =
      by_outcome (resolve_each_ends a oid cs)
        (judge_cancel watch_secs now r rounds (open_yet watch_secs now r rounds c w) c) refl
    where
      behind :
          (v : Cancelling)
          → ended_in a oid v ≡ ended_in a oid w
          → (ended_in a oid (resolve_each watch_secs now r rounds cs v) ≡ ended_in a oid v)
            ⊎ ((ended_in a oid (resolve_each watch_secs now r rounds cs v) ≡ ended_in a oid v + 1)
                × EndedBy a oid cs)
          → (ended_in a oid (resolve_each watch_secs now r rounds cs v) ≡ ended_in a oid w)
            ⊎ ((ended_in a oid (resolve_each watch_secs now r rounds cs v) ≡ ended_in a oid w + 1)
                × EndedBy a oid (c ∷ cs))
      behind v same (inl e) = inl (e ∙ same)
      behind v same (inr (e, (d, m, a1, o1, why))) =
          inr (omega (arith, e, same), (d, inr m, a1, o1, why))

      by_outcome :
          ((v : Cancelling)
            → (ended_in a oid (resolve_each watch_secs now r rounds cs v) ≡ ended_in a oid v)
              ⊎ ((ended_in a oid (resolve_each watch_secs now r rounds cs v) ≡ ended_in a oid v + 1)
                  × EndedBy a oid cs))
          → (g : Outcome)
          → judge_cancel watch_secs now r rounds (open_yet watch_secs now r rounds c w) c ≡ g
          → (ended_in a oid (resolve_each watch_secs now r rounds cs (act_cancel g c w))
              ≡ ended_in a oid w)
            ⊎ ((ended_in a oid (resolve_each watch_secs now r rounds cs (act_cancel g c w))
                  ≡ ended_in a oid w + 1)
                × EndedBy a oid (c ∷ cs))
      by_outcome later stays e = behind (act_cancel stays c w) refl (later (act_cancel stays c w))
      by_outcome later leaves e = behind w refl (later w)
      by_outcome later ends e = elim (ends_step a oid c w) [
        | inl (closed, same) ↦ behind (act_cancel ends c w) same (later (act_cancel ends c w))
        | inr (is_a, is_oid, closed, more) ↦ inr (
          closed_ends_no_more a oid cs (act_cancel ends c w) closed ∙ more,
          (c, inl refl, is_a, is_oid, (judge_cancel-Justified c w e).0),
        )
      ]

-- A sweep over the watched cancels gives an order no terminal, or one, and then for a cancel of it that is
-- watched no longer than CANCEL_WATCH_SECS, once the account's nonce has passed the cancel's, no tracked
-- round that fills the order's id reads as landed, the on-chain book does not hold the order, and the
-- telemetry calls it open.
pub resolve_cancels_ends :
    (watch_secs now : ℕ) (r : CancelReads) (batch appended : List Cancel) (s : Market) (a oid : ℕ)
    → let u = (resolve_cancels watch_secs now r batch appended s).1 in
      let rounds = in_flight s.inflight ++ s.zombies in
      (endings a oid u.log ≡ endings a oid s.log)
      ⊎ ((endings a oid u.log ≡ endings a oid s.log + 1)
          × EndedBy watch_secs now r rounds a oid batch)
unfolding resolve_cancels
resolve_cancels_ends watch_secs now r batch appended s a oid =
    resolve_each_ends watch_secs now r (in_flight s.inflight ++ s.zombies) a oid batch
      (record { keep = []; closed = []; market = s })
