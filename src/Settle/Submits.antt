-- ===== src/Settle/Submits.antt =====
-- What offchain/server.py does with a batch once it is taken, to the submit of its round: each order of it is
-- queued again, ended, or in flight with the round.
use jamswap.Prelude.{
  ℕ, ◌+◌, ◌≡◌, refl, inl, inr, Bool, true, false, not, ◌||◌, Option, none, some, List, [], ◌∷◌,
  ◌++◌, map, arith, Bool-cases, ltb, length, ◌∙◌,
}
use jamswap.Order.{Order}
use jamswap.Codec.{Bytes}
use jamswap.Settle.Market.{
  Queued, OrderKey, okey, mem, Tracked, Market, keys_of, deferred, rounded, noting,
}
use jamswap.Settle.Judge.{Settings}
use jamswap.Settle.Account.{flies}
use jamswap.Settle.Keys.{map-append, mem-append}
use jamswap.Settle.Build.{
  Inputs, Building, Sending, sent, chain_busy, unknown, Assembled, tracks, nothing, raises,
  as_queued, check_public, keep_met, look_again, end_dead, tracked_round, on_payload, make_round,
  end_and_make, at_price, assemble_round, in_the_air, after_sending, on_assembled, read_price,
  reads_floor,
}
use jamswap.Settle.Ends.{
  settled_at, ends-append, settled_at-noting, settled_at-end_dead, settled_at-requeue_unsent,
}
use jamswap.Settle.Assembled.{mem-check_public, mem-keep_met, settled_at-keep_met, zombies-keep_met}

-- The order is queued, in flight, or ended.
abbrev pub Placed : OrderKey → Market → Type 0
Placed k s = (settled_at k s || flies k s.inflight) ≡ true

module _ (new_tag : Queued → ℕ) (seal : Queued → Option ℕ) (submit : Queued → Bool) (c : Settings)
    (i : Inputs) (k : OrderKey) where
  -- What has become of the order when the round is assembled, or when that failed.
  abbrev Left : List Queued → Assembled × List OrderKey × Market → Type 0
  Left taken (tracks fr, done, s) = (mem k (keys_of fr) || settled_at k s) ≡ true
  Left taken (nothing, done, s) = settled_at k s ≡ true
  Left taken (raises, done, s) =
      (s.zombies ≡ [])
      × ((mem k (map okey taken) || settled_at k s) ≡ true)
      × (mem k done ≡ true → settled_at k s ≡ true)

  Placed-in_the_air :
      (fr : Tracked) (s : Market)
      → (mem k (keys_of fr) || settled_at k s) ≡ true
      → Placed k (in_the_air fr s)
  Placed-in_the_air fr s h =
      let notes = map (λ o. rounded (okey o)) (fr.sealed ++ fr.public) in
      rw (ends-append k s.log notes) (ground arith)

  Placed-sending :
      (how : Sending) (fr : Tracked) (s : Market)
      → (mem k (keys_of fr) || settled_at k s) ≡ true
      → Placed k (after_sending new_tag seal submit c i how fr s)
  unfolding keys_of
  Placed-sending sent fr s h = Placed-in_the_air fr s h
  Placed-sending unknown fr s h = Placed-in_the_air fr s h
  Placed-sending chain_busy fr s h =
      rw (map-append okey (fr.sealed ++ fr.public) s.pending)
        (rw (mem-append k (map okey (fr.sealed ++ fr.public)) (map okey s.pending)) (ground arith))

  pub Placed-on_assembled :
      (taken : List Queued) (r : Assembled × List OrderKey × Market)
      → Left taken r
      → Placed k (on_assembled new_tag seal submit c i taken r)
  Placed-on_assembled taken (tracks fr, done, s) h = Placed-sending i.sending fr s h
  Placed-on_assembled taken (nothing, done, s) h = ground arith
  Placed-on_assembled taken (raises, done, s) h =
      let a = settled_at-requeue_unsent k taken done s h.0 h.1 h.2 in ground arith

  -- What the orders are while the round is assembled.
  abbrev pub Taken : List Queued → List OrderKey → Market → Type 0
  Taken taken done s =
      (s.zombies ≡ [])
      × ((mem k (map okey taken) || settled_at k s) ≡ true)
      × (mem k done ≡ true → settled_at k s ≡ true)

  abbrev pub Covered : Building → Market → Type 0
  Covered b s =
      (mem k (map okey b.revealed)
        || (mem k (map okey b.public) || (mem k (map okey b.dead) || settled_at k s)))
      ≡ true

  Left-on_payload :
      (taken : List Queued) (done : List OrderKey) (raw : Bytes) (resting : List Order)
      (pruned : List (ℕ × ℕ)) (b : Building) (s : Market) (p : Option ℕ)
      → Taken taken done s
      → (mem k (map okey b.revealed) || (mem k (map okey b.public) || settled_at k s)) ≡ true
      → let r = on_payload new_tag seal submit c i raw resting pruned b s p in
        Left taken (r.0, done, r.1)
  unfolding tracked_round keys_of
  Left-on_payload taken done raw resting pruned b s none t h = t
  Left-on_payload taken done raw resting pruned b s (some rid) t h =
      rw (map-append okey b.revealed b.public)
        (rw (mem-append k (map okey b.revealed) (map okey b.public)) (ground arith))

  none_left :
      (xs ys : List Queued) (n : ℕ) → ltb 0 (length (xs ++ ys) + n) ≡ false → (xs ≡ []) × (ys ≡ [])
  none_left [] [] n h = (refl, refl)
  none_left [] (y ∷ ys) n h = absurd (ground arith)
  none_left (x ∷ xs) ys n h = absurd (ground arith)

  Left-make_round :
      (taken : List Queued) (done : List OrderKey) (raw : Bytes) (resting : List Order)
      (pruned : List (ℕ × ℕ)) (b : Building) (s : Market)
      → Taken taken done s
      → (mem k (map okey b.revealed) || (mem k (map okey b.public) || settled_at k s)) ≡ true
      → let r = make_round new_tag seal submit c i raw resting pruned (b, s) in
        Left taken (r.0, done, r.1)
  unfolding make_round
  Left-make_round taken done raw resting pruned b s t h =
      elim (Bool-cases (ltb 0 (length (b.revealed ++ b.public) + length pruned))) [
        | inl some_order ↦ rw some_order (
            Left-on_payload taken done raw resting pruned b s
              (i.payload_id b.revealed b.public pruned) t h)
        | inr no_order ↦ rw no_order (
            let gone = none_left b.revealed b.public (length pruned) no_order in
            let f : mem k (map okey b.revealed) ≡ false = rw gone.0 refl in
            let g : mem k (map okey b.public) ≡ false = rw gone.1 refl in
            let waits : settled_at k s ≡ true = ground arith in
            elim (Bool-cases i.reply_read) [ inl read ↦ rw read waits | inr unread ↦ rw unread t ])
      ]

  Left-end_and_make :
      (taken : List Queued) (raw : Bytes) (resting : List Order) (pruned : List (ℕ × ℕ))
      (b : Building) (s : Market)
      → Taken taken b.done s
      → Covered b s
      → Left taken (end_and_make new_tag seal submit c i raw resting pruned (b, s, false))
  Left-end_and_make taken raw resting pruned b s t h =
      let e = end_dead b.dead b.done s in
      let ended_now = settled_at-end_dead k b.dead b.done s t.2 in
      let r = keep_met new_tag seal submit c i resting (b, e.1) in
      let stays = settled_at-keep_met new_tag seal submit c i k resting b e.1 in
      Left-make_round taken e.0 raw resting pruned r.0 r.1
        (
          (zombies-keep_met new_tag seal submit c i k resting b e.1 ∙ ended_now.2) ∙ t.0,
          (let a = t.1 in let d = ended_now.0 in ground arith),
          λ m. stays (ended_now.1 m),
        )
        (mem-keep_met new_tag seal submit c i k resting b e.1 (let d = ended_now.0 in ground arith))

  look_again-none :
      (b : Building) (s : Market)
      → s.zombies ≡ []
      → look_again new_tag seal submit c i b s ≡ (b, s, false)
  look_again-none b s e = rw e refl

  done-check_public :
      (lp : ℕ) (pend : List Queued) (b : Building)
      → ((check_public new_tag seal submit c i lp pend b).done ≡ b.done)
        × ((check_public new_tag seal submit c i lp pend b).revealed ≡ b.revealed)
  unfolding check_public
  done-check_public lp pend b = (refl, refl)

  Left-at_price :
      (taken : List Queued) (lp : Option ℕ) (raw : Bytes) (pend : List Queued)
      (resting : List Order) (pruned : List (ℕ × ℕ)) (os : List Order) (b : Building) (s : Market)
      → b.public ≡ map (as_queued pend) os
      → b.dead ≡ []
      → Taken taken b.done s
      → Covered b s
      → Left taken (at_price new_tag seal submit c i lp raw pend resting pruned b s)
  Left-at_price taken none raw pend resting pruned os b s e f t h = t
  Left-at_price taken (some lp) raw pend resting pruned os b s e f t h =
      elim (Bool-cases (i.floors_read || not (reads_floor new_tag seal submit c i lp b.public))) [
        | inr unread ↦ rw unread t
        | inl read ↦ rw read (
            let v = check_public new_tag seal submit c i lp pend b in
            let kept = done-check_public lp pend b in
            rw (look_again-none v s t.0) (
              Left-end_and_make taken raw resting pruned v s (rw kept.0 t) (
                let no_dead : mem k (map okey b.dead) ≡ false = rw f refl in
                let q = mem-check_public new_tag seal submit c i k lp pend os b e in
                rw kept.1 (ground arith))))
      ]

  pub Left-assemble_round :
      (taken : List Queued) (raw : Bytes) (pend : List Queued) (resting : List Order)
      (pruned : List (ℕ × ℕ)) (waiting : List Queued) (os : List Order) (b : Building) (s : Market)
      → b.public ≡ map (as_queued pend) os
      → b.dead ≡ []
      → Taken taken b.done s
      → Covered b s
      → Left taken (assemble_round new_tag seal submit c i raw pend resting pruned waiting b s)
  unfolding assemble_round
  Left-assemble_round taken raw pend resting pruned waiting os b s e f t h =
      let notes = map (λ o. deferred (okey o)) waiting in
      let grows = settled_at-noting k notes s in
      Left-at_price taken (read_price new_tag seal submit c i b.public) raw pend resting pruned os b
        (noting notes s) e f (t.0, (let a = t.1 in ground arith), λ m. grows (t.2 m)) (ground arith)
