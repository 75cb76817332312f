-- ===== src/Settle/Build.antt =====
-- offchain/server.py: `_build_round`, `_requeue_unsent` and `_assemble_round`, which compose the planner, the
-- sequence check, the clearing and the tracked rounds. What the chain and the clients hold is a record of
-- inputs. The planner's orders are found again among the queued dicts by their identity.
use jamswap.Prelude.{
  ℕ, ◌+◌, min, Bool, true, false, not, ◌&&◌, ◌||◌, Option, none, some, List, [], ◌∷◌, ◌++◌, map,
  any, filter, length, ltb, ◌==◌, if◌then◌else◌,
}
use jamswap.Order.{Order}
use jamswap.Clearing.{clear}
use jamswap.Round.{RoundPlan, plan_batch, plan_round, has, tag_of}
use jamswap.Server.{cap_batch, seq_sanitize}
use jamswap.Server.Pricing.{price_market_orders, order_gas, expired_pairs, committee_size}
use jamswap.Codec.{Bytes}
use jamswap.Settle.Cancel.{parse_book}
use jamswap.Settle.Market.{
  Queued, OrderKey, okey, mem, Tracked, Market, rounded, deferred, expired, rejected, noting,
  order_expiry, drop_expiry, is_sighted, held_keys,
}
use jamswap.Settle.Finish.{record_exec}
use jamswap.Settle.Judge.{Settings, ChainReads}
use jamswap.Settle.Sweep.{resolve_zombies}
use jamswap.Settle.Finality.{View, is_available}
use jamswap.Settle.Ready.{sealed_ready_predicate}

-- How `submit` ends.
pub data Sending : Type 0 where
  sent chain_busy unknown : Sending

-- What a build reads, with `none` for a read that raises, and the functions that it takes: the book, the entries
-- of the commit set, what is known of finality, the entries at the finalized head (`some none` where the backend
-- cannot read there), the bytes under `committee`, and `_commit_seen` of the market, with what becomes of it left
-- out; whether an order is a market order, the on-chain floors, the commitment of the book, the set entry of a
-- sealed order, and the id of the payload (`none` where making it raises). `floors_read` and `reply_read` say
-- that the floors, and the price, volume and book of the reply with nothing to submit, could be read. Each
-- moment of the build has its time: the looks at the gate and, with their reads, at the released rounds, `now`,
-- when the record is made or making the payload fails, and when the submit finds the chain busy. `cooldown` is
-- ROUND_ZEROFILL_SECS.
pub record Inputs : Type 0 where
  pub now : ℕ
  pub gate_look : ℕ
  pub first_look : ℕ
  pub second_look : ℕ
  pub made_at : ℕ
  pub sent_at : ℕ
  pub raw_book : Option Bytes
  pub commit_entries : Option (List ℕ)
  pub fin : Option View
  pub final_entries : Option (Option (List ℕ))
  pub commit_seen : List (ℕ × ℕ)
  pub is_market : ℕ → Bool
  pub price : Option ℕ
  pub seq_floor : ℕ → ℕ
  pub floors_read : Bool
  pub reply_read : Bool
  pub book_hash : Bytes → ℕ
  pub entry : Queued → ℕ
  pub payload_id : List Queued → List Queued → List (ℕ × ℕ) → Option ℕ
  pub encrypts : Bool
  pub committee : Option Bytes
  pub gas_budget : ℕ
  pub cooldown : ℕ
  pub reads : Tracked → ChainReads
  pub reads_again : Tracked → ChainReads
  pub sending : Sending

-- What the reads before the plan have found.
pub record Found : Type 0 where
  pub book : Bytes
  pub entries : List ℕ
  pub final : Option (List ℕ)
  pub committee : Bytes

abbrev pub all_read :
    Option Bytes → Option (List ℕ) → Option (Option (List ℕ)) → Option Bytes → Option Found
all_read none entries final committee = none
all_read (some raw) none final committee = none
all_read (some raw) (some entries) none committee = none
all_read (some raw) (some entries) (some final) none = none
all_read (some raw) (some entries) (some final) (some committee) =
    some (record { book = raw; entries = entries; final = final; committee = committee })

-- The commit of the queued dict with the planner's order's identity.
unfoldable pub commit_at : ℕ → List Queued → Option ℕ
commit_at t [] = none
commit_at t (o ∷ os) = if o.order.tag == t then o.commit else commit_at t os

abbrev pub as_queued : List Queued → Order → Queued
as_queued pend o = record { order = o; commit = commit_at o.tag pend }

-- `o["expiry"] = order_expiry.get(...)`
abbrev pub with_expiry : List (ℕ × ℕ × ℕ) → Queued → Queued
with_expiry es o = record o {
  order = record o.order { expiry = order_expiry o.order.account o.order.oid es };
}

-- `_requeue_unsent(m, taken, ended)`: the orders that go back.
unfoldable pub unsent : List Queued → List OrderKey → Market → List Queued
unsent taken done s =
    filter
      (λ o.
        not
          (mem (okey o) (done ++ (held_keys (filter is_sighted s.zombies) ++ map okey s.pending))))
      taken

unfoldable pub requeue_unsent : List Queued → List OrderKey → Market → Market
requeue_unsent taken done s = record s { pending = unsent taken done s ++ s.pending }

-- `minseq[a] = min(minseq.get(a, seq), seq)`
abbrev pub note_seq : ℕ → ℕ → List (ℕ × ℕ) → List (ℕ × ℕ)
note_seq a s [] = (a, s) ∷ []
note_seq a s ((b, q) ∷ ms) = if a == b then (b, min q s) ∷ ms else (b, q) ∷ note_seq a s ms

abbrev pub minseqs : List Queued → List (ℕ × ℕ) → List (ℕ × ℕ)
minseqs [] ms = ms
minseqs (o ∷ os) ms = minseqs os (note_seq o.order.account o.order.seq ms)

-- A dead order ends with a receipt.
unfoldable pub end_dead : List Queued → List OrderKey → Market → List OrderKey × Market
end_dead [] done s = (done, s)
end_dead (o ∷ os) done s = end_dead os (okey o ∷ done) (record s {
  expiry = drop_expiry o.order.account o.order.oid s.expiry;
  log = s.log ++ record_exec o (some rejected) 0 false;
})

-- The orders of the batch as the build goes on, with the keys of those that it has ended.
pub record Building : Type 0 where
  pub revealed : List Queued
  pub public : List Queued
  pub dead : List Queued
  pub done : List OrderKey

-- What `_assemble_round` comes to: a record for a payload, nothing to submit, or an exception.
pub data Assembled : Type 0 where
  tracks : Tracked → Assembled
  nothing raises : Assembled

abbrev pub without_keys : List OrderKey → List Queued → List Queued
without_keys ks os = filter (λ o. not (mem (okey o) ks)) os

-- An expired sealed order ends.
unfoldable pub end_expired : List Queued → Market → Market
end_expired [] s = s
end_expired (o ∷ os) s = end_expired os (record s {
  expiry = drop_expiry o.order.account o.order.oid s.expiry;
  log = s.log ++ expired o.order.account o.order.oid ∷ [];
})

-- One record for each round id, but for those seen landed.
abbrev pub one_record : ℕ → List Tracked → List Tracked
one_record rid zs = filter (λ z. not (z.rid == rid) || is_sighted z) zs

abbrev pub in_the_air : Tracked → Market → Market
in_the_air fr s =
    noting (map (λ o. rounded (okey o)) (fr.sealed ++ fr.public))
      (record s { inflight = some fr; zombies = one_record fr.rid s.zombies })

module _ (new_tag : Queued → ℕ) (seal : Queued → Option ℕ) (submit : Queued → Bool) (c : Settings)
    (i : Inputs) where
  -- The second look at the released rounds: the orders that it claims leave the batch.
  abbrev pub after_look : Building → Market × List OrderKey × Bool → Building × Market × Bool
  after_look b (s, claimed, raised) = (
    record b {
      revealed = without_keys claimed b.revealed;
      public = without_keys claimed b.public;
      dead = without_keys claimed b.dead;
    },
    s,
    raised,
  )

  abbrev pub look_again : Building → Market → Building × Market × Bool
  look_again b s =
      if ltb 0 (length s.zombies)
      then after_look b (resolve_zombies new_tag seal submit c i.second_look i.reads_again s)
      else (b, s, false)

  -- Pricing and the sequence check of the public orders.
  unfoldable pub check_public : ℕ → List Queued → Building → Building
  check_public lp pend b =
      let p = price_market_orders i.is_market lp (map (λ o. o.order) b.public) in
      let q = seq_sanitize i.seq_floor p.0 in
      record b {
        public = map (as_queued pend) q.kept;
        dead = map (as_queued pend) (p.1 ++ map (λ d. d.0) q.dead);
      }

  -- A sealed order that has lost its counterparty goes back, still hidden.
  abbrev pub met : List Order → Building → List Order
  met resting b =
      (plan_round (map (λ o. o.order) (b.revealed ++ b.public)) resting i.now (λ o. true)).reveal

  unfoldable pub keep_met : List Order → Building × Market → Building × Market
  keep_met resting (b, s) =
      let kept = map tag_of (met resting b) in
      (
        record b { revealed = filter (λ o. has kept o.order) b.revealed },
        record s { pending = filter (λ o. not (has kept o.order)) b.revealed ++ s.pending },
      )

  -- The record of the round, once its payload is made.
  unfoldable pub tracked_round : ℕ → Bytes → List Order → List (ℕ × ℕ) → Building → Tracked
  tracked_round rid raw resting pruned b = record {
    rid = rid;
    begun = i.made_at;
    sealed = b.revealed;
    public = b.public;
    resting = resting;
    clearing = clear (resting ++ map (λ o. o.order) (b.revealed ++ b.public));
    pruned = pruned;
    book_hash = i.book_hash raw;
    consumed = map i.entry b.revealed;
    encset = i.encrypts;
    minseq = minseqs b.public [];
    ok_since = none;
    dead_since = none;
    claimed = [];
    abandoned_at = 0;
    why = none;
  }

  abbrev pub on_payload :
      Bytes → List Order → List (ℕ × ℕ) → Building → Market → Option ℕ → Assembled × Market
  on_payload raw resting pruned b s none = (raises, record s { gate = some i.made_at })
  on_payload raw resting pruned b s (some rid) =
      (tracks (tracked_round rid raw resting pruned b), s)

  -- The reply with nothing to submit reads the chain.
  abbrev pub reply : Assembled
  reply = if i.reply_read then nothing else raises

  -- Something is left to submit, or an expired order is pruned, or there is no round.
  unfoldable pub make_round :
      Bytes → List Order → List (ℕ × ℕ) → Building × Market → Assembled × Market
  make_round raw resting pruned (b, s) =
      if ltb 0 (length (b.revealed ++ b.public) + length pruned)
      then on_payload raw resting pruned b s (i.payload_id b.revealed b.public pruned)
      else (reply, s)

  -- The orders that `_assemble_round` ends, and those that the round carries.
  abbrev pub end_and_make :
      Bytes
      → List Order
      → List (ℕ × ℕ)
      → Building × Market × Bool
      → Assembled × List OrderKey × Market
  end_and_make raw resting pruned (b, s, true) = (raises, b.done, s)
  end_and_make raw resting pruned (b, s, false) =
      let e = end_dead b.dead b.done s in
      let r = make_round raw resting pruned (keep_met resting (b, e.1)) in (r.0, e.0, r.1)

  -- The last price is only read for a market order, and the floors for an order that is left.
  abbrev pub read_price : List Queued → Option ℕ
  read_price os = if any (λ o. i.is_market o.order.tag) os then i.price else some 0

  abbrev pub reads_floor : ℕ → List Queued → Bool
  reads_floor lp os = ltb 0 (length (price_market_orders i.is_market lp (map (λ o. o.order) os)).0)

  abbrev pub at_price :
      Option ℕ
      → Bytes
      → List Queued
      → List Order
      → List (ℕ × ℕ)
      → Building
      → Market
      → Assembled × List OrderKey × Market
  at_price none raw pend resting pruned b s = (raises, b.done, s)
  at_price (some lp) raw pend resting pruned b s =
      if i.floors_read || not (reads_floor lp b.public)
      then end_and_make raw resting pruned (look_again (check_public lp pend b) s)
      else (raises, b.done, s)

  -- `_assemble_round`: what it comes to, the keys of the orders that it ended, and the market.
  unfoldable pub assemble_round :
      Bytes
      → List Queued
      → List Order
      → List (ℕ × ℕ)
      → List Queued
      → Building
      → Market
      → Assembled × List OrderKey × Market
  assemble_round raw pend resting pruned waiting b s =
      at_price (read_price b.public) raw pend resting pruned b
        (noting (map (λ o. deferred (okey o)) waiting) s)

  abbrev pub after_sending : Sending → Tracked → Market → Market
  after_sending sent fr s = in_the_air fr s
  after_sending unknown fr s = in_the_air fr s
  after_sending chain_busy fr s = record s {
    inflight = none;
    pending = (fr.sealed ++ fr.public) ++ s.pending;
    gate = some i.sent_at;
  }

  abbrev pub on_assembled : List Queued → Assembled × List OrderKey × Market → Market
  on_assembled taken (tracks fr, done, s) = after_sending i.sending fr s
  on_assembled taken (nothing, done, s) = s
  on_assembled taken (raises, done, s) = requeue_unsent taken done s

  -- `sealed_ready`, of a planner's order.
  abbrev pub may_reveal : Found → List Queued → Order → Bool
  may_reveal f pend o =
      (sealed_ready_predicate f.entries i.fin f.final i.commit_seen).0 (i.entry (as_queued pend o))

  -- The plan of the queue: the server's capacity policy, with the market's cap on encrypt-until-batch orders.
  abbrev pub plan_of : Found → List Queued → List Order → Option ℕ → RoundPlan
  plan_of f pend resting most =
      plan_batch (map (λ o. o.order) pend) resting
        (cap_batch c.max_orders
          (order_gas i.encrypts (if i.encrypts then committee_size f.committee else 0)) i.gas_budget
          (if i.encrypts then most else none))
        i.now (may_reveal f pend)

  -- The build, once the market's chain state is read.
  unfoldable pub build_planned : Found → List Queued → List Order → List (ℕ × ℕ) → Market → Market
  build_planned f pend resting pruned s =
      let plan = plan_of f pend resting s.enc_cap in
      let waits = map tag_of (plan.carry ++ (plan.deferred ++ plan.overflow)) in
      let out = map okey (map (as_queued pend) (plan.reveal ++ (plan.public ++ plan.expired))) in
      let taken = filter (λ o. mem (okey o) out) pend in
      let over = map (as_queued pend) plan.expired in
      on_assembled taken (
        assemble_round f.book pend resting pruned (map (as_queued pend) plan.deferred)
          (record {
            revealed = map (as_queued pend) plan.reveal;
            public = map (as_queued pend) plan.public;
            dead = [];
            done = map okey over;
          })
          (end_expired over (record s { pending = filter (λ o. has waits o.order) pend })))

  abbrev pub pruned_now : Found → Market → List (ℕ × ℕ)
  pruned_now f s = expired_pairs i.now s.expiry f.book

  abbrev pub resting_now : Found → Market → List Order
  resting_now f s =
      filter (λ o. not (any (λ p. o.account == p.0 && o.oid == p.1) (pruned_now f s)))
        (parse_book f.book)

  -- The reads before the plan. The finalized set is only read where there is a finalized head, and the
  -- committee where sealed orders are encrypted.
  abbrev pub reads_before : Option Found
  reads_before =
      all_read i.raw_book i.commit_entries
        (if is_available i.fin then i.final_entries else some none)
        (if i.encrypts then i.committee else some [])

  abbrev pub on_read : Option Found → Market → Market
  on_read none s = s
  on_read (some f) s =
      build_planned f (map (with_expiry s.expiry) s.pending) (resting_now f s) (pruned_now f s) s

  abbrev pub after_first_look : Market × List OrderKey × Bool → Market
  after_first_look (s, claimed, raised) = if raised then s else on_read reads_before s

  abbrev pub first_look_at : Market → Market × List OrderKey × Bool
  first_look_at s =
      if ltb 0 (length s.zombies)
      then resolve_zombies new_tag seal submit c i.first_look i.reads s
      else (s, [], false)

  abbrev pub past_gate : Option ℕ → Market → Market
  past_gate none s = after_first_look (first_look_at s)
  past_gate (some t) s =
      if ltb i.gate_look (t + i.cooldown)
      then s
      else after_first_look (first_look_at (record s { gate = none }))

  abbrev pub unless_in_flight : Option Tracked → Market → Market
  unless_in_flight (some fr) s = s
  unless_in_flight none s = past_gate s.gate s

  -- `_build_round(m, base, quote)`, as the market that it leaves.
  unfoldable pub build_round : Market → Market
  build_round s = unless_in_flight s.inflight s
