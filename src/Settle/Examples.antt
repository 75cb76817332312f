-- ===== src/Settle/Examples.antt =====
-- The theorems on the settlement of rounds in offchain/server.py at concrete markets.
use jamswap.Prelude.{
  ◌⊎◌, ℕ, ◌+◌, ◌≡◌, ◌≤◌, refl, Bool, true, false, Option, none, some, List, [], ◌∷◌, arith, ◌==◌,
  length, inl,
}
use jamswap.Order.{Order, buy, sell}
use jamswap.Settle.Market.{
  Queued, OrderKey, okey, keys_of, Tracked, Market, book_moved, order_expiry,
}
use jamswap.Settle.Cancel.{Cancel, CancelReads, resolve_cancels}
use jamswap.Settle.Cancelled.{endings, EndedBy, resolve_cancels_ends}
use jamswap.Settle.Finality.{high, View, track_finality, finality_advancing, settle_hold}
use jamswap.Settle.Finish.{
  carry_remainders, carry_one, drain_carry_retry, finalize_round, post_carry_seal, remainder,
  record_executions, record_owns, record_own, record_exec, disposition,
}
use jamswap.Settle.Judge.{Settings, ChainReads, round_dead, floors_passed, confirmed, rival_landed}
use jamswap.Settle.Sweep.{sight}
use jamswap.Settle.Resolve.{resolve_inflight, act_inflight, flight_step, resolve_rounds}
use jamswap.Settle.Account.{Accounted}
use jamswap.Settle.Advance.{Looks, watch, Changed, finality_advancing_change}
use jamswap.Settle.Carry.{quantity, filled_of, lapsed, ends_of, carry_remainders_conserves}
use jamswap.Settle.Drains.{SharedOut, drain_carry_retry-SharedOut}
use jamswap.Settle.Lossless.{Sound}
use jamswap.Settle.Release.{flying, Released, resolve_inflight_releases}
use jamswap.Settle.Sighted.{History, settlements}
use jamswap.Settle.Durable.{sweeps}
use jamswap.Settle.Settles.{Durable, settled-Durable}
use jamswap.Settle.Build.{Inputs, chain_busy, build_round}
use jamswap.Settle.Ready.{
  CommitLook, is_in, seen_at, pin, pin_one, note_commits, sealed_ready_predicate, noted_after,
  RevealedFor, sealed_ready_predicate-Final,
}
use jamswap.Settle.Submits.{Placed}
use jamswap.Settle.Kept.{Distinct, build_round-Placed}
use jamswap.Settle.Sweeps.{resolve_rounds-Accounted}

abbrev order_with : ℕ → ℕ → Order
order_with oid qty = record {
  tag = oid;
  account = 1;
  oid = oid;
  side = buy;
  price = 10;
  qty = qty;
  sealed = true;
  expiry = none;
  seq = oid;
}

abbrev queued_of : ℕ → ℕ → Queued
queued_of oid qty = record { order = order_with oid qty; commit = some oid }

-- Two revealed orders, the first half filled.
abbrev two : List Queued
two = queued_of 1 10 ∷ queued_of 2 6 ∷ []

abbrev expiries : List (ℕ × ℕ × ℕ)
expiries = (1, 2, 50) ∷ []

abbrev four_filled : List (ℕ × ℕ)
four_filled = (1, 4) ∷ []

abbrev round_of : ℕ → List Queued → Tracked
round_of rid sealed = record {
  rid = rid;
  begun = 0;
  sealed = sealed;
  public = [];
  resting = [];
  clearing = record { price = 10; volume = 4; fills = four_filled };
  pruned = [];
  book_hash = 7;
  consumed = [];
  encset = false;
  minseq = [];
  ok_since = none;
  dead_since = none;
  claimed = [];
  abandoned_at = 0;
  why = none;
}

abbrev market_of : Option Tracked → List Tracked → List Queued → Market
market_of flight zombies pending = record {
  pending = pending;
  inflight = flight;
  zombies = zombies;
  retry = two;
  gate = none;
  enc_cap = none;
  expiry = expiries;
  log = [];
}

abbrev limits : Settings
limits = record {
  hold_secs = none;
  held = 150;
  min_confirm = 2;
  dead_confirm = 4;
  round_gate = 300;
  zombie_watch = 900;
  zombie_cap = 32;
  max_orders = 150;
}

abbrev reads_of : Option (Option ℕ) → ℕ → ChainReads
reads_of landed book = record {
  landed = landed;
  landed_final = some none;
  book = some book;
  entries = some [];
  floor = λ a. some 0;
  rival = λ z. some none;
  advancing = false;
}

-- A chain that takes no re-seal but that of order 1.
abbrev takes_one : Queued → Bool
takes_one o = o.order.oid == 1

abbrev seal_with : Queued → Option ℕ
seal_with o = some 99

abbrev tag_with : Queued → ℕ
tag_with o = 77

carry_remainders_conserves_example :
    let c = carry_remainders tag_with seal_with takes_one 40 expiries four_filled two in
    (filled_of four_filled two
        + quantity c.carried_now
        + quantity c.unposted
        + lapsed 40 expiries four_filled two
      ≡ quantity two)
    × (ends_of c.stamped + length c.carried_now + length c.unposted ≡ length two)
carry_remainders_conserves_example =
    carry_remainders_conserves tag_with seal_with takes_one 40 expiries four_filled two

-- At 60 the remainder of order 2 has expired.
drain_carry_retry-SharedOut_example :
    SharedOut tag_with seal_with takes_one 60
      (λ r. true)
      expiries
      (market_of none [] [])
      (drain_carry_retry tag_with seal_with takes_one 60 (λ r. true) (market_of none [] []))
drain_carry_retry-SharedOut_example =
    drain_carry_retry-SharedOut tag_with seal_with takes_one 60 (λ r. true) (market_of none [] [])

-- Two looks, at 50 and at 56, that found different heads.
abbrev two_looks : Looks
two_looks = (56, some (high 8)) ∷ (50, some (high 7)) ∷ []

abbrev seen_view : Option View
seen_view = some (record {
  available = true;
  finalized_height = 8;
  block_height = 9;
  finalized_slot = 0;
  slot = 0;
  lag = 1;
  by_slot = false;
  hashes = none;
})

two_looks_advance : finality_advancing 60 100 seen_view (watch two_looks) ≡ true
unfolding finality_advancing track_finality
two_looks_advance = refl

finality_advancing_change_example : (t : ℕ) × Changed t two_looks × (100 ≤ t + 60)
finality_advancing_change_example =
    finality_advancing_change 60 100 seen_view two_looks two_looks_advance

-- A watched cancel of order 2, whose nonce has passed, at an empty book.
abbrev cancel_two : Cancel
cancel_two = record { account = 1; oid = 2; nonce = 3; since = 10; order = order_with 2 6 }

abbrev cancel_reads : CancelReads
cancel_reads = record {
  nonce_of = λ a. some 4;
  marker = λ fr. some none;
  book = some [];
  is_open = λ a oid. true;
}

resolve_cancels_ends_example :
    let s = market_of (some (round_of 5 two)) [] [] in
    let u = (resolve_cancels 600 20 cancel_reads (cancel_two ∷ cancel_two ∷ []) [] s).1 in
    (endings 1 2 u.log ≡ endings 1 2 s.log)
    ⊎ ((endings 1 2 u.log ≡ endings 1 2 s.log + 1)
        × EndedBy 600 20 cancel_reads (round_of 5 two ∷ []) 1 2 (cancel_two ∷ cancel_two ∷ []))
resolve_cancels_ends_example =
    resolve_cancels_ends 600 20 cancel_reads (cancel_two ∷ cancel_two ∷ []) []
      (market_of (some (round_of 5 two)) [] []) 1 2

-- A round in flight since 0, not landed at 301 and at 305.
resolve_inflight_releases_example :
    let fr = round_of 5 two in
    let s = market_of none [] [] in
    let u =
      flight_step tag_with seal_with takes_one limits 301
        (reads_of (some none) 7)
        (some fr)
        (flying fr s) in
    Released fr s
      (flight_step tag_with seal_with takes_one limits 305 (reads_of (some none) 8) u.inflight u)
unfolding round_dead floors_passed
resolve_inflight_releases_example =
    resolve_inflight_releases tag_with seal_with takes_one limits (round_of 5 two)
      (market_of none [] []) 301 305 (reads_of (some none) 7) (reads_of (some none) 8) refl
      (λ t e. absurd (ground arith)) (omega arith) (omega arith) (refl, (none, refl))
      (refl, (some book_moved, refl))

-- Seen landed at 100, and still so at 300.
abbrev seen_once : History
seen_once = (100, reads_of (some (some 9)) 7) ∷ []

abbrev so_far : Market
so_far =
    sweeps tag_with seal_with takes_one limits seen_once
      (flying (round_of 5 two) (market_of none [] []))

none_settled : settlements 5 so_far ≡ 0
unfolding resolve_inflight round_dead floors_passed sight act_inflight
none_settled = refl

abbrev settled_now : Market
settled_now =
    flight_step tag_with seal_with takes_one limits 300 (reads_of (some (some 9)) 7) so_far.inflight
      so_far

one_settled : settlements 5 settled_now ≡ 1
unfolding resolve_inflight round_dead floors_passed sight act_inflight confirmed settle_hold
    rival_landed finalize_round carry_remainders carry_one post_carry_seal remainder
    record_executions record_owns record_own record_exec disposition okey order_expiry
one_settled = refl

settled-Durable_example :
    Durable tag_with seal_with takes_one limits
      (round_of 5 two)
      300
      (reads_of (some (some 9)) 7)
      seen_once
      so_far
settled-Durable_example =
    settled-Durable tag_with seal_with takes_one limits (round_of 5 two) 300
      (reads_of (some (some 9)) 7) seen_once (market_of none [] []) refl
      (λ e. omega (arith, e, one_settled, none_settled))

-- A released round is seen landed while another, with copies of its orders, is in flight.
abbrev late_market : Market
late_market =
    market_of (some (round_of 5 two)) (round_of 4 (queued_of 1 10 ∷ []) ∷ []) (queued_of 3 1 ∷ [])

abbrev first_order : OrderKey
first_order = record { account = 1; oid = 1; commit = some 1 }

late_market-Sound : Sound late_market
late_market-Sound = record {
  flight = (tt, tt);
  released = (tt, tt);
  apart = ((λ e. omega (arith, e), tt), (tt, tt));
}

late_market-Accounted : Accounted first_order late_market.zombies late_market
unfolding okey keys_of
late_market-Accounted = refl

resolve_rounds-Accounted_example :
    let u =
      resolve_rounds tag_with seal_with takes_one limits 100
        (λ z. reads_of (some (some 9)) 7)
        (reads_of (some none) 7)
        late_market in
    Accounted first_order u.zombies u × Sound u
resolve_rounds-Accounted_example =
    resolve_rounds-Accounted tag_with seal_with takes_one limits 100 first_order
      (λ z. reads_of (some (some 9)) 7) (reads_of (some none) 7) late_market late_market-Accounted
      late_market-Sound (λ e. refl, tt)

-- A build over two queued orders, a public one and a sealed one, whose submit finds the chain busy.
abbrev open_order : Queued
open_order = record {
  order = record (order_with 1 4) { sealed = false; side = sell };
  commit = none;
}

abbrev two_queued : List Queued
two_queued = open_order ∷ queued_of 2 6 ∷ []

abbrev busy_inputs : Inputs
busy_inputs = record {
  now = 20;
  gate_look = 20;
  first_look = 20;
  second_look = 21;
  made_at = 21;
  sent_at = 22;
  raw_book = some [];
  commit_entries = some (5 ∷ []);
  fin = none;
  final_entries = some none;
  commit_seen = [];
  is_market = λ t. false;
  price = some 10;
  seq_floor = λ a. 0;
  floors_read = true;
  reply_read = true;
  book_hash = λ raw. 7;
  entry = λ o. 5;
  payload_id = λ revealed public pruned. some 9;
  encrypts = false;
  committee = some [];
  gas_budget = 100000000;
  cooldown = 30;
  reads = λ z. reads_of (some none) 7;
  reads_again = λ z. reads_of (some none) 7;
  sending = chain_busy;
}

two_queued-Distinct : Distinct two_queued
two_queued-Distinct o x m n e = ground arith

build_round-Placed_example :
    Placed
      (okey open_order)
      (build_round tag_with seal_with takes_one limits busy_inputs (market_of none [] two_queued))
build_round-Placed_example =
    build_round-Placed tag_with seal_with takes_one limits busy_inputs
      (market_of none [] two_queued) open_order refl two_queued-Distinct (inl refl)

-- A commit first seen at the head height 9, and read again when the finalized height is 10.
abbrev view_at : ℕ → ℕ → Option View
view_at head final = some (record {
  available = true;
  finalized_height = final;
  block_height = head;
  finalized_slot = 0;
  slot = 0;
  lag = 2;
  by_slot = false;
  hashes = none;
})

abbrev first_sight : CommitLook
first_sight = record { entries = 5 ∷ []; fin = view_at 9 7 }

abbrev sight_again : CommitLook
sight_again = record { entries = 4 ∷ 5 ∷ []; fin = view_at 12 10 }

ready_now :
    (sealed_ready_predicate sight_again.entries sight_again.fin none
        (noted_after (first_sight ∷ []))).0
      5
    ≡ true
unfolding sealed_ready_predicate noted_after note_commits pin pin_one seen_at
ready_now = refl

sealed_ready_predicate-Final_example :
    (is_in 5 sight_again.entries ≡ true) × RevealedFor (first_sight ∷ []) none 5 sight_again
sealed_ready_predicate-Final_example =
    sealed_ready_predicate-Final 5 sight_again (first_sight ∷ []) none ready_now
