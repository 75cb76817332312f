-- ===== src/Lib.antt =====
-- A verification library for the off-chain half of jamswap, a batch-auction exchange on a JAM service.
--
-- Each auction tick, the builder (offchain/server.py) plans a round: offchain/round.py decides which
-- queued orders join the batch, and which sealed ones stay hidden. The chain clears the batch at one
-- price; offchain/clearing.py recomputes that clearing to attribute the fills. The batch travels in a
-- work package, whose bytes offchain/workpackage.py writes and reads. The service's reserve of JAMKB
-- and its profit follow the rules of offchain/treasury.py. What becomes of every order is followed by
-- offchain/order_telemetry.py, and its event log is judged by offchain/soak_verdict.py.
--
-- The files:
--   Prelude      library names passed on, Boolean tests on native numbers, lists, integers.
--   Order        the order dict that clearing.py and round.py share.
--   Clearing     offchain/clearing.py: `clear`, with `demand`, `supply` and `ration`. Its children hold
--                the proofs: the price (Optimal), the volume (Volume), what is handed out (Ration), to
--                whom (Sorting, Priority), and which orders do not matter (Neutral).
--   Round        offchain/round.py: `_best_opposing`, `crosses`, `plan_round`, `plan_batch`. Its
--                children: the lists of a plan (Partition), what is revealed (Reveal), the loop of
--                `plan_batch` (Batches), its batch (Capped) and its six lists (Once).
--   Treasury     offchain/treasury.py, with its laws (Laws), and over the looks of the reserve keeper of
--                offchain/server.py, `reserve_keeper_tick` (Keeper).
--   Codec        offchain/workpackage.py, the codec: `enc_nat`, `dec_nat`, `var`, `_u`, `_hash`,
--                `_Reader`. A reader is a state-passing parser that returns an error for a `ValueError`.
--                Its children: Natural and Canonical on the naturals, Wire on readers of a sequence.
--   WorkPackage  offchain/workpackage.py, the types, with their encoders and readers; what decoding
--                gives back (RoundTrip) and when encoding succeeds (Total).
--   Telemetry    offchain/order_telemetry.py: the table of live orders, one function per transition,
--                the event log. Its child Store is the dict `_orders`.
--   Verdict      offchain/soak_verdict.py: `load`, `judge` and `score`. Its children: the log by order
--                (History, Load), the states that the telemetry reaches (Track, Reach), the live gauge
--                against the verdict (Agreement, Gauge), and the verdict itself (Score).
--   Server       offchain/server.py: `_seq_sanitize`, `_cap_batch` and `_price_market_orders`. Its
--                children: what is kept for a round (Seq), the limits of the batch (Cap), the queue dealt
--                again (Dealt) and the orders that the batch takes first (Oldest), and what prices a market
--                order (Pricing). `_cap_batch` is the policy of `plan_batch`.
--   Settle       offchain/server.py, the rounds, from their build to the end of them. Finality is the watch of the
--                finalized head, Market the state of one market with `_claim` and `_unclaim`, Finish the
--                receipts and carries of a settled round, Judge what the chain says of a round, Sweep and
--                Resolve the sweep of the resolver thread, Cancel the watched cancels, Register the pending
--                registrations, Ready which sealed orders may be revealed, and Build the round builder,
--                which composes the planner, the sequence check, the clearing and the released rounds. The
--                proofs: looks at finality (Advance), what a carry conserves (Carry), what becomes of a queued re-seal (Drains), how a round in flight
--                ends (Release, Sighted, Durable, Settles), when a cancel ends an order (Cancelled), and
--                that no order is lost, by a sweep (Keys, Recorded, Account, Moves, Steps, Walks, Loop,
--                Swept, Lossless, Forget, Flight, Sweeps) or by a build (Ends, Assembled, Submits, Kept).
--   Netwatch     offchain/netwatch.py: `decode_nat`, against `dec_nat` (Reads), and `judge_sample`
--                (Head), with what it accepts (OneHead).
--
-- Conventions: prices, quantities, amounts and times are natural numbers (times in any unit fine enough:
-- they are only compared and subtracted). A byte is a number, and bit operations are written with
-- powers of two. A Python exception is an error value, and `None` is `none`. The identity of an order
-- object, `id(o)`, is its `tag`.
--
-- Loops are structural recursion, with one bound: `plan_batch` runs its own FIT_PASSES + 1 passes, which
-- `refill` counts down, as the source does. The bit length of an octet is taken within eight halvings.
--
-- The resolver takes a market's lock, so the operations on one market are steps in sequence. What the chain
-- answers in a sweep is a record of reads, one for each round, so that the reads of one sweep may disagree, as
-- when a re-org comes between them.
--
-- Not modelled: the HTTP server and its threads, the chain adapter, the deployment and network tools,
-- metrics, dashboards and drivers, which are input and output; the Rust engine and service; and the
-- vendored libraries. Blake2b-256, the on-chain sequence floors, the chain's answers, the bytes and the id of
-- a round's payload, the making of a seal, and whether a submit goes through are parameters. A keeper's top-up
-- is taken to land before its next look: the resend of one that does not is not modelled.
pub mod Prelude
pub mod Order
pub mod Clearing
pub mod Round
pub mod Treasury
pub mod Codec
pub mod WorkPackage
pub mod Telemetry
pub mod Verdict
pub mod Server
pub mod Netwatch
pub mod Settle
