-- ===== src/Settle.antt =====
-- What offchain/server.py does with a round, from the queue on: the watch of the chain's finality, the
-- state of one market, the receipts, and the sweep of the resolver thread that settles the round,
-- releases it, or claims a late landing. The chain's answers are parameters: the landed marker of a
-- round, what a storage key holds, and whether a re-seal could be posted.
pub mod Finality
pub mod Advance
pub mod Market
pub mod Finish
pub mod Judge
pub mod Sweep
pub mod Resolve
pub mod Keys
pub mod Recorded
pub mod Account
pub mod Moves
pub mod Steps
pub mod Walks
pub mod Loop
pub mod Swept
pub mod Lossless
pub mod Forget
pub mod Flight
pub mod Sweeps
pub mod Release
pub mod Sighted
pub mod Durable
pub mod Settles
pub mod Carry
pub mod Drains
pub mod Cancel
pub mod Cancelled
pub mod Register
pub mod Ready
pub mod Build
pub mod Ends
pub mod Assembled
pub mod Submits
pub mod Kept
mod Examples
