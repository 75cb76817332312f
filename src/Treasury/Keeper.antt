-- ===== src/Treasury/Keeper.antt =====
-- The reserve keeper of offchain/server.py, `reserve_keeper_tick`, over a footprint that grows: its looks where
-- each top-up has landed before the next one. The rule is `reserve_target` and `topup_due` of
-- offchain/treasury.py.
use jamswap.Prelude.{ℕ, ◌+◌, ◌*◌, ◌≤◌, max, List, [], ◌∷◌, ◌==◌, if◌then◌else◌}
use jamswap.Prelude.Int.{pos}
use jamswap.Treasury.{reserve_target, topup_due, trigger}

-- A top-up of nothing is not sent.
abbrev pub sent : ℕ → ℕ
sent a = if a == 0 then 0 else 1

module _ (scale supply buffer : ℕ) where
  -- `reserve_target_atomic()`; `scale` is SCALE, `buffer` is RESERVE_BUFFER_KB.
  abbrev pub target_atomic : ℕ → ℕ
  target_atomic obligation = reserve_target obligation (pos buffer) supply * scale

  -- `amount`
  abbrev pub amount : ℕ → ℕ → ℕ
  amount held obligation = topup_due held (target_atomic obligation) (pos (buffer * scale))

  -- The balances at the looks cover the obligations that they find.
  abbrev pub Covers : ℕ → List ℕ → Type 0
  Covers held [] = Unit
  Covers held (o ∷ os) = (o * scale ≤ held) × Covers (held + amount held o) os

  -- The top-ups that the looks send.
  abbrev pub topups : ℕ → List ℕ → ℕ
  topups held [] = 0
  topups held (o ∷ os) = sent (amount held o) + topups (held + amount held o) os

  -- From look to look the obligation grows by half a buffer at most, within the supply.
  abbrev pub Gradual : ℕ → List ℕ → Type 0
  Gradual last [] = Unit
  Gradual last (o ∷ os) = (2 * o ≤ 2 * last + buffer) × (o + buffer ≤ supply) × Gradual o os

  abbrev pub peak : List ℕ → ℕ
  peak [] = 0
  peak (o ∷ os) = max o (peak os)

  abbrev pub half : ℕ
  half = trigger (pos (buffer * scale))
