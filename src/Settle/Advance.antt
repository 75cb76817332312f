-- ===== src/Settle/Advance.antt =====
-- `_track_finality` and `_finality_advancing` of offchain/server.py, over the looks at the finalized head.
use jamswap.Prelude.{
  ℕ, ◌+◌, ◌≡◌, ◌≤◌, refl, ◌⊎◌, inl, inr, true, ◌&&◌, Option, none, some, List, [], ◌∷◌, arith,
  Bool-cases, Empty,
}
use jamswap.Settle.Finality.{
  HeadKey, Track, View, track_finality, moves, moved_within, is_available, finality_advancing,
}

-- The looks, the latest first: the time of each, and the finalized head it found.
abbrev pub Looks : Type 0
Looks = List (ℕ × Option HeadKey)

abbrev pub watch : Looks → Track
watch [] = record { key = none; seen = 0; moved = none }
watch ((now, k) ∷ h) = track_finality k now (watch h)

-- A look at `t` and the next one found different heads.
abbrev pub Changed : ℕ → Looks → Type 0
Changed t [] = Empty {0}
Changed t ((n, k) ∷ []) = Empty {0}
Changed t ((n, k) ∷ (m, j) ∷ h) = ((m ≡ t) × (moves j k ≡ true)) ⊎ Changed t ((m, j) ∷ h)

moved-Changed : (h : Looks) (t : ℕ) → (watch h).moved ≡ some t → Changed t h
unfolding track_finality
moved-Changed [] t e = absurd (ground arith)
moved-Changed ((n, k) ∷ []) t e = absurd (ground arith)
moved-Changed ((n, k) ∷ (m, j) ∷ h) t e = elim (Bool-cases (moves j k)) [
  | inl y ↦ inl (ground arith, y)
  | inr y ↦ inr (moved-Changed ((m, j) ∷ h) t (ground arith))
]

advancing-moved :
    (window now : ℕ) (v : Option View) (t : Track)
    → finality_advancing window now v t ≡ true
    → (m : ℕ) × (t.moved ≡ some m) × (now ≤ m + window)
unfolding finality_advancing
advancing-moved window now v t = by_moved t.moved refl
  where
    by_moved :
        (o : Option ℕ)
        → t.moved ≡ o
        → (is_available v && moved_within window now o) ≡ true
        → (m : ℕ) × (t.moved ≡ some m) × (now ≤ m + window)
    by_moved none e h = absurd (ground arith)
    by_moved (some m) e h = (m, e, ground arith)

-- Finality counts as advancing only if, of the looks at the finalized head, one within the window before
-- now and the next one found different heads: a head that stays put, and a change that is only noticed
-- after a long silence, do not count.
pub finality_advancing_change :
    (window now : ℕ) (v : Option View) (h : Looks)
    → finality_advancing window now v (watch h) ≡ true
    → (t : ℕ) × Changed t h × (now ≤ t + window)
finality_advancing_change window now v h a =
    let m = advancing-moved window now v (watch h) a in (m.0, moved-Changed h m.0 m.1, m.2)

-- It does count if finality is available and the last two looks found different heads, the earlier one
-- within the window.
finality_advancing_moving :
    (window now : ℕ) (v : Option View) (h : Looks) (n m : ℕ) (j k : Option HeadKey)
    → is_available v ≡ true
    → moves j k ≡ true
    → now ≤ m + window
    → finality_advancing window now v (watch ((n, k) ∷ (m, j) ∷ h)) ≡ true
unfolding finality_advancing track_finality
finality_advancing_moving window now v h n m j k a moving near = rw (a, moving) (ground arith)
