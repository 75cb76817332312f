-- ===== src/Prelude/Table.antt =====
-- Facts about a small range of numbers, checked value by value.
use jamswap.Prelude.{ℕ, zero, suc, ◌≡◌, ◌<◌, Bool, true, ◌&&◌, arith, ◌==◌}

-- The test holds below a bound.
unfoldable pub all_below : ℕ → (ℕ → Bool) → Bool
all_below zero p = true
all_below (suc n) p = p n && all_below n p

pub all_below_lem : (n : ℕ) (p : ℕ → Bool) (x : ℕ) → all_below n p ≡ true → x < n → p x ≡ true
unfolding all_below
all_below_lem zero p x h lt = absurd (omega arith)
all_below_lem (suc n) p x h lt = ground (arith, all_below_lem n p x)

pub agree_below :
    (n : ℕ) (f g : ℕ → ℕ) → all_below n (λ x. f x == g x) ≡ true → (x : ℕ) → x < n → f x ≡ g x
agree_below n f g h x lt = ground (arith, all_below_lem n (λ y. f y == g y) x h lt)
