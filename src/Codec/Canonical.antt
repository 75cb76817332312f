-- ===== src/Codec/Canonical.antt =====
-- What `dec_nat` of offchain/workpackage.py accepts.
use jamswap.Prelude.{
  ℕ, ◌+◌, ◌-◌, ◌≡◌, ap, ◌≤◌, ◌<◌, inl, inr, arith, length, leb, ltb, Bool-cases, if◌then◌else◌,
}
use jamswap.Codec.{
  Bytes, Result, ok, err, truncated, non_canonical, bind_result, enc_nat, dec_nat, slice, byte_at,
  same_bytes, rest_length, nat_value,
}
use jamswap.Codec.Natural.{same_bytes-eq}

pub accepted :
    (r : Result Bytes) (buf : Bytes) (i l y x j : ℕ)
    → bind_result {B = ℕ × ℕ} r
        (λ e. if same_bytes e (slice buf i (1 + l)) then ok (y, i + 1 + l) else err non_canonical)
      ≡ ok (x, j)
    → (r ≡ ok (slice buf i (1 + l))) × (y ≡ x) × (i + 1 + l ≡ j)
accepted (err e) buf i l y x j h = absurd (cc)
accepted (ok e) buf i l y x j h = elim (Bool-cases (same_bytes e (slice buf i (1 + l)))) [
  | inl same ↦ (ap ok (same_bytes-eq e _ same), ground arith, ground arith)
  | inr other ↦ absurd (ground arith)
]

pub within {ℓ} :
    {A : Type ℓ} (n i l : ℕ) (t : Result A) (v : A)
    → (if leb n i then err truncated else if ltb n (i + 1 + l) then err truncated else t) ≡ ok v
    → (i + 1 + l ≤ n) × (t ≡ ok v)
within n i l t v h = elim (Bool-cases (leb n i)) [
  | inl out ↦ absurd (ground arith)
  | inr inside ↦ elim (Bool-cases (ltb n (i + 1 + l))) [
    | inl cut ↦ absurd (ground arith)
    | inr whole ↦ (ground arith, rw (inside, whole) at h)
  ]
]

-- `dec_nat` accepts a number only in its one canonical form, within the buffer: what it consumed is
-- what `enc_nat` writes for the number that it returns.
pub dec_nat_canonical :
    (buf : Bytes) (i x j : ℕ)
    → dec_nat buf i ≡ ok (x, j)
    → (enc_nat x ≡ ok (slice buf i (j - i))) × (i < j) × (j ≤ length buf)
unfolding dec_nat
dec_nat_canonical buf i x j h =
    let b = byte_at buf i in
    let l = rest_length b in
    let y = nat_value b l (slice buf (i + 1) l) in
    let (fits, rest) = within (length buf) i l _ (x, j) h in
    let (e, same, next) = accepted (enc_nat y) buf i l y x j rest in
    let n : 1 + l ≡ j - i = omega arith in (rw (← same, ← n) e, omega arith, omega arith)
