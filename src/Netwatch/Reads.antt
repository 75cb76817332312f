-- ===== src/Netwatch/Reads.antt =====
-- `decode_nat` of offchain/netwatch.py against `dec_nat` of offchain/workpackage.py.
use mathlib.Core.Path.{subst}
use jamswap.Prelude.{
  ℕ, ◌+◌, ◌-◌, ◌*◌, ◌%◌, ◌^◌, ◌≡◌, refl, ap, sym, ◌∙◌, ◌≤◌, ◌<◌, inl, inr, true, false, Option,
  some, none, arith, length, leb, ltb, ◌==◌, if◌then◌else◌, Bool-cases,
}
use jamswap.Prelude.Table.{all_below, agree_below}
use jamswap.Codec.{
  Bytes, ok, err, truncated, dec_nat, enc_nat, slice, byte_at, rest_length, nat_value, le_value,
  leading_ones,
}
use jamswap.Codec.Canonical.{accepted, within}
use jamswap.Netwatch.{ones, decode_nat}

-- Both count the leading ones of the first octet.
ones-rest_length : (b : ℕ) → b < 256 → ones b ≡ rest_length b
unfolding all_below leading_ones
ones-rest_length = agree_below 256 ones rest_length refl

value_same :
    (b l : ℕ) (low : Bytes)
    → (l == 8) ≡ false
    → nat_value b l low ≡ b % 2 ^ (7 - l) * 2 ^ (8 * l) + le_value low
value_same b l low h = rw h (omega arith)

abbrev read_with : ℕ → Bytes → ℕ → Option (ℕ × ℕ)
read_with n buf i =
    if leb (length buf) i
    then none
    else if n == 8
    then some (le_value (slice buf (i + 1) 8), i + 9)
    else if ltb (length buf) (i + 1 + n)
    then none
    else some
        (byte_at buf i % 2 ^ (7 - n) * 2 ^ (8 * n) + le_value (slice buf (i + 1) n), i + 1 + n)

decode_nat-read_with :
    (buf : Bytes) (i : ℕ) → decode_nat buf i ≡ read_with (ones (byte_at buf i)) buf i
unfolding decode_nat
decode_nat-read_with buf i = refl

pair_some : (a b c d : ℕ) → a ≡ c → b ≡ d → ◌≡◌ {A = Option (ℕ × ℕ)} (some (a, b)) (some (c, d))
pair_some a b c d e f = cc

in_range : (n i l : ℕ) → i + 1 + l ≤ n → (leb n i ≡ false) × (ltb n (i + 1 + l) ≡ false)
in_range n i l h = (ground arith, ground arith)

read_eight :
    (buf : Bytes) (i x j : ℕ)
    → i + 1 + 8 ≤ length buf
    → nat_value (byte_at buf i) 8 (slice buf (i + 1) 8) ≡ x
    → i + 1 + 8 ≡ j
    → read_with 8 buf i ≡ some (x, j)
read_eight buf i x j fits value next =
    rw (in_range (length buf) i 8 fits).0 (pair_some _ _ x j value (omega arith))

read_fewer :
    (l : ℕ) (buf : Bytes) (i x j : ℕ)
    → (l == 8) ≡ false
    → i + 1 + l ≤ length buf
    → nat_value (byte_at buf i) l (slice buf (i + 1) l) ≡ x
    → i + 1 + l ≡ j
    → read_with l buf i ≡ some (x, j)
read_fewer l buf i x j fewer fits value next =
    let (inside, whole) = in_range (length buf) i l fits in
    let same = sym (value_same (byte_at buf i) l (slice buf (i + 1) l) fewer) ∙ value in
    rw (inside, fewer, whole) (pair_some _ _ x j same next)

eight : (l : ℕ) → (l == 8) ≡ true → l ≡ 8
eight l h = ground arith

read_whole :
    (l : ℕ) (buf : Bytes) (i x j : ℕ)
    → i + 1 + l ≤ length buf
    → nat_value (byte_at buf i) l (slice buf (i + 1) l) ≡ x
    → i + 1 + l ≡ j
    → read_with l buf i ≡ some (x, j)
read_whole l buf i x j = elim (Bool-cases (l == 8)) [
  | inl full ↦
      subst
        (λ n.
          i + 1 + n ≤ length buf
          → nat_value (byte_at buf i) n (slice buf (i + 1) n) ≡ x
          → i + 1 + n ≡ j
          → read_with n buf i ≡ some (x, j))
        (sym (eight l full)) (read_eight buf i x j)
  | inr fewer ↦ read_fewer l buf i x j fewer
]

-- Where the first octet is below 256, what `dec_nat` accepts, `decode_nat` reads as the same number, and
-- goes on at the same place.
pub decode_nat-dec_nat :
    (buf : Bytes) (i x j : ℕ)
    → byte_at buf i < 256
    → dec_nat buf i ≡ ok (x, j)
    → decode_nat buf i ≡ some (x, j)
unfolding dec_nat
decode_nat-dec_nat buf i x j octet h =
    let b = byte_at buf i in
    let l = rest_length b in
    let y = nat_value b l (slice buf (i + 1) l) in
    let (fits, rest) = within (length buf) i l _ (x, j) h in
    let (e, same, next) = accepted (enc_nat y) buf i l y x j rest in
    let count =
      decode_nat-read_with buf i ∙ ap (λ n. read_with n buf i) (ones-rest_length b octet) in
    count ∙ read_whole l buf i x j fits same next

-- Where an octet of ones stands in a buffer with fewer than eight octets behind it, `decode_nat` returns
-- a number and a place behind the end of the buffer, and `dec_nat` refuses.
pub decode_nat_overrun :
    (buf : Bytes) (i : ℕ)
    → i < length buf
    → byte_at buf i ≡ 255
    → length buf < i + 9
    → (decode_nat buf i ≡ some (le_value (slice buf (i + 1) 8), i + 9))
      × (dec_nat buf i ≡ err truncated)
decode_nat_overrun buf i inside full short = (
  decode_nat-read_with buf i ∙ ap (λ b. read_with (ones b) buf i) full ∙ ground arith,
  unfold dec_nat in rw full (ground arith),
)
