-- ===== src/Codec/Natural.antt =====
-- The general natural of offchain/workpackage.py: `dec_nat` reads back what `enc_nat` wrote.
use jamswap.Prelude.{
  ℕ, zero, suc, ◌+◌, ◌-◌, ◌*◌, ◌/◌, ◌%◌, ◌^◌, ◌≡◌, refl, sym, ap, ◌∙◌, ◌≤◌, ◌<◌, inl, inr, true,
  List, [], ◌∷◌, ◌++◌, arith, length, take, drop, ltb, leb, ◌==◌, if◌then◌else◌, Bool-cases,
  length-append, All,
}
use jamswap.Prelude.Table.{all_below, agree_below}
use jamswap.Codec.{
  truncated, out_of_range, Bytes, Result, ok, err, le_bytes, le_value, enc_loop, lengths, enc_nat,
  leading_ones, byte_at, same_bytes, rest_length, nat_value, dec_nat,
}

pub length-le_bytes : (n x : ℕ) → length (le_bytes n x) ≡ n
unfolding le_bytes
length-le_bytes zero x = refl
length-le_bytes (suc n) x = ap suc (length-le_bytes n (x / 256))

-- Little-endian octets hold the number that fits into them.
pub le_value-le_bytes : (n x : ℕ) → x < 256 ^ n → le_value (le_bytes n x) ≡ x
unfolding le_bytes le_value
le_value-le_bytes zero x h = omega arith
le_value-le_bytes (suc n) x h = omega (arith, le_value-le_bytes n (x / 256) (omega arith))

pub same_bytes_refl : (bs : Bytes) → same_bytes bs bs ≡ true
same_bytes_refl [] = refl
same_bytes_refl (b ∷ bs) = ground (arith, same_bytes_refl bs)

pub same_bytes-eq : (xs bs : Bytes) → same_bytes xs bs ≡ true → xs ≡ bs
same_bytes-eq [] [] h = refl
same_bytes-eq [] (b ∷ bs) h = cc
same_bytes-eq (a ∷ xs) [] h = cc
same_bytes-eq (a ∷ xs) (b ∷ bs) h = ground (arith, same_bytes-eq xs bs)

-- The position after `pre` in `pre ++ bs`.
pub drop-append : (pre bs : Bytes) → drop (length pre) (pre ++ bs) ≡ bs
drop-append [] bs = refl
drop-append (p ∷ pre) bs = drop-append pre bs

pub take-append : (bs rest : Bytes) → take (length bs) (bs ++ rest) ≡ bs
take-append [] rest = refl
take-append (b ∷ bs) rest = ap (◌∷◌ b) (take-append bs rest)

byte_at-append : (pre : Bytes) (b : ℕ) (rest : Bytes) → byte_at (pre ++ (b ∷ rest)) (length pre) ≡ b
byte_at-append [] b rest = refl
byte_at-append (p ∷ pre) b rest = byte_at-append pre b rest

drop-append_suc :
    (pre : Bytes) (b : ℕ) (rest : Bytes) → drop (length pre + 1) (pre ++ (b ∷ rest)) ≡ rest
drop-append_suc [] b rest = refl
drop-append_suc (p ∷ pre) b rest =
    let e : suc (length pre) + 1 ≡ suc (length pre + 1) = omega arith in
    rw e (drop-append_suc pre b rest)

-- An octet and what follows it, as `dec_nat` takes them apart.
record IsShape (x b : ℕ) (low : Bytes) : Type 0 where
  size : rest_length b ≡ length low
  value : nat_value b (length low) low ≡ x
  short : length low ≤ 8

in_range {ℓ} :
    {A : Type ℓ} (n i l : ℕ) (t : Result A)
    → i + 1 + l ≤ n
    → (if leb n i then err truncated else if ltb n (i + 1 + l) then err truncated else t) ≡ t
in_range n i l t h = ground arith

room_for :
    (pre low rest : Bytes) (b : ℕ)
    → length pre + 1 + length low ≤ length (pre ++ (b ∷ (low ++ rest)))
room_for pre low rest b =
    omega (arith, length-append pre (b ∷ (low ++ rest)), length-append low rest)

dec_nat_shape :
    (pre rest low : Bytes) (x b : ℕ)
    → enc_nat x ≡ ok (b ∷ low)
    → IsShape x b low
    → dec_nat (pre ++ ((b ∷ low) ++ rest)) (length pre) ≡ ok (x, length pre + (1 + length low))
unfolding dec_nat
dec_nat_shape pre rest low x b e s =
    let one : 1 + length low ≡ suc (length low) = omega arith in
    let whole : take (1 + length low) (drop (length pre) (pre ++ (b ∷ (low ++ rest)))) ≡ b ∷ low =
      rw (drop-append pre (b ∷ (low ++ rest)), one, take-append low rest) refl in
    rw
      (
        byte_at-append pre b (low ++ rest),
        s.size,
        drop-append_suc pre b (low ++ rest),
        take-append low rest,
        s.value,
        e,
        whole,
        same_bytes_refl (b ∷ low),
      )
      (in_range _ (length pre) (length low) _ (room_for pre low rest b)
        ∙ ap (λ (j : ℕ). ok (x, j)) (omega arith))

-- How many octets follow a first octet, by its range.
abbrev band : ℕ → ℕ
band b =
    if ltb b 128
    then 0
    else if ltb b 192
    then 1
    else if ltb b 224
    then 2
    else if ltb b 240
    then 3
    else if ltb b 248
    then 4
    else if ltb b 252
    then 5
    else if ltb b 254
    then 6
    else if ltb b 255
    then 7
    else 8

rest_length-band : (b : ℕ) → b < 256 → rest_length b ≡ band b
unfolding all_below leading_ones
rest_length-band = agree_below 256 rest_length band refl

-- The first octet that `enc_nat` writes for a number with `l` low octets.
abbrev first_octet : ℕ → ℕ → ℕ
first_octet l x = 256 - 2 ^ (8 - l) + x / 2 ^ (8 * l)

abbrev low_part : ℕ → ℕ → ℕ
low_part l x = x % 2 ^ (8 * l)

-- What makes it and `l` low octets stand for `x`.
abbrev IsSplit : ℕ → ℕ → Type 0
IsSplit l x =
    (first_octet l x < 256)
    × (band (first_octet l x) ≡ l)
    × (l < 8)
    × (low_part l x < 256 ^ l)
    × (low_part l x + first_octet l x % 2 ^ (7 - l) * 2 ^ (8 * l) ≡ x)

prefix-IsShape : (l x : ℕ) → IsSplit l x → IsShape x (first_octet l x) (le_bytes l (low_part l x))
prefix-IsShape l x (below, len, small, fits, sum) = record {
  size = rest_length-band (first_octet l x) below ∙ len ∙ sym (length-le_bytes l (low_part l x));
  value =
      rw (length-le_bytes l (low_part l x), le_value-le_bytes l (low_part l x) fits)
        (not_eight _ _ small ∙ sum);
  short = omega (arith, length-le_bytes l (low_part l x));
}
  where
    not_eight : (m n : ℕ) → l < 8 → (if l == 8 then m else n) ≡ n
    not_eight m n h = ground arith

-- The eight lengths: each splits the numbers in its range.
splits : (x : ℕ) → All (λ l. x < 2 ^ (7 * (l + 1)) → IsSplit l x) lengths
splits x = (
  (λ h. ground arith),
  (
    (λ h. ground arith),
    (
      (λ h. ground arith),
      (
        (λ h. ground arith),
        (
          (λ h. ground arith),
          ((λ h. ground arith), ((λ h. ground arith), ((λ h. ground arith), tt))),
        ),
      ),
    ),
  ),
)

-- Nine octets hold any number below 2 ^ 64.
full-IsShape : (x : ℕ) → x < 2 ^ 64 → IsShape x 255 (le_bytes 8 x)
full-IsShape x h = record {
  size = rest_length-band 255 (omega arith) ∙ sym (length-le_bytes 8 x);
  value = rw (length-le_bytes 8 x, le_value-le_bytes 8 x (omega arith));
  short = omega (arith, length-le_bytes 8 x);
}

enc_loop-IsShape :
    (ls : List ℕ) (x : ℕ)
    → x < 2 ^ 64
    → All (λ l. x < 2 ^ (7 * (l + 1)) → IsSplit l x) ls
    → (b : ℕ) × (low : Bytes) × (enc_loop ls x ≡ b ∷ low) × IsShape x b low
unfolding enc_loop
enc_loop-IsShape [] x h a = (255, le_bytes 8 x, refl, full-IsShape x h)
enc_loop-IsShape (l ∷ ls) x h (s, a) = elim (Bool-cases (ltb x (2 ^ (7 * (l + 1))))) [
  | inl short ↦
      (first_octet l x, le_bytes l (low_part l x), rw short, prefix-IsShape l x (s (ground arith)))
  | inr long ↦ rw long (enc_loop-IsShape ls x h a)
]

zero-IsShape : IsShape 0 0 []
zero-IsShape = record {
  size = rest_length-band 0 (omega arith);
  value = unfold le_value in refl;
  short = omega arith;
}

enc_nat-IsShape :
    (x : ℕ) → x < 2 ^ 64 → (b : ℕ) × (low : Bytes) × (enc_nat x ≡ ok (b ∷ low)) × IsShape x b low
unfolding enc_nat
enc_nat-IsShape x h = elim (Bool-cases (x == 0)) [
  | inl z ↦ let x_zero : x ≡ 0 = ground arith in (0, [], ground arith, rw x_zero zero-IsShape)
  | inr nz ↦
      let (b, low, e, s) = enc_loop-IsShape lengths x h (splits x) in (b, low, ground (arith, e), s)
]

enc_nat-range : (x : ℕ) (e : Bytes) → enc_nat x ≡ ok e → x < 2 ^ 64
unfolding enc_nat
enc_nat-range x e h = elim (Bool-cases (ltb x (2 ^ 64))) [
  | inl small ↦ ground arith
  | inr big ↦ absurd (ground arith)
]

-- Wherever it stands in a buffer, `dec_nat` reads back the number that `enc_nat` wrote, and goes on
-- right behind it.
pub dec_nat-enc_nat :
    (pre rest e : Bytes) (x : ℕ)
    → enc_nat x ≡ ok e
    → dec_nat (pre ++ (e ++ rest)) (length pre) ≡ ok (x, length pre + length e)
dec_nat-enc_nat pre rest e x h =
    let (b, low, g, s) = enc_nat-IsShape x (enc_nat-range x e h) in
    let same : b ∷ low ≡ e = cc (g, h) in
    rw (← same)
      (dec_nat_shape pre rest low x b g s ∙ ap (λ (k : ℕ). ok (x, length pre + k)) (omega arith))

-- `enc_nat` accepts exactly the numbers below 2 ^ 64, and writes one to nine octets.
pub enc_nat_total :
    (x : ℕ)
    → (x < 2 ^ 64 → (e : Bytes) × (enc_nat x ≡ ok e) × (1 ≤ length e) × (length e ≤ 9))
      × (2 ^ 64 ≤ x → enc_nat x ≡ err out_of_range)
enc_nat_total x = (
  (λ h.
      let (b, low, e, s) = enc_nat-IsShape x h in
      (b ∷ low, e, omega arith, omega (arith, s.short))),
  (λ h. unfold enc_nat in ground arith),
)
