-- ===== src/Codec.antt =====
-- The byte codec of offchain/workpackage.py: the general natural, fixed-width integers, hashes, and
-- the reader. Bytes are numbers below 256. A shift is a division or a product by a power of two, and
-- a mask `x & (2 ** k - 1)` is a remainder.
pub mod Natural
pub mod Wire
pub mod Canonical
pub mod Examples
use jamswap.Prelude.{
  ℕ, zero, suc, ◌+◌, ◌-◌, ◌*◌, ◌/◌, ◌%◌, ◌^◌, Bool, true, false, ◌&&◌, List, [], ◌∷◌, ◌++◌, length,
  take, drop, ltb, leb, ◌==◌, if◌then◌else◌,
}

abbrev pub Bytes : Type 0
Bytes = List ℕ

-- The `ValueError`s by what they complain of, and the `OverflowError` of `int.to_bytes`.
pub data Error : Type 0 where
  out_of_range truncated non_canonical wrong_length overflow trailing no_items : Error

pub data Result {ℓ} (A : Type ℓ) : Type ℓ where
  ok : A → Result A
  err : Error → Result A

abbrev pub bind_result {ℓ κ} : {A : Type ℓ} {B : Type κ} → Result A → (A → Result B) → Result B
bind_result (ok a) f = f a
bind_result (err e) f = err e

-- `a + b` on encodings that may raise, from left to right.
infixr 60 ◌+++◌
abbrev pub ◌+++◌ : Result Bytes → Result Bytes → Result Bytes
r +++ s = bind_result r (λ a. bind_result s (λ b. ok (a ++ b)))

-- `x.to_bytes(n, "little")`, for an `x` that fits.
unfoldable pub le_bytes : ℕ → ℕ → Bytes
le_bytes zero x = []
le_bytes (suc n) x = (x % 256) ∷ le_bytes n (x / 256)

-- `int.from_bytes(b, "little")`
unfoldable pub le_value : Bytes → ℕ
le_value [] = 0
le_value (b ∷ bs) = b + 256 * le_value bs

-- The first octet, which holds the length in its leading ones, and the low octets.
abbrev pub with_prefix : ℕ → ℕ → Bytes
with_prefix l x = (256 - 2 ^ (8 - l) + x / 2 ^ (8 * l)) ∷ le_bytes l (x % 2 ^ (8 * l))

-- The loop over the lengths that are left.
unfoldable pub enc_loop : List ℕ → ℕ → Bytes
unfolding le_bytes
enc_loop [] x = 255 ∷ le_bytes 8 x
enc_loop (l ∷ ls) x =
    let rest = enc_loop ls x in if ltb x (2 ^ (7 * (l + 1))) then with_prefix l x else rest

-- `range(8)`
abbrev pub lengths : List ℕ
lengths = 0 ∷ 1 ∷ 2 ∷ 3 ∷ 4 ∷ 5 ∷ 6 ∷ 7 ∷ []

unfoldable pub enc_nat : ℕ → Result Bytes
unfolding enc_loop
enc_nat x =
    if ltb x (2 ^ 64)
    then (if x == 0 then ok (0 ∷ []) else ok (enc_loop lengths x))
    else err out_of_range

-- `next(n for n in range(8) if not b & (0x80 >> n))`; the octet 255 is handled before.
unfoldable pub leading_ones : List ℕ → ℕ → ℕ
leading_ones [] b = 8
leading_ones (n ∷ ns) b =
    let rest = leading_ones ns b in if (b / 2 ^ (7 - n)) % 2 == 0 then n else rest

-- `buf[i:i + n]`
abbrev pub slice : Bytes → ℕ → ℕ → Bytes
slice buf i n = take n (drop i buf)

-- `buf[i]`, for an index in range.
abbrev pub byte_at : Bytes → ℕ → ℕ
byte_at [] i = 0
byte_at (b ∷ bs) zero = b
byte_at (b ∷ bs) (suc i) = byte_at bs i

abbrev pub same_bytes : Bytes → Bytes → Bool
same_bytes [] [] = true
same_bytes (a ∷ xs) (b ∷ bs) = a == b && same_bytes xs bs
same_bytes _ _ = false

-- `l` of `dec_nat`
abbrev pub rest_length : ℕ → ℕ
rest_length b = if b == 255 then 8 else leading_ones lengths b

-- `x` of `dec_nat`
abbrev pub nat_value : ℕ → ℕ → Bytes → ℕ
nat_value b l low = if l == 8 then le_value low else le_value low + b % 2 ^ (7 - l) * 2 ^ (8 * l)

-- The value is accepted only if it encodes to what was read.
unfoldable pub dec_nat : Bytes → ℕ → Result (ℕ × ℕ)
unfolding enc_nat leading_ones le_value
dec_nat buf i =
    let b = byte_at buf i in
    let l = rest_length b in
    let x = nat_value b l (slice buf (i + 1) l) in
    if leb (length buf) i
    then err truncated
    else if ltb (length buf) (i + 1 + l)
    then err truncated
    else bind_result (enc_nat x)
        (λ e. if same_bytes e (slice buf i (1 + l)) then ok (x, i + 1 + l) else err non_canonical)

-- `var`
unfoldable pub var : Bytes → Result Bytes
var blob = enc_nat (length blob) +++ ok blob

-- `_u`: `int.to_bytes` raises if the number does not fit.
unfoldable pub u : ℕ → ℕ → Result Bytes
u x n = if ltb x (256 ^ n) then ok (le_bytes n x) else err overflow

-- `_hash`
unfoldable pub hash32 : Bytes → Result Bytes
hash32 h = if length h == 32 then ok h else err wrong_length

-- `b"".join(f(x) for x in xs)`
unfoldable pub join_all {ℓ} : {A : Type ℓ} → (A → Result Bytes) → List A → Result Bytes
join_all f [] = ok []
join_all f (x ∷ xs) = f x +++ join_all f xs

-- `_Reader`
pub record Reader : Type 0 where
  pub buf : Bytes
  pub i : ℕ

-- A method of the reader that may raise.
abbrev pub Parser {ℓ} : Type ℓ → Type ℓ
Parser A = Reader → Result (A × Reader)

infixl 5 ◌>>=◌
abbrev pub ◌>>=◌ {ℓ κ} : {A : Type ℓ} {B : Type κ} → Parser A → (A → Parser B) → Parser B
◌>>=◌ m f r = bind_result (m r) (λ (a, r'). f a r')

abbrev pub pure {ℓ} : {A : Type ℓ} → A → Parser A
pure a r = ok (a, r)

-- `_Reader.take`
unfoldable pub take_bytes : ℕ → Parser Bytes
take_bytes n r =
    if ltb (length r.buf) (r.i + n)
    then err truncated
    else ok (slice r.buf r.i n, record r { i = r.i + n })

-- `_Reader.u`
unfoldable pub read_u : ℕ → Parser ℕ
read_u n = do bs ← take_bytes n; pure (le_value bs)

-- `_Reader.nat`
unfoldable pub read_nat : Parser ℕ
read_nat r = bind_result (dec_nat r.buf r.i) (λ (x, j). ok (x, record r { i = j }))

-- `_Reader.blob`
unfoldable pub read_blob : Parser Bytes
read_blob = do n ← read_nat; take_bytes n

-- `item(self) for _ in range(n)`
unfoldable pub repeat {ℓ} : {A : Type ℓ} → Parser A → ℕ → Parser (List A)
repeat item zero = pure []
repeat item (suc n) = do x ← item; xs ← repeat item n; pure (x ∷ xs)

-- `_Reader.seq`
unfoldable pub read_seq {ℓ} : {A : Type ℓ} → Parser A → Parser (List A)
read_seq item = do n ← read_nat; repeat item n

-- `_Reader.end`
unfoldable pub read_end : Parser (Unit {0})
read_end r = if r.i == length r.buf then ok (tt, r) else err trailing
