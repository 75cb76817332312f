-- ===== src/Netwatch.antt =====
-- The general natural as offchain/netwatch.py reads it, `decode_nat`. An exception is `none`.
pub mod Reads
pub mod Head
pub mod OneHead
pub mod Examples
use jamswap.Prelude.{
  ℕ, zero, suc, ◌+◌, ◌-◌, ◌*◌, ◌/◌, ◌%◌, ◌^◌, Option, some, none, length, ltb, leb, ◌==◌,
  if◌then◌else◌,
}
use jamswap.Codec.{Bytes, le_value, slice, byte_at}

-- `int.bit_length`, for a number below 2 ** fuel.
abbrev pub bits_within : ℕ → ℕ → ℕ
bits_within zero x = 0
bits_within (suc fuel) x = let rest = bits_within fuel (x / 2) in if x == 0 then 0 else suc rest

-- `8 - (b ^ 0xFF).bit_length()`: an octet's complement is 255 less the octet.
abbrev pub ones : ℕ → ℕ
ones b = 8 - bits_within 8 (255 - b)

-- `decode_nat`; an index out of range raises too.
unfoldable pub decode_nat : Bytes → ℕ → Option (ℕ × ℕ)
decode_nat buf i =
    let b = byte_at buf i in
    let n = ones b in
    if leb (length buf) i
    then none
    else if n == 8
    then some (le_value (slice buf (i + 1) 8), i + 9)
    else if ltb (length buf) (i + 1 + n)
    then none
    else some (b % 2 ^ (7 - n) * 2 ^ (8 * n) + le_value (slice buf (i + 1) n), i + 1 + n)
