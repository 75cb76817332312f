-- ===== src/Codec/Examples.antt =====
-- Runs of the codec of offchain/workpackage.py.
use jamswap.Prelude.{◌+◌, ◌-◌, ◌^◌, ◌≡◌, refl, ◌≤◌, ◌<◌, [], ◌∷◌, ◌++◌, length}
use jamswap.Codec.{Bytes, ok, err, out_of_range, enc_nat, dec_nat, slice}
use jamswap.Codec.Natural.{dec_nat-enc_nat, enc_nat_total}
use jamswap.Codec.Canonical.{dec_nat_canonical}

abbrev pub buffer : Bytes
buffer = 7 ∷ 129 ∷ 44 ∷ 9 ∷ []

enc_nat_300 : enc_nat 300 ≡ ok (129 ∷ 44 ∷ [])
unfolding enc_nat
enc_nat_300 = refl

pub dec_nat_300 : dec_nat buffer 1 ≡ ok (300, 3)
unfolding dec_nat enc_nat
dec_nat_300 = refl

dec_nat-enc_nat_example : dec_nat ((7 ∷ []) ++ ((129 ∷ 44 ∷ []) ++ (9 ∷ []))) 1 ≡ ok (300, 1 + 2)
dec_nat-enc_nat_example = dec_nat-enc_nat (7 ∷ []) (9 ∷ []) (129 ∷ 44 ∷ []) 300 enc_nat_300

dec_nat_canonical_example :
    (enc_nat 300 ≡ ok (slice buffer 1 (3 - 1))) × (1 < 3) × (3 ≤ length buffer)
dec_nat_canonical_example = dec_nat_canonical buffer 1 300 3 dec_nat_300

enc_nat_total_example :
    (300 < 2 ^ 64 → (e : Bytes) × (enc_nat 300 ≡ ok e) × (1 ≤ length e) × (length e ≤ 9))
    × (2 ^ 64 ≤ 300 → enc_nat 300 ≡ err out_of_range)
enc_nat_total_example = enc_nat_total 300
