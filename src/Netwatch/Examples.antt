-- ===== src/Netwatch/Examples.antt =====
-- Runs of offchain/netwatch.py.
use jamswap.Prelude.{ℕ, [], ◌∷◌, Option, some, refl, ◌≡◌, ◌↔◌, true, false, none, arith}
use jamswap.Codec.{Bytes, le_value}
use jamswap.Codec.Examples.{buffer, dec_nat_300}
use jamswap.Netwatch.{decode_nat}
use jamswap.Netwatch.Head.{Reading, Sample, best_of, judge_sample}
use jamswap.Netwatch.OneHead.{IsOneHead, judge_sample_iff}
use jamswap.Netwatch.Reads.{decode_nat-dec_nat}

decode_nat-dec_nat_example : decode_nat buffer 1 ≡ some (300, 3)
decode_nat-dec_nat_example = decode_nat-dec_nat buffer 1 300 3 (omega arith) dec_nat_300

abbrev cut_off : Bytes
cut_off = 255 ∷ 7 ∷ []

cut_off_read : decode_nat cut_off 0 ≡ some (7, 9)
unfolding decode_nat le_value
cut_off_read = refl

abbrev at_slot : ℕ → ℕ → Option ℕ → Option ℕ → Reading
at_slot name slot hash height = record {
  name = name;
  up = true;
  best = some (record { slot = slot; hash = hash; height = height });
}

-- Two nodes on one hash, one of them a slot behind, and a node read by its height.
abbrev together : Sample
together = record {
  nodes =
      at_slot 1 41 (some 5) none ∷ at_slot 2 40 (some 4) none ∷ at_slot 3 41 none (some 12) ∷ [];
  blocks = (1, some 4) ∷ (2, some 4) ∷ [];
}

-- The same nodes on two hashes at the common slot.
abbrev forked : Sample
forked = record together { blocks = (1, some 4) ∷ (2, some 6) ∷ [] }

together_ok : (judge_sample together 3).ok ≡ true
unfolding judge_sample best_of
together_ok = refl

forked_split : (judge_sample forked 3).ok ≡ false
unfolding judge_sample best_of
forked_split = refl

judge_sample_iff_example : ((judge_sample together 3).ok ≡ true) ↔ IsOneHead together 3
judge_sample_iff_example = judge_sample_iff together 3
