-- ===== src/WorkPackage/RoundTrip.antt =====
-- `WorkPackage.decode` of offchain/workpackage.py reads back what `WorkPackage.encode` wrote.
use jamswap.Prelude.{
  ℕ, ◌/◌, ◌%◌, ◌^◌, ◌≡◌, refl, ◌<◌, ◌⊎◌, inl, inr, Bool, true, false, not, List, [], ◌∷◌, arith,
  length, ltb, ◌==◌, if◌then◌else◌, Bool-cases, All, ltb→lt,
}
use mathlib.Core.Path.{subst}
use mathlib.Core.List.{append-nil}
use jamswap.Codec.{
  Bytes, Error, Result, ok, err, out_of_range, ◌+++◌, enc_nat, var, u, hash32, join_all, Parser,
  ◌>>=◌, pure, take_bytes, read_u, read_end,
}
use jamswap.Codec.Wire.{Wire, Wire-bind, Wire-last, Wire-hash, Wire-u, Wire-var, Wire-seq}
use jamswap.WorkPackage.{
  bytes_le, insert_bytes, sort_bytes, concat, hash_all, RefineContext, encode_context, read_context,
  ImportRef, tagged_index, encode_import, read_import, WorkItem, encode_extrinsic, read_extrinsic,
  encode_item, read_item, WorkPackage, encode, read_parts, decode,
}

-- An encoder behind a guard.
Wire-guard {ℓ} :
    {A : Type ℓ} (b : Bool) (r : Result Bytes) (e : Error) {m : Parser A} {a : A}
    → (b ≡ true → Wire r m a)
    → Wire (if b then r else err e) m a
Wire-guard true r e w = w refl
Wire-guard false r e w = record { reads = λ bs h. absurd (cc) }

-- The record that `ImportRef.read` makes of a root and an index.
abbrev import_of : Bytes → ℕ → ImportRef
import_of root i = record { root = root; index = i % 2 ^ 15; by_package = not (i / 2 ^ 15 == 0) }

import_of-tagged_index : (r : ImportRef) → r.index < 2 ^ 15 → import_of r.root (tagged_index r) ≡ r
import_of-tagged_index r h = elim (Bool-cases r.by_package) [
  | inl by ↦ ground arith
  | inr direct ↦ ground arith
]

Result-cases {ℓ} :
    {A : Type ℓ} (r : Result A) → ((a : A) × (r ≡ ok a)) ⊎ ((e : Error) × (r ≡ err e))
Result-cases (ok a) = inl (a, refl)
Result-cases (err e) = inr (e, refl)

pub hash32_ok : (x : Bytes) → length x ≡ 32 → hash32 x ≡ ok x
unfolding hash32
hash32_ok x h = ground arith

Wire-index :
    (r : ImportRef)
    → r.index < 2 ^ 15
    → Wire (u (tagged_index r) 2) (read_u 2 >>= λ i. pure (import_of r.root i)) r
Wire-index r h =
    subst (λ v. Wire (u (tagged_index r) 2) (read_u 2 >>= λ i. pure (import_of r.root i)) v)
      (import_of-tagged_index r h) (Wire-last (import_of r.root) (Wire-u 2 (tagged_index r)))

Wire-import : (r : ImportRef) → Wire (encode_import r) read_import r
unfolding encode_import read_import
Wire-import r =
    Wire-guard (ltb r.index (2 ^ 15)) (hash32 r.root +++ u (tagged_index r) 2) out_of_range
      λ fits. Wire-bind _ (Wire-hash r.root) (Wire-index r (ltb→lt _ _ fits))

Wire-extrinsic : (x : Bytes × ℕ) → Wire (encode_extrinsic x) read_extrinsic x
Wire-extrinsic (h, n) = Wire-bind _ (Wire-hash h) (Wire-last (λ k. (h, k)) (Wire-u 4 n))

Wire-item : (w : WorkItem) → Wire (encode_item w) read_item w
unfolding encode_item read_item
Wire-item w = Wire-bind _ (Wire-u 4 w.service) (
    Wire-bind _ (Wire-hash w.code_hash) (
      Wire-bind _ (Wire-u 8 w.refine_gas) (
        Wire-bind _ (Wire-u 8 w.accumulate_gas) (
          Wire-bind _ (Wire-u 2 w.export_count) (
            Wire-bind _ (Wire-var w.payload) (
              Wire-bind _ (Wire-seq encode_import read_import Wire-import w.imports) (
                Wire-last _
                  (Wire-seq encode_extrinsic read_extrinsic Wire-extrinsic w.extrinsics))))))))

-- The hashes that were all of the right length come out as they are.
hash_all_inv : (ps hs : List Bytes) → hash_all ps ≡ ok hs → (hs ≡ ps) × All (λ p. length p ≡ 32) ps
unfolding hash_all hash32
hash_all_inv [] hs h = (cc, tt)
hash_all_inv (p ∷ ps) hs h = elim (Bool-cases (length p == 32)) [
  | inr other ↦ absurd (ground arith)
  | inl fits ↦ elim (Result-cases (hash_all ps)) [
    | inr (e, bad) ↦ absurd (ground arith)
    | inl (qs, e) ↦ let (same, all) = hash_all_inv ps qs e in (ground arith, (ground arith, all))
  ]
]

All-insert_bytes :
    (P : Bytes → Type 0) (x : Bytes) (ys : List Bytes) → P x → All P ys → All P (insert_bytes x ys)
unfolding insert_bytes
All-insert_bytes P x [] p a = (p, tt)
All-insert_bytes P x (y ∷ ys) p (q, a) = elim (Bool-cases (bytes_le x y)) [
  | inl before ↦ rw before (p, (q, a))
  | inr after ↦ rw after (q, All-insert_bytes P x ys p a)
]

All-sort_bytes : (P : Bytes → Type 0) (xs : List Bytes) → All P xs → All P (sort_bytes xs)
unfolding sort_bytes
All-sort_bytes P [] a = tt
All-sort_bytes P (x ∷ xs) (p, a) = All-insert_bytes P x (sort_bytes xs) p (All-sort_bytes P xs a)

concat-join_all :
    (xs : List Bytes) → All (λ p. length p ≡ 32) xs → join_all hash32 xs ≡ ok (concat xs)
unfolding join_all
concat-join_all [] a = refl
concat-join_all (x ∷ xs) (h, a) = rw (hash32_ok x h, concat-join_all xs a)

-- A context comes back with its prerequisites in order.
abbrev pub normalised : RefineContext → RefineContext
normalised c = record c { prerequisites = sort_bytes c.prerequisites }

Wire-fields :
    (c : RefineContext)
    → Wire
        (hash32 c.anchor
          +++ u c.anchor_slot 4
          +++ hash32 c.state_root
          +++ hash32 c.beefy_root
          +++ hash32 c.lookup_anchor
          +++ u c.lookup_anchor_slot 4
          +++ hash32 c.lookup_anchor_state_root
          +++ enc_nat (length c.prerequisites)
          +++ join_all hash32 c.prerequisites)
        read_context
        c
unfolding read_context
Wire-fields c = Wire-bind _ (Wire-hash c.anchor) (
    Wire-bind _ (Wire-u 4 c.anchor_slot) (
      Wire-bind _ (Wire-hash c.state_root) (
        Wire-bind _ (Wire-hash c.beefy_root) (
          Wire-bind _ (Wire-hash c.lookup_anchor) (
            Wire-bind _ (Wire-u 4 c.lookup_anchor_slot) (
              Wire-bind _ (Wire-hash c.lookup_anchor_state_root)
                (Wire-last _ (Wire-seq hash32 (take_bytes 32) Wire-hash c.prerequisites))))))))

Wire-context : (c : RefineContext) → Wire (encode_context c) read_context (normalised c)
unfolding encode_context
Wire-context c = record {
  reads = λ bs h. elim (Result-cases (hash_all c.prerequisites)) [
    | inr (e, bad) ↦ absurd (cc (rw bad at h))
    | inl (hs, e) ↦
        let (same, all) = hash_all_inv c.prerequisites hs e in
        let sorted = sort_bytes c.prerequisites in
        let joined = concat-join_all sorted (All-sort_bytes _ c.prerequisites all) in
        (Wire-fields (normalised c)).reads bs (rw joined (rw (e, same) at h))
  ];
}

-- A package comes back with its context's prerequisites in order.
abbrev pub normal_form : WorkPackage → WorkPackage
normal_form p = record p { context = normalised p.context }

Wire-package :
    (p : WorkPackage)
    → Wire
        (u p.auth_code_host 4
          +++ hash32 p.auth_code_hash
          +++ encode_context p.context
          +++ var p.authorization
          +++ var p.authorizer_config
          +++ enc_nat (length p.items)
          +++ join_all encode_item p.items)
        read_parts
        (normal_form p)
unfolding read_parts
Wire-package p = Wire-bind _ (Wire-u 4 p.auth_code_host) (
    Wire-bind _ (Wire-hash p.auth_code_hash) (
      Wire-bind _ (Wire-context p.context) (
        Wire-bind _ (Wire-var p.authorization) (
          Wire-bind _ (Wire-var p.authorizer_config)
            (Wire-last _ (Wire-seq encode_item read_item Wire-item p.items))))))

at_end :
    (bs : Bytes)
    → read_end (record { buf = bs; i = length bs }) ≡ ok (tt, record { buf = bs; i = length bs })
unfolding read_end
at_end bs = ground arith

-- The whole of an encoding decodes to the package that was encoded, with the prerequisites of its
-- context, which are a set, in ascending order.
pub decode-encode :
    (p : WorkPackage) (bs : Bytes) → encode p ≡ ok bs → decode bs ≡ ok (normal_form p)
unfolding encode decode
decode-encode p bs h = elim (Bool-cases (length p.items == 0)) [
  | inl empty ↦ absurd (cc (rw empty at h))
  | inr some_item ↦
      let r = ((Wire-package p).reads bs (rw some_item at h)).run [] [] in
      let whole : read_parts (record { buf = bs; i = 0 })
          ≡ ok (normal_form p, record { buf = bs; i = length bs }) =
        rw append-nil at r in
      rw (whole, at_end bs)
]
