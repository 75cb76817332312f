-- ===== src/WorkPackage/Total.antt =====
-- When `WorkPackage.encode` of offchain/workpackage.py writes a package: the ranges of its fields.
use jamswap.Prelude.{
  ℕ, suc, ◌^◌, ◌≡◌, refl, ◌<◌, true, false, List, [], ◌∷◌, ◌++◌, arith, length, ltb, ◌==◌, All,
}
use jamswap.Codec.{Bytes, Result, ok, ◌+++◌, le_bytes, enc_nat, var, u, hash32, join_all}
use jamswap.Codec.Natural.{enc_nat_total}
use jamswap.WorkPackage.{
  insert_bytes, sort_bytes, concat, hash_all, RefineContext, encode_context, ImportRef,
  tagged_index, encode_import, WorkItem, encode_extrinsic, encode_item, WorkPackage, encode, decode,
}
use jamswap.WorkPackage.RoundTrip.{hash32_ok, normal_form, decode-encode}

-- An encoding that does not raise.
abbrev Writes : Result Bytes → Type 0
Writes r = (bs : Bytes) × (r ≡ ok bs)

Writes-both : (r s : Result Bytes) → Writes r → Writes s → Writes (r +++ s)
Writes-both r s (a, e) (b, f) = (a ++ b, rw (e, f) refl)

Writes-u : (x n : ℕ) → x < 256 ^ n → Writes (u x n)
Writes-u x n h = (le_bytes n x, unfold u in ground arith)

Writes-hash : (h : Bytes) → length h ≡ 32 → Writes (hash32 h)
Writes-hash h e = (h, hash32_ok h e)

Writes-nat : (x : ℕ) → x < 2 ^ 64 → Writes (enc_nat x)
Writes-nat x h = let (e, f, _, _) = (enc_nat_total x).0 h in (e, f)

Writes-var : (b : Bytes) → length b < 2 ^ 64 → Writes (var b)
unfolding var
Writes-var b h = Writes-both (enc_nat (length b)) (ok b) (Writes-nat (length b) h) (b, refl)

Writes-All {ℓ} :
    {A : Type ℓ} {P : A → Type 0} (f : A → Result Bytes)
    → ((x : A) → P x → Writes (f x))
    → (xs : List A) → All P xs
    → Writes (join_all f xs)
unfolding join_all
Writes-All f each [] a = ([], refl)
Writes-All f each (x ∷ xs) (p, a) =
    Writes-both (f x) (join_all f xs) (each x p) (Writes-All f each xs a)

-- The ranges of an import, an extrinsic, an item, a context and a package.
abbrev pub IsImport : ImportRef → Type 0
IsImport r = (r.index < 2 ^ 15) × (length r.root ≡ 32)

abbrev pub IsExtrinsic : Bytes × ℕ → Type 0
IsExtrinsic (h, n) = (length h ≡ 32) × (n < 256 ^ 4)

pub record IsItem (w : WorkItem) : Type 0 where
  pub service : w.service < 256 ^ 4
  pub code_hash : length w.code_hash ≡ 32
  pub refine_gas : w.refine_gas < 256 ^ 8
  pub accumulate_gas : w.accumulate_gas < 256 ^ 8
  pub export_count : w.export_count < 256 ^ 2
  pub payload : length w.payload < 2 ^ 64
  pub import_count : length w.imports < 2 ^ 64
  pub imports : All IsImport w.imports
  pub extrinsic_count : length w.extrinsics < 2 ^ 64
  pub extrinsics : All IsExtrinsic w.extrinsics

pub record IsContext (c : RefineContext) : Type 0 where
  pub anchor : length c.anchor ≡ 32
  pub anchor_slot : c.anchor_slot < 256 ^ 4
  pub state_root : length c.state_root ≡ 32
  pub beefy_root : length c.beefy_root ≡ 32
  pub lookup_anchor : length c.lookup_anchor ≡ 32
  pub lookup_anchor_slot : c.lookup_anchor_slot < 256 ^ 4
  pub lookup_anchor_state_root : length c.lookup_anchor_state_root ≡ 32
  pub prerequisite_count : length c.prerequisites < 2 ^ 64
  pub prerequisites : All (λ p. length p ≡ 32) c.prerequisites

pub record IsPackage (p : WorkPackage) : Type 0 where
  pub auth_code_host : p.auth_code_host < 256 ^ 4
  pub auth_code_hash : length p.auth_code_hash ≡ 32
  pub context : IsContext p.context
  pub authorization : length p.authorization < 2 ^ 64
  pub authorizer_config : length p.authorizer_config < 2 ^ 64
  pub some_item : 0 < length p.items
  pub item_count : length p.items < 2 ^ 64
  pub items : All IsItem p.items

tagged_index-lt : (r : ImportRef) → r.index < 2 ^ 15 → tagged_index r < 256 ^ 2
tagged_index-lt r h = ground arith

Writes-import : (r : ImportRef) → IsImport r → Writes (encode_import r)
unfolding encode_import
Writes-import r (small, root) =
    let fits : ltb r.index (2 ^ 15) ≡ true = ground arith in
    rw fits (
      Writes-both (hash32 r.root) (u (tagged_index r) 2) (Writes-hash r.root root)
        (Writes-u (tagged_index r) 2 (tagged_index-lt r small)))

Writes-extrinsic : (x : Bytes × ℕ) → IsExtrinsic x → Writes (encode_extrinsic x)
Writes-extrinsic (h, n) (e, small) =
    Writes-both (hash32 h) (u n 4) (Writes-hash h e) (Writes-u n 4 small)

Writes-item : (w : WorkItem) → IsItem w → Writes (encode_item w)
unfolding encode_item
Writes-item w i = Writes-both _ _ (Writes-u w.service 4 i.service) (
    Writes-both _ _ (Writes-hash w.code_hash i.code_hash) (
      Writes-both _ _ (Writes-u w.refine_gas 8 i.refine_gas) (
        Writes-both _ _ (Writes-u w.accumulate_gas 8 i.accumulate_gas) (
          Writes-both _ _ (Writes-u w.export_count 2 i.export_count) (
            Writes-both _ _ (Writes-var w.payload i.payload) (
              Writes-both _ _
                (Writes-both _ _ (Writes-nat (length w.imports) i.import_count)
                  (Writes-All encode_import Writes-import w.imports i.imports))
                (Writes-both _ _ (Writes-nat (length w.extrinsics) i.extrinsic_count)
                  (Writes-All encode_extrinsic Writes-extrinsic w.extrinsics i.extrinsics))))))))

hash_all_ok : (ps : List Bytes) → All (λ p. length p ≡ 32) ps → hash_all ps ≡ ok ps
unfolding hash_all
hash_all_ok [] a = refl
hash_all_ok (p ∷ ps) (h, a) = rw (hash32_ok p h, hash_all_ok ps a) refl

length-insert_bytes : (x : Bytes) (ys : List Bytes) → length (insert_bytes x ys) ≡ suc (length ys)
unfolding insert_bytes
length-insert_bytes x [] = refl
length-insert_bytes x (y ∷ ys) = ground (arith, length-insert_bytes x ys)

length-sort_bytes : (xs : List Bytes) → length (sort_bytes xs) ≡ length xs
unfolding sort_bytes
length-sort_bytes [] = refl
length-sort_bytes (x ∷ xs) =
    omega (arith, length-insert_bytes x (sort_bytes xs), length-sort_bytes xs)

Writes-context : (c : RefineContext) → IsContext c → Writes (encode_context c)
unfolding encode_context
Writes-context c i = rw (hash_all_ok c.prerequisites i.prerequisites) (
    Writes-both _ _ (Writes-hash c.anchor i.anchor) (
      Writes-both _ _ (Writes-u c.anchor_slot 4 i.anchor_slot) (
        Writes-both _ _ (Writes-hash c.state_root i.state_root) (
          Writes-both _ _ (Writes-hash c.beefy_root i.beefy_root) (
            Writes-both _ _ (Writes-hash c.lookup_anchor i.lookup_anchor) (
              Writes-both _ _ (Writes-u c.lookup_anchor_slot 4 i.lookup_anchor_slot) (
                Writes-both _ _ (Writes-hash c.lookup_anchor_state_root i.lookup_anchor_state_root)
                  (Writes-both _ _
                    (Writes-nat (length (sort_bytes c.prerequisites))
                      (omega (arith, length-sort_bytes c.prerequisites, i.prerequisite_count)))
                    (concat (sort_bytes c.prerequisites), refl)))))))))

Writes-package : (p : WorkPackage) → IsPackage p → Writes (encode p)
unfolding encode
Writes-package p i =
    let some_item : (length p.items == 0) ≡ false = ground (arith, i.some_item) in
    rw some_item (
      Writes-both _ _ (Writes-u p.auth_code_host 4 i.auth_code_host) (
        Writes-both _ _ (Writes-hash p.auth_code_hash i.auth_code_hash) (
          Writes-both _ _ (Writes-context p.context i.context) (
            Writes-both _ _ (Writes-var p.authorization i.authorization) (
              Writes-both _ _ (Writes-var p.authorizer_config i.authorizer_config) (
                Writes-both _ _ (Writes-nat (length p.items) i.item_count)
                  (Writes-All encode_item Writes-item p.items i.items)))))))

-- A package with every field in its range, and at least one item, is written, and decodes to itself with
-- the prerequisites of its context in ascending order.
pub encode_total :
    (p : WorkPackage)
    → IsPackage p
    → (bs : Bytes) × (encode p ≡ ok bs) × (decode bs ≡ ok (normal_form p))
encode_total p i = let (bs, e) = Writes-package p i in (bs, e, decode-encode p bs e)
