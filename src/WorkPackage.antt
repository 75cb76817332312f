-- ===== src/WorkPackage.antt =====
-- The work-package types of offchain/workpackage.py with their encoders and readers. Blake2b-256 is a
-- parameter of what uses it.
pub mod RoundTrip
pub mod Total
pub mod Examples
use jamswap.Prelude.{
  ℕ, ◌+◌, ◌/◌, ◌%◌, ◌^◌, Bool, true, false, not, ◌&&◌, ◌||◌, List, [], ◌∷◌, ◌++◌, length, ltb, ◌==◌,
  if◌then◌else◌,
}
use jamswap.Codec.{
  Bytes, Result, ok, err, out_of_range, no_items, bind_result, ◌+++◌, enc_nat, var, u, hash32,
  join_all, Reader, Parser, ◌>>=◌, pure, take_bytes, read_u, read_nat, read_blob, repeat, read_seq,
  read_end,
}

-- Python's order on byte strings.
abbrev pub bytes_le : Bytes → Bytes → Bool
bytes_le [] ys = true
bytes_le (x ∷ xs) [] = false
bytes_le (x ∷ xs) (y ∷ ys) = ltb x y || (x == y && bytes_le xs ys)

unfoldable pub insert_bytes : Bytes → List Bytes → List Bytes
insert_bytes x [] = x ∷ []
insert_bytes x (y ∷ ys) = if bytes_le x y then x ∷ y ∷ ys else y ∷ insert_bytes x ys

-- `sorted(...)` of byte strings.
unfoldable pub sort_bytes : List Bytes → List Bytes
unfolding insert_bytes
sort_bytes [] = []
sort_bytes (x ∷ xs) = insert_bytes x (sort_bytes xs)

-- `b"".join(bs)`
abbrev pub concat : List Bytes → Bytes
concat [] = []
concat (b ∷ bs) = b ++ concat bs

-- `_hash(p, "prerequisite") for p in ps`
unfoldable pub hash_all : List Bytes → Result (List Bytes)
unfolding hash32
hash_all [] = ok []
hash_all (p ∷ ps) = bind_result (hash32 p) (λ h. bind_result (hash_all ps) (λ hs. ok (h ∷ hs)))

-- `RefineContext`
pub record RefineContext : Type 0 where
  pub anchor : Bytes
  pub anchor_slot : ℕ
  pub state_root : Bytes
  pub beefy_root : Bytes
  pub lookup_anchor : Bytes
  pub lookup_anchor_slot : ℕ
  pub lookup_anchor_state_root : Bytes
  pub prerequisites : List Bytes

-- `RefineContext.encode`. The prerequisites are a set, which goes out sorted.
unfoldable pub encode_context : RefineContext → Result Bytes
encode_context c = bind_result (hash_all c.prerequisites) (λ hashes.
    let prereq = sort_bytes hashes in
    hash32 c.anchor
    +++ u c.anchor_slot 4
    +++ hash32 c.state_root
    +++ hash32 c.beefy_root
    +++ hash32 c.lookup_anchor
    +++ u c.lookup_anchor_slot 4
    +++ hash32 c.lookup_anchor_state_root
    +++ enc_nat (length prereq)
    +++ ok (concat prereq))

-- `RefineContext.read`
unfoldable pub read_context : Parser RefineContext
read_context = do
  anchor ← take_bytes 32
  anchor_slot ← read_u 4
  state_root ← take_bytes 32
  beefy_root ← take_bytes 32
  lookup_anchor ← take_bytes 32
  lookup_anchor_slot ← read_u 4
  lookup_anchor_state_root ← take_bytes 32
  prerequisites ← read_seq (take_bytes 32)
  pure (record {
    anchor = anchor;
    anchor_slot = anchor_slot;
    state_root = state_root;
    beefy_root = beefy_root;
    lookup_anchor = lookup_anchor;
    lookup_anchor_slot = lookup_anchor_slot;
    lookup_anchor_state_root = lookup_anchor_state_root;
    prerequisites = prerequisites;
  })

-- `ImportRef`
pub record ImportRef : Type 0 where
  pub root : Bytes
  pub index : ℕ
  pub by_package : Bool

-- `index | (by_package << 15)`: the index is below 2 ** 15, so the two do not overlap.
abbrev pub tagged_index : ImportRef → ℕ
tagged_index r = r.index + (if r.by_package then 2 ^ 15 else 0)

-- `ImportRef.encode`
unfoldable pub encode_import : ImportRef → Result Bytes
encode_import r =
    if ltb r.index (2 ^ 15) then hash32 r.root +++ u (tagged_index r) 2 else err out_of_range

-- `ImportRef.read`
unfoldable pub read_import : Parser ImportRef
read_import = do
  root ← take_bytes 32
  i ← read_u 2
  pure (record { root = root; index = i % 2 ^ 15; by_package = not (i / 2 ^ 15 == 0) })

-- `WorkItem`; an extrinsic is its hash and its length.
pub record WorkItem : Type 0 where
  pub service : ℕ
  pub code_hash : Bytes
  pub payload : Bytes
  pub refine_gas : ℕ
  pub accumulate_gas : ℕ
  pub export_count : ℕ
  pub imports : List ImportRef
  pub extrinsics : List (Bytes × ℕ)

abbrev pub encode_extrinsic : Bytes × ℕ → Result Bytes
encode_extrinsic (h, n) = hash32 h +++ u n 4

abbrev pub read_extrinsic : Parser (Bytes × ℕ)
read_extrinsic = do h ← take_bytes 32; n ← read_u 4; pure (h, n)

-- `WorkItem.encode`
unfoldable pub encode_item : WorkItem → Result Bytes
encode_item w =
    u w.service 4
    +++ hash32 w.code_hash
    +++ u w.refine_gas 8
    +++ u w.accumulate_gas 8
    +++ u w.export_count 2
    +++ var w.payload
    +++ (enc_nat (length w.imports) +++ join_all encode_import w.imports)
    +++ enc_nat (length w.extrinsics)
    +++ join_all encode_extrinsic w.extrinsics

-- `WorkItem.read`
unfoldable pub read_item : Parser WorkItem
read_item = do
  service ← read_u 4
  code_hash ← take_bytes 32
  refine_gas ← read_u 8
  accumulate_gas ← read_u 8
  export_count ← read_u 2
  payload ← read_blob
  imports ← read_seq read_import
  extrinsics ← read_seq read_extrinsic
  pure (record {
    service = service;
    code_hash = code_hash;
    payload = payload;
    refine_gas = refine_gas;
    accumulate_gas = accumulate_gas;
    export_count = export_count;
    imports = imports;
    extrinsics = extrinsics;
  })

-- `WorkPackage`
pub record WorkPackage : Type 0 where
  pub auth_code_host : ℕ
  pub auth_code_hash : Bytes
  pub context : RefineContext
  pub items : List WorkItem
  pub authorization : Bytes
  pub authorizer_config : Bytes

-- `WorkPackage.encode`
unfoldable pub encode : WorkPackage → Result Bytes
encode p =
    if length p.items == 0
    then err no_items
    else u p.auth_code_host 4
      +++ hash32 p.auth_code_hash
      +++ encode_context p.context
      +++ var p.authorization
      +++ var p.authorizer_config
      +++ enc_nat (length p.items)
      +++ join_all encode_item p.items

-- `WorkPackage.decode` up to `r.end()`.
unfoldable pub read_parts : Parser WorkPackage
read_parts = do
  host ← read_u 4
  code_hash ← take_bytes 32
  ctx ← read_context
  token ← read_blob
  config ← read_blob
  items ← read_seq read_item
  pure (record {
    auth_code_host = host;
    auth_code_hash = code_hash;
    context = ctx;
    items = items;
    authorization = token;
    authorizer_config = config;
  })

-- `WorkPackage.decode`
unfoldable pub decode : Bytes → Result WorkPackage
decode blob =
    bind_result ((do p ← read_parts; ended ← read_end; pure p) (record { buf = blob; i = 0 }))
      (λ (p, r). ok p)

-- `Authorizer`
pub record Authorizer : Type 0 where
  pub host : ℕ
  pub code_hash : Bytes
  pub config : Bytes
  pub token : Bytes

-- `WorkPackage.build`
unfoldable pub build : Authorizer → RefineContext → List WorkItem → WorkPackage
build a context items = record {
  auth_code_host = a.host;
  auth_code_hash = a.code_hash;
  context = context;
  items = items;
  authorization = a.token;
  authorizer_config = a.config;
}

module _ (blake2b256 : Bytes → Bytes) where
  -- `Authorizer.hash`
  unfoldable pub authorizer_hash : Authorizer → Result Bytes
  unfolding hash32
  authorizer_hash a = bind_result (hash32 a.code_hash) (λ h. ok (blake2b256 (h ++ a.config)))

  -- `WorkPackage.authorizer`
  unfoldable pub package_authorizer : WorkPackage → Bytes
  package_authorizer p = blake2b256 (p.auth_code_hash ++ p.authorizer_config)

  -- `WorkPackage.hash`
  unfoldable pub package_hash : WorkPackage → Result Bytes
  unfolding encode
  package_hash p = bind_result (encode p) (λ bs. ok (blake2b256 bs))
