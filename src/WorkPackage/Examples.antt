-- ===== src/WorkPackage/Examples.antt =====
-- A work package with one import and one extrinsic, and the identity of its authorizer.
use jamswap.Prelude.{arith, ℕ, zero, suc, ◌≡◌, refl, true, [], ◌∷◌}
use jamswap.Codec.{Bytes, Result, ok, err, enc_nat, u, hash32, var, join_all}
use jamswap.WorkPackage.{
  RefineContext, WorkItem, WorkPackage, encode, decode, Authorizer, build, encode_context, hash_all,
  encode_item, encode_import, sort_bytes,
}
use jamswap.WorkPackage.Total.{IsItem, IsContext, IsPackage, encode_total}
use jamswap.WorkPackage.RoundTrip.{normal_form}

abbrev repeated : ℕ → ℕ → Bytes
repeated zero b = []
repeated (suc n) b = b ∷ repeated n b

abbrev context : RefineContext
context = record {
  anchor = repeated 32 1;
  anchor_slot = 77;
  state_root = repeated 32 2;
  beefy_root = repeated 32 3;
  lookup_anchor = repeated 32 4;
  lookup_anchor_slot = 70;
  lookup_anchor_state_root = repeated 32 5;
  prerequisites = repeated 32 9 ∷ repeated 32 8 ∷ [];
}

abbrev item : WorkItem
item = record {
  service = 1000;
  code_hash = repeated 32 6;
  payload = 1 ∷ 2 ∷ 3 ∷ [];
  refine_gas = 1_000_000;
  accumulate_gas = 500_000;
  export_count = 1;
  imports = record { root = repeated 32 7; index = 3; by_package = true } ∷ [];
  extrinsics = (repeated 32 10, 40) ∷ [];
}

abbrev authorizer : Authorizer
authorizer = record { host = 0; code_hash = repeated 32 11; config = []; token = 5 ∷ [] }

abbrev work : WorkPackage
work = build authorizer context (item ∷ [])

-- What `encode` writes, when it does.
abbrev written : Result Bytes → Bytes
written (ok bs) = bs
written (err e) = []

package_encodes : encode work ≡ ok (written (encode work))
unfolding encode encode_context hash_all encode_item encode_import sort_bytes enc_nat u hash32 var
    build join_all
package_encodes = refl

item-IsItem : IsItem item
item-IsItem = record {
  service = omega arith;
  code_hash = refl;
  refine_gas = omega arith;
  accumulate_gas = omega arith;
  export_count = omega arith;
  payload = omega arith;
  import_count = omega arith;
  imports = ((omega arith, refl), tt);
  extrinsic_count = omega arith;
  extrinsics = ((refl, omega arith), tt);
}

context-IsContext : IsContext context
context-IsContext = record {
  anchor = refl;
  anchor_slot = omega arith;
  state_root = refl;
  beefy_root = refl;
  lookup_anchor = refl;
  lookup_anchor_slot = omega arith;
  lookup_anchor_state_root = refl;
  prerequisite_count = omega arith;
  prerequisites = (refl, (refl, tt));
}

work-IsPackage : IsPackage work
unfolding build
work-IsPackage = record {
  auth_code_host = omega arith;
  auth_code_hash = refl;
  context = context-IsContext;
  authorization = omega arith;
  authorizer_config = omega arith;
  some_item = omega arith;
  item_count = omega arith;
  items = (item-IsItem, tt);
}

encode_total_example : (bs : Bytes) × (encode work ≡ ok bs) × (decode bs ≡ ok (normal_form work))
encode_total_example = encode_total work work-IsPackage
