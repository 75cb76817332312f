-- ===== src/Server/Oldest.antt =====
-- `_cap_batch` of offchain/server.py never batches an account's newer public order while an older one
-- waits.
use mathlib.Core.Path.{subst}
use jamswap.Prelude.{
  ℕ, ◌≡◌, sym, ap, ◌⊎◌, inl, inr, ◌≤◌, ◌<◌, true, false, not, Option, List, [], ◌∷◌, map, arith,
  filter, All-In, In, In-filter, In-filter_inv, In-append_left, In-append_right, In-append,
  Bool-cases,
}
use jamswap.Order.{Order}
use jamswap.Clearing.Sorting.{IsSorted}
use jamswap.Round.{has, tag_of}
use jamswap.Round.Batches.{has-tags}
use jamswap.Server.{Filling, pass, take, room, after_room, fill_batch, cap_batch, redeal, seq_first}
use jamswap.Server.Cap.{fill_batch-room, Room-cases, sum_gas, cap_batch_bounds}
use jamswap.Server.Dealt.{is_of, seq_first-IsOrdering, redeal-IsSorted}

module _ (cap : ℕ) (gas : Order → ℕ) (budget : ℕ) (sealed_cap : Option ℕ) where
  -- What the batch holds stays in it.
  fill_batch-keeps :
      (x : Order) (os : List Order) (f : Filling)
      → In x f.batch
      → In x (fill_batch cap gas budget sealed_cap os f).batch
  fill_batch-keeps x [] f m = unfold fill_batch in m
  fill_batch-keeps x (o ∷ os) f m = elim (Room-cases (room cap gas budget sealed_cap f o)) [
    | inl stops ↦ rw (fill_batch-room cap gas budget sealed_cap o os f stops) m
    | inr (inl passes) ↦
        rw (fill_batch-room cap gas budget sealed_cap o os f passes) (fill_batch-keeps x os f m)
    | inr (inr takes) ↦ rw (fill_batch-room cap gas budget sealed_cap o os f takes) (
        fill_batch-keeps x os (after_room cap gas budget sealed_cap take f o)
          (In-append_left x f.batch (o ∷ []) m))
  ]

  passed_dear :
      (f : Filling) (o : Order) → room cap gas budget sealed_cap f o ≡ pass → budget < gas o
  unfolding room
  passed_dear f o h = ground arith

  abbrev Sorted : ℕ → List Order → Type 0
  Sorted a os = IsSorted seq_first seq_first-IsOrdering (filter (is_of a) os)

  Sorted-tail : (a : ℕ) (o : Order) (os : List Order) → Sorted a (o ∷ os) → Sorted a os
  Sorted-tail a o os s = elim (Bool-cases (is_of a o)) [
    | inl own ↦ (rw own at s).1
    | inr other ↦ rw other at s
  ]

  first_oldest :
      (a : ℕ) (o x : Order) (os : List Order)
      → Sorted a (o ∷ os)
      → is_of a o ≡ true
      → is_of a x ≡ true
      → In x os
      → o.seq ≤ x.seq
  first_oldest a o x os s own_o own_x m =
      let order =
        All-In (λ z. seq_first o z ≡ true) x (filter (is_of a) os) (rw own_o at s).0
          (In-filter (is_of a) x os m own_x) in
      ground arith

  module _ (a : ℕ) (o x : Order) (own_o : is_of a o ≡ true) (own_x : is_of a x ≡ true)
      (cheap : gas x ≤ budget) where
    older_first :
        (os : List Order) (f : Filling)
        → Sorted a os
        → In x os
        → ¬ (In x (fill_batch cap gas budget sealed_cap os f).batch)
        → In o (fill_batch cap gas budget sealed_cap os f).batch
        → In o f.batch ⊎ (o.seq ≤ x.seq)
    older_first [] f s m waits k = elim m [ ]
    older_first (y ∷ ys) f s m waits k = elim (Room-cases (room cap gas budget sealed_cap f y)) [
      | inl stops ↦ inl (rw (fill_batch-room cap gas budget sealed_cap y ys f stops) at k)
      | inr (inl passes) ↦
          let e = fill_batch-room cap gas budget sealed_cap y ys f passes in
          elim m [
            | inl same ↦
                let dear =
                  subst (λ (z : Order). budget < gas z) (sym same) (passed_dear f y passes) in
                absurd (omega arith)
            | inr later ↦ older_first ys f (Sorted-tail a y ys s) later (rw e at waits) (rw e at k)
          ]
      | inr (inr takes) ↦
          let e = fill_batch-room cap gas budget sealed_cap y ys f takes in
          let g = after_room cap gas budget sealed_cap take f y in
          elim m [
            | inl same ↦ absurd (
                waits
                  (rw e (fill_batch-keeps x ys g (In-append_right x f.batch (y ∷ []) (inl same)))))
            | inr later ↦
                elim (older_first ys g (Sorted-tail a y ys s) later (rw e at waits) (rw e at k)) [
                  | inr le ↦ inr le
                  | inl here ↦ elim (In-append o f.batch (y ∷ []) here) [
                    | inl old ↦ inl old
                    | inr (inr never) ↦ elim never [ ]
                    | inr (inl same) ↦
                        let own_y = subst (λ z. is_of a z ≡ true) same own_o in
                        inr (
                          subst (λ (z : Order). z.seq ≤ x.seq) (sym same)
                            (first_oldest a y x ys s own_y own_x later))
                  ]
                ]
          ]
    ]

  gas_part : (o : Order) (os : List Order) → In o os → gas o ≤ sum_gas gas os
  gas_part o [] m = elim m [ ]
  gas_part o (x ∷ xs) (inl e) = let same = ap gas e in omega arith
  gas_part o (x ∷ xs) (inr m) = omega (arith, gas_part o xs m)

  -- Of two public orders of one account that need the same gas, if one is in the batch and the other
  -- waits, the one in the batch is not the newer: its sequence number is not the larger.
  pub cap_batch_oldest_first :
      (orders : List Order) (o x : Order)
      → In o (cap_batch cap gas budget sealed_cap orders).0
      → In x (cap_batch cap gas budget sealed_cap orders).1
      → o.sealed ≡ false
      → x.sealed ≡ false
      → o.account ≡ x.account
      → gas o ≡ gas x
      → o.seq ≤ x.seq
  unfolding cap_batch
  cap_batch_oldest_first orders o x batched waits o_public x_public same_account same_gas =
      let start : Filling = record { batch = []; used = 0; sealed = 0 } in
      let out = redeal orders in
      let batch = (fill_batch cap gas budget sealed_cap out start).batch in
      let (queued, untagged) = In-filter_inv (λ z. not (has (map tag_of batch) z)) x out waits in
      let spent = (cap_batch_bounds cap gas budget sealed_cap orders).1 in
      let part = gas_part o batch batched in
      let cheap : gas x ≤ budget = omega arith in
      elim (older_first x.account o x (ground arith) (ground arith) cheap out start
        (redeal-IsSorted orders x.account) queued (λ k. cc (rw (has-tags batch x k) at untagged))
        batched) [ inl never ↦ elim never [ ] | inr le ↦ le ]
