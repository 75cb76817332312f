-- ===== src/Server/Cap.antt =====
-- The batch of `_cap_batch`, offchain/server.py: its bounds.
use jamswap.Prelude.{
  ℕ, zero, suc, ◌≡◌, refl, ap, ◌⊎◌, inl, inr, ◌≤◌, ◌<◌, ◌+◌, Bool, true, false, not, ◌&&◌, Option,
  some, none, List, [], ◌∷◌, ◌++◌, arith, count, count-append, length, length-append, ◌==◌,
  if◌then◌else◌, In, In-append, In-filter_inv, Bool-cases, ◌∙◌,
}
use jamswap.Order.{Order}
use jamswap.Clearing.{sort_by, insert_by}
use jamswap.Round.{is_sealed, plan_batch}
use jamswap.Round.Capped.{plan_batch_within_cap}
use jamswap.Server.{
  Filling, Room, pass, stop, take, at_cap, room, after_room, ends, fill_batch, cap_batch, redeal,
  redeal_from, nth, public_of, seq_first,
}

abbrev pub sum_gas : (Order → ℕ) → List Order → ℕ
sum_gas gas [] = 0
sum_gas gas (o ∷ os) = gas o + sum_gas gas os

sum_gas-append :
    (gas : Order → ℕ) (xs ys : List Order)
    → sum_gas gas (xs ++ ys) ≡ sum_gas gas xs + sum_gas gas ys
sum_gas-append gas [] ys = omega arith
sum_gas-append gas (x ∷ xs) ys = omega (arith, sum_gas-append gas xs ys)

abbrev Within : ℕ → Option ℕ → Type 0
Within n none = Unit
Within n (some m) = n ≤ m

zero-Within : (c : Option ℕ) → Within 0 c
zero-Within none = tt
zero-Within (some m) = omega arith

some-Within : (n m : ℕ) (c : Option ℕ) → c ≡ some m → Within n c → n ≤ m
some-Within n m none e w = absurd (cc e)
some-Within n m (some k) e w = let same : k ≡ m = cc e in omega arith

pub Room-cases : (v : Room) → (v ≡ stop) ⊎ ((v ≡ pass) ⊎ (v ≡ take))
Room-cases stop = inl refl
Room-cases pass = inr (inl refl)
Room-cases take = inr (inr refl)

module _ (cap : ℕ) (gas : Order → ℕ) (budget : ℕ) (sealed_cap : Option ℕ) where
  -- The counters are true to the batch, which is within every limit.
  record IsWithin (f : Filling) : Type 0 where
    pub orders : length f.batch ≤ cap
    pub gas_used : f.used ≡ sum_gas gas f.batch
    pub gas_bound : f.used ≤ budget
    pub sealed_seen : f.sealed ≡ count is_sealed f.batch
    pub sealed_bound : Within f.sealed sealed_cap

  pub fill_batch-room :
      (o : Order) (os : List Order) (f : Filling) {v : Room}
      → room cap gas budget sealed_cap f o ≡ v
      → fill_batch cap gas budget sealed_cap (o ∷ os) f
        ≡ ends cap gas budget sealed_cap v f
            (fill_batch cap gas budget sealed_cap os (after_room cap gas budget sealed_cap v f o))
  unfolding fill_batch
  fill_batch-room o os f e =
      ap
        (λ v.
          ends cap gas budget sealed_cap v f
            (fill_batch cap gas budget sealed_cap os (after_room cap gas budget sealed_cap v f o)))
        e

  take_fits :
      (f : Filling) (o : Order)
      → room cap gas budget sealed_cap f o ≡ take
      → (length f.batch < cap)
        × (f.used + gas o ≤ budget)
        × ((o.sealed && at_cap f.sealed sealed_cap) ≡ false)
  unfolding room
  take_fits f o h = ground arith

  sealed_fits :
      (n : ℕ) (c : Option ℕ) (b : Bool)
      → Within n c
      → (b && at_cap n c) ≡ false
      → Within (if b then suc n else n) c
  sealed_fits n none b w h = tt
  sealed_fits n (some m) true w h = ground arith
  sealed_fits n (some m) false w h = w

  taken-IsWithin :
      (f : Filling) (o : Order)
      → IsWithin f
      → room cap gas budget sealed_cap f o ≡ take
      → IsWithin (after_room cap gas budget sealed_cap take f o)
  taken-IsWithin f o i h =
      let (few, cheap, free) = take_fits f o h in
      record {
        orders = omega (arith, length-append f.batch (o ∷ []));
        gas_used = omega (arith, i.gas_used, sum_gas-append gas f.batch (o ∷ []));
        gas_bound = cheap;
        sealed_seen = ground (arith, i.sealed_seen, count-append is_sealed f.batch (o ∷ []));
        sealed_bound = sealed_fits f.sealed sealed_cap o.sealed i.sealed_bound free;
      }

  fill_batch-IsWithin :
      (os : List Order) (f : Filling)
      → IsWithin f
      → IsWithin (fill_batch cap gas budget sealed_cap os f)
  fill_batch-IsWithin [] f i = unfold fill_batch in i
  fill_batch-IsWithin (o ∷ os) f i = elim (Room-cases (room cap gas budget sealed_cap f o)) [
    | inl stops ↦ rw (fill_batch-room o os f stops) i
    | inr (inl passes) ↦ rw (fill_batch-room o os f passes) (fill_batch-IsWithin os f i)
    | inr (inr takes) ↦ rw (fill_batch-room o os f takes) (
        fill_batch-IsWithin os (after_room cap gas budget sealed_cap take f o)
          (taken-IsWithin f o i takes))
  ]

  -- The batch has at most `cap` orders, spends at most the gas budget, and has at most `sealed_cap`
  -- sealed orders, where there is such a limit.
  pub cap_batch_bounds :
      (orders : List Order)
      → let batch = (cap_batch cap gas budget sealed_cap orders).0 in
        (length batch ≤ cap)
        × (sum_gas gas batch ≤ budget)
        × ((m : ℕ) → sealed_cap ≡ some m → count is_sealed batch ≤ m)
  unfolding cap_batch
  cap_batch_bounds orders =
      let start : Filling = record { batch = []; used = 0; sealed = 0 } in
      let i = fill_batch-IsWithin (redeal orders) start (record {
        orders = omega arith;
        gas_used = refl;
        gas_bound = omega arith;
        sealed_seen = refl;
        sealed_bound = zero-Within sealed_cap;
      }) in
      (
        i.orders,
        omega (arith, i.gas_used, i.gas_bound),
        λ m e. let le = some-Within _ m sealed_cap e i.sealed_bound in omega (arith, i.sealed_seen),
      )

  In-fill_batch :
      (x : Order) (os : List Order) (f : Filling)
      → In x (fill_batch cap gas budget sealed_cap os f).batch
      → In x f.batch ⊎ In x os
  In-fill_batch x [] f m = inl (unfold fill_batch in m)
  In-fill_batch x (o ∷ os) f m = elim (Room-cases (room cap gas budget sealed_cap f o)) [
    | inl stops ↦ inl (rw (fill_batch-room o os f stops) at m)
    | inr (inl passes) ↦ elim (In-fill_batch x os f (rw (fill_batch-room o os f passes) at m)) [
      | inl old ↦ inl old
      | inr later ↦ inr (inr later)
    ]
    | inr (inr takes) ↦
        elim (In-fill_batch x os (after_room cap gas budget sealed_cap take f o)
          (rw (fill_batch-room o os f takes) at m)) [
            | inl here ↦ elim (In-append x f.batch (o ∷ []) here) [
              | inl old ↦ inl old
              | inr (inl e) ↦ inr (inl e)
              | inr (inr never) ↦ elim never [ ]
            ]
            | inr later ↦ inr (inr later)
          ]
  ]

pub nth-In : (n : ℕ) (xs : List Order) (o : Order) → (nth n xs o ≡ o) ⊎ In (nth n xs o) xs
nth-In n [] o = inl refl
nth-In zero (x ∷ xs) o = inr (inl refl)
nth-In (suc n) (x ∷ xs) o = elim (nth-In n xs o) [ inl e ↦ inl e | inr m ↦ inr (inr m) ]

In-insert_by_inv :
    (first : Order → Order → Bool) (x o : Order) (os : List Order)
    → In x (insert_by first o os)
    → (x ≡ o) ⊎ In x os
unfolding insert_by
In-insert_by_inv first x o [] (inl e) = inl e
In-insert_by_inv first x o [] (inr never) = elim never [ ]
In-insert_by_inv first x o (y ∷ ys) m = elim (Bool-cases (first o y)) [
  | inl before ↦ rw before at m
  | inr after ↦ elim (rw after at m) [
    | inl e ↦ inr (inl e)
    | inr later ↦ elim (In-insert_by_inv first x o ys later) [ inl e ↦ inl e | inr k ↦ inr (inr k) ]
  ]
]

pub In-sort_by_inv :
    (first : Order → Order → Bool) (x : Order) (os : List Order) → In x (sort_by first os) → In x os
unfolding sort_by
In-sort_by_inv first x [] m = m
In-sort_by_inv first x (o ∷ os) m = elim (In-insert_by_inv first x o (sort_by first os) m) [
  | inl e ↦ inl e
  | inr k ↦ inr (In-sort_by_inv first x os k)
]

either : (b : Bool) (x y z : Order) → x ≡ (if b then y else z) → (x ≡ y) ⊎ (x ≡ z)
either true x y z e = inl e
either false x y z e = inr e

In-redeal_from :
    (x : Order) (orders before os : List Order)
    → ((y : Order) → In y os → In y orders)
    → In x (redeal_from orders before os)
    → In x orders
unfolding redeal_from
In-redeal_from x orders before [] part m = elim m [ ]
In-redeal_from x orders before (o ∷ os) part (inr later) =
    In-redeal_from x orders (before ++ o ∷ []) os (λ y k. part y (inr k)) later
In-redeal_from x orders before (o ∷ os) part (inl e) =
    elim (either o.sealed x o
      (nth (length (public_of o.account before)) (sort_by seq_first (public_of o.account orders)) o)
      e) [
        | inl same ↦ rw same (part o (inl refl))
        | inr same ↦
            let n = length (public_of o.account before) in
            let dealt = sort_by seq_first (public_of o.account orders) in
            elim (nth-In n dealt o) [
              | inl own ↦ rw (same ∙ own) (part o (inl refl))
              | inr k ↦
                  let queued =
                    In-sort_by_inv seq_first (nth n dealt o) (public_of o.account orders) k in
                  rw same
                    (In-filter_inv (λ y. not y.sealed && y.account == o.account) _ orders queued).0
            ]
      ]

-- The batch holds only orders that were given.
pub cap_batch_admits :
    (limit : ℕ) (gas : Order → ℕ) (budget : ℕ) (sealed_cap : Option ℕ) (orders : List Order)
    (o : Order)
    → In o (cap_batch limit gas budget sealed_cap orders).0
    → In o orders
unfolding cap_batch redeal
cap_batch_admits limit gas budget sealed_cap orders o m =
    elim (In-fill_batch limit gas budget sealed_cap o (redeal_from orders [] orders) _ m) [
      | inl never ↦ elim never [ ]
      | inr k ↦ In-redeal_from o orders [] orders (λ y i. i) k
    ]

-- With the server's policy, the planned batch has at most `cap` orders.
pub plan_batch-cap_batch :
    (limit : ℕ) (gas : Order → ℕ) (budget : ℕ) (sealed_cap : Option ℕ)
    (pending resting : List Order) (now : ℕ) (sealed_ready : Order → Bool)
    → let plan =
        plan_batch pending resting (cap_batch limit gas budget sealed_cap) now sealed_ready in
      length plan.reveal + length plan.public ≤ limit
plan_batch-cap_batch limit gas budget sealed_cap pending resting now sealed_ready =
    plan_batch_within_cap pending resting (cap_batch limit gas budget sealed_cap) now sealed_ready
      limit (λ xs. (cap_batch_bounds limit gas budget sealed_cap xs).0)
