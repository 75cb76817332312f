-- ===== src/Round/Batches.antt =====
-- `plan_batch` of offchain/round.py: the capped batch, refilled until every sealed order in it
-- crosses.
use mathlib.Core.Path.{subst}
use jamswap.Prelude.{
  ℕ, zero, suc, ◌≡◌, refl, ap, ◌⊎◌, inl, inr, Bool, true, false, not, ◌||◌, List, [], ◌∷◌, ◌++◌,
  map, arith, filter, any, In, In-filter_inv, In-append, In-append_left, In-append_right,
  Bool-cases, List-cases, if◌then◌else◌, ◌==◌,
}
use jamswap.Order.{Order}
use jamswap.Round.{
  RoundPlan, is_sealed, all_ready, tag_of, has, Batch, candidates, batch_plan, take_out, refill,
}
use jamswap.Round.Partition.{
  joins, lapses, is_past, ready, not_ready, min_sell, max_buy, reveal-plan_round, carry-plan_round,
  expired-plan_round,
}

any-map_tag :
    (t : ℕ) (os : List Order) (o : Order)
    → In o os
    → o.tag ≡ t
    → any (λ x. x == t) (map tag_of os) ≡ true
any-map_tag t [] o m e = elim m [ ]
any-map_tag t (x ∷ xs) o (inl p) e = ground (arith, ap tag_of p)
any-map_tag t (x ∷ xs) o (inr m) e = ground (arith, any-map_tag t xs o m e)

pub has-tags : (os : List Order) (o : Order) → In o os → has (map tag_of os) o ≡ true
has-tags os o m = any-map_tag o.tag os o m refl

pub tags-has :
    (os : List Order) (o : Order)
    → has (map tag_of os) o ≡ true
    → (x : Order) × In x os × (x.tag ≡ o.tag)
tags-has [] o h = cc
tags-has (x ∷ xs) o h = elim (Bool-cases (x.tag == o.tag)) [
  | inl e ↦ (x, inl refl, ground arith)
  | inr ne ↦ let (y, m, e) = tags-has xs o (ground arith) in (y, inr m, e)
]

has-filter :
    (f : ℕ → Bool) (ts : List ℕ) (o : Order)
    → has (filter f ts) o ≡ true
    → (has ts o ≡ true) × (f o.tag ≡ true)
has-filter f [] o h = cc
has-filter f (t ∷ ts) o h = elim (Bool-cases (t == o.tag)) [
  | inl e ↦
      let same : t ≡ o.tag = ground arith in
      elim (Bool-cases (f t)) [
        | inl kept ↦ (ground arith, rw (← same) kept)
        | inr dropped ↦ let (a, b) = has-filter f ts o (ground arith) in (ground arith, b)
      ]
  | inr ne ↦ let (a, b) = has-filter f ts o (ground arith) in (ground arith, b)
]

any-tag : (os : List Order) (o : Order) → In o os → any (λ x. o.tag == x.tag) os ≡ true
any-tag [] o m = elim m [ ]
any-tag (x ∷ xs) o (inl p) = ground (arith, ap tag_of p)
any-tag (x ∷ xs) o (inr m) = ground (arith, any-tag xs o m)

module _ (pending resting : List Order) (fit : List Order → List Order × List Order) (now : ℕ)
    (admits : (xs : List Order) (o : Order) → In o (fit xs).0 → In o xs) where
  -- The sealed orders of a batch compete, and come from the queue.
  In-batch :
      (c : List ℕ) (o : Order)
      → In o (filter is_sealed (fit (candidates pending resting fit now c)).0)
      → In o pending × (has c o ≡ true) × (o.sealed ≡ true)
  unfolding candidates
  In-batch c o m =
      let (k, s) = In-filter_inv is_sealed o _ m in
      let (i, h) = In-filter_inv (λ x. not x.sealed || has c x) o pending (admits _ o k) in
      (i, ground arith, s)

  abbrev pub batch : List ℕ → List Order
  batch c = (fit (candidates pending resting fit now c)).0

  abbrev pub pass : List ℕ → RoundPlan
  pass c = batch_plan pending resting fit now c

  In-sealed_batch :
      (c : List ℕ) (o : Order)
      → In o (ready (batch c) resting now all_ready)
      → In o pending × (has c o ≡ true) × (o.sealed ≡ true)
  In-sealed_batch c o m = In-batch c o (In-filter_inv all_ready o _ m).0

  abbrev pub taken : List ℕ → Order → Bool
  taken c o =
      joins (min_sell (batch c) resting now all_ready) (max_buy (batch c) resting now all_ready) o

  pub reveal-pass :
      (c : List ℕ) (o : Order)
      → In o (pass c).reveal
      → (In o pending × (has c o ≡ true) × (o.sealed ≡ true)) × (taken c o ≡ true)
  unfolding batch_plan
  reveal-pass c o m =
      let k = subst (In o) (reveal-plan_round (batch c) resting now all_ready) m in
      let (i, t) = In-filter_inv (taken c) o _ k in (In-sealed_batch c o i, t)

  not_ready_none : (xs : List Order) → filter (λ o. not (all_ready o)) xs ≡ []
  not_ready_none [] = refl
  not_ready_none (x ∷ xs) = not_ready_none xs

  -- A stuck order of a pass, one that the plan carries or lets expire, does not cross in it.
  stuck-pass :
      (c : List ℕ) (o : Order)
      → In o (pass c).carry ⊎ In o (pass c).expired
      → (In o pending × (has c o ≡ true) × (o.sealed ≡ true)) × (taken c o ≡ false)
  unfolding batch_plan
  stuck-pass c o (inl m) =
      let k = subst (In o) (carry-plan_round (batch c) resting now all_ready) m in
      let (i, t) = In-filter_inv _ o (ready (batch c) resting now all_ready) k in
      (In-sealed_batch c o i, ground arith)
  stuck-pass c o (inr m) =
      let k = subst (In o) (expired-plan_round (batch c) resting now all_ready) m in
      let lapsing =
        lapses (min_sell (batch c) resting now all_ready) (max_buy (batch c) resting now all_ready)
          now in
      let set = ready (batch c) resting now all_ready in
      elim (In-append o (filter lapsing set)
        (filter (is_past now) (not_ready (batch c) resting now all_ready)) k) [
          | inl lapsed ↦
              let (i, t) = In-filter_inv lapsing o set lapsed in
              (In-sealed_batch c o i, ground arith)
          | inr never ↦
              let (i, t) = In-filter_inv _ o (not_ready (batch c) resting now all_ready) never in
              elim (subst (In o) (not_ready_none (filter is_sealed (batch c))) i) [ ]
        ]

  -- Orders of the queue are told apart by their identity.
  module _ (apart : (o x : Order) → In o pending → In x pending → o.tag ≡ x.tag → o ≡ x)
      (full : RoundPlan) where
    -- The orders that were taken out are out for good, and only orders of the first crossing set
    -- compete. `proven` is what competes in the next pass, whichever it is.
    pub record IsKept (b : Batch) : Type 0 where
      pub in_queue : (o : Order) → In o b.carry ⊎ In o b.expired → In o pending
      pub out : (o : Order) → In o b.carry ⊎ In o b.expired → has b.crossing o ≡ false
      pub out_proven :
          (o : Order) → In o b.carry ⊎ In o b.expired → has (map tag_of b.plan.reveal) o ≡ false
      pub from_full : (o : Order) → has b.crossing o ≡ true → has (map tag_of full.reveal) o ≡ true
      pub from_proven :
          (o : Order)
          → has (map tag_of b.plan.reveal) o ≡ true
          → has (map tag_of full.reveal) o ≡ true

    abbrev out_of : List ℕ → Batch → Batch
    out_of c b = take_out pending resting fit now b c (pass c)

    -- What a pass reveals competes in it; what it takes out does not cross in it.
    reveal_competes :
        (c : List ℕ) (o : Order) → has (map tag_of (pass c).reveal) o ≡ true → has c o ≡ true
    reveal_competes c o h =
        let (x, m, e) = tags-has (pass c).reveal o h in
        let ((i, k, s), t) = reveal-pass c x m in rw (← e) k

    stuck_not_revealed :
        (c : List ℕ) (o : Order)
        → In o (pass c).carry ⊎ In o (pass c).expired
        → has (map tag_of (pass c).reveal) o ≡ false
    stuck_not_revealed c o m = elim (Bool-cases (has (map tag_of (pass c).reveal) o)) [
      | inr no_tag ↦ no_tag
      | inl tagged ↦
          let (x, k, e) = tags-has (pass c).reveal o tagged in
          let ((i, _, _), t) = reveal-pass c x k in
          let ((j, _, _), f) = stuck-pass c o m in
          let same = apart x o i j e in absurd (unfold batch_plan in cc (ap (taken c) same))
    ]

    -- A crossing set that may compete next.
    record Fits (c : List ℕ) (b : Batch) : Type 0 where
      pub out : (o : Order) → In o b.carry ⊎ In o b.expired → has c o ≡ false
      pub from_full : (o : Order) → has c o ≡ true → has (map tag_of full.reveal) o ≡ true

    next-Fits :
        (last : Bool) (b : Batch)
        → IsKept b
        → Fits (if last then map tag_of b.plan.reveal else b.crossing) b
    next-Fits true b k = record { out = k.out_proven; from_full = k.from_proven }
    next-Fits false b k = record { out = k.out; from_full = k.from_full }

    no_reveal_out :
        (c : List ℕ) (b : Batch)
        → Fits c b
        → (o : Order) → In o b.carry ⊎ In o b.expired
        → has (map tag_of (pass c).reveal) o ≡ false
    no_reveal_out c b f o m = elim (Bool-cases (has (map tag_of (pass c).reveal) o)) [
      | inr no_tag ↦ no_tag
      | inl tagged ↦ cc (f.out o m, reveal_competes c o tagged)
    ]

    -- A pass with nothing stuck ends the loop.
    end-IsKept :
        (c : List ℕ) (b : Batch)
        → Fits c b
        → IsKept b
        → IsKept (record b { crossing = c; plan = pass c })
    end-IsKept c b f k = record {
      in_queue = k.in_queue;
      out = f.out;
      out_proven = no_reveal_out c b f;
      from_full = f.from_full;
      from_proven = λ o h. f.from_full o (reveal_competes c o h);
    }

    -- What is out after a pass was out before, or is stuck in it.
    out-cases :
        (c : List ℕ) (b : Batch) (o : Order)
        → In o (out_of c b).carry ⊎ In o (out_of c b).expired
        → (In o b.carry ⊎ In o b.expired) ⊎ (In o (pass c).carry ⊎ In o (pass c).expired)
    unfolding take_out
    out-cases c b o (inl m) = elim (In-append o b.carry (pass c).carry m) [
      | inl old ↦ inl (inl old)
      | inr new ↦ inr (inl new)
    ]
    out-cases c b o (inr m) = elim (In-append o b.expired (pass c).expired m) [
      | inl old ↦ inl (inr old)
      | inr new ↦ inr (inr new)
    ]

    In-stuck :
        (c : List ℕ) (o : Order)
        → In o (pass c).carry ⊎ In o (pass c).expired
        → In o ((pass c).carry ++ (pass c).expired)
    In-stuck c o (inl m) = In-append_left o (pass c).carry (pass c).expired m
    In-stuck c o (inr m) = In-append_right o (pass c).carry (pass c).expired m

    crossing_left :
        (c : List ℕ) (b : Batch) (o : Order)
        → has (out_of c b).crossing o ≡ true
        → (has c o ≡ true)
          × (any (λ x. o.tag == x.tag) ((pass c).carry ++ (pass c).expired) ≡ false)
    unfolding take_out
    crossing_left c b o h = let (a, f) = has-filter _ c o h in (a, ground arith)

    step-IsKept : (c : List ℕ) (b : Batch) → Fits c b → IsKept b → IsKept (out_of c b)
    step-IsKept c b f k = record {
      in_queue = λ o m. elim (out-cases c b o m) [
        | inl old ↦ k.in_queue o old
        | inr new ↦ (stuck-pass c o new).0.0
      ];
      out = λ o m. elim (Bool-cases (has (out_of c b).crossing o)) [
        | inr gone ↦ gone
        | inl still ↦
            let (a, n) = crossing_left c b o still in
            elim (out-cases c b o m) [
              | inl old ↦ cc (f.out o old)
              | inr new ↦ cc (any-tag _ o (In-stuck c o new))
            ]
      ];
      out_proven = λ o m. elim (out-cases c b o m) [
        | inl old ↦ unfold take_out in no_reveal_out c b f o old
        | inr new ↦ unfold take_out in stuck_not_revealed c o new
      ];
      from_full = λ o h. f.from_full o (crossing_left c b o h).0;
      from_proven = λ o h. unfold take_out in f.from_full o (reveal_competes c o h);
    }

    pub refill-IsKept : (n : ℕ) (b : Batch) → IsKept b → IsKept (refill pending resting fit now n b)
    unfolding refill
    refill-IsKept zero b k = k
    refill-IsKept (suc n) b k =
        let c = if n == 0 then map tag_of b.plan.reveal else b.crossing in
        let f = next-Fits (n == 0) b k in
        elim (List-cases ((pass c).carry ++ (pass c).expired)) [
          | inl none_stuck ↦ rw (none_stuck, refill) (end-IsKept c b f k)
          | inr (y, ys, e) ↦ rw (e, refill) (refill-IsKept n (out_of c b) (step-IsKept c b f k))
        ]
