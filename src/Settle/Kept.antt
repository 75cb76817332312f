-- ===== src/Settle/Kept.antt =====
-- `_build_round` of offchain/server.py and the queue that it takes its orders from.
use mathlib.Core.Path.{subst}
use jamswap.Prelude.{
  ℕ, ◌+◌, ◌≡◌, refl, sym, ap, inl, inr, Bool, true, false, ◌||◌, Option, none, some, List, [], ◌∷◌,
  ◌++◌, map, filter, arith, ◌==◌, Bool-cases, ltb, ◌∙◌, In, In-append, In-append_left,
  In-append_right, In-filter, if◌then◌else◌,
}
use jamswap.Order.{Order}
use jamswap.Round.{RoundPlan, tag_of, has}
use jamswap.Round.Batches.{has-tags}
use jamswap.Round.Once.{plan_batch_keeps_all}
use jamswap.Server.{cap_batch}
use jamswap.Server.Cap.{cap_batch_admits}
use jamswap.Server.Pricing.{order_gas, committee_size}
use jamswap.Settle.Market.{Queued, OrderKey, okey, mem, Tracked, Market}
use jamswap.Settle.Judge.{Settings}
use jamswap.Settle.Keys.{same_order_refl}
use jamswap.Settle.Build.{
  Inputs, as_queued, commit_at, with_expiry, plan_of, end_expired, build_planned, build_round,
  Found, on_read, reads_before, past_gate, after_first_look, resting_now, pruned_now,
  unless_in_flight, first_look_at, may_reveal,
}
use jamswap.Settle.Ends.{settled_at, settled_at-end_expired, zombies-end_expired}
use jamswap.Settle.Submits.{Placed, Placed-on_assembled, Left-assemble_round}

-- No two queued dicts are one.
abbrev pub Distinct : List Queued → Type 0
Distinct os = (o x : Queued) → In o os → In x os → o.order.tag ≡ x.order.tag → o ≡ x

In-map {ℓ κ} :
    {A : Type ℓ} {B : Type κ} (f : A → B) (a : A) (xs : List A) → In a xs → In (f a) (map f xs)
In-map f a [] m = elim m [ ]
In-map f a (x ∷ xs) (inl e) = inl (ap f e)
In-map f a (x ∷ xs) (inr m) = inr (In-map f a xs m)

In-map_inv {ℓ κ} :
    {A : Type ℓ} {B : Type κ} (f : A → B) (b : B) (xs : List A)
    → In b (map f xs)
    → (a : A) × In a xs × (b ≡ f a)
In-map_inv f b [] m = elim m [ ]
In-map_inv f b (x ∷ xs) (inl e) = (x, inl refl, e)
In-map_inv f b (x ∷ xs) (inr m) = let (a, k, e) = In-map_inv f b xs m in (a, inr k, e)

-- A dict is found again by its identity.
commit_at-In :
    (pend : List Queued) (o : Queued)
    → Distinct pend
    → In o pend
    → commit_at o.order.tag pend ≡ o.commit
unfolding commit_at
commit_at-In [] o apart m = elim m [ ]
commit_at-In (x ∷ xs) o apart m = elim (Bool-cases (x.order.tag == o.order.tag)) [
  | inl e ↦ rw e (ap (λ (q : Queued). q.commit) (apart x o (inl refl) m (ground arith)))
  | inr e ↦ rw e (elim m [
    | inl f ↦ absurd (ground arith)
    | inr later ↦ commit_at-In xs o (λ p q i j. apart p q (inr i) (inr j)) later
  ])
]

as_queued-In :
    (pend : List Queued) (o : Queued) → Distinct pend → In o pend → as_queued pend o.order ≡ o
as_queued-In pend o apart m = λ j. record o { commit = commit_at-In pend o apart m j }

mem-In :
    (pend : List Queued) (o : Queued) (xs : List Order)
    → as_queued pend o.order ≡ o
    → In o.order xs
    → mem (okey o) (map okey (map (as_queued pend) xs)) ≡ true
mem-In pend o [] e m = elim m [ ]
mem-In pend o (x ∷ xs) e (inl f) =
    let g : okey o ≡ okey (as_queued pend x) = ap okey (sym e ∙ ap (as_queued pend) f) in
    rw (← g) (rw (same_order_refl (okey o)) refl)
mem-In pend o (x ∷ xs) e (inr m) = let ih = mem-In pend o xs e m in ground arith

mem-okey : (o : Queued) (xs : List Queued) → In o xs → mem (okey o) (map okey xs) ≡ true
mem-okey o [] m = elim m [ ]
mem-okey o (x ∷ xs) (inl f) = rw (← f) (rw (same_order_refl (okey o)) refl)
mem-okey o (x ∷ xs) (inr m) = let ih = mem-okey o xs m in ground arith

mem_parts :
    (k : OrderKey) (f : Order → Queued) (xs ys zs : List Order)
    → mem k (map okey (map f (xs ++ (ys ++ zs)))) ≡ (
        mem k (map okey (map f xs)) || (mem k (map okey (map f ys)) || mem k (map okey (map f zs))))
mem_parts k f [] [] zs = refl
mem_parts k f [] (y ∷ ys) zs = let ih = mem_parts k f [] ys zs in ground arith
mem_parts k f (x ∷ xs) ys zs = let ih = mem_parts k f xs ys zs in ground arith

module _ (new_tag : Queued → ℕ) (seal : Queued → Option ℕ) (submit : Queued → Bool) (c : Settings)
    (i : Inputs) where
  -- Where the plan puts an order: it is taken, or it waits.
  plan_of-places :
      (f : Found) (pend : List Queued) (resting : List Order) (most : Option ℕ) (o : Queued)
      → Distinct pend
      → In o pend
      → let plan = plan_of new_tag seal submit c i f pend resting most in
        (mem (okey o) (map okey (map (as_queued pend) plan.reveal))
          || (mem (okey o) (map okey (map (as_queued pend) plan.public))
              || (mem (okey o) (map okey (map (as_queued pend) plan.expired))
                  || has (map tag_of (plan.carry ++ (plan.deferred ++ plan.overflow))) o.order)))
        ≡ true
  plan_of-places f pend resting most o apart m =
      let orders = map (λ (q : Queued). q.order) pend in
      let gas = order_gas i.encrypts (if i.encrypts then committee_size f.committee else 0) in
      let sealed_cap = if i.encrypts then most else none in
      let fit = cap_batch c.max_orders gas i.gas_budget sealed_cap in
      let plan = plan_of new_tag seal submit c i f pend resting most in
      let same : (x y : Order) → In x orders → In y orders → x.tag ≡ y.tag → x ≡ y = λ x y k l e.
        let (q, qi, qe) = In-map_inv (λ (q : Queued). q.order) x pend k in
        let (r, ri, re) = In-map_inv (λ (q : Queued). q.order) y pend l in
        let t : q.order.tag ≡ r.order.tag = cc in
        qe ∙ (ap (λ (q : Queued). q.order) (apart q r qi ri t) ∙ sym re) in
      let all =
        (plan_batch_keeps_all orders resting fit i.now
            (cap_batch_admits c.max_orders gas i.gas_budget sealed_cap) same
            (may_reveal new_tag seal submit c i f pend) o.order).0
          (In-map (λ (q : Queued). q.order) o pend m) in
      let found = mem-In pend o in
      let e = as_queued-In pend o apart m in
      let waits = has-tags (plan.carry ++ (plan.deferred ++ plan.overflow)) o.order in
      let w = plan.deferred ++ plan.overflow in
      elim (In-append o.order _ plan.overflow all) [
        | inr over ↦
            let a = waits (
              In-append_right o.order plan.carry w
                (In-append_right o.order plan.deferred plan.overflow over)) in
            ground arith
        | inl p0 ↦ elim (In-append o.order plan.reveal _ p0) [
          | inl there ↦ let a = found plan.reveal e there in ground arith
          | inr p1 ↦ elim (In-append o.order plan.public _ p1) [
            | inl there ↦ let a = found plan.public e there in ground arith
            | inr p2 ↦ elim (In-append o.order plan.carry _ p2) [
              | inl there ↦
                  let a = waits (In-append_left o.order plan.carry w there) in ground arith
              | inr p3 ↦ elim (In-append o.order plan.expired plan.deferred p3) [
                | inl there ↦ let a = found plan.expired e there in ground arith
                | inr there ↦
                    let a = waits (
                      In-append_right o.order plan.carry w
                        (In-append_left o.order plan.deferred plan.overflow there)) in
                    ground arith
              ]
            ]
          ]
        ]
      ]

  abbrev plan_now : Found → List Queued → List Order → Market → RoundPlan
  plan_now f pend resting s = plan_of new_tag seal submit c i f pend resting s.enc_cap

  build_planned-Placed :
      (f : Found) (pend : List Queued) (resting : List Order) (pruned : List (ℕ × ℕ)) (s : Market)
      (o : Queued)
      → s.zombies ≡ []
      → Distinct pend
      → In o pend
      → Placed (okey o) (build_planned new_tag seal submit c i f pend resting pruned s)
  unfolding build_planned
  build_planned-Placed f pend resting pruned s o no_zombies apart m =
      let k = okey o in
      let plan = plan_now f pend resting s in
      let waits = map tag_of (plan.carry ++ (plan.deferred ++ plan.overflow)) in
      let reveal = map (as_queued pend) plan.reveal in
      let public = map (as_queued pend) plan.public in
      let over = map (as_queued pend) plan.expired in
      let out = map okey (map (as_queued pend) (plan.reveal ++ (plan.public ++ plan.expired))) in
      let taken = filter (λ q. mem (okey q) out) pend in
      let u = record s { pending = filter (λ q. has waits q.order) pend } in
      let v = end_expired over u in
      let places = plan_of-places f pend resting s.enc_cap o apart m in
      let waiting : has waits o.order ≡ true → settled_at k u ≡ true = λ w.
        let a = mem-okey o u.pending (In-filter (λ q. has waits q.order) o pend m w) in
        ground arith in
      let ends_now = settled_at-end_expired k over u in
      let split : mem k out
          ≡ (mem k (map okey reveal) || (mem k (map okey public) || mem k (map okey over))) =
        mem_parts k (as_queued pend) plan.reveal plan.public plan.expired in
      let takes : mem k out ≡ true → mem k (map okey taken) ≡ true =
        λ t. mem-okey o taken (In-filter (λ q. mem (okey q) out) o pend m t) in
      Placed-on_assembled new_tag seal submit c i k taken _ (
        Left-assemble_round new_tag seal submit c i k taken f.book pend resting pruned
          (map (as_queued pend) plan.deferred) plan.public
          (record { revealed = reveal; public = public; dead = []; done = map okey over }) v refl
          refl
          (zombies-end_expired k over u ∙ no_zombies, ground arith, λ d. ends_now (ground arith))
          (ground arith))

  Placed-on_read :
      (f : Option Found) (s : Market) (o : Queued)
      → s.zombies ≡ []
      → Distinct s.pending
      → In o s.pending
      → Placed (okey o) (on_read new_tag seal submit c i f s)
  unfolding okey
  Placed-on_read none s o no_zombies apart m = let a = mem-okey o s.pending m in ground arith
  Placed-on_read (some f) s o no_zombies apart m =
      build_planned-Placed f (map (with_expiry s.expiry) s.pending)
        (resting_now new_tag seal submit c i f s) (pruned_now new_tag seal submit c i f s) s
        (with_expiry s.expiry o) no_zombies
        (λ p q k l e.
          let (a, ai, ae) = In-map_inv (with_expiry s.expiry) p s.pending k in
          let (b, bi, be) = In-map_inv (with_expiry s.expiry) q s.pending l in
          let t : a.order.tag ≡ b.order.tag =
            sym (ap (λ (x : Queued). x.order.tag) ae) ∙ (e ∙ ap (λ (x : Queued). x.order.tag) be) in
          ae ∙ (ap (with_expiry s.expiry) (apart a b ai bi t) ∙ sym be))
        (In-map (with_expiry s.expiry) o s.pending m)

  Placed-after_look :
      (s : Market) (o : Queued)
      → s.zombies ≡ []
      → Distinct s.pending
      → In o s.pending
      → Placed (okey o) (after_first_look new_tag seal submit c i (s, [], false))
  Placed-after_look s o no_zombies apart m =
      Placed-on_read (reads_before new_tag seal submit c i) s o no_zombies apart m

  first_look-none :
      (s : Market) → s.zombies ≡ [] → first_look_at new_tag seal submit c i s ≡ (s, [], false)
  first_look-none s e = rw e refl

  Placed-look :
      (s : Market) (o : Queued)
      → s.zombies ≡ []
      → Distinct s.pending
      → In o s.pending
      → Placed
          (okey o)
          (after_first_look new_tag seal submit c i (first_look_at new_tag seal submit c i s))
  Placed-look s o no_zombies apart m =
      subst
        (λ (r : Market × List OrderKey × Bool).
          Placed (okey o) (after_first_look new_tag seal submit c i r))
        (sym (first_look-none s no_zombies)) (Placed-after_look s o no_zombies apart m)

  Placed-past_gate :
      (gate : Option ℕ) (s : Market) (o : Queued)
      → s.zombies ≡ []
      → Distinct s.pending
      → In o s.pending
      → Placed (okey o) (past_gate new_tag seal submit c i gate s)
  Placed-past_gate none s o no_zombies apart m = Placed-look s o no_zombies apart m
  Placed-past_gate (some t) s o no_zombies apart m =
      elim (Bool-cases (ltb i.gate_look (t + i.cooldown))) [
        | inl cool ↦ rw cool (let a = mem-okey o s.pending m in ground arith)
        | inr open_now ↦ rw open_now (Placed-look (record s { gate = none }) o no_zombies apart m)
      ]

  Placed-unless :
      (f : Option Tracked) (s : Market) (o : Queued)
      → s.zombies ≡ []
      → Distinct s.pending
      → In o s.pending
      → Placed (okey o) (unless_in_flight new_tag seal submit c i f s)
  Placed-unless (some fr) s o no_zombies apart m = let a = mem-okey o s.pending m in ground arith
  Placed-unless none s o no_zombies apart m = Placed-past_gate s.gate s o no_zombies apart m

  -- A build loses no order. Where no released round is tracked and no two queued dicts have one identity,
  -- each order that was queued is, after `_build_round`, queued, in flight with the round, or ended by a
  -- receipt or as expired: whichever of the build's reads of the chain raises, before the plan or behind it,
  -- whether the payload can be made, and however the submit ends.
  pub build_round-Placed :
      (s : Market) (o : Queued)
      → s.zombies ≡ []
      → Distinct s.pending
      → In o s.pending
      → Placed (okey o) (build_round new_tag seal submit c i s)
  unfolding build_round
  build_round-Placed s o no_zombies apart m = Placed-unless s.inflight s o no_zombies apart m
