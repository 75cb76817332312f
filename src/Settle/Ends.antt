-- ===== src/Settle/Ends.antt =====
-- Where the orders of a build of offchain/server.py are: queued, or ended by a receipt or an expiry. How the
-- steps of `_build_round` that end an order or put it back move it.
use jamswap.Prelude.{
  ◌≡◌, refl, inl, inr, Bool, true, false, ◌&&◌, ◌||◌, some, List, [], ◌∷◌, ◌++◌, map, any, filter,
  arith, ◌==◌, Bool-cases,
}
use jamswap.Settle.Market.{
  Queued, OrderKey, okey, same_order, mem, Market, Note, settled, landed, erased, late_landed,
  abandoned, receipt, ended, rested, requeued, reverted, rounded, deferred, expired, rejected,
  noting, drop_expiry, held_keys, is_sighted,
}
use jamswap.Settle.Finish.{record_exec}
use jamswap.Settle.Keys.{any-append, map-append, mem-append, mem-filter_out}
use jamswap.Settle.Build.{end_expired, end_dead, unsent, requeue_unsent}

-- The note of an expired order has no commit.
abbrev pub closes : OrderKey → Note → Bool
closes k (settled r) = false
closes k (landed r) = false
closes k (late_landed r) = false
closes k (erased r) = false
closes k (abandoned r why) = false
closes k (receipt j d f) = same_order k j
closes k (ended j d f) = false
closes k (rested j p x f e) = false
closes k (requeued j) = false
closes k (reverted j) = false
closes k (rounded j) = false
closes k (deferred j) = false
closes k (expired a oid) = k.account == a && k.oid == oid

abbrev pub ends : OrderKey → List Note → Bool
ends k log = any (λ n. closes k n) log

-- Queued, or ended.
abbrev pub settled_at : OrderKey → Market → Bool
settled_at k s = mem k (map okey s.pending) || ends k s.log

pub ends-append : (k : OrderKey) (xs ys : List Note) → ends k (xs ++ ys) ≡ (ends k xs || ends k ys)
ends-append k xs ys = any-append (λ n. closes k n) xs ys

module _ (k : OrderKey) where
  pub settled_at-noting :
      (es : List Note) (s : Market) → settled_at k s ≡ true → settled_at k (noting es s) ≡ true
  settled_at-noting es s h = rw (ends-append k s.log es) (ground arith)

  pub closes-expired :
      (o : Queued)
      → same_order k (okey o) ≡ true
      → closes k (expired o.order.account o.order.oid) ≡ true
  unfolding okey
  closes-expired o h = ground arith

  pub ends-rejected :
      (o : Queued)
      → same_order k (okey o) ≡ true
      → ends k (record_exec o (some rejected) 0 false) ≡ true
  unfolding record_exec
  ends-rejected o h = ground arith

  -- An expired order that is taken is ended.
  pub settled_at-end_expired :
      (os : List Queued) (s : Market)
      → (mem k (map okey os) || settled_at k s) ≡ true
      → settled_at k (end_expired os s) ≡ true
  unfolding end_expired
  settled_at-end_expired [] s h = ground arith
  settled_at-end_expired (o ∷ os) s h =
      let one : List Note = expired o.order.account o.order.oid ∷ [] in
      let u = record s {
        expiry = drop_expiry o.order.account o.order.oid s.expiry;
        log = s.log ++ one;
      } in
      settled_at-end_expired os u (rw (ends-append k s.log one) (ground (arith, closes-expired o)))

  pub zombies-end_expired : (os : List Queued) (s : Market) → (end_expired os s).zombies ≡ s.zombies
  unfolding end_expired
  zombies-end_expired [] s = refl
  zombies-end_expired (o ∷ os) s = zombies-end_expired os _

  -- A dead order is ended, and so is each order whose key is noted.
  pub settled_at-end_dead :
      (os : List Queued) (done : List OrderKey) (s : Market)
      → (mem k done ≡ true → settled_at k s ≡ true)
      → let e = end_dead os done s in
        ((mem k (map okey os) || settled_at k s) ≡ true → settled_at k e.1 ≡ true)
        × (mem k e.0 ≡ true → settled_at k e.1 ≡ true)
        × (e.1.zombies ≡ s.zombies)
  unfolding end_dead
  settled_at-end_dead [] done s d = ((λ h. ground arith), d, refl)
  settled_at-end_dead (o ∷ os) done s d =
      let one = record_exec o (some rejected) 0 false in
      let u = record s {
        expiry = drop_expiry o.order.account o.order.oid s.expiry;
        log = s.log ++ one;
      } in
      let step : (same_order k (okey o) || settled_at k s) ≡ true → settled_at k u ≡ true =
        λ h. rw (ends-append k s.log one) (ground (arith, ends-rejected o)) in
      let ih = settled_at-end_dead os (okey o ∷ done) u (λ h. step (ground arith)) in
      ((λ h. ih.0 (ground arith)), ih.1, ih.2)

  -- What a failed build had taken is queued again, unless it is ended.
  pub settled_at-requeue_unsent :
      (taken : List Queued) (done : List OrderKey) (s : Market)
      → s.zombies ≡ []
      → (mem k (map okey taken) || settled_at k s) ≡ true
      → (mem k done ≡ true → settled_at k s ≡ true)
      → settled_at k (requeue_unsent taken done s) ≡ true
  unfolding requeue_unsent unsent
  settled_at-requeue_unsent taken done s none_out h d =
      let held = held_keys (filter is_sighted s.zombies) in
      let skip = done ++ (held ++ map okey s.pending) in
      rw (map-append okey (unsent taken done s) s.pending) (
        rw (mem-append k (map okey (unsent taken done s)) (map okey s.pending))
          (elim (Bool-cases (settled_at k s)) [
            | inl is ↦ ground arith
            | inr isnt ↦
                let back = mem-filter_out (λ j. mem j skip) k taken (ground arith) in
                let split = mem-append k done (held ++ map okey s.pending) in
                let none_held : mem k (held ++ map okey s.pending) ≡ mem k (map okey s.pending) =
                  rw none_out refl in
                ground arith
          ]))
