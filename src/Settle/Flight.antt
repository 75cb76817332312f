-- ===== src/Settle/Flight.antt =====
-- `_resolve_inflight` and `_abandon` of offchain/server.py lose no order.
use jamswap.Prelude.{
  ℕ, ◌≡◌, ◌-◌, refl, inl, inr, Bool, true, false, ◌||◌, Option, none, some, List, [], ◌∷◌, ◌++◌,
  map, any, All, arith, Bool-cases, ap, ◌∙◌, length,
}
use jamswap.Settle.Market.{
  Queued, OrderKey, okey, mem, same_order, Tracked, Market, Note, Why, book_moved, commit_gone,
  seq_floor, timeout, orders_of, keys_of, noting, requeued, abandoned,
}
use jamswap.Settle.Finish.{finalize_round}
use jamswap.Settle.Judge.{Settings}
use jamswap.Settle.Sweep.{abandon, forget, own_orders, cool_down}
use jamswap.Settle.Resolve.{hold}
use jamswap.Settle.Keys.{mem-append, map-append, same_order_eq}
use jamswap.Settle.Recorded.{
  recorded, recorded-noting, recorded-append, mem-not_lost, finalize_round-keeps,
  finalize_round-records, finalize_round-zombies,
}
use jamswap.Settle.Account.{
  backed, backs, flies, Accounted, Founded, Held, All-append, All-mono, backs-backed,
}
use jamswap.Settle.Moves.{backed-append, backs-append}
use jamswap.Settle.Steps.{in_places}
use jamswap.Settle.Walks.{Grows, All-Held-Grows}
use jamswap.Settle.Lossless.{Sound}
use jamswap.Settle.Forget.{backed-forget, backs-forget, All-forget, Apart-forget, Apart-last}

-- A key that another round holds, for a claim that is founded.
claimed-backed :
    (k : OrderKey) (zs : List Tracked) (log : List Note) (fr : Tracked) (cl : List (OrderKey × ℕ))
    → All (Founded zs log fr) cl
    → any (λ c. same_order k c.0) cl ≡ true
    → (backed k zs || recorded k log) ≡ true
claimed-backed k zs log fr [] h m = absurd (ground arith)
claimed-backed k zs log fr ((j, r) ∷ cl) (f, h) m = elim (Bool-cases (same_order k j)) [
  | inl e ↦
      let b = backs-backed j r zs in
      let founded = f.1 in
      let there : (backed j zs || recorded j log) ≡ true = elim (Bool-cases (backs j r zs)) [
        | inl y ↦ let w = b y in ground arith
        | inr n ↦ ground arith
      ] in
      rw (same_order_eq k j e) there
  | inr e ↦ claimed-backed k zs log fr cl h (ground arith)
]

-- A timeout's cooldown leaves the orders as they are.
pub cool_down-same :
    (fr : Tracked) (why : Why) (now : ℕ) (s : Market)
    → ((cool_down fr why now s).pending ≡ s.pending)
      × ((cool_down fr why now s).inflight ≡ s.inflight)
      × ((cool_down fr why now s).zombies ≡ s.zombies)
      × ((cool_down fr why now s).log ≡ s.log)
cool_down-same fr timeout now s = (refl, refl, refl, refl)
cool_down-same fr book_moved now s = (refl, refl, refl, refl)
cool_down-same fr commit_gone now s = (refl, refl, refl, refl)
cool_down-same fr seq_floor now s = (refl, refl, refl, refl)

module _ (k : OrderKey) (fr : Tracked) (s : Market) where
  -- The round in flight stays so, with other times.
  pub hold-Accounted :
      (ok dead : Option ℕ) (es : List Note)
      → let held : Tracked = record fr { ok_since = ok; dead_since = dead } in
        Accounted k s.zombies (record s { inflight = some fr })
        → Sound (record s { inflight = some fr })
        → Accounted k s.zombies (noting es (hold held s)) × Sound (noting es (hold held s))
  unfolding keys_of
  hold-Accounted ok dead es h sound =
      let held : Tracked = record fr { ok_since = ok; dead_since = dead } in
      let grows = λ (j : OrderKey). recorded-noting j es (hold held s) in
      (
        in_places (mem k (map okey s.pending)) (flies k (some fr)) (backed k s.zombies)
            (recorded k s.log) (mem k (map okey s.pending)) (flies k (some held))
            (backed k s.zombies) (recorded k (s.log ++ es)) h (λ m. rw m refl) (λ f. f)
            (λ e. ground arith) (grows k),
        record {
          flight = All-Held-Grows s.zombies s.log (s.log ++ es) (held ∷ []) grows sound.flight;
          released = All-Held-Grows s.zombies s.log (s.log ++ es) s.zombies grows sound.released;
          apart = sound.apart;
        },
      )

  pub rest-Accounted :
      (ok dead : Option ℕ)
      → let held : Tracked = record fr { ok_since = ok; dead_since = dead } in
        Accounted k s.zombies (record s { inflight = some fr })
        → Sound (record s { inflight = some fr })
        → Accounted k s.zombies (hold held s) × Sound (hold held s)
  unfolding keys_of
  rest-Accounted ok dead h sound =
      (h, record { flight = sound.flight; released = sound.released; apart = sound.apart })

  -- The round in flight is finalized.
  pub settle-Accounted :
      (new_tag : Queued → ℕ) (seal : Queued → Option ℕ) (submit : Queued → Bool) (most now : ℕ)
      → let u =
          finalize_round new_tag seal submit most now
            (record fr { dead_since = none })
            (record s { inflight = none }) in
        Accounted k s.zombies (record s { inflight = some fr })
        → Sound (record s { inflight = some fr })
        → Accounted k u.zombies u × Sound u
  unfolding keys_of
  settle-Accounted new_tag seal submit most now h sound =
      let fr0 : Tracked = record fr { dead_since = none } in
      let s0 : Market = record s { inflight = none } in
      let u = finalize_round new_tag seal submit most now fr0 s0 in
      let keeps = finalize_round-keeps new_tag seal submit most now fr0 s0 in
      let zs = finalize_round-zombies new_tag seal submit most now fr0 s0 in
      let grows = λ (j : OrderKey). (keeps j).2 in
      let records = finalize_round-records new_tag seal submit most now fr0 s0 k in
      (
        rw zs (
            rw (keeps k).0 (elim (Bool-cases (mem k (keys_of fr))) [
              | inl own ↦
                  let r = records own in
                  let c = claimed-backed k s.zombies s.log fr fr.claimed sound.flight.0 in
                  let g = grows k in
                  elim (Bool-cases (recorded k u.log)) [
                    | inl y ↦ ground arith
                    | inr n ↦
                        let cl : any (λ c. same_order k c.0) fr.claimed ≡ true = ground arith in
                        let b = c cl in
                        elim (Bool-cases (recorded k s.log)) [
                          | inl y ↦ let w = g y in ground arith
                          | inr n ↦ ground arith
                        ]
                  ]
              | inr other ↦
                  let p = (keeps k).1 in
                  let g = grows k in
                  in_places (mem k (map okey s.pending)) (flies k (some fr)) (backed k s.zombies)
                    (recorded k s.log) (mem k (map okey u.pending)) false (backed k s.zombies)
                    (recorded k u.log) h (λ m. rw (p m) refl) (λ f. ground arith)
                    (λ e. rw e (ground arith)) g
            ])),
        record {
          flight = rw (keeps k).0 tt;
          released = rw zs (All-Held-Grows s.zombies s.log u.log s.zombies grows sound.released);
          apart = rw (keeps k).0 (rw zs sound.apart.1);
        },
      )

  -- The round is released: it joins the zombies, and the oldest unsighted ones may be forgotten.
  pub abandon-Accounted :
      (c : Settings) (dead : Option ℕ) (why : Why) (now : ℕ)
      → let u =
          abandon c (record fr { dead_since = dead }) why now (record s { inflight = none }) in
        Accounted k s.zombies (record s { inflight = some fr })
        → Sound (record s { inflight = some fr })
        → Accounted k u.zombies u × Sound u
  unfolding abandon keys_of
  abandon-Accounted c dead why now h sound =
      let fr0 : Tracked = record fr { dead_since = dead } in
      let z : Tracked = record fr {
        dead_since = dead;
        abandoned_at = now;
        why = some why;
        ok_since = none;
      } in
      let zs = s.zombies ++ z ∷ [] in
      let n = length zs - c.zombie_cap in
      let es = map (λ o. requeued (okey o)) (own_orders fr) in
      let t : Market = record s {
        pending = own_orders fr ++ s.pending;
        inflight = none;
        zombies = forget n zs;
        log = s.log ++ es;
      } in
      let same = cool_down-same fr0 why now t in
      let u = abandon c fr0 why now (record s { inflight = none }) in
      let grows : Grows s.log u.log = λ (j : OrderKey) (r : recorded j s.log ≡ true).
        recorded-noting j (abandoned fr.rid why ∷ []) (cool_down fr0 why now t)
          (rw same.3 (rw (recorded-append j s.log es) (rw r refl))) in
      let backed_still : (j : OrderKey) → backed j (forget n zs) ≡ backed j s.zombies =
        λ j. backed-forget j n zs ∙ (backed-append j s.zombies (z ∷ []) ∙ ground arith) in
      let backs_still : (j : OrderKey) (r : ℕ) → backs j r (forget n zs) ≡ backs j r s.zombies =
        λ j r. backs-forget j r n zs ∙ (backs-append j r s.zombies (z ∷ []) ∙ ground arith) in
      let held : (x : Tracked) → Held s.zombies s.log x → Held (forget n zs) s.log x = λ x a.
        All-mono (Founded s.zombies s.log x) (Founded (forget n zs) s.log x) x.claimed
          (λ cl f. (f.0, rw (backs_still cl.0 cl.1) f.1)) a in
      let all_held : All (Held (forget n zs) u.log) (forget n zs) =
        All-Held-Grows (forget n zs) s.log u.log (forget n zs) grows (
          All-forget (Held (forget n zs) s.log) n zs (
            All-append (Held (forget n zs) s.log) s.zombies (z ∷ [])
              (All-mono (Held s.zombies s.log) (Held (forget n zs) s.log) s.zombies held
                sound.released)
              (held z sound.flight.0, tt))) in
      let front : mem k (map okey (own_orders fr ++ s.pending))
          ≡ (mem k (map okey (own_orders fr)) || mem k (map okey s.pending)) =
        ap (λ l. mem k l) (map-append okey (own_orders fr) s.pending)
        ∙ mem-append k (map okey (own_orders fr)) (map okey s.pending) in
      (
        rw same.2 (
            rw same.1 (
              rw same.0 (
                rw (backed_still k) (elim (Bool-cases (mem k (keys_of fr))) [
                  | inl own ↦
                      let out = mem-not_lost k fr (orders_of fr) own in
                      let founded = claimed-backed k s.zombies s.log fr fr.claimed sound.flight.0 in
                      let g = grows k in
                      elim (Bool-cases (any (λ cl. same_order k cl.0) fr.claimed)) [
                        | inl y ↦
                            let b = founded y in
                            elim (Bool-cases (recorded k s.log)) [
                              | inl r ↦ let w = g r in ground arith
                              | inr r ↦ ground arith
                            ]
                        | inr no_claim ↦ ground arith
                      ]
                  | inr other ↦
                      in_places (mem k (map okey s.pending)) (flies k (some fr))
                        (backed k s.zombies) (recorded k s.log)
                        (mem k (map okey (own_orders fr ++ s.pending))) false (backed k s.zombies)
                        (recorded k u.log) h (λ m. ground arith) (λ f. ground arith)
                        (λ e. rw e (ground arith)) (grows k)
                ])))),
        record {
          flight = rw same.1 tt;
          released = rw same.2 all_held;
          apart =
              rw same.1 (
                rw same.2 (Apart-forget n zs (Apart-last z s.zombies sound.apart.0 sound.apart.1)));
        },
      )
