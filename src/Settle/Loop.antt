-- ===== src/Settle/Loop.antt =====
-- The loop of `_resolve_zombies` of offchain/server.py, step by step, where no round is finalized of which
-- another landed round holds an order (the source warns of that).
use jamswap.Prelude.{ℕ, ◌≡◌, ◌≢◌, Bool, true, false, List, [], ◌∷◌, ◌++◌, map, All, arith}
use jamswap.Settle.Market.{
  Queued, OrderKey, okey, mem, Tracked, Market, Note, late_landed, erased, reverted, orders_of,
  keys_of, in_flight, note_claim, free_claim, claim, unclaim, noting,
}
use jamswap.Settle.Sweep.{Walk, on_others, rounds_of, take_over, give_back}
use jamswap.Settle.Recorded.{recorded, recorded-noting}
use jamswap.Settle.Account.{
  backed, flies, Founded, Held, All-both, All-append, All-mono, All-map_both,
}
use jamswap.Settle.Moves.{
  taking, giving, sighted_at, unsighted, Founded-taking, Founded-giving, Held-note_claim,
  Held-free_claim,
}
use jamswap.Settle.Steps.{claim-Accounted, unclaim-Accounted, in_places}
use jamswap.Settle.Walks.{
  Gone, Grows, Kept, rounds_of-move_on, rounds_of-on_others, ids-taking, ids-giving,
  ids-on_flight_note, ids-on_flight_free, Apart-Others, All-Held-Grows, All-on_flight,
}

abbrev pub walk_at : List (Tracked × Bool) → List Tracked → List OrderKey → Market → Bool → Walk
walk_at b zs t s r = record { before = b; after = zs; taken = t; market = s; raised = r }

module _ (k : OrderKey) (b : List (Tracked × Bool)) (z : Tracked) (zs : List Tracked)
    (t : List OrderKey) (s : Market) where
  -- A step that changes nothing of the rounds, and loses nothing of the market.
  pub pass-Kept :
      (r : Bool) (keep : Bool) (u : Market)
      → Kept k (walk_at b (z ∷ zs) t s false)
      → u.inflight ≡ s.inflight
      → (mem k (map okey s.pending) ≡ true → mem k (map okey u.pending) ≡ true)
      → Grows s.log u.log
      → Gone u.log (z, keep)
      → Kept k (walk_at (b ++ (z, keep) ∷ []) zs t u r)
  pass-Kept r keep u h flying pending grows gone =
      let e = rounds_of-move_on b z keep zs in
      let frs = rounds_of b ++ z ∷ zs in
      record {
        accounted = rw e (
            in_places (mem k (map okey s.pending)) (flies k s.inflight) (backed k frs)
              (recorded k s.log) (mem k (map okey u.pending)) (flies k u.inflight) (backed k frs)
              (recorded k u.log) h.accounted (λ m. let p = pending m in ground arith)
              (λ f. rw flying f) (λ f. ground arith) (grows k));
        flight =
            rw e (rw flying (All-Held-Grows frs s.log u.log (in_flight s.inflight) grows h.flight));
        released = rw e (All-Held-Grows frs s.log u.log frs grows h.released);
        gone =
            All-append (Gone u.log) b ((z, keep) ∷ [])
              (All-mono (Gone s.log) (Gone u.log) b
                (λ p g left seen j own. grows j (g left seen j own)) h.gone)
              (gone, tt);
        apart = rw e (rw flying h.apart);
      }

  Gone-on_others_note :
      (later : List Note) (ps : List (Tracked × Bool))
      → Grows s.log later
      → All (Gone s.log) ps
      → All (Gone later) (on_others (note_claim z) ps)
  unfolding note_claim keys_of
  Gone-on_others_note later [] g h = tt
  Gone-on_others_note later ((y, c) ∷ ps) g (p, h) =
      (λ left seen j own. g j (p left seen j own), Gone-on_others_note later ps g h)

  Gone-on_others_free :
      (later : List Note) (ps : List (Tracked × Bool))
      → Grows s.log later
      → All (Gone s.log) ps
      → All (Gone later) (on_others (free_claim z) ps)
  unfolding free_claim keys_of
  Gone-on_others_free later [] g h = tt
  Gone-on_others_free later ((y, c) ∷ ps) g (p, h) =
      (λ left seen j own. g j (p left seen j own), Gone-on_others_free later ps g h)

  pub take_over-Kept :
      (now : ℕ)
      → Kept k (walk_at b (z ∷ zs) t s false)
      → Kept k (take_over now z zs (walk_at b (z ∷ zs) t s false))
  unfolding claim
  take_over-Kept now h =
      let xs = rounds_of b in
      let u = noting (late_landed z.rid ∷ []) (claim z s) in
      let grows = λ (j : OrderKey). recorded-noting j (late_landed z.rid ∷ []) (claim z s) in
      let e : rounds_of (on_others (note_claim z) b ++ (sighted_at now z, true) ∷ [])
            ++ map (note_claim z) zs
          ≡ taking now z xs zs =
        rounds_of-on_others (note_claim z) b (sighted_at now z) (map (note_claim z) zs) in
      let o = Apart-Others (in_flight s.inflight) xs z zs h.apart in
      let parts = All-both (Held (xs ++ z ∷ zs) s.log) xs (z ∷ zs) h.released in
      let noted = λ (fr : Tracked) (a : Held (xs ++ z ∷ zs) s.log fr) (n : z.rid ≢ fr.rid).
        Held-note_claim now z xs zs s.log fr a n in
      let on_all =
        All-map_both (Held (xs ++ z ∷ zs) s.log) (λ fr. z.rid ≢ fr.rid)
          (Held (taking now z xs zs) s.log) (note_claim z) in
      let own : Held (taking now z xs zs) s.log (sighted_at now z) =
        All-mono (Founded (xs ++ z ∷ zs) s.log z) (Founded (taking now z xs zs) s.log z) z.claimed
          (Founded-taking now z xs zs s.log z) parts.1.0 in
      record {
        accounted = rw e (claim-Accounted k z xs zs (late_landed z.rid ∷ []) s now h.accounted);
        flight = rw e (
            All-Held-Grows (taking now z xs zs) s.log u.log (in_flight u.inflight) grows (
              All-on_flight (Held (xs ++ z ∷ zs) s.log) (λ fr. z.rid ≢ fr.rid)
                (Held (taking now z xs zs) s.log) (note_claim z) s.inflight noted h.flight o.0));
        released = rw e (
            All-Held-Grows (taking now z xs zs) s.log u.log (taking now z xs zs) grows (
              All-append (Held (taking now z xs zs) s.log) (map (note_claim z) xs)
                (sighted_at now z ∷ map (note_claim z) zs) (on_all xs noted parts.0 o.1)
                (own, on_all zs noted parts.1.1 o.2)));
        gone =
            All-append (Gone u.log) (on_others (note_claim z) b) ((sighted_at now z, true) ∷ [])
              (Gone-on_others_note u.log b grows h.gone) (λ left. absurd (ground arith), tt);
        apart = rw e (rw (ids-taking now z xs zs) (rw (ids-on_flight_note z s.inflight) h.apart));
      }

  pub give_back-Kept :
      Kept k (walk_at b (z ∷ zs) t s false) → Kept k (give_back z zs (walk_at b (z ∷ zs) t s false))
  unfolding unclaim
  give_back-Kept h =
      let xs = rounds_of b in
      let es = erased z.rid ∷ map (λ (o : Queued). reverted (okey o)) (orders_of z) in
      let u = noting es (unclaim z (xs ++ zs) s) in
      let grows = λ (j : OrderKey). recorded-noting j es (unclaim z (xs ++ zs) s) in
      let e : rounds_of (on_others (free_claim z) b ++ (unsighted z, true) ∷ [])
            ++ map (free_claim z) zs
          ≡ giving z xs zs =
        rounds_of-on_others (free_claim z) b (unsighted z) (map (free_claim z) zs) in
      let parts = All-both (Held (xs ++ z ∷ zs) s.log) xs (z ∷ zs) h.released in
      let freed_from =
        λ (fr : Tracked) (a : Held (xs ++ z ∷ zs) s.log fr) (n : Held (xs ++ z ∷ zs) s.log fr).
          Held-free_claim z xs zs s.log fr a in
      let on_all =
        All-map_both (Held (xs ++ z ∷ zs) s.log) (Held (xs ++ z ∷ zs) s.log)
          (Held (giving z xs zs) s.log) (free_claim z) in
      let own : Held (giving z xs zs) s.log (unsighted z) =
        All-mono (Founded (xs ++ z ∷ zs) s.log z) (Founded (giving z xs zs) s.log z) z.claimed
          (λ c f. Founded-giving z xs zs s.log z c f.0 f) parts.1.0 in
      record {
        accounted = rw e (unclaim-Accounted k z xs zs es s h.accounted);
        flight = rw e (
            All-Held-Grows (giving z xs zs) s.log u.log (in_flight u.inflight) grows (
              All-on_flight (Held (xs ++ z ∷ zs) s.log) (Held (xs ++ z ∷ zs) s.log)
                (Held (giving z xs zs) s.log) (free_claim z) s.inflight freed_from h.flight
                h.flight));
        released = rw e (
            All-Held-Grows (giving z xs zs) s.log u.log (giving z xs zs) grows (
              All-append (Held (giving z xs zs) s.log) (map (free_claim z) xs)
                (unsighted z ∷ map (free_claim z) zs) (on_all xs freed_from parts.0 parts.0)
                (own, on_all zs freed_from parts.1.1 parts.1.1)));
        gone =
            All-append (Gone u.log) (on_others (free_claim z) b) ((unsighted z, true) ∷ [])
              (Gone-on_others_free u.log b grows h.gone) (λ left. absurd (ground arith), tt);
        apart = rw e (rw (ids-giving z xs zs) (rw (ids-on_flight_free z s.inflight) h.apart));
      }
