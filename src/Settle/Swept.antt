-- ===== src/Settle/Swept.antt =====
-- The whole of `_resolve_zombies` of offchain/server.py: no order is lost, where no round is finalized of
-- which another landed round holds an order.
use jamswap.Prelude.{ℕ, ◌≡◌, ◌≢◌, refl, Bool, true, false, Option, List, [], ◌∷◌, ◌++◌, any, arith}
use jamswap.Settle.Market.{Queued, OrderKey, same_order, Tracked, Market, is_sighted, records}
use jamswap.Settle.Finish.{finalize_round}
use jamswap.Settle.Judge.{Settings, ChainReads, confirmed, rival_landed}
use jamswap.Settle.Sweep.{
  Sighting, forgotten, hiccup, first_seen, waiting, settling, raising, vanished, absent, Walk,
  rounds_of, act_zombie, judge_next, sweep_all, sight_zombie, settle_when, on_marker, sight,
}
use jamswap.Settle.Recorded.{finalize_round-keeps, finalize_round-records}
use jamswap.Settle.Walks.{Kept}
use jamswap.Settle.Loop.{walk_at, pass-Kept, take_over-Kept, give_back-Kept}

-- `forgotten` is only found out about a round that has not been seen landed.
on_marker-forgotten :
    (m : Option (Option ℕ)) (since : Option ℕ) (v : ℕ → Bool) (r : Option Bool)
    → on_marker m since (λ t. settle_when (v t) r) ≢ forgotten
on_marker-forgotten m since v r h = ground arith

sight_zombie-forgotten :
    (c : Settings) (now : ℕ) (r : ChainReads) (z : Tracked) (others : List Tracked)
    → sight_zombie c now r z others ≡ forgotten
    → is_sighted z ≡ false
unfolding sight_zombie sight
sight_zombie-forgotten c now r z others h =
    let o =
      on_marker-forgotten r.landed z.ok_since (λ t. confirmed c r t now)
        (rival_landed r z others) in
    ground arith

module _ (new_tag : Queued → ℕ) (seal : Queued → Option ℕ) (submit : Queued → Bool) (c : Settings)
    (now : ℕ) (reads : Tracked → ChainReads) where
  -- The next round is not finalized while another landed round holds an order of it.
  abbrev pub WholeNext : List Tracked → Walk → Type 0
  WholeNext [] w = Unit
  WholeNext (z ∷ zs) w =
      sight_zombie c now (reads z) z (records w.market (rounds_of w.before ++ zs)) ≡ settling
      → z.claimed ≡ []

  -- So it is at each step of the loop.
  abbrev pub Whole : List Tracked → Walk → Type 0
  Whole [] w = Unit
  Whole (z ∷ snapshot) w =
      WholeNext w.after w × Whole snapshot (judge_next new_tag seal submit c now reads w.after w)

module _ (new_tag : Queued → ℕ) (seal : Queued → Option ℕ) (submit : Queued → Bool) (c : Settings)
    (now : ℕ) (k : OrderKey) where
  act_zombie-Kept :
      (g : Sighting) (b : List (Tracked × Bool)) (z : Tracked) (zs : List Tracked)
      (t : List OrderKey) (s : Market)
      → Kept k (walk_at b (z ∷ zs) t s false)
      → (g ≡ forgotten → is_sighted z ≡ false)
      → (g ≡ settling → z.claimed ≡ [])
      → Kept k (act_zombie new_tag seal submit c now g z zs (walk_at b (z ∷ zs) t s false))
  unfolding act_zombie
  act_zombie-Kept forgotten b z zs t s h unseen whole =
      let un = unseen refl in
      pass-Kept k b z zs t s false false s h refl (λ m. m) (λ j r. r)
        (λ left seen. absurd (ground arith))
  act_zombie-Kept hiccup b z zs t s h unseen whole =
      pass-Kept k b z zs t s false true s h refl (λ m. m) (λ j r. r) (λ left. absurd (ground arith))
  act_zombie-Kept first_seen b z zs t s h unseen whole = take_over-Kept k b z zs t s now h
  act_zombie-Kept waiting b z zs t s h unseen whole =
      pass-Kept k b z zs t s false true s h refl (λ m. m) (λ j r. r) (λ left. absurd (ground arith))
  act_zombie-Kept settling b z zs t s h unseen whole =
      let u = finalize_round new_tag seal submit c.max_orders now z s in
      let keeps = finalize_round-keeps new_tag seal submit c.max_orders now z s in
      pass-Kept k b z zs t s false false u h (keeps k).0 (keeps k).1 (λ j. (keeps j).2)
        (λ left seen j own.
          let none_held : any (λ e. same_order j e.0) z.claimed ≡ false = rw (whole refl) refl in
          let r = finalize_round-records new_tag seal submit c.max_orders now z s j own in
          ground arith)
  act_zombie-Kept raising b z zs t s h unseen whole =
      pass-Kept k b z zs t s true true s h refl (λ m. m) (λ j r. r) (λ left. absurd (ground arith))
  act_zombie-Kept vanished b z zs t s h unseen whole = give_back-Kept k b z zs t s h
  act_zombie-Kept absent b z zs t s h unseen whole =
      pass-Kept k b z zs t s false true s h refl (λ m. m) (λ j r. r) (λ left. absurd (ground arith))

  module _ (reads : Tracked → ChainReads) where
    judge_next-Kept :
        (b : List (Tracked × Bool)) (zs : List Tracked) (t : List OrderKey) (s : Market) (r : Bool)
        → Kept k (walk_at b zs t s r)
        → WholeNext new_tag seal submit c now reads zs (walk_at b zs t s r)
        → Kept k (judge_next new_tag seal submit c now reads zs (walk_at b zs t s r))
    unfolding judge_next
    judge_next-Kept b [] t s r h whole = h
    judge_next-Kept b (z ∷ zs) t s true h whole = h
    judge_next-Kept b (z ∷ zs) t s false h whole =
        let others = records s (rounds_of b ++ zs) in
        act_zombie-Kept (sight_zombie c now (reads z) z others) b z zs t s h
          (sight_zombie-forgotten c now (reads z) z others) whole

    pub sweep_all-Kept :
        (snapshot : List Tracked) (w : Walk)
        → Kept k w
        → Whole new_tag seal submit c now reads snapshot w
        → Kept k (sweep_all new_tag seal submit c now reads snapshot w)
    unfolding sweep_all
    sweep_all-Kept [] w h whole = h
    sweep_all-Kept (z ∷ snapshot) w h whole =
        sweep_all-Kept snapshot (judge_next new_tag seal submit c now reads w.after w)
          (judge_next-Kept w.before w.after w.taken w.market w.raised h whole.0) whole.1
