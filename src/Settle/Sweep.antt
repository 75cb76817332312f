-- ===== src/Settle/Sweep.antt =====
-- offchain/server.py: `_abandon`, `_resolve_zombies`, `_resolve_inflight`, and the part of
-- `_resolve_rounds_once` that works on a market's rounds. A round is another than one of the list by its
-- place there, as the source tells them apart by identity.
use jamswap.Prelude.{
  ℕ, zero, suc, ◌+◌, ◌-◌, ◌/◌, max, Bool, true, false, not, ◌&&◌, Option, none, some, List, [], ◌∷◌,
  ◌++◌, map, filter, length, ltb, if◌then◌else◌,
}
use jamswap.Settle.Market.{
  Queued, OrderKey, okey, Tracked, Market, late_landed, erased, abandoned, requeued, reverted, Why,
  timeout, orders_of, keys_of, noting, is_lost, is_sighted, records, claim, note_claim, unclaim,
  free_claim,
}
use jamswap.Settle.Finish.{finalize_round}
use jamswap.Settle.Judge.{Settings, ChainReads, confirmed, rival_landed}

-- `del zs[i]` for the oldest zombie that has not been seen landed.
unfoldable pub forget_oldest : List Tracked → List Tracked
forget_oldest [] = []
forget_oldest (z ∷ zs) = if is_sighted z then z ∷ forget_oldest zs else zs

-- The loop over too long a list, `n` too long: a round without such a zombie changes nothing, and so ends it.
unfoldable pub forget : ℕ → List Tracked → List Tracked
forget zero zs = zs
forget (suc n) zs = forget n (forget_oldest zs)

-- The orders of a released round that no landed one holds.
abbrev pub own_orders : Tracked → List Queued
own_orders fr = filter (λ o. not (is_lost fr o)) (orders_of fr)

-- What a timeout does besides: the market cools down, and an encrypt-until-batch round is halved.
abbrev pub cool_down : Tracked → Why → ℕ → Market → Market
cool_down fr timeout now s = record s {
  gate = some now;
  enc_cap =
      if fr.encset && ltb 0 (length fr.sealed)
      then some (max 1 (length fr.sealed / 2))
      else s.enc_cap;
}
cool_down fr other now s = s

-- `_abandon(m, fr, why, now)`
unfoldable pub abandon : Settings → Tracked → Why → ℕ → Market → Market
abandon c fr why now s =
    let zs =
      s.zombies ++ (record fr { abandoned_at = now; why = some why; ok_since = none }) ∷ [] in
    noting (abandoned fr.rid why ∷ []) (
      cool_down fr why now (record s {
        pending = own_orders fr ++ s.pending;
        zombies = forget (length zs - c.zombie_cap) zs;
        log = s.log ++ map (λ o. requeued (okey o)) (own_orders fr);
      }))

-- What the sweep finds out about a released round.
pub data Sighting : Type 0 where
  forgotten hiccup first_seen waiting settling raising vanished absent : Sighting

-- `_confirmed(z, now) and not _rival_landed(m, z)`
abbrev pub settle_when : Bool → Option Bool → Sighting
settle_when false rival = waiting
settle_when true none = raising
settle_when true (some true) = waiting
settle_when true (some false) = settling

abbrev pub seen_before : Option ℕ → (ℕ → Sighting) → Sighting
seen_before none later = first_seen
seen_before (some t) later = later t

abbrev pub on_marker : Option (Option ℕ) → Option ℕ → (ℕ → Sighting) → Sighting
on_marker none since later = hiccup
on_marker (some (some slot)) since later = seen_before since later
on_marker (some none) none later = absent
on_marker (some none) (some t) later = vanished

module _ (c : Settings) (now : ℕ) where
  -- The marker, and where it has been seen before, the confirmation. `others` are the other rounds.
  unfoldable pub sight : ChainReads → Tracked → List Tracked → Sighting
  sight r fr others =
      on_marker r.landed fr.ok_since
        (λ since. settle_when (confirmed c r since now) (rival_landed r fr others))

  unfoldable pub sight_zombie : ChainReads → Tracked → List Tracked → Sighting
  sight_zombie r z others =
      if not (is_sighted z) && ltb (z.abandoned_at + c.zombie_watch) now
      then forgotten
      else sight r z others

-- The loop over the released rounds: those judged, each with whether it stays watched, those to come, the
-- keys taken, and whether a read has raised.
pub record Walk : Type 0 where
  pub before : List (Tracked × Bool)
  pub after : List Tracked
  pub taken : List OrderKey
  pub market : Market
  pub raised : Bool

abbrev pub on_others : (Tracked → Tracked) → List (Tracked × Bool) → List (Tracked × Bool)
on_others f [] = []
on_others f ((z, b) ∷ zs) = (f z, b) ∷ on_others f zs

abbrev pub rounds_of : List (Tracked × Bool) → List Tracked
rounds_of [] = []
rounds_of ((z, b) ∷ zs) = z ∷ rounds_of zs

abbrev pub kept_of : List (Tracked × Bool) → List Tracked
kept_of [] = []
kept_of ((z, b) ∷ zs) = if b then z ∷ kept_of zs else kept_of zs

-- The loop goes on behind `z`, which stays watched or not.
abbrev pub move_on : Tracked → Bool → List Tracked → Walk → Walk
move_on z keep zs w = record w { before = w.before ++ (z, keep) ∷ []; after = zs }

-- A first sighting: the round's orders are its own.
abbrev pub take_over : ℕ → Tracked → List Tracked → Walk → Walk
take_over now z zs w = record w {
  before = on_others (note_claim z) w.before ++ (record z { ok_since = some now }, true) ∷ [];
  after = map (note_claim z) zs;
  taken = w.taken ++ keys_of z;
  market = noting (late_landed z.rid ∷ []) (claim z w.market);
}

-- A landing that a re-org erased.
abbrev pub give_back : Tracked → List Tracked → Walk → Walk
give_back z zs w = record w {
  before = on_others (free_claim z) w.before ++ (record z { ok_since = none }, true) ∷ [];
  after = map (free_claim z) zs;
  market =
      noting (erased z.rid ∷ map (λ o. reverted (okey o)) (orders_of z))
        (unclaim z (rounds_of w.before ++ zs) w.market);
}

module _ (new_tag : Queued → ℕ) (seal : Queued → Option ℕ) (submit : Queued → Bool) (c : Settings)
    (now : ℕ) where
  unfoldable pub act_zombie : Sighting → Tracked → List Tracked → Walk → Walk
  act_zombie forgotten z zs w = move_on z false zs w
  act_zombie hiccup z zs w = move_on z true zs w
  act_zombie first_seen z zs w = take_over now z zs w
  act_zombie waiting z zs w = move_on z true zs w
  act_zombie settling z zs w =
      move_on z false zs
        (record w { market = finalize_round new_tag seal submit c.max_orders now z w.market })
  act_zombie raising z zs w = record (move_on z true zs w) { raised = true }
  act_zombie vanished z zs w = give_back z zs w
  act_zombie absent z zs w = move_on z true zs w

  module _ (reads : Tracked → ChainReads) where
    unfoldable pub judge_next : List Tracked → Walk → Walk
    judge_next [] w = w
    judge_next (z ∷ zs) w =
        if w.raised
        then w
        else act_zombie
            (sight_zombie c now (reads z) z (records w.market (rounds_of w.before ++ zs))) z zs w

    -- One step for each round of the snapshot `list(_zombies.get(m, []))`.
    unfoldable pub sweep_all : List Tracked → Walk → Walk
    sweep_all [] w = w
    sweep_all (z ∷ snapshot) w = sweep_all snapshot (judge_next w.after w)

    -- A loop that raises does not get to write `keep` back.
    abbrev pub watched : Walk → List Tracked
    watched w = (if w.raised then rounds_of w.before else kept_of w.before) ++ w.after

    -- `_resolve_zombies(now, m)`: the market, the keys taken, and whether it raised.
    unfoldable pub resolve_zombies : Market → Market × List OrderKey × Bool
    resolve_zombies s =
        let w =
          sweep_all s.zombies
            (record { before = []; after = s.zombies; taken = []; market = s; raised = false }) in
        (record w.market { zombies = watched w }, w.taken, w.raised)
