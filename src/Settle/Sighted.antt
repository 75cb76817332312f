-- ===== src/Settle/Sighted.antt =====
-- When `_resolve_inflight` of offchain/server.py finalizes a round, over the sweeps since it was submitted.
use jamswap.Prelude.{
  ℕ, ◌≡◌, refl, ◌⊎◌, Bool, true, false, Option, none, some, List, [], ◌∷◌, count, Empty, ◌==◌,
}
use jamswap.Settle.Market.{
  Tracked, Market, Note, settled, landed, late_landed, erased, abandoned, receipt, ended, rested,
  requeued, reverted, rounded, deferred, expired,
}
use jamswap.Settle.Judge.{Settings, ChainReads, round_dead, confirmed, rival_landed}
use jamswap.Settle.Sweep.{
  Sighting, hiccup, first_seen, waiting, settling, raising, vanished, absent, sight, settle_when,
  on_marker,
}

-- The sweeps, the latest first: the time and the reads of each.
abbrev pub History : Type 0
History = List (ℕ × ChainReads)

abbrev pub IsLanded : ChainReads → Type 0
IsLanded r = (slot : ℕ) × (r.landed ≡ some (some slot))

-- A read of the round raised.
abbrev pub Unread : ChainReads → Tracked → Type 0
Unread r fr = (r.landed ≡ none) ⊎ (round_dead r fr ≡ none)

-- The round was seen landed at `t`, and has been so at each sweep since that could read it.
abbrev pub SeenSince : Tracked → ℕ → History → Type 0
SeenSince fr t [] = Empty {0}
SeenSince fr t ((n, r) ∷ h) =
    ((n ≡ t) × IsLanded r) ⊎ ((IsLanded r ⊎ Unread r fr) × SeenSince fr t h)

abbrev pub Sighted : Tracked → Option ℕ → History → Type 0
Sighted fr none h = Unit
Sighted fr (some t) h = SeenSince fr t h

-- What `sight` found out, with its grounds.
pub data Found (c : Settings) (now : ℕ) (r : ChainReads) (fr : Tracked) (others : List Tracked)
    : Sighting → Type 0 where
  is_hiccup : r.landed ≡ none → Found c now r fr others hiccup
  is_first : IsLanded r → fr.ok_since ≡ none → Found c now r fr others first_seen
  is_waiting : IsLanded r → Found c now r fr others waiting
  is_raising : IsLanded r → Found c now r fr others raising
  is_settling :
      (t : ℕ)
      → IsLanded r
      → fr.ok_since ≡ some t
      → confirmed c r t now ≡ true
      → rival_landed r fr others ≡ some false
      → Found c now r fr others settling
  is_vanished : Found c now r fr others vanished
  is_absent : fr.ok_since ≡ none → Found c now r fr others absent

settle_when-Found :
    (c : Settings) (now : ℕ) (r : ChainReads) (fr : Tracked) (others : List Tracked) (t : ℕ)
    (v : Bool) (q : Option Bool)
    → IsLanded r
    → fr.ok_since ≡ some t
    → confirmed c r t now ≡ v
    → rival_landed r fr others ≡ q
    → Found c now r fr others (settle_when v q)
settle_when-Found c now r fr others t false q l o e f = is_waiting l
settle_when-Found c now r fr others t true none l o e f = is_raising l
settle_when-Found c now r fr others t true (some true) l o e f = is_waiting l
settle_when-Found c now r fr others t true (some false) l o e f = is_settling t l o e f

on_marker-Found :
    (c : Settings) (now : ℕ) (r : ChainReads) (fr : Tracked) (others : List Tracked)
    (m : Option (Option ℕ)) (since : Option ℕ)
    → r.landed ≡ m
    → fr.ok_since ≡ since
    → Found c now r fr others
        (on_marker m since (λ t. settle_when (confirmed c r t now) (rival_landed r fr others)))
on_marker-Found c now r fr others none since e o = is_hiccup e
on_marker-Found c now r fr others (some (some slot)) none e o = is_first (slot, e) o
on_marker-Found c now r fr others (some (some slot)) (some t) e o =
    settle_when-Found c now r fr others t (confirmed c r t now) (rival_landed r fr others) (slot, e)
      o refl refl
on_marker-Found c now r fr others (some none) none e o = is_absent o
on_marker-Found c now r fr others (some none) (some t) e o = is_vanished

pub sight-Found :
    (c : Settings) (now : ℕ) (r : ChainReads) (fr : Tracked) (others : List Tracked)
    → Found c now r fr others (sight c now r fr others)
unfolding sight
sight-Found c now r fr others = on_marker-Found c now r fr others r.landed fr.ok_since refl refl

-- The notes that say a round is settled.
abbrev pub is_settled : ℕ → Note → Bool
is_settled rid (settled r) = rid == r
is_settled rid (landed r) = false
is_settled rid (late_landed r) = false
is_settled rid (erased r) = false
is_settled rid (abandoned r why) = false
is_settled rid (receipt j d f) = false
is_settled rid (ended j d f) = false
is_settled rid (rested j p x f e) = false
is_settled rid (requeued j) = false
is_settled rid (reverted j) = false
is_settled rid (rounded j) = false
is_settled rid (deferred j) = false
is_settled rid (expired a oid) = false

abbrev pub settlements : ℕ → Market → ℕ
settlements rid s = count (λ n. is_settled rid n) s.log
