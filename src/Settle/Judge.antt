-- ===== src/Settle/Judge.antt =====
-- offchain/server.py: `_confirmed`, `_round_dead` and `_rival_landed`. What the chain answers while a
-- round is judged is a record of reads, each `none` where the read raises.
use jamswap.Prelude.{
  ℕ, ◌+◌, Bool, true, false, not, ◌&&◌, Option, none, some, List, [], ◌∷◌, any, leb, ◌==◌,
  if◌then◌else◌, max,
}
use jamswap.Settle.Finality.{settle_hold}
use jamswap.Settle.Market.{Tracked, keys_of, mem, Why, book_moved, commit_gone, seq_floor, is_set}

-- The server's constants. Durations are ticks; `held` is SETTLE_HOLD_SLOTS * SLOT_SECS.
pub record Settings : Type 0 where
  pub hold_secs : Option ℕ
  pub held : ℕ
  pub min_confirm : ℕ
  pub dead_confirm : ℕ
  pub round_gate : ℕ
  pub zombie_watch : ℕ
  pub zombie_cap : ℕ
  pub max_orders : ℕ

-- `landed` is `_landed_slot(rid)` and `landed_final` is `_landed_final(rid)`; `book` is the commitment of the
-- on-chain book, `entries` are the entries of the round's commit set, `floor` is `_seq_floor`, and `rival`
-- is the read of another round's marker. `advancing` is `_finality_advancing(now)`.
pub record ChainReads : Type 0 where
  pub landed : Option (Option ℕ)
  pub landed_final : Option (Option Bool)
  pub book : Option ℕ
  pub entries : Option (List ℕ)
  pub floor : ℕ → Option ℕ
  pub rival : Tracked → Option (Option ℕ)
  pub advancing : Bool

-- The landing has been seen for the hold, and for one resolver period.
abbrev pub has_held : Settings → Bool → ℕ → ℕ → Bool
has_held c advancing since now =
    leb (since + max (settle_hold c.hold_secs c.held advancing) c.min_confirm) now

abbrev pub confirmed_by : Settings → Bool → ℕ → ℕ → Option (Option Bool) → Bool
confirmed_by c advancing since now none = false
confirmed_by c advancing since now (some none) = has_held c advancing since now
confirmed_by c advancing since now (some (some true)) = true
confirmed_by c advancing since now (some (some false)) =
    not (not (is_set c.hold_secs) && advancing) && has_held c advancing since now

-- `_confirmed(rec, now)` for a landing first seen at `since`.
unfoldable pub confirmed : Settings → ChainReads → ℕ → ℕ → Bool
confirmed c r since now = confirmed_by c r.advancing since now r.landed_final

-- `any(e not in have for e in fr["consumed"])`
abbrev pub lacks : List ℕ → List ℕ → Bool
lacks have consumed = any (λ e. not (any (λ h. e == h) have)) consumed

-- The accounts whose floor passed the round's oldest order; a read may raise.
abbrev pub after_floor : Option ℕ → ℕ → Option (Option Why) → Option (Option Why)
after_floor none s later = none
after_floor (some f) s later = if leb s f then some (some seq_floor) else later

unfoldable pub floors_passed : (ℕ → Option ℕ) → List (ℕ × ℕ) → Option (Option Why)
floors_passed floor [] = some none
floors_passed floor ((a, s) ∷ ms) = after_floor (floor a) s (floors_passed floor ms)

abbrev pub set_lacks : Option (List ℕ) → List ℕ → Option (Option Why) → Option (Option Why)
set_lacks have [] later = later
set_lacks none (e ∷ es) later = none
set_lacks (some have) (e ∷ es) later =
    if lacks have (e ∷ es) then some (some commit_gone) else later

abbrev pub book_differs : Option ℕ → ℕ → Option (Option Why) → Option (Option Why)
book_differs none hash later = none
book_differs (some h) hash later = if h == hash then later else some (some book_moved)

-- `_round_dead(m, fr)`: why the round can no longer settle, or `some none`; `none` where a read raises.
unfoldable pub round_dead : ChainReads → Tracked → Option (Option Why)
round_dead r fr =
    book_differs r.book fr.book_hash
      (set_lacks r.entries fr.consumed (floors_passed r.floor fr.minseq))

-- `_keys(other) & mine`
abbrev pub shares : Tracked → Tracked → Bool
shares fr other = any (λ k. mem k (keys_of fr)) (keys_of other)

abbrev pub after_rival : Option (Option ℕ) → Option Bool → Option Bool
after_rival none later = none
after_rival (some none) later = later
after_rival (some (some slot)) later = some true

-- `_rival_landed(m, fr)`, with the other tracked rounds; `none` where a read raises.
unfoldable pub rival_landed : ChainReads → Tracked → List Tracked → Option Bool
rival_landed r fr [] = some false
rival_landed r fr (other ∷ os) =
    let later = rival_landed r fr os in
    if shares fr other then after_rival (r.rival other) later else later
