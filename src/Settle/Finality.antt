-- ===== src/Settle/Finality.antt =====
-- offchain/server.py: `_fin_key`, `_track_finality`, `_read_finality`, `_finality_advancing` and
-- `settle_hold_secs`. What `CHAIN.finalized()` and `CHAIN.head()` answer is a parameter, and `none` where
-- they raise. Times are ticks.
use jamswap.Prelude.{
  ℕ, ◌+◌, ◌-◌, Bool, true, false, not, ◌&&◌, Option, none, some, ltb, leb, ◌==◌, if◌then◌else◌,
}

-- A head of the chain. `hash` stands for the octets of the hash.
pub record Head : Type 0 where
  pub height : Option ℕ
  pub slot : Option ℕ
  pub hash : Option ℕ

-- What identifies a finalized head: its slot and hash, or its height.
pub data HeadKey : Type 0 where
  hashed : Option ℕ → ℕ → HeadKey
  high : ℕ → HeadKey

abbrev pub same_slot : Option ℕ → Option ℕ → Bool
same_slot none none = true
same_slot none (some b) = false
same_slot (some a) none = false
same_slot (some a) (some b) = a == b

abbrev pub same_head : HeadKey → HeadKey → Bool
same_head (hashed s h) (hashed t g) = same_slot s t && h == g
same_head (hashed s h) (high b) = false
same_head (high a) (hashed t g) = false
same_head (high a) (high b) = a == b

-- `(fin.slot, fin.hash) if fin.hash is not None else fin.height`
abbrev pub key_at : Option ℕ → Option ℕ → Option ℕ → Option HeadKey
key_at (some h) s n = some (hashed s h)
key_at none s (some n) = some (high n)
key_at none s none = none

unfoldable pub fin_key : Head → Option HeadKey
fin_key fin = key_at fin.hash fin.slot fin.height

-- `_fin_track`
pub record Track : Type 0 where
  pub key : Option HeadKey
  pub seen : ℕ
  pub moved : Option ℕ

-- `t["key"] is not None and key != t["key"]`
abbrev pub moves : Option HeadKey → Option HeadKey → Bool
moves none k = false
moves (some j) none = true
moves (some j) (some k) = not (same_head j k)

unfoldable pub track_finality : Option HeadKey → ℕ → Track → Track
track_finality k now t = record {
  key = k;
  seen = now;
  moved = if moves t.key k then some t.seen else t.moved;
}

-- What `_read_finality` returns; `{"available": False}` is `none`.
pub record View : Type 0 where
  pub available : Bool
  pub finalized_height : ℕ
  pub block_height : ℕ
  pub finalized_slot : ℕ
  pub slot : ℕ
  pub lag : ℕ
  pub by_slot : Bool
  pub hashes : Option (ℕ × ℕ)

abbrev pub or_zero : Option ℕ → ℕ
or_zero none = 0
or_zero (some n) = n

abbrev pub both : Option ℕ → Option ℕ → Option (ℕ × ℕ)
both (some a) (some b) = some (a, b)
both (some a) none = none
both none b = none

abbrev pub view : Head → Head → Bool → ℕ → ℕ → View
view fin head by_slot fh bh = record {
  available = ltb 0 fh;
  finalized_height = fh;
  block_height = bh;
  finalized_slot = or_zero fin.slot;
  slot = or_zero head.slot;
  lag = bh - fh;
  by_slot = by_slot;
  hashes = both fin.hash head.hash;
}

-- The ordinals compared: heights where both heads have one, else slots. A missing slot raises.
abbrev pub view_by : Head → Head → Option (ℕ × ℕ) → Option (ℕ × ℕ) → Option View
view_by fin head (some (fh, bh)) slots = some (view fin head false fh bh)
view_by fin head none (some (fh, bh)) = some (view fin head true fh bh)
view_by fin head none none = none

-- `CHAIN.finalized()`, and `CHAIN.head()` where that is not None.
unfoldable pub both_heads : Option (Option Head) → Option (Option Head) → Option (Head × Head)
both_heads (some (some fin)) (some (some head)) = some (fin, head)
both_heads (some (some fin)) (some none) = none
both_heads (some (some fin)) none = none
both_heads (some none) h = none
both_heads none h = none

-- `_fin_cache` with `_fin_track`.
pub record Watch : Type 0 where
  pub cached : Option (ℕ × Option View)
  pub track : Track

abbrev pub tracked : Head → Option View → ℕ → Track → Track
tracked fin none now t = t
tracked fin (some v) now t = if v.available then track_finality (fin_key fin) now t else t

abbrev pub fresh_view : Option (Head × Head) → Option View
fresh_view none = none
fresh_view (some (fin, head)) =
    view_by fin head (both fin.height head.height) (both fin.slot head.slot)

abbrev pub fresh_track : Option (Head × Head) → ℕ → Track → Track
fresh_track none now t = t
fresh_track (some (fin, head)) now t = tracked fin (fresh_view (some (fin, head))) now t

-- Two seconds, in ticks, is `keep`.
abbrev pub is_cached : ℕ → ℕ → Option (ℕ × Option View) → Bool
is_cached keep now none = false
is_cached keep now (some (t, v)) = ltb now (t + keep)

abbrev pub cached_view : Option (ℕ × Option View) → Option View
cached_view none = none
cached_view (some (t, v)) = v

unfoldable pub read_finality :
    ℕ → ℕ → Option (Option Head) → Option (Option Head) → Watch → Option View × Watch
read_finality keep now fin head w =
    if is_cached keep now w.cached then (cached_view w.cached, w) else (
      fresh_view (both_heads fin head),
      record {
        cached = some (now, fresh_view (both_heads fin head));
        track = fresh_track (both_heads fin head) now w.track;
      },
    )

abbrev pub is_available : Option View → Bool
is_available none = false
is_available (some v) = v.available

-- `moved is not None and now - moved <= FINALITY_WINDOW_SLOTS * SLOT_SECS`
abbrev pub moved_within : ℕ → ℕ → Option ℕ → Bool
moved_within window now none = false
moved_within window now (some t) = leb now (t + window)

-- With the view that `_read_finality` returns, and the window in ticks.
unfoldable pub finality_advancing : ℕ → ℕ → Option View → Track → Bool
finality_advancing window now v t = is_available v && moved_within window now t.moved

-- `settle_hold_secs`: the override, or nothing while finality advances, or the hold's slots.
unfoldable pub settle_hold : Option ℕ → ℕ → Bool → ℕ
settle_hold (some secs) held advancing = secs
settle_hold none held advancing = if advancing then 0 else held
