-- ===== src/Settle/Register.antt =====
-- offchain/server.py: `_try_submit_register`, `_resolve_registrations_once` and what `api_register` puts into
-- `_reg_pending`. Whether a key has a handle on the chain, and how a submit ends, are parameters.
use jamswap.Prelude.{
  ℕ, ◌+◌, ◌≤◌, ◌<◌, inl, inr, Bool, true, false, ◌||◌, Option, none, some, List, [], ◌∷◌, ◌++◌, All,
  arith, Bool-cases, leb, ltb, ◌==◌, if◌then◌else◌, any,
}

-- An entry of `_reg_pending`: the key, when it was asked for, the attempts, and the time of the last one.
pub record Registration : Type 0 where
  pub pubkey : ℕ
  pub asked : ℕ
  pub attempts : ℕ
  pub last : ℕ

-- How a submit ends: it goes through, the queues are full (`ChainBusy`), or it raises otherwise.
pub data Submit : Type 0 where
  accepted busy_chain failed : Submit

-- REG_RETRY_SECS, REG_GIVEUP_SECS and REG_MAX_ATTEMPTS.
pub record Patience : Type 0 where
  pub retry_secs : ℕ
  pub giveup_secs : ℕ
  pub max_attempts : ℕ

-- The entry after an attempt, and whether `_try_submit_register` returned.
unfoldable pub try_submit : Submit → ℕ → Registration → Registration × Bool
try_submit accepted now e = (record e { attempts = e.attempts + 1; last = now }, true)
try_submit busy_chain now e = (record e { last = now }, true)
try_submit failed now e = (e, false)

-- The entries once some are resolved, in order, how often each attempt was made, and whether the loop ran to
-- its end; a raise leaves the rest as it was.
pub record Registrations : Type 0 where
  pub entries : List Registration
  pub attempted : List ℕ
  pub completes : Bool

abbrev pub keep_entry : Registration → Registrations → Registrations
keep_entry e r = record r { entries = e ∷ r.entries }

abbrev pub stop_at : List Registration → Registrations
stop_at es = record { entries = es; attempted = []; completes = false }

module _ (p : Patience) (now : ℕ) (has_handle : Registration → Option Bool)
    (submit : Registration → Submit) where
  abbrev pub after_try : Registration × Bool → List Registration → Registrations → Registrations
  after_try (e, true) es later = record later {
    entries = e ∷ later.entries;
    attempted = e.pubkey ∷ later.attempted;
  }
  after_try (e, false) es later = record (stop_at (e ∷ es)) { attempted = e.pubkey ∷ [] }

  abbrev pub on_handle :
      Option Bool → Registration → List Registration → Registrations → Registrations
  on_handle none e es later = stop_at (e ∷ es)
  on_handle (some true) e es later = later
  on_handle (some false) e es later =
      if ltb (e.asked + p.giveup_secs) now || leb p.max_attempts e.attempts
      then later
      else if leb (e.last + p.retry_secs) now
      then after_try (try_submit (submit e) now e) es later
      else keep_entry e later

  -- `_resolve_registrations_once(now)`
  unfoldable pub resolve_registrations : List Registration → Registrations
  resolve_registrations [] = record { entries = []; attempted = []; completes = true }
  resolve_registrations (e ∷ es) = on_handle (has_handle e) e es (resolve_registrations es)

abbrev pub is_pending : ℕ → List Registration → Bool
is_pending k es = any (λ e. e.pubkey == k) es

-- `if pk_hex not in _reg_pending` of `api_register`, for a key without a handle: a new entry, and its first
-- attempt; the entries, and whether the call returned.
unfoldable pub enqueue : ℕ → ℕ → Submit → List Registration → List Registration × Bool
enqueue k now ends es = if is_pending k es then (es, true) else (
  es ++ (try_submit ends now (record { pubkey = k; asked = now; attempts = 0; last = 0 })).0 ∷ [],
  (try_submit ends now (record { pubkey = k; asked = now; attempts = 0; last = 0 })).1,
)

abbrev pub WithinTries : ℕ → List Registration → Type 0
WithinTries n es = All (λ e. e.attempts ≤ n) es

module _ (p : Patience) (now : ℕ) (has_handle : Registration → Option Bool)
    (submit : Registration → Submit) where
  after_try-WithinTries :
      (g : Submit) (e : Registration) (es : List Registration) (later : Registrations)
      → e.attempts < p.max_attempts
      → WithinTries p.max_attempts es
      → WithinTries p.max_attempts later.entries
      → WithinTries p.max_attempts
          (after_try p now has_handle submit (try_submit g now e) es later).entries
  unfolding try_submit
  after_try-WithinTries accepted e es later m h l = (omega arith, l)
  after_try-WithinTries busy_chain e es later m h l = (omega arith, l)
  after_try-WithinTries failed e es later m h l = (omega arith, h)

  on_handle-WithinTries :
      (o : Option Bool) (e : Registration) (es : List Registration) (later : Registrations)
      → e.attempts ≤ p.max_attempts
      → WithinTries p.max_attempts es
      → WithinTries p.max_attempts later.entries
      → WithinTries p.max_attempts (on_handle p now has_handle submit o e es later).entries
  on_handle-WithinTries none e es later m h l = (m, h)
  on_handle-WithinTries (some true) e es later m h l = l
  on_handle-WithinTries (some false) e es later m h l =
      elim (Bool-cases (ltb (e.asked + p.giveup_secs) now || leb p.max_attempts e.attempts)) [
        | inl x ↦ rw x l
        | inr x ↦ rw x (elim (Bool-cases (leb (e.last + p.retry_secs) now)) [
          | inl y ↦ rw y (after_try-WithinTries (submit e) e es later (ground arith) h l)
          | inr y ↦ rw y (m, l)
        ])
      ]

  -- A pending registration never has more than REG_MAX_ATTEMPTS attempts.
  resolve_registrations-WithinTries :
      (es : List Registration)
      → WithinTries p.max_attempts es
      → WithinTries p.max_attempts (resolve_registrations p now has_handle submit es).entries
  unfolding resolve_registrations
  resolve_registrations-WithinTries [] h = tt
  resolve_registrations-WithinTries (e ∷ es) (m, h) =
      on_handle-WithinTries (has_handle e) e es (resolve_registrations p now has_handle submit es) m
        h (resolve_registrations-WithinTries es h)
