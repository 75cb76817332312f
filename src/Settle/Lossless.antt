-- ===== src/Settle/Lossless.antt =====
-- The sweeps of offchain/server.py lose no order: `_resolve_zombies` and `_resolve_inflight`.
use jamswap.Prelude.{
  ℕ, ◌≡◌, ◌≢◌, refl, inl, inr, Bool, true, false, ◌&&◌, ◌||◌, List, [], ◌∷◌, ◌++◌, map, All, arith,
  ◌==◌, Bool-cases, if◌then◌else◌,
}
use jamswap.Settle.Market.{
  OrderKey, okey, mem, Tracked, Market, Note, is_sighted, keys_of, in_flight,
}
use jamswap.Settle.Sweep.{rounds_of, kept_of}
use jamswap.Settle.Recorded.{recorded}
use jamswap.Settle.Account.{
  backed, backs, flies, Accounted, Founded, Held, Apart, All-both, All-append, All-mono,
}
use jamswap.Settle.Steps.{in_places}
use jamswap.Settle.Walks.{ids, Gone, Kept}
use jamswap.Settle.Loop.{walk_at}

-- The tracked rounds have different ids, and each claim noted on one of them is founded.
pub record Sound (s : Market) : Type 0 where
  pub flight : All (Held s.zombies s.log) (in_flight s.inflight)
  pub released : All (Held s.zombies s.log) s.zombies
  pub apart : Apart (ids (in_flight s.inflight) ++ ids s.zombies)

backed-kept_of :
    (k : OrderKey) (log : List Note) (b : List (Tracked × Bool)) (zs : List Tracked)
    → All (Gone log) b
    → backed k (rounds_of b ++ zs) ≡ true
    → (backed k (kept_of b ++ zs) || recorded k log) ≡ true
backed-kept_of k log [] zs g h = rw h refl
backed-kept_of k log ((z, true) ∷ b) zs (g, gs) h =
    let later = backed-kept_of k log b zs gs in
    elim (Bool-cases (is_sighted z && mem k (keys_of z))) [
      | inl e ↦ rw e refl
      | inr e ↦ let l = later (ground arith) in ground arith
    ]
backed-kept_of k log ((z, false) ∷ b) zs (g, gs) h =
    let later = backed-kept_of k log b zs gs in
    elim (Bool-cases (is_sighted z && mem k (keys_of z))) [
      | inl e ↦ let r = g refl (ground arith) k (ground arith) in ground arith
      | inr e ↦ later (ground arith)
    ]

backs-kept_of :
    (k : OrderKey) (r : ℕ) (log : List Note) (b : List (Tracked × Bool)) (zs : List Tracked)
    → All (Gone log) b
    → backs k r (rounds_of b ++ zs) ≡ true
    → (backs k r (kept_of b ++ zs) || recorded k log) ≡ true
backs-kept_of k r log [] zs g h = rw h refl
backs-kept_of k r log ((z, true) ∷ b) zs (g, gs) h =
    let later = backs-kept_of k r log b zs gs in
    elim (Bool-cases (is_sighted z && (z.rid == r && mem k (keys_of z)))) [
      | inl e ↦ rw e refl
      | inr e ↦ let l = later (ground arith) in ground arith
    ]
backs-kept_of k r log ((z, false) ∷ b) zs (g, gs) h =
    let later = backs-kept_of k r log b zs gs in
    elim (Bool-cases (is_sighted z && (z.rid == r && mem k (keys_of z)))) [
      | inl e ↦ let q = g refl (ground arith) k (ground arith) in ground arith
      | inr e ↦ later (ground arith)
    ]

All-kept_of :
    (P : Tracked → Type 0) (b : List (Tracked × Bool)) (zs : List Tracked)
    → All P (rounds_of b ++ zs)
    → All P (kept_of b ++ zs)
All-kept_of P [] zs h = h
All-kept_of P ((z, true) ∷ b) zs (p, h) = (p, All-kept_of P b zs h)
All-kept_of P ((z, false) ∷ b) zs (p, h) = All-kept_of P b zs h

All-ids_kept :
    (P : ℕ → Type 0) (b : List (Tracked × Bool)) (zs : List Tracked)
    → All P (ids (rounds_of b ++ zs))
    → All P (ids (kept_of b ++ zs))
All-ids_kept P [] zs h = h
All-ids_kept P ((z, true) ∷ b) zs (p, h) = (p, All-ids_kept P b zs h)
All-ids_kept P ((z, false) ∷ b) zs (p, h) = All-ids_kept P b zs h

Apart-kept_of :
    (rs : List ℕ) (b : List (Tracked × Bool)) (zs : List Tracked)
    → Apart (rs ++ ids (rounds_of b ++ zs))
    → Apart (rs ++ ids (kept_of b ++ zs))
Apart-kept_of [] [] zs h = h
Apart-kept_of [] ((z, true) ∷ b) zs (p, h) =
    (All-ids_kept (λ q. q ≢ z.rid) b zs p, Apart-kept_of [] b zs h)
Apart-kept_of [] ((z, false) ∷ b) zs (p, h) = Apart-kept_of [] b zs h
Apart-kept_of (r ∷ rs) b zs (p, h) =
    let parts = All-both (λ q. q ≢ r) rs (ids (rounds_of b ++ zs)) p in
    (
      All-append (λ q. q ≢ r) rs (ids (kept_of b ++ zs)) parts.0
          (All-ids_kept (λ q. q ≢ r) b zs parts.1),
      Apart-kept_of rs b zs h,
    )

Held-kept_of :
    (log : List Note) (b : List (Tracked × Bool)) (zs : List Tracked)
    → All (Gone log) b
    → (fr : Tracked) → Held (rounds_of b ++ zs) log fr
    → Held (kept_of b ++ zs) log fr
Held-kept_of log b zs g fr h =
    All-mono (Founded (rounds_of b ++ zs) log fr) (Founded (kept_of b ++ zs) log fr) fr.claimed
      (λ c f. (
        f.0,
        elim (Bool-cases (backs c.0 c.1 (rounds_of b ++ zs))) [
          | inl e ↦ backs-kept_of c.0 c.1 log b zs g e
          | inr e ↦ let r : recorded c.0 log ≡ true = ground arith in ground arith
        ],
      ))
      h

-- The market when the loop is done: the rounds that stay watched, or all where a read raised.
pub done-Accounted :
    (k : OrderKey) (b : List (Tracked × Bool)) (zs : List Tracked) (t : List OrderKey) (s : Market)
    (raised : Bool)
    → Kept k (walk_at b zs t s raised)
    → let ws = (if raised then rounds_of b else kept_of b) ++ zs in
      Accounted k ws s × Sound (record s { zombies = ws })
done-Accounted k b zs t s true h =
    (h.accounted, record { flight = h.flight; released = h.released; apart = h.apart })
done-Accounted k b zs t s false h =
    let frs = rounds_of b ++ zs in
    let ws = kept_of b ++ zs in
    (
      in_places (mem k (map okey s.pending)) (flies k s.inflight) (backed k frs) (recorded k s.log)
          (mem k (map okey s.pending)) (flies k s.inflight) (backed k ws) (recorded k s.log)
          h.accounted (λ m. rw m refl) (λ f. f)
          (λ e. let d = backed-kept_of k s.log b zs h.gone e in ground arith) (λ r. r),
      record {
        flight =
            All-mono (Held frs s.log) (Held ws s.log) (in_flight s.inflight)
              (Held-kept_of s.log b zs h.gone) h.flight;
        released =
            All-mono (Held frs s.log) (Held ws s.log) ws (Held-kept_of s.log b zs h.gone)
              (All-kept_of (Held frs s.log) b zs h.released);
        apart = Apart-kept_of (ids (in_flight s.inflight)) b zs h.apart;
      },
    )
