-- ===== src/Settle/Walks.antt =====
-- The loop of `_resolve_zombies` of offchain/server.py: what each of its steps keeps.
use jamswap.Prelude.{
  ℕ, ◌≡◌, ◌≢◌, refl, inl, inr, Bool, true, false, Option, none, some, List, [], ◌∷◌, ◌++◌, map, All,
  arith, Bool-cases, ap, sym, ◌∙◌,
}
use jamswap.Settle.Market.{
  OrderKey, mem, Tracked, Note, is_sighted, keys_of, in_flight, note_claim, free_claim, on_flight,
}
use jamswap.Settle.Sweep.{Walk, on_others, rounds_of}
use jamswap.Settle.Keys.{map-append}
use jamswap.Settle.Recorded.{recorded}
use jamswap.Settle.Account.{backs, Accounted, Founded, Held, Apart, All-both, All-mono}
use jamswap.Settle.Moves.{taking, giving, sighted_at, unsighted}

abbrev pub ids : List Tracked → List ℕ
ids frs = map (λ fr. fr.rid) frs

abbrev pub rounds : Walk → List Tracked
rounds w = rounds_of w.before ++ w.after

-- A round that is no longer watched, and was seen landed, has all its orders recorded.
abbrev pub Gone : List Note → Tracked × Bool → Type 0
Gone log p =
    p.1 ≡ false
    → is_sighted p.0 ≡ true
    → (j : OrderKey) → mem j (keys_of p.0) ≡ true
    → recorded j log ≡ true

abbrev pub Grows : List Note → List Note → Type 0
Grows log later = (j : OrderKey) → recorded j log ≡ true → recorded j later ≡ true

-- What the loop keeps, of an order and of all claims.
pub record Kept (k : OrderKey) (w : Walk) : Type 0 where
  pub accounted : Accounted k (rounds w) w.market
  pub flight : All (Held (rounds w) w.market.log) (in_flight w.market.inflight)
  pub released : All (Held (rounds w) w.market.log) (rounds w)
  pub gone : All (Gone w.market.log) w.before
  pub apart : Apart (ids (in_flight w.market.inflight) ++ ids (rounds w))

pub rounds_of-move_on :
    (b : List (Tracked × Bool)) (z : Tracked) (keep : Bool) (zs : List Tracked)
    → rounds_of (b ++ (z, keep) ∷ []) ++ zs ≡ rounds_of b ++ z ∷ zs
rounds_of-move_on [] z keep zs = refl
rounds_of-move_on ((y, c) ∷ b) z keep zs = ap (λ l. y ∷ l) (rounds_of-move_on b z keep zs)

pub rounds_of-on_others :
    (f : Tracked → Tracked) (b : List (Tracked × Bool)) (z : Tracked) (zs : List Tracked)
    → rounds_of (on_others f b ++ (z, true) ∷ []) ++ zs ≡ map f (rounds_of b) ++ z ∷ zs
rounds_of-on_others f [] z zs = refl
rounds_of-on_others f ((y, c) ∷ b) z zs = ap (λ l. f y ∷ l) (rounds_of-on_others f b z zs)

-- The other rounds' ids differ from that of a round in the middle.
Apart-others :
    (ps qs : List ℕ) (r : ℕ) (cs : List ℕ)
    → Apart (ps ++ (qs ++ r ∷ cs))
    → All (λ q. r ≢ q) ps × All (λ q. r ≢ q) qs × All (λ q. r ≢ q) cs
Apart-others [] [] r cs (h, t) =
    (tt, tt, All-mono (λ q. q ≢ r) (λ q. r ≢ q) cs (λ q n e. n (sym e)) h)
Apart-others [] (b ∷ qs) r cs (h, t) =
    let later = Apart-others [] qs r cs t in
    let parts = All-both (λ q. q ≢ b) qs (r ∷ cs) h in (tt, (parts.1.0, later.1), later.2)
Apart-others (a ∷ ps) qs r cs (h, t) =
    let later = Apart-others ps qs r cs t in
    let back = (All-both (λ q. q ≢ a) ps (qs ++ r ∷ cs) h).1 in
    let own = (All-both (λ q. q ≢ a) qs (r ∷ cs) back).1.0 in ((own, later.0), later.1, later.2)

All-ids : (P : ℕ → Type 0) (frs : List Tracked) → All P (ids frs) → All (λ fr. P fr.rid) frs
All-ids P [] h = tt
All-ids P (fr ∷ frs) (p, h) = (p, All-ids P frs h)

ids-note_claim : (z : Tracked) (frs : List Tracked) → ids (map (note_claim z) frs) ≡ ids frs
unfolding note_claim
ids-note_claim z [] = refl
ids-note_claim z (fr ∷ frs) = ap (λ l. fr.rid ∷ l) (ids-note_claim z frs)

ids-free_claim : (z : Tracked) (frs : List Tracked) → ids (map (free_claim z) frs) ≡ ids frs
unfolding free_claim
ids-free_claim z [] = refl
ids-free_claim z (fr ∷ frs) = ap (λ l. fr.rid ∷ l) (ids-free_claim z frs)

pub ids-taking :
    (now : ℕ) (z : Tracked) (xs ys : List Tracked) → ids (taking now z xs ys) ≡ ids (xs ++ z ∷ ys)
ids-taking now z xs ys =
    map-append (λ fr. fr.rid) (map (note_claim z) xs) (sighted_at now z ∷ map (note_claim z) ys)
    ∙ rw (ids-note_claim z xs)
        (rw (ids-note_claim z ys) (sym (map-append (λ fr. fr.rid) xs (z ∷ ys))))

pub ids-giving : (z : Tracked) (xs ys : List Tracked) → ids (giving z xs ys) ≡ ids (xs ++ z ∷ ys)
ids-giving z xs ys =
    map-append (λ fr. fr.rid) (map (free_claim z) xs) (unsighted z ∷ map (free_claim z) ys)
    ∙ rw (ids-free_claim z xs)
        (rw (ids-free_claim z ys) (sym (map-append (λ fr. fr.rid) xs (z ∷ ys))))

pub ids-on_flight_note :
    (z : Tracked) (f : Option Tracked)
    → ids (in_flight (on_flight (note_claim z) f)) ≡ ids (in_flight f)
unfolding note_claim
ids-on_flight_note z none = refl
ids-on_flight_note z (some fr) = refl

pub ids-on_flight_free :
    (z : Tracked) (f : Option Tracked)
    → ids (in_flight (on_flight (free_claim z) f)) ≡ ids (in_flight f)
unfolding free_claim
ids-on_flight_free z none = refl
ids-on_flight_free z (some fr) = refl

pub All-on_flight :
    (P : Tracked → Type 0) (Q : Tracked → Type 0) (R : Tracked → Type 0) (g : Tracked → Tracked)
    (f : Option Tracked)
    → ((fr : Tracked) → P fr → Q fr → R (g fr))
    → All P (in_flight f)
    → All Q (in_flight f)
    → All R (in_flight (on_flight g f))
All-on_flight P Q R g none h p q = tt
All-on_flight P Q R g (some fr) h p q = (h fr p.0 q.0, tt)

-- The rounds besides `z`, which stands between `xs` and `ys`, have other ids.
abbrev pub Others : Tracked → List Tracked → Type 0
Others z frs = All (λ fr. z.rid ≢ fr.rid) frs

pub Apart-Others :
    (fs xs : List Tracked) (z : Tracked) (ys : List Tracked)
    → Apart (ids fs ++ ids (xs ++ z ∷ ys))
    → Others z fs × Others z xs × Others z ys
Apart-Others fs xs z ys h =
    let split : Apart (ids fs ++ (ids xs ++ z.rid ∷ ids ys)) =
      rw (← map-append (λ (fr : Tracked). fr.rid) xs (z ∷ ys)) h in
    let o = Apart-others (ids fs) (ids xs) z.rid (ids ys) split in
    (
      All-ids (λ q. z.rid ≢ q) fs o.0,
      All-ids (λ q. z.rid ≢ q) xs o.1,
      All-ids (λ q. z.rid ≢ q) ys o.2,
    )

Held-Grows :
    (zs : List Tracked) (log later : List Note) (fr : Tracked)
    → Grows log later
    → Held zs log fr
    → Held zs later fr
Held-Grows zs log later fr g h =
    All-mono (Founded zs log fr) (Founded zs later fr) fr.claimed
      (λ c f. (
        f.0,
        elim (Bool-cases (backs c.0 c.1 zs)) [
          | inl e ↦ rw e refl
          | inr e ↦ let r = g c.0 (ground arith) in ground arith
        ],
      ))
      h

pub All-Held-Grows :
    (zs : List Tracked) (log later : List Note) (frs : List Tracked)
    → Grows log later
    → All (Held zs log) frs
    → All (Held zs later) frs
All-Held-Grows zs log later frs g h =
    All-mono (Held zs log) (Held zs later) frs (λ fr. Held-Grows zs log later fr g) h
