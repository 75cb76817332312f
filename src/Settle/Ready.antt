-- ===== src/Settle/Ready.antt =====
-- offchain/server.py: `_sealed_ready_predicate`, which says what sealed orders a round may reveal, with the
-- market's `_commit_seen`. An entry of the commit set is a number, and so is `_consumed_entry` of an order.
use jamswap.Prelude.{
  ℕ, ◌≡◌, ◌≤◌, refl, ◌⊎◌, inl, inr, Bool, true, false, ◌&&◌, Option, none, some, List, [], ◌∷◌,
  ◌++◌, any, filter, Empty, leb, ◌==◌, if◌then◌else◌, arith, Bool-cases, ==_iff, ap,
}
use jamswap.Settle.Finality.{View}

-- `e in entries`
abbrev pub is_in : ℕ → List ℕ → Bool
is_in e es = any (λ x. e == x) es

-- `seen.get(e)`
unfoldable pub seen_at : ℕ → List (ℕ × ℕ) → Option ℕ
seen_at e [] = none
seen_at e ((x, h) ∷ ss) = if e == x then some h else seen_at e ss

abbrev pub is_seen : ℕ → List (ℕ × ℕ) → Bool
is_seen e ss = any (λ s. e == s.0) ss

-- The first sighting of a commit pins the head's height.
unfoldable pub pin_one : ℕ → ℕ → List (ℕ × ℕ) → List (ℕ × ℕ)
pin_one e h ss = if is_seen e ss then ss else ss ++ (e, h) ∷ []

unfoldable pub pin : List ℕ → ℕ → List (ℕ × ℕ) → List (ℕ × ℕ)
pin [] h ss = ss
pin (e ∷ es) h ss = pin es h (pin_one e h ss)

abbrev pub pin_known : List ℕ → Option ℕ → List (ℕ × ℕ) → List (ℕ × ℕ)
pin_known es none ss = ss
pin_known es (some h) ss = pin es h ss

-- `fin.get("block_height")`
abbrev pub block_height : Option View → Option ℕ
block_height none = none
block_height (some v) = some v.block_height

-- `fh`
abbrev pub final_height : Option View → Option ℕ
final_height none = none
final_height (some v) = if v.available then some v.finalized_height else none

-- The commits that left the set are forgotten.
unfoldable pub note_commits : List ℕ → Option View → List (ℕ × ℕ) → List (ℕ × ℕ)
note_commits entries fin ss =
    filter (λ s. is_in s.0 entries) (pin_known entries (block_height fin) ss)

abbrev pub reaches : ℕ → Option ℕ → Bool
reaches f none = false
reaches f (some h) = leb h f

-- `ready`, less the test that the commit is on the chain.
abbrev pub by_height : Option ℕ → Option ℕ → Bool
by_height none h = true
by_height (some f) h = reaches f h

-- `_sealed_ready_predicate(m, commit_entries, fin, final_entries)`, on the entry of an order, with what becomes
-- of `_commit_seen`.
unfoldable pub sealed_ready_predicate :
    List ℕ → Option View → Option (List ℕ) → List (ℕ × ℕ) → (ℕ → Bool) × List (ℕ × ℕ)
sealed_ready_predicate entries fin (some final_entries) ss =
    ((λ e. is_in e entries && is_in e final_entries), ss)
sealed_ready_predicate entries fin none ss =
    let noted = note_commits entries fin ss in
    ((λ e. is_in e entries && by_height (final_height fin) (seen_at e noted)), noted)

-- What a build read of the commit set.
pub record CommitLook : Type 0 where
  pub entries : List ℕ
  pub fin : Option View

-- `_commit_seen` after builds that could not read the finalized set, the latest first.
unfoldable pub noted_after : List CommitLook → List (ℕ × ℕ)
noted_after [] = []
noted_after (l ∷ ls) = (sealed_ready_predicate l.entries l.fin none (noted_after ls)).1

-- At each look since one at the height `h`, the commit was in the set.
abbrev pub InSetSince : ℕ → ℕ → List CommitLook → Type 0
InSetSince e h [] = Empty
InSetSince e h (l ∷ ls) =
    (is_in e l.entries ≡ true) × ((block_height l.fin ≡ some h) ⊎ InSetSince e h ls)

seen_at-append :
    (e : ℕ) (x h n : ℕ) (ss : List (ℕ × ℕ))
    → seen_at e (ss ++ (x, n) ∷ []) ≡ some h
    → (seen_at e ss ≡ some h) ⊎ (n ≡ h)
unfolding seen_at
seen_at-append e x h n [] k = ground arith
seen_at-append e x h n ((y, m) ∷ ss) k = let ih = seen_at-append e x h n ss in ground arith

seen_at-pin_one :
    (e x h n : ℕ) (ss : List (ℕ × ℕ))
    → seen_at e (pin_one x n ss) ≡ some h
    → (seen_at e ss ≡ some h) ⊎ (n ≡ h)
unfolding pin_one
seen_at-pin_one e x h n ss k =
    elim (Bool-cases (is_seen x ss)) as (λ _. (seen_at e ss ≡ some h) ⊎ (n ≡ h)) [
      | inl s ↦ inl (ground arith)
      | inr s ↦ seen_at-append e x h n ss (ground arith)
    ]

seen_at-pin :
    (e h n : ℕ) (es : List ℕ) (ss : List (ℕ × ℕ))
    → seen_at e (pin es n ss) ≡ some h
    → (seen_at e ss ≡ some h) ⊎ (n ≡ h)
unfolding pin
seen_at-pin e h n [] ss k = inl k
seen_at-pin e h n (x ∷ es) ss k = elim (seen_at-pin e h n es (pin_one x n ss) k) [
  | inl before ↦ seen_at-pin_one e x h n ss before
  | inr now ↦ inr now
]

seen_at-filter :
    (e h : ℕ) (es : List ℕ) (ss : List (ℕ × ℕ))
    → seen_at e (filter (λ s. is_in s.0 es) ss) ≡ some h
    → (is_in e es ≡ true) × (seen_at e ss ≡ some h)
unfolding seen_at
seen_at-filter e h es [] k = absurd (ground arith)
seen_at-filter e h es ((x, n) ∷ ss) k =
    let ih = seen_at-filter e h es ss in
    let swap : (e == x) ≡ true → is_in e es ≡ is_in x es =
      λ q. ap (λ y. is_in y es) ((==_iff e x).0 q) in
    ground arith

none_seen : (e h : ℕ) → ¬ (seen_at e [] ≡ some h)
unfolding seen_at
none_seen e h k = ground arith

pinned :
    {R : Type 0} (e h : ℕ) (es : List ℕ) (now : Option ℕ) (ss : List (ℕ × ℕ))
    → seen_at e (pin_known es now ss) ≡ some h
    → (seen_at e ss ≡ some h → R)
    → (now ≡ some h) ⊎ R
pinned e h es none ss k before = inr (before k)
pinned e h es (some n) ss k before = elim (seen_at-pin e h n es ss k) [
  | inl old ↦ inr (before old)
  | inr new ↦ inl (ap (λ m. some m) new)
]

-- A pinned height is that of a look since which the commit has been in the set.
noted_after-InSetSince :
    (e h : ℕ) (ls : List CommitLook) → seen_at e (noted_after ls) ≡ some h → InSetSince e h ls
unfolding noted_after sealed_ready_predicate note_commits
noted_after-InSetSince e h [] k = absurd (ground (arith, none_seen e h k))
noted_after-InSetSince e h (l ∷ ls) k =
    let ss = noted_after ls in
    let there = seen_at-filter e h l.entries (pin_known l.entries (block_height l.fin) ss) k in
    (there.0, pinned e h l.entries (block_height l.fin) ss there.1 (noted_after-InSetSince e h ls))

-- What makes an order ready at the latest look.
abbrev pub RevealedFor : List CommitLook → Option (List ℕ) → ℕ → CommitLook → Type 0
RevealedFor ls (some final_entries) e l = is_in e final_entries ≡ true
RevealedFor ls none e l =
    (f : ℕ) → final_height l.fin ≡ some f → (h : ℕ) × (h ≤ f) × InSetSince e h (l ∷ ls)

reached_at : (f : ℕ) (p : Option ℕ) → reaches f p ≡ true → (h : ℕ) × (h ≤ f) × (p ≡ some h)
reached_at f none k = absurd (ground arith)
reached_at f (some h) k = (h, ground arith, refl)

height_reached :
    (fh p : Option ℕ) (f : ℕ) → fh ≡ some f → by_height fh p ≡ true → reaches f p ≡ true
height_reached fh p f e k = ground arith

unfold_noted :
    (e h : ℕ) (l : CommitLook) (ls : List CommitLook)
    → seen_at e (note_commits l.entries l.fin (noted_after ls)) ≡ some h
    → seen_at e (noted_after (l ∷ ls)) ≡ some h
unfolding noted_after sealed_ready_predicate
unfold_noted e h l ls k = k

-- A sealed order that a round may reveal has its commit in the set. Where the finalized set could be read it is
-- in that too. Otherwise, on a chain with a finalized head, it has been in the set at each look since one
-- whose head the finalized height has reached.
pub sealed_ready_predicate-Final :
    (e : ℕ) (l : CommitLook) (ls : List CommitLook) (final_entries : Option (List ℕ))
    → (sealed_ready_predicate l.entries l.fin final_entries (noted_after ls)).0 e ≡ true
    → (is_in e l.entries ≡ true) × RevealedFor ls final_entries e l
unfolding sealed_ready_predicate
sealed_ready_predicate-Final e l ls (some final_entries) k = (ground arith, ground arith)
sealed_ready_predicate-Final e l ls none k =
    let noted = note_commits l.entries l.fin (noted_after ls) in
    (
      ground arith,
      λ f known.
          let (h, low, at) =
            reached_at f (seen_at e noted) (height_reached _ _ f known (ground arith)) in
          (h, low, noted_after-InSetSince e h (l ∷ ls) (unfold_noted e h l ls at)),
    )
