-- ===== src/Netwatch/OneHead.antt =====
-- What a sample that `judge_sample` of offchain/netwatch.py calls ok has.
use jamswap.Prelude.{
  ℕ, ◌+◌, ◌-◌, ◌≡◌, refl, sym, ◌∙◌, ◌↔◌, inl, inr, ◌≤◌, ◌<◌, Bool, true, false, not, ◌&&◌, ◌||◌,
  Option, some, none, List, [], ◌∷◌, arith, length, filter, All, In, In-filter, In-filter_inv, ltb,
  ◌==◌, Bool-cases, Option-cases, List-cases,
}
use jamswap.Netwatch.Head.{
  Block, Reading, Sample, best_of, ups, downs, top_slot, lagging, hashes, unaligned, distinct,
  heights, heights_at, split_slots, nil, some_up, judge_sample,
}

In-distinct : (y : ℕ) (xs : List ℕ) → In y xs → In y (distinct xs)
In-distinct y [] m = m
In-distinct y (x ∷ xs) (inl e) = inl e
In-distinct y (x ∷ xs) (inr m) = elim (Bool-cases (y == x)) [
  | inl same ↦ inl (ground arith)
  | inr other ↦
      inr (In-filter (λ z. not (z == x)) y (distinct xs) (In-distinct y xs m) (ground arith))
]

distinct-In : (y : ℕ) (xs : List ℕ) → In y (distinct xs) → In y xs
distinct-In y [] m = m
distinct-In y (x ∷ xs) (inl e) = inl e
distinct-In y (x ∷ xs) (inr m) =
    inr (distinct-In y xs (In-filter_inv (λ z. not (z == x)) y (distinct xs) m).0)

In-length : (y : ℕ) (xs : List ℕ) → In y xs → 0 < length xs
In-length y [] m = elim m [ ]
In-length y (x ∷ xs) m = omega arith

-- All the values of a list are one.
abbrev pub Agree : List ℕ → Type 0
Agree xs = (x y : ℕ) → In x xs → In y xs → x ≡ y

one_value : (x : ℕ) (xs : List ℕ) → length (distinct (x ∷ xs)) ≤ 1 → (y : ℕ) → In y (x ∷ xs) → y ≡ x
one_value x xs h y m = elim (In-distinct y (x ∷ xs) m) [
  | inl e ↦ e
  | inr k ↦ absurd (omega (arith, In-length y (filter (λ z. not (z == x)) (distinct xs)) k))
]

distinct-Agree : (xs : List ℕ) → length (distinct xs) ≤ 1 → Agree xs
distinct-Agree [] h x y m k = elim m [ ]
distinct-Agree (z ∷ zs) h x y m k = one_value z zs h x m ∙ sym (one_value z zs h y k)

Agree-distinct : (xs : List ℕ) → Agree xs → length (distinct xs) ≤ 1
Agree-distinct [] a = omega arith
Agree-distinct (x ∷ xs) a = elim (List-cases (filter (λ z. not (z == x)) (distinct xs))) [
  | inl none_left ↦ rw none_left (omega arith)
  | inr (y, ys, e) ↦
      let (m, other) = In-filter_inv (λ z. not (z == x)) y (distinct xs) (rw e (inl refl)) in
      let same : y ≡ x = a y x (inr (distinct-In y xs m)) (inl refl) in absurd (ground arith)
]

downs-nil :
    (os : List Reading) → (nil (downs os) ≡ true) ↔ All (λ o. (b : Block) × (best_of o ≡ some b)) os
downs-nil [] = (λ h. tt, λ h. refl)
downs-nil (o ∷ os) = elim (Option-cases (best_of o)) [
  | inl gone ↦ (λ h. absurd (cc (rw gone at h)), λ ((b, e), a). absurd (cc (gone, e)))
  | inr (b, e) ↦
      let (to, from) = downs-nil os in (λ h. ((b, e), to (rw e at h)), λ (_, a). rw e (from a))
]

lagging_nil :
    (max_lag top : ℕ) (bs : List (ℕ × Block))
    → (nil (lagging max_lag top bs) ≡ true) ↔ All (λ (n, b). top ≤ b.slot + max_lag) bs
lagging_nil max_lag top [] = (λ h. tt, λ h. refl)
lagging_nil max_lag top ((n, b) ∷ bs) = elim (Bool-cases (ltb max_lag (top - b.slot))) [
  | inl far ↦ (λ h. absurd (cc (rw far at h)), λ (le, a). absurd (ground arith))
  | inr near ↦
      let (to, from) = lagging_nil max_lag top bs in
      (λ h. (ground arith, to (rw near at h)), λ (_, a). rw near (from a))
]

unaligned_nil :
    (bs : List (ℕ × Option ℕ))
    → (nil (unaligned bs) ≡ true) ↔ All (λ (n, h). (x : ℕ) × (h ≡ some x)) bs
unaligned_nil [] = (λ h. tt, λ h. refl)
unaligned_nil ((n, none) ∷ bs) = (λ h. absurd (cc h), λ ((x, e), a). absurd (cc e))
unaligned_nil ((n, some x) ∷ bs) =
    let (to, from) = unaligned_nil bs in (λ h. ((x, refl), to h), λ (_, a). from a)

split_nil :
    (hs rest : List (ℕ × ℕ))
    → (nil (split_slots hs rest) ≡ true) ↔ All (λ (s, h). Agree (heights_at s hs)) rest
split_nil hs [] = (λ h. tt, λ h. refl)
split_nil hs ((s, h) ∷ rest) = elim (Bool-cases (ltb 1 (length (distinct (heights_at s hs))))) [
  | inl many ↦ (
    λ k. absurd (cc (rw many at k)),
    λ (a, _). let le = Agree-distinct (heights_at s hs) a in absurd (ground arith),
  )
  | inr one ↦
      let (to, from) = split_nil hs rest in
      (
        λ k. (distinct-Agree (heights_at s hs) (ground arith), to (rw one at k)),
        λ (_, a). rw one (from a),
      )
]

-- Every node is up with a best block and none trails the newest by more than the bound; every node read
-- by hash is aligned, and all hold one hash; and of the nodes read by height, those at one slot hold one
-- height.
pub record IsOneHead (s : Sample) (max_lag : ℕ) : Type 0 where
  pub some_node : some_up (ups s.nodes) ≡ true
  pub all_up : All (λ o. (b : Block) × (best_of o ≡ some b)) s.nodes
  pub one_hash : Agree (hashes s.blocks)
  pub one_height :
      All (λ (slot, h). Agree (heights_at slot (heights (ups s.nodes)))) (heights (ups s.nodes))
  pub aligned : All (λ (n, h). (x : ℕ) × (h ≡ some x)) s.blocks
  pub near : All (λ (n, b). top_slot (ups s.nodes) ≤ b.slot + max_lag) (ups s.nodes)

all_true :
    (a b c d e f : Bool)
    → (a && (b && (not (c || not d) && (e && f)))) ≡ true
    → (a ≡ true) × (b ≡ true) × (c ≡ false) × (d ≡ true) × (e ≡ true) × (f ≡ true)
all_true a b c d e f h = ground arith

true_all :
    (a b c d e f : Bool)
    → a ≡ true
    → b ≡ true
    → c ≡ false
    → d ≡ true
    → e ≡ true
    → f ≡ true
    → (a && (b && (not (c || not d) && (e && f)))) ≡ true
true_all a b c d e f p q r s t u = ground arith

-- A sample is called ok exactly if it is one head.
pub judge_sample_iff :
    (s : Sample) (max_lag : ℕ) → ((judge_sample s max_lag).ok ≡ true) ↔ IsOneHead s max_lag
unfolding judge_sample
judge_sample_iff s max_lag =
    let up = ups s.nodes in
    let heads = length (distinct (hashes s.blocks)) in
    let splits = split_slots (heights up) (heights up) in
    let late = lagging max_lag (top_slot up) up in
    (
      (λ h.
          let (a, b, c, d, e, f) =
            all_true (some_up up) (nil (downs s.nodes)) (ltb 1 heads) (nil splits)
              (nil (unaligned s.blocks)) (nil late) h in
          record {
            some_node = a;
            all_up = (downs-nil s.nodes).0 b;
            one_hash = distinct-Agree (hashes s.blocks) (ground arith);
            one_height = (split_nil (heights up) (heights up)).0 d;
            aligned = (unaligned_nil s.blocks).0 e;
            near = (lagging_nil max_lag (top_slot up) up).0 f;
          }),
      (λ i.
          let le = Agree-distinct (hashes s.blocks) i.one_hash in
          true_all (some_up up) (nil (downs s.nodes)) (ltb 1 heads) (nil splits)
            (nil (unaligned s.blocks)) (nil late) i.some_node ((downs-nil s.nodes).1 i.all_up)
            (ground arith) ((split_nil (heights up) (heights up)).1 i.one_height)
            ((unaligned_nil s.blocks).1 i.aligned)
            ((lagging_nil max_lag (top_slot up) up).1 i.near)),
    )
