-- ===== src/Netwatch/Head.antt =====
-- One sample of the network, as `judge_sample` of offchain/netwatch.py judges it.
use jamswap.Prelude.{
  ℕ, ◌-◌, max, Bool, true, false, not, ◌&&◌, ◌||◌, Option, some, none, List, [], ◌∷◌, length,
  filter, ltb, ◌==◌, if◌then◌else◌,
}

-- A best block: its slot, with a hash (nodes read over JIP-2) or perhaps a height.
pub record Block : Type 0 where
  pub slot : ℕ
  pub hash : Option ℕ
  pub height : Option ℕ

-- `o`, the reading of a node: whether it is up, and its best block.
pub record Reading : Type 0 where
  pub name : ℕ
  pub up : Bool
  pub best : Option Block

-- `s`: the readings, and the blocks at the common slot, a node's hash or none if it is not aligned.
pub record Sample : Type 0 where
  pub nodes : List Reading
  pub blocks : List (ℕ × Option ℕ)

-- `o.get("up") and o.get("best")`, with the best block.
unfoldable pub best_of : Reading → Option Block
best_of o = if o.up then o.best else none

-- `up`, the nodes with their best blocks, and `down`, the others.
abbrev pub with_best : ℕ → Option Block → List (ℕ × Block) → List (ℕ × Block)
with_best n none bs = bs
with_best n (some b) bs = (n, b) ∷ bs

abbrev pub ups : List Reading → List (ℕ × Block)
ups [] = []
ups (o ∷ os) = with_best o.name (best_of o) (ups os)

abbrev pub without_best : ℕ → Option Block → List ℕ → List ℕ
without_best n none ns = n ∷ ns
without_best n (some b) ns = ns

abbrev pub downs : List Reading → List ℕ
downs [] = []
downs (o ∷ os) = without_best o.name (best_of o) (downs os)

-- `top`, which is 0 where no node is up.
abbrev pub top_slot : List (ℕ × Block) → ℕ
top_slot [] = 0
top_slot ((n, b) ∷ bs) = max b.slot (top_slot bs)

-- `n for n, v in lag.items() if v > max_lag`
abbrev pub lagging : ℕ → ℕ → List (ℕ × Block) → List ℕ
lagging max_lag top [] = []
lagging max_lag top ((n, b) ∷ bs) =
    if ltb max_lag (top - b.slot) then n ∷ lagging max_lag top bs else lagging max_lag top bs

abbrev pub hashes : List (ℕ × Option ℕ) → List ℕ
hashes [] = []
hashes ((n, none) ∷ bs) = hashes bs
hashes ((n, some h) ∷ bs) = h ∷ hashes bs

abbrev pub unaligned : List (ℕ × Option ℕ) → List ℕ
unaligned [] = []
unaligned ((n, none) ∷ bs) = n ∷ unaligned bs
unaligned ((n, some h) ∷ bs) = unaligned bs

-- `set(xs)`, as a list without repeats.
abbrev pub distinct : List ℕ → List ℕ
distinct [] = []
distinct (x ∷ xs) = x ∷ filter (λ y. not (y == x)) (distinct xs)

-- The slots and heights of the nodes without a hash.
abbrev pub heights : List (ℕ × Block) → List (ℕ × ℕ)
heights [] = []
heights ((n, b) ∷ bs) = elim b.hash [
  | some _ ↦ heights bs
  | none ↦ elim b.height [ none ↦ heights bs | some h ↦ (b.slot, h) ∷ heights bs ]
]

-- `heights[slot]`
abbrev pub heights_at : ℕ → List (ℕ × ℕ) → List ℕ
heights_at slot [] = []
heights_at slot ((s, h) ∷ hs) = if s == slot then h ∷ heights_at slot hs else heights_at slot hs

-- The slots with more than one height, each as often as a node is at it.
abbrev pub split_slots : List (ℕ × ℕ) → List (ℕ × ℕ) → List ℕ
split_slots hs [] = []
split_slots hs ((s, h) ∷ rest) =
    if ltb 1 (length (distinct (heights_at s hs)))
    then s ∷ split_slots hs rest
    else split_slots hs rest

abbrev pub nil : List ℕ → Bool
nil [] = true
nil (x ∷ xs) = false

abbrev pub some_up : List (ℕ × Block) → Bool
some_up [] = false
some_up (b ∷ bs) = true

pub record HeadVerdict : Type 0 where
  pub ok : Bool
  pub top : ℕ
  pub down : List ℕ
  pub lagging : List ℕ
  pub heads : ℕ
  pub split : Bool
  pub height_split : List ℕ
  pub unaligned : List ℕ

-- `judge_sample`, with the lists that it sorts in the order of the sample. The hash that most nodes
-- hold, the lag of each node and the finalized blocks, which it only passes on, are left out.
unfoldable pub judge_sample : Sample → ℕ → HeadVerdict
judge_sample s max_lag =
    let up = ups s.nodes in
    let late = lagging max_lag (top_slot up) up in
    let heads = length (distinct (hashes s.blocks)) in
    let height_split = split_slots (heights up) (heights up) in
    let split = ltb 1 heads || not (nil height_split) in
    record {
      ok =
          some_up up
          && (nil (downs s.nodes) && (not split && (nil (unaligned s.blocks) && nil late)));
      top = top_slot up;
      down = downs s.nodes;
      lagging = late;
      heads = heads;
      split = split;
      height_split = height_split;
      unaligned = unaligned s.blocks;
    }
