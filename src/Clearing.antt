-- ===== src/Clearing.antt =====
-- The uniform-price batch auction of offchain/clearing.py: `clear`, with its nested functions.
pub mod Optimal
pub mod Volume
pub mod Ration
pub mod Sorting
pub mod Priority
pub mod Neutral
pub mod Examples
use jamswap.Prelude.{
  ℕ, ◌+◌, ◌-◌, ◌≡◌, min, Bool, true, false, ◌&&◌, ◌||◌, Option, none, some, List, [], ◌∷◌, ltb, leb,
  ◌==◌, if◌then◌else◌, filter,
}
use jamswap.Order.{Order, is_buy, is_sell}

-- One insertion into an ascending list without repeats.
unfoldable pub insert_price : ℕ → List ℕ → List ℕ
insert_price p [] = p ∷ []
insert_price p (q ∷ qs) =
    if ltb p q then p ∷ q ∷ qs else if p == q then q ∷ qs else q ∷ insert_price p qs

-- `sorted({o["price"] for o in orders})`
unfoldable pub prices : List Order → List ℕ
unfolding insert_price
prices [] = []
prices (o ∷ os) = insert_price o.price (prices os)

-- The test in `demand` and in the list of eligible buys.
abbrev pub buys_at : ℕ → Order → Bool
buys_at p o = is_buy o.side && leb p o.price

-- The test in `supply` and in the list of eligible sells.
abbrev pub sells_at : ℕ → Order → Bool
sells_at p o = is_sell o.side && leb o.price p

abbrev pub sum_qty : List Order → ℕ
sum_qty [] = 0
sum_qty (o ∷ os) = o.qty + sum_qty os

unfoldable pub demand : List Order → ℕ → ℕ
demand os p = sum_qty (filter (buys_at p) os)

unfoldable pub supply : List Order → ℕ → ℕ
supply os p = sum_qty (filter (sells_at p) os)

-- `v = min(d, s)`
unfoldable pub matched : List Order → ℕ → ℕ
matched os p = min (demand os p) (supply os p)

-- `imb = abs(d - s)`
unfoldable pub imbalance : List Order → ℕ → ℕ
imbalance os p = (demand os p - supply os p) + (supply os p - demand os p)

-- `best_p, best_v, best_imb`, where no imbalance is `float("inf")`.
pub record Best : Type 0 where
  pub price : ℕ
  pub volume : ℕ
  pub imb : Option ℕ

-- `imb < best_imb`
abbrev pub below_imb : ℕ → Option ℕ → Bool
below_imb n none = true
below_imb n (some m) = ltb n m

-- The body of the loop over the candidate prices.
unfoldable pub consider : List Order → ℕ → Best → Best
consider os p b =
    let v = matched os p in
    if ltb b.volume v || (v == b.volume && (ltb 0 v && below_imb (imbalance os p) b.imb))
    then record { price = p; volume = v; imb = some (imbalance os p) }
    else b

unfoldable pub scan : List Order → List ℕ → Best → Best
unfolding consider
scan os [] b = b
scan os (p ∷ ps) b = scan os ps (consider os p b)

abbrev pub no_best : Best
no_best = record { price = 0; volume = 0; imb = none }

unfoldable pub best : List Order → Best
unfolding scan prices
best os = scan os (prices os) no_best

-- The sort key `(-o["price"], o["oid"])` of a buy: does `a` sort at or before `b`?
abbrev pub buy_first : Order → Order → Bool
buy_first a b = ltb b.price a.price || (a.price == b.price && leb a.oid b.oid)

-- The sort key `(o["price"], o["oid"])` of a sell.
abbrev pub sell_first : Order → Order → Bool
sell_first a b = ltb a.price b.price || (a.price == b.price && leb a.oid b.oid)

-- Python's stable `sorted` by a key's order.
unfoldable pub insert_by : (Order → Order → Bool) → Order → List Order → List Order
insert_by first o [] = o ∷ []
insert_by first o (x ∷ xs) = if first o x then o ∷ x ∷ xs else x ∷ insert_by first o xs

unfoldable pub sort_by : (Order → Order → Bool) → List Order → List Order
unfolding insert_by
sort_by first [] = []
sort_by first (o ∷ os) = insert_by first o (sort_by first os)

-- The dict `fills`, from order ids to filled quantities.
abbrev pub Fills : Type 0
Fills = List (ℕ × ℕ)

-- `fills.get(oid, 0)`
abbrev pub fill_of : ℕ → Fills → ℕ
fill_of k [] = 0
fill_of k ((j, f) ∷ fs) = if k == j then f else fill_of k fs

-- `fills[oid] = fills.get(oid, 0) + f`
unfoldable pub add_fill : ℕ → ℕ → Fills → Fills
add_fill k f [] = (k, f) ∷ []
add_fill k f ((j, g) ∷ fs) = if k == j then (j, g + f) ∷ fs else (j, g) ∷ add_fill k f fs

-- `ration`: the loop over one side, with what remains of the volume. It breaks at 0.
unfoldable pub ration : List Order → ℕ → Fills → Fills
unfolding add_fill
ration [] rem fills = fills
ration (o ∷ os) rem fills =
    let f = min rem o.qty in
    let rest = ration os (rem - f) (add_fill o.oid f fills) in if rem == 0 then fills else rest

pub record Cleared : Type 0 where
  pub price : ℕ
  pub volume : ℕ
  pub fills : Fills

unfoldable pub eligible_buys : List Order → ℕ → List Order
unfolding sort_by
eligible_buys os p = sort_by buy_first (filter (buys_at p) os)

unfoldable pub eligible_sells : List Order → ℕ → List Order
unfolding sort_by
eligible_sells os p = sort_by sell_first (filter (sells_at p) os)

-- What `clear` does once the price `p` and the volume `v` are chosen.
unfoldable pub settle : List Order → ℕ → ℕ → Cleared
unfolding ration eligible_buys eligible_sells
settle os p v = if v == 0 then record { price = 0; volume = 0; fills = [] } else record {
  price = p;
  volume = v;
  fills = ration (eligible_sells os p) v (ration (eligible_buys os p) v []);
}

unfoldable pub clear : List Order → Cleared
unfolding best settle
clear os = let b = best os in settle os b.price b.volume
