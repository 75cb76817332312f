-- ===== src/Clearing/Optimal.antt =====
-- The price that `clear` of offchain/clearing.py chooses.
use jamswap.Prelude.{ℕ, suc, ◌≡◌, refl, ◌≤◌, ◌<◌, ◌⊎◌, inl, inr, some, List, [], ◌∷◌, arith, In}
use jamswap.Order.{Order}
use jamswap.Clearing.{
  prices, insert_price, matched, imbalance, Best, consider, scan, no_best, best, settle, clear,
}

-- Ascending, without repeats, from `lo` on.
abbrev pub Ascending : ℕ → List ℕ → Type 0
Ascending lo [] = Unit
Ascending lo (p ∷ ps) = (lo ≤ p) × Ascending (suc p) ps

insert_price-Ascending :
    (p : ℕ) (ps : List ℕ) {lo : ℕ} → lo ≤ p → Ascending lo ps → Ascending lo (insert_price p ps)
unfolding insert_price
insert_price-Ascending p [] le h = (le, tt)
insert_price-Ascending p (q ∷ qs) le h =
    grind (arith, λ (k : suc q ≤ p). insert_price-Ascending p qs {lo = suc q} k h.1)

pub prices-Ascending : (os : List Order) → Ascending 0 (prices os)
unfolding prices
prices-Ascending [] = tt
prices-Ascending (o ∷ os) =
    insert_price-Ascending o.price (prices os) (omega arith) (prices-Ascending os)

pub In-insert_price : (p q : ℕ) (ps : List ℕ) → (q ≡ p) ⊎ In q ps → In q (insert_price p ps)
unfolding insert_price
In-insert_price p q [] (inl e) = inl e
In-insert_price p q [] (inr h) = elim h [ ]
In-insert_price p q (x ∷ xs) (inl e) = ground (arith, In-insert_price p q xs (inl e))
In-insert_price p q (x ∷ xs) (inr (inl e)) = ground arith
In-insert_price p q (x ∷ xs) (inr (inr h)) = ground (arith, In-insert_price p q xs (inr h))

module _ (os : List Order) where
  -- A price is at least as good as another: it trades more, or as much at a smaller imbalance, or
  -- both are equal and it is not higher.
  abbrev pub AtLeast : ℕ → ℕ → Type 0
  AtLeast p q =
      (matched os q < matched os p)
      ⊎ ((matched os q ≡ matched os p)
          × ((imbalance os p < imbalance os q) ⊎ ((imbalance os p ≡ imbalance os q) × (p ≤ q))))

  -- What the loop's variables say, once a volume was found.
  abbrev IsFound : Best → Type 0
  IsFound b =
      (b.volume ≡ matched os b.price) × (b.imb ≡ some (imbalance os b.price)) × (0 < b.volume)

  abbrev Beats : Best → ℕ → Type 0
  Beats b q = ((b.volume ≡ 0) × (matched os q ≡ 0)) ⊎ (IsFound b × AtLeast b.price q)

  abbrev IsSound : ℕ → Best → Type 0
  IsSound lo b = (b.volume ≡ 0) ⊎ (IsFound b × (b.price < lo))

  consider-Beats : (p : ℕ) (b : Best) → IsSound p b → Beats (consider os p b) p
  unfolding consider
  consider-Beats p b s = ground arith

  consider-Beats_old :
      (p q : ℕ) (b : Best) → q < p → IsSound p b → Beats b q → Beats (consider os p b) q
  unfolding consider
  consider-Beats_old p q b lt s h = ground arith

  consider-IsSound : (p : ℕ) (b : Best) → IsSound p b → IsSound (suc p) (consider os p b)
  unfolding consider
  consider-IsSound p b s = ground arith

  -- What was seen stays beaten, and all that is to come gets beaten.
  scan-Beats :
      (ps : List ℕ) (lo q : ℕ) (b : Best)
      → Ascending lo ps
      → IsSound lo b
      → (In q ps ⊎ ((q < lo) × Beats b q))
      → Beats (scan os ps b) q
  unfolding scan
  scan-Beats [] lo q b asc s (inl h) = elim h [ ]
  scan-Beats [] lo q b asc s (inr h) = h.1
  scan-Beats (p ∷ ps) lo q b (le, asc) s (inl (inl e)) =
      scan-Beats ps (suc p) q (consider os p b) asc (consider-IsSound p b (IsSound-le lo p b le s))
        (inr (omega arith, rw e (consider-Beats p b (IsSound-le lo p b le s))))
    where
      IsSound-le : (l m : ℕ) (c : Best) → l ≤ m → IsSound l c → IsSound m c
      IsSound-le l m c k t = ground arith
  scan-Beats (p ∷ ps) lo q b (le, asc) s (inl (inr h)) =
      scan-Beats ps (suc p) q (consider os p b) asc (consider-IsSound p b (ground arith)) (inl h)
  scan-Beats (p ∷ ps) lo q b (le, asc) s (inr (lt, h)) =
      scan-Beats ps (suc p) q (consider os p b) asc (consider-IsSound p b (ground arith))
        (inr (omega arith, consider-Beats_old p q b (omega arith) (ground arith) h))

  scan-IsSound :
      (ps : List ℕ) (lo : ℕ) (b : Best)
      → Ascending lo ps
      → IsSound lo b
      → (hi : ℕ) × IsSound hi (scan os ps b)
  unfolding scan
  scan-IsSound [] lo b asc s = (lo, s)
  scan-IsSound (p ∷ ps) lo b (le, asc) s =
      scan-IsSound ps (suc p) (consider os p b) asc (consider-IsSound p b (ground arith))

  pub best_sound : ((best os).volume ≡ 0) ⊎ ((best os).volume ≡ matched os (best os).price)
  unfolding best
  best_sound =
      ground (arith, (scan-IsSound (prices os) 0 no_best (prices-Ascending os) (inl refl)).1)

  -- The price and the volume of a round that trades are those of the chosen candidate.
  pub clear_chosen :
      0 < (clear os).volume
      → ((clear os).price ≡ (best os).price)
        × ((clear os).volume ≡ (best os).volume)
        × ((clear os).volume ≡ matched os (clear os).price)
  unfolding clear settle best
  clear_chosen h =
      ground (arith, (scan-IsSound (prices os) 0 no_best (prices-Ascending os) (inl refl)).1)

  -- No candidate trades more than the chosen volume.
  pub best-le : (q : ℕ) → In q (prices os) → matched os q ≤ (best os).volume
  unfolding best
  best-le q m =
      ground (arith, scan-Beats (prices os) 0 q no_best (prices-Ascending os) (inl refl) (inl m))

  -- `clear` picks the best of the orders' own prices: when it trades at all, its volume is what
  -- that price matches, and every price of an order trades less, or trades as much at a larger
  -- imbalance, or trades as much at the same imbalance and is not lower.
  pub clear_price_best :
      0 < (clear os).volume
      → ((clear os).volume ≡ matched os (clear os).price)
        × ((q : ℕ) → In q (prices os) → AtLeast (clear os).price q)
  clear_price_best h =
      let (ep, ev, em) = clear_chosen h in
      (
        em,
        λ q m. rw ep (
            found q (scan-Beats (prices os) 0 q no_best (prices-Ascending os) (inl refl) (inl m))
              (rw ev at h)),
      )
    where
      found :
          (q : ℕ)
          → Beats (scan os (prices os) no_best) q
          → 0 < (best os).volume
          → AtLeast (best os).price q
      found q b pos = unfold best in ground arith
