-- ===== src/Server/Examples.antt =====
-- Runs of offchain/server.py on a queue in which an account's newer order comes first.
use jamswap.Prelude.{
  All, ℕ, ◌≡◌, refl, ◌≤◌, inl, false, true, some, none, List, [], ◌∷◌, arith, length, count, In,
}
use jamswap.Order.{Order, buy}
use jamswap.Round.{is_sealed}
use jamswap.Clearing.{sort_by}
use jamswap.Server.{
  superseded, duplicate, seq_verdict, walk, seq_sanitize, redeal, redeal_from, room, fill_batch,
  cap_batch, see,
}
use jamswap.Server.Pricing.{IsPriced, price_market_orders, price_market_orders-IsPriced}
use jamswap.Server.Seq.{IsAccepted, IsKept, seq_sanitize-IsAccepted, seq_sanitize_complete}
use jamswap.Server.Cap.{sum_gas, cap_batch_bounds}
use jamswap.Server.Oldest.{cap_batch_oldest_first}

abbrev order_at : ℕ → ℕ → Order
order_at tag seq = record {
  tag = tag;
  account = 1;
  oid = tag;
  side = buy;
  price = 10;
  qty = 1;
  sealed = false;
  expiry = none;
  seq = seq;
}

abbrev newer : Order
newer = order_at 1 9

abbrev older : Order
older = order_at 2 7

abbrev stale : Order
stale = order_at 3 5

abbrev queue : List Order
queue = newer ∷ older ∷ stale ∷ older ∷ []

abbrev floor_at : ℕ → ℕ
floor_at a = 5

sanitized : seq_sanitize floor_at queue ≡ record {
  kept = older ∷ newer ∷ [];
  dead = (stale, superseded 5 5) ∷ (older, duplicate 7) ∷ [];
  floors = (1, 5) ∷ [];
}
unfolding seq_sanitize walk seq_verdict see sort_by
sanitized = refl

abbrev gas_of : Order → ℕ
gas_of o = 10

capped : cap_batch 1 gas_of 100 none (newer ∷ older ∷ []) ≡ (older ∷ [], newer ∷ [])
unfolding cap_batch redeal redeal_from fill_batch room sort_by
capped = refl

older_batched : In older (cap_batch 1 gas_of 100 none (newer ∷ older ∷ [])).0
unfolding cap_batch redeal redeal_from fill_batch room sort_by
older_batched = inl refl

newer_waits : In newer (cap_batch 1 gas_of 100 none (newer ∷ older ∷ [])).1
unfolding cap_batch redeal redeal_from fill_batch room sort_by
newer_waits = inl refl

seq_sanitize-IsAccepted_example : IsAccepted floor_at (seq_sanitize floor_at queue).kept
seq_sanitize-IsAccepted_example = seq_sanitize-IsAccepted floor_at queue

seq_sanitize_complete_example : IsKept floor_at newer (seq_sanitize floor_at queue).kept
seq_sanitize_complete_example = seq_sanitize_complete floor_at queue newer (inl refl) (omega arith)

cap_batch_bounds_example :
    let batch = (cap_batch 2 gas_of 100 (some 1) queue).0 in
    (length batch ≤ 2)
    × (sum_gas gas_of batch ≤ 100)
    × ((m : ℕ) → some 1 ≡ some m → count is_sealed batch ≤ m)
cap_batch_bounds_example = cap_batch_bounds 2 gas_of 100 (some 1) queue

cap_batch_oldest_first_example : older.seq ≤ newer.seq
cap_batch_oldest_first_example =
    cap_batch_oldest_first 1 gas_of 100 none (newer ∷ older ∷ []) older newer older_batched
      newer_waits refl refl refl refl

-- Every order is a market order, at the last price 7.
price_market_orders-IsPriced_example :
    All (IsPriced (λ t. true) 7) (price_market_orders (λ t. true) 7 queue).0
price_market_orders-IsPriced_example = price_market_orders-IsPriced (λ t. true) 7 queue
