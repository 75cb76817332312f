-- ===== src/Clearing/Examples.antt =====
-- Runs of offchain/clearing.py on a small market.
use jamswap.Prelude.{
  ℕ, ◌+◌, ◌-◌, ◌≡◌, refl, ◌≤◌, ◌<◌, inl, inr, true, false, none, List, [], ◌∷◌, arith, min, filter,
  In,
}
use jamswap.Order.{Order, buy, sell}
use jamswap.Clearing.{
  buys_at, sells_at, sum_qty, demand, supply, matched, imbalance, prices, fill_of, ration,
  eligible_buys, clear,
}
use jamswap.Clearing.Optimal.{AtLeast, clear_price_best}
use jamswap.Clearing.Volume.{clear_volume_max}
use jamswap.Clearing.Ration.{sum_fills, may_trade, clear_conserves, clear_fill_bound}
use jamswap.Clearing.Sorting.{Distinct}
use jamswap.Clearing.Priority.{buys_ahead, sells_ahead, clear_buy_priority, clear_sell_priority}
use jamswap.Clearing.Neutral.{Thins, done, keep, leave, IsIdle, clear-Thins}

abbrev pub ask : Order
ask = record {
  tag = 1;
  account = 1;
  oid = 1;
  side = sell;
  price = 10;
  qty = 5;
  sealed = false;
  expiry = none;
  seq = 1;
}

abbrev pub bid : Order
bid = record {
  tag = 2;
  account = 2;
  oid = 2;
  side = buy;
  price = 12;
  qty = 3;
  sealed = false;
  expiry = none;
  seq = 1;
}

abbrev pub late_bid : Order
late_bid = record {
  tag = 3;
  account = 3;
  oid = 3;
  side = buy;
  price = 10;
  qty = 4;
  sealed = false;
  expiry = none;
  seq = 1;
}

abbrev pub low_bid : Order
low_bid = record {
  tag = 4;
  account = 4;
  oid = 4;
  side = buy;
  price = 7;
  qty = 9;
  sealed = false;
  expiry = none;
  seq = 1;
}

abbrev pub market : List Order
market = ask ∷ bid ∷ late_bid ∷ []

market_result :
    clear market ≡ record { price = 10; volume = 5; fills = (2, 3) ∷ (3, 2) ∷ (1, 5) ∷ [] }
unfolding clear demand supply matched imbalance
market_result = refl

market_trades : 0 < (clear market).volume
unfolding clear demand supply matched imbalance
market_trades = omega arith

market-Distinct : Distinct market
market-Distinct = ((ground arith, (ground arith, tt)), ((ground arith, tt), (tt, tt)))

bid_eligible : buys_at (clear market).price late_bid ≡ true
unfolding clear demand supply matched imbalance
bid_eligible = refl

ask_eligible : sells_at (clear market).price ask ≡ true
unfolding clear demand supply matched imbalance
ask_eligible = refl

clear_price_best_example :
    ((clear market).volume ≡ matched market (clear market).price)
    × ((q : ℕ) → In q (prices market) → AtLeast market (clear market).price q)
clear_price_best_example = clear_price_best market market_trades

clear_volume_max_example : min (demand market 11) (supply market 11) ≤ (clear market).volume
clear_volume_max_example = clear_volume_max market 11

clear_conserves_example :
    let c = clear market in
    (sum_fills (ration (eligible_buys market c.price) c.volume []) ≡ c.volume)
    × (sum_fills c.fills ≡ c.volume + c.volume)
clear_conserves_example = clear_conserves market market_trades

clear_fill_bound_example :
    fill_of 3 (clear market).fills
    ≤ sum_qty (filter (may_trade market (clear market).price 3) market)
clear_fill_bound_example = clear_fill_bound market 3

clear_buy_priority_example :
    fill_of 3 (clear market).fills
    ≡ min 4 (
        (clear market).volume
        - buys_ahead market late_bid market-Distinct (inr (inr (inl refl))) (clear market).price)
clear_buy_priority_example =
    clear_buy_priority market late_bid market-Distinct (inr (inr (inl refl))) bid_eligible

clear_sell_priority_example :
    fill_of 1 (clear market).fills
    ≡ min 5 (
        (clear market).volume
        - sells_ahead market ask market-Distinct (inl refl) (clear market).price)
clear_sell_priority_example = clear_sell_priority market ask market-Distinct (inl refl) ask_eligible

low_bid-IsIdle : IsIdle (low_bid ∷ market) low_bid
low_bid-IsIdle s m = ground arith

IsIdle-Thins : Thins (IsIdle (low_bid ∷ market)) (low_bid ∷ market) market
IsIdle-Thins = leave low_bid low_bid-IsIdle (keep ask (keep bid (keep late_bid done)))

clear-Thins_example : clear market ≡ clear (low_bid ∷ market)
clear-Thins_example = clear-Thins (low_bid ∷ market) market IsIdle-Thins
