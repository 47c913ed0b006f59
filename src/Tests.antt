-- ===== src/Tests.antt =====
-- Concrete runs: data that the tests share.
mod Books
mod Simulator
mod Money
mod Events
mod Session
mod Statistics
mod Streams
mod Files
mod Samples
mod PythonRuns
mod Sweeps
use crypto_rs_backtester.Prelude.{ℕ}
use crypto_rs_backtester.Prelude.Int.{ℤ, pos}
use crypto_rs_backtester.Types.{Order, Tick, Side, OrderType, L2Update, L3Update}

-- A limit order for 3 units at 100, both scaled by 10 ^ 8.
abbrev pub limit_order : ℕ → Side → Order
limit_order id side = record {
  order_id = id;
  client_order_id = 7;
  ts_submit = pos 5;
  seq = 0;
  price = pos 10000000000;
  qty = pos 300000000;
  symbol_id = 1;
  side = side;
  order_type = OrderType.limit;
}

abbrev pub buy_order : Order
buy_order = limit_order 1 Side.buy

abbrev pub sell_order : Order
sell_order = limit_order 2 Side.sell

-- A trade at 100 by a seller.
abbrev pub sell_trade : ℤ → Tick
sell_trade qty = record {
  ts_exchange = pos 10;
  ts_local = pos 12;
  seq = 1;
  price = pos 10000000000;
  qty = qty;
  symbol_id = 1;
  side = Side.sell;
  flags = 0;
}

abbrev pub bid_update : ℤ → L2Update
bid_update qty = record {
  ts_exchange = pos 1;
  seq = 1;
  price = pos 10000000000;
  qty = qty;
  symbol_id = 1;
  side = Side.buy;
}

abbrev pub bid_action : ℕ → ℕ → ℤ → L3Update
bid_action action id qty = record {
  ts_exchange = pos 1;
  seq = 1;
  symbol_id = 1;
  order_id = id;
  price = pos 10000000000;
  qty = qty;
  side = Side.buy;
  action = action;
}
