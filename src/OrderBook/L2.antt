-- ===== src/OrderBook/L2.antt =====
-- backtester-core/src/orderbook_l2.rs: the book of price levels.
pub mod Laws
use crypto_rs_backtester.Prelude.{Option, List, [], if◌then◌else◌}
use crypto_rs_backtester.Prelude.Int.{ℤ, pos, eqb_ℤ}
use crypto_rs_backtester.Prelude.Keys.{int_eq}
use crypto_rs_backtester.Collections.Map.{Map, get_or, insert, remove, first, last}
use crypto_rs_backtester.Types.{Side, L2Update}
use crypto_rs_backtester.OrderBook.Depth.{MarketDepth}

pub record OrderBookL2 : Type 0 where
  pub bids : Map ℤ ℤ
  pub asks : Map ℤ ℤ

unfoldable pub new : OrderBookL2
new = record { bids = []; asks = [] }

-- The change that an update makes to the levels of its side.
set_level : L2Update → Map ℤ ℤ → Map ℤ ℤ
unfolding remove insert
set_level u levels =
    if eqb_ℤ u.qty (pos 0) then remove u.price levels else insert u.price u.qty levels

unfoldable pub apply_l2 : L2Update → OrderBookL2 → OrderBookL2
unfolding set_level
apply_l2 u b = elim u.side [
  | Side.buy ↦ record b { bids = set_level u b.bids }
  | Side.sell ↦ record b { asks = set_level u b.asks }
  | Side.none ↦ b
]

unfoldable pub level_qty : OrderBookL2 → Side → ℤ → ℤ
unfolding get_or
level_qty b Side.buy price = get_or price (pos 0) b.bids
level_qty b Side.sell price = get_or price (pos 0) b.asks
level_qty b Side.none price = pos 0

unfoldable pub best_bid : OrderBookL2 → Option (ℤ × ℤ)
unfolding last
best_bid b = last b.bids

unfoldable pub best_ask : OrderBookL2 → Option (ℤ × ℤ)
unfolding first
best_ask b = first b.asks

-- `impl MarketDepth for OrderBookL2`; the default `orders_ahead` has nothing to show.
unfoldable pub depth : OrderBookL2 → MarketDepth
unfolding level_qty
depth b = record {
  level_qty = level_qty b;
  qty_ahead = λ side price order_id. level_qty b side price;
  orders_ahead = λ side price order_id. [];
}
