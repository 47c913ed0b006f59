-- ===== src/OrderBook/L3.antt =====
-- backtester-core/src/orderbook_l3.rs: the book of individual orders, first in first out at a price.
pub mod Invariant
pub mod Laws
use crypto_rs_backtester.Prelude.{
  ℕ, Bool, true, false, Option, none, some, List, [], ◌∷◌, ◌++◌, map, Result, ok, err, eqb,
  if◌then◌else◌,
}
use crypto_rs_backtester.Prelude.Int.{ℤ, pos, ltb_ℤ, leb_ℤ, eqb_ℤ}
use crypto_rs_backtester.Prelude.I64.{sum_i64}
use crypto_rs_backtester.Prelude.Keys.{int_eq}
use crypto_rs_backtester.Collections.Map.{Map, get, get_or, insert, remove, first, last}
use crypto_rs_backtester.Types.{Side, side_beq, L3Update}
use crypto_rs_backtester.OrderBook.Depth.{MarketDepth}

-- A venue order: its id and its quantity. A level is a queue of them, the oldest first.
abbrev pub Level : Type 0
Level = List (ℕ × ℤ)

abbrev pub Levels : Type 0
Levels = Map ℤ Level

pub record OrderBookL3 : Type 0 where
  pub bids : Levels
  pub asks : Levels

-- The messages of `apply_l3`.
pub data L3Error : Type 0 where
  invalid_side add_qty_not_positive modify_qty_negative invalid_action : L3Error

abbrev pub l3_add : ℕ
l3_add = 1

abbrev pub l3_modify : ℕ
l3_modify = 2

abbrev pub l3_delete : ℕ
l3_delete = 3

unfoldable pub new : OrderBookL3
new = record { bids = []; asks = [] }

-- `retain(|(id, _)| *id != order_id)`
unfoldable pub retain : ℕ → Level → Level
retain id [] = []
retain id ((i, q) ∷ rest) = let kept = retain id rest in if eqb i id then kept else (i, q) ∷ kept

-- `iter_mut().find(..)`, whose quantity is then set
unfoldable pub set_qty : ℕ → ℤ → Level → Level
set_qty id qty [] = []
set_qty id qty ((i, q) ∷ rest) = if eqb i id then (i, qty) ∷ rest else (i, q) ∷ set_qty id qty rest

-- A level that has become empty is removed.
put_level : ℤ → Level → Levels → Levels
unfolding insert remove
put_level price [] levels = remove price levels
put_level price (o ∷ os) levels = insert price (o ∷ os) levels

unfoldable pub side_map : OrderBookL3 → Side → Option Levels
side_map b Side.buy = some b.bids
side_map b Side.sell = some b.asks
side_map b Side.none = none

add_order : L3Update → Levels → Levels
unfolding get_or insert
add_order u levels = insert u.price (get_or u.price [] levels ++ (u.order_id, u.qty) ∷ []) levels

modify_order : L3Update → Levels → Levels
unfolding get put_level retain set_qty
modify_order u levels = elim (get u.price levels) [
  | none ↦ levels
  | some queue ↦
      put_level u.price
        (if eqb_ℤ u.qty (pos 0) then retain u.order_id queue else set_qty u.order_id u.qty queue)
        levels
]

delete_order : L3Update → Levels → Levels
unfolding get put_level retain
delete_order u levels = elim (get u.price levels) [
  | none ↦ levels
  | some queue ↦ put_level u.price (retain u.order_id queue) levels
]

-- `side_map_mut`: changes the levels of a side. It is not reached with no side.
on_side : Side → (Levels → Levels) → OrderBookL3 → Result (Unit {0}) L3Error × OrderBookL3
on_side Side.buy change b = (ok tt, record b { bids = change b.bids })
on_side Side.sell change b = (ok tt, record b { asks = change b.asks })
on_side Side.none change b = (err invalid_side, b)

unfoldable pub apply_l3 : L3Update → OrderBookL3 → Result (Unit {0}) L3Error × OrderBookL3
unfolding on_side add_order modify_order delete_order
apply_l3 u b =
    if side_beq u.side Side.none
    then (err invalid_side, b)
    else if eqb u.action l3_add
    then (if leb_ℤ u.qty (pos 0)
        then (err add_qty_not_positive, b)
        else on_side u.side (add_order u) b)
    else if eqb u.action l3_modify
    then (if ltb_ℤ u.qty (pos 0)
        then (err modify_qty_negative, b)
        else on_side u.side (modify_order u) b)
    else if eqb u.action l3_delete
    then on_side u.side (delete_order u) b
    else (err invalid_action, b)

abbrev pub qtys : Level → List ℤ
qtys = map (λ o. o.1)

-- The queue at a price of a side, empty if there is none.
unfoldable pub level : OrderBookL3 → Side → ℤ → Level
unfolding side_map get_or
level b side price = elim (side_map b side) [ none ↦ [] | some levels ↦ get_or price [] levels ]

unfoldable pub level_qty : OrderBookL3 → Side → ℤ → ℤ
unfolding level
level_qty b side price = sum_i64 (qtys (level b side price))

-- The loop of `orders_ahead` over a queue.
unfoldable pub ahead_of : ℕ → Level → Level
ahead_of id [] = []
ahead_of id ((i, q) ∷ rest) = if eqb i id then [] else (i, q) ∷ ahead_of id rest

unfoldable pub orders_ahead : OrderBookL3 → Side → ℤ → ℕ → Level
unfolding level ahead_of
orders_ahead b side price id = ahead_of id (level b side price)

unfoldable pub qty_ahead : OrderBookL3 → Side → ℤ → ℕ → ℤ
unfolding orders_ahead
qty_ahead b side price id = sum_i64 (qtys (orders_ahead b side price id))

abbrev pub with_total : Option (ℤ × Level) → Option (ℤ × ℤ)
with_total none = none
with_total (some (price, queue)) = some (price, sum_i64 (qtys queue))

unfoldable pub best_bid : OrderBookL3 → Option (ℤ × ℤ)
unfolding last
best_bid b = with_total (last b.bids)

unfoldable pub best_ask : OrderBookL3 → Option (ℤ × ℤ)
unfolding first
best_ask b = with_total (first b.asks)

-- `impl MarketDepth for OrderBookL3`
unfoldable pub depth : OrderBookL3 → MarketDepth
unfolding level_qty qty_ahead orders_ahead
depth b = record { level_qty = level_qty b; qty_ahead = qty_ahead b; orders_ahead = orders_ahead b }
