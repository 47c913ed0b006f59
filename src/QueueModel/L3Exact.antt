-- ===== src/QueueModel/L3Exact.antt =====
-- backtester-core/src/queue_model.rs, `L3ExactQueue`: the orders ahead are known one by one.
pub mod Consume
pub mod Fill
pub mod Updates
use crypto_rs_backtester.Prelude.{
  ℕ, zero, suc, ◌+◌, Bool, true, false, not, ◌&&◌, ◌||◌, Option, none, some, List, [], ◌∷◌, map,
  eqb, if◌then◌else◌, length,
}
use crypto_rs_backtester.Prelude.Int.{ℤ, pos, ltb_ℤ, leb_ℤ, eqb_ℤ, min_ℤ, max_ℤ}
use crypto_rs_backtester.Prelude.I64.{sub_i64, saturating_add, saturating_sub, sum_i64}
use crypto_rs_backtester.Types.{Side, side_beq, Order, Tick, L3Update}
use crypto_rs_backtester.OrderBook.Depth.{MarketDepth}
use crypto_rs_backtester.OrderBook.L3.{l3_modify, l3_delete, Level, qtys, set_qty}
use crypto_rs_backtester.QueueModel.{QueueModel, is_against}

pub record State : Type 0 where
  pub qty_ahead : ℤ
  pub ahead_orders : Level

unfoldable pub register_order : Order → MarketDepth → State
register_order order book =
    let ahead = book.orders_ahead order.side order.price order.order_id in
    record { qty_ahead = sum_i64 (qtys ahead); ahead_orders = ahead }

-- The loop of `consume_ahead_orders` on fuel, a unit for each test of its condition; `none` means
-- that the fuel ran out.
unfoldable pub consume_loop : ℕ → Level → ℤ → Option Level
consume_loop zero orders qty = none
consume_loop (suc f) [] qty = some []
consume_loop (suc f) ((id, q) ∷ rest) qty =
    let consumed = min_ℤ q qty in
    let left = sub_i64 q consumed in
    let again =
      consume_loop f (if eqb_ℤ left (pos 0) then rest else (id, left) ∷ rest)
        (sub_i64 qty consumed) in
    if ltb_ℤ (pos 0) qty then again else some ((id, q) ∷ rest)

-- Every pass removes the first order or uses up the quantity, so the loop tests at most once more
-- than there are orders.
unfoldable pub consume_ahead_orders : Level → ℤ → Level
consume_ahead_orders orders qty = elim (consume_loop (length orders + 1) orders qty) [
  | none ↦ orders
  | some left ↦ left
]

unfoldable pub fill_after : ℤ → ℤ → State → ℤ × State
fill_after remaining_qty available s =
    if ltb_ℤ (pos 0) s.qty_ahead
    then (let consumed = min_ℤ s.qty_ahead available in
        (
          min_ℤ (sub_i64 available consumed) remaining_qty,
          record {
            qty_ahead = sub_i64 s.qty_ahead consumed;
            ahead_orders = consume_ahead_orders s.ahead_orders consumed;
          },
        ))
    else (min_ℤ available remaining_qty, s)

unfoldable pub check_fill : Order → ℤ → Tick → State → ℤ × State
unfolding fill_after
check_fill order remaining_qty trade s =
    let filled = fill_after remaining_qty trade.qty s in
    if leb_ℤ remaining_qty (pos 0)
    then (pos 0, s)
    else if not (eqb trade.symbol_id order.symbol_id)
    then (pos 0, s)
    else if not (eqb_ℤ trade.price order.price)
    then (pos 0, s)
    else if leb_ℤ trade.qty (pos 0)
    then (pos 0, s)
    else if not (is_against order.side trade.side)
    then (pos 0, s)
    else filled

-- The quantity of the first order with the id: `iter().position(..)` and `iter_mut().find(..)`.
unfoldable pub find_qty : ℕ → Level → Option ℤ
find_qty id [] = none
find_qty id ((i, q) ∷ rest) = if eqb i id then some q else find_qty id rest

-- `remove(pos)` of the first order with the id.
unfoldable pub remove_first : ℕ → Level → Level
remove_first id [] = []
remove_first id ((i, q) ∷ rest) = if eqb i id then rest else (i, q) ∷ remove_first id rest

-- `retain(|(_, qty)| *qty > 0)`
unfoldable pub retain_positive : Level → Level
retain_positive [] = []
retain_positive ((i, q) ∷ rest) =
    let kept = retain_positive rest in if ltb_ℤ (pos 0) q then (i, q) ∷ kept else kept

unfoldable pub remove_ahead_order : State → ℕ → State
unfolding find_qty remove_first
remove_ahead_order s id = elim (find_qty id s.ahead_orders) [
  | none ↦ s
  | some qty ↦ record {
    qty_ahead = saturating_sub s.qty_ahead qty;
    ahead_orders = remove_first id s.ahead_orders;
  }
]

unfoldable pub modify_ahead_order : State → ℕ → ℤ → State
unfolding find_qty set_qty retain_positive
modify_ahead_order s id new_qty = elim (find_qty id s.ahead_orders) [
  | none ↦ s
  | some qty ↦
      let orders = set_qty id new_qty s.ahead_orders in
      record {
        qty_ahead = saturating_add (saturating_sub s.qty_ahead qty) new_qty;
        ahead_orders = if eqb_ℤ new_qty (pos 0) then retain_positive orders else orders;
      }
]

unfoldable pub on_l3_update : Order → State → L3Update → State
unfolding remove_ahead_order modify_ahead_order
on_l3_update order s u =
    if not (eqb u.symbol_id order.symbol_id)
      || (not (side_beq u.side order.side) || not (eqb_ℤ u.price order.price))
    then s
    else if eqb u.action l3_delete
    then remove_ahead_order s u.order_id
    else if eqb u.action l3_modify
    then modify_ahead_order s u.order_id (max_ℤ u.qty (pos 0))
    else s

abbrev pub l3_exact_queue : QueueModel
l3_exact_queue = record {
  State = State;
  register_order = register_order;
  check_fill = check_fill;
  on_l3_update = on_l3_update;
}
