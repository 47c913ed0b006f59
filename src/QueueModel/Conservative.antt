-- ===== src/QueueModel/Conservative.antt =====
-- backtester-core/src/queue_model.rs, `ConservativeQueue`: the order is last in its level.
pub mod Fill
use crypto_rs_backtester.Prelude.{Bool, not, eqb, if◌then◌else◌}
use crypto_rs_backtester.Prelude.Int.{ℤ, pos, ltb_ℤ, leb_ℤ, eqb_ℤ, min_ℤ, max_ℤ}
use crypto_rs_backtester.Prelude.I64.{sub_i64, saturating_add, saturating_sub}
use crypto_rs_backtester.Types.{Order, Tick}
use crypto_rs_backtester.OrderBook.Depth.{MarketDepth}
use crypto_rs_backtester.QueueModel.{QueueModel, is_against}

pub record State : Type 0 where
  pub qty_ahead : ℤ

unfoldable pub register_order : Order → MarketDepth → State
register_order order book = record { qty_ahead = book.level_qty order.side order.price }

-- The trade's volume first takes what is ahead.
unfoldable pub fill_after : ℤ → ℤ → State → ℤ × State
fill_after remaining_qty available s =
    if ltb_ℤ (pos 0) s.qty_ahead
    then (let d = min_ℤ s.qty_ahead available in
        (min_ℤ (sub_i64 available d) remaining_qty, record { qty_ahead = sub_i64 s.qty_ahead d }))
    else (min_ℤ available remaining_qty, s)

unfoldable pub check_fill : Order → ℤ → Tick → State → ℤ × State
unfolding fill_after
check_fill order remaining_qty trade s =
    let filled = fill_after remaining_qty trade.qty s in
    if leb_ℤ remaining_qty (pos 0)
    then (pos 0, s)
    else if not (eqb trade.symbol_id order.symbol_id)
    then (pos 0, s)
    else if not (eqb_ℤ trade.price order.price)
    then (pos 0, s)
    else if leb_ℤ trade.qty (pos 0)
    then (pos 0, s)
    else if not (is_against order.side trade.side)
    then (pos 0, s)
    else filled

abbrev pub conservative_queue : QueueModel
conservative_queue = record {
  State = State;
  register_order = register_order;
  check_fill = check_fill;
  on_l3_update = λ order state update. state;
}
