-- ===== src/QueueModel/VolumeClock.antt =====
-- backtester-core/src/queue_model.rs, `VolumeClockQueue`: fills are counted off the traded volume.
pub mod Fill
use crypto_rs_backtester.Prelude.{Bool, not, eqb, if◌then◌else◌}
use crypto_rs_backtester.Prelude.Int.{ℤ, pos, ltb_ℤ, leb_ℤ, eqb_ℤ, min_ℤ, max_ℤ}
use crypto_rs_backtester.Prelude.I64.{sub_i64, saturating_add, saturating_sub}
use crypto_rs_backtester.Types.{Order, Tick}
use crypto_rs_backtester.OrderBook.Depth.{MarketDepth}
use crypto_rs_backtester.QueueModel.{QueueModel, is_against}

pub record State : Type 0 where
  pub queue_pos : ℤ
  pub cum_volume : ℤ
  pub claimed : ℤ

unfoldable pub register_order : Order → MarketDepth → State
register_order order book = record {
  queue_pos = book.level_qty order.side order.price;
  cum_volume = pos 0;
  claimed = pos 0;
}

-- Only volume past the queue position, and not yet claimed, can fill.
unfoldable pub fill_after : ℤ → ℤ → State → ℤ × State
fill_after remaining_qty qty s =
    let cum_volume = saturating_add s.cum_volume qty in
    let past = saturating_sub cum_volume s.queue_pos in
    let s' = record s { cum_volume = cum_volume } in
    let fill = max_ℤ (min_ℤ (sub_i64 past s.claimed) remaining_qty) (pos 0) in
    if leb_ℤ past s.claimed
    then (pos 0, s')
    else (fill, record s' { claimed = saturating_add s.claimed fill })

unfoldable pub check_fill : Order → ℤ → Tick → State → ℤ × State
unfolding fill_after
check_fill order remaining_qty trade s =
    let filled = fill_after remaining_qty trade.qty s in
    if leb_ℤ remaining_qty (pos 0)
    then (pos 0, s)
    else if not (eqb trade.symbol_id order.symbol_id)
    then (pos 0, s)
    else if not (eqb_ℤ trade.price order.price)
    then (pos 0, s)
    else if leb_ℤ trade.qty (pos 0)
    then (pos 0, s)
    else if not (is_against order.side trade.side)
    then (pos 0, s)
    else filled

abbrev pub volume_clock_queue : QueueModel
volume_clock_queue = record {
  State = State;
  register_order = register_order;
  check_fill = check_fill;
  on_l3_update = λ order state update. state;
}
