-- ===== src/Tests/Simulator.antt =====
-- Concrete runs of backtester-core/src/exchange_simulator.rs over the conservative queue.
use crypto_rs_backtester.Prelude.{◌≡◌, refl, [], some, err, arith, All, false}
use crypto_rs_backtester.Prelude.Int.{pos, ◌+ℤ◌}
use crypto_rs_backtester.Prelude.Keys.{nat_eq}
use crypto_rs_backtester.Collections.Map.{get, get_or, insert, get-insert_self}
use crypto_rs_backtester.Types.{Side, OrderState, can_transition_to}
use crypto_rs_backtester.OrderBook.L2
use crypto_rs_backtester.QueueModel.Conservative
use crypto_rs_backtester.QueueModel.Conservative.{conservative_queue}
use crypto_rs_backtester.QueueModel.Conservative.Fill.{conservative-laws}
use crypto_rs_backtester.Exchange.{
  key_eq, ExchangeSimulator, LiveOrder, put, submit_order, ack_new, cancel_order, ack_cancel, new,
  visible_depth, not_pending_cancel,
}
use crypto_rs_backtester.Exchange.Invariant.{IsLive, IsValid}
use crypto_rs_backtester.Exchange.Reach.{
  Reach, Reach-IsValid, here, next, submitted, acked, cancel_requested, new-IsValid,
}
use crypto_rs_backtester.Exchange.Matching.{on_trade, trade_order, remove_order}
use crypto_rs_backtester.Exchange.Trades.{
  Among, Against, buy_against_sell, IsFillReport, NotAbout, on_trade-IsFillReport,
  on_trade-remove_order, on_trade-others, trade_order-lost_cancel,
}
use crypto_rs_backtester.Tests.{buy_order, sell_trade}

abbrev Sim : Type 0
Sim = ExchangeSimulator conservative_queue

abbrev fresh : Sim
fresh = new

abbrev resting : Sim
resting = (ack_new 1 (submit_order buy_order fresh)).1

abbrev cancelling : Sim
cancelling = (cancel_order 1 resting).1

nothing_ahead : (Conservative.register_order buy_order (visible_depth fresh)).qty_ahead ≡ pos 0
unfolding new Conservative.register_order L2.depth L2.level_qty L2.new get_or get
nothing_ahead = refl

resting_reached : Reach conservative-laws fresh resting
resting_reached =
    next
      (next here (submitted buy_order (omega arith) (omega arith) (rw nothing_ahead (omega arith))))
      (acked 1)

cancelling_reached : Reach conservative-laws fresh cancelling
cancelling_reached = next resting_reached (cancel_requested 1)

resting-IsValid : IsValid conservative-laws resting
resting-IsValid = Reach-IsValid conservative-laws (new-IsValid conservative-laws) resting_reached

Reach-IsValid_example : IsValid conservative-laws cancelling
Reach-IsValid_example =
    Reach-IsValid conservative-laws (new-IsValid conservative-laws) cancelling_reached

on_trade-IsFillReport_example :
    All
      (IsFillReport (sell_trade (pos 100000000)))
      (on_trade (sell_trade (pos 100000000)) resting []).1
on_trade-IsFillReport_example =
    on_trade-IsFillReport conservative-laws (sell_trade (pos 100000000)) resting (omega arith)
      resting-IsValid

on_trade-remove_order_example :
    All (NotAbout 1) (on_trade (sell_trade (pos 100000000)) (remove_order 1 resting) []).1
on_trade-remove_order_example =
    on_trade-remove_order conservative-laws (sell_trade (pos 100000000)) resting 1 (omega arith)
      resting-IsValid

-- An order of 3 units with nothing ahead, whose cancel is in flight.
abbrev waiting : LiveOrder Conservative.State
waiting = record {
  order = buy_order;
  state = OrderState.pending_cancel;
  filled_qty = pos 0;
  remaining_qty = pos 300000000;
  queue_state = record { qty_ahead = pos 0 };
}

waiting-IsLive : IsLive conservative-laws 1 waiting
unfolding ◌+ℤ◌
waiting-IsLive = record {
  own_id = refl;
  conserved = refl;
  filled_nonneg = omega arith;
  remaining_nonneg = omega arith;
  word = omega arith;
  queue = omega arith;
  done = λ h. cc;
}

abbrev after_trade : LiveOrder Conservative.State
after_trade = (trade_order conservative_queue (sell_trade (pos 100000000)) waiting).0

abbrev filled_in_part : Sim
filled_in_part = put 1 after_trade fresh

one_unit :
    (Conservative.check_fill buy_order
      (pos 300000000)
      (sell_trade (pos 100000000))
      (record { qty_ahead = pos 0 })).0
    ≡ pos 100000000
unfolding Conservative.check_fill
one_unit = refl

stored : get 1 filled_in_part.orders ≡ some after_trade
stored = get-insert_self 1 after_trade fresh.orders

trade_order-lost_cancel_example :
    (after_trade.state ≡ OrderState.partially_filled)
    × (can_transition_to waiting.state after_trade.state ≡ false)
    × (ack_cancel 1 filled_in_part ≡ (err not_pending_cancel, filled_in_part))
trade_order-lost_cancel_example =
    trade_order-lost_cancel conservative-laws (sell_trade (pos 100000000)) waiting 1 filled_in_part
      waiting-IsLive (omega arith) refl (rw one_unit (omega arith)) (rw one_unit (omega arith))
      stored

bystander :
    (side : Side)
    → Against side Side.sell
    → ¬ Among 2 (get_or (pos 10000000000, side) [] resting.buckets)
unfolding new get_or get insert submit_order ack_new
bystander side buy_against_sell = λ m. ground arith

on_trade-others_example :
    let ex' = (on_trade (sell_trade (pos 100000000)) resting []).0 in
    (get 2 ex'.orders ≡ get 2 resting.orders)
    × (ex'.buckets ≡ resting.buckets)
    × (ex'.book ≡ resting.book)
    × (ex'.book_l3 ≡ resting.book_l3)
on_trade-others_example = on_trade-others (sell_trade (pos 100000000)) resting [] 2 bystander
