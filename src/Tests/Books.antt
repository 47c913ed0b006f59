-- ===== src/Tests/Books.antt =====
-- Concrete runs of the order books, the queue models and the order states.
use crypto_rs_backtester.Prelude.{◌≡◌, refl, some, [], ◌∷◌, arith}
use crypto_rs_backtester.Prelude.Int.{pos, ◌≤ℤ◌, ◌+ℤ◌, sum}
use crypto_rs_backtester.Prelude.I64.{InI64}
use crypto_rs_backtester.Types.{Side, OrderState}
use crypto_rs_backtester.Types.Lifecycle.{here, Reach-terminal}
use crypto_rs_backtester.OrderBook.L2
use crypto_rs_backtester.OrderBook.L2.{OrderBookL2}
use crypto_rs_backtester.OrderBook.L2.Laws as L2Laws
use crypto_rs_backtester.OrderBook.L3
use crypto_rs_backtester.OrderBook.L3.{
  OrderBookL3, Level, l3_add, apply_l3, level_qty, orders_ahead, qtys,
}
use crypto_rs_backtester.QueueModel.Conservative
use crypto_rs_backtester.QueueModel.VolumeClock
use crypto_rs_backtester.QueueModel.L3Exact
use crypto_rs_backtester.QueueModel.L3Exact.Consume.{
  Positive, consume_ahead_orders-total, consume_loop-terminates,
}
use crypto_rs_backtester.QueueModel.L3Exact.Fill.{IsState}
use crypto_rs_backtester.QueueModel.L3Exact.Updates.{on_l3_update-IsState}
use crypto_rs_backtester.QueueModel.Equivalence.{fills, conservative-eq-volume_clock}
use crypto_rs_backtester.Tests.{buy_order, sell_trade, bid_update, bid_action}

abbrev l2_book : OrderBookL2
l2_book = L2.apply_l2 (bid_update (pos 500000000)) L2.new

best_bid_qty : L2.level_qty l2_book Side.buy (pos 10000000000) ≡ pos 500000000
best_bid_qty =
    L2Laws.level_qty-apply_l2 (bid_update (pos 500000000)) L2.new Side.buy (pos 10000000000)
      (λ e. cc)

-- Two venue orders at one price.
abbrev one_order : OrderBookL3
one_order = (apply_l3 (bid_action 1 11 (pos 200000000)) L3.new).1

abbrev two_orders : OrderBookL3
two_orders = (apply_l3 (bid_action 1 12 (pos 300000000)) one_order).1

abbrev queue : Level
queue = (11, pos 200000000) ∷ (12, pos 300000000) ∷ []

queue-Positive : Positive queue
queue-Positive = (omega arith, (omega arith, tt))

queue_total : sum (qtys queue) ≡ pos 500000000
unfolding ◌+ℤ◌
queue_total = refl

consume_ahead_orders-total_example :
    Positive (L3Exact.consume_ahead_orders queue (pos 250000000))
    × (sum (qtys (L3Exact.consume_ahead_orders queue (pos 250000000))) +ℤ pos 250000000
        ≡ sum (qtys queue))
consume_ahead_orders-total_example =
    consume_ahead_orders-total queue (pos 250000000) queue-Positive (omega arith)
      (rw queue_total (omega arith)) (rw queue_total (omega arith))

consume_loop-terminates_example :
    (left : Level) × (L3Exact.consume_loop 3 queue (pos 250000000) ≡ some left)
consume_loop-terminates_example = consume_loop-terminates queue (pos 250000000)

abbrev behind : L3Exact.State
behind = record { qty_ahead = pos 500000000; ahead_orders = queue }

behind-IsState : IsState behind
unfolding ◌+ℤ◌
behind-IsState = record { positive = queue-Positive; total = refl; word = omega arith }

on_l3_update-IsState_example :
    IsState (L3Exact.on_l3_update buy_order behind (bid_action 2 11 (pos 100000000)))
unfolding ◌+ℤ◌ L3.set_qty
on_l3_update-IsState_example =
    on_l3_update-IsState buy_order behind (bid_action 2 11 (pos 100000000)) behind-IsState
      (omega arith)

small_level : InI64 ((L2.depth l2_book).level_qty Side.buy (pos 10000000000))
unfolding L2.depth
small_level = rw best_bid_qty (omega arith)

level_nonneg : pos 0 ≤ℤ (L2.depth l2_book).level_qty Side.buy (pos 10000000000)
unfolding L2.depth
level_nonneg = rw best_bid_qty (omega arith)

conservative-eq-volume_clock_example :
    fills Conservative.conservative_queue buy_order
      (pos 300000000)
      (sell_trade (pos 600000000) ∷ sell_trade (pos 400000000) ∷ [])
      (Conservative.register_order buy_order (L2.depth l2_book))
    ≡ fills VolumeClock.volume_clock_queue buy_order
        (pos 300000000)
        (sell_trade (pos 600000000) ∷ sell_trade (pos 400000000) ∷ [])
        (VolumeClock.register_order buy_order (L2.depth l2_book))
conservative-eq-volume_clock_example =
    conservative-eq-volume_clock buy_order (L2.depth l2_book)
      (sell_trade (pos 600000000) ∷ sell_trade (pos 400000000) ∷ []) level_nonneg small_level
      (omega arith) (omega arith) (omega arith)

Reach-terminal_example : OrderState.filled ≡ OrderState.filled
Reach-terminal_example = Reach-terminal refl here
