-- ===== src/Exchange/Matching.antt =====
-- backtester-core/src/exchange_simulator.rs: the operations that fill and remove orders.
use crypto_rs_backtester.Prelude.{
  ℕ, Bool, true, false, Option, none, some, List, [], ◌∷◌, ◌++◌, if◌then◌else◌,
}
use crypto_rs_backtester.Prelude.Int.{ℤ, pos, eqb_ℤ, leb_ℤ, min_ℤ}
use crypto_rs_backtester.Prelude.I64.{add_i64, sub_i64, i64_max}
use crypto_rs_backtester.Prelude.Keys.{nat_eq}
use crypto_rs_backtester.Collections.Map.{get, get_or, insert, remove}
use crypto_rs_backtester.Types.{Side, OrderState, Reason, OrderReport, Tick}
use crypto_rs_backtester.OrderBook.L2
use crypto_rs_backtester.OrderBook.L3
use crypto_rs_backtester.QueueModel.{QueueModel}
use crypto_rs_backtester.Exchange.{
  BucketKey, key_eq, LiveOrder, report_on, ExchangeSimulator, remove_id, put,
}
use mathlib.Core.Option

abbrev or_else : Option (ℤ × ℤ) → Option (ℤ × ℤ) → Option (ℤ × ℤ)
or_else none other = other
or_else (some q) other = some q

-- The status of an order by what remains of it.
abbrev pub fill_status : ℤ → OrderState
fill_status remaining_qty =
    if eqb_ℤ remaining_qty (pos 0) then OrderState.filled else OrderState.partially_filled

abbrev pub filled_by : {S : Type 0} → ℤ → LiveOrder S → LiveOrder S
filled_by fill_qty o =
    let remaining = sub_i64 o.order.qty fill_qty in
    record o { filled_qty = fill_qty; remaining_qty = remaining; state = fill_status remaining }

-- The side that rests against an aggressor.
abbrev pub maker_side : Side → Option Side
maker_side Side.buy = some Side.sell
maker_side Side.sell = some Side.buy
maker_side Side.none = none

abbrev pub can_trade : OrderState → Bool
can_trade OrderState.opened = true
can_trade OrderState.partially_filled = true
can_trade OrderState.pending_cancel = true
can_trade _ = false

-- The order after a fill, with the new state of its queue.
abbrev pub after_fill : {S : Type 0} → ℤ → S → LiveOrder S → LiveOrder S
after_fill fill_qty queue_state o =
    let remaining = sub_i64 o.remaining_qty fill_qty in
    record o {
      filled_qty = add_i64 o.filled_qty fill_qty;
      remaining_qty = remaining;
      state = fill_status remaining;
      queue_state = queue_state;
    }

-- What a trade does to an order: a fill and its report, or only a new state of its queue.
unfoldable pub trade_order :
    (Q : QueueModel) → Tick → LiveOrder Q.State → LiveOrder Q.State × List OrderReport
trade_order Q trade o =
    if leb_ℤ o.remaining_qty (pos 0)
    then (o, [])
    else if can_trade o.state
    then (let (fill_qty, queue_state) = Q.check_fill o.order o.remaining_qty trade o.queue_state in
        let o' = after_fill fill_qty queue_state o in
        if leb_ℤ fill_qty (pos 0)
        then (record o { queue_state = queue_state }, [])
        else (o', report_on o' o'.state fill_qty trade.price none ∷ []))
    else (o, [])

module _ {Q : QueueModel} where
  -- The best quote against the side: of the L3 book if there is one with quotes, else of the L2 book.
  unfoldable pub best_against : Side → ExchangeSimulator Q → Option (ℤ × ℤ)
  best_against Side.buy ex = or_else (Option.bind ex.book_l3 L3.best_ask) (L2.best_ask ex.book)
  best_against Side.sell ex = or_else (Option.bind ex.book_l3 L3.best_bid) (L2.best_bid ex.book)
  best_against Side.none ex = none

  -- The quote at which a market order fills: the fallback price has no limit of depth.
  unfoldable pub effective_quote : Side → Option ℤ → ExchangeSimulator Q → Option (ℤ × ℤ)
  unfolding best_against
  effective_quote side fallback ex =
      or_else (best_against side ex) (Option.map (λ p. (p, i64_max)) fallback)

  unfoldable pub fill_market_immediately :
      ℕ → Option ℤ → ExchangeSimulator Q → Option OrderReport × ExchangeSimulator Q
  unfolding effective_quote
  fill_market_immediately id fallback ex = elim (get id ex.orders) [
    | none ↦ (none, ex)
    | some o ↦ elim (effective_quote o.order.side fallback ex) [
      | some (price, available_qty) ↦
          let fill_qty = min_ℤ o.order.qty available_qty in
          let o' = filled_by fill_qty o in
          (some (report_on o' o'.state fill_qty price none), put id o' ex)
      | none ↦ (
        some (
            report_on (record o { filled_qty = pos 0; remaining_qty = o.order.qty })
              OrderState.rejected (pos 0) (pos 0) (some Reason.book_empty)),
        put id (record o { state = OrderState.rejected }) ex,
      )
    ]
  ]

  unfoldable pub force_cancel_partial_fill :
      ℕ → ExchangeSimulator Q → Option OrderReport × ExchangeSimulator Q
  force_cancel_partial_fill id ex = elim (get id ex.orders) [
    | none ↦ (none, ex)
    | some o ↦ (
      some (
          report_on o OrderState.cancelled (pos 0) (pos 0)
            (some Reason.partial_remainder_cancelled)),
      put id (record o { state = OrderState.cancelled }) ex,
    )
  ]

  unfoldable pub remove_order : ℕ → ExchangeSimulator Q → ExchangeSimulator Q
  unfolding remove_id
  remove_order id ex = elim (get id ex.orders) [
    | none ↦ ex
    | some o ↦
        let key : BucketKey = (o.order.price, o.order.side) in
        record ex {
          orders = remove id ex.orders;
          buckets = elim (get key ex.buckets) [
            | none ↦ ex.buckets
            | some ids ↦ insert key (remove_id id ids) ex.buckets
          ];
        }
  ]

  -- The loop over the ids of a bucket.
  unfoldable pub trade_ids :
      Tick
      → List ℕ
      → ExchangeSimulator Q
      → List OrderReport
      → ExchangeSimulator Q × List OrderReport
  trade_ids trade [] ex reports = (ex, reports)
  trade_ids trade (id ∷ ids) ex reports = elim (get id ex.orders) [
    | none ↦ trade_ids trade ids ex reports
    | some o ↦
        let (o', new) = trade_order Q trade o in trade_ids trade ids (put id o' ex) (reports ++ new)
  ]

  unfoldable pub on_trade :
      Tick → ExchangeSimulator Q → List OrderReport → ExchangeSimulator Q × List OrderReport
  unfolding trade_ids trade_order
  on_trade trade ex reports = elim (maker_side trade.side) [
    | none ↦ (ex, reports)
    | some side ↦ trade_ids trade (get_or (trade.price, side) [] ex.buckets) ex reports
  ]
