-- ===== src/Exchange.antt =====
-- backtester-core/src/exchange_simulator.rs: the matching engine, over the queue model `Q`. The
-- model of the queue is a unit struct, so it is a parameter and no field. The bucket index is one
-- map: the two backends that the features choose have the same operations.
pub mod Invariant
pub mod Reach
pub mod Lifecycle
pub mod Matching
pub mod Trades
use crypto_rs_backtester.Prelude.{
  ℕ, Bool, true, false, ◌||◌, ◌&&◌, Option, none, some, List, [], ◌∷◌, ◌++◌, Result, ok, err, eqb,
  eqb_iff, if◌then◌else◌, arith, ◌≡◌, ◌↔◌,
}
use crypto_rs_backtester.Prelude.Int.{ℤ, pos, eqb_ℤ, eqb_ℤ_iff, leb_ℤ, min_ℤ, div_trunc}
use crypto_rs_backtester.Prelude.I64.{add_i64, sub_i64, saturating_add, i64_max}
use crypto_rs_backtester.Prelude.Keys.{Eq, nat_eq}
use crypto_rs_backtester.Collections.Map.{Map, get, get_or, insert, remove, map_values}
use crypto_rs_backtester.Types.{
  Side, side_beq, side_beq_iff, OrderType, OrderState, can_transition_to, Reason, OrderReport, Tick,
  L2Update, L3Update, Order,
}
use crypto_rs_backtester.OrderBook.L2
use crypto_rs_backtester.OrderBook.L2.{OrderBookL2}
use crypto_rs_backtester.OrderBook.L3
use crypto_rs_backtester.OrderBook.L3.{OrderBookL3, L3Error}
use crypto_rs_backtester.OrderBook.Depth.{MarketDepth}
use crypto_rs_backtester.QueueModel.{QueueModel}
use mathlib.Core.Option

-- The key of a bucket: price and side.
abbrev pub BucketKey : Type 0
BucketKey = ℤ × Side

abbrev pub key_beq : BucketKey → BucketKey → Bool
key_beq a b = eqb_ℤ a.0 b.0 && side_beq a.1 b.1

pub key_beq_iff : (a b : BucketKey) → (key_beq a b ≡ true) ↔ (a ≡ b)
key_beq_iff a b = ground (arith, eqb_ℤ_iff a.0 b.0, side_beq_iff a.1 b.1)

instance abbrev pub key_eq : Eq BucketKey
key_eq = record { beq = key_beq; beq_iff = key_beq_iff }

pub record LiveOrder (S : Type 0) : Type 0 where
  pub order : Order
  pub state : OrderState
  pub filled_qty : ℤ
  pub remaining_qty : ℤ
  pub queue_state : S

-- The messages of the fallible operations.
pub data ExchangeError : Type 0 where
  unknown_order_id not_pending_new cannot_cancel already_filled not_pending_cancel : ExchangeError
  not_l3_mode : ExchangeError
  l3 : L3Error → ExchangeError

-- A report on an order as it stands.
abbrev pub report_on : {S : Type 0} → LiveOrder S → OrderState → ℤ → ℤ → Option Reason → OrderReport
report_on o status last_fill_qty last_fill_price reason = record {
  order_id = o.order.order_id;
  client_order_id = o.order.client_order_id;
  last_fill_qty = last_fill_qty;
  last_fill_price = last_fill_price;
  filled_qty = o.filled_qty;
  remaining_qty = o.remaining_qty;
  reason = reason;
  symbol_id = o.order.symbol_id;
  status = status;
}

pub record ExchangeSimulator (Q : QueueModel) : Type 0 where
  pub book : OrderBookL2
  pub book_l3 : Option OrderBookL3
  pub orders : Map ℕ (LiveOrder Q.State)
  pub buckets : Map BucketKey (List ℕ)

-- The first occurrence of an id is removed: `position(..)` and `remove(idx)`.
unfoldable pub remove_id : ℕ → List ℕ → List ℕ
remove_id id [] = []
remove_id id (i ∷ ids) = if eqb i id then ids else i ∷ remove_id id ids

abbrev pub mid_price : Option (ℤ × ℤ) → Option (ℤ × ℤ) → Option ℤ
mid_price (some (bid, _)) (some (ask, _)) = some (div_trunc (saturating_add bid ask) 2)
mid_price (some (bid, _)) none = some bid
mid_price none (some (ask, _)) = some ask
mid_price none none = none

abbrev pub sees_l3 : OrderState → Bool
sees_l3 OrderState.pending_new = true
sees_l3 OrderState.opened = true
sees_l3 OrderState.partially_filled = true
sees_l3 _ = false

abbrev pub update_queue : (Q : QueueModel) → L3Update → LiveOrder Q.State → LiveOrder Q.State
update_queue Q u o =
    if sees_l3 o.state then record o { queue_state = Q.on_l3_update o.order o.queue_state u } else o

abbrev pub of_l3 : Result (Unit {0}) L3Error → Result (Unit {0}) ExchangeError
of_l3 (ok done) = ok done
of_l3 (err e) = err (l3 e)

module _ {Q : QueueModel} where
  -- The order is stored under its id with what was done to it.
  abbrev pub put : ℕ → LiveOrder Q.State → ExchangeSimulator Q → ExchangeSimulator Q
  put id o ex = record ex { orders = insert id o ex.orders }

  unfoldable pub new : ExchangeSimulator Q
  unfolding L2.new
  new = record { book = L2.new; book_l3 = none; orders = []; buckets = [] }

  unfoldable pub new_l3 : ExchangeSimulator Q
  unfolding L2.new L3.new
  new_l3 = record { book = L2.new; book_l3 = some L3.new; orders = []; buckets = [] }

  unfoldable pub apply_l2_update : L2Update → ExchangeSimulator Q → ExchangeSimulator Q
  apply_l2_update u ex = record ex { book = L2.apply_l2 u ex.book }

  unfoldable pub mark_price : ExchangeSimulator Q → Option ℤ
  mark_price ex = elim ex.book_l3 [
    | some book ↦ mid_price (L3.best_bid book) (L3.best_ask book)
    | none ↦ mid_price (L2.best_bid ex.book) (L2.best_ask ex.book)
  ]

  -- The queue states are updated also where the book then refuses the update.
  unfoldable pub apply_l3_update :
      L3Update → ExchangeSimulator Q → Result (Unit {0}) ExchangeError × ExchangeSimulator Q
  apply_l3_update u ex =
      let ex' = record ex { orders = map_values (update_queue Q u) ex.orders } in
      elim ex.book_l3 [
        | none ↦ (err not_l3_mode, ex')
        | some book ↦
            let (r, book') = L3.apply_l3 u book in (of_l3 r, record ex' { book_l3 = some book' })
      ]

  -- The book that a new order is registered against.
  abbrev pub visible_depth : ExchangeSimulator Q → MarketDepth
  visible_depth ex = elim ex.book_l3 [ some book ↦ L3.depth book | none ↦ L2.depth ex.book ]

  unfoldable pub submit_order : Order → ExchangeSimulator Q → ExchangeSimulator Q
  submit_order order ex =
      let key : BucketKey = (order.price, order.side) in
      record ex {
        buckets = insert key (get_or key [] ex.buckets ++ order.order_id ∷ []) ex.buckets;
        orders =
            insert order.order_id
              (record {
                order = order;
                state = OrderState.pending_new;
                filled_qty = pos 0;
                remaining_qty = order.qty;
                queue_state = Q.register_order order (visible_depth ex);
              })
              ex.orders;
      }

  unfoldable pub ack_new :
      ℕ → ExchangeSimulator Q → Result OrderReport ExchangeError × ExchangeSimulator Q
  ack_new id ex = elim (get id ex.orders) [
    | none ↦ (err unknown_order_id, ex)
    | some o ↦ elim o.state [
      | OrderState.pending_new ↦ (
        ok (report_on (record o { filled_qty = pos 0 }) OrderState.opened (pos 0) (pos 0) none),
        put id (record o { state = OrderState.opened }) ex,
      )
      | _ ↦ (err not_pending_new, ex)
    ]
  ]

  unfoldable pub cancel_order :
      ℕ → ExchangeSimulator Q → Result (Unit {0}) ExchangeError × ExchangeSimulator Q
  cancel_order id ex = elim (get id ex.orders) [
    | none ↦ (err unknown_order_id, ex)
    | some o ↦
        if can_transition_to o.state OrderState.pending_cancel
        then (ok tt, put id (record o { state = OrderState.pending_cancel }) ex)
        else (err cannot_cancel, ex)
  ]

  unfoldable pub ack_cancel :
      ℕ → ExchangeSimulator Q → Result OrderReport ExchangeError × ExchangeSimulator Q
  ack_cancel id ex = elim (get id ex.orders) [
    | none ↦ (err unknown_order_id, ex)
    | some o ↦ elim o.state [
      | OrderState.pending_cancel ↦ (
        ok (report_on o OrderState.cancelled (pos 0) (pos 0) none),
        put id (record o { state = OrderState.cancelled }) ex,
      )
      | OrderState.filled ↦ (err already_filled, ex)
      | _ ↦ (err not_pending_cancel, ex)
    ]
  ]

  unfoldable pub get_order_state : ℕ → ExchangeSimulator Q → Option OrderState
  get_order_state id ex = Option.map (λ o. o.state) (get id ex.orders)

  unfoldable pub get_order : ℕ → ExchangeSimulator Q → Option Order
  get_order id ex = Option.map (λ o. o.order) (get id ex.orders)

  unfoldable pub get_filled_qty : ℕ → ExchangeSimulator Q → Option ℤ
  get_filled_qty id ex = Option.map (λ o. o.filled_qty) (get id ex.orders)

  unfoldable pub get_remaining_qty : ℕ → ExchangeSimulator Q → Option ℤ
  get_remaining_qty id ex = Option.map (λ o. o.remaining_qty) (get id ex.orders)
