-- ===== src/QueueModel.antt =====
-- backtester-core/src/queue_model.rs: how much of a resting order a market trade fills. The models
-- are unit structs, so `&mut self` is not passed.
pub mod Conservative
pub mod VolumeClock
pub mod L3Exact
pub mod Laws
pub mod Equivalence
use crypto_rs_backtester.Prelude.{
  ℕ, zero, suc, ◌+◌, Bool, true, false, not, ◌&&◌, ◌≡◌, arith, Option, none, some, List, [], ◌∷◌,
  map, eqb, if◌then◌else◌, length,
}
use crypto_rs_backtester.Prelude.Int.{ℤ, pos, ◌+ℤ◌, ◌-ℤ◌, ◌<ℤ◌, ltb_ℤ, leb_ℤ, eqb_ℤ, min_ℤ, max_ℤ}
use crypto_rs_backtester.Prelude.I64.{
  sub_i64, wrap_i64, sat_i64, saturating_add, saturating_sub, sum_i64,
}
use crypto_rs_backtester.Types.{Side, side_beq, Order, Tick, L3Update}
use crypto_rs_backtester.OrderBook.Depth.{MarketDepth}
use crypto_rs_backtester.OrderBook.L3.{l3_modify, l3_delete}

-- `trait QueueModel`. `check_fill` returns the fill and the new state.
pub record QueueModel : Type 1 where
  pub State : Type 0
  pub register_order : Order → MarketDepth → State
  pub check_fill : Order → ℤ → Tick → State → ℤ × State
  pub on_l3_update : Order → State → L3Update → State

abbrev pub is_against : Side → Side → Bool
is_against Side.buy Side.sell = true
is_against Side.sell Side.buy = true
is_against _ _ = false

-- A trade that can fill an order: something remains, the symbol and the price are the order's, and
-- the sides are opposite.
abbrev pub can_fill : Order → ℤ → Tick → Bool
can_fill order remaining_qty trade =
    not (leb_ℤ remaining_qty (pos 0))
    && (eqb trade.symbol_id order.symbol_id
        && (eqb_ℤ trade.price order.price
            && (not (leb_ℤ trade.qty (pos 0)) && is_against order.side trade.side)))

-- `NoopQueue`
abbrev pub noop_queue : QueueModel
noop_queue = record {
  State = Unit {0};
  register_order = λ order book. tt;
  check_fill = λ order remaining_qty trade state. (pos 0, tt);
  on_l3_update = λ order state update. state;
}

pub can_fill_positive :
    (o : Order) (r : ℤ) (t : Tick) → can_fill o r t ≡ true → (pos 0 <ℤ r) × (pos 0 <ℤ t.qty)
can_fill_positive o r t e = ground arith
