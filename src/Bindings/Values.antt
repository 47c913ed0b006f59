-- ===== src/Bindings/Values.antt =====
-- backtester-py/src/lib.rs: `PyTick` and `PyOrderReport`, what a Python strategy sees of a tick and of
-- a report.
pub mod Laws
use Prim.Native.String.{String}
use crypto_rs_backtester.Prelude.{ℕ, Bool, Option, none, some, Result, ok, err, if◌then◌else◌}
use crypto_rs_backtester.Prelude.Int.{ℤ, pos}
use crypto_rs_backtester.Prelude.Keys.{◌==◌}
use crypto_rs_backtester.Types.{Tick, OrderReport, OrderState, Reason, as_i8}
use crypto_rs_backtester.Bindings.{string_eq}

-- What `into_pyobject` makes of a number, a text and `None`.
pub data Value : Type 0 where
  int : ℤ → Value
  text : String → Value
  none_value : Value

abbrev pub nat_value : ℕ → Value
nat_value n = int (pos n)

-- `PyKeyError` with the key.
pub data KeyError : Type 0 where
  no_such_key : String → KeyError

pub record PyTick : Type 0 where
  pub ts_exchange : ℤ
  pub ts_local : ℤ
  pub seq : ℕ
  pub symbol_id : ℕ
  pub price : ℤ
  pub qty : ℤ
  pub side : ℤ
  pub flags : ℕ

unfoldable pub tick_to_pyobject : Tick → PyTick
unfolding as_i8
tick_to_pyobject tick = record {
  ts_exchange = tick.ts_exchange;
  ts_local = tick.ts_local;
  seq = tick.seq;
  symbol_id = tick.symbol_id;
  price = tick.price;
  qty = tick.qty;
  side = as_i8 tick.side;
  flags = tick.flags;
}

-- `PyTick::__getitem__`
unfoldable pub tick_item : String → PyTick → Result Value KeyError
tick_item key t =
    if key == "ts_exchange"
    then ok (int t.ts_exchange)
    else if key == "ts_local"
    then ok (int t.ts_local)
    else if key == "seq"
    then ok (nat_value t.seq)
    else if key == "symbol_id"
    then ok (nat_value t.symbol_id)
    else if key == "price"
    then ok (int t.price)
    else if key == "qty"
    then ok (int t.qty)
    else if key == "side"
    then ok (int t.side)
    else if key == "flags"
    then ok (nat_value t.flags)
    else err (no_such_key key)

pub record PyOrderReport : Type 0 where
  pub order_id : ℕ
  pub client_order_id : ℕ
  pub symbol_id : ℕ
  pub status : String
  pub last_fill_qty : ℤ
  pub last_fill_price : ℤ
  pub filled_qty : ℤ
  pub remaining_qty : ℤ
  pub reason : Option String

-- The derived `Debug` of a state.
unfoldable pub state_name : OrderState → String
state_name OrderState.created = "Created"
state_name OrderState.pending_new = "PendingNew"
state_name OrderState.opened = "Open"
state_name OrderState.partially_filled = "PartiallyFilled"
state_name OrderState.pending_cancel = "PendingCancel"
state_name OrderState.cancelled = "Cancelled"
state_name OrderState.filled = "Filled"
state_name OrderState.rejected = "Rejected"

-- The static texts of the core.
unfoldable pub reason_text : Reason → String
reason_text Reason.book_empty = "book empty"
reason_text Reason.partial_remainder_cancelled =
    "market order partial fill: remaining qty cancelled"
reason_text Reason.kill_switch_active = "risk: kill_switch active"
reason_text Reason.max_open_orders_exceeded = "risk: max_open_orders exceeded"
reason_text Reason.max_position_exceeded = "risk: max_position exceeded"

unfoldable pub order_report_to_pyobject : OrderReport → PyOrderReport
unfolding state_name reason_text
order_report_to_pyobject r = record {
  order_id = r.order_id;
  client_order_id = r.client_order_id;
  symbol_id = r.symbol_id;
  status = state_name r.status;
  last_fill_qty = r.last_fill_qty;
  last_fill_price = r.last_fill_price;
  filled_qty = r.filled_qty;
  remaining_qty = r.remaining_qty;
  reason = elim r.reason [ none ↦ none | some reason ↦ some (reason_text reason) ];
}

abbrev pub optional_text : Option String → Value
optional_text none = none_value
optional_text (some t) = text t

-- `PyOrderReport::__getitem__`
unfoldable pub report_item : String → PyOrderReport → Result Value KeyError
report_item key r =
    if key == "order_id"
    then ok (nat_value r.order_id)
    else if key == "client_order_id"
    then ok (nat_value r.client_order_id)
    else if key == "symbol_id"
    then ok (nat_value r.symbol_id)
    else if key == "status"
    then ok (text r.status)
    else if key == "last_fill_qty"
    then ok (int r.last_fill_qty)
    else if key == "last_fill_price"
    then ok (int r.last_fill_price)
    else if key == "filled_qty"
    then ok (int r.filled_qty)
    else if key == "remaining_qty"
    then ok (int r.remaining_qty)
    else if key == "reason"
    then ok (optional_text r.reason)
    else err (no_such_key key)

-- `PyOrderReport::get`
unfoldable pub report_get : String → Option Value → PyOrderReport → Value
report_get key default r =
    if key == "order_id"
    then nat_value r.order_id
    else if key == "client_order_id"
    then nat_value r.client_order_id
    else if key == "symbol_id"
    then nat_value r.symbol_id
    else if key == "status"
    then text r.status
    else if key == "last_fill_qty"
    then int r.last_fill_qty
    else if key == "last_fill_price"
    then int r.last_fill_price
    else if key == "filled_qty"
    then int r.filled_qty
    else if key == "remaining_qty"
    then int r.remaining_qty
    else if key == "reason"
    then optional_text r.reason
    else elim default [ none ↦ none_value | some value ↦ value ]
