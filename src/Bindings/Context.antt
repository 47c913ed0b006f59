-- ===== src/Bindings/Context.antt =====
-- backtester-py/src/lib.rs: `PyContext`, which records what a Python strategy asks for, and
-- `apply_py_ctx_commands`, which hands it on to the core's context.
pub mod Laws
use Prim.Native.String.{String}
use crypto_rs_backtester.Prelude.{
  ℕ, Bool, true, false, Option, none, some, List, [], ◌∷◌, ◌++◌, Result, ok, err, if◌then◌else◌,
}
use crypto_rs_backtester.Prelude.Int.{ℤ}
use crypto_rs_backtester.Prelude.I64.{next_u64}
use crypto_rs_backtester.Prelude.Keys.{◌==◌}
use crypto_rs_backtester.Types.{OrderType, Side, Order, try_from}
use crypto_rs_backtester.Strategy.{Context}
use crypto_rs_backtester.Strategy.Requests
use crypto_rs_backtester.Bindings.{Python, PyErr, value_error, Message, string_eq}

pub record SubmitOrder : Type 0 where
  pub symbol_id : ℕ
  pub side : ℤ
  pub price : ℤ
  pub qty : ℤ
  pub seq : ℕ
  pub order_type : OrderType
  pub client_order_id : ℕ

pub data PyCommand : Type 0 where
  submit_order : SubmitOrder → PyCommand
  cancel_order : ℕ → PyCommand

pub record PyContext : Type 0 where
  pub ts_local : ℤ
  pub next_seq : ℕ
  pub commands : List PyCommand

-- The context that a callback of the core makes for Python.
abbrev pub fresh_context : Context → PyContext
fresh_context ctx = record { ts_local = ctx.ts_local; next_seq = 0; commands = [] }

unfoldable pub order_type_named : String → Option OrderType
order_type_named text =
    if text == "limit"
    then some OrderType.limit
    else if text == "market"
    then some OrderType.market
    else none

-- The arguments of the method `submit_order`.
pub record Submission : Type 0 where
  pub symbol_id : ℕ
  pub side : ℤ
  pub price : ℤ
  pub qty : ℤ
  pub order_type : String
  pub client_order_id : ℕ

-- The order that a command stands for, once its side is known.
abbrev pub order_of : ℤ → SubmitOrder → Side → Order
order_of ts_local c side = record {
  order_id = 0;
  client_order_id = c.client_order_id;
  ts_submit = ts_local;
  seq = c.seq;
  price = c.price;
  qty = c.qty;
  symbol_id = c.symbol_id;
  side = side;
  order_type = c.order_type;
}

module _ {P : Python} where
  unfoldable pub submit : Submission → PyContext → Result ℕ (PyErr P) × PyContext
  submit s ctx = elim (order_type_named s.order_type) [
    | none ↦ (err (value_error (Message.invalid_order_type s.order_type)), ctx)
    | some ot ↦
        let command : PyCommand = PyCommand.submit_order (record {
          symbol_id = s.symbol_id;
          side = s.side;
          price = s.price;
          qty = s.qty;
          seq = ctx.next_seq;
          order_type = ot;
          client_order_id = s.client_order_id;
        }) in
        (
          ok s.client_order_id,
          record ctx { next_seq = next_u64 ctx.next_seq; commands = ctx.commands ++ command ∷ [] },
        )
  ]

  unfoldable pub cancel : ℕ → PyContext → Result (Unit {0}) (PyErr P) × PyContext
  cancel order_id ctx =
      (ok tt, record ctx { commands = ctx.commands ++ PyCommand.cancel_order order_id ∷ [] })

  -- The loop over the commands; those before a failure have been handed on.
  unfoldable pub apply_commands : List PyCommand → Context → Result (Unit {0}) (PyErr P) × Context
  unfolding try_from Requests.submit_order Requests.cancel_order
  apply_commands [] ctx = (ok tt, ctx)
  apply_commands (PyCommand.submit_order c ∷ cs) ctx = elim (try_from c.side) [
    | none ↦ (err (value_error (Message.invalid_side c.side)), ctx)
    | some side ↦ apply_commands cs (Requests.submit_order (order_of ctx.ts_local c side) ctx)
  ]
  apply_commands (PyCommand.cancel_order order_id ∷ cs) ctx =
      apply_commands cs (Requests.cancel_order order_id ctx)

  unfoldable pub apply_py_ctx_commands : PyContext → Context → Result (Unit {0}) (PyErr P) × Context
  unfolding apply_commands
  apply_py_ctx_commands py_ctx ctx = apply_commands py_ctx.commands ctx
