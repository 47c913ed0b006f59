-- ===== src/Bindings/Context/Laws.antt =====
-- backtester-py/src/lib.rs: the calls that a Python strategy makes reach the core in their order.
use crypto_rs_backtester.Prelude.{ℕ, none, some, List, [], ◌∷◌, ◌++◌, Result, ok, err}
use crypto_rs_backtester.Prelude.Int.{ℤ}
use crypto_rs_backtester.Prelude.I64.{next_u64}
use crypto_rs_backtester.Types.{Order, try_from}
use crypto_rs_backtester.Strategy.{Context, Command}
use crypto_rs_backtester.Strategy.Requests
use crypto_rs_backtester.Bindings.{Python, PyErr, value_error, Message}
use crypto_rs_backtester.Bindings.Context.{
  PyCommand, PyContext, Submission, order_type_named, submit, cancel,
}

-- A call of the context's methods, the exceptions of which a strategy may catch.
pub data Call : Type 0 where
  submits : Submission → Call
  cancels : ℕ → Call

module _ (P : Python) where
  unfoldable pub make_call : Call → PyContext → PyContext
  unfolding submit cancel
  make_call (submits s) ctx = (submit {P = P} s ctx).1
  make_call (cancels id) ctx = (cancel {P = P} id ctx).1

  unfoldable pub make_calls : List Call → PyContext → PyContext
  unfolding make_call
  make_calls [] ctx = ctx
  make_calls (c ∷ cs) ctx = make_calls cs (make_call c ctx)

  -- What the calls ask the core for, one by one: a submission with an unknown order type is passed
  -- over, one with a side that is none ends the list, and the others are numbered in order.
  unfoldable pub requested : ℤ → ℕ → List Call → Result (Unit {0}) (PyErr P) × List Command
  requested ts seq [] = (ok tt, [])
  requested ts seq (cancels id ∷ cs) =
      let (r, rest) = requested ts seq cs in (r, Command.cancel_order id ∷ rest)
  requested ts seq (submits s ∷ cs) = elim (order_type_named s.order_type) [
    | none ↦ requested ts seq cs
    | some ot ↦ elim (try_from s.side) [
      | none ↦ (err (value_error (Message.invalid_side s.side)), [])
      | some side ↦
          let (r, rest) = requested ts (next_u64 seq) cs in
          let order : Order = record {
            order_id = 0;
            client_order_id = s.client_order_id;
            ts_submit = ts;
            seq = seq;
            price = s.price;
            qty = s.qty;
            symbol_id = s.symbol_id;
            side = side;
            order_type = ot;
          } in
          (r, Command.submit_order order ∷ rest)
    ]
  ]

  -- The commands that the calls record.
  unfoldable recorded : ℕ → List Call → List PyCommand
  recorded seq [] = []
  recorded seq (cancels id ∷ cs) = PyCommand.cancel_order id ∷ recorded seq cs
  recorded seq (submits s ∷ cs) = elim (order_type_named s.order_type) [
    | none ↦ recorded seq cs
    | some ot ↦
        PyCommand.submit_order (record {
          symbol_id = s.symbol_id;
          side = s.side;
          price = s.price;
          qty = s.qty;
          seq = seq;
          order_type = ot;
          client_order_id = s.client_order_id;
        })
        ∷ recorded (next_u64 seq) cs
  ]

  -- Commands after those that the context has.
  abbrev asking : Context → List Command → Context
  asking ctx cs = record ctx { commands = ctx.commands ++ cs }
