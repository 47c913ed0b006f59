-- ===== src/Bindings/Callbacks.antt =====
-- backtester-py/src/lib.rs: `PyStrategy`, a Python object as a strategy of the core. The object is a
-- parameter; the objects that the bindings make for it are taken to be made without a failure.
pub mod Laws
use crypto_rs_backtester.Prelude.{
  ℕ, Bool, true, false, Option, none, some, List, [], ◌∷◌, ◌++◌, map, Result, ok, err,
}
use crypto_rs_backtester.Prelude.Int.{ℤ}
use crypto_rs_backtester.Types.{Tick, OrderReport, as_i8}
use crypto_rs_backtester.Strategy.{Strategy, Context, ignore_funding}
use crypto_rs_backtester.Bindings.{Python, PyErr, raised}
use crypto_rs_backtester.Bindings.Context.{PyContext, fresh_context, apply_py_ctx_commands}
use crypto_rs_backtester.Bindings.Values.{
  PyTick, tick_to_pyobject, PyOrderReport, order_report_to_pyobject,
}

-- The columns of a `RecordBatch` of ticks.
pub record TickBatch : Type 0 where
  pub ts_exchange : List ℤ
  pub ts_local : List ℤ
  pub seq : List ℕ
  pub symbol_id : List ℕ
  pub price : List ℤ
  pub qty : List ℤ
  pub side : List ℤ
  pub flags : List ℕ

abbrev pub no_ticks : TickBatch
no_ticks = record {
  ts_exchange = [];
  ts_local = [];
  seq = [];
  symbol_id = [];
  price = [];
  qty = [];
  side = [];
  flags = [];
}

-- The loop over the builders.
unfoldable pub append_ticks : List Tick → TickBatch → TickBatch
unfolding as_i8
append_ticks [] b = b
append_ticks (t ∷ ts) b = append_ticks ts (record {
  ts_exchange = b.ts_exchange ++ t.ts_exchange ∷ [];
  ts_local = b.ts_local ++ t.ts_local ∷ [];
  seq = b.seq ++ t.seq ∷ [];
  symbol_id = b.symbol_id ++ t.symbol_id ∷ [];
  price = b.price ++ t.price ∷ [];
  qty = b.qty ++ t.qty ∷ [];
  side = b.side ++ as_i8 t.side ∷ [];
  flags = b.flags ++ t.flags ∷ [];
})

-- What `on_ticks` is called with: a list of ticks, or a pyarrow batch.
pub data Ticks (P : Python) : Type 0 where
  tick_list : List PyTick → Ticks P
  batch : P.Obj → Ticks P

pub data Method : Type 0 where
  on_tick on_ticks on_order_update on_order_updates : Method

-- A Python object: what it answers to `hasattr`, and what a call of a method does to it and to the
-- context that is passed to it.
pub record PyObject (P : Python) : Type 1 where
  pub State : Type 0
  pub has_attr : Method → State → Result Bool P.Err
  pub call_on_tick : PyTick → PyContext → State → Result (Unit {0}) P.Err × (PyContext × State)
  pub call_on_ticks : Ticks P → PyContext → State → Result (Unit {0}) P.Err × (PyContext × State)
  pub call_on_order_update :
      PyOrderReport → PyContext → State → Result (Unit {0}) P.Err × (PyContext × State)
  pub call_on_order_updates :
      List PyOrderReport → PyContext → State → Result (Unit {0}) P.Err × (PyContext × State)
  pub batch_to_pyarrow : TickBatch → Result P.Obj P.Err

module _ {P : Python} (O : PyObject P) where
  abbrev pub Step : Type 0
  Step = Result (Unit {0}) (PyErr P) × (PyContext × O.State)

  abbrev pub called : Result (Unit {0}) P.Err × (PyContext × O.State) → Step
  called (ok done, after) = (ok tt, after)
  called (err e, after) = (err (raised e), after)

  -- A call where the object has the method, and the other case where it has not.
  abbrev pub if_has : Method → PyContext → O.State → Step → Step → Step
  if_has method ctx s does otherwise = elim (O.has_attr method s) [
    | err e ↦ (err (raised e), (ctx, s))
    | ok true ↦ does
    | ok false ↦ otherwise
  ]

  -- The end of a callback: what the object asked for, unless it failed.
  abbrev pub hand_on : Context → Step → Result (Unit {0}) (PyErr P) × (Context × O.State)
  hand_on ctx (err e, (py_ctx, s)) = (err e, (ctx, s))
  hand_on ctx (ok done, (py_ctx, s)) =
      let (r, ctx') = apply_py_ctx_commands py_ctx ctx in (r, (ctx', s))

  -- The calls one by one on one context, each where the object has the method.
  unfoldable pub call_each :
      {A : Type 0}
      → Method
      → (A → PyContext → O.State → Result (Unit {0}) P.Err × (PyContext × O.State))
      → List A
      → PyContext
      → O.State
      → Step
  call_each method call [] ctx s = (ok tt, (ctx, s))
  call_each method call (x ∷ xs) ctx s =
      let (r, (ctx', s')) = if_has method ctx s (called (call x ctx s)) (ok tt, (ctx, s)) in
      elim r [ err e ↦ (err e, (ctx', s')) | ok done ↦ call_each method call xs ctx' s' ]

  unfoldable pub py_on_tick :
      Tick → Context → O.State → Result (Unit {0}) (PyErr P) × (Context × O.State)
  unfolding tick_to_pyobject apply_py_ctx_commands
  py_on_tick tick ctx s =
      let tick_obj = tick_to_pyobject tick in
      let py_ctx = fresh_context ctx in
      hand_on ctx (
        if_has Method.on_tick py_ctx s (called (O.call_on_tick tick_obj py_ctx s)) (
          if_has Method.on_ticks py_ctx s
            (called (O.call_on_ticks (tick_list (tick_obj ∷ [])) py_ctx s)) (ok tt, (py_ctx, s))))

  unfoldable pub py_on_order_update :
      OrderReport → Context → O.State → Result (Unit {0}) (PyErr P) × (Context × O.State)
  unfolding order_report_to_pyobject apply_py_ctx_commands
  py_on_order_update report ctx s =
      let report_obj = order_report_to_pyobject report in
      let py_ctx = fresh_context ctx in
      hand_on ctx (
        if_has Method.on_order_update py_ctx s (called (O.call_on_order_update report_obj py_ctx s))
          (if_has Method.on_order_updates py_ctx s
            (called (O.call_on_order_updates (report_obj ∷ []) py_ctx s)) (ok tt, (py_ctx, s))))

  unfoldable pub py_on_ticks :
      List Tick → Context → O.State → Result (Unit {0}) (PyErr P) × (Context × O.State)
  unfolding tick_to_pyobject apply_py_ctx_commands append_ticks call_each
  py_on_ticks ticks ctx s =
      let py_ctx = fresh_context ctx in
      let with_batch : Step = elim (O.batch_to_pyarrow (append_ticks ticks no_ticks)) [
        | err e ↦ (err (raised e), (py_ctx, s))
        | ok py_batch ↦ called (O.call_on_ticks (batch py_batch) py_ctx s)
      ] in
      hand_on ctx (
        if_has Method.on_ticks py_ctx s with_batch
          (call_each Method.on_tick O.call_on_tick (map tick_to_pyobject ticks) py_ctx s))

  unfoldable pub py_on_order_updates :
      List OrderReport → Context → O.State → Result (Unit {0}) (PyErr P) × (Context × O.State)
  unfolding order_report_to_pyobject apply_py_ctx_commands call_each
  py_on_order_updates reports ctx s =
      let py_ctx = fresh_context ctx in
      let report_objs = map order_report_to_pyobject reports in
      hand_on ctx (
        if_has Method.on_order_updates py_ctx s
          (called (O.call_on_order_updates report_objs py_ctx s))
          (call_each Method.on_order_update O.call_on_order_update report_objs py_ctx s))

  abbrev pub py_strategy : Strategy
  py_strategy = record {
    State = O.State;
    Error = PyErr P;
    on_tick = py_on_tick;
    on_ticks = py_on_ticks;
    on_order_update = py_on_order_update;
    on_order_updates = py_on_order_updates;
    on_funding = ignore_funding;
  }
