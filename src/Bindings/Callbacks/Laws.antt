-- ===== src/Bindings/Callbacks/Laws.antt =====
-- backtester-py/src/lib.rs: a batch of ticks holds the ticks, and a batch of one is a tick.
use crypto_rs_backtester.Prelude.{
  ℕ, ◌≡◌, refl, Bool, true, false, List, [], ◌∷◌, ◌++◌, map, Result, ok, arith, ap, ◌∙◌,
}
use mathlib.Core.List.{append_assoc, append-nil}
use crypto_rs_backtester.Prelude.Int.{ℤ}
use crypto_rs_backtester.Types.{Tick, OrderReport, as_i8}
use crypto_rs_backtester.Strategy.{Context}
use crypto_rs_backtester.Bindings.{Python}
use crypto_rs_backtester.Bindings.Context.{PyContext, fresh_context}
use crypto_rs_backtester.Bindings.Values.{PyTick, tick_to_pyobject, order_report_to_pyobject}
use crypto_rs_backtester.Bindings.Callbacks.{
  TickBatch, no_ticks, append_ticks, Method, PyObject, call_each, py_on_tick, py_on_ticks,
  py_on_order_update, py_on_order_updates, called,
}

-- The rows of a batch, which ends with its shortest column.
unfoldable pub rows_from :
    List ℤ → List ℤ → List ℕ → List ℕ → List ℤ → List ℤ → List ℤ → List ℕ → List PyTick
rows_from (a ∷ as') (b ∷ bs) (c ∷ cs) (d ∷ ds) (p ∷ ps) (q ∷ qs) (s ∷ ss) (f ∷ fs) =
    (record {
      ts_exchange = a;
      ts_local = b;
      seq = c;
      symbol_id = d;
      price = p;
      qty = q;
      side = s;
      flags = f;
    })
    ∷ rows_from as' bs cs ds ps qs ss fs
rows_from _ _ _ _ _ _ _ _ = []

abbrev pub rows_of : TickBatch → List PyTick
rows_of b = rows_from b.ts_exchange b.ts_local b.seq b.symbol_id b.price b.qty b.side b.flags

abbrev columns : List Tick → TickBatch
columns ts = record {
  ts_exchange = map (λ (t : Tick). t.ts_exchange) ts;
  ts_local = map (λ (t : Tick). t.ts_local) ts;
  seq = map (λ (t : Tick). t.seq) ts;
  symbol_id = map (λ (t : Tick). t.symbol_id) ts;
  price = map (λ (t : Tick). t.price) ts;
  qty = map (λ (t : Tick). t.qty) ts;
  side = map (λ (t : Tick). as_i8 t.side) ts;
  flags = map (λ (t : Tick). t.flags) ts;
}

abbrev joined : TickBatch → TickBatch → TickBatch
joined a b = record {
  ts_exchange = a.ts_exchange ++ b.ts_exchange;
  ts_local = a.ts_local ++ b.ts_local;
  seq = a.seq ++ b.seq;
  symbol_id = a.symbol_id ++ b.symbol_id;
  price = a.price ++ b.price;
  qty = a.qty ++ b.qty;
  side = a.side ++ b.side;
  flags = a.flags ++ b.flags;
}

append_ticks-columns : (ts : List Tick) (b : TickBatch) → append_ticks ts b ≡ joined b (columns ts)
unfolding append_ticks
append_ticks-columns [] b = simp append-nil refl
append_ticks-columns (t ∷ ts) b = simp (append_ticks-columns ts, append_assoc) refl

rows_of-columns : (ts : List Tick) → rows_of (columns ts) ≡ map tick_to_pyobject ts
unfolding rows_from tick_to_pyobject
rows_of-columns [] = refl
rows_of-columns (t ∷ ts) = ap (λ l. tick_to_pyobject t ∷ l) (rows_of-columns ts)

-- The batch that a strategy's `on_ticks` gets has for its rows the ticks, each as `on_tick` would get
-- it, in their order.
pub append_ticks-rows_of :
    (ticks : List Tick) → rows_of (append_ticks ticks no_ticks) ≡ map tick_to_pyobject ticks
append_ticks-rows_of ticks =
    ap rows_of (append_ticks-columns ticks no_ticks) ∙ rows_of-columns ticks

module _ {P : Python} (O : PyObject P) where
  -- The object answers that it has the method, or that it has not.
  abbrev pub Has : Method → Bool → O.State → Type 0
  Has method b s = O.has_attr method s ≡ ok b

  -- One call in the loop is the call.
  call_each-one :
      {A : Type 0} (method : Method)
      (call : A → PyContext → O.State → Result (Unit {0}) P.Err × (PyContext × O.State)) (x : A)
      (ctx : PyContext) (s : O.State)
      → Has method true s
      → call_each O method call (x ∷ []) ctx s ≡ called O (call x ctx s)
  unfolding call_each
  call_each-one method call x ctx s h = ground arith

  -- For an object with the methods for one tick and one report only, a batch of one is the same
  -- callback as the tick or the report alone.
  pub batch_of_one :
      (tick : Tick) (report : OrderReport) (ctx : Context) (s : O.State)
      → Has Method.on_tick true s
      → Has Method.on_ticks false s
      → Has Method.on_order_update true s
      → Has Method.on_order_updates false s
      → (py_on_ticks O (tick ∷ []) ctx s ≡ py_on_tick O tick ctx s)
        × (py_on_order_updates O (report ∷ []) ctx s ≡ py_on_order_update O report ctx s)
  unfolding py_on_ticks py_on_tick py_on_order_updates py_on_order_update
  batch_of_one tick report ctx s a b c d =
      let py_ctx = fresh_context ctx in
      let one_tick =
        call_each-one Method.on_tick O.call_on_tick (tick_to_pyobject tick) py_ctx s a in
      let one_report =
        call_each-one Method.on_order_update O.call_on_order_update
          (order_report_to_pyobject report) py_ctx s c in
      (ground (arith, one_tick), ground (arith, one_report))
