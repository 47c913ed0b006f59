-- ===== src/Bindings/Runs/Many.antt =====
-- backtester-py/src/lib.rs: `run_many`, the runs of several strategies over the same events.
use crypto_rs_backtester.Prelude.{
  ℕ, Option, none, some, List, [], ◌∷◌, Result, ok, err, if◌then◌else◌,
}
use crypto_rs_backtester.Prelude.Int.{ℤ}
use crypto_rs_backtester.Prelude.Keys.{◌==◌}
use crypto_rs_backtester.Latency.{ConstantLatency}
use crypto_rs_backtester.Latency.LogNormal.{LogNormalJitter}
use crypto_rs_backtester.Sweep.{run_all, seed_at}
use crypto_rs_backtester.Bindings.{Python, PyErr, value_error, Message, string_eq}
use crypto_rs_backtester.Bindings.Config.{Backtester, effective_queue_model}
use crypto_rs_backtester.Bindings.BacktestResult.{BacktestResult}
use crypto_rs_backtester.Bindings.Dispatch.{Host, AnyEngine, push_event}
use crypto_rs_backtester.Bindings.Parse.{Pending, parse_polars_data}
use crypto_rs_backtester.Bindings.Runs.{new_engine, engine_config, finish}

module _ {P : Python} (H : Host P) where
  unfoldable pub push_all :
      {c : ConstantLatency} {j : LogNormalJitter} → List Pending → AnyEngine H c j → AnyEngine H c j
  unfolding push_event
  push_all [] engine = engine
  push_all (((ts, seq), kind) ∷ events) engine = push_all events (push_event ts kind engine)

  -- The run of the strategy at an index, on an engine of its own.
  unfoldable pub many_run :
      ℕ
      → (ℕ → ℤ)
      → ℕ
      → Backtester P
      → List Pending
      → ℕ
      → H.object.State
      → Option (Result (BacktestResult H.sampling.floats) (PyErr P))
  unfolding engine_config push_all finish effective_queue_model
  many_run fuel clock n b events index strategy =
      finish H fuel clock n (push_all events (new_engine H b (seed_at b.seed index) strategy))

  unfoldable pub run_many :
      ℕ
      → (ℕ → ℤ)
      → ℕ
      → List H.object.State
      → Backtester P
      → Option (Result (List (BacktestResult H.sampling.floats)) (PyErr P))
  unfolding parse_polars_data many_run run_all
  run_many fuel clock n strategies b =
      let parsed = parse_polars_data H fuel b.market_data b.feed_latency_ns b.symbol_map in
      if b.depth_mode == "l3" then some (err (value_error Message.run_many_l3)) else elim parsed [
        | none ↦ none
        | some (err e) ↦ some (err e)
        | some (ok events) ↦
            run_all (H.collect (BacktestResult H.sampling.floats)) (many_run fuel clock n b events)
              strategies
      ]
