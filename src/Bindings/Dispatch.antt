-- ===== src/Bindings/Dispatch.antt =====
-- backtester-py/src/lib.rs: `AnyEngine`, the engine for the named queue and latency models, and the
-- exceptions that the core's errors become.
pub mod Laws
use Prim.Native.String.{String}
use crypto_rs_backtester.Prelude.{
  ℕ, Bool, true, false, ◌&&◌, Option, none, some, List, [], ◌∷◌, Result, ok, err, if◌then◌else◌,
  map_err, ◌⊎◌, inl, inr,
}
use crypto_rs_backtester.Prelude.Int.{ℤ}
use crypto_rs_backtester.Prelude.Keys.{◌==◌}
use crypto_rs_backtester.Event.{EventKind}
use crypto_rs_backtester.QueueModel.{QueueModel}
use crypto_rs_backtester.QueueModel.Conservative.{conservative_queue}
use crypto_rs_backtester.QueueModel.VolumeClock.{volume_clock_queue}
use crypto_rs_backtester.QueueModel.L3Exact.{l3_exact_queue}
use crypto_rs_backtester.Latency.{LatencyModel, ConstantLatency, constant_latency}
use crypto_rs_backtester.Latency.LogNormal.{Sampling, LogNormalJitter, log_normal_jitter}
use crypto_rs_backtester.Tuner.{FloatOps}
use crypto_rs_backtester.Sources.Arrow.{Arrow, TickSourceError, non_integer_column, reader_failed}
use crypto_rs_backtester.Sources.Ticks.{arrow_tick_source}
use crypto_rs_backtester.Sources.Updates.{arrow_l3_source}
use crypto_rs_backtester.Stats.Summary.{StatsBackend}
use crypto_rs_backtester.Engine
use crypto_rs_backtester.Engine.{Env, Engine, EngineConfig, EngineError}
use crypto_rs_backtester.Engine.Step
use crypto_rs_backtester.Bindings.{
  Python, PyErr, value_error, type_error, runtime_error, Message, string_eq,
}
use crypto_rs_backtester.Bindings.Callbacks.{PyObject, py_strategy}
use crypto_rs_backtester.Bindings.BacktestResult.{BacktestResult, extract}

-- What the extension module finds at run time: Python's strategy, Arrow, the generator, the arithmetic
-- on f64, and the thread pool's statistics. `method_collect` and `method_to_arrow` are the methods of a
-- data frame, `arrow_stream` is `get_arrow_stream`, and `display` the text of an error. `collect`
-- gathers the results of parallel runs.
pub record Host (P : Python) : Type 1 where
  pub object : PyObject P
  pub arrow : Arrow
  pub sampling : Sampling
  pub make_small_rng : ℕ → sampling.Rng
  pub tuner_floats : FloatOps
  pub target_latency : tuner_floats.Target
  pub backend : StatsBackend sampling.floats
  pub method_collect : P.Obj → Result P.Obj P.Err
  pub method_to_arrow : P.Obj → Result P.Obj P.Err
  pub arrow_stream : P.Obj → Result (List (Result arrow.RecordBatch arrow.ArrowError)) P.Err
  pub display : TickSourceError arrow → String
  pub to_lowercase : String → String
  pub collect : (A : Type 0) → List (Result A (PyErr P)) → Result (List A) (PyErr P)

module _ {P : Python} (H : Host P) where
  abbrev pub env_with : QueueModel → (L : LatencyModel) → (ℕ → L.Rng) → Env
  env_with Q L make_small_rng = record {
    queue_model = Q;
    latency_model = L;
    strategy = py_strategy H.object;
    floats = H.sampling.floats;
    tuner_floats = H.tuner_floats;
    target_latency = H.target_latency;
    make_small_rng = make_small_rng;
    SourceError = TickSourceError H.arrow;
    tick_source = arrow_tick_source H.arrow;
    l3_source = arrow_l3_source H.arrow;
  }

  -- An engine with a constant latency, and one with a log-normal one.
  abbrev pub constant_env : QueueModel → ConstantLatency → Env
  constant_env Q c = env_with Q (constant_latency H.sampling.Rng c) H.make_small_rng

  abbrev pub log_normal_env : QueueModel → LogNormalJitter → Env
  log_normal_env Q j = env_with Q (log_normal_jitter H.sampling j) H.make_small_rng

-- The latency models' own numbers are part of the type, for an engine keeps them as they are.
pub data AnyEngine {P : Python} (H : Host P) (c : ConstantLatency) (j : LogNormalJitter)
    : Type 0 where
  conservative_constant : Engine (constant_env H conservative_queue c) → AnyEngine H c j
  volume_clock_constant : Engine (constant_env H volume_clock_queue c) → AnyEngine H c j
  l3_exact_constant : Engine (constant_env H l3_exact_queue c) → AnyEngine H c j
  conservative_log_normal : Engine (log_normal_env H conservative_queue j) → AnyEngine H c j
  volume_clock_log_normal : Engine (log_normal_env H volume_clock_queue j) → AnyEngine H c j
  l3_exact_log_normal : Engine (log_normal_env H l3_exact_queue j) → AnyEngine H c j

-- What an error of a source becomes.
unfoldable pub tick_source_error_to_pyerr :
    {P : Python} (H : Host P) → TickSourceError H.arrow → PyErr P
tick_source_error_to_pyerr H (non_integer_column name t) =
    type_error (Message.displayed (H.display (non_integer_column name t)))
tick_source_error_to_pyerr H (reader_failed source) =
    runtime_error (Message.displayed (H.display (reader_failed source)))
tick_source_error_to_pyerr H error = value_error (Message.displayed (H.display error))

module _ {P : Python} (H : Host P) where
  -- The text of an internal error is a constructor; the panic at an index is the last one.
  unfoldable pub engine_error_to_pyerr :
      (Q : QueueModel) (L : LatencyModel) (mk : ℕ → L.Rng)
      → EngineError (env_with H Q L mk)
      → PyErr P
  unfolding tick_source_error_to_pyerr
  engine_error_to_pyerr Q L mk (EngineError.tick_source_error x) = tick_source_error_to_pyerr H x
  engine_error_to_pyerr Q L mk (EngineError.strategy_error x) = x
  engine_error_to_pyerr Q L mk (EngineError.mixed_depth n) = runtime_error (Message.mixed_depth n)
  engine_error_to_pyerr Q L mk (EngineError.internal x) = runtime_error (Message.internal x)
  engine_error_to_pyerr Q L mk (EngineError.no_next_update n) =
      runtime_error (Message.no_next_update n)
  engine_error_to_pyerr Q L mk (EngineError.no_next_tick n) = runtime_error (Message.no_next_tick n)
  engine_error_to_pyerr Q L mk (EngineError.index_out_of_range n) =
      runtime_error (Message.index_out_of_range n)

-- The two latency models that are made of the arguments.
abbrev pub const_l : ℤ → ℤ → ConstantLatency
const_l feed_latency_ns order_latency_ns = record {
  feed_latency_ns = feed_latency_ns;
  order_latency_ns = order_latency_ns;
}

abbrev pub log_l : ℤ → ℤ → LogNormalJitter
log_l latency_mean_ns latency_std_ns = record {
  mean_ns = latency_mean_ns;
  std_dev_ns = latency_std_ns;
}

module _ {P : Python} {H : Host P} where
  unfoldable pub new :
      String
      → String
      → (feed_latency_ns order_latency_ns latency_mean_ns latency_std_ns : ℤ) → H.object.State
      → EngineConfig
      → AnyEngine H
          (const_l feed_latency_ns order_latency_ns)
          (log_l latency_mean_ns latency_std_ns)
  unfolding Engine.new
  new queue_model latency_model feed order mean std strat config =
      if queue_model == "volume_clock"
      then (if latency_model == "log_normal"
          then volume_clock_log_normal (Engine.new strat config)
          else volume_clock_constant (Engine.new strat config))
      else if queue_model == "l3_exact"
      then (if latency_model == "log_normal"
          then l3_exact_log_normal (Engine.new strat config)
          else l3_exact_constant (Engine.new strat config))
      else if latency_model == "log_normal"
      then conservative_log_normal (Engine.new strat config)
      else conservative_constant (Engine.new strat config)

module _ {P : Python} {H : Host P} {c : ConstantLatency} {j : LogNormalJitter} where
  unfoldable pub add_tick_source :
      (arrow_tick_source H.arrow).State → AnyEngine H c j → AnyEngine H c j
  unfolding Engine.add_tick_source
  add_tick_source s (conservative_constant e) = conservative_constant (Engine.add_tick_source s e)
  add_tick_source s (volume_clock_constant e) = volume_clock_constant (Engine.add_tick_source s e)
  add_tick_source s (l3_exact_constant e) = l3_exact_constant (Engine.add_tick_source s e)
  add_tick_source s (conservative_log_normal e) =
      conservative_log_normal (Engine.add_tick_source s e)
  add_tick_source s (volume_clock_log_normal e) =
      volume_clock_log_normal (Engine.add_tick_source s e)
  add_tick_source s (l3_exact_log_normal e) = l3_exact_log_normal (Engine.add_tick_source s e)

  unfoldable pub add_l3_source : (arrow_l3_source H.arrow).State → AnyEngine H c j → AnyEngine H c j
  unfolding Engine.add_l3_source
  add_l3_source s (conservative_constant e) = conservative_constant (Engine.add_l3_source s e)
  add_l3_source s (volume_clock_constant e) = volume_clock_constant (Engine.add_l3_source s e)
  add_l3_source s (l3_exact_constant e) = l3_exact_constant (Engine.add_l3_source s e)
  add_l3_source s (conservative_log_normal e) = conservative_log_normal (Engine.add_l3_source s e)
  add_l3_source s (volume_clock_log_normal e) = volume_clock_log_normal (Engine.add_l3_source s e)
  add_l3_source s (l3_exact_log_normal e) = l3_exact_log_normal (Engine.add_l3_source s e)

  unfoldable pub push_event : ℤ → EventKind → AnyEngine H c j → AnyEngine H c j
  unfolding Engine.push_event
  push_event ts kind (conservative_constant e) = conservative_constant (Engine.push_event ts kind e)
  push_event ts kind (volume_clock_constant e) = volume_clock_constant (Engine.push_event ts kind e)
  push_event ts kind (l3_exact_constant e) = l3_exact_constant (Engine.push_event ts kind e)
  push_event ts kind (conservative_log_normal e) =
      conservative_log_normal (Engine.push_event ts kind e)
  push_event ts kind (volume_clock_log_normal e) =
      volume_clock_log_normal (Engine.push_event ts kind e)
  push_event ts kind (l3_exact_log_normal e) = l3_exact_log_normal (Engine.push_event ts kind e)

  -- `run().map_err(engine_error_to_pyerr)`
  unfoldable pub mapped :
      (Q : QueueModel) (L : LatencyModel) (mk : ℕ → L.Rng)
      → (Engine (env_with H Q L mk) → AnyEngine H c j)
      → Option (Result (Unit {0}) (EngineError (env_with H Q L mk)) × Engine (env_with H Q L mk))
      → Option (Result (Unit {0}) (PyErr P) × AnyEngine H c j)
  unfolding engine_error_to_pyerr
  mapped Q L mk engine none = none
  mapped Q L mk engine (some (ok done, e)) = some (ok tt, engine e)
  mapped Q L mk engine (some (err x, e)) = some (err (engine_error_to_pyerr H Q L mk x), engine e)

  -- On fuel, as the engine's `run`.
  unfoldable pub run :
      ℕ → (ℕ → ℤ) → ℕ → AnyEngine H c j → Option (Result (Unit {0}) (PyErr P) × AnyEngine H c j)
  unfolding mapped Step.run
  run fuel clock n (conservative_constant e) =
      mapped conservative_queue (constant_latency H.sampling.Rng c) H.make_small_rng
        conservative_constant (Step.run fuel clock n e)
  run fuel clock n (volume_clock_constant e) =
      mapped volume_clock_queue (constant_latency H.sampling.Rng c) H.make_small_rng
        volume_clock_constant (Step.run fuel clock n e)
  run fuel clock n (l3_exact_constant e) =
      mapped l3_exact_queue (constant_latency H.sampling.Rng c) H.make_small_rng l3_exact_constant
        (Step.run fuel clock n e)
  run fuel clock n (conservative_log_normal e) =
      mapped conservative_queue (log_normal_jitter H.sampling j) H.make_small_rng
        conservative_log_normal (Step.run fuel clock n e)
  run fuel clock n (volume_clock_log_normal e) =
      mapped volume_clock_queue (log_normal_jitter H.sampling j) H.make_small_rng
        volume_clock_log_normal (Step.run fuel clock n e)
  run fuel clock n (l3_exact_log_normal e) =
      mapped l3_exact_queue (log_normal_jitter H.sampling j) H.make_small_rng l3_exact_log_normal
        (Step.run fuel clock n e)

  unfoldable pub extract_result : AnyEngine H c j → BacktestResult H.sampling.floats
  unfolding extract Step.stats
  extract_result (conservative_constant e) = extract e.trade_log (Step.stats H.backend e)
  extract_result (volume_clock_constant e) = extract e.trade_log (Step.stats H.backend e)
  extract_result (l3_exact_constant e) = extract e.trade_log (Step.stats H.backend e)
  extract_result (conservative_log_normal e) = extract e.trade_log (Step.stats H.backend e)
  extract_result (volume_clock_log_normal e) = extract e.trade_log (Step.stats H.backend e)
  extract_result (l3_exact_log_normal e) = extract e.trade_log (Step.stats H.backend e)
