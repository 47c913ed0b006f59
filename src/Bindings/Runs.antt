-- ===== src/Bindings/Runs.antt =====
-- backtester-py/src/lib.rs: the methods `run`, `run_many` and `run_arrow` of a `Backtester`.
pub mod Many
pub mod Streams
use Prim.Native.String.{String}
use text.Mathlib.Text.{starts_with}
use crypto_rs_backtester.Prelude.{
  ℕ, zero, suc, ◌+◌, ◌%◌, Bool, true, false, not, Option, none, some, List, [], ◌∷◌, Result, ok,
  err, ◌>>=◌, ◌>>◌, ok_or, map_err, if◌then◌else◌, eqb, length, map,
}
use crypto_rs_backtester.Prelude.Int.{ℤ, pos, ◌*ℤ◌}
use crypto_rs_backtester.Prelude.I64.{sat_i64}
use crypto_rs_backtester.Prelude.Keys.{◌==◌}
use crypto_rs_backtester.Collections.Map.{Map, get}
use crypto_rs_backtester.Sources.Updates.{l3_rows}
use crypto_rs_backtester.Sources.Ticks.{tick_rows}
use crypto_rs_backtester.Sources.Stream
use crypto_rs_backtester.Stats.{TradeLogMode}
use crypto_rs_backtester.Latency.{ConstantLatency}
use crypto_rs_backtester.Latency.LogNormal.{LogNormalJitter}
use crypto_rs_backtester.Engine.{EngineConfig, EngineMode}
use crypto_rs_backtester.Bindings.{
  Python, PyErr, raised, value_error, type_error, runtime_error, key_error, Message, string_eq,
  from_python, dict_or,
}
use crypto_rs_backtester.Bindings.Config.{Backtester, refuse_if, effective_queue_model}
use crypto_rs_backtester.Bindings.Symbols.{build_symbol_ids}
use crypto_rs_backtester.Bindings.BacktestResult.{BacktestResult}
use crypto_rs_backtester.Bindings.Dispatch
use crypto_rs_backtester.Bindings.Dispatch.{
  Host, AnyEngine, const_l, log_l, tick_source_error_to_pyerr, add_tick_source, add_l3_source,
  push_event, extract_result,
}
use crypto_rs_backtester.Bindings.Parse.{
  Pending, tick_source_of, reader_of, keys_and_ids, extract_keys, sort_keys, parse_polars_data,
}

module _ {P : Python} (H : Host P) where
  abbrev pub trade_log_mode_of : Backtester P → TradeLogMode
  trade_log_mode_of b =
      let mode = H.to_lowercase b.trade_log_mode in
      if mode == "all"
      then TradeLogMode.all
      else if mode == "summaryonly"
      then TradeLogMode.summary_only
      else if mode == "none"
      then TradeLogMode.none
      else if starts_with mode "ringbuffer"
      then TradeLogMode.ring_buffer b.ring_buffer_size
      else TradeLogMode.all

  unfoldable pub engine_config : ℕ → Backtester P → EngineConfig
  engine_config seed b = record {
    feed_latency_ns = b.feed_latency_ns;
    order_update_latency_ns = b.order_update_latency_ns;
    mode = if b.python_mode == "batch" then EngineMode.batch else EngineMode.tick;
    max_batch_ns = sat_i64 (b.batch_ms *ℤ pos 1000000);
    auto_tune = false;
    seed = seed;
    trade_log_mode = trade_log_mode_of b;
    maker_fee_bps = b.maker_fee_bps;
    taker_fee_bps = b.taker_fee_bps;
    max_open_orders = b.max_open_orders;
    max_position = b.max_position;
    max_loss = b.max_loss;
  }

  -- The engine of a configuration, with its latency models.
  abbrev pub EngineOf : Backtester P → Type 0
  EngineOf b =
      AnyEngine H (const_l b.feed_latency_ns b.order_update_latency_ns)
        (log_l b.latency_mean_ns b.latency_std_ns)

  abbrev pub new_engine : (b : Backtester P) → ℕ → H.object.State → EngineOf b
  new_engine b seed strategy =
      Dispatch.new (effective_queue_model b) b.latency_model b.feed_latency_ns
        b.order_update_latency_ns b.latency_mean_ns b.latency_std_ns strategy (engine_config seed b)

  -- The loop over the keys of `l3_data`.
  unfoldable pub attach_keys :
      {c : ConstantLatency} {j : LogNormalJitter}
      → P.Obj
      → Map String ℕ
      → List String
      → AnyEngine H c j
      → Result (AnyEngine H c j) (PyErr P)
  unfolding add_l3_source Stream.try_new get
  attach_keys l3_any symbol_ids [] engine = ok engine
  attach_keys l3_any symbol_ids (key ∷ keys) engine = do
    symbol_id ← ok_or (runtime_error Message.no_symbol_id) (get key symbol_ids)
    item ← from_python (P.get_item l3_any key)
    frame ← ok_or (value_error (Message.missing_l3_entry key)) item
    stream ← reader_of H frame
    source ←
        map_err (λ x. value_error (Message.displayed (H.display x)))
          (Stream.try_new (l3_rows H.arrow) symbol_id stream)
    attach_keys l3_any symbol_ids keys (add_l3_source source engine)

  unfoldable pub attach_l3_sources :
      {c : ConstantLatency} {j : LogNormalJitter}
      → Option P.Obj
      → List String
      → Map String ℕ
      → AnyEngine H c j
      → Result (AnyEngine H c j) (PyErr P)
  unfolding attach_keys
  attach_l3_sources l3_data keys symbol_ids engine = do
    l3_any ← ok_or (value_error Message.l3_requires_data) l3_data
    entries ← dict_or (type_error (Message.not_a_dict "l3_data")) l3_any
    attach_keys l3_any symbol_ids keys engine

  abbrev pub attach_if_l3 :
      (b : Backtester P) → List String → Map String ℕ → EngineOf b → Result (EngineOf b) (PyErr P)
  attach_if_l3 b keys symbol_ids engine =
      if b.depth_mode == "l3" then attach_l3_sources b.l3_data keys symbol_ids engine else ok engine

  unfoldable pub single_l3_key : Option P.Obj → Result (List String) (PyErr P)
  unfolding extract_keys sort_keys
  single_l3_key l3_data = do
    l3_any ← ok_or (value_error Message.l3_requires_data) l3_data
    entries ← dict_or (type_error (Message.not_a_dict "l3_data")) l3_any
    keys ← extract_keys H entries
    refuse_if (not (eqb (length keys) 1)) Message.one_l3_entry
    ok (sort_keys keys)

  -- `engine.run()?` and `extract_result`, on fuel.
  unfoldable pub finish :
      {c : ConstantLatency} {j : LogNormalJitter}
      → ℕ
      → (ℕ → ℤ)
      → ℕ
      → AnyEngine H c j
      → Option (Result (BacktestResult H.sampling.floats) (PyErr P))
  unfolding Dispatch.run extract_result
  finish fuel clock n engine = elim (Dispatch.run fuel clock n engine) [
    | none ↦ none
    | some (err e, engine') ↦ some (err e)
    | some (ok done, engine') ↦ some (ok (extract_result engine'))
  ]

  -- The loop of `run` over the keys.
  unfoldable pub add_sources :
      {c : ConstantLatency} {j : LogNormalJitter}
      → P.Obj
      → Map String ℕ
      → List String
      → AnyEngine H c j
      → Result (AnyEngine H c j) (PyErr P)
  unfolding tick_source_of add_tick_source get
  add_sources market_data symbol_ids [] engine = ok engine
  add_sources market_data symbol_ids (k ∷ ks) engine = do
    symbol_id ← ok_or (runtime_error Message.no_symbol_id) (get k symbol_ids)
    item ← from_python (P.get_item market_data k)
    frame ← ok_or (key_error Message.no_key) item
    source ← tick_source_of H symbol_id frame
    add_sources market_data symbol_ids ks (add_tick_source source engine)

  unfoldable pub run :
      ℕ
      → (ℕ → ℤ)
      → ℕ
      → H.object.State
      → Backtester P
      → Option (Result (BacktestResult H.sampling.floats) (PyErr P))
  unfolding engine_config keys_and_ids add_sources attach_l3_sources finish effective_queue_model
  run fuel clock n strategy b =
      let ready : Result (EngineOf b) (PyErr P) =
        keys_and_ids H b.market_data b.symbol_map >>= (λ found.
          add_sources b.market_data found.1 found.0 (new_engine b b.seed strategy)
          >>= (λ engine. attach_if_l3 b found.0 found.1 engine)) in
      elim ready [ err e ↦ some (err e) | ok engine ↦ finish fuel clock n engine ]
