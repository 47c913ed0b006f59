-- ===== src/Bindings/Runs/Streams.antt =====
-- backtester-py/src/lib.rs: `run_arrow`, a run over Arrow streams.
use Prim.Native.String.{String}
use crypto_rs_backtester.Prelude.{
  ℕ, Option, none, some, List, [], ◌∷◌, Result, ok, err, ◌>>=◌, ◌>>◌, ok_or, map_err, if◌then◌else◌,
  eqb, length, map,
}
use crypto_rs_backtester.Prelude.Int.{ℤ}
use crypto_rs_backtester.Prelude.Keys.{◌==◌}
use crypto_rs_backtester.Collections.Map.{Map, get}
use crypto_rs_backtester.Sources.Ticks.{tick_rows}
use crypto_rs_backtester.Sources.Stream
use crypto_rs_backtester.Latency.{ConstantLatency}
use crypto_rs_backtester.Latency.LogNormal.{LogNormalJitter}
use crypto_rs_backtester.Bindings.{
  Python, PyErr, value_error, runtime_error, key_error, Message, string_eq, from_python,
}
use crypto_rs_backtester.Bindings.Config.{Backtester, refuse_if, effective_queue_model}
use crypto_rs_backtester.Bindings.Symbols.{build_symbol_ids}
use crypto_rs_backtester.Bindings.BacktestResult.{BacktestResult}
use crypto_rs_backtester.Bindings.Dispatch.{
  Host, AnyEngine, tick_source_error_to_pyerr, add_tick_source,
}
use crypto_rs_backtester.Bindings.Parse.{extract_keys, sort_keys}
use crypto_rs_backtester.Bindings.Runs.{
  EngineOf, new_engine, engine_config, finish, attach_if_l3, attach_l3_sources, single_l3_key,
}

module _ {P : Python} (H : Host P) where
  -- The loop of `run_arrow` over a dict of streams; the text of an error names its symbol.
  unfoldable pub add_streams :
      {c : ConstantLatency} {j : LogNormalJitter}
      → P.Obj
      → Map String ℕ
      → List String
      → AnyEngine H c j
      → Result (AnyEngine H c j) (PyErr P)
  unfolding Stream.try_new add_tick_source get
  add_streams streams symbol_ids [] engine = ok engine
  add_streams streams symbol_ids (k ∷ ks) engine = do
    symbol_id ← ok_or (runtime_error Message.no_symbol_id) (get k symbol_ids)
    item ← from_python (P.get_item streams k)
    stream_any ← ok_or (key_error (Message.displayed k)) item
    stream ← map_err (λ e. value_error (Message.stream_of k)) (H.arrow_stream stream_any)
    source ←
        map_err (λ x. value_error (Message.stream_of k))
          (Stream.try_new (tick_rows H.arrow) symbol_id stream)
    add_streams streams symbol_ids ks (add_tick_source source engine)

  abbrev pub many_streams :
      (b : Backtester P)
      → P.Obj
      → List (P.Obj × P.Obj)
      → EngineOf H b
      → Result (EngineOf H b) (PyErr P)
  many_streams b streams entries engine = do
    found ← extract_keys H entries
    refuse_if (eqb (length found) 0) Message.empty_streams
    symbol_ids ← build_symbol_ids (sort_keys found) b.symbol_map
    engine' ← add_streams streams symbol_ids (sort_keys found) engine
    attach_if_l3 H b (sort_keys found) symbol_ids engine'

  abbrev pub attach_single : (b : Backtester P) → EngineOf H b → Result (EngineOf H b) (PyErr P)
  attach_single b engine =
      if b.depth_mode == "l3"
      then single_l3_key H b.l3_data
        >>= (λ keys. attach_l3_sources H b.l3_data keys (map (λ k. (k, 1)) keys) engine)
      else ok engine

  -- A single stream has the symbol 1.
  abbrev pub one_stream :
      (b : Backtester P) → P.Obj → EngineOf H b → Result (EngineOf H b) (PyErr P)
  one_stream b stream_any engine = do
    stream ← from_python (H.arrow_stream stream_any)
    source ← map_err (tick_source_error_to_pyerr H) (Stream.try_new (tick_rows H.arrow) 1 stream)
    attach_single b (add_tick_source source engine)

  unfoldable pub run_arrow :
      ℕ
      → (ℕ → ℤ)
      → ℕ
      → P.Obj
      → H.object.State
      → Backtester P
      → Option (Result (BacktestResult H.sampling.floats) (PyErr P))
  unfolding engine_config finish effective_queue_model
  run_arrow fuel clock n stream strategy b =
      let fresh = new_engine H b b.seed strategy in
      let ready : Result (EngineOf H b) (PyErr P) = elim (P.as_dict stream) [
        | some entries ↦ many_streams b stream entries fresh
        | none ↦ one_stream b stream fresh
      ] in
      elim ready [ err e ↦ some (err e) | ok engine ↦ finish H fuel clock n engine ]
