-- ===== src/Bindings/Parse.antt =====
-- backtester-py/src/lib.rs: the data of a run: the keys of a dict, the source of a data frame, and
-- `parse_polars_data`, which turns all ticks into events before the engines run.
pub mod Laws
use Prim.Native.String.{String, compare as compare_strings}
use text.Mathlib.Text.{is_le}
use crypto_rs_backtester.Prelude.{
  ℕ, zero, suc, ◌+◌, Bool, true, false, Ordering, Option, none, some, List, [], ◌∷◌, ◌++◌, Result,
  ok, err, ◌>>=◌, ◌>>◌, ok_or, map_err, if◌then◌else◌, leb, compare,
}
use crypto_rs_backtester.Prelude.Int.{ℤ, pos, eqb_ℤ}
use crypto_rs_backtester.Prelude.I64.{saturating_add, next_u64}
use crypto_rs_backtester.Collections.Map.{Map, get}
use crypto_rs_backtester.Types.{Tick}
use crypto_rs_backtester.Event.{EventKind}
use crypto_rs_backtester.Sources.{cmp_ℤ}
use crypto_rs_backtester.Sources.Ticks.{tick_rows, CachedBatch}
use crypto_rs_backtester.Sources.Stream
use crypto_rs_backtester.Sources.Stream.{Stream}
use crypto_rs_backtester.Sources.Stream.Laws.{drain}
use crypto_rs_backtester.Bindings.{
  Python, PyErr, raised, value_error, key_error, runtime_error, Message, string_eq, from_python,
  dict_or,
}
use crypto_rs_backtester.Bindings.Symbols.{build_symbol_ids}
use crypto_rs_backtester.Bindings.Dispatch.{Host, tick_source_error_to_pyerr}

-- `keys.sort()`
unfoldable pub insert_key : String → List String → List String
insert_key k [] = k ∷ []
insert_key k (j ∷ ks) = if is_le (compare_strings k j) then k ∷ j ∷ ks else j ∷ insert_key k ks

unfoldable pub sort_keys : List String → List String
unfolding insert_key
sort_keys [] = []
sort_keys (k ∷ ks) = insert_key k (sort_keys ks)

-- An event that waits for an engine: its time, the tie-breaker, and what it is.
abbrev pub Pending : Type 0
Pending = (ℤ × ℕ) × EventKind

-- `(*ts, *seq)` in the order of tuples.
abbrev pub not_after : Pending → Pending → Bool
not_after a b = elim (cmp_ℤ a.0.0 b.0.0) [
  | Ordering.lt ↦ true
  | Ordering.eq ↦ leb a.0.1 b.0.1
  | Ordering.gt ↦ false
]

-- `sort_by_key`, which is stable.
unfoldable pub insert_event : Pending → List Pending → List Pending
insert_event e [] = e ∷ []
insert_event e (f ∷ fs) = if not_after e f then e ∷ f ∷ fs else f ∷ insert_event e fs

unfoldable pub sort_events : List Pending → List Pending
unfolding insert_event
sort_events [] = []
sort_events (e ∷ es) = insert_event e (sort_events es)

-- The time at which the strategy sees a tick; 0 stands for a column that is absent.
unfoldable pub delivery_ts : ℤ → Tick → ℤ
delivery_ts feed_latency_ns tick =
    if eqb_ℤ tick.ts_local (pos 0)
    then saturating_add tick.ts_exchange feed_latency_ns
    else tick.ts_local

-- The two events of each tick, numbered from `seq`.
unfoldable pub schedule : ℤ → ℕ → List Tick → List Pending
unfolding delivery_ts
schedule feed_latency_ns seq [] = []
schedule feed_latency_ns seq (tick ∷ ticks) =
    let ts_local = delivery_ts feed_latency_ns tick in
    let truth_tick = record tick { ts_local = tick.ts_exchange; flags = 1 } in
    let delivered_tick = record tick { ts_local = ts_local; flags = 1 } in
    ((tick.ts_exchange, seq), EventKind.tick truth_tick)
    ∷ ((ts_local, next_u64 seq), EventKind.tick_delivery delivered_tick)
    ∷ schedule feed_latency_ns (next_u64 (next_u64 seq)) ticks

module _ {P : Python} (H : Host P) where
  unfoldable pub extract_keys : List (P.Obj × P.Obj) → Result (List String) (PyErr P)
  extract_keys [] = ok []
  extract_keys ((k, v) ∷ entries) = do
    key ← from_python (P.extract_string k)
    keys ← extract_keys entries
    ok (key ∷ keys)

  abbrev pub Ticks : Type 0
  Ticks = Stream H.arrow.RecordBatch CachedBatch Tick H.arrow.ArrowError

  abbrev pub reader_of :
      P.Obj → Result (List (Result H.arrow.RecordBatch H.arrow.ArrowError)) (PyErr P)
  reader_of frame = do
    df ← from_python (H.method_collect frame)
    table ← from_python (H.method_to_arrow df)
    from_python (H.arrow_stream table)

  unfoldable pub tick_source_of : ℕ → P.Obj → Result Ticks (PyErr P)
  unfolding Stream.try_new tick_source_error_to_pyerr
  tick_source_of symbol_id frame = do
    stream ← reader_of frame
    map_err (tick_source_error_to_pyerr H) (Stream.try_new (tick_rows H.arrow) symbol_id stream)

  -- The ticks of the keys in order, each source drained on fuel; none means that the fuel ran out.
  unfoldable pub read_ticks :
      ℕ → P.Obj → Map String ℕ → List String → Option (Result (List Tick) (PyErr P))
  unfolding tick_source_of get
  read_ticks fuel market_data symbol_ids [] = some (ok [])
  read_ticks fuel market_data symbol_ids (k ∷ ks) =
      let source : Result Ticks (PyErr P) = from_python (P.get_item market_data k) >>= (λ item.
        ok_or (key_error Message.no_key) item >>= (λ frame.
          ok_or (runtime_error Message.no_symbol_id) (get k symbol_ids)
          >>= (λ symbol_id. tick_source_of symbol_id frame))) in
      elim source [
        | err e ↦ some (err e)
        | ok s ↦ elim (drain (tick_rows H.arrow) fuel s) [
          | none ↦ none
          | some (ticks, some x) ↦ some (err (tick_source_error_to_pyerr H x))
          | some (ticks, none) ↦ elim (read_ticks fuel market_data symbol_ids ks) [
            | none ↦ none
            | some (err e) ↦ some (err e)
            | some (ok rest) ↦ some (ok (ticks ++ rest))
          ]
        ]
      ]

  -- The sorted keys of a dict, with their ids.
  unfoldable pub keys_and_ids :
      P.Obj → Option (Map String ℕ) → Result (List String × Map String ℕ) (PyErr P)
  unfolding extract_keys sort_keys build_symbol_ids
  keys_and_ids market_data explicit_map = do
    entries ← dict_or (raised P.cast_error) market_data
    found ← extract_keys entries
    ids ← build_symbol_ids (sort_keys found) explicit_map
    ok (sort_keys found, ids)

  unfoldable pub parse_polars_data :
      ℕ → P.Obj → ℤ → Option (Map String ℕ) → Option (Result (List Pending) (PyErr P))
  unfolding keys_and_ids read_ticks schedule sort_events
  parse_polars_data fuel market_data feed_latency_ns explicit_map =
      elim (keys_and_ids market_data explicit_map) [
        | err e ↦ some (err e)
        | ok (keys, ids) ↦ elim (read_ticks fuel market_data ids keys) [
          | none ↦ none
          | some (err e) ↦ some (err e)
          | some (ok ticks) ↦ some (ok (sort_events (schedule feed_latency_ns 0 ticks)))
        ]
      ]
