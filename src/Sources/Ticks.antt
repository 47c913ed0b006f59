-- ===== src/Sources/Ticks.antt =====
-- backtester-core/src/tick_source.rs: `ArrowTickSource`.
use crypto_rs_backtester.Prelude.{ℕ, Option, none, some, [], ◌∷◌, Result, ok, ◌>>=◌, ok_or}
use crypto_rs_backtester.Prelude.Int.{ℤ, pos}
use crypto_rs_backtester.Types.{Tick, try_from}
use crypto_rs_backtester.Sources.{Source}
use crypto_rs_backtester.Sources.Arrow.{
  Arrow, ColumnName, TickSourceError, invalid_side, reader_failed, required_column,
  integer_array_to_i8, get_required_i64, get_optional_i64, get_optional_u64,
}
use crypto_rs_backtester.Sources.Stream
use crypto_rs_backtester.Sources.Stream.{Rows, Stream}

pub record CachedBatch : Type 0 where
  pub ts_exchange : ℕ → ℤ
  pub price : ℕ → ℤ
  pub qty : ℕ → ℤ
  pub side : ℕ → ℤ
  pub seq : Option (ℕ → ℕ)
  pub ts_local : Option (ℕ → ℤ)
  pub num_rows : ℕ

unfoldable pub cache : (A : Arrow) → A.RecordBatch → Result CachedBatch (TickSourceError A)
unfolding get_required_i64 required_column integer_array_to_i8 get_optional_u64 get_optional_i64
cache A batch = do
  ts_exchange ← get_required_i64 A batch ColumnName.ts_exchange (ColumnName.ts_event ∷ [])
  price ← get_required_i64 A batch ColumnName.price []
  qty ← get_required_i64 A batch ColumnName.qty (ColumnName.size ∷ [])
  side_column ← required_column A batch (ColumnName.side ∷ [])
  side ← integer_array_to_i8 A side_column ColumnName.side
  seq ← get_optional_u64 A batch ColumnName.seq
  ts_local ← get_optional_i64 A batch ColumnName.ts_local
  ok (record {
    ts_exchange = ts_exchange;
    price = price;
    qty = qty;
    side = side;
    seq = seq;
    ts_local = ts_local;
    num_rows = A.num_rows batch;
  })

-- The prefetches of later rows are left out.
unfoldable pub read_tick_at : (A : Arrow) → ℕ → CachedBatch → ℕ → Result Tick (TickSourceError A)
unfolding try_from
read_tick_at A symbol_id batch idx = do
  side ← ok_or (invalid_side (batch.side idx)) (try_from (batch.side idx))
  ok (record {
    ts_exchange = batch.ts_exchange idx;
    ts_local = elim batch.ts_local [ none ↦ pos 0 | some col ↦ col idx ];
    seq = elim batch.seq [ none ↦ 0 | some col ↦ col idx ];
    price = batch.price idx;
    qty = batch.qty idx;
    symbol_id = symbol_id;
    side = side;
    flags = 0;
  })

abbrev pub tick_rows :
    (A : Arrow) → Rows A.RecordBatch CachedBatch Tick A.ArrowError (TickSourceError A)
tick_rows A = record {
  cache = cache A;
  num_rows = λ batch. batch.num_rows;
  read_at = read_tick_at A;
  reader_error = reader_failed;
}

abbrev pub arrow_tick_source : (A : Arrow) → Source Tick (TickSourceError A)
arrow_tick_source A = Stream.source (tick_rows A)
