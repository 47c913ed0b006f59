-- ===== src/Sources/Updates.antt =====
-- backtester-core/src/l3_source.rs: `ArrowL3Source`.
use crypto_rs_backtester.Prelude.{
  ℕ, ◌%◌, ◌-◌, Option, none, some, [], ◌∷◌, Result, ok, ◌>>=◌, ok_or,
}
use crypto_rs_backtester.Prelude.Int.{ℤ, pos, negsuc}
use crypto_rs_backtester.Types.{L3Update, try_from}
use crypto_rs_backtester.Sources.{Source}
use crypto_rs_backtester.Sources.Arrow.{
  Arrow, ColumnName, TickSourceError, invalid_side, reader_failed, required_column,
  integer_array_to_i8, get_required_i64, get_required_u64, get_optional_u64,
}
use crypto_rs_backtester.Sources.Stream
use crypto_rs_backtester.Sources.Stream.{Rows, Stream}

pub record CachedL3Batch : Type 0 where
  pub ts_exchange : ℕ → ℤ
  pub price : ℕ → ℤ
  pub qty : ℕ → ℤ
  pub side : ℕ → ℤ
  pub seq : Option (ℕ → ℕ)
  pub order_id : ℕ → ℕ
  pub action : ℕ → ℤ
  pub num_rows : ℕ

unfoldable pub cache_l3 : (A : Arrow) → A.RecordBatch → Result CachedL3Batch (TickSourceError A)
unfolding get_required_i64 required_column integer_array_to_i8 get_optional_u64 get_required_u64
cache_l3 A batch = do
  ts_exchange ← get_required_i64 A batch ColumnName.ts_exchange (ColumnName.ts_event ∷ [])
  price ← get_required_i64 A batch ColumnName.price []
  qty ← get_required_i64 A batch ColumnName.qty (ColumnName.size ∷ [])
  side_column ← required_column A batch (ColumnName.side ∷ [])
  side ← integer_array_to_i8 A side_column ColumnName.side
  seq ← get_optional_u64 A batch ColumnName.seq
  order_id ← get_required_u64 A batch ColumnName.order_id []
  action_column ← required_column A batch (ColumnName.action ∷ [])
  action ← integer_array_to_i8 A action_column ColumnName.action
  ok (record {
    ts_exchange = ts_exchange;
    price = price;
    qty = qty;
    side = side;
    seq = seq;
    order_id = order_id;
    action = action;
    num_rows = A.num_rows batch;
  })

-- `as u8` of an i8.
abbrev pub as_u8 : ℤ → ℕ
as_u8 (pos n) = n % 256
as_u8 (negsuc n) = 255 - n % 256

-- A row without a sequence number has its index in the batch.
unfoldable pub read_update_at :
    (A : Arrow) → ℕ → CachedL3Batch → ℕ → Result L3Update (TickSourceError A)
unfolding try_from
read_update_at A symbol_id batch idx = do
  side ← ok_or (invalid_side (batch.side idx)) (try_from (batch.side idx))
  ok (record {
    ts_exchange = batch.ts_exchange idx;
    seq = elim batch.seq [ none ↦ idx | some col ↦ col idx ];
    symbol_id = symbol_id;
    order_id = batch.order_id idx;
    price = batch.price idx;
    qty = batch.qty idx;
    side = side;
    action = as_u8 (batch.action idx);
  })

abbrev pub l3_rows :
    (A : Arrow) → Rows A.RecordBatch CachedL3Batch L3Update A.ArrowError (TickSourceError A)
l3_rows A = record {
  cache = cache_l3 A;
  num_rows = λ batch. batch.num_rows;
  read_at = read_update_at A;
  reader_error = reader_failed;
}

abbrev pub arrow_l3_source : (A : Arrow) → Source L3Update (TickSourceError A)
arrow_l3_source A = Stream.source (l3_rows A)
