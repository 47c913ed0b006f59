-- ===== src/Tests/Streams.antt =====
-- Concrete runs of the sources over tables of whole numbers.
use crypto_rs_backtester.Prelude.{
  ℕ, ◌≡◌, refl, arith, Option, none, some, List, [], ◌∷◌, Result, ok, err, map,
}
use crypto_rs_backtester.Prelude.Int.{ℤ, pos, negsuc, pos_part}
use crypto_rs_backtester.Sources.{get_at}
use crypto_rs_backtester.Sources.Arrow.{
  Arrow, ColumnName, DataType, get_required_i64, required_column, find_column, integer_array_to_i64,
  integer_array_to_i8, cast_integer_array, is_integer_type, get_optional_i64, get_optional_u64,
}
use crypto_rs_backtester.Sources.Ticks.{cache, tick_rows}
use crypto_rs_backtester.Sources.Stream.Rest.{rows_in, read_all}
use crypto_rs_backtester.Sources.Stream.Laws.{drain_new, delivered, drain_new-read_all}

-- A table: the number of rows and the columns.
pub record Table : Type 0 where
  pub size : ℕ
  pub columns : ColumnName → Option (List ℤ)

abbrev pub value : List ℤ → ℕ → ℤ
value l n = elim (get_at n l) [ none ↦ pos 0 | some v ↦ v ]

abbrev pub tables : Arrow
tables = record {
  RecordBatch = Table;
  Column = List ℤ;
  ArrowError = Unit {0};
  num_rows = λ t. t.size;
  column_by_name = λ name t. t.columns name;
  data_type = λ l. DataType.int64;
  null_count = λ l. 0;
  cast = λ t l. ok l;
  wrong_type = tt;
  values_i64 = λ l. some (value l);
  values_u64 = λ l. some (λ n. pos_part (value l n));
  values_i8 = λ l. some (value l);
}

abbrev trades : ℕ → List ℤ → Table
trades n times = record {
  size = n;
  columns = λ name. elim name [
    | ColumnName.ts_exchange ↦ some times
    | ColumnName.price ↦ some (map (λ t. pos 100) times)
    | ColumnName.qty ↦ some (map (λ t. pos 10) times)
    | ColumnName.side ↦ some (map (λ t. negsuc 0) times)
    | _ ↦ none
  ];
}

abbrev pub items : List (Result Table (Unit {0}))
items =
    ok (trades 2 (pos 1000 ∷ pos 2000 ∷ [])) ∷ ok (trades 0 []) ∷ ok (trades 1 (pos 3000 ∷ [])) ∷ []

pub three_rows : rows_in (tick_rows tables) items ≡ 3
unfolding cache get_required_i64 required_column find_column integer_array_to_i64
    integer_array_to_i8 cast_integer_array is_integer_type get_optional_u64 get_optional_i64
three_rows = refl

-- A reader that fails after a batch of two rows.
abbrev failing : List (Result Table (Unit {0}))
failing = ok (trades 2 (pos 1000 ∷ pos 2000 ∷ [])) ∷ err tt ∷ []

two_rows : rows_in (tick_rows tables) failing ≡ 2
unfolding cache get_required_i64 required_column find_column integer_array_to_i64
    integer_array_to_i8 cast_integer_array is_integer_type get_optional_u64 get_optional_i64
two_rows = refl

drain_new-read_all_example :
    drain_new (tick_rows tables) 3 1 failing
    ≡ some (delivered (read_all (tick_rows tables) 1 failing))
drain_new-read_all_example =
    drain_new-read_all (tick_rows tables) 1 3 failing (omega (arith, two_rows))
