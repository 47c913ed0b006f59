-- ===== src/Sources/Arrow.antt =====
-- backtester-core/src/tick_source.rs and l3_source.rs: the columns of a record batch. The crate `arrow`
-- is a parameter.
use crypto_rs_backtester.Prelude.{
  ℕ, Bool, true, false, ltb, Option, none, some, List, [], ◌∷◌, Result, ok, err, ◌>>=◌, ◌>>◌,
  map_err, ok_or, if◌then◌else◌,
}
use crypto_rs_backtester.Prelude.Int.{ℤ}

-- The names of columns that the core asks for.
pub data ColumnName : Type 0 where
  ts_exchange ts_event price qty size side seq ts_local order_id action : ColumnName

-- The types of columns; those that are not of whole numbers are numbered.
pub data DataType : Type 0 where
  int8 int16 int32 int64 uint8 uint16 uint32 uint64 : DataType
  other : ℕ → DataType

-- What the core uses of `arrow`. `values_i64` and its like are the casts of an array to the array of a
-- type, which give the value of each row.
pub record Arrow : Type 1 where
  pub RecordBatch : Type 0
  pub Column : Type 0
  pub ArrowError : Type 0
  pub num_rows : RecordBatch → ℕ
  pub column_by_name : ColumnName → RecordBatch → Option Column
  pub data_type : Column → DataType
  pub null_count : Column → ℕ
  pub cast : DataType → Column → Result Column ArrowError
  pub wrong_type : ArrowError
  pub values_i64 : Column → Option (ℕ → ℤ)
  pub values_u64 : Column → Option (ℕ → ℕ)
  pub values_i8 : Column → Option (ℕ → ℤ)

pub data TickSourceError (A : Arrow) : Type 0 where
  missing_column : List ColumnName → TickSourceError A
  non_integer_column : ColumnName → DataType → TickSourceError A
  null_column : ColumnName → TickSourceError A
  cast_failed : ColumnName → DataType → A.ArrowError → TickSourceError A
  out_of_range : ColumnName → DataType → TickSourceError A
  invalid_side : ℤ → TickSourceError A
  reader_failed : A.ArrowError → TickSourceError A

unfoldable pub is_integer_type : DataType → Bool
is_integer_type (DataType.other n) = false
is_integer_type _ = true

-- `names.iter().find_map(…)`
unfoldable pub find_column : (A : Arrow) → List ColumnName → A.RecordBatch → Option A.Column
find_column A [] batch = none
find_column A (name ∷ names) batch = elim (A.column_by_name name batch) [
  | some column ↦ some column
  | none ↦ find_column A names batch
]

unfoldable pub required_column :
    (A : Arrow) → A.RecordBatch → List ColumnName → Result A.Column (TickSourceError A)
unfolding find_column
required_column A batch names = ok_or (missing_column names) (find_column A names batch)

abbrev pub guard : {X : Type 0} → Bool → X → Result (Unit {0}) X
guard true x = ok tt
guard false x = err x

unfoldable pub cast_integer_array :
    (A : Arrow) → A.Column → ColumnName → DataType → Result A.Column (TickSourceError A)
unfolding is_integer_type
cast_integer_array A column name target_type = do
  guard (is_integer_type (A.data_type column)) (non_integer_column name (A.data_type column))
  guard (if ltb 0 (A.null_count column) then false else true) (null_column name)
  casted ← map_err (cast_failed name target_type) (A.cast target_type column)
  guard (if ltb 0 (A.null_count casted) then false else true) (out_of_range name target_type)
  ok casted

unfoldable pub integer_array_to_i64 :
    (A : Arrow) → A.Column → ColumnName → Result (ℕ → ℤ) (TickSourceError A)
unfolding cast_integer_array
integer_array_to_i64 A column name = do
  array ← cast_integer_array A column name DataType.int64
  ok_or (cast_failed name DataType.int64 A.wrong_type) (A.values_i64 array)

unfoldable pub integer_array_to_u64 :
    (A : Arrow) → A.Column → ColumnName → Result (ℕ → ℕ) (TickSourceError A)
unfolding cast_integer_array
integer_array_to_u64 A column name = do
  array ← cast_integer_array A column name DataType.uint64
  ok_or (cast_failed name DataType.uint64 A.wrong_type) (A.values_u64 array)

unfoldable pub integer_array_to_i8 :
    (A : Arrow) → A.Column → ColumnName → Result (ℕ → ℤ) (TickSourceError A)
unfolding cast_integer_array
integer_array_to_i8 A column name = do
  array ← cast_integer_array A column name DataType.int8
  ok_or (cast_failed name DataType.int8 A.wrong_type) (A.values_i8 array)

-- A required column is read under the first of its names; an error names that one.
unfoldable pub get_required_i64 :
    (A : Arrow) → A.RecordBatch → ColumnName → List ColumnName → Result (ℕ → ℤ) (TickSourceError A)
unfolding required_column integer_array_to_i64
get_required_i64 A batch name names = do
  column ← required_column A batch (name ∷ names)
  integer_array_to_i64 A column name

unfoldable pub get_required_u64 :
    (A : Arrow) → A.RecordBatch → ColumnName → List ColumnName → Result (ℕ → ℕ) (TickSourceError A)
unfolding required_column integer_array_to_u64
get_required_u64 A batch name names = do
  column ← required_column A batch (name ∷ names)
  integer_array_to_u64 A column name

-- `.transpose()`
abbrev pub transpose : {B X : Type 0} → Option (Result B X) → Result (Option B) X
transpose none = ok none
transpose (some (ok b)) = ok (some b)
transpose (some (err x)) = err x

unfoldable pub get_optional_i64 :
    (A : Arrow) → A.RecordBatch → ColumnName → Result (Option (ℕ → ℤ)) (TickSourceError A)
unfolding integer_array_to_i64
get_optional_i64 A batch name = elim (A.column_by_name name batch) [
  | none ↦ ok none
  | some column ↦ transpose (some (integer_array_to_i64 A column name))
]

unfoldable pub get_optional_u64 :
    (A : Arrow) → A.RecordBatch → ColumnName → Result (Option (ℕ → ℕ)) (TickSourceError A)
unfolding integer_array_to_u64
get_optional_u64 A batch name = elim (A.column_by_name name batch) [
  | none ↦ ok none
  | some column ↦ transpose (some (integer_array_to_u64 A column name))
]
