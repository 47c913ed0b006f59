-- ===== src/Sources/Stream.antt =====
-- backtester-core/src/tick_source.rs and l3_source.rs: the loop over the batches of a reader, which
-- the two sources share.
pub mod Rest
pub mod Laws
pub mod Ends
use crypto_rs_backtester.Prelude.{
  ℕ, suc, ltb, Option, none, some, List, [], ◌∷◌, Result, ok, err, Bool, true, false, if◌then◌else◌,
}
use crypto_rs_backtester.Sources.{Source}

-- What a source does with a batch: its columns, its rows, and the element at a row.
pub record Rows (B C T R X : Type 0) : Type 0 where
  pub cache : B → Result C X
  pub num_rows : C → ℕ
  pub read_at : ℕ → C → ℕ → Result T X
  pub reader_error : R → X

-- The state of a source. The reader is the list of the items that it has yet to give.
pub record Stream (B C T R : Type 0) : Type 0 where
  pub symbol_id : ℕ
  pub reader : List (Result B R)
  pub current_batch : Option C
  pub batch_idx : ℕ
  pub next_element : Option T

module _ {B C T R X : Type 0} (rows : Rows B C T R X) where
  -- The row at `batch_idx` of a batch that has it.
  unfoldable pub load_row : C → Stream B C T R → Result (Unit {0}) X × Stream B C T R
  load_row batch s = elim (rows.read_at s.symbol_id batch s.batch_idx) [
    | err x ↦ (err x, s)
    | ok element ↦ (ok tt, record s { next_element = some element; batch_idx = suc s.batch_idx })
  ]

  abbrev pub has_row : Stream B C T R → Option C
  has_row s = elim s.current_batch [
    | none ↦ none
    | some batch ↦ if ltb s.batch_idx (rows.num_rows batch) then some batch else none
  ]

  -- The batches that the reader gives, up to one that has a row.
  unfoldable pub load_batch :
      List (Result B R) → Stream B C T R → Result (Unit {0}) X × Stream B C T R
  unfolding load_row
  load_batch [] s = (ok tt, record s { reader = []; current_batch = none; next_element = none })
  load_batch (err r ∷ items) s = (err (rows.reader_error r), record s { reader = items })
  load_batch (ok b ∷ items) s = elim (rows.cache b) [
    | err x ↦ (err x, record s { reader = items })
    | ok batch ↦
        let loaded = record s { reader = items; current_batch = some batch; batch_idx = 0 } in
        if ltb 0 (rows.num_rows batch) then load_row batch loaded else load_batch items loaded
  ]

  unfoldable pub advance : Stream B C T R → Result (Unit {0}) X × Stream B C T R
  unfolding load_row load_batch
  advance s = elim (has_row s) [ some batch ↦ load_row batch s | none ↦ load_batch s.reader s ]

  unfoldable pub try_new : ℕ → List (Result B R) → Result (Stream B C T R) X
  unfolding advance
  try_new symbol_id reader =
      let fresh : Stream B C T R = record {
        symbol_id = symbol_id;
        reader = reader;
        current_batch = none;
        batch_idx = 0;
        next_element = none;
      } in
      let (r, s) = advance fresh in elim r [ err x ↦ err x | ok done ↦ ok s ]

  unfoldable pub peek : Stream B C T R → Result (Option T) X × Stream B C T R
  peek s = (ok s.next_element, s)

  -- The element is taken first: where the source then fails to advance, it is lost.
  unfoldable pub next : Stream B C T R → Result (Option T) X × Stream B C T R
  unfolding advance
  next s = elim s.next_element [
    | none ↦ (ok none, s)
    | some element ↦
        let (r, s') = advance (record s { next_element = none }) in
        elim r [ err x ↦ (err x, s') | ok done ↦ (ok (some element), s') ]
  ]

  abbrev pub source : Source T X
  source = record { State = Stream B C T R; peek = peek; next = next; symbol_id = λ s. s.symbol_id }
