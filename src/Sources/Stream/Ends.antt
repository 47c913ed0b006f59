-- ===== src/Sources/Stream/Ends.antt =====
-- backtester-core/src/tick_source.rs and l3_source.rs: a source comes to an end.
use crypto_rs_backtester.Prelude.{
  ℕ, suc, ◌≤◌, ◌<◌, ◌≡◌, Option, none, some, List, Result, ok, err, arith,
}
use crypto_rs_backtester.Sources.Finite.{Finite}
use crypto_rs_backtester.Sources.Stream
use crypto_rs_backtester.Sources.Stream.{
  Rows, Stream, load_row, load_batch, advance, try_new, next, peek,
}
use crypto_rs_backtester.Sources.Stream.Rest.{
  Got, rest_of, left_of, Gives, advance-Gives, asks, moved-pending,
}

module _ {B C T R X : Type 0} (rows : Rows B C T R X) where
  pub peek-asks : (s : Stream B C T R) → asks rows (peek rows s).1 ≤ asks rows s
  unfolding peek
  peek-asks s = omega arith

  moved-asks :
      (t a : T) (all : Got T X) (k : ℕ) (r : Result (Unit {0}) X × Stream B C T R)
      → Gives rows all k r
      → let answered : Result (Option T) X × Stream B C T R = elim r.0 [
        | err x ↦ (err x, r.1)
        | ok done ↦ (ok (some t), r.1)
      ] in
        answered.0 ≡ ok (some a) → asks rows answered.1 < suc k
  moved-asks t a all k (ok done, s) g h = (moved-pending rows all k (suc k) s (omega arith) g).0
  moved-asks t a all k (err x, s) g h = absurd (ground (arith, h))

  pub next-asks :
      (symbol_id : ℕ) (items : List (Result B R)) (batch : Option C) (idx : ℕ) (element : Option T)
      (a : T)
      → let s : Stream B C T R = record {
        symbol_id = symbol_id;
        reader = items;
        current_batch = batch;
        batch_idx = idx;
        next_element = element;
      } in
        (next rows s).0 ≡ ok (some a) → asks rows (next rows s).1 < asks rows s
  unfolding next
  next-asks symbol_id items batch idx none a h = absurd (ground (arith, h))
  next-asks symbol_id items batch idx (some t) a h =
      moved-asks t a (rest_of rows symbol_id batch idx items) (left_of rows batch idx items) _
        (advance-Gives rows symbol_id items batch idx none) h

  -- A source over the items of a reader comes to an end.
  abbrev pub source-Finite : Finite (Stream.source rows)
  source-Finite = record {
    remaining = asks rows;
    peek_adds_none = peek-asks;
    next_takes =
        λ s a h. next-asks s.symbol_id s.reader s.current_batch s.batch_idx s.next_element a h;
  }
