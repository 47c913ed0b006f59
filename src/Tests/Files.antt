-- ===== src/Tests/Files.antt =====
-- Concrete runs of the cursor and of the iterator that reads ahead.
use crypto_rs_backtester.Prelude.{
  ℕ, ◌+◌, ◌≡◌, ◌≤◌, refl, Option, none, some, List, [], ◌∷◌, arith, length, true,
}
use crypto_rs_backtester.Prelude.Int.{pos, negsuc, min_ℤ, max_ℤ}
use crypto_rs_backtester.Io.Cursor.{MmapCursor, read, seek, end_of}
use crypto_rs_backtester.Io.Cursor.Laws.{read_all, read_all-slice, slice, target, seek-target}
use crypto_rs_backtester.Io.Readahead
use crypto_rs_backtester.Io.Readahead.{
  Iter, AsyncBatchIter, Reach, start, produced, consumed, produce, next,
}
use crypto_rs_backtester.Io.Readahead.Laws.{results, Reach-results}
use crypto_rs_backtester.Io.Readahead.Returns.{wait, Reach-wait}

abbrev file : MmapCursor
file = record { inner = 10 ∷ 11 ∷ 12 ∷ 13 ∷ 14 ∷ []; position = 1 }

abbrev buffers : List (List ℕ)
buffers = (0 ∷ 0 ∷ []) ∷ [] ∷ (0 ∷ []) ∷ []

read_all-slice_example :
    read_all buffers file ≡ (slice 1 3 file.inner, record file { position = 1 + 3 })
read_all-slice_example = read_all-slice buffers file

read_all_runs : read_all buffers file ≡ (11 ∷ 12 ∷ 13 ∷ [], record file { position = 4 })
unfolding read_all read
read_all_runs = refl

-- The least i64 before the end is cut at 0.
seek-target_example :
    (pos (seek (end_of (negsuc 9223372036854775807)) file).0
      ≡ min_ℤ
          (max_ℤ (target (end_of (negsuc 9223372036854775807)) file) (pos 0))
          (pos 18446744073709551615))
    × ((seek (end_of (negsuc 9223372036854775807)) file).1
        ≡ record file { position = (seek (end_of (negsuc 9223372036854775807)) file).0 })
seek-target_example =
    seek-target (end_of (negsuc 9223372036854775807)) file (omega arith) (omega arith)
      (omega arith, omega arith)

-- An iterator over a list.
abbrev from_list : Iter ℕ
from_list = record {
  State = List ℕ;
  next = λ l. elim l [ [] ↦ (none, []) | x ∷ xs ↦ (some x, xs) ];
}

-- One item is in the channel and one at its `send` when the consumer takes the first.
abbrev taken : AsyncBatchIter from_list
taken = record {
  readahead = 1;
  producer = Readahead.sending 8 [];
  channel = [];
  has_receiver = true;
}

reached : Reach from_list (7 ∷ 8 ∷ []) 1 (some 7 ∷ []) taken
unfolding Readahead.new produce next
reached =
    consumed {st = record taken { channel = some 7 ∷ [] }}
      (produced {st = record taken { producer = Readahead.pulling (8 ∷ []); channel = some 7 ∷ [] }}
        (produced {st = record taken { producer = Readahead.sending 7 (8 ∷ []) }}
          (produced {st = Readahead.new from_list (7 ∷ 8 ∷ []) 1} start refl) refl)
        refl)
      refl refl

Reach-results_example :
    (some 7 ∷ [] ≡ results from_list 1 (7 ∷ 8 ∷ [])) × (length taken.channel ≤ 1)
Reach-results_example = Reach-results from_list reached

Reach-wait_example :
    (r : Option ℕ) × (st' : AsyncBatchIter from_list) × (wait from_list 3 taken ≡ some (r, st'))
    × (some 7 ∷ r ∷ [] ≡ results from_list 2 (7 ∷ 8 ∷ []))
Reach-wait_example = Reach-wait from_list taken reached refl
