-- ===== src/Io/Cursor.antt =====
-- backtester-core/src/io.rs: `MmapCursor`. The mapped file is the list of its bytes, fewer than 2 ^ 64.
pub mod Laws
use crypto_rs_backtester.Prelude.{
  ℕ, zero, suc, ◌+◌, ◌-◌, ◌%◌, ◌++◌, List, [], ◌∷◌, if◌then◌else◌, ltb, leb, length, drop,
}
use crypto_rs_backtester.Prelude.Int.{ℤ, pos, leb_ℤ}
use crypto_rs_backtester.Prelude.I64.{neg_i64, bits64}

pub record MmapCursor : Type 0 where
  pub inner : List ℕ
  pub position : ℕ

pub data SeekFrom : Type 0 where
  start : ℕ → SeekFrom
  end_of current : ℤ → SeekFrom

-- `saturating_add` and `saturating_sub` on u64.
abbrev pub saturating_add_u64 : ℕ → ℕ → ℕ
saturating_add_u64 a b = if ltb (a + b) 18446744073709551616 then a + b else 18446744073709551615

abbrev pub saturating_sub_u64 : ℕ → ℕ → ℕ
saturating_sub_u64 a b = a - b

-- `l[..n]`
abbrev pub take : ℕ → List ℕ → List ℕ
take (suc n) (x ∷ xs) = x ∷ take n xs
take _ _ = []

abbrev pub min : ℕ → ℕ → ℕ
min a b = if leb a b then a else b

unfoldable pub new : List ℕ → MmapCursor
new mmap = record { inner = mmap; position = 0 }

-- The number of bytes read, the buffer, whose first bytes are overwritten, and the cursor.
unfoldable pub read : List ℕ → MmapCursor → (ℕ × List ℕ) × MmapCursor
read buf c =
    let len = length c.inner in
    if leb len c.position
    then ((0, buf), c)
    else let to_read = min (len - c.position) (length buf) in
      (
        (to_read, take to_read (drop c.position c.inner) ++ drop to_read buf),
        record c { position = c.position + to_read },
      )

-- An offset in bytes from `base`; `wrapping_neg` keeps the least i64, whose word is 2 ^ 63.
unfoldable pub offset : ℕ → ℤ → ℕ
offset base delta =
    if leb_ℤ (pos 0) delta
    then saturating_add_u64 base (bits64 delta)
    else saturating_sub_u64 base (bits64 (neg_i64 delta))

-- The position may lie past the end; a read there gives nothing.
unfoldable pub seek : SeekFrom → MmapCursor → ℕ × MmapCursor
unfolding offset
seek (start p) c = (p, record c { position = p })
seek (end_of delta) c =
    let new_pos = offset (length c.inner) delta in (new_pos, record c { position = new_pos })
seek (current delta) c =
    let new_pos = offset c.position delta in (new_pos, record c { position = new_pos })
