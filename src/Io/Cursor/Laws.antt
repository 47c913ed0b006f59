-- ===== src/Io/Cursor/Laws.antt =====
-- backtester-core/src/io.rs: what reads in pieces give of the file, and where a seek goes.
use crypto_rs_backtester.Prelude.{
  ℕ, zero, suc, ◌+◌, ◌-◌, ◌++◌, ◌≤◌, ◌<◌, ◌≡◌, refl, List, [], ◌∷◌, arith, leb, length, drop,
  length-drop, length-append, zero, suc, Bool-cases, inl, inr, ap, sym, ◌∙◌,
}
use crypto_rs_backtester.Prelude.Int.{ℤ, pos, negsuc, ◌+ℤ◌, min_ℤ, max_ℤ, neg}
use crypto_rs_backtester.Prelude.I64.{InI64, wrap_i64, neg_i64, bits64}
use crypto_rs_backtester.Io.Cursor.{
  MmapCursor, SeekFrom, take, min, read, seek, offset, start, end_of, current,
}

-- The bytes that one read puts into the buffer.
abbrev pub bytes_read : List ℕ → MmapCursor → List ℕ
bytes_read buf c = let ((n, buf'), c') = read buf c in take n buf'

-- The bytes that reads into the buffers give, one after the other, and the cursor after them.
unfoldable pub read_all : List (List ℕ) → MmapCursor → List ℕ × MmapCursor
read_all [] c = ([], c)
read_all (buf ∷ bufs) c =
    let (bytes, c') = read_all bufs (read buf c).1 in (bytes_read buf c ++ bytes, c')

-- The room that the buffers have.
abbrev pub room : List (List ℕ) → ℕ
room [] = 0
room (buf ∷ bufs) = length buf + room bufs

-- The bytes from a position on, as many as are asked for.
abbrev pub slice : ℕ → ℕ → List ℕ → List ℕ
slice from n l = take n (drop from l)

take-append : (n : ℕ) (l r : List ℕ) → length l ≡ n → take n (l ++ r) ≡ l
take-append zero [] r h = refl
take-append (suc n) [] r h = absurd (omega arith)
take-append zero (x ∷ l) r h = absurd (omega arith)
take-append (suc n) (x ∷ l) r h = ap (λ t. x ∷ t) (take-append n l r (omega arith))

length-take : (n : ℕ) (l : List ℕ) → n ≤ length l → length (take n l) ≡ n
length-take zero l h = refl
length-take (suc n) [] h = absurd (omega arith)
length-take (suc n) (x ∷ l) h = omega (arith, length-take n l)

drop-drop : (n m k : ℕ) (l : List ℕ) → n + m ≡ k → drop m (drop n l) ≡ drop k l
drop-drop zero m k l h = let e : m ≡ k = omega (arith, h) in rw e
drop-drop (suc n) zero zero l h = absurd (omega arith)
drop-drop (suc n) (suc m) zero l h = absurd (omega arith)
drop-drop (suc n) zero (suc k) [] h = refl
drop-drop (suc n) (suc m) (suc k) [] h = refl
drop-drop (suc n) m (suc k) (x ∷ l) h = drop-drop n m k l (omega arith)

-- A piece and the piece after it are one piece.
take-take :
    (n m k : ℕ) (l : List ℕ)
    → n + m ≡ k
    → take n l ++ take m (drop (length (take n l)) l) ≡ take k l
take-take zero m k l h = let e : m ≡ k = omega (arith, h) in rw e
take-take (suc n) m zero l h = absurd (omega arith)
take-take (suc n) zero (suc k) [] h = refl
take-take (suc n) (suc m) (suc k) [] h = refl
take-take (suc n) m (suc k) (x ∷ l) h = ap (λ t. x ∷ t) (take-take n m k l (omega arith))

length-take-take :
    (n m k : ℕ) (l : List ℕ)
    → n + m ≡ k
    → length (take n l) + length (take m (drop (length (take n l)) l)) ≡ length (take k l)
length-take-take n m k l h = omega (
  arith,
  length-append (take n l) (take m (drop (length (take n l)) l)),
  ap length (take-take n m k l h),
)

take-long : (n : ℕ) (l : List ℕ) → length l ≤ n → take n l ≡ l
take-long zero [] h = refl
take-long (suc n) [] h = refl
take-long zero (x ∷ l) h = absurd (omega arith)
take-long (suc n) (x ∷ l) h = ap (λ t. x ∷ t) (take-long n l (omega arith))

drop-long : (n : ℕ) (l : List ℕ) → length l ≤ n → drop n l ≡ []
drop-long zero [] h = refl
drop-long (suc n) [] h = refl
drop-long zero (x ∷ l) h = absurd (omega arith)
drop-long (suc n) (x ∷ l) h = drop-long n l (omega arith)

take-zero : (l : List ℕ) → take 0 l ≡ []
take-zero l = refl

-- A count is cut at the length.
take-min : (n : ℕ) (l : List ℕ) → take (min (length l) n) l ≡ take n l
take-min n l = ground (arith, take-long n l, take-long (length l) l)

-- The first bytes of a buffer into which as many bytes as fit were written.
take-written :
    (l buf : List ℕ)
    → take
        (min (length l) (length buf))
        (take (min (length l) (length buf)) l ++ drop (min (length l) (length buf)) buf)
      ≡ take (length buf) l
take-written l buf =
    take-append (min (length l) (length buf)) (take (min (length l) (length buf)) l)
      (drop (min (length l) (length buf)) buf)
      (length-take (min (length l) (length buf)) l (ground arith))
    ∙ take-min (length buf) l

length-written : (l buf : List ℕ) → length (take (length buf) l) ≡ min (length l) (length buf)
length-written l buf =
    ap length (sym (take-min (length buf) l))
    ∙ length-take (min (length l) (length buf)) l (ground arith)

-- A read gives the next bytes, as many as fit the buffer, and moves past them.
pub read_lem :
    (buf : List ℕ) (c : MmapCursor)
    → (bytes_read buf c ≡ slice c.position (length buf) c.inner)
      × ((read buf c).1
          ≡ record c { position = c.position + length (slice c.position (length buf) c.inner) })
unfolding read
read_lem buf c = elim (Bool-cases (leb (length c.inner) c.position)) [
  | inl past ↦
      let none_left : drop c.position c.inner ≡ [] = drop-long c.position c.inner (ground arith) in
      rw (past, none_left) (ground (arith, take-long (length buf) []))
  | inr more ↦
      let rest = drop c.position c.inner in
      let l : length c.inner - c.position ≡ length rest = sym (length-drop c.position c.inner) in
      rw (more, l)
        (
          take-written rest buf,
          ap (λ n. record c { position = c.position + n }) (sym (length-written rest buf)),
        )
]

-- Reads into buffers of any sizes give the bytes of the file from the position on, none twice and
-- none left out, up to the room that the buffers have or the end of the file; the position moves on
-- by as many bytes.
pub read_all-slice :
    (bufs : List (List ℕ)) (c : MmapCursor)
    → read_all bufs c ≡ (
      slice c.position (room bufs) c.inner,
      record c { position = c.position + length (slice c.position (room bufs) c.inner) },
    )
unfolding read_all
read_all-slice [] c = ground arith
read_all-slice (buf ∷ bufs) c =
    let rest = drop c.position c.inner in
    let first = take (length buf) rest in
    let n = room bufs in
    let past : drop (c.position + length first) c.inner ≡ drop (length first) rest =
      sym (drop-drop c.position (length first) (c.position + length first) c.inner refl) in
    let joined = take-take (length buf) n (length buf + n) rest refl in
    let sizes = length-take-take (length buf) n (length buf + n) rest refl in
    let later = read_all-slice bufs (record c { position = c.position + length first }) in
    ground (arith, read_lem buf c, later, past, joined, sizes)

-- Where a seek is to go, as an integer.
abbrev pub target : SeekFrom → MmapCursor → ℤ
target (start p) c = pos p
target (end_of delta) c = pos (length c.inner) +ℤ delta
target (current delta) c = pos c.position +ℤ delta

-- The argument of a seek is a word of its type.
abbrev pub IsWord : SeekFrom → Type 0
IsWord (start p) = p < 18446744073709551616
IsWord (end_of delta) = InI64 delta
IsWord (current delta) = InI64 delta

-- The word of `-delta`, for the least i64 too.
neg-word : (n : ℕ) → n ≤ 9223372036854775807 → bits64 (neg_i64 (negsuc n)) ≡ suc n
unfolding wrap_i64 neg
neg-word n h = ground arith

offset-clamp :
    (base : ℕ) (delta : ℤ)
    → base < 18446744073709551616
    → InI64 delta
    → pos (offset base delta) ≡ min_ℤ (max_ℤ (pos base +ℤ delta) (pos 0)) (pos 18446744073709551615)
unfolding offset ◌+ℤ◌
offset-clamp base (pos n) h k = ground arith
offset-clamp base (negsuc n) h k = ground (arith, neg-word n)

-- Where the size of the file, the position and the argument are words, a seek moves to its target,
-- held between 0 and the greatest u64, and returns the position; it does not clamp to the file's size,
-- and the file stays as it is.
pub seek-target :
    (from : SeekFrom) (c : MmapCursor)
    → length c.inner < 18446744073709551616
    → c.position < 18446744073709551616
    → IsWord from
    → (pos (seek from c).0 ≡ min_ℤ (max_ℤ (target from c) (pos 0)) (pos 18446744073709551615))
      × ((seek from c).1 ≡ record c { position = (seek from c).0 })
unfolding seek
seek-target (start p) c l h w = ground arith
seek-target (end_of delta) c l h w = (offset-clamp (length c.inner) delta l w, refl)
seek-target (current delta) c l h w = (offset-clamp c.position delta h w, refl)
