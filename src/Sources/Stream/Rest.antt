-- ===== src/Sources/Stream/Rest.antt =====
-- backtester-core/src/tick_source.rs and l3_source.rs: what a source has yet to give.
use crypto_rs_backtester.Prelude.{
  ℕ, zero, suc, ◌+◌, ◌-◌, ◌<◌, ◌≡◌, refl, sym, ap, ◌∙◌, subst, inl, inr, ltb, Option, none, some,
  List, [], ◌∷◌, ◌++◌, Result, ok, err, Result-cases, Bool-cases, Option-cases, arith,
}
use crypto_rs_backtester.Sources.Stream.{Rows, Stream, load_row, load_batch, advance}

-- Rows up to the first failure, and the failure.
abbrev pub Got : Type 0 → Type 0 → Type 0
Got T X = List T × Option X

-- An element before the others, and elements before the others, unless there was a failure.
abbrev pub cons : {T X : Type 0} → T → Got T X → Got T X
cons t (ts, failure) = (t ∷ ts, failure)

abbrev pub append : {T X : Type 0} → Got T X → Got T X → Got T X
append (ts, none) (us, failure) = (ts ++ us, failure)
append (ts, some x) r = (ts, some x)

append-cons : {T X : Type 0} (t : T) (r q : Got T X) → append (cons t r) q ≡ cons t (append r q)
append-cons t (ts, none) (us, failure) = refl
append-cons t (ts, some x) q = refl

append-nil_l : {T X : Type 0} (q : Got T X) → append ([], none) q ≡ q
append-nil_l (us, failure) = refl

-- What follows a success; a failure is the first.
abbrev on_success : {A T X : Type 0} → Result A X → (A → Got T X) → Got T X
on_success (ok a) f = f a
on_success (err x) f = ([], some x)

abbrev pub pending_of : {T X : Type 0} → Got T X → Option T → Got T X
pending_of later none = ([], none)
pending_of later (some t) = cons t later

abbrev pub asks_of : {T : Type 0} → ℕ → Option T → ℕ
asks_of later none = 0
asks_of later (some t) = suc later

module _ {B C T R X : Type 0} (rows : Rows B C T R X) where
  -- All rows of a batch from one on, read at once, up to the first failure.
  abbrev pub read_range : ℕ → C → ℕ → ℕ → Got T X
  read_range symbol_id batch k zero = ([], none)
  read_range symbol_id batch k (suc n) =
      on_success (rows.read_at symbol_id batch k)
        (λ t. cons t (read_range symbol_id batch (suc k) n))

  -- All rows of all batches, up to the first failure.
  abbrev pub read_all : ℕ → List (Result B R) → Got T X
  read_all symbol_id [] = ([], none)
  read_all symbol_id (err r ∷ items) = ([], some (rows.reader_error r))
  read_all symbol_id (ok b ∷ items) = on_success (rows.cache b) (λ batch.
      append (read_range symbol_id batch 0 (rows.num_rows batch)) (read_all symbol_id items))

  abbrev pub rows_in : List (Result B R) → ℕ
  rows_in [] = 0
  rows_in (err r ∷ items) = 0
  rows_in (ok b ∷ items) = elim (rows.cache b) [
    | err x ↦ 0
    | ok batch ↦ rows.num_rows batch + rows_in items
  ]

  abbrev pub rest_of : ℕ → Option C → ℕ → List (Result B R) → Got T X
  rest_of symbol_id none idx items = read_all symbol_id items
  rest_of symbol_id (some batch) idx items =
      append (read_range symbol_id batch idx (rows.num_rows batch - idx)) (read_all symbol_id items)

  abbrev pub left_of : Option C → ℕ → List (Result B R) → ℕ
  left_of none idx items = rows_in items
  left_of (some batch) idx items = rows.num_rows batch - idx + rows_in items

  -- What the source has yet to give after its next element, and a bound on its length.
  abbrev pub rest : Stream B C T R → Got T X
  rest s = rest_of s.symbol_id s.current_batch s.batch_idx s.reader

  abbrev pub left : Stream B C T R → ℕ
  left s = left_of s.current_batch s.batch_idx s.reader

  abbrev pub GivesNext : Got T X → ℕ → Stream B C T R → Option T → Type 0
  GivesNext all n s none = all ≡ ([], none)
  GivesNext all n s (some t) = (all ≡ cons t (rest s)) × (n ≡ suc (left s))

  -- A move of the source gives the first of what is left.
  abbrev pub Gives : Got T X → ℕ → Result (Unit {0}) X × Stream B C T R → Type 0
  Gives all n (err x, s) = all ≡ ([], some x)
  Gives all n (ok done, s) = GivesNext all n s s.next_element

  load_row-Gives :
      (symbol_id : ℕ) (items : List (Result B R)) (batch : C) (idx : ℕ) (element : Option T)
      → idx < rows.num_rows batch
      → Gives (rest_of symbol_id (some batch) idx items) (left_of (some batch) idx items) (
          load_row rows batch (record {
            symbol_id = symbol_id;
            reader = items;
            current_batch = some batch;
            batch_idx = idx;
            next_element = element;
          }))
  unfolding load_row
  load_row-Gives symbol_id items batch idx element below =
      let size : rows.num_rows batch - idx ≡ suc (rows.num_rows batch - suc idx) = omega arith in
      elim (Result-cases (rows.read_at symbol_id batch idx)) [
        | inr (x, n) ↦ rw (size, n, load_row) refl
        | inl (t, n) ↦ rw (size, n, load_row) (append-cons t _ _, omega arith)
      ]

  Gives-eq :
      (all all' : Got T X) (n n' : ℕ) (r : Result (Unit {0}) X × Stream B C T R)
      → all ≡ all'
      → n ≡ n'
      → Gives all' n' r
      → Gives all n r
  Gives-eq all all' n n' r p q g =
      subst (λ a. Gives a n r) (sym p) (subst (λ k. Gives all' k r) (sym q) g)

  load_batch-Gives :
      (items : List (Result B R)) (s : Stream B C T R)
      → Gives (read_all s.symbol_id items) (rows_in items) (load_batch rows items s)
  unfolding load_batch
  load_batch-Gives [] s = refl
  load_batch-Gives (err r ∷ items) s = refl
  load_batch-Gives (ok b ∷ items) s = elim (Result-cases (rows.cache b)) [
    | inr (x, n) ↦ rw (n, load_batch) refl
    | inl (batch, n) ↦
        let loaded = record s { reader = items; current_batch = some batch; batch_idx = 0 } in
        let all =
          λ (k : ℕ). append (read_range s.symbol_id batch 0 k) (read_all s.symbol_id items) in
        let counted : rows_in (ok b ∷ items) ≡ rows.num_rows batch + rows_in items =
          rw (n, rows_in) refl in
        elim (Bool-cases (ltb 0 (rows.num_rows batch))) [
          | inl has ↦
              rw (n, has, load_batch)
                (Gives-eq _ _ _ _ (load_row rows batch loaded) (ap all (omega arith))
                  (omega (arith, counted))
                  (load_row-Gives s.symbol_id items batch 0 s.next_element (ground (arith, has))))
          | inr empty ↦
              let no_rows : rows.num_rows batch ≡ 0 = ground (arith, empty) in
              rw (n, empty, load_batch)
                (Gives-eq _ _ _ _ (load_batch rows items loaded)
                  (ap all no_rows ∙ append-nil_l (read_all s.symbol_id items))
                  (omega (arith, counted, no_rows)) (load_batch-Gives items loaded))
        ]
  ]

  pub advance-Gives :
      (symbol_id : ℕ) (items : List (Result B R)) (batch : Option C) (idx : ℕ) (element : Option T)
      → Gives (rest_of symbol_id batch idx items) (left_of batch idx items) (
          advance rows (record {
            symbol_id = symbol_id;
            reader = items;
            current_batch = batch;
            batch_idx = idx;
            next_element = element;
          }))
  unfolding advance
  advance-Gives symbol_id items none idx element = load_batch-Gives items _
  advance-Gives symbol_id items (some batch) idx element =
      let s : Stream B C T R = record {
        symbol_id = symbol_id;
        reader = items;
        current_batch = some batch;
        batch_idx = idx;
        next_element = element;
      } in
      elim (Bool-cases (ltb idx (rows.num_rows batch))) [
        | inl has ↦
            rw (has, advance)
              (load_row-Gives symbol_id items batch idx element (ground (arith, has)))
        | inr done ↦
            let no_rows : rows.num_rows batch - idx ≡ 0 = ground (arith, done) in
            rw (done, advance)
              (Gives-eq _ _ _ _ (load_batch rows items s)
                (ap (λ k. append (read_range symbol_id batch idx k) (read_all symbol_id items))
                    no_rows
                  ∙ append-nil_l (read_all symbol_id items))
                (omega (arith, no_rows)) (load_batch-Gives items s))
      ]

  -- What a source gives from now on, and how often it must be asked.
  abbrev pub pending : Stream B C T R → Got T X
  pending s = pending_of (rest s) s.next_element

  abbrev pub asks : Stream B C T R → ℕ
  asks s = asks_of (left s) s.next_element

  -- What a move has left is pending after it.
  pub moved-pending :
      (all : Got T X) (k n : ℕ) (s : Stream B C T R)
      → k < n
      → GivesNext all k s s.next_element
      → (asks s < n) × (pending s ≡ all)
  moved-pending all k n s below g = elim (Option-cases s.next_element) [
    | inl e ↦
        let nothing : all ≡ ([], none) = subst (GivesNext all k s) e g in
        (omega (arith, ap (asks_of (left s)) e, below), ap (pending_of (rest s)) e ∙ sym nothing)
    | inr (u, e) ↦
        let found : (all ≡ cons u (rest s)) × (k ≡ suc (left s)) = subst (GivesNext all k s) e g in
        (
          omega (arith, ap (asks_of (left s)) e, below, found.1),
          ap (pending_of (rest s)) e ∙ sym found.0,
        )
  ]
