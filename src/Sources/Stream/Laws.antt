-- ===== src/Sources/Stream/Laws.antt =====
-- backtester-core/src/tick_source.rs and l3_source.rs: the rows of its batches that a source gives.
use crypto_rs_backtester.Prelude.{
  ℕ, zero, suc, ◌<◌, ◌≡◌, refl, sym, ap, ◌∙◌, subst, ◌⊎◌, inl, inr, Option, none, some, List, [],
  ◌∷◌, Result, ok, err, Option-cases, arith,
}
use crypto_rs_backtester.Sources.Stream.{Rows, Stream, advance, try_new, next}
use mathlib.Core.Option
use crypto_rs_backtester.Sources.Stream.Rest.{
  Got, cons, read_all, rows_in, rest, rest_of, left_of, Gives, GivesNext, advance-Gives, pending,
  asks, moved-pending,
}

-- All but the last.
abbrev pub drop_last : {T : Type 0} → List T → List T
drop_last [] = []
drop_last (t ∷ []) = []
drop_last (t ∷ u ∷ ts) = t ∷ drop_last (u ∷ ts)

-- What reaches a client of the rows up to the first failure: all of them if there is none.
abbrev pub delivered : {T X : Type 0} → Got T X → Got T X
delivered (ts, none) = (ts, none)
delivered (ts, some x) = (drop_last ts, some x)

delivered-cons :
    {T X : Type 0} (t u : T) (r : Got T X)
    → delivered (cons t (cons u r)) ≡ cons t (delivered (cons u r))
delivered-cons t u (ts, none) = refl
delivered-cons t u (ts, some x) = refl

-- What a client has after an answer, with what it gets later.
abbrev answer : {T X : Type 0} → Result (Option T) X → Option (Got T X) → Option (Got T X)
answer (err x) others = some ([], some x)
answer (ok none) others = some ([], none)
answer (ok (some t)) others = Option.map (cons t) others

module _ {B C T R X : Type 0} (rows : Rows B C T R X) where
  -- A client that calls `next` until there is nothing more.
  abbrev pub drain : ℕ → Stream B C T R → Option (Got T X)
  drain zero s = none
  drain (suc n) s = let r = next rows s in let others = drain n r.1 in answer r.0 others

  -- The result of a move, before the others.
  abbrev after : T → ℕ → Result (Unit {0}) X × Stream B C T R → Option (Got T X)
  after t n (err x, s) = some ([], some x)
  after t n (ok done, s) = Option.map (cons t) (drain n s)

  -- Nothing of what precedes an element that there is gets lost.
  delivered-later :
      (t : T) (all : Got T X) (k : ℕ) (s : Stream B C T R)
      → (s.next_element ≡ none) ⊎ ((u : T) × (s.next_element ≡ some u))
      → GivesNext rows all k s s.next_element
      → delivered (cons t all) ≡ cons t (delivered all)
  delivered-later t all k s (inl e) g =
      subst (λ a. delivered (cons t a) ≡ cons t (delivered a))
        (sym (subst (GivesNext rows all k s) e g)) refl
  delivered-later t all k s (inr (u, e)) g =
      subst (λ a. delivered (cons t a) ≡ cons t (delivered a))
        (sym (subst (GivesNext rows all k s) e g).0) (delivered-cons t u (rest rows s))

  after-pending :
      (t : T) (all : Got T X) (n k : ℕ) (r : Result (Unit {0}) X × Stream B C T R)
      → k < n
      → Gives rows all k r
      → ((s : Stream B C T R) → asks rows s < n → drain n s ≡ some (delivered (pending rows s)))
      → after t n r ≡ some (delivered (cons t all))
  after-pending t all n k (err x, s) below g ih = ap (λ a. some (delivered (cons t a))) (sym g)
  after-pending t all n k (ok done, s) below g ih =
      let m = moved-pending rows all k n s below g in
      ap (Option.map (cons t)) (ih s m.0 ∙ ap (λ a. some (delivered a)) m.1)
      ∙ ap some (sym (delivered-later t all k s (Option-cases s.next_element) g))

  moved :
      (t : T) (n : ℕ) (r : Result (Unit {0}) X × Stream B C T R)
      → let answered : Result (Option T) X × Stream B C T R = elim r.0 [
        | err x ↦ (err x, r.1)
        | ok done ↦ (ok (some t), r.1)
      ] in
        answer answered.0 (drain n answered.1) ≡ after t n r
  moved t n (ok done, s) = refl
  moved t n (err x, s) = refl

  drain-pending :
      (n symbol_id : ℕ) (items : List (Result B R)) (batch : Option C) (idx : ℕ)
      (element : Option T)
      → let s : Stream B C T R = record {
        symbol_id = symbol_id;
        reader = items;
        current_batch = batch;
        batch_idx = idx;
        next_element = element;
      } in
        asks rows s < n → drain n s ≡ some (delivered (pending rows s))
  unfolding next
  drain-pending zero symbol_id items batch idx element below = absurd (omega arith)
  drain-pending (suc n) symbol_id items batch idx none below = refl
  drain-pending (suc n) symbol_id items batch idx (some t) below =
      let r = advance rows (record {
        symbol_id = symbol_id;
        reader = items;
        current_batch = batch;
        batch_idx = idx;
        next_element = none;
      }) in
      let g = advance-Gives rows symbol_id items batch idx none in
      let ih = λ (s : Stream B C T R) (below : asks rows s < n).
        drain-pending n s.symbol_id s.reader s.current_batch s.batch_idx s.next_element below in
      moved t n r
      ∙ after-pending t (rest_of rows symbol_id batch idx items) n (left_of rows batch idx items) r
          (omega (arith, below)) g ih

  drain-all :
      (n : ℕ) (s : Stream B C T R) → asks rows s < n → drain n s ≡ some (delivered (pending rows s))
  drain-all n s below =
      drain-pending n s.symbol_id s.reader s.current_batch s.batch_idx s.next_element below

  -- A client that makes a source and drains it.
  abbrev pub drain_new : ℕ → ℕ → List (Result B R) → Option (Got T X)
  drain_new n symbol_id items = elim (try_new rows symbol_id items) [
    | err x ↦ some ([], some x)
    | ok s ↦ drain n s
  ]

  made :
      (all : Got T X) (n k : ℕ) (r : Result (Unit {0}) X × Stream B C T R)
      → k < n
      → Gives rows all k r
      → let source : Result (Stream B C T R) X = elim r.0 [ err x ↦ err x | ok done ↦ ok r.1 ] in
        elim source as (λ x. Option (Got T X)) [ err x ↦ some ([], some x) | ok s ↦ drain n s ]
        ≡ some (delivered all)
  made all n k (err x, s) below g = ap (λ a. some (delivered a)) (sym g)
  made all n k (ok done, s) below g =
      let m = moved-pending rows all k n s below g in
      drain-all n s m.0 ∙ ap (λ a. some (delivered a)) m.1

  -- A source that is made and then asked until it has nothing more, or fails, gives the rows of all
  -- batches of its reader in order: all of them if none fails; up to the first failure, which it
  -- reports, if there is one, except for the last row before it, which is lost. To ask once more than
  -- there are rows is enough.
  pub drain_new-read_all :
      (symbol_id n : ℕ) (items : List (Result B R))
      → rows_in rows items < n
      → drain_new n symbol_id items ≡ some (delivered (read_all rows symbol_id items))
  unfolding try_new
  drain_new-read_all symbol_id n items below =
      made (read_all rows symbol_id items) n (rows_in rows items) _ below
        (advance-Gives rows symbol_id items none 0 none)
