-- ===== src/Sources/Finite.antt =====
-- backtester-core/src/tick_source.rs, l3_source.rs and engine.rs: sources that come to an end.
use crypto_rs_backtester.Prelude.{
  ℕ, zero, suc, ◌+◌, ◌≤◌, ◌<◌, ◌≡◌, refl, sym, ap, ◌∙◌, inl, inr, Option, none, some, List, [], ◌∷◌,
  Result, ok, Option-cases, Bool-cases, Result-cases, arith,
}
use crypto_rs_backtester.Prelude.Int.{ℤ}
use crypto_rs_backtester.Sources.{
  Source, Sources, PeekedEvent, get_at, set_at, peek_all, push_head, initialize, pop_heap, next_at,
  refill,
}

-- The elements that a source has left: an element that is taken is one of them, and a peek adds none.
pub record Finite {A X : Type 0} (S : Source A X) : Type 0 where
  pub remaining : S.State → ℕ
  pub peek_adds_none : (s : S.State) → remaining (S.peek s).1 ≤ remaining s
  pub next_takes :
      (s : S.State) (a : A) → (S.next s).0 ≡ ok (some a) → remaining (S.next s).1 < remaining s

module _ {A X : Type 0} {S : Source A X} (L : Finite S) where
  abbrev pub total : List S.State → ℕ
  total [] = 0
  total (s ∷ ss) = L.remaining s + total ss

  abbrev pub elements : Sources S → ℕ
  elements m = total m.sources

  total-set_at :
      (idx : ℕ) (s s' : S.State) (l : List S.State)
      → get_at idx l ≡ some s
      → total (set_at idx s' l) + L.remaining s ≡ total l + L.remaining s'
  unfolding get_at set_at
  total-set_at idx s s' [] h = absurd (ground (arith, h))
  total-set_at zero s s' (t ∷ l) h =
      let same : L.remaining t ≡ L.remaining s =
        ap (λ o. elim o [ none ↦ L.remaining t | some u ↦ L.remaining u ]) h in
      omega (arith, same)
  total-set_at (suc idx) s s' (t ∷ l) h = omega (arith, total-set_at idx s s' l h)

  peek_all-total :
      (key : A → ℤ × ℕ) (idx : ℕ) (l : List S.State) (heap : List PeekedEvent)
      → total (peek_all S key idx l heap).1.0 ≤ total l
  unfolding peek_all
  peek_all-total key idx [] heap = omega arith
  peek_all-total key idx (s ∷ ss) heap =
      let one = L.peek_adds_none s in
      elim (Result-cases (S.peek s).0) [
        | inr (x, n) ↦ rw (n, peek_all) (omega (arith, one))
        | inl (head, n) ↦
            rw (n, peek_all)
              (omega (arith, one, peek_all-total key (suc idx) ss (push_head key idx head heap)))
      ]

  pub initialize-elements :
      (key : A → ℤ × ℕ) (m : Sources S) → elements (initialize key m).1 ≤ elements m
  unfolding initialize
  initialize-elements key m =
      let peeked = peek_all S key 0 m.sources [] in
      let bound = peek_all-total key 0 m.sources [] in
      elim (Bool-cases m.is_source_heap_initialized) [
        | inl e ↦ rw (e, initialize) (omega arith)
        | inr e ↦ elim (Result-cases peeked.0) [
          | inl (u, n) ↦ rw (e, n, initialize) bound
          | inr (x, n) ↦ rw (e, n, initialize) bound
        ]
      ]

  pub pop_heap-elements : (m : Sources S) → elements (pop_heap m) ≡ elements m
  unfolding pop_heap
  pop_heap-elements m = ground arith

  pub refill-elements :
      (key : A → ℤ × ℕ) (idx : ℕ) (m : Sources S) → elements (refill key idx m).1 ≤ elements m
  unfolding refill
  refill-elements key idx m = elim (Option-cases (get_at idx m.sources)) [
    | inl n ↦ rw (n, refill) (omega arith)
    | inr (s, n) ↦
        let moved = total-set_at idx s (S.peek s).1 m.sources n in
        let bound : total (set_at idx (S.peek s).1 m.sources) ≤ total m.sources =
          omega (arith, moved, L.peek_adds_none s) in
        elim (Result-cases (S.peek s).0) [
          | inl (head, e) ↦ rw (n, e, refill) bound
          | inr (x, e) ↦ rw (n, e, refill) bound
        ]
  ]

  -- An element that is taken from a source is taken from the sources.
  pub next_at-elements :
      (idx : ℕ) (m m' : Sources S) (a : A)
      → next_at idx m ≡ some (ok (some a), m')
      → elements m' < elements m
  unfolding next_at
  next_at-elements idx m m' a h = elim (Option-cases (get_at idx m.sources)) [
    | inl n ↦ absurd (ground (arith, n, h))
    | inr (s, n) ↦
        let taken : Sources S = record m { sources = set_at idx (S.next s).1 m.sources } in
        let found : next_at idx m ≡ some ((S.next s).0, taken) = rw (n, next_at) refl in
        let same : some ((S.next s).0, taken) ≡ some (ok (some a), m') = sym found ∙ h in
        let result_of : Option (Result (Option A) X × Sources S) → Result (Option A) X =
          λ o. elim o [ none ↦ ok none | some p ↦ p.0 ] in
        let elements_of : Option (Result (Option A) X × Sources S) → ℕ =
          λ o. elim o [ none ↦ 0 | some p ↦ elements p.1 ] in
        let given : (S.next s).0 ≡ ok (some a) = ap result_of same in
        let left : elements taken ≡ elements m' = ap elements_of same in
        omega (arith, left, total-set_at idx s (S.next s).1 m.sources n, L.next_takes s a given)
  ]
