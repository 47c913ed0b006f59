-- ===== src/Io/Readahead/Laws.antt =====
-- backtester-core/src/io.rs: what the consumer of an `AsyncBatchIter` gets under any interleaving.
use mathlib.Core.Path.{◌≡⟨◌⟩◌, ◌∎}
use mathlib.Core.List.{append_assoc}
use native.Mathlib.Nat.{zero-add}
use crypto_rs_backtester.Prelude.{
  ℕ, zero, suc, ◌+◌, ◌≤◌, ◌≡◌, refl, true, Option, none, some, List, [], ◌∷◌, ◌++◌, length,
  length-append, replicate, arith, ap, Option-cases, inl, inr, ◌⊎◌, ◌∙◌, sym,
}
use crypto_rs_backtester.Io.Readahead.{
  Iter, Producer, pulling, sending, ending, stopped, AsyncBatchIter, new, produce, recv, next,
  Reach, start, produced, consumed, hung_up,
}

module _ {A : Type 0} (inner : Iter A) where
  -- The results of calls of the inner iterator itself, which gives nothing once it has ended.
  unfoldable pub results : ℕ → inner.State → List (Option A)
  results zero s = []
  results (suc n) s =
      let (pulled, s') = inner.next s in
      elim pulled [ some item ↦ some item ∷ results n s' | none ↦ replicate (suc n) none ]

  -- The results of the calls of `next` that are to come.
  unfoldable future : ℕ → List (Option A) → Producer A inner.State → List (Option A)
  unfolding results
  future zero channel p = []
  future (suc n) (m ∷ channel) p = m ∷ future n channel p
  future (suc n) [] (pulling s) = results (suc n) s
  future (suc n) [] (sending item s) = some item ∷ results n s
  future (suc n) [] ending = replicate (suc n) none
  future (suc n) [] stopped = replicate (suc n) none

  future-stopped : (n : ℕ) → future n [] stopped ≡ replicate n none
  unfolding future
  future-stopped zero = refl
  future-stopped (suc n) = refl

  future-pulling : (n : ℕ) (s : inner.State) → future n [] (pulling s) ≡ results n s
  unfolding future
  future-pulling zero s = refl
  future-pulling (suc n) s = refl

  future-sent :
      (n : ℕ) (channel : List (Option A)) (item : A) (s : inner.State)
      → future n (channel ++ some item ∷ []) (pulling s) ≡ future n channel (sending item s)
  unfolding future
  future-sent zero channel item s = refl
  future-sent (suc n) [] item s = ap (λ l. some item ∷ l) (future-pulling n s)
  future-sent (suc n) (m ∷ channel) item s = ap (λ l. m ∷ l) (future-sent n channel item s)

  future-ended :
      (n : ℕ) (channel : List (Option A))
      → future n (channel ++ none ∷ []) stopped ≡ future n channel ending
  unfolding future
  future-ended zero channel = refl
  future-ended (suc n) [] = ap (λ l. none ∷ l) (future-stopped n)
  future-ended (suc n) (m ∷ channel) = ap (λ l. m ∷ l) (future-ended n channel)

  future-pulled :
      (n : ℕ) (channel : List (Option A)) (item : A) (s : inner.State)
      → (inner.next s).0 ≡ some item
      → future n channel (sending item (inner.next s).1) ≡ future n channel (pulling s)
  unfolding future results
  future-pulled zero channel item s h = refl
  future-pulled (suc n) [] item s h = ground arith
  future-pulled (suc n) (m ∷ channel) item s h = ap (λ l. m ∷ l) (future-pulled n channel item s h)

  future-no_more :
      (n : ℕ) (channel : List (Option A)) (s : inner.State)
      → (inner.next s).0 ≡ none
      → future n channel ending ≡ future n channel (pulling s)
  unfolding future results
  future-no_more zero channel s h = refl
  future-no_more (suc n) [] s h = ground arith
  future-no_more (suc n) (m ∷ channel) s h = ap (λ l. m ∷ l) (future-no_more n channel s h)

  pub Producer-cases :
      (p : Producer A inner.State)
      → ((s : inner.State) × (p ≡ pulling s))
        ⊎ ((item : A) × (s : inner.State) × (p ≡ sending item s))
        ⊎ (p ≡ ending)
        ⊎ (p ≡ stopped)
  Producer-cases (pulling s) = inl (s, refl)
  Producer-cases (sending item s) = inr (inl (item, s, refl))
  Producer-cases ending = inr (inr (inl refl))
  Producer-cases stopped = inr (inr (inr refl))

  -- An action of the thread leaves the results that are to come as they are.
  produce-future :
      (n : ℕ) (st st' : AsyncBatchIter inner)
      → produce inner st ≡ some st'
      → st.has_receiver ≡ true
      → future n st'.channel st'.producer ≡ future n st.channel st.producer
  unfolding produce
  produce-future n st st' h live = elim (Producer-cases st.producer) [
    | inl (s, p) ↦ elim (Option-cases (inner.next s).0) [
      | inl e ↦ ground (arith, future-no_more n st.channel s)
      | inr (item, e) ↦ ground (arith, future-pulled n st.channel item s)
    ]
    | inr (inl (item, s, p)) ↦ ground (arith, future-sent n st.channel item s)
    | inr (inr (inl p)) ↦ ground (arith, future-ended n st.channel)
    | inr (inr (inr p)) ↦ ground arith
  ]

  produce-bounds :
      (st st' : AsyncBatchIter inner)
      → produce inner st ≡ some st'
      → length st.channel ≤ st.readahead
      → (length st'.channel ≤ st'.readahead)
        × (st'.readahead ≡ st.readahead)
        × (st'.has_receiver ≡ st.has_receiver)
  unfolding produce
  produce-bounds st st' h b = elim (Producer-cases st.producer) [
    | inl (s, p) ↦ ground arith
    | inr (inl (item, s, p)) ↦ ground (arith, length-append st.channel (some item ∷ []))
    | inr (inr (inl p)) ↦ ground (arith, length-append st.channel (none ∷ []))
    | inr (inr (inr p)) ↦ ground arith
  ]

  next-future :
      (n : ℕ) (st st' : AsyncBatchIter inner) (r : Option A)
      → next inner st ≡ some (r, st')
      → future (suc n) st.channel st.producer ≡ r ∷ future n st'.channel st'.producer
  unfolding next recv future
  next-future n st st' r h = elim (Producer-cases st.producer) [
    | inl (s, p) ↦ ground arith
    | inr (inl (item, s, p)) ↦ ground (arith, future-pulling n s)
    | inr (inr (inl p)) ↦ ground (arith, future-stopped n)
    | inr (inr (inr p)) ↦ ground (arith, future-stopped n)
  ]

  pub next-bounds :
      (st st' : AsyncBatchIter inner) (r : Option A)
      → next inner st ≡ some (r, st')
      → length st.channel ≤ st.readahead
      → (length st'.channel ≤ st'.readahead)
        × (st'.readahead ≡ st.readahead)
        × (st'.has_receiver ≡ st.has_receiver)
  unfolding next recv
  next-bounds st st' r h b = elim (Producer-cases st.producer) [
    | inl (s, p) ↦ ground arith
    | inr (inl (item, s, p)) ↦ ground arith
    | inr (inr (inl p)) ↦ ground arith
    | inr (inr (inr p)) ↦ ground arith
  ]

  Reach-bounds :
      {s : inner.State} {k : ℕ} {outs : List (Option A)} {st : AsyncBatchIter inner}
      → Reach inner s k outs st
      → (st.readahead ≡ k) × (length st.channel ≤ k)
  unfolding new
  Reach-bounds start = (refl, omega arith)
  Reach-bounds (produced {st} {st'} r h) = ground (arith, Reach-bounds r, produce-bounds st st' h)
  Reach-bounds (consumed {r = x} {st} {st'} r live h) =
      ground (arith, Reach-bounds r, next-bounds st st' x h)
  Reach-bounds (hung_up r) = Reach-bounds r

  -- Under any interleaving the results so far and those to come are the results of the inner
  -- iterator.
  Reach-future :
      {s : inner.State} {k : ℕ} {outs : List (Option A)} {st : AsyncBatchIter inner}
      → Reach inner s k outs st
      → st.has_receiver ≡ true
      → (n : ℕ) → results (length outs + n) s ≡ outs ++ future n st.channel st.producer
  unfolding new
  Reach-future {s} start live n = rw zero-add (sym (future-pulling n s))
  Reach-future {s} {k} {outs} (produced {st} {st'} r h) live n =
      let b = Reach-bounds r in
      let kept = produce-bounds st st' h (ground arith) in
      rw (produce-future n st st' h (ground arith)) (Reach-future r (ground arith) n)
  Reach-future {s} (consumed {outs} {r = x} {st} {st'} r live h) l n =
      let size : length (outs ++ x ∷ []) + n ≡ length outs + suc n =
        omega (arith, length-append outs (x ∷ [])) in
      results (length (outs ++ x ∷ []) + n) s
      ≡⟨ ap (λ m. results m s) size ⟩ results (length outs + suc n) s
      ≡⟨ Reach-future r live (suc n) ⟩ outs ++ future (suc n) st.channel st.producer
      ≡⟨ ap (λ l. outs ++ l) (next-future n st st' x h) ⟩
        outs ++ (x ∷ future n st'.channel st'.producer)
      ≡⟨ sym (append_assoc outs (x ∷ []) (future n st'.channel st'.producer)) ⟩
        (outs ++ x ∷ []) ++ future n st'.channel st'.producer ∎
  Reach-future (hung_up r) live n = absurd (ground arith)

  Reach-outs :
      {s : inner.State} {k : ℕ} {outs : List (Option A)} {st : AsyncBatchIter inner}
      → Reach inner s k outs st
      → outs ≡ results (length outs) s
  unfolding results future
  Reach-outs start = refl
  Reach-outs (produced r h) = Reach-outs r
  Reach-outs {s} (consumed {outs} {r = x} {st} {st'} r live h) =
      let size : length (outs ++ x ∷ []) ≡ length outs + 1 = length-append outs (x ∷ []) in
      let last : future 1 st.channel st.producer ≡ x ∷ [] = next-future 0 st st' x h in
      sym (rw size (Reach-future r live 1) ∙ ap (λ l. outs ++ l) last)
  Reach-outs (hung_up r) = Reach-outs r

  -- Under any interleaving of the producing thread and the consumer, one that hangs up included, the
  -- calls of `next` have given what as many calls of the inner iterator give, in order, with none
  -- from the first end on; and the channel never holds more than `readahead` messages.
  pub Reach-results :
      {s : inner.State} {k : ℕ} {outs : List (Option A)} {st : AsyncBatchIter inner}
      → Reach inner s k outs st
      → (outs ≡ results (length outs) s) × (length st.channel ≤ k)
  Reach-results r = (Reach-outs r, (Reach-bounds r).1)
