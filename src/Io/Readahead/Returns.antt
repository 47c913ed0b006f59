-- ===== src/Io/Readahead/Returns.antt =====
-- backtester-core/src/io.rs: a call of `next` on an `AsyncBatchIter` returns, and a producing thread
-- whose receiver is gone ends.
use crypto_rs_backtester.Prelude.{
  ℕ, zero, suc, ◌≡◌, ◌≢◌, refl, true, Option, none, some, List, [], ◌∷◌, ◌++◌, length, arith, inl,
  inr, ◌⊎◌, Option-cases, ap, ◌∙◌, sym, length-append, ◌+◌,
}
use crypto_rs_backtester.Io.Readahead.{
  Iter, pulling, sending, ending, stopped, AsyncBatchIter, produce, recv, next, hang_up, Reach,
  produced, consumed,
}
use crypto_rs_backtester.Io.Readahead.Laws.{results, Producer-cases, Reach-results}

module _ {A : Type 0} (inner : Iter A) where
  -- A consumer that waits: while `next` cannot return, the thread acts. The fuel counts the tries.
  unfoldable pub wait : ℕ → AsyncBatchIter inner → Option (Option A × AsyncBatchIter inner)
  wait zero st = none
  wait (suc fuel) st = elim (next inner st) [
    | some result ↦ some result
    | none ↦ elim (produce inner st) [ none ↦ none | some st' ↦ wait fuel st' ]
  ]

  -- The thread's actions, as many as it has up to a number, while nobody receives.
  unfoldable pub run_thread : ℕ → AsyncBatchIter inner → AsyncBatchIter inner
  run_thread zero st = st
  run_thread (suc n) st = elim (produce inner st) [ none ↦ st | some st' ↦ run_thread n st' ]

  List-cases : {B : Type 0} (l : List B) → (l ≡ []) ⊎ ((x : B) × (r : List B) × (l ≡ x ∷ r))
  List-cases [] = inl refl
  List-cases (x ∷ r) = inr (x, r, refl)

  -- A thread at its `send` needs one action where there is a buffer, and none where there is not.
  sending-wait :
      (n : ℕ) (st : AsyncBatchIter inner) (item : A) (s : inner.State)
      → st.channel ≡ []
      → st.producer ≡ sending item s
      → st.has_receiver ≡ true
      → wait (suc (suc n)) st ≢ none
  unfolding wait next recv produce
  sending-wait n st item s c p live = ground arith

  ending-wait :
      (n : ℕ) (st : AsyncBatchIter inner)
      → st.channel ≡ []
      → st.producer ≡ ending
      → st.has_receiver ≡ true
      → wait (suc (suc n)) st ≢ none
  unfolding wait next recv produce
  ending-wait n st c p live = ground arith

  wait-blocked :
      (n : ℕ) (st st' : AsyncBatchIter inner)
      → next inner st ≡ none
      → produce inner st ≡ some st'
      → wait (suc n) st ≡ wait n st'
  unfolding wait
  wait-blocked n st st' h k = rw (h, wait) (rw (k, wait))

  next-pulling :
      (st : AsyncBatchIter inner) (s : inner.State)
      → st.channel ≡ []
      → st.producer ≡ pulling s
      → next inner st ≡ none
  unfolding next recv
  next-pulling st s c p = ground arith

  wait-ne-none :
      (st : AsyncBatchIter inner) → st.has_receiver ≡ true → wait (suc (suc (suc zero))) st ≢ none
  unfolding wait next recv produce
  wait-ne-none st live = elim (List-cases st.channel) [
    | inr (m, rest, c) ↦ ground arith
    | inl c ↦ elim (Producer-cases inner st.producer) [
      | inl (s, p) ↦ elim (Option-cases (inner.next s).0) [
        | inl e ↦
            let st₁ : AsyncBatchIter inner = record st { producer = ending } in
            rw (wait-blocked (suc (suc zero)) st st₁ (next-pulling st s c p) (ground arith))
              (ending-wait zero st₁ c refl live)
        | inr (item, e) ↦
            let st₁ : AsyncBatchIter inner = record st {
              producer = sending item (inner.next s).1;
            } in
            rw (wait-blocked (suc (suc zero)) st st₁ (next-pulling st s c p) (ground arith))
              (sending-wait zero st₁ item (inner.next s).1 c refl live)
      ]
      | inr (inl (item, s, p)) ↦ sending-wait (suc zero) st item s c p live
      | inr (inr (inl p)) ↦ ending-wait (suc zero) st c p live
      | inr (inr (inr p)) ↦ ground arith
    ]
  ]

  produce-live :
      (st st' : AsyncBatchIter inner)
      → st.has_receiver ≡ true
      → produce inner st ≡ some st'
      → st'.has_receiver ≡ true
  unfolding produce
  produce-live st st' live h = elim (Producer-cases inner st.producer) [
    | inl (s, p) ↦ ground arith
    | inr (inl (item, s, p)) ↦ ground arith
    | inr (inr (inl p)) ↦ ground arith
    | inr (inr (inr p)) ↦ ground arith
  ]

  wait-Reach :
      (fuel : ℕ) {s : inner.State} {k : ℕ} {outs : List (Option A)} (st st' : AsyncBatchIter inner)
      (r : Option A)
      → Reach inner s k outs st
      → st.has_receiver ≡ true
      → wait fuel st ≡ some (r, st')
      → Reach inner s k (outs ++ r ∷ []) st'
  unfolding wait
  wait-Reach zero st st' r reached live h = cc
  wait-Reach (suc fuel) st st' r reached live h = elim (Option-cases (next inner st)) [
    | inr ((x, st₁), e) ↦ consumed reached live (ground arith)
    | inl e ↦ elim (Option-cases (produce inner st)) [
      | inl p ↦ ground arith
      | inr (st₁, p) ↦
          wait-Reach fuel st₁ st' r (produced reached p) (produce-live st st₁ live p)
            (sym (wait-blocked fuel st st₁ e p) ∙ h)
    ]
  ]

  -- A receiver that is gone: the thread pulls at most one more item, and returns.
  pub run_thread-hang_up :
      (st : AsyncBatchIter inner) → (run_thread 2 (hang_up inner st)).producer ≡ stopped
  unfolding run_thread produce
  run_thread-hang_up st = elim (Producer-cases inner st.producer) [
    | inl (s, p) ↦ elim (Option-cases (inner.next s).0) [
      | inl e ↦ ground arith
      | inr (item, e) ↦ ground arith
    ]
    | inr (inl (item, s, p)) ↦ ground arith
    | inr (inr (inl p)) ↦ ground arith
    | inr (inr (inr p)) ↦ ground arith
  ]

  -- In any state that the two threads can reach and in which the receiver is there, a call of `next`
  -- returns after at most two actions of the thread, and what it returns is what the inner iterator
  -- gives next.
  pub Reach-wait :
      {s : inner.State} {k : ℕ} {outs : List (Option A)} (st : AsyncBatchIter inner)
      → Reach inner s k outs st
      → st.has_receiver ≡ true
      → (r : Option A) × (st' : AsyncBatchIter inner) × (wait 3 st ≡ some (r, st'))
        × (outs ++ r ∷ [] ≡ results inner (length outs + 1) s)
  Reach-wait {s} {outs} st reached live = elim (Option-cases (wait 3 st)) [
    | inl e ↦ absurd (wait-ne-none st live e)
    | inr ((r, st'), e) ↦
        let more = wait-Reach 3 st st' r reached live e in
        let size : length (outs ++ r ∷ []) ≡ length outs + 1 = length-append outs (r ∷ []) in
        (r, st', e, (Reach-results inner more).0 ∙ ap (λ n. results inner n s) size)
  ]
