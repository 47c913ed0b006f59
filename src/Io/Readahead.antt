-- ===== src/Io/Readahead.antt =====
-- backtester-core/src/io.rs: `AsyncBatchIter`. A thread sends what the inner iterator gives through a
-- bounded channel, and then the mark of the end; the consumer's `next` takes from the channel. An
-- action that has to wait gives none.
pub mod Laws
pub mod Returns
use crypto_rs_backtester.Prelude.{
  ℕ, Bool, true, false, Option, none, some, List, [], ◌∷◌, ◌++◌, if◌then◌else◌, ltb, eqb, length,
  ◌≡◌, Result, ok, err,
}

-- `I: Iterator<Item = A>`
pub record Iter (A : Type 0) : Type 1 where
  pub State : Type 0
  pub next : State → Option A × State

-- The producing thread: before the next pull, at the `send` of an item, at the `send` of the end, and
-- after its return.
pub data Producer (A S : Type 0) : Type 0 where
  pulling : S → Producer A S
  sending : A → S → Producer A S
  ending stopped : Producer A S

module _ {A : Type 0} (inner : Iter A) where
  -- `recv` fails when the sender is gone, and the sender goes when its thread is `stopped`.
  pub record AsyncBatchIter : Type 0 where
    pub readahead : ℕ
    pub producer : Producer A inner.State
    pub channel : List (Option A)
    pub has_receiver : Bool

  unfoldable pub new : inner.State → ℕ → AsyncBatchIter
  new s readahead = record {
    readahead = readahead;
    producer = pulling s;
    channel = [];
    has_receiver = true;
  }

  -- `sender.send(message)`: an error without a receiver; it waits while the channel is full.
  abbrev pub send : Option A → Producer A inner.State → AsyncBatchIter → Option AsyncBatchIter
  send message after st =
      if st.has_receiver
      then (if ltb (length st.channel) st.readahead
          then some (record st { producer = after; channel = st.channel ++ message ∷ [] })
          else none)
      else some (record st { producer = stopped })

  -- The thread's next action.
  unfoldable pub produce : AsyncBatchIter → Option AsyncBatchIter
  produce st = elim st.producer [
    | pulling s ↦
        let (pulled, s') = inner.next s in
        elim pulled [
          | some item ↦ some (record st { producer = sending item s' })
          | none ↦ some (record st { producer = ending })
        ]
    | sending item s ↦ send (some item) (pulling s) st
    | ending ↦ send none stopped st
    | stopped ↦ none
  ]

  -- `receiver.recv()`: with no buffer, the message goes over from a thread that waits at its `send`.
  unfoldable pub recv : AsyncBatchIter → Option (Result (Option A) (Unit {0}) × AsyncBatchIter)
  recv st = elim st.channel [
    | message ∷ rest ↦ some (ok message, record st { channel = rest })
    | [] ↦ elim st.producer [
      | pulling s ↦ none
      | sending item s ↦
          if eqb st.readahead 0
          then some (ok (some item), record st { producer = pulling s })
          else none
      | ending ↦
          if eqb st.readahead 0 then some (ok none, record st { producer = stopped }) else none
      | stopped ↦ some (err tt, st)
    ]
  ]

  unfoldable pub next : AsyncBatchIter → Option (Option A × AsyncBatchIter)
  unfolding recv
  next st = elim (recv st) [
    | none ↦ none
    | some (ok (some item), st') ↦ some (some item, st')
    | some (ok none, st') ↦ some (none, st')
    | some (err e, st') ↦ some (none, st')
  ]

  -- The iterator is dropped, and the receiver with it.
  abbrev pub hang_up : AsyncBatchIter → AsyncBatchIter
  hang_up st = record st { has_receiver = false }

  -- What `next` has returned, and the state, after any interleaving of the two threads.
  pub data Reach (s : inner.State) (readahead : ℕ) : List (Option A) → AsyncBatchIter → Type 0 where
    start : Reach s readahead [] (new s readahead)
    produced :
        {outs : List (Option A)} {st st' : AsyncBatchIter}
        → Reach s readahead outs st
        → produce st ≡ some st'
        → Reach s readahead outs st'
    consumed :
        {outs : List (Option A)} {r : Option A} {st st' : AsyncBatchIter}
        → Reach s readahead outs st
        → st.has_receiver ≡ true
        → next st ≡ some (r, st')
        → Reach s readahead (outs ++ r ∷ []) st'
    hung_up :
        {outs : List (Option A)} {st : AsyncBatchIter}
        → Reach s readahead outs st
        → Reach s readahead outs (hang_up st)
