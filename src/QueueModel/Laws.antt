-- ===== src/QueueModel/Laws.antt =====
-- backtester-core/src/queue_model.rs: what the exchange relies on in a queue model.
use crypto_rs_backtester.Prelude.{◌≡◌, ◌⊎◌, inl, true, refl}
use crypto_rs_backtester.Prelude.Int.{ℤ, pos, ◌≤ℤ◌, ◌<ℤ◌}
use crypto_rs_backtester.Prelude.I64.{InI64}
use crypto_rs_backtester.Types.{Order, Tick}
use crypto_rs_backtester.QueueModel.{QueueModel, can_fill, noop_queue}

-- A fill is nothing, or a part of what remains, for a trade that passes the tests.
abbrev pub IsFill : Order → ℤ → Tick → ℤ → Type 0
IsFill o r t f = (f ≡ pos 0) ⊎ ((can_fill o r t ≡ true) × (pos 0 <ℤ f) × (f ≤ℤ r))

-- The contract of `check_fill`, over the states that a model keeps.
pub record QueueLaws (Q : QueueModel) : Type 1 where
  pub IsState : Q.State → Type 0
  pub check_fill_keeps :
      (o : Order) (r : ℤ) (t : Tick) (s : Q.State)
      → InI64 r
      → InI64 t.qty
      → IsState s
      → IsState (Q.check_fill o r t s).1
  pub check_fill_bounded :
      (o : Order) (r : ℤ) (t : Tick) (s : Q.State)
      → InI64 r
      → InI64 t.qty
      → IsState s
      → IsFill o r t (Q.check_fill o r t s).0

noop-laws : QueueLaws noop_queue
noop-laws = record {
  IsState = λ s. Unit {0};
  check_fill_keeps = λ o r t s hr ht h. tt;
  check_fill_bounded = λ o r t s hr ht h. inl refl;
}
