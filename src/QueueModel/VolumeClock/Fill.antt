-- ===== src/QueueModel/VolumeClock/Fill.antt =====
-- backtester-core/src/queue_model.rs: `VolumeClockQueue` meets the contract.
use crypto_rs_backtester.Prelude.{if◌then◌else◌, ◌≡◌, ◌⊎◌, inl, inr, arith, Bool-cases}
use crypto_rs_backtester.Prelude.Int.{ℤ, pos, ◌≤ℤ◌, ◌<ℤ◌, ◌-ℤ◌, ◌+ℤ◌, +ℤ_parts, min_ℤ, max_ℤ}
use crypto_rs_backtester.Prelude.I64.{InI64, wrap_i64, sat_i64, sat_i64-InI64}
use crypto_rs_backtester.Types.{Order, Tick}
use crypto_rs_backtester.QueueModel.{can_fill, can_fill_positive}
use crypto_rs_backtester.QueueModel.Laws.{IsFill, QueueLaws}
use crypto_rs_backtester.QueueModel.VolumeClock.{State, fill_after, check_fill, volume_clock_queue}

-- The counters are words, and the claimed volume is not negative.
pub record IsState (s : State) : Type 0 where
  pub claimed_word : InI64 s.claimed
  pub claimed_nonneg : pos 0 ≤ℤ s.claimed

sat_nonneg : (a : ℤ) → pos 0 ≤ℤ a → pos 0 ≤ℤ sat_i64 a
unfolding sat_i64
sat_nonneg a h = ground arith

fill_after-IsState : (r a : ℤ) (s : State) → IsState s → IsState (fill_after r a s).1
unfolding fill_after
fill_after-IsState r a s h =
    let past = sat_i64 (sat_i64 (s.cum_volume +ℤ a) -ℤ s.queue_pos) in
    let fill = max_ℤ (min_ℤ (wrap_i64 (past -ℤ s.claimed)) r) (pos 0) in
    ground (
      arith,
      sat_i64-InI64 (s.claimed +ℤ fill),
      sat_nonneg (s.claimed +ℤ fill),
      +ℤ_parts s.claimed fill,
    )

fill_after-bounded :
    (r a : ℤ) (s : State)
    → pos 0 <ℤ r
    → let f = (fill_after r a s).0 in (f ≡ pos 0) ⊎ ((pos 0 <ℤ f) × (f ≤ℤ r))
unfolding fill_after
fill_after-bounded r a s p = ground arith

-- The early returns are those of a trade that cannot fill the order.
check_fill-can_fill :
    (o : Order) (r : ℤ) (t : Tick) (s : State)
    → check_fill o r t s ≡ (if can_fill o r t then fill_after r t.qty s else (pos 0, s))
unfolding check_fill
check_fill-can_fill o r t s = ground arith

check_fill-IsState :
    (o : Order) (r : ℤ) (t : Tick) (s : State) → IsState s → IsState (check_fill o r t s).1
unfolding check_fill
check_fill-IsState o r t s h = elim (Bool-cases (can_fill o r t)) [
  | inl e ↦ rw (check_fill-can_fill o r t s, e) (fill_after-IsState r t.qty s h)
  | inr e ↦ rw (check_fill-can_fill o r t s, e) h
]

check_fill-IsFill : (o : Order) (r : ℤ) (t : Tick) (s : State) → IsFill o r t (check_fill o r t s).0
unfolding check_fill
check_fill-IsFill o r t s = elim (Bool-cases (can_fill o r t)) [
  | inl e ↦ ground (arith, e, fill_after-bounded r t.qty s (can_fill_positive o r t e).0)
  | inr e ↦ inl (ground arith)
]

pub volume_clock-laws : QueueLaws volume_clock_queue
volume_clock-laws = record {
  IsState = IsState;
  check_fill_keeps = λ o r t s hr ht h. check_fill-IsState o r t s h;
  check_fill_bounded = λ o r t s hr ht h. check_fill-IsFill o r t s;
}
