-- ===== src/QueueModel/Conservative/Fill.antt =====
-- backtester-core/src/queue_model.rs: `ConservativeQueue` meets the contract.
use crypto_rs_backtester.Prelude.{◌≡◌, ◌⊎◌, inl, inr, arith, Bool-cases, if◌then◌else◌}
use crypto_rs_backtester.Prelude.Int.{ℤ, pos, ◌≤ℤ◌, ◌<ℤ◌, leb_ℤ, ◌-ℤ◌, -ℤ_parts, eq_of_parts}
use crypto_rs_backtester.Prelude.I64.{InI64, wrap_i64-eq, wrap_i64-InI64}
use crypto_rs_backtester.Types.{Order, Tick}
use crypto_rs_backtester.QueueModel.{can_fill, can_fill_positive}
use crypto_rs_backtester.QueueModel.Laws.{IsFill, QueueLaws}
use crypto_rs_backtester.QueueModel.Conservative.{State, fill_after, check_fill, conservative_queue}

-- The quantity ahead is a word.
abbrev pub IsState : State → Type 0
IsState s = InI64 s.qty_ahead

-- What a trade of positive quantity does: the volume first takes what is ahead, and the rest fills.
pub fill_after_lem :
    (r a : ℤ) (s : State)
    → InI64 a
    → pos 0 <ℤ a
    → InI64 s.qty_ahead
    → (pos 0 <ℤ s.qty_ahead
        → s.qty_ahead ≤ℤ a
        → fill_after r a s ≡ (
          if leb_ℤ (a -ℤ s.qty_ahead) r then a -ℤ s.qty_ahead else r,
          record { qty_ahead = pos 0 },
        ))
      × (a <ℤ s.qty_ahead
          → fill_after r a s
            ≡ (if leb_ℤ (pos 0) r then pos 0 else r, record { qty_ahead = s.qty_ahead -ℤ a }))
      × (s.qty_ahead ≤ℤ pos 0 → fill_after r a s ≡ (if leb_ℤ a r then a else r, s))
unfolding fill_after
fill_after_lem r a s ha p hs =
    let q = s.qty_ahead in
    ground (
      arith,
      wrap_i64-eq (a -ℤ q),
      wrap_i64-eq (a -ℤ a),
      wrap_i64-eq (q -ℤ a),
      wrap_i64-eq (q -ℤ q),
      -ℤ_parts a q,
      -ℤ_parts a a,
      -ℤ_parts q a,
      -ℤ_parts q q,
      eq_of_parts (a -ℤ a) (pos 0),
      eq_of_parts (q -ℤ q) (pos 0),
    )

pub fill_after-bounded :
    (r a : ℤ) (s : State)
    → InI64 a
    → pos 0 <ℤ a
    → pos 0 <ℤ r
    → InI64 s.qty_ahead
    → let f = (fill_after r a s).0 in (f ≡ pos 0) ⊎ ((pos 0 <ℤ f) × (f ≤ℤ r))
fill_after-bounded r a s ha p pr hs =
    ground (arith, fill_after_lem r a s ha p hs, -ℤ_parts a s.qty_ahead)

pub check_fill-IsState :
    (o : Order) (r : ℤ) (t : Tick) (s : State) → IsState s → IsState (check_fill o r t s).1
unfolding check_fill
check_fill-IsState o r t s h =
    ground
      (arith, wrap_i64-InI64 (s.qty_ahead -ℤ s.qty_ahead), wrap_i64-InI64 (s.qty_ahead -ℤ t.qty))

pub check_fill-IsFill :
    (o : Order) (r : ℤ) (t : Tick) (s : State)
    → InI64 r
    → InI64 t.qty
    → IsState s
    → IsFill o r t (check_fill o r t s).0
unfolding check_fill
check_fill-IsFill o r t s hr ht h = elim (Bool-cases (can_fill o r t)) [
  | inl e ↦
      let p = can_fill_positive o r t e in
      ground (arith, e, fill_after-bounded r t.qty s ht p.1 p.0 h)
  | inr e ↦ inl (ground arith)
]

abbrev pub conservative-laws : QueueLaws conservative_queue
conservative-laws = record {
  IsState = IsState;
  check_fill_keeps = λ o r t s hr ht h. check_fill-IsState o r t s h;
  check_fill_bounded = check_fill-IsFill;
}
