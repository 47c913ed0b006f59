-- ===== src/QueueModel/L3Exact/Fill.antt =====
-- backtester-core/src/queue_model.rs: `L3ExactQueue` keeps its total equal to its list of orders,
-- through fills and venue updates, and meets the contract.
use crypto_rs_backtester.Prelude.{
  if◌then◌else◌, ◌≡◌, refl, inl, inr, [], ◌∷◌, arith, Bool-cases, ◌∙◌, ap,
}
use crypto_rs_backtester.Prelude.Int.{
  ℤ, pos, pos_part, neg_part, ◌≤ℤ◌, ◌<ℤ◌, ltb_ℤ, ◌-ℤ◌, ◌+ℤ◌, min_ℤ, sum, int_laws, signed_laws,
  eq_of_parts,
}
use crypto_rs_backtester.Prelude.I64.{InI64, sub_i64, sub_i64-le, sum_i64, sum_from-eq, NonNeg}
use crypto_rs_backtester.Types.{Order, Tick}
use crypto_rs_backtester.OrderBook.Depth.{MarketDepth}
use crypto_rs_backtester.OrderBook.L3.{Level, qtys}
use crypto_rs_backtester.QueueModel.{can_fill, can_fill_positive}
use crypto_rs_backtester.QueueModel.Laws.{IsFill, QueueLaws}
use crypto_rs_backtester.QueueModel.Conservative
use crypto_rs_backtester.QueueModel.Conservative.Fill.{fill_after-bounded}
use crypto_rs_backtester.QueueModel.L3Exact.{
  State, register_order, fill_after, check_fill, l3_exact_queue,
}
use crypto_rs_backtester.QueueModel.L3Exact.Consume.{Positive, consume_ahead_orders-total}

-- The orders ahead have positive quantities, and `qty_ahead` is their sum.
pub record IsState (s : State) : Type 0 where
  pub positive : Positive s.ahead_orders
  pub total : s.qty_ahead ≡ sum (qtys s.ahead_orders)
  pub word : InI64 s.qty_ahead

-- What a conservative queue with the same total ahead knows.
abbrev pub as_conservative : State → Conservative.State
as_conservative s = record { qty_ahead = s.qty_ahead }

pub fill_after-conservative :
    (r a : ℤ) (s : State)
    → ((fill_after r a s).0 ≡ (Conservative.fill_after r a (as_conservative s)).0)
      × (as_conservative (fill_after r a s).1 ≡ (Conservative.fill_after r a (as_conservative s)).1)
unfolding fill_after Conservative.fill_after
fill_after-conservative r a s = ground arith

fill_after-IsState : (r a : ℤ) (s : State) → pos 0 <ℤ a → IsState s → IsState (fill_after r a s).1
unfolding fill_after
fill_after-IsState r a s p v = elim (Bool-cases (ltb_ℤ (pos 0) s.qty_ahead)) [
  | inr e ↦ rw (e, fill_after) v
  | inl e ↦
      let some_ahead : pos 0 <ℤ s.qty_ahead = ground arith in
      let d = min_ℤ s.qty_ahead a in
      let lo : pos 0 ≤ℤ d = ground arith in
      let hi : d ≤ℤ s.qty_ahead = ground arith in
      let left : sub_i64 s.qty_ahead d ≡ s.qty_ahead -ℤ d = sub_i64-le s.qty_ahead d lo hi v.word in
      let (positive, total) =
        consume_ahead_orders-total s.ahead_orders d v.positive lo (rw (← v.total) hi)
          (rw (← v.total) v.word) in
      rw (e, fill_after)
        (record {
          positive = positive;
          total =
              left
              ∙ eq_of_parts _ _ (
                  omega (
                    signed_laws,
                    ap pos_part total,
                    ap neg_part total,
                    ap pos_part v.total,
                    ap neg_part v.total,
                  ));
          word = rw left (omega (signed_laws, v.word.0, v.word.1));
        })
]

-- The early returns are those of a trade that cannot fill the order.
check_fill-can_fill :
    (o : Order) (r : ℤ) (t : Tick) (s : State)
    → check_fill o r t s ≡ (if can_fill o r t then fill_after r t.qty s else (pos 0, s))
unfolding check_fill
check_fill-can_fill o r t s = ground arith

check_fill-IsState :
    (o : Order) (r : ℤ) (t : Tick) (s : State) → IsState s → IsState (check_fill o r t s).1
unfolding check_fill
check_fill-IsState o r t s v = elim (Bool-cases (can_fill o r t)) [
  | inl e ↦
      rw (check_fill-can_fill o r t s, e)
        (fill_after-IsState r t.qty s (can_fill_positive o r t e).1 v)
  | inr e ↦ rw (check_fill-can_fill o r t s, e) v
]

check_fill-IsFill :
    (o : Order) (r : ℤ) (t : Tick) (s : State)
    → InI64 t.qty
    → IsState s
    → IsFill o r t (check_fill o r t s).0
unfolding check_fill
check_fill-IsFill o r t s ht v = elim (Bool-cases (can_fill o r t)) [
  | inl e ↦
      let p = can_fill_positive o r t e in
      let same = fill_after-conservative r t.qty s in
      ground (arith, e, same.0, fill_after-bounded r t.qty (as_conservative s) ht p.1 p.0 v.word)
  | inr e ↦ inl (ground arith)
]

pub l3_exact-laws : QueueLaws l3_exact_queue
l3_exact-laws = record {
  IsState = IsState;
  check_fill_keeps = λ o r t s hr ht v. check_fill-IsState o r t s v;
  check_fill_bounded = λ o r t s hr ht v. check_fill-IsFill o r t s ht v;
}

Positive-nonneg : (q : Level) → Positive q → NonNeg (qtys q)
Positive-nonneg [] h = tt
Positive-nonneg (o ∷ q) h = (omega (signed_laws, h.0), Positive-nonneg q h.1)

-- An order that enters behind orders of positive quantities, whose sum is a word, begins with the
-- exact total of what is ahead.
pub register_order-IsState :
    (o : Order) (book : MarketDepth)
    → let ahead = book.orders_ahead o.side o.price o.order_id in
      Positive ahead → InI64 (sum (qtys ahead)) → IsState (register_order o book)
unfolding register_order
register_order-IsState o book p w =
    let ahead = book.orders_ahead o.side o.price o.order_id in
    let zero : pos 0 +ℤ sum (qtys ahead) ≡ sum (qtys ahead) = eq_of_parts _ _ (omega int_laws) in
    let total : sum_i64 (qtys ahead) ≡ sum (qtys ahead) =
      sum_from-eq (pos 0) (qtys ahead) refl (Positive-nonneg ahead p) (rw zero w) ∙ zero in
    record { positive = p; total = total; word = rw total w }
