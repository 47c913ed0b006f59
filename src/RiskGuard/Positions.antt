-- ===== src/RiskGuard/Positions.antt =====
-- backtester-core/src/risk_guard.rs with account.rs: an order that passes keeps the position within
-- its limit, however much of it is filled.
use crypto_rs_backtester.Prelude.{ℕ, ◌≡◌, ◌⊎◌, ◌≤◌, none, arith}
use crypto_rs_backtester.Prelude.Int.{
  ℤ, pos, pos_part, ◌≤ℤ◌, ◌<ℤ◌, ◌+ℤ◌, parts_eq, neg, neg_parts, abs,
}
use crypto_rs_backtester.Prelude.I64.{neg_i64, InI64, sat_i64-eq, wrap_i64-eq}
use crypto_rs_backtester.Types.{Order}
use crypto_rs_backtester.Account.{Account, position_qty, fill_delta, on_fill}
use crypto_rs_backtester.Account.Fills.{on_fill-position_qty}
use crypto_rs_backtester.RiskGuard.{RiskGuard, check_order, order_delta}
use crypto_rs_backtester.RiskGuard.Limits.{check_order-passes_iff}

-- Between two sums within a limit, every sum is within it.
between :
    (q d x : ℤ) (m : ℕ)
    → ((pos 0 ≤ℤ d) × (d ≤ℤ x)) ⊎ ((x ≤ℤ d) × (d ≤ℤ pos 0))
    → abs q ≤ m
    → abs (q +ℤ x) ≤ m
    → abs (q +ℤ d) ≤ m
unfolding ◌+ℤ◌
between q d x m h a b = ground arith

-- A fill of a part moves the position towards that of the whole order.
part_of_delta :
    (order : Order) (f : ℤ)
    → pos 0 ≤ℤ f
    → f ≤ℤ order.qty
    → InI64 order.qty
    → ((pos 0 ≤ℤ fill_delta order f) × (fill_delta order f ≤ℤ order_delta order))
      ⊎ ((order_delta order ≤ℤ fill_delta order f) × (fill_delta order f ≤ℤ pos 0))
part_of_delta order f lo hi w =
    let back : neg_i64 f ≡ neg f = wrap_i64-eq (neg f) (ground (arith, neg_parts f)) in
    ground (arith, neg_parts f, neg_parts order.qty, parts_eq back)

-- An order of a quantity that is a word, which the risk guard passes while the position is within a
-- positive limit, keeps the position within the limit after a fill of any part of it, at any price.
pub on_fill-within_limit :
    (g : RiskGuard) (order : Order) (count : ℕ) (f price : ℤ) (a : Account)
    → check_order order count (position_qty order.symbol_id a) g ≡ none
    → pos 0 <ℤ g.max_position
    → InI64 g.max_position
    → abs (position_qty order.symbol_id a) ≤ pos_part g.max_position
    → InI64 order.qty
    → pos 0 ≤ℤ f
    → f ≤ℤ order.qty
    → abs (position_qty order.symbol_id (on_fill order f price a).1) ≤ pos_part g.max_position
on_fill-within_limit g order count f price a passes limited mw within w lo hi =
    let q = position_qty order.symbol_id a in
    let whole = ((check_order-passes_iff order count q g).0 passes).2 in
    let inside : abs (q +ℤ fill_delta order f) ≤ pos_part g.max_position =
      between q (fill_delta order f) (order_delta order) (pos_part g.max_position)
        (part_of_delta order f lo hi w) within (ground (arith, whole)) in
    let moved = (on_fill-position_qty order f price a (ground arith)).0 in
    rw (moved, sat_i64-eq (q +ℤ fill_delta order f) (ground arith)) inside
