-- ===== src/Tests/Money.antt =====
-- Concrete runs of the account, the risk guard, the tuner and the engine.
use crypto_rs_backtester.Prelude.{
  ℕ, ◌≤◌, ◌<◌, ◌≡◌, ◌≢◌, ◌↔◌, ◌⊎◌, refl, true, false, none, List, [], ◌∷◌, arith,
}
use crypto_rs_backtester.Prelude.Int.{
  ℤ, pos, negsuc, ◌≤ℤ◌, ◌<ℤ◌, ◌+ℤ◌, ◌-ℤ◌, ◌*ℤ◌, neg, abs, pos_part, div_trunc,
}
use crypto_rs_backtester.Prelude.I64.{InI64, saturating_add, sat_i64, wrap_i64}
use crypto_rs_backtester.Prelude.Keys.{nat_eq}
use crypto_rs_backtester.Collections.Map.{get, get_or}
use crypto_rs_backtester.Types.{FundingEvent, scale}
use crypto_rs_backtester.Account.{Account, Position, position, position_qty, fill_delta, on_fill}
use crypto_rs_backtester.Account.Fills.{IsAccount, on_fill-position_qty}
use crypto_rs_backtester.Account.RoundTrip.{gain, on_fill_round_trip}
use crypto_rs_backtester.RiskGuard
use crypto_rs_backtester.RiskGuard.{RiskGuard, check_order, order_delta}
use crypto_rs_backtester.RiskGuard.Limits.{
  update_all, Breached, check_order-passes_iff, update_all-killed_iff,
}
use crypto_rs_backtester.RiskGuard.Positions.{on_fill-within_limit}
use crypto_rs_backtester.Tuner
use crypto_rs_backtester.Tuner.Bounds.{record_all, new-record_all}
use crypto_rs_backtester.Tests.{buy_order, sell_order}
use crypto_rs_backtester.Tests.Session.{whole}

abbrev empty : Account
empty = record { positions = []; total_funding_pnl = pos 0 }

empty-IsAccount : IsAccount empty
unfolding get
empty-IsAccount k p e = cc

flat : position_qty 1 empty ≡ pos 0
unfolding position_qty get_or get
flat = refl

abbrev opened : Account
opened = (on_fill buy_order (pos 300000000) (pos 10000000000) empty).1

on_fill-position_qty_example :
    (position_qty 1 opened ≡ saturating_add (position_qty 1 empty) (pos 300000000))
    × ((s : ℕ) → 1 ≢ s → position s opened ≡ position s empty)
    × (opened.total_funding_pnl ≡ empty.total_funding_pnl)
on_fill-position_qty_example =
    on_fill-position_qty buy_order (pos 300000000) (pos 10000000000) empty (rw flat (omega arith))

abbrev long : Position
long = record {
  qty = pos 300000000;
  avg_price = pos 10000000000;
  last_open_ts = pos 5;
  funding_pnl = pos 0;
}

opposite : neg (fill_delta buy_order (pos 300000000)) ≡ fill_delta sell_order (pos 300000000)
unfolding neg wrap_i64
opposite = refl

word_up : InI64 (pos 11000000000 -ℤ pos 10000000000)
unfolding ◌-ℤ◌
word_up = omega arith

word_down : InI64 (pos 10000000000 -ℤ pos 11000000000)
unfolding ◌-ℤ◌
word_down = omega arith

abbrev closed : ℤ × Account
closed = on_fill sell_order (pos 300000000) (pos 11000000000) opened

on_fill_round_trip_example :
    ((on_fill buy_order (pos 300000000) (pos 10000000000) empty).0 ≡ pos 0)
    × (closed.0
        ≡ sat_i64 (
            div_trunc
              (gain (pos 300000000) (pos 10000000000) (pos 11000000000) *ℤ pos 300000000)
              scale))
    × (position_qty 1 closed.1 ≡ pos 0)
on_fill_round_trip_example =
    on_fill_round_trip buy_order sell_order (pos 300000000) (pos 300000000) (pos 10000000000)
      (pos 11000000000) empty refl flat (omega arith) (omega arith) opposite (omega arith) word_up
      word_down

-- 30 units of the quote, for 3 units bought at 100 and sold at 110.
closed_pnl :
    sat_i64
      (div_trunc (gain (pos 300000000) (pos 10000000000) (pos 11000000000) *ℤ pos 300000000) scale)
    ≡ pos 3000000000
unfolding ◌-ℤ◌ ◌*ℤ◌ div_trunc sat_i64
closed_pnl = refl

abbrev funding : FundingEvent
funding = record { ts_exchange = pos 20; rate = pos 10000; symbol_id = 1 }

abbrev guard : RiskGuard
guard = RiskGuard.new 2 (pos 500000000) (negsuc 999999999)

check_order-passes_iff_example : (check_order buy_order 1 (pos 100000000) guard ≡ none) ↔ (
    (guard.killed ≡ false)
    × ((guard.max_open_orders ≡ 0) ⊎ (1 < guard.max_open_orders))
    × ((guard.max_position ≤ℤ pos 0)
        ⊎ (abs (pos 100000000 +ℤ order_delta buy_order) ≤ pos_part guard.max_position)))
check_order-passes_iff_example = check_order-passes_iff buy_order 1 (pos 100000000) guard

update_all-killed_iff_example :
    ((update_all (negsuc 1999999999 ∷ pos 5000000000 ∷ []) guard).killed ≡ true) ↔ (
      (guard.killed ≡ true)
      ⊎ ((guard.max_loss <ℤ pos 0)
          × Breached guard.max_loss guard.running_pnl (negsuc 1999999999 ∷ pos 5000000000 ∷ [])))
update_all-killed_iff_example =
    update_all-killed_iff (negsuc 1999999999 ∷ pos 5000000000 ∷ []) guard

-- The same limits with the fields written out.
abbrev limits : RiskGuard
limits = record {
  max_open_orders = 2;
  max_position = pos 500000000;
  max_loss = negsuc 999999999;
  killed = false;
  running_pnl = pos 0;
}

passes : check_order buy_order 1 (position_qty 1 empty) limits ≡ none
unfolding check_order position_qty get_or get ◌+ℤ◌
passes = refl

on_fill-within_limit_example :
    abs (position_qty 1 (on_fill buy_order (pos 100000000) (pos 10000000000) empty).1) ≤ 500000000
on_fill-within_limit_example =
    on_fill-within_limit limits buy_order 1 (pos 100000000) (pos 10000000000) empty passes
      (omega arith) (omega arith) (rw flat (omega arith)) (omega arith) (omega arith) (omega arith)

abbrev batches : List (ℤ × ℕ)
batches = (pos 5000, 100) ∷ (pos 900000, 100) ∷ []

new-record_all_example :
    let t = record_all whole batches (Tuner.new (pos 10000000) (pos 1000) (pos 5) 100) in
    (pos 1000 ≤ℤ t.current_batch_ns) × (t.current_batch_ns ≤ℤ pos 10000000)
new-record_all_example =
    new-record_all whole (pos 10000000) (pos 1000) (pos 5) 100 batches (omega arith) (omega arith)
      (omega arith) (omega arith)
