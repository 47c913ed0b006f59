-- ===== src/RiskGuard/Limits.antt =====
-- backtester-core/src/risk_guard.rs: which orders pass, and the kill switch over a run of PnL updates.
use crypto_rs_backtester.Prelude.{
  ℕ, ◌≡◌, ◌↔◌, ◌⊎◌, true, false, none, some, List, [], ◌∷◌, ◌<◌, ◌≤◌, arith,
}
use crypto_rs_backtester.Prelude.Int.{ℤ, pos, pos_part, ◌+ℤ◌, ◌≤ℤ◌, ◌<ℤ◌, abs}
use crypto_rs_backtester.Prelude.I64.{saturating_add}
use crypto_rs_backtester.Types.{Order, Reason}
use crypto_rs_backtester.RiskGuard.{RiskGuard, check_order, order_delta, update_pnl}

-- An order passes exactly if the kill switch has not fired, the count of orders is below its limit,
-- and the position after the whole order is within its limit, where a limit that is not positive is
-- no limit.
pub check_order-passes_iff :
    (order : Order) (count : ℕ) (position : ℤ) (g : RiskGuard)
    → (check_order order count position g ≡ none) ↔ (
        (g.killed ≡ false)
        × ((g.max_open_orders ≡ 0) ⊎ (count < g.max_open_orders))
        × ((g.max_position ≤ℤ pos 0)
            ⊎ (abs (position +ℤ order_delta order) ≤ pos_part g.max_position)))
unfolding check_order
check_order-passes_iff order count position g = ground arith

abbrev pub update_all : List ℤ → RiskGuard → RiskGuard
update_all [] g = g
update_all (d ∷ ds) g = update_all ds (update_pnl d g)

-- Some prefix of the updates takes the running PnL, saturated at each step, to the limit.
abbrev pub Breached : ℤ → ℤ → List ℤ → Type 0
Breached limit running [] = ⊥
Breached limit running (d ∷ ds) =
    (saturating_add running d ≤ℤ limit) ⊎ Breached limit (saturating_add running d) ds

-- After a run of updates the kill switch is on exactly if it was on before, or a limit below zero was
-- reached after some prefix of the run; a later gain does not turn it off.
pub update_all-killed_iff :
    (ds : List ℤ) (g : RiskGuard)
    → ((update_all ds g).killed ≡ true)
      ↔ ((g.killed ≡ true) ⊎ ((g.max_loss <ℤ pos 0) × Breached g.max_loss g.running_pnl ds))
unfolding update_pnl
update_all-killed_iff [] g = ground arith
update_all-killed_iff (d ∷ ds) g = ground (arith, update_all-killed_iff ds (update_pnl d g))

-- Once the kill switch is on, no order passes, whatever updates follow.
pub update_all-rejects :
    (ds : List ℤ) (g : RiskGuard) (order : Order) (count : ℕ) (position : ℤ)
    → g.killed ≡ true
    → check_order order count position (update_all ds g) ≡ some Reason.kill_switch_active
unfolding check_order
update_all-rejects ds g order count position k = ground (arith, update_all-killed_iff ds g)
