-- ===== src/RiskGuard.antt =====
-- backtester-core/src/risk_guard.rs: the limits that an order passes before it is submitted, and the
-- kill switch on the running PnL.
pub mod Limits
pub mod Positions
use crypto_rs_backtester.Prelude.{
  ℕ, Bool, true, false, ◌&&◌, not, Option, none, some, if◌then◌else◌, ltb, leb,
}
use crypto_rs_backtester.Prelude.Int.{ℤ, pos, pos_part, ◌+ℤ◌, neg, ltb_ℤ, leb_ℤ, abs}
use crypto_rs_backtester.Prelude.I64.{saturating_add}
use crypto_rs_backtester.Types.{Order, Side, Reason}

pub record RiskGuard : Type 0 where
  pub max_open_orders : ℕ
  pub max_position : ℤ
  pub max_loss : ℤ
  pub killed : Bool
  pub running_pnl : ℤ

unfoldable pub new : ℕ → ℤ → ℤ → RiskGuard
new max_open_orders max_position max_loss = record {
  max_open_orders = max_open_orders;
  max_position = max_position;
  max_loss = max_loss;
  killed = false;
  running_pnl = pos 0;
}

-- The change of the position by the whole order, on i128.
abbrev pub order_delta : Order → ℤ
order_delta order = elim order.side [
  | Side.buy ↦ order.qty
  | Side.sell ↦ neg order.qty
  | Side.none ↦ pos 0
]

unfoldable pub check_order : Order → ℕ → ℤ → RiskGuard → Option Reason
check_order order open_order_count current_position_qty g =
    if g.killed
    then some Reason.kill_switch_active
    else if ltb 0 g.max_open_orders && leb g.max_open_orders open_order_count
    then some Reason.max_open_orders_exceeded
    else if ltb_ℤ (pos 0) g.max_position
    then (let proposed = current_position_qty +ℤ order_delta order in
        if ltb (pos_part g.max_position) (abs proposed)
        then some Reason.max_position_exceeded
        else none)
    else none

unfoldable pub update_pnl : ℤ → RiskGuard → RiskGuard
update_pnl delta g =
    let running = saturating_add g.running_pnl delta in
    record g {
      running_pnl = running;
      killed =
          if not g.killed && ltb_ℤ g.max_loss (pos 0) && leb_ℤ running g.max_loss
          then true
          else g.killed;
    }

abbrev pub is_killed : RiskGuard → Bool
is_killed g = g.killed
