-- ===== src/Engine/Commands.antt =====
-- backtester-core/src/engine.rs: what the engine does with the commands of a strategy, and the risk
-- check that a submission passes or fails.
use crypto_rs_backtester.Prelude.{Option, none, some, List, [], ◌∷◌, length}
use crypto_rs_backtester.Prelude.Int.{ℤ, pos}
use crypto_rs_backtester.Prelude.I64.{next_u64, saturating_add}
use crypto_rs_backtester.Prelude.Keys.{nat_eq}
use crypto_rs_backtester.Collections.Map.{insert}
use crypto_rs_backtester.Types.{Order, OrderReport, OrderState, Reason}
use crypto_rs_backtester.Event.{EventKind}
use crypto_rs_backtester.Strategy.{Command}
use crypto_rs_backtester.Account.{position_qty}
use crypto_rs_backtester.RiskGuard.{check_order}
use crypto_rs_backtester.Engine.{Env, Engine, push_event}

-- The report on an order that fails the risk check.
abbrev pub rejection : Order → Reason → OrderReport
rejection order reason = record {
  order_id = order.order_id;
  client_order_id = order.client_order_id;
  last_fill_qty = pos 0;
  last_fill_price = pos 0;
  filled_qty = pos 0;
  remaining_qty = order.qty;
  reason = some reason;
  symbol_id = order.symbol_id;
  status = OrderState.rejected;
}

module _ {E : Env} where
  -- The order as the engine stamps it.
  abbrev pub stamped : Order → ℤ → Engine E → Order
  stamped order ts_local e = record order { ts_submit = ts_local; order_id = e.next_order_id }

  -- The verdict of the risk guard on a stamped order.
  abbrev pub verdict : Order → Engine E → Option Reason
  verdict order e =
      check_order order (length e.order_symbol_by_id) (position_qty order.symbol_id e.account)
        e.risk_guard

  unfoldable pub handle_submit : Order → ℤ → Engine E → Engine E
  unfolding push_event
  handle_submit order ts_local e =
      let o = stamped order ts_local e in
      let counted = record e { next_order_id = next_u64 e.next_order_id } in
      elim (verdict o e) [
        | some reason ↦
            push_event (saturating_add ts_local e.config.order_update_latency_ns)
              (EventKind.order_report (rejection o reason)) counted
        | none ↦ push_event ts_local (EventKind.order o) (record counted {
          order_symbol_by_id = insert o.order_id o.symbol_id e.order_symbol_by_id;
        })
      ]

  unfoldable pub handle_commands : List Command → ℤ → Engine E → Engine E
  unfolding handle_submit push_event
  handle_commands [] ts_local e = e
  handle_commands (Command.submit_order order ∷ cs) ts_local e =
      handle_commands cs ts_local (handle_submit order ts_local e)
  handle_commands (Command.cancel_order id ∷ cs) ts_local e =
      handle_commands cs ts_local (push_event ts_local (EventKind.order_cancel id) e)
