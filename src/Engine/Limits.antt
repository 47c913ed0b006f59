-- ===== src/Engine/Limits.antt =====
-- backtester-core/src/engine.rs: what the risk guard keeps over the commands of a strategy.
use crypto_rs_backtester.Prelude.{
  ℕ, suc, ◌≡◌, ◌≢◌, refl, ap, ◌∙◌, ◌≤◌, ◌<◌, inl, inr, true, some, List, [], ◌∷◌, arith,
  Option-cases, Bool-cases, length, All,
}
use crypto_rs_backtester.Prelude.Int.{ℤ}
use crypto_rs_backtester.Prelude.Keys.{nat_eq, ◌==◌}
use crypto_rs_backtester.Collections.Map.{Map, insert}
use crypto_rs_backtester.Types.{Order, Reason}
use crypto_rs_backtester.Event.{Event, EventKind}
use crypto_rs_backtester.EventQueue
use crypto_rs_backtester.Strategy.{Command}
use crypto_rs_backtester.Account.{position_qty}
use crypto_rs_backtester.RiskGuard.{check_order}
use crypto_rs_backtester.RiskGuard.Limits.{check_order-passes_iff}
use crypto_rs_backtester.Engine.{Env, Engine, push_event}
use crypto_rs_backtester.Engine.Commands.{handle_submit, handle_commands, verdict, stamped}

length-insert : {V : Type 0} (k : ℕ) (v : V) (m : Map ℕ V) → length (insert k v m) ≤ suc (length m)
unfolding insert
length-insert k v [] = omega arith
length-insert k v ((j, w) ∷ m) = elim (Bool-cases (j == k)) [
  | inl e ↦ rw (e, insert) (omega arith)
  | inr e ↦ rw (e, insert) (omega (arith, length-insert k v m))
]

-- The event does not submit an order.
abbrev pub NotOrder : Event → Type 0
NotOrder ev = (o : Order) → ev.kind ≢ EventKind.order o

module _ {E : Env} where
  handle_submit_limit :
      (order : Order) (ts : ℤ) (e : Engine E) (m : ℕ)
      → e.risk_guard.max_open_orders ≡ m
      → 0 < m
      → length e.order_symbol_by_id ≤ m
      → let e' = handle_submit order ts e in
        (length e'.order_symbol_by_id ≤ m) × (e'.risk_guard ≡ e.risk_guard)
  unfolding handle_submit push_event
  handle_submit_limit order ts e m same n le =
      let o = stamped order ts e in
      elim (Option-cases (verdict o e)) [
        | inr (r, h) ↦ rw (h, handle_submit) (le, refl)
        | inl h ↦
            let passed =
              (check_order-passes_iff o (length e.order_symbol_by_id)
                  (position_qty o.symbol_id e.account) e.risk_guard).0
                h in
            let grown = length-insert o.order_id o.symbol_id e.order_symbol_by_id in
            rw (h, handle_submit) (ground (arith, passed.1, grown), refl)
      ]

  -- With a positive limit on open orders, and a count of routed orders within it, the commands of a
  -- strategy do not take the count of the orders that the engine routes above the limit.
  pub handle_commands_limit :
      (cs : List Command) (ts : ℤ) (e : Engine E) (m : ℕ)
      → e.risk_guard.max_open_orders ≡ m
      → 0 < m
      → length e.order_symbol_by_id ≤ m
      → length (handle_commands cs ts e).order_symbol_by_id ≤ m
  unfolding handle_commands push_event
  handle_commands_limit [] ts e m same n le = le
  handle_commands_limit (Command.submit_order order ∷ cs) ts e m same n le =
      let step = handle_submit_limit order ts e m same n le in
      handle_commands_limit cs ts (handle_submit order ts e) m
        (ap (λ g. g.max_open_orders) step.1 ∙ same) n step.0
  handle_commands_limit (Command.cancel_order id ∷ cs) ts e m same n le =
      handle_commands_limit cs ts (push_event ts (EventKind.order_cancel id) e) m same n le

  handle_submit-killed :
      (order : Order) (ts : ℤ) (e : Engine E)
      → e.risk_guard.killed ≡ true
      → All NotOrder e.queue.heap
      → let e' = handle_submit order ts e in
        (e'.order_symbol_by_id ≡ e.order_symbol_by_id)
        × All NotOrder e'.queue.heap
        × (e'.risk_guard ≡ e.risk_guard)
  unfolding handle_submit push_event EventQueue.push check_order
  handle_submit-killed order ts e k h =
      let o = stamped order ts e in
      let rejected : verdict o e ≡ some Reason.kill_switch_active = ground (arith, k) in
      rw (rejected, handle_submit) (refl, ((λ o x. cc), h), refl)

  -- Once the kill switch is on, the commands of a strategy route no order and submit none to an
  -- exchange: if no submission is in the queue, none is in it afterwards.
  pub handle_commands-killed :
      (cs : List Command) (ts : ℤ) (e : Engine E)
      → e.risk_guard.killed ≡ true
      → All NotOrder e.queue.heap
      → let e' = handle_commands cs ts e in
        (e'.order_symbol_by_id ≡ e.order_symbol_by_id) × All NotOrder e'.queue.heap
  unfolding handle_commands push_event EventQueue.push
  handle_commands-killed [] ts e k h = (refl, h)
  handle_commands-killed (Command.submit_order order ∷ cs) ts e k h =
      let step = handle_submit-killed order ts e k h in
      let rest =
        handle_commands-killed cs ts (handle_submit order ts e) (ap (λ g. g.killed) step.2 ∙ k)
          step.1 in
      (rest.0 ∙ step.0, rest.1)
  handle_commands-killed (Command.cancel_order id ∷ cs) ts e k h =
      handle_commands-killed cs ts (push_event ts (EventKind.order_cancel id) e) k ((λ o x. cc), h)
