-- ===== src/Tests/Events.antt =====
-- Concrete runs of the event queue and the engine.
use mathlib.Core.List.{Mem, mem-cons, not-mem-nil}
use mathlib.Core.List.Perm
use mathlib.Core.Logic.Or
use crypto_rs_backtester.Prelude.{
  ℕ, ◌≤◌, ◌<◌, ◌≡◌, ◌≢◌, ◌⊎◌, refl, sym, ap, ◌∙◌, true, false, Result, Option, none, some, List, [],
  ◌∷◌, arith, All, length,
}
use crypto_rs_backtester.Prelude.Int.{ℤ, pos, ◌*ℤ◌, div_trunc}
use crypto_rs_backtester.Prelude.I64.{wrap_i64, wrap_i128}
use crypto_rs_backtester.Event.{Event, EventKind}
use crypto_rs_backtester.Collections.BinaryHeap
use crypto_rs_backtester.EventQueue
use crypto_rs_backtester.EventQueue.{push_all, pop_n, pop}
use crypto_rs_backtester.EventQueue.Order.{Distinct, pop_n-push_all}
use crypto_rs_backtester.Prelude.Keys.{nat_eq}
use crypto_rs_backtester.Engine
use crypto_rs_backtester.Engine.{Engine, EngineError, compute_fee, push_event, add_tick_source}
use crypto_rs_backtester.Engine.Step.{stats, pop_and_process, step}
use crypto_rs_backtester.Engine.Step.Termination.{to_come, step-ends}
use crypto_rs_backtester.Sources.{add_source}
use crypto_rs_backtester.Sources.Ticks.{tick_rows, arrow_tick_source}
use crypto_rs_backtester.Sources.Updates.{l3_rows}
use crypto_rs_backtester.Sources.Stream.Ends.{source-Finite}
use crypto_rs_backtester.Tests.Streams.{tables, items, three_rows}
use crypto_rs_backtester.Engine.Step.Reach.{
  Reach, at_start, stepped, with_tick_source, with_event, Reach-killed, stats-running_pnl,
}
use crypto_rs_backtester.Engine.Step.Buffers.{IsAwaited, OnPopped, pop_and_process-IsAwaited}
use crypto_rs_backtester.Stats.Summary.{StatsBackend}
use crypto_rs_backtester.Stats.Log.{is_off}
use crypto_rs_backtester.Tests.Session.{env, engine, batch_config, one_order}
use crypto_rs_backtester.Strategy.{Command}
use crypto_rs_backtester.Engine.Commands.{handle_commands}
use crypto_rs_backtester.Engine.Limits.{NotOrder, handle_commands_limit, handle_commands-killed}
use crypto_rs_backtester.Tests.{buy_order, sell_order, sell_trade}

abbrev timer_at : ℤ → ℕ → Event
timer_at ts seq = record { id = record { ts_sim = ts; seq = seq }; kind = EventKind.timer seq }

abbrev two_events : List Event
two_events = timer_at (pos 9) 0 ∷ timer_at (pos 4) 1 ∷ []

abbrev swapped : List Event
swapped = timer_at (pos 4) 1 ∷ timer_at (pos 9) 0 ∷ []

Event-set : IsSet Event
Event-set = hlevel

differ : (a b x y : Event) → a ≡ x → b ≡ y → a.id ≡ b.id → x.id.seq ≢ y.id.seq → a ≡ b
differ a b x y p q e ne =
    absurd (ne (sym (ap (λ v. v.id.seq) p) ∙ ap (λ i. i.seq) e ∙ ap (λ v. v.id.seq) q))

-- An event of the two is one or the other.
either :
    {C : Type 0} (a : Event)
    → IsProp C
    → Mem a two_events
    → (a ≡ timer_at (pos 9) 0 → C)
    → (a ≡ timer_at (pos 4) 1 → C)
    → C
either a c m f g =
    Or.elim c (mem-cons.0 m) f (λ n. Or.elim c (mem-cons.0 n) g (λ k. absurd (not-mem-nil k)))

two_events-Distinct : Distinct two_events
two_events-Distinct a b ma mb e =
    let goal = Event-set a b in
    either a goal ma
      (λ p. either b goal mb (λ q. p ∙ sym q) (λ q. differ a b _ _ p q e (λ n. omega arith)))
      (λ p. either b goal mb (λ q. differ a b _ _ p q e (λ n. omega arith)) (λ q. p ∙ sym q))

pop_n-push_all_example :
    pop_n 2 (push_all two_events EventQueue.new) ≡ pop_n 2 (push_all swapped EventQueue.new)
pop_n-push_all_example =
    pop_n-push_all 2 two_events swapped two_events-Distinct
      (Perm.swap (timer_at (pos 4) 1) (timer_at (pos 9) 0) [])

handle_commands_limit_example :
    length
      (handle_commands
        (Command.submit_order buy_order ∷ Command.submit_order sell_order ∷ [])
        (pos 5)
        (engine false)).order_symbol_by_id
    ≤ 1
unfolding Engine.new
handle_commands_limit_example =
    handle_commands_limit (Command.submit_order buy_order ∷ Command.submit_order sell_order ∷ [])
      (pos 5) (engine false) 1 refl (omega arith) (omega arith)

handle_commands-killed_example :
    let e' =
      handle_commands
        (Command.submit_order buy_order ∷ Command.cancel_order 1 ∷ [])
        (pos 5)
        (engine true) in
    (e'.order_symbol_by_id ≡ (engine true).order_symbol_by_id) × All NotOrder e'.queue.heap
unfolding Engine.new
handle_commands-killed_example =
    handle_commands-killed (Command.submit_order buy_order ∷ Command.cancel_order 1 ∷ []) (pos 5)
      (engine true) refl tt

small_fee : compute_fee (pos 10000000000) (pos 300000000) (pos 5) ≡ pos 15000000
unfolding compute_fee ◌*ℤ◌ div_trunc wrap_i64 wrap_i128
small_fee = refl

-- An engine with a source of ticks that has one tick ready and three rows to read.
abbrev first_tick : (arrow_tick_source tables).State
first_tick = record {
  symbol_id = 1;
  reader = items;
  current_batch = none;
  batch_idx = 0;
  next_element = some (sell_trade (pos 100000000));
}

abbrev fed : Engine env
fed = add_tick_source first_tick (Engine.new 0 one_order)

four_to_come : to_come (source-Finite (tick_rows tables)) (source-Finite (l3_rows tables)) fed < 5
unfolding add_tick_source add_source Engine.new
four_to_come = omega (arith, three_rows)

step-ends_example :
    (r : Result (Option Event) (EngineError env) × Engine env) × (step 5 (pos 1) fed ≡ some r)
step-ends_example =
    step-ends (source-Finite (tick_rows tables)) (source-Finite (l3_rows tables)) 5 (pos 1) fed
      four_to_come

-- The engine after that step.
abbrev session : Engine env
session =
    (step-ends (source-Finite (tick_rows tables)) (source-Finite (l3_rows tables)) 5 (pos 1) fed
      four_to_come).0.1

session-Reach : Reach (Engine.new 0 one_order) session
session-Reach =
    let ended =
      step-ends (source-Finite (tick_rows tables)) (source-Finite (l3_rows tables)) 5 (pos 1) fed
        four_to_come in
    stepped 5 (pos 1) ended.0.0 fed session ended.1 (with_tick_source first_tick _ at_start)

abbrev no_backend : StatsBackend env.floats
no_backend = record { sharpe = λ xs. pos 0; sortino = λ xs. pos 0 }

stats-running_pnl_example :
    (is_off session.trade_log.mode ≡ true)
    ⊎ (session.risk_guard.running_pnl ≡ (stats no_backend session).total_pnl)
stats-running_pnl_example = stats-running_pnl 0 one_order no_backend session session-Reach

killed-Reach :
    Reach
      (engine true)
      (push_event (pos 12) (EventKind.tick_delivery (sell_trade (pos 100000000))) (engine true))
killed-Reach =
    with_event (pos 12) (EventKind.tick_delivery (sell_trade (pos 100000000))) (engine true)
      at_start

Reach-killed_example :
    let e' =
      push_event (pos 12) (EventKind.tick_delivery (sell_trade (pos 100000000))) (engine true) in
    (e'.risk_guard.killed ≡ true) × ((stats no_backend e').killed ≡ true)
Reach-killed_example = Reach-killed no_backend (engine true) _ refl killed-Reach

abbrev batched : Engine env
batched = Engine.new 0 batch_config

abbrev delivery : EventKind
delivery = EventKind.tick_delivery (sell_trade (pos 100000000))

delivered-IsAwaited : IsAwaited (push_event (pos 12) delivery batched)
unfolding Engine.new push_event EventQueue.push BinaryHeap.push
delivered-IsAwaited = (refl, refl, refl, refl)

pop_and_process-IsAwaited_example :
    OnPopped IsAwaited (pop_and_process (pos 1) (push_event (pos 12) delivery batched))
pop_and_process-IsAwaited_example =
    pop_and_process-IsAwaited (pos 1) (push_event (pos 12) delivery batched) delivered-IsAwaited
