-- ===== src/Engine/Step/Booking.antt =====
-- backtester-core/src/engine.rs: what fills and PnL keep of the risk guard and
-- the log, the engine keeps.
use crypto_rs_backtester.Prelude.{
  ℕ, ◌≡◌, ◌⊎◌, refl, inl, inr, Bool, ◌&&◌, ◌+◌, length, List, [], ◌∷◌, Option-cases, Bool-cases,
  Result-cases, arith,
}
use crypto_rs_backtester.Prelude.Int.{ℤ}
use crypto_rs_backtester.Prelude.Keys.{nat_eq}
use crypto_rs_backtester.Types.{Tick, Order, OrderReport, FundingEvent, L2Update, L3Update}
use crypto_rs_backtester.Event.{Event, EventKind}
use crypto_rs_backtester.EventQueue
use crypto_rs_backtester.Account
use crypto_rs_backtester.Strategy.{Command, deliver}
use crypto_rs_backtester.Strategy.Requests
use crypto_rs_backtester.Engine.{Env, Engine, EngineMode, push_event, mark_l2_depth, mark_l3_depth}
use crypto_rs_backtester.Engine.Commands.{handle_commands, handle_submit, verdict, stamped}
use crypto_rs_backtester.Engine.Handlers.{
  on_order, on_order_cancel, on_order_cancel_ack, on_l2_update, on_l3_update, push_after_latency,
}
use crypto_rs_backtester.Engine.Books.{BookLaws}
use crypto_rs_backtester.Engine.Booking.{IsBooked, on_tick-IsBooked, on_order_ack-IsBooked}
use crypto_rs_backtester.Engine.Delivery.{
  Call, call_strategy, buffer_tick, on_tick_delivery, forget_order, on_order_report, funding_price,
  book_funding, settle_funding, on_funding, on_timer, flush_strategy, tune, flush_ticks,
  flush_reports, is_empty,
}
use crypto_rs_backtester.Engine.Ingest.{
  initialize_sources, take_l3, take_tick, take_next, next_l3, next_tick, schedule_l3, schedule_tick,
  ingest_once,
}
use crypto_rs_backtester.Engine.Step.{
  returned, wakeup, handle_event, wake, process, pop_and_process, final_flush,
}

pub EngineMode-cases : (m : EngineMode) → (m ≡ EngineMode.tick) ⊎ (m ≡ EngineMode.batch)
EngineMode-cases EngineMode.tick = inl refl
EngineMode-cases EngineMode.batch = inr refl

module _ {E : Env} (I : BookLaws E.floats) where
  handle_submit-IsBooked :
      (o : Order) (ts : ℤ) (e : Engine E) → IsBooked I e → IsBooked I (handle_submit o ts e)
  unfolding handle_submit push_event
  handle_submit-IsBooked o ts e h = elim (Option-cases (verdict (stamped o ts e) e)) [
    | inl n ↦ rw (n, handle_submit) h
    | inr (r, n) ↦ rw (n, handle_submit) h
  ]

  handle_commands-IsBooked :
      (cs : List Command) (ts : ℤ) (e : Engine E)
      → IsBooked I e
      → IsBooked I (handle_commands cs ts e)
  unfolding handle_commands push_event
  handle_commands-IsBooked [] ts e h = h
  handle_commands-IsBooked (Command.submit_order o ∷ cs) ts e h =
      handle_commands-IsBooked cs ts (handle_submit o ts e) (handle_submit-IsBooked o ts e h)
  handle_commands-IsBooked (Command.cancel_order id ∷ cs) ts e h =
      handle_commands-IsBooked cs ts (push_event ts (EventKind.order_cancel id) e) h

  call_strategy-IsBooked :
      (call : Call E) (ts : ℤ) (e : Engine E)
      → IsBooked I e
      → IsBooked I (call_strategy call ts e).1
  unfolding call_strategy
  call_strategy-IsBooked call ts e h =
      let called = call (Requests.new ts e.market) e.strategy in
      elim (Result-cases called.0) [
        | inl (u, n) ↦
            rw (n, call_strategy)
              (handle_commands-IsBooked called.1.0.commands ts (record e { strategy = called.1.1 })
                h)
        | inr (x, n) ↦ rw (n, call_strategy) h
      ]

  on_order-IsBooked : (o : Order) (e : Engine E) → IsBooked I e → IsBooked I (on_order o e)
  unfolding on_order push_after_latency push_event
  on_order-IsBooked o e h = h

  on_order_cancel-IsBooked :
      (id : ℕ) (e : Engine E) → IsBooked I e → IsBooked I (on_order_cancel id e)
  unfolding on_order_cancel push_after_latency push_event
  on_order_cancel-IsBooked id e h = ground (arith, h)

  on_order_cancel_ack-IsBooked :
      (id : ℕ) (e : Engine E) → IsBooked I e → IsBooked I (on_order_cancel_ack id e)
  unfolding on_order_cancel_ack push_event
  on_order_cancel_ack-IsBooked id e h = ground (arith, h)

  on_l2_update-IsBooked :
      (u : L2Update) (e : Engine E) → IsBooked I e → IsBooked I (on_l2_update u e).1
  unfolding on_l2_update mark_l2_depth
  on_l2_update-IsBooked u e h = ground (arith, h)

  on_l3_update-IsBooked :
      (u : L3Update) (e : Engine E) → IsBooked I e → IsBooked I (on_l3_update u e).1
  unfolding on_l3_update mark_l3_depth
  on_l3_update-IsBooked u e h = ground (arith, h)

  on_timer-IsBooked : (id : ℕ) (e : Engine E) → IsBooked I e → IsBooked I (on_timer id e).1
  unfolding on_timer
  on_timer-IsBooked id e h = ground (arith, h)

  buffer_tick-IsBooked : (t : Tick) (e : Engine E) → IsBooked I e → IsBooked I (buffer_tick t e)
  unfolding buffer_tick push_event
  buffer_tick-IsBooked t e h = ground (arith, h)

  forget_order-IsBooked :
      (r : OrderReport) (e : Engine E) → IsBooked I e → IsBooked I (forget_order r e)
  unfolding forget_order
  forget_order-IsBooked r e h = ground (arith, h)

  tune-IsBooked : (t : ℤ) (n : ℕ) (e : Engine E) → IsBooked I e → IsBooked I (tune t n e)
  unfolding tune
  tune-IsBooked t n e h = ground (arith, h)

  on_tick_delivery-IsBooked :
      (t : Tick) (e : Engine E) → IsBooked I e → IsBooked I (on_tick_delivery t e).1
  unfolding on_tick_delivery
  on_tick_delivery-IsBooked t e h =
      let seen = record e { market = deliver t e.market } in
      elim (EngineMode-cases e.config.mode) [
        | inl m ↦
            rw (m, on_tick_delivery)
              (call_strategy-IsBooked (E.strategy.on_tick t) t.ts_local seen h)
        | inr m ↦ rw (m, on_tick_delivery) (buffer_tick-IsBooked t seen h)
      ]

  on_order_report-IsBooked :
      (r : OrderReport) (e : Engine E) → IsBooked I e → IsBooked I (on_order_report r e).1
  unfolding on_order_report
  on_order_report-IsBooked r e h =
      let forgotten = forget_order-IsBooked r e h in
      let call = E.strategy.on_order_update r in
      let called = call_strategy-IsBooked call e.now_ts_sim (forget_order r e) forgotten in
      elim (EngineMode-cases e.config.mode) [
        | inl m ↦ elim (Result-cases (call_strategy call e.now_ts_sim (forget_order r e)).0) [
          | inl (u, n) ↦ rw (m, n, on_order_report) called
          | inr (x, n) ↦ rw (m, n, on_order_report) called
        ]
        | inr m ↦ rw (m, on_order_report) forgotten
      ]

  settle_funding-IsBooked :
      (f : FundingEvent) (e : Engine E) → IsBooked I e → IsBooked I (settle_funding f e)
  unfolding settle_funding book_funding
  settle_funding-IsBooked f e h = elim (Option-cases (funding_price f.symbol_id e)) [
    | inl n ↦ rw (n, settle_funding) h
    | inr (price, n) ↦
        rw (n, settle_funding)
          (I.keeps_event
            (record {
              ts_exchange = f.ts_exchange;
              pnl = (Account.apply_funding f price e.account).0;
            })
            e.risk_guard e.trade_log h)
  ]

  on_funding-IsBooked :
      (f : FundingEvent) (e : Engine E) → IsBooked I e → IsBooked I (on_funding f e).1
  unfolding on_funding
  on_funding-IsBooked f e h =
      let called =
        call_strategy-IsBooked (E.strategy.on_funding f) e.now_ts_sim (settle_funding f e)
          (settle_funding-IsBooked f e h) in
      ground (arith, called)

  flush_strategy-IsBooked :
      (elapsed ts : ℤ) (e : Engine E) → IsBooked I e → IsBooked I (flush_strategy elapsed ts e).1
  unfolding flush_strategy
  flush_strategy-IsBooked elapsed ts e h =
      let ticks = flush_ticks E e.tick_buffer (Requests.new ts e.market) e.strategy in
      let reports = flush_reports E e.report_buffer ticks.1.0 ticks.1.1 in
      elim (Bool-cases (is_empty e.tick_buffer && is_empty e.report_buffer)) [
        | inl none_left ↦ rw (none_left, flush_strategy) h
        | inr some_left ↦ elim (Result-cases ticks.0) [
          | inr (x, n) ↦ rw (some_left, n, flush_strategy) h
          | inl (u, n) ↦ elim (Result-cases reports.0) [
            | inr (x, n') ↦ rw (some_left, n, n', flush_strategy) h
            | inl (u', n') ↦
                rw (some_left, n, n', flush_strategy)
                  (tune-IsBooked elapsed (length e.tick_buffer + length e.report_buffer) _
                    (handle_commands-IsBooked reports.1.0.commands ts _ h))
          ]
        ]
      ]

  wake-IsBooked :
      (elapsed : ℤ) (flag : Bool) (e : Engine E) → IsBooked I e → IsBooked I (wake elapsed flag e).1
  unfolding wake
  wake-IsBooked elapsed flag e h =
      ground (arith, h, flush_strategy-IsBooked elapsed e.now_ts_sim e h)

  handle_event-IsBooked :
      (k : EventKind) (e : Engine E) → IsBooked I e → IsBooked I (handle_event k e).1
  unfolding handle_event
  handle_event-IsBooked (EventKind.tick t) e h = on_tick-IsBooked I t e h
  handle_event-IsBooked (EventKind.tick_delivery t) e h =
      ground (arith, on_tick_delivery-IsBooked t e h)
  handle_event-IsBooked (EventKind.l2_update u) e h = ground (arith, on_l2_update-IsBooked u e h)
  handle_event-IsBooked (EventKind.l3_update u) e h = ground (arith, on_l3_update-IsBooked u e h)
  handle_event-IsBooked (EventKind.order o) e h = on_order-IsBooked o e h
  handle_event-IsBooked (EventKind.order_ack id) e h =
      ground (arith, on_order_ack-IsBooked I id e h)
  handle_event-IsBooked (EventKind.order_cancel id) e h =
      ground (arith, on_order_cancel-IsBooked id e h)
  handle_event-IsBooked (EventKind.order_cancel_ack id) e h = on_order_cancel_ack-IsBooked id e h
  handle_event-IsBooked (EventKind.order_report r) e h =
      ground (arith, on_order_report-IsBooked r e h)
  handle_event-IsBooked (EventKind.funding f) e h = ground (arith, on_funding-IsBooked f e h)
  handle_event-IsBooked (EventKind.timer id) e h = on_timer-IsBooked id e h

  process-IsBooked :
      (elapsed : ℤ) (ev : Event) (e : Engine E) → IsBooked I e → IsBooked I (process elapsed ev e).1
  unfolding process
  process-IsBooked elapsed ev e h =
      let now = record e { now_ts_sim = ev.id.ts_sim } in
      let handled = handle_event-IsBooked ev.kind now h in
      let e' = (handle_event ev.kind now).1 in
      elim (Result-cases (handle_event ev.kind now).0) [
        | inr (x, n) ↦ rw (n, process) handled
        | inl (returned, n) ↦ rw (n, process) handled
        | inl (wakeup flag, n) ↦ rw (n, process) (wake-IsBooked elapsed flag e' handled)
      ]

  pub pop_and_process-IsBooked :
      (elapsed : ℤ) (e : Engine E) → IsBooked I e → IsBooked I (pop_and_process elapsed e).1
  unfolding pop_and_process
  pop_and_process-IsBooked elapsed e h = elim (Option-cases (EventQueue.pop e.queue)) [
    | inl n ↦ rw (n, pop_and_process) h
    | inr ((ev, queue), n) ↦
        let popped = record e { queue = queue } in
        let processed = process-IsBooked elapsed ev popped h in
        elim (Result-cases (process elapsed ev popped).0) [
          | inl (u, m) ↦ rw (n, m, pop_and_process) processed
          | inr (x, m) ↦ rw (n, m, pop_and_process) processed
        ]
  ]

  take_l3-IsBooked : (idx : ℕ) (e : Engine E) → IsBooked I e → IsBooked I (take_l3 idx e).1
  unfolding take_l3 schedule_l3 push_event
  take_l3-IsBooked idx e h = ground (arith, h)

  take_tick-IsBooked : (idx : ℕ) (e : Engine E) → IsBooked I e → IsBooked I (take_tick idx e).1
  unfolding take_tick schedule_tick push_event
  take_tick-IsBooked idx e h = ground (arith, h)

  initialize_sources-IsBooked : (e : Engine E) → IsBooked I e → IsBooked I (initialize_sources e).1
  unfolding initialize_sources
  initialize_sources-IsBooked e h = ground (arith, h)

  take_next-IsBooked : (e : Engine E) → IsBooked I e → IsBooked I (take_next e).1
  unfolding take_next
  take_next-IsBooked e h = elim (Option-cases (next_l3 e)) [
    | inr (pe, n) ↦ rw (n, take_next) (take_l3-IsBooked pe.source_idx e h)
    | inl n ↦ elim (Option-cases (next_tick e)) [
      | inr (pe, m) ↦ rw (n, m, take_next) (take_tick-IsBooked pe.source_idx e h)
      | inl m ↦ rw (n, m, take_next) h
    ]
  ]

  pub ingest_once-IsBooked : (e : Engine E) → IsBooked I e → IsBooked I (ingest_once e).1
  unfolding ingest_once
  ingest_once-IsBooked e h =
      let ready = initialize_sources-IsBooked e h in
      elim (Result-cases (initialize_sources e).0) [
        | inr (x, n) ↦ rw (n, ingest_once) ready
        | inl (turn, n) ↦ rw (n, ingest_once) (take_next-IsBooked (initialize_sources e).1 ready)
      ]

  pub final_flush-IsBooked :
      (elapsed : ℤ) (e : Engine E) → IsBooked I e → IsBooked I (final_flush elapsed e).1
  unfolding final_flush
  final_flush-IsBooked elapsed e h =
      let flushed = flush_strategy-IsBooked elapsed e.now_ts_sim e h in ground (arith, h, flushed)
