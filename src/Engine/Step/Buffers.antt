-- ===== src/Engine/Step/Buffers.antt =====
-- backtester-core/src/engine.rs: what awaits that which the batch mode keeps back.
use crypto_rs_backtester.Prelude.{
  ℕ, ◌≡◌, refl, sym, ap, ◌∙◌, subst, inl, inr, Bool, true, false, not, ◌&&◌, ◌||◌, ◌+◌, ◌++◌,
  length, Option, none, some, List, [], ◌∷◌, Option-cases, Bool-cases, Result, ok, err,
  Result-cases, arith,
}
use crypto_rs_backtester.Prelude.Int.{ℤ, pos, leb_ℤ}
use crypto_rs_backtester.Prelude.Keys.{nat_eq}
use crypto_rs_backtester.Collections.Map.{get}
use crypto_rs_backtester.Types.{Tick, OrderReport, FundingEvent}
use crypto_rs_backtester.Event.{EventId, Event, EventKind}
use crypto_rs_backtester.Collections.BinaryHeap
use crypto_rs_backtester.EventQueue
use crypto_rs_backtester.Strategy.{deliver}
use crypto_rs_backtester.Strategy.Requests
use crypto_rs_backtester.Engine.{Env, Engine, EngineConfig, EngineMode, EngineError, push_event}
use crypto_rs_backtester.Engine.Handlers.{
  on_tick, on_order, on_order_ack, on_order_cancel, on_order_cancel_ack, on_l2_update, on_l3_update,
}
use crypto_rs_backtester.Engine.Commands.{handle_commands}
use crypto_rs_backtester.Engine.Delivery.{
  call_strategy, buffer_tick, on_tick_delivery, forget_order, on_order_report, settle_funding,
  on_funding, on_timer, flush_strategy, tune, flush_ticks, flush_reports, is_empty, is_batch,
}
use crypto_rs_backtester.Engine.Step.{
  Handled, quiet, waking, if_routed, returned, wakeup, handle_event, wake, process, pop_and_process,
  same_time_next,
}
use crypto_rs_backtester.Engine.Step.Booking.{EngineMode-cases}
use crypto_rs_backtester.Engine.Step.Timers.{
  scheduled, pop-scheduled, Has, on_tick-Has, on_order_ack-Has, on_order-Has, on_order_cancel-Has,
  on_order_cancel_ack-Has, on_l2_update-Has, on_l3_update-Has, forget_order-Has, settle_funding-Has,
  call_strategy-Has,
}
use crypto_rs_backtester.Engine.Step.Batch.{
  batch_of, on_tick-batch, on_order_ack-batch, on_order-batch, on_order_cancel-batch,
  on_order_cancel_ack-batch, on_l2_update-batch, on_l3_update-batch, forget_order-batch,
  settle_funding-batch, call_strategy-batch, handle_commands-batch,
}

abbrev is_set : Option ℕ → Bool
is_set none = false
is_set (some id) = true

-- The timer of the batch, if one is set, is in the queue, and only in batch mode.
abbrev timer_queued : EngineConfig → Option ℕ → List Event → Bool
timer_queued config none heap = true
timer_queued config (some id) heap = is_batch config.mode && scheduled id heap

abbrev TimerQueued : EngineConfig → Option ℕ → List Event → Type 0
TimerQueued config timer heap = timer_queued config timer heap ≡ true

-- The ticks are awaited by a timer or a wakeup, unless batches have no time limit; the reports are
-- awaited by a wakeup; and a timer that is set is in the queue. `flag` is the wakeup that an event
-- asks for, only in batch mode.
abbrev AwaitedIf :
    Bool → EngineConfig × (List Tick × (List OrderReport × (Option ℕ × Bool))) → List Event → Type 0
AwaitedIf flag (config, (ticks, (reports, (timer, pending)))) heap =
    ((is_empty ticks || (leb_ℤ config.max_batch_ns (pos 0) || (is_set timer || (pending || flag))))
      ≡ true)
    × ((is_empty reports || (pending || flag)) ≡ true)
    × ((not flag || is_batch config.mode) ≡ true)
    × TimerQueued config timer heap

TimerQueued-mono :
    (config : EngineConfig) (timer : Option ℕ) (heap heap' : List Event)
    → ((id : ℕ) → scheduled id heap ≡ true → scheduled id heap' ≡ true)
    → TimerQueued config timer heap
    → TimerQueued config timer heap'
TimerQueued-mono config none heap heap' grows h = refl
TimerQueued-mono config (some id) heap heap' grows h = elim (Bool-cases (scheduled id heap)) [
  | inl x ↦ ground (arith, h, grows id x)
  | inr x ↦ absurd (ground (arith, h, x))
]

module _ {E : Env} where
  abbrev pub IsAwaited : Engine E → Type 0
  IsAwaited e = AwaitedIf false (batch_of e) e.queue.heap

  -- The call fails, or the state that it leaves is so.
  abbrev pub OnOk : (Engine E → Type 0) → Result (Unit {0}) (EngineError E) × Engine E → Type 0
  OnOk P (ok done, e) = P e
  OnOk P (err x, e) = Unit {0}

  -- What a handler that succeeds leaves.
  abbrev Leaves : Result Handled (EngineError E) × Engine E → Type 0
  Leaves (err x, e) = Unit {0}
  Leaves (ok returned, e) = IsAwaited e
  Leaves (ok (wakeup flag), e) = AwaitedIf flag (batch_of e) e.queue.heap

  -- The timers that are in the queue before are in it afterwards.
  abbrev Grows : Engine E → Engine E → Type 0
  Grows e e' = (id : ℕ) → Has id e → Has id e'

  kept : (e e' : Engine E) → batch_of e' ≡ batch_of e → Grows e e' → IsAwaited e → IsAwaited e'
  kept e e' p grows (ticks, reports, flagged, timer) =
      subst (λ b. AwaitedIf false b e'.queue.heap) (sym p)
        (
          ticks,
          reports,
          flagged,
          TimerQueued-mono e.config e.active_batch_timer_id e.queue.heap e'.queue.heap grows timer,
        )

  -- The state before an event that is no timer was popped.
  popped :
      (ev : Event) (e : Engine E)
      → ((id : ℕ) → scheduled id (ev ∷ e.queue.heap) ≡ true → Has id e)
      → AwaitedIf false (batch_of e) (ev ∷ e.queue.heap)
      → IsAwaited e
  popped ev e no_timer (ticks, reports, flagged, timer) = (
    ticks,
    reports,
    flagged,
    TimerQueued-mono e.config e.active_batch_timer_id (ev ∷ e.queue.heap) e.queue.heap no_timer
        timer,
  )

  buffer_tick-IsAwaited :
      (t : Tick) (e : Engine E)
      → e.config.mode ≡ EngineMode.batch
      → IsAwaited e
      → IsAwaited (buffer_tick t e)
  unfolding buffer_tick push_event EventQueue.push BinaryHeap.push
  buffer_tick-IsAwaited t e m h = ground (arith, m, h)

  on_timer-IsAwaited :
      (at : EventId) (id : ℕ) (e : Engine E)
      → AwaitedIf false (batch_of e) (record { id = at; kind = EventKind.timer id } ∷ e.queue.heap)
      → AwaitedIf (on_timer id e).0 (batch_of (on_timer id e).1) (on_timer id e).1.queue.heap
  unfolding on_timer
  on_timer-IsAwaited at id e h = ground (arith, h)

  quiet-Leaves :
      (r : Result (Unit {0}) (EngineError E) × Engine E) → IsAwaited r.1 → Leaves (quiet r)
  quiet-Leaves (ok done, e) h = h
  quiet-Leaves (err x, e) h = tt

  if_routed-Leaves : (id : ℕ) (e e' : Engine E) → IsAwaited e' → Leaves (if_routed id e e')
  if_routed-Leaves id e e' h = elim (Option-cases (get id e.order_symbol_by_id)) [
    | inl n ↦ rw (n, Leaves, if_routed) h
    | inr (symbol, n) ↦ rw (n, Leaves, if_routed) h
  ]

  on_tick_delivery-IsAwaited :
      (t : Tick) (e : Engine E) → IsAwaited e → IsAwaited (on_tick_delivery t e).1
  unfolding on_tick_delivery
  on_tick_delivery-IsAwaited t e h =
      let seen = record e { market = deliver t e.market } in
      let call = E.strategy.on_tick t in
      elim (EngineMode-cases e.config.mode) [
        | inl m ↦
            let same : on_tick_delivery t e ≡ call_strategy call t.ts_local seen =
              simp (m, on_tick_delivery) in
            subst (λ r. IsAwaited r.1) (sym same)
              (kept e (call_strategy call t.ts_local seen).1
                (call_strategy-batch call t.ts_local seen)
                (λ id. call_strategy-Has id call t.ts_local seen) h)
        | inr m ↦
            let same : on_tick_delivery t e ≡ (ok tt, buffer_tick t seen) =
              simp (m, on_tick_delivery) in
            subst (λ r. IsAwaited r.1) (sym same) (buffer_tick-IsAwaited t seen m h)
      ]

  -- A call after which the wakeup is asked for in batch mode only.
  called-Leaves :
      (r : Result (Unit {0}) (EngineError E) × Engine E) (flag : Bool)
      → ((not flag || is_batch r.1.config.mode) ≡ true)
      → IsAwaited r.1
      → Leaves (waking (elim r.0 [ err x ↦ (err x, r.1) | ok done ↦ (ok flag, r.1) ]))
  called-Leaves (ok done, e) flag m h = ground (arith, m, h)
  called-Leaves (err x, e) flag m h = tt

  on_order_report-Leaves :
      (r : OrderReport) (e : Engine E) → IsAwaited e → Leaves (waking (on_order_report r e))
  unfolding on_order_report
  on_order_report-Leaves r e h =
      let call = E.strategy.on_order_update r in
      let e' = forget_order r e in
      let called = call_strategy call e.now_ts_sim e' in
      let buffered = record e' { report_buffer = e'.report_buffer ++ r ∷ [] } in
      let h' = kept e e' (forget_order-batch r e) (λ id. forget_order-Has id r e) h in
      let same_mode : e'.config.mode ≡ e.config.mode =
        ap (λ b. b.0.mode) (forget_order-batch r e) in
      elim (EngineMode-cases e.config.mode) [
        | inl m ↦
            let same : on_order_report r e
                ≡ elim called.0 [ err x ↦ (err x, called.1) | ok done ↦ (ok false, called.1) ] =
              simp (m, on_order_report) in
            subst (λ q. Leaves (waking q)) (sym same)
              (called-Leaves called false refl (
                kept e' called.1 (call_strategy-batch call e.now_ts_sim e')
                  (λ id. call_strategy-Has id call e.now_ts_sim e') h'))
        | inr m ↦
            let same : on_order_report r e ≡ (ok true, buffered) = simp (m, on_order_report) in
            subst (λ q. Leaves (waking q)) (sym same) (ground (arith, h', same_mode, m))
      ]

  on_funding-Leaves :
      (f : FundingEvent) (e : Engine E) → IsAwaited e → Leaves (waking (on_funding f e))
  unfolding on_funding
  on_funding-Leaves f e h =
      let call = E.strategy.on_funding f in
      let e' = settle_funding f e in
      let called = call_strategy call e.now_ts_sim e' in
      let same_batch = call_strategy-batch call e.now_ts_sim e' ∙ settle_funding-batch f e in
      let same_mode : called.1.config.mode ≡ e.config.mode = ap (λ b. b.0.mode) same_batch in
      let grows : Grows e called.1 =
        λ id x. call_strategy-Has id call e.now_ts_sim e' (settle_funding-Has id f e x) in
      let h' = kept e called.1 same_batch grows h in
      let flagged : (not (is_batch e.config.mode) || is_batch called.1.config.mode) ≡ true =
        ground (arith, same_mode) in
      called-Leaves called (is_batch e.config.mode) flagged h'

  handle_event-Leaves :
      (at : EventId) (k : EventKind) (e : Engine E)
      → AwaitedIf false (batch_of e) (record { id = at; kind = k } ∷ e.queue.heap)
      → Leaves (handle_event k e)
  unfolding handle_event
  handle_event-Leaves at (EventKind.tick t) e h =
      kept e (on_tick t e) (on_tick-batch t e) (λ id. on_tick-Has id t e) (popped _ e (λ id x. x) h)
  handle_event-Leaves at (EventKind.tick_delivery t) e h =
      quiet-Leaves (on_tick_delivery t e)
        (on_tick_delivery-IsAwaited t e (popped _ e (λ id x. x) h))
  handle_event-Leaves at (EventKind.l2_update u) e h = quiet-Leaves (on_l2_update u e) (
      kept e (on_l2_update u e).1 (on_l2_update-batch u e) (λ id. on_l2_update-Has id u e)
        (popped _ e (λ id x. x) h))
  handle_event-Leaves at (EventKind.l3_update u) e h = quiet-Leaves (on_l3_update u e) (
      kept e (on_l3_update u e).1 (on_l3_update-batch u e) (λ id. on_l3_update-Has id u e)
        (popped _ e (λ id x. x) h))
  handle_event-Leaves at (EventKind.order o) e h =
      kept e (on_order o e) (on_order-batch o e) (λ id. on_order-Has id o e)
        (popped _ e (λ id x. x) h)
  handle_event-Leaves at (EventKind.order_ack n) e h = if_routed-Leaves n e (on_order_ack n e) (
      kept e (on_order_ack n e) (on_order_ack-batch n e) (λ id. on_order_ack-Has id n e)
        (popped _ e (λ id x. x) h))
  handle_event-Leaves at (EventKind.order_cancel n) e h =
      if_routed-Leaves n e (on_order_cancel n e) (
        kept e (on_order_cancel n e) (on_order_cancel-batch n e) (λ id. on_order_cancel-Has id n e)
          (popped _ e (λ id x. x) h))
  handle_event-Leaves at (EventKind.order_cancel_ack n) e h =
      kept e (on_order_cancel_ack n e) (on_order_cancel_ack-batch n e)
        (λ id. on_order_cancel_ack-Has id n e) (popped _ e (λ id x. x) h)
  handle_event-Leaves at (EventKind.order_report r) e h =
      on_order_report-Leaves r e (popped _ e (λ id x. x) h)
  handle_event-Leaves at (EventKind.funding f) e h =
      on_funding-Leaves f e (popped _ e (λ id x. x) h)
  handle_event-Leaves at (EventKind.timer id) e h = on_timer-IsAwaited at id e h

  abbrev pub IsEmptied : Engine E → Type 0
  IsEmptied e =
      (is_empty e.tick_buffer ≡ true)
      × (is_empty e.report_buffer ≡ true)
      × TimerQueued e.config e.active_batch_timer_id e.queue.heap

  tune-IsEmptied : (t : ℤ) (n : ℕ) (e : Engine E) → IsEmptied e → IsEmptied (tune t n e)
  unfolding tune
  tune-IsEmptied t n e h = ground (arith, h)

  -- A flush that succeeds leaves nothing in the buffers.
  flush_strategy-IsEmptied :
      (elapsed ts : ℤ) (e : Engine E)
      → TimerQueued e.config e.active_batch_timer_id e.queue.heap
      → OnOk IsEmptied (flush_strategy elapsed ts e)
  unfolding flush_strategy
  flush_strategy-IsEmptied elapsed ts e timer =
      let ticks = flush_ticks E e.tick_buffer (Requests.new ts e.market) e.strategy in
      let reports = flush_reports E e.report_buffer ticks.1.0 ticks.1.1 in
      elim (Bool-cases (is_empty e.tick_buffer && is_empty e.report_buffer)) [
        | inl none_left ↦
            rw (none_left, flush_strategy)
              (ground (arith, none_left), ground (arith, none_left), timer)
        | inr some_left ↦ elim (Result-cases ticks.0) [
          | inr (x, n) ↦ rw (some_left, n, flush_strategy) tt
          | inl (u, n) ↦ elim (Result-cases reports.0) [
            | inr (x, n') ↦ rw (some_left, n, n', flush_strategy) tt
            | inl (u', n') ↦
                let done = record e {
                  active_batch_timer_id = none;
                  strategy = reports.1.1;
                  tick_buffer = [];
                  report_buffer = [];
                } in
                let commands = reports.1.0.commands in
                let handled = handle_commands-batch commands ts done in
                let after = handle_commands commands ts done in
                rw (some_left, n, n', flush_strategy)
                  (tune-IsEmptied elapsed (length e.tick_buffer + length e.report_buffer)
                    (handle_commands commands ts done)
                    (
                      ap (λ b. is_empty b.1.0) handled,
                      ap (λ b. is_empty b.1.1.0) handled,
                      subst (λ t. TimerQueued after.config t after.queue.heap)
                          (sym (ap (λ b. b.1.1.1.0) handled)) refl,
                    ))
          ]
        ]
      ]

  emptied-IsAwaited :
      (r : Result (Unit {0}) (EngineError E) × Engine E)
      → OnOk IsEmptied r
      → OnOk IsAwaited (elim r.0 [
        | err x ↦ (err x, r.1)
        | ok done ↦ (ok tt, record r.1 { pending_wakeup = false })
      ])
  emptied-IsAwaited (ok done, e) (ticks, reports, timer) =
      (ground (arith, ticks), ground (arith, reports), refl, timer)
  emptied-IsAwaited (err x, e) h = tt

  wake-IsAwaited :
      (elapsed : ℤ) (flag : Bool) (e : Engine E)
      → AwaitedIf flag (batch_of e) e.queue.heap
      → OnOk IsAwaited (wake elapsed flag e)
  unfolding wake
  wake-IsAwaited elapsed flag e h =
      let flushed = flush_strategy-IsEmptied elapsed e.now_ts_sim e h.3 in
      let r = flush_strategy elapsed e.now_ts_sim e in
      elim (EngineMode-cases e.config.mode) [
        | inl m ↦
            let same : wake elapsed flag e ≡ (ok tt, e) = simp (m, wake) in
            subst (OnOk IsAwaited) (sym same) (ground (arith, m, h))
        | inr m ↦ elim (Bool-cases (flag || e.pending_wakeup)) [
          | inr quiet ↦
              let same : wake elapsed flag e ≡ (ok tt, e) = simp (m, quiet, wake) in
              subst (OnOk IsAwaited) (sym same) (ground (arith, quiet, h))
          | inl asked ↦ elim (Bool-cases (same_time_next e)) [
            | inl later ↦
                let deferred = record e { pending_wakeup = true } in
                let same : wake elapsed flag e ≡ (ok tt, deferred) = simp (m, asked, later, wake) in
                subst (OnOk IsAwaited) (sym same) (ground arith)
            | inr now ↦
                let same : wake elapsed flag e ≡ elim r.0 [
                  | err x ↦ (err x, r.1)
                  | ok done ↦ (ok tt, record r.1 { pending_wakeup = false })
                ] =
                  simp (m, asked, now, wake) in
                subst (OnOk IsAwaited) (sym same) (emptied-IsAwaited r flushed)
          ]
        ]
      ]

  process-IsAwaited :
      (elapsed : ℤ) (ev : Event) (e : Engine E)
      → AwaitedIf false (batch_of e) (ev ∷ e.queue.heap)
      → OnOk IsAwaited (process elapsed ev e)
  unfolding process
  process-IsAwaited elapsed ev e h =
      let now = record e { now_ts_sim = ev.id.ts_sim } in
      let left = handle_event-Leaves ev.id ev.kind now h in
      let handled = handle_event ev.kind now in
      let state = handled.1 in
      elim (Result-cases handled.0) [
        | inr (x, n) ↦ rw (n, process) tt
        | inl (returned, n) ↦ rw (n, process) (subst (λ r. Leaves (r, state)) n left)
        | inl (wakeup flag, n) ↦
            rw (n, process)
              (wake-IsAwaited elapsed flag state (subst (λ r. Leaves (r, state)) n left))
      ]

  -- Where a step takes an event from the queue, or finds none.
  abbrev pub OnPopped :
      (Engine E → Type 0) → Result (Option Event) (EngineError E) × Engine E → Type 0
  OnPopped P (ok ev, e) = P e
  OnPopped P (err x, e) = Unit {0}

  popped-OnPopped :
      (ev : Event) (r : Result (Unit {0}) (EngineError E) × Engine E)
      → OnOk IsAwaited r
      → OnPopped IsAwaited (elim r.0 [ err x ↦ (err x, r.1) | ok done ↦ (ok (some ev), r.1) ])
  popped-OnPopped ev (ok done, e) h = h
  popped-OnPopped ev (err x, e) h = tt

  -- An event that is taken from the queue and processed without an error keeps what awaits the
  -- buffers: unless the limit on the time of a batch is not positive, buffered ticks have a timer set
  -- or the flag of a pending wakeup, and buffered reports have that flag; and a timer that is set is
  -- one of the events in the queue, and only in batch mode.
  pub pop_and_process-IsAwaited :
      (elapsed : ℤ) (e : Engine E) → IsAwaited e → OnPopped IsAwaited (pop_and_process elapsed e)
  unfolding pop_and_process
  pop_and_process-IsAwaited elapsed e h = elim (Option-cases (EventQueue.pop e.queue)) [
    | inl n ↦ rw (n, pop_and_process) h
    | inr ((ev, q), n) ↦
        let rest = record e { queue = q } in
        let timers = λ (id : ℕ) (x : Has id e). pop-scheduled id e.queue q ev n ∙ x in
        let before : AwaitedIf false (batch_of rest) (ev ∷ q.heap) = (
          h.0,
          h.1,
          h.2,
          TimerQueued-mono e.config e.active_batch_timer_id e.queue.heap (ev ∷ q.heap) timers h.3,
        ) in
        rw (n, pop_and_process)
          (popped-OnPopped ev (process elapsed ev rest) (process-IsAwaited elapsed ev rest before))
  ]
