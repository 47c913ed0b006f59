-- ===== src/Engine/Step.antt =====
-- backtester-core/src/engine.rs: `step` and `run`.
pub mod Booking
pub mod Reach
pub mod Termination
pub mod Batch
pub mod Timers
pub mod Buffers
use crypto_rs_backtester.Prelude.{
  ℕ, zero, suc, Bool, true, false, ◌||◌, ◌&&◌, Option, none, some, List, [], ◌∷◌, Result, ok, err,
  if◌then◌else◌,
}
use crypto_rs_backtester.Prelude.Int.{ℤ, pos, eqb_ℤ}
use crypto_rs_backtester.Prelude.Keys.{nat_eq}
use crypto_rs_backtester.Collections.Map.{get}
use crypto_rs_backtester.Event.{Event, EventKind}
use crypto_rs_backtester.EventQueue
use crypto_rs_backtester.Stats.Summary.{BacktestStats, StatsBackend, calculate_stats}
use crypto_rs_backtester.RiskGuard.{is_killed}
use crypto_rs_backtester.Engine.{Env, Engine, EngineError, EngineMode}
use crypto_rs_backtester.Engine.Handlers.{
  on_tick, on_l2_update, on_l3_update, on_order, on_order_ack, on_order_cancel, on_order_cancel_ack,
}
use crypto_rs_backtester.Engine.Delivery.{
  on_tick_delivery, on_order_report, on_funding, on_timer, flush_strategy, is_empty,
}
use crypto_rs_backtester.Engine.Ingest.{ingest_once, Turn, again, queue_turn}

-- What an event leaves to do: nothing, as for an order that is not known, or a wakeup if the flag is
-- set.
pub data Handled : Type 0 where
  returned : Handled
  wakeup : Bool → Handled

module _ {E : Env} where
  abbrev pub quiet :
      Result (Unit {0}) (EngineError E) × Engine E → Result Handled (EngineError E) × Engine E
  quiet (ok done, e) = (ok (wakeup false), e)
  quiet (err x, e) = (err x, e)

  abbrev pub waking :
      Result Bool (EngineError E) × Engine E → Result Handled (EngineError E) × Engine E
  waking (ok flag, e) = (ok (wakeup flag), e)
  waking (err x, e) = (err x, e)

  -- An event on an order without a route ends the step at once.
  abbrev pub if_routed : ℕ → Engine E → Engine E → Result Handled (EngineError E) × Engine E
  if_routed id e e' = elim (get id e.order_symbol_by_id) [
    | none ↦ (ok returned, e')
    | some symbol_id ↦ (ok (wakeup false), e')
  ]

  unfoldable pub handle_event : EventKind → Engine E → Result Handled (EngineError E) × Engine E
  unfolding on_tick on_l2_update on_l3_update on_order on_order_ack on_order_cancel
      on_order_cancel_ack on_tick_delivery on_order_report on_funding on_timer get
  handle_event (EventKind.tick t) e = (ok (wakeup false), on_tick t e)
  handle_event (EventKind.tick_delivery t) e = quiet (on_tick_delivery t e)
  handle_event (EventKind.l2_update u) e = quiet (on_l2_update u e)
  handle_event (EventKind.l3_update u) e = quiet (on_l3_update u e)
  handle_event (EventKind.order o) e = (ok (wakeup false), on_order o e)
  handle_event (EventKind.order_ack id) e = if_routed id e (on_order_ack id e)
  handle_event (EventKind.order_cancel id) e = if_routed id e (on_order_cancel id e)
  handle_event (EventKind.order_cancel_ack id) e = (ok (wakeup false), on_order_cancel_ack id e)
  handle_event (EventKind.order_report r) e = waking (on_order_report r e)
  handle_event (EventKind.funding f) e = waking (on_funding f e)
  handle_event (EventKind.timer id) e = let (flag, e') = on_timer id e in (ok (wakeup flag), e')

  -- Another event at the present time is in the queue.
  abbrev pub same_time_next : Engine E → Bool
  same_time_next e = elim (EventQueue.peek e.queue) [
    | none ↦ false
    | some next ↦ eqb_ℤ next.id.ts_sim e.now_ts_sim
  ]

  -- A wakeup waits for the last event at the present time.
  unfoldable pub wake : ℤ → Bool → Engine E → Result (Unit {0}) (EngineError E) × Engine E
  unfolding flush_strategy EventQueue.peek
  wake elapsed wakeup_requested e =
      let (r, flushed) = flush_strategy elapsed e.now_ts_sim e in
      elim e.config.mode [
        | EngineMode.tick ↦ (ok tt, e)
        | EngineMode.batch ↦
            if wakeup_requested || e.pending_wakeup
            then if same_time_next e then (ok tt, record e { pending_wakeup = true }) else elim r [
              | err x ↦ (err x, flushed)
              | ok done ↦ (ok tt, record flushed { pending_wakeup = false })
            ]
            else (ok tt, e)
      ]

  -- What a step does with the event that it takes from the queue.
  unfoldable pub process : ℤ → Event → Engine E → Result (Unit {0}) (EngineError E) × Engine E
  unfolding handle_event wake
  process elapsed ev e =
      let (r, e') = handle_event ev.kind (record e { now_ts_sim = ev.id.ts_sim }) in
      elim r [
        | err x ↦ (err x, e')
        | ok returned ↦ (ok tt, e')
        | ok (wakeup flag) ↦ wake elapsed flag e'
      ]

  unfoldable pub pop_and_process : ℤ → Engine E → Result (Option Event) (EngineError E) × Engine E
  unfolding EventQueue.pop process
  pop_and_process elapsed e = elim (EventQueue.pop e.queue) [
    | none ↦ (ok none, e)
    | some (ev, queue) ↦
        let (r, e') = process elapsed ev (record e { queue = queue }) in
        elim r [ err x ↦ (err x, e') | ok done ↦ (ok (some ev), e') ]
  ]

  -- The loop over the sources, on fuel; none means that the fuel ran out.
  unfoldable pub ingest : ℕ → Engine E → Option (Result (Unit {0}) (EngineError E) × Engine E)
  unfolding ingest_once
  ingest zero e = none
  ingest (suc n) e =
      let (r, e') = ingest_once e in
      elim r [
        | err x ↦ some (err x, e')
        | ok queue_turn ↦ some (ok tt, e')
        | ok again ↦ ingest n e'
      ]

  unfoldable pub step : ℕ → ℤ → Engine E → Option (Result (Option Event) (EngineError E) × Engine E)
  unfolding ingest pop_and_process
  step fuel elapsed e = elim (ingest fuel e) [
    | none ↦ none
    | some (r, e') ↦ elim r [
      | err x ↦ some (err x, e')
      | ok done ↦ some (pop_and_process elapsed e')
    ]
  ]

  unfoldable pub stats : StatsBackend E.floats → Engine E → BacktestStats E.floats
  unfolding calculate_stats
  stats parallel e = record (calculate_stats parallel e.trade_log) {
    killed = is_killed e.risk_guard;
  }

  -- The end of `run`'s outer loop: the buffers are flushed, and the loop goes on if there was
  -- something to flush.
  unfoldable pub final_flush : ℤ → Engine E → Result Bool (EngineError E) × Engine E
  unfolding flush_strategy
  final_flush elapsed e =
      let (r, flushed) = flush_strategy elapsed e.now_ts_sim e in
      elim e.config.mode [
        | EngineMode.tick ↦ (ok false, e)
        | EngineMode.batch ↦
            if is_empty e.tick_buffer && is_empty e.report_buffer
            then (ok false, e)
            else elim r [ err x ↦ (err x, flushed) | ok done ↦ (ok true, flushed) ]
      ]

  -- `run`, on fuel for its steps, each with fuel for its sources; the clock is read once for each.
  unfoldable pub run :
      ℕ → (ℕ → ℤ) → ℕ → Engine E → Option (Result (Unit {0}) (EngineError E) × Engine E)
  unfolding step final_flush
  run fuel clock zero e = none
  run fuel clock (suc n) e = elim (step fuel (clock n) e) [
    | none ↦ none
    | some (r, e') ↦ elim r [
      | err x ↦ some (err x, e')
      | ok (some ev) ↦ run fuel clock n e'
      | ok none ↦
          let (r', e'') = final_flush (clock n) e' in
          elim r' [
            | err x ↦ some (err x, e'')
            | ok true ↦ run fuel clock n e''
            | ok false ↦ some (ok tt, e'')
          ]
    ]
  ]
