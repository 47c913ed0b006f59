-- ===== src/Engine/Ingest.antt =====
-- backtester-core/src/engine.rs: what `step` takes from the sources before it takes an event from
-- the queue.
use crypto_rs_backtester.Prelude.{
  ℕ, Bool, true, ◌&&◌, Option, none, some, Result, ok, err, if◌then◌else◌,
}
use crypto_rs_backtester.Prelude.Int.{ℤ, pos, leb_ℤ, eqb_ℤ}
use crypto_rs_backtester.Prelude.I64.{add_i64, i64_max}
use crypto_rs_backtester.Types.{Tick, L3Update}
use crypto_rs_backtester.Event.{EventKind}
use crypto_rs_backtester.EventQueue
use crypto_rs_backtester.Sources.{
  Sources, PeekedEvent, not_after, initialize, peek_heap, pop_heap, next_at, refill,
}
use crypto_rs_backtester.Engine.{Env, Engine, EngineError, push_event}

abbrev pub tick_key : Tick → ℤ × ℕ
tick_key t = (t.ts_exchange, t.seq)

abbrev pub l3_key : L3Update → ℤ × ℕ
l3_key u = (u.ts_exchange, u.seq)

-- The sources are asked again, or it is the queue's turn.
pub data Turn : Type 0 where
  again queue_turn : Turn

module _ {E : Env} where
  abbrev pub of_source :
      Result (Unit {0}) E.SourceError × Engine E → Result Turn (EngineError E) × Engine E
  of_source (ok done, e) = (ok again, e)
  of_source (err x, e) = (err (EngineError.tick_source_error x), e)

  abbrev pub put_ticks : Sources E.tick_source → Engine E → Engine E
  put_ticks m e = record e { tick_sources = m }

  abbrev pub put_l3 : Sources E.l3_source → Engine E → Engine E
  put_l3 m e = record e { l3_sources = m }

  -- Both heaps are filled before they are read.
  unfoldable pub initialize_sources : Engine E → Result Turn (EngineError E) × Engine E
  unfolding initialize
  initialize_sources e =
      let (r, ticks) = initialize tick_key e.tick_sources in
      let (r', l3) = initialize l3_key e.l3_sources in
      elim r [
        | err x ↦ (err (EngineError.tick_source_error x), put_ticks ticks e)
        | ok done ↦ of_source (r', put_l3 l3 (put_ticks ticks e))
      ]

  -- The time of the queue's head.
  unfoldable pub next_queue_ts : Engine E → ℤ
  unfolding EventQueue.peek
  next_queue_ts e = elim (EventQueue.peek e.queue) [ none ↦ i64_max | some ev ↦ ev.id.ts_sim ]

  unfoldable pub schedule_l3 : L3Update → Engine E → Engine E
  unfolding push_event
  schedule_l3 update e = push_event update.ts_exchange (EventKind.l3_update update) e

  -- A tick goes to the exchange at its own time, and to the strategy after the feed's latency.
  unfoldable pub schedule_tick : Tick → Engine E → Engine E
  unfolding push_event
  schedule_tick tick e =
      let delivery_ts =
        if eqb_ℤ tick.ts_local (pos 0)
        then add_i64 tick.ts_exchange e.config.feed_latency_ns
        else tick.ts_local in
      push_event delivery_ts (EventKind.tick_delivery (record tick { ts_local = delivery_ts }))
        (push_event tick.ts_exchange (EventKind.tick tick) e)

  unfoldable pub take_l3 : ℕ → Engine E → Result Turn (EngineError E) × Engine E
  unfolding pop_heap next_at refill schedule_l3
  take_l3 idx e = elim (next_at idx (pop_heap e.l3_sources)) [
    | none ↦ (err (EngineError.index_out_of_range idx), put_l3 (pop_heap e.l3_sources) e)
    | some (r, l3) ↦ elim r [
      | err x ↦ (err (EngineError.tick_source_error x), put_l3 l3 e)
      | ok none ↦ (err (EngineError.no_next_update idx), put_l3 l3 e)
      | ok (some update) ↦
          let (r', l3') = refill l3_key idx l3 in of_source (r', put_l3 l3' (schedule_l3 update e))
    ]
  ]

  unfoldable pub take_tick : ℕ → Engine E → Result Turn (EngineError E) × Engine E
  unfolding pop_heap next_at refill schedule_tick
  take_tick idx e = elim (next_at idx (pop_heap e.tick_sources)) [
    | none ↦ (err (EngineError.index_out_of_range idx), put_ticks (pop_heap e.tick_sources) e)
    | some (r, ticks) ↦ elim r [
      | err x ↦ (err (EngineError.tick_source_error x), put_ticks ticks e)
      | ok none ↦ (err (EngineError.no_next_tick idx), put_ticks ticks e)
      | ok (some tick) ↦
          let (r', ticks') = refill tick_key idx ticks in
          of_source (r', put_ticks ticks' (schedule_tick tick e))
    ]
  ]

  -- The head of the L3 sources, where neither the queue nor a tick comes before it.
  unfoldable pub next_l3 : Engine E → Option PeekedEvent
  unfolding peek_heap next_queue_ts
  next_l3 e = elim (peek_heap e.l3_sources) [
    | none ↦ none
    | some pe ↦
        let is_next_source : Bool = elim (peek_heap e.tick_sources) [
          | none ↦ true
          | some tick ↦ not_after pe tick
        ] in
        if leb_ℤ pe.ts (next_queue_ts e) && is_next_source then some pe else none
  ]

  -- The head of the tick sources, where the queue does not come before it.
  unfoldable pub next_tick : Engine E → Option PeekedEvent
  unfolding peek_heap next_queue_ts
  next_tick e = elim (peek_heap e.tick_sources) [
    | none ↦ none
    | some pe ↦ if leb_ℤ pe.ts (next_queue_ts e) then some pe else none
  ]

  unfoldable pub take_next : Engine E → Result Turn (EngineError E) × Engine E
  unfolding take_l3 take_tick next_l3 next_tick
  take_next e = elim (next_l3 e) [
    | some pe ↦ take_l3 pe.source_idx e
    | none ↦ elim (next_tick e) [ some pe ↦ take_tick pe.source_idx e | none ↦ (ok queue_turn, e) ]
  ]

  -- One pass of the loop.
  unfoldable pub ingest_once : Engine E → Result Turn (EngineError E) × Engine E
  unfolding initialize_sources take_next
  ingest_once e =
      let (r, e') = initialize_sources e in elim r [ err x ↦ (err x, e') | ok turn ↦ take_next e' ]
