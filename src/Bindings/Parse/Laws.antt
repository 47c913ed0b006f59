-- ===== src/Bindings/Parse/Laws.antt =====
-- backtester-py/src/lib.rs: the events that are made before the engines run.
use crypto_rs_backtester.Prelude.{◌≡◌, refl}
use crypto_rs_backtester.Prelude.Int.{◌+ℤ◌}
use crypto_rs_backtester.Prelude.I64.{InI64, sat_i64-eq, add_i64-eq}
use crypto_rs_backtester.Types.{Tick}
use crypto_rs_backtester.Event.{EventKind}
use crypto_rs_backtester.Engine.{Env, Engine, push_event}
use crypto_rs_backtester.Engine.Ingest.{schedule_tick}
use crypto_rs_backtester.Bindings.Parse.{delivery_ts}

-- An engine that reads a tick from a source delivers it at the time at which `parse_polars_data` does,
-- where the sum of the times is a word.
pub schedule_tick-delivery_ts :
    {E : Env} (tick : Tick) (e : Engine E)
    → InI64 (tick.ts_exchange +ℤ e.config.feed_latency_ns)
    → schedule_tick tick e
      ≡ push_event
          (delivery_ts e.config.feed_latency_ns tick)
          (EventKind.tick_delivery
            (record tick { ts_local = delivery_ts e.config.feed_latency_ns tick }))
          (push_event tick.ts_exchange (EventKind.tick tick) e)
unfolding schedule_tick delivery_ts
schedule_tick-delivery_ts tick e fits =
    rw
      (
        sat_i64-eq (tick.ts_exchange +ℤ e.config.feed_latency_ns) fits,
        add_i64-eq tick.ts_exchange e.config.feed_latency_ns fits,
      )
      refl
