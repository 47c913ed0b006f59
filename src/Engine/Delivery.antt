-- ===== src/Engine/Delivery.antt =====
-- backtester-core/src/engine.rs: the arms of `step` for the events that reach the strategy, and the
-- batches of them.
use crypto_rs_backtester.Prelude.{
  ℕ, ◌+◌, Bool, true, false, ◌&&◌, Option, none, some, List, [], ◌∷◌, ◌++◌, Result, ok, err,
  if◌then◌else◌, ltb, eqb, length,
}
use crypto_rs_backtester.Prelude.Int.{ℤ, pos, ltb_ℤ}
use crypto_rs_backtester.Prelude.I64.{add_i64, next_u64}
use crypto_rs_backtester.Prelude.Keys.{nat_eq}
use crypto_rs_backtester.Collections.Map.{get, remove}
use crypto_rs_backtester.Types.{Tick, OrderReport, FundingEvent, is_terminal}
use crypto_rs_backtester.Event.{EventKind}
use crypto_rs_backtester.Exchange
use crypto_rs_backtester.Exchange.Matching
use crypto_rs_backtester.Account
use crypto_rs_backtester.RiskGuard.{update_pnl}
use crypto_rs_backtester.Strategy.{Context, deliver}
use crypto_rs_backtester.Strategy.Requests
use crypto_rs_backtester.Tuner
use crypto_rs_backtester.Stats.Log.{push_pnl_event}
use crypto_rs_backtester.Engine.{
  Env, Engine, EngineError, EngineMode, push_event, put_exchange, exchange_of,
}
use crypto_rs_backtester.Engine.Commands.{handle_commands}

abbrev pub is_empty : {A : Type 0} → List A → Bool
is_empty [] = true
is_empty (x ∷ xs) = false

-- A call of the strategy with its state.
abbrev pub Call : Env → Type 0
Call E =
    Context → E.strategy.State → Result (Unit {0}) E.strategy.Error × (Context × E.strategy.State)

-- The buffered ticks, and the buffered reports, in one call each.
abbrev pub flush_ticks : (E : Env) → List Tick → Call E
flush_ticks E [] ctx s = (ok tt, (ctx, s))
flush_ticks E (t ∷ ts) ctx s = E.strategy.on_ticks (t ∷ ts) ctx s

abbrev pub flush_reports : (E : Env) → List OrderReport → Call E
flush_reports E [] ctx s = (ok tt, (ctx, s))
flush_reports E (r ∷ rs) ctx s = E.strategy.on_order_updates (r ∷ rs) ctx s

abbrev pub is_batch : EngineMode → Bool
is_batch EngineMode.tick = false
is_batch EngineMode.batch = true

module _ {E : Env} where
  -- A call of the strategy, and the commands that it leaves; a failure drops them.
  unfoldable pub call_strategy :
      Call E → ℤ → Engine E → Result (Unit {0}) (EngineError E) × Engine E
  unfolding handle_commands Requests.new
  call_strategy call ts_local e =
      let (r, (ctx, s)) = call (Requests.new ts_local e.market) e.strategy in
      let called = record e { strategy = s } in
      elim r [
        | err x ↦ (err (EngineError.strategy_error x), called)
        | ok done ↦ (ok tt, handle_commands (Requests.into_commands ctx) ts_local called)
      ]

  -- A tick of a batch; the first one of a batch sets the timer.
  unfoldable pub buffer_tick : Tick → Engine E → Engine E
  unfolding push_event
  buffer_tick tick e =
      let buffered = record e { tick_buffer = e.tick_buffer ++ tick ∷ [] } in
      let set_timer =
        push_event (add_i64 tick.ts_local e.config.max_batch_ns) (EventKind.timer e.next_timer_id)
          (record buffered {
            next_timer_id = next_u64 e.next_timer_id;
            active_batch_timer_id = some e.next_timer_id;
          }) in
      elim e.active_batch_timer_id [
        | some id ↦ buffered
        | none ↦ if ltb_ℤ (pos 0) e.config.max_batch_ns then set_timer else buffered
      ]

  unfoldable pub on_tick_delivery : Tick → Engine E → Result (Unit {0}) (EngineError E) × Engine E
  unfolding deliver call_strategy buffer_tick
  on_tick_delivery tick e =
      let seen = record e { market = deliver tick e.market } in
      elim e.config.mode [
        | EngineMode.tick ↦ call_strategy (E.strategy.on_tick tick) tick.ts_local seen
        | EngineMode.batch ↦ (ok tt, buffer_tick tick seen)
      ]

  -- An order that has ended leaves its exchange, and its route is dropped.
  unfoldable pub forget_order : OrderReport → Engine E → Engine E
  unfolding exchange_of get remove Matching.remove_order
  forget_order report e =
      if is_terminal report.status
      then elim (get report.order_id e.order_symbol_by_id) [
        | none ↦ record e { order_symbol_by_id = remove report.order_id e.order_symbol_by_id }
        | some symbol_id ↦
            let ex = Matching.remove_order report.order_id (exchange_of symbol_id e) in
            record (put_exchange symbol_id ex e) {
              order_symbol_by_id = remove report.order_id e.order_symbol_by_id;
            }
      ]
      else e

  -- The flag of the result is the request of a wakeup.
  unfoldable pub on_order_report : OrderReport → Engine E → Result Bool (EngineError E) × Engine E
  unfolding forget_order call_strategy
  on_order_report report e =
      let e' = forget_order report e in
      elim e.config.mode [
        | EngineMode.tick ↦
            let (r, called) = call_strategy (E.strategy.on_order_update report) e.now_ts_sim e' in
            elim r [ err x ↦ (err x, called) | ok done ↦ (ok false, called) ]
        | EngineMode.batch ↦
            (ok true, record e' { report_buffer = e'.report_buffer ++ report ∷ [] })
      ]

  -- The last trade's price, or else the mid price of the symbol's exchange, if there is one.
  unfoldable pub funding_price : ℕ → Engine E → Option ℤ
  unfolding get Exchange.mark_price
  funding_price symbol_id e = elim (get symbol_id e.truth_last_trade_by_symbol) [
    | some t ↦ some t.price
    | none ↦ elim (get symbol_id e.exchanges) [ none ↦ none | some ex ↦ Exchange.mark_price ex ]
  ]

  unfoldable pub book_funding : FundingEvent → ℤ → Engine E → Engine E
  unfolding Account.apply_funding push_pnl_event update_pnl
  book_funding event mark_price e =
      let (pnl, account) = Account.apply_funding event mark_price e.account in
      record e {
        account = account;
        trade_log =
            push_pnl_event (record { ts_exchange = event.ts_exchange; pnl = pnl }) e.trade_log;
        risk_guard = update_pnl pnl e.risk_guard;
      }

  unfoldable pub settle_funding : FundingEvent → Engine E → Engine E
  unfolding funding_price book_funding
  settle_funding event e = elim (funding_price event.symbol_id e) [
    | none ↦ e
    | some mark_price ↦ book_funding event mark_price e
  ]

  -- In batch mode a funding event asks for a wakeup.
  unfoldable pub on_funding : FundingEvent → Engine E → Result Bool (EngineError E) × Engine E
  unfolding settle_funding call_strategy
  on_funding event e =
      let (r, called) =
        call_strategy (E.strategy.on_funding event) e.now_ts_sim (settle_funding event e) in
      elim r [ err x ↦ (err x, called) | ok done ↦ (ok (is_batch e.config.mode), called) ]

  -- The timer of the current batch; one of an earlier batch is ignored.
  unfoldable pub on_timer : ℕ → Engine E → Bool × Engine E
  on_timer timer_id e = elim e.config.mode [
    | EngineMode.tick ↦ (false, e)
    | EngineMode.batch ↦ elim e.active_batch_timer_id [
      | none ↦ (false, e)
      | some id ↦
          if eqb id timer_id then (true, record e { active_batch_timer_id = none }) else (false, e)
    ]
  ]

  -- The batch size after a flush that took `elapsed` nanoseconds.
  unfoldable pub tune : ℤ → ℕ → Engine E → Engine E
  unfolding Tuner.record_batch
  tune elapsed total_items e =
      let tuner = Tuner.record_batch E.tuner_floats elapsed total_items e.tuner in
      let tuned = record e {
        tuner = tuner;
        config = record e.config { max_batch_ns = tuner.current_batch_ns };
      } in
      elim e.config.mode [
        | EngineMode.tick ↦ e
        | EngineMode.batch ↦ if e.config.auto_tune && ltb 0 total_items then tuned else e
      ]

  -- The clock's reading is an argument.
  unfoldable pub flush_strategy : ℤ → ℤ → Engine E → Result (Unit {0}) (EngineError E) × Engine E
  unfolding handle_commands Requests.new tune
  flush_strategy elapsed ts_local e =
      let woken = record e { active_batch_timer_id = none } in
      let (r, (ctx, s)) = flush_ticks E e.tick_buffer (Requests.new ts_local e.market) e.strategy in
      let ticks_done = record woken { strategy = s; tick_buffer = [] } in
      let (r', (ctx', s')) = flush_reports E e.report_buffer ctx s in
      let done = record ticks_done { strategy = s'; report_buffer = [] } in
      if is_empty e.tick_buffer && is_empty e.report_buffer then (ok tt, e) else elim r [
        | err x ↦ (err (EngineError.strategy_error x), record woken { strategy = s })
        | ok ticks ↦ elim r' [
          | err x ↦ (err (EngineError.strategy_error x), record ticks_done { strategy = s' })
          | ok reports ↦ (
            ok tt,
            tune elapsed (length e.tick_buffer + length e.report_buffer)
                (handle_commands (Requests.into_commands ctx') ts_local done),
          )
        ]
      ]
