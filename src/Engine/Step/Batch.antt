-- ===== src/Engine/Step/Batch.antt =====
-- backtester-core/src/engine.rs: the handlers on the exchange side and the strategy's
-- commands leave the batch as it is.
use crypto_rs_backtester.Prelude.{
  ℕ, ◌≡◌, refl, ◌∙◌, inl, inr, Bool, true, false, Option, List, [], ◌∷◌, Option-cases, Result-cases,
  if◌then◌else◌, arith,
}
use crypto_rs_backtester.Prelude.Int.{ℤ, pos, ltb_ℤ}
use crypto_rs_backtester.Prelude.Keys.{nat_eq}
use crypto_rs_backtester.Collections.Map.{get, insert}
use crypto_rs_backtester.Types.{Tick, Order, OrderReport, FundingEvent, L2Update, L3Update}
use crypto_rs_backtester.Event.{EventKind}
use crypto_rs_backtester.Exchange
use crypto_rs_backtester.Exchange.Matching
use crypto_rs_backtester.Engine.Booking.{OrderType-cases}
use crypto_rs_backtester.Prelude.I64.{add_i64, saturating_add}
use mathlib.Core.Option
use crypto_rs_backtester.Strategy.{Command}
use crypto_rs_backtester.Strategy.Requests
use crypto_rs_backtester.Engine.{
  Env, Engine, EngineConfig, push_event, mark_l2_depth, mark_l3_depth, put_exchange, exchange_of,
  exchange_mut,
}
use crypto_rs_backtester.Engine.Commands.{handle_commands, handle_submit}
use crypto_rs_backtester.Engine.Handlers.{
  on_tick, on_order, on_order_ack, ack_limit, ack_market, cancel_remainder, log_fills, book_fill,
  book_fills, push_reports, on_order_cancel, on_order_cancel_ack, on_l2_update, on_l3_update,
  push_after_latency, fills_of,
}
use crypto_rs_backtester.Engine.Delivery.{
  Call, call_strategy, forget_order, book_funding, settle_funding,
}

module _ {E : Env} where
  -- The part of the state that the batches are about.
  abbrev pub batch_of :
      Engine E → EngineConfig × (List Tick × (List OrderReport × (Option ℕ × Bool)))
  batch_of e =
      (e.config, (e.tick_buffer, (e.report_buffer, (e.active_batch_timer_id, e.pending_wakeup))))

  log_fills-batch :
      (ts bps : ℤ) (taker : Bool) (fills : List (Order × OrderReport)) (e : Engine E)
      → batch_of (log_fills ts bps taker fills e) ≡ batch_of e
  unfolding log_fills
  log_fills-batch ts bps taker [] e = refl
  log_fills-batch ts bps taker ((o, r) ∷ fills) e = log_fills-batch ts bps taker fills _

  book_fills-batch :
      (ts bps : ℤ) (fills : List (Order × OrderReport)) (e : Engine E)
      → batch_of (book_fills ts bps fills e) ≡ batch_of e
  unfolding book_fills book_fill
  book_fills-batch ts bps [] e = refl
  book_fills-batch ts bps ((o, r) ∷ fills) e =
      book_fills-batch ts bps fills (book_fill ts bps o r e)

  push_reports-batch :
      (ts : ℤ) (rs : List OrderReport) (e : Engine E) → batch_of (push_reports ts rs e) ≡ batch_of e
  unfolding push_reports push_event
  push_reports-batch ts [] e = refl
  push_reports-batch ts (r ∷ rs) e =
      push_reports-batch ts rs (push_event ts (EventKind.order_report r) e)

  handle_submit-batch :
      (o : Order) (ts : ℤ) (e : Engine E) → batch_of (handle_submit o ts e) ≡ batch_of e
  unfolding handle_submit push_event
  handle_submit-batch o ts e = ground arith

  pub handle_commands-batch :
      (cs : List Command) (ts : ℤ) (e : Engine E) → batch_of (handle_commands cs ts e) ≡ batch_of e
  unfolding handle_commands push_event
  handle_commands-batch [] ts e = refl
  handle_commands-batch (Command.submit_order o ∷ cs) ts e =
      handle_commands-batch cs ts (handle_submit o ts e) ∙ handle_submit-batch o ts e
  handle_commands-batch (Command.cancel_order id ∷ cs) ts e =
      handle_commands-batch cs ts (push_event ts (EventKind.order_cancel id) e)

  settled-batch :
      (later ts bps : ℤ) (taker : Bool) (rs : List OrderReport) (fills : List (Order × OrderReport))
      (e : Engine E)
      → batch_of (push_reports later rs (book_fills ts bps fills (log_fills ts bps taker fills e)))
        ≡ batch_of e
  settled-batch later ts bps taker rs fills e =
      push_reports-batch later rs (book_fills ts bps fills (log_fills ts bps taker fills e))
      ∙ book_fills-batch ts bps fills (log_fills ts bps taker fills e)
      ∙ log_fills-batch ts bps taker fills e

  pub on_tick-batch : (t : Tick) (e : Engine E) → batch_of (on_tick t e) ≡ batch_of e
  unfolding on_tick
  on_tick-batch t e =
      let seen = record e {
        truth_last_trade_by_symbol = insert t.symbol_id t e.truth_last_trade_by_symbol;
      } in
      let (ex, rs) = Matching.on_trade t (exchange_of t.symbol_id seen) [] in
      settled-batch (add_i64 t.ts_exchange e.config.order_update_latency_ns) t.ts_exchange
        e.config.maker_fee_bps false rs (fills_of ex rs) (put_exchange t.symbol_id ex seen)

  ack_limit-batch : (symbol id : ℕ) (e : Engine E) → batch_of (ack_limit symbol id e) ≡ batch_of e
  unfolding ack_limit push_event
  ack_limit-batch symbol id e = ground arith

  cancel_remainder-batch :
      (symbol id : ℕ) (r : OrderReport) (e : Engine E)
      → batch_of (cancel_remainder symbol id r e) ≡ batch_of e
  unfolding cancel_remainder push_event
  cancel_remainder-batch symbol id r e = ground arith

  ack_market-batch :
      (symbol id : ℕ) (o : Order) (e : Engine E) → batch_of (ack_market symbol id o e) ≡ batch_of e
  unfolding ack_market push_event push_reports
  ack_market-batch symbol id o e =
      let fallback = Option.map (λ t. t.price) (get symbol e.truth_last_trade_by_symbol) in
      let filled = Matching.fill_market_immediately id fallback (exchange_of symbol e) in
      let later = saturating_add e.now_ts_sim e.config.order_update_latency_ns in
      elim (Option-cases filled.0) [
        | inl n ↦ rw (n, ack_market) refl
        | inr (r, n) ↦
            let fills = if ltb_ℤ (pos 0) r.last_fill_qty then (o, r) ∷ [] else [] in
            let bps = e.config.taker_fee_bps in
            let e' = put_exchange symbol filled.1 e in
            let booked =
              push_reports later (r ∷ [])
                (book_fills e.now_ts_sim bps fills (log_fills e.now_ts_sim bps true fills e')) in
            rw (n, ack_market)
              (cancel_remainder-batch symbol id r booked
                ∙ settled-batch later e.now_ts_sim bps true (r ∷ []) fills e')
      ]

  pub on_order_ack-batch : (id : ℕ) (e : Engine E) → batch_of (on_order_ack id e) ≡ batch_of e
  unfolding on_order_ack exchange_mut
  on_order_ack-batch id e = elim (Option-cases (get id e.order_symbol_by_id)) [
    | inl n ↦ rw (n, on_order_ack) refl
    | inr (symbol, n) ↦
        let ex = exchange_of symbol e in
        let e' = put_exchange symbol ex e in
        elim (Option-cases (Exchange.get_order id ex)) [
          | inl m ↦ rw (n, m, on_order_ack) (ack_limit-batch symbol id e')
          | inr (o, m) ↦ elim (OrderType-cases o.order_type) [
            | inl t ↦ rw (n, m, t, on_order_ack) (ack_market-batch symbol id o e')
            | inr t ↦ rw (n, m, t, on_order_ack) (ack_limit-batch symbol id e')
          ]
        ]
  ]

  pub on_order_cancel-batch : (id : ℕ) (e : Engine E) → batch_of (on_order_cancel id e) ≡ batch_of e
  unfolding on_order_cancel push_after_latency push_event
  on_order_cancel-batch id e = ground arith

  pub on_order_cancel_ack-batch :
      (id : ℕ) (e : Engine E) → batch_of (on_order_cancel_ack id e) ≡ batch_of e
  unfolding on_order_cancel_ack push_event
  on_order_cancel_ack-batch id e = ground arith

  pub on_l2_update-batch :
      (u : L2Update) (e : Engine E) → batch_of (on_l2_update u e).1 ≡ batch_of e
  unfolding on_l2_update mark_l2_depth
  on_l2_update-batch u e = ground arith

  pub on_l3_update-batch :
      (u : L3Update) (e : Engine E) → batch_of (on_l3_update u e).1 ≡ batch_of e
  unfolding on_l3_update mark_l3_depth
  on_l3_update-batch u e = ground arith

  pub on_order-batch : (o : Order) (e : Engine E) → batch_of (on_order o e) ≡ batch_of e
  unfolding on_order push_after_latency push_event
  on_order-batch o e = refl

  pub forget_order-batch :
      (r : OrderReport) (e : Engine E) → batch_of (forget_order r e) ≡ batch_of e
  unfolding forget_order
  forget_order-batch r e = ground arith

  pub settle_funding-batch :
      (f : FundingEvent) (e : Engine E) → batch_of (settle_funding f e) ≡ batch_of e
  unfolding settle_funding book_funding
  settle_funding-batch f e = ground arith

  pub call_strategy-batch :
      (call : Call E) (ts : ℤ) (e : Engine E) → batch_of (call_strategy call ts e).1 ≡ batch_of e
  unfolding call_strategy
  call_strategy-batch call ts e =
      let called = call (Requests.new ts e.market) e.strategy in
      elim (Result-cases called.0) [
        | inl (u, n) ↦
            rw (n, call_strategy)
              (handle_commands-batch called.1.0.commands ts (record e { strategy = called.1.1 }))
        | inr (x, n) ↦ rw (n, call_strategy) refl
      ]
