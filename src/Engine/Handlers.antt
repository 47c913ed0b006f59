-- ===== src/Engine/Handlers.antt =====
-- backtester-core/src/engine.rs: the arms of `step` for the events that run on the exchange side.
use crypto_rs_backtester.Prelude.{
  ℕ, Bool, true, false, none, some, List, [], ◌∷◌, Result, ok, err, if◌then◌else◌,
}
use crypto_rs_backtester.Prelude.Int.{ℤ, pos, ltb_ℤ, max_ℤ}
use crypto_rs_backtester.Prelude.I64.{add_i64, saturating_add, saturating_sub}
use crypto_rs_backtester.Prelude.Keys.{nat_eq}
use crypto_rs_backtester.Collections.Map.{get, insert}
use crypto_rs_backtester.Types.{
  Side, Tick, Order, OrderType, OrderReport, OrderState, L2Update, L3Update,
}
use crypto_rs_backtester.Event.{EventKind}
use crypto_rs_backtester.QueueModel.{QueueModel}
use crypto_rs_backtester.Exchange
use crypto_rs_backtester.Exchange.{ExchangeSimulator, ExchangeError}
use crypto_rs_backtester.Exchange.Matching
use crypto_rs_backtester.Account
use crypto_rs_backtester.RiskGuard.{update_pnl}
use crypto_rs_backtester.Engine.{
  Env, Engine, EngineError, internal, push_event, put_exchange, exchange_of, exchange_mut,
  mark_l2_depth, mark_l3_depth, compute_fee,
}
use crypto_rs_backtester.Stats.{TradeFill}
use crypto_rs_backtester.Stats.Log.{push_fill, push_pnl_delta}
use mathlib.Core.Option

abbrev pub trade_fill : ℤ → Side → OrderReport → ℤ → Bool → TradeFill
trade_fill ts side r fee is_taker = record {
  ts_exchange = ts;
  symbol_id = r.symbol_id;
  order_id = r.order_id;
  side = side;
  price = r.last_fill_price;
  qty = r.last_fill_qty;
  fee = fee;
  is_taker = is_taker;
}

-- The fills of a trade's reports: each order with its report, where one was filled.
unfoldable pub fills_of :
    {Q : QueueModel} → ExchangeSimulator Q → List OrderReport → List (Order × OrderReport)
unfolding Exchange.get_order
fills_of ex [] = []
fills_of ex (r ∷ rs) =
    let rest = fills_of ex rs in
    if ltb_ℤ (pos 0) r.last_fill_qty
    then elim (Exchange.get_order r.order_id ex) [ none ↦ rest | some o ↦ (o, r) ∷ rest ]
    else rest

abbrev pub of_exchange :
    {E : Env} → Result (Unit {0}) ExchangeError → Result (Unit {0}) (EngineError E)
of_exchange (ok done) = ok done
of_exchange (err x) = err (internal x)

module _ {E : Env} where
  unfoldable pub log_fills : ℤ → ℤ → Bool → List (Order × OrderReport) → Engine E → Engine E
  unfolding compute_fee push_fill
  log_fills ts bps is_taker [] e = e
  log_fills ts bps is_taker ((o, r) ∷ fills) e = log_fills ts bps is_taker fills (record e {
    trade_log =
        push_fill
          (trade_fill ts o.side r (compute_fee r.last_fill_price r.last_fill_qty bps) is_taker)
          e.trade_log;
  })

  -- A fill on the account: its PnL less the fee goes to the log and to the risk guard.
  unfoldable pub book_fill : ℤ → ℤ → Order → OrderReport → Engine E → Engine E
  unfolding Account.on_fill update_pnl compute_fee push_pnl_delta
  book_fill ts bps o r e =
      let booked = Account.on_fill o r.last_fill_qty r.last_fill_price e.account in
      let net_pnl = saturating_sub booked.0 (compute_fee r.last_fill_price r.last_fill_qty bps) in
      record e {
        account = booked.1;
        trade_log = push_pnl_delta ts net_pnl e.trade_log;
        risk_guard = update_pnl net_pnl e.risk_guard;
      }

  unfoldable pub book_fills : ℤ → ℤ → List (Order × OrderReport) → Engine E → Engine E
  unfolding book_fill
  book_fills ts bps [] e = e
  book_fills ts bps ((o, r) ∷ fills) e = book_fills ts bps fills (book_fill ts bps o r e)

  unfoldable pub push_reports : ℤ → List OrderReport → Engine E → Engine E
  unfolding push_event
  push_reports ts [] e = e
  push_reports ts (r ∷ rs) e = push_reports ts rs (push_event ts (EventKind.order_report r) e)

  unfoldable pub on_tick : Tick → Engine E → Engine E
  unfolding exchange_of log_fills book_fills push_reports fills_of Matching.on_trade
  on_tick tick e =
      let seen = record e {
        truth_last_trade_by_symbol = insert tick.symbol_id tick e.truth_last_trade_by_symbol;
      } in
      let (ex, reports) = Matching.on_trade tick (exchange_of tick.symbol_id seen) [] in
      let fills = fills_of ex reports in
      let bps = e.config.maker_fee_bps in
      push_reports (add_i64 tick.ts_exchange e.config.order_update_latency_ns) reports (
        book_fills tick.ts_exchange bps fills
          (log_fills tick.ts_exchange bps false fills (put_exchange tick.symbol_id ex seen)))

  unfoldable pub on_l2_update : L2Update → Engine E → Result (Unit {0}) (EngineError E) × Engine E
  unfolding mark_l2_depth exchange_of Exchange.apply_l2_update
  on_l2_update u e =
      let (r, e') = mark_l2_depth u.symbol_id e in
      elim r [
        | err x ↦ (err x, e')
        | ok done ↦ (
          ok tt,
          put_exchange u.symbol_id (Exchange.apply_l2_update u (exchange_of u.symbol_id e')) e',
        )
      ]

  unfoldable pub on_l3_update : L3Update → Engine E → Result (Unit {0}) (EngineError E) × Engine E
  unfolding mark_l3_depth exchange_of Exchange.apply_l3_update
  on_l3_update u e =
      let (r, e') = mark_l3_depth u.symbol_id e in
      elim r [
        | err x ↦ (err x, e')
        | ok done ↦
            let (applied, ex) = Exchange.apply_l3_update u (exchange_of u.symbol_id e') in
            (of_exchange applied, put_exchange u.symbol_id ex e')
      ]

  -- An event after the order latency that the model samples.
  unfoldable pub push_after_latency : EventKind → Engine E → Engine E
  unfolding push_event
  push_after_latency kind e =
      let (dt, rng) = E.latency_model.sample_order_latency e.now_ts_sim e.rng in
      push_event (saturating_add e.now_ts_sim (max_ℤ dt (pos 0))) kind (record e { rng = rng })

  unfoldable pub on_order : Order → Engine E → Engine E
  unfolding push_after_latency exchange_of Exchange.submit_order
  on_order o e =
      push_after_latency (EventKind.order_ack o.order_id)
        (put_exchange o.symbol_id (Exchange.submit_order o (exchange_of o.symbol_id e)) e)

  unfoldable pub on_order_cancel : ℕ → Engine E → Engine E
  unfolding push_after_latency exchange_of Exchange.cancel_order
  on_order_cancel id e = elim (get id e.order_symbol_by_id) [
    | none ↦ e
    | some symbol_id ↦
        let (r, ex) = Exchange.cancel_order id (exchange_of symbol_id e) in
        elim r [
          | err x ↦ put_exchange symbol_id ex e
          | ok done ↦
              push_after_latency (EventKind.order_cancel_ack id) (put_exchange symbol_id ex e)
        ]
  ]

  unfoldable pub on_order_cancel_ack : ℕ → Engine E → Engine E
  unfolding push_event exchange_of Exchange.ack_cancel
  on_order_cancel_ack id e = elim (get id e.order_symbol_by_id) [
    | none ↦ e
    | some symbol_id ↦
        let (r, ex) = Exchange.ack_cancel id (exchange_of symbol_id e) in
        elim r [
          | err x ↦ put_exchange symbol_id ex e
          | ok report ↦
              push_event (add_i64 e.now_ts_sim e.config.order_update_latency_ns)
                (EventKind.order_report report) (put_exchange symbol_id ex e)
        ]
  ]

  -- The acknowledgement of a limit order.
  unfoldable pub ack_limit : ℕ → ℕ → Engine E → Engine E
  unfolding push_event exchange_of Exchange.ack_new
  ack_limit symbol_id id e =
      let (r, ex) = Exchange.ack_new id (exchange_of symbol_id e) in
      elim r [
        | err x ↦ put_exchange symbol_id ex e
        | ok report ↦
            push_event (saturating_add e.now_ts_sim e.config.order_update_latency_ns)
              (EventKind.order_report report) (put_exchange symbol_id ex e)
      ]

  -- What remains of a market order that was filled in part is cancelled at once.
  unfoldable pub cancel_remainder : ℕ → ℕ → OrderReport → Engine E → Engine E
  unfolding push_event exchange_of Matching.force_cancel_partial_fill
  cancel_remainder symbol_id id report e = elim report.status [
    | OrderState.partially_filled ↦
        let (r, ex) = Matching.force_cancel_partial_fill id (exchange_of symbol_id e) in
        elim r [
          | none ↦ put_exchange symbol_id ex e
          | some cancel_report ↦
              push_event (saturating_add e.now_ts_sim e.config.order_update_latency_ns)
                (EventKind.order_report cancel_report) (put_exchange symbol_id ex e)
        ]
    | _ ↦ e
  ]

  -- The acknowledgement of a market order: it fills at once, and pays the taker's fee.
  unfoldable pub ack_market : ℕ → ℕ → Order → Engine E → Engine E
  unfolding push_event exchange_of log_fills book_fills cancel_remainder
      Matching.fill_market_immediately
  ack_market symbol_id id order e =
      let fallback_price = Option.map (λ t. t.price) (get symbol_id e.truth_last_trade_by_symbol) in
      let filled = Matching.fill_market_immediately id fallback_price (exchange_of symbol_id e) in
      let e' = put_exchange symbol_id filled.1 e in
      elim filled.0 [
        | none ↦ e'
        | some report ↦
            let fills = if ltb_ℤ (pos 0) report.last_fill_qty then (order, report) ∷ [] else [] in
            let bps = e.config.taker_fee_bps in
            cancel_remainder symbol_id id report (
              push_event (saturating_add e.now_ts_sim e.config.order_update_latency_ns)
                (EventKind.order_report report)
                (book_fills e.now_ts_sim bps fills (log_fills e.now_ts_sim bps true fills e')))
      ]

  unfoldable pub on_order_ack : ℕ → Engine E → Engine E
  unfolding ack_limit ack_market exchange_of exchange_mut Exchange.get_order
  on_order_ack id e = elim (get id e.order_symbol_by_id) [
    | none ↦ e
    | some symbol_id ↦
        let (ex, e') = exchange_mut symbol_id e in
        elim (Exchange.get_order id ex) [
          | none ↦ ack_limit symbol_id id e'
          | some o ↦ elim o.order_type [
            | OrderType.market ↦ ack_market symbol_id id o e'
            | OrderType.limit ↦ ack_limit symbol_id id e'
          ]
        ]
  ]
