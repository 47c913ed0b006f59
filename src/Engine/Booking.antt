-- ===== src/Engine/Booking.antt =====
-- backtester-core/src/engine.rs: what the handlers keep of the risk guard and the log.
use crypto_rs_backtester.Prelude.{
  ℕ, ◌≡◌, ◌⊎◌, refl, inl, inr, Bool, true, false, List, [], ◌∷◌, Option-cases, if◌then◌else◌, arith,
  Result-cases,
}
use crypto_rs_backtester.Prelude.Int.{ℤ, pos, ltb_ℤ}
use crypto_rs_backtester.Prelude.I64.{add_i64, saturating_add, saturating_sub}
use crypto_rs_backtester.Prelude.Keys.{nat_eq}
use crypto_rs_backtester.Collections.Map.{get, insert}
use crypto_rs_backtester.Types.{Tick, Order, OrderReport, OrderType}
use mathlib.Core.Option
use crypto_rs_backtester.Engine.Books.{BookLaws}
use crypto_rs_backtester.Exchange
use crypto_rs_backtester.Exchange.Matching
use crypto_rs_backtester.Account
use crypto_rs_backtester.Engine.{
  Env, Engine, push_event, exchange_of, exchange_mut, put_exchange, compute_fee,
}
use crypto_rs_backtester.Engine.Handlers.{
  fills_of, trade_fill, on_tick, on_order_ack, ack_limit, ack_market, cancel_remainder, log_fills,
  book_fill, book_fills, push_reports,
}

pub OrderType-cases : (t : OrderType) → (t ≡ OrderType.market) ⊎ (t ≡ OrderType.limit)
OrderType-cases OrderType.market = inl refl
OrderType-cases OrderType.limit = inr refl

module _ {E : Env} (I : BookLaws E.floats) where
  -- The invariant of the risk guard and the log holds in this engine.
  abbrev pub IsBooked : Engine E → Type 0
  IsBooked e = I.Holds e.risk_guard e.trade_log

  push_reports-IsBooked :
      (ts : ℤ) (rs : List OrderReport) (e : Engine E) → IsBooked e → IsBooked (push_reports ts rs e)
  unfolding push_reports push_event
  push_reports-IsBooked ts [] e h = h
  push_reports-IsBooked ts (r ∷ rs) e h = push_reports-IsBooked ts rs _ h

  log_fills-IsBooked :
      (ts bps : ℤ) (taker : Bool) (fills : List (Order × OrderReport)) (e : Engine E)
      → IsBooked e
      → IsBooked (log_fills ts bps taker fills e)
  unfolding log_fills
  log_fills-IsBooked ts bps taker [] e h = h
  log_fills-IsBooked ts bps taker ((o, r) ∷ fills) e h = log_fills-IsBooked ts bps taker fills _ (
      I.keeps_fill
        (trade_fill ts o.side r (compute_fee r.last_fill_price r.last_fill_qty bps) taker)
        e.risk_guard e.trade_log h)

  book_fills-IsBooked :
      (ts bps : ℤ) (fills : List (Order × OrderReport)) (e : Engine E)
      → IsBooked e
      → IsBooked (book_fills ts bps fills e)
  unfolding book_fills book_fill
  book_fills-IsBooked ts bps [] e h = h
  book_fills-IsBooked ts bps ((o, r) ∷ fills) e h =
      let booked = Account.on_fill o r.last_fill_qty r.last_fill_price e.account in
      let fee = compute_fee r.last_fill_price r.last_fill_qty bps in
      book_fills-IsBooked ts bps fills (book_fill ts bps o r e)
        (I.keeps_delta ts (saturating_sub booked.0 fee) e.risk_guard e.trade_log h)

  -- The log, the account and then the reports: what a handler does with fills.
  settled-IsBooked :
      (later ts bps : ℤ) (taker : Bool) (rs : List OrderReport) (fills : List (Order × OrderReport))
      (e : Engine E)
      → IsBooked e
      → IsBooked (push_reports later rs (book_fills ts bps fills (log_fills ts bps taker fills e)))
  settled-IsBooked later ts bps taker rs fills e h =
      push_reports-IsBooked later rs (book_fills ts bps fills (log_fills ts bps taker fills e)) (
        book_fills-IsBooked ts bps fills (log_fills ts bps taker fills e)
          (log_fills-IsBooked ts bps taker fills e h))

  -- A trade keeps what fills and PnL keep of the risk guard and the log.
  pub on_tick-IsBooked : (t : Tick) (e : Engine E) → IsBooked e → IsBooked (on_tick t e)
  unfolding on_tick
  on_tick-IsBooked t e h =
      let seen = record e {
        truth_last_trade_by_symbol = insert t.symbol_id t e.truth_last_trade_by_symbol;
      } in
      let (ex, rs) = Matching.on_trade t (exchange_of t.symbol_id seen) [] in
      settled-IsBooked (add_i64 t.ts_exchange e.config.order_update_latency_ns) t.ts_exchange
        e.config.maker_fee_bps false rs (fills_of ex rs) (put_exchange t.symbol_id ex seen) h

  ack_limit-IsBooked :
      (symbol id : ℕ) (e : Engine E) → IsBooked e → IsBooked (ack_limit symbol id e)
  unfolding ack_limit push_event
  ack_limit-IsBooked symbol id e h =
      elim (Result-cases (Exchange.ack_new id (exchange_of symbol e)).0) [
        | inl (r, a) ↦ rw (a, ack_limit) h
        | inr (x, a) ↦ rw (a, ack_limit) h
      ]

  cancel_remainder-IsBooked :
      (symbol id : ℕ) (r : OrderReport) (e : Engine E)
      → IsBooked e
      → IsBooked (cancel_remainder symbol id r e)
  unfolding cancel_remainder push_event
  cancel_remainder-IsBooked symbol id r e h =
      let cancelled = (Matching.force_cancel_partial_fill id (exchange_of symbol e)).0 in
      elim (Option-cases cancelled) [ inl n ↦ ground (arith, n) | inr (c, n) ↦ ground (arith, n) ]

  ack_market-IsBooked :
      (symbol id : ℕ) (o : Order) (e : Engine E) → IsBooked e → IsBooked (ack_market symbol id o e)
  unfolding ack_market push_event push_reports
  ack_market-IsBooked symbol id o e h =
      let fallback = Option.map (λ t. t.price) (get symbol e.truth_last_trade_by_symbol) in
      let filled = Matching.fill_market_immediately id fallback (exchange_of symbol e) in
      let later = saturating_add e.now_ts_sim e.config.order_update_latency_ns in
      elim (Option-cases filled.0) [
        | inl n ↦ rw (n, ack_market) h
        | inr (r, n) ↦
            let fills = if ltb_ℤ (pos 0) r.last_fill_qty then (o, r) ∷ [] else [] in
            rw (n, ack_market)
              (cancel_remainder-IsBooked symbol id r _ (
                settled-IsBooked later e.now_ts_sim e.config.taker_fee_bps true (r ∷ []) fills
                  (put_exchange symbol filled.1 e) h))
      ]

  -- An acknowledgement of an order, which fills it at once if it is a market order, keeps what fills
  -- and PnL keep of the risk guard and the log.
  pub on_order_ack-IsBooked : (id : ℕ) (e : Engine E) → IsBooked e → IsBooked (on_order_ack id e)
  unfolding on_order_ack exchange_mut
  on_order_ack-IsBooked id e h = elim (Option-cases (get id e.order_symbol_by_id)) [
    | inl n ↦ rw (n, on_order_ack) h
    | inr (symbol, n) ↦
        let ex = exchange_of symbol e in
        let e' = put_exchange symbol ex e in
        elim (Option-cases (Exchange.get_order id ex)) [
          | inl m ↦ rw (n, m, on_order_ack) (ack_limit-IsBooked symbol id e' h)
          | inr (o, m) ↦ elim (OrderType-cases o.order_type) [
            | inl t ↦ rw (n, m, t, on_order_ack) (ack_market-IsBooked symbol id o e' h)
            | inr t ↦ rw (n, m, t, on_order_ack) (ack_limit-IsBooked symbol id e' h)
          ]
        ]
  ]
