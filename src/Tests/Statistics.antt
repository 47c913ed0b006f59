-- ===== src/Tests/Statistics.antt =====
-- Concrete runs of the trade log and the statistics.
use crypto_rs_backtester.Prelude.{◌≡◌, ◌∷◌, [], List, refl, false, arith, map}
use crypto_rs_backtester.Prelude.Int.{ℤ, pos, negsuc}
use crypto_rs_backtester.Types.{Order}
use crypto_rs_backtester.Stats.{TradeFill, TradeLogMode}
use crypto_rs_backtester.Stats.Positions.{pnl_deltas_from_fills}
use crypto_rs_backtester.Stats.Positions.Laws.{booked_pnl, pnl_deltas_from_fills-booked_pnl}
use crypto_rs_backtester.Stats.Incremental.{default_stats}
use crypto_rs_backtester.Stats.Incremental.Laws.{
  on_fills, count_closing, sum_holding, sum_fees, on_fills-pnl_deltas_from_fills,
}
use crypto_rs_backtester.Stats.Log.{new, fills_vec}
use crypto_rs_backtester.Stats.Log.Kept.{LogCall, called_fills, called_pnl, kept_fills}
use crypto_rs_backtester.Stats.Log.Laws.{run_calls, summary, run_calls-called}
use crypto_rs_backtester.Tests.{buy_order, sell_order}
use crypto_rs_backtester.Tests.Session.{whole_floats}

-- A fill of one unit.
abbrev fill_at : ℤ → Order → ℤ → TradeFill
fill_at ts o price = record {
  ts_exchange = ts;
  order_id = o.order_id;
  price = price;
  qty = pos 100000000;
  fee = pos 5;
  symbol_id = o.symbol_id;
  side = o.side;
  is_taker = false;
}

abbrev bought : TradeFill
bought = fill_at (pos 10) buy_order (pos 10000000000)

abbrev sold : TradeFill
sold = fill_at (pos 20) sell_order (pos 11000000000)

abbrev filled_orders : List (TradeFill × Order)
filled_orders = (bought, buy_order) ∷ (sold, sell_order) ∷ []

abbrev calls : List LogCall
calls = LogCall.fill bought ∷ LogCall.fill sold ∷ LogCall.delta (pos 20) (pos 999999990) ∷ []

run_calls-called_example :
    let log = run_calls calls (new {F = whole_floats} (TradeLogMode.ring_buffer 1)) in
    (fills_vec log ≡ kept_fills (TradeLogMode.ring_buffer 1) (called_fills calls))
    × (log.pnl_history ≡ called_pnl calls)
    × (log.incremental ≡ summary calls default_stats)
run_calls-called_example = run_calls-called whole_floats (TradeLogMode.ring_buffer 1) calls

pnl_deltas_from_fills-booked_pnl_example :
    map (λ d. d.pnl) (pnl_deltas_from_fills (bought ∷ sold ∷ []))
    ≡ booked_pnl filled_orders (record { positions = []; total_funding_pnl = pos 0 })
pnl_deltas_from_fills-booked_pnl_example = pnl_deltas_from_fills-booked_pnl filled_orders (pos 0) (
  record { same_side = refl; same_symbol = refl; qty_nonneg = omega arith },
  (record { same_side = refl; same_symbol = refl; qty_nonneg = omega arith }, tt),
)

on_fills-pnl_deltas_from_fills_example :
    let st = on_fills (bought ∷ sold ∷ []) (default_stats {F = whole_floats}) in
    let ds = pnl_deltas_from_fills (bought ∷ sold ∷ []) in
    (st.closed_trades ≡ count_closing 0 ds)
    × (st.total_holding_period ≡ sum_holding (pos 0) ds)
    × (st.total_fees_paid ≡ sum_fees (pos 0) (bought ∷ sold ∷ []))
on_fills-pnl_deltas_from_fills_example =
    on_fills-pnl_deltas_from_fills whole_floats (bought ∷ sold ∷ [])

abbrev five_deltas : List (ℤ × ℤ)
five_deltas =
    (pos 1, pos 5) ∷ (pos 2, negsuc 8) ∷ (pos 3, pos 4) ∷ (pos 4, pos 0) ∷ (pos 5, negsuc 0) ∷ []
