-- ===== src/Bindings/BacktestResult.antt =====
-- backtester-py/src/lib.rs: `BacktestResult` and its conversions for Python. An Arrow array is the list
-- of its values.
pub mod Laws
use Prim.Native.String.{String}
use crypto_rs_backtester.Prelude.{
  ℕ, Bool, Option, none, some, List, [], ◌∷◌, ◌++◌, map, length, if◌then◌else◌,
}
use crypto_rs_backtester.Prelude.Int.{ℤ, pos}
use crypto_rs_backtester.Collections.Map.{Map, get}
use crypto_rs_backtester.Types.{scale, as_i8}
use crypto_rs_backtester.Stats.{Floats, TradeFill}
use crypto_rs_backtester.Stats.Summary.{BacktestStats}
use crypto_rs_backtester.Stats.Log
use crypto_rs_backtester.Stats.Log.{TradeLog, is_off}
use crypto_rs_backtester.Stats.Curve.{equity_curve_from_pnl_deltas}
use crypto_rs_backtester.Bindings.{string_eq}

pub record BacktestResult (F : Floats) : Type 0 where
  pub trades : List TradeFill
  pub stats : BacktestStats F
  pub equity_curve : List (ℤ × ℤ)

-- What the items of a dict are.
pub data Item (F : Floats) : Type 0 where
  int : ℤ → Item F
  bool : Bool → Item F
  float : F.F64 → Item F

-- A dict of columns with its `_len`.
pub record Frame (F : Floats) : Type 0 where
  pub columns : Map String (List (Item F))
  pub size : ℕ

-- The builders after the loop over the trades.
pub record Builders (F : Floats) : Type 0 where
  pub ts : List (Item F)
  pub symbol : List (Item F)
  pub order : List (Item F)
  pub side : List (Item F)
  pub price : List (Item F)
  pub qty : List (Item F)
  pub fee : List (Item F)
  pub is_taker : List (Item F)

module _ {F : Floats} where
  abbrev pub nat_item : ℕ → Item F
  nat_item n = int (pos n)

  unfoldable pub trade_fill_to_pydict : TradeFill → Map String (Item F)
  unfolding as_i8
  trade_fill_to_pydict t =
      ("ts_exchange", int t.ts_exchange)
      ∷ ("symbol_id", nat_item t.symbol_id)
      ∷ ("order_id", nat_item t.order_id)
      ∷ ("side", int (as_i8 t.side))
      ∷ ("price", int t.price)
      ∷ ("qty", int t.qty)
      ∷ ("fee", int t.fee)
      ∷ ("is_taker", bool t.is_taker)
      ∷ []

  unfoldable pub backtest_stats_to_pydict : BacktestStats F → Map String (Item F)
  backtest_stats_to_pydict s =
      ("total_trades", nat_item s.total_trades)
      ∷ ("win_rate", float s.win_rate)
      ∷ ("profit_factor", float s.profit_factor)
      ∷ ("sharpe_ratio", float s.sharpe)
      ∷ ("sortino_ratio", float s.sortino)
      ∷ ("max_drawdown", float s.max_drawdown)
      ∷ ("max_drawdown_duration", int s.max_drawdown_duration)
      ∷ ("calmar_ratio", float s.calmar_ratio)
      ∷ ("total_pnl", int s.total_pnl)
      ∷ ("avg_trade_pnl", int s.avg_trade_pnl)
      ∷ ("avg_holding_period", int s.avg_holding_period)
      ∷ ("total_fees_paid", int s.total_fees_paid)
      ∷ ("killed", bool s.killed)
      ∷ []

  unfoldable pub stats : BacktestResult F → Map String (Item F)
  unfolding backtest_stats_to_pydict
  stats r = backtest_stats_to_pydict r.stats

  unfoldable pub trades : BacktestResult F → List (Map String (Item F))
  unfolding trade_fill_to_pydict
  trades r = map trade_fill_to_pydict r.trades

  abbrev pub no_builders : Builders F
  no_builders = record {
    ts = [];
    symbol = [];
    order = [];
    side = [];
    price = [];
    qty = [];
    fee = [];
    is_taker = [];
  }

  unfoldable pub append_trades : List TradeFill → Builders F → Builders F
  unfolding as_i8
  append_trades [] b = b
  append_trades (t ∷ ts) b = append_trades ts (record {
    ts = b.ts ++ int t.ts_exchange ∷ [];
    symbol = b.symbol ++ nat_item t.symbol_id ∷ [];
    order = b.order ++ nat_item t.order_id ∷ [];
    side = b.side ++ int (as_i8 t.side) ∷ [];
    price = b.price ++ int t.price ∷ [];
    qty = b.qty ++ int t.qty ∷ [];
    fee = b.fee ++ int t.fee ∷ [];
    is_taker = b.is_taker ++ bool t.is_taker ∷ [];
  })

  unfoldable pub trades_df : BacktestResult F → Frame F
  unfolding append_trades
  trades_df r =
      let b = append_trades r.trades no_builders in
      record {
        columns =
            ("ts_exchange", b.ts)
            ∷ ("symbol_id", b.symbol)
            ∷ ("order_id", b.order)
            ∷ ("side", b.side)
            ∷ ("price", b.price)
            ∷ ("qty", b.qty)
            ∷ ("fee", b.fee)
            ∷ ("is_taker", b.is_taker)
            ∷ [];
        size = length r.trades;
      }

  abbrev pub human : ℤ → Item F
  human n = float (F.div (F.of_int n) (F.of_int (pos scale)))

  -- The amounts divided by the scale.
  unfoldable pub stats_human : BacktestResult F → Map String (Item F)
  stats_human r =
      let s = r.stats in
      ("total_trades", nat_item s.total_trades)
      ∷ ("win_rate", float s.win_rate)
      ∷ ("profit_factor", float s.profit_factor)
      ∷ ("sharpe_ratio", float s.sharpe)
      ∷ ("sortino_ratio", float s.sortino)
      ∷ ("max_drawdown", float s.max_drawdown)
      ∷ ("max_drawdown_duration", int s.max_drawdown_duration)
      ∷ ("calmar_ratio", float s.calmar_ratio)
      ∷ ("total_pnl", human s.total_pnl)
      ∷ ("avg_trade_pnl", human s.avg_trade_pnl)
      ∷ ("avg_holding_period", int s.avg_holding_period)
      ∷ ("total_fees_paid", human s.total_fees_paid)
      ∷ ("killed", bool s.killed)
      ∷ []

  unfoldable pub append_points :
      List (ℤ × ℤ) → List (Item F) × List (Item F) → List (Item F) × List (Item F)
  append_points [] b = b
  append_points ((ts, eq) ∷ ps) b = append_points ps (b.0 ++ int ts ∷ [], b.1 ++ int eq ∷ [])

  unfoldable pub equity_curve_df : BacktestResult F → Frame F
  unfolding append_points
  equity_curve_df r =
      let b = append_points r.equity_curve ([], []) in
      record { columns = ("ts_exchange", b.0) ∷ ("equity", b.1) ∷ []; size = length r.equity_curve }

  unfoldable pub full_pnl_history : TradeLog F → List (ℤ × ℤ)
  full_pnl_history log = if is_off log.mode then [] else log.pnl_history

  -- The macro `extract!`, from an engine's log and statistics.
  unfoldable pub extract : TradeLog F → BacktestStats F → BacktestResult F
  unfolding full_pnl_history equity_curve_from_pnl_deltas
  extract log s = record {
    trades = Log.fills_vec log;
    stats = s;
    equity_curve = equity_curve_from_pnl_deltas (full_pnl_history log);
  }
