-- ===== src/Stats/Summary.antt =====
-- backtester-core/src/stats.rs: the statistics of a session from its trade log.
use crypto_rs_backtester.Prelude.{ℕ, Bool, false, List, map, if◌then◌else◌, ltb, length}
use crypto_rs_backtester.Prelude.Int.{ℤ, pos, ltb_ℤ}
use crypto_rs_backtester.Prelude.I64.{neg_i64, signed64, div_i64}
use crypto_rs_backtester.Types.{scale}
use crypto_rs_backtester.Stats.{Floats}
use crypto_rs_backtester.Stats.Incremental.{
  IncrementalStats, sharpe_ratio, sortino_ratio, avg_holding_period,
}
use crypto_rs_backtester.Stats.Log.{TradeLog, is_off}

pub record BacktestStats (F : Floats) : Type 0 where
  pub total_trades : ℕ
  pub win_rate : F.F64
  pub profit_factor : F.F64
  pub sharpe : F.F64
  pub sortino : F.F64
  pub max_drawdown : F.F64
  pub max_drawdown_duration : ℤ
  pub calmar_ratio : F.F64
  pub total_pnl : ℤ
  pub avg_trade_pnl : ℤ
  pub avg_holding_period : ℤ
  pub total_fees_paid : ℤ
  pub killed : Bool

-- `StatsBackend`: the ratios of a series. The parallel implementation, whose order of additions is
-- that of the thread pool, is one.
pub record StatsBackend (F : Floats) : Type 0 where
  pub sharpe : List ℤ → F.F64
  pub sortino : List ℤ → F.F64

abbrev pub zero_f : (F : Floats) → F.F64
zero_f F = F.of_int (pos 0)

module _ {F : Floats} where
  abbrev pub no_stats : BacktestStats F
  no_stats = record {
    total_trades = 0;
    win_rate = zero_f F;
    profit_factor = zero_f F;
    sharpe = zero_f F;
    sortino = zero_f F;
    max_drawdown = zero_f F;
    max_drawdown_duration = pos 0;
    calmar_ratio = zero_f F;
    total_pnl = pos 0;
    avg_trade_pnl = pos 0;
    avg_holding_period = pos 0;
    total_fees_paid = pos 0;
    killed = false;
  }

  unfoldable pub win_rate : IncrementalStats F → F.F64
  win_rate inc =
      if ltb 0 inc.closed_trades
      then F.div (F.of_int (pos inc.win_count)) (F.of_int (pos inc.closed_trades))
      else zero_f F

  unfoldable pub profit_factor : IncrementalStats F → F.F64
  profit_factor inc =
      if ltb_ℤ inc.gross_loss (pos 0)
      then F.div (F.of_int inc.gross_profit) (F.of_int (neg_i64 inc.gross_loss))
      else if ltb_ℤ (pos 0) inc.gross_profit
      then F.infinity
      else zero_f F

  unfoldable pub calmar : IncrementalStats F → F.F64
  calmar inc =
      if F.less (zero_f F) inc.max_drawdown_pct
      then F.div (F.div (F.of_int inc.total_pnl) (F.of_int (pos scale)))
          (F.div inc.max_drawdown_pct (F.of_int (pos 100)))
      else zero_f F

  unfoldable pub avg_trade_pnl : IncrementalStats F → ℤ
  avg_trade_pnl inc =
      if ltb 0 inc.closed_trades then div_i64 inc.total_pnl (signed64 inc.closed_trades) else pos 0

  abbrev pub pnl_series : TradeLog F → List ℤ
  pnl_series log = map (λ p. p.1) log.pnl_history

  -- The fields that do not depend on how the two ratios are computed.
  abbrev pub stats_with : F.F64 → F.F64 → IncrementalStats F → BacktestStats F
  stats_with sharpe sortino inc = record {
    total_trades = inc.total_trades;
    win_rate = win_rate inc;
    profit_factor = profit_factor inc;
    sharpe = sharpe;
    sortino = sortino;
    max_drawdown = inc.max_drawdown_pct;
    max_drawdown_duration = inc.max_drawdown_duration;
    calmar_ratio = calmar inc;
    total_pnl = inc.total_pnl;
    avg_trade_pnl = avg_trade_pnl inc;
    avg_holding_period = avg_holding_period inc;
    total_fees_paid = inc.total_fees_paid;
    killed = false;
  }

  unfoldable pub calculate_stats_with_backend : StatsBackend F → TradeLog F → BacktestStats F
  unfolding win_rate profit_factor calmar avg_trade_pnl avg_holding_period
  calculate_stats_with_backend backend log =
      if is_off log.mode
      then no_stats
      else stats_with (backend.sharpe (pnl_series log)) (backend.sortino (pnl_series log))
          log.incremental

  -- `parallel` stands for the functions that run on the thread pool.
  unfoldable pub calculate_stats : StatsBackend F → TradeLog F → BacktestStats F
  unfolding win_rate profit_factor calmar avg_trade_pnl avg_holding_period sharpe_ratio
      sortino_ratio
  calculate_stats parallel log =
      if is_off log.mode
      then no_stats
      else if ltb 10000 (length log.pnl_history)
      then stats_with (parallel.sharpe (pnl_series log)) (parallel.sortino (pnl_series log))
          log.incremental
      else stats_with (sharpe_ratio log.incremental) (sortino_ratio log.incremental) log.incremental
