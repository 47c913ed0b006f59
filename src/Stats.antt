-- ===== src/Stats.antt =====
-- backtester-core/src/stats.rs: fills, the retention modes of the log, and the position that the
-- statistics keep for each symbol. The arithmetic on f64 is a parameter.
pub mod Positions
pub mod Incremental
pub mod Log
pub mod Curve
pub mod Ratios
pub mod Summary
use crypto_rs_backtester.Prelude.{ℕ, Bool}
use crypto_rs_backtester.Prelude.Int.{ℤ, pos}
use crypto_rs_backtester.Types.{Side}

-- The operations on f64 that the statistics use; `of_int` is the cast `as f64`, and `sum_start` what
-- `sum` starts from.
pub record Floats : Type 1 where
  pub F64 : Type 0
  pub of_int : ℤ → F64
  pub infinity : F64
  pub add : F64 → F64 → F64
  pub sub : F64 → F64 → F64
  pub mul : F64 → F64 → F64
  pub div : F64 → F64 → F64
  pub min : F64 → F64 → F64
  pub max : F64 → F64 → F64
  pub sum_start : F64
  pub sqrt : F64 → F64
  pub less : F64 → F64 → Bool
  pub same : F64 → F64 → Bool

pub record TradeFill : Type 0 where
  pub ts_exchange : ℤ
  pub order_id : ℕ
  pub price : ℤ
  pub qty : ℤ
  pub fee : ℤ
  pub symbol_id : ℕ
  pub side : Side
  pub is_taker : Bool

pub record PnlEvent : Type 0 where
  pub ts_exchange : ℤ
  pub pnl : ℤ

pub data TradeLogMode : Type 0 where
  all : TradeLogMode
  ring_buffer : ℕ → TradeLogMode
  summary_only none : TradeLogMode

pub record PosState : Type 0 where
  pub qty : ℤ
  pub avg_price : ℤ
  pub last_open_ts : ℤ

abbrev pub default_pos : PosState
default_pos = record { qty = pos 0; avg_price = pos 0; last_open_ts = pos 0 }
