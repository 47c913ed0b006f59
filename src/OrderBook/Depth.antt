-- ===== src/OrderBook/Depth.antt =====
-- backtester-core/src/orderbook_l2.rs, `trait MarketDepth`.
use crypto_rs_backtester.Prelude.{ℕ, List}
use crypto_rs_backtester.Prelude.Int.{ℤ}
use crypto_rs_backtester.Types.{Side}

pub record MarketDepth : Type 0 where
  pub level_qty : Side → ℤ → ℤ
  pub qty_ahead : Side → ℤ → ℕ → ℤ
  pub orders_ahead : Side → ℤ → ℕ → List (ℕ × ℤ)
