-- ===== src/Latency.antt =====
-- backtester-core/src/latency_model.rs: the trait `LatencyModel` and its constant model.
pub mod LogNormal
pub mod Bounds
use crypto_rs_backtester.Prelude.Int.{ℤ, pos, max_ℤ}

-- A sample draws from the engine's generator, whose state it returns.
pub record LatencyModel : Type 1 where
  pub Rng : Type 0
  pub sample_feed_latency : ℤ → Rng → ℤ × Rng
  pub sample_order_latency : ℤ → Rng → ℤ × Rng

pub record ConstantLatency : Type 0 where
  pub feed_latency_ns : ℤ
  pub order_latency_ns : ℤ

-- Nothing is drawn.
abbrev pub constant_latency : Type 0 → ConstantLatency → LatencyModel
constant_latency G c = record {
  Rng = G;
  sample_feed_latency = λ ts_exchange rng. (max_ℤ c.feed_latency_ns (pos 0), rng);
  sample_order_latency = λ ts_local rng. (max_ℤ c.order_latency_ns (pos 0), rng);
}
