-- ===== src/Tests/Samples.antt =====
-- Concrete samples on whole numbers in place of floats: latencies and a series of profits and losses.
use crypto_rs_backtester.Prelude.{ℕ, ◌+◌, ◌≤◌, ◌≡◌, ◌⊎◌, List, [], ◌∷◌, true, refl, arith}
use crypto_rs_backtester.Prelude.Int.{ℤ, pos, negsuc, ◌+ℤ◌, ◌-ℤ◌, ◌*ℤ◌, ◌≤ℤ◌, max_ℤ, eqb_ℤ_iff}
use crypto_rs_backtester.Prelude.I64.{sat_i64, sat_i64-InI64}
use crypto_rs_backtester.Latency.LogNormal.{Sampling, LogNormalJitter, sample_lognormal_ns}
use crypto_rs_backtester.Latency.Bounds.{IsLatency, sample_lognormal_ns-IsLatency}
use crypto_rs_backtester.Stats.Ratios.{
  sortino_ratio_from_pnl_series, sortino_ratio_from_pnl_series_simd,
}
use crypto_rs_backtester.Stats.Ratios.Laws.{WholeExact, mass, loss_square, sortino_ratio_simd-eq}
use crypto_rs_backtester.Tests.Session.{whole_floats}

-- A generator that counts.
abbrev pub sampling : Sampling
sampling = record {
  floats = whole_floats;
  half = pos 0;
  pi = pos 3;
  min_positive = pos 1;
  ln = λ a. a;
  exp = λ a. a;
  cos = λ a. a;
  is_finite = λ a. true;
  round_to_i64 = sat_i64;
  Rng = ℕ;
  draw = λ n. (pos n, n + 1);
}

abbrev jitter : LogNormalJitter
jitter = record { mean_ns = pos 1000000; std_dev_ns = pos 250000 }

sample_lognormal_ns-IsLatency_example :
    IsLatency (sample_lognormal_ns sampling jitter 1).0
    × (((pos 1 ≤ℤ jitter.mean_ns) × (pos 1 ≤ℤ jitter.std_dev_ns))
        ⊎ (sample_lognormal_ns sampling jitter 1 ≡ (max_ℤ jitter.mean_ns (pos 0), 1)))
sample_lognormal_ns-IsLatency_example =
    sample_lognormal_ns-IsLatency sampling jitter 1 sat_i64-InI64 (λ n. eqb_ℤ_iff n (pos 0))
      (omega arith, omega arith)

exact : WholeExact whole_floats
unfolding ◌+ℤ◌ ◌-ℤ◌ ◌*ℤ◌
exact = record {
  add_whole = λ a b h k l. refl;
  start_whole = λ a h. ground arith;
  sub_zero = λ a h. ground arith;
  mul_whole = λ a h k. refl;
  min_zero = λ a h. refl;
  less_zero = λ a h. refl;
}

abbrev series : List ℤ
series = pos 5 ∷ negsuc 2 ∷ pos 7 ∷ negsuc 0 ∷ pos 4 ∷ negsuc 8 ∷ []

small_losses : mass loss_square series ≤ 9007199254740992
unfolding ◌*ℤ◌
small_losses = omega arith

sortino_ratio_simd-eq_example :
    sortino_ratio_from_pnl_series_simd whole_floats series
    ≡ sortino_ratio_from_pnl_series whole_floats series
sortino_ratio_simd-eq_example =
    sortino_ratio_simd-eq whole_floats series exact (omega arith) small_losses
