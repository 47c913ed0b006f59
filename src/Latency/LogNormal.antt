-- ===== src/Latency/LogNormal.antt =====
-- backtester-core/src/latency_model.rs: `LogNormalJitter`. The arithmetic on f64, the cast to i64 and
-- the generator are parameters.
use crypto_rs_backtester.Prelude.{◌||◌, not, Bool, if◌then◌else◌}
use crypto_rs_backtester.Prelude.Int.{ℤ, pos, negsuc, max_ℤ}
use crypto_rs_backtester.Prelude.I64.{i64_max}
use crypto_rs_backtester.Stats.{Floats}
use crypto_rs_backtester.Latency.{LatencyModel}

-- The operations on f64 that the sample uses beside those of the statistics, with the generator.
-- `round_to_i64` is `x.round() as i64`, and `draw` is `rng.gen()`.
pub record Sampling : Type 1 where
  pub floats : Floats
  pub open floats use *
  pub half : F64
  pub pi : F64
  pub min_positive : F64
  pub ln : F64 → F64
  pub exp : F64 → F64
  pub cos : F64 → F64
  pub is_finite : F64 → Bool
  pub round_to_i64 : F64 → ℤ
  pub Rng : Type 0
  pub draw : Rng → F64 × Rng

pub record LogNormalJitter : Type 0 where
  pub mean_ns : ℤ
  pub std_dev_ns : ℤ

module _ (S : Sampling) where
  open S use {
    F64, of_int, add, sub, mul, div, sqrt, less, same, half, pi, min_positive, ln, exp, cos,
    is_finite, round_to_i64, Rng, draw,
  }

  -- A standard normal sample by Box-Muller, from two draws.
  unfoldable pub box_muller : Rng → F64 × Rng
  box_muller rng =
      let (drawn, rng') = draw rng in
      let u1 = if same drawn (of_int (pos 0)) then min_positive else drawn in
      let (u2, rng'') = draw rng' in
      (mul (sqrt (mul (of_int (negsuc 1)) (ln u1))) (cos (mul (mul (of_int (pos 2)) pi) u2)), rng'')

  -- The sample as a number of nanoseconds; what is too large for an i64 is its maximum.
  unfoldable pub to_ns : F64 → ℤ
  to_ns x =
      if not (is_finite x) || not (less x (of_int i64_max))
      then i64_max
      else max_ℤ (round_to_i64 x) (pos 0)

  unfoldable pub sample_lognormal_ns : LogNormalJitter → Rng → ℤ × Rng
  unfolding box_muller to_ns
  sample_lognormal_ns j rng =
      let mean_ns = of_int (max_ℤ j.mean_ns (pos 0)) in
      let std_dev_ns = of_int (max_ℤ j.std_dev_ns (pos 0)) in
      if same mean_ns (of_int (pos 0))
      then (pos 0, rng)
      else if same std_dev_ns (of_int (pos 0))
      then (max_ℤ j.mean_ns (pos 0), rng)
      else let var_ratio = div (mul std_dev_ns std_dev_ns) (mul mean_ns mean_ns) in
        let sigma2 = ln (add (of_int (pos 1)) var_ratio) in
        let sigma = sqrt sigma2 in
        let mu = sub (ln mean_ns) (mul half sigma2) in
        let (z0, rng') = box_muller rng in (to_ns (exp (add mu (mul sigma z0))), rng')

  abbrev pub log_normal_jitter : LogNormalJitter → LatencyModel
  log_normal_jitter j = record {
    Rng = Rng;
    sample_feed_latency = λ ts_exchange rng. sample_lognormal_ns j rng;
    sample_order_latency = λ ts_local rng. sample_lognormal_ns j rng;
  }
