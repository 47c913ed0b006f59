-- ===== src/Latency/Bounds.antt =====
-- backtester-core/src/latency_model.rs: every sample is a word that is not negative, and the models
-- agree where there is nothing to draw.
use crypto_rs_backtester.Prelude.{◌≡◌, refl, ◌↔◌, true, false, arith, ap, Bool-cases, inl, inr, ◌⊎◌}
use crypto_rs_backtester.Prelude.Int.{ℤ, pos, max_ℤ, leb_ℤ, ◌≤ℤ◌}
use crypto_rs_backtester.Prelude.I64.{i64_max, InI64}
use crypto_rs_backtester.Latency.{LatencyModel, ConstantLatency, constant_latency}
use crypto_rs_backtester.Latency.LogNormal.{
  Sampling, LogNormalJitter, sample_lognormal_ns, to_ns, log_normal_jitter,
}

-- A latency as the engine may add it to a time.
abbrev pub IsLatency : ℤ → Type 0
IsLatency d = (pos 0 ≤ℤ d) × (d ≤ℤ i64_max)

-- Both samples of a model are latencies.
pub record HasLatencies (L : LatencyModel) : Type 0 where
  pub feed : (ts : ℤ) (rng : L.Rng) → IsLatency (L.sample_feed_latency ts rng).0
  pub order : (ts : ℤ) (rng : L.Rng) → IsLatency (L.sample_order_latency ts rng).0

clamped-IsLatency : (d : ℤ) → InI64 d → IsLatency (max_ℤ d (pos 0))
clamped-IsLatency d h = ground arith

-- The samples of a constant model whose delays are words are not negative and fit an i64.
pub constant_latency-HasLatencies :
    (G : Type 0) (c : ConstantLatency)
    → InI64 c.feed_latency_ns
    → InI64 c.order_latency_ns
    → HasLatencies (constant_latency G c)
constant_latency-HasLatencies G c f o = record {
  feed = λ ts rng. clamped-IsLatency c.feed_latency_ns f;
  order = λ ts rng. clamped-IsLatency c.order_latency_ns o;
}

module _ (S : Sampling) where
  -- The cast `as i64` saturates.
  abbrev pub Casts : Type 0
  Casts = (x : S.F64) → InI64 (S.round_to_i64 x)

  -- The cast of an integer to f64 is 0.0 for 0 only, and `==` sees that.
  abbrev pub SeesZero : Type 0
  SeesZero = (n : ℤ) → (S.same (S.of_int n) (S.of_int (pos 0)) ≡ true) ↔ (n ≡ pos 0)

  to_ns-IsLatency : Casts → (x : S.F64) → IsLatency (to_ns S x)
  unfolding to_ns
  to_ns-IsLatency casts x = ground (arith, clamped-IsLatency (S.round_to_i64 x), casts x)

  zero-cases :
      SeesZero
      → (n : ℤ)
      → ((pos 1 ≤ℤ n) × (S.same (S.of_int (max_ℤ n (pos 0))) (S.of_int (pos 0)) ≡ false))
        ⊎ ((n ≤ℤ pos 0) × (S.same (S.of_int (max_ℤ n (pos 0))) (S.of_int (pos 0)) ≡ true))
  zero-cases zero_only n = elim (Bool-cases (leb_ℤ n (pos 0))) [
    | inl low ↦ inr (ground arith, ground (arith, zero_only (max_ℤ n (pos 0))))
    | inr high ↦ inl (ground arith, ground (arith, zero_only (max_ℤ n (pos 0))))
  ]

  -- Every sample of the log-normal model is not negative and fits an i64, whatever the generator
  -- draws and the functions on f64 give, if the mean is a word, the cast saturates, and only the
  -- integer 0 is equal to 0.0; and either the mean and the deviation are positive, or the sample is
  -- the mean, or 0 if that is negative, and nothing is drawn.
  pub sample_lognormal_ns-IsLatency :
      (j : LogNormalJitter) (rng : S.Rng)
      → Casts
      → SeesZero
      → InI64 j.mean_ns
      → IsLatency (sample_lognormal_ns S j rng).0
        × (((pos 1 ≤ℤ j.mean_ns) × (pos 1 ≤ℤ j.std_dev_ns))
            ⊎ (sample_lognormal_ns S j rng ≡ (max_ℤ j.mean_ns (pos 0), rng)))
  unfolding sample_lognormal_ns
  sample_lognormal_ns-IsLatency j rng casts zero_only fits =
      let mean = clamped-IsLatency j.mean_ns fits in
      elim (zero-cases zero_only j.mean_ns) [
        | inr (low, z) ↦ rw z (ground arith, inr (ap (λ d. (d, rng)) (ground arith)))
        | inl (high, z) ↦ elim (zero-cases zero_only j.std_dev_ns) [
          | inr (flat, y) ↦ rw (z, y) (mean, inr refl)
          | inl (wide, y) ↦ rw (z, y) (to_ns-IsLatency casts _, inl (high, wide))
        ]
      ]

  pub log_normal_jitter-HasLatencies :
      (j : LogNormalJitter)
      → Casts
      → SeesZero
      → InI64 j.mean_ns
      → HasLatencies (log_normal_jitter S j)
  log_normal_jitter-HasLatencies j casts zero_only fits = record {
    feed = λ ts rng. (sample_lognormal_ns-IsLatency j rng casts zero_only fits).0;
    order = λ ts rng. (sample_lognormal_ns-IsLatency j rng casts zero_only fits).0;
  }
