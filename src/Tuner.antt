-- ===== src/Tuner.antt =====
-- backtester-core/src/tuner.rs: the tuner of the batch size. The arithmetic on f64 is a parameter:
-- the test of the latency per tick, and the scaling by 0.8 with its cast back to i64. The targets are
-- of the parameter's own type.
pub mod Bounds
use crypto_rs_backtester.Prelude.{ℕ, ◌+◌, ◌%◌, Bool, if◌then◌else◌, eqb, not}
use crypto_rs_backtester.Prelude.Int.{ℤ, pos, min_ℤ, max_ℤ, div_trunc}
use crypto_rs_backtester.Prelude.I64.{add_i64, next_u64}

-- `latency_below d n target`: `d as f64 / n as f64 < target`; `scaled_down c`: `(c as f64 * 0.8) as i64`.
pub record FloatOps : Type 1 where
  pub Target : Type 0
  pub latency_below : ℤ → ℕ → Target → Bool
  pub scaled_down : ℤ → ℤ

-- `v.clamp(lo, hi)`.
abbrev pub clamp : ℤ → ℤ → ℤ → ℤ
clamp lo hi v = min_ℤ (max_ℤ v lo) hi

pub record BatchTuner (T : Type 0) : Type 0 where
  pub min_batch_ns : ℤ
  pub max_batch_ns_limit : ℤ
  pub target_latency_per_tick_ns : T
  pub current_batch_ns : ℤ
  pub sample_count : ℕ

unfoldable pub new : {T : Type 0} → ℤ → ℤ → ℤ → T → BatchTuner T
new min_batch_ns max_batch_ns_limit initial_batch_ns target =
    let effective_min = min_ℤ min_batch_ns max_batch_ns_limit in
    let effective_max = max_ℤ min_batch_ns max_batch_ns_limit in
    record {
      min_batch_ns = effective_min;
      max_batch_ns_limit = effective_max;
      target_latency_per_tick_ns = target;
      current_batch_ns = clamp effective_min effective_max initial_batch_ns;
      sample_count = 0;
    }

unfoldable pub record_batch : (F : FloatOps) → ℤ → ℕ → BatchTuner F.Target → BatchTuner F.Target
record_batch F batch_duration_ns num_ticks t =
    let count = next_u64 t.sample_count in
    let counted = record t { sample_count = count } in
    let increase = max_ℤ (div_trunc t.current_batch_ns 10) (pos 100000) in
    if eqb num_ticks 0
    then t
    else if not (eqb (count % 10) 0)
    then counted
    else if F.latency_below batch_duration_ns num_ticks t.target_latency_per_tick_ns
    then record counted {
      current_batch_ns = min_ℤ (add_i64 t.current_batch_ns increase) t.max_batch_ns_limit;
    }
    else record counted {
      current_batch_ns =
          clamp t.min_batch_ns t.max_batch_ns_limit (F.scaled_down t.current_batch_ns);
    }
