-- ===== src/Stats/Curve.antt =====
-- backtester-core/src/stats.rs: the equity curve, in two forms, and its greatest fall.
pub mod Laws
use crypto_rs_backtester.Prelude.{ℕ, Bool, List, [], ◌∷◌, if◌then◌else◌}
use crypto_rs_backtester.Prelude.Int.{ℤ, pos, ltb_ℤ, leb_ℤ}
use crypto_rs_backtester.Prelude.I64.{sub_i64, saturating_add, saturating_sub}
use crypto_rs_backtester.Stats.{Floats}

-- The loop, from an equity.
unfoldable pub curve_from : ℤ → List (ℤ × ℤ) → List (ℤ × ℤ)
curve_from equity [] = []
curve_from equity ((ts, d) ∷ deltas) =
    let equity' = saturating_add equity d in (ts, equity') ∷ curve_from equity' deltas

unfoldable pub equity_curve_from_pnl_deltas : List (ℤ × ℤ) → List (ℤ × ℤ)
unfolding curve_from
equity_curve_from_pnl_deltas deltas = curve_from (pos 0) deltas

-- The loop over blocks of four, and the loop over what is left.
unfoldable pub curve_simd_from : ℤ → List (ℤ × ℤ) → List (ℤ × ℤ)
unfolding curve_from
curve_simd_from equity ((ts0, d0) ∷ (ts1, d1) ∷ (ts2, d2) ∷ (ts3, d3) ∷ deltas) =
    let e0 = saturating_add equity d0 in
    let e1 = saturating_add e0 d1 in
    let e2 = saturating_add e1 d2 in
    let e3 = saturating_add e2 d3 in
    (ts0, e0) ∷ (ts1, e1) ∷ (ts2, e2) ∷ (ts3, e3) ∷ curve_simd_from e3 deltas
curve_simd_from equity rest = curve_from equity rest

unfoldable pub equity_curve_from_pnl_deltas_simd : List (ℤ × ℤ) → List (ℤ × ℤ)
unfolding curve_simd_from
equity_curve_from_pnl_deltas_simd deltas = curve_simd_from (pos 0) deltas

-- The peak so far, and the greatest fall with its duration.
pub record Drawdown (F : Floats) : Type 0 where
  pub peak_ts : ℤ
  pub peak_eq : ℤ
  pub max_dd : F.F64
  pub max_dd_dur : ℤ

module _ {F : Floats} where
  unfoldable pub drawdown_step : ℤ → ℤ → Drawdown F → Drawdown F
  drawdown_step ts eq d =
      let dd = F.div (F.of_int (sub_i64 d.peak_eq eq)) (F.of_int d.peak_eq) in
      if ltb_ℤ d.peak_eq eq
      then record d { peak_eq = eq; peak_ts = ts }
      else if leb_ℤ d.peak_eq (pos 0)
      then d
      else if F.less d.max_dd dd
      then record d {
        max_dd = F.min dd (F.of_int (pos 1));
        max_dd_dur = saturating_sub ts d.peak_ts;
      }
      else d

  unfoldable pub drawdown_from : List (ℤ × ℤ) → Drawdown F → Drawdown F
  unfolding drawdown_step
  drawdown_from [] d = d
  drawdown_from ((ts, eq) ∷ curve) d = drawdown_from curve (drawdown_step ts eq d)

unfoldable pub max_drawdown_pct_and_duration : (F : Floats) → List (ℤ × ℤ) → F.F64 × ℤ
unfolding drawdown_from
max_drawdown_pct_and_duration F [] = (F.of_int (pos 0), pos 0)
max_drawdown_pct_and_duration F ((ts, eq) ∷ curve) =
    let d =
      drawdown_from {F = F} curve
        (record { peak_ts = ts; peak_eq = eq; max_dd = F.of_int (pos 0); max_dd_dur = pos 0 }) in
    (F.mul d.max_dd (F.of_int (pos 100)), d.max_dd_dur)
