-- ===== src/Stats/Curve/Laws.antt =====
-- backtester-core/src/stats.rs: the two forms of the equity curve.
use crypto_rs_backtester.Prelude.{◌≡◌, refl, ap, List, [], ◌∷◌}
use crypto_rs_backtester.Prelude.Int.{ℤ, pos}
use crypto_rs_backtester.Prelude.I64.{saturating_add}
use crypto_rs_backtester.Stats.Curve.{
  curve_from, curve_simd_from, equity_curve_from_pnl_deltas, equity_curve_from_pnl_deltas_simd,
}

curve_simd_from-curve_from :
    (equity : ℤ) (deltas : List (ℤ × ℤ)) → curve_simd_from equity deltas ≡ curve_from equity deltas
unfolding curve_simd_from curve_from
curve_simd_from-curve_from equity [] = refl
curve_simd_from-curve_from equity (a ∷ []) = refl
curve_simd_from-curve_from equity (a ∷ b ∷ []) = refl
curve_simd_from-curve_from equity (a ∷ b ∷ c ∷ []) = refl
curve_simd_from-curve_from equity ((ts0, d0) ∷ (ts1, d1) ∷ (ts2, d2) ∷ (ts3, d3) ∷ deltas) =
    let e0 = saturating_add equity d0 in
    let e1 = saturating_add e0 d1 in
    let e2 = saturating_add e1 d2 in
    let e3 = saturating_add e2 d3 in
    ap (λ c. (ts0, e0) ∷ (ts1, e1) ∷ (ts2, e2) ∷ (ts3, e3) ∷ c)
      (curve_simd_from-curve_from e3 deltas)

-- The curve that is computed in blocks of four is the curve that is computed step by step, for every
-- list of deltas.
pub equity_curve_simd-equity_curve :
    (deltas : List (ℤ × ℤ))
    → equity_curve_from_pnl_deltas_simd deltas ≡ equity_curve_from_pnl_deltas deltas
unfolding equity_curve_from_pnl_deltas_simd equity_curve_from_pnl_deltas
equity_curve_simd-equity_curve deltas = curve_simd_from-curve_from (pos 0) deltas
