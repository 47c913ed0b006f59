-- ===== src/Stats/Ratios.antt =====
-- backtester-core/src/stats.rs: the Sharpe and Sortino ratios of a whole series, in the plain form, on
-- four lanes at once, and on a thread pool.
pub mod Laws
use crypto_rs_backtester.Prelude.{List, [], ◌∷◌, map, if◌then◌else◌, ltb, length}
use crypto_rs_backtester.Prelude.Int.{ℤ, pos}
use crypto_rs_backtester.Stats.{Floats}
use crypto_rs_backtester.Stats.Summary.{StatsBackend}

unfoldable pub foldl {ℓ κ} : {A : Type ℓ} {B : Type κ} → (B → A → B) → B → List A → B
foldl f b [] = b
foldl f b (x ∷ xs) = foldl f (f b x) xs

-- `par_iter().reduce(|| e, op)` of the crate rayon.
pub record ThreadPool : Type 1 where
  pub reduce : (A : Type 0) → A → (A → A → A) → List A → A

module _ (F : Floats) where
  open F use {F64, of_int, add, sub, mul, div, min, max, sum_start, sqrt, less, same}

  abbrev pub zero_f : F64
  zero_f = of_int (pos 0)

  -- `iter().sum::<f64>()`
  unfoldable pub sum_f64 : List F64 → F64
  unfolding foldl
  sum_f64 xs = foldl add sum_start xs

  abbrev pub count : List ℤ → F64
  count pnl = of_int (pos (length pnl))

  -- `mean / std`, with 0.0 for a series that does not vary.
  abbrev pub ratio : F64 → F64 → F64
  ratio mean std = if same std zero_f then zero_f else div mean std

  abbrev pub square_diff : F64 → F64 → F64
  square_diff mean v = let d = sub v mean in mul d d

  unfoldable pub sharpe_ratio_from_pnl_series : List ℤ → F64
  sharpe_ratio_from_pnl_series pnl =
      let mean = div (sum_f64 (map of_int pnl)) (count pnl) in
      let var =
        div (sum_f64 (map (λ x. square_diff mean (of_int x)) pnl))
          (sub (count pnl) (of_int (pos 1))) in
      if ltb (length pnl) 2 then zero_f else ratio mean (sqrt var)

  abbrev pub downside : ℤ → F64
  downside x = let d = sub (of_int x) zero_f in if less d zero_f then mul d d else zero_f

  unfoldable pub sortino_ratio_from_pnl_series : List ℤ → F64
  sortino_ratio_from_pnl_series pnl =
      let mean = div (sum_f64 (map of_int pnl)) (count pnl) in
      let downside_var = div (sum_f64 (map downside pnl)) (count pnl) in
      if ltb (length pnl) 2 then zero_f else ratio mean (sqrt downside_var)

  -- `f64x4`
  pub record Lanes : Type 0 where
    pub v0 : F64
    pub v1 : F64
    pub v2 : F64
    pub v3 : F64

  abbrev pub splat : F64 → Lanes
  splat x = record { v0 = x; v1 = x; v2 = x; v3 = x }

  -- `sum_vec += f(v)` for each block of four, with the elements that are left.
  unfoldable pub sum_chunks : (F64 → F64) → Lanes → List ℤ → Lanes × List ℤ
  sum_chunks f sum_vec (a ∷ b ∷ c ∷ d ∷ rest) =
      sum_chunks f
        (record {
          v0 = add sum_vec.v0 (f (of_int a));
          v1 = add sum_vec.v1 (f (of_int b));
          v2 = add sum_vec.v2 (f (of_int c));
          v3 = add sum_vec.v3 (f (of_int d));
        })
        rest
  sum_chunks f sum_vec rest = (sum_vec, rest)

  unfoldable pub simd_reduce_sum : Lanes → F64
  unfolding sum_f64
  simd_reduce_sum v = sum_f64 (v.v0 ∷ v.v1 ∷ v.v2 ∷ v.v3 ∷ [])

  unfoldable pub simd_sum_f64_from_i64 : List ℤ → F64
  unfolding sum_chunks simd_reduce_sum foldl
  simd_sum_f64_from_i64 pnl =
      let (sum_vec, remainder) = sum_chunks (λ v. v) (splat zero_f) pnl in
      foldl (λ sum x. add sum (of_int x)) (simd_reduce_sum sum_vec) remainder

  unfoldable pub simd_sum_sq_diff : List ℤ → F64 → F64
  unfolding sum_chunks simd_reduce_sum foldl
  simd_sum_sq_diff pnl mean =
      let (sum_vec, remainder) = sum_chunks (square_diff mean) (splat zero_f) pnl in
      foldl (λ sum x. add sum (square_diff mean (of_int x))) (simd_reduce_sum sum_vec) remainder

  abbrev pub square_neg : F64 → F64
  square_neg v = let neg = min v zero_f in mul neg neg

  abbrev pub add_downside : F64 → ℤ → F64
  add_downside sum x = let d = of_int x in if less d zero_f then add sum (mul d d) else sum

  unfoldable pub simd_sum_downside_sq : List ℤ → F64
  unfolding sum_chunks simd_reduce_sum foldl
  simd_sum_downside_sq pnl =
      let (sum_vec, remainder) = sum_chunks square_neg (splat zero_f) pnl in
      foldl add_downside (simd_reduce_sum sum_vec) remainder

  unfoldable pub sharpe_ratio_from_pnl_series_simd : List ℤ → F64
  sharpe_ratio_from_pnl_series_simd pnl =
      let mean = div (simd_sum_f64_from_i64 pnl) (count pnl) in
      let var = div (simd_sum_sq_diff pnl mean) (sub (count pnl) (of_int (pos 1))) in
      if ltb (length pnl) 2 then zero_f else ratio mean (sqrt var)

  unfoldable pub sortino_ratio_from_pnl_series_simd : List ℤ → F64
  sortino_ratio_from_pnl_series_simd pnl =
      let mean = div (simd_sum_f64_from_i64 pnl) (count pnl) in
      let downside_var = div (simd_sum_downside_sq pnl) (count pnl) in
      if ltb (length pnl) 2 then zero_f else ratio mean (sqrt downside_var)

  -- The two sums at once.
  abbrev pub add_both : F64 × F64 → F64 × F64 → F64 × F64
  add_both acc val = (add acc.0 val.0, add acc.1 val.1)

  module _ (pool : ThreadPool) where
    abbrev pub reduce_both : (F64 → F64) → List ℤ → F64 × F64
    reduce_both f pnl =
        pool.reduce (F64 × F64) (zero_f, zero_f) add_both
          (map (λ x. let val = of_int x in (val, f val)) pnl)

    unfoldable pub sharpe_ratio_from_pnl_series_parallel : List ℤ → F64
    sharpe_ratio_from_pnl_series_parallel pnl =
        let (sum, sum_sq) = reduce_both (λ val. mul val val) pnl in
        let mean = div sum (count pnl) in
        let numerator = sub sum_sq (mul (mul (count pnl) mean) mean) in
        let var = div (max numerator zero_f) (sub (count pnl) (of_int (pos 1))) in
        if ltb (length pnl) 2 then zero_f else ratio mean (sqrt var)

    unfoldable pub sortino_ratio_from_pnl_series_parallel : List ℤ → F64
    sortino_ratio_from_pnl_series_parallel pnl =
        let (sum, downside_sq_sum) =
          reduce_both (λ val. if less val zero_f then mul val val else zero_f) pnl in
        let mean = div sum (count pnl) in
        let downside_var = div downside_sq_sum (count pnl) in
        if ltb (length pnl) 2 then zero_f else ratio mean (sqrt downside_var)

    abbrev pub cpu_stats_backend : StatsBackend F
    cpu_stats_backend = record {
      sharpe = sharpe_ratio_from_pnl_series_parallel;
      sortino = sortino_ratio_from_pnl_series_parallel;
    }
