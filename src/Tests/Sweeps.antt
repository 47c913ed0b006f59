-- ===== src/Tests/Sweeps.antt =====
-- A concrete sweep of two strategies over no events.
use crypto_rs_backtester.Prelude.{
  ◌≡◌, ◌↔◌, refl, ap, ◌∙◌, map, some, List, [], ◌∷◌, Result, ok, err, Result-cases, inl, inr, arith,
}
use crypto_rs_backtester.Prelude.Int.{pos}
use crypto_rs_backtester.Stats.Summary.{BacktestStats, StatsBackend}
use crypto_rs_backtester.Engine
use crypto_rs_backtester.Engine.Step
use crypto_rs_backtester.Sweep.{run_parameter_sweep}
use crypto_rs_backtester.Sweep.Laws.{Gathers, AllRunAlone, run_parameter_sweep-AllRunAlone}
use crypto_rs_backtester.Tests.Session.{env, whole_floats, one_order}

-- The results up to the first error.
abbrev gather : {A X : Type 0} → List (Result A X) → Result (List A) X
gather [] = ok []
gather (err x ∷ rs) = err x
gather (ok a ∷ rs) = elim (gather rs) [ err x ↦ err x | ok others ↦ ok (a ∷ others) ]

gather-ok : {A X : Type 0} (rs : List A) → gather {A = A} {X = X} (map ok rs) ≡ ok rs
gather-ok [] = refl
gather-ok {X = X} (r ∷ rs) = ground (arith, gather-ok {X = X} rs)

ok-gather :
    {A X : Type 0} (results : List (Result A X)) (rs : List A)
    → gather results ≡ ok rs
    → results ≡ map ok rs
ok-gather [] rs h = ground arith
ok-gather (err x ∷ results) rs h = ground arith
ok-gather (ok a ∷ results) rs h = elim (Result-cases (gather results)) [
  | inr (x, e) ↦ ground arith
  | inl (others, e) ↦ ground (arith, ok-gather results others e)
]

gather-Gathers : {A X : Type 0} → Gathers {A = A} {X = X} gather
gather-Gathers results rs = (ok-gather results rs, λ e. ap gather e ∙ gather-ok rs)

abbrev backend : StatsBackend whole_floats
backend = record { sharpe = λ l. pos 0; sortino = λ l. pos 0 }

-- The statistics of a run without events.
abbrev idle : BacktestStats whole_floats
unfolding Engine.new
idle = Step.stats {E = env} backend (Engine.new 0 one_order)

run_parameter_sweep-AllRunAlone_example :
    (run_parameter_sweep {E = env} gather backend 3 (λ n. pos 0) 3 one_order (0 ∷ 1 ∷ []) []
      ≡ some (ok (idle ∷ idle ∷ [])))
    ↔ AllRunAlone env backend 3 (λ n. pos 0) 3 one_order [] 0 (0 ∷ 1 ∷ []) (idle ∷ idle ∷ [])
run_parameter_sweep-AllRunAlone_example =
    run_parameter_sweep-AllRunAlone {E = env} gather backend 3 (λ n. pos 0) 3 one_order (0 ∷ 1 ∷ [])
      [] (idle ∷ idle ∷ []) gather-Gathers

-- Both runs end, and so does the sweep.
both_end :
    run_parameter_sweep {E = env} gather backend 3 (λ n. pos 0) 3 one_order (0 ∷ 1 ∷ []) []
    ≡ some (ok (idle ∷ idle ∷ []))
unfolding run_parameter_sweep idle
both_end = refl
