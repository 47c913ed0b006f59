-- ===== src/Sweep.antt =====
-- backtester-core/src/sweep.rs: `run_parameter_sweep`. The thread pool is rayon's: the runs share
-- nothing, and `collect` gathers their results.
pub mod Laws
use crypto_rs_backtester.Prelude.{
  ℕ, suc, ◌+◌, ◌%◌, ◌≡◌, Option, none, some, List, [], ◌∷◌, map, Result, ok, err,
}
use crypto_rs_backtester.Prelude.Int.{ℤ}
use crypto_rs_backtester.Event.{EventKind}
use crypto_rs_backtester.Stats.Summary.{BacktestStats, StatsBackend}
use crypto_rs_backtester.Engine
use crypto_rs_backtester.Engine.{Env, Engine, EngineConfig, EngineError}
use crypto_rs_backtester.Engine.Step

-- `into_par_iter().enumerate().map(run)`, from an index.
unfoldable pub map_indexed : {S B : Type 0} → (ℕ → S → B) → ℕ → List S → List B
map_indexed run i [] = []
map_indexed run i (s ∷ ss) = run i s ∷ map_indexed run (suc i) ss

-- Every run has ended; none if the fuel of one ran out.
unfoldable pub all_ended : {A : Type 0} → List (Option A) → Option (List A)
all_ended [] = some []
all_ended (none ∷ rest) = none
all_ended (some a ∷ rest) = elim (all_ended rest) [ none ↦ none | some others ↦ some (a ∷ others) ]

-- The runs, and their results by `collect`.
unfoldable pub run_all :
    {S A X : Type 0}
    → (List (Result A X) → Result (List A) X)
    → (ℕ → S → Option (Result A X))
    → List S
    → Option (Result (List A) X)
unfolding map_indexed all_ended
run_all collect run ss = elim (all_ended (map_indexed run 0 ss)) [
  | none ↦ none
  | some results ↦ some (collect results)
]

-- `base_seed.wrapping_add(index as u64)`
abbrev pub seed_at : ℕ → ℕ → ℕ
seed_at base_seed index = (base_seed + index) % 18446744073709551616

module _ {E : Env} where
  unfoldable pub push_events : List (ℤ × EventKind) → Engine E → Engine E
  unfolding Engine.push_event
  push_events [] e = e
  push_events ((ts, kind) ∷ events) e = push_events events (Engine.push_event ts kind e)

  -- The run of the strategy at an index, on fuel as the engine's `run`.
  unfoldable pub sweep_run :
      StatsBackend E.floats
      → ℕ
      → (ℕ → ℤ)
      → ℕ
      → EngineConfig
      → List (ℤ × EventKind)
      → ℕ
      → E.strategy.State
      → Option (Result (BacktestStats E.floats) (EngineError E))
  unfolding push_events Engine.new Step.run Step.stats
  sweep_run backend fuel clock n base_config events index strategy =
      let config = record base_config { seed = seed_at base_config.seed index } in
      elim (Step.run fuel clock n (push_events events (Engine.new strategy config))) [
        | none ↦ none
        | some (err x, e) ↦ some (err x)
        | some (ok done, e) ↦ some (ok (Step.stats backend e))
      ]

  unfoldable pub run_parameter_sweep :
      (List (Result (BacktestStats E.floats) (EngineError E))
        → Result (List (BacktestStats E.floats)) (EngineError E))
      → StatsBackend E.floats
      → ℕ
      → (ℕ → ℤ)
      → ℕ
      → EngineConfig
      → List E.strategy.State
      → List (ℤ × EventKind)
      → Option (Result (List (BacktestStats E.floats)) (EngineError E))
  unfolding run_all sweep_run
  run_parameter_sweep collect backend fuel clock n base_config strategies events =
      run_all collect (sweep_run backend fuel clock n base_config events) strategies
