-- ===== src/Sweep/Laws.antt =====
-- backtester-core/src/sweep.rs: a sweep gives what the runs of its strategies give, in their order.
use crypto_rs_backtester.Prelude.{
  ℕ, suc, ◌+◌, ◌%◌, ◌≡◌, ◌↔◌, refl, sym, ap, ◌∙◌, Option, none, some, List, [], ◌∷◌, map, Result,
  ok, err, arith, Option-cases, inl, inr,
}
use crypto_rs_backtester.Prelude.Int.{ℤ}
use crypto_rs_backtester.Event.{EventKind}
use crypto_rs_backtester.Stats.Summary.{BacktestStats, StatsBackend}
use crypto_rs_backtester.Stats.Ratios.{foldl}
use crypto_rs_backtester.Engine
use crypto_rs_backtester.Engine.{Env, Engine, EngineConfig, EngineError, push_event}
use crypto_rs_backtester.Engine.Step
use crypto_rs_backtester.Sweep.{
  map_indexed, all_ended, run_all, push_events, sweep_run, run_parameter_sweep,
}

-- What `collect` of a parallel iterator into a `Result` promises: a list of results is gathered
-- exactly if none of them is an error, and then in its order.
abbrev pub Gathers : {A X : Type 0} → (List (Result A X) → Result (List A) X) → Type 0
Gathers {A} {X} collect =
    (results : List (Result A X)) (rs : List A) → (collect results ≡ ok rs) ↔ (results ≡ map ok rs)

-- Every run ends without an error, and the results stand at the places of the runs.
abbrev pub AllRun : {A X S : Type 0} → (ℕ → S → Option (Result A X)) → ℕ → List S → List A → Type 0
AllRun run i [] [] = Unit {0}
AllRun run i [] (r ∷ rs) = ⊥
AllRun run i (s ∷ ss) [] = ⊥
AllRun run i (s ∷ ss) (r ∷ rs) = (run i s ≡ some (ok r)) × AllRun run (suc i) ss rs

all_ended-AllRun :
    {A X S : Type 0} (run : ℕ → S → Option (Result A X)) (i : ℕ) (ss : List S) (rs : List A)
    → all_ended (map_indexed run i ss) ≡ some (map ok rs)
    → AllRun run i ss rs
unfolding all_ended map_indexed
all_ended-AllRun run i [] [] h = tt
all_ended-AllRun run i [] (r ∷ rs) h = cc h
all_ended-AllRun run i (s ∷ ss) [] h = elim (Option-cases (run i s)) [
  | inl p ↦ ground arith
  | inr (a, p) ↦ ground arith
]
all_ended-AllRun run i (s ∷ ss) (r ∷ rs) h = elim (Option-cases (run i s)) [
  | inl p ↦ ground arith
  | inr (a, p) ↦ elim (Option-cases (all_ended (map_indexed run (suc i) ss))) [
    | inl q ↦ ground arith
    | inr (others, q) ↦ (ground arith, all_ended-AllRun run (suc i) ss rs (ground arith))
  ]
]

AllRun-all_ended :
    {A X S : Type 0} (run : ℕ → S → Option (Result A X)) (i : ℕ) (ss : List S) (rs : List A)
    → AllRun run i ss rs
    → all_ended (map_indexed run i ss) ≡ some (map ok rs)
unfolding all_ended map_indexed
AllRun-all_ended run i [] [] h = refl
AllRun-all_ended run i [] (r ∷ rs) h = absurd h
AllRun-all_ended run i (s ∷ ss) [] h = absurd h
AllRun-all_ended run i (s ∷ ss) (r ∷ rs) h =
    ground (arith, h.0, AllRun-all_ended run (suc i) ss rs h.1)

pub run_all-AllRun :
    {A X S : Type 0} (collect : List (Result A X) → Result (List A) X)
    (run : ℕ → S → Option (Result A X)) (ss : List S) (rs : List A)
    → Gathers collect
    → (run_all collect run ss ≡ some (ok rs)) ↔ AllRun run 0 ss rs
unfolding run_all
run_all-AllRun collect run ss rs gathers = (gathered, spread)
  where
    gathered : run_all collect run ss ≡ some (ok rs) → AllRun run 0 ss rs
    gathered h = elim (Option-cases (all_ended (map_indexed run 0 ss))) [
      | inl p ↦ ground arith
      | inr (results, p) ↦
          all_ended-AllRun run 0 ss rs (p ∙ ap some ((gathers results rs).0 (ground arith)))
    ]

    spread : AllRun run 0 ss rs → run_all collect run ss ≡ some (ok rs)
    spread h = ground (arith, AllRun-all_ended run 0 ss rs h, (gathers (map ok rs) rs).1 refl)

module _ (E : Env) (backend : StatsBackend E.floats) (fuel : ℕ) (clock : ℕ → ℤ) (n : ℕ)
    (config : EngineConfig) (events : List (ℤ × EventKind)) where
  -- A new engine with the strategy, whose seed is raised by the place, and with all events pushed.
  abbrev pub loaded : ℕ → E.strategy.State → Engine E
  loaded place s =
      foldl (λ e ev. push_event ev.0 ev.1 e)
        (Engine.new s (record config { seed = (config.seed + place) % 18446744073709551616 }))
        events

  -- The run of that engine ends without an error and leaves these statistics.
  abbrev pub RunsAlone : ℕ → E.strategy.State → BacktestStats E.floats → Type 0
  RunsAlone place s r =
      (e : Engine E) × (Step.run fuel clock n (loaded place s) ≡ some (ok tt, e))
      × (Step.stats backend e ≡ r)

  abbrev pub AllRunAlone : ℕ → List E.strategy.State → List (BacktestStats E.floats) → Type 0
  AllRunAlone place [] [] = Unit {0}
  AllRunAlone place [] (r ∷ rs) = ⊥
  AllRunAlone place (s ∷ ss) [] = ⊥
  AllRunAlone place (s ∷ ss) (r ∷ rs) = RunsAlone place s r × AllRunAlone (suc place) ss rs

  push_events-foldl :
      (es : List (ℤ × EventKind)) (e : Engine E)
      → push_events es e ≡ foldl (λ e ev. push_event ev.0 ev.1 e) e es
  unfolding push_events foldl
  push_events-foldl [] e = refl
  push_events-foldl ((ts, kind) ∷ es) e = push_events-foldl es (push_event ts kind e)

  -- What a sweep makes of the end of a run.
  abbrev ended :
      Option (Result (Unit {0}) (EngineError E) × Engine E)
      → Option (Result (BacktestStats E.floats) (EngineError E))
  ended o = elim o [
    | none ↦ none
    | some (err x, e) ↦ some (err x)
    | some (ok done, e) ↦ some (ok (Step.stats backend e))
  ]

  sweep_run-ended :
      (place : ℕ) (s : E.strategy.State)
      → sweep_run {E = E} backend fuel clock n config events place s
        ≡ ended (Step.run fuel clock n (loaded place s))
  unfolding sweep_run
  sweep_run-ended place s =
      let fresh =
        Engine.new s (record config { seed = (config.seed + place) % 18446744073709551616 }) in
      ap (λ e. ended (Step.run fuel clock n e)) (push_events-foldl events fresh)

  ended-ok :
      (o : Option (Result (Unit {0}) (EngineError E) × Engine E)) (r : BacktestStats E.floats)
      → ended o ≡ some (ok r)
      → (e : Engine E) × (o ≡ some (ok tt, e)) × (Step.stats backend e ≡ r)
  ended-ok none r h = cc h
  ended-ok (some (err x, e)) r h = cc h
  ended-ok (some (ok done, e)) r h = (e, refl, cc h)

  run-alone :
      (place : ℕ) (s : E.strategy.State) (r : BacktestStats E.floats)
      → sweep_run {E = E} backend fuel clock n config events place s ≡ some (ok r)
      → RunsAlone place s r
  run-alone place s r h = ended-ok _ r (sym (sweep_run-ended place s) ∙ h)

  alone-run :
      (place : ℕ) (s : E.strategy.State) (r : BacktestStats E.floats)
      → RunsAlone place s r
      → sweep_run {E = E} backend fuel clock n config events place s ≡ some (ok r)
  alone-run place s r (e, ran, same) =
      sweep_run-ended place s ∙ ap ended ran ∙ ap (λ x. some (ok x)) same

  all-alone :
      (place : ℕ) (ss : List E.strategy.State) (rs : List (BacktestStats E.floats))
      → AllRun (sweep_run {E = E} backend fuel clock n config events) place ss rs
      → AllRunAlone place ss rs
  all-alone place [] [] h = tt
  all-alone place [] (r ∷ rs) h = absurd h
  all-alone place (s ∷ ss) [] h = absurd h
  all-alone place (s ∷ ss) (r ∷ rs) (h, others) =
      (run-alone place s r h, all-alone (suc place) ss rs others)

  alone-all :
      (place : ℕ) (ss : List E.strategy.State) (rs : List (BacktestStats E.floats))
      → AllRunAlone place ss rs
      → AllRun (sweep_run {E = E} backend fuel clock n config events) place ss rs
  alone-all place [] [] h = tt
  alone-all place [] (r ∷ rs) h = absurd h
  alone-all place (s ∷ ss) [] h = absurd h
  alone-all place (s ∷ ss) (r ∷ rs) (h, others) =
      (alone-run place s r h, alone-all (suc place) ss rs others)

-- Where the pool gathers results in order, a sweep succeeds exactly if, for each strategy, a new
-- engine whose seed is that of the configuration plus the strategy's place, wrapped, and into which
-- all events are pushed in order, runs to its end without an error; and the results are then the
-- statistics of those engines, in the order of the strategies.
pub run_parameter_sweep-AllRunAlone :
    {E : Env}
    (collect : List (Result (BacktestStats E.floats) (EngineError E))
      → Result (List (BacktestStats E.floats)) (EngineError E))
    (backend : StatsBackend E.floats) (fuel : ℕ) (clock : ℕ → ℤ) (n : ℕ) (config : EngineConfig)
    (strategies : List E.strategy.State) (events : List (ℤ × EventKind))
    (rs : List (BacktestStats E.floats))
    → Gathers collect
    → (run_parameter_sweep {E = E} collect backend fuel clock n config strategies events
        ≡ some (ok rs))
      ↔ AllRunAlone E backend fuel clock n config events 0 strategies rs
unfolding run_parameter_sweep
run_parameter_sweep-AllRunAlone {E = E} collect backend fuel clock n config ss events rs gathers =
    let swept =
      run_all-AllRun collect (sweep_run {E = E} backend fuel clock n config events) ss rs gathers in
    (
      λ h. all-alone E backend fuel clock n config events 0 ss rs (swept.0 h),
      λ h. swept.1 (alone-all E backend fuel clock n config events 0 ss rs h),
    )
