-- ===== src/Engine/Step/Reach.antt =====
-- backtester-core/src/engine.rs: the states that calls on an engine reach, and the PnL in them.
use crypto_rs_backtester.Prelude.{
  ℕ, zero, suc, ◌≡◌, ◌⊎◌, refl, sym, ◌∙◌, subst, inl, inr, true, false, Option, none, some, Result,
  ok, err, arith, Bool-cases, Option-cases, Result-cases,
}
use crypto_rs_backtester.Prelude.Int.{ℤ}
use crypto_rs_backtester.Event.{Event, EventKind}
use crypto_rs_backtester.RiskGuard
use crypto_rs_backtester.Stats.Log
use crypto_rs_backtester.Stats.Log.{is_off}
use crypto_rs_backtester.Stats.Summary.{StatsBackend, calculate_stats}
use crypto_rs_backtester.Engine
use crypto_rs_backtester.Engine.{
  Env, Engine, EngineConfig, EngineError, push_event, add_tick_source, add_l3_source,
}
use crypto_rs_backtester.Engine.Books.{BookLaws, totals-BookLaws, killed-BookLaws}
use crypto_rs_backtester.Engine.Booking.{IsBooked}
use crypto_rs_backtester.Engine.Ingest.{ingest_once, again, queue_turn}
use crypto_rs_backtester.Engine.Step.{ingest, step, run, final_flush, stats}
use crypto_rs_backtester.Engine.Step.Booking.{
  ingest_once-IsBooked, pop_and_process-IsBooked, final_flush-IsBooked,
}

-- What a client does with an engine: sources and events are added, and `step` and `run` are called,
-- whatever their results are.
pub data Reach {E : Env} (e₀ : Engine E) : Engine E → Type 0 where
  at_start : Reach e₀ e₀
  with_tick_source :
      (source : E.tick_source.State) (e : Engine E)
      → Reach e₀ e
      → Reach e₀ (add_tick_source source e)
  with_l3_source :
      (source : E.l3_source.State) (e : Engine E) → Reach e₀ e → Reach e₀ (add_l3_source source e)
  with_event :
      (ts : ℤ) (kind : EventKind) (e : Engine E) → Reach e₀ e → Reach e₀ (push_event ts kind e)
  stepped :
      (fuel : ℕ) (elapsed : ℤ) (r : Result (Option Event) (EngineError E)) (e e' : Engine E)
      → step fuel elapsed e ≡ some (r, e')
      → Reach e₀ e
      → Reach e₀ e'
  ran :
      (fuel n : ℕ) (clock : ℕ → ℤ) (r : Result (Unit {0}) (EngineError E)) (e e' : Engine E)
      → run fuel clock n e ≡ some (r, e')
      → Reach e₀ e
      → Reach e₀ e'

new-IsBooked :
    (E : Env) (s : E.strategy.State) (c : EngineConfig)
    → IsBooked (totals-BookLaws E.floats) (Engine.new {E = E} s c)
unfolding Engine.new Log.new RiskGuard.new
new-IsBooked E s c = inr refl

module _ {E : Env} (I : BookLaws E.floats) where
  -- The state that a call leaves, if its fuel was enough.
  abbrev Leaves : {R : Type 0} → (Engine E → Type 0) → Option (R × Engine E) → Type 0
  Leaves P none = Unit {0}
  Leaves P (some (r, e)) = P e

  ingest-IsBooked : (n : ℕ) (e : Engine E) → IsBooked I e → Leaves (IsBooked I) (ingest n e)
  unfolding ingest
  ingest-IsBooked zero e h = tt
  ingest-IsBooked (suc n) e h =
      let passed = ingest_once-IsBooked I e h in
      elim (Result-cases (ingest_once e).0) [
        | inr (x, m) ↦ rw (m, ingest) passed
        | inl (queue_turn, m) ↦ rw (m, ingest) passed
        | inl (again, m) ↦ rw (m, ingest) (ingest-IsBooked n (ingest_once e).1 passed)
      ]

  step-IsBooked :
      (fuel : ℕ) (elapsed : ℤ) (e : Engine E)
      → IsBooked I e
      → Leaves (IsBooked I) (step fuel elapsed e)
  unfolding step
  step-IsBooked fuel elapsed e h =
      let left = ingest-IsBooked fuel e h in
      elim (Option-cases (ingest fuel e)) [
        | inl n ↦ rw (n, step) tt
        | inr ((err x, e'), n) ↦ rw (n, step) (subst (Leaves (IsBooked I)) n left)
        | inr ((ok u, e'), n) ↦
            rw (n, step)
              (pop_and_process-IsBooked I elapsed e' (subst (Leaves (IsBooked I)) n left))
      ]

  run-IsBooked :
      (fuel : ℕ) (clock : ℕ → ℤ) (n : ℕ) (e : Engine E)
      → IsBooked I e
      → Leaves (IsBooked I) (run fuel clock n e)
  unfolding run
  run-IsBooked fuel clock zero e h = tt
  run-IsBooked fuel clock (suc n) e h =
      let left = step-IsBooked fuel (clock n) e h in
      elim (Option-cases (step fuel (clock n) e)) [
        | inl m ↦ rw (m, run) tt
        | inr ((err x, e'), m) ↦ rw (m, run) (subst (Leaves (IsBooked I)) m left)
        | inr ((ok (some ev), e'), m) ↦
            rw (m, run) (run-IsBooked fuel clock n e' (subst (Leaves (IsBooked I)) m left))
        | inr ((ok none, e'), m) ↦
            let flushed =
              final_flush-IsBooked I (clock n) e' (subst (Leaves (IsBooked I)) m left) in
            elim (Result-cases (final_flush (clock n) e').0) [
              | inr (x, k) ↦ rw (m, k, run) flushed
              | inl (false, k) ↦ rw (m, k, run) flushed
              | inl (true, k) ↦
                  rw (m, k, run) (run-IsBooked fuel clock n (final_flush (clock n) e').1 flushed)
            ]
      ]

  Reach-IsBooked : (e₀ e : Engine E) → IsBooked I e₀ → Reach e₀ e → IsBooked I e
  unfolding push_event add_tick_source add_l3_source
  Reach-IsBooked e₀ _ h at_start = h
  Reach-IsBooked e₀ _ h (with_tick_source source e r) = Reach-IsBooked e₀ e h r
  Reach-IsBooked e₀ _ h (with_l3_source source e r) = Reach-IsBooked e₀ e h r
  Reach-IsBooked e₀ _ h (with_event ts kind e r) = Reach-IsBooked e₀ e h r
  Reach-IsBooked e₀ _ h (stepped fuel elapsed result e e' same r) =
      subst (Leaves (IsBooked I)) same (step-IsBooked fuel elapsed e (Reach-IsBooked e₀ e h r))
  Reach-IsBooked e₀ _ h (ran fuel n clock result e e' same r) =
      subst (Leaves (IsBooked I)) same (run-IsBooked fuel clock n e (Reach-IsBooked e₀ e h r))

module _ {E : Env} where
  stats-total_pnl :
      (parallel : StatsBackend E.floats) (e : Engine E)
      → is_off e.trade_log.mode ≡ false
      → (stats parallel e).total_pnl ≡ e.trade_log.incremental.total_pnl
  unfolding stats calculate_stats
  stats-total_pnl parallel e on = ground (arith, on)

  -- Whatever sources and events an engine is given and whatever steps and runs it takes, failed ones
  -- included, the total PnL that its statistics report is the running PnL by which the risk guard
  -- decides on the kill switch, unless the log is off.
  pub stats-running_pnl :
      (s : E.strategy.State) (c : EngineConfig) (parallel : StatsBackend E.floats) (e : Engine E)
      → Reach (Engine.new s c) e
      → (is_off e.trade_log.mode ≡ true) ⊎ (e.risk_guard.running_pnl ≡ (stats parallel e).total_pnl)
  stats-running_pnl s c parallel e r = elim (Bool-cases (is_off e.trade_log.mode)) [
    | inl off ↦ inl off
    | inr on ↦
        elim (Reach-IsBooked (totals-BookLaws E.floats) (Engine.new s c) e (new-IsBooked E s c) r) [
          | inl off ↦ inl off
          | inr same ↦ inr (same ∙ sym (stats-total_pnl parallel e on))
        ]
  ]

  -- Once the kill switch of an engine is on, it stays on and its statistics show it, whatever sources
  -- and events the engine is given and whatever steps and runs it takes.
  pub Reach-killed :
      (parallel : StatsBackend E.floats) (e e' : Engine E)
      → e.risk_guard.killed ≡ true
      → Reach e e'
      → (e'.risk_guard.killed ≡ true) × ((stats parallel e').killed ≡ true)
  unfolding stats calculate_stats
  Reach-killed parallel e e' k r =
      let kept = Reach-IsBooked (killed-BookLaws E.floats) e e' k r in (kept, kept)
