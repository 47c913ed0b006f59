-- ===== src/Engine/Step/Termination.antt =====
-- backtester-core/src/engine.rs: the loop of `step` over sources that come to an end.
use crypto_rs_backtester.Prelude.{
  ℕ, zero, suc, ◌+◌, ◌≤◌, ◌<◌, ◌≡◌, refl, subst, inl, inr, Option, none, some, Result, ok, err,
  Option-cases, Result-cases, arith,
}
use crypto_rs_backtester.Prelude.Int.{ℤ}
use crypto_rs_backtester.Event.{Event}
use crypto_rs_backtester.Sources.{initialize, pop_heap, next_at, refill}
use crypto_rs_backtester.Sources.Finite.{
  Finite, elements, initialize-elements, pop_heap-elements, refill-elements, next_at-elements,
}
use crypto_rs_backtester.Engine.{Env, Engine, EngineError, push_event}
use crypto_rs_backtester.Engine.Ingest.{
  Turn, again, queue_turn, tick_key, l3_key, initialize_sources, take_l3, take_tick, take_next,
  next_l3, next_tick, schedule_l3, schedule_tick, ingest_once,
}
use crypto_rs_backtester.Engine.Step.{ingest, step, pop_and_process}

module _ {E : Env} (T : Finite E.tick_source) (U : Finite E.l3_source) where
  -- The elements that all sources have left.
  abbrev pub to_come : Engine E → ℕ
  to_come e = elements T e.tick_sources + elements U e.l3_sources

  -- If the loop goes on, fewer elements are left than the bound.
  abbrev Fewer : ℕ → Result Turn (EngineError E) × Engine E → Type 0
  Fewer n (ok again, e) = to_come e < n
  Fewer n (ok queue_turn, e) = Unit {0}
  Fewer n (err x, e) = Unit {0}

  initialize_sources-to_come : (e : Engine E) → to_come (initialize_sources e).1 ≤ to_come e
  unfolding initialize_sources
  initialize_sources-to_come e =
      let ticks = initialize tick_key e.tick_sources in
      let l3 = initialize l3_key e.l3_sources in
      let bound = initialize-elements T tick_key e.tick_sources in
      let bound' = initialize-elements U l3_key e.l3_sources in
      elim (Result-cases ticks.0) [
        | inr (x, n) ↦ rw (n, initialize_sources) (omega (arith, bound))
        | inl (u, n) ↦ elim (Result-cases l3.0) [
          | inr (x, n') ↦ rw (n, n', initialize_sources) (omega (arith, bound, bound'))
          | inl (u', n') ↦ rw (n, n', initialize_sources) (omega (arith, bound, bound'))
        ]
      ]

  take_tick-Fewer : (idx : ℕ) (e : Engine E) → Fewer (to_come e) (take_tick idx e)
  unfolding take_tick schedule_tick push_event
  take_tick-Fewer idx e =
      let popped = pop_heap e.tick_sources in
      elim (Option-cases (next_at idx popped)) [
        | inl n ↦ rw (n, take_tick) tt
        | inr ((ok none, ticks), n) ↦ rw (n, take_tick) tt
        | inr ((err x, ticks), n) ↦ rw (n, take_tick) tt
        | inr ((ok (some tick), ticks), n) ↦
            let fewer = next_at-elements T idx popped ticks tick n in
            let refilled = refill-elements T tick_key idx ticks in
            elim (Result-cases (refill tick_key idx ticks).0) [
              | inr (x, m) ↦ rw (n, m, take_tick) tt
              | inl (u, m) ↦
                  rw (n, m, take_tick)
                    (omega (arith, fewer, refilled, pop_heap-elements T e.tick_sources))
            ]
      ]

  take_l3-Fewer : (idx : ℕ) (e : Engine E) → Fewer (to_come e) (take_l3 idx e)
  unfolding take_l3 schedule_l3 push_event
  take_l3-Fewer idx e =
      let popped = pop_heap e.l3_sources in
      elim (Option-cases (next_at idx popped)) [
        | inl n ↦ rw (n, take_l3) tt
        | inr ((ok none, l3), n) ↦ rw (n, take_l3) tt
        | inr ((err x, l3), n) ↦ rw (n, take_l3) tt
        | inr ((ok (some update), l3), n) ↦
            let fewer = next_at-elements U idx popped l3 update n in
            let refilled = refill-elements U l3_key idx l3 in
            elim (Result-cases (refill l3_key idx l3).0) [
              | inr (x, m) ↦ rw (n, m, take_l3) tt
              | inl (u, m) ↦
                  rw (n, m, take_l3)
                    (omega (arith, fewer, refilled, pop_heap-elements U e.l3_sources))
            ]
      ]

  take_next-Fewer : (e : Engine E) → Fewer (to_come e) (take_next e)
  unfolding take_next
  take_next-Fewer e = elim (Option-cases (next_l3 e)) [
    | inr (pe, n) ↦ rw (n, take_next) (take_l3-Fewer pe.source_idx e)
    | inl n ↦ elim (Option-cases (next_tick e)) [
      | inr (pe, m) ↦ rw (n, m, take_next) (take_tick-Fewer pe.source_idx e)
      | inl m ↦ rw (n, m, take_next) tt
    ]
  ]

  Fewer-le : (n k : ℕ) (r : Result Turn (EngineError E) × Engine E) → n ≤ k → Fewer n r → Fewer k r
  Fewer-le n k (ok again, e) le h = omega arith
  Fewer-le n k (ok queue_turn, e) le h = tt
  Fewer-le n k (err x, e) le h = tt

  ingest_once-Fewer : (e : Engine E) → Fewer (to_come e) (ingest_once e)
  unfolding ingest_once
  ingest_once-Fewer e =
      let ready = (initialize_sources e).1 in
      elim (Result-cases (initialize_sources e).0) [
        | inr (x, n) ↦ rw (n, ingest_once) tt
        | inl (turn, n) ↦
            rw (n, ingest_once)
              (Fewer-le (to_come ready) (to_come e) (take_next ready) (initialize_sources-to_come e)
                (take_next-Fewer ready))
      ]

  ingest-ends :
      (n : ℕ) (e : Engine E)
      → to_come e < n
      → (r : Result (Unit {0}) (EngineError E) × Engine E) × (ingest n e ≡ some r)
  unfolding ingest
  ingest-ends zero e below = absurd (omega arith)
  ingest-ends (suc n) e below =
      let r = ingest_once e in
      let fewer = ingest_once-Fewer e in
      elim (Result-cases r.0) [
        | inr (x, m) ↦ ((err x, r.1), rw (m, ingest) refl)
        | inl (queue_turn, m) ↦ ((ok tt, r.1), rw (m, ingest) refl)
        | inl (again, m) ↦
            let less : to_come r.1 < to_come e = subst (λ a. Fewer (to_come e) (a, r.1)) m fewer in
            let others = ingest-ends n r.1 (omega (arith, less, below)) in
            (others.0, rw (m, ingest) others.1)
      ]

  -- If every source has an end, in the sense that an element which it gives is one of those that it
  -- has left, a step ends: one pass over the sources more than there are elements is enough.
  pub step-ends :
      (n : ℕ) (elapsed : ℤ) (e : Engine E)
      → to_come e < n
      → (r : Result (Option Event) (EngineError E) × Engine E) × (step n elapsed e ≡ some r)
  unfolding step
  step-ends n elapsed e below =
      let (r, h) = ingest-ends n e below in
      elim (Result-cases r.0) [
        | inl (u, m) ↦ (pop_and_process elapsed r.1, rw (h, m, step) refl)
        | inr (x, m) ↦ ((err x, r.1), rw (h, m, step) refl)
      ]
