-- ===== src/Tuner/Bounds.antt =====
-- backtester-core/src/tuner.rs: the batch size stays between its bounds.
use crypto_rs_backtester.Prelude.{
  ℕ, ◌%◌, ◌≡◌, refl, ◌∙◌, subst, List, [], ◌∷◌, arith, Bool-cases, eqb, inl, inr,
}
use crypto_rs_backtester.Prelude.Int.{ℤ, pos, min_ℤ, max_ℤ, ◌≤ℤ◌, ◌+ℤ◌, div_trunc}
use crypto_rs_backtester.Prelude.I64.{InI64, add_i64, add_i64-eq, next_u64}
use crypto_rs_backtester.Tuner.{FloatOps, BatchTuner, new, clamp, record_batch}

-- The size is between the bounds, and the bounds are words with room for one increase above.
pub record InBounds {T : Type 0} (t : BatchTuner T) : Type 0 where
  pub above : t.min_batch_ns ≤ℤ t.current_batch_ns
  pub below : t.current_batch_ns ≤ℤ t.max_batch_ns_limit
  pub word : InI64 t.min_batch_ns
  pub room : t.max_batch_ns_limit ≤ℤ pos 8000000000000000000

pub clamp_bounds : (lo hi v : ℤ) → lo ≤ℤ hi → (lo ≤ℤ clamp lo hi v) × (clamp lo hi v ≤ℤ hi)
clamp_bounds lo hi v h = ground arith

-- One increase of a size between the bounds is exact.
increase_bounds :
    (lo hi c : ℤ)
    → InI64 lo
    → lo ≤ℤ c
    → c ≤ℤ hi
    → hi ≤ℤ pos 8000000000000000000
    → c ≤ℤ add_i64 c (max_ℤ (div_trunc c 10) (pos 100000))
unfolding div_trunc ◌+ℤ◌
increase_bounds lo hi c w a b r =
    rw (add_i64-eq c (max_ℤ (div_trunc c 10) (pos 100000)) (ground arith)) (ground arith)

-- A batch of any duration and count leaves the size between the bounds.
pub record_batch-InBounds :
    (F : FloatOps) (duration : ℤ) (ticks : ℕ) (t : BatchTuner F.Target)
    → InBounds t
    → InBounds (record_batch F duration ticks t)
unfolding record_batch
record_batch-InBounds F d n t v =
    let up =
      increase_bounds t.min_batch_ns t.max_batch_ns_limit t.current_batch_ns v.word v.above v.below
        v.room in
    let down =
      clamp_bounds t.min_batch_ns t.max_batch_ns_limit (F.scaled_down t.current_batch_ns)
        (omega (arith, v.above, v.below)) in
    elim (Bool-cases (eqb n 0)) [
      | inl e ↦ rw (e, record_batch) v
      | inr e ↦ elim (Bool-cases (eqb (next_u64 t.sample_count % 10) 0)) [
        | inr c ↦
            rw (e, c, record_batch)
              (record { above = v.above; below = v.below; word = v.word; room = v.room })
        | inl c ↦ elim (Bool-cases (F.latency_below d n t.target_latency_per_tick_ns)) [
          | inl l ↦
              rw (e, c, l, record_batch)
                (record {
                  above = ground (arith, up, v.above, v.below);
                  below = ground arith;
                  word = v.word;
                  room = v.room;
                })
          | inr l ↦
              rw (e, c, l, record_batch)
                (record { above = down.0; below = down.1; word = v.word; room = v.room })
        ]
      ]
    ]

-- The batches that a session records: their durations and counts.
abbrev pub record_all : (F : FloatOps) → List (ℤ × ℕ) → BatchTuner F.Target → BatchTuner F.Target
record_all F [] t = t
record_all F ((d, n) ∷ bs) t = record_all F bs (record_batch F d n t)

-- The bounds that a tuner has stay as they are.
abbrev HasBounds : {T : Type 0} → ℤ → ℤ → BatchTuner T → Type 0
HasBounds lo hi t = InBounds t × (t.min_batch_ns ≡ lo) × (t.max_batch_ns_limit ≡ hi)

HasBounds-between :
    {T : Type 0} (lo hi : ℤ) (t : BatchTuner T)
    → HasBounds lo hi t
    → (lo ≤ℤ t.current_batch_ns) × (t.current_batch_ns ≤ℤ hi)
HasBounds-between lo hi t (v, l, h) =
    (subst (λ x. x ≤ℤ t.current_batch_ns) l v.above, subst (λ x. t.current_batch_ns ≤ℤ x) h v.below)

record_batch_bounds :
    (F : FloatOps) (d : ℤ) (n : ℕ) (t : BatchTuner F.Target)
    → ((record_batch F d n t).min_batch_ns ≡ t.min_batch_ns)
      × ((record_batch F d n t).max_batch_ns_limit ≡ t.max_batch_ns_limit)
unfolding record_batch
record_batch_bounds F d n t = ground arith

record_all-HasBounds :
    (F : FloatOps) (lo hi : ℤ) (batches : List (ℤ × ℕ)) (t : BatchTuner F.Target)
    → HasBounds lo hi t
    → HasBounds lo hi (record_all F batches t)
record_all-HasBounds F lo hi [] t v = v
record_all-HasBounds F lo hi ((d, n) ∷ bs) t (v, l, h) =
    let kept = record_batch_bounds F d n t in
    record_all-HasBounds F lo hi bs (record_batch F d n t)
      (record_batch-InBounds F d n t v, kept.0 ∙ l, kept.1 ∙ h)

-- From a tuner built with two bounds that are words of at most 8 * 10 ^ 18, in either order, and any
-- initial size, the size stays between the lesser and the greater of the two whatever batches are
-- recorded.
pub new-record_all :
    (F : FloatOps) (a b initial : ℤ) (target : F.Target) (batches : List (ℤ × ℕ))
    → InI64 a
    → InI64 b
    → a ≤ℤ pos 8000000000000000000
    → b ≤ℤ pos 8000000000000000000
    → let t = record_all F batches (new a b initial target) in
      (min_ℤ a b ≤ℤ t.current_batch_ns) × (t.current_batch_ns ≤ℤ max_ℤ a b)
unfolding new
new-record_all F a b initial target batches wa wb ha hb =
    let fresh : InBounds (new a b initial target) = record {
      above = ground arith;
      below = ground arith;
      word = ground arith;
      room = ground arith;
    } in
    HasBounds-between (min_ℤ a b) (max_ℤ a b) _ (
      record_all-HasBounds F (min_ℤ a b) (max_ℤ a b) batches (new a b initial target)
        (fresh, refl, refl))
