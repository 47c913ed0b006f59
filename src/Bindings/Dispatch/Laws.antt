-- ===== src/Bindings/Dispatch/Laws.antt =====
-- backtester-py/src/lib.rs: an accepted configuration gets the engine that it names.
use Prim.Native.String.{String}
use crypto_rs_backtester.Prelude.{◌≡◌, refl, sym, ap, subst, Bool-cases, inl, inr, if◌then◌else◌}
use crypto_rs_backtester.Prelude.Int.{ℤ}
use crypto_rs_backtester.Prelude.Keys.{◌==◌}
use crypto_rs_backtester.Latency.{ConstantLatency}
use crypto_rs_backtester.Latency.LogNormal.{LogNormalJitter}
use crypto_rs_backtester.Engine.{EngineConfig}
use crypto_rs_backtester.Bindings.{Python, string_eq}
use crypto_rs_backtester.Bindings.Config.{Backtester, effective_queue_model}
use crypto_rs_backtester.Bindings.Config.Laws.{IsConfigured}
use crypto_rs_backtester.Bindings.Dispatch
use crypto_rs_backtester.Bindings.Dispatch.{
  Host, AnyEngine, conservative_constant, volume_clock_constant, l3_exact_constant,
  conservative_log_normal, volume_clock_log_normal, l3_exact_log_normal,
}

pub data QueueKind : Type 0 where
  conservative volume_clock l3_exact : QueueKind

pub data LatencyKind : Type 0 where
  constant log_normal : LatencyKind

abbrev pub kind :
    {P : Python} {H : Host P} {c : ConstantLatency} {j : LogNormalJitter}
    → AnyEngine H c j
    → QueueKind × LatencyKind
kind (conservative_constant e) = (conservative, constant)
kind (volume_clock_constant e) = (volume_clock, constant)
kind (l3_exact_constant e) = (l3_exact, constant)
kind (conservative_log_normal e) = (conservative, log_normal)
kind (volume_clock_log_normal e) = (volume_clock, log_normal)
kind (l3_exact_log_normal e) = (l3_exact, log_normal)

-- The models that a configuration names: the exact queue in the depth mode "l3", and the named one in
-- the mode "l2".
pub data NamesQueue {P : Python} (b : Backtester P) : QueueKind → Type 0 where
  names_l3_exact : b.depth_mode ≡ "l3" → NamesQueue b l3_exact
  names_volume_clock :
      b.depth_mode ≡ "l2" → b.queue_model ≡ "volume_clock" → NamesQueue b volume_clock
  names_conservative :
      b.depth_mode ≡ "l2" → b.queue_model ≡ "conservative" → NamesQueue b conservative

pub data NamesLatency {P : Python} (b : Backtester P) : LatencyKind → Type 0 where
  names_constant : b.latency_model ≡ "constant" → NamesLatency b constant
  names_log_normal : b.latency_model ≡ "log_normal" → NamesLatency b log_normal

abbrev queue_kind : String → QueueKind
queue_kind text =
    if text == "volume_clock"
    then volume_clock
    else if text == "l3_exact"
    then l3_exact
    else conservative

abbrev latency_kind : String → LatencyKind
latency_kind text = if text == "log_normal" then log_normal else constant

module _ {P : Python} (H : Host P) (feed order mean std : ℤ) where
  kind-new :
      (queue_model latency_model : String) (strat : H.object.State) (config : EngineConfig)
      → kind (Dispatch.new {H = H} queue_model latency_model feed order mean std strat config)
        ≡ (queue_kind queue_model, latency_kind latency_model)
  unfolding Dispatch.new
  kind-new queue_model latency_model strat config =
      elim (Bool-cases (queue_model == "volume_clock")) [
        | inl v ↦ elim (Bool-cases (latency_model == "log_normal")) [
          | inl l ↦ rw (v, l) refl
          | inr l ↦ rw (v, l) refl
        ]
        | inr v ↦ elim (Bool-cases (queue_model == "l3_exact")) [
          | inl q ↦ elim (Bool-cases (latency_model == "log_normal")) [
            | inl l ↦ rw (v, q, l) refl
            | inr l ↦ rw (v, q, l) refl
          ]
          | inr q ↦ elim (Bool-cases (latency_model == "log_normal")) [
            | inl l ↦ rw (v, q, l) refl
            | inr l ↦ rw (v, q, l) refl
          ]
        ]
      ]

  queue-named :
      (b : Backtester P) → IsConfigured P b → NamesQueue b (queue_kind (effective_queue_model b))
  unfolding effective_queue_model
  queue-named b ok = elim ok.depth [
    | inr (l3, _) ↦
        subst (NamesQueue b)
          (sym (ap (λ d. queue_kind (if d == "l3" then "l3_exact" else b.queue_model)) l3))
          (names_l3_exact l3)
    | inl (l2, _) ↦ elim ok.queue [
      | inl q ↦ subst (NamesQueue b) (sym (rw (l2, q) refl)) (names_conservative l2 q)
      | inr q ↦ subst (NamesQueue b) (sym (rw (l2, q) refl)) (names_volume_clock l2 q)
    ]
  ]

  latency-named :
      (b : Backtester P) → IsConfigured P b → NamesLatency b (latency_kind b.latency_model)
  latency-named b ok = elim ok.latency [
    | inl l ↦ subst (NamesLatency b) (ap latency_kind (sym l)) (names_constant l)
    | inr l ↦ subst (NamesLatency b) (ap latency_kind (sym l)) (names_log_normal l)
  ]

  -- The engine that is made for an accepted configuration has the queue model and the latency model
  -- that the configuration names: the exact queue in the depth mode "l3", and the named one in the mode
  -- "l2".
  pub new-kind :
      (b : Backtester P) (strat : H.object.State) (config : EngineConfig)
      → IsConfigured P b
      → NamesQueue b
          (kind (
            Dispatch.new {H = H}
              (effective_queue_model b)
              b.latency_model
              feed
              order
              mean
              std
              strat
              config)).0
        × NamesLatency b
            (kind (
              Dispatch.new {H = H}
                (effective_queue_model b)
                b.latency_model
                feed
                order
                mean
                std
                strat
                config)).1
  new-kind b strat config ok =
      rw (kind-new (effective_queue_model b) b.latency_model strat config)
        (queue-named b ok, latency-named b ok)
