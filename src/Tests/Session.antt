-- ===== src/Tests/Session.antt =====
-- The data of concrete sessions: an engine with a strategy that submits one order, and whole numbers
-- in place of floats.
use crypto_rs_backtester.Prelude.{ℕ, zero, suc, ◌*◌, ◌/◌, Bool, Result, ok, ltb}
use crypto_rs_backtester.Prelude.Int.{
  ℤ, pos, negsuc, ◌+ℤ◌, ◌-ℤ◌, ◌*ℤ◌, min_ℤ, max_ℤ, ltb_ℤ, eqb_ℤ, pos_part,
}
use crypto_rs_backtester.Types.{Tick, OrderReport}
use crypto_rs_backtester.QueueModel.Conservative.{conservative_queue}
use crypto_rs_backtester.Tuner.{FloatOps}
use crypto_rs_backtester.Strategy.{Strategy, Context, one_by_one, ignore_funding}
use crypto_rs_backtester.Strategy.Requests
use crypto_rs_backtester.Sources.Arrow.{TickSourceError}
use crypto_rs_backtester.Sources.Ticks.{arrow_tick_source}
use crypto_rs_backtester.Sources.Updates.{arrow_l3_source}
use crypto_rs_backtester.Tests.Streams.{tables}
use crypto_rs_backtester.Stats.{Floats}
use crypto_rs_backtester.Latency.{constant_latency}
use crypto_rs_backtester.Engine
use crypto_rs_backtester.Engine.{Env, Engine, EngineConfig, EngineMode, default_config}
use crypto_rs_backtester.Tests.{buy_order}

-- Whole numbers; the quotient and the root of any number is that number.
abbrev pub whole_floats : Floats
whole_floats = record {
  F64 = ℤ;
  of_int = λ n. n;
  infinity = pos 1000;
  add = λ a b. a +ℤ b;
  sub = λ a b. a -ℤ b;
  mul = λ a b. a *ℤ b;
  div = λ a b. a;
  min = min_ℤ;
  max = max_ℤ;
  sum_start = pos 0;
  sqrt = λ a. a;
  less = ltb_ℤ;
  same = eqb_ℤ;
}

-- The latency in whole nanoseconds, and four fifths rounded down.
abbrev pub whole : FloatOps
whole = record {
  Target = ℕ;
  latency_below = λ d n target. ltb (pos_part d) (n * target);
  scaled_down = λ c. pos (pos_part c * 4 / 5);
}

-- The strategy submits an order at its first tick.
abbrev submit_once : Tick → Context → ℕ → Result (Unit {0}) (Unit {0}) × (Context × ℕ)
submit_once t ctx zero = (ok tt, (Requests.submit_order buy_order ctx, 1))
submit_once t ctx (suc n) = (ok tt, (ctx, suc n))

abbrev skip_report : OrderReport → Context → ℕ → Result (Unit {0}) (Unit {0}) × (Context × ℕ)
skip_report r ctx n = (ok tt, (ctx, n))

abbrev pub once : Strategy
once = record {
  State = ℕ;
  Error = Unit {0};
  on_tick = submit_once;
  on_ticks = one_by_one submit_once;
  on_order_update = skip_report;
  on_order_updates = one_by_one skip_report;
  on_funding = ignore_funding;
}

abbrev pub env : Env
env = record {
  queue_model = conservative_queue;
  latency_model =
      constant_latency (Unit {0}) (record { feed_latency_ns = pos 2; order_latency_ns = pos 3 });
  strategy = once;
  floats = whole_floats;
  tuner_floats = whole;
  target_latency = 500;
  make_small_rng = λ seed. tt;
  SourceError = TickSourceError tables;
  tick_source = arrow_tick_source tables;
  l3_source = arrow_l3_source tables;
}

abbrev pub one_order : EngineConfig
one_order = record default_config {
  feed_latency_ns = pos 2;
  order_update_latency_ns = pos 1;
  maker_fee_bps = pos 2;
  taker_fee_bps = pos 5;
  max_open_orders = 1;
  max_position = pos 500000000;
  max_loss = negsuc 999999999;
}

abbrev pub batch_config : EngineConfig
batch_config = record one_order { mode = EngineMode.batch; max_batch_ns = pos 1000 }

-- An engine at the start, with the kill switch on or off.
abbrev pub engine : Bool → Engine env
engine killed =
    let e = Engine.new 0 one_order in
    record e { risk_guard = record e.risk_guard { killed = killed } }
