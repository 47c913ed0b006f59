-- ===== src/Engine.antt =====
-- backtester-core/src/engine.rs: the engine's state, its event queue, and the exchanges by symbol. The
-- buffers that the engine reuses to save allocations are not part of the state.
pub mod Commands
pub mod Handlers
pub mod Fees
pub mod Books
pub mod Booking
pub mod Limits
pub mod Delivery
pub mod Ingest
pub mod Step
use crypto_rs_backtester.Prelude.{
  ℕ, ◌*◌, Bool, true, false, Option, none, some, List, [], ◌∷◌, ◌++◌, Result, ok, err,
  if◌then◌else◌,
}
use crypto_rs_backtester.Prelude.Int.{ℤ, pos, ◌*ℤ◌, leb_ℤ, ltb_ℤ, div_trunc, max_ℤ, min_ℤ}
use crypto_rs_backtester.Prelude.I64.{next_u64, i64_max, wrap_i128}
use crypto_rs_backtester.Prelude.Keys.{nat_eq}
use crypto_rs_backtester.Collections.Map.{Map, get, get_or, insert}
use crypto_rs_backtester.Types.{Side, Tick, Order, OrderReport, L3Update, scale}
use crypto_rs_backtester.Event.{Event, EventKind}
use crypto_rs_backtester.EventQueue
use crypto_rs_backtester.EventQueue.{EventQueue}
use crypto_rs_backtester.QueueModel.{QueueModel}
use crypto_rs_backtester.Exchange
use crypto_rs_backtester.Exchange.{ExchangeSimulator, ExchangeError}
use crypto_rs_backtester.Latency.{LatencyModel}
use crypto_rs_backtester.Account.{Account}
use crypto_rs_backtester.Prelude.I64.{abs_i64}
use crypto_rs_backtester.RiskGuard
use crypto_rs_backtester.RiskGuard.{RiskGuard}
use crypto_rs_backtester.Tuner
use crypto_rs_backtester.Tuner.{FloatOps, BatchTuner}
use crypto_rs_backtester.Strategy.{Strategy, MarketView}
use crypto_rs_backtester.Sources.{Source, Sources, no_sources, add_source}
use crypto_rs_backtester.Stats.{Floats, TradeLogMode}
use crypto_rs_backtester.Stats.Log
use crypto_rs_backtester.Stats.Log.{TradeLog}

pub data EngineMode : Type 0 where
  tick batch : EngineMode

pub record EngineConfig : Type 0 where
  pub feed_latency_ns : ℤ
  pub order_update_latency_ns : ℤ
  pub mode : EngineMode
  pub max_batch_ns : ℤ
  pub auto_tune : Bool
  pub seed : ℕ
  pub trade_log_mode : TradeLogMode
  pub maker_fee_bps : ℤ
  pub taker_fee_bps : ℤ
  pub max_open_orders : ℕ
  pub max_position : ℤ
  pub max_loss : ℤ

abbrev pub default_config : EngineConfig
default_config = record {
  feed_latency_ns = pos 0;
  order_update_latency_ns = pos 0;
  mode = EngineMode.tick;
  max_batch_ns = pos 0;
  auto_tune = false;
  seed = 0;
  trade_log_mode = TradeLogMode.all;
  maker_fee_bps = pos 0;
  taker_fee_bps = pos 0;
  max_open_orders = 0;
  max_position = pos 0;
  max_loss = pos 0;
}

unfoldable pub compute_fee : ℤ → ℤ → ℤ → ℤ
compute_fee price qty fee_bps =
    let numerator = wrap_i128 (wrap_i128 (price *ℤ abs_i64 qty) *ℤ fee_bps) in
    let fee = div_trunc numerator (scale * 10000) in
    if leb_ℤ fee_bps (pos 0) then pos 0 else min_ℤ (max_ℤ fee (pos 0)) i64_max

-- What the engine is generic in, and the code that is not the repository's: the generator, the
-- arithmetic on f64 with the tuner's target of 500.0, and the errors of a source.
pub record Env : Type 1 where
  pub queue_model : QueueModel
  pub latency_model : LatencyModel
  pub strategy : Strategy
  pub floats : Floats
  pub tuner_floats : FloatOps
  pub target_latency : tuner_floats.Target
  pub make_small_rng : ℕ → latency_model.Rng
  pub SourceError : Type 0
  pub tick_source : Source Tick SourceError
  pub l3_source : Source L3Update SourceError

-- The messages of internal errors are constructors. `index_out_of_range` stands for the panic of an
-- index outside the list of sources.
pub data EngineError (E : Env) : Type 0 where
  tick_source_error : E.SourceError → EngineError E
  strategy_error : E.strategy.Error → EngineError E
  mixed_depth : ℕ → EngineError E
  internal : ExchangeError → EngineError E
  no_next_update : ℕ → EngineError E
  no_next_tick : ℕ → EngineError E
  index_out_of_range : ℕ → EngineError E

pub record Engine (E : Env) : Type 0 where
  pub config : EngineConfig
  pub queue : EventQueue
  pub exchanges : Map ℕ (ExchangeSimulator E.queue_model)
  pub order_symbol_by_id : Map ℕ ℕ
  pub next_order_id : ℕ
  pub strategy : E.strategy.State
  pub rng : E.latency_model.Rng
  pub account : Account
  pub trade_log : TradeLog E.floats
  pub market : MarketView
  pub truth_last_trade_by_symbol : Map ℕ Tick
  pub next_event_seq : ℕ
  pub now_ts_sim : ℤ
  pub tick_buffer : List Tick
  pub report_buffer : List OrderReport
  pub active_batch_timer_id : Option ℕ
  pub next_timer_id : ℕ
  pub pending_wakeup : Bool
  pub tick_sources : Sources E.tick_source
  pub l3_sources : Sources E.l3_source
  pub l2_depth_symbols : Map ℕ (Unit {0})
  pub l3_depth_symbols : Map ℕ (Unit {0})
  pub tuner : BatchTuner E.tuner_floats.Target
  pub risk_guard : RiskGuard

abbrev pub contains : {V : Type 0} → ℕ → Map ℕ V → Bool
contains k m = elim (get k m) [ none ↦ false | some v ↦ true ]

module _ {E : Env} where
  unfoldable pub new : E.strategy.State → EngineConfig → Engine E
  unfolding Log.new Tuner.new RiskGuard.new EventQueue.new
  new strategy_state config = record {
    config = config;
    queue = EventQueue.new;
    exchanges = [];
    order_symbol_by_id = [];
    next_order_id = 1;
    strategy = strategy_state;
    rng = E.make_small_rng config.seed;
    account = record { positions = []; total_funding_pnl = pos 0 };
    trade_log = Log.new config.trade_log_mode;
    market = record { last_trade_by_symbol = [] };
    truth_last_trade_by_symbol = [];
    next_event_seq = 0;
    now_ts_sim = pos 0;
    tick_buffer = [];
    report_buffer = [];
    active_batch_timer_id = none;
    next_timer_id = 1;
    pending_wakeup = false;
    tick_sources = no_sources;
    l3_sources = no_sources;
    l2_depth_symbols = [];
    l3_depth_symbols = [];
    tuner =
        Tuner.new (pos 100000)
          (if ltb_ℤ (pos 0) config.max_batch_ns then config.max_batch_ns else pos 1000000000)
          config.max_batch_ns E.target_latency;
    risk_guard = RiskGuard.new config.max_open_orders config.max_position config.max_loss;
  }

  unfoldable pub add_tick_source : E.tick_source.State → Engine E → Engine E
  unfolding add_source
  add_tick_source source e = record e { tick_sources = add_source source e.tick_sources }

  unfoldable pub add_l3_source : E.l3_source.State → Engine E → Engine E
  unfolding add_source insert
  add_l3_source source e = record e {
    l3_depth_symbols = insert (E.l3_source.symbol_id source) tt e.l3_depth_symbols;
    l3_sources = add_source source e.l3_sources;
  }

  unfoldable pub push_event : ℤ → EventKind → Engine E → Engine E
  unfolding EventQueue.push
  push_event ts_sim kind e = record e {
    next_event_seq = next_u64 e.next_event_seq;
    queue =
        EventQueue.push
          (record { id = record { ts_sim = ts_sim; seq = e.next_event_seq }; kind = kind }) e.queue;
  }

  abbrev pub put_exchange : ℕ → ExchangeSimulator E.queue_model → Engine E → Engine E
  put_exchange symbol_id ex e = record e { exchanges = insert symbol_id ex e.exchanges }

  -- The exchange of the symbol: a new one is for L3 updates if the symbol is marked so.
  unfoldable pub exchange_of : ℕ → Engine E → ExchangeSimulator E.queue_model
  unfolding Exchange.new Exchange.new_l3
  exchange_of symbol_id e =
      get_or symbol_id
        (if contains symbol_id e.l3_depth_symbols then Exchange.new_l3 else Exchange.new)
        e.exchanges

  -- The lookup inserts a new exchange also where the call then only reads it.
  unfoldable pub exchange_mut : ℕ → Engine E → ExchangeSimulator E.queue_model × Engine E
  unfolding exchange_of
  exchange_mut symbol_id e =
      (exchange_of symbol_id e, put_exchange symbol_id (exchange_of symbol_id e) e)

  unfoldable pub mark_l2_depth : ℕ → Engine E → Result (Unit {0}) (EngineError E) × Engine E
  mark_l2_depth symbol_id e =
      if contains symbol_id e.l3_depth_symbols
      then (err (mixed_depth symbol_id), e)
      else (ok tt, record e { l2_depth_symbols = insert symbol_id tt e.l2_depth_symbols })

  unfoldable pub mark_l3_depth : ℕ → Engine E → Result (Unit {0}) (EngineError E) × Engine E
  mark_l3_depth symbol_id e =
      if contains symbol_id e.l2_depth_symbols
      then (err (mixed_depth symbol_id), e)
      else (ok tt, record e { l3_depth_symbols = insert symbol_id tt e.l3_depth_symbols })
