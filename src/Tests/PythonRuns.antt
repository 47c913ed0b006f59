-- ===== src/Tests/PythonRuns.antt =====
-- Concrete calls of the Python bindings.
use Prim.Native.String.{String}
use crypto_rs_backtester.Prelude.{
  ℕ, ◌≡◌, ◌≢◌, refl, true, false, Option, none, some, List, [], ◌∷◌, map, Result, ok, err, arith,
}
use text.Mathlib.TextEquality.{eq_iff}
use crypto_rs_backtester.Prelude.Int.{ℤ, pos, negsuc}
use crypto_rs_backtester.Collections.Map.{Map, get, insert}
use crypto_rs_backtester.Types.{Side}
use crypto_rs_backtester.Strategy.{Context}
use crypto_rs_backtester.Stats.{TradeFill}
use crypto_rs_backtester.Stats.Summary.{no_stats}
use crypto_rs_backtester.Bindings.{Python, string_eq}
use crypto_rs_backtester.Bindings.Config.{
  Arguments, Backtester, accepted, new, resolve_ids, check_covered, effective_queue_model,
}
use crypto_rs_backtester.Bindings.Config.Laws.{IsConfigured, new-IsConfigured}
use crypto_rs_backtester.Bindings.Symbols.{build_symbol_ids}
use crypto_rs_backtester.Bindings.Symbols.Laws.{Apart, build_symbol_ids-Apart}
use crypto_rs_backtester.Bindings.Context.{Submission}
use crypto_rs_backtester.Bindings.Context.Laws.{Call, submits, cancels}
use crypto_rs_backtester.Bindings.BacktestResult.{
  BacktestResult, trades, trades_df, equity_curve_df, int,
}
use crypto_rs_backtester.Bindings.BacktestResult.Laws.{entries, trades_df-trades}
use crypto_rs_backtester.Bindings.Callbacks.{PyObject}
use crypto_rs_backtester.Bindings.Dispatch
use crypto_rs_backtester.Bindings.Dispatch.{Host}
use crypto_rs_backtester.Bindings.Dispatch.Laws.{kind, NamesQueue, NamesLatency, new-kind}
use crypto_rs_backtester.Engine.{default_config}
use crypto_rs_backtester.Tests.Samples.{sampling}
use crypto_rs_backtester.Tests.Session.{whole_floats, whole}
use crypto_rs_backtester.Tests.Streams.{tables}

-- Texts, numbers, and the two dicts of the tests.
data Thing : Type 0 where
  word : String → Thing
  number : ℕ → Thing
  market symbols : Thing

abbrev dict_of : Thing → Option (List (Thing × Thing))
dict_of market = some ((word "BTC", number 0) ∷ (word "ETH", number 0) ∷ [])
dict_of symbols = some ((word "ETH", number 3) ∷ (word "BTC", number 7) ∷ [])
dict_of _ = none

abbrev text_of : Thing → Result String (Unit {0})
text_of (word s) = ok s
text_of _ = err tt

abbrev number_of : Thing → Result ℕ (Unit {0})
number_of (number n) = ok n
number_of _ = err tt

abbrev python : Python
python = record {
  Obj = Thing;
  Err = Unit {0};
  cast_error = tt;
  as_dict = dict_of;
  get_item = λ d k. ok none;
  extract_string = text_of;
  extract_u32 = number_of;
}

abbrev arguments : Arguments python
arguments = record {
  market_data = market;
  feed_latency_ns = pos 5;
  order_update_latency_ns = none;
  python_mode = "tick";
  batch_ms = pos 0;
  seed = 42;
  trade_log_mode = "all";
  maker_fee_bps = pos 0;
  taker_fee_bps = pos 0;
  ring_buffer_size = 10000;
  symbol_map = some symbols;
  queue_model = "volume_clock";
  latency_model = "log_normal";
  latency_mean_ns = pos 10;
  latency_std_ns = pos 2;
  max_open_orders = 0;
  max_position = pos 0;
  max_loss = negsuc 9;
  depth_mode = "l2";
  l3_data = none;
}

abbrev backtester : Backtester python
backtester = accepted arguments (some (("ETH", 3) ∷ ("BTC", 7) ∷ []))

new-IsConfigured_example : IsConfigured python backtester
unfolding new resolve_ids check_covered get insert
new-IsConfigured_example = new-IsConfigured python arguments backtester refl

apart_names : ◌≢◌ {A = String} "BTC" "ETH"
apart_names = ground (arith, eq_iff "BTC" "ETH")

build_symbol_ids-Apart_example :
    (ids : Map String ℕ) × (build_symbol_ids {P = python} ("BTC" ∷ "ETH" ∷ []) none ≡ ok ids)
    × Apart ids ("BTC" ∷ "ETH" ∷ [])
build_symbol_ids-Apart_example =
    build_symbol_ids-Apart python ("BTC" ∷ "ETH" ∷ []) none ((apart_names, tt), (tt, tt))
      (omega arith)

abbrev buying : ℤ → String → Submission
buying side order_type = record {
  symbol_id = 1;
  side = side;
  price = pos 100;
  qty = pos 2;
  order_type = order_type;
  client_order_id = 9;
}

-- An order, one with an unknown type, a cancel, and an order with an unknown side.
abbrev calls : List Call
calls =
    submits (buying (pos 1) "limit")
    ∷ submits (buying (pos 1) "stop")
    ∷ cancels 4
    ∷ submits (buying (pos 5) "market")
    ∷ []

abbrev context : Context
context = record { ts_local = pos 50; market = record { last_trade_by_symbol = [] }; commands = [] }

abbrev fill : ℤ → TradeFill
fill price = record {
  ts_exchange = pos 10;
  order_id = 3;
  price = price;
  qty = pos 2;
  fee = pos 1;
  symbol_id = 1;
  side = Side.sell;
  is_taker = true;
}

abbrev result : BacktestResult whole_floats
result = record {
  trades = fill (pos 100) ∷ fill (pos 101) ∷ [];
  stats = no_stats;
  equity_curve = (pos 10, pos 5) ∷ (pos 12, negsuc 1) ∷ [];
}

trades_df-trades_example :
    (map (get "price") (trades result)
      ≡ entries (trades_df result).size (get "price" (trades_df result).columns))
    × (get "equity" (equity_curve_df result).columns
        ≡ some (map (λ p. int p.1) result.equity_curve))
    × (get "ts_exchange" (equity_curve_df result).columns
        ≡ some (map (λ p. int p.0) result.equity_curve))
trades_df-trades_example = trades_df-trades "price" result

-- An object without methods.
abbrev object : PyObject python
object = record {
  State = ℕ;
  has_attr = λ m s. ok false;
  call_on_tick = λ t ctx s. (ok tt, (ctx, s));
  call_on_ticks = λ t ctx s. (ok tt, (ctx, s));
  call_on_order_update = λ t ctx s. (ok tt, (ctx, s));
  call_on_order_updates = λ t ctx s. (ok tt, (ctx, s));
  batch_to_pyarrow = λ b. ok (number 0);
}

abbrev host : Host python
host = record {
  object = object;
  arrow = tables;
  sampling = sampling;
  make_small_rng = λ seed. seed;
  tuner_floats = whole;
  target_latency = 500;
  backend = record { sharpe = λ l. pos 0; sortino = λ l. pos 0 };
  method_collect = λ o. ok o;
  method_to_arrow = λ o. ok o;
  arrow_stream = λ o. ok [];
  display = λ e. "error";
  to_lowercase = λ s. s;
  collect = λ A rs. ok [];
}

new-kind_example :
    NamesQueue backtester
      (kind (
        Dispatch.new {H = host}
          (effective_queue_model backtester)
          "log_normal"
          (pos 5)
          (pos 5)
          (pos 10)
          (pos 2)
          0
          default_config)).0
    × NamesLatency backtester
        (kind (
          Dispatch.new {H = host}
            (effective_queue_model backtester)
            "log_normal"
            (pos 5)
            (pos 5)
            (pos 10)
            (pos 2)
            0
            default_config)).1
new-kind_example =
    new-kind host (pos 5) (pos 5) (pos 10) (pos 2) backtester 0 default_config
      new-IsConfigured_example
