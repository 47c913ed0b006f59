-- ===== src/Bindings/Config.antt =====
-- backtester-py/src/lib.rs: `Backtester` and the checks of its constructor.
pub mod Laws
use Prim.Native.String.{String}
use crypto_rs_backtester.Prelude.{
  ℕ, Bool, true, false, not, ◌||◌, ◌&&◌, Option, none, some, List, [], ◌∷◌, Result, ok, err, ◌>>=◌,
  ◌>>◌, map_err, if◌then◌else◌, eqb,
}
use crypto_rs_backtester.Prelude.Int.{ℤ, pos, ltb_ℤ}
use crypto_rs_backtester.Prelude.Keys.{Eq, ◌==◌, nat_eq}
use crypto_rs_backtester.Collections.Map.{Map, get, insert}
use crypto_rs_backtester.Bindings.{
  Python, PyErr, value_error, type_error, Message, string_eq, from_python, dict_or,
}

-- The keyword arguments of the constructor.
pub record Arguments (P : Python) : Type 0 where
  pub market_data : P.Obj
  pub feed_latency_ns : ℤ
  pub order_update_latency_ns : Option ℤ
  pub python_mode : String
  pub batch_ms : ℤ
  pub seed : ℕ
  pub trade_log_mode : String
  pub maker_fee_bps : ℤ
  pub taker_fee_bps : ℤ
  pub ring_buffer_size : ℕ
  pub symbol_map : Option P.Obj
  pub queue_model : String
  pub latency_model : String
  pub latency_mean_ns : ℤ
  pub latency_std_ns : ℤ
  pub max_open_orders : ℕ
  pub max_position : ℤ
  pub max_loss : ℤ
  pub depth_mode : String
  pub l3_data : Option P.Obj

pub record Backtester (P : Python) : Type 0 where
  pub market_data : P.Obj
  pub feed_latency_ns : ℤ
  pub order_update_latency_ns : ℤ
  pub python_mode : String
  pub batch_ms : ℤ
  pub seed : ℕ
  pub trade_log_mode : String
  pub maker_fee_bps : ℤ
  pub taker_fee_bps : ℤ
  pub ring_buffer_size : ℕ
  pub symbol_map : Option (Map String ℕ)
  pub queue_model : String
  pub latency_model : String
  pub latency_mean_ns : ℤ
  pub latency_std_ns : ℤ
  pub max_open_orders : ℕ
  pub max_position : ℤ
  pub max_loss : ℤ
  pub depth_mode : String
  pub l3_data : Option P.Obj

-- `matches!(text, a | b)`
abbrev pub one_of : String → String → String → Bool
one_of text a b = (text == a) || (text == b)

abbrev pub is_some : {A : Type 0} → Option A → Bool
is_some none = false
is_some (some a) = true

module _ {P : Python} where
  -- An error where the test holds.
  abbrev pub refuse_if : Bool → Message → Result (Unit {0}) (PyErr P)
  refuse_if true m = err (value_error m)
  refuse_if false m = ok tt

  -- The loop over the entries of `symbol_map`, with the keys by id.
  unfoldable pub resolve_ids :
      List (P.Obj × P.Obj) → Map String ℕ → Map ℕ String → Result (Map String ℕ) (PyErr P)
  resolve_ids [] ids ids_to_keys = ok ids
  resolve_ids ((k, v) ∷ entries) ids ids_to_keys = do
    key ← from_python (P.extract_string k)
    id ← map_err (λ e. value_error (Message.not_an_id key)) (P.extract_u32 v)
    refuse_if (eqb id 0) (Message.zero_id key)
    elim (get id ids_to_keys) [
      | some existing_key ↦ err (value_error (Message.duplicate_id id existing_key key))
      | none ↦ resolve_ids entries (insert key id ids) (insert id key ids_to_keys)
    ]

  -- The loop over the keys of `data`.
  unfoldable pub check_covered : List (P.Obj × P.Obj) → Map String ℕ → Result (Unit {0}) (PyErr P)
  check_covered [] ids = ok tt
  check_covered ((k, v) ∷ entries) ids = do
    key ← from_python (P.extract_string k)
    refuse_if (not (is_some (get key ids))) (Message.missing_entry key)
    check_covered entries ids

  unfoldable pub resolve_symbol_map :
      P.Obj → Option P.Obj → Result (Option (Map String ℕ)) (PyErr P)
  resolve_symbol_map market_data none = ok none
  resolve_symbol_map market_data (some py_map) = do
    entries ← dict_or (type_error (Message.not_a_dict "symbol_map")) py_map
    data_entries ← dict_or (type_error (Message.not_a_dict "data")) market_data
    ids ← resolve_ids entries [] []
    check_covered data_entries ids
    ok (some ids)

  -- The checks that follow those of the symbols.
  unfoldable pub check_modes : Arguments P → Result (Unit {0}) (PyErr P)
  check_modes a = do
    refuse_if (not (one_of a.queue_model "conservative" "volume_clock"))
        (Message.unknown_queue_model a.queue_model)
    refuse_if (not (one_of a.depth_mode "l2" "l3")) (Message.unknown_depth_mode a.depth_mode)
    refuse_if ((a.depth_mode == "l3") && not (is_some a.l3_data)) Message.l3_requires_data
    refuse_if ((a.depth_mode == "l2") && is_some a.l3_data) Message.data_requires_l3
    refuse_if (not (one_of a.latency_model "constant" "log_normal"))
        (Message.unknown_latency_model a.latency_model)
    refuse_if (ltb_ℤ (pos 0) a.max_loss) Message.positive_max_loss

  abbrev pub accepted : Arguments P → Option (Map String ℕ) → Backtester P
  accepted a resolved = record {
    market_data = a.market_data;
    feed_latency_ns = a.feed_latency_ns;
    order_update_latency_ns = elim a.order_update_latency_ns [
      | none ↦ a.feed_latency_ns
      | some ns ↦ ns
    ];
    python_mode = a.python_mode;
    batch_ms = a.batch_ms;
    seed = a.seed;
    trade_log_mode = a.trade_log_mode;
    maker_fee_bps = a.maker_fee_bps;
    taker_fee_bps = a.taker_fee_bps;
    ring_buffer_size = a.ring_buffer_size;
    symbol_map = resolved;
    queue_model = a.queue_model;
    latency_model = a.latency_model;
    latency_mean_ns = a.latency_mean_ns;
    latency_std_ns = a.latency_std_ns;
    max_open_orders = a.max_open_orders;
    max_position = a.max_position;
    max_loss = a.max_loss;
    depth_mode = a.depth_mode;
    l3_data = a.l3_data;
  }

  unfoldable pub new : Arguments P → Result (Backtester P) (PyErr P)
  unfolding resolve_symbol_map check_modes
  new a = do
    refuse_if (eqb a.ring_buffer_size 0) Message.ring_buffer_size
    resolved ← resolve_symbol_map a.market_data a.symbol_map
    check_modes a
    ok (accepted a resolved)

  unfoldable pub effective_queue_model : Backtester P → String
  effective_queue_model b = if b.depth_mode == "l3" then "l3_exact" else b.queue_model
