-- ===== src/Bindings.antt =====
-- backtester-py/src/lib.rs: the extension module. What Python gives is a parameter: its objects, with
-- the casts and extractions that the bindings call, and its exceptions.
pub mod Config
pub mod Symbols
pub mod Context
pub mod Values
pub mod Callbacks
pub mod Dispatch
pub mod Parse
pub mod Runs
pub mod BacktestResult
use Prim.Native.String.{String}
use text.Mathlib.Text.{◌==◌ as ◌=str◌}
use text.Mathlib.TextEquality.{eq_iff}
use crypto_rs_backtester.Prelude.{ℕ, Option, none, some, List, Result, ok, err, ◌≡◌, ◌↔◌, true}
use crypto_rs_backtester.Prelude.Int.{ℤ}
use crypto_rs_backtester.Exchange.{ExchangeError}
use crypto_rs_backtester.Prelude.Keys.{Eq}

instance abbrev pub string_eq : Eq String
string_eq = record { beq = ◌=str◌; beq_iff = eq_iff }

-- `as_dict` is `cast::<PyDict>()`, with the entries in the order of iteration, and `cast_error` what `?`
-- makes of its failure. `get_item` is the dict's; the others are `extract`.
pub record Python : Type 1 where
  pub Obj : Type 0
  pub Err : Type 0
  pub cast_error : Err
  pub as_dict : Obj → Option (List (Obj × Obj))
  pub get_item : Obj → String → Result (Option Obj) Err
  pub extract_string : Obj → Result String Err
  pub extract_u32 : Obj → Result ℕ Err

-- The messages of the exceptions that the bindings raise; `displayed` is the text of an error of a
-- source, `stream_of` that of an error of a symbol's stream.
pub data Message : Type 0 where
  ring_buffer_size run_many_l3 empty_streams one_l3_entry : Message
  l3_requires_data data_requires_l3 positive_max_loss no_symbol_id no_key : Message
  not_a_dict not_an_id zero_id missing_entry missing_l3_entry : String → Message
  unknown_queue_model unknown_depth_mode unknown_latency_model invalid_order_type : String → Message
  duplicate_id : ℕ → String → String → Message
  invalid_side : ℤ → Message
  displayed stream_of : String → Message
  mixed_depth no_next_update no_next_tick index_out_of_range : ℕ → Message
  internal : ExchangeError → Message

-- `PyErr`
pub data PyErr (P : Python) : Type 0 where
  raised : P.Err → PyErr P
  value_error type_error runtime_error key_error : Message → PyErr P

module _ {P : Python} where
  -- `?` on what Python fails to do.
  abbrev pub from_python : {A : Type 0} → Result A P.Err → Result A (PyErr P)
  from_python (ok a) = ok a
  from_python (err e) = err (raised e)

  abbrev pub dict_or : PyErr P → P.Obj → Result (List (P.Obj × P.Obj)) (PyErr P)
  dict_or e obj = elim (P.as_dict obj) [ none ↦ err e | some entries ↦ ok entries ]
