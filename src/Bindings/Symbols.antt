-- ===== src/Bindings/Symbols.antt =====
-- backtester-py/src/lib.rs: `build_symbol_ids`, the ids of the symbols of a run.
pub mod Laws
use Prim.Native.String.{String}
use crypto_rs_backtester.Prelude.{
  ℕ, zero, suc, ◌+◌, ◌%◌, Option, none, some, List, [], ◌∷◌, Result, ok, err, ◌>>=◌, ◌>>◌, ok_or,
}
use crypto_rs_backtester.Prelude.Keys.{nat_eq}
use crypto_rs_backtester.Collections.Map.{Map, get, insert}
use crypto_rs_backtester.Bindings.{Python, PyErr, value_error, Message, string_eq}

module _ {P : Python} where
  -- The loop over the keys, which checks the explicit map once more.
  unfoldable pub check_keys :
      List String → Map String ℕ → Map ℕ String → Result (Unit {0}) (PyErr P)
  check_keys [] ids ids_to_keys = ok tt
  check_keys (k ∷ ks) ids ids_to_keys = do
    id ← ok_or (value_error (Message.missing_entry k)) (get k ids)
    elim (get id ids_to_keys) [
      | some existing_key ↦ err (value_error (Message.duplicate_id id existing_key k))
      | none ↦ check_keys ks ids (insert id k ids_to_keys)
    ]

-- `(i as u32) + 1` for the keys in order.
unfoldable pub number_keys : ℕ → List String → Map String ℕ → Map String ℕ
number_keys i [] ids = ids
number_keys i (k ∷ ks) ids =
    number_keys (suc i) ks (insert k ((i % 4294967296 + 1) % 4294967296) ids)

module _ {P : Python} where
  unfoldable pub build_symbol_ids :
      List String → Option (Map String ℕ) → Result (Map String ℕ) (PyErr P)
  unfolding check_keys number_keys
  build_symbol_ids sorted_keys (some ids) = do check_keys sorted_keys ids []; ok ids
  build_symbol_ids sorted_keys none = ok (number_keys 0 sorted_keys [])
