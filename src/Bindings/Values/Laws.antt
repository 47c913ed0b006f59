-- ===== src/Bindings/Values/Laws.antt =====
-- backtester-py/src/lib.rs: the two ways to read a field of a report agree.
use Prim.Native.String.{String}
use crypto_rs_backtester.Prelude.{◌≡◌, Option, none, some, Result, ok, err, arith}
use crypto_rs_backtester.Bindings.Values.{
  Value, none_value, KeyError, PyOrderReport, report_item, report_get,
}

-- What `get` returns where the subscript raises an error.
abbrev or_default : Option Value → Result Value KeyError → Value
or_default default (ok value) = value
or_default none (err e) = none_value
or_default (some value) (err e) = value

-- For every key, `get` of a report returns what the subscript returns, and the default, or `None`,
-- where the subscript raises a `KeyError`.
pub report_get-report_item :
    (key : String) (default : Option Value) (r : PyOrderReport)
    → report_get key default r ≡ or_default default (report_item key r)
unfolding report_get report_item
report_get-report_item key default r = ground arith
