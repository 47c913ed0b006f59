-- ===== src/Strategy/Requests.antt =====
-- backtester-core/src/engine.rs, `Context`: how a strategy asks for orders.
use crypto_rs_backtester.Prelude.{ℕ, List, [], ◌∷◌, ◌++◌}
use crypto_rs_backtester.Prelude.Int.{ℤ}
use crypto_rs_backtester.Types.{Order}
use crypto_rs_backtester.Strategy.{MarketView, Command, Context}

unfoldable pub new : ℤ → MarketView → Context
new ts_local market = record { ts_local = ts_local; market = market; commands = [] }

unfoldable pub submit_order : Order → Context → Context
submit_order order ctx = record ctx { commands = ctx.commands ++ Command.submit_order order ∷ [] }

unfoldable pub cancel_order : ℕ → Context → Context
cancel_order order_id ctx = record ctx {
  commands = ctx.commands ++ Command.cancel_order order_id ∷ [];
}

abbrev pub into_commands : Context → List Command
into_commands ctx = ctx.commands
