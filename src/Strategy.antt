-- ===== src/Strategy.antt =====
-- backtester-core/src/engine.rs: what a strategy sees of the market, what it asks for, and the trait
-- `Strategy`. A call of a strategy returns its result, the context and the strategy's own state.
pub mod Requests
use crypto_rs_backtester.Prelude.{ℕ, Option, List, [], ◌∷◌, Result, ok, err}
use crypto_rs_backtester.Prelude.Int.{ℤ}
use crypto_rs_backtester.Prelude.Keys.{nat_eq}
use crypto_rs_backtester.Collections.Map.{Map, get, insert}
use crypto_rs_backtester.Types.{Tick, Order, OrderReport, FundingEvent}

-- The market as the feed has delivered it.
pub record MarketView : Type 0 where
  pub last_trade_by_symbol : Map ℕ Tick

unfoldable pub last_trade : ℕ → MarketView → Option Tick
unfolding get
last_trade symbol_id m = get symbol_id m.last_trade_by_symbol

unfoldable pub deliver : Tick → MarketView → MarketView
unfolding insert
deliver tick m = record { last_trade_by_symbol = insert tick.symbol_id tick m.last_trade_by_symbol }

pub data Command : Type 0 where
  submit_order : Order → Command
  cancel_order : ℕ → Command

pub record Context : Type 0 where
  pub ts_local : ℤ
  pub market : MarketView
  pub commands : List Command

-- `trait Strategy`
pub record Strategy : Type 1 where
  pub State : Type 0
  pub Error : Type 0
  pub on_tick : Tick → Context → State → Result (Unit {0}) Error × (Context × State)
  pub on_ticks : List Tick → Context → State → Result (Unit {0}) Error × (Context × State)
  pub on_order_update : OrderReport → Context → State → Result (Unit {0}) Error × (Context × State)
  pub on_order_updates :
      List OrderReport → Context → State → Result (Unit {0}) Error × (Context × State)
  pub on_funding : FundingEvent → Context → State → Result (Unit {0}) Error × (Context × State)

-- The bodies that the trait provides: the calls one by one up to the first failure, and a funding
-- event that is ignored.
unfoldable pub one_by_one :
    {A S X : Type 0}
    → (A → Context → S → Result (Unit {0}) X × (Context × S))
    → List A
    → Context
    → S
    → Result (Unit {0}) X × (Context × S)
one_by_one call [] ctx s = (ok tt, (ctx, s))
one_by_one call (x ∷ xs) ctx s =
    let called = call x ctx s in
    elim called.0 [ err error ↦ called | ok done ↦ one_by_one call xs called.1.0 called.1.1 ]

unfoldable pub ignore_funding :
    {S X : Type 0} → FundingEvent → Context → S → Result (Unit {0}) X × (Context × S)
ignore_funding event ctx s = (ok tt, (ctx, s))
