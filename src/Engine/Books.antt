-- ===== src/Engine/Books.antt =====
-- backtester-core/src/engine.rs: what fills and PnL keep of the risk guard and the trade log.
use crypto_rs_backtester.Prelude.{◌≡◌, true, false, arith}
use crypto_rs_backtester.Prelude.Int.{ℤ}
use crypto_rs_backtester.RiskGuard.{RiskGuard, update_pnl}
use crypto_rs_backtester.Stats.{Floats, TradeFill, PnlEvent}
use crypto_rs_backtester.Stats.Log.{TradeLog, push_fill, push_pnl_delta, push_pnl_event}
use crypto_rs_backtester.Stats.Log.Totals.{HasTotal, push_fill-HasTotal, push_pnl-HasTotal}

-- A property of the risk guard and the log that fills, and PnL that both are told, keep.
pub record BookLaws (F : Floats) : Type 1 where
  pub Holds : RiskGuard → TradeLog F → Type 0
  pub keeps_fill :
      (f : TradeFill) (g : RiskGuard) (log : TradeLog F) → Holds g log → Holds g (push_fill f log)
  pub keeps_delta :
      (ts d : ℤ) (g : RiskGuard) (log : TradeLog F)
      → Holds g log
      → Holds (update_pnl d g) (push_pnl_delta ts d log)
  pub keeps_event :
      (p : PnlEvent) (g : RiskGuard) (log : TradeLog F)
      → Holds g log
      → Holds (update_pnl p.pnl g) (push_pnl_event p log)

pub push_pnl_delta-HasTotal :
    {F : Floats} (ts d : ℤ) (g : RiskGuard) (log : TradeLog F)
    → HasTotal g.running_pnl log
    → HasTotal (update_pnl d g).running_pnl (push_pnl_delta ts d log)
unfolding update_pnl push_pnl_delta
push_pnl_delta-HasTotal ts d g log h = push_pnl-HasTotal ts d true g.running_pnl log h

pub push_pnl_event-HasTotal :
    {F : Floats} (p : PnlEvent) (g : RiskGuard) (log : TradeLog F)
    → HasTotal g.running_pnl log
    → HasTotal (update_pnl p.pnl g).running_pnl (push_pnl_event p log)
unfolding update_pnl push_pnl_event
push_pnl_event-HasTotal p g log h = push_pnl-HasTotal p.ts_exchange p.pnl false g.running_pnl log h

pub update_pnl-killed : (d : ℤ) (g : RiskGuard) → g.killed ≡ true → (update_pnl d g).killed ≡ true
unfolding update_pnl
update_pnl-killed d g h = ground (arith, h)

-- The risk guard's running PnL is the total PnL of the log, or the log is off.
abbrev pub totals-BookLaws : (F : Floats) → BookLaws F
totals-BookLaws F = record {
  Holds = λ g log. HasTotal g.running_pnl log;
  keeps_fill = λ f g log. push_fill-HasTotal f g.running_pnl log;
  keeps_delta = λ ts d g log. push_pnl_delta-HasTotal ts d g log;
  keeps_event = λ p g log. push_pnl_event-HasTotal p g log;
}

-- The kill switch is on.
abbrev pub killed-BookLaws : (F : Floats) → BookLaws F
killed-BookLaws F = record {
  Holds = λ g log. g.killed ≡ true;
  keeps_fill = λ f g log h. h;
  keeps_delta = λ ts d g log. update_pnl-killed d g;
  keeps_event = λ p g log. update_pnl-killed p.pnl g;
}
