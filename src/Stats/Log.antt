-- ===== src/Stats/Log.antt =====
-- backtester-core/src/stats.rs, `TradeLog`: what a retention mode keeps.
pub mod Kept
pub mod Laws
pub mod Totals
use crypto_rs_backtester.Prelude.{
  ℕ, Bool, true, false, List, [], ◌∷◌, ◌++◌, if◌then◌else◌, leb, eqb, length,
}
use crypto_rs_backtester.Prelude.Int.{ℤ}
use crypto_rs_backtester.Stats.{Floats, TradeFill, PnlEvent, TradeLogMode}
use crypto_rs_backtester.Stats.Incremental
use crypto_rs_backtester.Stats.Incremental.{IncrementalStats, default_stats}

pub record TradeLog (F : Floats) : Type 0 where
  pub mode : TradeLogMode
  pub fills : List TradeFill
  pub fills_ring : List TradeFill
  pub pnl_history : List (ℤ × ℤ)
  pub incremental : IncrementalStats F

-- `pop_front`
abbrev pub pop_front : List TradeFill → List TradeFill
pop_front [] = []
pop_front (f ∷ fs) = fs

-- A push into the ring of the given capacity.
unfoldable pub push_ring : ℕ → TradeFill → List TradeFill → List TradeFill
push_ring cap f ring = (if leb cap (length ring) then pop_front ring else ring) ++ f ∷ []

abbrev pub is_off : TradeLogMode → Bool
is_off TradeLogMode.none = true
is_off _ = false

module _ {F : Floats} where
  unfoldable pub new : TradeLogMode → TradeLog F
  new mode = record {
    mode = mode;
    fills = [];
    fills_ring = [];
    pnl_history = [];
    incremental = default_stats;
  }

  unfoldable pub update_incremental_fill : TradeFill → TradeLog F → TradeLog F
  unfolding Incremental.on_fill
  update_incremental_fill f log = record log { incremental = Incremental.on_fill f log.incremental }

  unfoldable pub push_fill : TradeFill → TradeLog F → TradeLog F
  unfolding update_incremental_fill push_ring
  push_fill f log = elim log.mode [
    | TradeLogMode.all ↦ update_incremental_fill f (record log { fills = log.fills ++ f ∷ [] })
    | TradeLogMode.ring_buffer cap ↦
        update_incremental_fill f (record log { fills_ring = push_ring cap f log.fills_ring })
    | TradeLogMode.summary_only ↦ update_incremental_fill f log
    | TradeLogMode.none ↦ log
  ]

  unfoldable pub update_incremental_pnl : ℤ → ℤ → Bool → TradeLog F → TradeLog F
  unfolding Incremental.on_pnl
  update_incremental_pnl ts pnl is_trade log =
      if is_off log.mode
      then log
      else record log { incremental = Incremental.on_pnl ts pnl is_trade log.incremental }

  abbrev pub push_history : ℤ → ℤ → TradeLog F → TradeLog F
  push_history ts pnl log =
      if is_off log.mode
      then log
      else record log { pnl_history = log.pnl_history ++ (ts, pnl) ∷ [] }

  unfoldable pub push_pnl_event : PnlEvent → TradeLog F → TradeLog F
  unfolding update_incremental_pnl
  push_pnl_event e log =
      update_incremental_pnl e.ts_exchange e.pnl false (push_history e.ts_exchange e.pnl log)

  unfoldable pub push_pnl_delta : ℤ → ℤ → TradeLog F → TradeLog F
  unfolding update_incremental_pnl
  push_pnl_delta ts pnl log = update_incremental_pnl ts pnl true (push_history ts pnl log)

  unfoldable pub fills_vec : TradeLog F → List TradeFill
  fills_vec log = elim log.mode [
    | TradeLogMode.all ↦ log.fills
    | TradeLogMode.ring_buffer cap ↦ log.fills_ring
    | _ ↦ []
  ]

  unfoldable pub len : TradeLog F → ℕ
  len log = elim log.mode [
    | TradeLogMode.all ↦ length log.fills
    | TradeLogMode.ring_buffer cap ↦ length log.fills_ring
    | TradeLogMode.summary_only ↦ log.incremental.total_trades
    | TradeLogMode.none ↦ 0
  ]

  unfoldable pub is_empty : TradeLog F → Bool
  unfolding len
  is_empty log = eqb (len log) 0
