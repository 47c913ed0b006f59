-- ===== src/Stats/Positions.antt =====
-- backtester-core/src/stats.rs: the average-cost model of the fills of a symbol, and the realised PnL
-- of a list of fills.
pub mod Laws
use crypto_rs_backtester.Prelude.{ℕ, Bool, true, false, ◌||◌, List, [], ◌∷◌, if◌then◌else◌}
use crypto_rs_backtester.Prelude.Int.{
  ℤ, pos, pos_part, ◌+ℤ◌, ◌*ℤ◌, div_trunc, signum, eqb_ℤ, ltb_ℤ, leb_ℤ, min_ℤ,
}
use crypto_rs_backtester.Prelude.I64.{
  abs_i64, neg_i64, sat_i64, sat_i128, sub_i64, saturating_add, saturating_sub,
}
use crypto_rs_backtester.Prelude.Keys.{nat_eq}
use crypto_rs_backtester.Collections.Map.{Map, get_or, insert}
use crypto_rs_backtester.Types.{Side, scale}
use crypto_rs_backtester.Stats.{TradeFill, PosState, default_pos}

-- The signed quantity of a fill.
abbrev pub fill_of_side : Side → ℤ → ℤ
fill_of_side side qty = elim side [ Side.buy ↦ qty | Side.sell ↦ neg_i64 qty | Side.none ↦ pos 0 ]

abbrev pub fill_qty : TradeFill → ℤ
fill_qty f = fill_of_side f.side f.qty

-- The fill changes no position.
abbrev pub is_empty_fill : TradeFill → Bool
is_empty_fill f = leb_ℤ f.qty (pos 0) || eqb_ℤ (fill_qty f) (pos 0)

-- The fill opens the position or adds to it.
abbrev pub adds_to : PosState → ℤ → Bool
adds_to s delta_qty = eqb_ℤ s.qty (pos 0) || eqb_ℤ (signum s.qty) (signum delta_qty)

unfoldable pub add_to : TradeFill → ℤ → PosState → PosState
add_to f delta_qty s =
    let abs_old = abs_i64 s.qty in
    let abs_delta = abs_i64 delta_qty in
    let new_abs = abs_old +ℤ abs_delta in
    record {
      qty = saturating_add s.qty delta_qty;
      avg_price =
          if ltb_ℤ (pos 0) new_abs
          then sat_i64
              (div_trunc (s.avg_price *ℤ abs_old +ℤ f.price *ℤ abs_delta) (pos_part new_abs))
          else pos 0;
      last_open_ts = if eqb_ℤ s.qty (pos 0) then f.ts_exchange else s.last_open_ts;
    }

-- The realised PnL of a fill against the position.
abbrev pub close_pnl : TradeFill → ℤ → PosState → ℤ
close_pnl f delta_qty s =
    let close_abs = min_ℤ (abs_i64 s.qty) (abs_i64 delta_qty) in
    let pnl_per_unit =
      if ltb_ℤ (pos 0) s.qty then sub_i64 f.price s.avg_price else sub_i64 s.avg_price f.price in
    sat_i64 (div_trunc (sat_i128 (pnl_per_unit *ℤ close_abs)) scale)

unfoldable pub close_from : TradeFill → ℤ → PosState → PosState
close_from f delta_qty s =
    let new_qty = saturating_add s.qty delta_qty in
    if eqb_ℤ new_qty (pos 0)
    then record s { qty = pos 0; avg_price = pos 0 }
    else if eqb_ℤ (signum new_qty) (signum s.qty)
    then record s { qty = new_qty }
    else record { qty = new_qty; avg_price = f.price; last_open_ts = f.ts_exchange }

pub record PnlDelta : Type 0 where
  pub ts_exchange : ℤ
  pub pnl : ℤ
  pub holding_period : ℤ

abbrev pub no_delta : TradeFill → PnlDelta
no_delta f = record { ts_exchange = f.ts_exchange; pnl = pos 0; holding_period = pos 0 }

abbrev pub close_delta : TradeFill → ℤ → PosState → PnlDelta
close_delta f delta_qty s = record {
  ts_exchange = f.ts_exchange;
  pnl = close_pnl f delta_qty s;
  holding_period =
      if eqb_ℤ (close_pnl f delta_qty s) (pos 0)
      then pos 0
      else saturating_sub f.ts_exchange s.last_open_ts;
}

-- One pass of the loop: the delta of the fill, and the positions after it.
unfoldable pub fill_step : TradeFill → Map ℕ PosState → PnlDelta × Map ℕ PosState
unfolding add_to close_from
fill_step f states =
    let s = get_or f.symbol_id default_pos states in
    let d = fill_qty f in
    if is_empty_fill f
    then (no_delta f, states)
    else if adds_to s d
    then (no_delta f, insert f.symbol_id (add_to f d s) states)
    else (close_delta f d s, insert f.symbol_id (close_from f d s) states)

unfoldable pub deltas_from : List TradeFill → Map ℕ PosState → List PnlDelta
unfolding fill_step
deltas_from [] states = []
deltas_from (f ∷ fs) states =
    let (delta, states') = fill_step f states in delta ∷ deltas_from fs states'

unfoldable pub pnl_deltas_from_fills : List TradeFill → List PnlDelta
unfolding deltas_from
pnl_deltas_from_fills fills = deltas_from fills []
