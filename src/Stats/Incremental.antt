-- ===== src/Stats/Incremental.antt =====
-- backtester-core/src/stats.rs, `IncrementalStats`: the running summary of fills and PnL.
pub mod Laws
use crypto_rs_backtester.Prelude.{
  ℕ, [], ◌+◌, zero, suc, Bool, true, false, ◌&&◌, ◌||◌, not, if◌then◌else◌, eqb, ltb, leb,
}
use crypto_rs_backtester.Prelude.Int.{
  ℤ, pos, pos_part, ◌+ℤ◌, ◌*ℤ◌, div_trunc, signum, eqb_ℤ, ltb_ℤ, leb_ℤ, min_ℤ,
}
use crypto_rs_backtester.Prelude.I64.{
  abs_i64, neg_i64, sat_i64, sat_i128, sub_i64, saturating_add, saturating_sub, next_u64, signed64,
  div_i64,
}
use crypto_rs_backtester.Prelude.Keys.{nat_eq}
use crypto_rs_backtester.Collections.Map.{Map, get_or, insert}
use crypto_rs_backtester.Types.{Side, scale}
use crypto_rs_backtester.Stats.{Floats, TradeFill, PosState, default_pos}

pub record IncrementalStats (F : Floats) : Type 0 where
  pub total_trades : ℕ
  pub total_pnl : ℤ
  pub gross_profit : ℤ
  pub gross_loss : ℤ
  pub win_count : ℕ
  pub total_fees_paid : ℤ
  pub total_holding_period : ℤ
  pub closed_trades : ℕ
  pub pnl_count : ℕ
  pub pnl_mean : F.F64
  pub pnl_m2 : F.F64
  pub downside_sq_sum : F.F64
  pub equity : ℤ
  pub peak_equity : ℤ
  pub peak_ts : ℤ
  pub max_drawdown_pct : F.F64
  pub max_drawdown_duration : ℤ
  pub pos_state : Map ℕ PosState

-- The source writes the average-cost model here a second time, apart from that of
-- `pnl_deltas_from_fills`.
unfoldable pub open_or_add : TradeFill → ℤ → PosState → PosState
open_or_add fill delta_qty s =
    let abs_old = abs_i64 s.qty in
    let abs_delta = abs_i64 delta_qty in
    let new_abs = abs_old +ℤ abs_delta in
    let weighted = s.avg_price *ℤ abs_old +ℤ fill.price *ℤ abs_delta in
    record {
      qty = saturating_add s.qty delta_qty;
      avg_price =
          if ltb_ℤ (pos 0) new_abs then sat_i64 (div_trunc weighted (pos_part new_abs)) else pos 0;
      last_open_ts = if eqb_ℤ s.qty (pos 0) then fill.ts_exchange else s.last_open_ts;
    }

abbrev pub pnl_delta_of : TradeFill → ℤ → PosState → ℤ
pnl_delta_of fill delta_qty s =
    let close_abs = min_ℤ (abs_i64 s.qty) (abs_i64 delta_qty) in
    let pnl_per_unit =
      if ltb_ℤ (pos 0) s.qty
      then sub_i64 fill.price s.avg_price
      else sub_i64 s.avg_price fill.price in
    sat_i64 (div_trunc (sat_i128 (pnl_per_unit *ℤ close_abs)) scale)

-- A position that is closed keeps its opening time; one that is flipped is opened by the fill.
unfoldable pub reduce_or_flip : TradeFill → ℤ → PosState → PosState
reduce_or_flip fill delta_qty s =
    let new_qty = saturating_add s.qty delta_qty in
    if eqb_ℤ new_qty (pos 0)
    then record s { qty = pos 0; avg_price = pos 0 }
    else if eqb_ℤ (signum new_qty) (signum s.qty)
    then record s { qty = new_qty }
    else record { qty = new_qty; avg_price = fill.price; last_open_ts = fill.ts_exchange }

-- The fall from the peak, in percent of the peak.
abbrev pub drawdown_pct : (F : Floats) → ℤ → ℤ → F.F64
drawdown_pct F peak equity =
    F.min (F.mul (F.div (F.of_int (sub_i64 peak equity)) (F.of_int peak)) (F.of_int (pos 100)))
      (F.of_int (pos 100))

module _ {F : Floats} where
  abbrev pub default_stats : IncrementalStats F
  default_stats = record {
    total_trades = 0;
    total_pnl = pos 0;
    gross_profit = pos 0;
    gross_loss = pos 0;
    win_count = 0;
    total_fees_paid = pos 0;
    total_holding_period = pos 0;
    closed_trades = 0;
    pnl_count = 0;
    pnl_mean = F.of_int (pos 0);
    pnl_m2 = F.of_int (pos 0);
    downside_sq_sum = F.of_int (pos 0);
    equity = pos 0;
    peak_equity = pos 0;
    peak_ts = pos 0;
    max_drawdown_pct = F.of_int (pos 0);
    max_drawdown_duration = pos 0;
    pos_state = [];
  }

  abbrev pub count_fill : TradeFill → IncrementalStats F → IncrementalStats F
  count_fill fill st = record st {
    total_trades = next_u64 st.total_trades;
    total_fees_paid = saturating_add st.total_fees_paid fill.fee;
  }

  -- A realised PnL that is not zero closes a trade.
  abbrev pub count_close : TradeFill → ℤ → PosState → IncrementalStats F → IncrementalStats F
  count_close fill pnl_delta s st = if eqb_ℤ pnl_delta (pos 0) then st else record st {
    total_holding_period =
        saturating_add st.total_holding_period (saturating_sub fill.ts_exchange s.last_open_ts);
    closed_trades = next_u64 st.closed_trades;
  }

  abbrev pub put_pos : TradeFill → PosState → IncrementalStats F → IncrementalStats F
  put_pos fill s st = record st { pos_state = insert fill.symbol_id s st.pos_state }

  unfoldable pub on_fill : TradeFill → IncrementalStats F → IncrementalStats F
  unfolding open_or_add reduce_or_flip
  on_fill fill st =
      let counted = count_fill fill st in
      let delta_qty : ℤ = elim fill.side [
        | Side.buy ↦ fill.qty
        | Side.sell ↦ neg_i64 fill.qty
        | Side.none ↦ pos 0
      ] in
      let s = get_or fill.symbol_id default_pos st.pos_state in
      if leb_ℤ fill.qty (pos 0)
      then counted
      else if eqb_ℤ delta_qty (pos 0)
      then counted
      else if eqb_ℤ s.qty (pos 0) || eqb_ℤ (signum s.qty) (signum delta_qty)
      then put_pos fill (open_or_add fill delta_qty s) counted
      else put_pos fill (reduce_or_flip fill delta_qty s)
          (count_close fill (pnl_delta_of fill delta_qty s) s counted)

  -- The totals.
  abbrev pub add_totals : ℤ → Bool → IncrementalStats F → IncrementalStats F
  add_totals pnl is_trade st =
      let st' = record st { total_pnl = saturating_add st.total_pnl pnl } in
      if is_trade && ltb_ℤ (pos 0) pnl
      then record st' {
        gross_profit = saturating_add st.gross_profit pnl;
        win_count = next_u64 st.win_count;
      }
      else if is_trade && ltb_ℤ pnl (pos 0)
      then record st' { gross_loss = saturating_add st.gross_loss pnl }
      else st'

  -- The series of PnL: Welford's mean and square sum.
  abbrev pub add_moments : ℤ → IncrementalStats F → IncrementalStats F
  add_moments pnl st =
      let count = next_u64 st.pnl_count in
      let pnl_f = F.of_int pnl in
      let delta = F.sub pnl_f st.pnl_mean in
      let mean = F.add st.pnl_mean (F.div delta (F.of_int (pos count))) in
      record st {
        pnl_count = count;
        pnl_mean = mean;
        pnl_m2 = F.add st.pnl_m2 (F.mul delta (F.sub pnl_f mean));
        downside_sq_sum =
            if ltb_ℤ pnl (pos 0)
            then F.add st.downside_sq_sum (F.mul pnl_f pnl_f)
            else st.downside_sq_sum;
      }

  -- The equity curve: a new peak, or a fall from the peak.
  abbrev pub add_equity : ℤ → ℤ → IncrementalStats F → IncrementalStats F
  add_equity ts pnl st =
      let equity = saturating_add st.equity pnl in
      let st' = record st { equity = equity } in
      let dd_pct = drawdown_pct F st.peak_equity equity in
      if eqb st.pnl_count 1 || ltb_ℤ st.peak_equity equity
      then record st' { peak_equity = equity; peak_ts = ts }
      else if leb_ℤ st.peak_equity (pos 0)
      then st'
      else if F.less st.max_drawdown_pct dd_pct
      then record st' {
        max_drawdown_pct = dd_pct;
        max_drawdown_duration = saturating_sub ts st.peak_ts;
      }
      else st'

  unfoldable pub on_pnl : ℤ → ℤ → Bool → IncrementalStats F → IncrementalStats F
  on_pnl ts pnl is_trade st = add_equity ts pnl (add_moments pnl (add_totals pnl is_trade st))

  unfoldable pub sharpe_ratio : IncrementalStats F → F.F64
  sharpe_ratio st =
      let var = F.div st.pnl_m2 (F.sub (F.of_int (pos st.pnl_count)) (F.of_int (pos 1))) in
      let std = F.sqrt var in
      if ltb st.pnl_count 2
      then F.of_int (pos 0)
      else if F.same std (F.of_int (pos 0))
      then F.of_int (pos 0)
      else F.div st.pnl_mean std

  unfoldable pub sortino_ratio : IncrementalStats F → F.F64
  sortino_ratio st =
      let downside_std = F.sqrt (F.div st.downside_sq_sum (F.of_int (pos st.pnl_count))) in
      if ltb st.pnl_count 2
      then F.of_int (pos 0)
      else if F.same downside_std (F.of_int (pos 0))
      then F.of_int (pos 0)
      else F.div st.pnl_mean downside_std

  unfoldable pub avg_holding_period : IncrementalStats F → ℤ
  avg_holding_period st =
      if ltb 0 st.closed_trades
      then div_i64 st.total_holding_period (signed64 st.closed_trades)
      else pos 0
