-- ===== src/Account.antt =====
-- backtester-core/src/account.rs: positions by symbol, the realised PnL of fills, and funding.
pub mod Fills
pub mod Funding
pub mod Realised
pub mod RoundTrip
use crypto_rs_backtester.Prelude.{ℕ, ◌+◌, Bool, ◌||◌, Option, none, some, if◌then◌else◌, leb, not}
use crypto_rs_backtester.Prelude.Int.{
  ℤ, pos, pos_part, min_ℤ, ◌+ℤ◌, ◌*ℤ◌, neg, div_trunc, abs, signum, eqb_ℤ, ltb_ℤ,
}
use crypto_rs_backtester.Prelude.I64.{neg_i64, abs_i64, sat_i64, sat_i128, sub_i64, saturating_add}
use crypto_rs_backtester.Prelude.Keys.{nat_eq}
use crypto_rs_backtester.Collections.Map.{Map, get, get_or, insert}
use crypto_rs_backtester.Types.{Order, Side, FundingEvent, scale}
use mathlib.Core.Option

pub record Position : Type 0 where
  pub qty : ℤ
  pub avg_price : ℤ
  pub last_open_ts : ℤ
  pub funding_pnl : ℤ

abbrev pub default_position : Position
default_position = record {
  qty = pos 0;
  avg_price = pos 0;
  last_open_ts = pos 0;
  funding_pnl = pos 0;
}

pub record Account : Type 0 where
  pub positions : Map ℕ Position
  pub total_funding_pnl : ℤ

abbrev pub fill_delta : Order → ℤ → ℤ
fill_delta order fill_qty = elim order.side [
  | Side.buy ↦ fill_qty
  | Side.sell ↦ neg_i64 fill_qty
  | Side.none ↦ pos 0
]

-- The average entry price after an addition: the i128 quotient, clamped.
abbrev pub weighted_avg : Position → ℤ → ℤ → ℤ
weighted_avg p delta_qty fill_price =
    let abs_old = abs_i64 p.qty in
    let abs_delta = abs_i64 delta_qty in
    let new_abs = abs_old +ℤ abs_delta in
    if ltb_ℤ (pos 0) new_abs
    then sat_i64 (div_trunc (p.avg_price *ℤ abs_old +ℤ fill_price *ℤ abs_delta) (pos_part new_abs))
    else pos 0

-- A fill that opens a position or adds to it.
unfoldable pub open_position : Order → ℤ → ℤ → Position → Position
open_position order delta_qty fill_price p = record p {
  qty = saturating_add p.qty delta_qty;
  avg_price = weighted_avg p delta_qty fill_price;
  last_open_ts = if eqb_ℤ p.qty (pos 0) then order.ts_submit else p.last_open_ts;
}

-- The realised PnL of a fill against the position.
abbrev pub realised_pnl : Position → ℤ → ℤ → ℤ
realised_pnl p delta_qty fill_price =
    let close_abs = min_ℤ (abs_i64 p.qty) (abs_i64 delta_qty) in
    let pnl_per_unit =
      if ltb_ℤ (pos 0) p.qty
      then sub_i64 fill_price p.avg_price
      else sub_i64 p.avg_price fill_price in
    sat_i64 (div_trunc (sat_i128 (pnl_per_unit *ℤ close_abs)) scale)

-- A fill that reduces, closes or flips the position.
unfoldable pub close_position : Order → ℤ → ℤ → Position → Position
close_position order delta_qty fill_price p =
    let new_qty = saturating_add p.qty delta_qty in
    if eqb_ℤ new_qty (pos 0)
    then record p { qty = pos 0; avg_price = pos 0 }
    else if eqb_ℤ (signum new_qty) (signum p.qty)
    then record p { qty = new_qty }
    else record p { qty = new_qty; avg_price = fill_price; last_open_ts = order.ts_submit }

abbrev pub adds : Position → ℤ → Bool
adds p delta_qty = eqb_ℤ p.qty (pos 0) || eqb_ℤ (signum p.qty) (signum delta_qty)

-- The position of a symbol, or the default that `or_default` puts in.
abbrev pub position_or_default : ℕ → Account → Position
position_or_default symbol_id a = get_or symbol_id default_position a.positions

abbrev pub put_position : ℕ → Position → Account → Account
put_position symbol_id p a = record a { positions = insert symbol_id p a.positions }

unfoldable pub on_fill : Order → ℤ → ℤ → Account → ℤ × Account
unfolding open_position close_position
on_fill order fill_qty fill_price a =
    let delta_qty = fill_delta order fill_qty in
    let p = position_or_default order.symbol_id a in
    if eqb_ℤ delta_qty (pos 0)
    then (pos 0, a)
    else if adds p delta_qty
    then (pos 0, put_position order.symbol_id (open_position order delta_qty fill_price p) a)
    else (
      realised_pnl p delta_qty fill_price,
      put_position order.symbol_id (close_position order delta_qty fill_price p) a,
    )

unfoldable pub position : ℕ → Account → Option Position
position symbol_id a = get symbol_id a.positions

unfoldable pub position_qty : ℕ → Account → ℤ
position_qty symbol_id a = (position_or_default symbol_id a).qty

-- The cash flow of a funding event on a position.
unfoldable pub funding_flow : FundingEvent → ℤ → Position → ℤ
funding_flow event mark_price p =
    let notional = div_trunc (sat_i128 (p.qty *ℤ mark_price)) scale in
    let payment = div_trunc (sat_i128 (notional *ℤ event.rate)) scale in sat_i64 (neg payment)

unfoldable pub apply_funding : FundingEvent → ℤ → Account → ℤ × Account
unfolding funding_flow
apply_funding event mark_price a = elim (get event.symbol_id a.positions) [
  | none ↦ (pos 0, a)
  | some p ↦
      let pnl = funding_flow event mark_price p in
      if eqb_ℤ p.qty (pos 0) || eqb_ℤ event.rate (pos 0) || eqb_ℤ mark_price (pos 0)
      then (pos 0, a)
      else (
        pnl,
        record (put_position event.symbol_id
            (record p { funding_pnl = saturating_add p.funding_pnl pnl }) a) {
              total_funding_pnl = saturating_add a.total_funding_pnl pnl;
            },
      )
]
