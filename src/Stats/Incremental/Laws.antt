-- ===== src/Stats/Incremental/Laws.antt =====
-- backtester-core/src/stats.rs: the running summary against what a pass over all fills computes.
use crypto_rs_backtester.Prelude.{
  ℕ, ◌≡◌, refl, ap, ◌∙◌, inl, inr, List, [], ◌∷◌, Bool-cases, if◌then◌else◌,
}
use crypto_rs_backtester.Prelude.Int.{ℤ, pos, eqb_ℤ, leb_ℤ}
use crypto_rs_backtester.Prelude.I64.{saturating_add, next_u64}
use crypto_rs_backtester.Prelude.Keys.{nat_eq}
use crypto_rs_backtester.Collections.Map.{get_or}
use crypto_rs_backtester.Stats.{Floats, TradeFill, default_pos}
use crypto_rs_backtester.Stats.Positions.{
  PnlDelta, fill_qty, adds_to, add_to, close_pnl, close_from, fill_step, deltas_from,
  pnl_deltas_from_fills,
}
use crypto_rs_backtester.Stats.Incremental.{
  IncrementalStats, default_stats, open_or_add, reduce_or_flip, on_fill,
}

-- The closing deltas, and the holding periods of the closing deltas, counted and summed as the
-- statistics count and sum.
abbrev pub count_closing : ℕ → List PnlDelta → ℕ
count_closing n [] = n
count_closing n (d ∷ ds) = count_closing (if eqb_ℤ d.pnl (pos 0) then n else next_u64 n) ds

abbrev pub sum_holding : ℤ → List PnlDelta → ℤ
sum_holding h [] = h
sum_holding h (d ∷ ds) =
    sum_holding (if eqb_ℤ d.pnl (pos 0) then h else saturating_add h d.holding_period) ds

abbrev pub sum_fees : ℤ → List TradeFill → ℤ
sum_fees total [] = total
sum_fees total (f ∷ fs) = sum_fees (saturating_add total f.fee) fs

module _ {F : Floats} where
  abbrev pub on_fills : List TradeFill → IncrementalStats F → IncrementalStats F
  on_fills [] st = st
  on_fills (f ∷ fs) st = on_fills fs (on_fill f st)

  -- One fill: the positions of `fill_step`, and its delta counted if it closes.
  on_fill-fill_step :
      (f : TradeFill) (st : IncrementalStats F)
      → let d = (fill_step f st.pos_state).0 in
        ((on_fill f st).pos_state ≡ (fill_step f st.pos_state).1)
        × ((on_fill f st).closed_trades
            ≡ (if eqb_ℤ d.pnl (pos 0) then st.closed_trades else next_u64 st.closed_trades))
        × ((on_fill f st).total_holding_period ≡ (
            if eqb_ℤ d.pnl (pos 0)
            then st.total_holding_period
            else saturating_add st.total_holding_period d.holding_period))
        × ((on_fill f st).total_fees_paid ≡ saturating_add st.total_fees_paid f.fee)
  unfolding on_fill fill_step open_or_add reduce_or_flip add_to close_from
  on_fill-fill_step f st =
      let s = get_or f.symbol_id default_pos st.pos_state in
      let d = fill_qty f in
      elim (Bool-cases (leb_ℤ f.qty (pos 0))) [
        | inl q ↦ rw (q, on_fill, fill_step) (refl, refl, refl, refl)
        | inr q ↦ elim (Bool-cases (eqb_ℤ d (pos 0))) [
          | inl e ↦ rw (q, e, on_fill, fill_step) (refl, refl, refl, refl)
          | inr e ↦ elim (Bool-cases (adds_to s d)) [
            | inl k ↦ rw (q, e, k, on_fill, fill_step) (refl, refl, refl, refl)
            | inr k ↦ elim (Bool-cases (eqb_ℤ (close_pnl f d s) (pos 0))) [
              | inl z ↦ rw (q, e, k, z, on_fill, fill_step) (refl, refl, refl, refl)
              | inr z ↦ rw (q, e, k, z, on_fill, fill_step) (refl, refl, refl, refl)
            ]
          ]
        ]
      ]

  on_fills-deltas_from :
      (fs : List TradeFill) (st : IncrementalStats F)
      → let ds = deltas_from fs st.pos_state in
        ((on_fills fs st).closed_trades ≡ count_closing st.closed_trades ds)
        × ((on_fills fs st).total_holding_period ≡ sum_holding st.total_holding_period ds)
        × ((on_fills fs st).total_fees_paid ≡ sum_fees st.total_fees_paid fs)
  unfolding deltas_from
  on_fills-deltas_from [] st = (refl, refl, refl)
  on_fills-deltas_from (f ∷ fs) st =
      let (states, closed, held, fees) = on_fill-fill_step f st in
      let (c, h, t) = on_fills-deltas_from fs (on_fill f st) in
      let rest : deltas_from fs (on_fill f st).pos_state
          ≡ deltas_from fs (fill_step f st.pos_state).1 =
        ap (deltas_from fs) states in
      (
        c
            ∙ ap (λ x. count_closing x (deltas_from fs (on_fill f st).pos_state)) closed
            ∙ ap (count_closing _) rest,
        h
            ∙ ap (λ x. sum_holding x (deltas_from fs (on_fill f st).pos_state)) held
            ∙ ap (sum_holding _) rest,
        t ∙ ap (λ x. sum_fees x fs) fees,
      )

-- Over any list of fills, the summary that is kept fill by fill counts the closed trades, and sums
-- their holding periods and the fees, as a pass over the reconstructed PnL deltas does.
pub on_fills-pnl_deltas_from_fills :
    (F : Floats) (fs : List TradeFill)
    → let st = on_fills fs (default_stats {F = F}) in
      let ds = pnl_deltas_from_fills fs in
      (st.closed_trades ≡ count_closing 0 ds)
      × (st.total_holding_period ≡ sum_holding (pos 0) ds)
      × (st.total_fees_paid ≡ sum_fees (pos 0) fs)
unfolding pnl_deltas_from_fills
on_fills-pnl_deltas_from_fills F fs = on_fills-deltas_from fs (default_stats {F = F})
