-- ===== src/Stats/Log/Totals.antt =====
-- backtester-core/src/stats.rs: the total PnL of the log.
use crypto_rs_backtester.Prelude.{
  ◌≡◌, ◌⊎◌, [], ◌∷◌, ◌++◌, sym, ap, ◌∙◌, inl, inr, Bool, true, false, arith, Bool-cases,
}
use crypto_rs_backtester.Prelude.Int.{ℤ}
use crypto_rs_backtester.Prelude.I64.{saturating_add}
use crypto_rs_backtester.Stats.{Floats, TradeFill}
use crypto_rs_backtester.Stats.Incremental
use crypto_rs_backtester.Stats.Incremental.{IncrementalStats}
use crypto_rs_backtester.Stats.Log.Laws.{push_pnl-off}
use crypto_rs_backtester.Stats.Log.{
  TradeLog, is_off, push_fill, push_history, update_incremental_fill, update_incremental_pnl,
}

module _ {F : Floats} where
  -- The log is off, or this is its total PnL.
  abbrev pub HasTotal : ℤ → TradeLog F → Type 0
  HasTotal total log = (is_off log.mode ≡ true) ⊎ (total ≡ log.incremental.total_pnl)

  on_pnl-total_pnl :
      (ts d : ℤ) (is_trade : Bool) (st : IncrementalStats F)
      → (Incremental.on_pnl ts d is_trade st).total_pnl ≡ saturating_add st.total_pnl d
  unfolding Incremental.on_pnl
  on_pnl-total_pnl ts d is_trade st = ground arith

  on_fill-total_pnl :
      (f : TradeFill) (st : IncrementalStats F)
      → (Incremental.on_fill f st).total_pnl ≡ st.total_pnl
  unfolding Incremental.on_fill
  on_fill-total_pnl f st = ground arith

  push_fill-mode :
      (f : TradeFill) (log : TradeLog F) → is_off (push_fill f log).mode ≡ is_off log.mode
  unfolding push_fill update_incremental_fill
  push_fill-mode f log = ground arith

  push_fill-total :
      (f : TradeFill) (log : TradeLog F)
      → (push_fill f log).incremental.total_pnl ≡ log.incremental.total_pnl
  unfolding push_fill update_incremental_fill Incremental.on_fill
  push_fill-total f log = ground arith

  pub push_fill-HasTotal :
      (f : TradeFill) (total : ℤ) (log : TradeLog F)
      → HasTotal total log
      → HasTotal total (push_fill f log)
  push_fill-HasTotal f total log h = elim h [
    | inl off ↦ inl (push_fill-mode f log ∙ off)
    | inr e ↦ inr (e ∙ sym (push_fill-total f log))
  ]

  logged :
      (ts d : ℤ) (is_trade : Bool) (log : TradeLog F)
      → is_off log.mode ≡ false
      → update_incremental_pnl ts d is_trade (push_history ts d log) ≡ record log {
        pnl_history = log.pnl_history ++ (ts, d) ∷ [];
        incremental = Incremental.on_pnl ts d is_trade log.incremental;
      }
  unfolding update_incremental_pnl
  logged ts d is_trade log on =
      let pushed : push_history ts d log
          ≡ record log { pnl_history = log.pnl_history ++ (ts, d) ∷ [] } =
        simp (on) in
      ap (update_incremental_pnl ts d is_trade) pushed ∙ simp (on)

  -- A PnL that is logged is added to the total.
  pub push_pnl-HasTotal :
      (ts d : ℤ) (is_trade : Bool) (total : ℤ) (log : TradeLog F)
      → HasTotal total log
      → HasTotal
          (saturating_add total d)
          (update_incremental_pnl ts d is_trade (push_history ts d log))
  push_pnl-HasTotal ts d is_trade total log h = elim (Bool-cases (is_off log.mode)) [
    | inl off ↦ inl (ap (λ l. is_off l.mode) (push_pnl-off ts d is_trade log off) ∙ off)
    | inr on ↦ elim h [
      | inl off ↦ absurd (ground (arith, on, off))
      | inr e ↦ inr (
          ap (λ x. saturating_add x d) e
          ∙ sym (on_pnl-total_pnl ts d is_trade log.incremental)
          ∙ sym (ap (λ l. l.incremental.total_pnl) (logged ts d is_trade log on)))
    ]
  ]
