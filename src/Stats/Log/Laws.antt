-- ===== src/Stats/Log/Laws.antt =====
-- backtester-core/src/stats.rs: what the log holds after any sequence of calls, in each mode.
use crypto_rs_backtester.Prelude.{
  zero, suc, ◌-◌, ◌≡◌, refl, sym, ap, ◌∙◌, inl, inr, Bool, true, false, List, [], ◌∷◌, ◌++◌, arith,
  Bool-cases, if◌then◌else◌,
}
use crypto_rs_backtester.Prelude.Int.{ℤ}
use crypto_rs_backtester.Stats.{Floats, TradeFill, TradeLogMode}
use crypto_rs_backtester.Stats.Incremental
use crypto_rs_backtester.Stats.Incremental.{IncrementalStats, default_stats}
use crypto_rs_backtester.Stats.Log.{
  TradeLog, new, push_ring, is_off, push_fill, push_pnl_event, push_pnl_delta,
  update_incremental_fill, update_incremental_pnl, push_history, fills_vec,
}
use mathlib.Core.List.{append-nil, append_assoc}
use crypto_rs_backtester.Stats.Log.Kept.{
  LogCall, fill, event, delta, called_fills, called_pnl, kept_fills, drop_nil, kept_push,
}

module _ {F : Floats} where
  abbrev pub run_call : LogCall → TradeLog F → TradeLog F
  run_call (fill f) log = push_fill f log
  run_call (event e) log = push_pnl_event e log
  run_call (delta ts d) log = push_pnl_delta ts d log

  abbrev pub run_calls : List LogCall → TradeLog F → TradeLog F
  run_calls [] log = log
  run_calls (c ∷ cs) log = run_calls cs (run_call c log)

  -- The summary that the calls make, without a log.
  abbrev pub summary : List LogCall → IncrementalStats F → IncrementalStats F
  summary [] st = st
  summary (fill f ∷ cs) st = summary cs (Incremental.on_fill f st)
  summary (event e ∷ cs) st = summary cs (Incremental.on_pnl e.ts_exchange e.pnl false st)
  summary (delta ts d ∷ cs) st = summary cs (Incremental.on_pnl ts d true st)

  -- A log that is on, after these fills and this PnL, with this summary.
  abbrev pub holding :
      TradeLogMode → List TradeFill → List (ℤ × ℤ) → IncrementalStats F → TradeLog F
  holding mode fs ps st = record {
    mode = mode;
    fills = (elim mode [ TradeLogMode.all ↦ fs | _ ↦ [] ]);
    fills_ring = (elim mode [
      | TradeLogMode.ring_buffer cap ↦ kept_fills (TradeLogMode.ring_buffer cap) fs
      | _ ↦ []
    ]);
    pnl_history = ps;
    incremental = st;
  }

  fills_vec-holding :
      (mode : TradeLogMode) (fs : List TradeFill) (ps : List (ℤ × ℤ)) (st : IncrementalStats F)
      → fills_vec (holding mode fs ps st) ≡ kept_fills mode fs
  unfolding fills_vec
  fills_vec-holding TradeLogMode.all fs ps st = refl
  fills_vec-holding (TradeLogMode.ring_buffer cap) fs ps st = refl
  fills_vec-holding TradeLogMode.summary_only fs ps st = refl
  fills_vec-holding TradeLogMode.none fs ps st = refl

  push_fill-holding :
      (mode : TradeLogMode) (f : TradeFill) (fs : List TradeFill) (ps : List (ℤ × ℤ))
      (st : IncrementalStats F)
      → is_off mode ≡ false
      → push_fill f (holding mode fs ps st)
        ≡ holding mode (fs ++ f ∷ []) ps (Incremental.on_fill f st)
  unfolding push_fill update_incremental_fill
  push_fill-holding TradeLogMode.all f fs ps st on = refl
  push_fill-holding (TradeLogMode.ring_buffer cap) f fs ps st on =
      ap
        (λ ring. record {
          mode = TradeLogMode.ring_buffer cap;
          fills = [];
          fills_ring = ring;
          pnl_history = ps;
          incremental = Incremental.on_fill f st;
        })
        (kept_push cap f fs)
  push_fill-holding TradeLogMode.summary_only f fs ps st on = refl
  push_fill-holding TradeLogMode.none f fs ps st on = absurd (ground arith)

  push_pnl-holding :
      (mode : TradeLogMode) (ts d : ℤ) (is_trade : Bool) (fs : List TradeFill) (ps : List (ℤ × ℤ))
      (st : IncrementalStats F)
      → is_off mode ≡ false
      → update_incremental_pnl ts d is_trade (push_history ts d (holding mode fs ps st))
        ≡ holding mode fs (ps ++ (ts, d) ∷ []) (Incremental.on_pnl ts d is_trade st)
  unfolding update_incremental_pnl
  push_pnl-holding TradeLogMode.all ts d is_trade fs ps st on = refl
  push_pnl-holding (TradeLogMode.ring_buffer cap) ts d is_trade fs ps st on = refl
  push_pnl-holding TradeLogMode.summary_only ts d is_trade fs ps st on = refl
  push_pnl-holding TradeLogMode.none ts d is_trade fs ps st on = absurd (ground arith)

  run_calls-holding :
      (mode : TradeLogMode) (cs : List LogCall) (fs : List TradeFill) (ps : List (ℤ × ℤ))
      (st : IncrementalStats F)
      → is_off mode ≡ false
      → run_calls cs (holding mode fs ps st)
        ≡ holding mode (fs ++ called_fills cs) (ps ++ called_pnl cs) (summary cs st)
  unfolding push_pnl_event push_pnl_delta
  run_calls-holding mode [] fs ps st on =
      ap (λ x. holding mode x ps st) (sym (append-nil fs))
      ∙ ap (λ x. holding mode (fs ++ []) x st) (sym (append-nil ps))
  run_calls-holding mode (fill f ∷ cs) fs ps st on =
      ap (run_calls cs) (push_fill-holding mode f fs ps st on)
      ∙ run_calls-holding mode cs (fs ++ f ∷ []) ps (Incremental.on_fill f st) on
      ∙ ap (λ x. holding mode x (ps ++ called_pnl cs) (summary cs (Incremental.on_fill f st)))
          (append_assoc fs (f ∷ []) (called_fills cs))
  run_calls-holding mode (event e ∷ cs) fs ps st on =
      ap (run_calls cs) (push_pnl-holding mode e.ts_exchange e.pnl false fs ps st on)
      ∙ run_calls-holding mode cs fs (ps ++ (e.ts_exchange, e.pnl) ∷ [])
          (Incremental.on_pnl e.ts_exchange e.pnl false st) on
      ∙ ap
          (λ x.
            holding mode (fs ++ called_fills cs) x
              (summary cs (Incremental.on_pnl e.ts_exchange e.pnl false st)))
          (append_assoc ps _ (called_pnl cs))
  run_calls-holding mode (delta ts d ∷ cs) fs ps st on =
      ap (run_calls cs) (push_pnl-holding mode ts d true fs ps st on)
      ∙ run_calls-holding mode cs fs (ps ++ (ts, d) ∷ []) (Incremental.on_pnl ts d true st) on
      ∙ ap
          (λ x.
            holding mode (fs ++ called_fills cs) x (summary cs (Incremental.on_pnl ts d true st)))
          (append_assoc ps _ (called_pnl cs))

  new-holding : (mode : TradeLogMode) → new mode ≡ holding mode [] [] default_stats
  unfolding new
  new-holding TradeLogMode.all = refl
  new-holding (TradeLogMode.ring_buffer zero) = refl
  new-holding (TradeLogMode.ring_buffer (suc n)) =
      ap
        (λ ring. record {
          mode = TradeLogMode.ring_buffer (suc n);
          fills = [];
          fills_ring = ring;
          pnl_history = [];
          incremental = default_stats;
        })
        (sym (drop_nil (0 - suc n)))
  new-holding TradeLogMode.summary_only = refl
  new-holding TradeLogMode.none = refl

  push_fill-off :
      (mode : TradeLogMode) (f : TradeFill) (log : TradeLog F)
      → log.mode ≡ mode
      → is_off mode ≡ true
      → push_fill f log ≡ log
  unfolding push_fill
  push_fill-off TradeLogMode.none f log e off =
      ap
        (λ m. elim m [
          | TradeLogMode.all ↦
              update_incremental_fill f (record log { fills = log.fills ++ f ∷ [] })
          | TradeLogMode.ring_buffer cap ↦
              update_incremental_fill f (record log { fills_ring = push_ring cap f log.fills_ring })
          | TradeLogMode.summary_only ↦ update_incremental_fill f log
          | TradeLogMode.none ↦ log
        ])
        e
  push_fill-off TradeLogMode.all f log e off = absurd (ground arith)
  push_fill-off (TradeLogMode.ring_buffer cap) f log e off = absurd (ground arith)
  push_fill-off TradeLogMode.summary_only f log e off = absurd (ground arith)

  pub push_pnl-off :
      (ts d : ℤ) (is_trade : Bool) (log : TradeLog F)
      → is_off log.mode ≡ true
      → update_incremental_pnl ts d is_trade (push_history ts d log) ≡ log
  unfolding update_incremental_pnl
  push_pnl-off ts d is_trade log off =
      let same : push_history ts d log ≡ log = simp (off) in
      ap (update_incremental_pnl ts d is_trade) same ∙ simp (off)

  run_call-off : (c : LogCall) (log : TradeLog F) → is_off log.mode ≡ true → run_call c log ≡ log
  unfolding push_pnl_event push_pnl_delta
  run_call-off (fill f) log off = push_fill-off log.mode f log refl off
  run_call-off (event e) log off = push_pnl-off e.ts_exchange e.pnl false log off
  run_call-off (delta ts d) log off = push_pnl-off ts d true log off

  run_calls-off :
      (cs : List LogCall) (log : TradeLog F) → is_off log.mode ≡ true → run_calls cs log ≡ log
  run_calls-off [] log off = refl
  run_calls-off (c ∷ cs) log off =
      ap (run_calls cs) (run_call-off c log off) ∙ run_calls-off cs log off

new_off :
    (F : Floats) (mode : TradeLogMode) → is_off mode ≡ true → is_off (new {F = F} mode).mode ≡ true
unfolding new
new_off F mode off = off

new_quiet : (F : Floats) (mode : TradeLogMode) → (new {F = F} mode).pnl_history ≡ []
unfolding new
new_quiet F mode = refl

new_default : (F : Floats) (mode : TradeLogMode) → (new {F = F} mode).incremental ≡ default_stats
unfolding new
new_default F mode = refl

new_empty : (F : Floats) (mode : TradeLogMode) → fills_vec (new {F = F} mode) ≡ []
unfolding new fills_vec
new_empty F TradeLogMode.all = refl
new_empty F (TradeLogMode.ring_buffer cap) = refl
new_empty F TradeLogMode.summary_only = refl
new_empty F TradeLogMode.none = refl

none_kept :
    (mode : TradeLogMode) (fs : List TradeFill) → is_off mode ≡ true → kept_fills mode fs ≡ []
none_kept TradeLogMode.none fs off = refl
none_kept TradeLogMode.all fs off = absurd (ground arith)
none_kept (TradeLogMode.ring_buffer cap) fs off = absurd (ground arith)
none_kept TradeLogMode.summary_only fs off = absurd (ground arith)

-- After any calls on a new log, it gives the fills that its mode keeps: all of them, the last ones up
-- to the capacity but at least one, or none. Unless the log is off, the history is the whole PnL of
-- the calls, and the summary is the same in every mode; a log that is off has neither.
pub run_calls-called :
    (F : Floats) (mode : TradeLogMode) (cs : List LogCall)
    → let log = run_calls cs (new {F = F} mode) in
      (fills_vec log ≡ kept_fills mode (called_fills cs))
      × (log.pnl_history ≡ (if is_off mode then [] else called_pnl cs))
      × (log.incremental ≡ (if is_off mode then default_stats else summary cs default_stats))
run_calls-called F mode cs = elim (Bool-cases (is_off mode)) [
  | inl off ↦ rw off (
      let e = run_calls-off cs (new mode) (new_off F mode off) in
      (
        ap fills_vec e ∙ new_empty F mode ∙ sym (none_kept mode (called_fills cs) off),
        ap (λ l. l.pnl_history) e ∙ new_quiet F mode,
        ap (λ l. l.incremental) e ∙ new_default F mode,
      ))
  | inr on ↦ rw on (
      let e : run_calls cs (new {F = F} mode)
          ≡ holding mode (called_fills cs) (called_pnl cs) (summary cs default_stats) =
        ap (run_calls cs) (new-holding mode) ∙ run_calls-holding mode cs [] [] default_stats on in
      (
        ap fills_vec e
            ∙ fills_vec-holding mode (called_fills cs) (called_pnl cs) (summary cs default_stats),
        ap (λ l. l.pnl_history) e,
        ap (λ l. l.incremental) e,
      ))
]
