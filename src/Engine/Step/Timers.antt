-- ===== src/Engine/Step/Timers.antt =====
-- backtester-core/src/engine.rs: a timer that is in the queue stays there until it is popped.
use crypto_rs_backtester.Prelude.{
  ℕ, ◌≡◌, refl, ap, sym, ◌∙◌, inl, inr, Bool, true, false, ◌||◌, eqb, Option, none, some, List, [],
  ◌∷◌, Option-cases, Result-cases, Bool-cases, if◌then◌else◌, arith,
}
use crypto_rs_backtester.Prelude.Int.{ℤ, pos, ltb_ℤ}
use crypto_rs_backtester.Prelude.Keys.{nat_eq}
use crypto_rs_backtester.Collections.Map.{get, insert}
use crypto_rs_backtester.Collections.BinaryHeap
use crypto_rs_backtester.Types.{Tick, Order, OrderReport, FundingEvent, L2Update, L3Update}
use crypto_rs_backtester.Event.{Event, EventKind}
use crypto_rs_backtester.EventQueue
use crypto_rs_backtester.EventQueue.{EventQueue}
use crypto_rs_backtester.Exchange
use crypto_rs_backtester.Exchange.Matching
use crypto_rs_backtester.Engine.Booking.{OrderType-cases}
use crypto_rs_backtester.Prelude.I64.{add_i64, saturating_add}
use mathlib.Core.Option
use crypto_rs_backtester.Strategy.{Command}
use crypto_rs_backtester.Strategy.Requests
use crypto_rs_backtester.Engine.{
  Env, Engine, push_event, mark_l2_depth, mark_l3_depth, put_exchange, exchange_of, exchange_mut,
}
use crypto_rs_backtester.Engine.Commands.{handle_commands, handle_submit}
use crypto_rs_backtester.Engine.Handlers.{
  on_tick, on_order, on_order_ack, ack_limit, ack_market, cancel_remainder, log_fills, book_fill,
  book_fills, push_reports, on_order_cancel, on_order_cancel_ack, on_l2_update, on_l3_update,
  push_after_latency, fills_of,
}
use crypto_rs_backtester.Engine.Delivery.{
  Call, call_strategy, forget_order, book_funding, settle_funding,
}

-- The event is the timer with the id, and such an event is in the queue.
abbrev pub is_timer : ℕ → EventKind → Bool
is_timer id (EventKind.timer timer_id) = eqb id timer_id
is_timer id _ = false

abbrev pub scheduled : ℕ → List Event → Bool
scheduled id [] = false
scheduled id (ev ∷ evs) = is_timer id ev.kind || scheduled id evs

select-scheduled :
    (id : ℕ) (x : Event) (xs : List Event)
    → let r = BinaryHeap.select EventQueue.before x xs in
      scheduled id (r.0 ∷ r.1) ≡ scheduled id (x ∷ xs)
unfolding BinaryHeap.select
select-scheduled id x [] = refl
select-scheduled id x (y ∷ ys) = elim (Bool-cases (EventQueue.before y x)) [
  | inl e ↦ rw (e, BinaryHeap.select) (ground (arith, select-scheduled id y ys))
  | inr e ↦ rw (e, BinaryHeap.select) (ground (arith, select-scheduled id x ys))
]

heap_pop-scheduled :
    (id : ℕ) (h : List Event) (q' : EventQueue) (ev : Event)
    → EventQueue.pop (record { heap = h }) ≡ some (ev, q')
    → scheduled id (ev ∷ q'.heap) ≡ scheduled id h
unfolding EventQueue.pop BinaryHeap.pop
heap_pop-scheduled id [] q' ev h = cc h
heap_pop-scheduled id (x ∷ xs) q' ev h = ap of_popped (sym h) ∙ select-scheduled id x xs
  where
    of_popped : Option (Event × EventQueue) → Bool
    of_popped p = elim p [ none ↦ false | some (e, rest) ↦ scheduled id (e ∷ rest.heap) ]

-- The event that is popped and those that are left are those of the queue.
pub pop-scheduled :
    (id : ℕ) (q q' : EventQueue) (ev : Event)
    → EventQueue.pop q ≡ some (ev, q')
    → scheduled id (ev ∷ q'.heap) ≡ scheduled id q.heap
pop-scheduled id q q' ev h = heap_pop-scheduled id q.heap q' ev h

module _ {E : Env} (id : ℕ) where
  abbrev pub Has : Engine E → Type 0
  Has e = scheduled id e.queue.heap ≡ true

  pub push_event-Has :
      (ts : ℤ) (kind : EventKind) (e : Engine E) → Has e → Has (push_event ts kind e)
  unfolding push_event EventQueue.push BinaryHeap.push
  push_event-Has ts kind e h = ground (arith, h)

  push_reports-Has :
      (ts : ℤ) (rs : List OrderReport) (e : Engine E) → Has e → Has (push_reports ts rs e)
  unfolding push_reports
  push_reports-Has ts [] e h = h
  push_reports-Has ts (r ∷ rs) e h =
      push_reports-Has ts rs (push_event ts (EventKind.order_report r) e)
        (push_event-Has ts (EventKind.order_report r) e h)

  handle_submit-Has : (o : Order) (ts : ℤ) (e : Engine E) → Has e → Has (handle_submit o ts e)
  unfolding handle_submit push_event EventQueue.push BinaryHeap.push
  handle_submit-Has o ts e h = ground (arith, h)

  pub handle_commands-Has :
      (cs : List Command) (ts : ℤ) (e : Engine E) → Has e → Has (handle_commands cs ts e)
  unfolding handle_commands
  handle_commands-Has [] ts e h = h
  handle_commands-Has (Command.submit_order o ∷ cs) ts e h =
      handle_commands-Has cs ts (handle_submit o ts e) (handle_submit-Has o ts e h)
  handle_commands-Has (Command.cancel_order o ∷ cs) ts e h =
      handle_commands-Has cs ts (push_event ts (EventKind.order_cancel o) e)
        (push_event-Has ts (EventKind.order_cancel o) e h)

  log_fills-queue :
      (ts bps : ℤ) (taker : Bool) (fills : List (Order × OrderReport)) (e : Engine E)
      → (log_fills ts bps taker fills e).queue ≡ e.queue
  unfolding log_fills
  log_fills-queue ts bps taker [] e = refl
  log_fills-queue ts bps taker ((o, r) ∷ fills) e = log_fills-queue ts bps taker fills _

  book_fills-queue :
      (ts bps : ℤ) (fills : List (Order × OrderReport)) (e : Engine E)
      → (book_fills ts bps fills e).queue ≡ e.queue
  unfolding book_fills book_fill
  book_fills-queue ts bps [] e = refl
  book_fills-queue ts bps ((o, r) ∷ fills) e =
      book_fills-queue ts bps fills (book_fill ts bps o r e)

  settled-Has :
      (later ts bps : ℤ) (taker : Bool) (rs : List OrderReport) (fills : List (Order × OrderReport))
      (e : Engine E)
      → Has e
      → Has (push_reports later rs (book_fills ts bps fills (log_fills ts bps taker fills e)))
  settled-Has later ts bps taker rs fills e h =
      push_reports-Has later rs (book_fills ts bps fills (log_fills ts bps taker fills e)) (
        ap (λ q. scheduled id q.heap)
          (book_fills-queue ts bps fills (log_fills ts bps taker fills e)
            ∙ log_fills-queue ts bps taker fills e)
        ∙ h)

  pub on_tick-Has : (t : Tick) (e : Engine E) → Has e → Has (on_tick t e)
  unfolding on_tick
  on_tick-Has t e h =
      let seen = record e {
        truth_last_trade_by_symbol = insert t.symbol_id t e.truth_last_trade_by_symbol;
      } in
      let (ex, rs) = Matching.on_trade t (exchange_of t.symbol_id seen) [] in
      settled-Has (add_i64 t.ts_exchange e.config.order_update_latency_ns) t.ts_exchange
        e.config.maker_fee_bps false rs (fills_of ex rs) (put_exchange t.symbol_id ex seen) h

  ack_limit-Has : (symbol n : ℕ) (e : Engine E) → Has e → Has (ack_limit symbol n e)
  unfolding ack_limit push_event EventQueue.push BinaryHeap.push
  ack_limit-Has symbol n e h = ground (arith, h)

  cancel_remainder-Has :
      (symbol n : ℕ) (r : OrderReport) (e : Engine E) → Has e → Has (cancel_remainder symbol n r e)
  unfolding cancel_remainder push_event EventQueue.push BinaryHeap.push
  cancel_remainder-Has symbol n r e h = ground (arith, h)

  ack_market-Has : (symbol n : ℕ) (o : Order) (e : Engine E) → Has e → Has (ack_market symbol n o e)
  unfolding ack_market push_reports
  ack_market-Has symbol n o e h =
      let fallback = Option.map (λ t. t.price) (get symbol e.truth_last_trade_by_symbol) in
      let filled = Matching.fill_market_immediately n fallback (exchange_of symbol e) in
      let later = saturating_add e.now_ts_sim e.config.order_update_latency_ns in
      elim (Option-cases filled.0) [
        | inl a ↦ rw (a, ack_market) h
        | inr (r, a) ↦
            let fills = if ltb_ℤ (pos 0) r.last_fill_qty then (o, r) ∷ [] else [] in
            let bps = e.config.taker_fee_bps in
            let e' = put_exchange symbol filled.1 e in
            let booked =
              push_reports later (r ∷ [])
                (book_fills e.now_ts_sim bps fills (log_fills e.now_ts_sim bps true fills e')) in
            rw (a, ack_market)
              (cancel_remainder-Has symbol n r booked
                (settled-Has later e.now_ts_sim bps true (r ∷ []) fills e' h))
      ]

  pub on_order_ack-Has : (n : ℕ) (e : Engine E) → Has e → Has (on_order_ack n e)
  unfolding on_order_ack exchange_mut
  on_order_ack-Has n e h = elim (Option-cases (get n e.order_symbol_by_id)) [
    | inl a ↦ rw (a, on_order_ack) h
    | inr (symbol, a) ↦
        let ex = exchange_of symbol e in
        let e' = put_exchange symbol ex e in
        elim (Option-cases (Exchange.get_order n ex)) [
          | inl m ↦ rw (a, m, on_order_ack) (ack_limit-Has symbol n e' h)
          | inr (o, m) ↦ elim (OrderType-cases o.order_type) [
            | inl t ↦ rw (a, m, t, on_order_ack) (ack_market-Has symbol n o e' h)
            | inr t ↦ rw (a, m, t, on_order_ack) (ack_limit-Has symbol n e' h)
          ]
        ]
  ]

  pub on_order_cancel-Has : (n : ℕ) (e : Engine E) → Has e → Has (on_order_cancel n e)
  unfolding on_order_cancel push_after_latency push_event EventQueue.push BinaryHeap.push
  on_order_cancel-Has n e h = ground (arith, h)

  pub on_order_cancel_ack-Has : (n : ℕ) (e : Engine E) → Has e → Has (on_order_cancel_ack n e)
  unfolding on_order_cancel_ack push_event EventQueue.push BinaryHeap.push
  on_order_cancel_ack-Has n e h = ground (arith, h)

  pub on_l2_update-Has : (u : L2Update) (e : Engine E) → Has e → Has (on_l2_update u e).1
  unfolding on_l2_update mark_l2_depth
  on_l2_update-Has u e h = ground (arith, h)

  pub on_l3_update-Has : (u : L3Update) (e : Engine E) → Has e → Has (on_l3_update u e).1
  unfolding on_l3_update mark_l3_depth
  on_l3_update-Has u e h = ground (arith, h)

  pub on_order-Has : (o : Order) (e : Engine E) → Has e → Has (on_order o e)
  unfolding on_order push_after_latency push_event EventQueue.push BinaryHeap.push
  on_order-Has o e h = ground (arith, h)

  pub forget_order-Has : (r : OrderReport) (e : Engine E) → Has e → Has (forget_order r e)
  unfolding forget_order
  forget_order-Has r e h = ground (arith, h)

  pub settle_funding-Has : (f : FundingEvent) (e : Engine E) → Has e → Has (settle_funding f e)
  unfolding settle_funding book_funding
  settle_funding-Has f e h = ground (arith, h)

  pub call_strategy-Has :
      (call : Call E) (ts : ℤ) (e : Engine E) → Has e → Has (call_strategy call ts e).1
  unfolding call_strategy
  call_strategy-Has call ts e h =
      let called = call (Requests.new ts e.market) e.strategy in
      elim (Result-cases called.0) [
        | inl (u, a) ↦
            rw (a, call_strategy)
              (handle_commands-Has called.1.0.commands ts (record e { strategy = called.1.1 }) h)
        | inr (x, a) ↦ rw (a, call_strategy) h
      ]
