-- ===== src/Exchange/Reach.antt =====
-- backtester-core/src/exchange_simulator.rs: every sequence of calls keeps the live orders valid.
-- queue model that meets its contract.
use crypto_rs_backtester.Prelude.{
  ℕ, ◌≡◌, refl, inl, inr, Option, some, List, arith, Bool-cases, Option-cases, sym, subst,
}
use crypto_rs_backtester.Prelude.Int.{ℤ, pos, ◌≤ℤ◌, ◌-ℤ◌, min_ℤ, int_laws, eq_of_parts, parts_eq}
use crypto_rs_backtester.Prelude.I64.{InI64, sub_i64, sub_i64-le}
use crypto_rs_backtester.Prelude.Keys.{nat_eq}
use crypto_rs_backtester.Collections.Map.{
  get, Every, Every-insert, Every-remove, map_values, get-map_values,
}
use crypto_rs_backtester.Types.{OrderState, Side, OrderReport, Tick, Order, L3Update, L2Update}
use crypto_rs_backtester.QueueModel.{QueueModel}
use crypto_rs_backtester.QueueModel.Laws.{QueueLaws}
use crypto_rs_backtester.Exchange.{
  LiveOrder, ExchangeSimulator, visible_depth, new, new_l3, apply_l2_update, apply_l3_update,
  update_queue, sees_l3, submit_order, ack_new, cancel_order, ack_cancel,
}
use crypto_rs_backtester.Exchange.Lifecycle.{ack_new-Moves, cancel_order-Moves, ack_cancel-Moves}
use crypto_rs_backtester.Exchange.Invariant.{
  IsLive, IsValid, status-done, on_trade-IsValid, move-IsValid, Moves-IsValid,
}
use crypto_rs_backtester.Exchange.Matching.{
  fill_market_immediately, force_cancel_partial_fill, remove_order, on_trade, filled_by,
  best_against, effective_quote,
}

apply_l3_orders :
    {Q : QueueModel} (u : L3Update) (ex : ExchangeSimulator Q)
    → (apply_l3_update u ex).1.orders ≡ map_values (update_queue Q u) ex.orders
unfolding apply_l3_update
apply_l3_orders {Q} u ex = elim (Option-cases ex.book_l3) [
  | inl e ↦ rw (e, apply_l3_update) refl
  | inr (book, e) ↦ rw (e, apply_l3_update) refl
]

module _ {Q : QueueModel} (L : QueueLaws Q) where
  -- A submitted order enters whole, if its quantity is a word that is not negative and the queue
  -- model registers it in a state of its own.
  submit_order-IsValid :
      (o : Order) (ex : ExchangeSimulator Q)
      → pos 0 ≤ℤ o.qty
      → InI64 o.qty
      → L.IsState (Q.register_order o (visible_depth ex))
      → IsValid L ex
      → IsValid L (submit_order o ex)
  unfolding submit_order
  submit_order-IsValid o ex p w q v =
      Every-insert (IsLive L) o.order_id _ ex.orders
        (record {
          own_id = refl;
          conserved = eq_of_parts _ _ (omega int_laws);
          filled_nonneg = omega arith;
          remaining_nonneg = p;
          word = w;
          queue = q;
          done = λ e. cc;
        })
        v

  pub remove_order-IsValid :
      (id : ℕ) (ex : ExchangeSimulator Q) → IsValid L ex → IsValid L (remove_order id ex)
  unfolding remove_order
  remove_order-IsValid id ex v = elim (Option-cases (get id ex.orders)) [
    | inl e ↦ rw (e, remove_order) v
    | inr (o, e) ↦ rw (e, remove_order) (Every-remove (IsLive L) id ex.orders v)
  ]

  -- A market fill of a part of the order, on an order of which nothing was filled before.
  filled_by-IsLive :
      (id : ℕ) (o : LiveOrder Q.State) (f : ℤ)
      → pos 0 ≤ℤ f
      → f ≤ℤ o.order.qty
      → IsLive L id o
      → IsLive L id (filled_by f o)
  filled_by-IsLive id o f p le v =
      let less : sub_i64 o.order.qty f ≡ o.order.qty -ℤ f = sub_i64-le o.order.qty f p le v.word in
      record {
        own_id = v.own_id;
        conserved = rw less (eq_of_parts _ _ (omega int_laws));
        filled_nonneg = p;
        remaining_nonneg = rw less (omega int_laws);
        word = v.word;
        queue = v.queue;
        done = λ h. status-done L _ h;
      }

  effective_nonneg :
      (side : Side) (fallback : Option ℤ) (ex : ExchangeSimulator Q)
      → ((s : Side) (p q : ℤ) → best_against s ex ≡ some (p, q) → pos 0 ≤ℤ q)
      → (p q : ℤ) → effective_quote side fallback ex ≡ some (p, q)
      → pos 0 ≤ℤ q
  unfolding effective_quote
  effective_nonneg side fallback ex quotes p q e = elim (Option-cases (best_against side ex)) [
    | inl n ↦ ground (arith, n)
    | inr ((x, y), n) ↦ ground (arith, n, quotes side x y n)
  ]

  fill_market-IsValid :
      (id : ℕ) (fallback : Option ℤ) (ex : ExchangeSimulator Q)
      → ((s : Side) (p q : ℤ) → best_against s ex ≡ some (p, q) → pos 0 ≤ℤ q)
      → IsValid L ex
      → IsValid L (fill_market_immediately id fallback ex).1
  unfolding fill_market_immediately
  fill_market-IsValid id fallback ex quotes v = elim (Option-cases (get id ex.orders)) [
    | inl e ↦ rw (e, fill_market_immediately) v
    | inr (o, e) ↦ elim (Option-cases (effective_quote o.order.side fallback ex)) [
      | inl n ↦
          rw (e, n, fill_market_immediately)
            (move-IsValid L id o OrderState.rejected ex (λ h. cc) e v)
      | inr ((p, q), n) ↦
          let live = v id o e in
          let depth = effective_nonneg o.order.side fallback ex quotes p q n in
          let whole : pos 0 ≤ℤ o.order.qty =
            omega (int_laws, parts_eq live.conserved, live.filled_nonneg, live.remaining_nonneg) in
          rw (e, n, fill_market_immediately)
            (Every-insert (IsLive L) id _ ex.orders
              (filled_by-IsLive id o (min_ℤ o.order.qty q) (ground arith) (ground arith) live) v)
    ]
  ]

  force_cancel-IsValid :
      (id : ℕ) (ex : ExchangeSimulator Q)
      → IsValid L ex
      → IsValid L (force_cancel_partial_fill id ex).1
  unfolding force_cancel_partial_fill
  force_cancel-IsValid id ex v = elim (Option-cases (get id ex.orders)) [
    | inl e ↦ rw (e, force_cancel_partial_fill) v
    | inr (o, e) ↦
        rw (e, force_cancel_partial_fill)
          (move-IsValid L id o OrderState.cancelled ex (λ h. cc) e v)
  ]

  update_queue-IsLive :
      (id : ℕ) (u : L3Update) (o : LiveOrder Q.State)
      → L.IsState (Q.on_l3_update o.order o.queue_state u)
      → IsLive L id o
      → IsLive L id (update_queue Q u o)
  update_queue-IsLive id u o keeps v = elim (Bool-cases (sees_l3 o.state)) [
    | inr e ↦ rw e v
    | inl e ↦ rw e (record {
      own_id = v.own_id;
      conserved = v.conserved;
      filled_nonneg = v.filled_nonneg;
      remaining_nonneg = v.remaining_nonneg;
      word = v.word;
      queue = keeps;
      done = v.done;
    })
  ]

  -- The model takes the update of every live order's queue to a state that it keeps.
  abbrev pub QueuesKeep : L3Update → ExchangeSimulator Q → Type 0
  QueuesKeep u ex =
      (id : ℕ) (o : LiveOrder Q.State)
      → get id ex.orders ≡ some o
      → L.IsState (Q.on_l3_update o.order o.queue_state u)

  apply_l3_update-IsValid :
      (u : L3Update) (ex : ExchangeSimulator Q)
      → QueuesKeep u ex
      → IsValid L ex
      → IsValid L (apply_l3_update u ex).1
  unfolding apply_l3_update
  apply_l3_update-IsValid u ex keeps v =
      subst (Every (IsLive L)) (sym (apply_l3_orders u ex)) (λ k o' g.
        let (o, old, same) = get-map_values (update_queue Q u) k ex.orders o' g in
        rw same (update_queue-IsLive k u o (keeps k o old) (v k o old)))

  -- One call on the simulator, with what its caller answers for: quantities of type i64, no order
  -- of negative quantity, no negative quote where a market order fills, and states of the queue model
  -- that it keeps after registration and venue updates.
  pub data Step (ex : ExchangeSimulator Q) : ExchangeSimulator Q → Type 0 where
    l2_updated : (u : L2Update) → Step ex (apply_l2_update u ex)
    l3_updated : (u : L3Update) → QueuesKeep u ex → Step ex (apply_l3_update u ex).1
    submitted :
        (o : Order)
        → pos 0 ≤ℤ o.qty
        → InI64 o.qty
        → L.IsState (Q.register_order o (visible_depth ex))
        → Step ex (submit_order o ex)
    acked : (id : ℕ) → Step ex (ack_new id ex).1
    cancel_requested : (id : ℕ) → Step ex (cancel_order id ex).1
    cancel_acked : (id : ℕ) → Step ex (ack_cancel id ex).1
    market_filled :
        (id : ℕ) (fallback : Option ℤ)
        → ((s : Side) (p q : ℤ) → best_against s ex ≡ some (p, q) → pos 0 ≤ℤ q)
        → Step ex (fill_market_immediately id fallback ex).1
    force_cancelled : (id : ℕ) → Step ex (force_cancel_partial_fill id ex).1
    removed : (id : ℕ) → Step ex (remove_order id ex)
    traded : (t : Tick) (rs : List OrderReport) → InI64 t.qty → Step ex (on_trade t ex rs).0

  pub data Reach (start : ExchangeSimulator Q) : ExchangeSimulator Q → Type 0 where
    here : Reach start start
    next : {a b : ExchangeSimulator Q} → Reach start a → Step a b → Reach start b

  Step-IsValid : {a b : ExchangeSimulator Q} → Step a b → IsValid L a → IsValid L b
  unfolding apply_l2_update
  Step-IsValid {a} (l2_updated u) v = v
  Step-IsValid {a} (l3_updated u k) v = apply_l3_update-IsValid u a k v
  Step-IsValid {a} (submitted o p w q) v = submit_order-IsValid o a p w q v
  Step-IsValid {a} (acked id) v =
      Moves-IsValid L id OrderState.opened a _ (λ h. cc) (ack_new-Moves id a) v
  Step-IsValid {a} (cancel_requested id) v =
      Moves-IsValid L id OrderState.pending_cancel a _ (λ h. cc) (cancel_order-Moves id a) v
  Step-IsValid {a} (cancel_acked id) v =
      Moves-IsValid L id OrderState.cancelled a _ (λ h. cc) (ack_cancel-Moves id a) v
  Step-IsValid {a} (market_filled id fallback q) v = fill_market-IsValid id fallback a q v
  Step-IsValid {a} (force_cancelled id) v = force_cancel-IsValid id a v
  Step-IsValid {a} (removed id) v = remove_order-IsValid id a v
  Step-IsValid {a} (traded t rs w) v = on_trade-IsValid L t a rs w v

  -- For a queue model that meets its contract, after any sequence of calls on a valid simulator,
  -- every live order is stored under its own id, its filled and remaining quantities are not
  -- negative and sum to its quantity, which is a word, its queue state is one that the model keeps,
  -- and nothing remains of an order that is filled. The calls are given quantities that are words,
  -- submit orders of no negative quantity, fill market orders against no negative quote, and
  -- register orders and apply venue updates so that the model keeps the queue states.
  pub Reach-IsValid : {a b : ExchangeSimulator Q} → IsValid L a → Reach a b → IsValid L b
  Reach-IsValid v here = v
  Reach-IsValid v (next r s) = Step-IsValid s (Reach-IsValid v r)

  pub new-IsValid : IsValid L new
  unfolding new get
  new-IsValid id o e = cc

  pub new_l3-IsValid : IsValid L new_l3
  unfolding new_l3 get
  new_l3-IsValid id o e = cc
