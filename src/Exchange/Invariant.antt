-- ===== src/Exchange/Invariant.antt =====
-- backtester-core/src/exchange_simulator.rs: what every operation keeps of each live order, for a
-- queue model that meets its contract.
use crypto_rs_backtester.Prelude.{
  ℕ, ◌≡◌, inl, inr, ◌≢◌, some, List, [], ◌∷◌, ◌++◌, Result, ok, err, arith, Bool-cases,
  Option-cases,
}
use crypto_rs_backtester.Prelude.Int.{
  ℤ, pos, ◌≤ℤ◌, ◌<ℤ◌, ◌+ℤ◌, ◌-ℤ◌, eqb_ℤ_iff, leb_ℤ, int_laws, signed_laws, eq_of_parts, parts_eq,
}
use crypto_rs_backtester.Prelude.I64.{InI64, add_i64, sub_i64, add_i64-eq, sub_i64-le}
use crypto_rs_backtester.Prelude.Keys.{nat_eq}
use crypto_rs_backtester.Collections.Map.{get, Every, Every-insert}
use crypto_rs_backtester.Types.{OrderState, OrderReport, Tick}
use crypto_rs_backtester.QueueModel.{QueueModel}
use crypto_rs_backtester.QueueModel.Laws.{QueueLaws}
use crypto_rs_backtester.Exchange.{LiveOrder, ExchangeSimulator, ExchangeError, put, new}
use crypto_rs_backtester.Exchange.Lifecycle.{Moves}
use crypto_rs_backtester.Exchange.Matching.{
  on_trade, trade_ids, trade_order, after_fill, fill_status, can_trade, maker_side,
}

module _ {Q : QueueModel} (L : QueueLaws Q) where
  -- A live order: stored under its own id, with no quantity lost, filled twice or negative, and with
  -- nothing left once it is filled.
  pub record IsLive (id : ℕ) (o : LiveOrder Q.State) : Type 0 where
    pub own_id : o.order.order_id ≡ id
    pub conserved : o.filled_qty +ℤ o.remaining_qty ≡ o.order.qty
    pub filled_nonneg : pos 0 ≤ℤ o.filled_qty
    pub remaining_nonneg : pos 0 ≤ℤ o.remaining_qty
    pub word : InI64 o.order.qty
    pub queue : L.IsState o.queue_state
    pub done : o.state ≡ OrderState.filled → o.remaining_qty ≡ pos 0

  abbrev pub IsValid : ExchangeSimulator Q → Type 0
  IsValid ex = Every IsLive ex.orders

  pub status-done : (r : ℤ) → fill_status r ≡ OrderState.filled → r ≡ pos 0
  status-done r h = ground (arith, eqb_ℤ_iff r (pos 0))

  after_fill-IsLive :
      (id : ℕ) (o : LiveOrder Q.State) (f : ℤ) (s : Q.State)
      → pos 0 <ℤ f
      → f ≤ℤ o.remaining_qty
      → L.IsState s
      → IsLive id o
      → IsLive id (after_fill f s o)
  after_fill-IsLive id o f s p le q v =
      let less : sub_i64 o.remaining_qty f ≡ o.remaining_qty -ℤ f =
        sub_i64-le o.remaining_qty f (omega arith) le
          (omega (signed_laws, parts_eq v.conserved, v.word.0, v.word.1, v.filled_nonneg)) in
      let more : add_i64 o.filled_qty f ≡ o.filled_qty +ℤ f =
        add_i64-eq o.filled_qty f
          (omega (signed_laws, parts_eq v.conserved, v.word.0, v.word.1, v.filled_nonneg)) in
      record {
        own_id = v.own_id;
        conserved = rw (less, more) (eq_of_parts _ _ (omega (int_laws, parts_eq v.conserved)));
        filled_nonneg = rw more (omega (int_laws, v.filled_nonneg));
        remaining_nonneg = rw less (omega int_laws);
        word = v.word;
        queue = q;
        done = λ h. status-done _ h;
      }

  pub trade_order-IsLive :
      (id : ℕ) (t : Tick) (o : LiveOrder Q.State)
      → InI64 t.qty
      → IsLive id o
      → IsLive id (trade_order Q t o).0
  unfolding trade_order
  trade_order-IsLive id t o w v = elim (Bool-cases (leb_ℤ o.remaining_qty (pos 0))) [
    | inl e ↦ rw (e, trade_order) v
    | inr e ↦ elim (Bool-cases (can_trade o.state)) [
      | inr c ↦ rw (e, c, trade_order) v
      | inl c ↦
          let word : InI64 o.remaining_qty = omega (
            signed_laws,
            parts_eq v.conserved,
            v.word.0,
            v.word.1,
            v.filled_nonneg,
            v.remaining_nonneg,
          ) in
          let kept = L.check_fill_keeps o.order o.remaining_qty t o.queue_state word w v.queue in
          let bound = L.check_fill_bounded o.order o.remaining_qty t o.queue_state word w v.queue in
          let f = (Q.check_fill o.order o.remaining_qty t o.queue_state).0 in
          elim (Bool-cases (leb_ℤ f (pos 0))) [
            | inl z ↦
                rw (e, c, z, trade_order)
                  (record {
                    own_id = v.own_id;
                    conserved = v.conserved;
                    filled_nonneg = v.filled_nonneg;
                    remaining_nonneg = v.remaining_nonneg;
                    word = v.word;
                    queue = kept;
                    done = v.done;
                  })
            | inr z ↦
                rw (e, c, z, trade_order)
                  (after_fill-IsLive id o f _ (ground arith) (ground (arith, bound)) kept v)
          ]
    ]
  ]

  trade_ids-IsValid :
      (t : Tick) (ids : List ℕ) (ex : ExchangeSimulator Q) (rs : List OrderReport)
      → InI64 t.qty
      → IsValid ex
      → IsValid (trade_ids t ids ex rs).0
  unfolding trade_ids
  trade_ids-IsValid t [] ex rs w v = v
  trade_ids-IsValid t (id ∷ ids) ex rs w v = elim (Option-cases (get id ex.orders)) [
    | inl e ↦ rw (e, trade_ids) (trade_ids-IsValid t ids ex rs w v)
    | inr (o, e) ↦
        let (o', new) = trade_order Q t o in
        rw (e, trade_ids)
          (trade_ids-IsValid t ids (put id o' ex) (rs ++ new) w
            (Every-insert IsLive id o' ex.orders (trade_order-IsLive id t o w (v id o e)) v))
  ]

  pub on_trade-IsValid :
      (t : Tick) (ex : ExchangeSimulator Q) (rs : List OrderReport)
      → InI64 t.qty
      → IsValid ex
      → IsValid (on_trade t ex rs).0
  unfolding on_trade
  on_trade-IsValid t ex rs w v = elim (Option-cases (maker_side t.side)) [
    | inl e ↦ rw (e, on_trade) v
    | inr (s, e) ↦ rw (e, on_trade) (trade_ids-IsValid t _ ex rs w v)
  ]

  -- An order keeps its quantities in a new state that is not `filled`.
  moved-IsLive :
      (id : ℕ) (o : LiveOrder Q.State) (s : OrderState)
      → s ≢ OrderState.filled
      → IsLive id o
      → IsLive id (record o { state = s })
  moved-IsLive id o s h v = record {
    own_id = v.own_id;
    conserved = v.conserved;
    filled_nonneg = v.filled_nonneg;
    remaining_nonneg = v.remaining_nonneg;
    word = v.word;
    queue = v.queue;
    done = λ e. absurd (h e);
  }

  pub move-IsValid :
      (id : ℕ) (o : LiveOrder Q.State) (s : OrderState) (ex : ExchangeSimulator Q)
      → s ≢ OrderState.filled
      → get id ex.orders ≡ some o
      → IsValid ex
      → IsValid (put id (record o { state = s }) ex)
  move-IsValid id o s ex h e v =
      Every-insert IsLive id _ ex.orders (moved-IsLive id o s h (v id o e)) v

  pub Moves-IsValid :
      {A : Type 0} (id : ℕ) (s : OrderState) (ex : ExchangeSimulator Q)
      (r : Result A ExchangeError × ExchangeSimulator Q)
      → s ≢ OrderState.filled
      → Moves id s ex r
      → IsValid ex
      → IsValid r.1
  Moves-IsValid id s ex (ok a, ex') h (o, e, t, same) v = rw same (move-IsValid id o s ex h e v)
  Moves-IsValid id s ex (err x, ex') h same v = rw same v
