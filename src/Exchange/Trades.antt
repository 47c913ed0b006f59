-- ===== src/Exchange/Trades.antt =====
-- backtester-core/src/exchange_simulator.rs: what `on_trade` reports, what it leaves alone, and what
-- happens to a cancel that is in flight.
use crypto_rs_backtester.Prelude.{
  ℕ, ◌≡◌, refl, ◌⊎◌, inl, inr, ◌≢◌, false, Option, none, some, List, [], ◌∷◌, ◌++◌, err, arith,
  Bool-cases, Option-cases, sym, subst, ◌∙◌, All, All-append, All-fst,
}
use crypto_rs_backtester.Prelude.Int.{
  ℤ, pos, ◌≤ℤ◌, ◌<ℤ◌, ◌-ℤ◌, eqb_ℤ, eqb_ℤ_iff, leb_ℤ, -ℤ_parts, signed_laws, parts_eq,
}
use crypto_rs_backtester.Prelude.I64.{InI64, sub_i64, sub_i64-le}
use crypto_rs_backtester.Prelude.Keys.{nat_eq}
use crypto_rs_backtester.Collections.Map.{get, get_or, get-insert_ne, get-remove_self, Every-insert}
use crypto_rs_backtester.Types.{OrderState, can_transition_to, OrderReport, Tick, Side}
use crypto_rs_backtester.QueueModel.{QueueModel}
use crypto_rs_backtester.QueueModel.Laws.{QueueLaws}
use crypto_rs_backtester.Exchange.{
  LiveOrder, ExchangeSimulator, key_eq, put, ack_cancel, not_pending_cancel,
}
use crypto_rs_backtester.Exchange.Lifecycle.{ack_cancel_err}
use crypto_rs_backtester.Exchange.Invariant.{IsLive, IsValid, trade_order-IsLive}
use crypto_rs_backtester.Exchange.Reach.{remove_order-IsValid}
use crypto_rs_backtester.Exchange.Matching.{
  on_trade, trade_ids, trade_order, fill_status, can_trade, maker_side, remove_order,
}

-- A report of a fill at the trade's price: a positive quantity, nothing negative left, and `filled`
-- exactly when nothing is left.
pub record IsFillReport (t : Tick) (r : OrderReport) : Type 0 where
  pub at_price : r.last_fill_price ≡ t.price
  pub some_fill : pos 0 <ℤ r.last_fill_qty
  pub rest_nonneg : pos 0 ≤ℤ r.remaining_qty
  pub status_of_rest :
      ((r.status ≡ OrderState.filled) × (r.remaining_qty ≡ pos 0))
      ⊎ ((r.status ≡ OrderState.partially_filled) × (pos 0 <ℤ r.remaining_qty))

status_cases :
    (rest : ℤ)
    → pos 0 ≤ℤ rest
    → ((fill_status rest ≡ OrderState.filled) × (rest ≡ pos 0))
      ⊎ ((fill_status rest ≡ OrderState.partially_filled) × (pos 0 <ℤ rest))
status_cases rest h = elim (Bool-cases (eqb_ℤ rest (pos 0))) [
  | inl e ↦ inl (rw e refl, ground (arith, eqb_ℤ_iff rest (pos 0)))
  | inr e ↦ inr (rw e refl, ground arith)
]

-- A resting side and the side of an aggressor that trades with it.
pub data Against : Side → Side → Type 0 where
  sell_against_buy : Against Side.sell Side.buy
  buy_against_sell : Against Side.buy Side.sell

Side-cases : (s : Side) → (s ≡ Side.buy) ⊎ (s ≡ Side.sell) ⊎ (s ≡ Side.none)
Side-cases Side.buy = inl refl
Side-cases Side.sell = inr (inl refl)
Side-cases Side.none = inr (inr refl)

-- The ids in a list.
abbrev pub Among : ℕ → List ℕ → Type 0
Among id [] = ⊥
Among id (i ∷ ids) = (id ≡ i) ⊎ Among id ids

module _ {Q : QueueModel} where
  -- A fold over the bucket keeps what every step keeps.
  trade_ids_inv {ℓ} :
      (P : ExchangeSimulator Q → List OrderReport → Type ℓ) (t : Tick) (ids : List ℕ)
      → ((id : ℕ) (o : LiveOrder Q.State) (ex : ExchangeSimulator Q) (rs : List OrderReport)
          → Among id ids
          → get id ex.orders ≡ some o
          → P ex rs
          → P (put id (trade_order Q t o).0 ex) (rs ++ (trade_order Q t o).1))
      → (ex : ExchangeSimulator Q) (rs : List OrderReport) → P ex rs
      → P (trade_ids t ids ex rs).0 (trade_ids t ids ex rs).1
  unfolding trade_ids
  trade_ids_inv P t [] step ex rs p = p
  trade_ids_inv P t (id ∷ ids) step ex rs p = elim (Option-cases (get id ex.orders)) [
    | inl e ↦ rw (e, trade_ids) (trade_ids_inv P t ids (λ i o x r m. step i o x r (inr m)) ex rs p)
    | inr (o, e) ↦
        rw (e, trade_ids)
          (trade_ids_inv P t ids (λ i o' x r m. step i o' x r (inr m)) _ _
            (step id o ex rs (inl refl) e p))
  ]

  -- The ids in the bucket that a trade visits.
  abbrev bucket_of : ℤ → Option Side → ExchangeSimulator Q → List ℕ
  bucket_of price none ex = []
  bucket_of price (some side) ex = get_or (price, side) [] ex.buckets

  abbrev pub visited : Tick → ExchangeSimulator Q → List ℕ
  visited t ex = bucket_of t.price (maker_side t.side) ex

  on_trade-trade_ids :
      (t : Tick) (ex : ExchangeSimulator Q) (rs : List OrderReport)
      → on_trade t ex rs ≡ trade_ids t (visited t ex) ex rs
  unfolding on_trade trade_ids
  on_trade-trade_ids t ex rs = elim (Option-cases (maker_side t.side)) [
    | inl e ↦ rw (e, on_trade, trade_ids) refl
    | inr (s, e) ↦ rw (e, on_trade) refl
  ]

  on_trade_inv {ℓ} :
      (P : ExchangeSimulator Q → List OrderReport → Type ℓ) (t : Tick) (ex : ExchangeSimulator Q)
      (rs : List OrderReport)
      → ((id : ℕ) (o : LiveOrder Q.State) (x : ExchangeSimulator Q) (r : List OrderReport)
          → Among id (visited t ex)
          → get id x.orders ≡ some o
          → P x r
          → P (put id (trade_order Q t o).0 x) (r ++ (trade_order Q t o).1))
      → P ex rs
      → P (on_trade t ex rs).0 (on_trade t ex rs).1
  on_trade_inv P t ex rs step p =
      subst (λ r. P r.0 r.1) (sym (on_trade-trade_ids t ex rs))
        (trade_ids_inv P t (visited t ex) step ex rs p)

  -- An order that rests in no bucket at the trade's price and against its side is not visited.
  not_visited :
      (t : Tick) (ex : ExchangeSimulator Q) (id : ℕ)
      → ((side : Side) → Against side t.side → ¬ Among id (get_or (t.price, side) [] ex.buckets))
      → ¬ Among id (visited t ex)
  not_visited t ex id away = elim (Side-cases t.side) [
    | inl e ↦
        subst (λ s. ¬ Among id (bucket_of t.price (maker_side s) ex)) (sym e)
          (away Side.sell (subst (Against Side.sell) (sym e) sell_against_buy))
    | inr (inl e) ↦
        subst (λ s. ¬ Among id (bucket_of t.price (maker_side s) ex)) (sym e)
          (away Side.buy (subst (Against Side.buy) (sym e) buy_against_sell))
    | inr (inr e) ↦ subst (λ s. ¬ Among id (bucket_of t.price (maker_side s) ex)) (sym e) (λ m. m)
  ]

  -- A trade of a buyer changes no order but those in the bucket of sells at its price, one of a seller
  -- none but those in the bucket of buys, and one without a side none at all; no trade changes a book
  -- or a bucket.
  pub on_trade-others :
      (t : Tick) (ex : ExchangeSimulator Q) (rs : List OrderReport) (id : ℕ)
      → ((side : Side) → Against side t.side → ¬ Among id (get_or (t.price, side) [] ex.buckets))
      → let ex' = (on_trade t ex rs).0 in
        (get id ex'.orders ≡ get id ex.orders)
        × (ex'.buckets ≡ ex.buckets)
        × (ex'.book ≡ ex.book)
        × (ex'.book_l3 ≡ ex.book_l3)
  on_trade-others t ex rs id apart =
      let away = not_visited t ex id apart in
      on_trade_inv
        (λ x r.
          (get id x.orders ≡ get id ex.orders)
          × (x.buckets ≡ ex.buckets)
          × (x.book ≡ ex.book)
          × (x.book_l3 ≡ ex.book_l3))
        t ex rs
        (λ i o x r m g p. (
          get-insert_ne i id _ x.orders (λ e. away (subst (λ j. Among j (visited t ex)) e m)) ∙ p.0,
          p.1,
          p.2,
          p.3,
        ))
        (refl, refl, refl, refl)

-- The report is on another order.
abbrev pub NotAbout : ℕ → OrderReport → Type 0
NotAbout id r = r.order_id ≢ id

All-other :
    (t : Tick) (i id : ℕ) (rs : List OrderReport)
    → i ≢ id
    → All (λ r. IsFillReport t r × (r.order_id ≡ i)) rs
    → All (NotAbout id) rs
All-other t i id [] ne h = tt
All-other t i id (r ∷ rs) ne h = (λ e. ne (sym h.0.1 ∙ e), All-other t i id rs ne h.1)

get-remove_order :
    {Q : QueueModel} (id : ℕ) (ex : ExchangeSimulator Q) → get id (remove_order id ex).orders ≡ none
unfolding remove_order
get-remove_order id ex = elim (Option-cases (get id ex.orders)) [
  | inl e ↦ rw (e, remove_order) e
  | inr (o, e) ↦ rw (e, remove_order) (get-remove_self id ex.orders)
]

module _ {Q : QueueModel} (L : QueueLaws Q) where
  trade_order-IsFillReport :
      (id : ℕ) (t : Tick) (o : LiveOrder Q.State)
      → InI64 t.qty
      → IsLive L id o
      → All (λ r. IsFillReport t r × (r.order_id ≡ id)) (trade_order Q t o).1
  unfolding trade_order
  trade_order-IsFillReport id t o w v = elim (Bool-cases (leb_ℤ o.remaining_qty (pos 0))) [
    | inl e ↦ rw (e, trade_order) tt
    | inr e ↦ elim (Bool-cases (can_trade o.state)) [
      | inr c ↦ rw (e, c, trade_order) tt
      | inl c ↦
          let word : InI64 o.remaining_qty = omega (
            signed_laws,
            parts_eq v.conserved,
            v.word.0,
            v.word.1,
            v.filled_nonneg,
            v.remaining_nonneg,
          ) in
          let bound = L.check_fill_bounded o.order o.remaining_qty t o.queue_state word w v.queue in
          let f = (Q.check_fill o.order o.remaining_qty t o.queue_state).0 in
          elim (Bool-cases (leb_ℤ f (pos 0))) [
            | inl z ↦ rw (e, c, z, trade_order) tt
            | inr z ↦
                let less : sub_i64 o.remaining_qty f ≡ o.remaining_qty -ℤ f =
                  sub_i64-le o.remaining_qty f (ground arith) (ground (arith, bound)) word in
                rw (e, c, z, trade_order)
                  (
                    (
                      record {
                        at_price = refl;
                        some_fill = ground arith;
                        rest_nonneg = rw less (ground (arith, bound, -ℤ_parts o.remaining_qty f));
                        status_of_rest =
                            status_cases _
                              (rw less (ground (arith, bound, -ℤ_parts o.remaining_qty f)));
                      },
                      v.own_id,
                    ),
                    tt,
                  )
          ]
    ]
  ]

  -- On a simulator that is valid, for a queue model that meets its contract and a trade of a
  -- quantity that is a word, every report of the trade is at the price of the trade and of a
  -- positive quantity; it says `filled` and nothing remains, or `partially_filled` and a positive
  -- quantity remains.
  pub on_trade-IsFillReport :
      (t : Tick) (ex : ExchangeSimulator Q)
      → InI64 t.qty
      → IsValid L ex
      → All (IsFillReport t) (on_trade t ex []).1
  on_trade-IsFillReport t ex w v =
      (on_trade_inv (λ x r. IsValid L x × All (IsFillReport t) r) t ex []
        (λ id o x r m g p. (
          Every-insert (IsLive L) id _ x.orders (trade_order-IsLive L id t o w (p.0 id o g)) p.0,
          All-append (IsFillReport t) r _ p.1
              (All-fst (IsFillReport t) _ _ (trade_order-IsFillReport id t o w (p.0 id o g))),
        ))
        (v, tt)).1

  -- On a simulator that is valid, for a queue model that meets its contract, a trade of a quantity
  -- that is a word reports on no order that was removed before.
  pub on_trade-remove_order :
      (t : Tick) (ex : ExchangeSimulator Q) (id : ℕ)
      → InI64 t.qty
      → IsValid L ex
      → All (NotAbout id) (on_trade t (remove_order id ex) []).1
  on_trade-remove_order t ex id w v =
      (on_trade_inv (λ x r. IsValid L x × (get id x.orders ≡ none) × All (NotAbout id) r) t
        (remove_order id ex) []
        (λ i o x r m g p.
          let ne : i ≢ id = λ e. ground (arith, subst (λ j. get j x.orders ≡ some o) e g, p.1) in
          (
            Every-insert (IsLive L) i _ x.orders (trade_order-IsLive L i t o w (p.0 i o g)) p.0,
            get-insert_ne i id _ x.orders ne ∙ p.1,
            All-append (NotAbout id) r _ p.2
                (All-other t i id _ ne (trade_order-IsFillReport i t o w (p.0 i o g))),
          ))
        (remove_order-IsValid L id ex v, get-remove_order id ex, tt)).2

  -- Where a live order whose cancel was requested is filled in part by a trade of a quantity that
  -- is a word, the order is partially filled, a state that the transition table does not allow
  -- after `PendingCancel`, and the acknowledgement of the cancel is refused and changes nothing.
  pub trade_order-lost_cancel :
      (t : Tick) (o : LiveOrder Q.State) (id : ℕ) (ex : ExchangeSimulator Q)
      → IsLive L id o
      → InI64 t.qty
      → o.state ≡ OrderState.pending_cancel
      → let f = (Q.check_fill o.order o.remaining_qty t o.queue_state).0 in
        pos 0 <ℤ f
        → f <ℤ o.remaining_qty
        → let o' = (trade_order Q t o).0 in
          get id ex.orders ≡ some o'
          → (o'.state ≡ OrderState.partially_filled)
            × (can_transition_to o.state o'.state ≡ false)
            × (ack_cancel id ex ≡ (err not_pending_cancel, ex))
  unfolding trade_order ack_cancel
  trade_order-lost_cancel t o id ex v w c p lt g =
      let f = (Q.check_fill o.order o.remaining_qty t o.queue_state).0 in
      let less : sub_i64 o.remaining_qty f ≡ o.remaining_qty -ℤ f =
        sub_i64-le o.remaining_qty f (omega arith) (omega arith) (
          omega (
            signed_laws,
            parts_eq v.conserved,
            v.word.0,
            v.word.1,
            v.filled_nonneg,
            v.remaining_nonneg,
          )) in
      let some_left : eqb_ℤ (sub_i64 o.remaining_qty f) (pos 0) ≡ false =
        rw less (ground (arith, -ℤ_parts o.remaining_qty f)) in
      let e : leb_ℤ o.remaining_qty (pos 0) ≡ false = ground (arith, v.remaining_nonneg) in
      let z : leb_ℤ f (pos 0) ≡ false = ground arith in
      let s : (trade_order Q t o).0.state ≡ OrderState.partially_filled =
        rw (e, c, z, trade_order, some_left) refl in
      (s, rw (s, c) refl, rw (ack_cancel_err id _ ex g (λ h. ground (arith, s, h)), s) refl)
