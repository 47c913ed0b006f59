-- ===== src/Exchange/Lifecycle.antt =====
-- backtester-core/src/exchange_simulator.rs: each request on an order, on every branch.
use crypto_rs_backtester.Prelude.{
  ℕ, ◌≡◌, refl, ◌⊎◌, inl, inr, ◌≢◌, Bool, true, false, none, some, Result, ok, err, arith,
  Bool-cases, Option-cases, if◌then◌else◌,
}
use crypto_rs_backtester.Prelude.Int.{pos}
use crypto_rs_backtester.Prelude.Keys.{nat_eq}
use crypto_rs_backtester.Collections.Map.{get}
use crypto_rs_backtester.Types.{OrderState, can_transition_to}
use crypto_rs_backtester.QueueModel.{QueueModel}
use crypto_rs_backtester.Exchange.{
  LiveOrder, ExchangeSimulator, ExchangeError, put, report_on, ack_new, cancel_order, ack_cancel,
  not_pending_new, already_filled, not_pending_cancel,
}

is_pending_new : (s : OrderState) → (s ≡ OrderState.pending_new) ⊎ (s ≢ OrderState.pending_new)
is_pending_new OrderState.pending_new = inl refl
is_pending_new _ = inr (λ e. cc)

is_pending_cancel :
    (s : OrderState) → (s ≡ OrderState.pending_cancel) ⊎ (s ≢ OrderState.pending_cancel)
is_pending_cancel OrderState.pending_cancel = inl refl
is_pending_cancel _ = inr (λ e. cc)

abbrev pub is_filled : OrderState → Bool
is_filled OrderState.filled = true
is_filled _ = false

module _ {Q : QueueModel} where
  -- How a request on an order ended: it was refused and nothing changed, or the order, which was
  -- known, made a permitted transition to the given state and is otherwise as it was.
  abbrev pub Moves :
      {A : Type 0}
      → ℕ
      → OrderState
      → ExchangeSimulator Q
      → Result A ExchangeError × ExchangeSimulator Q
      → Type 0
  Moves id s ex (ok a, ex') =
      (o : LiveOrder Q.State) × (get id ex.orders ≡ some o)
      × (can_transition_to o.state s ≡ true)
      × (ex' ≡ put id (record o { state = s }) ex)
  Moves id s ex (err e, ex') = ex' ≡ ex

  ack_new_ok :
      (id : ℕ) (o : LiveOrder Q.State) (ex : ExchangeSimulator Q)
      → get id ex.orders ≡ some o
      → o.state ≡ OrderState.pending_new
      → ack_new id ex ≡ (
        ok (report_on (record o { filled_qty = pos 0 }) OrderState.opened (pos 0) (pos 0) none),
        put id (record o { state = OrderState.opened }) ex,
      )
  unfolding ack_new
  ack_new_ok id o ex e s = rw (e, ack_new, s) refl

  ack_new_err :
      (id : ℕ) (o : LiveOrder Q.State) (ex : ExchangeSimulator Q)
      → get id ex.orders ≡ some o
      → o.state ≢ OrderState.pending_new
      → ack_new id ex ≡ (err not_pending_new, ex)
  unfolding ack_new
  ack_new_err id o ex e s = ground (arith, e, s)

  -- An acknowledgement of a new order moves a pending order to open; on any other order, and on an
  -- unknown id, it is refused and changes nothing.
  pub ack_new-Moves :
      (id : ℕ) (ex : ExchangeSimulator Q) → Moves id OrderState.opened ex (ack_new id ex)
  unfolding ack_new
  ack_new-Moves id ex = elim (Option-cases (get id ex.orders)) [
    | inl e ↦ rw (e, ack_new) refl
    | inr (o, e) ↦ elim (is_pending_new o.state) [
      | inl s ↦ rw (ack_new_ok id o ex e s) (o, e, rw s refl, refl)
      | inr s ↦ rw (ack_new_err id o ex e s) refl
    ]
  ]

  -- A cancel request moves an open or partially filled order to pending cancel; it is refused, and
  -- changes nothing, on any other order and on an unknown id.
  pub cancel_order-Moves :
      (id : ℕ) (ex : ExchangeSimulator Q)
      → Moves id OrderState.pending_cancel ex (cancel_order id ex)
  unfolding cancel_order
  cancel_order-Moves id ex = elim (Option-cases (get id ex.orders)) [
    | inl e ↦ rw (e, cancel_order) refl
    | inr (o, e) ↦ elim (Bool-cases (can_transition_to o.state OrderState.pending_cancel)) [
      | inl s ↦ rw (e, s, cancel_order) (o, e, s, refl)
      | inr s ↦ rw (e, s, cancel_order) refl
    ]
  ]

  ack_cancel_ok :
      (id : ℕ) (o : LiveOrder Q.State) (ex : ExchangeSimulator Q)
      → get id ex.orders ≡ some o
      → o.state ≡ OrderState.pending_cancel
      → ack_cancel id ex ≡ (
        ok (report_on o OrderState.cancelled (pos 0) (pos 0) none),
        put id (record o { state = OrderState.cancelled }) ex,
      )
  unfolding ack_cancel
  ack_cancel_ok id o ex e s = rw (e, ack_cancel, s) refl

  -- Where the cancel is no longer in flight, its acknowledgement is refused: as already filled if
  -- the order was filled meanwhile.
  pub ack_cancel_err :
      (id : ℕ) (o : LiveOrder Q.State) (ex : ExchangeSimulator Q)
      → get id ex.orders ≡ some o
      → o.state ≢ OrderState.pending_cancel
      → ack_cancel id ex
        ≡ (err (if is_filled o.state then already_filled else not_pending_cancel), ex)
  unfolding ack_cancel
  ack_cancel_err id o ex e s = ground (arith, e, s)

  -- An acknowledgement of a cancel moves an order with a cancel in flight to cancelled; it is
  -- refused, and changes nothing, on any other order and on an unknown id.
  pub ack_cancel-Moves :
      (id : ℕ) (ex : ExchangeSimulator Q) → Moves id OrderState.cancelled ex (ack_cancel id ex)
  unfolding ack_cancel
  ack_cancel-Moves id ex = elim (Option-cases (get id ex.orders)) [
    | inl e ↦ rw (e, ack_cancel) refl
    | inr (o, e) ↦ elim (is_pending_cancel o.state) [
      | inl s ↦ rw (ack_cancel_ok id o ex e s) (o, e, rw s refl, refl)
      | inr s ↦ rw (ack_cancel_err id o ex e s) refl
    ]
  ]
