-- ===== src/Types/Lifecycle.antt =====
-- backtester-core/src/types.rs: the order state machine as a relation, and the laws of the codings.
use crypto_rs_backtester.Prelude.{◌≡◌, refl, ◌⊎◌, ◌↔◌, inl, true, Option, arith}
use crypto_rs_backtester.Prelude.Int.{ℤ}
use crypto_rs_backtester.Types.{Side, as_i8, try_from, OrderState, is_terminal, can_transition_to}

-- A run of permitted transitions.
pub data Reach (s : OrderState) : OrderState → Type 0 where
  here : Reach s s
  next : {t u : OrderState} → Reach s t → can_transition_to t u ≡ true → Reach s u

-- A state from which the order may still trade or be cancelled, at most.
abbrev Settling : OrderState → Type 0
Settling s = (s ≡ OrderState.pending_cancel) ⊎ (is_terminal s ≡ true)

Settling-next : (s t : OrderState) → Settling s → can_transition_to s t ≡ true → Settling t
Settling-next s t h e = ground arith

Reach-Settling : {s t : OrderState} → Settling s → Reach s t → Settling t
Reach-Settling h here = h
Reach-Settling h (next {t = m} {u = u} r e) = Settling-next m u (Reach-Settling h r) e

Final-next : (s t : OrderState) → is_terminal s ≡ true → can_transition_to s t ≡ true → ⊥
Final-next s t h e = ground arith

-- A run of permitted transitions that starts in a terminal state stays there.
pub Reach-terminal : {s t : OrderState} → is_terminal s ≡ true → Reach s t → t ≡ s
Reach-terminal h here = refl
Reach-terminal {s} h (next {t = m} {u = u} r e) =
    absurd (Final-next m u (ground (arith, Reach-terminal h r)) e)

-- Once a cancel is in flight, every permitted continuation keeps the order waiting for the cancel
-- or has ended; it never becomes open or partially filled again.
pub Reach-pending_cancel :
    {t : OrderState}
    → Reach OrderState.pending_cancel t
    → (t ≡ OrderState.pending_cancel) ⊎ (is_terminal t ≡ true)
Reach-pending_cancel r = Reach-Settling (inl refl) r

-- A code is read as a side exactly when it is the code of that side.
pub try_from_iff : (v : ℤ) (s : Side) → (try_from v ≡ Option.some s) ↔ (as_i8 s ≡ v)
unfolding try_from as_i8
try_from_iff v s = ground arith
