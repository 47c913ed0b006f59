-- ===== src/Account/Funding.antt =====
-- backtester-core/src/account.rs: what a funding event does to the account, on every branch of
-- `apply_funding`.
use crypto_rs_backtester.Prelude.{
  ◌≡◌, refl, sym, ap, ◌∙◌, inl, inr, ◌||◌, arith, Bool-cases, Option-cases,
}
use crypto_rs_backtester.Prelude.Int.{ℤ, pos, negsuc, eqb_ℤ, ◌*ℤ◌, ◌≤ℤ◌, neg, div_trunc}
use crypto_rs_backtester.Prelude.I64.{InI64, saturating_add, sat_i64, sat_i128}
use crypto_rs_backtester.Prelude.Keys.{nat_eq}
use crypto_rs_backtester.Collections.Map.{get, get_or, get_or-insert_self, Every-insert}
use crypto_rs_backtester.Types.{FundingEvent, scale}
use crypto_rs_backtester.Account.{
  Account, Position, position_qty, default_position, funding_flow, apply_funding,
}
use crypto_rs_backtester.Account.Fills.{IsAccount, IsPosition, saturating_add-zero}

-- On a valid account whose funding total is a word, a funding event adds the cash flow that it
-- returns to the funding total, saturated, keeps the quantity of its symbol, and keeps the account
-- valid.
pub apply_funding-total :
    (e : FundingEvent) (mark : ℤ) (a : Account)
    → InI64 a.total_funding_pnl
    → IsAccount a
    → let (pnl, a') = apply_funding e mark a in
      (a'.total_funding_pnl ≡ saturating_add a.total_funding_pnl pnl)
      × (position_qty e.symbol_id a' ≡ position_qty e.symbol_id a)
      × IsAccount a'
unfolding apply_funding position_qty get_or
apply_funding-total e mark a w v = elim (Option-cases (get e.symbol_id a.positions)) [
  | inl n ↦
      rw (n, apply_funding) (sym (saturating_add-zero a.total_funding_pnl (pos 0) w refl), refl, v)
  | inr (p, n) ↦
      elim (Bool-cases (eqb_ℤ p.qty (pos 0) || eqb_ℤ e.rate (pos 0) || eqb_ℤ mark (pos 0))) [
        | inl z ↦
            rw (n, z, apply_funding)
              (sym (saturating_add-zero a.total_funding_pnl (pos 0) w refl), refl, v)
        | inr z ↦
            let pnl = funding_flow e mark p in
            let p' = record p { funding_pnl = saturating_add p.funding_pnl pnl } in
            rw (n, z, apply_funding)
              (
                refl,
                ap (λ q. q.qty) (get_or-insert_self e.symbol_id default_position p' a.positions)
                    ∙ rw (n, position_qty) refl,
                Every-insert IsPosition e.symbol_id p' a.positions
                    (record {
                      flat = (v e.symbol_id p n).flat;
                      qty_word = (v e.symbol_id p n).qty_word;
                    })
                    v,
              )
      ]
]

-- The quotient of a product has the sign of the product.
scaled_product_sign :
    (x y : ℤ)
    → let z = div_trunc (sat_i128 (x *ℤ y)) scale in
      (pos 0 ≤ℤ x → pos 0 ≤ℤ y → pos 0 ≤ℤ z)
      × (pos 0 ≤ℤ x → y ≤ℤ pos 0 → z ≤ℤ pos 0)
      × (x ≤ℤ pos 0 → pos 0 ≤ℤ y → z ≤ℤ pos 0)
      × (x ≤ℤ pos 0 → y ≤ℤ pos 0 → pos 0 ≤ℤ z)
unfolding sat_i128 div_trunc ◌*ℤ◌
scaled_product_sign (pos m) (pos n) =
    (λ h k. ground arith, λ h k. ground arith, λ h k. ground arith, λ h k. ground arith)
scaled_product_sign (pos m) (negsuc n) =
    (λ h k. ground arith, λ h k. ground arith, λ h k. ground arith, λ h k. ground arith)
scaled_product_sign (negsuc m) (pos n) =
    (λ h k. ground arith, λ h k. ground arith, λ h k. ground arith, λ h k. ground arith)
scaled_product_sign (negsuc m) (negsuc n) =
    (λ h k. ground arith, λ h k. ground arith, λ h k. ground arith, λ h k. ground arith)

neg_sign :
    (x : ℤ) → (pos 0 ≤ℤ x → sat_i64 (neg x) ≤ℤ pos 0) × (x ≤ℤ pos 0 → pos 0 ≤ℤ sat_i64 (neg x))
unfolding sat_i64 neg
neg_sign x = (λ h. ground arith, λ h. ground arith)

-- With a mark price that is not negative: where the rate is not negative, the cash flow of a long
-- position is not positive and that of a short one is not negative; where the rate is not positive,
-- the other way round.
pub funding_flow_sign :
    (e : FundingEvent) (mark : ℤ) (p : Position)
    → pos 0 ≤ℤ mark
    → (pos 0 ≤ℤ e.rate → pos 0 ≤ℤ p.qty → funding_flow e mark p ≤ℤ pos 0)
      × (pos 0 ≤ℤ e.rate → p.qty ≤ℤ pos 0 → pos 0 ≤ℤ funding_flow e mark p)
      × (e.rate ≤ℤ pos 0 → pos 0 ≤ℤ p.qty → pos 0 ≤ℤ funding_flow e mark p)
      × (e.rate ≤ℤ pos 0 → p.qty ≤ℤ pos 0 → funding_flow e mark p ≤ℤ pos 0)
unfolding funding_flow
funding_flow_sign e mark p m =
    let notional = scaled_product_sign p.qty mark in
    let x = div_trunc (sat_i128 (p.qty *ℤ mark)) scale in
    let payment = scaled_product_sign x e.rate in
    let out = neg_sign (div_trunc (sat_i128 (x *ℤ e.rate)) scale) in
    (
      λ r q. out.0 (payment.0 (notional.0 q m) r),
      λ r q. out.1 (payment.2 (notional.2 q m) r),
      λ r q. out.1 (payment.1 (notional.0 q m) r),
      λ r q. out.0 (payment.3 (notional.2 q m) r),
    )
