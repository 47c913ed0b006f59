-- ===== src/Engine/Fees.antt =====
-- backtester-core/src/engine.rs: the fee of a fill.
use crypto_rs_backtester.Prelude.{
  ℕ, zero, suc, ap, refl, false, ◌∙◌, ◌+◌, ◌*◌, ◌/◌, ◌≤◌, ◌<◌, ◌≡◌, arith,
}
use crypto_rs_backtester.Prelude.Int.{
  ℤ, pos, ◌≤ℤ◌, ◌<ℤ◌, ◌*ℤ◌, div_trunc, abs, min_ℤ, max_ℤ, leb_ℤ, parts_eq,
}
use crypto_rs_backtester.Prelude.I64.{i64_max, abs_i64, wrap_i128}
use crypto_rs_backtester.Account.Realised.{AbsInI64, abs_i64-eq}
use crypto_rs_backtester.Engine.{compute_fee}

-- A fee is a word that is not negative.
pub compute_fee_bounds :
    (price qty bps : ℤ)
    → (pos 0 ≤ℤ compute_fee price qty bps) × (compute_fee price qty bps ≤ℤ i64_max)
unfolding compute_fee
compute_fee_bounds price qty bps = ground arith

fee_quotient : (n : ℕ) → div_trunc (pos n) 1000000000000 ≡ pos (n / 1000000000000)
unfolding div_trunc
fee_quotient n = ground arith

clamped :
    (x : ℤ) (n : ℕ)
    → x ≡ pos (n / 1000000000000)
    → min_ℤ (max_ℤ x (pos 0)) i64_max <ℤ i64_max
    → min_ℤ (max_ℤ x (pos 0)) i64_max ≡ pos (n / 1000000000000)
clamped x n e below = ground (arith, parts_eq e)

-- A product that fits an i128 is exact.
wrap_i128-eq : (n : ℕ) → n ≤ 170141183460469231731687303715884105727 → wrap_i128 (pos n) ≡ pos n
unfolding wrap_i128
wrap_i128-eq n h = ground arith

factor-le : (m b : ℕ) → m ≤ m * suc b
factor-le m b = omega arith

product_pos : (p q : ℕ) → pos p *ℤ pos q ≡ pos (p * q)
unfolding ◌*ℤ◌
product_pos p q = ground arith

numerator_is :
    (p q b : ℕ)
    → p * q * suc b ≤ 170141183460469231731687303715884105727
    → wrap_i128 (wrap_i128 (pos p *ℤ pos q) *ℤ pos (suc b)) ≡ pos (p * q * suc b)
numerator_is p q b h =
    let first : wrap_i128 (pos p *ℤ pos q) ≡ pos (p * q) =
      ap wrap_i128 (product_pos p q)
      ∙ wrap_i128-eq (p * q) (omega (arith, factor-le (p * q) b, h)) in
    ap (λ x. wrap_i128 (x *ℤ pos (suc b))) first
    ∙ ap wrap_i128 (product_pos (p * q) (suc b))
    ∙ wrap_i128-eq (p * q * suc b) h

compute_fee-positive :
    (price qty : ℤ) (b : ℕ)
    → compute_fee price qty (pos (suc b))
      ≡ min_ℤ
          (max_ℤ
            (div_trunc (wrap_i128 (wrap_i128 (price *ℤ abs_i64 qty) *ℤ pos (suc b))) 1000000000000)
            (pos 0))
          i64_max
unfolding compute_fee
compute_fee-positive price qty b =
    let h : leb_ℤ (pos (suc b)) (pos 0) ≡ false = ground arith in rw (h, compute_fee) refl

fee_is :
    (p b : ℕ) (qty : ℤ)
    → AbsInI64 qty
    → p * abs qty * b ≤ 170141183460469231731687303715884105727
    → compute_fee (pos p) qty (pos b) <ℤ i64_max
    → compute_fee (pos p) qty (pos b) ≡ pos (p * abs qty * b / 1000000000000)
unfolding compute_fee
fee_is p zero qty w fits below = ground arith
fee_is p (suc b) qty w fits below =
    let n = p * abs qty * suc b in
    let quotient : div_trunc (wrap_i128 (wrap_i128 (pos p *ℤ abs_i64 qty) *ℤ pos (suc b)))
          1000000000000
        ≡ pos (n / 1000000000000) =
      ap (λ x. div_trunc (wrap_i128 (wrap_i128 (pos p *ℤ x) *ℤ pos (suc b))) 1000000000000)
        (abs_i64-eq qty w)
      ∙ ap (λ x. div_trunc x 1000000000000) (numerator_is p (abs qty) b fits)
      ∙ fee_quotient n in
    let e = compute_fee-positive (pos p) qty b in e ∙ clamped _ n quotient (rw (← e) below)

-- With a price and a rate that are not negative and a quantity whose absolute value is a word, and
-- where the product of the three fits an i128, a fee below the greatest word is the floor of the
-- product over 10 ^ 12.
pub compute_fee-floor :
    (p b : ℕ) (qty : ℤ)
    → AbsInI64 qty
    → p * abs qty * b ≤ 170141183460469231731687303715884105727
    → compute_fee (pos p) qty (pos b) <ℤ i64_max
    → (fee : ℕ) × (compute_fee (pos p) qty (pos b) ≡ pos fee)
      × (fee * 1000000000000 ≤ p * abs qty * b)
      × (p * abs qty * b < (fee + 1) * 1000000000000)
unfolding compute_fee div_trunc
compute_fee-floor p b qty w fits below =
    let fee = p * abs qty * b / 1000000000000 in
    let same : compute_fee (pos p) qty (pos b) ≡ pos fee = fee_is p b qty w fits below in
    (fee, same, omega arith, omega arith)
