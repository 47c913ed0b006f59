-- ===== src/Account/Realised.antt =====
-- backtester-core/src/account.rs: the entry price of an addition, and the realised PnL of a round trip.
use crypto_rs_backtester.Prelude.{ℕ, ◌+◌, ◌*◌, ◌/◌, ◌≤◌, ◌<◌, ◌≡◌, arith}
use crypto_rs_backtester.Prelude.Int.{ℤ, pos, ◌+ℤ◌, ◌*ℤ◌, ◌≤ℤ◌, div_trunc, abs}
use crypto_rs_backtester.Prelude.I64.{abs_i64, InI64, sat_i64, sat_i128, wrap_i64-eq, sat_i64-eq}
use crypto_rs_backtester.Account.{Position, weighted_avg}
use native.Mathlib.Nat

-- The weighted mean of two numbers between two bounds is between them.
mean_bounds :
    (lo hi a p x y : ℕ)
    → lo ≤ a
    → a ≤ hi
    → lo ≤ p
    → p ≤ hi
    → 0 < x + y
    → (lo ≤ (a * x + p * y) / (x + y)) × ((a * x + p * y) / (x + y) ≤ hi)
mean_bounds lo hi a p x y la ah lp ph n =
    let split : lo * (x + y) ≤ a * x + p * y =
      omega (arith, Nat.mul-le-mul_right x la, Nat.mul-le-mul_right y lp) in
    let top : a * x + p * y ≤ (x + y) * hi =
      omega (arith, Nat.mul-le-mul_right x ah, Nat.mul-le-mul_right y ph) in
    ((Nat.le-div_iff_mul-le n).1 split, Nat.div-le_of_le-mul (x + y) top)

-- A word that has an absolute value which is a word.
abbrev pub AbsInI64 : ℤ → Type 0
AbsInI64 a = abs a ≤ 9223372036854775807

pub abs_i64-eq : (a : ℤ) → AbsInI64 a → abs_i64 a ≡ pos (abs a)
abs_i64-eq a h = wrap_i64-eq (pos (abs a)) (omega arith)

weighted_sum : (a p x y : ℕ) → pos a *ℤ pos x +ℤ pos p *ℤ pos y ≡ pos (a * x + p * y)
unfolding ◌+ℤ◌ ◌*ℤ◌
weighted_sum a p x y = ground arith

weighted_avg-mean :
    (p : Position) (d : ℤ) (avg price : ℕ)
    → p.avg_price ≡ pos avg
    → AbsInI64 p.qty
    → AbsInI64 d
    → 0 < abs p.qty + abs d
    → weighted_avg p d (pos price)
      ≡ sat_i64 (pos ((avg * abs p.qty + price * abs d) / (abs p.qty + abs d)))
unfolding ◌+ℤ◌ ◌*ℤ◌ div_trunc
weighted_avg-mean p d avg price e hq hd n =
    rw (e, abs_i64-eq p.qty hq, abs_i64-eq d hd) (ground arith)

-- The entry price after an addition is between any two bounds of the old entry price and the price
-- of the fill, for prices that are not negative, an upper bound that is a word, a fill that is not
-- empty, and quantities whose absolute values are words.
pub weighted_avg_bounds :
    (p : Position) (d : ℤ) (avg price lo hi : ℕ)
    → p.avg_price ≡ pos avg
    → AbsInI64 p.qty
    → AbsInI64 d
    → 0 < abs d
    → lo ≤ avg
    → avg ≤ hi
    → lo ≤ price
    → price ≤ hi
    → hi ≤ 9223372036854775807
    → (pos lo ≤ℤ weighted_avg p d (pos price)) × (weighted_avg p d (pos price) ≤ℤ pos hi)
weighted_avg_bounds p d avg price lo hi e hq hd n la ah lp ph w =
    let b = mean_bounds lo hi avg price (abs p.qty) (abs d) la ah lp ph (omega arith) in
    rw (weighted_avg-mean p d avg price e hq hd (omega arith)) (
      rw
        (sat_i64-eq (pos ((avg * abs p.qty + price * abs d) / (abs p.qty + abs d)))
          (omega (arith, b)))
        (omega (arith, b)))

-- The product of two words fits an i128.
pub sat_i128-product : (a b : ℤ) → InI64 a → InI64 b → sat_i128 (a *ℤ b) ≡ a *ℤ b
unfolding sat_i128 ◌*ℤ◌
sat_i128-product a b u v =
    let pp = Nat.mul-le-mul u.1 v.1 in
    let pn = Nat.mul-le-mul u.1 v.0 in
    let np = Nat.mul-le-mul u.0 v.1 in
    let nn = Nat.mul-le-mul u.0 v.0 in ground (arith, pp, pn, np, nn)
