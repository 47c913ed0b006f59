-- ===== src/Prelude/I64.antt =====
-- The machine's signed words as integers in a range: the wrapping operators of `+`, `-` and `*` in a
-- release build, the saturating operators, and the casts that clamp.
use Prim.Native.Nat.{ℕ, ◌+◌, ◌-◌, ◌/◌, ◌%◌, ◌≤◌}
use mathlib.Core.Path.{◌≡◌, refl, ◌∙◌}
use mathlib.Core.List.{List, [], ◌∷◌, ◌++◌}
use native.Mathlib.Omega.{arith}
use crypto_rs_backtester.Prelude.Tests.{ltb, if◌then◌else◌}
use crypto_rs_backtester.Prelude.Lists.{All}
use crypto_rs_backtester.Prelude.Int.{
  ℤ, pos, negsuc, pos_part, neg_part, ◌+ℤ◌, ◌-ℤ◌, ◌≤ℤ◌, neg, abs, signum, eqb_ℤ, leb_ℤ, int_laws,
  signed_laws, sum, +ℤ_sign, +ℤ_assoc,
}

-- 2 ^ 63 and 2 ^ 64.
abbrev pub i64_half : ℕ
i64_half = 9223372036854775808

abbrev pub u64_mod : ℕ
u64_mod = 18446744073709551616

abbrev pub i64_max : ℤ
i64_max = pos 9223372036854775807

abbrev pub i64_min : ℤ
i64_min = negsuc 9223372036854775807

-- 2 ^ 127 - 1 and -(2 ^ 127).
abbrev pub i128_max : ℤ
i128_max = pos 170141183460469231731687303715884105727

abbrev pub i128_min : ℤ
i128_min = negsuc 170141183460469231731687303715884105727

-- The value fits an i64.
abbrev pub InI64 : ℤ → Type 0
InI64 a = (neg_part a ≤ 9223372036854775808) × (pos_part a ≤ 9223372036854775807)

-- The word that two's complement gives an integer, and the integer that a word stands for.
abbrev pub bits64 : ℤ → ℕ
bits64 (pos n) = n % 18446744073709551616
bits64 (negsuc n) = 18446744073709551615 - n % 18446744073709551616

abbrev pub signed64 : ℕ → ℤ
signed64 w = if ltb w 9223372036854775808 then pos w else negsuc (18446744073709551615 - w)

unfoldable pub wrap_i64 : ℤ → ℤ
wrap_i64 a = signed64 (bits64 a)

unfoldable pub sat_i64 : ℤ → ℤ
sat_i64 a = if leb_ℤ i64_max a then i64_max else if leb_ℤ a i64_min then i64_min else a

unfoldable pub sat_i128 : ℤ → ℤ
sat_i128 a = if leb_ℤ i128_max a then i128_max else if leb_ℤ a i128_min then i128_min else a

-- `a * b` on i128, which wraps in a release build.
unfoldable pub wrap_i128 : ℤ → ℤ
wrap_i128 (pos n) =
    let w = n % 340282366920938463463374607431768211456 in
    if ltb w 170141183460469231731687303715884105728
    then pos w
    else negsuc (340282366920938463463374607431768211455 - w)
wrap_i128 (negsuc n) =
    let w = n % 340282366920938463463374607431768211456 in
    if ltb w 170141183460469231731687303715884105728
    then negsuc w
    else pos (340282366920938463463374607431768211455 - w)

-- `a + b` and `a - b` on i64.
abbrev pub add_i64 : ℤ → ℤ → ℤ
add_i64 a b = wrap_i64 (a +ℤ b)

abbrev pub sub_i64 : ℤ → ℤ → ℤ
sub_i64 a b = wrap_i64 (a -ℤ b)

-- `-a` and `a.abs()` on i64, which wrap at the least word.
abbrev pub neg_i64 : ℤ → ℤ
neg_i64 a = wrap_i64 (neg a)

abbrev pub abs_i64 : ℤ → ℤ
abs_i64 a = wrap_i64 (pos (abs a))

-- `a / b` on i64 for a divisor that is not zero: rounded towards zero, and wrapped.
unfoldable pub div_i64 : ℤ → ℤ → ℤ
div_i64 a b =
    let q = abs a / abs b in wrap_i64 (if eqb_ℤ (signum a) (signum b) then pos q else neg (pos q))

abbrev pub saturating_add : ℤ → ℤ → ℤ
saturating_add a b = sat_i64 (a +ℤ b)

abbrev pub saturating_sub : ℤ → ℤ → ℤ
saturating_sub a b = sat_i64 (a -ℤ b)

-- `wrapping_add(1)` on u64.
abbrev pub next_u64 : ℕ → ℕ
next_u64 n = (n + 1) % 18446744073709551616

pub wrap_i64-eq : (a : ℤ) → InI64 a → wrap_i64 a ≡ a
unfolding wrap_i64
wrap_i64-eq (pos n) h = ground arith
wrap_i64-eq (negsuc n) h = ground arith

pub wrap_i64-InI64 : (a : ℤ) → InI64 (wrap_i64 a)
unfolding wrap_i64
wrap_i64-InI64 a = ground arith

pub sat_i64-eq : (a : ℤ) → InI64 a → sat_i64 a ≡ a
unfolding sat_i64
sat_i64-eq a h = ground arith

pub sat_i64-InI64 : (a : ℤ) → InI64 (sat_i64 a)
unfolding sat_i64
sat_i64-InI64 a = ground arith

-- Where the true result fits, the operators on words give it.
pub add_i64-eq : (a b : ℤ) → InI64 (a +ℤ b) → add_i64 a b ≡ a +ℤ b
add_i64-eq a b h = wrap_i64-eq (a +ℤ b) h

pub sub_i64-eq : (a b : ℤ) → InI64 (a -ℤ b) → sub_i64 a b ≡ a -ℤ b
sub_i64-eq a b h = wrap_i64-eq (a -ℤ b) h

-- `a - b` on words that are not negative, where `b` is no more than `a`.
pub sub_i64-le : (a b : ℤ) → pos 0 ≤ℤ b → b ≤ℤ a → InI64 a → sub_i64 a b ≡ a -ℤ b
sub_i64-le a b h k w = wrap_i64-eq (a -ℤ b) (omega signed_laws)

-- `iter().sum()` on i64: from the left, with the operator `+`.
abbrev pub sum_from : ℤ → List ℤ → ℤ
sum_from acc [] = acc
sum_from acc (x ∷ xs) = sum_from (add_i64 acc x) xs

abbrev pub sum_i64 : List ℤ → ℤ
sum_i64 = sum_from (pos 0)

pub sum_from-append :
    (acc : ℤ) (xs ys : List ℤ) → sum_from acc (xs ++ ys) ≡ sum_from (sum_from acc xs) ys
sum_from-append acc [] ys = refl
sum_from-append acc (x ∷ xs) ys = sum_from-append (add_i64 acc x) xs ys

-- No element is negative.
abbrev pub NonNeg : List ℤ → Type 0
NonNeg = All (λ x. neg_part x ≡ 0)

pub sum_nonneg : (xs : List ℤ) → NonNeg xs → neg_part (sum xs) ≡ 0
sum_nonneg [] h = refl
sum_nonneg (x ∷ xs) h = omega (int_laws, signed_laws, sum_nonneg xs h.1, h.0, +ℤ_sign x (sum xs))

-- A sum of numbers that are not negative and that fits is computed exactly.
pub sum_from-eq :
    (acc : ℤ) (xs : List ℤ)
    → neg_part acc ≡ 0
    → NonNeg xs
    → InI64 (acc +ℤ sum xs)
    → sum_from acc xs ≡ acc +ℤ sum xs
sum_from-eq acc [] h n b = omega int_laws
sum_from-eq acc (x ∷ xs) h n b =
    let s = +ℤ_sign acc x in
    let t = sum_nonneg xs n.1 in
    let fits : InI64 (acc +ℤ x) = omega (int_laws, s h n.0, t) in
    rw (wrap_i64-eq (acc +ℤ x) fits)
      (sum_from-eq (acc +ℤ x) xs (s h n.0) n.1 (rw +ℤ_assoc b) ∙ +ℤ_assoc acc x (sum xs))
