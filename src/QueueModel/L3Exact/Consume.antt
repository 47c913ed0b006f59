-- ===== src/QueueModel/L3Exact/Consume.antt =====
-- backtester-core/src/queue_model.rs: `consume_ahead_orders` ends, and takes exactly its quantity off
-- the front of the queue.
use crypto_rs_backtester.Prelude.{
  ℕ, zero, suc, ◌+◌, ◌<◌, ◌≡◌, refl, inl, inr, Option, some, [], ◌∷◌, arith, Bool-cases,
  if◌then◌else◌, All, length, ◌∙◌, ap,
}
use crypto_rs_backtester.Prelude.Int.{
  ℤ, pos, pos_part, neg_part, ◌≤ℤ◌, ◌<ℤ◌, ltb_ℤ, leb_ℤ, eqb_ℤ, ◌-ℤ◌, ◌+ℤ◌, -ℤ_parts, sum, int_laws,
  signed_laws, eq_of_parts,
}
use crypto_rs_backtester.Prelude.I64.{InI64, sub_i64, sub_i64-le, wrap_i64-eq}
use crypto_rs_backtester.OrderBook.L3.{Level, qtys}
use crypto_rs_backtester.QueueModel.L3Exact.{consume_loop, consume_ahead_orders}

abbrev pub Positive : Level → Type 0
Positive = All (λ o. pos 0 <ℤ o.1)

pub sum_level_nonneg : (q : Level) → Positive q → pos 0 ≤ℤ sum (qtys q)
sum_level_nonneg [] h = omega arith
sum_level_nonneg (o ∷ q) h = omega (int_laws, sum_level_nonneg q h.1, h.0)

consume_zero : (f : ℕ) (q : Level) → 0 < f → consume_loop f q (pos 0) ≡ some q
unfolding consume_loop
consume_zero zero q h = absurd (omega arith)
consume_zero (suc f) [] h = refl
consume_zero (suc f) (o ∷ q) h = refl

-- The two passes: the first order is used up, or the quantity is.
pass_whole :
    (f : ℕ) (id : ℕ) (x qty : ℤ) (q : Level)
    → pos 0 <ℤ x
    → x ≤ℤ qty
    → InI64 qty
    → consume_loop (suc f) ((id, x) ∷ q) qty ≡ consume_loop f q (qty -ℤ x)
unfolding consume_loop
pass_whole f id x qty q p l w =
    let left : sub_i64 x x ≡ pos 0 =
      sub_i64-le x x (omega arith) (omega arith) (omega signed_laws)
      ∙ eq_of_parts _ _ (omega signed_laws) in
    let less : sub_i64 qty x ≡ qty -ℤ x = sub_i64-le qty x (omega arith) l w in
    ground (arith, left, less)

pass_part :
    (f : ℕ) (id : ℕ) (x qty : ℤ) (q : Level)
    → pos 0 <ℤ qty
    → qty <ℤ x
    → InI64 x
    → consume_loop (suc f) ((id, x) ∷ q) qty ≡ consume_loop f ((id, x -ℤ qty) ∷ q) (pos 0)
unfolding consume_loop
pass_part f id x qty q p l w =
    let left : sub_i64 x qty ≡ x -ℤ qty = sub_i64-le x qty (omega arith) (omega arith) w in
    let none_left : sub_i64 qty qty ≡ pos 0 =
      sub_i64-le qty qty (omega arith) (omega arith) (omega signed_laws)
      ∙ eq_of_parts _ _ (omega signed_laws) in
    ground (arith, left, none_left, -ℤ_parts x qty)

-- What a call leaves: positive quantities, less by `qty` in total.
abbrev Leaves : Level → ℤ → Option Level → Type 0
Leaves q qty r =
    (left : Level) × (r ≡ some left) × Positive left × (sum (qtys left) +ℤ qty ≡ sum (qtys q))

Leaves-whole :
    (id : ℕ) (x qty : ℤ) (q : Level) (r : Option Level)
    → Leaves q (qty -ℤ x) r
    → Leaves ((id, x) ∷ q) qty r
Leaves-whole id x qty q r (left, e, positive, total) =
    (left, e, positive, omega (signed_laws, ap pos_part total, ap neg_part total))

consume_loop-Leaves :
    (f : ℕ) (q : Level) (qty : ℤ)
    → length q < f
    → Positive q
    → pos 0 ≤ℤ qty
    → qty ≤ℤ sum (qtys q)
    → InI64 (sum (qtys q))
    → Leaves q qty (consume_loop f q qty)
unfolding consume_loop
consume_loop-Leaves zero q qty l p n m w = absurd (omega arith)
consume_loop-Leaves (suc f) [] qty l p n m w = ([], refl, tt, omega signed_laws)
consume_loop-Leaves (suc f) ((id, x) ∷ q) qty l p n m w = elim (Bool-cases (ltb_ℤ (pos 0) qty)) [
  | inr stop ↦
      let nothing : qty ≡ pos 0 = ground arith in
      rw (nothing, consume_zero (suc f) ((id, x) ∷ q) (omega arith))
        ((id, x) ∷ q, refl, p, omega signed_laws)
  | inl go ↦ elim (Bool-cases (leb_ℤ x qty)) [
    | inl whole ↦
        let le : x ≤ℤ qty = ground arith in
        let rest = sum_level_nonneg q p.1 in
        rw (pass_whole f id x qty q p.0 le (omega signed_laws)) (
          Leaves-whole id x qty q _ (
            consume_loop-Leaves f q (qty -ℤ x) (omega arith) p.1 (omega signed_laws)
              (omega signed_laws) (omega (signed_laws, p.0))))
    | inr part ↦
        let lt : qty <ℤ x = ground arith in
        let some_qty : pos 0 <ℤ qty = ground arith in
        let rest = sum_level_nonneg q p.1 in
        (
          (id, x -ℤ qty) ∷ q,
          pass_part f id x qty q some_qty lt (omega signed_laws)
              ∙ consume_zero f ((id, x -ℤ qty) ∷ q) (omega arith),
          (omega signed_laws, p.1),
          omega signed_laws,
        )
  ]
]

-- From orders of positive quantities whose sum is a word, a quantity that is not negative and at
-- most the sum leaves orders of positive quantities, whose sum has gone down by exactly that
-- quantity.
pub consume_ahead_orders-total :
    (q : Level) (qty : ℤ)
    → Positive q
    → pos 0 ≤ℤ qty
    → qty ≤ℤ sum (qtys q)
    → InI64 (sum (qtys q))
    → Positive (consume_ahead_orders q qty)
      × (sum (qtys (consume_ahead_orders q qty)) +ℤ qty ≡ sum (qtys q))
unfolding consume_ahead_orders
consume_ahead_orders-total q qty p n m w =
    let (left, e, positive, total) =
      consume_loop-Leaves (length q + 1) q qty (omega arith) p n m w in
    rw (e, consume_ahead_orders) (positive, total)

sub_i64_self : (a : ℤ) → sub_i64 a a ≡ pos 0
sub_i64_self a =
    let zero : a -ℤ a ≡ pos 0 = eq_of_parts _ _ (omega int_laws) in
    rw zero (wrap_i64-eq (pos 0) (omega arith))

stops : (f : ℕ) (q : Level) → 0 < f → (left : Level) × (consume_loop f q (pos 0) ≡ some left)
stops f q h = (q, consume_zero f q h)

loop_ends :
    (f : ℕ) (q : Level) (qty : ℤ)
    → length q < f
    → (left : Level) × (consume_loop f q qty ≡ some left)
unfolding consume_loop
loop_ends zero q qty l = absurd (omega arith)
loop_ends (suc f) [] qty l = ([], refl)
loop_ends (suc f) ((id, x) ∷ q) qty l = elim (Bool-cases (ltb_ℤ (pos 0) qty)) [
  | inr stop ↦ rw (stop, consume_loop) ((id, x) ∷ q, refl)
  | inl go ↦ elim (Bool-cases (leb_ℤ x qty)) [
    | inl whole ↦
        rw (go, whole, consume_loop, sub_i64_self x) (loop_ends f q (sub_i64 qty x) (omega arith))
    | inr part ↦
        rw (go, part, consume_loop, sub_i64_self qty)
          (let rest = (if eqb_ℤ (sub_i64 x qty) (pos 0) then q else (id, sub_i64 x qty) ∷ q) in
            stops f rest (omega arith))
  ]
]

-- The loop of `consume_ahead_orders` ends within one test more than there are orders, for every
-- queue and quantity.
pub consume_loop-terminates :
    (q : Level) (qty : ℤ) → (left : Level) × (consume_loop (length q + 1) q qty ≡ some left)
consume_loop-terminates q qty = loop_ends (length q + 1) q qty (omega arith)
