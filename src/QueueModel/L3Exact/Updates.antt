-- ===== src/QueueModel/L3Exact/Updates.antt =====
-- backtester-core/src/queue_model.rs: venue updates of the orders ahead keep the state of
-- `L3ExactQueue` consistent.
use crypto_rs_backtester.Prelude.{
  ℕ, ◌≡◌, refl, inl, inr, some, [], ◌∷◌, arith, Bool-cases, Option-cases, sym, ◌∙◌, ap, eqb, All,
  not, ◌||◌,
}
use crypto_rs_backtester.Prelude.Int.{
  ℤ, pos, ◌≤ℤ◌, ◌<ℤ◌, ltb_ℤ, eqb_ℤ, ◌-ℤ◌, ◌+ℤ◌, max_ℤ, sum, int_laws, signed_laws, eq_of_parts,
  parts_eq,
}
use crypto_rs_backtester.Prelude.I64.{InI64, sat_i64, sat_i64-eq}
use crypto_rs_backtester.Types.{Order, L3Update, side_beq}
use crypto_rs_backtester.OrderBook.L3.{Level, qtys, set_qty, l3_modify, l3_delete}
use crypto_rs_backtester.QueueModel.L3Exact.{
  State, find_qty, remove_first, retain_positive, remove_ahead_order, modify_ahead_order,
  on_l3_update,
}
use crypto_rs_backtester.QueueModel.L3Exact.Consume.{Positive, sum_level_nonneg}
use crypto_rs_backtester.QueueModel.L3Exact.Fill.{IsState}

remove_first-sum :
    (id : ℕ) (x : ℤ) (q : Level)
    → find_qty id q ≡ some x
    → Positive q
    → Positive (remove_first id q)
      × (pos 0 <ℤ x)
      × (sum (qtys (remove_first id q)) +ℤ x ≡ sum (qtys q))
unfolding find_qty remove_first
remove_first-sum id x [] e p = cc
remove_first-sum id x ((i, y) ∷ q) e p = elim (Bool-cases (eqb i id)) [
  | inl h ↦
      let same : y ≡ x = ground arith in
      rw (h, remove_first, same) (p.1, rw same at p.0, omega int_laws)
  | inr h ↦
      let (ps, px, total) = remove_first-sum id x q (ground arith) p.1 in
      rw (h, remove_first) ((p.0, ps), px, eq_of_parts _ _ (omega (int_laws, parts_eq total)))
]

set_qty-sum :
    (id : ℕ) (x y : ℤ) (q : Level)
    → find_qty id q ≡ some x
    → sum (qtys (set_qty id y q)) +ℤ x ≡ sum (qtys q) +ℤ y
unfolding find_qty set_qty
set_qty-sum id x y [] e = cc
set_qty-sum id x y ((i, z) ∷ q) e = elim (Bool-cases (eqb i id)) [
  | inl h ↦
      let same : z ≡ x = ground arith in rw (h, set_qty, same) (eq_of_parts _ _ (omega int_laws))
  | inr h ↦
      let total = set_qty-sum id x y q (ground arith) in
      rw (h, set_qty) (eq_of_parts _ _ (omega (int_laws, parts_eq total)))
]

weaken : (q : Level) → Positive q → All (λ o. pos 0 ≤ℤ o.1) q
weaken [] p = tt
weaken (o ∷ q) p = (omega (arith, p.0), weaken q p.1)

set_qty-nonneg :
    (id : ℕ) (y : ℤ) (q : Level)
    → pos 0 ≤ℤ y
    → Positive q
    → All (λ o. pos 0 ≤ℤ o.1) (set_qty id y q)
unfolding set_qty
set_qty-nonneg id y [] h p = tt
set_qty-nonneg id y ((i, z) ∷ q) h p = ground (arith, set_qty-nonneg id y q h p.1, weaken q p.1)

set_qty-Positive :
    (id : ℕ) (y : ℤ) (q : Level) → pos 0 <ℤ y → Positive q → Positive (set_qty id y q)
unfolding set_qty
set_qty-Positive id y [] h p = tt
set_qty-Positive id y ((i, z) ∷ q) h p = ground (arith, set_qty-Positive id y q h p.1)

-- Dropping the orders of no quantity changes no total.
retain_positive-sum :
    (q : Level)
    → All (λ o. pos 0 ≤ℤ o.1) q
    → Positive (retain_positive q) × (sum (qtys (retain_positive q)) ≡ sum (qtys q))
unfolding retain_positive
retain_positive-sum [] h = (tt, refl)
retain_positive-sum ((i, x) ∷ q) h =
    let (p, total) = retain_positive-sum q h.1 in
    elim (Bool-cases (ltb_ℤ (pos 0) x)) [
      | inl e ↦ rw (e, retain_positive) ((ground arith, p), ap (λ t. x +ℤ t) total)
      | inr e ↦
          let zero : x ≡ pos 0 = ground arith in
          rw (e, retain_positive, zero) (p, eq_of_parts _ _ (omega (int_laws, parts_eq total)))
    ]

remove_ahead_order-IsState : (s : State) (id : ℕ) → IsState s → IsState (remove_ahead_order s id)
unfolding remove_ahead_order
remove_ahead_order-IsState s id v = elim (Option-cases (find_qty id s.ahead_orders)) [
  | inl e ↦ rw (e, remove_ahead_order) v
  | inr (x, e) ↦
      let (p, px, total) = remove_first-sum id x s.ahead_orders e v.positive in
      let rest = sum_level_nonneg (remove_first id s.ahead_orders) p in
      let left : s.qty_ahead -ℤ x ≡ sum (qtys (remove_first id s.ahead_orders)) =
        eq_of_parts _ _ (omega (int_laws, parts_eq total, parts_eq v.total)) in
      let fits : InI64 (s.qty_ahead -ℤ x) =
        omega (signed_laws, parts_eq total, parts_eq v.total, v.word.0, v.word.1) in
      let exact = sat_i64-eq (s.qty_ahead -ℤ x) fits in
      rw (e, remove_ahead_order)
        (record { positive = p; total = exact ∙ left; word = rw exact fits })
]

module _ (s : State) (id : ℕ) (y : ℤ) (v : IsState s) (n : pos 0 ≤ℤ y) where
  -- The quantities after the change, and the running total, without wrap or saturation.
  modified_total :
      (x : ℤ)
      → find_qty id s.ahead_orders ≡ some x
      → InI64 (sum (qtys (set_qty id y s.ahead_orders)))
      → sat_i64 (sat_i64 (s.qty_ahead -ℤ x) +ℤ y) ≡ sum (qtys (set_qty id y s.ahead_orders))
  modified_total x e w =
      let (p, px, total) = remove_first-sum id x s.ahead_orders e v.positive in
      let rest = sum_level_nonneg (remove_first id s.ahead_orders) p in
      let changed = set_qty-sum id x y s.ahead_orders e in
      let new_total = sum (qtys (set_qty id y s.ahead_orders)) in
      let down =
        sat_i64-eq (s.qty_ahead -ℤ x)
          (omega (signed_laws, parts_eq total, parts_eq v.total, v.word.0, v.word.1)) in
      let sum_eq : s.qty_ahead -ℤ x +ℤ y ≡ new_total =
        eq_of_parts _ _ (omega (int_laws, parts_eq changed, parts_eq v.total)) in
      rw (down, sum_eq) (sat_i64-eq new_total w)

  modify_ahead_order-IsState :
      InI64 (sum (qtys (set_qty id y s.ahead_orders))) → IsState (modify_ahead_order s id y)
  unfolding modify_ahead_order
  modify_ahead_order-IsState w = elim (Option-cases (find_qty id s.ahead_orders)) [
    | inl e ↦ rw (e, modify_ahead_order) v
    | inr (x, e) ↦ elim (Bool-cases (eqb_ℤ y (pos 0))) [
      | inl z ↦
          let (p, same) =
            retain_positive-sum (set_qty id y s.ahead_orders)
              (set_qty-nonneg id y s.ahead_orders n v.positive) in
          rw (e, modify_ahead_order, z)
            (record {
              positive = p;
              total = modified_total x e w ∙ sym same;
              word = rw (modified_total x e w) w;
            })
      | inr z ↦
          rw (e, modify_ahead_order, z)
            (record {
              positive = set_qty-Positive id y s.ahead_orders (ground arith) v.positive;
              total = modified_total x e w;
              word = rw (modified_total x e w) w;
            })
    ]
  ]

-- An update passes the order by, or removes or modifies an order ahead.
update_cases :
    (P : State → Type 0) (o : Order) (s : State) (u : L3Update)
    → P s
    → P (remove_ahead_order s u.order_id)
    → P (modify_ahead_order s u.order_id (max_ℤ u.qty (pos 0)))
    → P (on_l3_update o s u)
unfolding on_l3_update
update_cases P o s u same removed modified =
    elim (Bool-cases (
      not (eqb u.symbol_id o.symbol_id)
      || (not (side_beq u.side o.side) || not (eqb_ℤ u.price o.price)))) [
        | inl e ↦ rw (e, on_l3_update) same
        | inr e ↦ elim (Bool-cases (eqb u.action l3_delete)) [
          | inl d ↦ rw (e, d, on_l3_update) removed
          | inr d ↦ elim (Bool-cases (eqb u.action l3_modify)) [
            | inl m ↦ rw (e, d, m, on_l3_update) modified
            | inr m ↦ rw (e, d, m, on_l3_update) same
          ]
        ]
      ]

-- A venue update keeps the orders ahead positive and the running total equal to their sum, provided
-- that the sum with the update's quantity in place of the order's fits a word.
pub on_l3_update-IsState :
    (o : Order) (s : State) (u : L3Update)
    → IsState s
    → InI64 (sum (qtys (set_qty u.order_id (max_ℤ u.qty (pos 0)) s.ahead_orders)))
    → IsState (on_l3_update o s u)
unfolding on_l3_update
on_l3_update-IsState o s u v w =
    update_cases IsState o s u v (remove_ahead_order-IsState s u.order_id v)
      (modify_ahead_order-IsState s u.order_id (max_ℤ u.qty (pos 0)) v (ground arith) w)
