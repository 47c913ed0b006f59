-- ===== src/OrderBook/L3/Invariant.antt =====
-- backtester-core/src/orderbook_l3.rs: what every update keeps, and what an error leaves.
use crypto_rs_backtester.Prelude.{
  ℕ, ◌≡◌, ◌≢◌, false, [], ◌∷◌, ◌++◌, arith, Result, err, eqb, Bool-cases, inl, inr, Option-cases,
  All, All-append,
}
use crypto_rs_backtester.Prelude.Int.{ℤ, pos, ◌<ℤ◌, eqb_ℤ, ltb_ℤ, leb_ℤ}
use crypto_rs_backtester.Prelude.Keys.{int_eq}
use crypto_rs_backtester.Collections.Map.{get, get_or, Every, Every-insert, Every-remove}
use crypto_rs_backtester.Types.{Side, side_beq, L3Update}
use crypto_rs_backtester.OrderBook.L3.{
  OrderBookL3, Level, Levels, L3Error, l3_add, l3_modify, l3_delete, retain, set_qty, put_level,
  add_order, modify_order, delete_order, on_side, apply_l3,
}

-- A stored level holds an order, and every order in it has a positive quantity.
abbrev pub IsLevel : ℤ → Level → Type 0
IsLevel price queue = (queue ≢ []) × All (λ o. pos 0 <ℤ o.1) queue

abbrev pub IsLevels : Levels → Type 0
IsLevels = Every IsLevel

pub record IsValid (b : OrderBookL3) : Type 0 where
  pub bids_valid : IsLevels b.bids
  pub asks_valid : IsLevels b.asks

retain-positive :
    (id : ℕ) (q : Level) → All (λ o. pos 0 <ℤ o.1) q → All (λ o. pos 0 <ℤ o.1) (retain id q)
unfolding retain
retain-positive id [] h = tt
retain-positive id ((i, x) ∷ q) h = ground (arith, retain-positive id q h.1)

set_qty-positive :
    (id : ℕ) (x : ℤ) (q : Level)
    → pos 0 <ℤ x
    → All (λ o. pos 0 <ℤ o.1) q
    → All (λ o. pos 0 <ℤ o.1) (set_qty id x q)
unfolding set_qty
set_qty-positive id x [] p h = tt
set_qty-positive id x ((i, y) ∷ q) p h = ground (arith, set_qty-positive id x q p h.1)

put_level-IsLevels :
    (p : ℤ) (q : Level) (m : Levels)
    → All (λ o. pos 0 <ℤ o.1) q
    → IsLevels m
    → IsLevels (put_level p q m)
unfolding put_level
put_level-IsLevels p [] m h v = Every-remove IsLevel p m v
put_level-IsLevels p (o ∷ os) m h v = Every-insert IsLevel p (o ∷ os) m ((λ e. cc), h) v

add_order-IsLevels :
    (u : L3Update) (m : Levels) → pos 0 <ℤ u.qty → IsLevels m → IsLevels (add_order u m)
unfolding add_order get_or
add_order-IsLevels u m p v = elim (Option-cases (get u.price m)) [
  | inl e ↦ rw (e, add_order, get_or) (Every-insert IsLevel u.price _ m ((λ c. cc), (p, tt)) v)
  | inr (q, e) ↦
      rw (e, add_order, get_or)
        (Every-insert IsLevel u.price _ m
          (append_ne q, All-append (λ o. pos 0 <ℤ o.1) q _ (v u.price q e).1 (p, tt)) v)
]
  where
    append_ne : (q : Level) → q ++ (u.order_id, u.qty) ∷ [] ≢ []
    append_ne [] c = cc
    append_ne (o ∷ os) c = cc

modify_order-IsLevels :
    (u : L3Update) (m : Levels)
    → ltb_ℤ u.qty (pos 0) ≡ false
    → IsLevels m
    → IsLevels (modify_order u m)
unfolding modify_order
modify_order-IsLevels u m p v = elim (Option-cases (get u.price m)) [
  | inl e ↦ rw (e, modify_order) v
  | inr (q, e) ↦ elim (Bool-cases (eqb_ℤ u.qty (pos 0))) [
    | inl z ↦
        rw (e, modify_order, z)
          (put_level-IsLevels u.price _ m (retain-positive u.order_id q (v u.price q e).1) v)
    | inr z ↦
        rw (e, modify_order, z)
          (put_level-IsLevels u.price _ m
            (set_qty-positive u.order_id u.qty q (ground arith) (v u.price q e).1) v)
  ]
]

delete_order-IsLevels : (u : L3Update) (m : Levels) → IsLevels m → IsLevels (delete_order u m)
unfolding delete_order
delete_order-IsLevels u m v = elim (Option-cases (get u.price m)) [
  | inl e ↦ rw (e, delete_order) v
  | inr (q, e) ↦
      rw (e, delete_order)
        (put_level-IsLevels u.price _ m (retain-positive u.order_id q (v u.price q e).1) v)
]

on_side-IsValid :
    (s : Side) (change : Levels → Levels) (b : OrderBookL3)
    → ((m : Levels) → IsLevels m → IsLevels (change m))
    → IsValid b
    → IsValid (on_side s change b).1
unfolding on_side
on_side-IsValid Side.buy change b c v = record {
  bids_valid = c b.bids v.bids_valid;
  asks_valid = v.asks_valid;
}
on_side-IsValid Side.sell change b c v = record {
  bids_valid = v.bids_valid;
  asks_valid = c b.asks v.asks_valid;
}
on_side-IsValid Side.none change b c v = v

-- An update is refused, or it adds, modifies or deletes an order on its side.
apply_l3_cases {ℓ} :
    (P : Result (Unit {0}) L3Error × OrderBookL3 → Type ℓ) (u : L3Update) (b : OrderBookL3)
    → ((e : L3Error) → P (err e, b))
    → (pos 0 <ℤ u.qty → P (on_side u.side (add_order u) b))
    → (ltb_ℤ u.qty (pos 0) ≡ false → P (on_side u.side (modify_order u) b))
    → P (on_side u.side (delete_order u) b)
    → P (apply_l3 u b)
unfolding apply_l3
apply_l3_cases P u b refused add modify delete = elim (Bool-cases (side_beq u.side Side.none)) [
  | inl s ↦ rw (s, apply_l3) (refused _)
  | inr s ↦ elim (Bool-cases (eqb u.action l3_add)) [
    | inl a ↦ elim (Bool-cases (leb_ℤ u.qty (pos 0))) [
      | inl q ↦ rw (s, a, q, apply_l3) (refused _)
      | inr q ↦ rw (s, a, q, apply_l3) (add (ground arith))
    ]
    | inr a ↦ elim (Bool-cases (eqb u.action l3_modify)) [
      | inl m ↦ elim (Bool-cases (ltb_ℤ u.qty (pos 0))) [
        | inl q ↦ rw (s, a, m, q, apply_l3) (refused _)
        | inr q ↦ rw (s, a, m, q, apply_l3) (modify q)
      ]
      | inr m ↦ elim (Bool-cases (eqb u.action l3_delete)) [
        | inl d ↦ rw (s, a, m, d, apply_l3) delete
        | inr d ↦ rw (s, a, m, d, apply_l3) (refused _)
      ]
    ]
  ]
]

-- An update keeps the book valid: no level is left empty and every resting quantity is positive.
pub apply_l3-IsValid : (u : L3Update) (b : OrderBookL3) → IsValid b → IsValid (apply_l3 u b).1
apply_l3-IsValid u b v =
    apply_l3_cases (λ r. IsValid r.1) u b (λ e. v)
      (λ p. on_side-IsValid u.side (add_order u) b (λ m. add_order-IsLevels u m p) v)
      (λ p. on_side-IsValid u.side (modify_order u) b (λ m. modify_order-IsLevels u m p) v)
      (on_side-IsValid u.side (delete_order u) b (delete_order-IsLevels u) v)

-- An update that is refused leaves the book as it was.
pub apply_l3-err :
    (u : L3Update) (b : OrderBookL3) (e : L3Error) → (apply_l3 u b).0 ≡ err e → (apply_l3 u b).1 ≡ b
unfolding apply_l3
apply_l3-err u b e h = ground arith
