-- ===== src/OrderBook/L3/Laws.antt =====
-- backtester-core/src/orderbook_l3.rs: what an update does to the queue of each price.
use crypto_rs_backtester.Prelude.{
  ℕ, ◌≡◌, refl, ◌≢◌, ◌&&◌, [], ◌∷◌, ◌++◌, arith, ok, eqb, eqb_iff, if◌then◌else◌, Bool-cases, All,
  inl, inr, Option-cases, ap, ◌∙◌,
}
use crypto_rs_backtester.Prelude.Int.{ℤ, pos, eqb_ℤ, eqb_ℤ_iff}
use crypto_rs_backtester.Prelude.I64.{sum_i64, sum_from-append, add_i64}
use crypto_rs_backtester.Prelude.Keys.{int_eq}
use crypto_rs_backtester.Collections.Map.{
  get, get_or, get_or-insert_self, get_or-insert_ne, get_or-remove_self, get_or-remove_ne,
}
use crypto_rs_backtester.Types.{Side, side_beq, side_beq_iff, L3Update}
use crypto_rs_backtester.OrderBook.L3.{
  OrderBookL3, Level, Levels, l3_add, l3_modify, retain, set_qty, put_level, add_order,
  modify_order, delete_order, on_side, apply_l3, level, level_qty, ahead_of, orders_ahead, qtys,
}

get_or-put_level :
    (p j : ℤ) (q : Level) (m : Levels)
    → get_or j [] (put_level p q m) ≡ (if eqb_ℤ p j then q else get_or j [] m)
unfolding put_level
get_or-put_level p j [] m =
    ground (arith, eqb_ℤ_iff p j, get_or-remove_self p [] m, get_or-remove_ne p j [] m)
get_or-put_level p j (o ∷ os) m =
    ground
      (arith, eqb_ℤ_iff p j, get_or-insert_self p [] (o ∷ os) m, get_or-insert_ne p j [] (o ∷ os) m)

-- What an accepted update makes of the queue at its price.
abbrev pub change : L3Update → Level → Level
change u q =
    if eqb u.action l3_add
    then q ++ (u.order_id, u.qty) ∷ []
    else if eqb u.action l3_modify
    then (if eqb_ℤ u.qty (pos 0) then retain u.order_id q else set_qty u.order_id u.qty q)
    else retain u.order_id q

get_or-add_order :
    (u : L3Update) (m : Levels) (j : ℤ)
    → get_or j [] (add_order u m)
      ≡ (if eqb_ℤ u.price j then get_or j [] m ++ (u.order_id, u.qty) ∷ [] else get_or j [] m)
unfolding add_order
get_or-add_order u m j =
    let q = get_or u.price [] m ++ (u.order_id, u.qty) ∷ [] in
    ground (
      arith,
      eqb_ℤ_iff u.price j,
      get_or-insert_self u.price [] q m,
      get_or-insert_ne u.price j [] q m,
    )

get_or-modify_order :
    (u : L3Update) (m : Levels) (j : ℤ)
    → get_or j [] (modify_order u m) ≡ (
        if eqb_ℤ u.price j
        then (if eqb_ℤ u.qty (pos 0)
            then retain u.order_id (get_or j [] m)
            else set_qty u.order_id u.qty (get_or j [] m))
        else get_or j [] m)
unfolding modify_order get_or get set_qty retain
get_or-modify_order u m j = elim (Option-cases (get u.price m)) [
  | inl e ↦ ground (arith, e, eqb_ℤ_iff u.price j)
  | inr (q, e) ↦ ground (
    arith,
    e,
    eqb_ℤ_iff u.price j,
    get_or-put_level u.price j (retain u.order_id q) m,
    get_or-put_level u.price j (set_qty u.order_id u.qty q) m,
  )
]

get_or-delete_order :
    (u : L3Update) (m : Levels) (j : ℤ)
    → get_or j [] (delete_order u m)
      ≡ (if eqb_ℤ u.price j then retain u.order_id (get_or j [] m) else get_or j [] m)
unfolding delete_order get_or get retain
get_or-delete_order u m j = elim (Option-cases (get u.price m)) [
  | inl e ↦ ground (arith, e, eqb_ℤ_iff u.price j)
  | inr (q, e) ↦
      ground (arith, e, eqb_ℤ_iff u.price j, get_or-put_level u.price j (retain u.order_id q) m)
]

pub level-apply_l3 :
    (u : L3Update) (b : OrderBookL3) (s : Side) (p : ℤ)
    → (apply_l3 u b).0 ≡ ok tt
    → level (apply_l3 u b).1 s p
      ≡ (if side_beq u.side s && eqb_ℤ u.price p then change u (level b s p) else level b s p)
unfolding apply_l3 level on_side
level-apply_l3 u b s p h = ground (
  arith,
  get_or-add_order u b.bids p,
  get_or-add_order u b.asks p,
  get_or-modify_order u b.bids p,
  get_or-modify_order u b.asks p,
  get_or-delete_order u b.bids p,
  get_or-delete_order u b.asks p,
)

qtys-append : (xs ys : Level) → qtys (xs ++ ys) ≡ qtys xs ++ qtys ys
qtys-append [] ys = refl
qtys-append (x ∷ xs) ys = ap (◌∷◌ x.1) (qtys-append xs ys)

-- A new order raises the quantity of its level by its own.
pub level_qty-add :
    (u : L3Update) (b : OrderBookL3)
    → u.action ≡ l3_add
    → (apply_l3 u b).0 ≡ ok tt
    → level_qty (apply_l3 u b).1 u.side u.price ≡ add_i64 (level_qty b u.side u.price) u.qty
unfolding level_qty
level_qty-add u b a h =
    let order : Level = (u.order_id, u.qty) ∷ [] in
    let old : Level = level b u.side u.price in
    let grown : level (apply_l3 u b).1 u.side u.price ≡ old ++ order = ground (
      arith,
      a,
      level-apply_l3 u b u.side u.price h,
      side_beq_iff u.side u.side,
      eqb_ℤ_iff u.price u.price,
      eqb_iff l3_add l3_add,
    ) in
    ap (λ q. sum_i64 (qtys q)) grown
    ∙ ap sum_i64 (qtys-append old order)
    ∙ sum_from-append (pos 0) (qtys old) (qtys order)

-- The queue is nothing, or its first order has the id.
abbrev pub Starts : ℕ → Level → Type 0
Starts id [] = Unit
Starts id ((i, x) ∷ q) = i ≡ id

ahead_of-split :
    (id : ℕ) (q : Level)
    → (rest : Level) × (q ≡ ahead_of id q ++ rest)
      × All (λ o. o.0 ≢ id) (ahead_of id q)
      × Starts id rest
unfolding ahead_of
ahead_of-split id [] = ([], refl, tt, tt)
ahead_of-split id ((i, x) ∷ q) = elim (Bool-cases (eqb i id)) [
  | inl e ↦ rw (e, ahead_of) ((i, x) ∷ q, refl, tt, ground arith)
  | inr e ↦
      let (rest, split, others, starts) = ahead_of-split id q in
      rw (e, ahead_of) (rest, ap (◌∷◌ (i, x)) split, (ground arith, others), starts)
]

-- The orders ahead of an order at a price are the part of the queue before the order: what follows
-- them begins with the order, or there is no such order and nothing follows.
pub orders_ahead-split :
    (b : OrderBookL3) (s : Side) (p : ℤ) (id : ℕ)
    → (rest : Level) × (level b s p ≡ orders_ahead b s p id ++ rest)
      × All (λ o. o.0 ≢ id) (orders_ahead b s p id)
      × Starts id rest
unfolding orders_ahead
orders_ahead-split b s p id = ahead_of-split id (level b s p)
