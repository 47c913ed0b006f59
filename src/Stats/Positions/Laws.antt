-- ===== src/Stats/Positions/Laws.antt =====
-- backtester-core/src/stats.rs with account.rs: the statistics and the account keep the same positions
-- and realise the same PnL.
use crypto_rs_backtester.Prelude.{
  ℕ, ◌≡◌, refl, ap, ◌⊎◌, subst, inl, inr, List, [], ◌∷◌, map, arith, Bool-cases, eqb, eqb_iff, All,
  ◌≢◌,
}
use crypto_rs_backtester.Prelude.Int.{ℤ, pos, ◌≤ℤ◌, eqb_ℤ, leb_ℤ, neg, signum, eq_of_parts}
use crypto_rs_backtester.Prelude.I64.{wrap_i64, saturating_add}
use crypto_rs_backtester.Prelude.Keys.{nat_eq}
use crypto_rs_backtester.Collections.Map.{
  Map, get, get_or, insert, get_or-insert_self, get_or-insert_ne,
}
use crypto_rs_backtester.Types.{Order, Side}
use crypto_rs_backtester.Account.{
  Account, Position, default_position, position_or_default, put_position, fill_delta, adds,
  open_position, close_position, realised_pnl, on_fill,
}
use crypto_rs_backtester.Stats.{TradeFill, PosState, default_pos}
use crypto_rs_backtester.Stats.Positions.{
  fill_of_side, fill_qty, is_empty_fill, adds_to, add_to, close_from, close_pnl, fill_step,
  deltas_from, pnl_deltas_from_fills,
}

-- The same quantity at the same entry price.
abbrev pub SamePosition : Position → PosState → Type 0
SamePosition p s = (p.qty ≡ s.qty) × (p.avg_price ≡ s.avg_price)

-- The account and the statistics agree on every symbol.
abbrev pub SamePositions : Account → Map ℕ PosState → Type 0
SamePositions a states =
    (k : ℕ) → SamePosition (position_or_default k a) (get_or k default_pos states)

-- The order of a fill, as far as the account looks at it, with a quantity that is not negative.
pub record IsOrderOf (f : TradeFill) (o : Order) : Type 0 where
  pub same_side : o.side ≡ f.side
  pub same_symbol : o.symbol_id ≡ f.symbol_id
  pub qty_nonneg : pos 0 ≤ℤ f.qty

delta-fill_qty : (f : TradeFill) (o : Order) → IsOrderOf f o → fill_delta o f.qty ≡ fill_qty f
delta-fill_qty f o h = rw h.same_side refl

zero_qty : (side : Side) → fill_of_side side (pos 0) ≡ pos 0
unfolding wrap_i64 neg
zero_qty Side.buy = refl
zero_qty Side.sell = refl
zero_qty Side.none = refl

is_empty_fill-fill_qty :
    (f : TradeFill) → pos 0 ≤ℤ f.qty → is_empty_fill f ≡ eqb_ℤ (fill_qty f) (pos 0)
is_empty_fill-fill_qty f h = elim (Bool-cases (leb_ℤ f.qty (pos 0))) [
  | inr e ↦ rw e refl
  | inl e ↦
      let zero : f.qty ≡ pos 0 = eq_of_parts _ _ (ground arith) in
      rw (e, zero, zero_qty f.side) refl
]

module _ (f : TradeFill) (o : Order) (d : ℤ) (p : Position) (s : PosState)
    (same : SamePosition p s) where
  open_position-add_to : SamePosition (open_position o d f.price p) (add_to f d s)
  unfolding open_position add_to
  open_position-add_to = rw (same.0, same.1) (refl, refl)

  close_position-close_from : SamePosition (close_position o d f.price p) (close_from f d s)
  unfolding close_position close_from
  close_position-close_from = elim (Bool-cases (eqb_ℤ (saturating_add s.qty d) (pos 0))) [
    | inl e ↦ rw (same.0, e, close_position, close_from) (refl, refl)
    | inr e ↦ elim (Bool-cases (eqb_ℤ (signum (saturating_add s.qty d)) (signum s.qty))) [
      | inl k ↦ rw (same.0, e, k, close_position, close_from) (refl, same.1)
      | inr k ↦ rw (same.0, e, k, close_position, close_from) (refl, refl)
    ]
  ]

  realised_pnl-close_pnl : realised_pnl p d f.price ≡ close_pnl f d s
  realised_pnl-close_pnl = rw (same.0, same.1) refl

  adds-adds_to : adds p d ≡ adds_to s d
  adds-adds_to = rw same.0 refl

eq_or_ne : (k j : ℕ) → (k ≡ j) ⊎ (k ≢ j)
eq_or_ne k j = elim (Bool-cases (eqb k j)) [
  | inl e ↦ inl ((eqb_iff k j).0 e)
  | inr e ↦ inr (λ h. ground arith)
]

-- Both maps change at the symbol of the fill alone.
put-SamePositions :
    (k : ℕ) (p : Position) (s : PosState) (a : Account) (m : Map ℕ PosState)
    → SamePosition p s
    → SamePositions a m
    → SamePositions (put_position k p a) (insert k s m)
put-SamePositions k p s a m here rest j = elim (eq_or_ne k j) [
  | inl e ↦
      subst
        (λ i.
          SamePosition (position_or_default i (put_position k p a))
            (get_or i default_pos (insert k s m)))
        e
        (rw
          (
            get_or-insert_self k default_position p a.positions,
            get_or-insert_self k default_pos s m,
          )
          here)
  | inr n ↦
      rw
        (
          get_or-insert_ne k j default_position p a.positions n,
          get_or-insert_ne k j default_pos s m n,
        )
        (rest j)
]

-- A fill realises the same PnL in the account and in the statistics, and leaves the same positions.
on_fill-fill_step :
    (f : TradeFill) (o : Order) (a : Account) (m : Map ℕ PosState)
    → IsOrderOf f o
    → SamePositions a m
    → ((on_fill o f.qty f.price a).0 ≡ (fill_step f m).0.pnl)
      × SamePositions (on_fill o f.qty f.price a).1 (fill_step f m).1
unfolding on_fill fill_step
on_fill-fill_step f o a m h same =
    let d = fill_qty f in
    let s = get_or f.symbol_id default_pos m in
    let p = position_or_default f.symbol_id a in
    let here = same f.symbol_id in
    let adding = adds-adds_to f o d p s here in
    elim (Bool-cases (eqb_ℤ d (pos 0))) [
      | inl e ↦
          rw
            (
              delta-fill_qty f o h,
              h.same_symbol,
              is_empty_fill-fill_qty f h.qty_nonneg,
              e,
              on_fill,
              fill_step,
            )
            (refl, same)
      | inr e ↦ elim (Bool-cases (adds_to s d)) [
        | inl k ↦
            rw
              (
                delta-fill_qty f o h,
                h.same_symbol,
                is_empty_fill-fill_qty f h.qty_nonneg,
                e,
                adding,
                k,
                on_fill,
                fill_step,
              )
              (
                refl,
                put-SamePositions f.symbol_id _ _ a m (open_position-add_to f o d p s here) same,
              )
        | inr k ↦
            rw
              (
                delta-fill_qty f o h,
                h.same_symbol,
                is_empty_fill-fill_qty f h.qty_nonneg,
                e,
                adding,
                k,
                on_fill,
                fill_step,
              )
              (
                realised_pnl-close_pnl f o d p s here,
                put-SamePositions f.symbol_id _ _ a m (close_position-close_from f o d p s here)
                    same,
              )
      ]
    ]

-- The PnL of the fills, booked on the account one by one with their orders.
abbrev pub booked_pnl : List (TradeFill × Order) → Account → List ℤ
booked_pnl [] a = []
booked_pnl ((f, o) ∷ fs) a =
    (on_fill o f.qty f.price a).0 ∷ booked_pnl fs (on_fill o f.qty f.price a).1

booked_pnl-deltas_from :
    (fs : List (TradeFill × Order)) (a : Account) (m : Map ℕ PosState)
    → All (λ x. IsOrderOf x.0 x.1) fs
    → SamePositions a m
    → map (λ d. d.pnl) (deltas_from (map (λ x. x.0) fs) m) ≡ booked_pnl fs a
unfolding deltas_from
booked_pnl-deltas_from [] a m h same = refl
booked_pnl-deltas_from ((f, o) ∷ fs) a m h same =
    let (now, next) = on_fill-fill_step f o a m h.0 same in
    rw now (ap (◌∷◌ (fill_step f m).0.pnl) (booked_pnl-deltas_from fs _ _ h.1 next))

-- The PnL that the statistics reconstruct from a list of fills is, fill by fill, what an account with
-- no position yet realises on the orders of those fills, where no quantity is negative.
pub pnl_deltas_from_fills-booked_pnl :
    (fs : List (TradeFill × Order)) (total : ℤ)
    → All (λ x. IsOrderOf x.0 x.1) fs
    → map (λ d. d.pnl) (pnl_deltas_from_fills (map (λ x. x.0) fs))
      ≡ booked_pnl fs (record { positions = []; total_funding_pnl = total })
unfolding pnl_deltas_from_fills get_or get
pnl_deltas_from_fills-booked_pnl fs total h = booked_pnl-deltas_from fs _ [] h (λ k. (refl, refl))
