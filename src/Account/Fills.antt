-- ===== src/Account/Fills.antt =====
-- backtester-core/src/account.rs: what a fill does to the positions, on every branch of `on_fill`.
use crypto_rs_backtester.Prelude.{
  ℕ, ◌≡◌, refl, sym, ap, ◌∙◌, ◌≢◌, inl, inr, true, false, arith, Bool-cases, Option-cases,
}
use crypto_rs_backtester.Prelude.Int.{ℤ, pos, eqb_ℤ, eqb_ℤ_iff, ◌+ℤ◌, signum}
use crypto_rs_backtester.Prelude.I64.{InI64, saturating_add, sat_i64, sat_i64-InI64}
use crypto_rs_backtester.Prelude.Keys.{nat_eq}
use crypto_rs_backtester.Collections.Map.{
  get, get_or, get-insert_ne, get_or-insert_self, Every, Every-insert,
}
use crypto_rs_backtester.Types.{Order}
use crypto_rs_backtester.Account.{
  Account, Position, default_position, position, position_qty, position_or_default, put_position,
  fill_delta, adds, open_position, close_position, on_fill,
}

pub saturating_add-zero : (a b : ℤ) → InI64 a → b ≡ pos 0 → saturating_add a b ≡ a
unfolding ◌+ℤ◌ sat_i64
saturating_add-zero a b w e = rw e (ground arith)

-- The quantity after a close is the saturated sum on all three branches.
close_position-qty :
    (order : Order) (d price : ℤ) (p : Position)
    → (close_position order d price p).qty ≡ saturating_add p.qty d
unfolding close_position
close_position-qty order d price p = elim (Bool-cases (eqb_ℤ (saturating_add p.qty d) (pos 0))) [
  | inl e ↦ rw (e, close_position) (ground (arith, eqb_ℤ_iff (saturating_add p.qty d) (pos 0)))
  | inr e ↦ elim (Bool-cases (eqb_ℤ (signum (saturating_add p.qty d)) (signum p.qty))) [
    | inl s ↦ rw (e, s, close_position) refl
    | inr s ↦ rw (e, s, close_position) refl
  ]
]

position_qty-put :
    (k : ℕ) (p : Position) (a : Account) → position_qty k (put_position k p a) ≡ p.qty
unfolding position_qty
position_qty-put k p a = ap (λ q. q.qty) (get_or-insert_self k default_position p a.positions)

-- A fill adds its signed quantity, saturated, to the position of the order's symbol, which is a
-- word, and leaves the positions of the other symbols and the funding total.
pub on_fill-position_qty :
    (order : Order) (fill_qty price : ℤ) (a : Account)
    → InI64 (position_qty order.symbol_id a)
    → let a' = (on_fill order fill_qty price a).1 in
      (position_qty order.symbol_id a'
        ≡ saturating_add (position_qty order.symbol_id a) (fill_delta order fill_qty))
      × ((s : ℕ) → order.symbol_id ≢ s → position s a' ≡ position s a)
      × (a'.total_funding_pnl ≡ a.total_funding_pnl)
unfolding on_fill position position_qty open_position
on_fill-position_qty order f price a w =
    let d = fill_delta order f in
    let p = position_or_default order.symbol_id a in
    elim (Bool-cases (eqb_ℤ d (pos 0))) [
      | inl e ↦
          rw (e, on_fill)
            (
              sym (saturating_add-zero p.qty d w (ground (arith, eqb_ℤ_iff d (pos 0)))),
              λ s n. refl,
              refl,
            )
      | inr e ↦ elim (Bool-cases (adds p d)) [
        | inl k ↦
            rw (e, k, on_fill)
              (
                position_qty-put order.symbol_id (open_position order d price p) a,
                λ s n. get-insert_ne order.symbol_id s _ a.positions n,
                refl,
              )
        | inr k ↦
            rw (e, k, on_fill)
              (
                position_qty-put order.symbol_id (close_position order d price p) a
                    ∙ close_position-qty order d price p,
                λ s n. get-insert_ne order.symbol_id s _ a.positions n,
                refl,
              )
      ]
    ]

-- A position without quantity has no entry price; the quantity is a word.
pub record IsPosition (symbol : ℕ) (p : Position) : Type 0 where
  pub flat : p.qty ≡ pos 0 → p.avg_price ≡ pos 0
  pub qty_word : InI64 p.qty

abbrev pub IsAccount : Account → Type 0
IsAccount a = Every IsPosition a.positions

position_or_default-IsPosition :
    (k : ℕ) (a : Account) → IsAccount a → IsPosition k (position_or_default k a)
unfolding get_or
position_or_default-IsPosition k a v = elim (Option-cases (get k a.positions)) [
  | inl e ↦ rw (e, get_or) (record { flat = λ h. refl; qty_word = ground arith })
  | inr (p, e) ↦ rw (e, get_or) (v k p e)
]

added_nonzero :
    (p : Position) (d : ℤ)
    → eqb_ℤ d (pos 0) ≡ false
    → adds p d ≡ true
    → saturating_add p.qty d ≢ pos 0
unfolding ◌+ℤ◌ sat_i64
added_nonzero p d n h e = ground arith

open_position-IsPosition :
    (order : Order) (d price : ℤ) (p : Position) (k : ℕ)
    → eqb_ℤ d (pos 0) ≡ false
    → adds p d ≡ true
    → IsPosition k (open_position order d price p)
unfolding open_position
open_position-IsPosition order d price p k n h = record {
  flat = λ e. absurd (added_nonzero p d n h e);
  qty_word = sat_i64-InI64 (p.qty +ℤ d);
}

close_position-IsPosition :
    (order : Order) (d price : ℤ) (p : Position) (k : ℕ)
    → IsPosition k p
    → IsPosition k (close_position order d price p)
unfolding close_position
close_position-IsPosition order d price p k v =
    elim (Bool-cases (eqb_ℤ (saturating_add p.qty d) (pos 0))) [
      | inl e ↦ rw (e, close_position) (record { flat = λ h. refl; qty_word = ground arith })
      | inr e ↦ elim (Bool-cases (eqb_ℤ (signum (saturating_add p.qty d)) (signum p.qty))) [
        | inl s ↦
            rw (e, s, close_position)
              (record {
                flat = λ h. ground (arith, eqb_ℤ_iff (saturating_add p.qty d) (pos 0));
                qty_word = sat_i64-InI64 (p.qty +ℤ d);
              })
        | inr s ↦
            rw (e, s, close_position)
              (record {
                flat = λ h. ground (arith, eqb_ℤ_iff (saturating_add p.qty d) (pos 0));
                qty_word = sat_i64-InI64 (p.qty +ℤ d);
              })
      ]
    ]

-- On a valid account, every fill keeps each position's quantity a word, and its entry price zero
-- while it is flat.
pub on_fill-IsAccount :
    (order : Order) (fill_qty price : ℤ) (a : Account)
    → IsAccount a
    → IsAccount (on_fill order fill_qty price a).1
unfolding on_fill
on_fill-IsAccount order f price a v =
    let d = fill_delta order f in
    let p = position_or_default order.symbol_id a in
    let old = position_or_default-IsPosition order.symbol_id a v in
    elim (Bool-cases (eqb_ℤ d (pos 0))) [
      | inl e ↦ rw (e, on_fill) v
      | inr e ↦ elim (Bool-cases (adds p d)) [
        | inl k ↦
            rw (e, k, on_fill)
              (Every-insert IsPosition order.symbol_id _ a.positions
                (open_position-IsPosition order d price p order.symbol_id e k) v)
        | inr k ↦
            rw (e, k, on_fill)
              (Every-insert IsPosition order.symbol_id _ a.positions
                (close_position-IsPosition order d price p order.symbol_id old) v)
      ]
    ]
