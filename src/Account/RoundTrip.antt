-- ===== src/Account/RoundTrip.antt =====
-- backtester-core/src/account.rs: the realised PnL of a position that is opened by one fill and closed
-- by the opposite fill.
use crypto_rs_backtester.Prelude.{
  ℕ, suc, ◌-◌, ◌*◌, ◌≤◌, ◌<◌, ◌≡◌, refl, ap, ◌∙◌, inl, inr, if◌then◌else◌, true, false, arith,
  Bool-cases,
}
use crypto_rs_backtester.Prelude.Int.{
  ℤ, pos, negsuc, pos_part, neg_part, ◌+ℤ◌, ◌-ℤ◌, ◌*ℤ◌, neg, min_ℤ, div_trunc, eqb_ℤ, ltb_ℤ, abs,
  sub_ℕ, neg_parts, parts_eq,
}
use crypto_rs_backtester.Prelude.I64.{
  abs_i64, InI64, sat_i64, sat_i64-eq, sub_i64-eq, saturating_add,
}
use crypto_rs_backtester.Prelude.Keys.{nat_eq}
use crypto_rs_backtester.Collections.Map.{get_or-insert_self}
use crypto_rs_backtester.Types.{Order, scale}
use crypto_rs_backtester.Account.{
  Account, Position, default_position, weighted_avg, adds, realised_pnl, open_position,
  close_position, position_or_default, put_position, position_qty, on_fill, fill_delta,
}
use crypto_rs_backtester.Account.Realised.{abs_i64-eq, sat_i128-product}
use native.Mathlib.Nat

flat_sum :
    (avg price : ℤ) (y : ℕ)
    → avg *ℤ pos 0 +ℤ price *ℤ pos y ≡ sub_ℕ (pos_part price * y) (neg_part price * y)
unfolding ◌+ℤ◌ ◌*ℤ◌
flat_sum avg price y = ground arith

flat_quotient :
    (price : ℤ) (y : ℕ)
    → 0 < y
    → div_trunc (sub_ℕ (pos_part price * y) (neg_part price * y)) y ≡ price
unfolding div_trunc
flat_quotient (pos m) y n = ground (arith, Nat.mul-div_cancel m n)
flat_quotient (negsuc m) y n = ground (arith, Nat.mul-div_cancel (suc m) n)

-- The entry price of a position that was flat is the price of the fill.
weighted_avg-flat :
    (p : Position) (d price : ℤ)
    → p.qty ≡ pos 0
    → 0 < abs d
    → abs d ≤ 9223372036854775807
    → InI64 price
    → weighted_avg p d price ≡ price
unfolding ◌+ℤ◌
weighted_avg-flat p d price e n w hp =
    let positive : ltb_ℤ (pos 0) (pos 0 +ℤ pos (abs d)) ≡ true = ground arith in
    let whole : pos_part (pos 0 +ℤ pos (abs d)) ≡ abs d = ground arith in
    rw
      (
        e,
        abs_i64-eq (pos 0) (omega arith),
        abs_i64-eq d w,
        positive,
        whole,
        flat_sum p.avg_price price (abs d),
        flat_quotient price (abs d) n,
      )
      (sat_i64-eq price hp)

-- What a unit of a long or short position gains from the entry price to the exit price.
abbrev pub gain : ℤ → ℤ → ℤ → ℤ
gain qty entry exit = if ltb_ℤ (pos 0) qty then exit -ℤ entry else entry -ℤ exit

-- A fill against the whole of a position realises the price difference times its quantity.
realised_pnl-whole :
    (p : Position) (d price : ℤ) (q : ℕ)
    → abs p.qty ≡ suc q
    → abs d ≡ suc q
    → suc q ≤ 9223372036854775807
    → InI64 (price -ℤ p.avg_price)
    → InI64 (p.avg_price -ℤ price)
    → realised_pnl p d price
      ≡ sat_i64 (div_trunc (gain p.qty p.avg_price price *ℤ pos (suc q)) scale)
realised_pnl-whole p d price q hp hd w u v =
    let same : min_ℤ (abs_i64 p.qty) (abs_i64 d) ≡ pos (suc q) =
      rw (abs_i64-eq p.qty (omega arith), abs_i64-eq d (omega arith), hp, hd) (ground arith) in
    elim (Bool-cases (ltb_ℤ (pos 0) p.qty)) [
      | inl e ↦
          rw
            (
              e,
              same,
              sub_i64-eq price p.avg_price u,
              sat_i128-product (price -ℤ p.avg_price) (pos (suc q)) u (omega arith),
            )
            refl
      | inr e ↦
          rw
            (
              e,
              same,
              sub_i64-eq p.avg_price price v,
              sat_i128-product (p.avg_price -ℤ price) (pos (suc q)) v (omega arith),
            )
            refl
    ]

-- The first fill on a flat symbol: no PnL, and a position of the fill's quantity and price.
on_fill-opens :
    (o : Order) (f price : ℤ) (a : Account)
    → position_qty o.symbol_id a ≡ pos 0
    → 0 < abs (fill_delta o f)
    → abs (fill_delta o f) ≤ 9223372036854775807
    → InI64 price
    → (p : Position) × (on_fill o f price a ≡ (pos 0, put_position o.symbol_id p a))
      × (p.qty ≡ fill_delta o f)
      × (p.avg_price ≡ price)
unfolding on_fill position_qty open_position ◌+ℤ◌ sat_i64
on_fill-opens o f price a flat n w hp =
    let p = position_or_default o.symbol_id a in
    let d = fill_delta o f in
    let nonzero : eqb_ℤ d (pos 0) ≡ false = ground arith in
    let opens : adds p d ≡ true = rw flat refl in
    (
      open_position o d price p,
      rw (nonzero, opens, on_fill) refl,
      rw flat (ground arith),
      weighted_avg-flat p d price flat n w hp,
    )

-- The opposite fill: the whole difference is realised and the position is flat again.
on_fill-closes :
    (o : Order) (f price : ℤ) (a : Account) (p : Position) (q : ℕ)
    → neg p.qty ≡ fill_delta o f
    → abs (fill_delta o f) ≡ suc q
    → suc q ≤ 9223372036854775807
    → InI64 (price -ℤ p.avg_price)
    → InI64 (p.avg_price -ℤ price)
    → let r = on_fill o f price (put_position o.symbol_id p a) in
      (r.0 ≡ sat_i64 (div_trunc (gain p.qty p.avg_price price *ℤ pos (suc q)) scale))
      × (position_qty o.symbol_id r.1 ≡ pos 0)
unfolding on_fill position_qty close_position ◌+ℤ◌ sat_i64 neg
on_fill-closes o f price a p q opposite size w u v =
    let d = fill_delta o f in
    let there : position_or_default o.symbol_id (put_position o.symbol_id p a) ≡ p =
      get_or-insert_self o.symbol_id default_position p a.positions in
    let nonzero : eqb_ℤ d (pos 0) ≡ false = ground arith in
    let against : adds p d ≡ false = ground (arith, parts_eq opposite, neg_parts p.qty) in
    let none_left : saturating_add p.qty d ≡ pos 0 =
      ground (arith, parts_eq opposite, neg_parts p.qty) in
    let own : abs p.qty ≡ suc q = ground (arith, parts_eq opposite, neg_parts p.qty) in
    rw (there, nonzero, against, on_fill)
      (
        realised_pnl-whole p d price q own size w u v,
        ap (λ x. x.qty)
              (get_or-insert_self o.symbol_id default_position (close_position o d price p)
                (put_position o.symbol_id p a).positions)
            ∙ rw none_left refl,
      )

-- The closing fill on an account that holds the position.
closes_position :
    (c : Order) (g exit d entry : ℤ) (a b : Account) (p : Position)
    → b ≡ put_position c.symbol_id p a
    → p.qty ≡ d
    → p.avg_price ≡ entry
    → 0 < abs d
    → abs d ≤ 9223372036854775807
    → neg d ≡ fill_delta c g
    → InI64 (exit -ℤ entry)
    → InI64 (entry -ℤ exit)
    → let closed = on_fill c g exit b in
      (closed.0 ≡ sat_i64 (div_trunc (gain d entry exit *ℤ pos (abs d)) scale))
      × (position_qty c.symbol_id closed.1 ≡ pos 0)
closes_position c g exit d entry a b p held qty avg n w opposite u v =
    let second =
      on_fill-closes c g exit a p (abs d - 1) (rw qty opposite)
        (ground (arith, parts_eq opposite, neg_parts d)) (omega arith) (rw avg u) (rw avg v) in
    let size : suc (abs d - 1) ≡ abs d = omega arith in
    let priced : sat_i64 (div_trunc (gain p.qty p.avg_price exit *ℤ pos (suc (abs d - 1))) scale)
        ≡ sat_i64 (div_trunc (gain d entry exit *ℤ pos (abs d)) scale) =
      ap (λ x. sat_i64 (div_trunc (gain x p.avg_price exit *ℤ pos (suc (abs d - 1))) scale)) qty
      ∙ ap (λ x. sat_i64 (div_trunc (gain d x exit *ℤ pos (suc (abs d - 1))) scale)) avg
      ∙ ap (λ x. sat_i64 (div_trunc (gain d entry exit *ℤ pos x) scale)) size in
    (
      ap (λ x. (on_fill c g exit x).0) held ∙ second.0 ∙ priced,
      ap (λ x. position_qty c.symbol_id (on_fill c g exit x).1) held ∙ second.1,
    )

-- From a flat symbol, a fill that opens a position of a size from 1 to 2 ^ 63 - 1 realises nothing,
-- and a fill of the opposite quantity on the same symbol then realises the gain per unit from the
-- entry price to the exit price times the size, divided by the scale towards zero and clamped to a
-- word, and leaves the symbol flat; the entry price and both price differences are words.
pub on_fill_round_trip :
    (opening closing : Order) (f g entry exit : ℤ) (a : Account)
    → opening.symbol_id ≡ closing.symbol_id
    → position_qty opening.symbol_id a ≡ pos 0
    → 0 < abs (fill_delta opening f)
    → abs (fill_delta opening f) ≤ 9223372036854775807
    → neg (fill_delta opening f) ≡ fill_delta closing g
    → InI64 entry
    → InI64 (exit -ℤ entry)
    → InI64 (entry -ℤ exit)
    → let opened = on_fill opening f entry a in
      let closed = on_fill closing g exit opened.1 in
      (opened.0 ≡ pos 0)
      × (closed.0
          ≡ sat_i64 (
              div_trunc
                (gain (fill_delta opening f) entry exit *ℤ pos (abs (fill_delta opening f)))
                scale))
      × (position_qty closing.symbol_id closed.1 ≡ pos 0)
on_fill_round_trip o c f g entry exit a same flat n w opposite we u v =
    let (p, first, qty, avg) = on_fill-opens o f entry a flat n w we in
    let held : (on_fill o f entry a).1 ≡ put_position c.symbol_id p a =
      ap (λ r. r.1) first ∙ ap (λ k. put_position k p a) same in
    let closed =
      closes_position c g exit (fill_delta o f) entry a (on_fill o f entry a).1 p held qty avg n w
        opposite u v in
    (ap (λ r. r.0) first, closed.0, closed.1)
