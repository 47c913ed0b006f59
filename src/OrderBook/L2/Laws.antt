-- ===== src/OrderBook/L2/Laws.antt =====
-- backtester-core/src/orderbook_l2.rs: an update sets one level, and the best quotes are the extreme
-- prices with a quantity.
use crypto_rs_backtester.Prelude.{
  ◌≡◌, refl, ◌≢◌, ◌&&◌, Option, none, some, arith, if◌then◌else◌, Bool-cases, inl, inr,
  Option-cases,
}
use crypto_rs_backtester.Prelude.Int.{ℤ, pos, ◌≤ℤ◌, eqb_ℤ, eqb_ℤ_iff}
use crypto_rs_backtester.Prelude.Keys.{int_eq}
use crypto_rs_backtester.Collections.Map.{
  Map, get, get_or, first, last, Every, Every-insert, Every-remove, get-insert, get-remove,
}
use crypto_rs_backtester.Collections.Map.Extremes.{
  first-get, first-le, first-none, last-get, last-ge, last-none,
}
use crypto_rs_backtester.Types.{Side, side_beq, L2Update}
use crypto_rs_backtester.OrderBook.L2.{
  OrderBookL2, new, set_level, apply_l2, level_qty, best_bid, best_ask,
}

get_or-set_level :
    (u : L2Update) (m : Map ℤ ℤ) (p : ℤ)
    → get_or p (pos 0) (set_level u m) ≡ (if eqb_ℤ u.price p then u.qty else get_or p (pos 0) m)
unfolding set_level get_or
get_or-set_level u m p = elim (Bool-cases (eqb_ℤ u.qty (pos 0))) [
  | inl e ↦ ground (arith, get-remove u.price p m, eqb_ℤ_iff u.qty (pos 0))
  | inr e ↦ ground (arith, get-insert u.price p u.qty m)
]

-- After an update that names a side, the level that it names has its quantity, zero after a
-- removal, and every other level has the quantity from before.
pub level_qty-apply_l2 :
    (u : L2Update) (b : OrderBookL2) (s : Side) (p : ℤ)
    → u.side ≢ Side.none
    → level_qty (apply_l2 u b) s p
      ≡ (if side_beq u.side s && eqb_ℤ u.price p then u.qty else level_qty b s p)
unfolding apply_l2 level_qty
level_qty-apply_l2 u b s p h =
    ground (arith, get_or-set_level u b.bids p, get_or-set_level u b.asks p)

-- No level is stored with quantity zero.
pub record IsValid (b : OrderBookL2) : Type 0 where
  pub bids_nonzero : Every (λ p q. q ≢ pos 0) b.bids
  pub asks_nonzero : Every (λ p q. q ≢ pos 0) b.asks

set_level-nonzero :
    (u : L2Update) (m : Map ℤ ℤ)
    → Every (λ p q. q ≢ pos 0) m
    → Every (λ p q. q ≢ pos 0) (set_level u m)
unfolding set_level
set_level-nonzero u m h = elim (Bool-cases (eqb_ℤ u.qty (pos 0))) [
  | inl e ↦ rw e (Every-remove (λ p q. q ≢ pos 0) u.price m h)
  | inr e ↦ rw e (Every-insert (λ p q. q ≢ pos 0) u.price u.qty m (ground arith) h)
]

apply_l2-side :
    (s : Side) (u : L2Update) (b : OrderBookL2) → u.side ≡ s → IsValid b → IsValid (apply_l2 u b)
unfolding apply_l2
apply_l2-side Side.buy u b e v =
    rw (e, apply_l2)
      (record {
        bids_nonzero = set_level-nonzero u b.bids v.bids_nonzero;
        asks_nonzero = v.asks_nonzero;
      })
apply_l2-side Side.sell u b e v =
    rw (e, apply_l2)
      (record {
        bids_nonzero = v.bids_nonzero;
        asks_nonzero = set_level-nonzero u b.asks v.asks_nonzero;
      })
apply_l2-side Side.none u b e v = rw (e, apply_l2) v

pub apply_l2-IsValid : (u : L2Update) (b : OrderBookL2) → IsValid b → IsValid (apply_l2 u b)
apply_l2-IsValid u b v = apply_l2-side u.side u b refl v

pub new-IsValid : IsValid new
unfolding new get
new-IsValid = record { bids_nonzero = λ p q e. cc; asks_nonzero = λ p q e. cc }

-- A quote of a side: the price has that quantity, not zero, and every price at which the side shows a
-- quantity is no better.
abbrev pub IsTopQuote : OrderBookL2 → Side → (ℤ → ℤ → Type 0) → Option (ℤ × ℤ) → Type 0
IsTopQuote b s Worse none = (p : ℤ) → level_qty b s p ≡ pos 0
IsTopQuote b s Worse (some (p, q)) =
    (level_qty b s p ≡ q) × (q ≢ pos 0) × ((j : ℤ) → level_qty b s j ≢ pos 0 → Worse j p)

best_bid-IsTopQuote :
    (b : OrderBookL2) (o : Option (ℤ × ℤ))
    → last b.bids ≡ o
    → IsValid b
    → IsTopQuote b Side.buy (λ j p. j ≤ℤ p) o
unfolding level_qty get_or get
best_bid-IsTopQuote b none e v = λ p. rw (last-none b.bids e, level_qty)
best_bid-IsTopQuote b (some (p, q)) e v =
    let g = last-get b.bids p q e in
    (
      ground (arith, g),
      v.bids_nonzero p q g,
      λ j n. elim (Option-cases (get j b.bids)) [
        | inl a ↦ absurd (n (ground (arith, a)))
        | inr (w, a) ↦ last-ge b.bids p q e j w a
      ],
    )

best_ask-IsTopQuote :
    (b : OrderBookL2) (o : Option (ℤ × ℤ))
    → first b.asks ≡ o
    → IsValid b
    → IsTopQuote b Side.sell (λ j p. p ≤ℤ j) o
unfolding level_qty get_or get
best_ask-IsTopQuote b none e v = λ p. rw (first-none b.asks e, level_qty)
best_ask-IsTopQuote b (some (p, q)) e v =
    let g = first-get b.asks p q e in
    (
      ground (arith, g),
      v.asks_nonzero p q g,
      λ j n. elim (Option-cases (get j b.asks)) [
        | inl a ↦ absurd (n (ground (arith, a)))
        | inr (w, a) ↦ first-le b.asks p q e j w a
      ],
    )

-- In a valid book the best bid is the highest price with bids, the best ask the lowest price with
-- asks, each with the quantity of its level, and there is none exactly on an empty side.
pub best_bid-best_ask-IsTopQuote :
    (b : OrderBookL2)
    → IsValid b
    → IsTopQuote b Side.buy (λ j p. j ≤ℤ p) (best_bid b)
      × IsTopQuote b Side.sell (λ j p. p ≤ℤ j) (best_ask b)
unfolding best_bid best_ask
best_bid-best_ask-IsTopQuote b v =
    (best_bid-IsTopQuote b (last b.bids) refl v, best_ask-IsTopQuote b (first b.asks) refl v)
