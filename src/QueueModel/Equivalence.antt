-- ===== src/QueueModel/Equivalence.antt =====
use Prim.Native.Nat.{min}
use native.Mathlib.Nat.{sub-zero}
-- backtester-core/src/queue_model.rs: over a book of levels the volume clock and the conservative
-- queue fill an order alike.
use crypto_rs_backtester.Prelude.{
  ℕ, ◌≡◌, ◌⊎◌, ◌+◌, ◌-◌, ◌<◌, ◌≤◌, inl, inr, arith, refl, Bool-cases, List, [], ◌∷◌, ap, sym, ◌∙◌,
}
use crypto_rs_backtester.Prelude.Int.{ℤ, pos, negsuc, pos_part, ◌≤ℤ◌, ◌-ℤ◌, ◌+ℤ◌}
use crypto_rs_backtester.Prelude.I64.{InI64, sub_i64, wrap_i64, sat_i64}
use crypto_rs_backtester.Types.{Order, Tick}
use crypto_rs_backtester.OrderBook.Depth.{MarketDepth}
use crypto_rs_backtester.QueueModel.{QueueModel, can_fill, can_fill_positive}
use crypto_rs_backtester.QueueModel.Conservative
use crypto_rs_backtester.QueueModel.VolumeClock

-- The fills of an order over a sequence of trades, where each lowers what remains.
unfoldable pub fills : (Q : QueueModel) → Order → ℤ → List Tick → Q.State → List ℤ
fills Q o r [] s = []
fills Q o r (t ∷ ts) s = let (f, s') = Q.check_fill o r t s in f ∷ fills Q o (sub_i64 r f) ts s'

-- The volume of the trades.
abbrev pub volume : List Tick → ℕ
volume [] = 0
volume (t ∷ ts) = pos_part t.qty + volume ts

-- The state of the volume clock with the queue position `p`, the volume `c` so far and `k` of it
-- claimed, and the state of the conservative queue with `h` ahead.
abbrev clock : ℕ → ℕ → ℕ → VolumeClock.State
clock p c k = record { queue_pos = pos p; cum_volume = pos c; claimed = pos k }

abbrev ahead : ℕ → Conservative.State
ahead h = record { qty_ahead = pos h }

-- The two describe one position in the queue, within the range of a word.
record IsSame (p c k h : ℕ) : Type 0 where
  word : p ≤ 9223372036854775807
  balance : p + k ≡ c + h
  one_zero : (k ≡ 0) ⊎ (h ≡ 0)

module _ (p c k h r a : ℕ) (same : IsSame p c k h) (rest : 0 < r) (traded : 0 < a) where
  clock_fill :
      r ≤ 9223372036854775807
      → c + a ≤ 9223372036854775807
      → VolumeClock.fill_after (pos r) (pos a) (clock p c k)
        ≡ (pos (min r (a - h)), clock p (c + a) (k + min r (a - h)))
  unfolding VolumeClock.fill_after ◌+ℤ◌ ◌-ℤ◌ wrap_i64 sat_i64
  clock_fill u v = ground arith

  ahead_fill :
      r ≤ 9223372036854775807
      → c + a ≤ 9223372036854775807
      → Conservative.fill_after (pos r) (pos a) (ahead h) ≡ (pos (min r (a - h)), ahead (h - a))
  unfolding Conservative.fill_after ◌-ℤ◌ wrap_i64
  ahead_fill u v = ground arith

  -- The order is filled, or the states describe one position again.
  fill-IsSame : (r - min r (a - h) ≡ 0) ⊎ IsSame p (c + a) (k + min r (a - h)) (h - a)
  fill-IsSame = ground arith

sub_pos : (r f : ℕ) → f ≤ r → r ≤ 9223372036854775807 → sub_i64 (pos r) (pos f) ≡ pos (r - f)
unfolding ◌-ℤ◌ wrap_i64
sub_pos r f u v = ground arith

-- An order with nothing to fill is not filled, in either model.
fills_done :
    (o : Order) (ts : List Tick) (s : Conservative.State) (s' : VolumeClock.State)
    → fills Conservative.conservative_queue o (pos 0) ts s
      ≡ fills VolumeClock.volume_clock_queue o (pos 0) ts s'
unfolding fills Conservative.check_fill VolumeClock.check_fill
fills_done o [] s s' = refl
fills_done o (t ∷ ts) s s' =
    ap (◌∷◌ (pos 0)) (rw (sub_pos 0 0 (omega arith) (omega arith)) (fills_done o ts s s'))

fills-cons :
    (Q : QueueModel) (o : Order) (r : ℤ) (t : Tick) (ts : List Tick) (s : Q.State) {f : ℤ}
    {s' : Q.State}
    → Q.check_fill o r t s ≡ (f, s')
    → fills Q o r (t ∷ ts) s ≡ f ∷ fills Q o (sub_i64 r f) ts s'
unfolding fills
fills-cons Q o r t ts s e = ap (λ (x : ℤ × Q.State). x.0 ∷ fills Q o (sub_i64 r x.0) ts x.1) e

-- One trade that fills as much in both models, and then the others.
fills_join :
    (o : Order) (t : Tick) (ts : List Tick) (r f : ℕ) (s s' : Conservative.State)
    (w w' : VolumeClock.State)
    → f ≤ r
    → r ≤ 9223372036854775807
    → Conservative.check_fill o (pos r) t s ≡ (pos f, s')
    → VolumeClock.check_fill o (pos r) t w ≡ (pos f, w')
    → fills Conservative.conservative_queue o (pos (r - f)) ts s'
      ≡ fills VolumeClock.volume_clock_queue o (pos (r - f)) ts w'
    → fills Conservative.conservative_queue o (pos r) (t ∷ ts) s
      ≡ fills VolumeClock.volume_clock_queue o (pos r) (t ∷ ts) w
fills_join o t ts r f s s' w w' l u hs hw rest =
    fills-cons Conservative.conservative_queue o (pos r) t ts s hs
    ∙ ap (◌∷◌ (pos f)) (rw (sub_pos r f l u) rest)
    ∙ sym (fills-cons VolumeClock.volume_clock_queue o (pos r) t ts w hw)

fills_same :
    (o : Order) (ts : List Tick) (r p c k h : ℕ)
    → r ≤ 9223372036854775807
    → c + volume ts ≤ 9223372036854775807
    → IsSame p c k h
    → fills Conservative.conservative_queue o (pos r) ts (ahead h)
      ≡ fills VolumeClock.volume_clock_queue o (pos r) ts (clock p c k)
unfolding fills Conservative.check_fill VolumeClock.check_fill
fills_same o [] r p c k h u v same = refl
fills_same o (t ∷ ts) r p c k h u v same = elim (Bool-cases (can_fill o (pos r) t)) [
  | inr e ↦
      fills_join o t ts r 0 (ahead h) (ahead h) (clock p c k) (clock p c k) (omega arith) u
        (ground arith) (ground arith) (rw sub-zero (fills_same o ts r p c k h u (omega arith) same))
  | inl e ↦
      let (rest, traded) = can_fill_positive o (pos r) t e in
      let a : ℕ = pos_part t.qty in
      let qty : t.qty ≡ pos a = ground arith in
      let now : 0 < r = omega arith in
      let some_qty : 0 < a = omega arith in
      let room : c + a ≤ 9223372036854775807 = omega arith in
      let f : ℕ = min r (a - h) in
      fills_join o t ts r f (ahead h) (ahead (h - a)) (clock p c k) (clock p (c + a) (k + f))
        (omega arith) u (ground (arith, e, qty, ahead_fill p c k h r a same now some_qty u room))
        (ground (arith, e, qty, clock_fill p c k h r a same now some_qty u room))
        (elim (fill-IsSame p c k h r a same now some_qty) [
          | inl done ↦ rw done (fills_done o ts _ _)
          | inr again ↦
              fills_same o ts (r - f) p (c + a) (k + f) (h - a) (omega arith) (omega arith) again
        ])
]

fills_from :
    (o : Order) (ts : List Tick) (qty level : ℤ)
    → pos 0 ≤ℤ qty
    → InI64 qty
    → pos 0 ≤ℤ level
    → InI64 level
    → volume ts ≤ 9223372036854775807
    → fills Conservative.conservative_queue o qty ts (record { qty_ahead = level })
      ≡ fills VolumeClock.volume_clock_queue o qty ts
          (record { queue_pos = level; cum_volume = pos 0; claimed = pos 0 })
fills_from o ts (pos r) (pos p) qp qw lp lw room =
    fills_same o ts r p 0 0 p qw.1 (omega arith)
      (record { word = lw.1; balance = omega arith; one_zero = inl refl })
fills_from o ts (pos r) (negsuc p) qp qw lp lw room = absurd (omega arith)
fills_from o ts (negsuc r) level qp qw lp lw room = absurd (omega arith)

-- An order that enters behind a level is filled by the same amounts, trade by trade, by the
-- conservative queue and by the volume clock, where the quantities of the order and of the level
-- are words that are not negative and the volume of the trades fits a word.
pub conservative-eq-volume_clock :
    (o : Order) (book : MarketDepth) (ts : List Tick)
    → pos 0 ≤ℤ book.level_qty o.side o.price
    → InI64 (book.level_qty o.side o.price)
    → pos 0 ≤ℤ o.qty
    → InI64 o.qty
    → volume ts ≤ 9223372036854775807
    → fills Conservative.conservative_queue o o.qty ts (Conservative.register_order o book)
      ≡ fills VolumeClock.volume_clock_queue o o.qty ts (VolumeClock.register_order o book)
unfolding Conservative.register_order VolumeClock.register_order
conservative-eq-volume_clock o book ts lp lw qp qw room =
    fills_from o ts o.qty (book.level_qty o.side o.price) qp qw lp lw room
