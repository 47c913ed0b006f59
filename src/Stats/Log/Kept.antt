-- ===== src/Stats/Log/Kept.antt =====
-- backtester-core/src/stats.rs: the calls on a log, and the fills that each mode keeps of them.
use crypto_rs_backtester.Prelude.{
  ℕ, zero, suc, ◌+◌, ◌-◌, ◌≤◌, ◌≡◌, refl, sym, ap, ◌∙◌, inl, inr, ◌⊎◌, true, false, List, [], ◌∷◌,
  ◌++◌, arith, Bool-cases, leb, length, length-append, drop, length-drop, drop-append,
}
use crypto_rs_backtester.Prelude.Int.{ℤ}
use crypto_rs_backtester.Stats.{TradeFill, PnlEvent, TradeLogMode}
use crypto_rs_backtester.Stats.Log.{push_ring, pop_front}

-- A call on the log.
pub data LogCall : Type 0 where
  fill : TradeFill → LogCall
  event : PnlEvent → LogCall
  delta : ℤ → ℤ → LogCall

-- What the calls say, without a log: the fills, and the PnL with its times.
abbrev pub called_fills : List LogCall → List TradeFill
called_fills [] = []
called_fills (fill f ∷ cs) = f ∷ called_fills cs
called_fills (event e ∷ cs) = called_fills cs
called_fills (delta ts d ∷ cs) = called_fills cs

abbrev pub called_pnl : List LogCall → List (ℤ × ℤ)
called_pnl [] = []
called_pnl (fill f ∷ cs) = called_pnl cs
called_pnl (event e ∷ cs) = (e.ts_exchange, e.pnl) ∷ called_pnl cs
called_pnl (delta ts d ∷ cs) = (ts, d) ∷ called_pnl cs

-- The last `n` elements.
abbrev pub last_n : {A : Type 0} → ℕ → List A → List A
last_n n l = drop (length l - n) l

-- The fills that a mode keeps: all, the last ones, or none. A ring of capacity 0 keeps one.
abbrev pub kept_fills : TradeLogMode → List TradeFill → List TradeFill
kept_fills TradeLogMode.all fs = fs
kept_fills (TradeLogMode.ring_buffer zero) fs = last_n 1 fs
kept_fills (TradeLogMode.ring_buffer (suc n)) fs = last_n (suc n) fs
kept_fills TradeLogMode.summary_only fs = []
kept_fills TradeLogMode.none fs = []

pop_front-drop : (n : ℕ) (l : List TradeFill) → pop_front (drop n l) ≡ drop (suc n) l
pop_front-drop zero [] = refl
pop_front-drop zero (x ∷ l) = refl
pop_front-drop (suc n) [] = refl
pop_front-drop (suc n) (x ∷ l) = pop_front-drop n l

pub drop_nil : (n : ℕ) → drop {A = TradeFill} n [] ≡ []
drop_nil zero = refl
drop_nil (suc n) = refl

ring_full :
    (k n : ℕ) (f : TradeFill) (l : List TradeFill)
    → k + suc n ≡ length l
    → pop_front (drop k l) ++ f ∷ [] ≡ last_n (suc n) (l ++ f ∷ [])
ring_full k n f l e =
    let size : length (l ++ f ∷ []) - suc n ≡ suc k = omega (arith, length-append l (f ∷ [])) in
    ap (λ r. r ++ f ∷ []) (pop_front-drop k l)
    ∙ sym (drop-append (suc k) l (f ∷ []) (omega arith))
    ∙ ap (λ m. drop m (l ++ f ∷ [])) (sym size)

ring_one :
    (cap n : ℕ) (f : TradeFill) (l : List TradeFill)
    → (cap ≡ 0) × (n ≡ 0)
    → length l ≤ n
    → push_ring cap f (last_n (suc n) l) ≡ last_n (suc n) (l ++ f ∷ [])
unfolding push_ring
ring_one cap n f [] c h = rw (c.0, c.1) refl
ring_one cap n f (x ∷ l) c h = absurd (omega arith)

-- A push into a ring that keeps the last `suc n` keeps the last `suc n` of the longer list.
push_ring-last_n :
    (cap n : ℕ) (f : TradeFill) (l : List TradeFill)
    → (cap ≡ suc n) ⊎ ((cap ≡ 0) × (n ≡ 0))
    → push_ring cap f (last_n (suc n) l) ≡ last_n (suc n) (l ++ f ∷ [])
unfolding push_ring
push_ring-last_n cap n f l h =
    let size = length-drop (length l - suc n) l in
    elim (Bool-cases (leb (suc n) (length l))) [
      | inl e ↦
          let full : leb cap (length (last_n (suc n) l)) ≡ true = ground (arith, size) in
          rw full (ring_full (length l - suc n) n f l (ground arith))
      | inr e ↦ elim h [
        | inl c ↦
            let room : leb cap (length (last_n (suc n) l)) ≡ false = ground (arith, size) in
            let whole : length l - suc n ≡ 0 = ground arith in
            let still : length (l ++ f ∷ []) - suc n ≡ 0 =
              ground (arith, length-append l (f ∷ [])) in
            rw room (rw (whole, still) refl)
        | inr c ↦ ring_one cap n f l c (ground arith)
      ]
    ]

-- The fills that a mode keeps after one more.
pub kept_push :
    (cap : ℕ) (f : TradeFill) (l : List TradeFill)
    → push_ring cap f (kept_fills (TradeLogMode.ring_buffer cap) l)
      ≡ kept_fills (TradeLogMode.ring_buffer cap) (l ++ f ∷ [])
kept_push zero f l = push_ring-last_n 0 0 f l (inr (refl, refl))
kept_push (suc n) f l = push_ring-last_n (suc n) n f l (inl refl)
