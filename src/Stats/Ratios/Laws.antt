-- ===== src/Stats/Ratios/Laws.antt =====
-- backtester-core/src/stats.rs: the Sortino ratio on four lanes against the plain one, where every sum
-- is a whole number that f64 holds.
use crypto_rs_backtester.Prelude.{
  ℕ, ◌+◌, ◌≤◌, ◌≡◌, ◌⊎◌, inl, inr, true, false, refl, sym, ap, ◌∙◌, subst, Bool-cases, List, [],
  ◌∷◌, map, if◌then◌else◌, arith,
}
use crypto_rs_backtester.Prelude.Int.{ℤ, pos, abs, ◌+ℤ◌, ◌*ℤ◌, min_ℤ, ltb_ℤ, int_laws}
use crypto_rs_backtester.Stats.{Floats}
use crypto_rs_backtester.Stats.Ratios.{
  foldl, sum_f64, Lanes, sum_chunks, simd_reduce_sum, simd_sum_f64_from_i64, simd_sum_downside_sq,
  square_neg, add_downside, downside, sortino_ratio_from_pnl_series,
  sortino_ratio_from_pnl_series_simd,
}

-- 2 ^ 53: f64 holds every whole number up to it.
abbrev pub Fits : ℤ → Type 0
Fits a = abs a ≤ 9007199254740992

-- What IEEE 754 says of f64 on whole numbers that it holds: where the result is one too, it is exact.
pub record WholeExact (F : Floats) : Type 0 where
  pub add_whole :
      (a b : ℤ)
      → Fits a
      → Fits b
      → Fits (a +ℤ b)
      → F.add (F.of_int a) (F.of_int b) ≡ F.of_int (a +ℤ b)
  pub start_whole : (a : ℤ) → Fits a → F.add F.sum_start (F.of_int a) ≡ F.of_int a
  pub sub_zero : (a : ℤ) → Fits a → F.sub (F.of_int a) (F.of_int (pos 0)) ≡ F.of_int a
  pub mul_whole :
      (a : ℤ) → Fits a → Fits (a *ℤ a) → F.mul (F.of_int a) (F.of_int a) ≡ F.of_int (a *ℤ a)
  pub min_zero :
      (a : ℤ) → Fits a → F.min (F.of_int a) (F.of_int (pos 0)) ≡ F.of_int (min_ℤ a (pos 0))
  pub less_zero : (a : ℤ) → Fits a → F.less (F.of_int a) (F.of_int (pos 0)) ≡ ltb_ℤ a (pos 0)

abs-+ℤ : (a b : ℤ) → abs (a +ℤ b) ≤ abs a + abs b
unfolding ◌+ℤ◌
abs-+ℤ a b = ground arith

abs-four : (a b c d : ℤ) → abs (a +ℤ b +ℤ c +ℤ d) ≤ abs a + abs b + abs c + abs d
abs-four a b c d = omega (arith, abs-+ℤ (a +ℤ b +ℤ c) d, abs-+ℤ (a +ℤ b) c, abs-+ℤ a b)

-- The whole sum from a start, and the sum of the absolute values.
abbrev pub total : (ℤ → ℤ) → ℤ → List ℤ → ℤ
total g s [] = s
total g s (x ∷ xs) = total g (s +ℤ g x) xs

abbrev pub mass : (ℤ → ℤ) → List ℤ → ℕ
mass g [] = 0
mass g (x ∷ xs) = abs (g x) + mass g xs

-- A block of four, lane by lane, is the block one by one.
total-block :
    (a b c d x y z w : ℤ)
    → a +ℤ x +ℤ (b +ℤ y) +ℤ (c +ℤ z) +ℤ (d +ℤ w) ≡ a +ℤ b +ℤ c +ℤ d +ℤ x +ℤ y +ℤ z +ℤ w
total-block a b c d x y z w = omega int_laws

module _ {F : Floats} (exact : WholeExact F) (f : F.F64 → F.F64) (g : ℤ → ℤ) where
  open F use {F64, of_int, add, sum_start}

  -- The function of a term is exact on a series.
  abbrev pub Exact : List ℤ → Type 0
  Exact [] = Unit {0}
  Exact (x ∷ xs) = (Fits x × (f (of_int x) ≡ of_int (g x))) × Exact xs

  add_term :
      (s x : ℤ)
      → f (of_int x) ≡ of_int (g x)
      → abs s + abs (g x) ≤ 9007199254740992
      → add (of_int s) (f (of_int x)) ≡ of_int (s +ℤ g x)
  add_term s x e h =
      ap (add (of_int s)) e
      ∙ exact.add_whole s (g x) (omega arith) (omega arith) (omega (arith, abs-+ℤ s (g x)))

  -- Terms that are added one by one.
  fold-total :
      (s : ℤ) (xs : List ℤ)
      → Exact xs
      → abs s + mass g xs ≤ 9007199254740992
      → foldl (λ t x. add t (f (of_int x))) (of_int s) xs ≡ of_int (total g s xs)
  unfolding foldl
  fold-total s [] e h = refl
  fold-total s (x ∷ xs) e h =
      ap (λ t. foldl (λ t x. add t (f (of_int x))) t xs) (add_term s x e.0.1 (omega (arith, h)))
      ∙ fold-total (s +ℤ g x) xs e.1 (omega (arith, h, abs-+ℤ s (g x)))

  abbrev lanes : ℤ → ℤ → ℤ → ℤ → Lanes F
  lanes a b c d = record { v0 = of_int a; v1 = of_int b; v2 = of_int c; v3 = of_int d }

  reduce-lanes :
      (a b c d : ℤ)
      → abs a + abs b + abs c + abs d ≤ 9007199254740992
      → simd_reduce_sum F (lanes a b c d) ≡ of_int (a +ℤ b +ℤ c +ℤ d)
  unfolding simd_reduce_sum sum_f64 foldl
  reduce-lanes a b c d h =
      let ab = abs-+ℤ a b in
      let abc = abs-+ℤ (a +ℤ b) c in
      let abcd = abs-+ℤ (a +ℤ b +ℤ c) d in
      ap (λ t. add (add (add t (of_int b)) (of_int c)) (of_int d))
        (exact.start_whole a (omega (arith, h)))
      ∙ ap (λ t. add (add t (of_int c)) (of_int d))
          (exact.add_whole a b (omega (arith, h)) (omega (arith, h)) (omega (arith, h, ab)))
      ∙ ap (λ t. add t (of_int d))
          (exact.add_whole (a +ℤ b) c (omega (arith, h, ab)) (omega (arith, h))
            (omega (arith, h, ab, abc)))
      ∙ exact.add_whole (a +ℤ b +ℤ c) d (omega (arith, h, ab, abc)) (omega (arith, h))
          (omega (arith, h, ab, abc, abcd))

  -- The lanes with what is left over, which a rest of the loop adds one by one.
  chunks-total :
      (rest : F64 → ℤ → F64) (a b c d : ℤ) (xs : List ℤ)
      → ((s x : ℤ)
          → Fits x
          → abs s + abs (g x) ≤ 9007199254740992
          → rest (of_int s) x ≡ of_int (s +ℤ g x))
      → Exact xs
      → abs a + abs b + abs c + abs d + mass g xs ≤ 9007199254740992
      → foldl rest
          (simd_reduce_sum F (sum_chunks F f (lanes a b c d) xs).0)
          (sum_chunks F f (lanes a b c d) xs).1
        ≡ of_int (total g (a +ℤ b +ℤ c +ℤ d) xs)
  unfolding sum_chunks foldl
  chunks-total rest a b c d (x ∷ y ∷ z ∷ w ∷ xs) step (ex, (ey, (ez, (ew, e)))) h =
      let ax = abs-+ℤ a (g x) in
      let by = abs-+ℤ b (g y) in
      let cz = abs-+ℤ c (g z) in
      let dw = abs-+ℤ d (g w) in
      let added : Lanes F = record {
        v0 = add (of_int a) (f (of_int x));
        v1 = add (of_int b) (f (of_int y));
        v2 = add (of_int c) (f (of_int z));
        v3 = add (of_int d) (f (of_int w));
      } in
      let moved : added ≡ lanes (a +ℤ g x) (b +ℤ g y) (c +ℤ g z) (d +ℤ g w) = λ i. record {
        v0 = add_term a x ex.1 (omega (arith, h)) i;
        v1 = add_term b y ey.1 (omega (arith, h)) i;
        v2 = add_term c z ez.1 (omega (arith, h)) i;
        v3 = add_term d w ew.1 (omega (arith, h)) i;
      } in
      ap (λ v. foldl rest (simd_reduce_sum F (sum_chunks F f v xs).0) (sum_chunks F f v xs).1) moved
      ∙ chunks-total rest (a +ℤ g x) (b +ℤ g y) (c +ℤ g z) (d +ℤ g w) xs step e
          (omega (arith, h, ax, by, cz, dw))
      ∙ ap (λ s. of_int (total g s xs)) (total-block a b c d (g x) (g y) (g z) (g w))
  chunks-total rest a b c d [] step e h = reduce-lanes a b c d (omega (arith, h))
  chunks-total rest a b c d (x ∷ []) step e h =
      let n = abs-four a b c d in
      ap (λ t. rest t x) (reduce-lanes a b c d (omega (arith, h)))
      ∙ step _ x e.0.0 (omega (arith, h, n))
  chunks-total rest a b c d (x ∷ y ∷ []) step (ex, (ey, e)) h =
      let n = abs-four a b c d in
      let s = a +ℤ b +ℤ c +ℤ d in
      ap (λ t. rest (rest t x) y) (reduce-lanes a b c d (omega (arith, h)))
      ∙ ap (λ t. rest t y) (step s x ex.0 (omega (arith, h, n)))
      ∙ step _ y ey.0 (omega (arith, h, n, abs-+ℤ s (g x)))
  chunks-total rest a b c d (x ∷ y ∷ z ∷ []) step (ex, (ey, (ez, e))) h =
      let n = abs-four a b c d in
      let s = a +ℤ b +ℤ c +ℤ d in
      let sx = abs-+ℤ s (g x) in
      ap (λ t. rest (rest (rest t x) y) z) (reduce-lanes a b c d (omega (arith, h)))
      ∙ ap (λ t. rest (rest t y) z) (step s x ex.0 (omega (arith, h, n)))
      ∙ ap (λ t. rest t z) (step _ y ey.0 (omega (arith, h, n, sx)))
      ∙ step _ z ez.0 (omega (arith, h, n, sx, abs-+ℤ (s +ℤ g x) (g y)))

  -- A sum in order, of a series that is not empty.
  sum-total :
      (x : ℤ) (xs : List ℤ)
      → Exact (x ∷ xs)
      → mass g (x ∷ xs) ≤ 9007199254740992
      → foldl (λ t y. add t (f (of_int y))) sum_start (x ∷ xs) ≡ of_int (total g (pos 0) (x ∷ xs))
  unfolding foldl
  sum-total x xs e h =
      let start : pos 0 +ℤ g x ≡ g x = omega int_laws in
      ap (λ t. foldl (λ t y. add t (f (of_int y))) t xs)
        (ap (add sum_start) e.0.1 ∙ exact.start_whole (g x) (omega (arith, h)))
      ∙ fold-total (g x) xs e.1 h
      ∙ ap (λ s. of_int (total g s xs)) (sym start)

-- The square of a loss.
abbrev pub loss_square : ℤ → ℤ
loss_square x = min_ℤ x (pos 0) *ℤ min_ℤ x (pos 0)

loss_square-neg : (x : ℤ) → ltb_ℤ x (pos 0) ≡ true → min_ℤ x (pos 0) ≡ x
loss_square-neg x h = ground (arith, h)

loss_square-nonneg : (x : ℤ) → ltb_ℤ x (pos 0) ≡ false → min_ℤ x (pos 0) ≡ pos 0
loss_square-nonneg x h = ground (arith, h)

abs-min : (x : ℤ) → abs (min_ℤ x (pos 0)) ≤ abs x
abs-min x = ground arith

module _ {F : Floats} (exact : WholeExact F) where
  open F use {F64, of_int, add, sub, mul, min, less}

  square_neg-exact :
      (x : ℤ) → Fits x → Fits (loss_square x) → square_neg F (of_int x) ≡ of_int (loss_square x)
  square_neg-exact x h k =
      ap (λ v. mul v v) (exact.min_zero x h)
      ∙ exact.mul_whole (min_ℤ x (pos 0)) (omega (arith, h, abs-min x)) k

  -- What the plain form makes of a term.
  abbrev term : F64 → F64
  term v =
      let d = sub v (of_int (pos 0)) in if less d (of_int (pos 0)) then mul d d else of_int (pos 0)

  loss_cases :
      (x : ℤ)
      → Fits x
      → Fits (loss_square x)
      → ((less (of_int x) (of_int (pos 0)) ≡ true)
          × (mul (of_int x) (of_int x) ≡ of_int (loss_square x)))
        ⊎ ((less (of_int x) (of_int (pos 0)) ≡ false) × (loss_square x ≡ pos 0))
  unfolding ◌*ℤ◌
  loss_cases x h k = elim (Bool-cases (ltb_ℤ x (pos 0))) [
    | inl e ↦
        let same = loss_square-neg x e in
        inl (
          exact.less_zero x h ∙ e,
          exact.mul_whole x h (subst (λ m. Fits (m *ℤ m)) same k)
              ∙ ap (λ m. of_int (m *ℤ m)) (sym same),
        )
    | inr e ↦ inr (exact.less_zero x h ∙ e, ap (λ m. m *ℤ m) (loss_square-nonneg x e))
  ]

  term-exact : (x : ℤ) → Fits x → Fits (loss_square x) → term (of_int x) ≡ of_int (loss_square x)
  term-exact x h k = elim (loss_cases x h k) [
    | inl (l, m) ↦ rw (exact.sub_zero x h, l) m
    | inr (l, z) ↦ rw (exact.sub_zero x h, l) (ap of_int (sym z))
  ]

  add_downside-exact :
      (s x : ℤ)
      → Fits x
      → abs s + abs (loss_square x) ≤ 9007199254740992
      → add_downside F (of_int s) x ≡ of_int (s +ℤ loss_square x)
  add_downside-exact s x h k = elim (loss_cases x h (omega (arith, k))) [
    | inl (l, m) ↦ rw l (
        ap (add (of_int s)) m
        ∙ exact.add_whole s (loss_square x) (omega (arith, k)) (omega (arith, k))
            (omega (arith, k, abs-+ℤ s (loss_square x))))
    | inr (l, z) ↦ rw l (ap of_int (sym (ap (λ w. s +ℤ w) z ∙ omega int_laws)))
  ]

  whole-Exact :
      (xs : List ℤ) → mass (λ x. x) xs ≤ 9007199254740992 → Exact exact (λ v. v) (λ x. x) xs
  whole-Exact [] h = tt
  whole-Exact (x ∷ xs) h = ((omega (arith, h), refl), whole-Exact xs (omega (arith, h)))

  losses-Exact :
      (f : F64 → F64)
      → ((x : ℤ) → Fits x → Fits (loss_square x) → f (of_int x) ≡ of_int (loss_square x))
      → (xs : List ℤ) → mass (λ x. x) xs ≤ 9007199254740992
      → mass loss_square xs ≤ 9007199254740992
      → Exact exact f loss_square xs
  losses-Exact f e [] h k = tt
  losses-Exact f e (x ∷ xs) h k =
      let fits : Fits x = omega (arith, h) in
      (
        (fits, e x fits (omega (arith, k))),
        losses-Exact f e xs (omega (arith, h)) (omega (arith, k)),
      )

  foldl-map :
      (h : ℤ → F64) (s : F64) (xs : List ℤ)
      → foldl add s (map h xs) ≡ foldl (λ t x. add t (h x)) s xs
  unfolding foldl
  foldl-map h s [] = refl
  foldl-map h s (x ∷ xs) = foldl-map h (add s (h x)) xs

  same-sum :
      (x : ℤ) (xs : List ℤ)
      → mass (λ x. x) (x ∷ xs) ≤ 9007199254740992
      → simd_sum_f64_from_i64 F (x ∷ xs) ≡ sum_f64 F (map of_int (x ∷ xs))
  unfolding simd_sum_f64_from_i64 sum_f64 ◌+ℤ◌
  same-sum x xs h =
      let e = whole-Exact (x ∷ xs) h in
      chunks-total exact (λ v. v) (λ x. x) (λ s x. add s (of_int x)) (pos 0) (pos 0) (pos 0) (pos 0)
        (x ∷ xs) (λ s y fits k. add_term exact (λ v. v) (λ x. x) s y refl k) e (omega (arith, h))
      ∙ sym (foldl-map of_int F.sum_start (x ∷ xs) ∙ sum-total exact (λ v. v) (λ x. x) x xs e h)

  same-losses :
      (x : ℤ) (xs : List ℤ)
      → mass (λ x. x) (x ∷ xs) ≤ 9007199254740992
      → mass loss_square (x ∷ xs) ≤ 9007199254740992
      → simd_sum_downside_sq F (x ∷ xs) ≡ sum_f64 F (map (downside F) (x ∷ xs))
  unfolding simd_sum_downside_sq sum_f64 ◌+ℤ◌
  same-losses x xs h k =
      chunks-total exact (square_neg F) loss_square (add_downside F) (pos 0) (pos 0) (pos 0) (pos 0)
        (x ∷ xs) add_downside-exact (losses-Exact (square_neg F) square_neg-exact (x ∷ xs) h k)
        (omega (arith, k))
      ∙ sym (
          foldl-map (downside F) F.sum_start (x ∷ xs)
          ∙ sum-total exact term loss_square x xs (losses-Exact term term-exact (x ∷ xs) h k) k)

-- Where f64 is exact on whole numbers of at most 2 ^ 53, and neither the absolute values of a series
-- nor the squares of its losses sum to more, the Sortino ratio on four lanes is the plain one, for a
-- series of any length.
pub sortino_ratio_simd-eq :
    (F : Floats) (pnl : List ℤ)
    → WholeExact F
    → mass (λ x. x) pnl ≤ 9007199254740992
    → mass loss_square pnl ≤ 9007199254740992
    → sortino_ratio_from_pnl_series_simd F pnl ≡ sortino_ratio_from_pnl_series F pnl
unfolding sortino_ratio_from_pnl_series_simd sortino_ratio_from_pnl_series
sortino_ratio_simd-eq F [] exact h k = refl
sortino_ratio_simd-eq F (x ∷ xs) exact h k =
    rw (same-sum exact x xs h, same-losses exact x xs h k) refl
