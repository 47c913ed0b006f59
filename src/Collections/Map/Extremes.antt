-- ===== src/Collections/Map/Extremes.antt =====
-- What the first and the last entry of a map over integer keys are.
use crypto_rs_backtester.Prelude.{◌≡◌, refl, inl, inr, none, some, [], ◌∷◌, arith, Option-cases}
use crypto_rs_backtester.Prelude.Int.{ℤ, ◌≤ℤ◌, eqb_ℤ_iff}
use crypto_rs_backtester.Prelude.Keys.{int_eq}
use crypto_rs_backtester.Collections.Map.{Map, get, first, last}

module _ {V : Type 0} where
  pub first-none : (m : Map ℤ V) → first m ≡ none → m ≡ []
  unfolding first
  first-none [] h = refl
  first-none ((k, v) ∷ m) h = ground arith

  pub first-get : (m : Map ℤ V) (p : ℤ) (q : V) → first m ≡ some (p, q) → get p m ≡ some q
  unfolding first get
  first-get [] p q h = ground arith
  first-get ((k, v) ∷ m) p q h = elim (Option-cases (first m)) [
    | inl e ↦ ground (arith, eqb_ℤ_iff k p)
    | inr ((j, w), e) ↦ ground (arith, first-get m j w, eqb_ℤ_iff k p)
  ]

  pub first-le :
      (m : Map ℤ V) (p : ℤ) (q : V)
      → first m ≡ some (p, q)
      → (j : ℤ) (w : V) → get j m ≡ some w
      → p ≤ℤ j
  unfolding first get
  first-le [] p q h j w g = ground arith
  first-le ((k, v) ∷ m) p q h j w g = elim (Option-cases (first m)) [
    | inl e ↦ ground (arith, eqb_ℤ_iff k j, first-none m e)
    | inr ((i, u), e) ↦ ground (arith, first-le m i u e j w, eqb_ℤ_iff k j)
  ]

  pub last-none : (m : Map ℤ V) → last m ≡ none → m ≡ []
  unfolding last
  last-none [] h = refl
  last-none ((k, v) ∷ m) h = ground arith

  pub last-get : (m : Map ℤ V) (p : ℤ) (q : V) → last m ≡ some (p, q) → get p m ≡ some q
  unfolding last get
  last-get [] p q h = ground arith
  last-get ((k, v) ∷ m) p q h = elim (Option-cases (last m)) [
    | inl e ↦ ground (arith, eqb_ℤ_iff k p)
    | inr ((j, w), e) ↦ ground (arith, last-get m j w, eqb_ℤ_iff k p)
  ]

  pub last-ge :
      (m : Map ℤ V) (p : ℤ) (q : V)
      → last m ≡ some (p, q)
      → (j : ℤ) (w : V) → get j m ≡ some w
      → j ≤ℤ p
  unfolding last get
  last-ge [] p q h j w g = ground arith
  last-ge ((k, v) ∷ m) p q h j w g = elim (Option-cases (last m)) [
    | inl e ↦ ground (arith, eqb_ℤ_iff k j, last-none m e)
    | inr ((i, u), e) ↦ ground (arith, last-ge m i u e j w, eqb_ℤ_iff k j)
  ]
