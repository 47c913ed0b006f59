-- ===== src/Collections/BinaryHeap/Order.antt =====
-- What `pop` takes from the heap, and what it leaves.
use mathlib.Core.List.{Perm, Mem, mem-cons, not-mem-nil}
use mathlib.Core.Logic.Or
use mathlib.Core.Bool.{Bool-set}
use mathlib.Core.List.Perm
use crypto_rs_backtester.Prelude.{
  ◌≡◌, refl, Bool, true, false, none, some, List, [], ◌∷◌, Bool-cases, inl, inr, subst,
}
use crypto_rs_backtester.Collections.BinaryHeap.{select, pop}

-- `before` is the strict part of a total preorder.
pub record IsOrder {ℓ} {A : Type ℓ} (before : A → A → Bool) : Type ℓ where
  pub irrefl : (a : A) → before a a ≡ false
  pub trans : (a b c : A) → before b a ≡ false → before c b ≡ false → before c a ≡ false
  pub asym : (a b : A) → before a b ≡ true → before b a ≡ false

module _ {ℓ} {A : Type ℓ} (before : A → A → Bool) where
  pub select-perm :
      (x : A) (xs : List A) → Perm ((select before x xs).0 ∷ (select before x xs).1) (x ∷ xs)
  unfolding select
  select-perm x [] = Perm.refl _
  select-perm x (y ∷ ys) = elim (Bool-cases (before y x)) [
    | inl e ↦ rw e (Perm.trans (Perm.swap x _ _) (Perm.cons x (select-perm y ys)))
    | inr e ↦ rw e (
        Perm.trans (Perm.swap y _ _)
          (Perm.trans (Perm.cons y (select-perm x ys)) (Perm.swap x y ys)))
  ]

  module _ (o : IsOrder before) where
    -- Nothing comes before what was selected.
    select-start : (x : A) (xs : List A) → before x (select before x xs).0 ≡ false
    unfolding select
    select-start x [] = o.irrefl x
    select-start x (y ∷ ys) = elim (Bool-cases (before y x)) [
      | inl e ↦ rw (e, select) (o.trans _ y x (select-start y ys) (o.asym y x e))
      | inr e ↦ rw (e, select) (select-start x ys)
    ]

    select-least :
        (x : A) (xs : List A) (z : A) → Mem z xs → before z (select before x xs).0 ≡ false
    unfolding select
    select-least x [] z m = absurd (not-mem-nil m)
    select-least x (y ∷ ys) z m = elim (Bool-cases (before y x)) [
      | inl e ↦
          rw (e, select)
            (Or.elim (Bool-set _ _) (mem-cons.0 m) (λ q. rw q (select-start y ys))
              (select-least y ys z))
      | inr e ↦
          rw (e, select)
            (Or.elim (Bool-set _ _) (mem-cons.0 m) (λ q. rw q (o.trans _ x y (select-start x ys) e))
              (select-least x ys z))
    ]

    pub pop-least :
        (h : List A) (x : A) (rest : List A)
        → pop before h ≡ some (x, rest)
        → (z : A) → Mem z h
        → before z x ≡ false
    unfolding pop
    pop-least [] x rest e z m = cc
    pop-least (y ∷ ys) x rest e z m =
        let q : (select before y ys).0 ≡ x = cc in
        Or.elim (Bool-set _ _) (mem-cons.0 m) (λ r. rw (r, ← q) (select-start y ys))
          (λ n. rw (← q) (select-least y ys z n))

  pub pop-perm :
      (h : List A) (x : A) (rest : List A) → pop before h ≡ some (x, rest) → Perm (x ∷ rest) h
  unfolding pop
  pop-perm [] x rest e = cc
  pop-perm (y ∷ ys) x rest e =
      let p = select-perm y ys in
      subst (λ (r : A × List A). Perm (r.0 ∷ r.1) (y ∷ ys)) (some-inj e) p
    where
      some-inj : {a b : A × List A} → some a ≡ some b → a ≡ b
      some-inj q = cc

  -- A heap with an element has one to give.
  pub pop-none : (h : List A) → pop before h ≡ none → h ≡ []
  unfolding pop
  pop-none [] e = refl
  pop-none (x ∷ xs) e = cc
