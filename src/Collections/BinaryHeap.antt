-- ===== src/Collections/BinaryHeap.antt =====
-- `BinaryHeap`: a bag from which `pop` takes a greatest element. `before` is the order in which the
-- elements come out, the reverse of the `Ord` instances that the core writes for its max-heaps.
pub mod Order
use crypto_rs_backtester.Prelude.{Bool, Option, none, some, List, [], ◌∷◌, if◌then◌else◌}
use mathlib.Core.Option

module _ {ℓ} {A : Type ℓ} (before : A → A → Bool) where
  -- The element that comes out next, and the others.
  unfoldable pub select : A → List A → A × List A
  select x [] = (x, [])
  select x (y ∷ ys) =
      let rest = select (if before y x then y else x) ys in
      (rest.0, (if before y x then x else y) ∷ rest.1)

  unfoldable pub pop : List A → Option (A × List A)
  unfolding select
  pop [] = none
  pop (x ∷ xs) = some (select x xs)

  unfoldable pub peek : List A → Option A
  unfolding pop
  peek h = Option.map (λ r. r.0) (pop h)

unfoldable pub push {ℓ} : {A : Type ℓ} → A → List A → List A
push x h = x ∷ h
