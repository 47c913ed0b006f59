-- ===== src/Collections/Map.antt =====
-- `BTreeMap` and `FxHashMap`: a finite map as an association list. The core reads a map in order
-- only for its first and last key; these are found by the order of the keys.
pub mod Extremes
use crypto_rs_backtester.Prelude.{
  ℕ, suc, ◌+◌, ◌≤◌, ◌≡◌, refl, ◌≢◌, ◌⊎◌, inl, inr, Bool, true, false, Option, none, some, List, [],
  ◌∷◌, arith, if◌then◌else◌, length, Bool-cases,
}
use crypto_rs_backtester.Prelude.Int.{ℤ, pos_part, neg_part, ◌≤ℤ◌, ltb_ℤ}
use crypto_rs_backtester.Prelude.Keys.{Eq, ◌==◌, int_eq}

abbrev pub Map {ℓ κ} : Type ℓ → Type κ → Type (ℓ ⊔ κ)
Map K V = List (K × V)

module _ {ℓ κ} {K : Type ℓ} {V : Type κ} ⦃e : Eq K⦄ where
  unfoldable pub get : K → Map K V → Option V
  get k [] = none
  get k ((j, v) ∷ m) = if j == k then some v else get k m

  unfoldable pub insert : K → V → Map K V → Map K V
  insert k v [] = (k, v) ∷ []
  insert k v ((j, w) ∷ m) = if j == k then (k, v) ∷ m else (j, w) ∷ insert k v m

  unfoldable pub remove : K → Map K V → Map K V
  remove k [] = []
  remove k ((j, w) ∷ m) = let rest = remove k m in if j == k then rest else (j, w) ∷ rest

  -- `get(..).unwrap_or(d)`, `entry(..).or_default()`
  unfoldable pub get_or : K → V → Map K V → V
  unfolding get
  get_or k d m = elim (get k m) [ none ↦ d | some v ↦ v ]

  pub get-insert :
      (k j : K) (v : V) (m : Map K V) → get j (insert k v m) ≡ (if k == j then some v else get j m)
  unfolding get insert
  get-insert k j v [] = refl
  get-insert k j v ((i, w) ∷ m) =
      ground (arith, e.beq_iff k j, e.beq_iff i k, e.beq_iff i j, get-insert k j v m)

  pub get-remove : (k j : K) (m : Map K V) → get j (remove k m) ≡ (if k == j then none else get j m)
  unfolding get remove
  get-remove k j [] = ground arith
  get-remove k j ((i, w) ∷ m) =
      ground (arith, e.beq_iff k j, e.beq_iff i k, e.beq_iff i j, get-remove k j m)

  pub get-insert_self : (k : K) (v : V) (m : Map K V) → get k (insert k v m) ≡ some v
  get-insert_self k v m = ground (arith, get-insert k k v m, e.beq_iff k k)

  pub get-insert_ne : (k j : K) (v : V) (m : Map K V) → k ≢ j → get j (insert k v m) ≡ get j m
  get-insert_ne k j v m h = ground (arith, get-insert k j v m, e.beq_iff k j)

  pub get-remove_self : (k : K) (m : Map K V) → get k (remove k m) ≡ none
  get-remove_self k m = ground (arith, get-remove k k m, e.beq_iff k k)

  pub get-remove_ne : (k j : K) (m : Map K V) → k ≢ j → get j (remove k m) ≡ get j m
  get-remove_ne k j m h = ground (arith, get-remove k j m, e.beq_iff k j)

  pub get_or-insert_self : (k : K) (d v : V) (m : Map K V) → get_or k d (insert k v m) ≡ v
  unfolding get_or
  get_or-insert_self k d v m = ground (arith, get-insert_self k v m)

  pub get_or-insert_ne :
      (k j : K) (d v : V) (m : Map K V) → k ≢ j → get_or j d (insert k v m) ≡ get_or j d m
  unfolding get_or
  get_or-insert_ne k j d v m h = ground (arith, get-insert_ne k j v m h)

  pub get_or-remove_self : (k : K) (d : V) (m : Map K V) → get_or k d (remove k m) ≡ d
  unfolding get_or
  get_or-remove_self k d m = ground (arith, get-remove_self k m)

  pub get_or-remove_ne :
      (k j : K) (d : V) (m : Map K V) → k ≢ j → get_or j d (remove k m) ≡ get_or j d m
  unfolding get_or
  get_or-remove_ne k j d m h = ground (arith, get-remove_ne k j m h)

  -- Every entry that can be looked up satisfies `P`.
  abbrev pub Every {μ} : (K → V → Type μ) → Map K V → Type (ℓ ⊔ κ ⊔ μ)
  Every P m = (k : K) (v : V) → get k m ≡ some v → P k v

  pub Every-insert {μ} :
      (P : K → V → Type μ) (k : K) (v : V) (m : Map K V)
      → P k v
      → Every P m
      → Every P (insert k v m)
  Every-insert P k v m p h j w g = elim (Bool-cases (k == j)) [
    | inl same ↦ ground (arith, get-insert k j v m, e.beq_iff k j)
    | inr other ↦ h j w (ground (arith, get-insert k j v m))
  ]

  pub Every-remove {μ} :
      (P : K → V → Type μ) (k : K) (m : Map K V) → Every P m → Every P (remove k m)
  Every-remove P k m h j w g = h j w (ground (arith, get-remove k j m))

module _ {ℓ κ} {K : Type ℓ} {V : Type κ} ⦃e : Eq K⦄ where
  -- A loop over `values_mut()`.
  unfoldable pub map_values : (V → V) → Map K V → Map K V
  map_values f [] = []
  map_values f ((k, v) ∷ m) = (k, f v) ∷ map_values f m

  -- What is looked up after the loop is an old value after its change.
  pub get-map_values :
      (f : V → V) (k : K) (m : Map K V) (w : V)
      → get k (map_values f m) ≡ some w
      → (v : V) × (get k m ≡ some v) × (w ≡ f v)
  unfolding map_values get
  get-map_values f k [] w h = cc
  get-map_values f k ((j, v) ∷ m) w h = elim (Bool-cases (j == k)) [
    | inl q ↦ (v, ground arith, ground arith)
    | inr q ↦ let (u, g, s) = get-map_values f k m w (ground arith) in (u, ground arith, s)
  ]

module _ {κ} {V : Type κ} where
  -- `iter().next()` and `iter().next_back()`: the entry with the least and the greatest key.
  unfoldable pub first : Map ℤ V → Option (ℤ × V)
  first [] = none
  first ((k, v) ∷ m) = elim (first m) [
    | none ↦ some (k, v)
    | some (j, w) ↦ if ltb_ℤ j k then some (j, w) else some (k, v)
  ]

  unfoldable pub last : Map ℤ V → Option (ℤ × V)
  last [] = none
  last ((k, v) ∷ m) = elim (last m) [
    | none ↦ some (k, v)
    | some (j, w) ↦ if ltb_ℤ k j then some (j, w) else some (k, v)
  ]
