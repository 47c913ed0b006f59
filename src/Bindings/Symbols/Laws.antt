-- ===== src/Bindings/Symbols/Laws.antt =====
-- backtester-py/src/lib.rs: the ids of the symbols of a run are distinct.
use Prim.Native.String.{String}
use crypto_rs_backtester.Prelude.{
  ℕ, suc, ◌+◌, ◌%◌, ◌<◌, ◌≡◌, refl, ◌≢◌, inl, inr, Option, none, some, List, [], ◌∷◌, ok, arith,
  Bool-cases, length, ◌∙◌, All, ap,
}
use crypto_rs_backtester.Prelude.Keys.{◌==◌, nat_eq, ==_iff}
use crypto_rs_backtester.Collections.Map.{Map, get, insert, get-insert, get-insert_self}
use crypto_rs_backtester.Bindings.{Python, string_eq}
use crypto_rs_backtester.Bindings.Config.Laws.{IsSymbolMap}
use crypto_rs_backtester.Bindings.Symbols.{check_keys, number_keys, build_symbol_ids}

-- No key stands twice in the list.
abbrev pub NoRepeat : List String → Type 0
NoRepeat [] = Unit {0}
NoRepeat (k ∷ ks) = All (λ j. k ≢ j) ks × NoRepeat ks

-- Every key has an id.
abbrev pub HasIds : Map String ℕ → List String → Type 0
HasIds ids = All (λ k. (id : ℕ) × (get k ids ≡ some id))

-- Every key has an id, which no later key has.
abbrev pub Apart : Map String ℕ → List String → Type 0
Apart ids [] = Unit {0}
Apart ids (k ∷ ks) =
    ((id : ℕ) × (get k ids ≡ some id) × All (λ j. get j ids ≢ some id) ks) × Apart ids ks

All-imp {ℓ κ ι} :
    {A : Type ℓ} (P : A → Type κ) (Q : A → Type ι) (xs : List A)
    → ((x : A) → P x → Q x)
    → All P xs
    → All Q xs
All-imp P Q [] f h = tt
All-imp P Q (x ∷ xs) f h = (f x h.0, All-imp P Q xs f h.1)

All-zip {ℓ κ ι} :
    {A : Type ℓ} (P : A → Type κ) (Q : A → Type ι) (xs : List A)
    → All P xs
    → All Q xs
    → All (λ x. P x × Q x) xs
All-zip P Q [] p q = tt
All-zip P Q (x ∷ xs) p q = ((p.0, q.0), All-zip P Q xs p.1 q.1)

-- The id of a key is not among those seen.
abbrev Fresh : Map String ℕ → Map ℕ String → String → Type 0
Fresh ids back k = (id : ℕ) → get k ids ≡ some id → get id back ≡ none

Fresh-insert :
    (ids : Map String ℕ) (back : Map ℕ String) (k : String) (id : ℕ) (j : String)
    → get j ids ≢ some id
    → Fresh ids back j
    → Fresh ids (insert id k back) j
Fresh-insert ids back k id j apart f n g = elim (Bool-cases (id == n)) [
  | inl same ↦ ground (arith, ==_iff id n, apart)
  | inr other ↦ ground (arith, get-insert id n k back, f n g)
]

module _ {P : Python} where
  check_keys-ok :
      (keys : List String) (ids : Map String ℕ) (back : Map ℕ String)
      → Apart ids keys
      → All (Fresh ids back) keys
      → check_keys {P = P} keys ids back ≡ ok tt
  unfolding check_keys
  check_keys-ok [] ids back a f = refl
  check_keys-ok (k ∷ ks) ids back ((id, g, others), a) f =
      let later =
        All-imp (λ j. (get j ids ≢ some id) × Fresh ids back j) (Fresh ids (insert id k back)) ks
          (λ j h. Fresh-insert ids back k id j h.0 h.1)
          (All-zip (λ j. get j ids ≢ some id) (Fresh ids back) ks others f.1) in
      ground (arith, f.0 id g, check_keys-ok ks ids (insert id k back) a later)

-- Distinct keys of a map without a double id.
IsSymbolMap-Apart :
    (ids : Map String ℕ) (keys : List String)
    → IsSymbolMap ids
    → NoRepeat keys
    → HasIds ids keys
    → Apart ids keys
IsSymbolMap-Apart ids [] s n h = tt
IsSymbolMap-Apart ids (k ∷ ks) s n ((id, g), h) = (
  (
    id,
    g,
    All-imp (λ j. k ≢ j) (λ j. get j ids ≢ some id) ks (λ j ne e. ne (s.injective k j id g e)) n.0,
  ),
  IsSymbolMap-Apart ids ks s n.1 h,
)

number_keys-other :
    (i : ℕ) (k : String) (ks : List String) (ids : Map String ℕ)
    → All (λ j. k ≢ j) ks
    → get k (number_keys i ks ids) ≡ get k ids
unfolding number_keys
number_keys-other i k [] ids h = refl
number_keys-other i k (j ∷ ks) ids h =
    number_keys-other (suc i) k ks (insert j ((i % 4294967296 + 1) % 4294967296) ids) h.1
    ∙ ground (arith, get-insert j k ((i % 4294967296 + 1) % 4294967296) ids, ==_iff j k, h.0)

-- The ids grow with the place of the key.
abbrev Above : ℕ → Map String ℕ → String → Type 0
Above i ids k = (id : ℕ) × (get k ids ≡ some id) × (i < id)

Above-ne :
    (i : ℕ) (ids : Map String ℕ) (j : String) → Above (suc i) ids j → get j ids ≢ some (suc i)
Above-ne i ids j (id, g, lt) e = ground arith

number_keys-Above :
    (i : ℕ) (keys : List String) (ids : Map String ℕ)
    → NoRepeat keys
    → i + length keys < 4294967296
    → All (Above i (number_keys i keys ids)) keys × Apart (number_keys i keys ids) keys
unfolding number_keys
number_keys-Above i [] ids n h = (tt, tt)
number_keys-Above i (k ∷ ks) ids n h =
    let id = (i % 4294967296 + 1) % 4294967296 in
    let (above, apart) = number_keys-Above (suc i) ks (insert k id ids) n.1 (omega arith) in
    let all = number_keys (suc i) ks (insert k id ids) in
    let here : get k all ≡ some (suc i) =
      number_keys-other (suc i) k ks (insert k id ids) n.0
      ∙ get-insert_self k id ids
      ∙ ap some (omega arith) in
    (
      (
        (suc i, here, omega arith),
        All-imp (Above (suc i) all) (Above i all) ks (λ j a. (a.0, a.1, omega (arith, a.2))) above,
      ),
      (
        (
          suc i,
          here,
          All-imp (Above (suc i) all) (λ j. get j all ≢ some (suc i)) ks (Above-ne i all) above,
        ),
        apart,
      ),
    )

-- An explicit map, if there is one, is as the constructor accepts it: no double id, and an id for
-- every key.
abbrev pub Explicit : List String → Option (Map String ℕ) → Type 0
Explicit keys none = length keys < 4294967296
Explicit keys (some ids) = IsSymbolMap ids × HasIds ids keys

-- For distinct keys and an explicit map as the constructor accepts it, or fewer than 2 ^ 32 keys and
-- none, `build_symbol_ids` succeeds, and every key has an id that no other key has.
pub build_symbol_ids-Apart :
    (P : Python) (keys : List String) (explicit_map : Option (Map String ℕ))
    → NoRepeat keys
    → Explicit keys explicit_map
    → (ids : Map String ℕ) × (build_symbol_ids {P = P} keys explicit_map ≡ ok ids) × Apart ids keys
unfolding build_symbol_ids get
build_symbol_ids-Apart P keys none n fits =
    (number_keys 0 keys [], refl, (number_keys-Above 0 keys [] n (omega (arith, fits))).1)
build_symbol_ids-Apart P keys (some ids) n (s, h) =
    let apart = IsSymbolMap-Apart ids keys s n h in
    let unseen =
      All-imp (λ k. (id : ℕ) × (get k ids ≡ some id)) (Fresh ids []) keys (λ k a id g. refl) h in
    (ids, rw (check_keys-ok {P = P} keys ids [] apart unseen), apart)
