-- ===== src/Bindings/Config/Laws.antt =====
-- backtester-py/src/lib.rs: what an accepted configuration satisfies.
use Prim.Native.String.{String}
use crypto_rs_backtester.Prelude.{
  ℕ, ◌≤◌, ◌≡◌, refl, ◌⊎◌, inl, inr, Bool, true, false, not, ◌&&◌, Option, none, some, List, [], ◌∷◌,
  Result, ok, err, arith, eqb, Bool-cases, Option-cases, Result-cases, subst, ◌>>◌, All,
}
use crypto_rs_backtester.Prelude.Int.{pos, ◌≤ℤ◌, ltb_ℤ}
use crypto_rs_backtester.Prelude.Keys.{◌==◌, nat_eq, ==_iff}
use crypto_rs_backtester.Collections.Map.{Map, get, insert, get-insert}
use crypto_rs_backtester.Bindings.{Python, PyErr, value_error, Message, string_eq}
use crypto_rs_backtester.Bindings.Config.{
  Arguments, Backtester, one_of, is_some, refuse_if, resolve_ids, check_covered, resolve_symbol_map,
  check_modes, new, accepted,
}

-- No id is 0, and no two keys have the same id.
pub record IsSymbolMap (ids : Map String ℕ) : Type 0 where
  pub positive : (k : String) (id : ℕ) → get k ids ≡ some id → 1 ≤ id
  pub injective : (j k : String) (id : ℕ) → get j ids ≡ some id → get k ids ≡ some id → j ≡ k

-- The keys by id hold every entry that has been taken over.
abbrev Tracked : Map String ℕ → Map ℕ String → Type 0
Tracked ids ids_to_keys =
    (k : String) (id : ℕ) → get k ids ≡ some id → (1 ≤ id) × (get id ids_to_keys ≡ some k)

Tracked-IsSymbolMap :
    (ids : Map String ℕ) (back : Map ℕ String) → Tracked ids back → IsSymbolMap ids
Tracked-IsSymbolMap ids back t = record {
  positive = λ k id h. (t k id h).0;
  injective = λ j k id g h. ground (arith, t j id g, t k id h);
}

Tracked-insert :
    (ids : Map String ℕ) (back : Map ℕ String) (key : String) (id : ℕ)
    → Tracked ids back
    → 1 ≤ id
    → get id back ≡ none
    → Tracked (insert key id ids) (insert id key back)
Tracked-insert ids back key id t h fresh k n g = elim (Bool-cases (key == k)) [
  | inl same ↦
      ground (arith, get-insert key k id ids, get-insert id n key back, ==_iff key k, ==_iff id n)
  | inr other ↦
      ground (arith, get-insert key k id ids, get-insert id n key back, ==_iff id n, t k n)
]

module _ {P : Python} where
  refuse_if-ok : (b : Bool) (m : Message) {u : Unit {0}} → refuse_if {P = P} b m ≡ ok u → b ≡ false
  refuse_if-ok true m h = cc
  refuse_if-ok false m h = refl

  -- An entry with an id that was extracted.
  abbrev take_over :
      List (P.Obj × P.Obj)
      → Map String ℕ
      → Map ℕ String
      → String
      → ℕ
      → Result (Map String ℕ) (PyErr P)
  take_over entries ids back key id = do
    refuse_if {P = P} (eqb id 0) (Message.zero_id key)
    elim (get id back) [
      | some existing_key ↦ err (value_error (Message.duplicate_id id existing_key key))
      | none ↦ resolve_ids entries (insert key id ids) (insert id key back)
    ]

  take_over-Tracked :
      (resolved : Map String ℕ) (entries : List (P.Obj × P.Obj)) (ids : Map String ℕ)
      (back : Map ℕ String) (key : String) (id : ℕ)
      → ((ids' : Map String ℕ) (back' : Map ℕ String)
          → Tracked ids' back'
          → resolve_ids {P = P} entries ids' back' ≡ ok resolved
          → IsSymbolMap resolved)
      → Tracked ids back
      → take_over entries ids back key id ≡ ok resolved
      → IsSymbolMap resolved
  take_over-Tracked resolved entries ids back key id ih t h = elim (Bool-cases (eqb id 0)) [
    | inl z ↦ ground arith
    | inr nonzero ↦ elim (Option-cases (get id back)) [
      | inl fresh ↦
          ih (insert key id ids) (insert id key back)
            (Tracked-insert ids back key id t (ground arith) fresh) (ground arith)
      | inr (existing_key, e) ↦ ground arith
    ]
  ]

  resolve_ids-Tracked :
      (resolved : Map String ℕ) (entries : List (P.Obj × P.Obj)) (ids : Map String ℕ)
      (back : Map ℕ String)
      → Tracked ids back
      → resolve_ids {P = P} entries ids back ≡ ok resolved
      → IsSymbolMap resolved
  unfolding resolve_ids
  resolve_ids-Tracked resolved [] ids back t h = ground (arith, Tracked-IsSymbolMap ids back t)
  resolve_ids-Tracked resolved ((k, v) ∷ entries) ids back t h =
      elim (Result-cases (P.extract_string k)) [
        | inr (e, p) ↦ ground arith
        | inl (key, p) ↦ elim (Result-cases (P.extract_u32 v)) [
          | inr (e, q) ↦ ground arith
          | inl (id, q) ↦
              take_over-Tracked resolved entries ids back key id
                (resolve_ids-Tracked resolved entries) t (ground arith)
        ]
      ]

module _ (P : Python) where
  -- Every key of the entries is a string that has an id.
  abbrev pub Covers : List (P.Obj × P.Obj) → Map String ℕ → Type 0
  Covers entries ids =
      All
        (λ (entry : P.Obj × P.Obj).
          (key : String) × (id : ℕ) × (P.extract_string entry.0 ≡ ok key) × (get key ids ≡ some id))
        entries

  check_covered-Covers :
      (entries : List (P.Obj × P.Obj)) (ids : Map String ℕ) (u : Unit {0})
      → check_covered {P = P} entries ids ≡ ok u
      → Covers entries ids
  unfolding check_covered
  check_covered-Covers [] ids u h = tt
  check_covered-Covers ((k, v) ∷ entries) ids u h = elim (Result-cases (P.extract_string k)) [
    | inr (e, p) ↦ ground arith
    | inl (key, p) ↦ elim (Option-cases (get key ids)) [
      | inl missing ↦ ground arith
      | inr (id, g) ↦ ((key, id, p, g), check_covered-Covers entries ids u (ground arith))
    ]
  ]

  -- What the symbol map of a configuration satisfies with the data.
  abbrev pub SymbolsOf : P.Obj → Option (Map String ℕ) → Type 0
  SymbolsOf market_data none = Unit {0}
  SymbolsOf market_data (some ids) =
      IsSymbolMap ids
      × (entries : List (P.Obj × P.Obj)) × (P.as_dict market_data ≡ some entries)
      × Covers entries ids

  resolve_symbol_map-SymbolsOf :
      (market_data : P.Obj) (symbol_map : Option P.Obj) (resolved : Option (Map String ℕ))
      → resolve_symbol_map {P = P} market_data symbol_map ≡ ok resolved
      → SymbolsOf market_data resolved
  unfolding resolve_symbol_map get
  resolve_symbol_map-SymbolsOf market_data none resolved h =
      subst (SymbolsOf market_data) none-resolved tt
    where
      none-resolved : none ≡ resolved
      none-resolved = cc h
  resolve_symbol_map-SymbolsOf market_data (some py_map) resolved h =
      elim (Option-cases (P.as_dict py_map)) [
        | inl e ↦ ground arith
        | inr (entries, e) ↦ elim (Option-cases (P.as_dict market_data)) [
          | inl d ↦ ground arith
          | inr (data_entries, d) ↦ elim (Result-cases (resolve_ids {P = P} entries [] [])) [
            | inr (x, r) ↦ ground arith
            | inl (ids, r) ↦ elim (Result-cases (check_covered {P = P} data_entries ids)) [
              | inr (x, c) ↦ ground arith
              | inl (u, c) ↦
                  let some-resolved : some ids ≡ resolved = ground arith in
                  subst (SymbolsOf market_data) some-resolved (
                    resolve_ids-Tracked {P = P} ids entries [] [] (λ k id g. cc) r,
                    data_entries,
                    d,
                    check_covered-Covers data_entries ids u c,
                  )
            ]
          ]
        ]
      ]

  -- What an accepted configuration satisfies.
  pub record IsConfigured (b : Backtester P) : Type 0 where
    pub room : 1 ≤ b.ring_buffer_size
    pub queue : (b.queue_model ≡ "conservative") ⊎ (b.queue_model ≡ "volume_clock")
    pub latency : (b.latency_model ≡ "constant") ⊎ (b.latency_model ≡ "log_normal")
    pub depth :
        ((b.depth_mode ≡ "l2") × (b.l3_data ≡ none))
        ⊎ ((b.depth_mode ≡ "l3") × ((l3_data : P.Obj) × (b.l3_data ≡ some l3_data)))
    pub loss : b.max_loss ≤ℤ pos 0
    pub symbols : SymbolsOf b.market_data b.symbol_map

  one_of-cases : (text a b : String) → one_of text a b ≡ true → (text ≡ a) ⊎ (text ≡ b)
  one_of-cases text a b h = ground (arith, ==_iff text a, ==_iff text b)

  pub record ModesPass (a : Arguments P) : Type 0 where
    pub queue : one_of a.queue_model "conservative" "volume_clock" ≡ true
    pub depth : one_of a.depth_mode "l2" "l3" ≡ true
    pub l3 : ((a.depth_mode == "l3") && not (is_some a.l3_data)) ≡ false
    pub l2 : ((a.depth_mode == "l2") && is_some a.l3_data) ≡ false
    pub latency : one_of a.latency_model "constant" "log_normal" ≡ true
    pub loss : ltb_ℤ (pos 0) a.max_loss ≡ false

  check_modes-pass : (a : Arguments P) (u : Unit {0}) → check_modes a ≡ ok u → ModesPass a
  unfolding check_modes
  check_modes-pass a u h = ground arith

  ModesPass-IsConfigured :
      (a : Arguments P) (resolved : Option (Map String ℕ))
      → 1 ≤ a.ring_buffer_size
      → SymbolsOf a.market_data resolved
      → ModesPass a
      → IsConfigured (accepted a resolved)
  ModesPass-IsConfigured a resolved room symbols m = record {
    room = room;
    queue = one_of-cases a.queue_model "conservative" "volume_clock" m.queue;
    latency = one_of-cases a.latency_model "constant" "log_normal" m.latency;
    depth = elim (one_of-cases a.depth_mode "l2" "l3" m.depth) [
      | inl l2 ↦ inl (l2, no_l3 (Option-cases a.l3_data) l2)
      | inr l3 ↦ inr (l3, some_l3 (Option-cases a.l3_data) l3)
    ];
    loss = ground (arith, m.loss);
    symbols = symbols;
  }
    where
      no_l3 :
          (a.l3_data ≡ none) ⊎ ((x : P.Obj) × (a.l3_data ≡ some x))
          → a.depth_mode ≡ "l2"
          → a.l3_data ≡ none
      no_l3 (inl e) l2 = e
      no_l3 (inr (x, e)) l2 = ground (arith, m.l2, ==_iff a.depth_mode "l2")

      some_l3 :
          (a.l3_data ≡ none) ⊎ ((x : P.Obj) × (a.l3_data ≡ some x))
          → a.depth_mode ≡ "l3"
          → (x : P.Obj) × (a.l3_data ≡ some x)
      some_l3 (inl e) l3 = ground (arith, m.l3, ==_iff a.depth_mode "l3")
      some_l3 (inr e) l3 = e

  -- The constructor of `Backtester` accepts only a configuration with a known queue model and latency
  -- model, a ring buffer with room, an L3 feed if and only if the depth mode is "l3", a loss limit that
  -- is not positive, and, where a symbol map is given, one that gives every key of the data an id, no
  -- two keys the same, and none the id 0.
  pub new-IsConfigured : (a : Arguments P) (b : Backtester P) → new a ≡ ok b → IsConfigured b
  unfolding new
  new-IsConfigured a b h = elim (Bool-cases (eqb a.ring_buffer_size 0)) [
    | inl z ↦ ground arith
    | inr z ↦ elim (Result-cases (resolve_symbol_map {P = P} a.market_data a.symbol_map)) [
      | inr (x, r) ↦ ground arith
      | inl (resolved, r) ↦ elim (Result-cases (check_modes a)) [
        | inr (x, m) ↦ ground arith
        | inl (u, m) ↦
            let same : accepted a resolved ≡ b = ground arith in
            subst IsConfigured same (
              ModesPass-IsConfigured a resolved (ground arith)
                (resolve_symbol_map-SymbolsOf a.market_data a.symbol_map resolved r)
                (check_modes-pass a u m))
      ]
    ]
  ]
