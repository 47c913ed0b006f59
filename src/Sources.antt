-- ===== src/Sources.antt =====
-- backtester-core/src/tick_source.rs and l3_source.rs, the traits; engine.rs, the heap that holds
-- the head of each source.
pub mod Arrow
pub mod Stream
pub mod Ticks
pub mod Updates
pub mod Finite
use crypto_rs_backtester.Prelude.{
  ℕ, ◌+◌, ◌++◌, zero, suc, Bool, true, false, Ordering, Option, none, some, List, [], ◌∷◌, Result,
  ok, err, compare, if◌then◌else◌,
}
use crypto_rs_backtester.Prelude.Int.{ℤ, pos_part, neg_part}
use crypto_rs_backtester.Collections.BinaryHeap

-- `trait TickSource` and `trait L3Source`: a stream of elements that can fail.
pub record Source (A X : Type 0) : Type 1 where
  pub State : Type 0
  pub peek : State → Result (Option A) X × State
  pub next : State → Result (Option A) X × State
  pub symbol_id : State → ℕ

pub record PeekedEvent : Type 0 where
  pub ts : ℤ
  pub seq : ℕ
  pub source_idx : ℕ

abbrev pub cmp_ℤ : ℤ → ℤ → Ordering
cmp_ℤ a b = compare (pos_part a + neg_part b) (pos_part b + neg_part a)

-- `PeekedEvent::cmp`, reversed for a max-heap: by time, sequence number and source.
abbrev pub peeked_cmp : PeekedEvent → PeekedEvent → Ordering
peeked_cmp a b = elim (cmp_ℤ b.ts a.ts) [
  | Ordering.eq ↦ elim (compare b.seq a.seq) [
    | Ordering.eq ↦ compare b.source_idx a.source_idx
    | o ↦ o
  ]
  | o ↦ o
]

abbrev pub before : PeekedEvent → PeekedEvent → Bool
before a b = elim (peeked_cmp a b) [ Ordering.gt ↦ true | _ ↦ false ]

-- `(a.ts, a.seq) <= (b.ts, b.seq)`
abbrev pub not_after : PeekedEvent → PeekedEvent → Bool
not_after a b = elim (cmp_ℤ a.ts b.ts) [
  | Ordering.lt ↦ true
  | Ordering.eq ↦ elim (compare a.seq b.seq) [ Ordering.gt ↦ false | _ ↦ true ]
  | Ordering.gt ↦ false
]

-- The sources of one kind, the heap of their heads, and whether the heap has been filled.
pub record Sources {A X : Type 0} (S : Source A X) : Type 0 where
  pub sources : List S.State
  pub source_heap : List PeekedEvent
  pub is_source_heap_initialized : Bool

unfoldable pub get_at : {B : Type 0} → ℕ → List B → Option B
get_at n [] = none
get_at zero (b ∷ bs) = some b
get_at (suc n) (b ∷ bs) = get_at n bs

unfoldable pub set_at : {B : Type 0} → ℕ → B → List B → List B
set_at n b [] = []
set_at zero b (c ∷ bs) = b ∷ bs
set_at (suc n) b (c ∷ bs) = c ∷ set_at n b bs

-- The head of a source, if it has one, goes on the heap.
abbrev pub push_head :
    {A : Type 0} → (A → ℤ × ℕ) → ℕ → Option A → List PeekedEvent → List PeekedEvent
push_head key idx head heap = elim head [
  | none ↦ heap
  | some a ↦ BinaryHeap.push (record { ts = (key a).0; seq = (key a).1; source_idx = idx }) heap
]

-- Every source is peeked in turn, up to the first failure.
unfoldable pub peek_all :
    {A X : Type 0} (S : Source A X)
    → (A → ℤ × ℕ)
    → ℕ
    → List S.State
    → List PeekedEvent
    → Result (Unit {0}) X × (List S.State × List PeekedEvent)
unfolding BinaryHeap.push
peek_all S key idx [] heap = (ok tt, ([], heap))
peek_all S key idx (s ∷ ss) heap =
    let (r, s') = S.peek s in
    elim r [
      | err x ↦ (err x, (s' ∷ ss, heap))
      | ok head ↦
          let (done, (ss', heap')) = peek_all S key (suc idx) ss (push_head key idx head heap) in
          (done, (s' ∷ ss', heap'))
    ]

module _ {A X : Type 0} {S : Source A X} where
  abbrev pub no_sources : Sources S
  no_sources = record { sources = []; source_heap = []; is_source_heap_initialized = false }

  unfoldable pub add_source : S.State → Sources S → Sources S
  add_source s m = record m { sources = m.sources ++ s ∷ []; is_source_heap_initialized = false }

  unfoldable pub initialize : (A → ℤ × ℕ) → Sources S → Result (Unit {0}) X × Sources S
  unfolding peek_all
  initialize key m =
      if m.is_source_heap_initialized
      then (ok tt, m)
      else let (r, (ss, heap)) = peek_all S key 0 m.sources [] in
        elim r [
          | err x ↦ (err x, record m { sources = ss; source_heap = heap })
          | ok done ↦ (
            ok tt,
            record { sources = ss; source_heap = heap; is_source_heap_initialized = true },
          )
        ]

  unfoldable pub peek_heap : Sources S → Option PeekedEvent
  unfolding BinaryHeap.peek
  peek_heap m = BinaryHeap.peek before m.source_heap

  unfoldable pub pop_heap : Sources S → Sources S
  unfolding BinaryHeap.pop
  pop_heap m = elim (BinaryHeap.pop before m.source_heap) [
    | none ↦ m
    | some (head, heap) ↦ record m { source_heap = heap }
  ]

  -- `sources[idx].next()`; an index out of range, on which the source panics, gives no result.
  unfoldable pub next_at : ℕ → Sources S → Option (Result (Option A) X × Sources S)
  unfolding get_at set_at
  next_at idx m = elim (get_at idx m.sources) [
    | none ↦ none
    | some s ↦ let (r, s') = S.next s in some (r, record m { sources = set_at idx s' m.sources })
  ]

  -- The new head of a source goes on the heap.
  unfoldable pub refill : (A → ℤ × ℕ) → ℕ → Sources S → Result (Unit {0}) X × Sources S
  unfolding get_at set_at BinaryHeap.push
  refill key idx m = elim (get_at idx m.sources) [
    | none ↦ (ok tt, m)
    | some s ↦
        let (r, s') = S.peek s in
        let m' = record m { sources = set_at idx s' m.sources } in
        elim r [
          | err x ↦ (err x, m')
          | ok head ↦ (ok tt, record m' { source_heap = push_head key idx head m.source_heap })
        ]
  ]
