-- ===== src/EventQueue/Order.antt =====
-- backtester-core/src/event_queue.rs: events leave the queue in the order of (ts_sim, seq), whatever
-- the order in which they were pushed.
use mathlib.Core.List.{
  Perm, Mem, mem-cons_self, mem-cons_of_mem, perm_middle, append-nil, not-mem-nil,
}
use mathlib.Core.List.Perm
use crypto_rs_backtester.Prelude.{
  ℕ, zero, suc, ◌≡◌, refl, ◌≢◌, Ordering, none, some, List, [], ◌∷◌, ◌++◌, arith, Option-cases, inl,
  inr, subst,
}
use crypto_rs_backtester.Collections.BinaryHeap
use crypto_rs_backtester.Collections.BinaryHeap.Order.{
  IsOrder, pop-perm, pop-least, pop-none as heap_empty,
}
use crypto_rs_backtester.Prelude.Int.{eq_of_parts}
use crypto_rs_backtester.Event.{EventId, Event, id_cmp}
use crypto_rs_backtester.EventQueue.{EventQueue, before, new, push, pop, push_all, pop_n}

before-IsOrder : IsOrder before
before-IsOrder = record {
  irrefl = λ a. ground arith;
  trans = λ a b c. ground arith;
  asym = λ a b. ground arith;
}

-- No two events in the list share their id.
abbrev pub Distinct : List Event → Type 0
Distinct h = (a b : Event) → Mem a h → Mem b h → a.id ≡ b.id → a ≡ b

-- `pop` takes an event that no queued event precedes in (ts_sim, seq), and leaves exactly the others.
pub pop_lem :
    (q : EventQueue) (e : Event) (rest : EventQueue)
    → pop q ≡ some (e, rest)
    → Perm (e ∷ rest.heap) q.heap × ((f : Event) → Mem f q.heap → id_cmp f.id e.id ≢ Ordering.lt)
unfolding pop
pop_lem q e rest h = elim (Option-cases (BinaryHeap.pop before q.heap)) [
  | inl n ↦ cc
  | inr ((x, xs), n) ↦
      let same : x ≡ e = ground arith in
      let left : xs ≡ rest.heap = ground arith in
      (
        rw (← same, ← left) (pop-perm before q.heap x xs n),
        λ f m. let l = pop-least before before-IsOrder q.heap x xs n f m in ground arith,
      )
]

ids_eq : (a b : EventId) → id_cmp a b ≢ Ordering.lt → id_cmp b a ≢ Ordering.lt → a ≡ b
ids_eq a b h k = ground (arith, eq_of_parts a.ts_sim b.ts_sim)

Distinct-perm : {h k : List Event} → Perm h k → Distinct h → Distinct k
Distinct-perm p d a b ma mb = d a b ((Perm.mem_iff p).1 ma) ((Perm.mem_iff p).1 mb)

Distinct-tail : {e : Event} {h : List Event} → Distinct (e ∷ h) → Distinct h
Distinct-tail d a b ma mb = d a b (mem-cons_of_mem _ ma) (mem-cons_of_mem _ mb)

popped-Mem :
    (q : EventQueue) (e : Event) (rest : EventQueue) → pop q ≡ some (e, rest) → Mem e q.heap
popped-Mem q e rest h = (Perm.mem_iff (pop_lem q e rest h).0).0 mem-cons_self

-- Two queues with the same events give the same event, and keep the same events.
pop-perm_eq :
    (p q : EventQueue) (e f : Event) (r s : EventQueue)
    → Distinct p.heap
    → Perm p.heap q.heap
    → pop p ≡ some (e, r)
    → pop q ≡ some (f, s)
    → (e ≡ f) × Perm r.heap s.heap
pop-perm_eq p q e f r s d w hp hq =
    let lp = pop_lem p e r hp in
    let lq = pop_lem q f s hq in
    let f_in_p : Mem f p.heap = (Perm.mem_iff w).1 (popped-Mem q f s hq) in
    let e_in_q : Mem e q.heap = (Perm.mem_iff w).0 (popped-Mem p e r hp) in
    let same : e ≡ f =
      d e f (popped-Mem p e r hp) f_in_p (ids_eq e.id f.id (lq.1 e e_in_q) (lp.1 f f_in_p)) in
    (same, Perm.cons_inv (Perm.trans lp.0 (Perm.trans w (rw same (Perm.symm lq.0)))))

pop-none : (q : EventQueue) → pop q ≡ none → q.heap ≡ []
unfolding pop
pop-none q h = elim (Option-cases (BinaryHeap.pop before q.heap)) [
  | inl n ↦ heap_empty before q.heap n
  | inr ((x, xs), n) ↦ ground arith
]

perm_nil_pop :
    (p q : EventQueue) (f : Event) (s : EventQueue)
    → Perm p.heap q.heap
    → pop p ≡ none
    → pop q ≡ some (f, s)
    → ⊥
perm_nil_pop p q f s w hp hq =
    not-mem-nil (subst (Mem f) (pop-none p hp) ((Perm.mem_iff w).1 (popped-Mem q f s hq)))

pop_n-perm :
    (n : ℕ) (p q : EventQueue) → Distinct p.heap → Perm p.heap q.heap → pop_n n p ≡ pop_n n q
unfolding pop_n
pop_n-perm zero p q d w = refl
pop_n-perm (suc n) p q d w = elim (Option-cases (pop p)) [
  | inl np ↦ elim (Option-cases (pop q)) [
    | inl nq ↦ rw (np, nq, pop_n)
    | inr ((f, s), hq) ↦ absurd (perm_nil_pop p q f s w np hq)
  ]
  | inr ((e, r), hp) ↦ elim (Option-cases (pop q)) [
    | inl nq ↦ absurd (perm_nil_pop q p e r (Perm.symm w) nq hp)
    | inr ((f, s), hq) ↦
        let step = pop-perm_eq p q e f r s d w hp hq in
        let rest =
          pop_n-perm n r s (Distinct-tail (Distinct-perm (Perm.symm (pop_lem p e r hp).0) d))
            step.1 in
        rw (hp, hq, pop_n) (ground (arith, step.0, rest))
  ]
]

push_all-perm : (es : List Event) (q : EventQueue) → Perm (push_all es q).heap (es ++ q.heap)
unfolding push_all push
push_all-perm [] q = Perm.refl _
push_all-perm (e ∷ es) q = Perm.trans (push_all-perm es (push e q)) (perm_middle es q.heap)

-- Whatever the order in which the same events, of distinct ids, are pushed into a new queue, they
-- are popped in the same sequence, for every number of pops.
pub pop_n-push_all :
    (n : ℕ) (xs ys : List Event)
    → Distinct xs
    → Perm xs ys
    → pop_n n (push_all xs new) ≡ pop_n n (push_all ys new)
unfolding new
pop_n-push_all n xs ys d w =
    pop_n-perm n _ _ (Distinct-perm (Perm.symm (pushed xs)) d)
      (Perm.trans (pushed xs) (Perm.trans w (Perm.symm (pushed ys))))
  where
    pushed : (zs : List Event) → Perm (push_all zs new).heap zs
    pushed zs = rw append-nil at (push_all-perm zs new)
