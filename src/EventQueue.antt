-- ===== src/EventQueue.antt =====
-- backtester-core/src/event_queue.rs: the global event queue.
pub mod Order
use crypto_rs_backtester.Prelude.{
  ℕ, zero, suc, Bool, true, false, Ordering, Option, none, some, List, [], ◌∷◌, length,
}
use crypto_rs_backtester.Collections.BinaryHeap
use crypto_rs_backtester.Event.{Event, id_cmp}
use mathlib.Core.Option

-- `QueuedEvent::cmp`: reversed, for the heap is a max-heap.
abbrev pub queued_cmp : Event → Event → Ordering
queued_cmp a b = id_cmp b.id a.id

-- The heap gives its greatest element first.
abbrev pub before : Event → Event → Bool
before a b = elim (queued_cmp a b) [ Ordering.gt ↦ true | _ ↦ false ]

pub record EventQueue : Type 0 where
  pub heap : List Event

unfoldable pub new : EventQueue
new = record { heap = [] }

unfoldable pub len : EventQueue → ℕ
len q = length q.heap

unfoldable pub peek : EventQueue → Option Event
unfolding BinaryHeap.peek
peek q = BinaryHeap.peek before q.heap

unfoldable pub push : Event → EventQueue → EventQueue
unfolding BinaryHeap.push
push e q = record { heap = BinaryHeap.push e q.heap }

unfoldable pub pop : EventQueue → Option (Event × EventQueue)
unfolding BinaryHeap.pop
pop q = Option.map (λ r. (r.0, record { heap = r.1 })) (BinaryHeap.pop before q.heap)

-- A client that pushes a list of events and then pops `n` times.
unfoldable pub push_all : List Event → EventQueue → EventQueue
unfolding push
push_all [] q = q
push_all (e ∷ es) q = push_all es (push e q)

unfoldable pub pop_n : ℕ → EventQueue → List Event
unfolding pop
pop_n zero q = []
pop_n (suc n) q = elim (pop q) [ none ↦ [] | some (e, rest) ↦ e ∷ pop_n n rest ]
