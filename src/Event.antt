-- ===== src/Event.antt =====
-- backtester-core/src/event.rs: the events of the simulation and the key that orders them.
use crypto_rs_backtester.Prelude.{ℕ, ◌+◌, compare, Ordering}
use crypto_rs_backtester.Prelude.Int.{ℤ, pos_part, neg_part}
use crypto_rs_backtester.Types.{Tick, L2Update, L3Update, Order, OrderReport, FundingEvent}

pub record EventId : Type 0 where
  pub ts_sim : ℤ
  pub seq : ℕ

pub data EventKind : Type 0 where
  tick : Tick → EventKind
  tick_delivery : Tick → EventKind
  l2_update : L2Update → EventKind
  l3_update : L3Update → EventKind
  order : Order → EventKind
  order_ack : ℕ → EventKind
  order_cancel : ℕ → EventKind
  order_cancel_ack : ℕ → EventKind
  order_report : OrderReport → EventKind
  funding : FundingEvent → EventKind
  timer : ℕ → EventKind

pub record Event : Type 0 where
  pub id : EventId
  pub kind : EventKind

-- The derived `Ord` of `EventId`: by time, and at the same time by sequence number.
abbrev pub id_cmp : EventId → EventId → Ordering
id_cmp a b =
    elim (compare (pos_part a.ts_sim + neg_part b.ts_sim) (pos_part b.ts_sim + neg_part a.ts_sim)) [
      | Ordering.lt ↦ Ordering.lt
      | Ordering.gt ↦ Ordering.gt
      | Ordering.eq ↦ compare a.seq b.seq
    ]
