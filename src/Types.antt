-- ===== src/Types.antt =====
-- backtester-core/src/types.rs: fixed-point values, sides, order states and the plain records.
-- Numbers of type i64 are integers, u64, u32 and u8 are naturals; the static strings that the
-- core attaches to a report are the constructors of `Reason`.
pub mod Lifecycle
use crypto_rs_backtester.Prelude.{ℕ, ◌≡◌, refl, ◌↔◌, Bool, true, false, Option, arith, eqb}
use crypto_rs_backtester.Prelude.Int.{ℤ, pos, negsuc, ◌*ℤ◌, div_trunc}
use crypto_rs_backtester.Prelude.I64.{sat_i64}
use crypto_rs_backtester.Prelude.Keys.{Eq}

-- `FixedPoint::SCALE`
abbrev pub scale : ℕ
scale = 100000000

-- The scaled value of a `FixedPoint`.
pub record FixedPoint : Type 0 where
  pub scaled : ℤ

unfoldable pub mul_scaled : FixedPoint → FixedPoint → FixedPoint
mul_scaled a b = record { scaled = sat_i64 (div_trunc (a.scaled *ℤ b.scaled) scale) }

pub data Side : Type 0 where
  buy sell none : Side

unfoldable pub as_i8 : Side → ℤ
as_i8 Side.buy = pos 1
as_i8 Side.sell = negsuc 0
as_i8 Side.none = pos 0

-- `TryFrom<i8> for Side`; the error message is the only one there is.
unfoldable pub try_from : ℤ → Option Side
try_from (pos n) = elim (eqb n 1) [
  | true ↦ Option.some Side.buy
  | false ↦ elim (eqb n 0) [ true ↦ Option.some Side.none | false ↦ Option.none ]
]
try_from (negsuc n) = elim (eqb n 0) [ true ↦ Option.some Side.sell | false ↦ Option.none ]

abbrev pub side_beq : Side → Side → Bool
side_beq Side.buy Side.buy = true
side_beq Side.sell Side.sell = true
side_beq Side.none Side.none = true
side_beq _ _ = false

pub side_beq_iff : (a b : Side) → (side_beq a b ≡ true) ↔ (a ≡ b)
side_beq_iff a b = ground arith

instance abbrev pub side_eq : Eq Side
side_eq = record { beq = side_beq; beq_iff = side_beq_iff }

pub data OrderType : Type 0 where
  limit market : OrderType

-- `opened` is the source's `Open`.
pub data OrderState : Type 0 where
  created pending_new opened partially_filled pending_cancel cancelled filled rejected : OrderState

abbrev pub is_terminal : OrderState → Bool
is_terminal OrderState.cancelled = true
is_terminal OrderState.filled = true
is_terminal OrderState.rejected = true
is_terminal _ = false

abbrev pub can_transition_to : OrderState → OrderState → Bool
can_transition_to OrderState.created OrderState.pending_new = true
can_transition_to OrderState.pending_new OrderState.opened = true
can_transition_to OrderState.pending_new OrderState.rejected = true
can_transition_to OrderState.pending_new OrderState.filled = true
can_transition_to OrderState.pending_new OrderState.partially_filled = true
can_transition_to OrderState.opened OrderState.partially_filled = true
can_transition_to OrderState.opened OrderState.filled = true
can_transition_to OrderState.opened OrderState.pending_cancel = true
can_transition_to OrderState.partially_filled OrderState.partially_filled = true
can_transition_to OrderState.partially_filled OrderState.filled = true
can_transition_to OrderState.partially_filled OrderState.pending_cancel = true
can_transition_to OrderState.partially_filled OrderState.cancelled = true
can_transition_to OrderState.pending_cancel OrderState.cancelled = true
can_transition_to OrderState.pending_cancel OrderState.filled = true
can_transition_to _ _ = false

-- The messages that reports carry.
pub data Reason : Type 0 where
  book_empty : Reason
  partial_remainder_cancelled : Reason
  kill_switch_active : Reason
  max_open_orders_exceeded : Reason
  max_position_exceeded : Reason

pub record OrderReport : Type 0 where
  pub order_id : ℕ
  pub client_order_id : ℕ
  pub last_fill_qty : ℤ
  pub last_fill_price : ℤ
  pub filled_qty : ℤ
  pub remaining_qty : ℤ
  pub reason : Option Reason
  pub symbol_id : ℕ
  pub status : OrderState

pub record FundingEvent : Type 0 where
  pub ts_exchange : ℤ
  pub rate : ℤ
  pub symbol_id : ℕ

pub record Tick : Type 0 where
  pub ts_exchange : ℤ
  pub ts_local : ℤ
  pub seq : ℕ
  pub price : ℤ
  pub qty : ℤ
  pub symbol_id : ℕ
  pub side : Side
  pub flags : ℕ

pub record L2Update : Type 0 where
  pub ts_exchange : ℤ
  pub seq : ℕ
  pub price : ℤ
  pub qty : ℤ
  pub symbol_id : ℕ
  pub side : Side

pub record L3Update : Type 0 where
  pub ts_exchange : ℤ
  pub seq : ℕ
  pub symbol_id : ℕ
  pub order_id : ℕ
  pub price : ℤ
  pub qty : ℤ
  pub side : Side
  pub action : ℕ

pub record Order : Type 0 where
  pub order_id : ℕ
  pub client_order_id : ℕ
  pub ts_submit : ℤ
  pub seq : ℕ
  pub price : ℤ
  pub qty : ℤ
  pub symbol_id : ℕ
  pub side : Side
  pub order_type : OrderType
