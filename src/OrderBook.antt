-- ===== src/OrderBook.antt =====
-- The order books, and what the queue models read of them.
pub mod L2
pub mod L3
pub mod Depth
