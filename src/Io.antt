-- ===== src/Io.antt =====
-- backtester-core/src/io.rs: the cursor over a mapped file, and the iterator that reads ahead on a
-- thread of its own.
pub mod Cursor
pub mod Readahead
