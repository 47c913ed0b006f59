-- ===== src/Lib.antt =====
-- A model of the backtester, its deterministic core in backtester-core/src and the configuration,
-- runs and results in backtester-py/src/lib.rs, and what it keeps.
--
-- The engine (engine.rs) pops events from one queue (event_queue.rs, event.rs) and runs each on the
-- exchange simulator of its symbol (exchange_simulator.rs). A simulator holds an L2 or an L3 book
-- (orderbook_l2.rs, orderbook_l3.rs), the live orders, and for each a state of the queue model
-- (queue_model.rs) that decides how much of it a market trade fills. Fills go to the account
-- (account.rs), their PnL less fees to the trade log and to the risk guard (risk_guard.rs), which
-- checks every order that a strategy submits. Deliveries and reports go to the strategy one by one or
-- in batches, whose size the tuner (tuner.rs) adapts. The trade log (stats.rs) keeps fills, PnL and a
-- running summary, from which the statistics are made. A sweep (sweep.rs) runs one engine for each
-- strategy on a thread pool. The input is read over a cursor and an iterator that reads ahead (io.rs).
-- The bindings check a configuration, choose the engine's models, load the data, hand the events to a
-- strategy in Python and give the log and the statistics back.
--
-- Files:
--   Types, Event          the values, states and events of types.rs and event.rs
--   EventQueue            event_queue.rs, over Collections.BinaryHeap
--   OrderBook.L2, .L3     the two books; OrderBook.Depth is the trait `MarketDepth`
--   QueueModel            the trait and the models `NoopQueue`, `ConservativeQueue`,
--                         `VolumeClockQueue` and `L3ExactQueue`; QueueModel.Laws is the contract
--                         that the exchange relies on, and each model's file Fill meets it
--   Exchange              `ExchangeSimulator<Q>`: requests in Exchange, fills in Exchange.Matching
--   RiskGuard, Account, Tuner
--                         the files of these names
--   Strategy, Sources     the traits of these names in engine.rs, tick_source.rs and l3_source.rs,
--                         and the heap of the sources' heads; Sources.Arrow the columns of a batch,
--                         Sources.Stream the loop that both Arrow sources have, Sources.Ticks
--                         `ArrowTickSource`, Sources.Updates `ArrowL3Source`
--   Latency               the trait `LatencyModel` and `ConstantLatency`; Latency.LogNormal is
--                         `LogNormalJitter` (latency_model.rs)
--   Io                    io.rs: Io.Cursor is `MmapCursor`, Io.Readahead `AsyncBatchIter`
--   Sweep                 sweep.rs
--   Stats                 stats.rs: Stats.Log is `TradeLog`, Stats.Incremental `IncrementalStats`,
--                         Stats.Positions `pnl_deltas_from_fills`, Stats.Curve the equity curve,
--                         Stats.Ratios the ratios over a whole series, Stats.Summary
--                         `calculate_stats`
--   Engine                the engine's state and `push_event`; Engine.Commands is
--                         `handle_commands`, Engine.Handlers the arms of `step` that run on the
--                         exchange side, Engine.Delivery those that reach the strategy and
--                         `flush_strategy`, Engine.Ingest the passes over the sources, Engine.Step
--                         `step` and `run`
--   Bindings              backtester-py/src/lib.rs: Bindings.Config is `Backtester` and its
--                         constructor, Bindings.Symbols `build_symbol_ids`, Bindings.Values the
--                         views of ticks and reports, Bindings.Context `PyContext`,
--                         Bindings.Callbacks `PyStrategy`, Bindings.Dispatch `AnyEngine`,
--                         Bindings.Parse `parse_polars_data`, Bindings.Runs `run`, with
--                         Bindings.Runs.Many `run_many` and Bindings.Runs.Streams `run_arrow`,
--                         and Bindings.BacktestResult the class of this name
--   Prelude, Collections  integers, machine words, maps and the heap of the standard library
--   Tests                 concrete runs
-- A function keeps its name. The state that a method changes is the last argument and the last part
-- of the result. The `Result` of a fallible method stands beside the state, which shows what a
-- failure leaves behind.
--
-- Numbers: an i64 is an integer; `+`, `-` and `abs` wrap as in a release build, the saturating
-- operators and the clamping casts are written out, and products on i128 saturate where the source
-- says so and wrap elsewhere. Theorems say where a value must be a word.
--
-- Maps are association lists without a second entry for a key that is inserted; the order of a
-- BTreeMap is used only by `first` and `last` (Collections.Map.Extremes). The hash map of buckets
-- has one model for both of its feature-gated backends. The heap is a list from which a greatest
-- element is selected, which is what the documentation of the standard heap promises.
--
-- Fuel: the loop of `consume_ahead_orders` has a unit of fuel for each test of its condition, one
-- more than there are orders, which is enough because every pass removes an order or uses up the
-- quantity. The loop over the sources in `step` takes fuel, which is enough if it is more
-- than the elements that the sources have left. The loop of `run` need not end, for a strategy may
-- go on submitting; it takes fuel, and none says that it ran out.
-- A call of `next` on the iterator that reads ahead waits for the other thread; it has fuel for three
-- tries, which is enough because that thread acts at most twice before an item is there. The bindings
-- pass the fuel of a run on, and give none where the engine ran out of it.
--
-- Parameters: the queue model, the latency model, the strategy and the sources, in which the engine
-- is generic; the random generator; the clock, whose reading at a flush is an argument; and the
-- arithmetic on f64, that of the tuner apart from that of the statistics, with the functions and the
-- draws that the log-normal model uses. The crate `arrow` is one too (Sources.Arrow), and the reader
-- of a source is the list of the items that it gives. So are the thread pool of rayon with its
-- `reduce` and its order of runs, and for the bindings the objects, exceptions and calls of Python and
-- the conversion of a text to lower case.
--
-- Not modelled: opening and mapping a file, and the Arrow reader made over the cursor; the backend of
-- the statistics for a GPU, which is a stub; the conversions of fixed-point values to and from f64;
-- seeding, thread placement and test data (rng.rs, numa.rs, fixtures.rs); in the bindings the smoke run
-- with its checksum, the printed forms of the classes, the registration of the module and the calls
-- over the foreign function interface (arrow_utils.rs). They are third-party calls or formatting.
pub mod Prelude
pub mod Collections
pub mod Types
pub mod Event
pub mod EventQueue
pub mod OrderBook
pub mod QueueModel
pub mod Exchange
pub mod RiskGuard
pub mod Account
pub mod Tuner
pub mod Strategy
pub mod Sources
pub mod Stats
pub mod Latency
pub mod Engine
pub mod Io
pub mod Sweep
pub mod Bindings
pub mod Tests
