-- ===== src/Lib.antt =====
-- The matching engine: price-time priority limit order books, the data structures below them, the
-- queues at their edges and the feed parsers.
--
-- The program's parts. `OrderBook` keeps an array of price levels indexed by tick; the orders of a
-- level are a doubly linked queue through the slots of a `Pool`, and an index leads from the id of an
-- order to its slot. `submit` sweeps the opposite side from its best price and rests what is left of a
-- limit order; `cancel` and `modify` reach an order through the index. `RefOrderBook` is the same
-- contract on ordered maps and deques. `PhotonBook` is the hardened book: a FIFO pool, a `FlatMap` as
-- index, an event for every change and an expiry queue. Trades leave the core through an `SPSCQueue`,
-- which the `Publisher` drains; market data come in through the parsers and are replayed into a book.
--
-- Which file models which part:
--   * Types: include/lob/types.hpp.
--   * Pool (Frees, Initial, Laws, Live): include/lob/pool.hpp; the operations are `init`, `allocate`,
--     `deallocate`, `get` and `put` (the two readings of `operator[]`).
--   * OrderBook (State, Levels, Match): include/lob/order_book.hpp and src/core/order_book.cpp, by the
--     names of the code. Levels has `rest_order`, `unlink_and_free` and the two reprice functions,
--     Match has `match`, OrderBook itself `can_fill`, `submit`, `cancel` and `modify`. The children
--     Cells, Layout, Edit, Splice, Unlink, Append, Place, Adjust, Fills and Fresh hold the invariant
--     `Rep`: the levels and the pool of a book stand for a queue of orders at each tick. Quantities is about
--     the results of `submit`.
--   * RefBook (State): include/lob/ref_order_book.hpp. The children Ordered, Apart, Sweeps, Uncrossed,
--     Stops, Fresh, Promise, AllOrNothing and Quantities are about its invariant `Valid`, its sweep and
--     its results.
--   * Refine: the two books against each other. Relation holds `Matches`: the layout of the detailed
--     book, the queues of the reference book, both indexes and the cached best prices are those of one
--     list of orders at each tick. Orders, Queues, Tops and Single are about such lists; Adjust,
--     Remove and Rest about one change in both books, with Unindex and Index for the indexes and
--     Reprice, Prices and Outside for the best prices; Front, Fill, Finish, Round, Outcome and Sweep
--     about the sweep, round by round; Counts, Ahead, Walks and CanFill about `can_fill`; Same, Settle,
--     Calls, Modify and Runs about the public calls, where `Allowed` says which calls are compared;
--     Observed, Ends, Bounds and Gone about what follows from it.
--   * Photon (State, Levels, Match, CanFill): include/lob/photon_book.hpp. Quiet is about the steps
--     that send no event, Events about lists of numbered events, Sent about the parts of `submit`, and
--     Log about a sequence of calls.
--   * FlatMap (Ends, Inserts, Erases): include/lob/flat_map.hpp.
--   * Spsc (Window, Refine, Steps, Invariant, Order): include/lob/spsc_queue.hpp, as functions and as
--     the steps of the two threads.
--   * Publisher (Calls, Delivery, Overrun): include/lob/publisher.hpp.
--   * Parsers (Lobster, Format, Itch): include/lob/parsers.hpp. Below Itch, Read and Messages say how a
--     sender encodes a feed and which events it stands for; Bodies and Feed are about parsing it.
--   * Replay (Generator, Skips): benchmarks/replay_main.cpp, the event generator and the replay loops.
--     Skips gives the calls that a sequence of events asks for.
--   * Base: shared names, tests, lists, words and maps. Examples: runs and instances.
--
-- How it is modelled. A 64-bit word is a native number, with `add64` and `sub64` for arithmetic that
-- wraps; a price is a signed integer without a bound. A handle is a 32-bit word. A method is a
-- function from the state to the state and its result; a write through a reference is a new record. A
-- read out of range gives a default and a write out of range does nothing. A trade sink is the list of
-- the trades it has been given; the sink of `PhotonBook` is a type and a function that are arguments.
-- `std::unordered_map` is an association list, `std::map` a sorted one, the expiry queue a list in the
-- order of its times. The memory orders of the queue's atomics are taken as sequentially consistent,
-- and each access is one step.
--
-- Bounds and fuel. A sweep has fuel for one round more than the book has open orders; every round but
-- the last takes an order out of the book. The walk over a level has fuel for the pool's slots, the
-- loops over ticks for the ticks. A probe of the table has one round for each slot, after which it
-- would repeat itself: `none` is a loop that does not end. The constructor's doublings and halvings
-- have 64 rounds, a word's width. The parser's loop has a round for each byte, since each round takes
-- one at least. The number of ticks is taken to fit a price: from 2^63 on the source's cast of it would be
-- negative, which the walks over the ticks do not model. A tick divisor is not 0, where
-- the division of the source is undefined. The publisher's final drain has the queue's capacity, which
-- exceeds what it can hold.
--
-- Not modelled: threads and clocks, file input, `sscanf`, the cycle counter, the demos, the report
-- tool, the other benchmarks and the tests.
pub mod Base
pub mod Types
pub mod Pool
pub mod OrderBook
pub mod RefBook
mod Examples
pub mod Spsc
pub mod FlatMap
pub mod Photon
pub mod Publisher
pub mod Parsers
pub mod Replay
pub mod Refine
