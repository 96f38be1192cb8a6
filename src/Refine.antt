-- ===== src/Refine.antt =====
-- include/lob/order_book.hpp against include/lob/ref_order_book.hpp: the detailed book does what the
-- reference book does.
pub mod Orders
pub mod Queues
pub mod Tops
pub mod Relation
pub mod Single
pub mod Adjust
pub mod Reprice
pub mod Outside
pub mod Unindex
pub mod Remove
pub mod Prices
pub mod Index
pub mod Rest
pub mod Front
pub mod Fill
pub mod Finish
pub mod Round
pub mod Outcome
pub mod Sweep
pub mod Same
pub mod Settle
pub mod Calls
pub mod Gone
pub mod Bounds
pub mod Modify
pub mod Counts
pub mod Ahead
pub mod Walks
pub mod CanFill
pub mod Runs
pub mod Observed
pub mod Ends
