-- ===== src/Examples.antt =====
-- Tests, and the theorems at concrete inputs.
mod Books
mod Crossing
mod Layouts
mod Refines
mod Queues
mod Tables
mod Messages
mod Replays
mod Slots
mod Logs
