-- ===== src/Replay.antt =====
-- benchmarks/replay_main.cpp: the two replays, without their clocks and samples.
pub mod Generator
pub mod Skips
use cpp_matching_engine.Base.{
  ℕ, suc, ◌+◌, Bool, List, [], ◌∷◌, ◌||◌, ◌==◌, if◌then◌else◌, length, not,
}
use cpp_matching_engine.Base.Int.{ℤ, pos, ltb_ℤ, leb_ℤ}
use cpp_matching_engine.Types.{Side, buy, sell, limit}
use cpp_matching_engine.OrderBook.{submit, cancel, modify}
use cpp_matching_engine.OrderBook.State.{OrderBook, init, set_trade_sink}
use cpp_matching_engine.Parsers.{MarketEvent, EventAction}
use cpp_matching_engine.Replay.Generator.{SynEvent, SynEventType}

abbrev pub side_of : ℕ → Side
side_of s = if s == 0 then buy else sell

-- The `switch` on a synthetic event.
unfoldable pub apply_synthetic : OrderBook → SynEvent → OrderBook
apply_synthetic b e = elim e.type [
  | SynEventType.add ↦ (submit b e.order_id (side_of e.side) limit e.price e.quantity 0).0
  | SynEventType.cancel ↦ (cancel b e.order_id).0
  | SynEventType.modify ↦ (modify b e.order_id e.price e.quantity).0
]

unfoldable pub replay_synthetic_from : OrderBook → List SynEvent → OrderBook
unfolding apply_synthetic
replay_synthetic_from b [] = b
replay_synthetic_from b (e ∷ es) = replay_synthetic_from (apply_synthetic b e) es

abbrev pub syn_ticks : ℕ
syn_ticks = 10000

abbrev pub syn_pool : ℕ
syn_pool = 200000

unfoldable pub replay_synthetic : List SynEvent → OrderBook
unfolding replay_synthetic_from
replay_synthetic es = replay_synthetic_from (init syn_ticks syn_pool) es

-- The variables of the loop of `replay_file`; the trades that it counts are those of the book's sink.
pub record FileReplay : Type 0 where
  pub book : OrderBook
  pub skipped : ℕ

-- A price that is no tick of the book is skipped.
abbrev pub out_of_range : ℕ → MarketEvent → Bool
out_of_range ticks e = ltb_ℤ e.price (pos 0) || leb_ℤ (pos ticks) e.price

-- The `switch` on an event of a file; an execution is taken as a cancel.
unfoldable pub apply_event : OrderBook → MarketEvent → OrderBook
apply_event b e = elim e.action [
  | EventAction.add ↦ (submit b e.order_id e.side limit e.price e.quantity 0).0
  | EventAction.cancel ↦ (cancel b e.order_id).0
  | EventAction.modify ↦ (modify b e.order_id e.price e.quantity).0
  | EventAction.execute ↦ (cancel b e.order_id).0
]

unfoldable pub replay_from : ℕ → FileReplay → List MarketEvent → FileReplay
unfolding apply_event
replay_from ticks r [] = r
replay_from ticks r (e ∷ es) =
    replay_from ticks
      (if out_of_range ticks e
        then record r { skipped = suc r.skipped }
        else record r { book = apply_event r.book e })
      es

unfoldable pub replay_file : ℕ → ℕ → List MarketEvent → FileReplay
unfolding replay_from
replay_file ticks pool es =
    replay_from ticks (record { book = set_trade_sink (init ticks pool); skipped = 0 }) es
