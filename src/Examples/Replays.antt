-- ===== src/Examples/Replays.antt =====
-- A replay of four events, one of which is out of range.
use cpp_matching_engine.Base.{refl, ℕ, ◌+◌, ◌≡◌, List, [], ◌∷◌, length}
use cpp_matching_engine.Base.Int.{pos, negsuc}
use cpp_matching_engine.Types.{Price, Side, buy, sell, limit}
use cpp_matching_engine.Parsers.{MarketEvent, EventAction, event}
use cpp_matching_engine.OrderBook.State.{init}
use cpp_matching_engine.Replay.{replay_file}
use cpp_matching_engine.Replay.Skips.{calls_of, replay_file_lem}
use cpp_matching_engine.Refine.Runs.{Call, run_book}

abbrev added : ℕ → Side → Price → MarketEvent
added id side p = record (event EventAction.add) {
  order_id = id;
  side = side;
  price = p;
  quantity = 5;
}

abbrev events : List MarketEvent
events =
    added 1 buy (pos 50)
    ∷ added 2 sell (pos 70)
    ∷ added 3 sell (negsuc 3)
    ∷ record (event EventAction.execute) { order_id = 1 }
    ∷ []

replay_file_lem_example :
    ((replay_file 100 8 events).book
      ≡ (run_book (init 100 8) (Call.set_trade_sink ∷ calls_of 100 events)).0)
    × ((replay_file 100 8 events).skipped + length (calls_of 100 events) ≡ length events)
replay_file_lem_example = replay_file_lem 100 8 events

calls_of_events :
    calls_of 100 events
    ≡ Call.submit 1 buy limit 50 5 0 ∷ Call.submit 2 sell limit 70 5 0 ∷ Call.cancel 1 ∷ []
unfolding calls_of
calls_of_events = refl
