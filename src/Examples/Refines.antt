-- ===== src/Examples/Refines.antt =====
-- The two books side by side, at concrete inputs.
use cpp_matching_engine.Base.{ℕ, ◌≡◌, ◌⊎◌, refl, true, false, List, [], ◌∷◌, arith, none}
use cpp_matching_engine.Base.Dict.{find, erase, emplace, assign}
use cpp_matching_engine.Base.Int.{pos, ◌<ℤ◌}
use cpp_matching_engine.Types.{buy, sell, limit, fok, no_result}
use cpp_matching_engine.Pool
use cpp_matching_engine.OrderBook
use cpp_matching_engine.OrderBook.State.{OrderBook, no_price}
use cpp_matching_engine.OrderBook.State as BookState
use cpp_matching_engine.OrderBook.Match.{match, match_round}
use cpp_matching_engine.RefBook
use cpp_matching_engine.RefBook.State.{RefBook}
use cpp_matching_engine.RefBook.State as RefState
use cpp_matching_engine.Refine.Same.{Same, init-Same}
use cpp_matching_engine.Refine.Settle.{SameCall}
use cpp_matching_engine.Refine.Runs.{
  Call, submit, cancel, modify, set_trade_sink, AllAllowed, book_call, run_book, run_ref,
  run_book-run_ref, submit-Same,
}
use cpp_matching_engine.Refine.Calls.{cancel-Same}
use cpp_matching_engine.Refine.Gone.{cancel_twice}
use cpp_matching_engine.Refine.Bounds.{Bounded, run_book-Bounded}
use cpp_matching_engine.Refine.Modify.{modify-Same}
use cpp_matching_engine.Refine.CanFill.{can_fill-same}
use cpp_matching_engine.Refine.Observed.{Same-reads}
use cpp_matching_engine.Refine.Ends.{match-stops, run_book-uncrossed}
use cpp_matching_engine.RefBook.AllOrNothing.{FitsLevels, submit-all_or_nothing}

abbrev session : List Call
session =
    set_trade_sink
    ∷ submit 1 sell limit 1 5 0
    ∷ submit 2 buy limit 1 3 0
    ∷ modify 1 2 1
    ∷ cancel 1
    ∷ []

allowed : AllAllowed 3 2 (BookState.init 3 2) session
unfolding AllAllowed book_call BookState.init find erase emplace OrderBook.submit OrderBook.modify
    OrderBook.cancel Pool.init Pool.allocate Pool.deallocate Pool.get Pool.put Pool.capacity
allowed = (
  tt,
  (
    (omega arith, omega arith, omega arith, refl, omega arith),
    (
      (omega arith, omega arith, omega arith, refl, omega arith),
      ((omega arith, omega arith), (tt, tt)),
    ),
  ),
)

run_book-run_ref_example :
    ((run_book (BookState.init 3 2) session).1 ≡ (run_ref RefState.init session).1)
    × ((run_book (BookState.init 3 2) session).0.trades ≡ (run_ref RefState.init session).0.trades)
run_book-run_ref_example = run_book-run_ref 3 2 (omega arith) session (omega arith) allowed

run_book-uncrossed_example :
    let b = (run_book (BookState.init 3 2) session).0 in
    (b.best_bid ≡ no_price) ⊎ (b.best_ask ≡ no_price) ⊎ (b.best_bid <ℤ b.best_ask)
run_book-uncrossed_example = run_book-uncrossed 3 2 session (omega arith) (omega arith) allowed

fresh-Same : Same (BookState.init 3 2) RefState.init 3 2
fresh-Same = init-Same 3 2 (omega arith)

abbrev one_ask : OrderBook
one_ask = (OrderBook.submit (BookState.init 3 2) 1 sell limit (pos 1) 5 0).0

abbrev ref_one_ask : RefBook
ref_one_ask = (RefBook.submit RefState.init 1 sell limit (pos 1) 5 0).0

submit-Same_example :
    SameCall
      (OrderBook.submit (BookState.init 3 2) 1 sell limit (pos 1) 5 0)
      (RefBook.submit RefState.init 1 sell limit (pos 1) 5 0)
      3
      2
unfolding BookState.init Pool.init find
submit-Same_example =
    submit-Same (BookState.init 3 2) RefState.init 3 2 1 sell limit 1 5 0 fresh-Same (omega arith)
      (omega arith) (omega arith) (omega arith) refl (omega arith)

one_ask-Same : Same one_ask ref_one_ask 3 2
unfolding BookState.init Pool.init find
one_ask-Same =
    (submit-Same (BookState.init 3 2) RefState.init 3 2 1 sell limit 1 5 0 fresh-Same (omega arith)
      (omega arith) (omega arith) (omega arith) refl (omega arith)).0

cancel-Same_example : SameCall (OrderBook.cancel one_ask 1) (RefBook.cancel ref_one_ask 1) 3 2
cancel-Same_example = cancel-Same one_ask ref_one_ask 3 2 1 one_ask-Same

modify-Same_example :
    SameCall (OrderBook.modify one_ask 1 (pos 2) 4) (RefBook.modify ref_one_ask 1 (pos 2) 4) 3 2
modify-Same_example =
    modify-Same one_ask ref_one_ask 3 2 1 2 4 one_ask-Same (omega arith) (omega arith) (omega arith)

can_fill-same_example :
    OrderBook.can_fill one_ask buy (pos 2) 4 9 ≡ RefBook.can_fill ref_one_ask buy (pos 2) 4 9
can_fill-same_example =
    can_fill-same one_ask ref_one_ask one_ask-Same.store one_ask-Same.free one_ask-Same.matches
      (pos 2) 4 9 buy (omega arith)

Same-reads_example :
    (one_ask.best_bid ≡ RefState.best_bid ref_one_ask)
    × (one_ask.best_ask ≡ RefState.best_ask ref_one_ask)
    × ((t : ℕ) → BookState.bid_size_at one_ask (pos t) ≡ RefState.bid_size_at ref_one_ask (pos t))
    × ((t : ℕ) → BookState.ask_size_at one_ask (pos t) ≡ RefState.ask_size_at ref_one_ask (pos t))
Same-reads_example = Same-reads one_ask ref_one_ask 3 2 one_ask-Same

match-stops_example : match_round 2 buy (pos 2) 0 (match 2 buy (pos 2) 0 one_ask 7) ≡ none
match-stops_example = match-stops one_ask ref_one_ask 3 2 2 buy (pos 2) 7 0 one_ask-Same

ref_one_ask-Fits : FitsLevels (RefState.side_levels ref_one_ask sell)
unfolding RefState.init RefBook.submit find assign
ref_one_ask-Fits = ((omega arith, tt), tt)

submit-all_or_nothing_example :
    ((RefBook.submit ref_one_ask 2 buy fok (pos 2) 4 0).1
      ≡ record { id = 2; filled = 4; resting = 0; accepted = true; fully_filled = true })
    ⊎ (RefBook.submit ref_one_ask 2 buy fok (pos 2) 4 0
        ≡ (ref_one_ask, record no_result { id = 2 }))
submit-all_or_nothing_example =
    submit-all_or_nothing ref_one_ask 2 buy (pos 2) 4 0 one_ask-Same.matches.valid ref_one_ask-Fits
      (omega arith)

cancel_twice_example :
    let b = (OrderBook.cancel one_ask 1).0 in
    (OrderBook.cancel b 1 ≡ (b, false)) × (OrderBook.modify b 1 (pos 2) 4 ≡ (b, no_result))
cancel_twice_example = cancel_twice one_ask ref_one_ask 3 2 1 (pos 2) 4 one_ask-Same

run_book-Bounded_example : Bounded 3 2 (run_book (BookState.init 3 2) session).0
run_book-Bounded_example = run_book-Bounded 3 2 session (omega arith) (omega arith) allowed
