-- ===== src/Examples/Books.antt =====
-- The two books on the sequences of tests/test_order_book.cpp.
use cpp_matching_engine.Base.{ℕ, ◌≡◌, refl, List, [], ◌∷◌}
use cpp_matching_engine.Base.Dict.{find, erase, emplace, assign}
use cpp_matching_engine.Types.{Price, buy, sell, limit, market, ioc, fok, Trade}
use cpp_matching_engine.Pool
use cpp_matching_engine.OrderBook.State
use cpp_matching_engine.OrderBook.State.{OrderBook}
use cpp_matching_engine.RefBook.State as RefState
use cpp_matching_engine.RefBook.State.{RefBook}
use cpp_matching_engine.Refine.Runs.{
  Call, submit, cancel, modify, set_trade_sink, run_book, run_ref,
}

abbrev session : List Call
session =
    set_trade_sink
    ∷ submit 1 sell limit 50 10 0
    ∷ submit 2 sell limit 50 7 0
    ∷ submit 3 sell limit 52 5 3
    ∷ submit 4 buy limit 48 9 0
    ∷ submit 5 buy limit 50 12 0
    ∷ modify 4 48 6
    ∷ submit 6 buy fok 52 11 0
    ∷ submit 7 buy fok 52 8 3
    ∷ submit 8 buy ioc 52 6 0
    ∷ cancel 4
    ∷ submit 9 buy market 0 3 0
    ∷ submit 10 sell limit 40 2 0
    ∷ modify 10 60 5
    ∷ []

abbrev View : Type 0
View = List Trade × Price × Price × ℕ

view : OrderBook → View
unfolding State.open_orders
view b = (b.trades, b.best_bid, b.best_ask, State.open_orders b)

ref_view : RefBook → View
unfolding RefState.open_orders RefState.best_bid RefState.best_ask
ref_view b = (b.trades, RefState.best_bid b, RefState.best_ask b, RefState.open_orders b)

books_agree :
    view (run_book (State.init 100 8) session).0 ≡ ref_view (run_ref RefState.init session).0
unfolding view ref_view run_book run_ref State.init RefState.init State.set_trade_sink
    RefState.set_trade_sink Pool.init Pool.allocate Pool.deallocate Pool.get Pool.put find erase
    emplace assign Pool.capacity
books_agree = refl
