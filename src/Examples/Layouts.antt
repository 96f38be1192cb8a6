-- ===== src/Examples/Layouts.antt =====
-- The order book's layout and quantities at concrete inputs.
use cpp_matching_engine.Base.{refl, [], ◌∷◌, arith}
use cpp_matching_engine.Base.Int.{pos}
use cpp_matching_engine.Types.{buy, sell, limit}
use cpp_matching_engine.Pool
use cpp_matching_engine.Pool.{Handle, null_handle, lifo}
use cpp_matching_engine.OrderBook.{submit}
use cpp_matching_engine.OrderBook.State.{OrderBook, init}
use cpp_matching_engine.OrderBook.Levels.{place, unlink_and_free}
use cpp_matching_engine.OrderBook.Cells.{node_of}
use cpp_matching_engine.OrderBook.Layout.{Rep, Store, upd}
use cpp_matching_engine.OrderBook.Fresh.{init-Rep, no_cells}
use cpp_matching_engine.OrderBook.Place.{place-Rep}
use cpp_matching_engine.OrderBook.Unlink.{unlink_and_free-Rep}
use cpp_matching_engine.OrderBook.Adjust.{with_remaining}
use cpp_matching_engine.OrderBook
use cpp_matching_engine.OrderBook.Fills.{cells_after, free_after, reduce-Rep, fill-Rep}
use cpp_matching_engine.OrderBook.Quantities.{
  Accounts, Quantities, match-Quantities, submit-Accounts,
}
use cpp_matching_engine.OrderBook.Match.{match, fill}
use cpp_matching_engine.RefBook.State.{RefOrder}

abbrev fresh : OrderBook
fresh = init 3 2

init-Rep_example : Rep fresh.levels fresh.pool no_cells (0 ∷ 1 ∷ [])
init-Rep_example = init-Rep 3 2 (omega arith)

fresh-Rep : Rep fresh.levels fresh.pool no_cells (0 ∷ 1 ∷ [])
fresh-Rep = init-Rep 3 2 (omega arith)

abbrev bid : RefOrder
bid = record { id = 7; side = buy; price = pos 1; remaining = 5; owner = 0 }

abbrev with_bid : OrderBook
with_bid = place fresh (Pool.allocate lifo fresh.pool).0 0 (node_of null_handle null_handle bid)

abbrev bid_store : Store
bid_store = upd no_cells 1 ((0, bid) ∷ [])

place-Rep_example : Rep with_bid.levels with_bid.pool bid_store (1 ∷ [])
unfolding init
place-Rep_example =
    place-Rep fresh no_cells 0 (1 ∷ []) fresh-Rep 1 bid (omega arith) (refl, omega arith)

with_bid-Rep : Rep with_bid.levels with_bid.pool bid_store (1 ∷ [])
unfolding init
with_bid-Rep = place-Rep fresh no_cells 0 (1 ∷ []) fresh-Rep 1 bid (omega arith) (refl, omega arith)

unlink_and_free-Rep_example :
    Rep
      (unlink_and_free with_bid 0).levels
      (unlink_and_free with_bid 0).pool
      (upd bid_store 1 [])
      (0 ∷ 1 ∷ [])
unfolding upd
unlink_and_free-Rep_example =
    unlink_and_free-Rep with_bid bid_store (1 ∷ []) with_bid-Rep 1 [] 0 bid [] refl

reduce-Rep_example :
    Rep
      (OrderBook.reduce with_bid 0 2).levels
      (OrderBook.reduce with_bid 0 2).pool
      (upd bid_store 1 ((0, with_remaining 2 bid) ∷ []))
      (1 ∷ [])
unfolding upd
reduce-Rep_example =
    reduce-Rep with_bid bid_store (1 ∷ []) with_bid-Rep 1 [] 0 bid [] refl 2 (omega arith)

fill-Rep_example :
    Rep
      (fill with_bid 8 0 5).levels
      (fill with_bid 8 0 5).pool
      (upd bid_store 1 (cells_after [] 0 bid [] 5))
      (free_after 0 bid (1 ∷ []) 5)
unfolding upd
fill-Rep_example =
    fill-Rep with_bid bid_store (1 ∷ []) with_bid-Rep 1 [] 0 bid [] refl 8 5 (omega arith)

match-Quantities_example : Quantities (match 8 sell (pos 1) 0 with_bid 9) 9
match-Quantities_example = match-Quantities 8 sell (pos 1) 0 with_bid 9 (omega arith)

submit-Accounts_example : Accounts (submit with_bid 8 sell limit (pos 1) 9 0).1 9
submit-Accounts_example = submit-Accounts with_bid 8 sell limit (pos 1) 9 0 (omega arith)
