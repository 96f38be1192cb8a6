-- ===== src/Refine/Ends.antt =====
-- What the detailed book has from the reference book.
use cpp_matching_engine.Base.{ℕ, ◌^◌, ◌≤◌, ◌≡◌, ◌⊎◌, refl, inl, inr, List, none, arith}
use cpp_matching_engine.Base.Int.{◌<ℤ◌}
use cpp_matching_engine.Types.{OrderId, OwnerId, Quantity, Price, Side}
use cpp_matching_engine.Pool.{null_handle}
use cpp_matching_engine.OrderBook.State.{OrderBook, no_price, init}
use cpp_matching_engine.OrderBook.Match.{match, match_round}
use cpp_matching_engine.RefBook.State.{RefBook}
use cpp_matching_engine.RefBook.State as RefState
use cpp_matching_engine.Refine.Relation.{Matches-apart}
use cpp_matching_engine.Refine.Sweep.{match-Ended}
use cpp_matching_engine.Refine.Same.{Same, init-Same}
use cpp_matching_engine.Refine.Runs.{Call, AllAllowed, run_book, run_ref, run_book-Same}

-- In a book that is in the same state as some reference book, the loop of `match` comes to its end for
-- any order: in the state that it leaves, no further round is possible.
pub match-stops :
    (b : OrderBook) (r : RefBook) (ticks slots : ℕ) (id : OrderId) (side : Side) (lim : Price)
    (qty : Quantity) (owner : OwnerId)
    → Same b r ticks slots
    → match_round id side lim owner (match id side lim owner b qty) ≡ none
match-stops b r ticks slots id side lim qty owner s =
    (match-Ended r id side lim lim owner ticks slots (λ x h. refl) b s.store s.free qty s.matches
      s.ticks_kept s.slots_kept).1

Same-uncrossed :
    (b : OrderBook) (r : RefBook) (ticks slots : ℕ)
    → Same b r ticks slots
    → (b.best_bid ≡ no_price) ⊎ (b.best_ask ≡ no_price) ⊎ (b.best_bid <ℤ b.best_ask)
Same-uncrossed b r ticks slots s = elim s.matches.bid [
  | inl (e, nowhere) ↦ inl e
  | inr (t, e, there, first) ↦ elim s.matches.ask [
    | inl (e', nowhere) ↦ inr (inl e')
    | inr (u, e', there', first') ↦ inr (
        inr
          (rw (e, e') (omega (arith, Matches-apart b r s.store s.free t u s.matches there there'))))
  ]
]

-- After any sequence of calls that a fresh book of at most 2^63 ticks and 2^32 - 1 slots takes, the
-- cached best prices of the detailed book do not cross: one side is empty, or the best bid is below
-- the best ask.
pub run_book-uncrossed :
    (ticks slots : ℕ) (cs : List Call)
    → ticks ≤ 2 ^ 63
    → slots ≤ null_handle
    → AllAllowed ticks slots (init ticks slots) cs
    → let b = (run_book (init ticks slots) cs).0 in
      (b.best_bid ≡ no_price) ⊎ (b.best_ask ≡ no_price) ⊎ (b.best_bid <ℤ b.best_ask)
run_book-uncrossed ticks slots cs big h a =
    Same-uncrossed (run_book (init ticks slots) cs).0 (run_ref RefState.init cs).0 ticks slots
      (run_book-Same ticks slots big cs (init ticks slots) RefState.init (init-Same ticks slots h)
        a).0
