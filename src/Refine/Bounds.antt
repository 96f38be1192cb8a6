-- ===== src/Refine/Bounds.antt =====
-- The best prices, the handles and the number of orders of the detailed book stay in its arrays.
use cpp_matching_engine.Base.{
  ℕ, ◌^◌, ◌<◌, ◌≤◌, ◌≡◌, ◌⊎◌, refl, ap, subst, inl, inr, true, List, [], ◌∷◌, some, arith, length,
  All,
}
use cpp_matching_engine.Base.Dict.{find}
use cpp_matching_engine.Base.Int.{pos}
use cpp_matching_engine.Types.{OrderId, Side, buy, sell, Price}
use cpp_matching_engine.Pool.{Handle, null_handle}
use cpp_matching_engine.OrderBook.State.{OrderBook, no_price, init, open_orders}
use cpp_matching_engine.OrderBook.Cells.{Cell, handles}
use cpp_matching_engine.OrderBook.Layout.{Seg-lt, All-right}
use cpp_matching_engine.OrderBook.Unlink
use cpp_matching_engine.RefBook.State.{RefBook}
use cpp_matching_engine.RefBook.State as RefState
use cpp_matching_engine.Refine.Orders.{orders, filled}
use cpp_matching_engine.Refine.Tops.{Top, true-false}
use cpp_matching_engine.Refine.Relation.{has}
use cpp_matching_engine.Refine.Same.{Same, known-Found, init-Same}
use cpp_matching_engine.Refine.Runs.{Call, AllAllowed, run_book, run_ref, run_book-Same}

-- A price that is a tick, or the sentinel of an empty side.
abbrev pub TickBelow : ℕ → Price → Type 0
TickBelow ticks p = (p ≡ no_price) ⊎ ((t : ℕ) × (p ≡ pos t) × (t < ticks))

-- What `run_book-Bounded` says of a book.
abbrev pub Bounded : ℕ → ℕ → OrderBook → Type 0
Bounded ticks slots b =
    TickBelow ticks b.best_bid
    × TickBelow ticks b.best_ask
    × ((id : OrderId) (h : Handle) → find id b.id_index ≡ some h → h < slots)
    × (open_orders b ≤ slots)

module _ (b : OrderBook) (r : RefBook) (ticks slots : ℕ) (s : Same b r ticks slots) where
  has-lt : (sd : Side) (t : ℕ) → has s.store sd t ≡ true → t < ticks
  unfolding orders
  has-lt sd t f = go (s.store t) refl
    where
      go : (cs : List Cell) → s.store t ≡ cs → t < ticks
      go [] e = true-false (has s.store sd t) f (ap (λ cs. filled (orders sd cs)) e)
      go ((h, o) ∷ cs) e =
          subst (λ n. t < n) s.ticks_kept
            (Unlink.in_range b s.store s.free s.matches.rep t [] h o cs e)

  Top-bound : (sd : Side) (p : Price) → Top sd (has s.store sd) p → TickBelow ticks p
  Top-bound sd p (inl (e, nowhere)) = inl e
  Top-bound sd p (inr (t, e, there, first)) = inr (t, e, has-lt sd t there)

  handle-lt : (id : OrderId) (h : Handle) → find id b.id_index ≡ some h → h < slots
  handle-lt id h e =
      let f = (known-Found b r s.store s.free s.matches id h e).0 in
      subst (λ n. h < n) s.slots_kept
        (All-right (λ k. k < length b.pool.nodes) (handles f.before) (h ∷ handles f.behind)
          (subst (All (λ k. k < length b.pool.nodes))
            (Unlink.all_handles b s.store s.free s.matches.rep f.tick f.before h f.order f.behind
              f.here)
            (Seg-lt b.pool.nodes null_handle null_handle (s.store f.tick)
              (s.matches.rep.seg f.tick)))).0

-- After any sequence of calls that a fresh book of at most 2^63 ticks and 2^32 - 1 slots takes: each
-- cached best price of the detailed book is the sentinel or a tick below the number of ticks, every
-- handle in its index is below the number of slots, and it has no more open orders than slots.
pub run_book-Bounded :
    (ticks slots : ℕ) (cs : List Call)
    → ticks ≤ 2 ^ 63
    → slots ≤ null_handle
    → AllAllowed ticks slots (init ticks slots) cs
    → Bounded ticks slots (run_book (init ticks slots) cs).0
unfolding open_orders
run_book-Bounded ticks slots cs big few a =
    let b = (run_book (init ticks slots) cs).0 in
    let r = (run_ref RefState.init cs).0 in
    let s =
      (run_book-Same ticks slots big cs (init ticks slots) RefState.init (init-Same ticks slots few)
        a).0 in
    (
      Top-bound b r ticks slots s buy b.best_bid s.matches.bid,
      Top-bound b r ticks slots s sell b.best_ask s.matches.ask,
      handle-lt b r ticks slots s,
      omega (arith, s.matches.rep.free.count, s.slots_kept),
    )
