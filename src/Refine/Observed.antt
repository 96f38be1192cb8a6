-- ===== src/Refine/Observed.antt =====
-- What a client reads from the two books.
use cpp_matching_engine.Base.{
  ℕ, ◌+◌, ◌%◌, ◌<◌, ◌≡◌, refl, sym, ap, ◌∙◌, subst, ◌⊎◌, inl, inr, true, false, List, [], ◌∷◌,
  arith, All, if◌then◌else◌, add64, u64_mod,
}
use cpp_matching_engine.Base.Int.{pos}
use cpp_matching_engine.Types.{Quantity, Side, buy, sell, opposite}
use cpp_matching_engine.Pool.{Handle}
use cpp_matching_engine.OrderBook.State.{
  Order, OrderBook, PriceLevel, level_at, order_at, is_empty, size_for, blank_level, no_price,
}
use cpp_matching_engine.OrderBook.State as BookState
use cpp_matching_engine.OrderBook.Cells.{Cell}
use cpp_matching_engine.OrderBook.Layout.{Store, sum_of, level_for}
use cpp_matching_engine.OrderBook.Unlink
use cpp_matching_engine.RefBook.State.{
  RefOrder, RefBook, Queue, total_of, level_total, best_bid, best_ask, side_levels,
}
use cpp_matching_engine.RefBook.State as RefState
use cpp_matching_engine.Refine.Orders.{orders, filled, orders-hit, same_side_refl}
use cpp_matching_engine.Refine.Relation.{Matches, has}
use cpp_matching_engine.Refine.Prices.{best_bid-same, best_ask-same}
use cpp_matching_engine.Refine.Reprice.{level-cases}
use cpp_matching_engine.Refine.Front.{no-both}
use cpp_matching_engine.Refine.Counts.{OnSide, all-OnSide}
use cpp_matching_engine.Refine.Walks.{not-filled}
use cpp_matching_engine.Refine.Same.{Same}

total_of-orders :
    (sd : Side) (cs : List Cell) (t : Quantity)
    → All (OnSide sd) cs
    → t < u64_mod
    → total_of (orders sd cs) t ≡ (t + sum_of cs) % u64_mod
unfolding orders
total_of-orders sd [] t a h = omega (arith, h)
total_of-orders sd ((k, e) ∷ cs) t a h =
    rw a.0 (total_of-orders sd cs (add64 t e.remaining) a.1 (omega arith) ∙ omega arith)

size_for_self : (sd : Side) (n : Quantity) → size_for sd sd n ≡ n
size_for_self buy n = refl
size_for_self sell n = refl

size_for-opposite : (sd : Side) (n : Quantity) → size_for sd (opposite sd) n ≡ 0
size_for-opposite buy n = refl
size_for-opposite sell n = refl

sides : (s sd : Side) → (s ≡ sd) ⊎ ((s ≡ opposite sd) × (opposite s ≡ sd))
sides buy buy = inl refl
sides buy sell = inr (refl, refl)
sides sell buy = inr (refl, refl)
sides sell sell = inl refl

module _ (b : OrderBook) (r : RefBook) (q : Store) (fs : List Handle) (m : Matches b r q fs)
    (sd : Side) (t : ℕ) where
  -- At a tick with an order, its side tells which of the sizes is zero.
  size-there :
      (h : Handle) (e : RefOrder) (cs : List Cell)
      → q t ≡ (h, e) ∷ cs
      → size_for sd e.side (sum_of ((h, e) ∷ cs) % u64_mod) ≡ total_of (orders sd (q t)) 0
  size-there h e cs here =
      let n = sum_of ((h, e) ∷ cs) % u64_mod in
      let there : has q e.side t ≡ true =
        ap (λ ds. filled (orders e.side ds)) here
        ∙ ap filled (orders-hit e.side h e cs (same_side_refl e.side)) in
      elim (sides e.side sd) [
        | inl s ↦
            ap (λ x. size_for sd x n) s
            ∙ size_for_self sd n
            ∙ omega (arith, ap sum_of here)
            ∙ sym (
                total_of-orders sd (q t) 0
                  (all-OnSide sd (q t)
                    (no-both b r q fs sd t m (subst (λ x. has q x t ≡ true) s there)))
                  (omega arith))
        | inr (s, s') ↦
            ap (λ x. size_for sd x n) s
            ∙ size_for-opposite sd n
            ∙ sym (
                ap (λ os. total_of os 0)
                  (not-filled (orders sd (q t))
                    (subst (λ x. has q x t ≡ false) s' (no-both b r q fs e.side t m there))))
      ]

  same-size :
      (let l = level_at b (pos t) in
        if is_empty l then 0 else size_for sd (order_at b l.head).side l.total)
      ≡ total_of (orders sd (q t)) 0
  unfolding orders
  same-size = elim (level-cases b q fs m.rep t) [
    | inl (e, empty) ↦ rw (empty, e) refl
    | inr ((h, e), cs, here, full) ↦ rw full (
        ap (λ (l : PriceLevel). size_for sd (order_at b l.head).side l.total)
          (m.rep.level t ∙ ap level_for here)
        ∙ ap (λ (o : Order). size_for sd o.side (sum_of ((h, e) ∷ cs) % u64_mod))
            (Unlink.order-at_cell b q fs m.rep t [] h e cs here)
        ∙ size-there h e cs here)
  ]

-- Books in the same state show the same best prices, and the same bid and ask sizes at every tick.
pub Same-reads :
    (b : OrderBook) (r : RefBook) (ticks slots : ℕ)
    → Same b r ticks slots
    → (b.best_bid ≡ best_bid r)
      × (b.best_ask ≡ best_ask r)
      × ((t : ℕ) → BookState.bid_size_at b (pos t) ≡ RefState.bid_size_at r (pos t))
      × ((t : ℕ) → BookState.ask_size_at b (pos t) ≡ RefState.ask_size_at r (pos t))
unfolding best_bid best_ask BookState.bid_size_at BookState.ask_size_at RefState.bid_size_at
    RefState.ask_size_at level_total
Same-reads b r ticks slots s = (
  best_bid-same b r s.store s.free s.matches,
  best_ask-same b r s.store s.free s.matches,
  λ t.
      same-size b r s.store s.free s.matches buy t
      ∙ ap (λ os. total_of os 0) (sym (s.matches.queues buy t)),
  λ t.
      same-size b r s.store s.free s.matches sell t
      ∙ ap (λ os. total_of os 0) (sym (s.matches.queues sell t)),
)
