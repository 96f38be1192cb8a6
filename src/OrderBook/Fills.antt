-- ===== src/OrderBook/Fills.antt =====
-- What a fill and an in-place `modify` do to a book that stands for a store.
use cpp_matching_engine.Base.{
  ℕ, fun_ext, true, false, ◌-◌, ◌≤◌, ◌≡◌, refl, sym, ap, ◌∙◌, subst, inl, inr, List, ◌∷◌, ◌++◌,
  Bool-cases, arith, ◌==◌, if◌then◌else◌, sub64,
}
use cpp_matching_engine.Base.Int.{pos}
use cpp_matching_engine.Types.{OrderId, Quantity}
use cpp_matching_engine.Pool.{Handle}
use cpp_matching_engine.OrderBook.State.{Order, OrderBook}
use cpp_matching_engine.OrderBook.Levels.{unlink_and_free}
use cpp_matching_engine.OrderBook.Match.{emit, fill}
use cpp_matching_engine.OrderBook.Cells.{Cell}
use cpp_matching_engine.OrderBook.Layout.{Rep, Store, upd, upd_self, upd-twice}
use cpp_matching_engine.OrderBook.Unlink
use cpp_matching_engine.OrderBook.Adjust.{adjust, with_remaining, adjust-Rep}
use cpp_matching_engine.OrderBook
use cpp_matching_engine.RefBook.State.{RefOrder}

-- The queue of a tick after a fill of `d` of its order `e`, which goes if nothing is left of it.
abbrev pub cells_after : List Cell → Handle → RefOrder → List Cell → Quantity → List Cell
cells_after xs h e ys d =
    if e.remaining == d then xs ++ ys else xs ++ (h, with_remaining (e.remaining - d) e) ∷ ys

-- The free slots after it.
abbrev pub free_after : Handle → RefOrder → List Handle → Quantity → List Handle
free_after h e fs d = if e.remaining == d then h ∷ fs else fs

module _ (b : OrderBook) (q : Store) (fs : List Handle) (r : Rep b.levels b.pool q fs) (p : ℕ)
    (xs : List Cell) (h : Handle) (e : RefOrder) (ys : List Cell)
    (here : q p ≡ xs ++ (h, e) ∷ ys) where
  -- In a book that stands for a store, the in-place edit of `modify` to a quantity of at most what an
  -- order has gives a book that stands for the store with that order at the new quantity, in its place
  -- in the queue, and with no other change of the queues or the free slots; the totals of the levels
  -- are those of their queues.
  pub reduce-Rep :
      (n : Quantity)
      → n ≤ e.remaining
      → Rep
          (OrderBook.reduce b h n).levels
          (OrderBook.reduce b h n).pool
          (upd q p (xs ++ (h, with_remaining n e) ∷ ys))
          fs
  reduce-Rep n small =
      let fit = Unlink.fit b q fs r p xs h e ys here in
      let same : OrderBook.reduce b h n ≡ adjust b h n (pos p) (sub64 e.remaining n) =
        ap (λ (o : Order). adjust b h n o.price (sub64 o.remaining n))
          (Unlink.order-at_cell b q fs r p xs h e ys here)
        ∙ ap (λ x. adjust b h n x (sub64 e.remaining n)) fit.0 in
      subst
        (λ (c : OrderBook). Rep c.levels c.pool (upd q p (xs ++ (h, with_remaining n e) ∷ ys)) fs)
        (sym same)
        (adjust-Rep b q fs r p xs h e ys here (pos p) n (sub64 e.remaining n) refl
          (omega (arith, small, fit.1)))

  -- In a book that stands for a store, a fill of at most what an order has, wherever it stands in its
  -- queue, gives a book that stands for the store with the order lowered by it, in its place, or, if
  -- that is all the order had, without the order and with its slot as the first free one. The other
  -- queues and free slots are as before, and the totals of the levels are those of their queues.
  pub fill-Rep :
      (id : OrderId) (d : Quantity)
      → d ≤ e.remaining
      → Rep
          (fill b id h d).levels
          (fill b id h d).pool
          (upd q p (cells_after xs h e ys d))
          (free_after h e fs d)
  unfolding fill emit
  fill-Rep id d enough =
      let fit = Unlink.fit b q fs r p xs h e ys here in
      let n = sub64 e.remaining d in
      let low = xs ++ (h, with_remaining n e) ∷ ys in
      let logged = emit b (record {
        resting_id = e.id;
        incoming_id = id;
        price = e.price;
        quantity = d;
        seq = b.seq;
      }) in
      let lowered = adjust logged h n (pos p) d in
      let lowered_Rep : Rep lowered.levels lowered.pool (upd q p low) fs =
        adjust-Rep logged q fs r p xs h e ys here (pos p) n d refl (omega (arith, enough, fit.1)) in
      let same : fill b id h d ≡ (if n == 0 then OrderBook.remove lowered e.id h else lowered) =
        rw (Unlink.order-at_cell b q fs r p xs h e ys here, fit.0) refl in
      let is_left : n ≡ e.remaining - d = omega (arith, enough, fit.1) in
      elim (Bool-cases (e.remaining == d)) [
        | inl c ↦
            let nothing : (n == 0) ≡ true = ground (arith, c, is_left) in
            rw (c, same, nothing)
              (subst
                (λ s.
                  Rep (unlink_and_free lowered h).levels (unlink_and_free lowered h).pool s
                    (h ∷ fs))
                (fun_ext (upd-twice q p low (xs ++ ys)))
                (Unlink.unlink_and_free-Rep lowered (upd q p low) fs lowered_Rep p xs h
                  (with_remaining n e) ys (upd_self q p low)))
        | inr c ↦
            let some_left : (n == 0) ≡ false = ground (arith, c, is_left, enough) in
            rw (c, same, some_left)
              (subst
                (λ k.
                  Rep lowered.levels lowered.pool (upd q p (xs ++ (h, with_remaining k e) ∷ ys)) fs)
                is_left lowered_Rep)
      ]
