-- ===== src/Refine/CanFill.antt =====
-- `can_fill` of the two books.
use cpp_matching_engine.Base.{
  ℕ, ◌-◌, ◌<◌, ◌≡◌, sym, ap, ◌∙◌, subst, inl, inr, true, false, List, Bool-cases, arith, length,
}
use cpp_matching_engine.Base.Int.{pos, ltb_ℤ}
use cpp_matching_engine.Types.{OwnerId, Quantity, Price, Side, buy, sell, same_side}
use cpp_matching_engine.Pool.{Handle}
use cpp_matching_engine.OrderBook.State.{OrderBook}
use cpp_matching_engine.OrderBook.Layout.{Store}
use cpp_matching_engine.OrderBook.{count_level, can_fill_up, can_fill_down}
use cpp_matching_engine.OrderBook
use cpp_matching_engine.RefBook.{scan_level, beyond, can_fill_in}
use cpp_matching_engine.RefBook
use cpp_matching_engine.RefBook.State.{RefBook, side_levels}
use cpp_matching_engine.RefBook.Uncrossed.{side_levels-Ordered}
use cpp_matching_engine.Refine.Orders.{orders, filled, orders-hit, same_side_refl}
use cpp_matching_engine.Refine.Tops.{Top, Earlier}
use cpp_matching_engine.Refine.Relation.{Matches, Matches-apart, has}
use cpp_matching_engine.Refine.Reprice.{Top-before}
use cpp_matching_engine.Refine.Prices.{not_negative}
use cpp_matching_engine.Refine.Front.{Front, Front-cases}
use cpp_matching_engine.Refine.Ahead.{Ahead, stops-beyond}
use cpp_matching_engine.Refine.Walks.{not-filled, up, down}

module _ (b : OrderBook) (r : RefBook) (q : Store) (fs : List Handle) (m : Matches b r q fs)
    (lim : Price) (qty : Quantity) (owner : OwnerId) where
  Ahead-first :
      (sd : Side) (f : Front b r q sd)
      → ((t : ℕ) → Earlier sd t f.tick → has q sd t ≡ false)
      → Ahead sd q f.tick (side_levels r sd)
  Ahead-first sd f before = record {
    ordered = side_levels-Ordered r sd m.valid;
    done = λ t h. m.queues sd t ∙ not-filled (orders sd (q t)) (before t h);
    here = m.queues sd f.tick;
    todo = λ t h. m.queues sd t;
  }

  Front-has : (sd : Side) (f : Front b r q sd) → has q sd f.tick ≡ true
  Front-has sd f =
      ap (λ cs. filled (orders sd cs)) f.here
      ∙ ap filled (
          orders-hit sd f.slot f.order f.cells
            (ap (λ s. same_side s sd) f.on_side ∙ same_side_refl sd))

  -- On matching books and for a quantity that is not zero, `can_fill` of both gives the same answer.
  pub can_fill-same :
      (side : Side)
      → 0 < qty
      → OrderBook.can_fill b side lim qty owner ≡ RefBook.can_fill r side lim qty owner
  unfolding OrderBook.can_fill RefBook.can_fill can_fill_in
  can_fill-same buy some_qty = elim (Front-cases b r q fs sell m) [
    | inl (e, none_best) ↦ rw (e, none_best) (ground (arith, some_qty))
    | inr f ↦
        let a = Ahead-first sell f (λ t.
          Top-before sell (has q sell) f.tick t (subst (Top sell (has q sell)) f.at_best m.ask)) in
        rw f.at_best (elim (Bool-cases (ltb_ℤ lim (pos f.tick))) [
          | inl c ↦
              rw (not_negative f.tick, c)
                (ground (arith, some_qty)
                  ∙ sym (stops-beyond buy lim qty owner q f.tick r.asks 0 a c))
          | inr c ↦
              rw (not_negative f.tick, c)
                (up b r q fs m lim qty owner (length b.levels - f.tick) f.tick r.asks 0
                  (omega arith) a
                  (λ t h. elim (Bool-cases (has q buy t)) [
                    | inl s ↦
                        absurd
                          (omega (arith, h, Matches-apart b r q fs t f.tick m s (Front-has sell f)))
                    | inr s ↦ s
                  ])
                  (omega arith) (ground (arith, some_qty)))
        ])
  ]
  can_fill-same sell some_qty = elim (Front-cases b r q fs buy m) [
    | inl (e, none_best) ↦ rw (e, none_best) (ground (arith, some_qty))
    | inr f ↦
        let a = Ahead-first buy f (λ t.
          Top-before buy (has q buy) f.tick t (subst (Top buy (has q buy)) f.at_best m.bid)) in
        rw f.at_best (elim (Bool-cases (ltb_ℤ (pos f.tick) lim)) [
          | inl c ↦
              rw (not_negative f.tick, c)
                (ground (arith, some_qty)
                  ∙ sym (stops-beyond sell lim qty owner q f.tick r.bids 0 a c))
          | inr c ↦
              rw (not_negative f.tick, c)
                (down b r q fs m lim qty owner f.tick r.bids 0 a
                  (λ t h. elim (Bool-cases (has q sell t)) [
                    | inl s ↦
                        absurd
                          (omega (arith, h, Matches-apart b r q fs f.tick t m (Front-has buy f) s))
                    | inr s ↦ s
                  ])
                  (omega arith) (ground (arith, some_qty)))
        ])
  ]
