-- ===== src/Refine/Remove.antt =====
-- Taking one order out, in both books.
use cpp_matching_engine.Base.{
  ℕ, ◌≡◌, ◌≢◌, refl, sym, ap, ◌∙◌, subst, true, false, List, ◌∷◌, ◌++◌, length,
}
use cpp_matching_engine.Base.Dict.{erase}
use cpp_matching_engine.Base.Int.{pos}
use cpp_matching_engine.Types.{Side, buy, sell, same_side}
use cpp_matching_engine.Pool.{Handle}
use cpp_matching_engine.OrderBook.State.{Order, OrderBook, order_at}
use cpp_matching_engine.OrderBook.Levels.{take_out, reprice, unlink_and_free}
use cpp_matching_engine.OrderBook.Cells.{Cell}
use cpp_matching_engine.OrderBook.Layout.{Store, upd, upd-ne, pos-ne}
use cpp_matching_engine.OrderBook.Unlink
use cpp_matching_engine.OrderBook
use cpp_matching_engine.RefBook
use cpp_matching_engine.RefBook.State.{
  RefOrder, RefBook, Levels, side_levels, with_levels, queue_at, erase_order, erase_at,
}
use cpp_matching_engine.RefBook.Uncrossed.{side_levels-Ordered, remove-Valid}
use cpp_matching_engine.Refine.Orders.{
  orders, filled, same_side_refl, erase_order-middle, orders-append,
}
use cpp_matching_engine.Refine.Queues.{queue_at-erase_at_self, queue_at-erase_at_ne}
use cpp_matching_engine.Refine.Tops.{Top, Top-cong}
use cpp_matching_engine.Refine.Relation.{
  Matches, Indexed, info_of, has, has-step, queues-step, Matches-apart,
}
use cpp_matching_engine.Refine.Single.{
  orders-around, orders-middle, filled-middle, with_levels-keeps,
}
use cpp_matching_engine.Refine.Outside.{SameLog, SameLog-trans, take_out-Outside, reprice-SameLog}
use cpp_matching_engine.Refine.Outside
use cpp_matching_engine.Refine.Reprice
use cpp_matching_engine.Refine.Adjust.{others_before, queue_here}
use cpp_matching_engine.Refine.Unindex.{removed_index}

module _ (b : OrderBook) (r : RefBook) (q : Store) (fs : List Handle) (m : Matches b r q fs) (p : ℕ)
    (xs : List Cell) (h : Handle) (e : RefOrder) (ys : List Cell)
    (here : q p ≡ xs ++ (h, e) ∷ ys) where
  abbrev q' : Store
  q' = upd q p (xs ++ ys)

  same_others : (sd : Side) → same_side e.side sd ≡ false → orders sd (q p) ≡ orders sd (xs ++ ys)
  same_others sd s = ap (orders sd) here ∙ orders-around sd xs h e ys s

  unlinked : unlink_and_free b h ≡ reprice (take_out b h) e.side (pos p)
  unfolding unlink_and_free
  unlinked =
      let cell = Unlink.order-at_cell b q fs m.rep p xs h e ys here in
      ap (λ s. reprice (take_out b h) s (order_at b h).price) (ap (λ (o : Order). o.side) cell)
      ∙ ap (reprice (take_out b h) e.side)
          (ap (λ (o : Order). o.price) cell ∙ (Unlink.fit b q fs m.rep p xs h e ys here).0)

  there : has q e.side p ≡ true
  there =
      ap (λ cs. filled (orders e.side cs)) here
      ∙ ap filled (orders-middle e.side xs h e ys (same_side_refl e.side))
      ∙ filled-middle (orders e.side xs) e (orders e.side ys)

  elsewhere : (sd : Side) (t : ℕ) → t ≢ p → has q' sd t ≡ has q sd t
  elsewhere sd t ne = ap (λ cs. filled (orders sd cs)) (upd-ne q p (xs ++ ys) t ne)

  other_side : (sd : Side) → same_side e.side sd ≡ false → (t : ℕ) → has q sd t ≡ has q' sd t
  other_side sd s = has-step q sd p (xs ++ ys) (ap filled (same_others sd s))

  bid_now :
      (s : Side) → e.side ≡ s → Top buy (has q' buy) (reprice (take_out b h) s (pos p)).best_bid
  bid_now buy es =
      Reprice.reprice-bid (take_out b h) q' (h ∷ fs)
        (Unlink.take_out-Rep b q fs m.rep p xs h e ys here) (has q buy) p
        (subst (Top buy (has q buy)) (sym (take_out-Outside b h).bid) m.bid)
        (subst (λ s. has q s p ≡ true) es there) (elsewhere buy)
        (λ t u f g.
          Matches-apart b r q fs t u m f (other_side sell (ap (λ s. same_side s sell) es) u ∙ g))
  bid_now sell es =
      subst (Top buy (has q' buy))
        (sym (Outside.reprice-bid (take_out b h) (pos p) ∙ (take_out-Outside b h).bid))
        (Top-cong buy (has q buy) (has q' buy) b.best_bid
          (other_side buy (ap (λ s. same_side s buy) es)) m.bid)

  ask_now :
      (s : Side) → e.side ≡ s → Top sell (has q' sell) (reprice (take_out b h) s (pos p)).best_ask
  ask_now sell es =
      Reprice.reprice-ask (take_out b h) q' (h ∷ fs)
        (Unlink.take_out-Rep b q fs m.rep p xs h e ys here) (has q sell) p
        (subst (Top sell (has q sell)) (sym (take_out-Outside b h).ask) m.ask)
        (subst (λ s. has q s p ≡ true) es there) (elsewhere sell)
        (λ t u f g.
          Matches-apart b r q fs u t m (other_side buy (ap (λ s. same_side s buy) es) u ∙ g) f)
  ask_now buy es =
      subst (Top sell (has q' sell))
        (sym (Outside.reprice-ask (take_out b h) (pos p) ∙ (take_out-Outside b h).ask))
        (Top-cong sell (has q sell) (has q' sell) b.best_ask
          (other_side sell (ap (λ s. same_side s sell) es)) m.ask)

  abbrev lv : Levels
  lv = side_levels r e.side

  at_tick : e.price ≡ pos p
  at_tick = (Unlink.fit b q fs m.rep p xs h e ys here).0

  queue_now : queue_at (erase_at lv e.price e.id) (pos p) ≡ orders e.side (xs ++ ys)
  queue_now =
      ap (λ x. queue_at (erase_at lv x e.id) (pos p)) at_tick
      ∙ queue_at-erase_at_self e.side lv (pos p) e.id (side_levels-Ordered r e.side m.valid)
      ∙ ap (erase_order e.id) (queue_here b r q fs m p xs h e ys here)
      ∙ erase_order-middle e.id (orders e.side xs) e (orders e.side ys)
          (others_before b r q fs m p xs h e ys here) refl
      ∙ sym (orders-append e.side xs ys)

  queues :
      (sd : Side) (t : ℕ)
      → queue_at (side_levels (RefBook.remove r e.id (info_of e)) sd) (pos t) ≡ orders sd (q' t)
  queues sd t =
      ap (λ ls. queue_at ls (pos t)) (with_index sd)
      ∙ queues-step r q e.side (erase_at lv e.price e.id) p (xs ++ ys) m.queues queue_now
          (λ u ne.
            ap (λ x. queue_at (erase_at lv x e.id) (pos u)) at_tick
            ∙ queue_at-erase_at_ne lv (pos p) (pos u) e.id (pos-ne ne))
          same_others sd t
    where
      with_index :
          (d : Side)
          → side_levels (RefBook.remove r e.id (info_of e)) d
            ≡ side_levels (with_levels r e.side (erase_at lv e.price e.id)) d
      with_index buy = refl
      with_index sell = refl

  log : SameLog b (unlink_and_free b h)
  log =
      subst (SameLog b) (sym unlinked)
        (SameLog-trans (take_out-Outside b h).log (reprice-SameLog (take_out b h) e.side (pos p)))

  -- Taking one resting order out of both books.
  pub remove-Matches :
      Matches (OrderBook.remove b e.id h) (RefBook.remove r e.id (info_of e)) q' (h ∷ fs)
  remove-Matches =
      let keeps = with_levels-keeps r e.side (erase_at lv e.price e.id) in
      record {
        rep = Unlink.unlink_and_free-Rep b q fs m.rep p xs h e ys here;
        valid = remove-Valid r e.id (info_of e) m.valid;
        queues = queues;
        bid =
            subst (λ (x : OrderBook). Top buy (has q' buy) x.best_bid) (sym unlinked)
              (bid_now e.side refl);
        ask =
            subst (λ (x : OrderBook). Top sell (has q' sell) x.best_ask) (sym unlinked)
              (ask_now e.side refl);
        index =
            subst (λ i. Indexed (erase e.id i) (RefBook.remove r e.id (info_of e)).id_index q')
              (sym log.index)
              (subst (λ i. Indexed (erase e.id b.id_index) (erase e.id i) q') (sym keeps.0)
                (removed_index b r q fs m p xs h e ys here));
        seq = log.seq ∙ m.seq ∙ sym keeps.1;
        sink = log.sink ∙ m.sink ∙ sym keeps.2;
        trades = log.trades ∙ m.trades ∙ sym keeps.3;
      }

  pub remove-sizes :
      (length (OrderBook.remove b e.id h).levels ≡ length b.levels)
      × (length (OrderBook.remove b e.id h).pool.nodes ≡ length b.pool.nodes)
  remove-sizes = (log.ticks, log.slots)
