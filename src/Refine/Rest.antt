-- ===== src/Refine/Rest.antt =====
-- A new order rests, in both books.
use cpp_matching_engine.Base.{
  ℕ, ◌<◌, ◌≡◌, ◌≢◌, refl, sym, ap, ◌∙◌, subst, true, false, List, [], ◌∷◌, ◌++◌, none, arith,
  length, ne→==, append-nil,
}
use cpp_matching_engine.Base.Dict.{find, emplace, assign}
use cpp_matching_engine.Base.Dict.Laws.{NotIn-find, assign-fresh}
use cpp_matching_engine.Base.Int.{pos}
use cpp_matching_engine.Types.{Price, Side, buy, sell, same_side}
use cpp_matching_engine.Pool.{Handle, null_handle, lifo, allocate}
use cpp_matching_engine.Pool.Laws.{allocate-Frees, allocate-nodes}
use cpp_matching_engine.OrderBook.State.{OrderBook}
use cpp_matching_engine.OrderBook.Levels.{place, improve, rest_order}
use cpp_matching_engine.OrderBook.Cells.{Cell, node_of}
use cpp_matching_engine.OrderBook.Layout.{Store, FitsAt, upd, upd_self, upd-ne, pos-ne}
use cpp_matching_engine.OrderBook.Place
use cpp_matching_engine.RefBook
use cpp_matching_engine.RefBook.State.{
  RefOrder, RefBook, Levels, side_levels, with_levels, queue_at, push_back,
}
use cpp_matching_engine.RefBook.Uncrossed.{side_levels-Ordered, rest-Valid}
use cpp_matching_engine.Refine.Orders.{
  orders, filled, same_side_refl, orders-append, orders-hit, orders-miss,
}
use cpp_matching_engine.Refine.Queues.{queue_at-push_back_self, queue_at-push_back_ne}
use cpp_matching_engine.Refine.Tops.{Top, Top-cong}
use cpp_matching_engine.Refine.Relation.{Matches, Indexed, info_of, has, has-step, queues-step}
use cpp_matching_engine.Refine.Single.{with_levels-keeps, filled-middle}
use cpp_matching_engine.Refine.Outside.{
  Outside, SameLog, place-Outside, improve-SameLog, improve-keeps,
}
use cpp_matching_engine.Refine.Prices.{improved-Top}
use cpp_matching_engine.Refine.Index.{added_index, ref_fresh}

module _ (b : OrderBook) (r : RefBook) (q : Store) (h : Handle) (fs : List Handle)
    (m : Matches b r q (h ∷ fs)) (p : ℕ) (e : RefOrder) (lt : p < length b.levels)
    (fit : FitsAt p (h, e)) (fresh : find e.id b.id_index ≡ none) where
  abbrev cs : List Cell
  cs = q p ++ (h, e) ∷ []

  abbrev q' : Store
  q' = upd q p cs

  new_orders : (sd : Side) → same_side e.side sd ≡ true → orders sd cs ≡ orders sd (q p) ++ e ∷ []
  unfolding orders
  new_orders sd s =
      orders-append sd (q p) ((h, e) ∷ [])
      ∙ ap (λ os. orders sd (q p) ++ os) (orders-hit sd h e [] s)

  same_orders : (sd : Side) → same_side e.side sd ≡ false → orders sd (q p) ≡ orders sd cs
  unfolding orders
  same_orders sd s = sym (
      orders-append sd (q p) ((h, e) ∷ [])
      ∙ ap (λ os. orders sd (q p) ++ os) (orders-miss sd h e [] s)
      ∙ append-nil (orders sd (q p)))

  there : (sd : Side) → same_side e.side sd ≡ true → has q' sd p ≡ true
  there sd s =
      ap (λ ds. filled (orders sd ds)) (upd_self q p cs)
      ∙ ap filled (new_orders sd s)
      ∙ filled-middle (orders sd (q p)) e []

  elsewhere : (sd : Side) (t : ℕ) → t ≢ p → has q' sd t ≡ has q sd t
  elsewhere sd t ne = ap (λ ds. filled (orders sd ds)) (upd-ne q p cs t ne)

  unchanged :
      (sd : Side) (x : Price)
      → same_side e.side sd ≡ false
      → Top sd (has q sd) x
      → Top sd (has q' sd) x
  unchanged sd x s =
      Top-cong sd (has q sd) (has q' sd) x (has-step q sd p cs (ap filled (same_orders sd s)))

  placed : OrderBook
  placed =
      let b1 = place b (allocate lifo b.pool).0 h (node_of null_handle null_handle e) in
      record b1 { id_index = emplace e.id h b1.id_index }

  rested : rest_order b e.id e.side e.price e.remaining e.owner ≡ improve placed e.side e.price
  unfolding rest_order placed
  rested =
      rw
        (
          (allocate-Frees lifo b.pool h fs m.rep.free).0,
          ne→== h null_handle (omega (arith, m.rep.free.links.0)),
        )
        refl

  out : Outside b (place b (allocate lifo b.pool).0 h (node_of null_handle null_handle e))
  out =
      place-Outside b (allocate lifo b.pool).0 h (node_of null_handle null_handle e)
        (ap length (allocate-nodes lifo b.pool))

  bid_now : (s : Side) → e.side ≡ s → Top buy (has q' buy) (improve placed s (pos p)).best_bid
  unfolding placed
  bid_now buy es =
      let hit = ap (λ s. same_side s buy) es in
      rw out.bid (
        improved-Top buy (has q buy) (has q' buy) p b.best_bid m.bid (there buy hit)
          (elsewhere buy))
  bid_now sell es =
      let miss = ap (λ s. same_side s buy) es in rw out.bid (unchanged buy b.best_bid miss m.bid)

  ask_now : (s : Side) → e.side ≡ s → Top sell (has q' sell) (improve placed s (pos p)).best_ask
  unfolding placed
  ask_now sell es =
      let hit = ap (λ s. same_side s sell) es in
      rw out.ask (
        improved-Top sell (has q sell) (has q' sell) p b.best_ask m.ask (there sell hit)
          (elsewhere sell))
  ask_now buy es =
      let miss = ap (λ s. same_side s sell) es in rw out.ask (unchanged sell b.best_ask miss m.ask)

  abbrev lv : Levels
  lv = side_levels r e.side

  queue_now : queue_at (push_back e.side lv e.price e) (pos p) ≡ orders e.side cs
  queue_now =
      ap (λ x. queue_at (push_back e.side lv x e) (pos p)) fit.0
      ∙ queue_at-push_back_self e.side lv (pos p) e (side_levels-Ordered r e.side m.valid)
      ∙ ap (λ os. os ++ e ∷ []) (m.queues e.side p)
      ∙ sym (new_orders e.side (same_side_refl e.side))

  abbrev r' : RefBook
  r' = RefBook.rest r e.id e.side e.price e.remaining e.owner

  queues : (sd : Side) (t : ℕ) → queue_at (side_levels r' sd) (pos t) ≡ orders sd (q' t)
  unfolding RefBook.rest
  queues sd t =
      ap (λ ls. queue_at ls (pos t)) (with_index sd)
      ∙ queues-step r q e.side (push_back e.side lv e.price e) p cs m.queues queue_now
          (λ u ne.
            ap (λ x. queue_at (push_back e.side lv x e) (pos u)) fit.0
            ∙ queue_at-push_back_ne e.side lv (pos p) (pos u) e (pos-ne ne))
          same_orders sd t
    where
      with_index :
          (d : Side)
          → side_levels (RefBook.rest r e.id e.side e.price e.remaining e.owner) d
            ≡ side_levels (with_levels r e.side (push_back e.side lv e.price e)) d
      with_index buy = refl
      with_index sell = refl

  log : SameLog placed (improve placed e.side e.price)
  log = improve-SameLog placed e.side e.price

  -- The order rests in both books: in the detailed one in the first free slot.
  pub rest-Matches :
      RefBook.would_cross r e.side e.price ≡ false
      → Matches
          (rest_order b e.id e.side e.price e.remaining e.owner)
          (RefBook.rest r e.id e.side e.price e.remaining e.owner)
          q'
          fs
  unfolding RefBook.rest placed
  rest-Matches apart =
      let keeps = with_levels-keeps r e.side (push_back e.side lv e.price e) in
      let kept_levels = improve-keeps placed e.side e.price in
      subst (λ x. Matches x r' q' fs) (sym rested)
        (record {
          rep = rw (kept_levels.0, kept_levels.1) (Place.place-Rep b q h fs m.rep p e lt fit);
          valid =
              rest-Valid r e.id e.side e.price e.remaining e.owner m.valid (rw fit.0 (omega arith))
                apart;
          queues = queues;
          bid =
              subst (λ x. Top buy (has q' buy) (improve placed e.side x).best_bid) (sym fit.0)
                (bid_now e.side refl);
          ask =
              subst (λ x. Top sell (has q' sell) (improve placed e.side x).best_ask) (sym fit.0)
                (ask_now e.side refl);
          index =
              subst (λ i. Indexed i r'.id_index q')
                (sym (log.index ∙ ap (emplace e.id h) out.log.index))
                (subst (λ i. Indexed (emplace e.id h b.id_index) i q')
                  (sym (
                    ap (assign e.id (info_of e)) keeps.0
                    ∙ assign-fresh e.id (info_of e) r.id_index
                        (NotIn-find e.id r.id_index (ref_fresh b r q h fs m p e lt fit fresh))))
                  (added_index b r q h fs m p e lt fit fresh));
          seq = log.seq ∙ out.log.seq ∙ m.seq ∙ sym keeps.1;
          sink = log.sink ∙ out.log.sink ∙ m.sink ∙ sym keeps.2;
          trades = log.trades ∙ out.log.trades ∙ m.trades ∙ sym keeps.3;
        })

  pub rest-sizes :
      (length (rest_order b e.id e.side e.price e.remaining e.owner).levels ≡ length b.levels)
      × (length (rest_order b e.id e.side e.price e.remaining e.owner).pool.nodes
          ≡ length b.pool.nodes)
  unfolding placed
  rest-sizes = rw rested (log.ticks ∙ out.log.ticks, log.slots ∙ out.log.slots)
