-- ===== src/Refine/Adjust.antt =====
-- Lowering the quantity of one order, in both books.
use cpp_matching_engine.Base.{
  ℕ, ◌+◌, ◌≡◌, refl, sym, ap, ◌∙◌, subst, inl, inr, false, List, ◌∷◌, ◌++◌, some, Bool-cases, All,
  NotIn-before, eq-cases,
}
use cpp_matching_engine.Base.Dict.{find}
use cpp_matching_engine.Base.Int.{pos}
use cpp_matching_engine.Types.{Quantity, Side, buy, sell, same_side}
use cpp_matching_engine.Pool.{Handle}
use cpp_matching_engine.OrderBook.State.{OrderBook}
use cpp_matching_engine.OrderBook.Cells.{Cell, handles}
use cpp_matching_engine.OrderBook.Layout.{
  Store, upd, upd-all, All-both, All-left, All-right, pos-ne,
}
use cpp_matching_engine.OrderBook.Unlink
use cpp_matching_engine.OrderBook.Adjust.{adjust, with_remaining, adjust-Rep}
use cpp_matching_engine.RefBook.State.{
  RefOrder, RefBook, Levels, side_levels, with_levels, queue_at, set_remaining, set_remaining_at,
}
use cpp_matching_engine.RefBook.Ordered.{set_remaining_at-Leaves}
use cpp_matching_engine.RefBook.Uncrossed.{with_levels-Valid, side_levels-Ordered}
use cpp_matching_engine.Refine.Orders.{
  orders, filled, same_side_refl, set_remaining-middle, OtherId,
}
use cpp_matching_engine.Refine.Queues.{queue_at-set_remaining_at_self, queue_at-set_remaining_at_ne}
use cpp_matching_engine.Refine.Tops.{Top-cong}
use cpp_matching_engine.Refine.Relation.{
  Matches, Indexed, Here, info_of, has, has-step, queues-step,
}
use cpp_matching_engine.Refine.Single.{
  other_ids, orders-OtherId, orders-middle, orders-around, filled-middle, Here-split, Here-join,
  Here-middle, Here-upd, Here-upd_self, with_levels-keeps,
}

module _ (b : OrderBook) (r : RefBook) (q : Store) (fs : List Handle) (m : Matches b r q fs) (p : ℕ)
    (xs : List Cell) (h : Handle) (e : RefOrder) (ys : List Cell)
    (here : q p ≡ xs ++ (h, e) ∷ ys) where
  -- What holds of the cells of the tick, said of the cell and of those around it.
  pub at_cell : (P : Cell → Type 0) → All P (q p) → P (h, e)
  at_cell P a = (All-right P xs ((h, e) ∷ ys) (subst (All P) here a)).0

  pub before_cell : (P : Cell → Type 0) → All P (q p) → All P xs
  before_cell P a = All-left P xs ((h, e) ∷ ys) (subst (All P) here a)

  pub behind_cell : (P : Cell → Type 0) → All P (q p) → All P ys
  behind_cell P a = (All-right P xs ((h, e) ∷ ys) (subst (All P) here a)).1

  pub known : find e.id b.id_index ≡ some h
  known = at_cell (λ c. find c.1.id b.id_index ≡ some c.0) (m.index.handle p)

  -- The orders of its side in front of it have other ids.
  pub others_before : All (OtherId e.id) (orders e.side xs)
  others_before = orders-OtherId e.side e.id xs (
      other_ids b.id_index e.id h xs known
        (NotIn-before h (handles xs) (handles ys) (Unlink.distinct b q fs m.rep p xs h e ys here))
        (before_cell (λ c. find c.1.id b.id_index ≡ some c.0) (m.index.handle p)))

  pub queue_here :
      queue_at (side_levels r e.side) (pos p) ≡ orders e.side xs ++ e ∷ orders e.side ys
  queue_here =
      m.queues e.side p
      ∙ ap (orders e.side) here
      ∙ orders-middle e.side xs h e ys (same_side_refl e.side)

  module _ (n d : Quantity) (split : n + d ≡ e.remaining) where
    abbrev cs : List Cell
    cs = xs ++ (h, with_remaining n e) ∷ ys

    abbrev ls : Levels
    ls = set_remaining_at (side_levels r e.side) (pos p) e.id n

    queue_now : queue_at ls (pos p) ≡ orders e.side cs
    queue_now =
        queue_at-set_remaining_at_self (side_levels r e.side) (pos p) e.id n
        ∙ ap (set_remaining e.id n) queue_here
        ∙ set_remaining-middle e.id n (orders e.side xs) e (orders e.side ys) others_before refl
        ∙ sym (orders-middle e.side xs h (with_remaining n e) ys (same_side_refl e.side))

    same_others : (sd : Side) → same_side e.side sd ≡ false → orders sd (q p) ≡ orders sd cs
    same_others sd s =
        ap (orders sd) here
        ∙ orders-around sd xs h e ys s
        ∙ sym (orders-around sd xs h (with_remaining n e) ys s)

    same_presence : (sd : Side) → filled (orders sd (q p)) ≡ filled (orders sd cs)
    same_presence sd = elim (Bool-cases (same_side e.side sd)) [
      | inl s ↦
          ap (λ l. filled (orders sd l)) here
          ∙ ap filled (orders-middle sd xs h e ys s)
          ∙ filled-middle (orders sd xs) e (orders sd ys)
          ∙ sym (
              ap filled (orders-middle sd xs h (with_remaining n e) ys s)
              ∙ filled-middle (orders sd xs) (with_remaining n e) (orders sd ys))
      | inr s ↦ ap filled (same_others sd s)
    ]

    same_facts :
        (P : Cell → Type 0)
        → (P (h, e) → P (h, with_remaining n e))
        → ((t : ℕ) → All P (q t))
        → (t : ℕ) → All P (upd q p cs t)
    same_facts P f a =
        upd-all (λ t ds. All P ds) q p cs
          (All-both P xs ((h, with_remaining n e) ∷ ys) (before_cell P (a p))
            (f (at_cell P (a p)), behind_cell P (a p)))
          (λ t ne. a t)

    index : Indexed b.id_index r.id_index (upd q p cs)
    index = record {
      handle_keys = m.index.handle_keys;
      info_keys = m.index.info_keys;
      handle = same_facts (λ c. find c.1.id b.id_index ≡ some c.0) (λ f. f) m.index.handle;
      info = same_facts (λ c. find c.1.id r.id_index ≡ some (info_of c.1)) (λ f. f) m.index.info;
      sound = λ id k f.
          let (t, g, at, same) = m.index.sound id k f in
          elim (eq-cases t p) [
            | inl tp ↦
                elim (Here-split (k, g) (h, e) xs ys
                  (subst (Here (k, g)) here (subst (λ u. Here (k, g) (q u)) tp at))) [
                    | inl it ↦ (
                      p,
                      with_remaining n e,
                      subst (λ x. Here (x, with_remaining n e) (upd q p cs p))
                          (ap (λ (c : Cell). c.0) it)
                          (Here-upd_self q p cs (h, with_remaining n e)
                            (Here-middle (h, with_remaining n e) xs ys)),
                      ap (λ (c : Cell). c.1.id) it ∙ same,
                    )
                    | inr rest ↦ (
                      p,
                      g,
                      Here-upd_self q p cs (k, g)
                          (Here-join (k, g) (h, with_remaining n e) xs ys rest),
                      same,
                    )
                  ]
            | inr ne ↦ (t, g, Here-upd q p cs t (k, g) ne at, same)
          ];
      absent = m.index.absent;
    }

    -- Both books have the smaller quantity, in the order's place.
    pub adjust-Matches : Matches (adjust b h n (pos p) d) (with_levels r e.side ls) (upd q p cs) fs
    adjust-Matches =
        let keeps = with_levels-keeps r e.side ls in
        record {
          rep = adjust-Rep b q fs m.rep p xs h e ys here (pos p) n d refl split;
          valid = with_levels-Valid r e.side ls m.valid (
              set_remaining_at-Leaves e.side (side_levels r e.side) (pos p) e.id n
                (side_levels-Ordered r e.side m.valid));
          queues =
              queues-step r q e.side ls p cs m.queues queue_now
                (λ t ne.
                  queue_at-set_remaining_at_ne (side_levels r e.side) (pos p) (pos t) e.id n
                    (pos-ne ne))
                same_others;
          bid =
              Top-cong buy (has q buy) (has (upd q p cs) buy) b.best_bid
                (has-step q buy p cs (same_presence buy)) m.bid;
          ask =
              Top-cong sell (has q sell) (has (upd q p cs) sell) b.best_ask
                (has-step q sell p cs (same_presence sell)) m.ask;
          index = subst (λ i. Indexed b.id_index i (upd q p cs)) (sym keeps.0) index;
          seq = m.seq ∙ sym keeps.1;
          sink = m.sink ∙ sym keeps.2;
          trades = m.trades ∙ sym keeps.3;
        }
