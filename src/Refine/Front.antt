-- ===== src/Refine/Front.antt =====
-- The order that a sweep meets first, in both books.
use cpp_matching_engine.Base.{
  ℕ, ◌≡◌, refl, sym, ap, ◌∙◌, subst, ◌⊎◌, inl, inr, true, false, List, [], ◌∷◌, none, some,
  Bool-cases, arith, ◌||◌, if◌then◌else◌,
}
use cpp_matching_engine.Base.Int.{pos, ltb_ℤ, eqb_ℤ_refl, pos_part}
use cpp_matching_engine.Types.{Price, Side, buy, sell, opposite, same_side}
use cpp_matching_engine.Pool.{Handle, null_handle}
use cpp_matching_engine.OrderBook.State.{OrderBook, PriceLevel, level_at, no_price}
use cpp_matching_engine.OrderBook.Match.{crossing}
use cpp_matching_engine.OrderBook.Cells.{Cell, first_or}
use cpp_matching_engine.OrderBook.Layout.{Store}
use cpp_matching_engine.RefBook.{beyond}
use cpp_matching_engine.RefBook.State.{
  RefOrder, Queue, RefBook, Levels, side_levels, queue_at, first_price,
}
use cpp_matching_engine.RefBook.Ordered.{Ordered}
use cpp_matching_engine.RefBook.Uncrossed.{side_levels-Ordered}
use cpp_matching_engine.Refine.Orders.{orders, filled, orders-hit}
use cpp_matching_engine.Refine.Tops.{tick-of, true-false}
use cpp_matching_engine.Refine.Relation.{Matches, has, Matches-apart, same_side-eq}
use cpp_matching_engine.Refine.Prices.{best_bid-same, best_ask-same}

abbrev pub best : OrderBook → Side → Price
best b buy = b.best_bid
best b sell = b.best_ask

pub crossing-best :
    (b : OrderBook) (side : Side) (lim : Price)
    → crossing b side lim ≡ (
        if ltb_ℤ (best b (opposite side)) (pos 0) || beyond side lim (best b (opposite side))
        then none
        else some (level_at b (best b (opposite side))).head)
unfolding crossing
crossing-best b buy lim = refl
crossing-best b sell lim = refl

head_or : RefOrder → Queue → RefOrder
head_or d [] = d
head_or d (o ∷ os) = o

rest_of : Queue → Queue
rest_of [] = []
rest_of (o ∷ os) = os

-- Where all the orders of a tick have one side, its first cell holds the first of them.
first-cell :
    (sd : Side) (cs : List Cell) (o : RefOrder) (os : Queue)
    → orders sd cs ≡ o ∷ os
    → filled (orders (opposite sd) cs) ≡ false
    → (h : Handle) × (ys : List Cell) × (cs ≡ (h, o) ∷ ys) × (same_side o.side sd ≡ true)
unfolding orders head_or
first-cell sd [] o os e f = absurd (cc)
first-cell sd ((h, x) ∷ cs) o os e f = elim (Bool-cases (same_side x.side sd)) [
  | inl s ↦
      let xo : x ≡ o = ap (head_or o) (sym (orders-hit sd h x cs s) ∙ e) in
      (h, cs, ap (λ y. (h, y) ∷ cs) xo, subst (λ y. same_side y.side sd ≡ true) xo s)
  | inr s ↦ true-false (filled (orders (opposite sd) ((h, x) ∷ cs))) (opposite_there sd x s) f
]
  where
    there :
        (sd : Side) (x : RefOrder)
        → same_side x.side (opposite sd) ≡ true
        → filled (orders (opposite sd) ((h, x) ∷ cs)) ≡ true
    there sd x s = ap filled (orders-hit (opposite sd) h x cs s)

    flip : (s sd : Side) → same_side s sd ≡ false → same_side s (opposite sd) ≡ true
    flip buy buy n = absurd (cc)
    flip buy sell n = refl
    flip sell buy n = refl
    flip sell sell n = absurd (cc)

    opposite_there :
        (sd : Side) (x : RefOrder)
        → same_side x.side sd ≡ false
        → filled (orders (opposite sd) ((h, x) ∷ cs)) ≡ true
    opposite_there sd x n = there sd x (flip x.side sd n)

pub best-same :
    (b : OrderBook) (r : RefBook) (q : Store) (fs : List Handle) (sd : Side)
    → Matches b r q fs
    → best b sd ≡ first_price (side_levels r sd)
best-same b r q fs buy m = best_bid-same b r q fs m
best-same b r q fs sell m = best_ask-same b r q fs m

-- Both sides have no order at one tick.
pub no-both :
    (b : OrderBook) (r : RefBook) (q : Store) (fs : List Handle) (sd : Side) (t : ℕ)
    → Matches b r q fs
    → has q sd t ≡ true
    → has q (opposite sd) t ≡ false
no-both b r q fs buy t m f = elim (Bool-cases (has q sell t)) [
  | inl s ↦ absurd (omega (arith, Matches-apart b r q fs t t m f s))
  | inr s ↦ s
]
no-both b r q fs sell t m f = elim (Bool-cases (has q buy t)) [
  | inl s ↦ absurd (omega (arith, Matches-apart b r q fs t t m s f))
  | inr s ↦ s
]

-- The first order of a side's map is the first cell of the best tick.
pub record Front (b : OrderBook) (r : RefBook) (q : Store) (sd : Side) : Type 0 where
  pub tick : ℕ
  pub slot : Handle
  pub order : RefOrder
  pub cells : List Cell
  pub queue : Queue
  pub levels : Levels
  pub first : side_levels r sd ≡ (pos tick, order ∷ queue) ∷ levels
  pub at_best : best b sd ≡ pos tick
  pub here : q tick ≡ (slot, order) ∷ cells
  pub head : (level_at b (pos tick)).head ≡ slot
  pub on_side : order.side ≡ sd

first_queue :
    (t : ℕ) (o : RefOrder) (os : Queue) (ls : Levels)
    → queue_at ((pos t, o ∷ os) ∷ ls) (pos t) ≡ o ∷ os
unfolding queue_at
first_queue t o os ls = rw (eqb_ℤ_refl (pos t)) refl

pub Front-cases :
    (b : OrderBook) (r : RefBook) (q : Store) (fs : List Handle) (sd : Side)
    → Matches b r q fs
    → ((side_levels r sd ≡ []) × (best b sd ≡ no_price)) ⊎ Front b r q sd
Front-cases b r q fs sd m = go (side_levels r sd) refl (side_levels-Ordered r sd m.valid)
  where
    go :
        (ls : Levels)
        → side_levels r sd ≡ ls
        → Ordered sd ls
        → ((side_levels r sd ≡ []) × (best b sd ≡ no_price)) ⊎ Front b r q sd
    go [] e o = inl (e, best-same b r q fs sd m ∙ ap first_price e)
    go ((p, []) ∷ ls) e o = absurd (omega (arith, o.1))
    go ((p, x ∷ os) ∷ ls) e o =
        let tick = tick-of p o.0 in
        let t = pos_part p in
        let e' : side_levels r sd ≡ (pos t, x ∷ os) ∷ ls = e ∙ ap (λ y. (y, x ∷ os) ∷ ls) tick in
        let found : orders sd (q t) ≡ x ∷ os =
          sym (m.queues sd t) ∙ ap (λ l. queue_at l (pos t)) e' ∙ first_queue t x os ls in
        let (h, ys, cells, side) =
          first-cell sd (q t) x os found (no-both b r q fs sd t m (ap filled found)) in
        inr (record {
          tick = t;
          slot = h;
          order = x;
          cells = ys;
          queue = os;
          levels = ls;
          first = e';
          at_best = best-same b r q fs sd m ∙ ap first_price e';
          here = cells;
          head =
              ap (λ (l : PriceLevel). l.head) (m.rep.level t)
              ∙ ap (λ cs. first_or cs null_handle) cells;
          on_side = same_side-eq x.side sd side;
        })
