-- ===== src/OrderBook/Unlink.antt =====
-- `unlink_and_free` takes one cell out of the store, and its slot becomes free.
use cpp_matching_engine.Base.{
  ℕ, ◌%◌, ◌<◌, ◌≡◌, sym, ap, subst, ◌∙◌, ◌≢◌, List, [], ◌∷◌, ◌++◌, arith, get_elem?, get_or, length,
  get_or-set_self, get_or-set_ne, NotIn, Distinct, All, Distinct-without, NotIn-before,
  NotIn-behind, NotIn-both, sub64, u64_mod, get_elem?-lt,
}
use cpp_matching_engine.Base.Int.{pos}
use cpp_matching_engine.Types.{Price, Quantity, Side, buy, sell}
use cpp_matching_engine.Pool.{Handle, null_handle, lifo, get, deallocate}
use cpp_matching_engine.Pool.Frees.{Frees}
use cpp_matching_engine.Pool.Laws.{deallocate_lifo-Frees}
use cpp_matching_engine.Pool.Live.{in_use-pos}
use cpp_matching_engine.OrderBook.State.{
  Order, PriceLevel, blank_level, OrderBook, order_at, level_at, level_of, set_level,
}
use cpp_matching_engine.OrderBook.Levels.{splice, take_out, reprice, unlink_and_free}
use cpp_matching_engine.OrderBook.Cells.{
  Cell, handles, handles-append, node_of, first_or, last_or, first_or-append, last_or-append, Seg,
  Seg-front, Seg-back, Seg-frame, read-Seg,
}
use cpp_matching_engine.OrderBook.Layout.{
  Rep, Store, FitsAt, upd, upd-all, sum_of, sum_of-append, level_for, All-left, All-right, All-both,
  Seg-lt, Rep-apart, Rep-lt,
}
use cpp_matching_engine.OrderBook.Edit.{Seg-edit}
use cpp_matching_engine.OrderBook.Splice.{Spliced, splice-Spliced, All-swap}
use cpp_matching_engine.RefBook.State.{RefOrder}

-- `reprice` moves the best prices and nothing else.
pub reprice-keeps :
    (b : OrderBook) (s : Side) (p : Price)
    → ((reprice b s p).levels ≡ b.levels)
      × ((reprice b s p).pool ≡ b.pool)
      × ((reprice b s p).id_index ≡ b.id_index)
unfolding reprice
reprice-keeps b buy p = ground arith
reprice-keeps b sell p = ground arith

abbrev pub with_total : Quantity → PriceLevel → PriceLevel
with_total n l = record l { total = n }

-- Writing the total of the level at a price.
pub set_total-here :
    (ls : List PriceLevel) (pr : Price) (p : ℕ) (n : Quantity)
    → pr ≡ pos p
    → p < length ls
    → get_or (set_level ls pr (with_total n (level_of ls pr))) p blank_level
      ≡ with_total n (get_or ls p blank_level)
set_total-here ls pr p n e lt = rw e (get_or-set_self ls p _ blank_level lt)

pub set_total-else :
    (ls : List PriceLevel) (pr : Price) (p t : ℕ) (n : Quantity)
    → pr ≡ pos p
    → t ≢ p
    → get_or (set_level ls pr (with_total n (level_of ls pr))) t blank_level
      ≡ get_or ls t blank_level
set_total-else ls pr p t n e ne = rw e (get_or-set_ne ls p t _ blank_level (λ same. ne (sym same)))

pub used-cons :
    (h : Handle) (fs hs : List Handle)
    → NotIn h hs
    → All (λ k. NotIn k fs) hs
    → All (λ k. NotIn k (h ∷ fs)) hs
used-cons h fs [] n a = tt
used-cons h fs (k ∷ hs) n a = (((λ e. n.0 (sym e)), a.0), used-cons h fs hs n.1 a.1)

module _ (b : OrderBook) (q : Store) (fs : List Handle) (r : Rep b.levels b.pool q fs) (p : ℕ)
    (xs : List Cell) (h : Handle) (e : RefOrder) (ys : List Cell)
    (here : q p ≡ xs ++ (h, e) ∷ ys) where
  pub whole : Seg b.pool.nodes null_handle (xs ++ (h, e) ∷ ys) null_handle
  whole = subst (λ cs. Seg b.pool.nodes null_handle cs null_handle) here (r.seg p)

  pub behind : Seg b.pool.nodes (last_or null_handle xs) ((h, e) ∷ ys) null_handle
  behind = Seg-back b.pool.nodes null_handle null_handle xs ((h, e) ∷ ys) whole

  pub order-at_cell : order_at b h ≡ node_of (last_or null_handle xs) (first_or ys null_handle) e
  unfolding get
  order-at_cell = read-Seg b.pool.nodes (last_or null_handle xs) null_handle h e ys behind

  pub all_handles : handles (q p) ≡ handles xs ++ h ∷ handles ys
  all_handles = ap handles here ∙ handles-append xs ((h, e) ∷ ys)

  pub distinct : Distinct (handles xs ++ h ∷ handles ys)
  distinct = subst Distinct all_handles (r.distinct p)

  pub cell_fits : All (FitsAt p) (xs ++ (h, e) ∷ ys)
  cell_fits = subst (All (FitsAt p)) here (r.fits p)

  pub fit : FitsAt p (h, e)
  fit = (All-right (FitsAt p) xs ((h, e) ∷ ys) cell_fits).0

  All-unused : All (λ k. NotIn k fs) (handles xs ++ h ∷ handles ys)
  All-unused = subst (All (λ k. NotIn k fs)) all_handles (r.used p)

  others : handles (xs ++ ys) ≡ handles xs ++ handles ys
  others = handles-append xs ys

  others-NotIn : NotIn h (handles (xs ++ ys))
  others-NotIn = subst (NotIn h) (sym others) (
      NotIn-both h (handles xs) (handles ys) (NotIn-before h (handles xs) (handles ys) distinct)
        (NotIn-behind h (handles xs) (handles ys) distinct))

  -- What holds of all the handles of the tick holds of the others.
  for_others : (P : Handle → Type 0) → All P (handles (q p)) → All P (handles (xs ++ ys))
  for_others P a =
      let a' = subst (All P) all_handles a in
      subst (All P) (sym others) (
        All-both P (handles xs) (handles ys) (All-left P (handles xs) (h ∷ handles ys) a')
          (All-right P (handles xs) (h ∷ handles ys) a').1)

  nonnull : All (λ k. k < null_handle) (handles (q p))
  nonnull = weaken (handles (q p)) (Seg-lt b.pool.nodes null_handle null_handle (q p) (r.seg p))
    where
      weaken :
          (hs : List Handle) → All (λ k. k < length b.pool.nodes) hs → All (λ k. k < null_handle) hs
      weaken [] a = tt
      weaken (k ∷ hs) a = (omega (arith, r.free.small), weaken hs a.1)

  top : first_or (q p) null_handle ≡ first_or xs h
  top = ap (λ cs. first_or cs null_handle) here ∙ first_or-append xs ((h, e) ∷ ys) null_handle

  pub in_range : p < length b.levels
  in_range =
      Rep-lt r p (first_or xs h) top
        (present xs (subst (All (λ k. k < null_handle)) all_handles nonnull))
    where
      present :
          (cs : List Cell)
          → All (λ k. k < null_handle) (handles cs ++ h ∷ handles ys)
          → first_or cs h ≢ null_handle
      present [] a = omega (arith, a.0)
      present ((k, f) ∷ cs) a = omega (arith, a.0)

  lev :
      get_or b.levels p blank_level
      ≡ record { head = first_or xs h; tail = last_or h ys; total = sum_of (q p) % u64_mod }
  lev = r.level p ∙ λ i. record {
    head = top i;
    tail = (ap (last_or null_handle) here ∙ last_or-append null_handle xs ((h, e) ∷ ys)) i;
    total = sum_of (q p) % u64_mod;
  }

  price_here : (order_at b h).price ≡ pos p
  price_here = ap (λ (o : Order). o.price) order-at_cell ∙ fit.0

  spliced : Spliced b p (sum_of (q p) % u64_mod) (xs ++ ys) (splice b (order_at b h))
  spliced =
      splice-Spliced b (order_at b h) p _ h e xs ys price_here
        (ap (λ (o : Order). o.prev) order-at_cell) (ap (λ (o : Order). o.next) order-at_cell)
        in_range lev (for_others (λ k. k < null_handle) nonnull)
        (subst Distinct (sym others) (Distinct-without h (handles xs) (handles ys) distinct))
        (Seg-front b.pool.nodes null_handle null_handle xs ((h, e) ∷ ys) whole) behind.1

  b1 : OrderBook
  b1 = splice b (order_at b h)

  slot_kept : get_elem? b1.pool.nodes h ≡ get_elem? b.pool.nodes h
  unfolding b1
  slot_kept = spliced.edit.frame h others-NotIn

  -- The free list before the slot is returned.
  still_free : Frees lifo b1.pool fs
  unfolding b1
  still_free = spliced.edit.frees fs (for_others (λ k. NotIn k fs) (r.used p)) r.free

  pub unused_here : NotIn h fs
  unused_here = (All-right (λ k. NotIn k fs) (handles xs) (h ∷ handles ys) All-unused).0

  freed : Frees lifo (deallocate lifo b1.pool h) (h ∷ fs)
  unfolding b1
  freed =
      deallocate_lifo-Frees b1.pool h fs still_free
        (get_elem?-lt b1.pool.nodes h _ (slot_kept ∙ behind.0))
        (in_use-pos lifo b1.pool fs h _ still_free (slot_kept ∙ behind.0)) unused_here

  left_over :
      sub64 (level_at (splice b (order_at b h)) (order_at b h).price).total (order_at b h).remaining
      ≡ sum_of (xs ++ ys) % u64_mod
  left_over =
      let old : (level_at (splice b (order_at b h)) (order_at b h).price).total
          ≡ sum_of (q p) % u64_mod =
        ap (λ pr. (level_of (splice b (order_at b h)).levels pr).total) price_here
        ∙ ap (λ (l : PriceLevel). l.total) spliced.level in
      omega (
        arith,
        old,
        ap (λ (o : Order). o.remaining) order-at_cell,
        ap sum_of here,
        sum_of-append xs ((h, e) ∷ ys),
        sum_of-append xs ys,
        fit.1,
      )

  new_level : get_or (take_out b h).levels p blank_level ≡ level_for (xs ++ ys)
  unfolding take_out
  new_level =
      set_total-here (splice b (order_at b h)).levels (order_at b h).price p _ price_here
        (subst (λ n. p < n) (sym spliced.edit.ticks) in_range)
      ∙ ap (with_total _) spliced.level
      ∙ ap (λ n. with_total n (level_for (xs ++ ys))) left_over

  other_level : (t : ℕ) → t ≢ p → get_or (take_out b h).levels t blank_level ≡ level_for (q t)
  unfolding take_out
  other_level t ne =
      set_total-else (splice b (order_at b h)).levels (order_at b h).price p t _ price_here ne
      ∙ spliced.edit.levels t ne
      ∙ r.level t

  -- The slots of this tick are in no other one.
  tick_apart : (t : ℕ) → t ≢ p → All (λ k. NotIn k (handles (q t))) (handles (q p))
  tick_apart t ne = All-swap (handles (q t)) (handles (q p)) (Rep-apart r p t ne)

  pub slot_apart : (t : ℕ) → t ≢ p → NotIn h (handles (q t))
  slot_apart t ne =
      (All-right (λ k. NotIn k (handles (q t))) (handles xs) (h ∷ handles ys)
        (subst (All (λ k. NotIn k (handles (q t)))) all_handles (tick_apart t ne))).0

  others_apart : (t : ℕ) → t ≢ p → All (λ k. NotIn k (handles (xs ++ ys))) (handles (q t))
  others_apart t ne =
      All-swap (handles (xs ++ ys)) (handles (q t))
        (for_others (λ k. NotIn k (handles (q t))) (tick_apart t ne))

  -- Without the cell, and with its slot first in the free list.
  pub take_out-Rep : Rep (take_out b h).levels (take_out b h).pool (upd q p (xs ++ ys)) (h ∷ fs)
  unfolding take_out deallocate b1
  take_out-Rep = record {
    level =
        upd-all (λ t cs. get_or (take_out b h).levels t blank_level ≡ level_for cs) q p (xs ++ ys)
          new_level other_level;
    seg =
        upd-all (λ t cs. Seg (take_out b h).pool.nodes null_handle cs null_handle) q p (xs ++ ys)
          (Seg-frame b1.pool.nodes null_handle null_handle h _ (xs ++ ys) others-NotIn spliced.seg)
          (λ t ne.
            Seg-frame b1.pool.nodes null_handle null_handle h _ (q t) (slot_apart t ne)
              (Seg-edit null_handle null_handle (q t) spliced.edit (others_apart t ne) (r.seg t)));
    distinct =
        upd-all (λ t cs. Distinct (handles cs)) q p (xs ++ ys)
          (subst Distinct (sym others) (Distinct-without h (handles xs) (handles ys) distinct))
          (λ t ne. r.distinct t);
    fits =
        upd-all (λ t cs. All (FitsAt t) cs) q p (xs ++ ys)
          (All-both (FitsAt p) xs ys (All-left (FitsAt p) xs ((h, e) ∷ ys) cell_fits)
            (All-right (FitsAt p) xs ((h, e) ∷ ys) cell_fits).1)
          (λ t ne. r.fits t);
    free = freed;
    used =
        upd-all (λ t cs. All (λ k. NotIn k (h ∷ fs)) (handles cs)) q p (xs ++ ys)
          (used-cons h fs (handles (xs ++ ys)) others-NotIn
            (for_others (λ k. NotIn k fs) (r.used p)))
          (λ t ne. used-cons h fs (handles (q t)) (slot_apart t ne) (r.used t));
  }

  -- In a book that stands for a store, `unlink_and_free` on the slot of an order, wherever it stands in
  -- its queue, gives a book that stands for the store without that order, every other order in its
  -- place, and the slot is the first free one.
  pub unlink_and_free-Rep :
      Rep (unlink_and_free b h).levels (unlink_and_free b h).pool (upd q p (xs ++ ys)) (h ∷ fs)
  unfolding unlink_and_free
  unlink_and_free-Rep =
      let keeps = reprice-keeps (take_out b h) (order_at b h).side (order_at b h).price in
      rw (keeps.0, keeps.1) take_out-Rep
