-- ===== src/OrderBook/Adjust.antt =====
-- Lowering the quantity of a resting order, and of its level with it: what a fill and an in-place
-- `modify` do.
use cpp_matching_engine.Base.{
  ℕ, ◌+◌, ◌%◌, ◌≡◌, sym, ap, subst, ◌∙◌, List, ◌∷◌, ◌++◌, arith, get_or, NotIn, Distinct, All,
  sub64, u64_mod, NotIn-before, NotIn-behind,
}
use cpp_matching_engine.Base.Int.{pos}
use cpp_matching_engine.Types.{Price, Quantity}
use cpp_matching_engine.Pool.{Handle, null_handle, lifo, get, put}
use cpp_matching_engine.Pool.Laws.{put-Frees}
use cpp_matching_engine.OrderBook.State.{PriceLevel, blank_level, OrderBook, level_at, level_of}
use cpp_matching_engine.OrderBook.Levels.{set_remaining, set_total}
use cpp_matching_engine.OrderBook.Cells.{
  Cell, handles, handles-append, first_or, last_or, first_or-append, last_or-append, Seg, Seg-frame,
  Seg-front, Seg-join, Seg-set_remaining,
}
use cpp_matching_engine.OrderBook.Layout.{
  Rep, Store, FitsAt, upd, upd-all, sum_of, sum_of-append, level_for, All-both, All-left, All-right,
}
use cpp_matching_engine.OrderBook.Unlink.{with_total, set_total-here, set_total-else}
use cpp_matching_engine.OrderBook.Unlink
use cpp_matching_engine.RefBook.State.{RefOrder}

-- The order in slot `h` keeps `n`, and the level at `pr` loses `d`.
abbrev pub adjust : OrderBook → Handle → Quantity → Price → Quantity → OrderBook
adjust b h n pr d = let b1 = set_remaining b h n in set_total b1 pr (sub64 (level_at b1 pr).total d)

abbrev pub with_remaining : Quantity → RefOrder → RefOrder
with_remaining n e = record e { remaining = n }

module _ (b : OrderBook) (q : Store) (fs : List Handle) (r : Rep b.levels b.pool q fs) (p : ℕ)
    (xs : List Cell) (h : Handle) (e : RefOrder) (ys : List Cell)
    (here : q p ≡ xs ++ (h, e) ∷ ys) where
  module _ (pr : Price) (n d : Quantity) (price : pr ≡ pos p) (split : n + d ≡ e.remaining) where
    abbrev b' : OrderBook
    b' = adjust b h n pr d

    abbrev cs : List Cell
    cs = xs ++ (h, with_remaining n e) ∷ ys

    fit : FitsAt p (h, e)
    fit = Unlink.fit b q fs r p xs h e ys here

    same_handles : handles cs ≡ handles (q p)
    same_handles =
        handles-append xs ((h, with_remaining n e) ∷ ys)
        ∙ sym (Unlink.all_handles b q fs r p xs h e ys here)

    new_seg : Seg b'.pool.nodes null_handle cs null_handle
    unfolding put get
    new_seg =
        Seg-join b'.pool.nodes null_handle null_handle xs ((h, with_remaining n e) ∷ ys)
          (Seg-frame b.pool.nodes null_handle h h _ xs
            (NotIn-before h (handles xs) (handles ys) (Unlink.distinct b q fs r p xs h e ys here))
            (Seg-front b.pool.nodes null_handle null_handle xs ((h, e) ∷ ys)
              (Unlink.whole b q fs r p xs h e ys here)))
          (Seg-set_remaining b.pool.nodes (last_or null_handle xs) null_handle h e ys n
            (NotIn-behind h (handles xs) (handles ys) (Unlink.distinct b q fs r p xs h e ys here))
            (Unlink.behind b q fs r p xs h e ys here))

    ends : level_for (q p) ≡ record {
      head = first_or cs null_handle;
      tail = last_or null_handle cs;
      total = sum_of (q p) % u64_mod;
    }
    ends = rw (
      here,
      first_or-append xs ((h, e) ∷ ys) null_handle,
      first_or-append xs ((h, with_remaining n e) ∷ ys) null_handle,
      last_or-append null_handle xs ((h, e) ∷ ys),
      last_or-append null_handle xs ((h, with_remaining n e) ∷ ys),
    )

    new_total : sub64 (level_at b pr).total d ≡ sum_of cs % u64_mod
    new_total = omega (
      arith,
      ap (λ m. (level_of b.levels m).total) price,
      ap (λ (l : PriceLevel). l.total) (r.level p),
      ap sum_of here,
      sum_of-append xs ((h, e) ∷ ys),
      sum_of-append xs ((h, with_remaining n e) ∷ ys),
      fit.1,
    )

    -- In a book that stands for a store, setting the remaining quantity of one order to `n` and taking
    -- the difference off its level's total gives a book that stands for the store with that order
    -- changed and no other, in its place in the queue.
    pub adjust-Rep : Rep b'.levels b'.pool (upd q p cs) fs
    unfolding put
    adjust-Rep = record {
      level =
          upd-all (λ t ds. get_or b'.levels t blank_level ≡ level_for ds) q p cs
            (set_total-here b.levels pr p _ price (Unlink.in_range b q fs r p xs h e ys here)
              ∙ ap (with_total _) (r.level p ∙ ends)
              ∙ ap (λ m. with_total m (level_for cs)) new_total)
            (λ t ne. set_total-else b.levels pr p t _ price ne ∙ r.level t);
      seg =
          upd-all (λ t ds. Seg b'.pool.nodes null_handle ds null_handle) q p cs new_seg
            (λ t ne.
              Seg-frame b.pool.nodes null_handle null_handle h _ (q t)
                (Unlink.slot_apart b q fs r p xs h e ys here t ne) (r.seg t));
      distinct =
          upd-all (λ t ds. Distinct (handles ds)) q p cs
            (subst Distinct (sym same_handles) (r.distinct p)) (λ t ne. r.distinct t);
      fits =
          upd-all (λ t ds. All (FitsAt t) ds) q p cs
            (All-both (FitsAt p) xs ((h, with_remaining n e) ∷ ys)
              (All-left (FitsAt p) xs ((h, e) ∷ ys) (Unlink.cell_fits b q fs r p xs h e ys here))
              (
                (fit.0, omega (arith, fit.1)),
                (All-right (FitsAt p) xs ((h, e) ∷ ys)
                    (Unlink.cell_fits b q fs r p xs h e ys here)).1,
              ))
            (λ t ne. r.fits t);
      free = put-Frees lifo b.pool h _ fs (Unlink.unused_here b q fs r p xs h e ys here) r.free;
      used =
          upd-all (λ t ds. All (λ k. NotIn k fs) (handles ds)) q p cs
            (subst (All (λ k. NotIn k fs)) (sym same_handles) (r.used p)) (λ t ne. r.used t);
    }
