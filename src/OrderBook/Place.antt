-- ===== src/OrderBook/Place.antt =====
-- `rest_order` takes the first free slot and puts the order behind the others of its level.
use cpp_matching_engine.Base.{
  ℕ, ◌%◌, ◌≤◌, ◌<◌, ◌≡◌, refl, sym, ap, subst, ◌∙◌, ◌≢◌, List, [], ◌∷◌, ◌++◌, some, arith,
  get_elem?, set, get_or, length, NotIn, Distinct, All, Distinct-append, add64, u64_mod,
  get_elem?-lt, get_elem?-set_self,
}
use cpp_matching_engine.Base.Int.{pos}
use cpp_matching_engine.Pool.{Handle, null_handle, value, Pool, lifo, put, allocate}
use cpp_matching_engine.Pool.Laws.{allocate-Frees, allocate-nodes, put-Frees}
use cpp_matching_engine.OrderBook.State.{
  Order, PriceLevel, blank_level, OrderBook, level_of, set_level,
}
use cpp_matching_engine.OrderBook.Levels.{append_order, place}
use cpp_matching_engine.OrderBook.Cells.{
  Cell, handles, handles-append, node_of, first_or, last_or, first_or-append, last_or-append, Seg,
  Seg-frame,
}
use cpp_matching_engine.OrderBook.Layout.{
  Rep, Store, FitsAt, upd, upd-all, sum_of, sum_of-append, level_for, All-both, Seg-lt, Rep-apart,
}
use cpp_matching_engine.OrderBook.Edit.{Seg-edit}
use cpp_matching_engine.OrderBook.Append.{Appended, append_order-Appended}
use cpp_matching_engine.OrderBook.Unlink.{with_total, set_total-here, set_total-else, used-cons}
use cpp_matching_engine.RefBook.State.{RefOrder}

-- Handles that are not in a list with `h` in front are not `h`.
fresh-NotIn : (h : Handle) (fs hs : List Handle) → All (λ k. NotIn k (h ∷ fs)) hs → NotIn h hs
fresh-NotIn h fs [] a = tt
fresh-NotIn h fs (k ∷ hs) a = ((λ e. a.0.0 (sym e)), fresh-NotIn h fs hs a.1)

used-tail :
    (h : Handle) (fs hs : List Handle) → All (λ k. NotIn k (h ∷ fs)) hs → All (λ k. NotIn k fs) hs
used-tail h fs [] a = tt
used-tail h fs (k ∷ hs) a = (a.0.1, used-tail h fs hs a.1)

pub below-null :
    (n : ℕ) (hs : List Handle)
    → n ≤ null_handle
    → All (λ k. k < n) hs
    → All (λ k. k < null_handle) hs
below-null n [] l a = tt
below-null n (k ∷ hs) l a = (omega arith, below-null n hs l a.1)

module _ (b : OrderBook) (q : Store) (h : Handle) (fs : List Handle)
    (r : Rep b.levels b.pool q (h ∷ fs)) (p : ℕ) (e : RefOrder) (lt : p < length b.levels)
    (fit : FitsAt p (h, e)) where
  abbrev pool' : Pool Order
  pool' = put (allocate lifo b.pool).0 h (node_of null_handle null_handle e)

  nodes-pool' : pool'.nodes ≡ set b.pool.nodes h (value (node_of null_handle null_handle e))
  unfolding put
  nodes-pool' =
      ap (λ ns. set ns h (value (node_of null_handle null_handle e))) (allocate-nodes lifo b.pool)

  h-lt : h < length b.pool.nodes
  h-lt = get_elem?-lt b.pool.nodes h _ r.free.links.1

  new_slot : (t : ℕ) → NotIn h (handles (q t))
  new_slot t = fresh-NotIn h fs (handles (q t)) (r.used t)

  kept : (t : ℕ) → Seg pool'.nodes null_handle (q t) null_handle
  kept t =
      subst (λ ns. Seg ns null_handle (q t) null_handle) (sym nodes-pool')
        (Seg-frame b.pool.nodes null_handle null_handle h _ (q t) (new_slot t) (r.seg t))

  abbrev b0 : OrderBook
  b0 = record b { pool = pool' }

  slot : Seg pool'.nodes null_handle ((h, e) ∷ []) null_handle
  slot = (
    subst (λ ns. get_elem? ns h ≡ some (value (node_of null_handle null_handle e)))
        (sym nodes-pool') (get_elem?-set_self b.pool.nodes h _ h-lt),
    tt,
  )

  abbrev b1 : OrderBook
  b1 = append_order b0 h (pos p)

  appended : Appended b0 p (sum_of (q p) % u64_mod) h e lt r.free.links.0 slot (q p) b1
  appended =
      append_order-Appended b0 p (sum_of (q p) % u64_mod) h e lt r.free.links.0 slot (q p)
        (r.level p)
        (below-null (length b.pool.nodes) (handles (q p)) r.free.small
          (Seg-lt b.pool.nodes null_handle null_handle (q p) (r.seg p)))
        (new_slot p) (r.distinct p) (kept p)

  abbrev cs : List Cell
  cs = q p ++ (h, e) ∷ []

  cs-handles : handles cs ≡ handles (q p) ++ h ∷ []
  cs-handles = handles-append (q p) ((h, e) ∷ [])

  level_now : get_or b1.levels p blank_level ≡ record {
    head = first_or cs null_handle;
    tail = last_or null_handle cs;
    total = sum_of (q p) % u64_mod;
  }
  level_now = appended.level ∙ λ i. record {
    head = sym (first_or-append (q p) ((h, e) ∷ []) null_handle) i;
    tail = sym (last_or-append null_handle (q p) ((h, e) ∷ [])) i;
    total = sum_of (q p) % u64_mod;
  }

  new_total : add64 (level_of b1.levels (pos p)).total e.remaining ≡ sum_of cs % u64_mod
  new_total =
      omega (arith, ap (λ (l : PriceLevel). l.total) level_now, sum_of-append (q p) ((h, e) ∷ []))

  abbrev b2 : OrderBook
  b2 = place b (allocate lifo b.pool).0 h (node_of null_handle null_handle e)

  place-eq : b2 ≡ record b1 {
    levels = set_level b1.levels (pos p) (
        with_total
          (add64 (level_of b1.levels (pos p)).total e.remaining)
          (level_of b1.levels (pos p)));
  }
  unfolding place
  place-eq = rw fit.0

  lt1 : p < length b1.levels
  lt1 = subst (λ n. p < n) (sym appended.edit.ticks) lt

  new_level : get_or b2.levels p blank_level ≡ level_for cs
  new_level = rw place-eq (
      set_total-here b1.levels (pos p) p _ refl lt1
      ∙ ap (with_total _) level_now
      ∙ ap (λ n. with_total n (level_for cs)) new_total)

  other_level : (t : ℕ) → t ≢ p → get_or b2.levels t blank_level ≡ level_for (q t)
  other_level t ne =
      rw place-eq
        (set_total-else b1.levels (pos p) p t _ refl ne ∙ appended.edit.levels t ne ∙ r.level t)

  other_slots : (t : ℕ) → t ≢ p → All (λ k. NotIn k (h ∷ handles (q p))) (handles (q t))
  other_slots t ne = used-cons h (handles (q p)) (handles (q t)) (new_slot t) (Rep-apart r p t ne)

  -- Placing an order in the first free slot of a book that stands for a store, at a tick in range, with
  -- a quantity that fits its type, gives a book that stands for the store with the order added as the
  -- last one of its tick; the slot is no longer free.
  pub place-Rep : Rep b2.levels b2.pool (upd q p cs) fs
  place-Rep = record {
    level =
        upd-all (λ t ds. get_or b2.levels t blank_level ≡ level_for ds) q p cs new_level
          other_level;
    seg = rw place-eq (
        upd-all (λ t ds. Seg b1.pool.nodes null_handle ds null_handle) q p cs appended.seg
          (λ t ne.
            Seg-edit null_handle null_handle (q t) appended.edit (other_slots t ne) (kept t)));
    distinct =
        upd-all (λ t ds. Distinct (handles ds)) q p cs
          (subst Distinct (sym cs-handles)
            (Distinct-append h (handles (q p)) (r.distinct p) (new_slot p)))
          (λ t ne. r.distinct t);
    fits =
        upd-all (λ t ds. All (FitsAt t) ds) q p cs
          (All-both (FitsAt p) (q p) _ (r.fits p) (fit, tt)) (λ t ne. r.fits t);
    free = rw place-eq (
        appended.edit.frees fs (r.free.distinct.0, used-tail h fs (handles (q p)) (r.used p))
          (put-Frees lifo (allocate lifo b.pool).0 h _ fs r.free.distinct.0
            (allocate-Frees lifo b.pool h fs r.free).1));
    used =
        upd-all (λ t ds. All (λ k. NotIn k fs) (handles ds)) q p cs
          (subst (All (λ k. NotIn k fs)) (sym cs-handles) (
            All-both (λ k. NotIn k fs) (handles (q p)) (h ∷ [])
              (used-tail h fs (handles (q p)) (r.used p)) (r.free.distinct.0, tt)))
          (λ t ne. used-tail h fs (handles (q t)) (r.used t));
  }
