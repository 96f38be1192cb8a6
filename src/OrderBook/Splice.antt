-- ===== src/OrderBook/Splice.antt =====
-- The two writes of `unlink_and_free` that take an order out of its level's list.
use cpp_matching_engine.Base.{
  ℕ, ◌<◌, ◌≡◌, refl, sym, ap, subst, ◌∙◌, inl, inr, List, [], ◌∷◌, ◌++◌, arith, get_or, length,
  get_or-set_self, NotIn, Distinct, All, eq→==, ne→==, Distinct-left, Distinct-right, NotIn-left,
  NotIn-right, Disjoint-halves,
}
use cpp_matching_engine.Base.Int.{pos}
use cpp_matching_engine.Types.{Quantity}
use cpp_matching_engine.Pool.{Handle, null_handle, Pool, get, put}
use cpp_matching_engine.OrderBook.State.{Order, PriceLevel, blank_level, OrderBook}
use cpp_matching_engine.OrderBook.Levels.{skip_forward, skip_backward, splice}
use cpp_matching_engine.OrderBook.Cells.{
  Cell, handles, first_or, last_or, read, write, Seg, Seg-join, handles-append, first_or-append,
  last_or-append, Seg-set_next, Seg-set_prev,
}
use cpp_matching_engine.OrderBook.Edit.{In, Edit, Edit-then, Edit-slot, Edit-level, Seg-edit}
use cpp_matching_engine.OrderBook.Layout.{All-left, All-right}
use cpp_matching_engine.RefBook.State.{RefOrder}

abbrev pub Nonnull : List Handle → Type 0
Nonnull = All (λ h. h < null_handle)

abbrev pub with_head : Handle → PriceLevel → PriceLevel
with_head h l = record l { head = h }

abbrev pub with_tail : Handle → PriceLevel → PriceLevel
with_tail h l = record l { tail = h }

pub last_or-In :
    (h : Handle) (e : RefOrder) (cs : List Cell) → In (last_or h cs) (handles ((h, e) ∷ cs))
last_or-In h e [] = inl refl
last_or-In h e ((k, f) ∷ cs) = inr (last_or-In k f cs)

pub last_or-lt :
    (h : Handle) (cs : List Cell)
    → h < null_handle
    → Nonnull (handles cs)
    → last_or h cs < null_handle
last_or-lt h [] l n = l
last_or-lt h ((k, f) ∷ cs) l n = last_or-lt k cs n.0 n.1

module _ (b : OrderBook) (o : Order) (p : ℕ) (l : PriceLevel) (h : Handle) where
  -- What the first write gives: the cells `xs` before `o` now lead to what is behind it.
  pub record Forward (xs : List Cell) (b' : OrderBook) : Type 0 where
    pub edit : Edit (handles xs) p b.levels b.pool b'.levels b'.pool
    pub seg : Seg b'.pool.nodes null_handle xs o.next
    pub level : get_or b'.levels p blank_level ≡ with_head (first_or xs o.next) l

  pub skip_forward-Forward :
      (xs : List Cell)
      → o.price ≡ pos p
      → p < length b.levels
      → get_or b.levels p blank_level ≡ l
      → l.head ≡ first_or xs h
      → o.prev ≡ last_or null_handle xs
      → Nonnull (handles xs)
      → Distinct (handles xs)
      → Seg b.pool.nodes null_handle xs h
      → Forward xs (skip_forward b o)
  unfolding skip_forward get put
  skip_forward-Forward [] price lt lev top prev n d s =
      rw (eq→== o.prev null_handle prev, price)
        (record {
          edit = Edit-level b.levels b.pool _;
          seg = tt;
          level = get_or-set_self b.levels p _ blank_level lt ∙ ap (with_head o.next) lev;
        })
  skip_forward-Forward ((k, e) ∷ xs) price lt lev top prev n d s =
      rw (ne→== o.prev null_handle (omega (arith, last_or-lt k xs n.0 n.1))) (record {
        edit =
            Edit-slot b.levels b.pool o.prev _
              (subst (λ m. In m (k ∷ handles xs)) (sym prev) (last_or-In k e xs));
        seg =
            subst
              (λ m.
                Seg (write b.pool.nodes m (record (read b.pool.nodes m) { next = o.next }))
                  null_handle ((k, e) ∷ xs) o.next)
              (sym prev) (Seg-set_next b.pool.nodes null_handle h o.next k e xs d s);
        level = lev ∙ ap (λ m. with_head m l) top;
      })

  -- What the second write gives: the cells `ys` behind `o` now follow what is before it.
  pub record Backward (ys : List Cell) (b' : OrderBook) : Type 0 where
    pub edit : Edit (handles ys) p b.levels b.pool b'.levels b'.pool
    pub seg : Seg b'.pool.nodes o.prev ys null_handle
    pub level : get_or b'.levels p blank_level ≡ with_tail (last_or o.prev ys) l

  pub skip_backward-Backward :
      (ys : List Cell)
      → o.price ≡ pos p
      → p < length b.levels
      → get_or b.levels p blank_level ≡ l
      → l.tail ≡ last_or h ys
      → o.next ≡ first_or ys null_handle
      → Nonnull (handles ys)
      → Distinct (handles ys)
      → Seg b.pool.nodes h ys null_handle
      → Backward ys (skip_backward b o)
  unfolding skip_backward get put
  skip_backward-Backward [] price lt lev end next n d s =
      rw (eq→== o.next null_handle next, price)
        (record {
          edit = Edit-level b.levels b.pool _;
          seg = tt;
          level = get_or-set_self b.levels p _ blank_level lt ∙ ap (with_tail o.prev) lev;
        })
  skip_backward-Backward ((k, e) ∷ ys) price lt lev end next n d s =
      rw (ne→== o.next null_handle (omega arith)) (record {
        edit = Edit-slot b.levels b.pool o.next _ (inl next);
        seg =
            subst
              (λ m.
                Seg (write b.pool.nodes m (record (read b.pool.nodes m) { prev = o.prev })) o.prev
                  ((k, e) ∷ ys) null_handle)
              (sym next) (Seg-set_prev b.pool.nodes h o.prev null_handle k e ys d.0 s);
        level = lev ∙ ap (λ m. with_tail m l) end;
      })

-- After both writes the level's list is that of the cells around `o`.
pub record Spliced (b : OrderBook) (p : ℕ) (total : Quantity) (cs : List Cell) (b' : OrderBook)
    : Type 0 where
  pub edit : Edit (handles cs) p b.levels b.pool b'.levels b'.pool
  pub seg : Seg b'.pool.nodes null_handle cs null_handle
  pub level :
      get_or b'.levels p blank_level
      ≡ record { head = first_or cs null_handle; tail = last_or null_handle cs; total = total }

widen :
    {p : ℕ} {ls ls' : List PriceLevel} {pool pool' : Pool Order} (hs ks : List Handle)
    → ((x : Handle) → NotIn x ks → NotIn x hs)
    → ((fs : List Handle) → All (λ h. NotIn h fs) ks → All (λ h. NotIn h fs) hs)
    → Edit hs p ls pool ls' pool'
    → Edit ks p ls pool ls' pool'
widen hs ks out apart ed = record {
  frame = λ x n. ed.frame x (out x n);
  frees = λ fs u f. ed.frees fs (apart fs u) f;
  levels = ed.levels;
  ticks = ed.ticks;
  slots = ed.slots;
}

pub All-swap : (xs ys : List Handle) → All (λ x. NotIn x ys) xs → All (λ y. NotIn y xs) ys
All-swap xs [] a = tt
All-swap xs (y ∷ ys) a = (flip xs a, All-swap xs ys (drop xs a))
  where
    flip : (zs : List Handle) → All (λ x. NotIn x (y ∷ ys)) zs → NotIn y zs
    flip [] a = tt
    flip (z ∷ zs) a = ((λ e. a.0.0 (sym e)), flip zs a.1)

    drop : (zs : List Handle) → All (λ x. NotIn x (y ∷ ys)) zs → All (λ x. NotIn x ys) zs
    drop [] a = tt
    drop (z ∷ zs) a = (a.0.1, drop zs a.1)

module _ (b : OrderBook) (o : Order) (p : ℕ) (total : Quantity) (h : Handle) (e : RefOrder)
    (xs ys : List Cell) (price : o.price ≡ pos p) (prev : o.prev ≡ last_or null_handle xs)
    (next : o.next ≡ first_or ys null_handle) (lt : p < length b.levels) where
  pub splice-Spliced :
      get_or b.levels p blank_level
        ≡ record { head = first_or xs h; tail = last_or h ys; total = total }
      → Nonnull (handles (xs ++ ys))
      → Distinct (handles (xs ++ ys))
      → Seg b.pool.nodes null_handle xs h
      → Seg b.pool.nodes h ys null_handle
      → Spliced b p total (xs ++ ys) (splice b o)
  unfolding splice
  splice-Spliced lev n d front back = record {
    edit =
        Edit-then
          (widen (handles xs) (handles (xs ++ ys))
            (λ x o. NotIn-left x (handles xs) (handles ys) (on_handles (NotIn x) o))
            (λ fs u. All-left _ (handles xs) (handles ys) (on_handles (All (λ h. NotIn h fs)) u))
            f.edit)
          (widen (handles ys) (handles (xs ++ ys))
            (λ x o. NotIn-right x (handles xs) (handles ys) (on_handles (NotIn x) o))
            (λ fs u. All-right _ (handles xs) (handles ys) (on_handles (All (λ h. NotIn h fs)) u))
            g.edit);
    seg =
        Seg-join (splice b o).pool.nodes null_handle null_handle xs ys
          (subst (λ m. Seg (splice b o).pool.nodes null_handle xs m) next
            (Seg-edit null_handle o.next xs g.edit apart f.seg))
          (subst (λ m. Seg (splice b o).pool.nodes m ys null_handle) prev g.seg);
    level = g.level ∙ ends;
  }
    where
      on_handles :
          (P : List Handle → Type 0) → P (handles (xs ++ ys)) → P (handles xs ++ handles ys)
      on_handles P u = subst P (handles-append xs ys) u

      d' : Distinct (handles xs ++ handles ys)
      d' = on_handles Distinct d

      n' : Nonnull (handles xs ++ handles ys)
      n' = on_handles Nonnull n

      apart : All (λ x. NotIn x (handles ys)) (handles xs)
      apart = Disjoint-halves (handles xs) (handles ys) d'

      f :
          Forward b o p
            (record { head = first_or xs h; tail = last_or h ys; total = total })
            h
            xs
            (skip_forward b o)
      f =
          skip_forward-Forward b o p _ h xs price lt lev refl prev
            (All-left _ (handles xs) (handles ys) n') (Distinct-left (handles xs) (handles ys) d')
            front

      g :
          Backward
            (skip_forward b o)
            o
            p
            (record { head = first_or xs o.next; tail = last_or h ys; total = total })
            h
            ys
            (skip_backward (skip_forward b o) o)
      g =
          skip_backward-Backward (skip_forward b o) o p _ h ys price
            (subst (λ m. p < m) (sym f.edit.ticks) lt) f.level refl next
            (All-right _ (handles xs) (handles ys) n') (Distinct-right (handles xs) (handles ys) d')
            (Seg-edit h null_handle ys f.edit (All-swap (handles xs) (handles ys) apart) back)

      ends :
          ◌≡◌ {A = PriceLevel}
            (record { head = first_or xs o.next; tail = last_or o.prev ys; total = total })
            (record {
              head = first_or (xs ++ ys) null_handle;
              tail = last_or null_handle (xs ++ ys);
              total = total;
            })
      ends = rw (next, prev, first_or-append xs ys null_handle, last_or-append null_handle xs ys)
