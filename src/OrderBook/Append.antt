-- ===== src/OrderBook/Append.antt =====
-- `append_order` links a filled slot behind the last order of a level.
use cpp_matching_engine.Base.{
  ℕ, ◌<◌, ◌≡◌, refl, sym, ap, subst, ◌∙◌, inl, inr, List, [], ◌∷◌, ◌++◌, arith, set, get_or, length,
  length-set, get_or-set_self, NotIn, Distinct, All, eq→==, ne→==,
}
use cpp_matching_engine.Types.{Quantity}
use cpp_matching_engine.Base.Int.{pos}
use cpp_matching_engine.Pool.{Handle, null_handle, get, put}
use cpp_matching_engine.OrderBook.State.{PriceLevel, blank_level, OrderBook}
use cpp_matching_engine.OrderBook.Levels.{append_order}
use cpp_matching_engine.OrderBook.Cells.{
  Cell, Nodes, handles, first_or, last_or, Seg, Seg-set_next, Seg-set_prev, Seg-frame, Seg-join,
  read, write,
}
use cpp_matching_engine.OrderBook.Edit.{In, In-ne, Edit, Edit-then, Edit-slot, Edit-level}
use cpp_matching_engine.OrderBook.Splice.{with_head, with_tail, last_or-In}
use cpp_matching_engine.RefBook.State.{RefOrder}

-- The nodes after both writes: `next` of slot `m`, and `prev` of slot `h`.
abbrev join_at : Nodes → Handle → Handle → Nodes
join_at ns m h =
    let ns1 = write ns m (record (read ns m) { next = h }) in
    write ns1 h (record (read ns1 h) { prev = m })

join_at-Seg :
    (ns : Nodes) (h k : Handle) (e f : RefOrder) (cs : List Cell)
    → NotIn h (k ∷ handles cs)
    → Distinct (k ∷ handles cs)
    → Seg ns null_handle ((h, e) ∷ []) null_handle
    → Seg ns null_handle ((k, f) ∷ cs) null_handle
    → Seg (join_at ns (last_or k cs) h) null_handle ((k, f) ∷ cs ++ (h, e) ∷ []) null_handle
join_at-Seg ns h k e f cs out d slot s =
    Seg-join (join_at ns m h) null_handle null_handle ((k, f) ∷ cs) ((h, e) ∷ [])
      (Seg-frame ns1 null_handle h h _ ((k, f) ∷ cs) out
        (Seg-set_next ns null_handle null_handle h k f cs d s))
      (Seg-set_prev ns1 null_handle m null_handle h e [] tt (
        Seg-frame ns null_handle null_handle m _ ((h, e) ∷ [])
          (In-ne m h (k ∷ handles cs) (last_or-In k f cs) out, tt) slot))
  where
    m : Handle
    m = last_or k cs

    ns1 : Nodes
    ns1 = write ns m (record (read ns m) { next = h })

module _ (b : OrderBook) (p : ℕ) (total : Quantity) (h : Handle) (e : RefOrder)
    (lt : p < length b.levels) (valid : h < null_handle)
    (slot : Seg b.pool.nodes null_handle ((h, e) ∷ []) null_handle) where
  pub record Appended (cs : List Cell) (b' : OrderBook) : Type 0 where
    pub edit : Edit (h ∷ handles cs) p b.levels b.pool b'.levels b'.pool
    pub seg : Seg b'.pool.nodes null_handle (cs ++ (h, e) ∷ []) null_handle
    pub level :
        get_or b'.levels p blank_level ≡ record { head = first_or cs h; tail = h; total = total }

  pub append_order-Appended :
      (cs : List Cell)
      → get_or b.levels p blank_level
        ≡ record { head = first_or cs null_handle; tail = last_or null_handle cs; total = total }
      → All (λ k. k < null_handle) (handles cs)
      → NotIn h (handles cs)
      → Distinct (handles cs)
      → Seg b.pool.nodes null_handle cs null_handle
      → Appended cs (append_order b h (pos p))
  unfolding append_order get put
  append_order-Appended [] lev n out d s =
      rw (eq→== (get_or b.levels p blank_level).head null_handle (ap (λ l. l.head) lev)) (record {
        edit = Edit-then (Edit-level b.levels b.pool _) (Edit-level _ b.pool _);
        seg = slot;
        level =
            get_or-set_self (set b.levels p (with_head h (get_or b.levels p blank_level))) p _
              blank_level
              (omega (arith, length-set b.levels p (with_head h (get_or b.levels p blank_level))))
            ∙ ap (with_tail h) (get_or-set_self b.levels p _ blank_level lt ∙ ap (with_head h) lev);
      })
  append_order-Appended ((k, f) ∷ cs) lev n out d s =
      rw
        (ne→== (get_or b.levels p blank_level).head null_handle
          (omega (arith, ap (λ l. l.head) lev, n.0)))
        (record {
          edit =
              Edit-then
                (Edit-slot b.levels b.pool (get_or b.levels p blank_level).tail _
                  (inr (subst (λ m. In m (k ∷ handles cs)) (sym tail) (last_or-In k f cs))))
                (Edit-then (Edit-slot b.levels _ h _ (inl refl)) (Edit-level b.levels _ _));
          seg =
              subst
                (λ m.
                  Seg (join_at b.pool.nodes m h) null_handle ((k, f) ∷ cs ++ (h, e) ∷ [])
                    null_handle)
                (sym tail) (join_at-Seg b.pool.nodes h k e f cs out d slot s);
          level = get_or-set_self b.levels p _ blank_level lt ∙ ap (with_tail h) lev;
        })
    where
      tail : (get_or b.levels p blank_level).tail ≡ last_or k cs
      tail = ap (λ (l : PriceLevel). l.tail) lev
