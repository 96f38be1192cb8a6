-- ===== src/Refine/Fill.antt =====
-- One fill of the order at the front of a tick, in both books.
use cpp_matching_engine.Base.{
  ℕ, ◌<◌, ◌≤◌, ◌≡◌, refl, sym, ap, ◌∙◌, subst, inl, inr, Bool, true, false, List, [], ◌∷◌, ◌++◌,
  Bool-cases, arith, length, length-set, ◌==◌, if◌then◌else◌, add64, sub64, u64_mod,
}
use cpp_matching_engine.Base.Int.{pos}
use cpp_matching_engine.Types.{OrderId, Quantity, Side, buy, sell, Trade}
use cpp_matching_engine.Pool.{Handle, put}
use cpp_matching_engine.OrderBook.State.{OrderBook}
use cpp_matching_engine.OrderBook.Match.{emit, fill}
use cpp_matching_engine.OrderBook.Cells.{Cell}
use cpp_matching_engine.OrderBook.Layout.{Store, upd, upd_self}
use cpp_matching_engine.OrderBook.Unlink
use cpp_matching_engine.OrderBook.Adjust.{adjust, with_remaining}
use cpp_matching_engine.OrderBook
use cpp_matching_engine.RefBook
use cpp_matching_engine.RefBook.State.{
  RefOrder, RefBook, side_levels, with_levels, set_remaining_at, queue_at,
}
use cpp_matching_engine.Refine.Relation.{Matches, info_of}
use cpp_matching_engine.Refine.Adjust.{adjust-Matches}
use cpp_matching_engine.Refine.Remove.{remove-Matches, remove-sizes}

-- What the reference book does with a trade.
abbrev pub ref_emit : RefBook → Trade → RefBook
ref_emit r t = record r {
  seq = add64 r.seq 1;
  trades = if r.has_sink then r.trades ++ t ∷ [] else r.trades;
}

side_levels-ref_emit :
    (r : RefBook) (t : Trade) (sd : Side) → side_levels (ref_emit r t) sd ≡ side_levels r sd
side_levels-ref_emit r t buy = refl
side_levels-ref_emit r t sell = refl

emit-Matches :
    (b : OrderBook) (r : RefBook) (q : Store) (fs : List Handle) (t : Trade)
    → Matches b r q fs
    → Matches (emit b t) (ref_emit r t) q fs
unfolding emit
emit-Matches b r q fs t m = record {
  rep = m.rep;
  valid = record { bids = m.valid.bids; asks = m.valid.asks; apart = m.valid.apart };
  queues = λ sd u. ap (λ ls. queue_at ls (pos u)) (side_levels-ref_emit r t sd) ∙ m.queues sd u;
  bid = m.bid;
  ask = m.ask;
  index = m.index;
  seq = ap (λ n. add64 n 1) m.seq;
  sink = m.sink;
  trades = logged b.has_sink r.has_sink b.trades r.trades m.sink m.trades;
}
  where
    logged :
        (x y : Bool) (ts us : List Trade)
        → x ≡ y
        → ts ≡ us
        → (if x then ts ++ t ∷ [] else ts) ≡ (if y then us ++ t ∷ [] else us)
    logged x y ts us e f =
        ap (λ z. if z then ts ++ t ∷ [] else ts) e ∙ ap (λ l. if y then l ++ t ∷ [] else l) f

-- The trade that a fill reports.
abbrev pub trade_of : RefOrder → OrderId → Quantity → ℕ → Trade
trade_of e id d seq = record {
  resting_id = e.id;
  incoming_id = id;
  price = e.price;
  quantity = d;
  seq = seq;
}

module _ (b : OrderBook) (r : RefBook) (q : Store) (fs : List Handle) (m : Matches b r q fs) (p : ℕ)
    (h : Handle) (e : RefOrder) (ys : List Cell) (here : q p ≡ (h, e) ∷ ys) (id : OrderId)
    (d : Quantity) (enough : d ≤ e.remaining) where
  abbrev pub n : Quantity
  n = sub64 e.remaining d

  abbrev pub left_over : RefOrder
  left_over = with_remaining n e

  abbrev logged : OrderBook
  logged = emit b (trade_of e id d b.seq)

  abbrev lowered : OrderBook
  lowered = adjust logged h n (pos p) d

  abbrev pub ref_logged : RefBook
  ref_logged = ref_emit r (trade_of e id d r.seq)

  abbrev pub ref_lowered : RefBook
  ref_lowered =
      with_levels ref_logged e.side
        (set_remaining_at (side_levels ref_logged e.side) (pos p) e.id n)

  fit : (e.price ≡ pos p) × (e.remaining < u64_mod)
  fit = Unlink.fit b q fs m.rep p [] h e ys here

  filled_book : fill b id h d ≡ (if n == 0 then OrderBook.remove lowered e.id h else lowered)
  unfolding fill emit
  filled_book = rw (Unlink.order-at_cell b q fs m.rep p [] h e ys here, fit.0) refl

  abbrev q1 : Store
  q1 = upd q p ((h, left_over) ∷ ys)

  lowered-Matches : Matches lowered ref_lowered q1 fs
  lowered-Matches =
      adjust-Matches logged ref_logged q fs
        (subst (λ s. Matches logged (ref_emit r (trade_of e id d s)) q fs) m.seq
          (emit-Matches b r q fs (trade_of e id d b.seq) m))
        p [] h e ys here n d (omega (arith, enough, fit.1))

  -- The order stays with what is left of it.
  pub part-Matches : (n == 0) ≡ false → Matches (fill b id h d) ref_lowered q1 fs
  part-Matches c =
      subst (λ x. Matches x ref_lowered q1 fs) (sym (filled_book ∙ rw c refl)) lowered-Matches

  -- Nothing is left, and the order goes.
  pub whole-Matches :
      (n == 0) ≡ true
      → Matches (fill b id h d) (RefBook.remove ref_lowered e.id (info_of e)) (upd q1 p ys) (h ∷ fs)
  whole-Matches c =
      subst (λ x. Matches x (RefBook.remove ref_lowered e.id (info_of e)) (upd q1 p ys) (h ∷ fs))
        (sym (filled_book ∙ rw c refl))
        (remove-Matches lowered ref_lowered q1 fs lowered-Matches p [] h left_over ys
          (upd_self q p ((h, left_over) ∷ ys)))

  pub fill-sizes :
      (length (fill b id h d).levels ≡ length b.levels)
      × (length (fill b id h d).pool.nodes ≡ length b.pool.nodes)
  unfolding emit put
  fill-sizes =
      let gone =
        remove-sizes lowered ref_lowered q1 fs lowered-Matches p [] h left_over ys
          (upd_self q p ((h, left_over) ∷ ys)) in
      rw filled_book (elim (Bool-cases (n == 0)) [
        | inl c ↦ rw c (gone.0 ∙ length-set b.levels _ _, gone.1 ∙ length-set b.pool.nodes _ _)
        | inr c ↦ rw c (length-set b.levels _ _, length-set b.pool.nodes _ _)
      ])
