-- ===== src/Refine/Modify.antt =====
-- `modify` of the two books.
use cpp_matching_engine.Base.{
  ℕ, ◌^◌, ◌<◌, ◌≤◌, ◌≡◌, refl, sym, ap, ◌∙◌, subst, inl, inr, true, ◌∷◌, ◌++◌, none, Bool-cases,
  Option-cases, arith, leb, ◌==◌, ◌&&◌, if◌then◌else◌, sub64, u64_mod, length-set,
}
use cpp_matching_engine.Base.Dict.{find, erase}
use cpp_matching_engine.Base.Dict.Laws.{find-erase_self}
use cpp_matching_engine.Base.Int.{pos, eqb_ℤ}
use cpp_matching_engine.Types.{OrderId, Quantity, Side, buy, sell, limit, ExecResult, no_result}
use cpp_matching_engine.Pool.{Handle, null_handle, put}
use cpp_matching_engine.OrderBook.State.{Order, OrderBook, order_at}
use cpp_matching_engine.OrderBook.Cells.{node_of, first_or, last_or}
use cpp_matching_engine.OrderBook.Layout.{Store, upd}
use cpp_matching_engine.OrderBook.Unlink
use cpp_matching_engine.OrderBook.Adjust.{adjust, with_remaining}
use cpp_matching_engine.OrderBook
use cpp_matching_engine.RefBook.State.{
  RefOrder, RefBook, side_levels, with_levels, set_remaining_at, remaining_of, queue_at,
}
use cpp_matching_engine.RefBook
use cpp_matching_engine.Refine.Orders.{orders, remaining_of-middle}
use cpp_matching_engine.Refine.Relation.{Matches, info_of}
use cpp_matching_engine.Refine.Adjust.{adjust-Matches, queue_here, others_before}
use cpp_matching_engine.Refine.Same.{Same, Found, known-Found}
use cpp_matching_engine.Refine.Settle.{SameCall}
use cpp_matching_engine.Refine.Calls.{submit-Same_room, remove-Same}

with_levels-index : (r : RefBook) (s : Side) (ls : _) → (with_levels r s ls).id_index ≡ r.id_index
with_levels-index r buy ls = refl
with_levels-index r sell ls = refl

module _ (b : OrderBook) (r : RefBook) (ticks slots : ℕ) (s : Same b r ticks slots) (id : OrderId)
    (h : Handle) (f : Found s.store id h) where
  abbrev e : RefOrder
  e = f.order

  resting : order_at b h ≡ node_of (last_or null_handle f.before) (first_or f.behind null_handle) e
  resting = Unlink.order-at_cell b s.store s.free s.matches.rep f.tick f.before h e f.behind f.here

  at_tick : e.price ≡ pos f.tick
  at_tick = (Unlink.fit b s.store s.free s.matches.rep f.tick f.before h e f.behind f.here).0

  small : e.remaining < u64_mod
  small = (Unlink.fit b s.store s.free s.matches.rep f.tick f.before h e f.behind f.here).1

  abbrev ref_remaining : Quantity
  ref_remaining = remaining_of id (queue_at (side_levels r e.side) e.price)

  -- The reference book finds the same remaining quantity.
  same_remaining : remaining_of id (queue_at (side_levels r e.side) e.price) ≡ e.remaining
  same_remaining =
      subst (λ i. remaining_of i (queue_at (side_levels r e.side) e.price) ≡ e.remaining) f.named
        (ap (λ x. remaining_of e.id (queue_at (side_levels r e.side) x)) at_tick
          ∙ ap (remaining_of e.id)
              (queue_here b r s.store s.free s.matches f.tick f.before h e f.behind f.here)
          ∙ remaining_of-middle e.id (orders e.side f.before) e (orders e.side f.behind)
              (others_before b r s.store s.free s.matches f.tick f.before h e f.behind f.here) refl)

  abbrev ref_reduced : Quantity → RefBook
  ref_reduced n = with_levels r e.side (set_remaining_at (side_levels r e.side) e.price id n)

  reduced :
      (n : Quantity) → OrderBook.reduce b h n ≡ adjust b h n (pos f.tick) (sub64 e.remaining n)
  reduced n =
      ap (λ (o : Order). adjust b h n o.price (sub64 o.remaining n)) resting
      ∙ ap (λ x. adjust b h n x (sub64 e.remaining n)) at_tick

  ref_reduced_at :
      (n : Quantity)
      → ref_reduced n
        ≡ with_levels r e.side (set_remaining_at (side_levels r e.side) (pos f.tick) e.id n)
  ref_reduced_at n =
      ap (λ x. with_levels r e.side (set_remaining_at (side_levels r e.side) x id n)) at_tick
      ∙ ap (λ i. with_levels r e.side (set_remaining_at (side_levels r e.side) (pos f.tick) i n))
          (sym f.named)

  abbrev edited : Quantity → Store
  edited n = upd s.store f.tick (f.before ++ (h, with_remaining n e) ∷ f.behind)

  -- The edit in place.
  reduce-Same :
      (n : Quantity) → n ≤ e.remaining → Same (OrderBook.reduce b h n) (ref_reduced n) ticks slots
  unfolding put
  reduce-Same n le = record {
    store = edited n;
    free = s.free;
    matches =
        subst (λ x. Matches x (ref_reduced n) (edited n) s.free) (sym (reduced n))
          (subst
            (λ y. Matches (adjust b h n (pos f.tick) (sub64 e.remaining n)) y (edited n) s.free)
            (sym (ref_reduced_at n))
            (adjust-Matches b r s.store s.free s.matches f.tick f.before h e f.behind f.here n
              (sub64 e.remaining n) (omega (arith, le, small))));
    ticks_kept = length-set b.levels _ _ ∙ s.ticks_kept;
    slots_kept = length-set b.pool.nodes _ _ ∙ s.slots_kept;
  }

  module _ (tick : ℕ) (new_qty : Quantity) where
    -- What `modify` does with a quantity that is not zero, by the order that it finds.
    abbrev book_rest : Order → OrderBook × ExecResult
    book_rest o =
        if eqb_ℤ (pos tick) o.price && leb new_qty o.remaining
        then (
          OrderBook.reduce b h new_qty,
          record no_result { id = id; accepted = true; resting = new_qty },
        )
        else OrderBook.submit (OrderBook.remove b id h) id o.side limit (pos tick) new_qty o.owner

    abbrev ref_rest : Quantity → RefBook × ExecResult
    ref_rest rem =
        if eqb_ℤ (pos tick) e.price && leb new_qty rem
        then (ref_reduced new_qty, record no_result { id = id; accepted = true; resting = new_qty })
        else RefBook.submit (RefBook.remove r id (info_of e)) id e.side limit (pos tick) new_qty
            e.owner

    unknown_now : find id (RefBook.remove r id (info_of e)).id_index ≡ none
    unknown_now =
        ap (λ i. find id (erase id i)) (with_levels-index r e.side _)
        ∙ find-erase_self id r.id_index s.matches.index.info_keys

    rest-SameCall :
        ticks ≤ 2 ^ 63
        → tick < ticks
        → new_qty < u64_mod
        → SameCall (book_rest (order_at b h)) (ref_rest ref_remaining) ticks slots
    rest-SameCall big lt fits =
        subst (λ o. SameCall (book_rest o) (ref_rest ref_remaining) ticks slots) (sym resting)
          (subst
            (λ m.
              SameCall
                (book_rest
                  (node_of (last_or null_handle f.before) (first_or f.behind null_handle) e))
                (ref_rest m) ticks slots)
            (sym same_remaining)
            (elim (Bool-cases (eqb_ℤ (pos tick) e.price && leb new_qty e.remaining)) [
              | inl c ↦ rw c (reduce-Same new_qty (ground (arith, c)), refl)
              | inr c ↦
                  let (w, room) = remove-Same b r ticks slots s id h f in
                  rw c (
                    submit-Same_room (OrderBook.remove b id h) (RefBook.remove r id (info_of e))
                      ticks slots w id e.side limit tick new_qty e.owner room big lt fits
                      unknown_now refl)
            ]))

-- `modify` to a tick in range and a quantity that fits its type, on books in the same state of at most
-- 2^63 ticks, gives the same answer and leaves them in the same state.
pub modify-Same :
    (b : OrderBook) (r : RefBook) (ticks slots : ℕ) (id : OrderId) (tick : ℕ) (new_qty : Quantity)
    → Same b r ticks slots
    → ticks ≤ 2 ^ 63
    → tick < ticks
    → new_qty < u64_mod
    → SameCall
        (OrderBook.modify b id (pos tick) new_qty)
        (RefBook.modify r id (pos tick) new_qty)
        ticks
        slots
unfolding OrderBook.modify RefBook.modify
modify-Same b r ticks slots id tick new_qty s big lt fits =
    elim (Option-cases (find id b.id_index)) [
      | inl e ↦
          rw (e, OrderBook.modify) (rw (s.matches.index.absent id e, RefBook.modify) (s, refl))
      | inr (h, known) ↦
          let (f, ref_known) = known-Found b r s.store s.free s.matches id h known in
          rw (known, OrderBook.modify)
            (rw (ref_known, RefBook.modify)
              (elim (Bool-cases (new_qty == 0)) [
                | inl z ↦ rw z ((remove-Same b r ticks slots s id h f).0, refl)
                | inr z ↦ rw z (rest-SameCall b r ticks slots s id h f tick new_qty big lt fits)
              ]))
    ]
