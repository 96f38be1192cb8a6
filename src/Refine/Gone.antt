-- ===== src/Refine/Gone.antt =====
-- An order that has been cancelled is gone.
use cpp_matching_engine.Base.{ℕ, ◌≡◌, refl, inl, inr, false, none, Option-cases, Distinct}
use cpp_matching_engine.Base.Dict.{find}
use cpp_matching_engine.Base.Dict.Laws.{keys, find-erase_self}
use cpp_matching_engine.Types.{OrderId, Side, buy, sell, Price, Quantity, no_result}
use cpp_matching_engine.OrderBook.State.{OrderBook}
use cpp_matching_engine.OrderBook
use cpp_matching_engine.RefBook.State.{RefBook, Info}
use cpp_matching_engine.RefBook
use cpp_matching_engine.Refine.Relation.{info_of}
use cpp_matching_engine.Refine.Same.{Same, known-Found, absent-back}
use cpp_matching_engine.Refine.Calls.{remove-Same}

-- The calls for an id that the index does not know.
cancel_absent :
    (b : OrderBook) (id : OrderId) → find id b.id_index ≡ none → OrderBook.cancel b id ≡ (b, false)
unfolding OrderBook.cancel
cancel_absent b id e = rw (e, OrderBook.cancel) refl

modify_absent :
    (b : OrderBook) (id : OrderId) (p : Price) (qty : Quantity)
    → find id b.id_index ≡ none
    → OrderBook.modify b id p qty ≡ (b, no_result)
unfolding OrderBook.modify
modify_absent b id p qty e = rw (e, OrderBook.modify) refl

-- Removing an order takes its id out of the reference book's index.
remove_unknown :
    (r : RefBook) (id : OrderId) (side : Side) (info : Info)
    → info.side ≡ side
    → Distinct (keys r.id_index)
    → find id (RefBook.remove r id info).id_index ≡ none
remove_unknown r id buy info e d = rw e (find-erase_self id r.id_index d)
remove_unknown r id sell info e d = rw e (find-erase_self id r.id_index d)

cancel_unknown :
    (b : OrderBook) (r : RefBook) (ticks slots : ℕ) (id : OrderId)
    → Same b r ticks slots
    → find id (OrderBook.cancel b id).0.id_index ≡ none
unfolding OrderBook.cancel
cancel_unknown b r ticks slots id s = elim (Option-cases (find id b.id_index)) [
  | inl e ↦ rw (e, OrderBook.cancel) e
  | inr (h, e) ↦
      let (f, g) = known-Found b r s.store s.free s.matches id h e in
      let w = (remove-Same b r ticks slots s id h f).0 in
      rw (e, OrderBook.cancel)
        (absent-back (OrderBook.remove b id h) (RefBook.remove r id (info_of f.order)) w.store
          w.free w.matches id
          (remove_unknown r id f.order.side (info_of f.order) refl s.matches.index.info_keys))
]

-- After a `cancel`, whether or not it found the order, another `cancel` of the same id answers false
-- and a `modify` of it to any price and quantity is not accepted, and neither changes the book, if the
-- book was in the same state as some reference book before.
pub cancel_twice :
    (b : OrderBook) (r : RefBook) (ticks slots : ℕ) (id : OrderId) (p : Price) (qty : Quantity)
    → Same b r ticks slots
    → let b' = (OrderBook.cancel b id).0 in
      (OrderBook.cancel b' id ≡ (b', false)) × (OrderBook.modify b' id p qty ≡ (b', no_result))
cancel_twice b r ticks slots id p qty s =
    let e = cancel_unknown b r ticks slots id s in
    let b' = (OrderBook.cancel b id).0 in (cancel_absent b' id e, modify_absent b' id p qty e)
