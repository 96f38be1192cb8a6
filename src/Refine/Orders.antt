-- ===== src/Refine/Orders.antt =====
-- The orders of one side in the cells of a tick, and the reference book's searches in a queue.
use cpp_matching_engine.Base.{
  ◌≡◌, ◌≢◌, refl, ap, inl, inr, Bool, true, false, List, [], ◌∷◌, ◌++◌, All, if◌then◌else◌,
  Bool-cases, eq→==, ne→==,
}
use cpp_matching_engine.Types.{OrderId, Quantity, Side, buy, sell, same_side, opposite}
use cpp_matching_engine.Pool.{Handle}
use cpp_matching_engine.OrderBook.Cells.{Cell}
use cpp_matching_engine.RefBook.State.{RefOrder, Queue, erase_order, set_remaining, remaining_of}

unfoldable pub orders : Side → List Cell → Queue
orders sd [] = []
orders sd ((h, e) ∷ cs) = let rest = orders sd cs in if same_side e.side sd then e ∷ rest else rest

abbrev pub filled : Queue → Bool
filled [] = false
filled (o ∷ os) = true

pub same_side_refl : (s : Side) → same_side s s ≡ true
same_side_refl buy = refl
same_side_refl sell = refl

pub same_side-opposite : (s : Side) → same_side s (opposite s) ≡ false
same_side-opposite buy = refl
same_side-opposite sell = refl

pub orders-append :
    (sd : Side) (xs ys : List Cell) → orders sd (xs ++ ys) ≡ orders sd xs ++ orders sd ys
unfolding orders
orders-append sd [] ys = refl
orders-append sd ((h, e) ∷ xs) ys = elim (Bool-cases (same_side e.side sd)) [
  | inl s ↦ rw s (ap (λ os. e ∷ os) (orders-append sd xs ys))
  | inr s ↦ rw s (orders-append sd xs ys)
]

pub orders-hit :
    (sd : Side) (h : Handle) (e : RefOrder) (cs : List Cell)
    → same_side e.side sd ≡ true
    → orders sd ((h, e) ∷ cs) ≡ e ∷ orders sd cs
unfolding orders
orders-hit sd h e cs s = rw s refl

pub orders-miss :
    (sd : Side) (h : Handle) (e : RefOrder) (cs : List Cell)
    → same_side e.side sd ≡ false
    → orders sd ((h, e) ∷ cs) ≡ orders sd cs
unfolding orders
orders-miss sd h e cs s = rw s refl

abbrev pub OtherId : OrderId → RefOrder → Type 0
OtherId id o = o.id ≢ id

pub erase_order-middle :
    (id : OrderId) (os : Queue) (o : RefOrder) (ps : Queue)
    → All (OtherId id) os
    → o.id ≡ id
    → erase_order id (os ++ o ∷ ps) ≡ os ++ ps
unfolding erase_order
erase_order-middle id [] o ps a e = rw (eq→== o.id id e) refl
erase_order-middle id (x ∷ os) o ps a e =
    rw (ne→== x.id id a.0) (ap (λ l. x ∷ l) (erase_order-middle id os o ps a.1 e))

pub set_remaining-middle :
    (id : OrderId) (n : Quantity) (os : Queue) (o : RefOrder) (ps : Queue)
    → All (OtherId id) os
    → o.id ≡ id
    → set_remaining id n (os ++ o ∷ ps) ≡ os ++ record o { remaining = n } ∷ ps
unfolding set_remaining
set_remaining-middle id n [] o ps a e = rw (eq→== o.id id e) refl
set_remaining-middle id n (x ∷ os) o ps a e =
    rw (ne→== x.id id a.0) (ap (λ l. x ∷ l) (set_remaining-middle id n os o ps a.1 e))

pub remaining_of-middle :
    (id : OrderId) (os : Queue) (o : RefOrder) (ps : Queue)
    → All (OtherId id) os
    → o.id ≡ id
    → remaining_of id (os ++ o ∷ ps) ≡ o.remaining
unfolding remaining_of
remaining_of-middle id [] o ps a e = rw (eq→== o.id id e) refl
remaining_of-middle id (x ∷ os) o ps a e =
    rw (ne→== x.id id a.0) (remaining_of-middle id os o ps a.1 e)
