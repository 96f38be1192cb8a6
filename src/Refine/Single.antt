-- ===== src/Refine/Single.antt =====
-- One order among the others of its tick.
use cpp_matching_engine.Base.{
  ℕ, ◌≡◌, ◌≢◌, refl, sym, ap, ◌∙◌, subst, ◌⊎◌, inl, inr, true, false, List, [], ◌∷◌, ◌++◌, some,
  Bool-cases, All, NotIn,
}
use cpp_matching_engine.Base.Dict.{find}
use cpp_matching_engine.Types.{OrderId, Side, buy, sell, same_side}
use cpp_matching_engine.Pool.{Handle}
use cpp_matching_engine.OrderBook.Cells.{Cell, handles}
use cpp_matching_engine.OrderBook.Layout.{Store, upd, upd_self, upd-ne}
use cpp_matching_engine.RefBook.State.{RefOrder, Queue, RefBook, Levels, with_levels}
use cpp_matching_engine.RefBook.Sweeps.{some-inj}
use cpp_matching_engine.Refine.Orders.{
  orders, filled, OtherId, orders-append, orders-hit, orders-miss,
}
use cpp_matching_engine.Refine.Relation.{Here}

abbrev pub OtherCell : OrderId → Cell → Type 0
OtherCell id c = c.1.id ≢ id

-- An id that the index maps to `h` is the id of no cell with another handle.
pub other_ids :
    (idx : List (OrderId × Handle)) (id : OrderId) (h : Handle) (cs : List Cell)
    → find id idx ≡ some h
    → NotIn h (handles cs)
    → All (λ c. find c.1.id idx ≡ some c.0) cs
    → All (OtherCell id) cs
other_ids idx id h [] f n a = tt
other_ids idx id h ((k, e) ∷ cs) f n a = (
  (λ same. n.0 (some-inj h k (sym f ∙ ap (λ x. find x idx) (sym same) ∙ a.0))),
  other_ids idx id h cs f n.1 a.1,
)

pub orders-OtherId :
    (sd : Side) (id : OrderId) (cs : List Cell)
    → All (OtherCell id) cs
    → All (OtherId id) (orders sd cs)
unfolding orders
orders-OtherId sd id [] a = tt
orders-OtherId sd id ((h, e) ∷ cs) a = elim (Bool-cases (same_side e.side sd)) [
  | inl s ↦ rw s (a.0, orders-OtherId sd id cs a.1)
  | inr s ↦ rw s (orders-OtherId sd id cs a.1)
]

pub orders-middle :
    (sd : Side) (xs : List Cell) (h : Handle) (e : RefOrder) (ys : List Cell)
    → same_side e.side sd ≡ true
    → orders sd (xs ++ (h, e) ∷ ys) ≡ orders sd xs ++ e ∷ orders sd ys
orders-middle sd xs h e ys s =
    orders-append sd xs ((h, e) ∷ ys) ∙ ap (λ l. orders sd xs ++ l) (orders-hit sd h e ys s)

pub orders-around :
    (sd : Side) (xs : List Cell) (h : Handle) (e : RefOrder) (ys : List Cell)
    → same_side e.side sd ≡ false
    → orders sd (xs ++ (h, e) ∷ ys) ≡ orders sd (xs ++ ys)
orders-around sd xs h e ys s =
    orders-append sd xs ((h, e) ∷ ys)
    ∙ ap (λ l. orders sd xs ++ l) (orders-miss sd h e ys s)
    ∙ sym (orders-append sd xs ys)

pub filled-middle : (os : Queue) (o : RefOrder) (ps : Queue) → filled (os ++ o ∷ ps) ≡ true
filled-middle [] o ps = refl
filled-middle (x ∷ os) o ps = refl

pub Here-split :
    (c x : Cell) (xs ys : List Cell) → Here c (xs ++ x ∷ ys) → (x ≡ c) ⊎ Here c (xs ++ ys)
Here-split c x [] ys h = h
Here-split c x (y ∷ xs) ys (inl e) = inr (inl e)
Here-split c x (y ∷ xs) ys (inr h) = elim (Here-split c x xs ys h) [
  | inl e ↦ inl e
  | inr k ↦ inr (inr k)
]

pub Here-join : (c x : Cell) (xs ys : List Cell) → Here c (xs ++ ys) → Here c (xs ++ x ∷ ys)
Here-join c x [] ys h = inr h
Here-join c x (y ∷ xs) ys (inl e) = inl e
Here-join c x (y ∷ xs) ys (inr h) = inr (Here-join c x xs ys h)

pub Here-middle : (x : Cell) (xs ys : List Cell) → Here x (xs ++ x ∷ ys)
Here-middle x [] ys = inl refl
Here-middle x (y ∷ xs) ys = inr (Here-middle x xs ys)

pub Here-upd :
    (q : Store) (p : ℕ) (cs : List Cell) (t : ℕ) (c : Cell)
    → t ≢ p
    → Here c (q t)
    → Here c (upd q p cs t)
Here-upd q p cs t c ne h = subst (Here c) (sym (upd-ne q p cs t ne)) h

pub Here-upd_self :
    (q : Store) (p : ℕ) (cs : List Cell) (c : Cell) → Here c cs → Here c (upd q p cs p)
Here-upd_self q p cs c h = subst (Here c) (sym (upd_self q p cs)) h

pub with_levels-keeps :
    (r : RefBook) (s : Side) (ls : Levels)
    → ((with_levels r s ls).id_index ≡ r.id_index)
      × ((with_levels r s ls).seq ≡ r.seq)
      × ((with_levels r s ls).has_sink ≡ r.has_sink)
      × ((with_levels r s ls).trades ≡ r.trades)
with_levels-keeps r buy ls = (refl, refl, refl, refl)
with_levels-keeps r sell ls = (refl, refl, refl, refl)
