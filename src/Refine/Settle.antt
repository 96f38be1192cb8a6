-- ===== src/Refine/Settle.antt =====
-- What `submit` does after the sweep, in both books.
use cpp_matching_engine.Base.{
  ℕ, ◌<◌, ◌≡◌, refl, sym, ap, ◌∙◌, subst, inl, inr, true, false, not, List, [], ◌∷◌, none,
  Bool-cases, arith, length, ltb, ◌==◌, ◌&&◌, u64_mod,
}
use cpp_matching_engine.Base.Dict.{find}
use cpp_matching_engine.Base.Int.{pos}
use cpp_matching_engine.Types.{
  OrderId, OwnerId, Quantity, Side, buy, sell, OrderType, is_limit, ExecResult,
}
use cpp_matching_engine.Pool.{Handle}
use cpp_matching_engine.OrderBook.State.{OrderBook}
use cpp_matching_engine.OrderBook.Match
use cpp_matching_engine.OrderBook
use cpp_matching_engine.RefBook.State.{RefOrder, RefBook}
use cpp_matching_engine.RefBook.{beyond, finish}
use cpp_matching_engine.RefBook
use cpp_matching_engine.Refine.Relation.{Matches}
use cpp_matching_engine.Refine.Prices.{would_cross-same}
use cpp_matching_engine.Refine.Rest.{rest-Matches, rest-sizes}
use cpp_matching_engine.Refine.Round.{Lockstep}
use cpp_matching_engine.Refine.Same.{Same, absent-back}

-- The same state and the same answer.
abbrev pub SameCall : {R : Type 0} → OrderBook × R → RefBook × R → ℕ → ℕ → Type 0
SameCall x y ticks slots = Same x.0 y.0 ticks slots × (x.1 ≡ y.1)

finish-index :
    (r : RefBook) (side : Side) (t : RefBook.Sweep) → (finish r side t).id_index ≡ t.id_index
finish-index r buy t = refl
finish-index r sell t = refl

-- An order rests where there is a free slot.
pub rest-Same :
    (b : OrderBook) (r : RefBook) (ticks slots : ℕ) (s : Same b r ticks slots) (id : OrderId)
    (side : Side) (tick : ℕ) (qty : Quantity) (owner : OwnerId)
    → 0 < length s.free
    → tick < ticks
    → qty < u64_mod
    → find id r.id_index ≡ none
    → RefBook.would_cross r side (pos tick) ≡ false
    → Same
        (OrderBook.Levels.rest_order b id side (pos tick) qty owner)
        (RefBook.rest r id side (pos tick) qty owner)
        ticks
        slots
rest-Same b r ticks slots s id side tick qty owner room lt small fresh apart =
    go s.free s.matches room
  where
    e : RefOrder
    e = record { id = id; side = side; price = pos tick; remaining = qty; owner = owner }

    go :
        (fs : List Handle)
        → Matches b r s.store fs
        → 0 < length fs
        → Same
            (OrderBook.Levels.rest_order b id side (pos tick) qty owner)
            (RefBook.rest r id side (pos tick) qty owner)
            ticks
            slots
    go [] m k = absurd (omega (arith, k))
    go (h ∷ fs) m k =
        let lt' = subst (λ n. tick < n) (sym s.ticks_kept) lt in
        let unknown = absent-back b r s.store (h ∷ fs) m id fresh in
        let sizes = rest-sizes b r s.store h fs m tick e lt' (refl, small) unknown in
        record {
          store = _;
          free = fs;
          matches = rest-Matches b r s.store h fs m tick e lt' (refl, small) unknown apart;
          ticks_kept = sizes.0 ∙ s.ticks_kept;
          slots_kept = sizes.1 ∙ s.slots_kept;
        }

pub settle-Same :
    (r : RefBook) (side : Side) (ticks slots : ℕ) (s : Match.Sweep) (t : RefBook.Sweep)
    (l : Lockstep r side ticks slots s t) (id : OrderId) (type : OrderType) (tick : ℕ)
    (owner : OwnerId)
    → 0 < length l.free
    → tick < ticks
    → t.remaining < u64_mod
    → find id t.id_index ≡ none
    → SameCall
        (OrderBook.settle s id side type (pos tick) owner)
        (RefBook.settle r t id side type (pos tick) owner)
        ticks
        slots
unfolding OrderBook.settle RefBook.settle
settle-Same r side ticks slots s t l id type tick owner room lt small fresh =
    elim (Bool-cases (
      ltb 0 t.remaining
      && is_limit type
      && not (RefBook.would_cross (finish r side t) side (pos tick)))) [
        | inl c ↦
            rw (same_test ∙ c, c)
              (
                subst
                    (λ n.
                      Same (OrderBook.Levels.rest_order s.book id side (pos tick) n owner)
                        (RefBook.rest (finish r side t) id side (pos tick) t.remaining owner) ticks
                        slots)
                    (sym l.remaining)
                    (rest-Same s.book (finish r side t) ticks slots same_books id side tick
                      t.remaining owner room lt small (ap (find id) (finish-index r side t) ∙ fresh)
                      (ground (arith, c))),
                same_result,
              )
        | inr c ↦ rw (same_test ∙ c, c) (same_books, same_answer)
      ]
  where
    same_books : Same s.book (finish r side t) ticks slots
    same_books = record {
      store = l.store;
      free = l.free;
      matches = l.matches;
      ticks_kept = l.ticks_kept;
      slots_kept = l.slots_kept;
    }

    same_test :
        (ltb 0 s.remaining && is_limit type && not (OrderBook.would_cross s.book side (pos tick)))
        ≡ (ltb 0 t.remaining
            && is_limit type
            && not (RefBook.would_cross (finish r side t) side (pos tick)))
    same_test =
        ap (λ n. ltb 0 n && is_limit type && not (OrderBook.would_cross s.book side (pos tick)))
          l.remaining
        ∙ ap (λ x. ltb 0 t.remaining && is_limit type && not x)
            (would_cross-same s.book (finish r side t) l.store l.free side (pos tick) l.matches)

    answer : Quantity → Quantity → Quantity → ExecResult
    answer f rem rest = record {
      id = id;
      filled = f;
      resting = rest;
      accepted = true;
      fully_filled = rem == 0;
    }

    same_answer : answer s.total_filled s.remaining 0 ≡ answer t.filled t.remaining 0
    same_answer =
        ap (λ f. answer f s.remaining 0) l.filled ∙ ap (λ x. answer t.filled x 0) l.remaining

    same_result :
        answer s.total_filled s.remaining s.remaining ≡ answer t.filled t.remaining t.remaining
    same_result =
        ap (λ f. answer f s.remaining s.remaining) l.filled
        ∙ ap (λ x. answer t.filled x x) l.remaining
