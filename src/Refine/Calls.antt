-- ===== src/Refine/Calls.antt =====
-- `submit`, `cancel` and `modify` of the two books.
use cpp_matching_engine.Base.{
  ℕ, zero, suc, ◌-◌, ◌^◌, ◌<◌, ◌≤◌, ◌≡◌, refl, sym, ◌∙◌, subst, inl, inr, not, ◌∷◌, ◌++◌, none,
  Bool-cases, Option-cases, arith, length, ◌&&◌, u64_mod,
}
use cpp_matching_engine.Base.Dict.{find}
use cpp_matching_engine.Base.Int.{pos, ltb_ℤ}
use cpp_matching_engine.Types.{
  OrderId, OwnerId, Quantity, Price, Side, buy, sell, OrderType, is_market, is_fok,
}
use cpp_matching_engine.Pool.{Handle}
use cpp_matching_engine.OrderBook.State.{OrderBook}
use cpp_matching_engine.OrderBook.Match
use cpp_matching_engine.OrderBook.Layout.{upd}
use cpp_matching_engine.OrderBook
use cpp_matching_engine.RefBook.State.{RefBook}
use cpp_matching_engine.RefBook.{beyond, finish, do_match}
use cpp_matching_engine.RefBook.Quantities.{do_match-Quantities}
use cpp_matching_engine.RefBook.Fresh.{do_match-Unknown}
use cpp_matching_engine.RefBook
use cpp_matching_engine.Refine.Relation.{info_of}
use cpp_matching_engine.Refine.Remove.{remove-Matches, remove-sizes}
use cpp_matching_engine.Refine.Sweep.{match-Ended}
use cpp_matching_engine.Refine.Same.{Same, Found, known-Found}
use cpp_matching_engine.Refine.Settle.{SameCall, settle-Same}

-- The limits of the two sweeps agree on the prices in range.
limits-agree :
    (b : OrderBook) (side : Side) (type : OrderType) (p : Price)
    → length b.levels ≤ 2 ^ 63
    → (x : ℕ) → x < length b.levels
    → beyond side (OrderBook.limit_price b side type p) (pos x)
      ≡ beyond side (RefBook.limit_price side type p) (pos x)
unfolding OrderBook.limit_price RefBook.limit_price
limits-agree b buy type p small x lt = elim (Bool-cases (is_market type)) [
  | inl c ↦ rw c (last (length b.levels) small lt)
  | inr c ↦ rw c refl
]
  where
    last :
        (n : ℕ)
        → n ≤ 2 ^ 63
        → x < n
        → ltb_ℤ (OrderBook.last_tick n) (pos x) ≡ ltb_ℤ (pos (2 ^ 63 - 1)) (pos x)
    last zero s l = absurd (omega (arith, l))
    last (suc n) s l = ground (arith, s, l)
limits-agree b sell type p small x lt = elim (Bool-cases (is_market type)) [
  | inl c ↦ rw c (ground arith)
  | inr c ↦ rw c refl
]

-- With an agreement on which orders are refused as not fillable, and a free slot.
pub submit-Same_room :
    (b : OrderBook) (r : RefBook) (ticks slots : ℕ) (s : Same b r ticks slots) (id : OrderId)
    (side : Side) (type : OrderType) (tick : ℕ) (qty : Quantity) (owner : OwnerId)
    → 0 < length s.free
    → ticks ≤ 2 ^ 63
    → tick < ticks
    → qty < u64_mod
    → find id r.id_index ≡ none
    → (is_fok type && not (OrderBook.can_fill b side (pos tick) qty owner))
      ≡ (is_fok type && not (RefBook.can_fill r side (pos tick) qty owner))
    → SameCall
        (OrderBook.submit b id side type (pos tick) qty owner)
        (RefBook.submit r id side type (pos tick) qty owner)
        ticks
        slots
unfolding OrderBook.submit RefBook.submit
submit-Same_room b r ticks slots s id side type tick qty owner room big lt small fresh agree =
    elim (Bool-cases (is_fok type && not (RefBook.can_fill r side (pos tick) qty owner))) [
      | inl c ↦ rw (agree ∙ c, c) (s, refl)
      | inr c ↦
          rw (agree ∙ c, c)
            (let lim = OrderBook.limit_price b side type (pos tick) in
              let ref_lim = RefBook.limit_price side type (pos tick) in
              let (l, e, grown) =
                match-Ended r id side lim ref_lim owner ticks slots
                  (λ x h.
                    limits-agree b side type (pos tick)
                      (subst (λ n. n ≤ 2 ^ 63) (sym s.ticks_kept) big) x
                      (subst (λ n. x < n) (sym s.ticks_kept) h))
                  b s.store s.free qty s.matches s.ticks_kept s.slots_kept in
              settle-Same r side ticks slots (Match.match id side lim owner b qty)
                (do_match r id side ref_lim qty owner) l id type tick owner
                (omega (arith, room, grown)) lt
                (omega (arith, small, do_match-Quantities r id side ref_lim qty owner small))
                (do_match-Unknown r id side ref_lim qty owner id fresh))
    ]

-- Taking out an order that the index knows.
pub remove-Same :
    (b : OrderBook) (r : RefBook) (ticks slots : ℕ) (s : Same b r ticks slots) (id : OrderId)
    (h : Handle) (f : Found s.store id h)
    → (w : Same (OrderBook.remove b id h) (RefBook.remove r id (info_of f.order)) ticks slots) × (0
        < length w.free)
remove-Same b r ticks slots s id h f =
    let sizes =
      remove-sizes b r s.store s.free s.matches f.tick f.before h f.order f.behind f.here in
    subst
      (λ i.
        (w : Same (OrderBook.remove b i h) (RefBook.remove r i (info_of f.order)) ticks slots) × (0
          < length w.free))
      f.named
      (
        record {
          store = upd s.store f.tick (f.before ++ f.behind);
          free = h ∷ s.free;
          matches =
              remove-Matches b r s.store s.free s.matches f.tick f.before h f.order f.behind f.here;
          ticks_kept = sizes.0 ∙ s.ticks_kept;
          slots_kept = sizes.1 ∙ s.slots_kept;
        },
        omega arith,
      )

-- `cancel` on books in the same state gives the same answer and leaves them in the same state.
pub cancel-Same :
    (b : OrderBook) (r : RefBook) (ticks slots : ℕ) (id : OrderId)
    → Same b r ticks slots
    → SameCall (OrderBook.cancel b id) (RefBook.cancel r id) ticks slots
unfolding OrderBook.cancel RefBook.cancel
cancel-Same b r ticks slots id s = elim (Option-cases (find id b.id_index)) [
  | inl e ↦ rw (e, OrderBook.cancel) (rw (s.matches.index.absent id e, RefBook.cancel) (s, refl))
  | inr (h, e) ↦
      let (f, g) = known-Found b r s.store s.free s.matches id h e in
      rw (e, OrderBook.cancel)
        (rw (g, RefBook.cancel) ((remove-Same b r ticks slots s id h f).0, refl))
]
