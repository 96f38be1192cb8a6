-- ===== src/Refine/Round.antt =====
-- The rounds of the two sweeps go together.
use cpp_matching_engine.Base.{
  ℕ, suc, ◌<◌, ◌≤◌, ◌≡◌, refl, sym, ap, ◌∙◌, subst, ◌⊎◌, inl, inr, Bool, true, false, List, [], ◌∷◌,
  Bool-cases, Option, none, some, arith, length, ◌==◌, ◌||◌, if◌then◌else◌, add64, sub64,
}
use cpp_matching_engine.Base.Int.{pos, ltb_ℤ}
use cpp_matching_engine.Types.{OrderId, OwnerId, Quantity, Price, Side, opposite}
use cpp_matching_engine.Pool.{Handle, null_handle}
use cpp_matching_engine.OrderBook.State.{Order, level_at, order_at}
use cpp_matching_engine.OrderBook.Match.{crossing, fill, match_round}
use cpp_matching_engine.OrderBook.Match
use cpp_matching_engine.OrderBook.Cells.{node_of, first_or}
use cpp_matching_engine.OrderBook.Layout.{Store}
use cpp_matching_engine.OrderBook.Unlink
use cpp_matching_engine.RefBook.{beyond, self_trade, smaller, finish, fill_front, round}
use cpp_matching_engine.RefBook
use cpp_matching_engine.RefBook.State.{RefBook}
use cpp_matching_engine.Refine.Relation.{Matches}
use cpp_matching_engine.Refine.Front.{Front, crossing-best}
use cpp_matching_engine.Refine.Finish.{finish-side}

-- Two sweeps in the same place: the books match and the counters are equal. `ticks` and `slots` are
-- the sizes of the detailed book's arrays.
pub record Lockstep (r : RefBook) (side : Side) (ticks slots : ℕ) (s : Match.Sweep)
    (t : RefBook.Sweep) : Type 0 where
  pub store : Store
  pub free : List Handle
  pub matches : Matches s.book (finish r side t) store free
  pub remaining : s.remaining ≡ t.remaining
  pub filled : s.total_filled ≡ t.filled
  pub ticks_kept : length s.book.levels ≡ ticks
  pub slots_kept : length s.book.pool.nodes ≡ slots

or-false : (x : Bool) → (x || false) ≡ x
or-false true = refl
or-false false = refl

-- The two limits agree on the prices of the book's range.
module _ (r : RefBook) (id : OrderId) (side : Side) (lim ref_lim : Price) (owner : OwnerId)
    (ticks slots : ℕ)
    (agree : (x : ℕ) → x < ticks → beyond side lim (pos x) ≡ beyond side ref_lim (pos x)) where
  -- Both sweeps end here, or both go on; then a slot has become free, or nothing is left to fill.
  abbrev pub Outcome :
      (s : Match.Sweep) (t : RefBook.Sweep) → Lockstep r side ticks slots s t → Type 0
  Outcome s t l =
      ((match_round id side lim owner s ≡ none)
        × (round id side ref_lim owner r.has_sink t t.levels ≡ none))
      ⊎ ((s' : Match.Sweep) × (t' : RefBook.Sweep) × (match_round id side lim owner s ≡ some s')
          × (round id side ref_lim owner r.has_sink t t.levels ≡ some t')
          × (l' : Lockstep r side ticks slots s' t') × ((s'.remaining ≡ 0)
              ⊎ (length l'.free ≡ suc (length l.free)))
          × (length l.free ≤ length l'.free))

  module _ (s : Match.Sweep) (t : RefBook.Sweep) (l : Lockstep r side ticks slots s t)
      (f : Front s.book (finish r side t) l.store (opposite side)) where
    abbrev d : Quantity
    d = smaller t.remaining f.order.remaining

    abbrev n : Quantity
    n = sub64 f.order.remaining d

    abbrev pub stop : Bool
    stop = t.remaining == 0 || beyond side ref_lim (pos f.tick) || self_trade owner f.order.owner

    abbrev pub book_next : Match.Sweep
    book_next = record {
      book = fill s.book id f.slot d;
      remaining = sub64 s.remaining d;
      total_filled = add64 s.total_filled d;
    }

    abbrev pub ref_next : RefBook.Sweep
    ref_next = fill_front id side ref_lim owner r.has_sink t (pos f.tick) f.order f.queue f.levels

    pub levels_here : t.levels ≡ (pos f.tick, f.order ∷ f.queue) ∷ f.levels
    levels_here = sym (finish-side r side t) ∙ f.first

    pub ref_round :
        round id side ref_lim owner r.has_sink t t.levels ≡ (if stop then none else some ref_next)
    unfolding round
    ref_round = ap (round id side ref_lim owner r.has_sink t) levels_here

    resting : order_at s.book f.slot ≡ node_of null_handle (first_or f.cells null_handle) f.order
    resting =
        Unlink.order-at_cell s.book l.store l.free l.matches.rep f.tick [] f.slot f.order f.cells
          f.here

    crosses :
        crossing s.book side lim ≡ (if beyond side ref_lim (pos f.tick) then none else some f.slot)
    crosses =
        crossing-best s.book side lim
        ∙ ap
            (λ x.
              if ltb_ℤ x (pos 0) || beyond side lim x then none else some (level_at s.book x).head)
            f.at_best
        ∙ ap
            (λ h.
              if ltb_ℤ (pos f.tick) (pos 0) || beyond side lim (pos f.tick) then none else some h)
            f.head
        ∙ ap (λ x. if x || beyond side lim (pos f.tick) then none else some f.slot) not_negative
        ∙ ap (λ x. if x then none else some f.slot)
            (agree f.tick (
              subst (λ k. f.tick < k) l.ticks_kept
                (Unlink.in_range s.book l.store l.free l.matches.rep f.tick [] f.slot f.order
                  f.cells f.here)))
      where
        not_negative : ltb_ℤ (pos f.tick) (pos 0) ≡ false
        not_negative = ground arith

    smaller-same : (x y : Quantity) → Match.smaller x y ≡ smaller x y
    smaller-same x y = ground arith

    -- The round against the order in the slot, by what is left, what it trades and who owns it.
    abbrev turn : Quantity → Quantity → OwnerId → Option Match.Sweep
    turn left traded resting_owner =
        if left == 0 || self_trade owner resting_owner
        then none
        else some (record {
          book = fill s.book id f.slot traded;
          remaining = sub64 s.remaining traded;
          total_filled = add64 s.total_filled traded;
        })

    abbrev from_slot : Option Match.Sweep
    from_slot =
        let o = order_at s.book f.slot in
        turn s.remaining (Match.smaller s.remaining o.remaining) o.owner

    turn-same : from_slot ≡ turn t.remaining d f.order.owner
    turn-same =
        ap (λ (o : Order). turn s.remaining (Match.smaller s.remaining o.remaining) o.owner) resting
        ∙ ap (λ x. turn x (Match.smaller x f.order.remaining) f.order.owner) l.remaining
        ∙ ap (λ k. turn t.remaining k f.order.owner) (smaller-same t.remaining f.order.remaining)

    pub book_round : match_round id side lim owner s ≡ (if stop then none else some book_next)
    unfolding match_round
    book_round =
        rw (crosses, match_round)
          (elim (Bool-cases (beyond side ref_lim (pos f.tick))) [
            | inl c ↦
                rw c
                  (elim (Bool-cases (t.remaining == 0)) [ inl z ↦ rw z refl | inr z ↦ rw z refl ])
            | inr c ↦ rw c (
                turn-same
                ∙ ap (λ x. if x || self_trade owner f.order.owner then none else some book_next)
                    (sym (or-false (t.remaining == 0))))
          ])
