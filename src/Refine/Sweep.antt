-- ===== src/Refine/Sweep.antt =====
-- The two sweeps, from their start to their end.
use cpp_matching_engine.Base.{
  ℕ, zero, suc, ◌+◌, ◌<◌, ◌≤◌, ◌≡◌, refl, sym, ◌∙◌, subst, inl, inr, List, none, arith, length,
}
use cpp_matching_engine.Base.Int.{pos}
use cpp_matching_engine.Types.{OrderId, OwnerId, Quantity, Price, Side, buy, sell, opposite}
use cpp_matching_engine.Pool.{Handle}
use cpp_matching_engine.OrderBook.State.{OrderBook}
use cpp_matching_engine.OrderBook.Match.{crossing, fill, match_round, match_loop}
use cpp_matching_engine.OrderBook.Match
use cpp_matching_engine.OrderBook.Layout.{Store}
use cpp_matching_engine.RefBook.{
  beyond, self_trade, smaller, finish, fill_front, round, orders_in, start, do_match,
}
use cpp_matching_engine.RefBook
use cpp_matching_engine.RefBook.State.{RefBook, side_levels}
use cpp_matching_engine.RefBook.Stops.{round-progress, exhausted-stops, match_loop-none}
use cpp_matching_engine.Refine.Relation.{Matches}
use cpp_matching_engine.Refine.Unindex.{none-some}
use cpp_matching_engine.Refine.Round.{Lockstep}
use cpp_matching_engine.Refine.Outcome.{round-Outcome}

finish-start : (r : RefBook) (side : Side) (qty : Quantity) → finish r side (start r side qty) ≡ r
finish-start r buy qty = refl
finish-start r sell qty = refl

module _ (r : RefBook) (id : OrderId) (side : Side) (lim ref_lim : Price) (owner : OwnerId)
    (ticks slots : ℕ)
    (agree : (x : ℕ) → x < ticks → beyond side lim (pos x) ≡ beyond side ref_lim (pos x)) where
  still :
      (n : ℕ) (s : Match.Sweep)
      → match_round id side lim owner s ≡ none
      → match_loop id side lim owner n s ≡ s
  unfolding match_loop
  still zero s e = refl
  still (suc n) s e = rw (e, match_loop) refl

  -- Both sweeps have ended, in the same place, and no slot has been taken.
  abbrev pub Ended : Match.Sweep → RefBook.Sweep → ℕ → Type 0
  Ended s t free =
      (l : Lockstep r side ticks slots s t) × (match_round id side lim owner s ≡ none)
      × (free ≤ length l.free)

  -- Nothing is left to fill: the sweeps have ended.
  exhausted :
      (n m : ℕ) (s : Match.Sweep) (t : RefBook.Sweep) (l : Lockstep r side ticks slots s t) (k : ℕ)
      → s.remaining ≡ 0
      → k ≤ length l.free
      → Ended
          (match_loop id side lim owner n s)
          (RefBook.match_loop id side ref_lim owner r.has_sink m t)
          k
  exhausted n m s t l k z h =
      let ref = exhausted-stops id side ref_lim owner r.has_sink t t.levels (sym l.remaining ∙ z) in
      let book : match_round id side lim owner s ≡ none =
        elim (round-Outcome r id side lim ref_lim owner ticks slots agree s t l) [
          | inl (e, e') ↦ e
          | inr (u, v, e, e', l', p, g) ↦
              none-some (round id side ref_lim owner r.has_sink t t.levels) v ref e'
        ] in
      subst (λ x. Ended x (RefBook.match_loop id side ref_lim owner r.has_sink m t) k)
        (sym (still n s book))
        (subst (λ y. Ended s y k) (sym (match_loop-none id side ref_lim owner r.has_sink m t ref))
          (l, book, h))

  loops-Ended :
      (n m : ℕ) (s : Match.Sweep) (t : RefBook.Sweep) (l : Lockstep r side ticks slots s t) (k : ℕ)
      → slots < n + length l.free
      → orders_in t.levels < m
      → k ≤ length l.free
      → Ended
          (match_loop id side lim owner n s)
          (RefBook.match_loop id side ref_lim owner r.has_sink m t)
          k
  unfolding match_loop RefBook.match_loop
  loops-Ended zero m s t l k h j g =
      absurd (omega (arith, h, l.matches.rep.free.count, l.slots_kept))
  loops-Ended (suc n) zero s t l k h j g = absurd (omega (arith, j))
  loops-Ended (suc n) (suc m) s t l k h j g =
      elim (round-Outcome r id side lim ref_lim owner ticks slots agree s t l) [
        | inl (e, e') ↦ rw (e, match_loop) (rw (e', RefBook.match_loop) (l, e, g))
        | inr (u, v, e, e', l', p, grown) ↦
            rw (e, match_loop)
              (rw (e', RefBook.match_loop)
                (elim p [
                  | inl z ↦ exhausted n m u v l' k z (omega (arith, g, grown))
                  | inr more ↦
                      elim (round-progress id side ref_lim owner r.has_sink t v t.levels e') [
                        | inl z ↦
                            exhausted n m u v l' k (l'.remaining ∙ z) (omega (arith, g, grown))
                        | inr less ↦
                            loops-Ended n m u v l' k (omega (arith, h, more))
                              (omega (arith, j, less)) (omega (arith, g, grown))
                      ]
                ]))
      ]

  -- The sweep of the detailed book, against that of the reference book from the same place.
  pub match-Ended :
      (b : OrderBook) (q : Store) (fs : List Handle) (qty : Quantity)
      → Matches b r q fs
      → length b.levels ≡ ticks
      → length b.pool.nodes ≡ slots
      → Ended
          (Match.match id side lim owner b qty)
          (do_match r id side ref_lim qty owner)
          (length fs)
  unfolding Match.match do_match
  match-Ended b q fs qty m n k =
      loops-Ended (suc b.pool.in_use) (suc (orders_in (side_levels r (opposite side))))
        (record { book = b; remaining = qty; total_filled = 0 }) (start r side qty)
        (record {
          store = q;
          free = fs;
          matches = subst (λ x. Matches b x q fs) (sym (finish-start r side qty)) m;
          remaining = refl;
          filled = refl;
          ticks_kept = n;
          slots_kept = k;
        })
        (length fs) (omega (arith, m.rep.free.count, k)) (omega arith) (omega arith)
