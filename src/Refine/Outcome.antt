-- ===== src/Refine/Outcome.antt =====
-- A round of both sweeps from the same place.
use cpp_matching_engine.Base.{
  ℕ, ◌<◌, ◌≤◌, ◌≡◌, refl, sym, ap, ◌∙◌, subst, ◌⊎◌, inl, inr, false, [], ◌∷◌, Bool-cases, none,
  some, arith, ◌==◌, ◌||◌, if◌then◌else◌, add64, sub64,
}
use cpp_matching_engine.Base.Int.{pos, ltb_ℤ}
use cpp_matching_engine.Types.{OrderId, OwnerId, Quantity, Price, Side, opposite}
use cpp_matching_engine.OrderBook.State.{level_at}
use cpp_matching_engine.OrderBook.Match.{crossing, fill, match_round, match_loop}
use cpp_matching_engine.OrderBook.Match
use cpp_matching_engine.OrderBook.Layout.{Store, upd}
use cpp_matching_engine.OrderBook.Unlink
use cpp_matching_engine.OrderBook.Adjust.{with_remaining}
use cpp_matching_engine.RefBook.{
  beyond, self_trade, smaller, finish, fill_front, round, orders_in, start, do_match,
}
use cpp_matching_engine.RefBook
use cpp_matching_engine.RefBook.State.{RefBook}
use cpp_matching_engine.Refine.Relation.{Matches}
use cpp_matching_engine.Refine.Front.{Front, Front-cases, crossing-best}
use cpp_matching_engine.Refine.Fill.{part-Matches, whole-Matches, fill-sizes}
use cpp_matching_engine.Refine.Finish.{finish-side, part-finish, whole-finish}
use cpp_matching_engine.Refine.Round.{
  Lockstep, Outcome, book_round, ref_round, levels_here, stop, book_next, ref_next,
}

module _ (r : RefBook) (id : OrderId) (side : Side) (lim ref_lim : Price) (owner : OwnerId)
    (ticks slots : ℕ)
    (agree : (x : ℕ) → x < ticks → beyond side lim (pos x) ≡ beyond side ref_lim (pos x)) where
  module _ (s : Match.Sweep) (t : RefBook.Sweep) (l : Lockstep r side ticks slots s t)
      (f : Front s.book (finish r side t) l.store (opposite side)) where
    abbrev d : Quantity
    d = smaller t.remaining f.order.remaining

    abbrev n : Quantity
    n = sub64 f.order.remaining d

    abbrev s' : Match.Sweep
    s' = book_next r id side lim ref_lim owner ticks slots agree s t l f

    abbrev t' : RefBook.Sweep
    t' = ref_next r id side lim ref_lim owner ticks slots agree s t l f

    abbrev lowered : Store
    lowered = upd l.store f.tick ((f.slot, with_remaining n f.order) ∷ f.cells)

    abbrev gone : Store
    gone = upd lowered f.tick f.cells

    spent : (n == 0) ≡ false → s'.remaining ≡ 0
    spent c = rw l.remaining (ground (arith, c))

    enough : d ≤ f.order.remaining
    enough = ground arith

    at_tick : f.order.price ≡ pos f.tick
    at_tick =
        (Unlink.fit s.book l.store l.free l.matches.rep f.tick [] f.slot f.order f.cells f.here).0

    next_Matches :
        ((q : Store) × Matches s'.book (finish r side t') q (f.slot ∷ l.free))
        ⊎ ((q : Store) × Matches s'.book (finish r side t') q l.free × (s'.remaining ≡ 0))
    next_Matches =
        let lev = levels_here r id side lim ref_lim owner ticks slots agree s t l f in
        elim (Bool-cases (n == 0)) [
          | inl c ↦ inl (
            gone,
            subst (λ x. Matches s'.book x gone (f.slot ∷ l.free))
                (whole-finish r t f.tick f.order f.queue f.levels id ref_lim owner lev side
                  f.on_side at_tick c)
                (whole-Matches s.book (finish r side t) l.store l.free l.matches f.tick f.slot
                  f.order f.cells f.here id d enough c),
          )
          | inr c ↦ inr (
            lowered,
            subst (λ x. Matches s'.book x lowered l.free)
                (part-finish r t f.tick f.order f.queue f.levels id ref_lim owner lev side f.on_side
                  c)
                (part-Matches s.book (finish r side t) l.store l.free l.matches f.tick f.slot
                  f.order f.cells f.here id d enough c),
            spent c,
          )
        ]

    outcome : Outcome r id side lim ref_lim owner ticks slots agree s t l
    unfolding fill_front
    outcome =
        let sizes =
          fill-sizes s.book (finish r side t) l.store l.free l.matches f.tick f.slot f.order f.cells
            f.here id d enough in
        let less : sub64 s.remaining d ≡ sub64 t.remaining d = ap (λ x. sub64 x d) l.remaining in
        let more : add64 s.total_filled d ≡ add64 t.filled d = ap (λ x. add64 x d) l.filled in
        let book = book_round r id side lim ref_lim owner ticks slots agree s t l f in
        let ref = ref_round r id side lim ref_lim owner ticks slots agree s t l f in
        elim (Bool-cases (stop r id side lim ref_lim owner ticks slots agree s t l f)) [
          | inl c ↦ inl (book ∙ rw c refl, ref ∙ rw c refl)
          | inr c ↦ elim next_Matches [
            | inl (q, m) ↦ inr (
              s',
              t',
              book ∙ rw c refl,
              ref ∙ rw c refl,
              record {
                store = q;
                free = f.slot ∷ l.free;
                matches = m;
                remaining = less;
                filled = more;
                ticks_kept = sizes.0 ∙ l.ticks_kept;
                slots_kept = sizes.1 ∙ l.slots_kept;
              },
              inr refl,
              omega arith,
            )
            | inr (q, m, z) ↦ inr (
              s',
              t',
              book ∙ rw c refl,
              ref ∙ rw c refl,
              record {
                store = q;
                free = l.free;
                matches = m;
                remaining = less;
                filled = more;
                ticks_kept = sizes.0 ∙ l.ticks_kept;
                slots_kept = sizes.1 ∙ l.slots_kept;
              },
              inl z,
              omega arith,
            )
          ]
        ]

  -- From two sweeps in the same place, either neither has a round or both have one, and it leaves them
  -- in the same place.
  pub round-Outcome :
      (s : Match.Sweep) (t : RefBook.Sweep) (l : Lockstep r side ticks slots s t)
      → Outcome r id side lim ref_lim owner ticks slots agree s t l
  unfolding match_round round
  round-Outcome s t l =
      elim (Front-cases s.book (finish r side t) l.store l.free (opposite side) l.matches) [
        | inl (e, none_best) ↦ inl (
          rw
              (
                crossing-best s.book side lim
                    ∙ ap
                        (λ x.
                          if ltb_ℤ x (pos 0) || beyond side lim x
                          then none
                          else some (level_at s.book x).head)
                        none_best,
                match_round,
              )
              refl,
          ap (round id side ref_lim owner r.has_sink t) (sym (finish-side r side t) ∙ e),
        )
        | inr f ↦ outcome s t l f
      ]
