-- ===== src/RefBook/Stops.antt =====
-- The sweep of the reference book has fuel enough.
use cpp_matching_engine.Base.{
  ℕ, zero, suc, ◌+◌, ◌<◌, ◌≡◌, refl, sym, subst, ◌∙◌, ◌⊎◌, inl, inr, Bool, [], ◌∷◌, arith, length,
  Bool-cases, none, some, Option-cases, ◌==◌, ◌||◌, sub64,
}
use cpp_matching_engine.Types.{OrderId, Quantity, Price, OwnerId, Side, opposite}
use cpp_matching_engine.RefBook.State.{RefOrder, Queue, Levels, RefBook, keep_level, side_levels}
use cpp_matching_engine.RefBook.{
  Sweep, smaller, beyond, self_trade, fill_front, round, match_loop, orders_in, start, do_match,
}
use cpp_matching_engine.RefBook.Sweeps.{some-inj, round-fills}

pub orders_in-keep_level :
    (p : Price) (os : Queue) (ls : Levels)
    → orders_in (keep_level p os ls) ≡ length os + orders_in ls
orders_in-keep_level p [] ls = omega arith
orders_in-keep_level p (o ∷ os) ls = refl

module _ (in_id : OrderId) (side : Side) (lim : Price) (owner : OwnerId) (has_sink : Bool) where
  -- A fill exhausts the incoming order or takes the front order out.
  fill_front-progress :
      (s : Sweep) (p : Price) (o : RefOrder) (os : Queue) (ls : Levels)
      → ((fill_front in_id side lim owner has_sink s p o os ls).remaining ≡ 0)
        ⊎ (orders_in (fill_front in_id side lim owner has_sink s p o os ls).levels
            < orders_in ((p, o ∷ os) ∷ ls))
  unfolding fill_front
  fill_front-progress s p o os ls =
      elim (Bool-cases (sub64 o.remaining (smaller s.remaining o.remaining) == 0)) [
        | inl e ↦ inr (rw e (omega (arith, orders_in-keep_level p os ls)))
        | inr e ↦ inl (ground (arith, e))
      ]

  pub round-progress :
      (s s' : Sweep) (ls : Levels)
      → round in_id side lim owner has_sink s ls ≡ some s'
      → (s'.remaining ≡ 0) ⊎ (orders_in s'.levels < orders_in ls)
  unfolding round
  round-progress s s' [] e = absurd (cc)
  round-progress s s' ((p, []) ∷ ls) e = absurd (cc)
  round-progress s s' ((p, o ∷ os) ∷ ls) e =
      elim (Bool-cases (s.remaining == 0 || beyond side lim p || self_trade owner o.owner)) [
        | inl c ↦ absurd (ground (arith, c, e))
        | inr c ↦
            subst
              (λ (t : Sweep).
                (t.remaining ≡ 0) ⊎ (orders_in t.levels < orders_in ((p, o ∷ os) ∷ ls)))
              (some-inj (fill_front in_id side lim owner has_sink s p o os ls) s'
                (sym (round-fills in_id side lim owner has_sink s p o os ls c) ∙ e))
              (fill_front-progress s p o os ls)
      ]

  pub exhausted-stops :
      (s : Sweep) (ls : Levels) → s.remaining ≡ 0 → round in_id side lim owner has_sink s ls ≡ none
  unfolding round
  exhausted-stops s [] z = refl
  exhausted-stops s ((p, []) ∷ ls) z = refl
  exhausted-stops s ((p, o ∷ os) ∷ ls) z = ground (arith, z)

  pub match_loop-none :
      (n : ℕ) (s : Sweep)
      → round in_id side lim owner has_sink s s.levels ≡ none
      → match_loop in_id side lim owner has_sink n s ≡ s
  unfolding match_loop
  match_loop-none zero s e = refl
  match_loop-none (suc n) s e = rw (e, match_loop) refl

  pub match_loop-stops :
      (n : ℕ) (s : Sweep)
      → orders_in s.levels < n
      → round in_id side lim owner has_sink
          (match_loop in_id side lim owner has_sink n s)
          (match_loop in_id side lim owner has_sink n s).levels
        ≡ none
  unfolding match_loop
  match_loop-stops zero s h = absurd (omega (arith, h))
  match_loop-stops (suc n) s h =
      elim (Option-cases (round in_id side lim owner has_sink s s.levels)) [
        | inl e ↦ rw (e, match_loop) e
        | inr (s', e) ↦
            rw (e, match_loop)
              (elim (round-progress s s' s.levels e) [
                | inl z ↦
                    let r = exhausted-stops s' s'.levels z in
                    subst (λ t. round in_id side lim owner has_sink t t.levels ≡ none)
                      (sym (match_loop-none n s' r)) r
                | inr less ↦ match_loop-stops n s' (omega (arith, less, h))
              ])
      ]

-- The loop of `do_match` comes to its end: in the state that it leaves no round is possible, since the
-- incoming order is exhausted, the opposite map is empty, its best price is beyond the limit, its
-- front order has the same owner, or its best level has no order, which the operations never leave.
pub do_match-stops :
    (b : RefBook) (id : OrderId) (side : Side) (lim : Price) (qty : Quantity) (owner : OwnerId)
    → round id side lim owner b.has_sink
        (do_match b id side lim qty owner)
        (do_match b id side lim qty owner).levels
      ≡ none
unfolding do_match
do_match-stops b id side lim qty owner =
    match_loop-stops id side lim owner b.has_sink (suc (orders_in (side_levels b (opposite side))))
      (start b side qty) (omega arith)
