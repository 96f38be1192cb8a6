-- ===== src/RefBook/Sweeps.antt =====
-- What the sweep of the reference book leaves of the opposite map.
use cpp_matching_engine.Base.{
  ℕ, zero, suc, ◌≡◌, refl, sym, ap, ◌∙◌, subst, inl, inr, Bool, false, [], ◌∷◌, arith, Bool-cases,
  Option, none, some, Option-cases, ◌==◌, ◌||◌, sub64,
}
use cpp_matching_engine.Types.{OrderId, Quantity, Price, OwnerId, Side, opposite}
use cpp_matching_engine.RefBook.State.{RefOrder, Queue, Levels, RefBook, side_levels}
use cpp_matching_engine.RefBook.Ordered.{Ordered, Leaves, keep_level-Leaves}
use cpp_matching_engine.RefBook.{
  Sweep, smaller, beyond, self_trade, fill_front, round, match_loop, orders_in, start, do_match,
}

pub some-inj {ℓ} : {A : Type ℓ} (x y : A) → some x ≡ some y → x ≡ y
some-inj {A = A} x y e = ap (λ (o : Option A). elim o [ none ↦ x | some z ↦ z ]) e

module _ (in_id : OrderId) (side : Side) (lim : Price) (owner : OwnerId) (has_sink : Bool) where
  fill_front-Leaves :
      (sd : Side) (s : Sweep) (p : Price) (o : RefOrder) (os : Queue) (ls : Levels)
      → Ordered sd ((p, o ∷ os) ∷ ls)
      → Leaves sd ((p, o ∷ os) ∷ ls) (fill_front in_id side lim owner has_sink s p o os ls).levels
  unfolding fill_front
  fill_front-Leaves sd s p o os ls h =
      elim (Bool-cases (sub64 o.remaining (smaller s.remaining o.remaining) == 0)) [
        | inl e ↦ rw e (keep_level-Leaves sd p (o ∷ os) os ls h)
        | inr e ↦ rw e ((h.0, omega arith, h.2, h.3), λ q k. k)
      ]

  pub round-fills :
      (s : Sweep) (p : Price) (o : RefOrder) (os : Queue) (ls : Levels)
      → (s.remaining == 0 || beyond side lim p || self_trade owner o.owner) ≡ false
      → round in_id side lim owner has_sink s ((p, o ∷ os) ∷ ls)
        ≡ some (fill_front in_id side lim owner has_sink s p o os ls)
  unfolding round
  round-fills s p o os ls c = rw c refl

  round-Leaves :
      (sd : Side) (s s' : Sweep) (ls : Levels)
      → Ordered sd ls
      → round in_id side lim owner has_sink s ls ≡ some s'
      → Leaves sd ls s'.levels
  unfolding round
  round-Leaves sd s s' [] h e = absurd (cc)
  round-Leaves sd s s' ((p, []) ∷ ls) h e = absurd (cc)
  round-Leaves sd s s' ((p, o ∷ os) ∷ ls) h e =
      elim (Bool-cases (s.remaining == 0 || beyond side lim p || self_trade owner o.owner)) [
        | inl c ↦ absurd (ground (arith, c, e))
        | inr c ↦
            subst (λ t. Leaves sd ((p, o ∷ os) ∷ ls) t.levels)
              (some-inj (fill_front in_id side lim owner has_sink s p o os ls) s'
                (sym (round-fills s p o os ls c) ∙ e))
              (fill_front-Leaves sd s p o os ls h)
      ]

  match_loop-Leaves :
      (sd : Side) (n : ℕ) (s : Sweep)
      → Ordered sd s.levels
      → Leaves sd s.levels (match_loop in_id side lim owner has_sink n s).levels
  unfolding match_loop
  match_loop-Leaves sd zero s h = (h, λ p k. k)
  match_loop-Leaves sd (suc n) s h =
      elim (Option-cases (round in_id side lim owner has_sink s s.levels)) [
        | inl e ↦ rw (e, match_loop) (h, λ p k. k)
        | inr (s', e) ↦
            let (ord, behind) = round-Leaves sd s s' s.levels h e in
            let (ord', behind') = match_loop-Leaves sd n s' ord in
            rw (e, match_loop) (ord', λ p k. behind' p (behind p k))
      ]

-- What is left of the opposite map after a sweep.
pub do_match-Leaves :
    (b : RefBook) (sd : Side) (id : OrderId) (side : Side) (lim : Price) (qty : Quantity)
    (owner : OwnerId)
    → Ordered sd (side_levels b (opposite side))
    → Leaves sd (side_levels b (opposite side)) (do_match b id side lim qty owner).levels
unfolding do_match
do_match-Leaves b sd id side lim qty owner h =
    match_loop-Leaves id side lim owner b.has_sink sd
      (suc (orders_in (side_levels b (opposite side)))) (start b side qty) h
