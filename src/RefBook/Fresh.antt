-- ===== src/RefBook/Fresh.antt =====
-- The sweep of the reference book adds no id to the index.
use cpp_matching_engine.Base.{
  ℕ, zero, suc, ◌≡◌, sym, ◌∙◌, subst, inl, inr, Bool, [], ◌∷◌, none, some, arith, Bool-cases,
  Option-cases, ◌==◌, ◌||◌, sub64,
}
use cpp_matching_engine.Base.Dict.{find}
use cpp_matching_engine.Base.Dict.Laws.{find-erase-none}
use cpp_matching_engine.Types.{OrderId, Quantity, Price, OwnerId, Side, opposite}
use cpp_matching_engine.RefBook.State.{RefOrder, Queue, Levels, RefBook, side_levels}
use cpp_matching_engine.RefBook.{
  Sweep, smaller, beyond, self_trade, fill_front, round, match_loop, orders_in, start, do_match,
}
use cpp_matching_engine.RefBook.Sweeps.{some-inj, round-fills}

abbrev Unknown : OrderId → Sweep → Type 0
Unknown k s = find k s.id_index ≡ none

module _ (in_id : OrderId) (side : Side) (lim : Price) (owner : OwnerId) (has_sink : Bool)
    (k : OrderId) where
  fill_front-Unknown :
      (s : Sweep) (p : Price) (o : RefOrder) (os : Queue) (ls : Levels)
      → Unknown k s
      → Unknown k (fill_front in_id side lim owner has_sink s p o os ls)
  unfolding fill_front
  fill_front-Unknown s p o os ls u =
      elim (Bool-cases (sub64 o.remaining (smaller s.remaining o.remaining) == 0)) [
        | inl e ↦ rw e (find-erase-none k o.id s.id_index u)
        | inr e ↦ rw e u
      ]

  round-Unknown :
      (s s' : Sweep) (ls : Levels)
      → Unknown k s
      → round in_id side lim owner has_sink s ls ≡ some s'
      → Unknown k s'
  unfolding round
  round-Unknown s s' [] u e = absurd (cc)
  round-Unknown s s' ((p, []) ∷ ls) u e = absurd (cc)
  round-Unknown s s' ((p, o ∷ os) ∷ ls) u e =
      elim (Bool-cases (s.remaining == 0 || beyond side lim p || self_trade owner o.owner)) [
        | inl c ↦ absurd (ground (arith, c, e))
        | inr c ↦
            subst (Unknown k)
              (some-inj (fill_front in_id side lim owner has_sink s p o os ls) s'
                (sym (round-fills in_id side lim owner has_sink s p o os ls c) ∙ e))
              (fill_front-Unknown s p o os ls u)
      ]

  match_loop-Unknown :
      (n : ℕ) (s : Sweep) → Unknown k s → Unknown k (match_loop in_id side lim owner has_sink n s)
  unfolding match_loop
  match_loop-Unknown zero s u = u
  match_loop-Unknown (suc n) s u =
      elim (Option-cases (round in_id side lim owner has_sink s s.levels)) [
        | inl e ↦ rw (e, match_loop) u
        | inr (s', e) ↦
            rw (e, match_loop) (match_loop-Unknown n s' (round-Unknown s s' s.levels u e))
      ]

-- An id that the index does not know before the sweep is not known after it.
pub do_match-Unknown :
    (b : RefBook) (id : OrderId) (side : Side) (lim : Price) (qty : Quantity) (owner : OwnerId)
    (k : OrderId)
    → find k b.id_index ≡ none
    → find k (do_match b id side lim qty owner).id_index ≡ none
unfolding do_match
do_match-Unknown b id side lim qty owner k u =
    match_loop-Unknown id side lim owner b.has_sink k
      (suc (orders_in (side_levels b (opposite side)))) (start b side qty) u
