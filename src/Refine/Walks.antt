-- ===== src/Refine/Walks.antt =====
-- The walks of `can_fill` over the ticks.
use cpp_matching_engine.Base.{
  ℕ, zero, suc, ◌+◌, ◌<◌, ◌≤◌, ◌≡◌, refl, sym, ap, ◌∙◌, inl, inr, Bool, true, false, not, List, [],
  ◌∷◌, none, some, Bool-cases, arith, length, leb, ◌&&◌, if◌then◌else◌, u64_mod, eq-cases,
}
use cpp_matching_engine.Base.Int.{pos, leb_ℤ}
use cpp_matching_engine.Types.{OwnerId, Quantity, Price, Side, buy, sell}
use cpp_matching_engine.Pool.{Handle}
use cpp_matching_engine.OrderBook.State.{OrderBook, is_empty}
use cpp_matching_engine.OrderBook.Layout.{Store}
use cpp_matching_engine.OrderBook.{can_fill_up, can_fill_down}
use cpp_matching_engine.RefBook.{scan_level, can_fill_in}
use cpp_matching_engine.RefBook.State.{RefBook, Queue, Levels, queue_at}
use cpp_matching_engine.Refine.Orders.{orders, filled}
use cpp_matching_engine.Refine.Tops.{lt-cases}
use cpp_matching_engine.Refine.Relation.{Matches, has}
use cpp_matching_engine.Refine.Reprice.{get_or-past, empty-has}
use cpp_matching_engine.Refine.Counts.{count-scan, scan_level-lt}
use cpp_matching_engine.Refine.Ahead.{Ahead, steps, stops-beyond, no-orders}

pub not-filled : (os : Queue) → filled os ≡ false → os ≡ []
not-filled [] e = refl
not-filled (o ∷ os) e = absurd (cc)

answer_if :
    (x y z : Bool)
    → elim (if x then none else some y) [ some a ↦ a | none ↦ z ] ≡ (if x then z else y)
answer_if true y z = refl
answer_if false y z = refl

module _ (b : OrderBook) (r : RefBook) (q : Store) (fs : List Handle) (m : Matches b r q fs)
    (lim : Price) (qty : Quantity) (owner : OwnerId) where
  -- The round of the detailed walk, by what the tick counts and by what follows.
  abbrev turn : (Quantity → Bool) → Bool × Quantity → Bool
  turn rest c = elim (if c.0 && not (leb qty c.1) then none else some (leb qty c.1)) [
    | some a ↦ a
    | none ↦ rest c.1
  ]

  abbrev after : (Quantity → Bool) → Bool × Quantity → Bool
  after rest c = if c.0 && not (leb qty c.1) then rest c.1 else leb qty c.1

  turn-after :
      (rest rest' : Quantity → Bool) (c : Bool × Quantity)
      → (leb qty c.1 ≡ false → rest c.1 ≡ rest' c.1)
      → turn rest c ≡ after rest' c
  turn-after rest rest' c same =
      answer_if (c.0 && not (leb qty c.1)) (leb qty c.1) (rest c.1)
      ∙ elim (Bool-cases (c.0 && not (leb qty c.1))) [
        | inl e ↦ rw e (same (ground (arith, e)))
        | inr e ↦ rw e refl
      ]

  empty_past : (sd : Side) (t : ℕ) → length b.levels ≤ t → orders sd (q t) ≡ []
  empty_past sd t h =
      not-filled (orders sd (q t))
        (empty-has b q fs m.rep sd t (ap is_empty (get_or-past b.levels t h)))

  pub up :
      (n p : ℕ) (ls : Levels) (avail : Quantity)
      → length b.levels ≤ n + p
      → Ahead sell q p ls
      → ((t : ℕ) → p ≤ t → has q buy t ≡ false)
      → avail < u64_mod
      → leb qty avail ≡ false
      → can_fill_up b owner qty lim n p avail ≡ can_fill_in ls buy lim qty owner avail
  unfolding can_fill_up can_fill_in
  up zero p ls avail far a clear small few =
      let gone = no-orders sell ls a.ordered (λ t. elim (lt-cases t p) [
        | inl h ↦ a.done t h
        | inr h ↦ elim (eq-cases t p) [
          | inl e ↦
              ap (λ u. queue_at ls (pos u)) e ∙ a.here ∙ empty_past sell p (omega (arith, far))
          | inr ne ↦ a.todo t (omega (arith, h, ne)) ∙ empty_past sell t (omega (arith, far, h))
        ]
      ]) in
      rw gone refl
  up (suc n) p ls avail far a clear small few = elim (Bool-cases (leb_ℤ (pos p) lim)) [
    | inl c ↦
        let (ls', past, step) = steps buy lim qty owner q p ls avail a (ground (arith, c)) few in
        let counted = scan_level (orders sell (q p)) owner avail in
        rw c (
          ap (turn (can_fill_up b owner qty lim n (p + 1)))
            (count-scan b q fs owner sell p avail m.rep (clear p (omega arith)) small)
          ∙ turn-after (can_fill_up b owner qty lim n (p + 1)) (can_fill_in ls' buy lim qty owner)
              counted
              (λ less.
                up n (p + 1) ls' counted.1 (omega (arith, far))
                  (record {
                    ordered = past.ordered;
                    done = λ t h. elim (lt-cases t p) [
                      | inl k ↦ past.done t k
                      | inr k ↦ ap (λ u. queue_at ls' (pos u)) (omega (arith, h, k)) ∙ past.here
                    ];
                    here = past.todo (p + 1) (omega arith);
                    todo = λ t h. past.todo t (omega (arith, h));
                  })
                  (λ t h. clear t (omega (arith, h)))
                  (scan_level-lt (orders sell (q p)) owner avail small) less)
          ∙ sym step)
    | inr c ↦ rw c (sym (stops-beyond buy lim qty owner q p ls avail a (ground (arith, c))))
  ]

  pub down :
      (p : ℕ) (ls : Levels) (avail : Quantity)
      → Ahead buy q p ls
      → ((t : ℕ) → t ≤ p → has q sell t ≡ false)
      → avail < u64_mod
      → leb qty avail ≡ false
      → can_fill_down b owner qty lim p avail ≡ can_fill_in ls sell lim qty owner avail
  unfolding can_fill_down can_fill_in
  down zero ls avail a clear small few = elim (Bool-cases (leb_ℤ lim (pos 0))) [
    | inl c ↦
        let (ls', past, step) = steps sell lim qty owner q 0 ls avail a (ground (arith, c)) few in
        let counted = scan_level (orders buy (q 0)) owner avail in
        let gone : ls' ≡ [] = no-orders buy ls' past.ordered (λ t. elim (lt-cases 0 t) [
          | inl h ↦ past.done t h
          | inr h ↦ ap (λ u. queue_at ls' (pos u)) (omega (arith, h)) ∙ past.here
        ]) in
        rw c (
          ap (turn (leb qty))
            (count-scan b q fs owner buy 0 avail m.rep (clear 0 (omega arith)) small)
          ∙ turn-after (leb qty) (can_fill_in ls' sell lim qty owner) counted (λ less. rw gone refl)
          ∙ sym step)
    | inr c ↦ rw c (sym (stops-beyond sell lim qty owner q 0 ls avail a (ground (arith, c))))
  ]
  down (suc p) ls avail a clear small few = elim (Bool-cases (leb_ℤ lim (pos (suc p)))) [
    | inl c ↦
        let (ls', past, step) =
          steps sell lim qty owner q (suc p) ls avail a (ground (arith, c)) few in
        let counted = scan_level (orders buy (q (suc p))) owner avail in
        rw c (
          ap (turn (can_fill_down b owner qty lim p))
            (count-scan b q fs owner buy (suc p) avail m.rep (clear (suc p) (omega arith)) small)
          ∙ turn-after (can_fill_down b owner qty lim p) (can_fill_in ls' sell lim qty owner)
              counted
              (λ less.
                down p ls' counted.1
                  (record {
                    ordered = past.ordered;
                    done = λ t h. elim (lt-cases (suc p) t) [
                      | inl k ↦ past.done t k
                      | inr k ↦ ap (λ u. queue_at ls' (pos u)) (omega (arith, h, k)) ∙ past.here
                    ];
                    here = past.todo p (omega arith);
                    todo = λ t h. past.todo t (omega (arith, h));
                  })
                  (λ t h. clear t (omega (arith, h)))
                  (scan_level-lt (orders buy (q (suc p))) owner avail small) less)
          ∙ sym step)
    | inr c ↦ rw c (sym (stops-beyond sell lim qty owner q (suc p) ls avail a (ground (arith, c))))
  ]
