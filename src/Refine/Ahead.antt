-- ===== src/Refine/Ahead.antt =====
-- One step of `can_fill` of the reference book, said of the cells of a tick.
use cpp_matching_engine.Base.{
  ℕ, ◌≡◌, ◌≢◌, refl, sym, ap, ◌∙◌, subst, ◌⊎◌, inl, inr, Bool, true, false, not, [], ◌∷◌, arith,
  leb, ◌&&◌, ◌||◌, if◌then◌else◌,
}
use cpp_matching_engine.Base.Int.{pos, eqb_ℤ_refl, pos_part}
use cpp_matching_engine.Types.{OwnerId, Quantity, Price, Side, buy, sell, opposite}
use cpp_matching_engine.OrderBook.Layout.{Store, pos-ne}
use cpp_matching_engine.RefBook.{scan_level, beyond, can_fill_in}
use cpp_matching_engine.RefBook.State.{RefOrder, Queue, Levels, queue_at}
use cpp_matching_engine.RefBook.Ordered.{Ordered, Before, Behind-tail}
use cpp_matching_engine.Refine.Orders.{orders}
use cpp_matching_engine.Refine.Queues.{queue_at-Behind, eqb-ne}
use cpp_matching_engine.Refine.Tops.{Earlier, Earlier-cases, Before-pos, tick-of}

-- The levels that are still to come when the walk is at tick `p`.
pub record Ahead (sd : Side) (q : Store) (p : ℕ) (ls : Levels) : Type 0 where
  pub ordered : Ordered sd ls
  pub done : (t : ℕ) → Earlier sd t p → queue_at ls (pos t) ≡ []
  pub here : queue_at ls (pos p) ≡ orders sd (q p)
  pub todo : (t : ℕ) → Earlier sd p t → queue_at ls (pos t) ≡ orders sd (q t)

-- And when it has passed tick `p`.
pub record Past (sd : Side) (q : Store) (p : ℕ) (ls : Levels) : Type 0 where
  pub ordered : Ordered sd ls
  pub done : (t : ℕ) → Earlier sd t p → queue_at ls (pos t) ≡ []
  pub here : queue_at ls (pos p) ≡ []
  pub todo : (t : ℕ) → Earlier sd p t → queue_at ls (pos t) ≡ orders sd (q t)

nil-cons {ℓ} : {A : Type ℓ} (o : RefOrder) (os ps : Queue) → ps ≡ [] → ps ≡ o ∷ os → A
nil-cons o os ps e f = absurd (cc)

queue_at_first : (t : ℕ) (os : Queue) (ls : Levels) → queue_at ((pos t, os) ∷ ls) (pos t) ≡ os
unfolding queue_at
queue_at_first t os ls = rw (eqb_ℤ_refl (pos t)) refl

queue_at_later :
    (t u : ℕ) (os : Queue) (ls : Levels)
    → t ≢ u
    → queue_at ((pos t, os) ∷ ls) (pos u) ≡ queue_at ls (pos u)
unfolding queue_at
queue_at_later t u os ls ne = rw (eqb-ne (pos t) (pos u) (pos-ne ne)) refl

-- An ordered map without orders is empty.
pub no-orders :
    (sd : Side) (ls : Levels) → Ordered sd ls → ((t : ℕ) → queue_at ls (pos t) ≡ []) → ls ≡ []
no-orders sd [] o none = refl
no-orders sd ((p, []) ∷ ls) o none = absurd (omega (arith, o.1))
no-orders sd ((p, x ∷ os) ∷ ls) o none =
    let t = pos_part p in
    nil-cons x os (queue_at ((p, x ∷ os) ∷ ls) (pos t)) (none t)
      (ap (λ y. queue_at ((y, x ∷ os) ∷ ls) (pos t)) (tick-of p o.0) ∙ queue_at_first t (x ∷ os) ls)

Earlier-refl : (sd : Side) (t u : ℕ) → t ≡ u → Earlier sd t u → ⊥
Earlier-refl buy t u e h = omega (arith, e, h)
Earlier-refl sell t u e h = omega (arith, e, h)

passed :
    (side : Side) (lim : Price) (p t : ℕ)
    → beyond side lim (pos p) ≡ true
    → (p ≡ t) ⊎ Earlier (opposite side) p t
    → beyond side lim (pos t) ≡ true
passed side lim p t b (inl e) = subst (λ u. beyond side lim (pos u) ≡ true) e b
passed buy lim p t b (inr h) = ground (arith, b, h)
passed sell lim p t b (inr h) = ground (arith, b, h)

branches {ℓ} :
    {A : Type ℓ} (g l : Bool) (x y : A)
    → (if not g || l then x else y) ≡ (if g && not l then y else x)
branches true true x y = refl
branches true false x y = refl
branches false true x y = refl
branches false false x y = refl

module _ (side : Side) (lim : Price) (qty : Quantity) (owner : OwnerId) (q : Store) where
  abbrev sd : Side
  sd = opposite side

  -- The first level that is left is at this tick or after it.
  first-level :
      (p : ℕ) (P : Price) (o : RefOrder) (os : Queue) (ls : Levels)
      → Ahead sd q p ((P, o ∷ os) ∷ ls)
      → (t : ℕ) × (P ≡ pos t) × ((p ≡ t) ⊎ Earlier sd p t)
  first-level p P o os ls a =
      let t = pos_part P in
      let e = tick-of P a.ordered.0 in
      (
        t,
        e,
        elim (Earlier-cases sd p t) [
          | inl same ↦ inl same
          | inr (inl h) ↦ inr h
          | inr (inr h) ↦
              nil-cons o os (queue_at ((P, o ∷ os) ∷ ls) (pos t)) (a.done t h)
                (ap (λ y. queue_at ((y, o ∷ os) ∷ ls) (pos t)) e ∙ queue_at_first t (o ∷ os) ls)
        ],
      )

  -- Beyond the limit nothing more counts.
  pub stops-beyond :
      (p : ℕ) (ls : Levels) (avail : Quantity)
      → Ahead sd q p ls
      → beyond side lim (pos p) ≡ true
      → can_fill_in ls side lim qty owner avail ≡ leb qty avail
  unfolding can_fill_in
  stops-beyond p [] avail a b = refl
  stops-beyond p ((P, []) ∷ ls) avail a b = absurd (omega (arith, a.ordered.1))
  stops-beyond p ((P, o ∷ os) ∷ ls) avail a b =
      let (t, e, later) = first-level p P o os ls a in
      let out : beyond side lim P ≡ true =
        subst (λ y. beyond side lim y ≡ true) (sym e) (passed side lim p t b later) in
      rw out refl

  -- The walk at one tick, with what is left afterwards.
  abbrev pub counts : Levels → Bool × Quantity → Bool
  counts ls c =
      if c.0 && not (leb qty c.1) then can_fill_in ls side lim qty owner c.1 else leb qty c.1

  abbrev Step : ℕ → Levels → Quantity → Type 0
  Step p ls avail =
      (ls' : Levels) × Past sd q p ls'
      × (can_fill_in ls side lim qty owner avail
          ≡ counts ls' (scan_level (orders sd (q p)) owner avail))

  -- No order of the side is at the tick.
  Step-none :
      (p : ℕ) (ls : Levels) (avail : Quantity)
      → Ahead sd q p ls
      → leb qty avail ≡ false
      → queue_at ls (pos p) ≡ []
      → Step p ls avail
  unfolding scan_level
  Step-none p ls avail a few none = (
    ls,
    record { ordered = a.ordered; done = a.done; here = none; todo = a.todo },
    sym (
        subst
          (λ os. counts ls (scan_level os owner avail) ≡ can_fill_in ls side lim qty owner avail)
          (sym none ∙ a.here) (rw few refl)),
  )

  -- The first level is the one of the tick.
  Step-first :
      (p : ℕ) (o : RefOrder) (os : Queue) (ls : Levels) (avail : Quantity)
      → Ahead sd q p ((pos p, o ∷ os) ∷ ls)
      → beyond side lim (pos p) ≡ false
      → Step p ((pos p, o ∷ os) ∷ ls) avail
  unfolding can_fill_in
  Step-first p o os ls avail a b = (
    ls,
    record {
      ordered = a.ordered.3;
      done = λ t h.
          queue_at-Behind sd ls (pos t) a.ordered.3
            (Behind-tail sd (pos t) (pos p) ls (Before-pos sd t p h) a.ordered.2);
      here = queue_at-Behind sd ls (pos p) a.ordered.3 a.ordered.2;
      todo =
          λ t h. sym (queue_at_later p t (o ∷ os) ls (λ e. Earlier-refl sd p t e h)) ∙ a.todo t h;
    },
    rw b (
        branches (scan_level (o ∷ os) owner avail).0 (leb qty (scan_level (o ∷ os) owner avail).1)
          (leb qty (scan_level (o ∷ os) owner avail).1)
          (can_fill_in ls side lim qty owner (scan_level (o ∷ os) owner avail).1)
        ∙ ap (λ x. counts ls (scan_level x owner avail))
            (sym (queue_at_first p (o ∷ os) ls) ∙ a.here)),
  )

  pub steps :
      (p : ℕ) (ls : Levels) (avail : Quantity)
      → Ahead sd q p ls
      → beyond side lim (pos p) ≡ false
      → leb qty avail ≡ false
      → Step p ls avail
  unfolding queue_at
  steps p [] avail a b few = Step-none p [] avail a few refl
  steps p ((P, []) ∷ ls) avail a b few = absurd (omega (arith, a.ordered.1))
  steps p ((P, o ∷ os) ∷ ls) avail a b few =
      let (t, e, later) = first-level p P o os ls a in
      elim later [
        | inl same ↦
            let at : P ≡ pos p = e ∙ ap pos (sym same) in
            subst (λ y. Step p ((y, o ∷ os) ∷ ls) avail) (sym at)
              (Step-first p o os ls avail (subst (λ y. Ahead sd q p ((y, o ∷ os) ∷ ls)) at a) b)
        | inr h ↦ Step-none p ((P, o ∷ os) ∷ ls) avail a few (
            queue_at-Behind sd ((P, o ∷ os) ∷ ls) (pos p) a.ordered
              (subst (Before sd (pos p)) (sym e) (Before-pos sd p t h)))
      ]
