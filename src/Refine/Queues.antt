-- ===== src/Refine/Queues.antt =====
-- What the operations on the reference book's maps do to the queue at each price.
use cpp_matching_engine.Base.{
  ◌≡◌, ◌≢◌, refl, sym, ap, ◌∙◌, subst, inl, inr, true, false, [], ◌∷◌, ◌++◌, Bool-cases, arith,
}
use cpp_matching_engine.Base.Int.{ℤ, eqb_ℤ, eqb_ℤ→eq, eqb_ℤ_refl}
use cpp_matching_engine.Types.{OrderId, Quantity, Price, Side, buy, sell}
use cpp_matching_engine.RefBook.State.{
  RefOrder, Queue, Levels, before, queue_at, push_back, erase_order, keep_level, erase_at,
  set_remaining, set_remaining_at,
}
use cpp_matching_engine.RefBook.Ordered.{Before, Behind, Ordered, Behind-tail, before→Before}

pub eqb-ne : (a b : ℤ) → a ≢ b → eqb_ℤ a b ≡ false
eqb-ne a b ne = elim (Bool-cases (eqb_ℤ a b)) [ inl e ↦ absurd (ne (eqb_ℤ→eq a b e)) | inr e ↦ e ]

pub Before-ne : (sd : Side) (p q : Price) → Before sd p q → eqb_ℤ q p ≡ false
Before-ne buy p q h = ground (arith, h)
Before-ne sell p q h = ground (arith, h)

-- There is nothing in front of the first level.
pub queue_at-Behind :
    (sd : Side) (ls : Levels) (p : Price) → Ordered sd ls → Behind sd p ls → queue_at ls p ≡ []
unfolding queue_at
queue_at-Behind sd [] p o h = refl
queue_at-Behind sd ((q, os) ∷ ls) p o h =
    rw (Before-ne sd p q h) (queue_at-Behind sd ls p o.3 (Behind-tail sd p q ls h o.2))

pub queue_at-erase_at_self :
    (sd : Side) (ls : Levels) (p : Price) (id : OrderId)
    → Ordered sd ls
    → queue_at (erase_at ls p id) p ≡ erase_order id (queue_at ls p)
unfolding queue_at erase_at erase_order
queue_at-erase_at_self sd [] p id o = refl
queue_at-erase_at_self sd ((q, os) ∷ ls) p id o = elim (Bool-cases (eqb_ℤ q p)) [
  | inl e ↦ rw e (kept (erase_order id os) (subst (λ x. Behind sd x ls) (eqb_ℤ→eq q p e) o.2) e)
  | inr e ↦ rw e (rw e (queue_at-erase_at_self sd ls p id o.3))
]
  where
    kept :
        (os' : Queue) → Behind sd p ls → eqb_ℤ q p ≡ true → queue_at (keep_level q os' ls) p ≡ os'
    kept [] h e = queue_at-Behind sd ls p o.3 h
    kept (x ∷ os') h e = rw e refl

pub queue_at-erase_at_ne :
    (ls : Levels) (p t : Price) (id : OrderId)
    → p ≢ t
    → queue_at (erase_at ls p id) t ≡ queue_at ls t
unfolding queue_at erase_at
queue_at-erase_at_ne [] p t id ne = refl
queue_at-erase_at_ne ((q, os) ∷ ls) p t id ne = elim (Bool-cases (eqb_ℤ q p)) [
  | inl e ↦
      let other = eqb-ne q t (λ same. ne (sym (eqb_ℤ→eq q p e) ∙ same)) in
      rw e (kept (erase_order id os) other ∙ rw other refl)
  | inr e ↦ rw e (elim (Bool-cases (eqb_ℤ q t)) [
    | inl f ↦ rw f refl
    | inr f ↦ rw f (queue_at-erase_at_ne ls p t id ne)
  ])
]
  where
    kept : (os' : Queue) → eqb_ℤ q t ≡ false → queue_at (keep_level q os' ls) t ≡ queue_at ls t
    kept [] e = refl
    kept (x ∷ os') e = rw e refl

pub queue_at-set_remaining_at_self :
    (ls : Levels) (p : Price) (id : OrderId) (n : Quantity)
    → queue_at (set_remaining_at ls p id n) p ≡ set_remaining id n (queue_at ls p)
unfolding queue_at set_remaining_at set_remaining
queue_at-set_remaining_at_self [] p id n = refl
queue_at-set_remaining_at_self ((q, os) ∷ ls) p id n = elim (Bool-cases (eqb_ℤ q p)) [
  | inl e ↦ rw e (rw e refl)
  | inr e ↦ rw e (rw e (queue_at-set_remaining_at_self ls p id n))
]

pub queue_at-set_remaining_at_ne :
    (ls : Levels) (p t : Price) (id : OrderId) (n : Quantity)
    → p ≢ t
    → queue_at (set_remaining_at ls p id n) t ≡ queue_at ls t
unfolding queue_at set_remaining_at
queue_at-set_remaining_at_ne [] p t id n ne = refl
queue_at-set_remaining_at_ne ((q, os) ∷ ls) p t id n ne = elim (Bool-cases (eqb_ℤ q p)) [
  | inl e ↦
      let other = eqb-ne q t (λ same. ne (sym (eqb_ℤ→eq q p e) ∙ same)) in rw e (rw other refl)
  | inr e ↦ rw e (elim (Bool-cases (eqb_ℤ q t)) [
    | inl f ↦ rw f refl
    | inr f ↦ rw f (queue_at-set_remaining_at_ne ls p t id n ne)
  ])
]

pub queue_at-push_back_self :
    (sd : Side) (ls : Levels) (p : Price) (o : RefOrder)
    → Ordered sd ls
    → queue_at (push_back sd ls p o) p ≡ queue_at ls p ++ o ∷ []
unfolding queue_at push_back
queue_at-push_back_self sd [] p o ord = rw (eqb_ℤ_refl p) refl
queue_at-push_back_self sd ((q, os) ∷ ls) p o ord = elim (Bool-cases (before sd p q)) [
  | inl b ↦
      let first = queue_at-Behind sd ((q, os) ∷ ls) p ord (before→Before sd p q b) in
      rw b (rw (eqb_ℤ_refl p) (ap (λ l. l ++ o ∷ []) (sym first)))
  | inr b ↦ rw b (elim (Bool-cases (eqb_ℤ q p)) [
    | inl e ↦ rw e (rw e refl)
    | inr e ↦ rw e (rw e (queue_at-push_back_self sd ls p o ord.3))
  ])
]

pub queue_at-push_back_ne :
    (sd : Side) (ls : Levels) (p t : Price) (o : RefOrder)
    → p ≢ t
    → queue_at (push_back sd ls p o) t ≡ queue_at ls t
unfolding queue_at push_back
queue_at-push_back_ne sd [] p t o ne = rw (eqb-ne p t ne) refl
queue_at-push_back_ne sd ((q, os) ∷ ls) p t o ne = elim (Bool-cases (before sd p q)) [
  | inl b ↦ rw b (rw (eqb-ne p t ne) refl)
  | inr b ↦ rw b (elim (Bool-cases (eqb_ℤ q p)) [
    | inl e ↦
        let other = eqb-ne q t (λ same. ne (sym (eqb_ℤ→eq q p e) ∙ same)) in rw e (rw other refl)
    | inr e ↦ rw e (elim (Bool-cases (eqb_ℤ q t)) [
      | inl f ↦ rw f refl
      | inr f ↦ rw f (queue_at-push_back_ne sd ls p t o ne)
    ])
  ])
]
