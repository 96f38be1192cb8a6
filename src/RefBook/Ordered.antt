-- ===== src/RefBook/Ordered.antt =====
-- The order of the reference book's maps, and what keeps it.
use cpp_matching_engine.Base.{
  ◌<◌, ◌≡◌, refl, inl, inr, true, false, [], ◌∷◌, arith, length, length-append, Bool-cases, ◌==◌,
}
use cpp_matching_engine.Base.Int.{pos, ◌≤ℤ◌, ◌<ℤ◌, eqb_ℤ}
use cpp_matching_engine.Types.{OrderId, Quantity, Price, Side, buy, sell}
use cpp_matching_engine.RefBook.State.{
  RefOrder, Queue, Levels, before, push_back, erase_order, keep_level, erase_at, set_remaining,
  set_remaining_at,
}

-- `p` comes before `q` on that side.
abbrev pub Before : Side → Price → Price → Type 0
Before buy p q = q <ℤ p
Before sell p q = p <ℤ q

-- Every level comes after the price `p`.
abbrev pub Behind : Side → Price → Levels → Type 0
Behind side p [] = Unit {0}
Behind side p ((q, os) ∷ ls) = Before side p q

-- The prices are not negative and in the order of the side, and no level is empty.
abbrev pub Ordered : Side → Levels → Type 0
Ordered side [] = Unit {0}
Ordered side ((p, os) ∷ ls) = (pos 0 ≤ℤ p) × (0 < length os) × Behind side p ls × Ordered side ls

pub Before-trans :
    (side : Side) (p q r : Price) → Before side p q → Before side q r → Before side p r
Before-trans buy p q r h k = omega (arith, h, k)
Before-trans sell p q r h k = omega (arith, h, k)

pub Behind-tail :
    (side : Side) (p q : Price) (ls : Levels)
    → Before side p q
    → Behind side q ls
    → Behind side p ls
Behind-tail side p q [] h k = tt
Behind-tail side p q ((r, os) ∷ ls) h k = Before-trans side p q r h k

-- What is left of a map is in order, and its best price is no better.
abbrev pub Leaves : Side → Levels → Levels → Type 0
Leaves side ls ls' = Ordered side ls' × ((p : Price) → Behind side p ls → Behind side p ls')

pub keep_level-Leaves :
    (side : Side) (q : Price) (os os' : Queue) (ls : Levels)
    → Ordered side ((q, os) ∷ ls)
    → Leaves side ((q, os) ∷ ls) (keep_level q os' ls)
keep_level-Leaves side q os [] ls h = (h.3, λ p k. Behind-tail side p q ls k h.2)
keep_level-Leaves side q os (o ∷ os') ls h = ((h.0, omega arith, h.2, h.3), λ p k. k)

pub erase_at-Leaves :
    (side : Side) (ls : Levels) (p : Price) (id : OrderId)
    → Ordered side ls
    → Leaves side ls (erase_at ls p id)
unfolding erase_at
erase_at-Leaves side [] p id h = (tt, λ q k. k)
erase_at-Leaves side ((q, os) ∷ ls) p id h = elim (Bool-cases (eqb_ℤ q p)) [
  | inl e ↦ rw e (keep_level-Leaves side q os (erase_order id os) ls h)
  | inr e ↦
      let (rest, behind) = erase_at-Leaves side ls p id h.3 in
      rw e ((h.0, h.1, behind q h.2, rest), λ r k. k)
]

length-set_remaining :
    (id : OrderId) (n : Quantity) (os : Queue) → length (set_remaining id n os) ≡ length os
unfolding set_remaining
length-set_remaining id n [] = refl
length-set_remaining id n (o ∷ os) = elim (Bool-cases (o.id == id)) [
  | inl e ↦ rw e refl
  | inr e ↦ rw e (omega (arith, length-set_remaining id n os))
]

pub set_remaining_at-Leaves :
    (side : Side) (ls : Levels) (p : Price) (id : OrderId) (n : Quantity)
    → Ordered side ls
    → Leaves side ls (set_remaining_at ls p id n)
unfolding set_remaining_at
set_remaining_at-Leaves side [] p id n h = (tt, λ q k. k)
set_remaining_at-Leaves side ((q, os) ∷ ls) p id n h = elim (Bool-cases (eqb_ℤ q p)) [
  | inl e ↦ rw e ((h.0, omega (arith, h.1, length-set_remaining id n os), h.2, h.3), λ r k. k)
  | inr e ↦
      let (rest, behind) = set_remaining_at-Leaves side ls p id n h.3 in
      rw e ((h.0, h.1, behind q h.2, rest), λ r k. k)
]

pub before→Before : (side : Side) (p q : Price) → before side p q ≡ true → Before side p q
before→Before buy p q e = ground arith
before→Before sell p q e = ground arith

-- What comes neither before nor at `q` comes after it.
pub after→Before :
    (side : Side) (p q : Price) → before side p q ≡ false → eqb_ℤ q p ≡ false → Before side q p
after→Before buy p q e f = ground arith
after→Before sell p q e f = ground arith

-- An order at a price that is not negative keeps the order of the map.
pub push_back-Ordered :
    (side : Side) (ls : Levels) (p : Price) (o : RefOrder)
    → pos 0 ≤ℤ p
    → Ordered side ls
    → Ordered side (push_back side ls p o)
      × ((r : Price) → Before side r p → Behind side r ls → Behind side r (push_back side ls p o))
unfolding push_back
push_back-Ordered side [] p o pp h = ((pp, omega arith, tt, tt), λ r k l. k)
push_back-Ordered side ((q, os) ∷ ls) p o pp h = elim (Bool-cases (before side p q)) [
  | inl e ↦ rw e ((pp, omega arith, before→Before side p q e, h), λ r k l. k)
  | inr e ↦ elim (Bool-cases (eqb_ℤ q p)) [
    | inl f ↦ rw (e, f) ((h.0, omega (arith, h.1, length-append os (o ∷ [])), h.2, h.3), λ r k l. l)
    | inr f ↦
        let (rest, behind) = push_back-Ordered side ls p o pp h.3 in
        rw (e, f) ((h.0, h.1, behind q (after→Before side p q e f) h.2, rest), λ r k l. l)
  ]
]
