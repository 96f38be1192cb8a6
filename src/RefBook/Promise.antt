-- ===== src/RefBook/Promise.antt =====
-- What `can_fill` of the reference book promises about the front order.
use cpp_matching_engine.Base.{
  ℕ, ◌<◌, ◌≤◌, ◌≡◌, refl, sym, ◌∙◌, ◌⊎◌, inl, inr, Bool, true, false, not, [], ◌∷◌, arith,
  Bool-cases, ◌||◌, leb, if◌then◌else◌, add64,
}
use cpp_matching_engine.Types.{OrderId, Quantity, Price, OwnerId, Side}
use cpp_matching_engine.RefBook.State.{RefOrder, Queue, Levels, keep_level}
use cpp_matching_engine.RefBook.{beyond, self_trade, scan_level, can_fill_in}

pub lt-cases : (a n : ℕ) → (a < n) ⊎ (n ≤ a)
lt-cases a n = ground arith

lt→leb : (a n : ℕ) → a < n → leb n a ≡ false
lt→leb a n h = ground (arith, h)

module _ (in_id : OrderId) (side : Side) (lim : Price) (owner : OwnerId) (has_sink : Bool)
    (qty : Quantity) where
  abbrev behind : Queue → Levels → Quantity → Bool
  behind os ls avail =
      let c = scan_level os owner avail in
      if not c.0 || leb qty c.1 then leb qty c.1 else can_fill_in ls side lim qty owner c.1

  front_own :
      (p : Price) (o : RefOrder) (os : Queue) (ls : Levels) (avail : Quantity)
      → beyond side lim p ≡ false
      → self_trade owner o.owner ≡ true
      → can_fill_in ((p, o ∷ os) ∷ ls) side lim qty owner avail ≡ leb qty avail
  unfolding can_fill_in scan_level
  front_own p o os ls avail c d = rw c (rw d refl)

  front_other :
      (p : Price) (o : RefOrder) (os : Queue) (ls : Levels) (avail : Quantity)
      → beyond side lim p ≡ false
      → self_trade owner o.owner ≡ false
      → can_fill_in ((p, o ∷ os) ∷ ls) side lim qty owner avail
        ≡ behind os ls (add64 avail o.remaining)
  unfolding can_fill_in scan_level
  front_other p o os ls avail c d = rw c (rw d refl)

  behind-keep :
      (p : Price) (os : Queue) (ls : Levels) (avail : Quantity)
      → beyond side lim p ≡ false
      → leb qty avail ≡ false
      → can_fill_in (keep_level p os ls) side lim qty owner avail ≡ behind os ls avail
  unfolding can_fill_in scan_level
  behind-keep p [] ls avail c few = rw few refl
  behind-keep p (x ∷ os) ls avail c few = rw c refl

  front-beyond :
      (p : Price) (os : Queue) (ls : Levels) (avail : Quantity)
      → beyond side lim p ≡ true
      → can_fill_in ((p, os) ∷ ls) side lim qty owner avail ≡ leb qty avail
  unfolding can_fill_in
  front-beyond p os ls avail c = rw c refl

  -- At a level where nothing stops it, `can_fill` goes on behind the first order.
  pub promise-front :
      (p : Price) (o : RefOrder) (os : Queue) (ls : Levels) (avail : Quantity)
      → avail < qty
      → can_fill_in ((p, o ∷ os) ∷ ls) side lim qty owner avail ≡ true
      → (beyond side lim p ≡ false)
        × (self_trade owner o.owner ≡ false)
        × (add64 avail o.remaining < qty
            → can_fill_in (keep_level p os ls) side lim qty owner (add64 avail o.remaining) ≡ true)
  promise-front p o os ls avail h e = elim (Bool-cases (beyond side lim p)) [
    | inl c ↦ absurd (ground (arith, sym (front-beyond p (o ∷ os) ls avail c) ∙ e, h))
    | inr c ↦ elim (Bool-cases (self_trade owner o.owner)) [
      | inl d ↦ absurd (ground (arith, sym (front_own p o os ls avail c d) ∙ e, h))
      | inr d ↦ (
        c,
        d,
        λ less.
            behind-keep p os ls (add64 avail o.remaining) c
              (lt→leb (add64 avail o.remaining) qty less)
            ∙ sym (front_other p o os ls avail c d)
            ∙ e,
      )
    ]
  ]
