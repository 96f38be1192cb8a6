-- ===== src/Refine/Tops.antt =====
-- The best price of a side, said of the ticks that hold orders of that side.
use cpp_matching_engine.Base.{
  ℕ, zero, suc, ◌+◌, ◌<◌, ◌≤◌, ◌≡◌, refl, sym, ap, ◌∙◌, subst, ◌⊎◌, inl, inr, Bool, true, false,
  List, [], ◌∷◌, Bool-cases, arith, get_or,
}
use cpp_matching_engine.Base.Int.{pos, negsuc, ◌≤ℤ◌, eqb_ℤ_refl, pos_part}
use cpp_matching_engine.Types.{Price, Side, buy, sell}
use cpp_matching_engine.OrderBook.State.{PriceLevel, blank_level, is_empty, no_price}
use cpp_matching_engine.OrderBook.Levels.{scan_down, scan_up}
use cpp_matching_engine.RefBook.State.{Levels, queue_at, first_price}
use cpp_matching_engine.RefBook.Ordered.{Before, Ordered}
use cpp_matching_engine.Refine.Orders.{filled}
use cpp_matching_engine.Refine.Queues.{queue_at-Behind}

-- Tick `u` has priority over tick `t`.
abbrev pub Earlier : Side → ℕ → ℕ → Type 0
Earlier buy u t = t < u
Earlier sell u t = u < t

-- `x` is the best of the ticks at which `F` holds, or the sentinel if it holds nowhere.
abbrev pub Top : Side → (ℕ → Bool) → Price → Type 0
Top sd F x =
    ((x ≡ no_price) × ((t : ℕ) → F t ≡ false))
    ⊎ ((t : ℕ) × (x ≡ pos t) × (F t ≡ true) × ((u : ℕ) → Earlier sd u t → F u ≡ false))

pub true-false {ℓ} : {A : Type ℓ} (b : Bool) → b ≡ true → b ≡ false → A
true-false b e f = absurd (cc)

pub Earlier-cases : (sd : Side) (t u : ℕ) → (t ≡ u) ⊎ Earlier sd t u ⊎ Earlier sd u t
Earlier-cases buy t u = ground arith
Earlier-cases sell t u = ground arith

pub Top-unique : (sd : Side) (F : ℕ → Bool) (x y : Price) → Top sd F x → Top sd F y → x ≡ y
Top-unique sd F x y (inl (ex, nowhere)) (inl (ey, nowhere')) = ex ∙ sym ey
Top-unique sd F x y (inl (ex, nowhere)) (inr (u, ey, there, first)) =
    true-false (F u) there (nowhere u)
Top-unique sd F x y (inr (t, ex, there, first)) (inl (ey, nowhere)) =
    true-false (F t) there (nowhere t)
Top-unique sd F x y (inr (t, ex, there, first)) (inr (u, ey, there', first')) =
    elim (Earlier-cases sd t u) [
      | inl e ↦ ex ∙ ap pos e ∙ sym ey
      | inr (inl h) ↦ true-false (F t) there (first' t h)
      | inr (inr h) ↦ true-false (F u) there' (first u h)
    ]

pub Top-cong :
    (sd : Side) (F G : ℕ → Bool) (x : Price) → ((t : ℕ) → F t ≡ G t) → Top sd F x → Top sd G x
Top-cong sd F G x e (inl (ex, nowhere)) = inl (ex, λ t. sym (e t) ∙ nowhere t)
Top-cong sd F G x e (inr (t, ex, there, first)) =
    inr (t, ex, sym (e t) ∙ there, λ u h. sym (e u) ∙ first u h)

-- A price that is not negative is a tick.
pub tick-of : (p : Price) → pos 0 ≤ℤ p → p ≡ pos (pos_part p)
tick-of (pos n) h = refl
tick-of (negsuc n) h = absurd (omega (arith, h))

pub Before-pos : (sd : Side) (u t : ℕ) → Earlier sd u t → Before sd (pos u) (pos t)
Before-pos buy u t h = omega (arith, h)
Before-pos sell u t h = omega (arith, h)

abbrev pub has_queue : Levels → ℕ → Bool
has_queue ls t = filled (queue_at ls (pos t))

-- The first price of an ordered map is the best of its ticks.
pub first_price-Top :
    (sd : Side) (ls : Levels) → Ordered sd ls → Top sd (has_queue ls) (first_price ls)
unfolding queue_at
first_price-Top sd [] o = inl (refl, λ t. refl)
first_price-Top sd ((p, []) ∷ ls) o = absurd (omega (arith, o.1))
first_price-Top sd ((p, o ∷ os) ∷ ls) ord =
    let e = tick-of p ord.0 in
    inr (
      pos_part p,
      e,
      subst (λ x. filled (queue_at ((p, o ∷ os) ∷ ls) x) ≡ true) e (rw (eqb_ℤ_refl p) refl),
      λ u h. ap filled (
          queue_at-Behind sd ((p, o ∷ os) ∷ ls) (pos u) ord
            (subst (Before sd (pos u)) (sym e) (Before-pos sd u (pos_part p) h))),
    )

pub lt-cases : (a b : ℕ) → (a < b) ⊎ (b ≤ a)
lt-cases a b = ground arith

-- `F` holds at exactly the ticks up to `p` whose level is not empty.
pub scan_down-Top :
    (ls : List PriceLevel) (F : ℕ → Bool) (p : ℕ)
    → ((t : ℕ) → t ≤ p → is_empty (get_or ls t blank_level) ≡ true → F t ≡ false)
    → ((t : ℕ) → t ≤ p → is_empty (get_or ls t blank_level) ≡ false → F t ≡ true)
    → ((t : ℕ) → p < t → F t ≡ false)
    → Top buy F (scan_down ls p)
unfolding scan_down
scan_down-Top ls F zero empty full above = elim (Bool-cases (is_empty (get_or ls 0 blank_level))) [
  | inl e ↦ rw e (
      inl (
        refl,
        λ t. elim (lt-cases 0 t) [
          | inl h ↦ above t h
          | inr h ↦ ap F (omega (arith, h)) ∙ empty 0 (omega arith) e
        ],
      ))
  | inr e ↦ rw e (inr (0, refl, full 0 (omega arith) e, λ u h. above u h))
]
scan_down-Top ls F (suc p) empty full above =
    elim (Bool-cases (is_empty (get_or ls (suc p) blank_level))) [
      | inl e ↦ rw e (
          scan_down-Top ls F p (λ t h. empty t (omega (arith, h)))
            (λ t h. full t (omega (arith, h)))
            (λ t h. elim (lt-cases (suc p) t) [
              | inl k ↦ above t k
              | inr k ↦ ap F (omega (arith, h, k)) ∙ empty (suc p) (omega arith) e
            ]))
      | inr e ↦ rw e (inr (suc p, refl, full (suc p) (omega arith) e, λ u h. above u h))
    ]

-- `F` holds at exactly the ticks from `p` on whose level is not empty.
pub scan_up-Top :
    (ls : List PriceLevel) (F : ℕ → Bool) (n p : ℕ)
    → ((t : ℕ) → p ≤ t → is_empty (get_or ls t blank_level) ≡ true → F t ≡ false)
    → ((t : ℕ) → p ≤ t → is_empty (get_or ls t blank_level) ≡ false → F t ≡ true)
    → ((t : ℕ) → t < p → F t ≡ false)
    → ((t : ℕ) → n + p ≤ t → F t ≡ false)
    → Top sell F (scan_up ls n p)
unfolding scan_up
scan_up-Top ls F zero p empty full below past =
    inl (refl, λ t. elim (lt-cases t p) [ inl h ↦ below t h | inr h ↦ past t (omega (arith, h)) ])
scan_up-Top ls F (suc n) p empty full below past =
    elim (Bool-cases (is_empty (get_or ls p blank_level))) [
      | inl e ↦ rw e (
          scan_up-Top ls F n (p + 1) (λ t h. empty t (omega (arith, h)))
            (λ t h. full t (omega (arith, h)))
            (λ t h. elim (lt-cases t p) [
              | inl k ↦ below t k
              | inr k ↦ ap F (omega (arith, h, k)) ∙ empty p (omega arith) e
            ])
            (λ t h. past t (omega (arith, h))))
      | inr e ↦ rw e (inr (p, refl, full p (omega arith) e, λ u h. below u h))
    ]
