-- ===== src/Spsc/Window.antt =====
-- The slots of the ring from one index up to another.
use cpp_matching_engine.Base.{
  ℕ, suc, ◌+◌, ◌-◌, ◌%◌, ◌≤◌, ◌<◌, ◌≡◌, sym, ap, ◌∙◌, ◌≢◌, ◌⊎◌, inl, inr, List, [], ◌∷◌, ◌++◌, some,
  arith, get_elem?, set, length, get_elem?-set_self, get_elem?-set_ne,
}
use native.Mathlib.Decide.{dec_lt}
use native.Mathlib.Nat.{mod-eq_of_lt, mod-eq-sub-mod}

-- The index behind `i`, in a ring of `c` slots.
abbrev pub after : ℕ → ℕ → ℕ
after c i = (i + 1) % c

pub after-cases :
    (c i : ℕ) → i < c → ((i + 1 < c) × (after c i ≡ i + 1)) ⊎ ((i + 1 ≡ c) × (after c i ≡ 0))
after-cases c i h = elim (dec_lt (i + 1) c) [
  | yes p ↦ inl (p, mod-eq_of_lt p)
  | no p ↦ inr (
    omega arith,
    omega (
      arith,
      mod-eq-sub-mod {n = i + 1} {m = c} (omega arith),
      mod-eq_of_lt {n = i + 1 - c} {m = c} (omega arith),
    ),
  )
]

-- How many steps lead from `h` to `t`.
abbrev pub distance : ℕ → ℕ → ℕ → ℕ
distance c h t = (t + c - h) % c

pub distance-cases :
    (c h t : ℕ)
    → h < c
    → t < c
    → ((h ≤ t) × (distance c h t ≡ t - h)) ⊎ ((t < h) × (distance c h t ≡ t + c - h))
distance-cases c h t hh ht = elim (dec_lt t h) [
  | yes p ↦ inr (p, mod-eq_of_lt {n = t + c - h} {m = c} (omega arith))
  | no p ↦ inl (
    omega arith,
    omega (
      arith,
      mod-eq-sub-mod {n = t + c - h} {m = c} (omega arith),
      mod-eq_of_lt {n = t + c - h - c} {m = c} (omega arith),
    ),
  )
]

pub distance_self : (c h : ℕ) → h < c → distance c h h ≡ 0
distance_self c h hh = omega (arith, distance-cases c h h hh hh)

pub distance-zero : (c h t : ℕ) → h < c → t < c → distance c h t ≡ 0 → h ≡ t
distance-zero c h t hh ht e = omega (arith, distance-cases c h t hh ht)

-- A step at the near end.
pub distance-after :
    (c h t : ℕ) → h < c → t < c → h ≢ t → distance c h t ≡ suc (distance c (after c h) t)
distance-after c h t hh ht ne =
    omega (arith, after-cases c h hh, distance-cases c h t hh ht, distance-cases c (after c h) t)

-- A step at the far end, if it does not close the ring.
pub distance-extend :
    (c h t : ℕ) → h < c → t < c → after c t ≢ h → distance c h (after c t) ≡ suc (distance c h t)
distance-extend c h t hh ht ne =
    omega (arith, after-cases c t ht, distance-cases c h t hh ht, distance-cases c h (after c t) hh)

module _ {ℓ} {A : Type ℓ} where
  -- The slots of `n` steps from `h` on hold those items.
  abbrev pub Holds : List A → ℕ → ℕ → List A → Type ℓ
  Holds buf c h [] = Unit
  Holds buf c h (x ∷ xs) = (get_elem? buf h ≡ some x) × Holds buf c (after c h) xs

  -- A write at the far end puts its item behind the others.
  pub Holds-push :
      (buf : List A) (c h t : ℕ) (xs : List A) (x : A)
      → h < c
      → t < c
      → length buf ≡ c
      → distance c h t ≡ length xs
      → Holds buf c h xs
      → Holds (set buf t x) c h (xs ++ x ∷ [])
  Holds-push buf c h t [] x hh ht len e w =
      let same = distance-zero c h t hh ht e in
      (ap (get_elem? (set buf t x)) same ∙ get_elem?-set_self buf t x (omega arith), tt)
  Holds-push buf c h t (y ∷ ys) x hh ht len e w = (
    get_elem?-set_ne buf t h x (λ same. omega (arith, distance-cases c h t hh ht, e)) ∙ w.0,
    Holds-push buf c (after c h) t ys x (omega (arith, after-cases c h hh)) ht len
        (omega (
          arith,
          distance-after c h t hh ht (λ same. omega (arith, distance-cases c h t hh ht, e)),
        ))
        w.1,
  )

  -- A write at the far end does not touch the items.
  pub Holds-store :
      (buf : List A) (c h t : ℕ) (xs : List A) (x : A)
      → h < c
      → t < c
      → distance c h t ≡ length xs
      → Holds buf c h xs
      → Holds (set buf t x) c h xs
  Holds-store buf c h t [] x hh ht e w = tt
  Holds-store buf c h t (y ∷ ys) x hh ht e w =
      let ne : h ≢ t = λ same. omega (arith, distance-cases c h t hh ht, e) in
      (
        get_elem?-set_ne buf t h x (λ same. ne (sym same)) ∙ w.0,
        Holds-store buf c (after c h) t ys x (omega (arith, after-cases c h hh)) ht
            (omega (arith, distance-after c h t hh ht ne)) w.1,
      )

  -- An item that is already stored at the far end joins the others.
  pub Holds-extend :
      (buf : List A) (c h t : ℕ) (xs : List A) (x : A)
      → h < c
      → t < c
      → distance c h t ≡ length xs
      → get_elem? buf t ≡ some x
      → Holds buf c h xs
      → Holds buf c h (xs ++ x ∷ [])
  Holds-extend buf c h t [] x hh ht e at w =
      (ap (get_elem? buf) (distance-zero c h t hh ht e) ∙ at, tt)
  Holds-extend buf c h t (y ∷ ys) x hh ht e at w =
      let ne : h ≢ t = λ same. omega (arith, distance-cases c h t hh ht, e) in
      (
        w.0,
        Holds-extend buf c (after c h) t ys x (omega (arith, after-cases c h hh)) ht
            (omega (arith, distance-after c h t hh ht ne)) at w.1,
      )
