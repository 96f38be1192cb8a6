-- ===== src/Base/Dict/Laws.antt =====
-- Lookups after a change of the map.
use cpp_matching_engine.Base.{
  ℕ, ◌≡◌, ◌≢◌, refl, sym, inl, inr, List, [], ◌∷◌, none, some, arith, ◌==◌, Bool-cases, eq-cases,
  ==→ne, eq→==, ne→==, NotIn, Distinct,
}
use cpp_matching_engine.Base.Dict.{find, erase, emplace, assign}

module _ {ℓ} {V : Type ℓ} where
  abbrev pub keys : List (ℕ × V) → List ℕ
  keys [] = []
  keys ((j, v) ∷ m) = j ∷ keys m

  pub find-erase_ne : (k j : ℕ) (m : List (ℕ × V)) → k ≢ j → find j (erase k m) ≡ find j m
  unfolding find erase
  find-erase_ne k j [] ne = refl
  find-erase_ne k j ((i, v) ∷ m) ne = elim (eq-cases i k) [
    | inl e ↦ rw (eq→== i k e, ne→== i j (λ f. ne (omega (arith, e, f)))) refl
    | inr e ↦ rw (ne→== i k e) (elim (eq-cases i j) [
      | inl f ↦ rw (eq→== i j f) refl
      | inr f ↦ rw (ne→== i j f) (find-erase_ne k j m ne)
    ])
  ]

  pub find-NotIn : (k : ℕ) (m : List (ℕ × V)) → NotIn k (keys m) → find k m ≡ none
  unfolding find
  find-NotIn k [] n = refl
  find-NotIn k ((i, v) ∷ m) n = rw (ne→== i k (λ e. n.0 (sym e))) (find-NotIn k m n.1)

  pub NotIn-find : (k : ℕ) (m : List (ℕ × V)) → find k m ≡ none → NotIn k (keys m)
  unfolding find
  NotIn-find k [] e = tt
  NotIn-find k ((i, v) ∷ m) e = elim (eq-cases i k) [
    | inl f ↦ absurd (ground (arith, e, f))
    | inr f ↦ ((λ g. f (sym g)), NotIn-find k m (ground (arith, e, f)))
  ]

  pub find-erase_self : (k : ℕ) (m : List (ℕ × V)) → Distinct (keys m) → find k (erase k m) ≡ none
  unfolding find erase
  find-erase_self k [] d = refl
  find-erase_self k ((i, v) ∷ m) d = elim (eq-cases i k) [
    | inl e ↦ rw (eq→== i k e) (find-NotIn k m (rw⁻¹ e d.0))
    | inr e ↦ rw (ne→== i k e) (rw (ne→== i k e) (find-erase_self k m d.1))
  ]

  pub NotIn-erase : (x k : ℕ) (m : List (ℕ × V)) → NotIn x (keys m) → NotIn x (keys (erase k m))
  unfolding erase
  NotIn-erase x k [] n = tt
  NotIn-erase x k ((i, v) ∷ m) n = elim (Bool-cases (i == k)) [
    | inl e ↦ rw e n.1
    | inr e ↦ rw e (n.0, NotIn-erase x k m n.1)
  ]

  -- What is not there is not there after a removal.
  pub find-erase-none : (k j : ℕ) (m : List (ℕ × V)) → find k m ≡ none → find k (erase j m) ≡ none
  find-erase-none k j m e = find-NotIn k (erase j m) (NotIn-erase k j m (NotIn-find k m e))

  pub erase-Distinct : (k : ℕ) (m : List (ℕ × V)) → Distinct (keys m) → Distinct (keys (erase k m))
  unfolding erase
  erase-Distinct k [] d = tt
  erase-Distinct k ((i, v) ∷ m) d = elim (Bool-cases (i == k)) [
    | inl e ↦ rw e d.1
    | inr e ↦ rw e (NotIn-erase i k m d.0, erase-Distinct k m d.1)
  ]

  -- The two ways of inserting agree on a fresh key.
  pub assign-fresh :
      (k : ℕ) (v : V) (m : List (ℕ × V)) → NotIn k (keys m) → assign k v m ≡ emplace k v m
  unfolding assign emplace
  assign-fresh k v [] n = refl
  assign-fresh k v ((i, w) ∷ m) n =
      let ne = ne→== i k (λ e. n.0 (sym e)) in rw ne (rw (assign-fresh k v m n.1) refl)

  pub find-emplace_self :
      (k : ℕ) (v : V) (m : List (ℕ × V)) → NotIn k (keys m) → find k (emplace k v m) ≡ some v
  unfolding find emplace
  find-emplace_self k v [] n = rw (eq→== k k refl) refl
  find-emplace_self k v ((i, w) ∷ m) n =
      let ne = ne→== i k (λ e. n.0 (sym e)) in rw ne (rw ne (find-emplace_self k v m n.1))

  pub find-emplace_ne :
      (k j : ℕ) (v : V) (m : List (ℕ × V)) → k ≢ j → find j (emplace k v m) ≡ find j m
  unfolding find emplace
  find-emplace_ne k j v [] ne = rw (ne→== k j ne) refl
  find-emplace_ne k j v ((i, w) ∷ m) ne = elim (Bool-cases (i == k)) [
    | inl e ↦ rw e refl
    | inr e ↦ rw e (elim (Bool-cases (i == j)) [
      | inl f ↦ rw f refl
      | inr f ↦ rw f (find-emplace_ne k j v m ne)
    ])
  ]

  NotIn-emplace :
      (x k : ℕ) (v : V) (m : List (ℕ × V))
      → x ≢ k
      → NotIn x (keys m)
      → NotIn x (keys (emplace k v m))
  unfolding emplace
  NotIn-emplace x k v [] ne n = (ne, tt)
  NotIn-emplace x k v ((i, w) ∷ m) ne n = elim (Bool-cases (i == k)) [
    | inl e ↦ rw e n
    | inr e ↦ rw e (n.0, NotIn-emplace x k v m ne n.1)
  ]

  pub emplace-Distinct :
      (k : ℕ) (v : V) (m : List (ℕ × V)) → Distinct (keys m) → Distinct (keys (emplace k v m))
  unfolding emplace
  emplace-Distinct k v [] d = (tt, tt)
  emplace-Distinct k v ((i, w) ∷ m) d = elim (Bool-cases (i == k)) [
    | inl e ↦ rw e d
    | inr e ↦ rw e (NotIn-emplace i k v m (==→ne i k e) d.0, emplace-Distinct k v m d.1)
  ]
