-- ===== src/FlatMap/Inserts.antt =====
-- What `insert` makes of a search.
use cpp_matching_engine.Base.{
  ℕ, zero, suc, ◌%◌, ◌<◌, ◌≡◌, refl, sym, ap, ◌∙◌, ◌*◌, ◌/◌, ◌^◌, u64_mod, inl, inr, List, none,
  some, arith, set, length, length-set, get_or-set_self, get_or-set_ne, eq→==, eq-cases,
}
use cpp_matching_engine.FlatMap.{
  Slot, FlatMap, empty_key, fibonacci, index_of, Probe, found, vacant, running, key_at, value_at,
  probe, probe_free, find, insert,
}
use cpp_matching_engine.Spsc.Window.{after, after-cases}

module _ {ℓ} {V : Type ℓ} (blank : V) where
  -- A probe that ends at the slot `j`, with the key or vacant.
  abbrev LandsAt : ℕ → Probe → Type 0
  LandsAt j (found i) = i ≡ j
  LandsAt j (vacant i) = i ≡ j
  LandsAt j running = ⊥

  -- Where `insert` writes its slot, a later probe for the key ends.
  probe-insert :
      (ss : List (Slot V)) (k n i j : ℕ) (v : V)
      → i < length ss
      → LandsAt j (probe_free blank ss k n i)
      → (j < length ss) × (probe blank (set ss j (record { key = k; value = v })) k n i ≡ found j)
  unfolding probe_free probe
  probe-insert ss k zero i j v hi l = absurd l
  probe-insert ss k (suc n) i j v hi l = elim (eq-cases i j) [
    | inl same ↦ (
      omega (arith, same),
      rw
          (eq→== (key_at blank (set ss j (record { key = k; value = v })) i) k (
            ap (key_at blank (set ss j (record { key = k; value = v }))) same
            ∙ ap (λ (s : Slot V). s.key) (get_or-set_self ss j _ _ (omega (arith, same)))))
          (ap found same),
    )
    | inr ne ↦
        rw
          (
            ap (λ (s : Slot V). s.key)
                (get_or-set_ne ss j i (record { key = k; value = v })
                  (record { key = empty_key; value = blank }) (λ e. ne (sym e))),
            length-set ss j (record { key = k; value = v }),
          )
          (ground (
            arith,
            probe-insert ss k n (after (length ss) i) j v
                (omega (arith, after-cases (length ss) i hi)),
          ))
  ]

  -- The slot in which `insert` ends.
  probe_free-lands :
      (m m' : FlatMap V) (k : ℕ) (v : V)
      → insert blank m k v ≡ some m'
      → (j : ℕ) × LandsAt j (probe_free blank m.slots k (length m.slots) (index_of m k))
        × (m'.slots ≡ set m.slots j (record { key = k; value = v }))
        × (m'.shift ≡ m.shift)
  unfolding insert
  probe_free-lands m m' k v e = go (probe_free blank m.slots k (length m.slots) (index_of m k)) refl
    where
      go :
          (r : Probe)
          → probe_free blank m.slots k (length m.slots) (index_of m k) ≡ r
          → (j : ℕ) × LandsAt j r
            × (m'.slots ≡ set m.slots j (record { key = k; value = v }))
            × (m'.shift ≡ m.shift)
      go (found i) s = (i, refl, ground (arith, s, e), ground (arith, s, e))
      go (vacant i) s = (i, refl, ground (arith, s, e), ground (arith, s, e))
      go running s = absurd (ground (arith, s, e))

  pub find-hit :
      (m : FlatMap V) (k j : ℕ)
      → probe blank m.slots k (length m.slots) (index_of m k) ≡ found j
      → find blank m k ≡ some (some (value_at blank m.slots j))
  unfolding find
  find-hit m k j e = rw (e, find)

  pub find-miss :
      (m : FlatMap V) (k j : ℕ)
      → probe blank m.slots k (length m.slots) (index_of m k) ≡ vacant j
      → find blank m k ≡ some none
  unfolding find
  find-miss m k j e = rw (e, find)

  pub find-run :
      (m : FlatMap V) (k : ℕ)
      → probe blank m.slots k (length m.slots) (index_of m k) ≡ running
      → find blank m k ≡ none
  unfolding find
  find-run m k e = rw (e, find)

  find-written :
      (m m' : FlatMap V) (k j : ℕ) (v : V)
      → index_of m k < length m.slots
      → LandsAt j (probe_free blank m.slots k (length m.slots) (index_of m k))
      → m'.slots ≡ set m.slots j (record { key = k; value = v })
      → m'.shift ≡ m.shift
      → find blank m' k ≡ some (some v)
  unfolding index_of
  find-written m m' k j v h lands slots shift =
      let slot : Slot V = record { key = k; value = v } in
      let at = probe-insert m.slots k (length m.slots) (index_of m k) j v h lands in
      find-hit m' k j (
        ap (λ ss. probe blank ss k (length ss) (((k * fibonacci) % u64_mod) / 2 ^ m'.shift)) slots
        ∙ ap
            (λ n. probe blank (set m.slots j slot) k n (((k * fibonacci) % u64_mod) / 2 ^ m'.shift))
            (length-set m.slots j slot)
        ∙ ap
            (λ s.
              probe blank (set m.slots j slot) k (length m.slots)
                (((k * fibonacci) % u64_mod) / 2 ^ s))
            shift
        ∙ at.1)
      ∙ ap (λ ss. some (some (value_at blank ss j))) slots
      ∙ ap (λ (s : Slot V). some (some s.value)) (get_or-set_self m.slots j slot _ at.0)

  -- Where the key's index is in range: after an insertion that returns, `find` of the key gives the value that was inserted.
  pub find-insert :
      (m m' : FlatMap V) (k : ℕ) (v : V)
      → index_of m k < length m.slots
      → insert blank m k v ≡ some m'
      → find blank m' k ≡ some (some v)
  find-insert m m' k v h e =
      let r = probe_free-lands m m' k v e in find-written m m' k r.0 v h r.1 r.2 r.3
