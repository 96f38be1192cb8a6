-- ===== src/FlatMap/Ends.antt =====
-- Which tables answer a search, and which do not.
use cpp_matching_engine.Base.{
  ℕ, zero, suc, ◌<◌, ◌≡◌, refl, ap, ◌≢◌, inl, inr, List, none, arith, length, ne→==, eq-cases,
}
use cpp_matching_engine.FlatMap.{Slot, FlatMap, empty_key, index_of, running, key_at, probe, find}
use cpp_matching_engine.Spsc.Window.{after, after-cases, distance, distance-after, distance-cases}
use cpp_matching_engine.FlatMap.Inserts.{find-run}

module _ {ℓ} {V : Type ℓ} (blank : V) where
  -- A probe that has an empty slot ahead ends.
  probe-ends :
      (ss : List (Slot V)) (k n i j : ℕ)
      → i < length ss
      → j < length ss
      → key_at blank ss j ≡ empty_key
      → distance (length ss) i j < n
      → probe blank ss k n i ≢ running
  unfolding probe
  probe-ends ss k zero i j hi hj e d = absurd (omega arith)
  probe-ends ss k (suc n) i j hi hj e d = elim (eq-cases i j) [
    | inl same ↦ ground (arith, ap (key_at blank ss) same)
    | inr ne ↦ ground (
      arith,
      probe-ends ss k n (after (length ss) i) j (omega (arith, after-cases (length ss) i hi)) hj e
          (omega (arith, distance-after (length ss) i j hi hj ne)),
    )
  ]

  -- With neither an empty slot nor the key, the loop runs on whatever the rounds.
  pub probe-running :
      (ss : List (Slot V)) (k n i : ℕ)
      → ((j : ℕ) → j < length ss → (key_at blank ss j ≢ empty_key) × (key_at blank ss j ≢ k))
      → i < length ss
      → probe blank ss k n i ≡ running
  unfolding probe
  probe-running ss k zero i h hi = refl
  probe-running ss k (suc n) i h hi =
      rw (ne→== (key_at blank ss i) k (h i hi).1, ne→== (key_at blank ss i) empty_key (h i hi).0)
        (probe-running ss k n (after (length ss) i) h (omega (arith, after-cases (length ss) i hi)))

  -- On a table with an empty slot, `find` returns, if the key's index is in range.
  pub find-returns :
      (m : FlatMap V) (k j : ℕ)
      → index_of m k < length m.slots
      → j < length m.slots
      → key_at blank m.slots j ≡ empty_key
      → find blank m k ≢ none
  unfolding find
  find-returns m k j hi hj e = ground (
    arith,
    probe-ends m.slots k (length m.slots) (index_of m k) j hi hj e
        (omega (arith, distance-cases (length m.slots) (index_of m k) j hi hj)),
  )

  -- On a table with no empty slot, the loop of `find` for a key that it does not hold goes on after any
  -- number of rounds, if the key's index is in range: the call does not return.
  pub find-stuck :
      (m : FlatMap V) (k : ℕ)
      → ((j : ℕ)
          → j < length m.slots
          → (key_at blank m.slots j ≢ empty_key) × (key_at blank m.slots j ≢ k))
      → index_of m k < length m.slots
      → (n : ℕ) → (probe blank m.slots k n (index_of m k) ≡ running) × (find blank m k ≡ none)
  find-stuck m k full h n = (
    probe-running m.slots k n (index_of m k) full h,
    find-run blank m k (probe-running m.slots k (length m.slots) (index_of m k) full h),
  )
