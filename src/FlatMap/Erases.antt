-- ===== src/FlatMap/Erases.antt =====
-- What `erase` makes of a search.
use cpp_matching_engine.Base.{
  ℕ, zero, suc, ◌%◌, ◌<◌, ◌≡◌, refl, sym, ap, ◌∙◌, ◌*◌, ◌/◌, ◌^◌, u64_mod, ◌≢◌, inl, inr, List,
  Bool, some, arith, ◌==◌, set, length, length-set, get_or-set_self, get_or-set_ne, ne→==, eq-cases,
  Bool-cases, ==→eq,
}
use cpp_matching_engine.FlatMap.{
  Slot, FlatMap, empty_key, tombstone, fibonacci, index_of, Probe, found, vacant, running, key_at,
  value_at, probe, find, erase,
}
use cpp_matching_engine.Spsc.Window.{after, after-cases}
use cpp_matching_engine.FlatMap.Inserts.{find-hit, find-miss, find-run}

module _ {ℓ} {V : Type ℓ} (blank : V) where
  -- The slot in which a probe finds its key holds the key.
  probe-key :
      (ss : List (Slot V)) (k n i j : ℕ) → probe blank ss k n i ≡ found j → key_at blank ss j ≡ k
  unfolding probe
  probe-key ss k zero i j e = absurd (cc)
  probe-key ss k (suc n) i j e = elim (Bool-cases (key_at blank ss i == k)) [
    | inl hit ↦
        let same : i ≡ j = ground (arith, e, hit) in
        ap (key_at blank ss) (sym same) ∙ ==→eq (key_at blank ss i) k hit
    | inr miss ↦ ground (arith, e, miss, probe-key ss k n (after (length ss) i) j)
  ]

  -- A tombstone in place of another key changes no probe.
  probe-tombstone :
      (ss : List (Slot V)) (k n i j : ℕ) (v : V)
      → j < length ss
      → key_at blank ss j ≢ k
      → key_at blank ss j ≢ empty_key
      → tombstone ≢ k
      → probe blank (set ss j (record { key = tombstone; value = v })) k n i ≡ probe blank ss k n i
  unfolding probe
  probe-tombstone ss k zero i j v lt other full live = refl
  probe-tombstone ss k (suc n) i j v lt other full live =
      let slot : Slot V = record { key = tombstone; value = v } in
      let ih = probe-tombstone ss k n (after (length ss) i) j v lt other full live in
      elim (eq-cases i j) [
        | inl same ↦
            let now : key_at blank (set ss j slot) i ≡ tombstone =
              ap (key_at blank (set ss j slot)) same
              ∙ ap (λ (s : Slot V). s.key) (get_or-set_self ss j slot _ lt) in
            let was : key_at blank ss i ≡ key_at blank ss j = ap (key_at blank ss) same in
            rw
              (
                now,
                was,
                ne→== tombstone k live,
                ne→== (key_at blank ss j) k other,
                ne→== (key_at blank ss j) empty_key full,
                length-set ss j slot,
              )
              ih
        | inr ne ↦
            let kept : key_at blank (set ss j slot) i ≡ key_at blank ss i =
              ap (λ (s : Slot V). s.key) (get_or-set_ne ss j i slot _ (λ e. ne (sym e))) in
            rw (kept, length-set ss j slot, ih) refl
      ]

  probe-lt :
      (ss : List (Slot V)) (k n i j : ℕ)
      → i < length ss
      → probe blank ss k n i ≡ found j
      → j < length ss
  unfolding probe
  probe-lt ss k zero i j hi e = absurd (ground (arith, e))
  probe-lt ss k (suc n) i j hi e =
      ground (
        arith,
        probe-lt ss k n (after (length ss) i) j (omega (arith, after-cases (length ss) i hi)),
      )

  -- `find` of another key, in a table where one slot has become a tombstone.
  find-tombstone :
      (m m' : FlatMap V) (j i : ℕ) (v : V)
      → i < length m.slots
      → key_at blank m.slots i ≢ j
      → key_at blank m.slots i ≢ empty_key
      → tombstone ≢ j
      → m'.slots ≡ set m.slots i (record { key = tombstone; value = v })
      → m'.shift ≡ m.shift
      → find blank m' j ≡ find blank m j
  unfolding find index_of
  find-tombstone m m' j i v lt other full live slots shift =
      go (probe blank m.slots j (length m.slots) (index_of m j)) refl
    where
      slot : Slot V
      slot = record { key = tombstone; value = v }

      same :
          probe blank m'.slots j (length m'.slots) (index_of m' j)
          ≡ probe blank m.slots j (length m.slots) (index_of m j)
      same =
          ap (λ ss. probe blank ss j (length ss) (((j * fibonacci) % u64_mod) / 2 ^ m'.shift)) slots
          ∙ ap
              (λ n.
                probe blank (set m.slots i slot) j n (((j * fibonacci) % u64_mod) / 2 ^ m'.shift))
              (length-set m.slots i slot)
          ∙ ap
              (λ s.
                probe blank (set m.slots i slot) j (length m.slots)
                  (((j * fibonacci) % u64_mod) / 2 ^ s))
              shift
          ∙ probe-tombstone m.slots j (length m.slots) (index_of m j) i v lt other full live

      go :
          (r : Probe)
          → probe blank m.slots j (length m.slots) (index_of m j) ≡ r
          → find blank m' j ≡ find blank m j
      go (found k) e =
          find-hit blank m' j k (same ∙ e)
          ∙ ap (λ ss. some (some (value_at blank ss k))) slots
          ∙ ap (λ (s : Slot V). some (some s.value))
              (get_or-set_ne m.slots i k slot _
                (λ q. other (ap (key_at blank m.slots) q ∙ probe-key m.slots j _ _ k e)))
          ∙ sym (find-hit blank m j k e)
      go (vacant k) e = find-miss blank m' j k (same ∙ e) ∙ sym (find-miss blank m j k e)
      go running e = find-run blank m' j (same ∙ e) ∙ sym (find-run blank m j e)

  -- An `erase` that returns leaves what `find` gives for every other key, where the erased key is not the
  -- empty marker, the other one not the tombstone, and the index of the erased key is in range.
  pub find-erase_ne :
      (m m' : FlatMap V) (k j : ℕ) (done : Bool)
      → index_of m k < length m.slots
      → k ≢ empty_key
      → tombstone ≢ j
      → k ≢ j
      → erase blank m k ≡ some (m', done)
      → find blank m' j ≡ find blank m j
  unfolding erase
  find-erase_ne m m' k j done h full live ne e =
      go (probe blank m.slots k (length m.slots) (index_of m k)) refl
    where
      go :
          (r : Probe)
          → probe blank m.slots k (length m.slots) (index_of m k) ≡ r
          → find blank m' j ≡ find blank m j
      go (found i) s =
          let holds = probe-key m.slots k (length m.slots) (index_of m k) i s in
          find-tombstone m m' j i (value_at blank m.slots i)
            (probe-lt m.slots k (length m.slots) (index_of m k) i h s) (λ q. ne (sym holds ∙ q))
            (λ q. full (sym holds ∙ q)) live (ground (arith, s, e)) (ground (arith, s, e))
      go (vacant i) s = ap (λ t. find blank t j) (ground (arith, s, e))
      go running s = absurd (ground (arith, s, e))
