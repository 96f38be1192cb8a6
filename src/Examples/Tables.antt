-- ===== src/Examples/Tables.antt =====
-- The table of include/lob/flat_map.hpp at concrete inputs.
use cpp_matching_engine.Base.{
  ℕ, zero, suc, sub64, ◌≡◌, ◌≢◌, refl, ◌<◌, true, [], ◌∷◌, none, some, arith,
}
use cpp_matching_engine.FlatMap.{
  FlatMap, empty_key, tombstone, index_of, find, insert, erase, key_at, probe, running,
}
use cpp_matching_engine.FlatMap.Ends.{find-returns, find-stuck}
use cpp_matching_engine.FlatMap.Inserts.{find-insert}
use cpp_matching_engine.FlatMap.Erases.{find-erase_ne}

-- Two slots, so that the index is the hash's top bit.
abbrev table : ℕ → ℕ → FlatMap ℕ
table a b = record {
  slots = record { key = a; value = 10 } ∷ record { key = b; value = 20 } ∷ [];
  shift = 63;
  count = 0;
}

abbrev with_five : FlatMap ℕ
with_five = record {
  slots = record { key = 5; value = 55 } ∷ record { key = 7; value = 20 } ∷ [];
  shift = 63;
  count = 1;
}

find-insert_example : find 0 with_five 5 ≡ some (some 55)
unfolding index_of insert
find-insert_example = find-insert 0 (table 0 7) with_five 5 55 (omega arith) refl

abbrev without_five : FlatMap ℕ
without_five = record (table tombstone 7) { count = sub64 0 1 }

find-erase_ne_example : find 0 without_five 7 ≡ find 0 (table 5 7) 7
unfolding index_of erase
find-erase_ne_example =
    find-erase_ne 0 (table 5 7) without_five 5 7 true (omega arith) (λ e. omega (arith, e))
      (λ e. omega (arith, e)) (λ e. omega (arith, e)) refl

find-returns_example : find 0 (table 7 0) 5 ≢ none
unfolding index_of
find-returns_example = find-returns 0 (table 7 0) 5 1 (omega arith) (omega arith) refl

no_empty_slot :
    (j : ℕ)
    → j < 2
    → (key_at 0 (table 7 tombstone).slots j ≢ empty_key)
      × (key_at 0 (table 7 tombstone).slots j ≢ 5)
no_empty_slot zero h = ((λ e. omega (arith, e)), λ e. omega (arith, e))
no_empty_slot (suc zero) h = ((λ e. omega (arith, e)), λ e. omega (arith, e))
no_empty_slot (suc (suc j)) h = absurd (omega (arith, h))

find-stuck_example :
    (probe 0 (table 7 tombstone).slots 5 9 (index_of (table 7 tombstone) 5) ≡ running)
    × (find 0 (table 7 tombstone) 5 ≡ none)
unfolding index_of
find-stuck_example = find-stuck 0 (table 7 tombstone) 5 no_empty_slot (omega arith) 9
