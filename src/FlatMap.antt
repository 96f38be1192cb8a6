-- ===== src/FlatMap.antt =====
-- include/lob/flat_map.hpp: the open-addressed table with linear probing and tombstones, at 64-bit
-- keys (OrderId). A slot is read by its index, and the masked index is taken modulo the capacity,
-- which is a power of two.
pub mod Ends
pub mod Inserts
pub mod Erases
use cpp_matching_engine.Base.{
  ℕ, zero, suc, ◌+◌, ◌-◌, ◌*◌, ◌/◌, ◌%◌, ◌^◌, Bool, true, false, List, Option, none, some, ◌==◌,
  ◌||◌, ltb, if◌then◌else◌, get_or, set, length, replicate, u64_mod, add64, sub64,
}

abbrev pub empty_key : ℕ
empty_key = 0

-- `static_cast<Key>(-1)`
abbrev pub tombstone : ℕ
tombstone = u64_mod - 1

pub record Slot {ℓ} (V : Type ℓ) : Type ℓ where
  pub key : ℕ
  pub value : V

pub record FlatMap {ℓ} (V : Type ℓ) : Type ℓ where
  pub slots : List (Slot V)
  pub shift : ℕ
  pub count : ℕ

-- `while (cap < expected_count * 2) cap <<= 1;`, with fuel for the doublings.
unfoldable pub grow : ℕ → ℕ → ℕ → ℕ
grow zero cap wanted = cap
grow (suc n) cap wanted = let rest = grow n (2 * cap) wanted in if ltb cap wanted then rest else cap

-- `for (v = cap; v > 1; v >>= 1) --shift_;`, with fuel for the halvings.
unfoldable pub log2 : ℕ → ℕ → ℕ
log2 zero v = 0
log2 (suc n) v = let rest = suc (log2 n (v / 2)) in if ltb 1 v then rest else 0

-- The fuel is a word's width: a capacity doubles and halves at most so often.
unfoldable pub capacity_for : ℕ → ℕ
unfolding grow
capacity_for expected = grow 64 16 (expected * 2)

unfoldable pub init {ℓ} : {V : Type ℓ} → V → ℕ → FlatMap V
unfolding capacity_for log2
init blank expected = record {
  slots = replicate (capacity_for expected) (record { key = empty_key; value = blank });
  shift = 64 - log2 64 (capacity_for expected);
  count = 0;
}

abbrev pub fibonacci : ℕ
fibonacci = 11400714819323198485

-- `(k * kFibonacci) >> shift_`
unfoldable pub index_of {ℓ} : {V : Type ℓ} → FlatMap V → ℕ → ℕ
index_of m k = ((k * fibonacci) % u64_mod) / 2 ^ m.shift

-- How a probe ends: at a slot with the key, at a vacant slot, or not within its rounds.
pub data Probe : Type 0 where
  found : ℕ → Probe
  vacant : ℕ → Probe
  running : Probe

module _ {ℓ} {V : Type ℓ} (blank : V) where
  abbrev pub key_at : List (Slot V) → ℕ → ℕ
  key_at ss i = (get_or ss i (record { key = empty_key; value = blank })).key

  abbrev pub value_at : List (Slot V) → ℕ → V
  value_at ss i = (get_or ss i (record { key = empty_key; value = blank })).value

  -- The loop of `find` and `erase`: up to the key or an empty slot. `i = (i + 1) & mask_`.
  unfoldable pub probe : List (Slot V) → ℕ → ℕ → ℕ → Probe
  probe ss k zero i = running
  probe ss k (suc n) i =
      let rest = probe ss k n ((i + 1) % length ss) in
      if key_at ss i == k then found i else (if key_at ss i == empty_key then vacant i else rest)

  -- The loop of `insert`: up to an empty slot, a tombstone or the key.
  unfoldable pub probe_free : List (Slot V) → ℕ → ℕ → ℕ → Probe
  probe_free ss k zero i = running
  probe_free ss k (suc n) i =
      let rest = probe_free ss k n ((i + 1) % length ss) in
      if key_at ss i == empty_key || key_at ss i == tombstone
      then vacant i
      else (if key_at ss i == k then found i else rest)

  -- A loop that has not ended after one round for each slot goes on for ever: `none`.
  unfoldable pub find : FlatMap V → ℕ → Option (Option V)
  unfolding index_of probe
  find m k = elim (probe m.slots k (length m.slots) (index_of m k)) [
    | found i ↦ some (some (value_at m.slots i))
    | vacant i ↦ some none
    | running ↦ none
  ]

  unfoldable pub insert : FlatMap V → ℕ → V → Option (FlatMap V)
  unfolding index_of probe_free
  insert m k v =
      let put_at = λ (i : ℕ). set m.slots i (record { key = k; value = v }) in
      elim (probe_free m.slots k (length m.slots) (index_of m k)) [
        | found i ↦ some (record m { slots = put_at i })
        | vacant i ↦ some (record m { slots = put_at i; count = add64 m.count 1 })
        | running ↦ none
      ]

  unfoldable pub erase : FlatMap V → ℕ → Option (FlatMap V × Bool)
  unfolding index_of probe
  erase m k = elim (probe m.slots k (length m.slots) (index_of m k)) [
    | found i ↦
        let slot : Slot V = record { key = tombstone; value = value_at m.slots i } in
        some (record m { slots = set m.slots i slot; count = sub64 m.count 1 }, true)
    | vacant i ↦ some (m, false)
    | running ↦ none
  ]
