-- ===== src/Spsc.antt =====
-- include/lob/spsc_queue.hpp: the ring buffer between one producer and one consumer. The capacity of
-- the template is an argument; it is a power of two by the class's static_assert, so that
-- `& kMask` is `% capacity`.
pub mod Window
pub mod Refine
pub mod Steps
pub mod Invariant
pub mod Order
use cpp_matching_engine.Base.{
  ℕ, ◌+◌, ◌-◌, ◌%◌, Bool, true, false, List, Option, none, some, ◌==◌, if◌then◌else◌, get_elem?,
  set, replicate,
}

pub record Ring {ℓ} (A : Type ℓ) : Type ℓ where
  pub head : ℕ
  pub tail : ℕ
  pub buffer : List A

-- `(i + 1) & kMask`
abbrev pub next_index : ℕ → ℕ → ℕ
next_index capacity i = (i + 1) % capacity

module _ {ℓ} {A : Type ℓ} (capacity : ℕ) where
  -- The buffer of a fresh queue holds what its elements are default-initialised to.
  unfoldable pub init : A → Ring A
  init blank = record { head = 0; tail = 0; buffer = replicate capacity blank }

  unfoldable pub try_push : Ring A → A → Ring A × Bool
  try_push r x =
      if next_index capacity r.tail == r.head
      then (r, false)
      else (record r { buffer = set r.buffer r.tail x; tail = next_index capacity r.tail }, true)

  -- The item goes through the reference; `none` where there is none.
  unfoldable pub try_pop : Ring A → Ring A × Option A
  try_pop r =
      if r.head == r.tail
      then (r, none)
      else (record r { head = next_index capacity r.head }, get_elem? r.buffer r.head)

  -- `(tail - head) & kMask`
  unfoldable pub size_approx : Ring A → ℕ
  size_approx r = (r.tail + capacity - r.head) % capacity
