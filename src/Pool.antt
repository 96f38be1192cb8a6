-- ===== src/Pool.antt =====
-- include/lob/pool.hpp: the fixed-capacity pool with an intrusive free list. A handle is a 32-bit
-- word, and the policy of the template is an argument of the functions that depend on it.
pub mod Frees
pub mod Initial
pub mod Laws
pub mod Live
use cpp_matching_engine.Base.{
  ℕ, zero, suc, ◌+◌, ◌-◌, ◌%◌, ◌^◌, Bool, List, [], ◌∷◌, Option, none, some, ◌==◌, if◌then◌else◌,
  get_elem?, set, length, add64, sub64,
}

abbrev pub Handle : Type 0
Handle = ℕ

-- `static_cast<PoolHandle>(-1)`
abbrev pub null_handle : Handle
null_handle = 2 ^ 32 - 1

-- `static_cast<Handle>(i)`
abbrev pub to_handle : ℕ → Handle
to_handle i = i % 2 ^ 32

pub data FreeListPolicy : Type 0 where
  lifo fifo : FreeListPolicy

-- The union: a slot holds either its value or the link of the free list.
pub data Node {ℓ} (T : Type ℓ) : Type ℓ where
  value : T → Node T
  next_free : Handle → Node T

pub record Pool {ℓ} (T : Type ℓ) : Type ℓ where
  pub nodes : List (Node T)
  pub free_head : Handle
  pub free_tail : Handle
  pub in_use : ℕ

-- The constructor's loop: slot `i` links to slot `i + 1`, and the last slot ends the list.
unfoldable pub link_from {ℓ} : (T : Type ℓ) → ℕ → ℕ → List (Node T)
link_from T i zero = []
link_from T i (suc zero) = next_free null_handle ∷ []
link_from T i (suc (suc n)) = next_free (to_handle (i + 1)) ∷ link_from T (i + 1) (suc n)

abbrev pub on_fifo : FreeListPolicy → Handle → Handle → Handle
on_fifo fifo a b = a
on_fifo lifo a b = b

unfoldable pub init {ℓ} : (T : Type ℓ) → FreeListPolicy → ℕ → Pool T
unfolding link_from
init T policy capacity = record {
  nodes = link_from T 0 capacity;
  free_head = if capacity == 0 then null_handle else 0;
  free_tail =
      if capacity == 0 then null_handle else on_fifo policy (to_handle (capacity - 1)) null_handle;
  in_use = 0;
}

module _ {ℓ} {T : Type ℓ} where
  -- `nodes_[h].next_free`; the null handle where the slot holds no link.
  abbrev pub link_of : Option (Node T) → Handle
  link_of (some (next_free n)) = n
  link_of _ = null_handle

  unfoldable pub allocate : FreeListPolicy → Pool T → Pool T × Handle
  allocate policy p =
      let next = link_of (get_elem? p.nodes p.free_head) in
      if p.free_head == null_handle then (p, null_handle) else (
        record p {
          free_head = next;
          free_tail =
              on_fifo policy (if next == null_handle then null_handle else p.free_tail) p.free_tail;
          in_use = add64 p.in_use 1;
        },
        p.free_head,
      )

  -- Append to the tail of the free list.
  unfoldable pub deallocate_fifo : Pool T → Handle → Pool T
  deallocate_fifo p h =
      let nodes = set p.nodes h (next_free null_handle) in
      record p {
        nodes = if p.free_tail == null_handle then nodes else set nodes p.free_tail (next_free h);
        free_head = if p.free_tail == null_handle then h else p.free_head;
        free_tail = h;
        in_use = sub64 p.in_use 1;
      }

  -- Push to the head of the free list.
  unfoldable pub deallocate_lifo : Pool T → Handle → Pool T
  deallocate_lifo p h = record p {
    nodes = set p.nodes h (next_free p.free_head);
    free_head = h;
    in_use = sub64 p.in_use 1;
  }

  unfoldable pub deallocate : FreeListPolicy → Pool T → Handle → Pool T
  unfolding deallocate_fifo deallocate_lifo
  deallocate fifo p h = deallocate_fifo p h
  deallocate lifo p h = deallocate_lifo p h

  -- `operator[]` as a value: `d` where the handle is out of range or the slot holds a link.
  abbrev pub value_of : T → Option (Node T) → T
  value_of d (some (value v)) = v
  value_of d _ = d

  unfoldable pub get : T → Pool T → Handle → T
  get d p h = value_of d (get_elem? p.nodes h)

  -- A write through `operator[]`.
  unfoldable pub put : Pool T → Handle → T → Pool T
  put p h v = record p { nodes = set p.nodes h (value v) }

  unfoldable pub capacity : Pool T → ℕ
  capacity p = length p.nodes
