-- ===== src/Pool/Frees.antt =====
-- The free list of a pool, as the sequence of free handles.
use cpp_matching_engine.Base.{◌+◌, ◌≤◌, ◌<◌, ◌≡◌, List, [], ◌∷◌, some, get_elem?, length, Distinct}
use cpp_matching_engine.Pool.{
  Handle, null_handle, FreeListPolicy, lifo, fifo, Node, next_free, Pool,
}

-- The head of a free list, and its end.
abbrev pub first : List Handle → Handle
first [] = null_handle
first (x ∷ xs) = x

abbrev pub last : List Handle → Handle
last [] = null_handle
last (x ∷ []) = x
last (x ∷ y ∷ ys) = last (y ∷ ys)

module _ {ℓ} {T : Type ℓ} where
  -- Each slot of the list links to the next one.
  abbrev pub Links : List (Node T) → List Handle → Type ℓ
  Links nodes [] = Unit
  Links nodes (x ∷ xs) =
      (x < null_handle) × (get_elem? nodes x ≡ some (next_free (first xs))) × Links nodes xs

  abbrev pub TailAt : FreeListPolicy → Pool T → List Handle → Type 0
  TailAt lifo p fs = Unit
  TailAt fifo p fs = p.free_tail ≡ last fs

  -- `fs` are the free handles of the pool, in the order in which `allocate` gives them out.
  pub record Frees (policy : FreeListPolicy) (p : Pool T) (fs : List Handle) : Type ℓ where
    pub head : p.free_head ≡ first fs
    pub tail : TailAt policy p fs
    pub links : Links p.nodes fs
    pub distinct : Distinct fs
    pub count : p.in_use + length fs ≡ length p.nodes
    pub small : length p.nodes ≤ null_handle
