-- ===== src/Examples/Slots.antt =====
-- The pool of include/lob/pool.hpp at concrete inputs.
use cpp_matching_engine.Base.{ℕ, ◌≡◌, [], ◌∷◌, arith}
use cpp_matching_engine.Pool.{init, allocate, deallocate, lifo, fifo, null_handle}
use cpp_matching_engine.Pool.Frees.{Frees}
use cpp_matching_engine.Pool.Initial.{init-Frees}
use cpp_matching_engine.Pool.Laws.{
  allocate-Frees, allocate-full, deallocate_lifo-Frees, deallocate_fifo-Frees,
}

allocate-Frees_example :
    ((allocate lifo (init ℕ lifo 2)).1 ≡ 0) × Frees lifo (allocate lifo (init ℕ lifo 2)).0 (1 ∷ [])
allocate-Frees_example =
    allocate-Frees lifo (init ℕ lifo 2) 0 (1 ∷ []) (init-Frees lifo 2 (omega arith))

allocate-full_example : allocate fifo (init ℕ fifo 0) ≡ (init ℕ fifo 0, null_handle)
allocate-full_example = allocate-full fifo (init ℕ fifo 0) (init-Frees fifo 0 (omega arith))

one_used : Frees lifo (allocate lifo (init ℕ lifo 2)).0 (1 ∷ [])
one_used = (allocate-Frees lifo (init ℕ lifo 2) 0 (1 ∷ []) (init-Frees lifo 2 (omega arith))).1

deallocate_lifo-Frees_example :
    Frees lifo (deallocate lifo (allocate lifo (init ℕ lifo 2)).0 0) (0 ∷ 1 ∷ [])
unfolding init allocate
deallocate_lifo-Frees_example =
    deallocate_lifo-Frees (allocate lifo (init ℕ lifo 2)).0 0 (1 ∷ []) one_used (omega arith)
      (omega arith) ((λ e. omega (arith, e)), tt)

one_used_fifo : Frees fifo (allocate fifo (init ℕ fifo 2)).0 (1 ∷ [])
one_used_fifo = (allocate-Frees fifo (init ℕ fifo 2) 0 (1 ∷ []) (init-Frees fifo 2 (omega arith))).1

deallocate_fifo-Frees_example :
    Frees fifo (deallocate fifo (allocate fifo (init ℕ fifo 2)).0 0) (1 ∷ 0 ∷ [])
unfolding init allocate
deallocate_fifo-Frees_example =
    deallocate_fifo-Frees (allocate fifo (init ℕ fifo 2)).0 0 (1 ∷ []) one_used_fifo (omega arith)
      (omega arith) ((λ e. omega (arith, e)), tt)
