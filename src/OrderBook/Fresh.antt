-- ===== src/OrderBook/Fresh.antt =====
-- A fresh book.
use cpp_matching_engine.Base.{ℕ, zero, suc, ◌≤◌, ◌≡◌, refl, [], get_or, replicate}
use cpp_matching_engine.Pool.{null_handle, lifo}
use cpp_matching_engine.Pool.Initial.{init-Frees, range}
use cpp_matching_engine.OrderBook.State.{blank_level, init}
use cpp_matching_engine.OrderBook.Layout.{Rep, Store}

abbrev pub no_cells : Store
no_cells p = []

blank-everywhere : (n p : ℕ) → get_or (replicate n blank_level) p blank_level ≡ blank_level
blank-everywhere zero p = refl
blank-everywhere (suc n) zero = refl
blank-everywhere (suc n) (suc p) = blank-everywhere n p

-- A fresh book of at most 2^32 - 1 orders has no order at any tick, and all its slots are free.
pub init-Rep :
    (ticks cap : ℕ)
    → cap ≤ null_handle
    → Rep (init ticks cap).levels (init ticks cap).pool no_cells (range 0 cap)
unfolding init
init-Rep ticks cap h = record {
  level = blank-everywhere ticks;
  seg = λ p. tt;
  distinct = λ p. tt;
  fits = λ p. tt;
  free = init-Frees lifo cap h;
  used = λ p. tt;
}
