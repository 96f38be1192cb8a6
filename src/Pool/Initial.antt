-- ===== src/Pool/Initial.antt =====
-- The free list that the constructor of the pool links.
use cpp_matching_engine.Base.{
  ℕ, zero, suc, ◌+◌, ◌≤◌, ◌<◌, ◌≡◌, refl, ap, subst, ◌∙◌, append_assoc, get_elem?-append_at, List,
  [], ◌∷◌, ◌++◌, some, arith, length, length-append, NotIn, Distinct,
}
use cpp_matching_engine.Pool.{
  Handle, null_handle, to_handle, FreeListPolicy, lifo, fifo, Node, next_free, link_from, init,
}
use cpp_matching_engine.Pool.Frees.{last, Links, TailAt, Frees}

-- The handles i, i + 1, …, i + n - 1.
abbrev pub range : ℕ → ℕ → List Handle
range i zero = []
range i (suc n) = i ∷ range (i + 1) n

length-range : (i n : ℕ) → length (range i n) ≡ n
length-range i zero = refl
length-range i (suc n) = omega (arith, length-range (i + 1) n)

NotIn-range : (a i n : ℕ) → a < i → NotIn a (range i n)
NotIn-range a i zero h = tt
NotIn-range a i (suc n) h = (omega arith, NotIn-range a (i + 1) n (omega arith))

range-Distinct : (i n : ℕ) → Distinct (range i n)
range-Distinct i zero = tt
range-Distinct i (suc n) = (NotIn-range i (i + 1) n (omega arith), range-Distinct (i + 1) n)

last-range : (i n : ℕ) → last (range i (suc n)) ≡ i + n
last-range i zero = omega arith
last-range i (suc n) = omega (arith, last-range (i + 1) n)

pub length-link_from {ℓ} : (T : Type ℓ) (i n : ℕ) → length (link_from T i n) ≡ n
unfolding link_from
length-link_from T i zero = refl
length-link_from T i (suc zero) = refl
length-link_from T i (suc (suc n)) = omega (arith, length-link_from T (i + 1) (suc n))

module _ {ℓ} {T : Type ℓ} where
  -- The nodes that the constructor links form the list of all handles.
  link_from-Links :
      (pre : List (Node T)) (i n : ℕ)
      → length pre ≡ i
      → i + n ≤ null_handle
      → Links (pre ++ link_from T i n) (range i n)
  unfolding link_from
  link_from-Links pre i zero e h = tt
  link_from-Links pre i (suc zero) e h =
      (omega arith, get_elem?-append_at pre (next_free null_handle) [] i e, tt)
  link_from-Links pre i (suc (suc n)) e h = (
    omega arith,
    get_elem?-append_at pre (next_free (to_handle (i + 1))) (link_from T (i + 1) (suc n)) i e
        ∙ ap (λ k. some (next_free k)) (omega arith),
    subst (λ l. Links l (range (i + 1) (suc n)))
        (append_assoc pre (next_free (to_handle (i + 1)) ∷ []) (link_from T (i + 1) (suc n)))
        (link_from-Links (pre ++ next_free (to_handle (i + 1)) ∷ []) (i + 1) (suc n)
          (omega (arith, length-append pre (next_free (to_handle (i + 1)) ∷ []))) (omega arith)),
  )

  -- In a fresh pool of at most 2^32 - 1 slots all handles are free, in the order 0, 1, …, with either
  -- policy.
  pub init-Frees :
      (policy : FreeListPolicy) (n : ℕ)
      → n ≤ null_handle
      → Frees policy (init T policy n) (range 0 n)
  unfolding init
  init-Frees policy zero h = record {
    head = refl;
    tail = elim policy as (λ q. TailAt q (init T q 0) []) [ lifo ↦ tt | fifo ↦ refl ];
    links = tt;
    distinct = tt;
    count = omega arith;
    small = omega arith;
  }
  init-Frees policy (suc n) h = record {
    head = ground arith;
    tail = elim policy as (λ q. TailAt q (init T q (suc n)) (range 0 (suc n))) [
      | lifo ↦ tt
      | fifo ↦ ground (arith, last-range 0 n)
    ];
    links = link_from-Links [] 0 (suc n) refl (omega arith);
    distinct = range-Distinct 0 (suc n);
    count = omega (arith, length-link_from T 0 (suc n), length-range 0 (suc n));
    small = omega (arith, length-link_from T 0 (suc n));
  }
