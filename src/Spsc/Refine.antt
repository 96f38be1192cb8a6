-- ===== src/Spsc/Refine.antt =====
-- Without interference the ring is a bounded queue: it takes one item less than its capacity.
use cpp_matching_engine.Base.{
  ℕ, ◌+◌, ◌<◌, ◌≡◌, refl, ◌∙◌, ◌≢◌, ◌⊎◌, inl, inr, Bool-cases, ==→eq, ==→ne, true, false, List, [],
  ◌∷◌, ◌++◌, none, some, arith, length, length-set, length-replicate, length-append, ◌==◌, eq→==,
  ne→==,
}
use cpp_matching_engine.Spsc.{Ring, next_index, init, try_push, try_pop, size_approx}
use cpp_matching_engine.Spsc.Window.{
  after, after-cases, distance, distance-cases, distance_self, distance-zero, distance-after,
  distance-extend, Holds, Holds-push,
}

module _ {ℓ} {A : Type ℓ} (c : ℕ) where
  -- The indexes are in range, and `xs` are the items, oldest first.
  pub record Contains (r : Ring A) (xs : List A) : Type ℓ where
    pub head_in : r.head < c
    pub tail_in : r.tail < c
    pub slots : length r.buffer ≡ c
    pub count : distance c r.head r.tail ≡ length xs
    pub items : Holds r.buffer c r.head xs

  pub init-Contains : (blank : A) → 0 < c → Contains (init c blank) []
  unfolding init
  init-Contains blank h = record {
    head_in = h;
    tail_in = h;
    slots = length-replicate c blank;
    count = distance_self c 0 h;
    items = tt;
  }

  -- On a ring that holds the items `xs`: if these are `c - 1` items, `try_push` returns false and changes
  -- nothing; otherwise they are fewer, it returns true, and the ring holds them and the new item
  -- behind them.
  pub try_push_lem :
      (r : Ring A) (xs : List A) (x : A)
      → Contains r xs
      → ((length xs + 1 ≡ c) × (try_push c r x ≡ (r, false)))
        ⊎ ((length xs + 1 < c)
            × ((try_push c r x).1 ≡ true)
            × Contains (try_push c r x).0 (xs ++ x ∷ []))
  unfolding try_push
  try_push_lem r xs x k = elim (Bool-cases (next_index c r.tail == r.head)) [
    | inl full ↦ inl (
      omega (
        arith,
        ==→eq (next_index c r.tail) r.head full,
        after-cases c r.tail k.tail_in,
        distance-cases c r.head r.tail k.head_in k.tail_in,
        k.count,
      ),
      rw full,
    )
    | inr room ↦
        let ne = ==→ne (next_index c r.tail) r.head room in
        let far = distance-extend c r.head r.tail k.head_in k.tail_in ne in
        let near = after-cases c r.tail k.tail_in in
        inr (
          omega (
            arith,
            far,
            near,
            k.count,
            distance-cases c r.head (after c r.tail) k.head_in,
            distance-cases c r.head r.tail k.head_in k.tail_in,
            ne,
          ),
          rw room,
          rw room (record {
            head_in = k.head_in;
            tail_in = omega (arith, near);
            slots = length-set r.buffer r.tail x ∙ k.slots;
            count = omega (arith, far, k.count, length-append xs (x ∷ []));
            items =
                Holds-push r.buffer c r.head r.tail xs x k.head_in k.tail_in k.slots k.count
                  k.items;
          }),
        )
  ]

  pub try_pop-empty : (r : Ring A) → Contains r [] → try_pop c r ≡ (r, none)
  unfolding try_pop
  try_pop-empty r k =
      rw (eq→== r.head r.tail (distance-zero c r.head r.tail k.head_in k.tail_in k.count))

  pub try_pop-first :
      (r : Ring A) (x : A) (ys : List A)
      → Contains r (x ∷ ys)
      → ((try_pop c r).1 ≡ some x) × Contains (try_pop c r).0 ys
  unfolding try_pop
  try_pop-first r x ys k =
      let ne : r.head ≢ r.tail =
        λ same. omega (arith, distance-cases c r.head r.tail k.head_in k.tail_in, k.count, same) in
      rw (ne→== r.head r.tail ne) (
        k.items.0,
        record {
          head_in = omega (arith, after-cases c r.head k.head_in);
          tail_in = k.tail_in;
          slots = k.slots;
          count = omega (arith, distance-after c r.head r.tail k.head_in k.tail_in ne, k.count);
          items = k.items.1;
        },
      )

  -- On a ring that holds the items `xs`, `try_pop` fails and changes nothing if there are none, and
  -- otherwise returns the oldest one, and the ring holds the others.
  pub try_pop_lem :
      (r : Ring A) (xs : List A)
      → Contains r xs
      → ((xs ≡ []) × (try_pop c r ≡ (r, none)))
        ⊎ ((x : A) × (ys : List A) × (xs ≡ x ∷ ys)
            × ((try_pop c r).1 ≡ some x)
            × Contains (try_pop c r).0 ys)
  try_pop_lem r [] k = inl (refl, try_pop-empty r k)
  try_pop_lem r (x ∷ ys) k = let (got, k') = try_pop-first r x ys k in inr (x, ys, refl, got, k')

  -- On a ring that holds the items `xs`, `size_approx` is their number.
  pub size_approx_lem : (r : Ring A) (xs : List A) → Contains r xs → size_approx c r ≡ length xs
  unfolding size_approx
  size_approx_lem r xs k = k.count
