-- ===== src/Pool/Laws.antt =====
-- What allocate and deallocate do to the sequence of free handles.
use cpp_matching_engine.Base.{
  ◌+◌, ◌<◌, ◌≡◌, refl, sym, ap, subst, ◌∙◌, get_elem?-lt, eq→==, ne→==, ◌≢◌, List, [], ◌∷◌, ◌++◌,
  some, arith, get_elem?, set, length, length-set, length-append, get_elem?-set_self,
  get_elem?-set_ne, NotIn, Distinct, Distinct-append, add64,
}
use cpp_matching_engine.Pool.{
  Handle, null_handle, FreeListPolicy, lifo, fifo, Node, value, next_free, Pool, link_of, allocate,
  deallocate, put,
}
use cpp_matching_engine.Pool.Frees.{last, Links, Frees}

NotIn-last : (a y : Handle) (ys : List Handle) → NotIn a (y ∷ ys) → a ≢ last (y ∷ ys)
NotIn-last a y [] n = n.0
NotIn-last a y (z ∷ zs) n = NotIn-last a z zs n.1

last-append : (h : Handle) (fs : List Handle) → last (fs ++ h ∷ []) ≡ h
last-append h [] = refl
last-append h (x ∷ []) = refl
last-append h (x ∷ y ∷ ys) = last-append h (y ∷ ys)

module _ {ℓ} {T : Type ℓ} where
  -- With no free slot `allocate` returns the null handle and changes nothing.
  pub allocate-full :
      (policy : FreeListPolicy) (p : Pool T)
      → Frees policy p []
      → allocate policy p ≡ (p, null_handle)
  unfolding allocate
  allocate-full policy p f = rw (eq→== p.free_head null_handle f.head)

  allocate-count :
      (p : Pool T) (h : Handle) (fs : List Handle) {policy : FreeListPolicy}
      → Frees policy p (h ∷ fs)
      → add64 p.in_use 1 + length fs ≡ length p.nodes
  allocate-count p h fs f = omega (arith, f.count, f.small)

  -- With a free handle, `allocate` returns the first one, which leaves the free list, with either policy.
  pub allocate-Frees :
      (policy : FreeListPolicy) (p : Pool T) (h : Handle) (fs : List Handle)
      → Frees policy p (h ∷ fs)
      → ((allocate policy p).1 ≡ h) × Frees policy (allocate policy p).0 fs
  unfolding allocate
  allocate-Frees lifo p h fs f = (
    ground arith,
    record {
      head = ground arith;
      tail = tt;
      links = ground arith;
      distinct = f.distinct.1;
      count = ground (arith, allocate-count p h fs f);
      small = ground arith;
    },
  )
  allocate-Frees fifo p h [] f = (
    ground arith,
    record {
      head = ground arith;
      tail = ground arith;
      links = tt;
      distinct = tt;
      count = ground (arith, allocate-count p h [] f);
      small = ground arith;
    },
  )
  allocate-Frees fifo p h (x ∷ fs) f =
      let link : link_of (get_elem? p.nodes p.free_head) ≡ x = rw (f.head, f.links.1) in
      let open_head = ne→== p.free_head null_handle (omega (arith, f.head, f.links.0)) in
      let open_next = ne→== x null_handle (omega (arith, f.links.2.0)) in
      rw (open_head, link, open_next)
        (
          f.head,
          record {
            head = refl;
            tail = f.tail;
            links = f.links.2;
            distinct = f.distinct.1;
            count = allocate-count p h (x ∷ fs) f;
            small = f.small;
          },
        )

  -- A slot that is not in the free list can be written.
  pub set-Links :
      (nodes : List (Node T)) (h : Handle) (v : Node T) (fs : List Handle)
      → NotIn h fs
      → Links nodes fs
      → Links (set nodes h v) fs
  set-Links nodes h v [] n l = tt
  set-Links nodes h v (x ∷ xs) n l =
      (l.0, get_elem?-set_ne nodes h x v n.0 ∙ l.1, set-Links nodes h v xs n.1 l.2)

  pub put-Frees :
      (policy : FreeListPolicy) (p : Pool T) (h : Handle) (v : T) (fs : List Handle)
      → NotIn h fs
      → Frees policy p fs
      → Frees policy (put p h v) fs
  unfolding put
  put-Frees lifo p h v fs n f = record {
    head = f.head;
    tail = tt;
    links = set-Links p.nodes h (value v) fs n f.links;
    distinct = f.distinct;
    count = omega (arith, length-set p.nodes h (value v));
    small = omega (arith, length-set p.nodes h (value v));
  }
  put-Frees fifo p h v fs n f = record {
    head = f.head;
    tail = f.tail;
    links = set-Links p.nodes h (value v) fs n f.links;
    distinct = f.distinct;
    count = omega (arith, length-set p.nodes h (value v));
    small = omega (arith, length-set p.nodes h (value v));
  }

  -- With the LIFO policy, `deallocate` of a handle of the pool that is not free puts it first among the
  -- free handles.
  pub deallocate_lifo-Frees :
      (p : Pool T) (h : Handle) (fs : List Handle)
      → Frees lifo p fs
      → h < length p.nodes
      → 0 < p.in_use
      → NotIn h fs
      → Frees lifo (deallocate lifo p h) (h ∷ fs)
  unfolding deallocate
  deallocate_lifo-Frees p h fs f lt used n = record {
    head = refl;
    tail = tt;
    links = (
      omega arith,
      get_elem?-set_self p.nodes h (next_free p.free_head) lt ∙ ap (λ k. some (next_free k)) f.head,
      set-Links p.nodes h (next_free p.free_head) fs n f.links,
    );
    distinct = (n, f.distinct);
    count = omega (arith, length-set p.nodes h (next_free p.free_head));
    small = omega (arith, length-set p.nodes h (next_free p.free_head));
  }

  -- Setting the last link extends the list.
  extend-Links :
      (nodes : List (Node T)) (h : Handle) (x : Handle) (fs : List Handle)
      → get_elem? nodes h ≡ some (next_free null_handle)
      → h < null_handle
      → NotIn h (x ∷ fs)
      → Distinct (x ∷ fs)
      → last (x ∷ fs) < length nodes
      → Links nodes (x ∷ fs)
      → Links (set nodes (last (x ∷ fs)) (next_free h)) (x ∷ fs ++ h ∷ [])
  extend-Links nodes h x [] e s n d lt l = (
    l.0,
    get_elem?-set_self nodes x (next_free h) lt,
    (s, get_elem?-set_ne nodes x h (next_free h) (λ q. n.0 (sym q)) ∙ e, tt),
  )
  extend-Links nodes h x (y ∷ ys) e s n d lt l = (
    l.0,
    get_elem?-set_ne nodes (last (y ∷ ys)) x (next_free h) (λ q. NotIn-last x y ys d.0 (sym q))
        ∙ l.1,
    extend-Links nodes h y ys e s n.1 d.1 lt l.2,
  )

  last-lt :
      (nodes : List (Node T)) (x : Handle) (fs : List Handle)
      → Links nodes (x ∷ fs)
      → (last (x ∷ fs) < null_handle) × (last (x ∷ fs) < length nodes)
  last-lt nodes x [] l = (l.0, get_elem?-lt nodes x (next_free null_handle) l.1)
  last-lt nodes x (y ∷ ys) l = last-lt nodes y ys l.2

  -- With the FIFO policy, `deallocate` of a handle of the pool that is not free puts it behind all the free
  -- handles.
  pub deallocate_fifo-Frees :
      (p : Pool T) (h : Handle) (fs : List Handle)
      → Frees fifo p fs
      → h < length p.nodes
      → 0 < p.in_use
      → NotIn h fs
      → Frees fifo (deallocate fifo p h) (fs ++ h ∷ [])
  unfolding deallocate
  deallocate_fifo-Frees p h [] f lt used n =
      let closed = eq→== p.free_tail null_handle f.tail in
      rw closed (record {
        head = refl;
        tail = refl;
        links =
            (omega (arith, f.small), get_elem?-set_self p.nodes h (next_free null_handle) lt, tt);
        distinct = (tt, tt);
        count = omega (arith, length-set p.nodes h (next_free null_handle), f.count, f.small);
        small = omega (arith, length-set p.nodes h (next_free null_handle), f.small);
      })
  deallocate_fifo-Frees p h (x ∷ fs) f lt used n =
      let nodes = set p.nodes h (next_free null_handle) in
      let ends = last-lt p.nodes x fs f.links in
      let len = length-set p.nodes h (next_free null_handle) in
      let len2 = length-set nodes p.free_tail (next_free h) in
      let open_tail = ne→== p.free_tail null_handle (omega (arith, f.tail, ends.0)) in
      rw open_tail (record {
        head = f.head;
        tail = sym (last-append h (x ∷ fs));
        links =
            subst (λ t. Links (set nodes t (next_free h)) ((x ∷ fs) ++ h ∷ [])) (sym f.tail)
              (extend-Links nodes h x fs (get_elem?-set_self p.nodes h (next_free null_handle) lt)
                (omega (arith, f.small)) n f.distinct (omega (arith, ends.1, len))
                (set-Links p.nodes h (next_free null_handle) (x ∷ fs) n f.links));
        distinct = Distinct-append h (x ∷ fs) f.distinct n;
        count = omega (arith, len, len2, f.count, f.small, length-append fs (h ∷ []));
        small = omega (arith, len, len2, f.small);
      })

  -- `allocate` writes no slot.
  pub allocate-nodes :
      (policy : FreeListPolicy) (p : Pool T) → (allocate policy p).0.nodes ≡ p.nodes
  unfolding allocate
  allocate-nodes policy p = ground arith
