-- ===== src/Spsc/Invariant.antt =====
-- What holds of the ring and the two threads, and the steps that change the ring.
use cpp_matching_engine.Base.{
  ℕ, ◌<◌, ◌≡◌, refl, sym, ap, subst, ◌∙◌, ◌≢◌, List, [], ◌∷◌, ◌++◌, append_assoc, some, arith,
  get_elem?, set, length-set, length-append, get_elem?-set_self, get_elem?-set_ne,
}
use cpp_matching_engine.Spsc.{Ring, next_index}
use cpp_matching_engine.Spsc.Window.{
  after-cases, distance, distance-extend, distance-after, distance-zero, Holds-store, Holds-extend,
}
use cpp_matching_engine.Spsc.Refine.{Contains, init-Contains}
use cpp_matching_engine.Spsc.Steps.{Producer, Consumer, System, start}

some_same : {A : Type 0} {x y : A} → some x ≡ some y → x ≡ y
some_same e = cc

module _ {A : Type 0} (c : ℕ) where
  -- What the producer knows of the ring at its place in `try_push`.
  abbrev pub ProducerAt : Ring A → Producer A → Type 0
  ProducerAt r Producer.idle = Unit {0}
  ProducerAt r (Producer.loaded x t) = t ≡ r.tail
  ProducerAt r (Producer.room x t) = (t ≡ r.tail) × (next_index c t ≢ r.head)
  ProducerAt r (Producer.stored x t) =
      (t ≡ r.tail) × (next_index c t ≢ r.head) × (get_elem? r.buffer t ≡ some x)

  -- What the consumer knows of the ring at its place in `try_pop`.
  abbrev pub ConsumerAt : Ring A → Consumer A → Type 0
  ConsumerAt r Consumer.idle = Unit {0}
  ConsumerAt r (Consumer.loaded h) = h ≡ r.head
  ConsumerAt r (Consumer.ready h) = (h ≡ r.head) × (h ≢ r.tail)
  ConsumerAt r (Consumer.taken h x) = (h ≡ r.head) × (h ≢ r.tail) × (get_elem? r.buffer h ≡ some x)

  -- `xs` are the items on the way from one thread to the other.
  pub record Inv (s : System A) (xs : List A) : Type 0 where
    pub contains : Contains c s.ring xs
    pub history : s.pushed ≡ s.popped ++ xs
    pub producer : ProducerAt s.ring s.producer
    pub consumer : ConsumerAt s.ring s.consumer

  pub start-Inv : (blank : A) → 0 < c → Inv (start c blank) []
  start-Inv blank h = record {
    contains = init-Contains c blank h;
    history = refl;
    producer = tt;
    consumer = tt;
  }

  -- The consumer's knowledge survives what the producer does to the ring.
  consumer_store :
      (r : Ring A) (x : A) (k : Consumer A)
      → ConsumerAt r k
      → ConsumerAt (record r { buffer = set r.buffer r.tail x }) k
  consumer_store r x Consumer.idle k = tt
  consumer_store r x (Consumer.loaded h) k = k
  consumer_store r x (Consumer.ready h) k = k
  consumer_store r x (Consumer.taken h y) k =
      (k.0, k.1, get_elem?-set_ne r.buffer r.tail h x (λ e. k.1 (sym e)) ∙ k.2)

  consumer_publish :
      (r : Ring A) (k : Consumer A)
      → next_index c r.tail ≢ r.head
      → ConsumerAt r k
      → ConsumerAt (record r { tail = next_index c r.tail }) k
  consumer_publish r Consumer.idle ne k = tt
  consumer_publish r (Consumer.loaded h) ne k = k
  consumer_publish r (Consumer.ready h) ne k = (k.0, λ e. ne (sym e ∙ k.0))
  consumer_publish r (Consumer.taken h y) ne k = (k.0, (λ e. ne (sym e ∙ k.0)), k.2)

  still :
      (r : Ring A) (xs : List A) (t : ℕ)
      → Contains c r xs
      → r.head ≢ r.tail
      → t ≡ r.tail
      → next_index c t ≢ next_index c r.head
  still r xs t n ne e = omega (
    arith,
    after-cases c r.head n.head_in,
    after-cases c t (omega (arith, n.tail_in)),
    ne,
    n.tail_in,
  )

  -- The producer's knowledge survives a release: the consumer frees a slot.
  producer_release :
      (r : Ring A) (xs : List A) (k : Producer A)
      → Contains c r xs
      → r.head ≢ r.tail
      → ProducerAt r k
      → ProducerAt (record r { head = next_index c r.head }) k
  producer_release r xs Producer.idle n ne k = tt
  producer_release r xs (Producer.loaded x t) n ne k = k
  producer_release r xs (Producer.room x t) n ne k = (k.0, still r xs t n ne k.0)
  producer_release r xs (Producer.stored x t) n ne k = (k.0, still r xs t n ne k.0, k.2)

  pub store-Inv :
      (s : System A) (xs : List A) (x : A) (t : ℕ)
      → t ≡ s.ring.tail
      → next_index c t ≢ s.ring.head
      → Inv s xs
      → Inv
          (record s {
            ring = record (s.ring) { buffer = set s.ring.buffer t x };
            producer = Producer.stored x t;
          })
          xs
  store-Inv s xs x t e ne v =
      let n = v.contains in
      let t_in : t < c = omega (arith, n.tail_in) in
      record {
        contains = record {
          head_in = n.head_in;
          tail_in = n.tail_in;
          slots = length-set s.ring.buffer t x ∙ n.slots;
          count = n.count;
          items =
              Holds-store s.ring.buffer c s.ring.head t xs x n.head_in t_in
                (ap (distance c s.ring.head) e ∙ n.count) n.items;
        };
        history = v.history;
        producer = (e, ne, get_elem?-set_self s.ring.buffer t x (omega (arith, n.slots)));
        consumer =
            subst (λ u. ConsumerAt (record (s.ring) { buffer = set s.ring.buffer u x }) s.consumer)
              (sym e) (consumer_store s.ring x s.consumer v.consumer);
      }

  pub publish-Inv :
      (s : System A) (xs : List A) (x : A) (t : ℕ)
      → t ≡ s.ring.tail
      → next_index c t ≢ s.ring.head
      → get_elem? s.ring.buffer t ≡ some x
      → Inv s xs
      → Inv
          (record s {
            ring = record (s.ring) { tail = next_index c t };
            producer = Producer.idle;
            pushed = s.pushed ++ x ∷ [];
          })
          (xs ++ x ∷ [])
  publish-Inv s xs x t e ne at v =
      let n = v.contains in
      let t_in : t < c = omega (arith, n.tail_in) in
      let far = ap (distance c s.ring.head) e ∙ n.count in
      record {
        contains = record {
          head_in = n.head_in;
          tail_in = omega (arith, after-cases c t t_in);
          slots = n.slots;
          count = omega (
            arith,
            distance-extend c s.ring.head t n.head_in t_in ne,
            far,
            length-append xs (x ∷ []),
          );
          items = Holds-extend s.ring.buffer c s.ring.head t xs x n.head_in t_in far at n.items;
        };
        history = ap (λ l. l ++ x ∷ []) v.history ∙ append_assoc s.popped xs (x ∷ []);
        producer = tt;
        consumer =
            subst (λ u. ConsumerAt (record (s.ring) { tail = next_index c u }) s.consumer) (sym e)
              (consumer_publish s.ring s.consumer (λ q. ne (ap (next_index c) e ∙ q)) v.consumer);
      }

  pub release-Inv :
      (s : System A) (xs : List A) (x : A) (h : ℕ)
      → h ≡ s.ring.head
      → h ≢ s.ring.tail
      → get_elem? s.ring.buffer h ≡ some x
      → Inv s xs
      → (ys : List A) × Inv
          (record s {
            ring = record (s.ring) { head = next_index c h };
            consumer = Consumer.idle;
            popped = s.popped ++ x ∷ [];
          })
          ys
  release-Inv s [] x h e ne at v = absurd (
      ne (
        e
        ∙ distance-zero c s.ring.head s.ring.tail v.contains.head_in v.contains.tail_in
            v.contains.count))
  release-Inv s (y ∷ ys) x h e ne at v =
      let n = v.contains in
      let apart : s.ring.head ≢ s.ring.tail = λ q. ne (e ∙ q) in
      let same : y ≡ x = some_same (sym n.items.0 ∙ ap (get_elem? s.ring.buffer) (sym e) ∙ at) in
      (
        ys,
        record {
          contains =
              subst (λ u. Contains c (record (s.ring) { head = next_index c u }) ys) (sym e)
                (record {
                  head_in = omega (arith, after-cases c s.ring.head n.head_in);
                  tail_in = n.tail_in;
                  slots = n.slots;
                  count = omega (
                    arith,
                    distance-after c s.ring.head s.ring.tail n.head_in n.tail_in apart,
                    n.count,
                  );
                  items = n.items.1;
                });
          history =
              v.history
              ∙ ap (λ z. s.popped ++ z ∷ ys) same
              ∙ sym (append_assoc s.popped (x ∷ []) ys);
          producer =
              subst (λ u. ProducerAt (record (s.ring) { head = next_index c u }) s.producer) (sym e)
                (producer_release s.ring (y ∷ ys) s.producer n apart v.producer);
          consumer = tt;
        },
      )
