-- ===== src/Spsc/Steps.antt =====
-- The two threads of the queue. Each load and store of `try_push` and `try_pop` that the other
-- thread can see is a step of its own, and the steps interleave in any order: the acquire loads and
-- release stores on the two indexes give the executions that order.
use cpp_matching_engine.Base.{ℕ, ◌≡◌, ◌≢◌, List, [], ◌∷◌, ◌++◌, some, get_elem?, set}
use cpp_matching_engine.Spsc.{Ring, next_index, init}

-- Where `try_push` stands: its item, and the tail that it has loaded.
pub data Producer {ℓ} (A : Type ℓ) : Type ℓ where
  idle : Producer A
  loaded : A → ℕ → Producer A
  room : A → ℕ → Producer A
  stored : A → ℕ → Producer A

-- Where `try_pop` stands: the head that it has loaded, and the item that it has read.
pub data Consumer {ℓ} (A : Type ℓ) : Type ℓ where
  idle : Consumer A
  loaded : ℕ → Consumer A
  ready : ℕ → Consumer A
  taken : ℕ → A → Consumer A

-- The shared memory, the threads, and the items of the calls that have returned true.
pub record System {ℓ} (A : Type ℓ) : Type ℓ where
  pub ring : Ring A
  pub producer : Producer A
  pub consumer : Consumer A
  pub pushed : List A
  pub popped : List A

module _ {ℓ} {A : Type ℓ} (c : ℕ) where
  pub data Step (s : System A) : System A → Type ℓ where
    push_begin :
        (x : A)
        → s.producer ≡ Producer.idle
        → Step s (record s { producer = Producer.loaded x s.ring.tail })
    push_full :
        (x : A) (t : ℕ)
        → s.producer ≡ Producer.loaded x t
        → next_index c t ≡ s.ring.head
        → Step s (record s { producer = Producer.idle })
    push_room :
        (x : A) (t : ℕ)
        → s.producer ≡ Producer.loaded x t
        → next_index c t ≢ s.ring.head
        → Step s (record s { producer = Producer.room x t })
    push_store :
        (x : A) (t : ℕ)
        → s.producer ≡ Producer.room x t
        → Step s (record s {
          ring = record (s.ring) { buffer = set s.ring.buffer t x };
          producer = Producer.stored x t;
        })
    push_publish :
        (x : A) (t : ℕ)
        → s.producer ≡ Producer.stored x t
        → Step s (record s {
          ring = record (s.ring) { tail = next_index c t };
          producer = Producer.idle;
          pushed = s.pushed ++ x ∷ [];
        })
    pop_begin :
        s.consumer ≡ Consumer.idle → Step s (record s { consumer = Consumer.loaded s.ring.head })
    pop_empty :
        (h : ℕ)
        → s.consumer ≡ Consumer.loaded h
        → h ≡ s.ring.tail
        → Step s (record s { consumer = Consumer.idle })
    pop_ready :
        (h : ℕ)
        → s.consumer ≡ Consumer.loaded h
        → h ≢ s.ring.tail
        → Step s (record s { consumer = Consumer.ready h })
    pop_take :
        (h : ℕ) (x : A)
        → s.consumer ≡ Consumer.ready h
        → get_elem? s.ring.buffer h ≡ some x
        → Step s (record s { consumer = Consumer.taken h x })
    pop_release :
        (h : ℕ) (x : A)
        → s.consumer ≡ Consumer.taken h x
        → Step s (record s {
          ring = record (s.ring) { head = next_index c h };
          consumer = Consumer.idle;
          popped = s.popped ++ x ∷ [];
        })

  pub data Reach (s : System A) : System A → Type ℓ where
    here : Reach s s
    next : {t u : System A} → Reach s t → Step t u → Reach s u

  -- A fresh queue with both threads outside their calls.
  abbrev pub start : A → System A
  start blank = record {
    ring = init c blank;
    producer = Producer.idle;
    consumer = Consumer.idle;
    pushed = [];
    popped = [];
  }
