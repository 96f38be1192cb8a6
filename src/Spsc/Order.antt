-- ===== src/Spsc/Order.antt =====
-- Under every interleaving the items come out in the order in which they went in.
use cpp_matching_engine.Base.{
  ℕ, ◌+◌, ◌<◌, ◌≤◌, ◌≡◌, refl, sym, subst, ◌∙◌, ◌≢◌, List, [], ◌∷◌, ◌++◌, arith, length,
}
use cpp_matching_engine.Spsc.{Ring}
use cpp_matching_engine.Spsc.Window.{distance-cases}
use cpp_matching_engine.Spsc.Refine.{Contains}
use cpp_matching_engine.Spsc.Steps.{Producer, Consumer, System, Step, Reach, here, next, start}
use cpp_matching_engine.Spsc.Invariant.{
  ProducerAt, ConsumerAt, Inv, start-Inv, store-Inv, publish-Inv, release-Inv,
}

module _ {A : Type 0} (c : ℕ) where
  -- Every step of either thread keeps the invariant.
  pub Step-Inv :
      {s s' : System A} {xs : List A} → Step c s s' → Inv c s xs → (ys : List A) × Inv c s' ys
  Step-Inv {s} {xs = xs} (Step.push_begin x e) v = (
    xs,
    record { contains = v.contains; history = v.history; producer = refl; consumer = v.consumer },
  )
  Step-Inv {s} {xs = xs} (Step.push_full x t e full) v = (
    xs,
    record { contains = v.contains; history = v.history; producer = tt; consumer = v.consumer },
  )
  Step-Inv {s} {xs = xs} (Step.push_room x t e room) v = (
    xs,
    record {
      contains = v.contains;
      history = v.history;
      producer = (subst (ProducerAt c s.ring) e v.producer, room);
      consumer = v.consumer;
    },
  )
  Step-Inv {s} {xs = xs} (Step.push_store x t e) v =
      let k = subst (ProducerAt c s.ring) e v.producer in (xs, store-Inv c s xs x t k.0 k.1 v)
  Step-Inv {s} {xs = xs} (Step.push_publish x t e) v =
      let k = subst (ProducerAt c s.ring) e v.producer in
      (xs ++ x ∷ [], publish-Inv c s xs x t k.0 k.1 k.2 v)
  Step-Inv {s} {xs = xs} (Step.pop_begin e) v = (
    xs,
    record { contains = v.contains; history = v.history; producer = v.producer; consumer = refl },
  )
  Step-Inv {s} {xs = xs} (Step.pop_empty h e empty) v = (
    xs,
    record { contains = v.contains; history = v.history; producer = v.producer; consumer = tt },
  )
  Step-Inv {s} {xs = xs} (Step.pop_ready h e ne) v = (
    xs,
    record {
      contains = v.contains;
      history = v.history;
      producer = v.producer;
      consumer = (subst (ConsumerAt c s.ring) e v.consumer, ne);
    },
  )
  Step-Inv {s} {xs = xs} (Step.pop_take h x e at) v =
      let k = subst (ConsumerAt c s.ring) e v.consumer in
      (
        xs,
        record {
          contains = v.contains;
          history = v.history;
          producer = v.producer;
          consumer = (k.0, k.1, at);
        },
      )
  Step-Inv {s} {xs = xs} (Step.pop_release h x e) v =
      let k = subst (ConsumerAt c s.ring) e v.consumer in release-Inv c s xs x h k.0 k.1 k.2 v

  pub Reach-Inv :
      {s s' : System A} {xs : List A} → Reach c s s' → Inv c s xs → (ys : List A) × Inv c s' ys
  Reach-Inv {xs = xs} here v = (xs, v)
  Reach-Inv (next r st) v = let (ys, w) = Reach-Inv r v in Step-Inv st w

  length-bound : (r : Ring A) (xs : List A) → Contains c r xs → length xs + 1 ≤ c
  length-bound r xs n =
      omega
        (arith, distance-cases c r.head r.tail n.head_in n.tail_in, n.count, n.head_in, n.tail_in)

  -- Of a queue of at least one slot, whatever the interleaving of the two threads' steps, what
  -- `try_push` has accepted is what `try_pop` has returned, in the same order, followed by the items
  -- that the ring contains, which are at most `c - 1`.
  pub in_order :
      (blank : A) {s : System A}
      → 0 < c
      → Reach c (start c blank) s
      → (xs : List A) × Contains c s.ring xs × (s.pushed ≡ s.popped ++ xs) × (length xs + 1 ≤ c)
  in_order blank {s} h r =
      let (xs, v) = Reach-Inv r (start-Inv c blank h) in
      (xs, v.contains, v.history, length-bound s.ring xs v.contains)

  -- In every reachable state in which the producer is about to store to a slot and the consumer to read
  -- one, the two slots differ.
  pub no_race :
      (blank : A) {s : System A} (x : A) (t h : ℕ)
      → 0 < c
      → Reach c (start c blank) s
      → s.producer ≡ Producer.room x t
      → s.consumer ≡ Consumer.ready h
      → t ≢ h
  no_race blank {s} x t h pos r e f =
      let (xs, v) = Reach-Inv r (start-Inv c blank pos) in
      let p = subst (ProducerAt c s.ring) e v.producer in
      let k = subst (ConsumerAt c s.ring) f v.consumer in λ same. k.1 (sym same ∙ p.0)
