-- ===== src/Publisher/Delivery.antt =====
-- What the publisher's loops deliver of a queue's messages.
use cpp_matching_engine.Base.{
  ℕ, zero, suc, ◌<◌, ◌≡◌, refl, sym, subst, ◌∙◌, true, List, [], ◌∷◌, some, arith, length, take,
  drop, u64_mod,
}
use cpp_matching_engine.Spsc.{Ring, try_pop}
use cpp_matching_engine.Spsc.Refine.{Contains, try_pop-empty, try_pop-first}
use cpp_matching_engine.Spsc.Window.{distance-cases}
use cpp_matching_engine.Publisher.Calls.{Calls, handle_all, handle_all-Calls}
use cpp_matching_engine.Publisher.{
  OutMsg, Publisher, handle, batch_loop, batch_limit, poll, drain_loop, drain,
}

-- `p'` is the publisher after `sent` has been delivered, with `left` in its queue.
pub record Delivered (c : ℕ) (p p' : Publisher) (sent left : List OutMsg) : Type 0 where
  pub waiting : Contains c p'.queue left
  pub calls : Calls p p' sent

abbrev pub with_queue : Publisher → Ring OutMsg → Publisher
with_queue p q = record p { queue = q }

handle_all-with_queue :
    (p : Publisher) (q q' : Ring OutMsg) (ms : List OutMsg)
    → with_queue (handle_all (with_queue p q) ms) q' ≡ with_queue (handle_all p ms) q'
unfolding handle_all handle
handle_all-with_queue p q q' [] = refl
handle_all-with_queue p q q' (m ∷ ms) = handle_all-with_queue (handle p m) q q' ms

module _ (c : ℕ) where
  abbrev Handled : Publisher → Publisher → List OutMsg → List OutMsg → Type 0
  Handled p p' sent left =
      (q : Ring OutMsg) × Contains c q left × (p' ≡ with_queue (handle_all p sent) q)

  Handled-step :
      (p p' : Publisher) (q : Ring OutMsg) (m : OutMsg) (sent left : List OutMsg)
      → Handled (handle (with_queue p q) m) p' sent left
      → Handled p p' (m ∷ sent) left
  unfolding handle_all handle
  Handled-step p p' q m sent left d =
      (d.0, d.1, d.2 ∙ handle_all-with_queue (handle p m) q d.0 sent)

  -- A loop round on a message of the queue.
  batch_loop-suc :
      (n : ℕ) (p : Publisher) (m : OutMsg)
      → (try_pop c p.queue).1 ≡ some m
      → batch_loop c (suc n) p ≡ batch_loop c n (handle (with_queue p (try_pop c p.queue).0) m)
  unfolding batch_loop
  batch_loop-suc n p m got = rw (got, batch_loop)

  drain_loop-suc :
      (n : ℕ) (p : Publisher) (m : OutMsg)
      → (try_pop c p.queue).1 ≡ some m
      → drain_loop c (suc n) p ≡ drain_loop c n (handle (with_queue p (try_pop c p.queue).0) m)
  unfolding drain_loop
  drain_loop-suc n p m got = rw (got, drain_loop)

  batch_loop-Handled :
      (n : ℕ) (p : Publisher) (xs : List OutMsg)
      → Contains c p.queue xs
      → Handled p (batch_loop c n p) (take n xs) (drop (suc n) xs)
  unfolding batch_loop handle_all handle
  batch_loop-Handled zero p [] k =
      let stay = try_pop-empty c p.queue k in (p.queue, k, rw (stay, batch_loop))
  batch_loop-Handled zero p (x ∷ ys) k =
      ((try_pop c p.queue).0, (try_pop-first c p.queue x ys k).1, refl)
  batch_loop-Handled (suc n) p [] k =
      let stay = try_pop-empty c p.queue k in (p.queue, k, rw (stay, batch_loop))
  batch_loop-Handled (suc n) p (x ∷ ys) k =
      let (got, k') = try_pop-first c p.queue x ys k in
      Handled-step p (batch_loop c (suc n) p) (try_pop c p.queue).0 x (take n ys) (drop (suc n) ys)
        (subst
          (λ p'.
            Handled (handle (with_queue p (try_pop c p.queue).0) x) p' (take n ys)
              (drop (suc n) ys))
          (sym (batch_loop-suc n p x got))
          (batch_loop-Handled n (handle (with_queue p (try_pop c p.queue).0) x) ys k'))

  poll-running : (p : Publisher) → p.running ≡ true → poll c p ≡ batch_loop c batch_limit p
  unfolding poll
  poll-running p on = simp on

  drain_loop-Handled :
      (n : ℕ) (p : Publisher) (xs : List OutMsg)
      → Contains c p.queue xs
      → length xs < n
      → Handled p (drain_loop c n p) xs []
  unfolding drain_loop handle_all handle
  drain_loop-Handled zero p xs k h = absurd (omega (arith, h))
  drain_loop-Handled (suc n) p [] k h =
      let stay = try_pop-empty c p.queue k in (p.queue, k, rw (stay, drain_loop))
  drain_loop-Handled (suc n) p (x ∷ ys) k h =
      let (got, k') = try_pop-first c p.queue x ys k in
      Handled-step p (drain_loop c (suc n) p) (try_pop c p.queue).0 x ys [] (
        subst (λ p'. Handled (handle (with_queue p (try_pop c p.queue).0) x) p' ys [])
          (sym (drain_loop-suc n p x got))
          (drain_loop-Handled n (handle (with_queue p (try_pop c p.queue).0) x) ys k'
            (omega (arith, h))))

  handled :
      (p p' : Publisher) (sent left : List OutMsg)
      → p.processed < u64_mod
      → Handled p p' sent left
      → Delivered c p p' sent left
  handled p p' sent left small (q, k, same) =
      let gone = handle_all-Calls p sent small in
      subst (λ y. Delivered c p y sent left) (sym same)
        (record {
          waiting = k;
          calls = record {
            trades = gone.trades;
            execs = gone.execs;
            counted = gone.counted;
            running = gone.running;
          };
        })

  -- If the queue holds the messages `xs` and the count of messages fits its type, then one round of a
  -- running publisher gives the trades among the first 512 of them to the trade callback and the
  -- execution reports among these to the other callback, if there is one, in order, and counts 512
  -- messages, or all if there are fewer; and it leaves the queue without its first 513: a 513th message
  -- is taken out of the queue and neither counted nor given to a callback.
  pub poll-Delivered :
      (p : Publisher) (xs : List OutMsg)
      → Contains c p.queue xs
      → p.running ≡ true
      → p.processed < u64_mod
      → Delivered c p (poll c p) (take batch_limit xs) (drop (suc batch_limit) xs)
  poll-Delivered p xs k on small =
      handled p (poll c p) (take batch_limit xs) (drop (suc batch_limit) xs) small (
        subst (λ p'. Handled p p' (take batch_limit xs) (drop (suc batch_limit) xs))
          (sym (poll-running p on)) (batch_loop-Handled batch_limit p xs k))

  -- If the queue holds the messages `xs` and the count of messages fits its type, then the drain after
  -- the stop signal gives the trades among them to the trade callback and the execution reports to the
  -- other callback, if there is one, in order, counts all of them, and leaves the queue empty.
  pub drain-Delivered :
      (p : Publisher) (xs : List OutMsg)
      → Contains c p.queue xs
      → p.processed < u64_mod
      → Delivered c p (drain c p) xs []
  unfolding drain
  drain-Delivered p xs k small = handled p (drain c p) xs [] small (
      drain_loop-Handled c p xs k
        (omega (arith, k.count, distance-cases c p.queue.head p.queue.tail k.head_in k.tail_in)))
