-- ===== src/Photon/Events.antt =====
-- The lifecycle events that `PhotonBook` sends to its sink.
use cpp_matching_engine.Base.{
  ℕ, ◌≡◌, refl, sym, ap, ◌∙◌, subst, inl, inr, List, [], ◌∷◌, ◌++◌, some, Bool-cases, ◌==◌, add64,
}
use cpp_matching_engine.Types.{OrderId, Quantity, Price, OwnerId, Side, TimeInForce, Sequence}
use cpp_matching_engine.Pool
use cpp_matching_engine.Pool.{Handle, null_handle, fifo}
use cpp_matching_engine.FlatMap
use cpp_matching_engine.RefBook.Sweeps.{some-inj}
use cpp_matching_engine.Photon.State.{UpdateType, rejected, BookUpdate, PhotonBook, new_order}
use cpp_matching_engine.Photon.Levels.{place, improve, emit, enqueue, rest_order}
use cpp_matching_engine.Photon.Quiet.{
  Quiet, Quiet-trans, bind-some, place-Quiet, improve-Quiet, enqueue-Quiet,
}

-- The events are numbered one after the other, from `n` on.
abbrev pub Numbered : Sequence → List BookUpdate → Type 0
Numbered n [] = Unit {0}
Numbered n (u ∷ us) = (u.seq ≡ n) × Numbered (add64 n 1) us

-- The counter after that many events.
abbrev pub counter : Sequence → List BookUpdate → Sequence
counter n [] = n
counter n (u ∷ us) = counter (add64 n 1) us

module _ {ℓ} {S : Type ℓ} (sink_call : S → BookUpdate → S) where
  -- The sink after those events, in their order.
  abbrev pub feed : S → List BookUpdate → S
  feed s [] = s
  feed s (u ∷ us) = feed (sink_call s u) us

  -- From `b` to `b'` the sink has been given some events and nothing else, with the book's numbers.
  pub record Sends (b b' : PhotonBook S) : Type ℓ where
    pub events : List BookUpdate
    pub sink : b'.sink ≡ feed b.sink events
    pub numbered : Numbered b.seq events
    pub seq : b'.seq ≡ counter b.seq events

  Numbered-append :
      (n : Sequence) (us vs : List BookUpdate)
      → Numbered n us
      → Numbered (counter n us) vs
      → Numbered n (us ++ vs)
  Numbered-append n [] vs a c = c
  Numbered-append n (u ∷ us) vs a c = (a.0, Numbered-append (add64 n 1) us vs a.1 c)

  counter-append :
      (n : Sequence) (us vs : List BookUpdate) → counter n (us ++ vs) ≡ counter (counter n us) vs
  counter-append n [] vs = refl
  counter-append n (u ∷ us) vs = counter-append (add64 n 1) us vs

  feed-append : (s : S) (us vs : List BookUpdate) → feed s (us ++ vs) ≡ feed (feed s us) vs
  feed-append s [] vs = refl
  feed-append s (u ∷ us) vs = feed-append (sink_call s u) us vs

  pub Sends-quiet : {b b' : PhotonBook S} → Quiet b b' → Sends b b'
  Sends-quiet q = record { events = []; sink = q.sink; numbered = tt; seq = q.seq }

  pub Sends-trans : {b b' b'' : PhotonBook S} → Sends b b' → Sends b' b'' → Sends b b''
  Sends-trans {b = b} a c = record {
    events = a.events ++ c.events;
    sink = c.sink ∙ ap (λ s. feed s c.events) a.sink ∙ sym (feed-append b.sink a.events c.events);
    numbered =
        Numbered-append b.seq a.events c.events a.numbered
          (subst (λ n. Numbered n c.events) a.seq c.numbered);
    seq = c.seq ∙ ap (λ n. counter n c.events) a.seq ∙ sym (counter-append b.seq a.events c.events);
  }

  abbrev same : (b : PhotonBook S) → Sends b b
  same b = record { events = []; sink = refl; numbered = tt; seq = refl }

  pub emit-Sends :
      (b : PhotonBook S) (type : UpdateType) (side : Side) (id counter_id : OrderId) (p : Price)
      (qty leaves : Quantity)
      → Sends b (emit sink_call b type side id counter_id p qty leaves)
  unfolding emit
  emit-Sends b type side id counter_id p qty leaves = record {
    events = _ ∷ [];
    sink = refl;
    numbered = (refl, tt);
    seq = refl;
  }

  pub rest_order-Sends :
      (b b' : PhotonBook S) (id : OrderId) (side : Side) (p : Price) (qty : Quantity)
      (owner : OwnerId) (tif : TimeInForce) (expiry : ℕ)
      → rest_order sink_call b id side p qty owner tif expiry ≡ some b'
      → Sends b b'
  unfolding rest_order
  rest_order-Sends b b' id side p qty owner tif expiry e =
      let (pool, h) = Pool.allocate fifo b.pool in
      let b1 = place b pool h (new_order id side p qty owner tif expiry) in
      elim (Bool-cases (h == null_handle)) [
        | inl c ↦
            subst (Sends b)
              (some-inj (emit sink_call b rejected side id 0 p qty 0) b' (sym (rw c refl) ∙ e))
              (emit-Sends b rejected side id 0 p qty 0)
        | inr c ↦
            let kept : FlatMap.FlatMap Handle → PhotonBook S =
              λ i. improve (record b1 { id_index = i }) side p in
            let (index, f, g) =
              bind-some (FlatMap.insert 0 b1.id_index id h)
                (λ i. some (enqueue sink_call tif expiry id (kept i))) b' (sym (rw c refl) ∙ e) in
            let q = place-Quiet b pool h (new_order id side p qty owner tif expiry) in
            subst (Sends b) (some-inj (enqueue sink_call tif expiry id (kept index)) b' g) (
              Sends-quiet (
                Quiet-trans (record { seq = q.seq; sink = q.sink })
                  (Quiet-trans (improve-Quiet (record b1 { id_index = index }) side p)
                    (enqueue-Quiet sink_call (kept index) tif expiry id))))
      ]
