-- ===== src/Photon/Log.antt =====
-- The event log of `PhotonBook` over a sequence of calls.
use cpp_matching_engine.Base.{
  ℕ, ◌≡◌, refl, sym, ap, ◌∙◌, subst, inl, inr, Bool, true, false, List, [], ◌∷◌, Option, none, some,
  Bool-cases, Option-cases, ◌==◌, ◌&&◌, ltb, leb, ◌>>=◌, if◌then◌else◌,
}
use cpp_matching_engine.Base.Int.{eqb_ℤ}
use cpp_matching_engine.Types.{
  OrderId, Quantity, Price, OwnerId, Side, OrderType, limit, ExecResult, no_result, TimeInForce,
}
use cpp_matching_engine.Pool.{Handle}
use cpp_matching_engine.FlatMap
use cpp_matching_engine.RefBook.Sweeps.{some-inj}
use cpp_matching_engine.Photon.State.{
  replaced, expired, BookUpdate, PhotonBook, ExpiryEntry, order_at,
}
use cpp_matching_engine.Photon.Levels.{emit, remove}
use cpp_matching_engine.Photon.{
  submit, take_off, cancel, modify, reduce, expire, expiry_loop, check_expiry,
}
use cpp_matching_engine.Photon.Quiet.{bind-some, remove-Quiet}
use cpp_matching_engine.Photon.Events.{Sends, Sends-quiet, Sends-trans, emit-Sends}
use cpp_matching_engine.Photon.Sent.{submit-Sends, take_off-Sends}

module _ {ℓ} {S : Type ℓ} (sink_call : S → BookUpdate → S) where
  abbrev unchanged : (b : PhotonBook S) → Sends sink_call b b
  unchanged b = Sends-quiet sink_call (record { seq = refl; sink = refl })

  cancel-Sends :
      (b : PhotonBook S) (id : OrderId) (x : PhotonBook S × Bool)
      → cancel sink_call b id ≡ some x
      → Sends sink_call b x.0
  unfolding cancel
  cancel-Sends b id x e =
      let act : Option Handle → Option (PhotonBook S × Bool) = λ place. elim place [
        | none ↦ some (b, false)
        | some h ↦ take_off sink_call b id h >>= λ b1. some (b1, true)
      ] in
      let (place, f, g) = bind-some (FlatMap.find 0 b.id_index id) act x e in
      elim (Option-cases place) [
        | inl n ↦
            subst (λ (y : PhotonBook S × Bool). Sends sink_call b y.0)
              (some-inj (b, false) x (sym (ap act n) ∙ g)) (unchanged b)
        | inr (h, n) ↦
            let (b1, k, l) =
              bind-some (take_off sink_call b id h) (λ b1. some (b1, true)) x
                (sym (ap act n) ∙ g) in
            subst (λ (y : PhotonBook S × Bool). Sends sink_call b y.0) (some-inj (b1, true) x l)
              (take_off-Sends sink_call b b1 id h k)
      ]

  expire-Sends :
      (b b' : PhotonBook S) (id : OrderId) → expire sink_call b id ≡ some b' → Sends sink_call b b'
  unfolding expire
  expire-Sends b b' id e =
      let gone : Handle → PhotonBook S =
        λ h. let o = order_at b h in emit sink_call b expired o.side id 0 o.price o.remaining 0 in
      let act : Option Handle → Option (PhotonBook S) =
        λ place. elim place [ none ↦ some b | some h ↦ remove (gone h) id h ] in
      let (place, f, g) = bind-some (FlatMap.find 0 b.id_index id) act b' e in
      elim (Option-cases place) [
        | inl n ↦ subst (Sends sink_call b) (some-inj b b' (sym (ap act n) ∙ g)) (unchanged b)
        | inr (h, n) ↦
            let o = order_at b h in
            Sends-trans sink_call (emit-Sends sink_call b expired o.side id 0 o.price o.remaining 0)
              (Sends-quiet sink_call (remove-Quiet (gone h) b' id h (sym (ap act n) ∙ g)))
      ]

  expiry_loop-Sends :
      (now : ℕ) (es : List ExpiryEntry) (b b' : PhotonBook S)
      → expiry_loop sink_call now es b ≡ some b'
      → Sends sink_call b b'
  unfolding expiry_loop
  expiry_loop-Sends now [] b b' e = subst (Sends sink_call b) (some-inj b b' e) (unchanged b)
  expiry_loop-Sends now (x ∷ es) b b' e = elim (Bool-cases (ltb now x.expiry_ns)) [
    | inl c ↦ subst (Sends sink_call b) (some-inj b b' (sym (rw c refl) ∙ e)) (unchanged b)
    | inr c ↦
        let rest = record b { expiry_queue = es } in
        let (b1, f, g) =
          bind-some (expire sink_call rest x.order_id) (expiry_loop sink_call now es) b'
            (sym (rw c refl) ∙ e) in
        Sends-trans sink_call (Sends-quiet sink_call (record { seq = refl; sink = refl })) (
          Sends-trans sink_call (expire-Sends rest b1 x.order_id f)
            (expiry_loop-Sends now es b1 b' g))
  ]

  -- What `modify` does with an order that it finds.
  modify_found-Sends :
      (b : PhotonBook S) (id : OrderId) (h : Handle) (new_price : Price) (new_qty : Quantity)
      (x : PhotonBook S × ExecResult)
      → (let o = order_at b h in
          if new_qty == 0
          then (take_off sink_call b id h >>= λ b1.
              some (b1, record no_result { id = id; accepted = true }))
          else if eqb_ℤ new_price o.price && leb new_qty o.remaining
          then some (
            emit sink_call (reduce b h new_qty) replaced o.side id 0 new_price new_qty new_qty,
            record no_result { id = id; accepted = true; resting = new_qty },
          )
          else (remove b id h >>= λ b1.
              submit sink_call b1 id o.side limit new_price new_qty o.owner o.tif o.expiry_ns))
        ≡ some x
      → Sends sink_call b x.0
  modify_found-Sends b id h new_price new_qty x e =
      let o = order_at b h in
      let done : PhotonBook S → PhotonBook S × ExecResult =
        λ b1. (b1, record no_result { id = id; accepted = true }) in
      let edited : PhotonBook S × ExecResult = (
        emit sink_call (reduce b h new_qty) replaced o.side id 0 new_price new_qty new_qty,
        record no_result { id = id; accepted = true; resting = new_qty },
      ) in
      elim (Bool-cases (new_qty == 0)) [
        | inl z ↦
            let (b1, f, g) =
              bind-some (take_off sink_call b id h) (λ b1. some (done b1)) x
                (sym (rw z refl) ∙ e) in
            subst (λ (y : PhotonBook S × ExecResult). Sends sink_call b y.0)
              (some-inj (done b1) x g) (take_off-Sends sink_call b b1 id h f)
        | inr z ↦ elim (Bool-cases (eqb_ℤ new_price o.price && leb new_qty o.remaining)) [
          | inl c ↦
              subst (λ (y : PhotonBook S × ExecResult). Sends sink_call b y.0)
                (some-inj edited x (sym (rw (z, c) refl) ∙ e))
                (Sends-trans sink_call (Sends-quiet sink_call (record { seq = refl; sink = refl }))
                  (emit-Sends sink_call (reduce b h new_qty) replaced o.side id 0 new_price new_qty
                    new_qty))
          | inr c ↦
              let (b1, f, g) =
                bind-some (remove b id h)
                  (λ b1.
                    submit sink_call b1 id o.side limit new_price new_qty o.owner o.tif o.expiry_ns)
                  x (sym (rw (z, c) refl) ∙ e) in
              Sends-trans sink_call (Sends-quiet sink_call (remove-Quiet b b1 id h f)) (
                submit-Sends sink_call b1 id o.side limit new_price new_qty o.owner o.tif
                  o.expiry_ns x g)
        ]
      ]

  modify-Sends :
      (b : PhotonBook S) (id : OrderId) (new_price : Price) (new_qty : Quantity)
      (x : PhotonBook S × ExecResult)
      → modify sink_call b id new_price new_qty ≡ some x
      → Sends sink_call b x.0
  unfolding modify
  modify-Sends b id new_price new_qty x e =
      let done : PhotonBook S → PhotonBook S × ExecResult =
        λ b1. (b1, record no_result { id = id; accepted = true }) in
      let act : Option Handle → Option (PhotonBook S × ExecResult) = λ place. elim place [
        | none ↦ some (b, no_result)
        | some h ↦
            let o = order_at b h in
            if new_qty == 0
            then (take_off sink_call b id h >>= λ b1. some (done b1))
            else if eqb_ℤ new_price o.price && leb new_qty o.remaining
            then some (
              emit sink_call (reduce b h new_qty) replaced o.side id 0 new_price new_qty new_qty,
              record no_result { id = id; accepted = true; resting = new_qty },
            )
            else (remove b id h >>= λ b1.
                submit sink_call b1 id o.side limit new_price new_qty o.owner o.tif o.expiry_ns)
      ] in
      let (place, f, g) = bind-some (FlatMap.find 0 b.id_index id) act x e in
      elim (Option-cases place) [
        | inl n ↦
            subst (λ (y : PhotonBook S × ExecResult). Sends sink_call b y.0)
              (some-inj (b, no_result) x (sym (ap act n) ∙ g)) (unchanged b)
        | inr (h, n) ↦ modify_found-Sends b id h new_price new_qty x (sym (ap act n) ∙ g)
      ]

pub data Call : Type 0 where
  submit_order : OrderId → Side → OrderType → Price → Quantity → OwnerId → TimeInForce → ℕ → Call
  cancel_order : OrderId → Call
  modify_order : OrderId → Price → Quantity → Call
  expire_until : ℕ → Call

module _ {ℓ} {S : Type ℓ} (sink_call : S → BookUpdate → S) where
  unfoldable pub photon_call : Call → PhotonBook S → Option (PhotonBook S)
  unfolding submit cancel modify check_expiry
  photon_call (submit_order id side type p qty owner tif expiry) b =
      submit sink_call b id side type p qty owner tif expiry >>= λ x. some x.0
  photon_call (cancel_order id) b = cancel sink_call b id >>= λ x. some x.0
  photon_call (modify_order id p qty) b = modify sink_call b id p qty >>= λ x. some x.0
  photon_call (expire_until now) b = check_expiry sink_call now b

  unfoldable pub photon_run : List Call → PhotonBook S → Option (PhotonBook S)
  unfolding photon_call
  photon_run [] b = some b
  photon_run (c ∷ cs) b = photon_call c b >>= photon_run cs

  photon_call-Sends :
      (c : Call) (b b' : PhotonBook S) → photon_call c b ≡ some b' → Sends sink_call b b'
  unfolding photon_call check_expiry
  photon_call-Sends (submit_order id side type p qty owner tif expiry) b b' e =
      let (x, f, g) =
        bind-some (submit sink_call b id side type p qty owner tif expiry) (λ x. some x.0) b' e in
      subst (Sends sink_call b) (some-inj x.0 b' g)
        (submit-Sends sink_call b id side type p qty owner tif expiry x f)
  photon_call-Sends (cancel_order id) b b' e =
      let (x, f, g) = bind-some (cancel sink_call b id) (λ x. some x.0) b' e in
      subst (Sends sink_call b) (some-inj x.0 b' g) (cancel-Sends sink_call b id x f)
  photon_call-Sends (modify_order id p qty) b b' e =
      let (x, f, g) = bind-some (modify sink_call b id p qty) (λ x. some x.0) b' e in
      subst (Sends sink_call b) (some-inj x.0 b' g) (modify-Sends sink_call b id p qty x f)
  photon_call-Sends (expire_until now) b b' e =
      expiry_loop-Sends sink_call now b.expiry_queue b b' e

  -- For every sink: when a sequence of `submit`, `cancel`, `modify` and `check_expiry` calls on the
  -- hardened book returns, the sink has been given one list of events and nothing else, in order, the
  -- events are numbered consecutively (modulo 2^64) from the book's counter before the calls, and the
  -- counter has moved on by their number.
  pub photon_run-Sends :
      (cs : List Call) (b b' : PhotonBook S) → photon_run cs b ≡ some b' → Sends sink_call b b'
  unfolding photon_run
  photon_run-Sends [] b b' e = subst (Sends sink_call b) (some-inj b b' e) (unchanged sink_call b)
  photon_run-Sends (c ∷ cs) b b' e =
      let (b1, f, g) = bind-some (photon_call c b) (photon_run cs) b' e in
      Sends-trans sink_call (photon_call-Sends c b b1 f) (photon_run-Sends cs b1 b' g)
