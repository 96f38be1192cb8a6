-- ===== src/Photon/Sent.antt =====
-- The events of the sweep and of the public calls of `PhotonBook`.
use cpp_matching_engine.Base.{
  ℕ, zero, suc, ◌≡◌, refl, sym, ◌∙◌, subst, ◌⊎◌, inl, inr, true, not, Option, none, some,
  Bool-cases, Option-cases, ◌==◌, ◌||◌, ◌&&◌, ltb, add64, sub64,
}
use cpp_matching_engine.Types.{
  OrderId, Quantity, Price, OwnerId, Side, OrderType, is_limit, is_fok, ExecResult, no_result,
  TimeInForce,
}
use cpp_matching_engine.Pool.{Handle}
use cpp_matching_engine.OrderBook.Match.{smaller, self_trade}
use cpp_matching_engine.RefBook.Sweeps.{some-inj}
use cpp_matching_engine.Photon.State.{
  UpdateType, ack, canceled, rejected, BookUpdate, PhotonBook, level_at, order_at,
}
use cpp_matching_engine.Photon.Levels.{set_remaining, set_total, emit, rest_order}
use cpp_matching_engine.Photon.Match.{Sweep, crossing, fill, match_round, match_loop, match}
use cpp_matching_engine.Photon.CanFill.{can_fill}
use cpp_matching_engine.Photon.{limit_price, would_cross, settle, submit, take_off}
use cpp_matching_engine.Photon.Quiet.{Quiet, Quiet-trans, bind-some, remove-Quiet}
use cpp_matching_engine.Photon.Events.{
  Sends, Sends-quiet, Sends-trans, emit-Sends, rest_order-Sends,
}

none-some {ℓ κ} : {A : Type ℓ} {B : Type κ} (o : Option A) (a : A) → o ≡ none → o ≡ some a → B
none-some o a e f = absurd (cc)

round_cases {ℓ} :
    {A : Type ℓ} (o : Option (Option A))
    → (o ≡ none) ⊎ (o ≡ some none) ⊎ ((a : A) × (o ≡ some (some a)))
round_cases none = inl refl
round_cases (some none) = inr (inl refl)
round_cases (some (some a)) = inr (inr (a, refl))

module _ {ℓ} {S : Type ℓ} (sink_call : S → BookUpdate → S) where
  module _ (incoming_id : OrderId) (side : Side) (lim : Price) (owner : OwnerId) where
    fill-Sends :
        (b b' : PhotonBook S) (left : Quantity) (h : Handle) (traded : Quantity)
        → fill sink_call incoming_id side lim owner b left h traded ≡ some b'
        → Sends sink_call b b'
    unfolding fill
    fill-Sends b b' left h traded e =
        let o = order_at b h in
        let b1 =
          emit sink_call b UpdateType.fill side incoming_id o.id o.price traded
            (sub64 left traded) in
        let sent =
          emit-Sends sink_call b UpdateType.fill side incoming_id o.id o.price traded
            (sub64 left traded) in
        let b2 = set_remaining b1 h (sub64 o.remaining traded) in
        let b3 = set_total b2 o.price (sub64 (level_at b2 o.price).total traded) in
        let quiet : Quiet b1 b3 = record { seq = refl; sink = refl } in
        elim (Bool-cases (sub64 o.remaining traded == 0)) [
          | inl c ↦ Sends-trans sink_call sent (
              Sends-quiet sink_call
                (Quiet-trans quiet (remove-Quiet b3 b' o.id h (sym (rw c refl) ∙ e))))
          | inr c ↦
              subst (Sends sink_call b) (some-inj b3 b' (sym (rw c refl) ∙ e))
                (Sends-trans sink_call sent (Sends-quiet sink_call quiet))
        ]

    round-Sends :
        (s s' : Sweep S)
        → match_round sink_call incoming_id side lim owner s ≡ some (some s')
        → Sends sink_call s.book s'.book
    unfolding match_round
    round-Sends s s' e = elim (Option-cases (crossing s.book side lim)) [
      | inl c ↦
          none-some none s' refl (some-inj none (some s') (sym (rw (c, match_round) refl) ∙ e))
      | inr (h, c) ↦
          let o = order_at s.book h in
          let traded = smaller s.remaining o.remaining in
          elim (Bool-cases (s.remaining == 0 || self_trade owner o.owner)) [
            | inl d ↦
                none-some none s' refl
                  (some-inj none (some s') (sym (rw (c, match_round) (rw d refl)) ∙ e))
            | inr d ↦
                let next : PhotonBook S → Sweep S = λ b. record {
                  book = b;
                  remaining = sub64 s.remaining traded;
                  total_filled = add64 s.total_filled traded;
                } in
                let (b, f, g) =
                  bind-some (fill sink_call incoming_id side lim owner s.book s.remaining h traded)
                    (λ b. some (some (next b))) (some s')
                    (sym (rw (c, match_round) (rw d refl)) ∙ e) in
                subst (λ (t : Sweep S). Sends sink_call s.book t.book)
                  (some-inj (next b) s' (some-inj (some (next b)) (some s') g))
                  (fill-Sends s.book b s.remaining h traded f)
          ]
    ]

    loop-Sends :
        (n : ℕ) (s s' : Sweep S)
        → match_loop sink_call incoming_id side lim owner n s ≡ some s'
        → Sends sink_call s.book s'.book
    unfolding match_loop
    loop-Sends zero s s' e =
        subst (λ (t : Sweep S). Sends sink_call s.book t.book) (some-inj s s' e)
          (Sends-quiet sink_call (record { seq = refl; sink = refl }))
    loop-Sends (suc n) s s' e =
        elim (round_cases (match_round sink_call incoming_id side lim owner s)) [
          | inl f ↦ none-some none s' refl (sym (rw (f, match_loop) refl) ∙ e)
          | inr (inl f) ↦
              subst (λ (t : Sweep S). Sends sink_call s.book t.book)
                (some-inj s s' (sym (rw (f, match_loop) refl) ∙ e))
                (Sends-quiet sink_call (record { seq = refl; sink = refl }))
          | inr (inr (t, f)) ↦
              Sends-trans sink_call (round-Sends s t f)
                (loop-Sends n t s' (sym (rw (f, match_loop) refl) ∙ e))
        ]

  settle-Sends :
      (s : Sweep S) (id : OrderId) (side : Side) (type : OrderType) (p : Price) (owner : OwnerId)
      (tif : TimeInForce) (expiry : ℕ) (x : PhotonBook S × ExecResult)
      → settle sink_call s id side type p owner tif expiry ≡ some x
      → Sends sink_call s.book x.0
  unfolding settle
  settle-Sends s id side type p owner tif expiry x e =
      let r : ExecResult = record {
        id = id;
        filled = s.total_filled;
        resting = 0;
        accepted = true;
        fully_filled = s.remaining == 0;
      } in
      elim (Bool-cases (ltb 0 s.remaining && is_limit type && not (would_cross s.book side p))) [
        | inl c ↦
            let done : PhotonBook S → PhotonBook S × ExecResult = λ b. (
              emit sink_call b ack side id 0 p s.remaining s.remaining,
              record r { resting = s.remaining },
            ) in
            let (b, f, g) =
              bind-some (rest_order sink_call s.book id side p s.remaining owner tif expiry)
                (λ b. some (done b)) x (sym (rw c refl) ∙ e) in
            subst (λ (y : PhotonBook S × ExecResult). Sends sink_call s.book y.0)
              (some-inj (done b) x g)
              (Sends-trans sink_call
                (rest_order-Sends sink_call s.book b id side p s.remaining owner tif expiry f)
                (emit-Sends sink_call b ack side id 0 p s.remaining s.remaining))
        | inr c ↦
            subst (λ (y : PhotonBook S × ExecResult). Sends sink_call s.book y.0)
              (some-inj (s.book, r) x (sym (rw c refl) ∙ e))
              (Sends-quiet sink_call (record { seq = refl; sink = refl }))
      ]

  -- A `submit` that returns.
  pub submit-Sends :
      (b : PhotonBook S) (id : OrderId) (side : Side) (type : OrderType) (p : Price)
      (qty : Quantity) (owner : OwnerId) (tif : TimeInForce) (expiry : ℕ)
      (x : PhotonBook S × ExecResult)
      → submit sink_call b id side type p qty owner tif expiry ≡ some x
      → Sends sink_call b x.0
  unfolding submit match
  submit-Sends b id side type p qty owner tif expiry x e =
      elim (Bool-cases (is_fok type && not (can_fill b side p qty owner))) [
        | inl c ↦
            subst (λ (y : PhotonBook S × ExecResult). Sends sink_call b y.0)
              (some-inj (emit sink_call b rejected side id 0 p qty 0, record no_result { id = id })
                x (sym (rw c refl) ∙ e))
              (emit-Sends sink_call b rejected side id 0 p qty 0)
        | inr c ↦
            let (s, f, g) =
              bind-some (match sink_call id side (limit_price b side type p) owner b qty)
                (λ s. settle sink_call s id side type p owner tif expiry) x (sym (rw c refl) ∙ e) in
            Sends-trans sink_call
              (loop-Sends id side (limit_price b side type p) owner (suc b.pool.in_use)
                (record { book = b; remaining = qty; total_filled = 0 }) s f)
              (settle-Sends s id side type p owner tif expiry x g)
      ]

  pub take_off-Sends :
      (b b' : PhotonBook S) (id : OrderId) (h : Handle)
      → take_off sink_call b id h ≡ some b'
      → Sends sink_call b b'
  unfolding take_off
  take_off-Sends b b' id h e =
      let o = order_at b h in
      Sends-trans sink_call (emit-Sends sink_call b canceled o.side id 0 o.price 0 0) (
        Sends-quiet sink_call
          (remove-Quiet (emit sink_call b canceled o.side id 0 o.price 0 0) b' id h e))
