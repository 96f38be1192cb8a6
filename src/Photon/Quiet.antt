-- ===== src/Photon/Quiet.antt =====
-- The operations of `PhotonBook` that send no event: they leave the sink and the counter alone.
use cpp_matching_engine.Base.{
  ℕ, ◌≡◌, refl, subst, ◌∙◌, inl, inr, Bool-cases, Option, none, some, ◌==◌, ◌&&◌, ltb, ◌>>=◌,
}
use cpp_matching_engine.Base.Int.{eqb_ℤ}
use cpp_matching_engine.Types.{OrderId, Price, Side, buy, sell, TimeInForce, gtc, day, gtd}
use cpp_matching_engine.Pool
use cpp_matching_engine.Pool.{Handle, Pool, null_handle}
use cpp_matching_engine.FlatMap
use cpp_matching_engine.FlatMap.{FlatMap}
use cpp_matching_engine.OrderBook.State.{is_empty}
use cpp_matching_engine.Photon.State.{BookUpdate, PhotonOrder, PhotonBook, level_at, order_at}
use cpp_matching_engine.Photon.Levels.{
  reprice, skip_forward, skip_backward, splice, take_out, unlink_and_free, improve, append_order,
  place, remove, enqueue,
}
use cpp_matching_engine.RefBook.Sweeps.{some-inj}

-- What a chain of results that returned went through.
pub bind-some {ℓ κ} :
    {A : Type ℓ} {B : Type κ} (o : Option A) (f : A → Option B) (c : B)
    → (o >>= f) ≡ some c
    → (a : A) × (o ≡ some a) × (f a ≡ some c)
bind-some none f c e = absurd (cc)
bind-some (some a) f c e = (a, refl, e)

module _ {ℓ} {S : Type ℓ} where
  pub record Quiet (b b' : PhotonBook S) : Type ℓ where
    pub seq : b'.seq ≡ b.seq
    pub sink : b'.sink ≡ b.sink

  pub Quiet-trans : {b b' b'' : PhotonBook S} → Quiet b b' → Quiet b' b'' → Quiet b b''
  Quiet-trans a c = record { seq = c.seq ∙ a.seq; sink = c.sink ∙ a.sink }

  skip_forward-Quiet : (b : PhotonBook S) (o : PhotonOrder) → Quiet b (skip_forward b o)
  unfolding skip_forward
  skip_forward-Quiet b o = elim (Bool-cases (o.prev == null_handle)) [
    | inl e ↦ rw e (record { seq = refl; sink = refl })
    | inr e ↦ rw e (record { seq = refl; sink = refl })
  ]

  skip_backward-Quiet : (b : PhotonBook S) (o : PhotonOrder) → Quiet b (skip_backward b o)
  unfolding skip_backward
  skip_backward-Quiet b o = elim (Bool-cases (o.next == null_handle)) [
    | inl e ↦ rw e (record { seq = refl; sink = refl })
    | inr e ↦ rw e (record { seq = refl; sink = refl })
  ]

  take_out-Quiet : (b : PhotonBook S) (h : Handle) → Quiet b (take_out b h)
  unfolding take_out splice
  take_out-Quiet b h =
      let o = order_at b h in
      let both = Quiet-trans (skip_forward-Quiet b o) (skip_backward-Quiet (skip_forward b o) o) in
      record { seq = both.seq; sink = both.sink }

  reprice-Quiet : (b : PhotonBook S) (s : Side) (p : Price) → Quiet b (reprice b s p)
  unfolding reprice
  reprice-Quiet b buy p = elim (Bool-cases (is_empty (level_at b p) && eqb_ℤ p b.best_bid)) [
    | inl e ↦ rw e (record { seq = refl; sink = refl })
    | inr e ↦ rw e (record { seq = refl; sink = refl })
  ]
  reprice-Quiet b sell p = elim (Bool-cases (is_empty (level_at b p) && eqb_ℤ p b.best_ask)) [
    | inl e ↦ rw e (record { seq = refl; sink = refl })
    | inr e ↦ rw e (record { seq = refl; sink = refl })
  ]

  unlink_and_free-Quiet : (b : PhotonBook S) (h : Handle) → Quiet b (unlink_and_free b h)
  unfolding unlink_and_free
  unlink_and_free-Quiet b h =
      Quiet-trans (take_out-Quiet b h)
        (reprice-Quiet (take_out b h) (order_at b h).side (order_at b h).price)

  append_order-Quiet : (b : PhotonBook S) (h : Handle) (p : Price) → Quiet b (append_order b h p)
  unfolding append_order
  append_order-Quiet b h p = elim (Bool-cases (is_empty (level_at b p))) [
    | inl e ↦ rw e (record { seq = refl; sink = refl })
    | inr e ↦ rw e (record { seq = refl; sink = refl })
  ]

  pub place-Quiet :
      (b : PhotonBook S) (pool : Pool PhotonOrder) (h : Handle) (o : PhotonOrder)
      → Quiet b (place b pool h o)
  unfolding place
  place-Quiet b pool h o =
      let a = append_order-Quiet (record b { pool = Pool.put pool h o }) h o.price in
      record { seq = a.seq; sink = a.sink }

  pub improve-Quiet : (b : PhotonBook S) (s : Side) (p : Price) → Quiet b (improve b s p)
  improve-Quiet b buy p = record { seq = refl; sink = refl }
  improve-Quiet b sell p = record { seq = refl; sink = refl }

  pub remove-Quiet :
      (b b' : PhotonBook S) (id : OrderId) (h : Handle) → remove b id h ≡ some b' → Quiet b b'
  unfolding remove
  remove-Quiet b b' id h e =
      let b1 = unlink_and_free b h in
      let (r, f, g) =
        bind-some (FlatMap.erase 0 b1.id_index id) (λ r. some (record b1 { id_index = r.0 })) b'
          e in
      let q = unlink_and_free-Quiet b h in
      subst (Quiet b) (some-inj (record b1 { id_index = r.0 }) b' g)
        (record { seq = q.seq; sink = q.sink })

pub enqueue-Quiet {ℓ} :
    {S : Type ℓ} (sink_call : S → BookUpdate → S) (b : PhotonBook S) (tif : TimeInForce)
    (expiry : ℕ) (id : OrderId)
    → Quiet b (enqueue sink_call tif expiry id b)
enqueue-Quiet sink_call b gtc expiry id = record { seq = refl; sink = refl }
enqueue-Quiet sink_call b day expiry id = record { seq = refl; sink = refl }
enqueue-Quiet sink_call b gtd expiry id = elim (Bool-cases (ltb 0 expiry)) [
  | inl e ↦ rw e (record { seq = refl; sink = refl })
  | inr e ↦ rw e (record { seq = refl; sink = refl })
]
