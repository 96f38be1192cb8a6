-- ===== src/RefBook/Quantities.antt =====
-- The quantities that the reference book reports.
use cpp_matching_engine.Base.{
  ℕ, zero, suc, ◌+◌, ◌<◌, ◌≡◌, sym, ◌∙◌, subst, inl, inr, Bool, not, [], ◌∷◌, some, arith, u64_mod,
  ltb, Bool-cases, Option-cases, ◌==◌, ◌||◌, ◌&&◌,
}
use cpp_matching_engine.Types.{
  OrderId, Quantity, Price, OwnerId, Side, opposite, OrderType, is_limit, is_fok,
}
use cpp_matching_engine.OrderBook.Quantities.{Accounts}
use cpp_matching_engine.RefBook.State.{RefOrder, Queue, Levels, RefBook, side_levels}
use cpp_matching_engine.RefBook.{
  Sweep, beyond, self_trade, fill_front, round, match_loop, orders_in, start, finish, do_match,
  can_fill, limit_price, would_cross, settle, submit,
}
use cpp_matching_engine.RefBook.Sweeps.{some-inj, round-fills}

abbrev pub Quantities : Sweep → ℕ → Type 0
Quantities s total = s.filled + s.remaining ≡ total

module _ (in_id : OrderId) (side : Side) (lim : Price) (owner : OwnerId) (has_sink : Bool) where
  fill_front-Quantities :
      (s : Sweep) (p : Price) (o : RefOrder) (os : Queue) (ls : Levels) (total : ℕ)
      → total < u64_mod
      → Quantities s total
      → Quantities (fill_front in_id side lim owner has_sink s p o os ls) total
  unfolding fill_front
  fill_front-Quantities s p o os ls total h q = ground (arith, h, q)

  round-Quantities :
      (s s' : Sweep) (ls : Levels) (total : ℕ)
      → total < u64_mod
      → Quantities s total
      → round in_id side lim owner has_sink s ls ≡ some s'
      → Quantities s' total
  unfolding round
  round-Quantities s s' [] total h q e = absurd (cc)
  round-Quantities s s' ((p, []) ∷ ls) total h q e = absurd (cc)
  round-Quantities s s' ((p, o ∷ os) ∷ ls) total h q e =
      elim (Bool-cases (s.remaining == 0 || beyond side lim p || self_trade owner o.owner)) [
        | inl c ↦ absurd (ground (arith, c, e))
        | inr c ↦
            subst (λ t. Quantities t total)
              (some-inj (fill_front in_id side lim owner has_sink s p o os ls) s'
                (sym (round-fills in_id side lim owner has_sink s p o os ls c) ∙ e))
              (fill_front-Quantities s p o os ls total h q)
      ]

  match_loop-Quantities :
      (n : ℕ) (s : Sweep) (total : ℕ)
      → total < u64_mod
      → Quantities s total
      → Quantities (match_loop in_id side lim owner has_sink n s) total
  unfolding match_loop
  match_loop-Quantities zero s total h q = q
  match_loop-Quantities (suc n) s total h q =
      elim (Option-cases (round in_id side lim owner has_sink s s.levels)) [
        | inl e ↦ rw (e, match_loop) q
        | inr (s', e) ↦
            rw (e, match_loop)
              (match_loop-Quantities n s' total h (round-Quantities s s' s.levels total h q e))
      ]

pub do_match-Quantities :
    (b : RefBook) (id : OrderId) (side : Side) (lim : Price) (qty : Quantity) (owner : OwnerId)
    → qty < u64_mod
    → Quantities (do_match b id side lim qty owner) qty
unfolding do_match
do_match-Quantities b id side lim qty owner h =
    match_loop-Quantities id side lim owner b.has_sink
      (suc (orders_in (side_levels b (opposite side)))) (start b side qty) qty h (omega arith)

settle-Accounts :
    (b : RefBook) (s : Sweep) (id : OrderId) (side : Side) (type : OrderType) (p : Price)
    (owner : OwnerId) (qty : Quantity)
    → Quantities s qty
    → Accounts (settle b s id side type p owner).1 qty
unfolding settle
settle-Accounts b s id side type p owner qty q =
    elim (Bool-cases
      (ltb 0 s.remaining && is_limit type && not (would_cross (finish b side s) side p))) [
        | inl e ↦ rw e (
          omega (arith, q),
          λ h. omega (arith, q),
          λ h. ground (arith, q),
          λ a h. ground (arith, q),
        )
        | inr e ↦ rw e (
          omega (arith, q),
          λ h. absurd (omega (arith, h)),
          λ h. ground (arith, q),
          λ a h. ground (arith, q),
        )
      ]

-- For a quantity that fits its type, on any reference book and for every order type, the result of
-- `submit` accounts for the quantity: filled and resting shares are not more than it; if shares rest, they
-- are exactly what is not filled; `fully_filled` implies that all is filled, and an accepted order of
-- which all is filled is `fully_filled`.
pub ref_submit-Accounts :
    (b : RefBook) (id : OrderId) (side : Side) (type : OrderType) (p : Price) (qty : Quantity)
    (owner : OwnerId)
    → qty < u64_mod
    → Accounts (submit b id side type p qty owner).1 qty
unfolding submit
ref_submit-Accounts b id side type p qty owner h =
    elim (Bool-cases (is_fok type && not (can_fill b side p qty owner))) [
      | inl e ↦
          rw e (omega arith, λ k. absurd (omega (arith, k)), λ k. absurd (cc), λ a k. absurd (cc))
      | inr e ↦ rw e (
          settle-Accounts b (do_match b id side (limit_price side type p) qty owner) id side type p
            owner qty (do_match-Quantities b id side (limit_price side type p) qty owner h))
    ]
