-- ===== src/OrderBook/Quantities.antt =====
-- The quantities that `match` and `submit` report.
use cpp_matching_engine.Base.{
  ℕ, zero, suc, ◌+◌, ◌≤◌, ◌<◌, ◌≡◌, ◌⊎◌, inl, inr, true, none, some, arith, u64_mod, sub64, add64,
  ltb, Bool-cases, Option-cases, ◌==◌, ◌||◌, ◌&&◌, not,
}
use cpp_matching_engine.Types.{
  OrderId, Quantity, Price, OwnerId, Side, OrderType, ExecResult, is_limit, is_fok,
}
use cpp_matching_engine.OrderBook.State.{OrderBook, order_at}
use cpp_matching_engine.OrderBook.Match.{
  Sweep, smaller, self_trade, crossing, fill, match_round, match_loop, match,
}
use cpp_matching_engine.OrderBook.{can_fill, limit_price, would_cross, settle, submit}

abbrev pub Quantities : Sweep → ℕ → Type 0
Quantities s total = s.total_filled + s.remaining ≡ total

module _ (id : OrderId) (side : Side) (limit : Price) (owner : OwnerId) where
  -- A round ends the loop, or trades no more than remains.
  match_round-cases :
      (s : Sweep)
      → (match_round id side limit owner s ≡ none)
        ⊎ ((n : Quantity) × (b : OrderBook) × (n ≤ s.remaining)
            × (match_round id side limit owner s
                ≡ some (record {
                  book = b;
                  remaining = sub64 s.remaining n;
                  total_filled = add64 s.total_filled n;
                })))
  unfolding match_round
  match_round-cases s = elim (Option-cases (crossing s.book side limit)) [
    | inl e ↦ inl (rw (e, match_round))
    | inr (h, e) ↦
        rw (e, match_round)
          (elim (Bool-cases (s.remaining == 0 || self_trade owner (order_at s.book h).owner)) [
            | inl f ↦ inl (rw f)
            | inr f ↦ inr (
              smaller s.remaining (order_at s.book h).remaining,
              fill s.book id h (smaller s.remaining (order_at s.book h).remaining),
              ground arith,
              rw f,
            )
          ])
  ]

  -- A sweep moves shares from the remainder to the filled quantity, and loses none.
  pub match_loop-Quantities :
      (n : ℕ) (s : Sweep) (total : ℕ)
      → total < u64_mod
      → Quantities s total
      → Quantities (match_loop id side limit owner n s) total
  unfolding match_loop
  match_loop-Quantities zero s total h q = q
  match_loop-Quantities (suc n) s total h q = elim (match_round-cases s) [
    | inl e ↦ rw (e, match_loop) q
    | inr (k, b, le, e) ↦
        rw (e, match_loop) (match_loop-Quantities n _ total h (omega (arith, le, h, q)))
  ]

  -- For a quantity that fits its type, on any book, what `match` has filled and what remains add up to the
  -- quantity.
  pub match-Quantities :
      (b : OrderBook) (qty : Quantity)
      → qty < u64_mod
      → Quantities (match id side limit owner b qty) qty
  unfolding match
  match-Quantities b qty h =
      match_loop-Quantities (suc b.pool.in_use)
        (record { book = b; remaining = qty; total_filled = 0 }) qty h (omega arith)

-- What a result says of the order: the filled and the resting shares are not more than the
-- quantity, all of it where an order rests, and `fully_filled` tells whether all of it is filled.
abbrev pub Accounts : ExecResult → Quantity → Type 0
Accounts r qty =
    (r.filled + r.resting ≤ qty)
    × (0 < r.resting → r.filled + r.resting ≡ qty)
    × (r.fully_filled ≡ true → r.filled ≡ qty)
    × (r.accepted ≡ true → r.filled ≡ qty → r.fully_filled ≡ true)

settle-Accounts :
    (s : Sweep) (id : OrderId) (side : Side) (type : OrderType) (p : Price) (owner : OwnerId)
    (qty : Quantity)
    → Quantities s qty
    → Accounts (settle s id side type p owner).1 qty
unfolding settle
settle-Accounts s id side type p owner qty q =
    elim (Bool-cases (ltb 0 s.remaining && is_limit type && not (would_cross s.book side p))) [
      | inl e ↦ rw e (
        omega (arith, q),
        λ h. omega (arith, q),
        λ h. ground (arith, q),
        λ a h. ground (arith, q),
      )
      | inr e ↦ rw e (
        omega (arith, q),
        λ h. absurd (omega (arith, h)),
        λ h. ground (arith, q),
        λ a h. ground (arith, q),
      )
    ]

-- For a quantity that fits its type, on any book and for every order type, the result of `submit` accounts
-- for the quantity: filled and resting shares are not more than it; if shares rest, they are exactly what
-- is not filled; `fully_filled` implies that all is filled, and an accepted order of which all is filled
-- is `fully_filled`.
pub submit-Accounts :
    (b : OrderBook) (id : OrderId) (side : Side) (type : OrderType) (p : Price) (qty : Quantity)
    (owner : OwnerId)
    → qty < u64_mod
    → Accounts (submit b id side type p qty owner).1 qty
unfolding submit
submit-Accounts b id side type p qty owner h =
    elim (Bool-cases (is_fok type && not (can_fill b side p qty owner))) [
      | inl e ↦
          rw e (omega arith, λ k. absurd (omega (arith, k)), λ k. absurd (cc), λ a k. absurd (cc))
      | inr e ↦ rw e (
          settle-Accounts (match id side (limit_price b side type p) owner b qty) id side type p
            owner qty (match-Quantities id side (limit_price b side type p) owner b qty h))
    ]
