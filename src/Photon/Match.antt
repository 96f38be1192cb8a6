-- ===== src/Photon/Match.antt =====
-- include/lob/photon_book.hpp: `match`, the sweep over the opposite side.
use cpp_matching_engine.Base.{
  ℕ, zero, suc, ◌||◌, ◌==◌, if◌then◌else◌, Option, none, some, ◌>>=◌, add64, sub64,
}
use cpp_matching_engine.Base.Int.{pos, ltb_ℤ}
use cpp_matching_engine.Types.{OrderId, Quantity, Price, OwnerId, Side, buy, sell}
use cpp_matching_engine.Pool.{Handle}
use cpp_matching_engine.OrderBook.Match.{self_trade, smaller}
use cpp_matching_engine.Photon.State.{UpdateType, BookUpdate, PhotonBook, level_at, order_at}
use cpp_matching_engine.Photon.Levels.{set_remaining, set_total, remove, emit}

-- The variables of the loop.
pub record Sweep {ℓ} (S : Type ℓ) : Type ℓ where
  pub book : PhotonBook S
  pub remaining : Quantity
  pub total_filled : Quantity

module _ {ℓ} {S : Type ℓ} where
  -- The oldest order of the best opposite level, if that level crosses the limit.
  unfoldable pub crossing : PhotonBook S → Side → Price → Option Handle
  crossing b buy limit =
      if ltb_ℤ b.best_ask (pos 0) || ltb_ℤ limit b.best_ask
      then none
      else some (level_at b b.best_ask).head
  crossing b sell limit =
      if ltb_ℤ b.best_bid (pos 0) || ltb_ℤ b.best_bid limit
      then none
      else some (level_at b b.best_bid).head

module _ {ℓ} {S : Type ℓ} (sink_call : S → BookUpdate → S) where
  module _ (incoming_id : OrderId) (side : Side) (limit : Price) (owner : OwnerId) where
    -- One fill of `traded`, of `left` shares before it, against the order in slot `h`, which leaves
    -- the book if it is consumed.
    unfoldable pub fill : PhotonBook S → Quantity → Handle → Quantity → Option (PhotonBook S)
    unfolding emit remove
    fill b left h traded =
        let resting = order_at b h in
        let b1 =
          emit sink_call b UpdateType.fill side incoming_id resting.id resting.price traded
            (sub64 left traded) in
        let b2 = set_remaining b1 h (sub64 resting.remaining traded) in
        let b3 = set_total b2 resting.price (sub64 (level_at b2 resting.price).total traded) in
        let b4 = remove b3 resting.id h in
        if sub64 resting.remaining traded == 0 then b4 else some b3

    -- One round of the loop; `some none` where the loop ends.
    unfoldable pub match_round : Sweep S → Option (Option (Sweep S))
    unfolding crossing fill
    match_round s = elim (crossing s.book side limit) [
      | none ↦ some none
      | some h ↦
          let resting = order_at s.book h in
          let traded = smaller s.remaining resting.remaining in
          if s.remaining == 0 || self_trade owner resting.owner then some none else do
            b ← fill s.book s.remaining h traded
            some (
                some (record {
                  book = b;
                  remaining = sub64 s.remaining traded;
                  total_filled = add64 s.total_filled traded;
                }))
    ]

    -- The loop, with fuel for the rounds.
    unfoldable pub match_loop : ℕ → Sweep S → Option (Sweep S)
    unfolding match_round
    match_loop zero s = some s
    match_loop (suc n) s = elim (match_round s) [
      | none ↦ none
      | some none ↦ some s
      | some (some s') ↦ match_loop n s'
    ]

    -- Every round but the last takes an order out of the book, so the open orders bound the rounds.
    unfoldable pub match : PhotonBook S → Quantity → Option (Sweep S)
    unfolding match_loop
    match b qty =
        match_loop (suc b.pool.in_use) (record { book = b; remaining = qty; total_filled = 0 })
