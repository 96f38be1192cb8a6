-- ===== src/OrderBook/Match.antt =====
-- src/core/order_book.cpp: `match`, the sweep over the opposite side.
use cpp_matching_engine.Base.{
  ℕ, zero, suc, Bool, not, [], ◌∷◌, ◌++◌, ◌&&◌, ◌||◌, ◌==◌, ltb, if◌then◌else◌, Option, none, some,
  add64, sub64,
}
use cpp_matching_engine.Base.Dict
use cpp_matching_engine.Base.Int.{pos, ltb_ℤ}
use cpp_matching_engine.Types.{OrderId, Quantity, Price, OwnerId, Side, buy, sell, Trade}
use cpp_matching_engine.Pool.{Handle}
use cpp_matching_engine.OrderBook.State.{OrderBook, level_at, order_at}
use cpp_matching_engine.OrderBook.Levels.{set_remaining, set_total, unlink_and_free}

-- The variables of the loop.
pub record Sweep : Type 0 where
  pub book : OrderBook
  pub remaining : Quantity
  pub total_filled : Quantity

-- The oldest order of the best opposite level, if that level crosses the limit.
unfoldable pub crossing : OrderBook → Side → Price → Option Handle
crossing b buy limit =
    if ltb_ℤ b.best_ask (pos 0) || ltb_ℤ limit b.best_ask
    then none
    else some (level_at b b.best_ask).head
crossing b sell limit =
    if ltb_ℤ b.best_bid (pos 0) || ltb_ℤ b.best_bid limit
    then none
    else some (level_at b b.best_bid).head

-- `if (trade_sink_) { … seq_++ … trade_sink_(t) } else ++seq_`
unfoldable pub emit : OrderBook → Trade → OrderBook
emit b t = record b {
  seq = add64 b.seq 1;
  trades = if b.has_sink then b.trades ++ t ∷ [] else b.trades;
}

-- One fill of `traded` against the order in slot `h`, which leaves the book if it is consumed.
unfoldable pub fill : OrderBook → OrderId → Handle → Quantity → OrderBook
unfolding emit unlink_and_free
fill b incoming_id h traded =
    let resting = order_at b h in
    let b1 = emit b (record {
      resting_id = resting.id;
      incoming_id = incoming_id;
      price = resting.price;
      quantity = traded;
      seq = b.seq;
    }) in
    let b2 = set_remaining b1 h (sub64 resting.remaining traded) in
    let b3 = set_total b2 resting.price (sub64 (level_at b2 resting.price).total traded) in
    let b4 = unlink_and_free b3 h in
    if sub64 resting.remaining traded == 0
    then record b4 { id_index = Dict.erase resting.id b4.id_index }
    else b3

-- Both orders have one owner, who is not anonymous.
abbrev pub self_trade : OwnerId → OwnerId → Bool
self_trade incoming resting = not (incoming == 0) && (incoming == resting)

abbrev pub smaller : Quantity → Quantity → Quantity
smaller a b = if ltb a b then a else b

module _ (incoming_id : OrderId) (side : Side) (limit : Price) (owner : OwnerId) where
  -- One round of the loop; `none` where the loop ends.
  unfoldable pub match_round : Sweep → Option Sweep
  unfolding crossing fill
  match_round s = elim (crossing s.book side limit) [
    | none ↦ none
    | some h ↦
        let resting = order_at s.book h in
        let traded = smaller s.remaining resting.remaining in
        if s.remaining == 0 || self_trade owner resting.owner
        then none
        else some (record {
          book = fill s.book incoming_id h traded;
          remaining = sub64 s.remaining traded;
          total_filled = add64 s.total_filled traded;
        })
  ]

  -- The loop, with fuel for the rounds.
  unfoldable pub match_loop : ℕ → Sweep → Sweep
  match_loop zero s = s
  match_loop (suc n) s = elim (match_round s) [ none ↦ s | some s' ↦ match_loop n s' ]

  -- Every round but the last takes an order out of the book, so the open orders bound the rounds.
  unfoldable pub match : OrderBook → Quantity → Sweep
  unfolding match_round match_loop
  match b qty =
      match_loop (suc b.pool.in_use) (record { book = b; remaining = qty; total_filled = 0 })
