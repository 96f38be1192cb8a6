-- ===== src/Photon.antt =====
-- include/lob/photon_book.hpp: the public operations of `PhotonBook`. A result `none` stands for a call
-- that does not return, because a loop of the index does not end.
pub mod State
pub mod Levels
pub mod Match
pub mod CanFill
pub mod Quiet
pub mod Events
pub mod Sent
pub mod Log
use cpp_matching_engine.Base.{
  ℕ, zero, suc, ◌+◌, ◌-◌, Bool, true, false, not, List, [], ◌∷◌, ◌&&◌, ◌||◌, ◌==◌, ltb, leb,
  if◌then◌else◌, Option, none, some, ◌>>=◌, add64, sub64, length,
}
use cpp_matching_engine.Base.Int.{ℤ, pos, negsuc, ltb_ℤ, leb_ℤ, eqb_ℤ}
use cpp_matching_engine.Types.{
  OrderId, Quantity, Price, OwnerId, Side, buy, sell, OrderType, limit, market, is_limit, is_market,
  is_fok, ExecResult, no_result, TimeInForce,
}
use cpp_matching_engine.Pool.{Handle}
use cpp_matching_engine.FlatMap
use cpp_matching_engine.OrderBook.{last_tick}
use cpp_matching_engine.OrderBook.State.{is_empty, size_for}
use State.{
  UpdateType, ack, canceled, rejected, replaced, expired, BookUpdate, PhotonOrder, PhotonBook,
  ExpiryEntry, level_at, order_at,
}
use Levels.{set_remaining, set_total, emit, rest_order, remove}
use Match.{Sweep, match}
use CanFill.{can_fill}

module _ {ℓ} {S : Type ℓ} where
  unfoldable pub bid_size_at : PhotonBook S → Price → Quantity
  bid_size_at b p =
      let l = level_at b p in
      if is_empty l then 0 else size_for buy (order_at b l.head).side l.total

  unfoldable pub ask_size_at : PhotonBook S → Price → Quantity
  ask_size_at b p =
      let l = level_at b p in
      if is_empty l then 0 else size_for sell (order_at b l.head).side l.total

  -- The worst price for a market order, and the caller's price for the others.
  unfoldable pub limit_price : PhotonBook S → Side → OrderType → Price → Price
  limit_price b buy type p = if is_market type then last_tick (length b.levels) else p
  limit_price b sell type p = if is_market type then pos 0 else p

  unfoldable pub would_cross : PhotonBook S → Side → Price → Bool
  would_cross b buy p = leb_ℤ (pos 0) b.best_ask && leb_ℤ b.best_ask p
  would_cross b sell p = leb_ℤ (pos 0) b.best_bid && leb_ℤ p b.best_bid

  -- The in-place edit of `modify`.
  abbrev pub reduce : PhotonBook S → Handle → Quantity → PhotonBook S
  reduce b h new_qty =
      let o = order_at b h in
      let b1 = set_remaining b h new_qty in
      set_total b1 o.price (sub64 (level_at b1 o.price).total (sub64 o.remaining new_qty))

module _ {ℓ} {S : Type ℓ} (sink_call : S → BookUpdate → S) where
  -- What `submit` does after the sweep. The acknowledgement follows a full pool's rejection too.
  unfoldable pub settle :
      Sweep S
      → OrderId
      → Side
      → OrderType
      → Price
      → OwnerId
      → TimeInForce
      → ℕ
      → Option (PhotonBook S × ExecResult)
  unfolding would_cross rest_order emit
  settle s id side type p owner tif expiry =
      let r : ExecResult = record {
        id = id;
        filled = s.total_filled;
        resting = 0;
        accepted = true;
        fully_filled = s.remaining == 0;
      } in
      if ltb 0 s.remaining && is_limit type && not (would_cross s.book side p)
      then (do
        b ← rest_order sink_call s.book id side p s.remaining owner tif expiry
        some (
          emit sink_call b ack side id 0 p s.remaining s.remaining,
          record r { resting = s.remaining },
        ))
      else some (s.book, r)

  unfoldable pub submit :
      PhotonBook S
      → OrderId
      → Side
      → OrderType
      → Price
      → Quantity
      → OwnerId
      → TimeInForce
      → ℕ
      → Option (PhotonBook S × ExecResult)
  unfolding can_fill limit_price match settle emit
  submit b id side type p qty owner tif expiry =
      if is_fok type && not (can_fill b side p qty owner)
      then some (emit sink_call b rejected side id 0 p qty 0, record no_result { id = id })
      else do
        s ← match sink_call id side (limit_price b side type p) owner b qty
        settle s id side type p owner tif expiry

  -- `cancel`, and the `modify` to no quantity.
  unfoldable pub take_off : PhotonBook S → OrderId → Handle → Option (PhotonBook S)
  unfolding emit remove
  take_off b id h =
      let o = order_at b h in remove (emit sink_call b canceled o.side id 0 o.price 0 0) id h

  unfoldable pub cancel : PhotonBook S → OrderId → Option (PhotonBook S × Bool)
  unfolding take_off
  cancel b id = do
    place ← FlatMap.find 0 b.id_index id
    elim place [ none ↦ some (b, false) | some h ↦ do b1 ← take_off b id h; some (b1, true) ]

  unfoldable pub modify :
      PhotonBook S → OrderId → Price → Quantity → Option (PhotonBook S × ExecResult)
  unfolding take_off emit remove submit
  modify b id new_price new_qty = do
    place ← FlatMap.find 0 b.id_index id
    elim place [
      | none ↦ some (b, no_result)
      | some h ↦
          let o = order_at b h in
          if new_qty == 0
          then (do b1 ← take_off b id h; some (b1, record no_result { id = id; accepted = true }))
          else if eqb_ℤ new_price o.price && leb new_qty o.remaining
          then some (
            emit sink_call (reduce b h new_qty) replaced o.side id 0 new_price new_qty new_qty,
            record no_result { id = id; accepted = true; resting = new_qty },
          )
          else do
            b1 ← remove b id h
            submit b1 id o.side limit new_price new_qty o.owner o.tif o.expiry_ns
    ]

  -- An entry that has come due; its order may have gone already.
  unfoldable pub expire : PhotonBook S → OrderId → Option (PhotonBook S)
  unfolding emit remove
  expire b id = do
    place ← FlatMap.find 0 b.id_index id
    elim place [
      | none ↦ some b
      | some h ↦
          let o = order_at b h in
          remove (emit sink_call b expired o.side id 0 o.price o.remaining 0) id h
    ]

  unfoldable pub expiry_loop : ℕ → List ExpiryEntry → PhotonBook S → Option (PhotonBook S)
  unfolding expire
  expiry_loop now [] b = some b
  expiry_loop now (e ∷ es) b =
      if ltb now e.expiry_ns
      then some b
      else do b1 ← expire (record b { expiry_queue = es }) e.order_id; expiry_loop now es b1

  unfoldable pub check_expiry : ℕ → PhotonBook S → Option (PhotonBook S)
  unfolding expiry_loop
  check_expiry now b = expiry_loop now b.expiry_queue b
