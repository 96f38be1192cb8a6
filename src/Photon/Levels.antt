-- ===== src/Photon/Levels.antt =====
-- include/lob/photon_book.hpp: the operations on a price level, `emit`, `rest_order`, the two
-- reprice functions and `unlink_and_free`.
use cpp_matching_engine.Base.{
  ℕ, ◌-◌, ◌&&◌, ◌||◌, ◌==◌, ltb, if◌then◌else◌, length, add64, sub64, Option, some, ◌>>=◌,
}
use cpp_matching_engine.Base.Int.{pos, negsuc, ltb_ℤ, eqb_ℤ}
use cpp_matching_engine.Types.{OrderId, Quantity, Price, OwnerId, Side, buy, sell, TimeInForce, gtd}
use cpp_matching_engine.Pool
use cpp_matching_engine.Pool.{Handle, null_handle, Pool, fifo}
use cpp_matching_engine.FlatMap
use cpp_matching_engine.OrderBook.State.{is_empty, no_price, set_level}
use cpp_matching_engine.OrderBook.Levels.{scan_down, scan_up}
use cpp_matching_engine.Photon.State.{
  UpdateType, rejected, BookUpdate, PhotonOrder, PhotonBook, push_expiry, level_at, order_at,
  new_order,
}

module _ {ℓ} {S : Type ℓ} where
  unfoldable pub reprice_best_bid : PhotonBook S → PhotonBook S
  unfolding scan_down
  reprice_best_bid b = record b {
    best_bid = elim b.best_bid [ pos p ↦ scan_down b.levels p | negsuc n ↦ no_price ];
  }

  unfoldable pub reprice_best_ask : PhotonBook S → PhotonBook S
  unfolding scan_up
  reprice_best_ask b = record b {
    best_ask = elim b.best_ask [
      | pos p ↦ scan_up b.levels (length b.levels - p) p
      | negsuc n ↦ no_price
    ];
  }

  -- Writes through the references into the pool and the levels.
  abbrev pub set_next : PhotonBook S → Handle → Handle → PhotonBook S
  set_next b h n = record b { pool = Pool.put b.pool h (record (order_at b h) { next = n }) }

  abbrev pub set_prev : PhotonBook S → Handle → Handle → PhotonBook S
  set_prev b h n = record b { pool = Pool.put b.pool h (record (order_at b h) { prev = n }) }

  abbrev pub set_remaining : PhotonBook S → Handle → Quantity → PhotonBook S
  set_remaining b h n = record b {
    pool = Pool.put b.pool h (record (order_at b h) { remaining = n });
  }

  abbrev pub set_head : PhotonBook S → Price → Handle → PhotonBook S
  set_head b p h = record b { levels = set_level b.levels p (record (level_at b p) { head = h }) }

  abbrev pub set_tail : PhotonBook S → Price → Handle → PhotonBook S
  set_tail b p h = record b { levels = set_level b.levels p (record (level_at b p) { tail = h }) }

  abbrev pub set_total : PhotonBook S → Price → Quantity → PhotonBook S
  set_total b p n = record b { levels = set_level b.levels p (record (level_at b p) { total = n }) }

  -- If the best level has just emptied, move the best.
  unfoldable pub reprice : PhotonBook S → Side → Price → PhotonBook S
  unfolding reprice_best_bid reprice_best_ask
  reprice b buy p = if is_empty (level_at b p) && eqb_ℤ p b.best_bid then reprice_best_bid b else b
  reprice b sell p = if is_empty (level_at b p) && eqb_ℤ p b.best_ask then reprice_best_ask b else b

  -- `if (o.prev != kNullHandle) pool_[o.prev].next = o.next; else lvl.head = o.next;`
  unfoldable pub skip_forward : PhotonBook S → PhotonOrder → PhotonBook S
  skip_forward b o =
      if o.prev == null_handle then set_head b o.price o.next else set_next b o.prev o.next

  -- `if (o.next != kNullHandle) pool_[o.next].prev = o.prev; else lvl.tail = o.prev;`
  unfoldable pub skip_backward : PhotonBook S → PhotonOrder → PhotonBook S
  skip_backward b o =
      if o.next == null_handle then set_tail b o.price o.prev else set_prev b o.next o.prev

  -- Both writes take `o` out of its level's list.
  unfoldable pub splice : PhotonBook S → PhotonOrder → PhotonBook S
  unfolding skip_forward skip_backward
  splice b o = skip_backward (skip_forward b o) o

  -- `unlink_and_free` up to the check of the best price.
  unfoldable pub take_out : PhotonBook S → Handle → PhotonBook S
  unfolding splice
  take_out b h =
      let o = order_at b h in
      let b1 = splice b o in
      let b2 = set_total b1 o.price (sub64 (level_at b1 o.price).total o.remaining) in
      record b2 { pool = Pool.deallocate fifo b2.pool h }

  unfoldable pub unlink_and_free : PhotonBook S → Handle → PhotonBook S
  unfolding take_out reprice
  unlink_and_free b h = let o = order_at b h in reprice (take_out b h) o.side o.price

  -- The cached best price, if this order improves it.
  abbrev pub improve : PhotonBook S → Side → Price → PhotonBook S
  improve b buy p = record b {
    best_bid = if ltb_ℤ b.best_bid (pos 0) || ltb_ℤ b.best_bid p then p else b.best_bid;
  }
  improve b sell p = record b {
    best_ask = if ltb_ℤ b.best_ask (pos 0) || ltb_ℤ p b.best_ask then p else b.best_ask;
  }

  -- Link the order in slot `h` behind the last one of its level.
  unfoldable pub append_order : PhotonBook S → Handle → Price → PhotonBook S
  append_order b h p =
      let l = level_at b p in
      if is_empty l
      then set_tail (set_head b p h) p h
      else set_tail (set_prev (set_next b l.tail h) h l.tail) p h

  -- Fill the slot `h` of `pool` with the order and link it into its level.
  unfoldable pub place : PhotonBook S → Pool PhotonOrder → Handle → PhotonOrder → PhotonBook S
  unfolding append_order
  place b pool h o =
      let b1 = append_order (record b { pool = Pool.put pool h o }) h o.price in
      set_total b1 o.price (add64 (level_at b1 o.price).total o.remaining)

  -- `unlink_and_free(h); id_index_.erase(id);`
  unfoldable pub remove : PhotonBook S → OrderId → Handle → Option (PhotonBook S)
  unfolding unlink_and_free
  remove b id h = do
    let b1 = unlink_and_free b h
    (index, was_there) ← FlatMap.erase 0 b1.id_index id
    some (record b1 { id_index = index })

module _ {ℓ} {S : Type ℓ} (sink_call : S → BookUpdate → S) where
  -- Every event takes a sequence number and goes to the sink.
  unfoldable pub emit :
      PhotonBook S
      → UpdateType
      → Side
      → OrderId
      → OrderId
      → Price
      → Quantity
      → Quantity
      → PhotonBook S
  emit b type side id counter p qty leaves = record b {
    seq = add64 b.seq 1;
    sink = sink_call b.sink (record {
      type = type;
      side = side;
      order_id = id;
      counter_id = counter;
      price = p;
      quantity = qty;
      leaves_qty = leaves;
      seq = b.seq;
    });
  }

  -- Only GTD orders with a time go to the expiry queue.
  abbrev pub enqueue : TimeInForce → ℕ → OrderId → PhotonBook S → PhotonBook S
  enqueue gtd expiry id b =
      if ltb 0 expiry
      then record b {
        expiry_queue = push_expiry (record { expiry_ns = expiry; order_id = id }) b.expiry_queue;
      }
      else b
  enqueue _ expiry id b = b

  -- With no free slot the order is rejected. `none` where the index's loop does not end.
  unfoldable pub rest_order :
      PhotonBook S
      → OrderId
      → Side
      → Price
      → Quantity
      → OwnerId
      → TimeInForce
      → ℕ
      → Option (PhotonBook S)
  unfolding place emit push_expiry
  rest_order b id side p qty owner tif expiry =
      let (pool, h) = Pool.allocate fifo b.pool in
      let b1 = place b pool h (new_order id side p qty owner tif expiry) in
      if h == null_handle then some (emit b rejected side id 0 p qty 0) else do
        index ← FlatMap.insert 0 b1.id_index id h
        some (enqueue tif expiry id (improve (record b1 { id_index = index }) side p))
