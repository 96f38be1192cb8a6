-- ===== src/OrderBook/Levels.antt =====
-- src/core/order_book.cpp: the operations on a price level, `rest_order`, `reprice_best_bid`,
-- `reprice_best_ask` and `unlink_and_free`.
use cpp_matching_engine.Base.{
  ℕ, zero, suc, ◌+◌, ◌-◌, List, ◌&&◌, ◌||◌, ◌==◌, if◌then◌else◌, get_or, length, add64, sub64,
}
use cpp_matching_engine.Base.Dict
use cpp_matching_engine.Base.Int.{pos, negsuc, ltb_ℤ, eqb_ℤ}
use cpp_matching_engine.Types.{OrderId, Quantity, Price, OwnerId, Side, buy, sell}
use cpp_matching_engine.Pool
use cpp_matching_engine.Pool.{Handle, null_handle, Pool, lifo}
use cpp_matching_engine.OrderBook.State.{
  Order, PriceLevel, blank_level, is_empty, OrderBook, no_price, level_at, set_level, order_at,
}

-- The walk down from tick `p` to the first level that is not empty.
unfoldable pub scan_down : List PriceLevel → ℕ → Price
scan_down ls zero = if is_empty (get_or ls 0 blank_level) then no_price else pos 0
scan_down ls (suc p) =
    let rest = scan_down ls p in
    if is_empty (get_or ls (suc p) blank_level) then rest else pos (suc p)

unfoldable pub reprice_best_bid : OrderBook → OrderBook
unfolding scan_down
reprice_best_bid b = record b {
  best_bid = elim b.best_bid [ pos p ↦ scan_down b.levels p | negsuc n ↦ no_price ];
}

-- The walk up from tick `p`, with as many rounds as there are levels from `p` on.
unfoldable pub scan_up : List PriceLevel → ℕ → ℕ → Price
scan_up ls zero p = no_price
scan_up ls (suc n) p =
    let rest = scan_up ls n (p + 1) in if is_empty (get_or ls p blank_level) then rest else pos p

unfoldable pub reprice_best_ask : OrderBook → OrderBook
unfolding scan_up
reprice_best_ask b = record b {
  best_ask = elim b.best_ask [
    | pos p ↦ scan_up b.levels (length b.levels - p) p
    | negsuc n ↦ no_price
  ];
}

-- Writes through the references into the pool and the levels.
abbrev pub set_next : OrderBook → Handle → Handle → OrderBook
set_next b h n = record b { pool = Pool.put b.pool h (record (order_at b h) { next = n }) }

abbrev pub set_prev : OrderBook → Handle → Handle → OrderBook
set_prev b h n = record b { pool = Pool.put b.pool h (record (order_at b h) { prev = n }) }

abbrev pub set_remaining : OrderBook → Handle → Quantity → OrderBook
set_remaining b h n = record b {
  pool = Pool.put b.pool h (record (order_at b h) { remaining = n });
}

abbrev pub set_head : OrderBook → Price → Handle → OrderBook
set_head b p h = record b { levels = set_level b.levels p (record (level_at b p) { head = h }) }

abbrev pub set_tail : OrderBook → Price → Handle → OrderBook
set_tail b p h = record b { levels = set_level b.levels p (record (level_at b p) { tail = h }) }

abbrev pub set_total : OrderBook → Price → Quantity → OrderBook
set_total b p n = record b { levels = set_level b.levels p (record (level_at b p) { total = n }) }

-- If the best level has just emptied, move the best.
unfoldable pub reprice : OrderBook → Side → Price → OrderBook
unfolding reprice_best_bid reprice_best_ask
reprice b buy p = if is_empty (level_at b p) && eqb_ℤ p b.best_bid then reprice_best_bid b else b
reprice b sell p = if is_empty (level_at b p) && eqb_ℤ p b.best_ask then reprice_best_ask b else b

-- `if (o.prev != kNullHandle) pool_[o.prev].next = o.next; else lvl.head = o.next;`
unfoldable pub skip_forward : OrderBook → Order → OrderBook
skip_forward b o =
    if o.prev == null_handle then set_head b o.price o.next else set_next b o.prev o.next

-- `if (o.next != kNullHandle) pool_[o.next].prev = o.prev; else lvl.tail = o.prev;`
unfoldable pub skip_backward : OrderBook → Order → OrderBook
skip_backward b o =
    if o.next == null_handle then set_tail b o.price o.prev else set_prev b o.next o.prev

-- Both writes take `o` out of its level's list.
unfoldable pub splice : OrderBook → Order → OrderBook
unfolding skip_forward skip_backward
splice b o = skip_backward (skip_forward b o) o

-- `unlink_and_free` up to the check of the best price.
unfoldable pub take_out : OrderBook → Handle → OrderBook
unfolding splice
take_out b h =
    let o = order_at b h in
    let b1 = splice b o in
    let b2 = set_total b1 o.price (sub64 (level_at b1 o.price).total o.remaining) in
    record b2 { pool = Pool.deallocate lifo b2.pool h }

unfoldable pub unlink_and_free : OrderBook → Handle → OrderBook
unfolding take_out reprice
unlink_and_free b h = let o = order_at b h in reprice (take_out b h) o.side o.price

-- The cached best price, if this order improves it.
abbrev pub improve : OrderBook → Side → Price → OrderBook
improve b buy p = record b {
  best_bid = if ltb_ℤ b.best_bid (pos 0) || ltb_ℤ b.best_bid p then p else b.best_bid;
}
improve b sell p = record b {
  best_ask = if ltb_ℤ b.best_ask (pos 0) || ltb_ℤ p b.best_ask then p else b.best_ask;
}

-- Link the order in slot `h` behind the last one of its level.
unfoldable pub append_order : OrderBook → Handle → Price → OrderBook
append_order b h p =
    let l = level_at b p in
    if is_empty l
    then set_tail (set_head b p h) p h
    else set_tail (set_prev (set_next b l.tail h) h l.tail) p h

-- Fill the slot `h` of `pool` with the order and link it into its level.
unfoldable pub place : OrderBook → Pool Order → Handle → Order → OrderBook
unfolding append_order
place b pool h o =
    let b1 = append_order (record b { pool = Pool.put pool h o }) h o.price in
    set_total b1 o.price (add64 (level_at b1 o.price).total o.remaining)

-- The order as it is written to its slot.
abbrev pub new_order : OrderId → Side → Price → Quantity → OwnerId → Order
new_order id side p qty owner = record {
  remaining = qty;
  prev = null_handle;
  next = null_handle;
  id = id;
  price = p;
  side = side;
  owner = owner;
}

-- With no free slot the order is dropped.
unfoldable pub rest_order : OrderBook → OrderId → Side → Price → Quantity → OwnerId → OrderBook
unfolding place
rest_order b id side p qty owner =
    let (pool, h) = Pool.allocate lifo b.pool in
    let b1 = place b pool h (new_order id side p qty owner) in
    if h == null_handle
    then b
    else improve (record b1 { id_index = Dict.emplace id h b1.id_index }) side p
