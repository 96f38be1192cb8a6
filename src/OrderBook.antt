-- ===== src/OrderBook.antt =====
-- include/lob/order_book.hpp and src/core/order_book.cpp: the public operations of the order book.
pub mod State
pub mod Levels
pub mod Match
pub mod Cells
pub mod Layout
pub mod Edit
pub mod Splice
pub mod Unlink
pub mod Append
pub mod Place
pub mod Adjust
pub mod Fills
pub mod Fresh
pub mod Quantities
use cpp_matching_engine.Base.{
  ℕ, zero, suc, ◌+◌, ◌-◌, ◌<◌, Bool, true, false, not, List, [], ◌∷◌, ◌&&◌, ◌||◌, ◌==◌, ltb, leb,
  if◌then◌else◌, Option, none, some, add64, sub64, length, get_or,
}
use cpp_matching_engine.Base.Dict
use cpp_matching_engine.Base.Int.{ℤ, pos, negsuc, ltb_ℤ, leb_ℤ, eqb_ℤ}
use cpp_matching_engine.Types.{
  OrderId, Quantity, Price, OwnerId, Side, buy, sell, OrderType, limit, market, is_limit, is_market,
  is_fok, ExecResult, no_result,
}
use cpp_matching_engine.Pool
use cpp_matching_engine.Pool.{Handle, null_handle}
use State.{Order, PriceLevel, OrderBook, no_price, level_at, order_at}
use Levels.{unlink_and_free, rest_order, set_remaining, set_total}
use Match.{Sweep, match, self_trade}

-- What `count_level` and the loops of `can_fill` have counted, and whether they go on.
abbrev pub Count : Type 0
Count = Bool × Quantity

-- The walk over a level's orders, up to the first one of the same owner. A level has at most as
-- many orders as the pool has slots.
unfoldable pub count_orders : OrderBook → OwnerId → ℕ → Handle → Quantity → Count
count_orders b owner zero h available = (true, available)
count_orders b owner (suc n) h available =
    let o = order_at b h in
    let rest = count_orders b owner n o.next (add64 available o.remaining) in
    if h == null_handle
    then (true, available)
    else (if o.owner == owner then (false, available) else rest)

unfoldable pub count_level : OrderBook → OwnerId → Price → Quantity → Count
unfolding count_orders
count_level b owner p available =
    if owner == 0
    then (true, add64 available (level_at b p).total)
    else count_orders b owner (Pool.capacity b.pool) (level_at b p).head available

-- One round of either loop: `some` where `can_fill` knows its answer.
abbrev pub count_round : OrderBook → OwnerId → Quantity → ℕ → Quantity → Option Bool × Quantity
count_round b owner qty p available =
    let (go_on, counted) = count_level b owner (pos p) available in
    (if go_on && not (leb qty counted) then none else some (leb qty counted), counted)

-- `for (p = best_ask_; p < cap && p <= limit_price; ++p)`, with `n` levels left below `cap`.
unfoldable pub can_fill_up : OrderBook → OwnerId → Quantity → Price → ℕ → ℕ → Quantity → Bool
unfolding count_level
can_fill_up b owner qty lim zero p available = leb qty available
can_fill_up b owner qty lim (suc n) p available =
    let (answer, counted) = count_round b owner qty p available in
    let rest = can_fill_up b owner qty lim n (p + 1) counted in
    if leb_ℤ (pos p) lim then elim answer [ some a ↦ a | none ↦ rest ] else leb qty available

-- `for (p = best_bid_; p >= 0 && p >= limit_price; --p)`
unfoldable pub can_fill_down : OrderBook → OwnerId → Quantity → Price → ℕ → Quantity → Bool
unfolding count_level
can_fill_down b owner qty lim zero available =
    let (answer, counted) = count_round b owner qty 0 available in
    if leb_ℤ lim (pos 0)
    then elim answer [ some a ↦ a | none ↦ leb qty counted ]
    else leb qty available
can_fill_down b owner qty lim (suc p) available =
    let (answer, counted) = count_round b owner qty (suc p) available in
    let rest = can_fill_down b owner qty lim p counted in
    if leb_ℤ lim (pos (suc p)) then elim answer [ some a ↦ a | none ↦ rest ] else leb qty available

unfoldable pub can_fill : OrderBook → Side → Price → Quantity → OwnerId → Bool
unfolding can_fill_up can_fill_down
can_fill b buy lim qty owner =
    if ltb_ℤ b.best_ask (pos 0) || ltb_ℤ lim b.best_ask then false else elim b.best_ask [
      | pos p ↦ can_fill_up b owner qty lim (length b.levels - p) p 0
      | negsuc n ↦ false
    ]
can_fill b sell lim qty owner =
    if ltb_ℤ b.best_bid (pos 0) || ltb_ℤ b.best_bid lim
    then false
    else elim b.best_bid [ pos p ↦ can_fill_down b owner qty lim p 0 | negsuc n ↦ false ]

-- `static_cast<Price>(levels_.size() - 1)`
abbrev pub last_tick : ℕ → Price
last_tick zero = negsuc 0
last_tick (suc n) = pos n

-- The worst price for a market order, and the caller's price for the others.
unfoldable pub limit_price : OrderBook → Side → OrderType → Price → Price
limit_price b buy type p = if is_market type then last_tick (length b.levels) else p
limit_price b sell type p = if is_market type then pos 0 else p

unfoldable pub would_cross : OrderBook → Side → Price → Bool
would_cross b buy p = leb_ℤ (pos 0) b.best_ask && leb_ℤ b.best_ask p
would_cross b sell p = leb_ℤ (pos 0) b.best_bid && leb_ℤ p b.best_bid

-- What `submit` does after the sweep.
unfoldable pub settle :
    Sweep → OrderId → Side → OrderType → Price → OwnerId → OrderBook × ExecResult
unfolding would_cross rest_order
settle s id side type p owner =
    let r : ExecResult = record {
      id = id;
      filled = s.total_filled;
      resting = 0;
      accepted = true;
      fully_filled = s.remaining == 0;
    } in
    if ltb 0 s.remaining && is_limit type && not (would_cross s.book side p)
    then (rest_order s.book id side p s.remaining owner, record r { resting = s.remaining })
    else (s.book, r)

unfoldable pub submit :
    OrderBook → OrderId → Side → OrderType → Price → Quantity → OwnerId → OrderBook × ExecResult
unfolding can_fill limit_price match settle
submit b id side type p qty owner =
    if is_fok type && not (can_fill b side p qty owner)
    then (b, record no_result { id = id })
    else settle (match id side (limit_price b side type p) owner b qty) id side type p owner

-- Take the order in slot `h` out of the book and out of the index.
abbrev pub remove : OrderBook → OrderId → Handle → OrderBook
remove b id h = let b1 = unlink_and_free b h in record b1 { id_index = Dict.erase id b1.id_index }

unfoldable pub cancel : OrderBook → OrderId → OrderBook × Bool
unfolding unlink_and_free
cancel b id = elim (Dict.find id b.id_index) [ none ↦ (b, false) | some h ↦ (remove b id h, true) ]

-- The in-place edit of `modify`.
abbrev pub reduce : OrderBook → Handle → Quantity → OrderBook
reduce b h new_qty =
    let o = order_at b h in
    let b1 = set_remaining b h new_qty in
    set_total b1 o.price (sub64 (level_at b1 o.price).total (sub64 o.remaining new_qty))

unfoldable pub modify : OrderBook → OrderId → Price → Quantity → OrderBook × ExecResult
unfolding unlink_and_free submit
modify b id new_price new_qty = elim (Dict.find id b.id_index) [
  | none ↦ (b, no_result)
  | some h ↦
      let o = order_at b h in
      if new_qty == 0
      then (remove b id h, record no_result { id = id; accepted = true })
      else if eqb_ℤ new_price o.price && leb new_qty o.remaining
      then (reduce b h new_qty, record no_result { id = id; accepted = true; resting = new_qty })
      else submit (remove b id h) id o.side limit new_price new_qty o.owner
]
