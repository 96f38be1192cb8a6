-- ===== src/RefBook.antt =====
-- include/lob/ref_order_book.hpp: the operations of the reference book.
pub mod State
pub mod Ordered
pub mod Apart
pub mod Sweeps
pub mod Stops
pub mod Quantities
pub mod Fresh
pub mod Promise
pub mod AllOrNothing
pub mod Uncrossed
use cpp_matching_engine.Base.{
  ℕ, zero, suc, ◌+◌, ◌-◌, Bool, true, false, not, List, [], ◌∷◌, ◌++◌, ◌&&◌, ◌||◌, ◌==◌, ltb, leb,
  if◌then◌else◌, length, Option, none, some, add64, sub64, u64_mod, ◌^◌,
}
use cpp_matching_engine.Base.Dict
use cpp_matching_engine.Base.Int.{ℤ, pos, negsuc, ltb_ℤ, leb_ℤ, eqb_ℤ}
use cpp_matching_engine.Types.{
  OrderId, Quantity, Price, OwnerId, Side, buy, sell, opposite, OrderType, limit, market, is_limit,
  is_market, is_fok, Trade, ExecResult, no_result,
}
use State.{
  RefOrder, Queue, Levels, Info, RefBook, best_bid, best_ask, side_levels, with_levels, queue_at,
  push_back, erase_at, set_remaining_at, remaining_of,
}

unfoldable pub rest : RefBook → OrderId → Side → Price → Quantity → OwnerId → RefBook
unfolding push_back
rest b id side p qty owner =
    let o : RefOrder = record { id = id; side = side; price = p; remaining = qty; owner = owner } in
    let info : Info = record { side = side; price = p; owner = owner } in
    let b1 = with_levels b side (push_back side (side_levels b side) p o) in
    record b1 { id_index = Dict.assign id info b1.id_index }

-- The variables of the loop of `do_match`: the opposite map, the index, and the rest.
pub record Sweep : Type 0 where
  pub levels : Levels
  pub id_index : List (OrderId × Info)
  pub seq : ℕ
  pub trades : List Trade
  pub remaining : Quantity
  pub filled : Quantity

abbrev pub smaller : Quantity → Quantity → Quantity
smaller a b = if ltb b a then b else a

abbrev pub self_trade : OwnerId → OwnerId → Bool
self_trade incoming resting = not (incoming == 0) && (incoming == resting)

-- The best price is beyond the limit.
abbrev pub beyond : Side → Price → Price → Bool
beyond buy lim p = ltb_ℤ lim p
beyond sell lim p = ltb_ℤ p lim

module _ (in_id : OrderId) (side : Side) (lim : Price) (owner : OwnerId) (has_sink : Bool) where
  -- A fill against the front order `o` of the best level: `os` and `ls` are what is behind it.
  unfoldable pub fill_front : Sweep → Price → RefOrder → Queue → Levels → Sweep
  fill_front s p o os ls =
      let traded = smaller s.remaining o.remaining in
      let t : Trade = record {
        resting_id = o.id;
        incoming_id = in_id;
        price = o.price;
        quantity = traded;
        seq = s.seq;
      } in
      let left = sub64 o.remaining traded in
      record {
        levels =
            if left == 0
            then State.keep_level p os ls
            else (p, record o { remaining = left } ∷ os) ∷ ls;
        id_index = if left == 0 then Dict.erase o.id s.id_index else s.id_index;
        seq = add64 s.seq 1;
        trades = if has_sink then s.trades ++ t ∷ [] else s.trades;
        remaining = sub64 s.remaining traded;
        filled = add64 s.filled traded;
      }

  -- One round; `none` where the loop ends. A best level with no order, which no operation leaves, ends it
  -- too; the source would read the front of an empty deque.
  unfoldable pub round : Sweep → Levels → Option Sweep
  unfolding fill_front
  round s [] = none
  round s ((p, []) ∷ ls) = none
  round s ((p, o ∷ os) ∷ ls) =
      if s.remaining == 0 || beyond side lim p || self_trade owner o.owner
      then none
      else some (fill_front s p o os ls)

  unfoldable pub match_loop : ℕ → Sweep → Sweep
  unfolding round
  match_loop zero s = s
  match_loop (suc n) s = elim (round s s.levels) [ none ↦ s | some s' ↦ match_loop n s' ]

abbrev pub orders_in : Levels → ℕ
orders_in [] = 0
orders_in ((p, os) ∷ ls) = length os + orders_in ls

-- The state with which the loop starts, and the book that it leaves.
abbrev pub start : RefBook → Side → Quantity → Sweep
start b side qty = record {
  levels = side_levels b (opposite side);
  id_index = b.id_index;
  seq = b.seq;
  trades = b.trades;
  remaining = qty;
  filled = 0;
}

abbrev pub finish : RefBook → Side → Sweep → RefBook
finish b side s = record (with_levels b (opposite side) s.levels) {
  id_index = s.id_index;
  seq = s.seq;
  trades = s.trades;
}

-- Every round but the last takes an order out of the map, so the orders bound the rounds.
unfoldable pub do_match : RefBook → OrderId → Side → Price → Quantity → OwnerId → Sweep
unfolding match_loop
do_match b in_id side lim qty owner =
    match_loop in_id side lim owner b.has_sink (suc (orders_in (side_levels b (opposite side))))
      (start b side qty)

-- Whether to go on, and what is available so far.
unfoldable pub scan_level : Queue → OwnerId → Quantity → Bool × Quantity
scan_level [] owner avail = (true, avail)
scan_level (o ∷ os) owner avail =
    let rest = scan_level os owner (add64 avail o.remaining) in
    if self_trade owner o.owner then (false, avail) else rest

unfoldable pub can_fill_in : Levels → Side → Price → Quantity → OwnerId → Quantity → Bool
unfolding scan_level
can_fill_in [] side lim qty owner avail = leb qty avail
can_fill_in ((p, os) ∷ ls) side lim qty owner avail =
    let (go_on, counted) = scan_level os owner avail in
    let rest = can_fill_in ls side lim qty owner counted in
    if beyond side lim p
    then leb qty avail
    else (if not go_on || leb qty counted then leb qty counted else rest)

unfoldable pub can_fill : RefBook → Side → Price → Quantity → OwnerId → Bool
unfolding can_fill_in
can_fill b side lim qty owner = can_fill_in (side_levels b (opposite side)) side lim qty owner 0

-- `std::numeric_limits<Price>::max()` and `min()`, for market orders.
unfoldable pub limit_price : Side → OrderType → Price → Price
limit_price buy type p = if is_market type then pos (2 ^ 63 - 1) else p
limit_price sell type p = if is_market type then negsuc (2 ^ 63 - 1) else p

unfoldable pub would_cross : RefBook → Side → Price → Bool
unfolding best_bid best_ask
would_cross b buy p = leb_ℤ (pos 0) (best_ask b) && leb_ℤ (best_ask b) p
would_cross b sell p = leb_ℤ (pos 0) (best_bid b) && leb_ℤ p (best_bid b)

-- What `submit` does after the sweep.
unfoldable pub settle :
    RefBook → Sweep → OrderId → Side → OrderType → Price → OwnerId → RefBook × ExecResult
unfolding would_cross rest
settle b s id side type p owner =
    let r : ExecResult = record {
      id = id;
      filled = s.filled;
      resting = 0;
      accepted = true;
      fully_filled = s.remaining == 0;
    } in
    let b1 = finish b side s in
    if ltb 0 s.remaining && is_limit type && not (would_cross b1 side p)
    then (rest b1 id side p s.remaining owner, record r { resting = s.remaining })
    else (b1, r)

unfoldable pub submit :
    RefBook → OrderId → Side → OrderType → Price → Quantity → OwnerId → RefBook × ExecResult
unfolding can_fill limit_price do_match settle
submit b id side type p qty owner =
    if is_fok type && not (can_fill b side p qty owner)
    then (b, record no_result { id = id })
    else settle b (do_match b id side (limit_price side type p) qty owner) id side type p owner

-- The order leaves its map and the index.
abbrev pub remove : RefBook → OrderId → Info → RefBook
remove b id info =
    let b1 = with_levels b info.side (erase_at (side_levels b info.side) info.price id) in
    record b1 { id_index = Dict.erase id b1.id_index }

unfoldable pub cancel : RefBook → OrderId → RefBook × Bool
unfolding erase_at
cancel b id = elim (Dict.find id b.id_index) [
  | none ↦ (b, false)
  | some info ↦ (remove b id info, true)
]

unfoldable pub modify : RefBook → OrderId → Price → Quantity → RefBook × ExecResult
unfolding erase_at set_remaining_at remaining_of queue_at submit
modify b id new_price new_qty = elim (Dict.find id b.id_index) [
  | none ↦ (b, no_result)
  | some info ↦
      let ls = side_levels b info.side in
      let old_rem = remaining_of id (queue_at ls info.price) in
      if new_qty == 0
      then (remove b id info, record no_result { id = id; accepted = true })
      else if eqb_ℤ new_price info.price && leb new_qty old_rem
      then (
        with_levels b info.side (set_remaining_at ls info.price id new_qty),
        record no_result { id = id; accepted = true; resting = new_qty },
      )
      else submit (remove b id info) id info.side limit new_price new_qty info.owner
]
