-- ===== src/RefBook/State.antt =====
-- include/lob/ref_order_book.hpp: the records of the reference book and its maps. A
-- `std::map<Price, std::deque<RefOrder>>` is the list of its entries in the order in which the code
-- visits them: from `begin()` for the asks, from `rbegin()` for the bids, so that the best price
-- comes first in both.
use cpp_matching_engine.Base.{
  ℕ, Bool, true, false, List, [], ◌∷◌, ◌++◌, if◌then◌else◌, length, ◌==◌, add64,
}
use cpp_matching_engine.Base.Int.{negsuc, ltb_ℤ, eqb_ℤ}
use cpp_matching_engine.Types.{OrderId, Quantity, Price, OwnerId, Sequence, Side, buy, sell, Trade}

pub record RefOrder : Type 0 where
  pub id : OrderId
  pub side : Side
  pub price : Price
  pub remaining : Quantity
  pub owner : OwnerId

abbrev pub Queue : Type 0
Queue = List RefOrder

abbrev pub Levels : Type 0
Levels = List (Price × Queue)

pub record Info : Type 0 where
  pub side : Side
  pub price : Price
  pub owner : OwnerId

pub record RefBook : Type 0 where
  pub bids : Levels
  pub asks : Levels
  pub id_index : List (OrderId × Info)
  pub seq : Sequence
  pub has_sink : Bool
  pub trades : List Trade

unfoldable pub init : RefBook
init = record { bids = []; asks = []; id_index = []; seq = 0; has_sink = false; trades = [] }

-- `p` comes before `q` in the map of that side.
abbrev pub before : Side → Price → Price → Bool
before buy p q = ltb_ℤ q p
before sell p q = ltb_ℤ p q

-- `find(p)`; the empty queue where there is no entry (the code keeps no entry with an empty queue).
unfoldable pub queue_at : Levels → Price → Queue
queue_at [] p = []
queue_at ((q, os) ∷ ls) p = if eqb_ℤ q p then os else queue_at ls p

-- `book[p].push_back(o)`
unfoldable pub push_back : Side → Levels → Price → RefOrder → Levels
push_back side [] p o = (p, o ∷ []) ∷ []
push_back side ((q, os) ∷ ls) p o =
    if before side p q
    then (p, o ∷ []) ∷ (q, os) ∷ ls
    else (if eqb_ℤ q p then (q, os ++ o ∷ []) ∷ ls else (q, os) ∷ push_back side ls p o)

-- `dq.erase(find_if(…))` of the order with that id.
unfoldable pub erase_order : OrderId → Queue → Queue
erase_order id [] = []
erase_order id (o ∷ os) = if o.id == id then os else o ∷ erase_order id os

-- An entry with its queue, dropped if the queue is empty.
abbrev pub keep_level : Price → Queue → Levels → Levels
keep_level p [] ls = ls
keep_level p (o ∷ os) ls = (p, o ∷ os) ∷ ls

unfoldable pub erase_at : Levels → Price → OrderId → Levels
unfolding erase_order
erase_at [] p id = []
erase_at ((q, os) ∷ ls) p id =
    if eqb_ℤ q p then keep_level q (erase_order id os) ls else (q, os) ∷ erase_at ls p id

-- `oi->remaining = n` for the order with that id.
unfoldable pub set_remaining : OrderId → Quantity → Queue → Queue
set_remaining id n [] = []
set_remaining id n (o ∷ os) =
    if o.id == id then record o { remaining = n } ∷ os else o ∷ set_remaining id n os

unfoldable pub set_remaining_at : Levels → Price → OrderId → Quantity → Levels
unfolding set_remaining
set_remaining_at [] p id n = []
set_remaining_at ((q, os) ∷ ls) p id n =
    if eqb_ℤ q p then (q, set_remaining id n os) ∷ ls else (q, os) ∷ set_remaining_at ls p id n

-- `oi->remaining`, where `oi` is found.
unfoldable pub remaining_of : OrderId → Queue → Quantity
remaining_of id [] = 0
remaining_of id (o ∷ os) = if o.id == id then o.remaining else remaining_of id os

abbrev pub side_levels : RefBook → Side → Levels
side_levels b buy = b.bids
side_levels b sell = b.asks

abbrev pub with_levels : RefBook → Side → Levels → RefBook
with_levels b buy ls = record b { bids = ls }
with_levels b sell ls = record b { asks = ls }

abbrev pub first_price : Levels → Price
first_price [] = negsuc 0
first_price ((p, os) ∷ ls) = p

unfoldable pub best_bid : RefBook → Price
best_bid b = first_price b.bids

unfoldable pub best_ask : RefBook → Price
best_ask b = first_price b.asks

abbrev pub total_of : Queue → Quantity → Quantity
total_of [] t = t
total_of (o ∷ os) t = total_of os (add64 t o.remaining)

unfoldable pub level_total : Levels → Price → Quantity
unfolding queue_at
level_total ls p = total_of (queue_at ls p) 0

unfoldable pub bid_size_at : RefBook → Price → Quantity
unfolding level_total
bid_size_at b p = level_total b.bids p

unfoldable pub ask_size_at : RefBook → Price → Quantity
unfolding level_total
ask_size_at b p = level_total b.asks p

unfoldable pub open_orders : RefBook → ℕ
open_orders b = length b.id_index

unfoldable pub set_trade_sink : RefBook → RefBook
set_trade_sink b = record b { has_sink = true }
