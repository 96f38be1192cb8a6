-- ===== src/OrderBook/State.antt =====
-- include/lob/order_book.hpp: the records of the book and the accessors of its arrays.
use cpp_matching_engine.Base.{
  ℕ, suc, ◌-◌, Bool, true, false, List, [], ◌==◌, if◌then◌else◌, get_or, set, replicate, u64_mod,
}
use cpp_matching_engine.Base.Int.{pos, negsuc}
use cpp_matching_engine.Types.{
  OrderId, Quantity, Price, OwnerId, Sequence, Side, buy, sell, Trade, null_order_id,
}
use cpp_matching_engine.Pool
use cpp_matching_engine.Pool.{Handle, null_handle, Pool, lifo}

pub record Order : Type 0 where
  pub remaining : Quantity
  pub prev : Handle
  pub next : Handle
  pub id : OrderId
  pub price : Price
  pub side : Side
  pub owner : OwnerId

-- The default member initialisers.
abbrev pub blank_order : Order
blank_order = record {
  remaining = 0;
  prev = null_handle;
  next = null_handle;
  id = null_order_id;
  price = pos 0;
  side = buy;
  owner = 0;
}

pub record PriceLevel : Type 0 where
  pub head : Handle
  pub tail : Handle
  pub total : Quantity

abbrev pub blank_level : PriceLevel
blank_level = record { head = null_handle; tail = null_handle; total = 0 }

-- `PriceLevel::empty`
abbrev pub is_empty : PriceLevel → Bool
is_empty l = l.head == null_handle

-- `trades` is what the trade sink has been given, oldest first; without a sink it stays as it is.
pub record OrderBook : Type 0 where
  pub levels : List PriceLevel
  pub pool : Pool Order
  pub id_index : List (OrderId × Handle)
  pub best_bid : Price
  pub best_ask : Price
  pub seq : Sequence
  pub has_sink : Bool
  pub trades : List Trade

-- The sentinel of `best_bid_` and `best_ask_`.
abbrev pub no_price : Price
no_price = negsuc 0

unfoldable pub init : ℕ → ℕ → OrderBook
init tick_range max_orders = record {
  levels = replicate tick_range blank_level;
  pool = Pool.init Order lifo max_orders;
  id_index = [];
  best_bid = no_price;
  best_ask = no_price;
  seq = 0;
  has_sink = false;
  trades = [];
}

unfoldable pub set_trade_sink : OrderBook → OrderBook
set_trade_sink b = record b { has_sink = true }

-- The conversion of a price to the `size_t` that indexes `levels_`.
abbrev pub to_size : Price → ℕ
to_size (pos n) = n
to_size (negsuc n) = u64_mod - suc n

-- `levels_[p]`. A read out of range gives a blank level, and a write out of range does nothing.
abbrev pub level_of : List PriceLevel → Price → PriceLevel
level_of ls p = get_or ls (to_size p) blank_level

abbrev pub set_level : List PriceLevel → Price → PriceLevel → List PriceLevel
set_level ls p l = set ls (to_size p) l

abbrev pub level_at : OrderBook → Price → PriceLevel
level_at b p = level_of b.levels p

-- `pool_[h]`
abbrev pub order_at : OrderBook → Handle → Order
order_at b h = Pool.get blank_order b.pool h

unfoldable pub open_orders : OrderBook → ℕ
open_orders b = b.pool.in_use

abbrev pub size_for : Side → Side → Quantity → Quantity
size_for buy buy n = n
size_for sell sell n = n
size_for _ _ n = 0

unfoldable pub bid_size_at : OrderBook → Price → Quantity
bid_size_at b p =
    let l = level_at b p in if is_empty l then 0 else size_for buy (order_at b l.head).side l.total

unfoldable pub ask_size_at : OrderBook → Price → Quantity
ask_size_at b p =
    let l = level_at b p in if is_empty l then 0 else size_for sell (order_at b l.head).side l.total
