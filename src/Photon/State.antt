-- ===== src/Photon/State.antt =====
-- include/lob/photon_book.hpp: the lifecycle events, the sinks and the records of `PhotonBook`. The
-- template's Sink is a type `S` with the function its call operator is.
use cpp_matching_engine.Base.{
  ℕ, Bool, true, false, List, [], ◌∷◌, ◌++◌, if◌then◌else◌, replicate, ltb,
}
use cpp_matching_engine.Base.Int.{pos}
use cpp_matching_engine.Types.{
  OrderId, Quantity, Price, OwnerId, Sequence, Side, buy, Trade, null_order_id, TimeInForce, gtc,
}
use cpp_matching_engine.Pool
use cpp_matching_engine.Pool.{Handle, null_handle, Pool, fifo}
use cpp_matching_engine.FlatMap
use cpp_matching_engine.FlatMap.{FlatMap}
use cpp_matching_engine.OrderBook.State.{PriceLevel, blank_level, level_of, no_price}

pub data UpdateType : Type 0 where
  ack fill canceled rejected replaced expired : UpdateType

abbrev pub is_fill : UpdateType → Bool
is_fill fill = true
is_fill _ = false

pub record BookUpdate : Type 0 where
  pub type : UpdateType
  pub side : Side
  pub order_id : OrderId
  pub counter_id : OrderId
  pub price : Price
  pub quantity : Quantity
  pub leaves_qty : Quantity
  pub seq : Sequence

-- `trades` is what the function has been given, oldest first.
pub record CallbackSink : Type 0 where
  pub on_trade : Bool
  pub trades : List Trade

-- Its call operator.
unfoldable pub callback : CallbackSink → BookUpdate → CallbackSink
callback s u =
    let t : Trade = record {
      resting_id = u.counter_id;
      incoming_id = u.order_id;
      price = u.price;
      quantity = u.quantity;
      seq = u.seq;
    } in
    if is_fill u.type
    then (if s.on_trade then record s { trades = s.trades ++ t ∷ [] } else s)
    else s

-- The call operator of `NullSink`.
unfoldable pub ignore : Unit {0} → BookUpdate → Unit {0}
ignore s u = s

pub record PhotonOrder : Type 0 where
  pub remaining : Quantity
  pub prev : Handle
  pub next : Handle
  pub price : Price
  pub id : OrderId
  pub side : Side
  pub tif : TimeInForce
  pub owner : OwnerId
  pub expiry_ns : ℕ

abbrev pub blank_order : PhotonOrder
blank_order = record {
  remaining = 0;
  prev = null_handle;
  next = null_handle;
  price = pos 0;
  id = null_order_id;
  side = buy;
  tif = gtc;
  owner = 0;
  expiry_ns = 0;
}

-- The order as it is written to its slot.
abbrev pub new_order : OrderId → Side → Price → Quantity → OwnerId → TimeInForce → ℕ → PhotonOrder
new_order id side p qty owner tif expiry = record {
  remaining = qty;
  prev = null_handle;
  next = null_handle;
  price = p;
  id = id;
  side = side;
  tif = tif;
  owner = owner;
  expiry_ns = expiry;
}

pub record ExpiryEntry : Type 0 where
  pub expiry_ns : ℕ
  pub order_id : OrderId

-- The priority queue as the list of its entries in the order of their times, the smallest first.
-- Among equal times the heap's order is the library's own; here the oldest entry comes first.
unfoldable pub push_expiry : ExpiryEntry → List ExpiryEntry → List ExpiryEntry
push_expiry e [] = e ∷ []
push_expiry e (x ∷ xs) =
    let rest = push_expiry e xs in if ltb e.expiry_ns x.expiry_ns then e ∷ x ∷ xs else x ∷ rest

pub record PhotonBook {ℓ} (S : Type ℓ) : Type ℓ where
  pub levels : List PriceLevel
  pub pool : Pool PhotonOrder
  pub id_index : FlatMap Handle
  pub sink : S
  pub best_bid : Price
  pub best_ask : Price
  pub seq : Sequence
  pub expiry_queue : List ExpiryEntry

-- `set_trade_sink`, for a book with a `CallbackSink`.
unfoldable pub set_trade_sink : PhotonBook CallbackSink → PhotonBook CallbackSink
set_trade_sink b = record b { sink = record b.sink { on_trade = true } }

module _ {ℓ} {S : Type ℓ} where
  unfoldable pub init : ℕ → ℕ → S → PhotonBook S
  init tick_range max_orders sink = record {
    levels = replicate tick_range blank_level;
    pool = Pool.init PhotonOrder fifo max_orders;
    id_index = FlatMap.init 0 max_orders;
    sink = sink;
    best_bid = no_price;
    best_ask = no_price;
    seq = 0;
    expiry_queue = [];
  }

  abbrev pub level_at : PhotonBook S → Price → PriceLevel
  level_at b p = level_of b.levels p

  abbrev pub order_at : PhotonBook S → Handle → PhotonOrder
  order_at b h = Pool.get blank_order b.pool h

  unfoldable pub open_orders : PhotonBook S → ℕ
  open_orders b = b.pool.in_use
