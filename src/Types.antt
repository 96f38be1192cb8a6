-- ===== src/Types.antt =====
-- include/lob/types.hpp: the domain types. An OrderId, a Quantity, a Sequence and an OwnerId are
-- 64-bit unsigned words, kept as ℕ; a Price is a signed number of ticks.
use cpp_matching_engine.Base.{ℕ, Bool, true, false}
use cpp_matching_engine.Base.Int.{ℤ}

abbrev pub OrderId : Type 0
OrderId = ℕ

abbrev pub Quantity : Type 0
Quantity = ℕ

abbrev pub Sequence : Type 0
Sequence = ℕ

abbrev pub OwnerId : Type 0
OwnerId = ℕ

abbrev pub Price : Type 0
Price = ℤ

abbrev pub null_order_id : OrderId
null_order_id = 0

pub data Side : Type 0 where
  buy sell : Side

abbrev pub opposite : Side → Side
opposite buy = sell
opposite sell = buy

pub data OrderType : Type 0 where
  limit market ioc fok : OrderType

pub data TimeInForce : Type 0 where
  gtc day gtd : TimeInForce

pub record Trade : Type 0 where
  pub resting_id : OrderId
  pub incoming_id : OrderId
  pub price : Price
  pub quantity : Quantity
  pub seq : Sequence

pub record ExecResult : Type 0 where
  pub id : OrderId
  pub filled : Quantity
  pub resting : Quantity
  pub accepted : Bool
  pub fully_filled : Bool

-- `ExecResult{}`, the default member initialisers.
abbrev pub no_result : ExecResult
no_result = record {
  id = null_order_id;
  filled = 0;
  resting = 0;
  accepted = false;
  fully_filled = false;
}

-- Tests on the enumerations.
abbrev pub is_buy : Side → Bool
is_buy buy = true
is_buy sell = false

abbrev pub same_side : Side → Side → Bool
same_side buy buy = true
same_side sell sell = true
same_side _ _ = false

abbrev pub is_limit : OrderType → Bool
is_limit limit = true
is_limit _ = false

abbrev pub is_market : OrderType → Bool
is_market market = true
is_market _ = false

abbrev pub is_fok : OrderType → Bool
is_fok fok = true
is_fok _ = false
