-- ===== src/Parsers.antt =====
-- include/lob/parsers.hpp: the events that the parsers produce. Bytes are numbers below 256.
pub mod Itch
pub mod Lobster
pub mod Format
use cpp_matching_engine.Base.{ℕ, zero, suc, ◌/◌, List, get_or}
use cpp_matching_engine.Base.Int.{ℤ, pos, negsuc}
use cpp_matching_engine.Types.{Side, buy, Price, OrderId, Quantity}

pub data EventAction : Type 0 where
  add cancel modify execute : EventAction

pub record MarketEvent : Type 0 where
  pub action : EventAction
  pub side : Side
  pub order_id : OrderId
  pub price : Price
  pub quantity : Quantity
  pub timestamp_ns : ℕ
  pub new_order_id : OrderId

-- `MarketEvent ev{}` with its action set.
abbrev pub event : EventAction → MarketEvent
event a = record {
  action = a;
  side = buy;
  order_id = 0;
  price = pos 0;
  quantity = 0;
  timestamp_ns = 0;
  new_order_id = 0;
}

-- The sign back on a quotient: C++ division rounds towards zero.
abbrev pub minus : ℕ → ℤ
minus zero = pos 0
minus (suc n) = negsuc n

-- A price divided by `tick_divisor`, which the source takes not to be 0.
unfoldable pub divide : ℤ → ℤ → ℤ
divide (pos n) (pos d) = pos (n / d)
divide (pos n) (negsuc d) = minus (n / suc d)
divide (negsuc n) (pos d) = minus (suc n / d)
divide (negsuc n) (negsuc d) = pos (suc n / suc d)
