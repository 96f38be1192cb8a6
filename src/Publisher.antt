-- ===== src/Publisher.antt =====
-- include/lob/publisher.hpp: the outbound edge. The core's trade sink pushes messages into the
-- queue, and the publisher drains it. The queue's capacity is an argument.
pub mod Calls
pub mod Delivery
pub mod Overrun
use cpp_matching_engine.Base.{
  ℕ, zero, suc, Bool, true, false, List, [], ◌∷◌, ◌++◌, Option, none, some, if◌then◌else◌, add64,
}
use cpp_matching_engine.Types.{OrderId, Quantity, Price, Sequence, Trade}
use cpp_matching_engine.Base.Int.{pos}
use cpp_matching_engine.Spsc.{Ring, try_push, try_pop}

pub data OutMsgType : Type 0 where
  trade exec_report : OutMsgType

pub record OutMsg : Type 0 where
  pub type : OutMsgType
  pub side : ℕ
  pub order_id : OrderId
  pub counter_id : OrderId
  pub price : Price
  pub quantity : Quantity
  pub filled : Quantity
  pub resting : Quantity
  pub seq : Sequence
  pub accepted : ℕ
  pub fully_filled : ℕ

-- `OutQueue`'s capacity.
abbrev pub queue_capacity : ℕ
queue_capacity = 65536

-- `trade_calls` and `exec_calls` are what the callbacks have been given, oldest first.
pub record Publisher : Type 0 where
  pub queue : Ring OutMsg
  pub on_trade : Bool
  pub on_exec : Bool
  pub trade_calls : List OutMsg
  pub exec_calls : List OutMsg
  pub running : Bool
  pub processed : ℕ

unfoldable pub init : Ring OutMsg → Bool → Bool → Publisher
init queue on_trade on_exec = record {
  queue = queue;
  on_trade = on_trade;
  on_exec = on_exec;
  trade_calls = [];
  exec_calls = [];
  running = false;
  processed = 0;
}

-- `start` and `stop`, but for the thread.
unfoldable pub start : Publisher → Publisher
start p = record p { running = true }

unfoldable pub stop : Publisher → Publisher
stop p = record p { running = false }

abbrev pub call_if : Bool → List OutMsg → OutMsg → List OutMsg
call_if there calls m = if there then calls ++ m ∷ [] else calls

-- The callback that one message goes to.
abbrev pub add_trade : Publisher → OutMsgType → OutMsg → List OutMsg
add_trade p trade m = call_if p.on_trade p.trade_calls m
add_trade p exec_report m = p.trade_calls

abbrev pub add_exec : Publisher → OutMsgType → OutMsg → List OutMsg
add_exec p trade m = p.exec_calls
add_exec p exec_report m = call_if p.on_exec p.exec_calls m

-- The body of both loops: the `switch`, and the count.
unfoldable pub handle : Publisher → OutMsg → Publisher
handle p m = record p {
  trade_calls = add_trade p m.type m;
  exec_calls = add_exec p m.type m;
  processed = add64 p.processed 1;
}

unfoldable pub messages_processed : Publisher → ℕ
messages_processed p = p.processed

abbrev pub batch_limit : ℕ
batch_limit = 512

-- The message of a trade; its other fields are value-initialised.
abbrev pub message : ℕ → Trade → OutMsg
message aggressor_side t = record {
  type = trade;
  side = aggressor_side;
  order_id = t.incoming_id;
  counter_id = t.resting_id;
  price = t.price;
  quantity = t.quantity;
  filled = 0;
  resting = 0;
  seq = t.seq;
  accepted = 0;
  fully_filled = 0;
}

-- What `make_spsc_trade_sink` captures: the queue and the overrun counter.
abbrev pub Edge : Type 0
Edge = Ring OutMsg × ℕ

module _ (capacity : ℕ) where
  -- `while (queue_.try_pop(msg) && batch < 512)`, with `n` messages left below the limit. The pop
  -- comes first, also when the limit is reached.
  unfoldable pub batch_loop : ℕ → Publisher → Publisher
  unfolding handle
  batch_loop zero p = record p { queue = (try_pop capacity p.queue).0 }
  batch_loop (suc n) p = elim (try_pop capacity p.queue).1 [
    | none ↦ p
    | some m ↦ batch_loop n (handle (record p { queue = (try_pop capacity p.queue).0 }) m)
  ]

  -- One round of `run` while the publisher runs, between two pushes of the core.
  unfoldable pub poll : Publisher → Publisher
  unfolding batch_loop
  poll p = if p.running then batch_loop batch_limit p else p

  -- The drain after the stop signal, with fuel for the messages.
  unfoldable pub drain_loop : ℕ → Publisher → Publisher
  unfolding handle
  drain_loop zero p = p
  drain_loop (suc n) p = elim (try_pop capacity p.queue).1 [
    | none ↦ p
    | some m ↦ drain_loop n (handle (record p { queue = (try_pop capacity p.queue).0 }) m)
  ]

  -- The queue holds less messages than its capacity.
  unfoldable pub drain : Publisher → Publisher
  unfolding drain_loop
  drain p = drain_loop capacity p

  -- The function that it returns.
  unfoldable pub trade_sink : ℕ → Edge → Trade → Edge
  trade_sink aggressor_side (queue, overruns) t =
      let pushed = try_push capacity queue (message aggressor_side t) in
      if pushed.1 then (pushed.0, overruns) else (pushed.0, add64 overruns 1)
