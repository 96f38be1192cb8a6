-- ===== src/Examples/Queues.antt =====
-- The queue and the publisher at concrete inputs.
use cpp_matching_engine.Base.{
  ℕ, suc, ◌≡◌, ◌≢◌, refl, ◌≤◌, ◌<◌, ◌+◌, ◌⊎◌, true, false, List, [], ◌∷◌, ◌++◌, arith, length, none,
  some, map, take, drop,
}
use cpp_matching_engine.Base.Int.{pos}
use cpp_matching_engine.Types.{Trade}
use cpp_matching_engine.Spsc.{Ring, init, try_push, try_pop}
use cpp_matching_engine.Spsc.Refine.{Contains, try_push_lem, try_pop_lem}
use cpp_matching_engine.Spsc.Steps.{System, Step, Reach, Producer, Consumer, start}
use cpp_matching_engine.Spsc.Order.{in_order, no_race}
use cpp_matching_engine.Publisher.{OutMsg, Publisher, message, poll, drain, batch_limit}
use cpp_matching_engine.Publisher.Delivery.{Delivered, poll-Delivered, drain-Delivered}
use cpp_matching_engine.Publisher.Overrun.{sink_all, sink_all_lem}

-- A ring of four slots that holds two numbers around its end.
abbrev two_items : Ring ℕ
two_items = record { head = 3; tail = 1; buffer = 8 ∷ 0 ∷ 0 ∷ 7 ∷ [] }

abbrev items : List ℕ
items = 7 ∷ 8 ∷ []

two_items-Contains : Contains 4 two_items items
two_items-Contains = record {
  head_in = omega arith;
  tail_in = omega arith;
  slots = refl;
  count = refl;
  items = (refl, (refl, tt));
}

try_push_lem_example :
    ((length items + 1 ≡ 4) × (try_push 4 two_items 9 ≡ (two_items, false)))
    ⊎ ((length items + 1 < 4)
        × ((try_push 4 two_items 9).1 ≡ true)
        × Contains 4 (try_push 4 two_items 9).0 (items ++ 9 ∷ []))
try_push_lem_example = try_push_lem 4 two_items items 9 two_items-Contains

try_pop_lem_example :
    ((items ≡ []) × (try_pop 4 two_items ≡ (two_items, none)))
    ⊎ ((x : ℕ) × (ys : List ℕ) × (items ≡ x ∷ ys)
        × ((try_pop 4 two_items).1 ≡ some x)
        × Contains 4 (try_pop 4 two_items).0 ys)
try_pop_lem_example = try_pop_lem 4 two_items items two_items-Contains

-- One number goes through a queue of three slots; then the consumer is about to read it while the
-- producer is about to store the next one.
abbrev blank3 : List ℕ
blank3 = 0 ∷ 0 ∷ 0 ∷ []

abbrev one_in : Ring ℕ
one_in = record { head = 0; tail = 1; buffer = 5 ∷ 0 ∷ 0 ∷ [] }

abbrev state : Ring ℕ → Producer ℕ → Consumer ℕ → List ℕ → System ℕ
state r p c pushed = record { ring = r; producer = p; consumer = c; pushed = pushed; popped = [] }

published : Reach 3 (start 3 0) (state one_in Producer.idle Consumer.idle (5 ∷ []))
unfolding init
published =
    Reach.next
      (Reach.next
        (Reach.next (Reach.next Reach.here (Step.push_begin 5 refl))
          (Step.push_room 5 0 refl (λ e. omega (arith, e))))
        (Step.push_store 5 0 refl))
      (Step.push_publish 5 0 refl)

both_ready : Reach 3 (start 3 0) (state one_in (Producer.room 6 1) (Consumer.ready 0) (5 ∷ []))
both_ready =
    Reach.next
      (Reach.next
        (Reach.next (Reach.next published (Step.push_begin 6 refl))
          (Step.push_room 6 1 refl (λ e. omega (arith, e))))
        (Step.pop_begin refl))
      (Step.pop_ready 0 refl (λ e. omega (arith, e)))

abbrev all_pushed : List ℕ
all_pushed = 5 ∷ []

in_order_example :
    (xs : List ℕ) × Contains 3 one_in xs × (all_pushed ≡ [] ++ xs) × (length xs + 1 ≤ 3)
in_order_example = in_order 3 0 (omega arith) both_ready

abbrev slot_of : ℕ → ℕ
slot_of n = n

no_race_example : slot_of 1 ≢ 0
no_race_example = no_race 3 0 6 1 0 (omega arith) both_ready refl refl

-- A queue of four slots with one message.
abbrev sale : Trade
sale = record { resting_id = 1; incoming_id = 2; price = pos 50; quantity = 3; seq = 0 }

abbrev message_in : Ring OutMsg
message_in = record {
  head = 0;
  tail = 1;
  buffer = message 0 sale ∷ message 0 sale ∷ message 0 sale ∷ message 0 sale ∷ [];
}

abbrev messages : List OutMsg
messages = message 0 sale ∷ []

message_in-Contains : Contains 4 message_in messages
message_in-Contains = record {
  head_in = omega arith;
  tail_in = omega arith;
  slots = refl;
  count = refl;
  items = (refl, tt);
}

abbrev publisher : Publisher
publisher = record {
  queue = message_in;
  on_trade = true;
  on_exec = false;
  trade_calls = [];
  exec_calls = [];
  running = true;
  processed = 0;
}

poll-Delivered_example :
    Delivered 4 publisher
      (poll 4 publisher)
      (take batch_limit messages)
      (drop (suc batch_limit) messages)
poll-Delivered_example = poll-Delivered 4 publisher messages message_in-Contains refl (omega arith)

drain-Delivered_example : Delivered 4 publisher (drain 4 publisher) messages []
drain-Delivered_example = drain-Delivered 4 publisher messages message_in-Contains (omega arith)

-- Four trades go to a queue with room for two.
abbrev sales : List Trade
sales = sale ∷ sale ∷ sale ∷ sale ∷ []

sink_all_lem_example :
    (k : ℕ) × (k ≤ length sales)
    × Contains 4 (sink_all 4 0 (message_in, 0) sales).0 (messages ++ map (message 0) (take k sales))
    × ((sink_all 4 0 (message_in, 0) sales).1 + k ≡ 0 + length sales)
    × (k < length sales → length messages + k + 1 ≡ 4)
sink_all_lem_example =
    sink_all_lem 4 0 message_in messages 0 sales message_in-Contains (omega arith)
