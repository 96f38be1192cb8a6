-- ===== src/Examples/Messages.antt =====
-- The ITCH parser at concrete messages.
use cpp_matching_engine.Base.{map, ℕ, ◌≡◌, refl, true, List, [], ◌∷◌}
use cpp_matching_engine.Base.Int.{pos}
use cpp_matching_engine.Types.{buy, Price}
use cpp_matching_engine.Parsers.{MarketEvent, EventAction}
use cpp_matching_engine.Parsers.Itch.{ItchParser}
use cpp_matching_engine.Parsers.Itch.Read.{Symbol}
use cpp_matching_engine.Parsers.Itch.Messages.{Header, Message, events_of}

abbrev stock : Symbol
stock = record {
  s0 = b'A';
  s1 = b'A';
  s2 = b'P';
  s3 = b'L';
  s4 = b' ';
  s5 = b' ';
  s6 = b' ';
  s7 = b' ';
}

-- A stock of eight times the byte 65, and an order reference with the same bytes.
abbrev stock_a : Symbol
stock_a = record { s0 = 65; s1 = 65; s2 = 65; s3 = 65; s4 = 65; s5 = 65; s6 = 65; s7 = 65 }

abbrev ref_a : ℕ
ref_a = 4702111234474983745

-- Orders are added, executed, reduced, replaced and deleted, with a message of another type between.
abbrev header : Header
header = record { locate = 1; tracking = 2; time = 3000 }

abbrev life : List Message
life =
    Message.add header 77 buy 200 stock 1500000
    ∷ Message.add_attributed header ref_a buy 10 stock_a 1500000 9
    ∷ Message.other b'S' (0 ∷ 1 ∷ [])
    ∷ Message.execute header 77 20 5
    ∷ Message.execute_at header 77 30 6 b'Y' 1500200
    ∷ Message.cancel header 77 50
    ∷ Message.replace header 77 78 150 1500100
    ∷ Message.delete header 78
    ∷ []

-- The filter lets the second order through and not the first.
abbrev filtered : ItchParser
filtered = record {
  symbol_filter = 65 ∷ 65 ∷ 65 ∷ 65 ∷ 65 ∷ 65 ∷ 65 ∷ 65 ∷ [];
  tick_divisor = pos 100;
  length_prefixed = true;
}

-- The events of these messages: the first order is not among them.
life_events :
    map {B = EventAction × ℕ × Price}
      (λ (e : MarketEvent). (e.action, e.order_id, e.price))
      (events_of filtered.symbol_filter 100 life)
    ≡ (EventAction.add, ref_a, pos 15000)
      ∷ (EventAction.execute, 77, pos 0)
      ∷ (EventAction.execute, 77, pos 15002)
      ∷ (EventAction.cancel, 77, pos 0)
      ∷ (EventAction.modify, 77, pos 15001)
      ∷ (EventAction.cancel, 78, pos 0)
      ∷ []
unfolding events_of
life_events = refl
