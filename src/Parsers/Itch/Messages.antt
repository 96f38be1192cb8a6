-- ===== src/Parsers/Itch/Messages.antt =====
-- The messages of an ITCH feed as a sender encodes them, and the events that they stand for.
use cpp_matching_engine.Base.{
  ℕ, suc, ◌/◌, ◌^◌, ◌<◌, Bool, true, false, List, [], ◌∷◌, ◌++◌, Option, none, some, length, get_or,
  NotIn, ◌&&◌, ◌==◌, if◌then◌else◌,
}
use cpp_matching_engine.Base.Int.{pos}
use cpp_matching_engine.Types.{Side}
use cpp_matching_engine.Parsers.{MarketEvent, EventAction, event}
use cpp_matching_engine.Parsers.Itch.Read.{be16, be32, be48, be64, Symbol, symbol_bytes, side_byte}

-- The fields that all messages begin with, after the type.
pub record Header : Type 0 where
  pub locate : ℕ
  pub tracking : ℕ
  pub time : ℕ

-- The types 'A', 'F', 'E', 'C', 'X', 'D' and 'U', and a message of some other type with its content.
pub data Message : Type 0 where
  add : Header → ℕ → Side → ℕ → Symbol → ℕ → Message
  add_attributed : Header → ℕ → Side → ℕ → Symbol → ℕ → ℕ → Message
  execute : Header → ℕ → ℕ → ℕ → Message
  execute_at : Header → ℕ → ℕ → ℕ → ℕ → ℕ → Message
  cancel : Header → ℕ → ℕ → Message
  delete : Header → ℕ → Message
  replace : Header → ℕ → ℕ → ℕ → ℕ → Message
  other : ℕ → List ℕ → Message

abbrev pub header_bytes : Header → List ℕ → List ℕ
header_bytes h rest = be16 h.locate (be16 h.tracking (be48 h.time rest))

abbrev pub add_bytes : Header → ℕ → Side → ℕ → Symbol → ℕ → List ℕ → List ℕ
add_bytes h ref side shares stock price rest =
    header_bytes h (be64 ref (side_byte side ∷ be32 shares (symbol_bytes stock (be32 price rest))))

-- The body of a message, in front of the bytes that follow it.
abbrev pub body : Message → List ℕ → List ℕ
body (Message.add h ref side shares stock price) rest =
    b'A' ∷ add_bytes h ref side shares stock price rest
body (Message.add_attributed h ref side shares stock price attribution) rest =
    b'F' ∷ add_bytes h ref side shares stock price (be32 attribution rest)
body (Message.execute h ref shares match_number) rest =
    b'E' ∷ header_bytes h (be64 ref (be32 shares (be64 match_number rest)))
body (Message.execute_at h ref shares match_number printable price) rest =
    b'C' ∷ header_bytes h (be64 ref (be32 shares (be64 match_number (printable ∷ be32 price rest))))
body (Message.cancel h ref shares) rest = b'X' ∷ header_bytes h (be64 ref (be32 shares rest))
body (Message.delete h ref) rest = b'D' ∷ header_bytes h (be64 ref rest)
body (Message.replace h ref new_ref shares price) rest =
    b'U' ∷ header_bytes h (be64 ref (be64 new_ref (be32 shares (be32 price rest))))
body (Message.other type content) rest = type ∷ content ++ rest

abbrev pub size : Message → ℕ
size (Message.add h ref side shares stock price) = 36
size (Message.add_attributed h ref side shares stock price attribution) = 40
size (Message.execute h ref shares match_number) = 31
size (Message.execute_at h ref shares match_number printable price) = 36
size (Message.cancel h ref shares) = 23
size (Message.delete h ref) = 19
size (Message.replace h ref new_ref shares price) = 35
size (Message.other type content) = suc (length content)

-- The fields that the parser reads fit their widths, and a message of another type has another type
-- and fits its length field.
abbrev pub Fits : Message → Type 0
Fits (Message.add h ref side shares stock price) =
    (h.time < 2 ^ 48) × (ref < 2 ^ 64) × (shares < 2 ^ 32) × (price < 2 ^ 32)
Fits (Message.add_attributed h ref side shares stock price attribution) =
    (h.time < 2 ^ 48) × (ref < 2 ^ 64) × (shares < 2 ^ 32) × (price < 2 ^ 32)
Fits (Message.execute h ref shares match_number) =
    (h.time < 2 ^ 48) × (ref < 2 ^ 64) × (shares < 2 ^ 32)
Fits (Message.execute_at h ref shares match_number printable price) =
    (h.time < 2 ^ 48) × (ref < 2 ^ 64) × (shares < 2 ^ 32) × (price < 2 ^ 32)
Fits (Message.cancel h ref shares) = (h.time < 2 ^ 48) × (ref < 2 ^ 64) × (shares < 2 ^ 32)
Fits (Message.delete h ref) = (h.time < 2 ^ 48) × (ref < 2 ^ 64)
Fits (Message.replace h ref new_ref shares price) =
    (h.time < 2 ^ 48) × (ref < 2 ^ 64) × (new_ref < 2 ^ 64) × (shares < 2 ^ 32) × (price < 2 ^ 32)
Fits (Message.other type content) =
    NotIn type (b'A' ∷ b'F' ∷ b'E' ∷ b'C' ∷ b'X' ∷ b'D' ∷ b'U' ∷ [])
    × (suc (length content) < 2 ^ 16)

-- The symbol that a text names: its first eight bytes, or spaces where it has fewer.
abbrev pub symbol_of : List ℕ → Symbol
symbol_of text = record {
  s0 = get_or text 0 b' ';
  s1 = get_or text 1 b' ';
  s2 = get_or text 2 b' ';
  s3 = get_or text 3 b' ';
  s4 = get_or text 4 b' ';
  s5 = get_or text 5 b' ';
  s6 = get_or text 6 b' ';
  s7 = get_or text 7 b' ';
}

abbrev pub same_bytes : List ℕ → List ℕ → Bool
same_bytes [] [] = true
same_bytes [] (y ∷ ys) = false
same_bytes (x ∷ xs) [] = false
same_bytes (x ∷ xs) (y ∷ ys) = (x == y) && same_bytes xs ys

-- Which add messages a filter lets through: all if it is empty, else those with both the stock and the
-- bytes of the order reference equal to its symbol.
abbrev pub passes : List ℕ → ℕ → Symbol → Bool
passes [] ref stock = true
passes (c ∷ cs) ref stock =
    same_bytes (be64 ref []) (symbol_bytes (symbol_of (c ∷ cs)) [])
    && same_bytes (symbol_bytes stock []) (symbol_bytes (symbol_of (c ∷ cs)) [])

abbrev pub added : ℕ → Header → ℕ → Side → ℕ → ℕ → MarketEvent
added divisor h ref side shares price = record (event EventAction.add) {
  timestamp_ns = h.time;
  order_id = ref;
  side = side;
  quantity = shares;
  price = pos (price / divisor);
}

-- The event that a message stands for, with a filter and prices in ticks of `divisor`.
abbrev pub event_of : List ℕ → ℕ → Message → Option MarketEvent
event_of filter divisor (Message.add h ref side shares stock price) =
    if passes filter ref stock then some (added divisor h ref side shares price) else none
event_of filter divisor (Message.add_attributed h ref side shares stock price attribution) =
    if passes filter ref stock then some (added divisor h ref side shares price) else none
event_of filter divisor (Message.execute h ref shares match_number) =
    some (record (event EventAction.execute) {
      timestamp_ns = h.time;
      order_id = ref;
      quantity = shares;
    })
event_of filter divisor (Message.execute_at h ref shares match_number printable price) =
    some (record (event EventAction.execute) {
      timestamp_ns = h.time;
      order_id = ref;
      quantity = shares;
      price = pos (price / divisor);
    })
event_of filter divisor (Message.cancel h ref shares) =
    some (record (event EventAction.cancel) {
      timestamp_ns = h.time;
      order_id = ref;
      quantity = shares;
    })
event_of filter divisor (Message.delete h ref) =
    some (record (event EventAction.cancel) { timestamp_ns = h.time; order_id = ref })
event_of filter divisor (Message.replace h ref new_ref shares price) =
    some (record (event EventAction.modify) {
      timestamp_ns = h.time;
      order_id = ref;
      new_order_id = new_ref;
      quantity = shares;
      price = pos (price / divisor);
    })
event_of filter divisor (Message.other type content) = none

-- The events of a sequence of messages.
unfoldable pub events_of : List ℕ → ℕ → List Message → List MarketEvent
events_of filter divisor [] = []
events_of filter divisor (m ∷ ms) =
    let rest = events_of filter divisor ms in
    elim (event_of filter divisor m) [ none ↦ rest | some e ↦ e ∷ rest ]

-- The messages with their lengths in front.
abbrev pub feed : List Message → List ℕ
feed [] = []
feed (m ∷ ms) = be16 (size m) (body m (feed ms))
