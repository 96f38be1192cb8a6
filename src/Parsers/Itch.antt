-- ===== src/Parsers/Itch.antt =====
-- include/lob/parsers.hpp: the big-endian readers and `ItchParser`. A pointer into the buffer is the
-- list of the bytes from there on; a read past its end gives 0. `p[0] << 8 | p[1]` is written with
-- `*` and `+`, since the shifted bytes do not overlap.
pub mod Read
pub mod Messages
pub mod Bodies
pub mod Feed
use cpp_matching_engine.Base.{
  ℕ, zero, suc, ◌+◌, ◌-◌, ◌*◌, ◌/◌, ◌^◌, Bool, true, false, not, List, [], ◌∷◌, ◌&&◌, ◌||◌, ◌==◌,
  ltb, leb, if◌then◌else◌, Option, none, some, get_or, length, drop, take, replicate, ◌++◌,
}
use cpp_matching_engine.Base.Int.{ℤ, pos}
use cpp_matching_engine.Types.{buy, sell}
use cpp_matching_engine.Parsers.{
  EventAction, add, cancel, modify, execute, MarketEvent, event, divide,
}

abbrev pub byte : List ℕ → ℕ → ℕ
byte msg i = get_or msg i 0

unfoldable pub read_u16 : List ℕ → ℕ → ℕ
read_u16 p i = byte p i * 2 ^ 8 + byte p (i + 1)

unfoldable pub read_u32 : List ℕ → ℕ → ℕ
read_u32 p i = byte p i * 2 ^ 24 + byte p (i + 1) * 2 ^ 16 + byte p (i + 2) * 2 ^ 8 + byte p (i + 3)

unfoldable pub read_u48 : List ℕ → ℕ → ℕ
read_u48 p i =
    byte p i * 2 ^ 40
    + byte p (i + 1) * 2 ^ 32
    + byte p (i + 2) * 2 ^ 24
    + byte p (i + 3) * 2 ^ 16
    + byte p (i + 4) * 2 ^ 8
    + byte p (i + 5)

unfoldable pub read_u64 : List ℕ → ℕ → ℕ
read_u64 p i =
    byte p i * 2 ^ 56
    + byte p (i + 1) * 2 ^ 48
    + byte p (i + 2) * 2 ^ 40
    + byte p (i + 3) * 2 ^ 32
    + byte p (i + 4) * 2 ^ 24
    + byte p (i + 5) * 2 ^ 16
    + byte p (i + 6) * 2 ^ 8
    + byte p (i + 7)

-- The sizes of the message types, in the order of the `switch`.
abbrev pub sizes : List (ℕ × ℕ)
sizes =
    (b'A', 36)
    ∷ (b'F', 40)
    ∷ (b'E', 31)
    ∷ (b'X', 23)
    ∷ (b'D', 19)
    ∷ (b'U', 35)
    ∷ (b'S', 12)
    ∷ (b'R', 39)
    ∷ (b'H', 25)
    ∷ (b'Y', 20)
    ∷ (b'L', 26)
    ∷ (b'V', 35)
    ∷ (b'W', 12)
    ∷ (b'K', 28)
    ∷ (b'J', 35)
    ∷ (b'h', 21)
    ∷ (b'Q', 40)
    ∷ (b'B', 19)
    ∷ (b'I', 50)
    ∷ (b'N', 20)
    ∷ (b'P', 44)
    ∷ (b'C', 36)
    ∷ []

abbrev pub size_in : List (ℕ × ℕ) → ℕ → ℕ
size_in [] type = 0
size_in ((t, n) ∷ ts) type = if type == t then n else size_in ts type

-- 0 for a type that is not known.
unfoldable pub message_size : ℕ → ℕ
message_size type = size_in sizes type

-- `memcmp(msg + i, symbol, n) == 0`
abbrev pub bytes_equal : List ℕ → ℕ → List ℕ → Bool
bytes_equal msg i [] = true
bytes_equal msg i (c ∷ cs) = (byte msg i == c) && bytes_equal msg (i + 1) cs

pub record ItchParser : Type 0 where
  pub symbol_filter : List ℕ
  pub tick_divisor : ℤ
  pub length_prefixed : Bool

-- `sym_padded`: the first 8 bytes of the filter, padded with spaces to 8.
unfoldable pub padded : List ℕ → List ℕ
padded filter = take 8 filter ++ replicate (8 - length filter) b' '

-- `symbol_filter.empty() || memcmp(msg + i, sym_padded, 8) == 0`
unfoldable pub matches : List ℕ → List ℕ → ℕ → Bool
unfolding padded
matches [] msg i = true
matches (c ∷ cs) msg i = bytes_equal msg i (padded (c ∷ cs))

module _ (parser : ItchParser) where
  open parser use {symbol_filter, tick_divisor, length_prefixed}

  -- Types 'A' and 'F'.
  unfoldable pub parse_add : List ℕ → ℕ → Option MarketEvent
  unfolding read_u32 read_u48 read_u64 divide matches
  parse_add msg len =
      if ltb len 36
      then none
      else (if not (matches symbol_filter msg 11)
          then none
          else (if not (matches symbol_filter msg 24)
              then none
              else some (record (event add) {
                timestamp_ns = read_u48 msg 5;
                order_id = read_u64 msg 11;
                side = if byte msg 19 == b'B' then buy else sell;
                quantity = read_u32 msg 20;
                price = divide (pos (read_u32 msg 32)) tick_divisor;
              })))

  -- Type 'E'.
  unfoldable pub parse_executed : List ℕ → ℕ → Option MarketEvent
  unfolding read_u32 read_u48 read_u64
  parse_executed msg len =
      if ltb len 31
      then none
      else some (record (event execute) {
        timestamp_ns = read_u48 msg 5;
        order_id = read_u64 msg 11;
        quantity = read_u32 msg 19;
      })

  -- Type 'C'.
  unfoldable pub parse_executed_price : List ℕ → ℕ → Option MarketEvent
  unfolding read_u32 read_u48 read_u64 divide
  parse_executed_price msg len =
      if ltb len 36
      then none
      else some (record (event execute) {
        timestamp_ns = read_u48 msg 5;
        order_id = read_u64 msg 11;
        quantity = read_u32 msg 19;
        price = divide (pos (read_u32 msg 32)) tick_divisor;
      })

  -- Type 'X'.
  unfoldable pub parse_cancel : List ℕ → ℕ → Option MarketEvent
  unfolding read_u32 read_u48 read_u64
  parse_cancel msg len =
      if ltb len 23
      then none
      else some (record (event cancel) {
        timestamp_ns = read_u48 msg 5;
        order_id = read_u64 msg 11;
        quantity = read_u32 msg 19;
      })

  -- Type 'D'.
  unfoldable pub parse_delete : List ℕ → ℕ → Option MarketEvent
  unfolding read_u48 read_u64
  parse_delete msg len =
      if ltb len 19
      then none
      else some
          (record (event cancel) { timestamp_ns = read_u48 msg 5; order_id = read_u64 msg 11 })

  -- Type 'U'.
  unfoldable pub parse_replace : List ℕ → ℕ → Option MarketEvent
  unfolding read_u32 read_u48 read_u64 divide
  parse_replace msg len =
      if ltb len 35
      then none
      else some (record (event modify) {
        timestamp_ns = read_u48 msg 5;
        order_id = read_u64 msg 11;
        new_order_id = read_u64 msg 19;
        quantity = read_u32 msg 27;
        price = divide (pos (read_u32 msg 31)) tick_divisor;
      })

  unfoldable pub parse_message : List ℕ → ℕ → Option MarketEvent
  unfolding parse_add parse_executed parse_executed_price parse_cancel parse_delete parse_replace
  parse_message msg len =
      let type = byte msg 0 in
      if type == b'A' || type == b'F'
      then parse_add msg len
      else (if type == b'E'
          then parse_executed msg len
          else (if type == b'C'
              then parse_executed_price msg len
              else (if type == b'X'
                  then parse_cancel msg len
                  else (if type == b'D'
                      then parse_delete msg len
                      else (if type == b'U' then parse_replace msg len else none)))))

  -- The next message: its length, its body and what is behind it. `none` where the loop breaks.
  unfoldable pub next_frame : List ℕ → Option (ℕ × List ℕ × List ℕ)
  unfolding read_u16 message_size
  next_frame rest =
      if length_prefixed
      then (let n = read_u16 rest 0 in
          let body = drop 2 rest in
          if ltb (length rest) 2
          then none
          else (if ltb (length body) n then none else some (n, body, drop n body)))
      else (let n = message_size (byte rest 0) in
          if n == 0
          then none
          else (if ltb (length rest) n then none else some (n, rest, drop n rest)))

  -- `if (ev) events.push_back(*ev)`
  abbrev pub emit : Option MarketEvent → List MarketEvent → List MarketEvent
  emit none es = es
  emit (some e) es = e ∷ es

  -- `while (ptr < end)`, with fuel for the rounds.
  unfoldable pub parse_loop : ℕ → List ℕ → List MarketEvent
  unfolding next_frame parse_message
  parse_loop zero rest = []
  parse_loop (suc fuel) [] = []
  parse_loop (suc fuel) (b ∷ bs) = elim (next_frame (b ∷ bs)) [
    | none ↦ []
    | some (n, body, rest) ↦
        let es = parse_loop fuel rest in if n == 0 then es else emit (parse_message body n) es
  ]

  -- Every round takes at least one byte.
  unfoldable pub parse_buffer : List ℕ → List MarketEvent
  unfolding parse_loop
  parse_buffer buf = parse_loop (length buf) buf
