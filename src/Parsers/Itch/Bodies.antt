-- ===== src/Parsers/Itch/Bodies.antt =====
-- What `parse_message` makes of the body of a message.
use cpp_matching_engine.Base.{
  ℕ, ◌-◌, ◌<◌, ◌^◌, ◌≡◌, refl, ap, ◌∙◌, Bool, true, false, List, [], ◌∷◌, some, none, arith, length,
  ltb, replicate, not, ne→==, ◌&&◌, if◌then◌else◌,
}
use cpp_matching_engine.Base.Int.{pos}
use cpp_matching_engine.Types.{Side, buy, sell}
use cpp_matching_engine.Parsers.{MarketEvent, divide}
use cpp_matching_engine.Parsers.Itch.{
  ItchParser, padded, matches, bytes_equal, parse_add, parse_message,
}
use cpp_matching_engine.Parsers.Itch.Read.{be32, Symbol, symbol_bytes, join32, join48, join64}
use cpp_matching_engine.Parsers.Itch.Messages.{
  Header, Message, add_bytes, body, size, Fits, symbol_of, passes, added, event_of,
}

padded-symbol : (text : List ℕ) → padded text ≡ symbol_bytes (symbol_of text) []
unfolding padded
padded-symbol [] = refl
padded-symbol (a ∷ []) = refl
padded-symbol (a ∷ b ∷ []) = refl
padded-symbol (a ∷ b ∷ c ∷ []) = refl
padded-symbol (a ∷ b ∷ c ∷ d ∷ []) = refl
padded-symbol (a ∷ b ∷ c ∷ d ∷ e ∷ []) = refl
padded-symbol (a ∷ b ∷ c ∷ d ∷ e ∷ f ∷ []) = refl
padded-symbol (a ∷ b ∷ c ∷ d ∷ e ∷ f ∷ g ∷ []) = refl
padded-symbol (a ∷ b ∷ c ∷ d ∷ e ∷ f ∷ g ∷ h ∷ rest) =
    let full : 8 - length (a ∷ b ∷ c ∷ d ∷ e ∷ f ∷ g ∷ h ∷ rest) ≡ 0 = omega arith in
    ap (λ n. a ∷ b ∷ c ∷ d ∷ e ∷ f ∷ g ∷ h ∷ replicate n b' ') full

-- Both comparisons of the filter.
matches-passes :
    (filter : List ℕ) (type ref shares price : ℕ) (h : Header) (side : Side) (stock : Symbol)
    (rest : List ℕ)
    → (matches filter (type ∷ add_bytes h ref side shares stock price rest) 11
        && matches filter (type ∷ add_bytes h ref side shares stock price rest) 24)
      ≡ passes filter ref stock
unfolding matches
matches-passes [] type ref shares price h side stock rest = refl
matches-passes (c ∷ cs) type ref shares price h side stock rest =
    let msg = type ∷ add_bytes h ref side shares stock price rest in
    ap (λ s. bytes_equal msg 11 s && bytes_equal msg 24 s) (padded-symbol (c ∷ cs))

-- Two guards are one.
both-guards :
    (a b : Bool) (e : MarketEvent)
    → (if not a then none else (if not b then none else some e)) ≡ (if a && b then some e else none)
both-guards false b e = refl
both-guards true false e = refl
both-guards true true e = refl

guarded :
    (parser : ItchParser) (type d : ℕ) (h : Header) (ref : ℕ) (side : Side) (shares : ℕ)
    (stock : Symbol) (price : ℕ) (rest : List ℕ)
    → (let msg = type ∷ add_bytes h ref side shares stock price rest in
        if not (matches parser.symbol_filter msg 11)
        then none
        else (if not (matches parser.symbol_filter msg 24)
            then none
            else some (added d h ref side shares price)))
      ≡ (if passes parser.symbol_filter ref stock
          then some (added d h ref side shares price)
          else none)
guarded parser type d h ref side shares stock price rest =
    let msg = type ∷ add_bytes h ref side shares stock price rest in
    let e = added d h ref side shares price in
    both-guards (matches parser.symbol_filter msg 11) (matches parser.symbol_filter msg 24) e
    ∙ ap (λ x. if x then some e else none)
        (matches-passes parser.symbol_filter type ref shares price h side stock rest)

parse_add-bytes :
    (parser : ItchParser) (type n d : ℕ) (h : Header) (ref : ℕ) (side : Side) (shares : ℕ)
    (stock : Symbol) (price : ℕ) (rest : List ℕ)
    → parser.tick_divisor ≡ pos d
    → ltb n 36 ≡ false
    → (h.time < 2 ^ 48) × (ref < 2 ^ 64) × (shares < 2 ^ 32) × (price < 2 ^ 32)
    → parse_add parser (type ∷ add_bytes h ref side shares stock price rest) n ≡ (
        if passes parser.symbol_filter ref stock
        then some (added d h ref side shares price)
        else none)
unfolding parse_add divide
parse_add-bytes parser type n d h ref buy shares stock price rest div long f =
    rw (long, join48 h.time f.0, join64 ref f.1, join32 shares f.2, join32 price f.3, div)
      (guarded parser type d h ref buy shares stock price rest)
parse_add-bytes parser type n d h ref sell shares stock price rest div long f =
    rw (long, join48 h.time f.0, join64 ref f.1, join32 shares f.2, join32 price f.3, div)
      (guarded parser type d h ref sell shares stock price rest)

-- The event of a message from its body, whatever follows it.
pub parse_message-body :
    (parser : ItchParser) (d : ℕ) (m : Message) (rest : List ℕ)
    → parser.tick_divisor ≡ pos d
    → Fits m
    → parse_message parser (body m rest) (size m) ≡ event_of parser.symbol_filter d m
unfolding parse_message divide
parse_message-body parser d (Message.add h ref side shares stock price) rest div f =
    parse_add-bytes parser b'A' 36 d h ref side shares stock price rest div refl f
parse_message-body parser d (Message.add_attributed h ref side shares stock price attribution) rest
      div f =
    parse_add-bytes parser b'F' 40 d h ref side shares stock price (be32 attribution rest) div refl
      f
parse_message-body parser d (Message.execute h ref shares match_number) rest div f =
    rw (join48 h.time f.0, join64 ref f.1, join32 shares f.2)
parse_message-body parser d (Message.execute_at h ref shares match_number printable price) rest div
      f =
    rw (join48 h.time f.0, join64 ref f.1, join32 shares f.2, join32 price f.3, div)
parse_message-body parser d (Message.cancel h ref shares) rest div f =
    rw (join48 h.time f.0, join64 ref f.1, join32 shares f.2)
parse_message-body parser d (Message.delete h ref) rest div f =
    rw (join48 h.time f.0, join64 ref f.1)
parse_message-body parser d (Message.replace h ref new_ref shares price) rest div f = rw (
  join48 h.time f.0,
  join64 ref f.1,
  join64 new_ref f.2,
  join32 shares f.3,
  join32 price f.4,
  div,
)
parse_message-body parser d (Message.other type content) rest div f =
    let n = f.0 in
    rw
      (
        ne→== type b'A' n.0,
        ne→== type b'F' n.1.0,
        ne→== type b'E' n.1.1.0,
        ne→== type b'C' n.1.1.1.0,
        ne→== type b'X' n.1.1.1.1.0,
        ne→== type b'D' n.1.1.1.1.1.0,
        ne→== type b'U' n.1.1.1.1.1.1.0,
      )
      refl
