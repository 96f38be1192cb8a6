-- ===== src/Parsers/Lobster.antt =====
-- include/lob/parsers.hpp: `LobsterParser`. The six fields of a line come from `sscanf`, which is not
-- modelled: `parse_line` starts from what it has read. The timestamp is a double there; its
-- conversion to nanoseconds is an argument.
use cpp_matching_engine.Base.{ℕ, List, [], ◌∷◌, Option, none, some, ltb, ◌==◌, if◌then◌else◌}
use cpp_matching_engine.Base.Int.{ℤ, pos, negsuc, eqb_ℤ}
use cpp_matching_engine.Types.{buy, sell}
use cpp_matching_engine.Parsers.{EventAction, add, cancel, execute, MarketEvent, event, divide}

-- What `sscanf` has stored, and how many of the fields.
pub record Fields (Time : Type 0) : Type 0 where
  pub read : ℕ
  pub timestamp : Time
  pub type : ℤ
  pub order_id : ℕ
  pub size : ℕ
  pub price : ℤ
  pub direction : ℤ

-- The `switch` on the type of the line.
unfoldable pub action_of : ℤ → Option EventAction
action_of (pos n) =
    if n == 1
    then some add
    else (if n == 2
        then some cancel
        else (if n == 3
            then some cancel
            else (if n == 4 then some execute else (if n == 5 then some execute else none))))
action_of (negsuc n) = none

module _ {Time : Type 0} (to_ns : Time → ℕ) (tick_divisor : ℤ) where
  unfoldable pub parse_line : Fields Time → Option MarketEvent
  unfolding action_of divide
  parse_line f = if ltb f.read 6 then none else elim (action_of f.type) [
    | none ↦ none
    | some a ↦ some (record (event a) {
      order_id = f.order_id;
      quantity = f.size;
      price = divide f.price tick_divisor;
      side = if eqb_ℤ f.direction (pos 1) then buy else sell;
      timestamp_ns = to_ns f.timestamp;
    })
  ]

  -- `parse_file` over the lines that `getline` gives.
  unfoldable pub parse_lines : List (Fields Time) → List MarketEvent
  unfolding parse_line
  parse_lines [] = []
  parse_lines (f ∷ fs) =
      let rest = parse_lines fs in elim (parse_line f) [ none ↦ rest | some e ↦ e ∷ rest ]
