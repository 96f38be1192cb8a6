-- ===== src/Examples/Crossing.antt =====
-- The reference book at concrete orders.
use cpp_matching_engine.Base.{◌≡◌, arith, none}
use cpp_matching_engine.Base.Int.{pos}
use cpp_matching_engine.Types.{buy, sell, limit}
use cpp_matching_engine.RefBook.{submit, cancel, modify, do_match, round}
use cpp_matching_engine.RefBook.State.{RefBook, init}
use cpp_matching_engine.RefBook.Uncrossed.{
  Valid, init-Valid, submit-Valid, cancel-Valid, modify-Valid,
}
use cpp_matching_engine.OrderBook.Quantities.{Accounts}
use cpp_matching_engine.RefBook.Quantities.{ref_submit-Accounts}
use cpp_matching_engine.RefBook.Stops.{do_match-stops}

-- A book with an ask of ten at 50.
abbrev with_ask : RefBook
with_ask = (submit init 1 sell limit (pos 50) 10 0).0

with_ask-Valid : Valid with_ask
with_ask-Valid = submit-Valid init 1 sell limit (pos 50) 10 0 init-Valid (omega arith)

submit-Valid_example : Valid (submit with_ask 2 buy limit (pos 52) 14 0).0
submit-Valid_example = submit-Valid with_ask 2 buy limit (pos 52) 14 0 with_ask-Valid (omega arith)

cancel-Valid_example : Valid (cancel with_ask 1).0
cancel-Valid_example = cancel-Valid with_ask 1 with_ask-Valid

modify-Valid_example : Valid (modify with_ask 1 (pos 49) 20).0
modify-Valid_example = modify-Valid with_ask 1 (pos 49) 20 with_ask-Valid (omega arith)

do_match-stops_example :
    round 2 buy
      (pos 52)
      0
      with_ask.has_sink
      (do_match with_ask 2 buy (pos 52) 4 0)
      (do_match with_ask 2 buy (pos 52) 4 0).levels
    ≡ none
do_match-stops_example = do_match-stops with_ask 2 buy (pos 52) 4 0

ref_submit-Accounts_example : Accounts (submit with_ask 2 buy limit (pos 52) 14 0).1 14
ref_submit-Accounts_example = ref_submit-Accounts with_ask 2 buy limit (pos 52) 14 0 (omega arith)
