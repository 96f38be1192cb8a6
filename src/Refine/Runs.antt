-- ===== src/Refine/Runs.antt =====
-- Sequences of calls on the two books.
use cpp_matching_engine.Base.{
  ℕ, ◌^◌, ◌<◌, ◌≤◌, ◌≡◌, refl, ap, ◌∙◌, Bool, not, List, [], ◌∷◌, none, arith, u64_mod, ◌&&◌,
}
use cpp_matching_engine.Base.Dict.{find}
use cpp_matching_engine.Base.Int.{pos}
use cpp_matching_engine.Types.{
  OrderId, OwnerId, Quantity, Side, buy, sell, OrderType, is_fok, ExecResult,
}
use cpp_matching_engine.Pool.{null_handle}
use cpp_matching_engine.OrderBook.State.{OrderBook}
use cpp_matching_engine.OrderBook.State as BookState
use cpp_matching_engine.OrderBook
use cpp_matching_engine.RefBook.State.{RefBook, queue_at, side_levels}
use cpp_matching_engine.RefBook.State as RefState
use cpp_matching_engine.RefBook
use cpp_matching_engine.Refine.Orders.{orders}
use cpp_matching_engine.Refine.Same.{Same, init-Same}
use cpp_matching_engine.Refine.Settle.{SameCall}
use cpp_matching_engine.Refine.CanFill.{can_fill-same}
use cpp_matching_engine.Refine.Calls.{submit-Same_room, cancel-Same}
use cpp_matching_engine.Refine.Modify.{modify-Same}

-- On books in the same state, `submit` of an order of any type, with a new id, a price that is a tick
-- of the book and a quantity that is not zero and fits its type, while a slot of the pool is free and
-- the book has at most 2^63 ticks, gives the same result in both and leaves them in the same state.
pub submit-Same :
    (b : OrderBook) (r : RefBook) (ticks slots : ℕ) (id : OrderId) (side : Side) (type : OrderType)
    (tick : ℕ) (qty : Quantity) (owner : OwnerId)
    → Same b r ticks slots
    → ticks ≤ 2 ^ 63
    → tick < ticks
    → 0 < qty
    → qty < u64_mod
    → find id b.id_index ≡ none
    → b.pool.in_use < slots
    → SameCall
        (OrderBook.submit b id side type (pos tick) qty owner)
        (RefBook.submit r id side type (pos tick) qty owner)
        ticks
        slots
submit-Same b r ticks slots id side type tick qty owner s big lt some_qty small fresh room =
    submit-Same_room b r ticks slots s id side type tick qty owner
      (omega (arith, room, s.matches.rep.free.count, s.slots_kept)) big lt small
      (s.matches.index.absent id fresh)
      (ap (λ x. is_fok type && not x)
        (can_fill-same b r s.store s.free s.matches (pos tick) qty owner side some_qty))

pub data Call : Type 0 where
  submit : OrderId → Side → OrderType → ℕ → Quantity → OwnerId → Call
  cancel : OrderId → Call
  modify : OrderId → ℕ → Quantity → Call
  set_trade_sink : Call

pub data Answer : Type 0 where
  result : ExecResult → Answer
  found : Bool → Answer
  nothing : Answer

abbrev pub answered {ℓ κ} : {B : Type ℓ} {R : Type κ} → (R → Answer) → B × R → B × Answer
answered f x = (x.0, f x.1)

unfoldable pub book_call : OrderBook → Call → OrderBook × Answer
unfolding OrderBook.submit OrderBook.cancel OrderBook.modify BookState.set_trade_sink
book_call b (submit id side type tick qty owner) =
    answered result (OrderBook.submit b id side type (pos tick) qty owner)
book_call b (cancel id) = answered found (OrderBook.cancel b id)
book_call b (modify id tick qty) = answered result (OrderBook.modify b id (pos tick) qty)
book_call b set_trade_sink = (BookState.set_trade_sink b, nothing)

unfoldable pub ref_call : RefBook → Call → RefBook × Answer
unfolding RefBook.submit RefBook.cancel RefBook.modify RefState.set_trade_sink
ref_call r (submit id side type tick qty owner) =
    answered result (RefBook.submit r id side type (pos tick) qty owner)
ref_call r (cancel id) = answered found (RefBook.cancel r id)
ref_call r (modify id tick qty) = answered result (RefBook.modify r id (pos tick) qty)
ref_call r set_trade_sink = (RefState.set_trade_sink r, nothing)

unfoldable pub run_book : OrderBook → List Call → OrderBook × List Answer
unfolding book_call
run_book b [] = (b, [])
run_book b (c ∷ cs) =
    let (b1, a) = book_call b c in let (b2, rest) = run_book b1 cs in (b2, a ∷ rest)

unfoldable pub run_ref : RefBook → List Call → RefBook × List Answer
unfolding ref_call
run_ref r [] = (r, [])
run_ref r (c ∷ cs) = let (r1, a) = ref_call r c in let (r2, rest) = run_ref r1 cs in (r2, a ∷ rest)

-- The calls that a book of that many ticks and slots takes: ticks in range, quantities that fit their
-- type, and for a new order a quantity that is not zero, a new id and a free slot.
abbrev pub Allowed : ℕ → ℕ → OrderBook → Call → Type 0
Allowed ticks slots b (submit id side type tick qty owner) =
    (tick < ticks)
    × (0 < qty)
    × (qty < u64_mod)
    × (find id b.id_index ≡ none)
    × (b.pool.in_use < slots)
Allowed ticks slots b (cancel id) = Unit {0}
Allowed ticks slots b (modify id tick qty) = (tick < ticks) × (qty < u64_mod)
Allowed ticks slots b set_trade_sink = Unit {0}

unfoldable pub AllAllowed : ℕ → ℕ → OrderBook → List Call → Type 0
AllAllowed ticks slots b [] = Unit {0}
AllAllowed ticks slots b (c ∷ cs) =
    Allowed ticks slots b c × AllAllowed ticks slots (book_call b c).0 cs

module _ (ticks slots : ℕ) (big : ticks ≤ 2 ^ 63) where
  book_call-Same :
      (b : OrderBook) (r : RefBook) (c : Call)
      → Same b r ticks slots
      → Allowed ticks slots b c
      → SameCall (book_call b c) (ref_call r c) ticks slots
  unfolding book_call ref_call RefState.set_trade_sink BookState.set_trade_sink
  book_call-Same b r (submit id side type tick qty owner) s a =
      let (t, e) =
        submit-Same b r ticks slots id side type tick qty owner s big a.0 a.1 a.2 a.3 a.4 in
      (t, ap result e)
  book_call-Same b r (cancel id) s a =
      let (t, e) = cancel-Same b r ticks slots id s in (t, ap found e)
  book_call-Same b r (modify id tick qty) s a =
      let (t, e) = modify-Same b r ticks slots id tick qty s big a.0 a.1 in (t, ap result e)
  book_call-Same b r set_trade_sink s a = (
    record {
      store = s.store;
      free = s.free;
      matches = record {
        rep = s.matches.rep;
        valid = record {
          bids = s.matches.valid.bids;
          asks = s.matches.valid.asks;
          apart = s.matches.valid.apart;
        };
        queues = watched;
        bid = s.matches.bid;
        ask = s.matches.ask;
        index = s.matches.index;
        seq = s.matches.seq;
        sink = refl;
        trades = s.matches.trades;
      };
      ticks_kept = s.ticks_kept;
      slots_kept = s.slots_kept;
    },
    refl,
  )
    where
      watched :
          (sd : Side) (t : ℕ)
          → queue_at (side_levels (RefState.set_trade_sink r) sd) (pos t) ≡ orders sd (s.store t)
      watched buy t = s.matches.queues buy t
      watched sell t = s.matches.queues sell t

  pub run_book-Same :
      (cs : List Call) (b : OrderBook) (r : RefBook)
      → Same b r ticks slots
      → AllAllowed ticks slots b cs
      → SameCall (run_book b cs) (run_ref r cs) ticks slots
  unfolding run_book run_ref AllAllowed
  run_book-Same [] b r s a = (s, refl)
  run_book-Same (c ∷ cs) b r s a =
      let (t, e) = book_call-Same b r c s a.0 in
      let (u, f) = run_book-Same cs (book_call b c).0 (ref_call r c).0 t a.1 in
      (u, ap (λ x. x ∷ (run_book (book_call b c).0 cs).1) e ∙ ap (λ l. (ref_call r c).1 ∷ l) f)

  -- For any sequence of calls that a fresh book of at most 2^63 ticks and 2^32 - 1 slots takes, the
  -- detailed book gives the same answers, call by call, as the reference book, and has handed the same trades, in the
  -- same order and with the same sequence numbers, to the trade sink.
  pub run_book-run_ref :
      (cs : List Call)
      → slots ≤ null_handle
      → AllAllowed ticks slots (BookState.init ticks slots) cs
      → ((run_book (BookState.init ticks slots) cs).1 ≡ (run_ref RefState.init cs).1)
        × ((run_book (BookState.init ticks slots) cs).0.trades
            ≡ (run_ref RefState.init cs).0.trades)
  run_book-run_ref cs h a =
      let (s, e) =
        run_book-Same cs (BookState.init ticks slots) RefState.init (init-Same ticks slots h) a in
      (e, s.matches.trades)
