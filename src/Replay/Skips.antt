-- ===== src/Replay/Skips.antt =====
-- What `replay_file` makes of a sequence of events.
use cpp_matching_engine.Base.{
  ap, ◌∙◌, ◌⊎◌, true, false, ℕ, suc, ◌+◌, ◌≡◌, refl, inl, inr, List, [], ◌∷◌, arith, length,
  Bool-cases, if◌then◌else◌, ltb, Option, none, some,
}
use cpp_matching_engine.Base.Int.{pos, negsuc}
use cpp_matching_engine.Types.{Price, limit}
use cpp_matching_engine.Parsers.{MarketEvent, EventAction}
use cpp_matching_engine.OrderBook.State.{OrderBook, init, set_trade_sink}
use cpp_matching_engine.Refine.Runs.{Call, book_call, run_book}
use cpp_matching_engine.Replay.{FileReplay, out_of_range, apply_event, replay_from, replay_file}

-- The call on the book that an event at a tick asks for. An executed order is taken out whole.
abbrev pub call_at : MarketEvent → ℕ → Call
call_at e tick = elim e.action [
  | EventAction.add ↦ Call.submit e.order_id e.side limit tick e.quantity 0
  | EventAction.cancel ↦ Call.cancel e.order_id
  | EventAction.modify ↦ Call.modify e.order_id tick e.quantity
  | EventAction.execute ↦ Call.cancel e.order_id
]

-- The tick of a price, if a book of that many ticks has it.
abbrev pub tick_in : ℕ → Price → Option ℕ
tick_in ticks (pos n) = if ltb n ticks then some n else none
tick_in ticks (negsuc n) = none

abbrev prepend : Option ℕ → MarketEvent → List Call → List Call
prepend none e cs = cs
prepend (some t) e cs = call_at e t ∷ cs

-- The calls of the events whose price is a tick of the book, in their order.
unfoldable pub calls_of : ℕ → List MarketEvent → List Call
calls_of ticks [] = []
calls_of ticks (e ∷ es) = prepend (tick_in ticks e.price) e (calls_of ticks es)

apply_event-call :
    (b : OrderBook) (e : MarketEvent) (n : ℕ)
    → e.price ≡ pos n
    → apply_event b e ≡ (book_call b (call_at e n)).0
unfolding apply_event book_call
apply_event-call b e n h = go e.action refl
  where
    go : (a : EventAction) → e.action ≡ a → apply_event b e ≡ (book_call b (call_at e n)).0
    go EventAction.add k = rw (k, h) refl
    go EventAction.cancel k = rw k refl
    go EventAction.modify k = rw (k, h) refl
    go EventAction.execute k = rw k refl

-- An event is skipped exactly if its price is no tick.
skip-cases :
    (ticks : ℕ) (e : MarketEvent)
    → ((tick_in ticks e.price ≡ none) × (out_of_range ticks e ≡ true))
      ⊎ ((n : ℕ) × (e.price ≡ pos n)
          × (tick_in ticks e.price ≡ some n)
          × (out_of_range ticks e ≡ false))
skip-cases ticks e = go e.price refl
  where
    go :
        (p : Price)
        → e.price ≡ p
        → ((tick_in ticks e.price ≡ none) × (out_of_range ticks e ≡ true))
          ⊎ ((n : ℕ) × (e.price ≡ pos n)
              × (tick_in ticks e.price ≡ some n)
              × (out_of_range ticks e ≡ false))
    go (pos n) h = elim (Bool-cases (ltb n ticks)) [
      | inl c ↦ inr (n, h, rw (h, c) refl, rw h (ground (arith, c)))
      | inr c ↦ inl (rw (h, c) refl, rw h (ground (arith, c)))
    ]
    go (negsuc n) h = inl (rw h refl, rw h (ground arith))

replay_from_lem :
    (ticks : ℕ) (r : FileReplay) (es : List MarketEvent)
    → ((replay_from ticks r es).book ≡ (run_book r.book (calls_of ticks es)).0)
      × ((replay_from ticks r es).skipped + length (calls_of ticks es) ≡ r.skipped + length es)
unfolding replay_from calls_of run_book
replay_from_lem ticks r [] = (refl, refl)
replay_from_lem ticks r (e ∷ es) = elim (skip-cases ticks e) [
  | inl (none_here, out) ↦
      let (book, count) = replay_from_lem ticks (record r { skipped = suc r.skipped }) es in
      rw (out, none_here, replay_from) (book, omega (arith, count))
  | inr (n, price, tick, ok) ↦
      let (book, count) = replay_from_lem ticks (record r { book = apply_event r.book e }) es in
      rw (ok, tick, replay_from)
        (
          book ∙ ap (λ b. (run_book b (calls_of ticks es)).0) (apply_event-call r.book e n price),
          omega (arith, count),
        )
]

-- The replay of a sequence of events leaves the book that the calls leave which the events in range ask
-- for: a `submit` of a limit order, a `cancel` or a `modify`, and a `cancel` for an execution, in their
-- order on a fresh book with a trade sink. It has skipped the events that ask for no call, those whose
-- price is not a tick from 0 to the number of ticks less one.
pub replay_file_lem :
    (ticks pool : ℕ) (es : List MarketEvent)
    → ((replay_file ticks pool es).book
        ≡ (run_book (init ticks pool) (Call.set_trade_sink ∷ calls_of ticks es)).0)
      × ((replay_file ticks pool es).skipped + length (calls_of ticks es) ≡ length es)
unfolding replay_file run_book book_call
replay_file_lem ticks pool es =
    let (book, count) =
      replay_from_lem ticks (record { book = set_trade_sink (init ticks pool); skipped = 0 }) es in
    (book, omega (arith, count))
