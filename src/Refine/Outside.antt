-- ===== src/Refine/Outside.antt =====
-- What taking an order out of its level leaves alone: everything but the levels and the pool.
use cpp_matching_engine.Base.{
  length, set, length-set, ◌≡◌, refl, ◌∙◌, Bool-cases, inl, inr, ◌==◌, ◌&&◌,
}
use cpp_matching_engine.Base.Int.{eqb_ℤ}
use cpp_matching_engine.Pool
use cpp_matching_engine.Types.{Price, Side, buy, sell}
use cpp_matching_engine.Pool.{put, deallocate, Handle, null_handle}
use cpp_matching_engine.OrderBook.State.{Order, OrderBook, is_empty, level_at, order_at}
use cpp_matching_engine.OrderBook.Levels.{
  skip_forward, skip_backward, splice, take_out, reprice, append_order, place, improve,
}
use cpp_matching_engine.Pool.{Pool}

-- The index, the sequence number, the trades and the sizes of the arrays are the same.
pub record SameLog (b b' : OrderBook) : Type 0 where
  pub index : b'.id_index ≡ b.id_index
  pub seq : b'.seq ≡ b.seq
  pub sink : b'.has_sink ≡ b.has_sink
  pub trades : b'.trades ≡ b.trades
  pub ticks : length b'.levels ≡ length b.levels
  pub slots : length b'.pool.nodes ≡ length b.pool.nodes

-- And so are the best prices.
pub record Outside (b b' : OrderBook) : Type 0 where
  pub log : SameLog b b'
  pub bid : b'.best_bid ≡ b.best_bid
  pub ask : b'.best_ask ≡ b.best_ask

abbrev pub SameLog_refl : (b : OrderBook) → SameLog b b
SameLog_refl b = record {
  index = refl;
  seq = refl;
  sink = refl;
  trades = refl;
  ticks = refl;
  slots = refl;
}

pub SameLog-trans : {b b' b'' : OrderBook} → SameLog b b' → SameLog b' b'' → SameLog b b''
SameLog-trans a c = record {
  index = c.index ∙ a.index;
  seq = c.seq ∙ a.seq;
  sink = c.sink ∙ a.sink;
  trades = c.trades ∙ a.trades;
  ticks = c.ticks ∙ a.ticks;
  slots = c.slots ∙ a.slots;
}

Outside-of :
    {b b' : OrderBook}
    → b'.id_index ≡ b.id_index
    → b'.seq ≡ b.seq
    → b'.has_sink ≡ b.has_sink
    → b'.trades ≡ b.trades
    → b'.best_bid ≡ b.best_bid
    → b'.best_ask ≡ b.best_ask
    → length b'.levels ≡ length b.levels
    → length b'.pool.nodes ≡ length b.pool.nodes
    → Outside b b'
Outside-of i q k t x y n m = record {
  log = record { index = i; seq = q; sink = k; trades = t; ticks = n; slots = m };
  bid = x;
  ask = y;
}

pub Outside-trans : {b b' b'' : OrderBook} → Outside b b' → Outside b' b'' → Outside b b''
Outside-trans a c = record {
  log = SameLog-trans a.log c.log;
  bid = c.bid ∙ a.bid;
  ask = c.ask ∙ a.ask;
}

skip_forward-Outside : (b : OrderBook) (o : Order) → Outside b (skip_forward b o)
unfolding skip_forward put
skip_forward-Outside b o = elim (Bool-cases (o.prev == null_handle)) [
  | inl e ↦ rw e (Outside-of refl refl refl refl refl refl (length-set b.levels _ _) refl)
  | inr e ↦ rw e (Outside-of refl refl refl refl refl refl refl (length-set b.pool.nodes _ _))
]

skip_backward-Outside : (b : OrderBook) (o : Order) → Outside b (skip_backward b o)
unfolding skip_backward put
skip_backward-Outside b o = elim (Bool-cases (o.next == null_handle)) [
  | inl e ↦ rw e (Outside-of refl refl refl refl refl refl (length-set b.levels _ _) refl)
  | inr e ↦ rw e (Outside-of refl refl refl refl refl refl refl (length-set b.pool.nodes _ _))
]

pub take_out-Outside : (b : OrderBook) (h : Handle) → Outside b (take_out b h)
unfolding take_out splice deallocate
take_out-Outside b h =
    let o = order_at b h in
    let both =
      Outside-trans (skip_forward-Outside b o) (skip_backward-Outside (skip_forward b o) o) in
    Outside-of both.log.index both.log.seq both.log.sink both.log.trades both.bid both.ask
      (length-set _ _ _ ∙ both.log.ticks) (length-set _ _ _ ∙ both.log.slots)

append_order-Outside : (b : OrderBook) (h : Handle) (p : Price) → Outside b (append_order b h p)
unfolding append_order put
append_order-Outside b h p = elim (Bool-cases (is_empty (level_at b p))) [
  | inl e ↦ rw e (
      Outside-of refl refl refl refl refl refl
        (length-set (set b.levels _ _) _ _ ∙ length-set b.levels _ _) refl)
  | inr e ↦ rw e (
      Outside-of refl refl refl refl refl refl (length-set b.levels _ _)
        (length-set (set b.pool.nodes _ _) _ _ ∙ length-set b.pool.nodes _ _))
]

pub place-Outside :
    (b : OrderBook) (pool : Pool Order) (h : Handle) (o : Order)
    → length pool.nodes ≡ length b.pool.nodes
    → Outside b (place b pool h o)
unfolding place put
place-Outside b pool h o same =
    let a = append_order-Outside (record b { pool = Pool.put pool h o }) h o.price in
    Outside-of a.log.index a.log.seq a.log.sink a.log.trades a.bid a.ask
      (length-set _ _ _ ∙ a.log.ticks) (a.log.slots ∙ length-set pool.nodes h _ ∙ same)

pub reprice-SameLog : (b : OrderBook) (s : Side) (p : Price) → SameLog b (reprice b s p)
unfolding reprice
reprice-SameLog b buy p = elim (Bool-cases (is_empty (level_at b p) && eqb_ℤ p b.best_bid)) [
  | inl e ↦
      rw e (record {
        index = refl;
        seq = refl;
        sink = refl;
        trades = refl;
        ticks = refl;
        slots = refl;
      })
  | inr e ↦ rw e (SameLog_refl b)
]
reprice-SameLog b sell p = elim (Bool-cases (is_empty (level_at b p) && eqb_ℤ p b.best_ask)) [
  | inl e ↦
      rw e (record {
        index = refl;
        seq = refl;
        sink = refl;
        trades = refl;
        ticks = refl;
        slots = refl;
      })
  | inr e ↦ rw e (SameLog_refl b)
]

-- It moves the best price of its own side only.
pub reprice-ask : (b : OrderBook) (p : Price) → (reprice b buy p).best_ask ≡ b.best_ask
unfolding reprice
reprice-ask b p = elim (Bool-cases (is_empty (level_at b p) && eqb_ℤ p b.best_bid)) [
  | inl e ↦ rw e refl
  | inr e ↦ rw e refl
]

pub reprice-bid : (b : OrderBook) (p : Price) → (reprice b sell p).best_bid ≡ b.best_bid
unfolding reprice
reprice-bid b p = elim (Bool-cases (is_empty (level_at b p) && eqb_ℤ p b.best_ask)) [
  | inl e ↦ rw e refl
  | inr e ↦ rw e refl
]

pub improve-SameLog : (b : OrderBook) (s : Side) (p : Price) → SameLog b (improve b s p)
improve-SameLog b buy p = record {
  index = refl;
  seq = refl;
  sink = refl;
  trades = refl;
  ticks = refl;
  slots = refl;
}
improve-SameLog b sell p = record {
  index = refl;
  seq = refl;
  sink = refl;
  trades = refl;
  ticks = refl;
  slots = refl;
}

pub improve-keeps :
    (b : OrderBook) (s : Side) (p : Price)
    → ((improve b s p).levels ≡ b.levels) × ((improve b s p).pool ≡ b.pool)
improve-keeps b buy p = (refl, refl)
improve-keeps b sell p = (refl, refl)
