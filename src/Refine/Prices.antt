-- ===== src/Refine/Prices.antt =====
-- Matching books have the same best prices, and what one more tick does to the best price.
use cpp_matching_engine.Base.{
  ℕ, ◌≡◌, ◌≢◌, refl, ap, ◌∙◌, subst, inl, inr, Bool, true, false, List, Bool-cases, arith, eq-cases,
  ◌||◌, if◌then◌else◌,
}
use cpp_matching_engine.Base.Int.{pos, ltb_ℤ}
use cpp_matching_engine.Types.{Price, Side, buy, sell}
use cpp_matching_engine.Pool.{Handle}
use cpp_matching_engine.OrderBook.State.{OrderBook}
use cpp_matching_engine.OrderBook.Layout.{Store}
use cpp_matching_engine.OrderBook
use cpp_matching_engine.RefBook
use cpp_matching_engine.RefBook.State.{RefBook, before, first_price, best_bid, best_ask}
use cpp_matching_engine.Refine.Orders.{filled}
use cpp_matching_engine.Refine.Tops.{Top, Top-cong, Top-unique, first_price-Top, has_queue, Earlier}
use cpp_matching_engine.Refine.Relation.{Matches, has}

-- Matching books have the same best prices.
pub best_bid-same :
    (b : OrderBook) (r : RefBook) (q : Store) (fs : List Handle)
    → Matches b r q fs
    → b.best_bid ≡ first_price r.bids
best_bid-same b r q fs m = Top-unique buy (has q buy) b.best_bid (first_price r.bids) m.bid (
    Top-cong buy (has_queue r.bids) (has q buy) (first_price r.bids)
      (λ t. ap filled (m.queues buy t)) (first_price-Top buy r.bids m.valid.bids))

pub best_ask-same :
    (b : OrderBook) (r : RefBook) (q : Store) (fs : List Handle)
    → Matches b r q fs
    → b.best_ask ≡ first_price r.asks
best_ask-same b r q fs m = Top-unique sell (has q sell) b.best_ask (first_price r.asks) m.ask (
    Top-cong sell (has_queue r.asks) (has q sell) (first_price r.asks)
      (λ t. ap filled (m.queues sell t)) (first_price-Top sell r.asks m.valid.asks))

pub would_cross-same :
    (b : OrderBook) (r : RefBook) (q : Store) (fs : List Handle) (s : Side) (p : Price)
    → Matches b r q fs
    → OrderBook.would_cross b s p ≡ RefBook.would_cross r s p
unfolding OrderBook.would_cross RefBook.would_cross best_bid best_ask
would_cross-same b r q fs buy p m = rw (best_ask-same b r q fs m) refl
would_cross-same b r q fs sell p m = rw (best_bid-same b r q fs m) refl

before-Earlier : (sd : Side) (p t : ℕ) → before sd (pos p) (pos t) ≡ true → Earlier sd p t
before-Earlier buy p t e = ground (arith, e)
before-Earlier sell p t e = ground (arith, e)

not_before : (sd : Side) (p t : ℕ) → before sd (pos p) (pos t) ≡ false → Earlier sd p t → ⊥
not_before buy p t e h = ground (arith, e, h)
not_before sell p t e h = ground (arith, e, h)

Earlier-ne : (sd : Side) (u p : ℕ) → Earlier sd u p → u ≢ p
Earlier-ne buy u p h = omega (arith, h)
Earlier-ne sell u p h = omega (arith, h)

Earlier-trans : (sd : Side) (a c d : ℕ) → Earlier sd a c → Earlier sd c d → Earlier sd a d
Earlier-trans buy a c d h k = omega (arith, h, k)
Earlier-trans sell a c d h k = omega (arith, h, k)

pub not_negative : (t : ℕ) → ltb_ℤ (pos t) (pos 0) ≡ false
not_negative t = ground arith

-- The best price after one more tick.
pub improved-Top :
    (sd : Side) (F G : ℕ → Bool) (p : ℕ) (x : Price)
    → Top sd F x
    → G p ≡ true
    → ((t : ℕ) → t ≢ p → G t ≡ F t)
    → Top sd G (if ltb_ℤ x (pos 0) || before sd (pos p) x then pos p else x)
improved-Top sd F G p x (inl (ex, nowhere)) at other =
    rw ex (inr (p, refl, at, λ u h. other u (Earlier-ne sd u p h) ∙ nowhere u))
improved-Top sd F G p x (inr (t0, ex, there, first)) at other =
    rw ex (elim (Bool-cases (before sd (pos p) (pos t0))) [
      | inl e ↦
          rw (not_negative t0, e)
            (inr (
              p,
              refl,
              at,
              λ u h.
                  other u (Earlier-ne sd u p h)
                  ∙ first u (Earlier-trans sd u p t0 h (before-Earlier sd p t0 e)),
            ))
      | inr e ↦
          rw (not_negative t0, e)
            (inr (
              t0,
              refl,
              elim (eq-cases t0 p) [ inl same ↦ ap G same ∙ at | inr ne ↦ other t0 ne ∙ there ],
              λ u h.
                  other u (λ same. not_before sd p t0 e (subst (λ v. Earlier sd v t0) same h))
                  ∙ first u h,
            ))
    ])
