-- ===== src/Refine/Reprice.antt =====
-- The best prices after a level may have emptied.
use cpp_matching_engine.Base.{
  ℕ, zero, suc, ◌-◌, ◌<◌, ◌≤◌, ◌≡◌, ◌≢◌, refl, sym, ap, ◌∙◌, subst, ◌⊎◌, inl, inr, Bool, true,
  false, List, [], ◌∷◌, Bool-cases, arith, All, get_or, length, eq-cases, ne→==, ◌&&◌,
  if◌then◌else◌,
}
use cpp_matching_engine.Base.Int.{ℤ, pos, eqb_ℤ, eqb_ℤ→eq, eqb_ℤ_refl, pos_part}
use cpp_matching_engine.Types.{Price, Side, buy, sell, opposite, same_side}
use cpp_matching_engine.Pool.{Handle, null_handle}
use cpp_matching_engine.OrderBook.State.{PriceLevel, blank_level, is_empty, OrderBook, level_at}
use cpp_matching_engine.OrderBook.Levels.{reprice_best_bid, reprice_best_ask, reprice}
use cpp_matching_engine.OrderBook.Cells.{Cell, handles}
use cpp_matching_engine.OrderBook.Layout.{Rep, Store, level_for, Seg-lt}
use cpp_matching_engine.OrderBook.Place.{below-null}
use cpp_matching_engine.Refine.Orders.{orders, filled}
use cpp_matching_engine.Refine.Tops.{Top, Earlier, scan_down-Top, scan_up-Top, true-false}
use cpp_matching_engine.Refine.Relation.{has}

has-nil : (q : Store) (sd : Side) (t : ℕ) → q t ≡ [] → has q sd t ≡ false
unfolding orders
has-nil q sd t e = ap (λ cs. filled (orders sd cs)) e

-- Cells without an order of one side have one of the other.
has-either :
    (sd : Side) (c : Cell) (cs : List Cell)
    → filled (orders (opposite sd) (c ∷ cs)) ≡ false
    → filled (orders sd (c ∷ cs)) ≡ true
unfolding orders
has-either buy (h, e) cs f = either e.side f
  where
    either :
        (s : Side)
        → filled (if same_side s sell then e ∷ orders sell cs else orders sell cs) ≡ false
        → filled (if same_side s buy then e ∷ orders buy cs else orders buy cs) ≡ true
    either buy f = refl
    either sell f = absurd (cc)
has-either sell (h, e) cs f = either e.side f
  where
    either :
        (s : Side)
        → filled (if same_side s buy then e ∷ orders buy cs else orders buy cs) ≡ false
        → filled (if same_side s sell then e ∷ orders sell cs else orders sell cs) ≡ true
    either buy f = absurd (cc)
    either sell f = refl

pub get_or-past :
    (ls : List PriceLevel) (t : ℕ) → length ls ≤ t → get_or ls t blank_level ≡ blank_level
get_or-past [] t h = refl
get_or-past (l ∷ ls) zero h = absurd (omega (arith, h))
get_or-past (l ∷ ls) (suc t) h = get_or-past ls t (omega (arith, h))

and-right : (x y : Bool) → (x && y) ≡ true → y ≡ true
and-right x y e = ground (arith, e)

and-left : (x : Bool) (a c : ℤ) → (x && eqb_ℤ a c) ≡ false → c ≡ a → x ≡ false
and-left x a c f e = elim (Bool-cases x) [
  | inl t ↦
      true-false (x && eqb_ℤ a c)
        (subst (λ y. (x && eqb_ℤ a y) ≡ true) (sym e) (rw t (eqb_ℤ_refl a))) f
  | inr t ↦ t
]

-- No tick has priority over the best one.
pub Top-before :
    (sd : Side) (F : ℕ → Bool) (p t : ℕ) → Top sd F (pos p) → Earlier sd t p → F t ≡ false
Top-before sd F p t (inl (e, nowhere)) h = nowhere t
Top-before sd F p t (inr (t0, e, there, first)) h = first t (subst (Earlier sd t) (ap pos_part e) h)

module _ (b : OrderBook) (q : Store) (fs : List Handle) (rep : Rep b.levels b.pool q fs) where
  pub level-cases :
      (t : ℕ)
      → ((q t ≡ []) × (is_empty (get_or b.levels t blank_level) ≡ true))
        ⊎ ((c : Cell) × (cs : List Cell) × (q t ≡ c ∷ cs)
            × (is_empty (get_or b.levels t blank_level) ≡ false))
  level-cases t = go (q t) refl (
      below-null (length b.pool.nodes) (handles (q t)) rep.free.small
        (Seg-lt b.pool.nodes null_handle null_handle (q t) (rep.seg t)))
    where
      go :
          (cs : List Cell)
          → q t ≡ cs
          → All (λ k. k < null_handle) (handles (q t))
          → ((q t ≡ []) × (is_empty (get_or b.levels t blank_level) ≡ true))
            ⊎ ((c : Cell) × (ds : List Cell) × (q t ≡ c ∷ ds)
                × (is_empty (get_or b.levels t blank_level) ≡ false))
      go [] e a = inl (e, ap is_empty (rep.level t) ∙ ap (λ cs. is_empty (level_for cs)) e)
      go ((h, o) ∷ cs) e a = inr (
        (h, o),
        cs,
        e,
        ap is_empty (rep.level t)
            ∙ ap (λ ds. is_empty (level_for ds)) e
            ∙ ne→== h null_handle
                (omega (arith, (subst (λ ds. All (λ k. k < null_handle) (handles ds)) e a).0)),
      )

  pub empty-has :
      (sd : Side) (t : ℕ) → is_empty (get_or b.levels t blank_level) ≡ true → has q sd t ≡ false
  empty-has sd t e = elim (level-cases t) [
    | inl (n, f) ↦ has-nil q sd t n
    | inr (c, cs, n, f) ↦ true-false (is_empty (get_or b.levels t blank_level)) e f
  ]

  pub full-has :
      (sd : Side) (t : ℕ)
      → is_empty (get_or b.levels t blank_level) ≡ false
      → has q (opposite sd) t ≡ false
      → has q sd t ≡ true
  full-has sd t e none_there = elim (level-cases t) [
    | inl (n, f) ↦ true-false (is_empty (get_or b.levels t blank_level)) f e
    | inr (c, cs, n, f) ↦
        ap (λ ds. filled (orders sd ds)) n
        ∙ has-either sd c cs (sym (ap (λ ds. filled (orders (opposite sd) ds)) n) ∙ none_there)
  ]

  -- A tick with orders, of which none has the other side.
  one-sided :
      (sd : Side) (t : ℕ)
      → is_empty (get_or b.levels t blank_level) ≡ false
      → (has q (opposite sd) t ≡ true → t < t)
      → has q sd t ≡ true
  one-sided sd t e never = full-has sd t e (elim (Bool-cases (has q (opposite sd) t)) [
    | inl s ↦ absurd (omega (arith, never s))
    | inr s ↦ s
  ])

  -- The best price stands if it is elsewhere, or if its tick still has an order.
  Top-stands :
      (sd : Side) (F : ℕ → Bool) (p : ℕ) (x : Price)
      → Top sd F x
      → F p ≡ true
      → ((t : ℕ) → t ≢ p → has q sd t ≡ F t)
      → (x ≡ pos p → has q sd p ≡ true)
      → Top sd (has q sd) x
  Top-stands sd F p x (inl (e, nowhere)) at other still = true-false (F p) at (nowhere p)
  Top-stands sd F p x (inr (t0, ex, there, first)) at other still = inr (
    t0,
    ex,
    elim (eq-cases t0 p) [
      | inl same ↦ subst (λ t. has q sd t ≡ true) (sym same) (still (ex ∙ ap pos same))
      | inr ne ↦ other t0 ne ∙ there
    ],
    λ u h. other u (λ same. true-false (F p) at (ap F (sym same) ∙ first u h)) ∙ first u h,
  )

  -- `F` is where the bids were, before an order at tick `p` went.
  pub reprice-bid :
      (F : ℕ → Bool) (p : ℕ)
      → Top buy F b.best_bid
      → F p ≡ true
      → ((t : ℕ) → t ≢ p → has q buy t ≡ F t)
      → ((t u : ℕ) → F t ≡ true → has q sell u ≡ true → t < u)
      → Top buy (has q buy) (reprice b buy (pos p)).best_bid
  unfolding reprice reprice_best_bid
  reprice-bid F p top at other apart =
      elim (Bool-cases (is_empty (level_at b (pos p)) && eqb_ℤ (pos p) b.best_bid)) [
        | inl c ↦
            let ex : b.best_bid ≡ pos p = sym (eqb_ℤ→eq (pos p) b.best_bid (and-right _ _ c)) in
            rw c (
              rw ex (
                scan_down-Top b.levels (has q buy) p (λ t h. empty-has buy t)
                  (λ t h e. one-sided buy t e (λ s. omega (arith, h, apart p t at s)))
                  (λ t h.
                    other t (omega (arith, h))
                    ∙ Top-before buy F p t (subst (Top buy F) ex top) h)))
        | inr c ↦ rw c (
            Top-stands buy F p b.best_bid top at other
              (λ ex. one-sided buy p (and-left _ (pos p) b.best_bid c ex) (apart p p at)))
      ]

  -- `F` is where the asks were, before an order at tick `p` went.
  pub reprice-ask :
      (F : ℕ → Bool) (p : ℕ)
      → Top sell F b.best_ask
      → F p ≡ true
      → ((t : ℕ) → t ≢ p → has q sell t ≡ F t)
      → ((t u : ℕ) → F t ≡ true → has q buy u ≡ true → u < t)
      → Top sell (has q sell) (reprice b sell (pos p)).best_ask
  unfolding reprice reprice_best_ask
  reprice-ask F p top at other apart =
      elim (Bool-cases (is_empty (level_at b (pos p)) && eqb_ℤ (pos p) b.best_ask)) [
        | inl c ↦
            let ex : b.best_ask ≡ pos p = sym (eqb_ℤ→eq (pos p) b.best_ask (and-right _ _ c)) in
            rw c (
              rw ex (
                scan_up-Top b.levels (has q sell) (length b.levels - p) p (λ t h. empty-has sell t)
                  (λ t h e. one-sided sell t e (λ s. omega (arith, h, apart p t at s)))
                  (λ t h.
                    other t (omega (arith, h))
                    ∙ Top-before sell F p t (subst (Top sell F) ex top) h)
                  (λ t h.
                    empty-has sell t (ap is_empty (get_or-past b.levels t (omega (arith, h)))))))
        | inr c ↦ rw c (
            Top-stands sell F p b.best_ask top at other
              (λ ex. one-sided sell p (and-left _ (pos p) b.best_ask c ex) (apart p p at)))
      ]
