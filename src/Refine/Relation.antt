-- ===== src/Refine/Relation.antt =====
-- When a detailed book and a reference book stand for the same orders.
use cpp_matching_engine.Base.{
  ℕ, ◌<◌, ◌≡◌, ◌≢◌, refl, sym, ap, ◌∙◌, subst, ◌⊎◌, inl, inr, Bool, true, false, List, [], ◌∷◌,
  none, some, Bool-cases, arith, All, Distinct, eq-cases,
}
use cpp_matching_engine.Base.Dict.{find}
use cpp_matching_engine.Base.Dict.Laws.{keys}
use cpp_matching_engine.Base.Int.{pos, ◌<ℤ◌}
use cpp_matching_engine.Types.{OrderId, Price, Side, buy, sell, same_side}
use cpp_matching_engine.Pool.{Handle}
use cpp_matching_engine.OrderBook.State.{OrderBook}
use cpp_matching_engine.OrderBook.Cells.{Cell}
use cpp_matching_engine.OrderBook.Layout.{Rep, Store, upd, upd_self, upd-ne}
use cpp_matching_engine.RefBook.State.{
  RefOrder, Info, Levels, RefBook, side_levels, with_levels, queue_at, first_price,
}
use cpp_matching_engine.RefBook.Apart.{Apart}
use cpp_matching_engine.RefBook.Uncrossed.{Valid}
use cpp_matching_engine.Refine.Orders.{orders, filled}
use cpp_matching_engine.Refine.Tops.{Top, has_queue, first_price-Top, true-false, lt-cases}

-- The cell stands among those.
abbrev pub Here : Cell → List Cell → Type 0
Here c [] = ⊥
Here c (x ∷ xs) = (x ≡ c) ⊎ Here c xs

abbrev pub info_of : RefOrder → Info
info_of e = record { side = e.side; price = e.price; owner = e.owner }

-- Both indexes know exactly the orders of the store.
pub record Indexed (idx : List (OrderId × Handle)) (ref_idx : List (OrderId × Info)) (q : Store)
    : Type 0 where
  pub handle_keys : Distinct (keys idx)
  pub info_keys : Distinct (keys ref_idx)
  pub handle : (t : ℕ) → All (λ c. find c.1.id idx ≡ some c.0) (q t)
  pub info : (t : ℕ) → All (λ c. find c.1.id ref_idx ≡ some (info_of c.1)) (q t)
  pub sound :
      (id : OrderId) (h : Handle)
      → find id idx ≡ some h
      → (t : ℕ) × (e : RefOrder) × Here (h, e) (q t) × (e.id ≡ id)
  pub absent : (id : OrderId) → find id idx ≡ none → find id ref_idx ≡ none

-- Some order of that side is in the cells of the tick.
abbrev pub has : Store → Side → ℕ → Bool
has q sd t = filled (orders sd (q t))

pub record Matches (b : OrderBook) (r : RefBook) (q : Store) (fs : List Handle) : Type 0 where
  pub rep : Rep b.levels b.pool q fs
  pub valid : Valid r
  pub queues : (sd : Side) (t : ℕ) → queue_at (side_levels r sd) (pos t) ≡ orders sd (q t)
  pub bid : Top buy (has q buy) b.best_bid
  pub ask : Top sell (has q sell) b.best_ask
  pub index : Indexed b.id_index r.id_index q
  pub seq : b.seq ≡ r.seq
  pub sink : b.has_sink ≡ r.has_sink
  pub trades : b.trades ≡ r.trades

apart-first :
    (bids asks : Levels) (x y : Price)
    → Apart bids asks
    → filled (queue_at bids x) ≡ true
    → filled (queue_at asks y) ≡ true
    → first_price bids <ℤ first_price asks
unfolding queue_at
apart-first [] asks x y a f g = absurd (cc)
apart-first ((p, os) ∷ bids) [] x y a f g = absurd (cc)
apart-first ((p, os) ∷ bids) ((q, ps) ∷ asks) x y a f g = a

-- A tick with a bid is below a tick with an ask.
pub apart-ticks :
    (r : RefBook) (t u : ℕ)
    → Valid r
    → has_queue r.bids t ≡ true
    → has_queue r.asks u ≡ true
    → t < u
apart-ticks r t u v f g = elim (first_price-Top buy r.bids v.bids) [
  | inl (e, nowhere) ↦ true-false (has_queue r.bids t) f (nowhere t)
  | inr (t0, e, there, first) ↦ elim (first_price-Top sell r.asks v.asks) [
    | inl (e', nowhere) ↦ true-false (has_queue r.asks u) g (nowhere u)
    | inr (u0, e', there', first') ↦ elim (lt-cases t0 t) [
      | inl h ↦ true-false (has_queue r.bids t) f (first t h)
      | inr h ↦ elim (lt-cases u u0) [
        | inl k ↦ true-false (has_queue r.asks u) g (first' u k)
        | inr k ↦ omega (
          arith,
          h,
          k,
          subst (λ x. x <ℤ pos u0) e
              (subst (λ x. first_price r.bids <ℤ x) e'
                (apart-first r.bids r.asks (pos t) (pos u) v.apart f g)),
        )
      ]
    ]
  ]
]

pub side_levels-with_levels_self :
    (r : RefBook) (s : Side) (ls : Levels) → side_levels (with_levels r s ls) s ≡ ls
side_levels-with_levels_self r buy ls = refl
side_levels-with_levels_self r sell ls = refl

pub side_levels-with_levels_ne :
    (r : RefBook) (s sd : Side) (ls : Levels)
    → same_side s sd ≡ false
    → side_levels (with_levels r s ls) sd ≡ side_levels r sd
side_levels-with_levels_ne r buy buy ls e = absurd (cc)
side_levels-with_levels_ne r buy sell ls e = refl
side_levels-with_levels_ne r sell buy ls e = refl
side_levels-with_levels_ne r sell sell ls e = absurd (cc)

pub same_side-eq : (s sd : Side) → same_side s sd ≡ true → s ≡ sd
same_side-eq buy buy e = refl
same_side-eq buy sell e = absurd (cc)
same_side-eq sell buy e = absurd (cc)
same_side-eq sell sell e = refl

-- The queues of the two books after a change of one side's map at one tick.
pub queues-step :
    (r : RefBook) (q : Store) (s : Side) (ls : Levels) (p : ℕ) (cs : List Cell)
    → ((sd : Side) (t : ℕ) → queue_at (side_levels r sd) (pos t) ≡ orders sd (q t))
    → queue_at ls (pos p) ≡ orders s cs
    → ((t : ℕ) → p ≢ t → queue_at ls (pos t) ≡ queue_at (side_levels r s) (pos t))
    → ((sd : Side) → same_side s sd ≡ false → orders sd (q p) ≡ orders sd cs)
    → (sd : Side) (t : ℕ)
    → queue_at (side_levels (with_levels r s ls) sd) (pos t) ≡ orders sd (upd q p cs t)
queues-step r q s ls p cs old here else_where other sd t = elim (Bool-cases (same_side s sd)) [
  | inl same ↦
      subst (λ d. queue_at (side_levels (with_levels r s ls) d) (pos t) ≡ orders d (upd q p cs t))
        (same_side-eq s sd same)
        (ap (λ l. queue_at l (pos t)) (side_levels-with_levels_self r s ls) ∙ elim (eq-cases t p) [
          | inl e ↦
              subst (λ u. queue_at ls (pos u) ≡ orders s (upd q p cs u)) (sym e)
                (here ∙ ap (orders s) (sym (upd_self q p cs)))
          | inr ne ↦
              else_where t (λ e. ne (sym e)) ∙ old s t ∙ ap (orders s) (sym (upd-ne q p cs t ne))
        ])
  | inr differ ↦
      ap (λ l. queue_at l (pos t)) (side_levels-with_levels_ne r s sd ls differ)
      ∙ old sd t
      ∙ elim (eq-cases t p) [
        | inl e ↦
            subst (λ u. orders sd (q u) ≡ orders sd (upd q p cs u)) (sym e)
              (other sd differ ∙ ap (orders sd) (sym (upd_self q p cs)))
        | inr ne ↦ ap (orders sd) (sym (upd-ne q p cs t ne))
      ]
]

-- A change at one tick that leaves a side's presence there as it was leaves it everywhere.
pub has-step :
    (q : Store) (sd : Side) (p : ℕ) (cs : List Cell)
    → filled (orders sd (q p)) ≡ filled (orders sd cs)
    → (t : ℕ) → has q sd t ≡ has (upd q p cs) sd t
has-step q sd p cs same t = elim (eq-cases t p) [
  | inl e ↦
      subst (λ u. has q sd u ≡ has (upd q p cs) sd u) (sym e)
        (same ∙ ap (λ x. filled (orders sd x)) (sym (upd_self q p cs)))
  | inr ne ↦ ap (λ x. filled (orders sd x)) (sym (upd-ne q p cs t ne))
]

-- In matching books, a tick with a bid is below a tick with an ask.
pub Matches-apart :
    (b : OrderBook) (r : RefBook) (q : Store) (fs : List Handle) (t u : ℕ)
    → Matches b r q fs
    → has q buy t ≡ true
    → has q sell u ≡ true
    → t < u
Matches-apart b r q fs t u m f g =
    apart-ticks r t u m.valid (ap filled (m.queues buy t) ∙ f) (ap filled (m.queues sell u) ∙ g)
