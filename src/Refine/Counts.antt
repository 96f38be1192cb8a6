-- ===== src/Refine/Counts.antt =====
-- What `can_fill` counts at one tick, in both books.
use cpp_matching_engine.Base.{
  ℕ, zero, suc, ◌+◌, ◌%◌, ◌<◌, ◌≤◌, ◌≡◌, refl, sym, ap, ◌∙◌, subst, inl, inr, true, false, List, [],
  ◌∷◌, some, Bool-cases, arith, All, Distinct, length, get_elem?, set, ◌==◌, if◌then◌else◌, add64,
  u64_mod, ne→==, eq→==, ==→eq,
}
use cpp_matching_engine.Base.Int.{pos}
use cpp_matching_engine.Types.{OwnerId, Quantity, Side, buy, sell, opposite, same_side}
use cpp_matching_engine.Pool.{Handle, null_handle, value, next_free, get, capacity}
use cpp_matching_engine.OrderBook.State.{Order, OrderBook, PriceLevel, order_at}
use cpp_matching_engine.OrderBook.Cells.{
  Cell, Nodes, handles, Seg, Seg-frame, first_or, read-Seg, node_of,
}
use cpp_matching_engine.OrderBook.Layout.{Rep, Store, sum_of, Seg-lt}
use cpp_matching_engine.OrderBook.Place.{below-null}
use cpp_matching_engine.OrderBook.{Count, count_orders, count_level}
use cpp_matching_engine.RefBook.{scan_level, self_trade}
use cpp_matching_engine.RefBook.State.{RefOrder, Queue}
use cpp_matching_engine.Refine.Orders.{orders, filled, orders-hit, orders-miss}
use cpp_matching_engine.Refine.Tops.{true-false}
use cpp_matching_engine.Refine.Relation.{has}

-- How many slots hold a value.
abbrev value_count : Nodes → ℕ
value_count [] = 0
value_count (value v ∷ ns) = suc (value_count ns)
value_count (next_free n ∷ ns) = value_count ns

value_count-le : (ns : Nodes) → value_count ns ≤ length ns
value_count-le [] = omega arith
value_count-le (value w ∷ ns) = omega (arith, value_count-le ns)
value_count-le (next_free m ∷ ns) = omega (arith, value_count-le ns)

value_count-set :
    (ns : Nodes) (h n : ℕ) (v : Order)
    → get_elem? ns h ≡ some (value v)
    → suc (value_count (set ns h (next_free n))) ≡ value_count ns
value_count-set [] h n v e = cc
value_count-set (value w ∷ ns) zero n v e = refl
value_count-set (next_free m ∷ ns) zero n v e = cc
value_count-set (value w ∷ ns) (suc h) n v e = ap suc (value_count-set ns h n v e)
value_count-set (next_free m ∷ ns) (suc h) n v e = value_count-set ns h n v e

-- The pool has room for the cells of a tick.
length-Seg :
    (ns : Nodes) (a d : Handle) (cs : List Cell)
    → Seg ns a cs d
    → Distinct (handles cs)
    → length cs ≤ value_count ns
length-Seg ns a d [] s n = omega arith
length-Seg ns a d ((h, e) ∷ cs) s n = omega (
  arith,
  length-Seg (set ns h (next_free 0)) h d cs (Seg-frame ns h d h (next_free 0) cs n.0 s.1) n.1,
  value_count-set ns h 0 _ s.0,
)

abbrev pub OnSide : Side → Cell → Type 0
OnSide sd c = same_side c.1.side sd ≡ true

one-side : (s sd : Side) → same_side s sd ≡ true → same_side s (opposite sd) ≡ false
one-side buy buy e = refl
one-side buy sell e = absurd (cc)
one-side sell buy e = absurd (cc)
one-side sell sell e = refl

some-side : (s sd : Side) → same_side s sd ≡ false → same_side s (opposite sd) ≡ true
some-side buy buy e = absurd (cc)
some-side buy sell e = refl
some-side sell buy e = refl
some-side sell sell e = absurd (cc)

-- Cells among which the other side has no order.
pub all-OnSide :
    (sd : Side) (cs : List Cell) → filled (orders (opposite sd) cs) ≡ false → All (OnSide sd) cs
all-OnSide sd [] f = tt
all-OnSide sd ((h, e) ∷ cs) f = elim (Bool-cases (same_side e.side sd)) [
  | inl s ↦ (
    s,
    all-OnSide sd cs
        (ap filled (sym (orders-miss (opposite sd) h e cs (one-side e.side sd s))) ∙ f),
  )
  | inr s ↦
      true-false (filled (orders (opposite sd) ((h, e) ∷ cs)))
        (ap filled (orders-hit (opposite sd) h e cs (some-side e.side sd s))) f
]

-- Without an owner every order counts.
scan_anonymous :
    (sd : Side) (cs : List Cell) (avail : Quantity)
    → All (OnSide sd) cs
    → avail < u64_mod
    → scan_level (orders sd cs) 0 avail ≡ (true, (avail + sum_of cs) % u64_mod)
unfolding scan_level orders
scan_anonymous sd [] avail a h = ap (λ n. (true, n)) (omega (arith, h))
scan_anonymous sd ((k, e) ∷ cs) avail a h = rw a.0 (
    scan_anonymous sd cs (add64 avail e.remaining) a.1 (omega arith)
    ∙ ap (λ n. (true, n)) (omega arith))

order_at-Seg :
    (b : OrderBook) (a h : Handle) (e : RefOrder) (cs : List Cell)
    → Seg b.pool.nodes a ((h, e) ∷ cs) null_handle
    → order_at b h ≡ node_of a (first_or cs null_handle) e
unfolding get
order_at-Seg b a h e cs s = read-Seg b.pool.nodes a null_handle h e cs s

same_owner : (owner own : OwnerId) → (owner == 0) ≡ false → (own == owner) ≡ self_trade owner own
same_owner owner own z = ground (arith, z)

-- The walk over a level's list counts what the scan of the queue counts.
walk-scan :
    (b : OrderBook) (owner : OwnerId) (sd : Side) (n : ℕ) (a : Handle) (cs : List Cell)
    (avail : Quantity)
    → (owner == 0) ≡ false
    → Seg b.pool.nodes a cs null_handle
    → All (λ k. k < null_handle) (handles cs)
    → All (OnSide sd) cs
    → length cs ≤ n
    → count_orders b owner n (first_or cs null_handle) avail ≡ scan_level (orders sd cs) owner avail
unfolding count_orders scan_level orders
walk-scan b owner sd zero a [] avail named s l o k = refl
walk-scan b owner sd (suc n) a [] avail named s l o k =
    rw (eq→== null_handle null_handle refl, scan_level) refl
walk-scan b owner sd zero a ((h, e) ∷ cs) avail named s l o k = absurd (omega (arith, k))
walk-scan b owner sd (suc n) a ((h, e) ∷ cs) avail named s l o k =
    let walk : Count = count_orders b owner n (first_or cs null_handle) (add64 avail e.remaining) in
    rw (ne→== h null_handle (omega (arith, l.0)), o.0)
      (ap
          (λ (x : Order).
            if x.owner == owner
            then (false, avail)
            else count_orders b owner n x.next (add64 avail x.remaining))
          (order_at-Seg b a h e cs s)
        ∙ ap (λ x. if x then (false, avail) else walk) (same_owner owner e.owner named)
        ∙ ap (λ c. if self_trade owner e.owner then (false, avail) else c)
            (walk-scan b owner sd n h cs (add64 avail e.remaining) named s.1 l.1 o.1
              (omega (arith, k))))

-- What `can_fill` counts at a tick where only one side has orders.
pub count-scan :
    (b : OrderBook) (q : Store) (fs : List Handle) (owner : OwnerId) (sd : Side) (p : ℕ)
    (avail : Quantity)
    → Rep b.levels b.pool q fs
    → has q (opposite sd) p ≡ false
    → avail < u64_mod
    → count_level b owner (pos p) avail ≡ scan_level (orders sd (q p)) owner avail
unfolding count_level capacity
count-scan b q fs owner sd p avail r none h = elim (Bool-cases (owner == 0)) [
  | inl z ↦ rw z (
      ap (λ n. (true, n)) (omega (arith, ap (λ (l : PriceLevel). l.total) (r.level p)))
      ∙ sym (
          subst
            (λ w. scan_level (orders sd (q p)) w avail ≡ (true, (avail + sum_of (q p)) % u64_mod))
            (omega (arith, ==→eq owner 0 z))
            (scan_anonymous sd (q p) avail (all-OnSide sd (q p) none) h)))
  | inr z ↦ rw z (
      ap (λ k. count_orders b owner (length b.pool.nodes) k avail)
        (ap (λ (l : PriceLevel). l.head) (r.level p))
      ∙ walk-scan b owner sd (length b.pool.nodes) null_handle (q p) avail z (r.seg p)
          (below-null (length b.pool.nodes) (handles (q p)) r.free.small
            (Seg-lt b.pool.nodes null_handle null_handle (q p) (r.seg p)))
          (all-OnSide sd (q p) none)
          (omega (
            arith,
            length-Seg b.pool.nodes null_handle null_handle (q p) (r.seg p) (r.distinct p),
            value_count-le b.pool.nodes,
          )))
]

-- What is counted stays in the type.
pub scan_level-lt :
    (os : Queue) (owner : OwnerId) (avail : Quantity)
    → avail < u64_mod
    → (scan_level os owner avail).1 < u64_mod
unfolding scan_level
scan_level-lt [] owner avail h = h
scan_level-lt (o ∷ os) owner avail h = elim (Bool-cases (self_trade owner o.owner)) [
  | inl c ↦ rw c h
  | inr c ↦ rw c (scan_level-lt os owner (add64 avail o.remaining) (omega arith))
]
