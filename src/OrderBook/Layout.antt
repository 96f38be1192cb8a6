-- ===== src/OrderBook/Layout.antt =====
-- How a book stands for its levels: at each tick a list of cells, linked through the pool.
use cpp_matching_engine.Base.{
  ℕ, zero, suc, ◌+◌, ◌%◌, ◌<◌, ◌≡◌, refl, sym, ap, subst, ◌∙◌, ◌≢◌, inl, inr, List, [], ◌∷◌, ◌++◌,
  Option, some, arith, get_elem?, get_or, length, get_elem?-lt, NotIn, Distinct, All, u64_mod, ◌==◌,
  if◌then◌else◌, eq-cases, eq→==, ne→==,
}
use cpp_matching_engine.Base.Int.{pos, pos_part}
use cpp_matching_engine.Types.{Price}
use cpp_matching_engine.Pool.{Handle, null_handle, Node, value, lifo, Pool}
use cpp_matching_engine.Pool.Frees.{Frees}
use cpp_matching_engine.OrderBook.State.{Order, PriceLevel, blank_level}
use cpp_matching_engine.OrderBook.Cells.{Cell, Nodes, handles, node_of, first_or, last_or, Seg}

abbrev pub sum_of : List Cell → ℕ
sum_of [] = 0
sum_of ((h, e) ∷ cs) = e.remaining + sum_of cs

-- The record of a level that holds those cells.
abbrev pub level_for : List Cell → PriceLevel
level_for cs = record {
  head = first_or cs null_handle;
  tail = last_or null_handle cs;
  total = sum_of cs % u64_mod;
}

abbrev pub Store : Type 0
Store = ℕ → List Cell

-- The cells of one tick have its price, and quantities that fit their type.
abbrev pub FitsAt : ℕ → Cell → Type 0
FitsAt p c = (c.1.price ≡ pos p) × (c.1.remaining < u64_mod)

-- `q` are the cells at each tick, and `fs` the free slots.
pub record Rep (ls : List PriceLevel) (pool : Pool Order) (q : Store) (fs : List Handle)
    : Type 0 where
  pub level : (p : ℕ) → get_or ls p blank_level ≡ level_for (q p)
  pub seg : (p : ℕ) → Seg pool.nodes null_handle (q p) null_handle
  pub distinct : (p : ℕ) → Distinct (handles (q p))
  pub fits : (p : ℕ) → All (FitsAt p) (q p)
  pub free : Frees lifo pool fs
  pub used : (p : ℕ) → All (λ h. NotIn h fs) (handles (q p))

-- The store with other cells at one tick.
unfoldable pub upd : Store → ℕ → List Cell → Store
upd q p cs t = if t == p then cs else q t

pub upd_self : (q : Store) (p : ℕ) (cs : List Cell) → upd q p cs p ≡ cs
unfolding upd
upd_self q p cs = rw (eq→== p p refl)

pub upd-ne : (q : Store) (p : ℕ) (cs : List Cell) (t : ℕ) → t ≢ p → upd q p cs t ≡ q t
unfolding upd
upd-ne q p cs t ne = rw (ne→== t p ne)

-- What holds of the new cells at the tick, and of the old ones elsewhere, holds everywhere.
pub upd-all :
    (P : ℕ → List Cell → Type 0) (q : Store) (p : ℕ) (cs : List Cell)
    → P p cs
    → ((t : ℕ) → t ≢ p → P t (q t))
    → (t : ℕ) → P t (upd q p cs t)
upd-all P q p cs here elsewhere t = elim (eq-cases t p) [
  | inl e ↦ subst (λ s. P s (upd q p cs s)) (sym e) (subst (P p) (sym (upd_self q p cs)) here)
  | inr ne ↦ subst (P t) (sym (upd-ne q p cs t ne)) (elsewhere t ne)
]

pub upd-twice :
    (q : Store) (p : ℕ) (cs ds : List Cell) (t : ℕ) → upd (upd q p cs) p ds t ≡ upd q p ds t
upd-twice q p cs ds t = elim (eq-cases t p) [
  | inl e ↦
      subst (λ s. upd (upd q p cs) p ds s ≡ upd q p ds s) (sym e)
        (upd_self (upd q p cs) p ds ∙ sym (upd_self q p ds))
  | inr ne ↦ upd-ne (upd q p cs) p ds t ne ∙ upd-ne q p cs t ne ∙ sym (upd-ne q p ds t ne)
]

pub sum_of-append : (xs ys : List Cell) → sum_of (xs ++ ys) ≡ sum_of xs + sum_of ys
sum_of-append [] ys = omega arith
sum_of-append ((h, e) ∷ xs) ys = omega (arith, sum_of-append xs ys)

pub All-left {ℓ} : {A : Type 0} (P : A → Type ℓ) (xs ys : List A) → All P (xs ++ ys) → All P xs
All-left P [] ys a = tt
All-left P (x ∷ xs) ys a = (a.0, All-left P xs ys a.1)

pub All-right {ℓ} : {A : Type 0} (P : A → Type ℓ) (xs ys : List A) → All P (xs ++ ys) → All P ys
All-right P [] ys a = a
All-right P (x ∷ xs) ys a = All-right P xs ys a.1

pub All-both {ℓ} :
    {A : Type 0} (P : A → Type ℓ) (xs ys : List A) → All P xs → All P ys → All P (xs ++ ys)
All-both P [] ys a c = c
All-both P (x ∷ xs) ys a c = (a.0, All-both P xs ys a.1 c)

-- A slot that holds a value with another price is in no segment of this tick.
pub NotIn-other :
    (ns : Nodes) (a d h : Handle) (o : Order) (p : ℕ) (cs : List Cell)
    → get_elem? ns h ≡ some (value o)
    → o.price ≢ pos p
    → All (FitsAt p) cs
    → Seg ns a cs d
    → NotIn h (handles cs)
NotIn-other ns a d h o p [] e ne f s = tt
NotIn-other ns a d h o p ((k, x) ∷ cs) e ne f s =
    ((λ same. ne (price same)), NotIn-other ns k d h o p cs e ne f.1 s.1)
  where
    price : h ≡ k → o.price ≡ pos p
    price same = ap price_in (sym e ∙ ap (get_elem? ns) same ∙ s.0) ∙ f.0.0
      where
        price_in : Option (Node Order) → Price
        price_in (some (value v)) = v.price
        price_in _ = o.price

pub pos-ne : {a b : ℕ} → a ≢ b → pos a ≢ pos b
pos-ne ne e = ne (ap pos_part e)

-- The slots of a segment are in range.
pub Seg-lt :
    (ns : Nodes) (a d : Handle) (cs : List Cell)
    → Seg ns a cs d
    → All (λ h. h < length ns) (handles cs)
Seg-lt ns a d [] s = tt
Seg-lt ns a d ((h, e) ∷ cs) s = (get_elem?-lt ns h _ s.0, Seg-lt ns h d cs s.1)

module _ {ls : List PriceLevel} {pool : Pool Order} {q : Store} {fs : List Handle}
    (r : Rep ls pool q fs) where
  -- The slots of two ticks differ.
  pub Rep-apart : (p t : ℕ) → t ≢ p → All (λ x. NotIn x (handles (q p))) (handles (q t))
  Rep-apart p t ne = go null_handle null_handle (q t) (r.fits t) (r.seg t)
    where
      go :
          (a d : Handle) (cs : List Cell)
          → All (FitsAt t) cs
          → Seg pool.nodes a cs d
          → All (λ x. NotIn x (handles (q p))) (handles cs)
      go a d [] f s = tt
      go a d ((h, e) ∷ cs) f s = (
        NotIn-other pool.nodes null_handle null_handle h (node_of a (first_or cs d) e) p (q p) s.0
            (λ same. pos-ne ne (sym f.0.0 ∙ same)) (r.fits p) (r.seg p),
        go h d cs f.1 s.1,
      )

  -- A level with an order is in range.
  pub Rep-lt : (p : ℕ) (h : Handle) → (level_for (q p)).head ≡ h → h ≢ null_handle → p < length ls
  Rep-lt p h e ne = in_range ls p (λ out. ne (sym e ∙ ap (λ l. l.head) (sym (r.level p) ∙ out)))
    where
      in_range :
          (ks : List PriceLevel) (i : ℕ) → get_or ks i blank_level ≢ blank_level → i < length ks
      in_range [] i n = absurd (n refl)
      in_range (k ∷ ks) zero n = omega arith
      in_range (k ∷ ks) (suc i) n = omega (arith, in_range ks i n)
