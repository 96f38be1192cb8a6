-- ===== src/OrderBook/Edit.antt =====
-- Writes to the slots of a few handles and to one level, and what they leave alone.
use cpp_matching_engine.Base.{
  ℕ, ◌≡◌, refl, sym, subst, ◌∙◌, ◌≢◌, ◌⊎◌, inl, inr, List, [], ◌∷◌, get_elem?, set, get_or, length,
  length-set, get_elem?-set_ne, get_or-set_ne, NotIn, All,
}
use cpp_matching_engine.Pool.{Handle, lifo, value, Pool, put}
use cpp_matching_engine.Pool.Frees.{Frees}
use cpp_matching_engine.Pool.Laws.{put-Frees}
use cpp_matching_engine.OrderBook.State.{Order, PriceLevel, blank_level}
use cpp_matching_engine.OrderBook.Cells.{Cell, handles, Seg}

abbrev pub In : Handle → List Handle → Type 0
In h [] = ⊥
In h (x ∷ xs) = (h ≡ x) ⊎ In h xs

pub In-All {ℓ} : (P : Handle → Type ℓ) (h : Handle) (hs : List Handle) → In h hs → All P hs → P h
In-All P h [] i a = absurd i
In-All P h (x ∷ xs) (inl e) a = subst P (sym e) a.0
In-All P h (x ∷ xs) (inr i) a = In-All P h xs i a.1

pub In-ne : (h x : Handle) (hs : List Handle) → In h hs → NotIn x hs → h ≢ x
In-ne h x [] i n = absurd i
In-ne h x (y ∷ ys) (inl e) n = λ q. n.0 (sym q ∙ e)
In-ne h x (y ∷ ys) (inr i) n = In-ne h x ys i n.1

pub record Edit (hs : List Handle) (p : ℕ) (ls : List PriceLevel) (pool : Pool Order)
    (ls' : List PriceLevel) (pool' : Pool Order) : Type 0 where
  pub frame : (x : Handle) → NotIn x hs → get_elem? pool'.nodes x ≡ get_elem? pool.nodes x
  pub frees :
      (fs : List Handle) → All (λ h. NotIn h fs) hs → Frees lifo pool fs → Frees lifo pool' fs
  pub levels : (t : ℕ) → t ≢ p → get_or ls' t blank_level ≡ get_or ls t blank_level
  pub ticks : length ls' ≡ length ls
  pub slots : length pool'.nodes ≡ length pool.nodes

module _ {hs : List Handle} {p : ℕ} where
  pub Edit-none : (ls : List PriceLevel) (pool : Pool Order) → Edit hs p ls pool ls pool
  Edit-none ls pool = record {
    frame = λ x n. refl;
    frees = λ fs a f. f;
    levels = λ t n. refl;
    ticks = refl;
    slots = refl;
  }

  pub Edit-then :
      {ls ls' ls'' : List PriceLevel} {pool pool' pool'' : Pool Order}
      → Edit hs p ls pool ls' pool'
      → Edit hs p ls' pool' ls'' pool''
      → Edit hs p ls pool ls'' pool''
  Edit-then a c = record {
    frame = λ x n. c.frame x n ∙ a.frame x n;
    frees = λ fs u f. c.frees fs u (a.frees fs u f);
    levels = λ t n. c.levels t n ∙ a.levels t n;
    ticks = c.ticks ∙ a.ticks;
    slots = c.slots ∙ a.slots;
  }

  pub Edit-slot :
      (ls : List PriceLevel) (pool : Pool Order) (h : Handle) (o : Order)
      → In h hs
      → Edit hs p ls pool ls (put pool h o)
  unfolding put
  Edit-slot ls pool h o i = record {
    frame = λ x n. get_elem?-set_ne pool.nodes h x (value o) (In-ne h x hs i n);
    frees = λ fs u f. put-Frees lifo pool h o fs (In-All (λ k. NotIn k fs) h hs i u) f;
    levels = λ t n. refl;
    ticks = refl;
    slots = length-set pool.nodes h (value o);
  }

  pub Edit-level :
      (ls : List PriceLevel) (pool : Pool Order) (l : PriceLevel)
      → Edit hs p ls pool (set ls p l) pool
  Edit-level ls pool l = record {
    frame = λ x n. refl;
    frees = λ fs a f. f;
    levels = λ t n. get_or-set_ne ls p t l blank_level (λ e. n (sym e));
    ticks = length-set ls p l;
    slots = refl;
  }

  -- A segment of other slots stays.
  pub Seg-edit :
      {ls ls' : List PriceLevel} {pool pool' : Pool Order} (a d : Handle) (cs : List Cell)
      → Edit hs p ls pool ls' pool'
      → All (λ h. NotIn h hs) (handles cs)
      → Seg pool.nodes a cs d
      → Seg pool'.nodes a cs d
  Seg-edit a d [] ed n s = tt
  Seg-edit a d ((h, e) ∷ cs) ed n s = (ed.frame h n.0 ∙ s.0, Seg-edit h d cs ed n.1 s.1)
