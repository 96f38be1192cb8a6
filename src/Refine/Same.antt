-- ===== src/Refine/Same.antt =====
-- When the two books are in the same state, for a client that only sees their calls.
use cpp_matching_engine.Base.{
  ℕ, ◌≤◌, ◌≡◌, refl, ap, subst, inl, inr, List, [], ◌∷◌, ◌++◌, none, some, Option-cases, All,
  length, length-replicate,
}
use cpp_matching_engine.Base.Int.{pos}
use cpp_matching_engine.Base.Dict.{find}
use cpp_matching_engine.Types.{OrderId, Side, buy, sell}
use cpp_matching_engine.Pool.{Handle, null_handle}
use cpp_matching_engine.Pool.Initial.{range, length-link_from}
use cpp_matching_engine.Pool
use cpp_matching_engine.OrderBook.State.{OrderBook, init}
use cpp_matching_engine.OrderBook.Cells.{Cell}
use cpp_matching_engine.OrderBook.Layout.{Store}
use cpp_matching_engine.OrderBook.Fresh.{no_cells, init-Rep}
use cpp_matching_engine.RefBook.State.{RefOrder, RefBook, queue_at, side_levels}
use cpp_matching_engine.RefBook.State as RefState
use cpp_matching_engine.RefBook.Uncrossed.{init-Valid}
use cpp_matching_engine.Refine.Orders.{orders}
use cpp_matching_engine.Refine.Relation.{Matches, Here, info_of}
use cpp_matching_engine.Refine.Unindex.{none-some}

-- The books match for some cells and free slots. `ticks` and `slots` are the sizes of the detailed
-- book's arrays.
pub record Same (b : OrderBook) (r : RefBook) (ticks slots : ℕ) : Type 0 where
  pub store : Store
  pub free : List Handle
  pub matches : Matches b r store free
  pub ticks_kept : length b.levels ≡ ticks
  pub slots_kept : length b.pool.nodes ≡ slots

-- The cell of the store that an id stands for, with its place.
pub record Found (q : Store) (id : OrderId) (h : Handle) : Type 0 where
  pub tick : ℕ
  pub order : RefOrder
  pub before : List Cell
  pub behind : List Cell
  pub here : q tick ≡ before ++ (h, order) ∷ behind
  pub named : order.id ≡ id

place_of :
    (c : Cell) (cs : List Cell)
    → Here c cs
    → (xs : List Cell) × (ys : List Cell) × (cs ≡ xs ++ c ∷ ys)
place_of c [] k = absurd k
place_of c (x ∷ cs) (inl e) = ([], cs, ap (λ y. y ∷ cs) e)
place_of c (x ∷ cs) (inr k) = let (xs, ys, e) = place_of c cs k in (x ∷ xs, ys, ap (λ l. x ∷ l) e)

pub Here-All : (P : Cell → Type 0) (c : Cell) (cs : List Cell) → Here c cs → All P cs → P c
Here-All P c [] k a = absurd k
Here-All P c (x ∷ cs) (inl e) a = subst P e a.0
Here-All P c (x ∷ cs) (inr k) a = Here-All P c cs k a.1

module _ (b : OrderBook) (r : RefBook) (q : Store) (fs : List Handle) (m : Matches b r q fs)
    (id : OrderId) where
  -- What both indexes say of an id that one of them knows.
  pub known-Found :
      (h : Handle)
      → find id b.id_index ≡ some h
      → (f : Found q id h) × (find id r.id_index ≡ some (info_of f.order))
  known-Found h e =
      let (t, o, at, same) = m.index.sound id h e in
      let (xs, ys, here) = place_of (h, o) (q t) at in
      (
        record { tick = t; order = o; before = xs; behind = ys; here = here; named = same },
        subst (λ i. find i r.id_index ≡ some (info_of o)) same
            (Here-All (λ c. find c.1.id r.id_index ≡ some (info_of c.1)) (h, o) (q t) at
              (m.index.info t)),
      )

  -- An id that the reference book does not know is not known to the detailed one.
  pub absent-back : find id r.id_index ≡ none → find id b.id_index ≡ none
  absent-back e = elim (Option-cases (find id b.id_index)) [
    | inl n ↦ n
    | inr (h, k) ↦
        let (f, g) = known-Found h k in none-some (find id r.id_index) (info_of f.order) e g
  ]

pub init-Same :
    (ticks slots : ℕ) → slots ≤ null_handle → Same (init ticks slots) RefState.init ticks slots
unfolding init RefState.init Pool.init find orders queue_at
init-Same ticks slots h = record {
  store = no_cells;
  free = range 0 slots;
  matches = record {
    rep = init-Rep ticks slots h;
    valid = init-Valid;
    queues = nothing;
    bid = inl (refl, λ t. refl);
    ask = inl (refl, λ t. refl);
    index = record {
      handle_keys = tt;
      info_keys = tt;
      handle = λ t. tt;
      info = λ t. tt;
      sound = λ id k f. absurd (cc);
      absent = λ id f. refl;
    };
    seq = refl;
    sink = refl;
    trades = refl;
  };
  ticks_kept = length-replicate ticks _;
  slots_kept = length-link_from _ 0 slots;
}
  where
    nothing : (sd : Side) (t : ℕ) → queue_at (side_levels RefState.init sd) (pos t) ≡ []
    nothing buy t = refl
    nothing sell t = refl
