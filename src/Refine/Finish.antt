-- ===== src/Refine/Finish.antt =====
-- The book that the reference book's sweep leaves, after one more fill at the front.
use cpp_matching_engine.Base.{
  ℕ, ◌≡◌, refl, sym, ap, ◌∙◌, Bool, true, false, List, [], ◌∷◌, ◌++◌, ◌==◌, if◌then◌else◌, add64,
  sub64, eq→==,
}
use cpp_matching_engine.Base.Dict.{erase}
use cpp_matching_engine.Base.Int.{pos, eqb_ℤ_refl}
use cpp_matching_engine.Types.{OrderId, OwnerId, Quantity, Price, Side, buy, sell, opposite, Trade}
use cpp_matching_engine.RefBook
use cpp_matching_engine.RefBook.{Sweep, smaller, finish, fill_front}
use cpp_matching_engine.RefBook.State.{
  RefOrder, Queue, RefBook, Levels, side_levels, with_levels, erase_at, erase_order, keep_level,
  set_remaining, set_remaining_at,
}
use cpp_matching_engine.Refine.Fill.{ref_emit, trade_of}

pub finish-side :
    (r : RefBook) (side : Side) (t : Sweep)
    → side_levels (finish r side t) (opposite side) ≡ t.levels
finish-side r buy t = refl
finish-side r sell t = refl

pub finish-seq : (r : RefBook) (side : Side) (t : Sweep) → (finish r side t).seq ≡ t.seq
finish-seq r buy t = refl
finish-seq r sell t = refl

-- The fields that the sweep does not write.
pub finish-has_sink :
    (r : RefBook) (side : Side) (t : Sweep) → (finish r side t).has_sink ≡ r.has_sink
finish-has_sink r buy t = refl
finish-has_sink r sell t = refl

module _ (r : RefBook) (t : Sweep) (p : ℕ) (e : RefOrder) (os : Queue) (ls : Levels) (id : OrderId)
    (lim : Price) (owner : OwnerId) (lev : t.levels ≡ (pos p, e ∷ os) ∷ ls) where
  abbrev d : Quantity
  d = smaller t.remaining e.remaining

  abbrev n : Quantity
  n = sub64 e.remaining d

  lowered_levels :
      set_remaining_at t.levels (pos p) e.id n ≡ (pos p, record e { remaining = n } ∷ os) ∷ ls
  unfolding set_remaining_at set_remaining
  lowered_levels =
      ap (λ l. set_remaining_at l (pos p) e.id n) lev
      ∙ rw (eqb_ℤ_refl (pos p), eq→== e.id e.id refl) refl

  erased_levels :
      e.price ≡ pos p
      → erase_at (set_remaining_at t.levels (pos p) e.id n) e.price e.id ≡ keep_level (pos p) os ls
  unfolding erase_at erase_order
  erased_levels at =
      ap (λ l. erase_at l e.price e.id) lowered_levels
      ∙ rw at (rw (eqb_ℤ_refl (pos p), eq→== e.id e.id refl) refl)

  -- The order at the front with what is left of it, the fill logged.
  abbrev pub lowered : Side → Side → RefBook
  lowered side s =
      let r1 = ref_emit (finish r side t) (trade_of e id d (finish r side t).seq) in
      with_levels r1 s (set_remaining_at (side_levels r1 s) (pos p) e.id n)

  abbrev after : Side → Sweep
  after side = fill_front id side lim owner r.has_sink t (pos p) e os ls

  abbrev log : List Trade
  log = if r.has_sink then t.trades ++ trade_of e id d t.seq ∷ [] else t.trades

  -- The book that the sweep leaves, by whether the order is used up.
  abbrev ends_with : Side → Bool → RefBook
  ends_with side x = finish r side (record {
    levels = if x then keep_level (pos p) os ls else (pos p, record e { remaining = n } ∷ os) ∷ ls;
    id_index = if x then erase e.id t.id_index else t.id_index;
    seq = add64 t.seq 1;
    trades = log;
    remaining = sub64 t.remaining d;
    filled = add64 t.filled d;
  })

  ends : (side : Side) → ends_with side (n == 0) ≡ finish r side (after side)
  unfolding fill_front
  ends side = refl

  lowered-ends : (side : Side) → lowered side (opposite side) ≡ ends_with side false
  lowered-ends buy =
      ap (λ l. record r { asks = l; id_index = t.id_index; seq = add64 t.seq 1; trades = log })
        lowered_levels
  lowered-ends sell =
      ap (λ l. record r { bids = l; id_index = t.id_index; seq = add64 t.seq 1; trades = log })
        lowered_levels

  abbrev gone : Side → Side → RefBook
  gone side s =
      RefBook.remove (lowered side s) e.id (record { side = s; price = e.price; owner = e.owner })

  gone-ends : (side : Side) → e.price ≡ pos p → gone side (opposite side) ≡ ends_with side true
  gone-ends buy at =
      ap
        (λ l. record r {
          asks = l;
          id_index = erase e.id t.id_index;
          seq = add64 t.seq 1;
          trades = log;
        })
        (erased_levels at)
  gone-ends sell at =
      ap
        (λ l. record r {
          bids = l;
          id_index = erase e.id t.id_index;
          seq = add64 t.seq 1;
          trades = log;
        })
        (erased_levels at)

  pub part-finish :
      (side : Side)
      → e.side ≡ opposite side
      → (n == 0) ≡ false
      → lowered side e.side ≡ finish r side (after side)
  part-finish side es c =
      ap (lowered side) es ∙ lowered-ends side ∙ ap (ends_with side) (sym c) ∙ ends side

  pub whole-finish :
      (side : Side)
      → e.side ≡ opposite side
      → e.price ≡ pos p
      → (n == 0) ≡ true
      → gone side e.side ≡ finish r side (after side)
  whole-finish side es at c =
      ap (gone side) es ∙ gone-ends side at ∙ ap (ends_with side) (sym c) ∙ ends side
