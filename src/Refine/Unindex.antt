-- ===== src/Refine/Unindex.antt =====
-- An id leaves both indexes.
use cpp_matching_engine.Base.{
  ℕ, ◌≡◌, sym, ap, ◌∙◌, subst, inl, inr, List, [], ◌∷◌, ◌++◌, Option, none, some, All, NotIn-before,
  NotIn-behind, eq-cases,
}
use cpp_matching_engine.Base.Dict.{find, erase}
use cpp_matching_engine.Base.Dict.Laws.{find-erase_ne, find-erase_self, erase-Distinct}
use cpp_matching_engine.Types.{OrderId}
use cpp_matching_engine.Pool.{Handle}
use cpp_matching_engine.OrderBook.State.{OrderBook}
use cpp_matching_engine.OrderBook.Cells.{Cell, handles}
use cpp_matching_engine.OrderBook.Layout.{Store, upd, upd-all, All-both}
use cpp_matching_engine.OrderBook.Unlink
use cpp_matching_engine.RefBook.State.{RefOrder, RefBook}
use cpp_matching_engine.Refine.Relation.{Matches, Indexed, Here, info_of}
use cpp_matching_engine.Refine.Single.{OtherCell, other_ids, Here-split, Here-upd, Here-upd_self}
use cpp_matching_engine.Refine.Adjust.{before_cell, behind_cell, known}

-- Erasing another id from an index leaves what it says of the cells.
still-there {ℓ} :
    {V : Type ℓ} (idx : List (OrderId × V)) (id : OrderId) (f : Cell → V) (cs : List Cell)
    → All (OtherCell id) cs
    → All (λ c. find c.1.id idx ≡ some (f c)) cs
    → All (λ c. find c.1.id (erase id idx) ≡ some (f c)) cs
still-there idx id f [] o a = tt
still-there idx id f (c ∷ cs) o a =
    (find-erase_ne id c.1.id idx (λ e. o.0 (sym e)) ∙ a.0, still-there idx id f cs o.1 a.1)

pub none-some {ℓ κ} : {V : Type ℓ} {A : Type κ} (o : Option V) (v : V) → o ≡ none → o ≡ some v → A
none-some o v e f = absurd (cc)

module _ (b : OrderBook) (r : RefBook) (q : Store) (fs : List Handle) (m : Matches b r q fs) (p : ℕ)
    (xs : List Cell) (h : Handle) (e : RefOrder) (ys : List Cell)
    (here : q p ≡ xs ++ (h, e) ∷ ys) where
  abbrev q' : Store
  q' = upd q p (xs ++ ys)

  others : (t : ℕ) → All (OtherCell e.id) (q' t)
  others =
      let k = known b r q fs m p xs h e ys here in
      let d = Unlink.distinct b q fs m.rep p xs h e ys here in
      let idx = b.id_index in
      upd-all (λ t cs. All (OtherCell e.id) cs) q p (xs ++ ys)
        (All-both (OtherCell e.id) xs ys
          (other_ids idx e.id h xs k (NotIn-before h (handles xs) (handles ys) d) (
            before_cell b r q fs m p xs h e ys here (λ c. find c.1.id idx ≡ some c.0)
              (m.index.handle p)))
          (other_ids idx e.id h ys k (NotIn-behind h (handles xs) (handles ys) d) (
            behind_cell b r q fs m p xs h e ys here (λ c. find c.1.id idx ≡ some c.0)
              (m.index.handle p))))
        (λ t ne.
          other_ids idx e.id h (q t) k (Unlink.slot_apart b q fs m.rep p xs h e ys here t ne)
            (m.index.handle t))

  -- What held of every cell holds of those that stay.
  remaining_cells : (P : Cell → Type 0) → ((t : ℕ) → All P (q t)) → (t : ℕ) → All P (q' t)
  remaining_cells P a =
      upd-all (λ t cs. All P cs) q p (xs ++ ys)
        (All-both P xs ys (before_cell b r q fs m p xs h e ys here P (a p))
          (behind_cell b r q fs m p xs h e ys here P (a p)))
        (λ t ne. a t)

  -- Both indexes lose the id.
  pub removed_index : Indexed (erase e.id b.id_index) (erase e.id r.id_index) q'
  removed_index = record {
    handle_keys = erase-Distinct e.id b.id_index m.index.handle_keys;
    info_keys = erase-Distinct e.id r.id_index m.index.info_keys;
    handle = λ t.
        still-there b.id_index e.id (λ c. c.0) (q' t) (others t)
          (remaining_cells (λ c. find c.1.id b.id_index ≡ some c.0) m.index.handle t);
    info = λ t.
        still-there r.id_index e.id (λ c. info_of c.1) (q' t) (others t)
          (remaining_cells (λ c. find c.1.id r.id_index ≡ some (info_of c.1)) m.index.info t);
    sound = λ id k f. elim (eq-cases e.id id) [
      | inl same ↦
          none-some (find e.id (erase e.id b.id_index)) k
            (find-erase_self e.id b.id_index m.index.handle_keys)
            (ap (λ i. find i (erase e.id b.id_index)) same ∙ f)
      | inr ne ↦
          let (t, g, at, same) =
            m.index.sound id k (sym (find-erase_ne e.id id b.id_index ne) ∙ f) in
          elim (eq-cases t p) [
            | inl tp ↦
                elim (Here-split (k, g) (h, e) xs ys
                  (subst (Here (k, g)) here (subst (λ u. Here (k, g) (q u)) tp at))) [
                    | inl it ↦ absurd (ne (ap (λ (c : Cell). c.1.id) it ∙ same))
                    | inr rest ↦ (p, g, Here-upd_self q p (xs ++ ys) (k, g) rest, same)
                  ]
            | inr other ↦ (t, g, Here-upd q p (xs ++ ys) t (k, g) other at, same)
          ]
    ];
    absent = λ id f. elim (eq-cases e.id id) [
      | inl same ↦
          ap (λ i. find i (erase e.id r.id_index)) (sym same)
          ∙ find-erase_self e.id r.id_index m.index.info_keys
      | inr ne ↦
          find-erase_ne e.id id r.id_index ne
          ∙ m.index.absent id (sym (find-erase_ne e.id id b.id_index ne) ∙ f)
    ];
  }
