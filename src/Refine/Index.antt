-- ===== src/Refine/Index.antt =====
-- A new id enters both indexes.
use cpp_matching_engine.Base.{
  ℕ, ◌<◌, ◌≡◌, sym, ap, ◌∙◌, subst, inl, inr, List, [], ◌∷◌, ◌++◌, none, some, All, eq-cases,
  length,
}
use cpp_matching_engine.Base.Dict.{find, emplace}
use cpp_matching_engine.Base.Dict.Laws.{
  NotIn-find, find-emplace_self, find-emplace_ne, emplace-Distinct,
}
use cpp_matching_engine.Types.{OrderId}
use cpp_matching_engine.Pool.{Handle}
use cpp_matching_engine.OrderBook.State.{OrderBook}
use cpp_matching_engine.OrderBook.Cells.{Cell}
use cpp_matching_engine.OrderBook.Layout.{Store, FitsAt, upd, upd-all, All-both}
use cpp_matching_engine.RefBook.State.{RefOrder, RefBook}
use cpp_matching_engine.RefBook.Sweeps.{some-inj}
use cpp_matching_engine.Refine.Relation.{Matches, Indexed, Here, info_of}
use cpp_matching_engine.Refine.Single.{Here-middle, Here-upd, Here-upd_self}
use cpp_matching_engine.Refine.Unindex.{none-some}

still-found {ℓ} :
    {V : Type ℓ} (idx : List (OrderId × V)) (id : OrderId) (v : V) (f : Cell → V) (cs : List Cell)
    → find id idx ≡ none
    → All (λ c. find c.1.id idx ≡ some (f c)) cs
    → All (λ c. find c.1.id (emplace id v idx) ≡ some (f c)) cs
still-found idx id v f [] n a = tt
still-found idx id v f (c ∷ cs) n a = (
  find-emplace_ne id c.1.id v idx
        (λ e. none-some (find id idx) (f c) n (ap (λ i. find i idx) e ∙ a.0))
      ∙ a.0,
  still-found idx id v f cs n a.1,
)

Here-left : (c : Cell) (xs ys : List Cell) → Here c xs → Here c (xs ++ ys)
Here-left c [] ys k = absurd k
Here-left c (x ∷ xs) ys (inl e) = inl e
Here-left c (x ∷ xs) ys (inr k) = inr (Here-left c xs ys k)

module _ (b : OrderBook) (r : RefBook) (q : Store) (h : Handle) (fs : List Handle)
    (m : Matches b r q (h ∷ fs)) (p : ℕ) (e : RefOrder) (lt : p < length b.levels)
    (fit : FitsAt p (h, e)) (fresh : find e.id b.id_index ≡ none) where
  abbrev cs : List Cell
  cs = q p ++ (h, e) ∷ []

  abbrev q' : Store
  q' = upd q p cs

  pub ref_fresh : find e.id r.id_index ≡ none
  ref_fresh = m.index.absent e.id fresh

  with_cell : (P : Cell → Type 0) → ((t : ℕ) → All P (q t)) → P (h, e) → (t : ℕ) → All P (q' t)
  with_cell P a n =
      upd-all (λ t ds. All P ds) q p cs (All-both P (q p) ((h, e) ∷ []) (a p) (n, tt)) (λ t ne. a t)

  -- Both indexes get the id.
  pub added_index : Indexed (emplace e.id h b.id_index) (emplace e.id (info_of e) r.id_index) q'
  added_index = record {
    handle_keys = emplace-Distinct e.id h b.id_index m.index.handle_keys;
    info_keys = emplace-Distinct e.id (info_of e) r.id_index m.index.info_keys;
    handle =
        with_cell (λ c. find c.1.id (emplace e.id h b.id_index) ≡ some c.0)
          (λ t. still-found b.id_index e.id h (λ c. c.0) (q t) fresh (m.index.handle t))
          (find-emplace_self e.id h b.id_index (NotIn-find e.id b.id_index fresh));
    info =
        with_cell (λ c. find c.1.id (emplace e.id (info_of e) r.id_index) ≡ some (info_of c.1))
          (λ t.
            still-found r.id_index e.id (info_of e) (λ c. info_of c.1) (q t) ref_fresh
              (m.index.info t))
          (find-emplace_self e.id (info_of e) r.id_index (NotIn-find e.id r.id_index ref_fresh));
    sound = λ id k f. elim (eq-cases e.id id) [
      | inl same ↦
          let hk : h ≡ k = some-inj h k (
            sym (find-emplace_self e.id h b.id_index (NotIn-find e.id b.id_index fresh))
            ∙ ap (λ i. find i (emplace e.id h b.id_index)) same
            ∙ f) in
          (
            p,
            e,
            subst (λ x. Here (x, e) (q' p)) hk
                (Here-upd_self q p cs (h, e) (Here-middle (h, e) (q p) [])),
            same,
          )
      | inr ne ↦
          let (t, g, at, same) =
            m.index.sound id k (sym (find-emplace_ne e.id id h b.id_index ne) ∙ f) in
          elim (eq-cases t p) [
            | inl tp ↦ (
              p,
              g,
              Here-upd_self q p cs (k, g)
                  (Here-left (k, g) (q p) ((h, e) ∷ []) (subst (λ u. Here (k, g) (q u)) tp at)),
              same,
            )
            | inr other ↦ (t, g, Here-upd q p cs t (k, g) other at, same)
          ]
    ];
    absent = λ id f. elim (eq-cases e.id id) [
      | inl same ↦
          none-some (find e.id (emplace e.id h b.id_index)) h
            (ap (λ i. find i (emplace e.id h b.id_index)) same ∙ f)
            (find-emplace_self e.id h b.id_index (NotIn-find e.id b.id_index fresh))
      | inr ne ↦
          find-emplace_ne e.id id (info_of e) r.id_index ne
          ∙ m.index.absent id (sym (find-emplace_ne e.id id h b.id_index ne) ∙ f)
    ];
  }
