-- ===== src/RefBook/AllOrNothing.antt =====
-- A fill-or-kill order: what `can_fill` promises, the sweep does.
use cpp_matching_engine.Base.{
  ℕ, zero, suc, ◌+◌, ◌<◌, ◌≤◌, ◌≡◌, refl, sym, ap, ◌∙◌, subst, ◌⊎◌, inl, inr, Bool, true, false, [],
  ◌∷◌, arith, All, Bool-cases, eq-cases, ne→==, ◌==◌, ◌||◌, add64, sub64, u64_mod,
}
use cpp_matching_engine.Types.{
  OrderId, Quantity, Price, OwnerId, Side, buy, sell, opposite, fok, no_result,
}
use cpp_matching_engine.RefBook.State.{RefOrder, Queue, Levels, RefBook, side_levels, keep_level}
use cpp_matching_engine.RefBook.Ordered.{Ordered}
use cpp_matching_engine.RefBook.{
  Sweep, smaller, beyond, self_trade, fill_front, round, match_loop, orders_in, start, do_match,
  can_fill_in, can_fill, settle, submit, limit_price,
}
use cpp_matching_engine.RefBook.Sweeps.{round-fills}
use cpp_matching_engine.RefBook.Stops.{match_loop-none, exhausted-stops, orders_in-keep_level}
use cpp_matching_engine.RefBook.Uncrossed.{Valid, side_levels-Ordered}
use cpp_matching_engine.RefBook.Quantities.{do_match-Quantities}
use cpp_matching_engine.RefBook.Promise.{lt-cases, promise-front}

-- Quantities that fit their type.
abbrev pub FitsQueue : Queue → Type 0
FitsQueue = All (λ o. o.remaining < u64_mod)

abbrev pub FitsLevels : Levels → Type 0
FitsLevels [] = Unit {0}
FitsLevels ((p, os) ∷ ls) = FitsQueue os × FitsLevels ls

keep_level-Fits :
    (p : Price) (os : Queue) (ls : Levels)
    → FitsQueue os
    → FitsLevels ls
    → FitsLevels (keep_level p os ls)
keep_level-Fits p [] ls a c = c
keep_level-Fits p (o ∷ os) ls a c = (a, c)

module _ (in_id : OrderId) (side : Side) (lim : Price) (owner : OwnerId) (has_sink : Bool)
    (qty : Quantity) where
  abbrev after : Sweep → Price → RefOrder → Queue → Levels → Sweep
  after s p x os ls = fill_front in_id side lim owner has_sink s p x os ls

  -- An order that is smaller than what remains is used up.
  used-up :
      (s : Sweep) (p : Price) (x : RefOrder) (os : Queue) (ls : Levels)
      → x.remaining < u64_mod
      → x.remaining < s.remaining
      → s.remaining < u64_mod
      → ((after s p x os ls).levels ≡ keep_level p os ls)
        × ((after s p x os ls).remaining + x.remaining ≡ s.remaining)
  unfolding fill_front
  used-up s p x os ls f h k =
      let gone : (sub64 x.remaining (smaller s.remaining x.remaining) == 0) ≡ true = ground arith in
      (rw gone refl, ground arith)

  -- A larger one fills the rest.
  filled-up :
      (s : Sweep) (p : Price) (x : RefOrder) (os : Queue) (ls : Levels)
      → s.remaining ≤ x.remaining
      → (after s p x os ls).remaining ≡ 0
  unfolding fill_front
  filled-up s p x os ls h = ground (arith, h)

  done :
      (n : ℕ) (s : Sweep)
      → s.remaining ≡ 0
      → (match_loop in_id side lim owner has_sink n s).remaining ≡ 0
  done n s z =
      ap (λ (t : Sweep). t.remaining)
        (match_loop-none in_id side lim owner has_sink n s
          (exhausted-stops in_id side lim owner has_sink s s.levels z))
      ∙ z

  keep_level-Ordered :
      (sd : Side) (p : Price) (x : RefOrder) (os : Queue) (ls : Levels)
      → Ordered sd ((p, x ∷ os) ∷ ls)
      → Ordered sd (keep_level p os ls)
  keep_level-Ordered sd p x [] ls o = o.3
  keep_level-Ordered sd p x (y ∷ os) ls o = (o.0, omega arith, o.2, o.3)

  -- The sweep fills what `can_fill` has promised.
  loop-fills :
      (sd : Side) (n : ℕ) (s : Sweep) (ls : Levels) (avail : Quantity)
      → s.levels ≡ ls
      → Ordered sd ls
      → FitsLevels ls
      → orders_in ls < n
      → s.remaining + avail ≡ qty
      → qty < u64_mod
      → can_fill_in ls side lim qty owner avail ≡ true
      → (match_loop in_id side lim owner has_sink n s).remaining ≡ 0
  unfolding match_loop can_fill_in
  loop-fills sd zero s ls avail at o f k sum small e = absurd (omega (arith, k))
  loop-fills sd (suc n) s [] avail at o f k sum small e = done (suc n) s (ground (arith, sum, e))
  loop-fills sd (suc n) s ((p, []) ∷ ls) avail at o f k sum small e = absurd (omega (arith, o.1))
  loop-fills sd (suc n) s ((p, x ∷ os) ∷ ls) avail at o f k sum small e =
      elim (eq-cases s.remaining 0) [
        | inl z ↦ done (suc n) s z
        | inr ne ↦
            let (c, d, next) =
              promise-front in_id side lim owner has_sink qty p x os ls avail
                (omega (arith, ne, sum)) e in
            let goes : (s.remaining == 0 || beyond side lim p || self_trade owner x.owner) ≡ false =
              rw (ne→== s.remaining 0 ne, c, d) refl in
            rw
              (
                ap (round in_id side lim owner has_sink s) at
                    ∙ round-fills in_id side lim owner has_sink s p x os ls goes,
                match_loop,
              )
              (elim (lt-cases x.remaining s.remaining) [
                | inl h ↦
                    let (levels, rest) = used-up s p x os ls f.0.0 h (omega (arith, sum, small)) in
                    loop-fills sd n (after s p x os ls) (keep_level p os ls)
                      (add64 avail x.remaining) levels (keep_level-Ordered sd p x os ls o)
                      (keep_level-Fits p os ls f.0.1 f.1)
                      (omega (arith, k, orders_in-keep_level p os ls))
                      (omega (arith, rest, sum, small)) small (next (omega (arith, h, sum, small)))
                | inr h ↦ done n (after s p x os ls) (filled-up s p x os ls h)
              ])
      ]

limit_price_fok : (side : Side) (p : Price) → limit_price side fok p ≡ p
unfolding limit_price
limit_price_fok buy p = refl
limit_price_fok sell p = refl

-- What `submit` returns when the sweep has filled everything.
settle_filled :
    (b : RefBook) (s : Sweep) (id : OrderId) (side : Side) (p : Price) (owner : OwnerId)
    (qty : Quantity)
    → s.remaining ≡ 0
    → s.filled + s.remaining ≡ qty
    → (settle b s id side fok p owner).1
      ≡ record { id = id; filled = qty; resting = 0; accepted = true; fully_filled = true }
unfolding settle
settle_filled b s id side p owner qty z sum = rw z (
    ap (λ n. record { id = id; filled = n; resting = 0; accepted = true; fully_filled = true })
      (omega (arith, z, sum)))

can_fill-fills :
    (b : RefBook) (id : OrderId) (side : Side) (p : Price) (qty : Quantity) (owner : OwnerId)
    → Valid b
    → FitsLevels (side_levels b (opposite side))
    → qty < u64_mod
    → can_fill b side p qty owner ≡ true
    → (do_match b id side p qty owner).remaining ≡ 0
unfolding do_match can_fill
can_fill-fills b id side p qty owner v f small c =
    loop-fills id side p owner b.has_sink qty (opposite side)
      (suc (orders_in (side_levels b (opposite side)))) (start b side qty)
      (side_levels b (opposite side)) 0 refl (side_levels-Ordered b (opposite side) v) f
      (omega arith) (omega arith) small c

-- On a valid reference book whose quantities fit their type, a fill-or-kill order for a quantity that
-- fits its type is filled completely, or refused: then nothing is filled and the book is as before.
pub submit-all_or_nothing :
    (b : RefBook) (id : OrderId) (side : Side) (p : Price) (qty : Quantity) (owner : OwnerId)
    → Valid b
    → FitsLevels (side_levels b (opposite side))
    → qty < u64_mod
    → ((submit b id side fok p qty owner).1
        ≡ record { id = id; filled = qty; resting = 0; accepted = true; fully_filled = true })
      ⊎ (submit b id side fok p qty owner ≡ (b, record no_result { id = id }))
unfolding submit
submit-all_or_nothing b id side p qty owner v f small =
    elim (Bool-cases (can_fill b side p qty owner)) [
      | inl c ↦ inl (
          rw c (
            subst
              (λ x. (settle b (do_match b id side x qty owner) id side fok p owner).1 ≡ record {
                id = id;
                filled = qty;
                resting = 0;
                accepted = true;
                fully_filled = true;
              })
              (sym (limit_price_fok side p))
              (settle_filled b (do_match b id side p qty owner) id side p owner qty
                (can_fill-fills b id side p qty owner v f small c)
                (do_match-Quantities b id side p qty owner small))))
      | inr c ↦ inr (rw c refl)
    ]
