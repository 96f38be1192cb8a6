-- ===== src/RefBook/Uncrossed.antt =====
-- The reference book keeps its maps in order and never crosses.
use cpp_matching_engine.Base.{
  ◌≡◌, inl, inr, false, not, [], ◌∷◌, arith, Bool-cases, Option-cases, ◌==◌, ◌&&◌, ltb, leb,
}
use cpp_matching_engine.Base.Dict
use cpp_matching_engine.Base.Int.{pos, ◌≤ℤ◌, leb_ℤ, eqb_ℤ}
use cpp_matching_engine.Types.{
  OrderId, Quantity, Price, OwnerId, Side, buy, sell, OrderType, limit, is_limit, is_fok,
}
use cpp_matching_engine.RefBook.State.{
  RefOrder, Info, Levels, RefBook, init, erase_at, set_remaining_at, side_levels, with_levels,
  first_price, best_bid, best_ask, remaining_of, queue_at,
}
use cpp_matching_engine.RefBook.Ordered.{
  Behind, Ordered, Leaves, erase_at-Leaves, set_remaining_at-Leaves, push_back-Ordered,
}
use cpp_matching_engine.RefBook.{
  Sweep, finish, do_match, can_fill, limit_price, would_cross, rest, settle, submit, remove, cancel,
  modify,
}
use cpp_matching_engine.RefBook.Apart.{
  Apart, Apart-asks, Apart-bids, Apart-push_back, Apart-push_back_ask,
}
use cpp_matching_engine.RefBook.Sweeps.{do_match-Leaves}

-- Both maps are in order, without empty levels, and the book does not cross.
pub record Valid (b : RefBook) : Type 0 where
  pub bids : Ordered buy b.bids
  pub asks : Ordered sell b.asks
  pub apart : Apart b.bids b.asks

pub finish-Valid :
    (b : RefBook) (id : OrderId) (side : Side) (lim : Price) (qty : Quantity) (owner : OwnerId)
    → Valid b
    → Valid (finish b side (do_match b id side lim qty owner))
finish-Valid b id buy lim qty owner v =
    let (ord, behind) = do_match-Leaves b sell id buy lim qty owner v.asks in
    record {
      bids = v.bids;
      asks = ord;
      apart = Apart-asks b.bids b.asks (do_match b id buy lim qty owner).levels behind v.apart;
    }
finish-Valid b id sell lim qty owner v =
    let (ord, behind) = do_match-Leaves b buy id sell lim qty owner v.bids in
    record {
      bids = ord;
      asks = v.asks;
      apart = Apart-bids b.bids (do_match b id sell lim qty owner).levels b.asks behind v.apart;
    }

below-ask :
    (asks : Levels) (p : Price)
    → Ordered sell asks
    → (leb_ℤ (pos 0) (first_price asks) && leb_ℤ (first_price asks) p) ≡ false
    → Behind sell p asks
below-ask [] p h e = tt
below-ask ((q, os) ∷ asks) p h e = ground (arith, e, h.0)

above-bid :
    (bids : Levels) (p : Price)
    → Ordered buy bids
    → (leb_ℤ (pos 0) (first_price bids) && leb_ℤ p (first_price bids)) ≡ false
    → Behind buy p bids
above-bid [] p h e = tt
above-bid ((q, os) ∷ bids) p h e = ground (arith, e, h.0)

pub rest-Valid :
    (b : RefBook) (id : OrderId) (side : Side) (p : Price) (qty : Quantity) (owner : OwnerId)
    → Valid b
    → pos 0 ≤ℤ p
    → would_cross b side p ≡ false
    → Valid (rest b id side p qty owner)
unfolding rest would_cross best_bid best_ask
rest-Valid b id buy p qty owner v pp e =
    let o : RefOrder = record { id = id; side = buy; price = p; remaining = qty; owner = owner } in
    record {
      bids = (push_back-Ordered buy b.bids p o pp v.bids).0;
      asks = v.asks;
      apart = Apart-push_back b.bids b.asks p o pp v.bids (below-ask b.asks p v.asks e) v.apart;
    }
rest-Valid b id sell p qty owner v pp e =
    let o : RefOrder = record { id = id; side = sell; price = p; remaining = qty; owner = owner } in
    record {
      bids = v.bids;
      asks = (push_back-Ordered sell b.asks p o pp v.asks).0;
      apart = Apart-push_back_ask b.bids b.asks p o pp v.asks (above-bid b.bids p v.bids e) v.apart;
    }

pub settle-Valid :
    (b : RefBook) (s : Sweep) (id : OrderId) (side : Side) (type : OrderType) (p : Price)
    (owner : OwnerId)
    → pos 0 ≤ℤ p
    → Valid (finish b side s)
    → Valid (settle b s id side type p owner).0
unfolding settle
settle-Valid b s id side type p owner pp v =
    elim (Bool-cases
      (ltb 0 s.remaining && is_limit type && not (would_cross (finish b side s) side p))) [
        | inl e ↦
            rw e (rest-Valid (finish b side s) id side p s.remaining owner v pp (ground (arith, e)))
        | inr e ↦ rw e v
      ]

-- On a valid book, `submit` of an order of any type at a price that is not negative gives a valid
-- book: its maps are in order without empty levels, and the best bid is below the best ask.
pub submit-Valid :
    (b : RefBook) (id : OrderId) (side : Side) (type : OrderType) (p : Price) (qty : Quantity)
    (owner : OwnerId)
    → Valid b
    → pos 0 ≤ℤ p
    → Valid (submit b id side type p qty owner).0
unfolding submit
submit-Valid b id side type p qty owner v pp =
    elim (Bool-cases (is_fok type && not (can_fill b side p qty owner))) [
      | inl e ↦ rw e v
      | inr e ↦ rw e (
          settle-Valid b (do_match b id side (limit_price side type p) qty owner) id side type p
            owner pp (finish-Valid b id side (limit_price side type p) qty owner v))
    ]

-- One map may be replaced by what is left of it.
pub with_levels-Valid :
    (b : RefBook) (sd : Side) (ls : Levels)
    → Valid b
    → Leaves sd (side_levels b sd) ls
    → Valid (with_levels b sd ls)
with_levels-Valid b buy ls v (ord, behind) = record {
  bids = ord;
  asks = v.asks;
  apart = Apart-bids b.bids ls b.asks behind v.apart;
}
with_levels-Valid b sell ls v (ord, behind) = record {
  bids = v.bids;
  asks = ord;
  apart = Apart-asks b.bids b.asks ls behind v.apart;
}

pub side_levels-Ordered : (b : RefBook) (sd : Side) → Valid b → Ordered sd (side_levels b sd)
side_levels-Ordered b buy v = v.bids
side_levels-Ordered b sell v = v.asks

pub remove-Valid : (b : RefBook) (id : OrderId) (info : Info) → Valid b → Valid (remove b id info)
remove-Valid b id info v =
    let ls = side_levels b info.side in
    let w =
      with_levels-Valid b info.side (erase_at ls info.price id) v
        (erase_at-Leaves info.side ls info.price id (side_levels-Ordered b info.side v)) in
    record { bids = w.bids; asks = w.asks; apart = w.apart }

-- On a valid book, `cancel` gives a valid book.
pub cancel-Valid : (b : RefBook) (id : OrderId) → Valid b → Valid (cancel b id).0
unfolding cancel
cancel-Valid b id v = elim (Option-cases (Dict.find id b.id_index)) [
  | inl e ↦ rw (e, cancel) v
  | inr (info, e) ↦ rw (e, cancel) (remove-Valid b id info v)
]

-- On a valid book, `modify` to a price that is not negative gives a valid book.
pub modify-Valid :
    (b : RefBook) (id : OrderId) (new_price : Price) (new_qty : Quantity)
    → Valid b
    → pos 0 ≤ℤ new_price
    → Valid (modify b id new_price new_qty).0
unfolding modify
modify-Valid b id new_price new_qty v pp = elim (Option-cases (Dict.find id b.id_index)) [
  | inl e ↦ rw (e, modify) v
  | inr (info, e) ↦
      rw (e, modify)
        (elim (Bool-cases (new_qty == 0)) [
          | inl z ↦ rw z (remove-Valid b id info v)
          | inr z ↦
              elim (Bool-cases (
                eqb_ℤ new_price info.price
                && leb new_qty (remaining_of id (queue_at (side_levels b info.side) info.price)))) [
                  | inl f ↦
                      rw (z, f)
                        (with_levels-Valid b info.side
                          (set_remaining_at (side_levels b info.side) info.price id new_qty) v
                          (set_remaining_at-Leaves info.side (side_levels b info.side) info.price id
                            new_qty (side_levels-Ordered b info.side v)))
                  | inr f ↦
                      rw (z, f)
                        (submit-Valid (remove b id info) id info.side limit new_price new_qty
                          info.owner (remove-Valid b id info v) pp)
                ]
        ])
]

pub init-Valid : Valid init
unfolding init
init-Valid = record { bids = tt; asks = tt; apart = tt }
