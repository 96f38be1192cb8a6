-- ===== src/RefBook/Apart.antt =====
-- The best prices of the reference book's two maps, and what keeps them apart.
use cpp_matching_engine.Base.{[], ◌∷◌}
use cpp_matching_engine.Base.Int.{pos, ◌≤ℤ◌}
use cpp_matching_engine.Types.{Price, buy, sell}
use cpp_matching_engine.RefBook.State.{RefOrder, Queue, Levels, push_back}
use cpp_matching_engine.RefBook.Ordered.{Behind, Ordered, push_back-Ordered}

-- The best bid is below the best ask, if there are both.
abbrev pub Apart : Levels → Levels → Type 0
Apart [] asks = Unit {0}
Apart ((p, os) ∷ bids) asks = Behind sell p asks

pub Apart-asks :
    (bids asks asks' : Levels)
    → ((p : Price) → Behind sell p asks → Behind sell p asks')
    → Apart bids asks
    → Apart bids asks'
Apart-asks [] asks asks' h a = tt
Apart-asks ((p, os) ∷ bids) asks asks' h a = h p a

Apart→Behind :
    (bids : Levels) (q : Price) (os : Queue) (asks : Levels)
    → Apart bids ((q, os) ∷ asks)
    → Behind buy q bids
Apart→Behind [] q os asks a = tt
Apart→Behind ((p, ps) ∷ bids) q os asks a = a

Behind→Apart :
    (bids : Levels) (q : Price) (os : Queue) (asks : Levels)
    → Behind buy q bids
    → Apart bids ((q, os) ∷ asks)
Behind→Apart [] q os asks a = tt
Behind→Apart ((p, ps) ∷ bids) q os asks a = a

Apart-nil : (bids : Levels) → Apart bids []
Apart-nil [] = tt
Apart-nil ((p, os) ∷ bids) = tt

pub Apart-bids :
    (bids bids' asks : Levels)
    → ((q : Price) → Behind buy q bids → Behind buy q bids')
    → Apart bids asks
    → Apart bids' asks
Apart-bids bids bids' [] h a = Apart-nil bids'
Apart-bids bids bids' ((q, os) ∷ asks) h a =
    Behind→Apart bids' q os asks (h q (Apart→Behind bids q os asks a))

-- A bid below the best ask keeps the maps apart.
pub Apart-push_back :
    (bids asks : Levels) (p : Price) (o : RefOrder)
    → pos 0 ≤ℤ p
    → Ordered buy bids
    → Behind sell p asks
    → Apart bids asks
    → Apart (push_back buy bids p o) asks
Apart-push_back bids [] p o pp h k a = Apart-nil (push_back buy bids p o)
Apart-push_back bids ((q, os) ∷ asks) p o pp h k a =
    Behind→Apart (push_back buy bids p o) q os asks
      ((push_back-Ordered buy bids p o pp h).1 q k (Apart→Behind bids q os asks a))

-- An ask above the best bid keeps the maps apart.
pub Apart-push_back_ask :
    (bids asks : Levels) (p : Price) (o : RefOrder)
    → pos 0 ≤ℤ p
    → Ordered sell asks
    → Behind buy p bids
    → Apart bids asks
    → Apart bids (push_back sell asks p o)
Apart-push_back_ask [] asks p o pp h k a = tt
Apart-push_back_ask ((q, os) ∷ bids) asks p o pp h k a =
    (push_back-Ordered sell asks p o pp h).1 q k a
