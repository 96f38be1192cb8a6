-- ===== src/OrderBook/Cells.antt =====
-- The linked list of a price level in the pool's nodes: the cells of a segment are the handles of
-- its slots with the order that each holds.
use cpp_matching_engine.Base.{
  ◌≡◌, refl, sym, ap, ◌∙◌, ◌≢◌, List, [], ◌∷◌, ◌++◌, some, get_elem?, set, get_elem?-set_self,
  get_elem?-set_ne, get_elem?-lt, NotIn, Distinct,
}
use cpp_matching_engine.Types.{Quantity}
use cpp_matching_engine.Pool.{Handle, Node, value, value_of}
use cpp_matching_engine.OrderBook.State.{Order, blank_order}
use cpp_matching_engine.RefBook.State.{RefOrder}

abbrev pub Cell : Type 0
Cell = Handle × RefOrder

abbrev pub Nodes : Type 0
Nodes = List (Node Order)

abbrev pub handles : List Cell → List Handle
handles [] = []
handles ((h, e) ∷ cs) = h ∷ handles cs

-- The record in the slot of an order with those neighbours.
abbrev pub node_of : Handle → Handle → RefOrder → Order
node_of prev next e = record {
  remaining = e.remaining;
  prev = prev;
  next = next;
  id = e.id;
  price = e.price;
  side = e.side;
  owner = e.owner;
}

abbrev pub first_or : List Cell → Handle → Handle
first_or [] d = d
first_or ((h, e) ∷ cs) d = h

abbrev pub last_or : Handle → List Cell → Handle
last_or d [] = d
last_or d ((h, e) ∷ cs) = last_or h cs

-- The cells are linked in both directions, between the handles `prev` and `next`.
abbrev pub Seg : Nodes → Handle → List Cell → Handle → Type 0
Seg ns prev [] next = Unit {0}
Seg ns prev ((h, e) ∷ cs) next =
    (get_elem? ns h ≡ some (value (node_of prev (first_or cs next) e))) × Seg ns h cs next

abbrev pub read : Nodes → Handle → Order
read ns h = value_of blank_order (get_elem? ns h)

abbrev pub write : Nodes → Handle → Order → Nodes
write ns h o = set ns h (value o)

pub handles-append : (xs ys : List Cell) → handles (xs ++ ys) ≡ handles xs ++ handles ys
handles-append [] ys = refl
handles-append ((h, e) ∷ xs) ys = ap (λ l. h ∷ l) (handles-append xs ys)

pub first_or-append :
    (xs ys : List Cell) (d : Handle) → first_or (xs ++ ys) d ≡ first_or xs (first_or ys d)
first_or-append [] ys d = refl
first_or-append ((h, e) ∷ xs) ys d = refl

pub last_or-append :
    (d : Handle) (xs ys : List Cell) → last_or d (xs ++ ys) ≡ last_or (last_or d xs) ys
last_or-append d [] ys = refl
last_or-append d ((h, e) ∷ xs) ys = last_or-append h xs ys

pub Seg-front :
    (ns : Nodes) (a d : Handle) (xs ys : List Cell)
    → Seg ns a (xs ++ ys) d
    → Seg ns a xs (first_or ys d)
Seg-front ns a d [] ys s = tt
Seg-front ns a d ((h, e) ∷ xs) ys s = (
  s.0 ∙ ap (λ n. some (value (node_of a n e))) (first_or-append xs ys d),
  Seg-front ns h d xs ys s.1,
)

pub Seg-back :
    (ns : Nodes) (a d : Handle) (xs ys : List Cell)
    → Seg ns a (xs ++ ys) d
    → Seg ns (last_or a xs) ys d
Seg-back ns a d [] ys s = s
Seg-back ns a d ((h, e) ∷ xs) ys s = Seg-back ns h d xs ys s.1

pub Seg-join :
    (ns : Nodes) (a d : Handle) (xs ys : List Cell)
    → Seg ns a xs (first_or ys d)
    → Seg ns (last_or a xs) ys d
    → Seg ns a (xs ++ ys) d
Seg-join ns a d [] ys s t = t
Seg-join ns a d ((h, e) ∷ xs) ys s t = (
  s.0 ∙ ap (λ n. some (value (node_of a n e))) (sym (first_or-append xs ys d)),
  Seg-join ns h d xs ys s.1 t,
)

-- A write to another slot leaves a segment as it is.
pub Seg-frame :
    (ns : Nodes) (a d x : Handle) (v : Node Order) (cs : List Cell)
    → NotIn x (handles cs)
    → Seg ns a cs d
    → Seg (set ns x v) a cs d
Seg-frame ns a d x v [] n s = tt
Seg-frame ns a d x v ((h, e) ∷ cs) n s =
    (get_elem?-set_ne ns x h v n.0 ∙ s.0, Seg-frame ns h d x v cs n.1 s.1)

-- Writing `next` of the last cell.
pub Seg-set_next :
    (ns : Nodes) (a d d' h : Handle) (e : RefOrder) (cs : List Cell)
    → Distinct (h ∷ handles cs)
    → Seg ns a ((h, e) ∷ cs) d
    → let l = last_or h cs in Seg (write ns l (record (read ns l) { next = d' })) a ((h, e) ∷ cs) d'
Seg-set_next ns a d d' h e [] n s =
    rw (ap (value_of blank_order) s.0)
      (get_elem?-set_self ns h (value (node_of a d' e)) (get_elem?-lt ns h _ s.0), tt)
Seg-set_next ns a d d' h e ((k, f) ∷ cs) n s = (
  get_elem?-set_ne ns (last_or k cs) h _ (λ q. last_or-ne h k f cs n.0 (sym q)) ∙ s.0,
  Seg-set_next ns h d d' k f cs n.1 s.1,
)
  where
    last_or-ne :
        (x k : Handle) (f : RefOrder) (cs : List Cell) → NotIn x (k ∷ handles cs) → x ≢ last_or k cs
    last_or-ne x k f [] n = n.0
    last_or-ne x k f ((j, g) ∷ cs) n = last_or-ne x j g cs n.1

-- Writing `prev` of the first cell.
pub Seg-set_prev :
    (ns : Nodes) (a a' d h : Handle) (e : RefOrder) (cs : List Cell)
    → NotIn h (handles cs)
    → Seg ns a ((h, e) ∷ cs) d
    → Seg (write ns h (record (read ns h) { prev = a' })) a' ((h, e) ∷ cs) d
Seg-set_prev ns a a' d h e cs n s = rw (ap (value_of blank_order) s.0) (
  get_elem?-set_self ns h (value (node_of a' (first_or cs d) e)) (get_elem?-lt ns h _ s.0),
  Seg-frame ns h d h _ cs n s.1,
)

-- Writing `remaining` of the first cell.
pub Seg-set_remaining :
    (ns : Nodes) (a d h : Handle) (e : RefOrder) (cs : List Cell) (n : Quantity)
    → NotIn h (handles cs)
    → Seg ns a ((h, e) ∷ cs) d
    → Seg
        (write ns h (record (read ns h) { remaining = n }))
        a
        ((h, record e { remaining = n }) ∷ cs)
        d
Seg-set_remaining ns a d h e cs n out s = rw (ap (value_of blank_order) s.0) (
  get_elem?-set_self ns h (value (node_of a (first_or cs d) (record e { remaining = n })))
      (get_elem?-lt ns h _ s.0),
  Seg-frame ns h d h _ cs out s.1,
)

-- The order that a handle in a segment reads.
pub read-Seg :
    (ns : Nodes) (a d h : Handle) (e : RefOrder) (cs : List Cell)
    → Seg ns a ((h, e) ∷ cs) d
    → read ns h ≡ node_of a (first_or cs d) e
read-Seg ns a d h e cs s = ap (value_of blank_order) s.0
