-- ===== src/Pool/Live.antt =====
-- A slot that holds a value is in use.
use cpp_matching_engine.Base.{
  ℕ, zero, suc, ◌≤◌, ◌<◌, ◌≡◌, refl, ap, List, [], ◌∷◌, some, arith, get_elem?, set, length,
  Distinct,
}
use cpp_matching_engine.Pool.{Handle, FreeListPolicy, Node, value, next_free, Pool}
use cpp_matching_engine.Pool.Frees.{first, Links, Frees}
use cpp_matching_engine.Pool.Laws.{set-Links}

module _ {ℓ} {T : Type ℓ} where
  -- How many slots hold a link.
  abbrev link_count : List (Node T) → ℕ
  link_count [] = 0
  link_count (value v ∷ ns) = link_count ns
  link_count (next_free n ∷ ns) = suc (link_count ns)

  link_count-set :
      (ns : List (Node T)) (h n : ℕ) (v : T)
      → get_elem? ns h ≡ some (next_free n)
      → suc (link_count (set ns h (value v))) ≡ link_count ns
  link_count-set [] h n v e = cc
  link_count-set (value w ∷ ns) zero n v e = cc
  link_count-set (next_free m ∷ ns) zero n v e = refl
  link_count-set (value w ∷ ns) (suc h) n v e = link_count-set ns h n v e
  link_count-set (next_free m ∷ ns) (suc h) n v e = ap suc (link_count-set ns h n v e)

  link_count-le : (ns : List (Node T)) → link_count ns ≤ length ns
  link_count-le [] = omega arith
  link_count-le (value w ∷ ns) = omega (arith, link_count-le ns)
  link_count-le (next_free m ∷ ns) = omega (arith, link_count-le ns)

  link_count-lt :
      (ns : List (Node T)) (h : ℕ) (v : T)
      → get_elem? ns h ≡ some (value v)
      → link_count ns < length ns
  link_count-lt [] h v e = absurd (cc)
  link_count-lt (value w ∷ ns) zero v e = omega (arith, link_count-le ns)
  link_count-lt (next_free m ∷ ns) zero v e = absurd (cc)
  link_count-lt (value w ∷ ns) (suc h) v e = omega (arith, link_count-lt ns h v e)
  link_count-lt (next_free m ∷ ns) (suc h) v e = omega (arith, link_count-lt ns h v e)

  length-Links :
      (ns : List (Node T)) (v : T) (fs : List Handle)
      → Links ns fs
      → Distinct fs
      → length fs ≤ link_count ns
  length-Links ns v [] l d = omega arith
  length-Links ns v (x ∷ xs) l d = omega (
    arith,
    length-Links (set ns x (value v)) v xs (set-Links ns x (value v) xs d.0 l.2) d.1,
    link_count-set ns x (first xs) v l.1,
  )

  -- So a pool with a value in a slot counts at least one slot in use.
  pub in_use-pos :
      (policy : FreeListPolicy) (p : Pool T) (fs : List Handle) (h : Handle) (v : T)
      → Frees policy p fs
      → get_elem? p.nodes h ≡ some (value v)
      → 0 < p.in_use
  in_use-pos policy p fs h v f e =
      omega
        (arith, f.count, length-Links p.nodes v fs f.links f.distinct, link_count-lt p.nodes h v e)
