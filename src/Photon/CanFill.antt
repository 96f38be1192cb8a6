-- ===== src/Photon/CanFill.antt =====
-- include/lob/photon_book.hpp: `can_fill`.
use cpp_matching_engine.Base.{
  ℕ, zero, suc, ◌+◌, ◌-◌, Bool, true, false, not, ◌&&◌, ◌||◌, ◌==◌, leb, if◌then◌else◌, Option,
  none, some, add64, length,
}
use cpp_matching_engine.Base.Int.{pos, negsuc, ltb_ℤ, leb_ℤ}
use cpp_matching_engine.Types.{Quantity, Price, OwnerId, Side, buy, sell}
use cpp_matching_engine.Pool
use cpp_matching_engine.Pool.{Handle, null_handle}
use cpp_matching_engine.OrderBook.{Count}
use cpp_matching_engine.Photon.State.{PhotonBook, level_at, order_at}

module _ {ℓ} {S : Type ℓ} where
  -- The walk over a level's orders, up to the first one of the same owner. A level has at most as
  -- many orders as the pool has slots.
  unfoldable pub count_orders : PhotonBook S → OwnerId → ℕ → Handle → Quantity → Count
  count_orders b owner zero h available = (true, available)
  count_orders b owner (suc n) h available =
      let o = order_at b h in
      let rest = count_orders b owner n o.next (add64 available o.remaining) in
      if h == null_handle
      then (true, available)
      else (if o.owner == owner then (false, available) else rest)

  unfoldable pub count_level : PhotonBook S → OwnerId → Price → Quantity → Count
  unfolding count_orders
  count_level b owner p available =
      if owner == 0
      then (true, add64 available (level_at b p).total)
      else count_orders b owner (Pool.capacity b.pool) (level_at b p).head available

  -- One round of either loop: `some` where `can_fill` knows its answer.
  abbrev pub count_round : PhotonBook S → OwnerId → Quantity → ℕ → Quantity → Option Bool × Quantity
  count_round b owner qty p available =
      let (go_on, counted) = count_level b owner (pos p) available in
      (if go_on && not (leb qty counted) then none else some (leb qty counted), counted)

  -- `for (p = best_ask_; p < cap && p <= limit_price; ++p)`, with `n` levels left below `cap`.
  unfoldable pub can_fill_up : PhotonBook S → OwnerId → Quantity → Price → ℕ → ℕ → Quantity → Bool
  unfolding count_level
  can_fill_up b owner qty lim zero p available = leb qty available
  can_fill_up b owner qty lim (suc n) p available =
      let (answer, counted) = count_round b owner qty p available in
      let rest = can_fill_up b owner qty lim n (p + 1) counted in
      if leb_ℤ (pos p) lim then elim answer [ some a ↦ a | none ↦ rest ] else leb qty available

  -- `for (p = best_bid_; p >= 0 && p >= limit_price; --p)`
  unfoldable pub can_fill_down : PhotonBook S → OwnerId → Quantity → Price → ℕ → Quantity → Bool
  unfolding count_level
  can_fill_down b owner qty lim zero available =
      let (answer, counted) = count_round b owner qty 0 available in
      if leb_ℤ lim (pos 0)
      then elim answer [ some a ↦ a | none ↦ leb qty counted ]
      else leb qty available
  can_fill_down b owner qty lim (suc p) available =
      let (answer, counted) = count_round b owner qty (suc p) available in
      let rest = can_fill_down b owner qty lim p counted in
      if leb_ℤ lim (pos (suc p))
      then elim answer [ some a ↦ a | none ↦ rest ]
      else leb qty available

  unfoldable pub can_fill : PhotonBook S → Side → Price → Quantity → OwnerId → Bool
  unfolding can_fill_up can_fill_down
  can_fill b buy lim qty owner =
      if ltb_ℤ b.best_ask (pos 0) || ltb_ℤ lim b.best_ask then false else elim b.best_ask [
        | pos p ↦ can_fill_up b owner qty lim (length b.levels - p) p 0
        | negsuc n ↦ false
      ]
  can_fill b sell lim qty owner =
      if ltb_ℤ b.best_bid (pos 0) || ltb_ℤ b.best_bid lim
      then false
      else elim b.best_bid [ pos p ↦ can_fill_down b owner qty lim p 0 | negsuc n ↦ false ]
