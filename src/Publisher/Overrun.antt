-- ===== src/Publisher/Overrun.antt =====
-- Back-pressure: what becomes of the trades when the outbound queue is full.
use cpp_matching_engine.Base.{
  ℕ, suc, ◌+◌, ◌≤◌, ◌<◌, ◌≡◌, refl, sym, ap, subst, ◌∙◌, inl, inr, true, false, List, [], ◌∷◌, ◌++◌,
  arith, length, length-append, take, map, append_assoc, append-nil, add64, u64_mod,
}
use cpp_matching_engine.Types.{Trade}
use cpp_matching_engine.Spsc.{Ring, try_push}
use cpp_matching_engine.Spsc.Refine.{Contains, try_push_lem}
use cpp_matching_engine.Publisher.{OutMsg, message, Edge, trade_sink}

module _ (c : ℕ) (side : ℕ) where
  -- The sink gets these trades, one after the other.
  unfoldable pub sink_all : Edge → List Trade → Edge
  sink_all edge [] = edge
  sink_all edge (t ∷ ts) = sink_all (trade_sink c side edge t) ts

  trade_sink-full :
      (q : Ring OutMsg) (n : ℕ) (t : Trade)
      → try_push c q (message side t) ≡ (q, false)
      → trade_sink c side (q, n) t ≡ (q, add64 n 1)
  unfolding trade_sink
  trade_sink-full q n t e = rw (e, trade_sink)

  trade_sink-room :
      (q : Ring OutMsg) (n : ℕ) (t : Trade)
      → (try_push c q (message side t)).1 ≡ true
      → trade_sink c side (q, n) t ≡ ((try_push c q (message side t)).0, n)
  unfolding trade_sink
  trade_sink-room q n t e = rw (e, trade_sink)

  -- A full queue stays as it is, and every trade is counted as an overrun.
  sink_all-full :
      (q : Ring OutMsg) (xs : List OutMsg) (n : ℕ) (ts : List Trade)
      → Contains c q xs
      → length xs + 1 ≡ c
      → n + length ts < u64_mod
      → sink_all (q, n) ts ≡ (q, n + length ts)
  unfolding sink_all
  sink_all-full q xs n [] k full h = ap (λ m. (q, m)) (omega arith)
  sink_all-full q xs n (t ∷ ts) k full h = elim (try_push_lem c q xs (message side t) k) [
    | inl (e, same) ↦
        ap (λ edge. sink_all edge ts) (trade_sink-full q n t same)
        ∙ sink_all-full q xs (add64 n 1) ts k full (omega (arith, h))
        ∙ ap (λ m. (q, m)) (omega (arith, h))
    | inr (room, got, k') ↦ absurd (omega (arith, room, full))
  ]

  -- If the queue holds the messages `xs` and the overrun counter has room, then after the trades `ts` the
  -- queue keeps the messages of the first trades, as many as fit behind what it holds, and each
  -- of the other trades is counted once; a trade is only dropped when the queue is full.
  pub sink_all_lem :
      (q : Ring OutMsg) (xs : List OutMsg) (n : ℕ) (ts : List Trade)
      → Contains c q xs
      → n + length ts < u64_mod
      → (k : ℕ) × (k ≤ length ts)
        × Contains c (sink_all (q, n) ts).0 (xs ++ map (message side) (take k ts))
        × ((sink_all (q, n) ts).1 + k ≡ n + length ts)
        × (k < length ts → length xs + k + 1 ≡ c)
  unfolding sink_all
  sink_all_lem q xs n [] h b = (
    0,
    omega arith,
    subst (Contains c q) (sym (append-nil xs)) h,
    refl,
    λ l. absurd (omega (arith, l)),
  )
  sink_all_lem q xs n (t ∷ ts) h b = elim (try_push_lem c q xs (message side t) h) [
    | inl (full, same) ↦
        let e = sink_all-full q xs n (t ∷ ts) h full b in
        (
          0,
          omega arith,
          subst (λ edge. Contains c edge.0 (xs ++ [])) (sym e)
              (subst (Contains c q) (sym (append-nil xs)) h),
          omega (arith, ap (λ (edge : Edge). edge.1) e),
          λ l. omega (arith, full),
        )
    | inr (room, got, h') ↦
        let e = ap (λ edge. sink_all edge ts) (trade_sink-room q n t got) in
        let (k, le, holds, sum, when_full) =
          sink_all_lem (try_push c q (message side t)).0 (xs ++ message side t ∷ []) n ts h'
            (omega (arith, b)) in
        (
          suc k,
          omega (arith, le),
          subst (λ edge. Contains c edge.0 (xs ++ map (message side) (take (suc k) (t ∷ ts))))
              (sym e)
              (subst (Contains c _)
                (append_assoc xs (message side t ∷ []) (map (message side) (take k ts))) holds),
          omega (arith, sum, ap (λ (edge : Edge). edge.1) e),
          λ l. omega (arith, when_full (omega (arith, l)), length-append xs (message side t ∷ [])),
        )
  ]
