-- ===== src/Replay/Generator.antt =====
-- benchmarks/replay_main.cpp: the generator of synthetic events. The random engine and the uniform
-- distribution are arguments: `draw` gives a 64-bit number and `draw_real` a number between 0 and 1,
-- which `below r n` compares with n / 100.
use cpp_matching_engine.Base.{
  ℕ, zero, suc, ◌+◌, ◌-◌, ◌%◌, ◌^◌, Bool, true, false, List, [], ◌∷◌, ◌++◌, ◌||◌, ◌==◌, ltb,
  if◌then◌else◌, length, get_or,
}
use cpp_matching_engine.Base.Int.{pos}
use cpp_matching_engine.Types.{Price}

pub data SynEventType : Type 0 where
  add cancel modify : SynEventType

pub record SynEvent : Type 0 where
  pub type : SynEventType
  pub side : ℕ
  pub order_id : ℕ
  pub price : Price
  pub quantity : ℕ

abbrev pub mid : ℕ
mid = 5000

-- `std::clamp(p, 1, kSynTicks - 2)`, on prices above and below `mid`.
unfoldable pub clamp : ℕ → ℕ
clamp p = if ltb p 1 then 1 else (if ltb 9998 p then 9998 else p)

-- `live.back()`, and the vector without it.
abbrev pub back : List ℕ → ℕ
back [] = 0
back (x ∷ []) = x
back (x ∷ y ∷ ys) = back (y ∷ ys)

abbrev pub pop_back : List ℕ → List ℕ
pop_back [] = []
pop_back (x ∷ []) = []
pop_back (x ∷ y ∷ ys) = x ∷ pop_back (y ∷ ys)

-- `*find(live.begin(), live.end(), id) = v`; without such an entry nothing is written.
unfoldable pub overwrite : ℕ → ℕ → List ℕ → List ℕ
overwrite id v [] = []
overwrite id v (x ∷ xs) = let rest = overwrite id v xs in if x == id then v ∷ xs else x ∷ rest

unfoldable pub contains : ℕ → List ℕ → Bool
contains id [] = false
contains id (x ∷ xs) = let rest = contains id xs in if x == id then true else rest

unfoldable pub remove_live : ℕ → List ℕ → List ℕ
unfolding overwrite contains
remove_live id live = if contains id live then pop_back (overwrite id (back live) live) else live

module _ {Rng Real : Type 0} (draw : Rng → ℕ × Rng) (draw_real : Rng → Real × Rng)
    (below : Real → ℕ → Bool) where
  pub record Generator : Type 0 where
    pub rng : Rng
    pub live : List ℕ
    pub next_id : ℕ

  unfoldable pub init : Rng → Generator
  init seeded = record { rng = seeded; live = []; next_id = 1 }

  -- `mid - 1 - rng() % 60` and `mid + 1 + rng() % 60`
  unfoldable pub rand_bid : Rng → ℕ × Rng
  rand_bid r = let (n, r1) = draw r in (mid - 1 - n % 60, r1)

  unfoldable pub rand_ask : Rng → ℕ × Rng
  rand_ask r = let (n, r1) = draw r in (mid + 1 + n % 60, r1)

  -- 0 where no id is live.
  unfoldable pub pick_live : Generator → ℕ × Rng
  pick_live g =
      let (n, r1) = draw g.rng in
      if length g.live == 0 then (0, g.rng) else (get_or g.live (n % length g.live) 0, r1)

  -- `(rng() & 1) ? 0 : 1`
  abbrev pub rand_side : Rng → ℕ × Rng
  rand_side r = let (n, r1) = draw r in (if n % 2 == 1 then 0 else 1, r1)

  abbrev pub rand_price : ℕ → Rng → ℕ × Rng
  rand_price s r = if s == 0 then rand_bid r else rand_ask r

  unfoldable pub make_passive : Generator → SynEvent × Generator
  unfolding rand_bid rand_ask clamp
  make_passive g =
      let (s, r1) = rand_side g.rng in
      let (p, r2) = rand_price s r1 in
      let (n, r3) = draw r2 in
      (
        record {
          type = SynEventType.add;
          side = s;
          order_id = g.next_id;
          price = pos (clamp p);
          quantity = 1 + n % 20;
        },
        record { rng = r3; live = g.live ++ g.next_id ∷ []; next_id = (g.next_id + 1) % 2 ^ 32 },
      )

  unfoldable pub make_aggressive : Generator → SynEvent × Generator
  unfolding clamp
  make_aggressive g =
      let (s, r1) = rand_side g.rng in
      let (k, r2) = draw r1 in
      let (n, r3) = draw r2 in
      (
        record {
          type = SynEventType.add;
          side = s;
          order_id = g.next_id;
          price = pos (clamp (if s == 0 then mid + 50 + k % 30 else mid - 50 - k % 30));
          quantity = 1 + n % 5;
        },
        record { rng = r3; live = g.live; next_id = (g.next_id + 1) % 2 ^ 32 },
      )

  unfoldable pub make_cancel : Generator → SynEvent × Generator
  unfolding pick_live make_passive remove_live
  make_cancel g =
      let (id, r1) = pick_live g in
      if id == 0 then make_passive (record g { rng = r1 }) else (
        record { type = SynEventType.cancel; side = 0; order_id = id; price = pos 0; quantity = 0 },
        record g { rng = r1; live = remove_live id g.live },
      )

  unfoldable pub make_modify : Generator → SynEvent × Generator
  unfolding pick_live make_passive rand_bid rand_ask clamp
  make_modify g =
      let (id, r1) = pick_live g in
      let (s, r2) = rand_side r1 in
      let (p, r3) = rand_price s r2 in
      let (n, r4) = draw r3 in
      if id == 0 then make_passive (record g { rng = r1 }) else (
        record {
          type = SynEventType.modify;
          side = s;
          order_id = id;
          price = pos (clamp p);
          quantity = 1 + n % 20;
        },
        record g { rng = r4 },
      )

  -- The mixtures: the limits for passive, aggressive and cancel events, in hundredths, and the number of
  -- live ids below which an event is passive in any case.
  unfoldable pub choose : ℕ → ℕ → ℕ → ℕ → Generator → SynEvent × Generator
  unfolding make_passive make_aggressive make_cancel make_modify
  choose passive few aggressive cancels g =
      let (r, rng1) = draw_real g.rng in
      let g1 : Generator = record g { rng = rng1 } in
      if below r passive || ltb (length g.live) few
      then make_passive g1
      else (if below r aggressive
          then make_aggressive g1
          else (if below r cancels then make_cancel g1 else make_modify g1))

  unfoldable pub gen_steady : ℕ → Generator → List SynEvent
  unfolding choose
  gen_steady zero g = []
  gen_steady (suc n) g = let (e, g1) = choose 30 100 50 85 g in e ∷ gen_steady n g1

  -- `i` counts the events up; the last hundred of every 5000 are a burst.
  unfoldable pub gen_sweep : ℕ → ℕ → Generator → List SynEvent
  unfolding choose make_aggressive
  gen_sweep zero i g = []
  gen_sweep (suc n) i g =
      let (r, rng1) = draw_real g.rng in
      let (e, g1) =
        if ltb 4900 (i % 5000)
        then make_aggressive (record g { rng = rng1 })
        else choose 35 100 50 85 g in
      e ∷ gen_sweep n (i + 1) g1

  unfoldable pub gen_stress : ℕ → Generator → List SynEvent
  unfolding choose
  gen_stress zero g = []
  gen_stress (suc n) g = let (e, g1) = choose 20 50 25 90 g in e ∷ gen_stress n g1
