-- ===== src/Examples/Logs.antt =====
-- The event log of include/lob/photon_book.hpp at a concrete session.
use cpp_matching_engine.Base.{◌≡◌, refl, List, [], ◌∷◌, ◌++◌, map, none, some}
use cpp_matching_engine.Base.Int.{pos}
use cpp_matching_engine.Types.{buy, sell, limit, fok, gtc, gtd}
use cpp_matching_engine.Pool
use cpp_matching_engine.FlatMap
use cpp_matching_engine.Photon.State.{
  BookUpdate, PhotonBook, ack, fill, canceled, rejected, replaced, expired, init,
}
use cpp_matching_engine.Photon.Events.{Sends}
use cpp_matching_engine.Photon.Log.{
  Call, submit_order, cancel_order, modify_order, expire_until, photon_run, photon_run-Sends,
}

abbrev Log : Type 0
Log = List BookUpdate

abbrev keep : Log → BookUpdate → Log
keep us u = us ++ u ∷ []

abbrev session : List Call
session =
    submit_order 1 sell limit (pos 3) 5 0 gtd 90
    ∷ submit_order 2 buy limit (pos 3) 2 0 gtc 0
    ∷ modify_order 1 (pos 3) 1
    ∷ expire_until 95
    ∷ submit_order 3 buy fok (pos 3) 2 0 gtc 0
    ∷ submit_order 4 buy limit (pos 1) 2 0 gtc 0
    ∷ cancel_order 4
    ∷ []

start : PhotonBook Log
unfolding init
start = init 4 2 []

after : PhotonBook Log
unfolding photon_run
after = elim (photon_run keep session start) [ none ↦ start | some b ↦ b ]

returned : photon_run keep session start ≡ some after
unfolding photon_run after start Pool.allocate Pool.init FlatMap.insert FlatMap.init Pool.get
    Pool.put FlatMap.find FlatMap.erase Pool.deallocate
returned = refl

every_kind :
    (map (λ (u : BookUpdate). u.type) after.sink
      ≡ ack ∷ fill ∷ replaced ∷ expired ∷ rejected ∷ ack ∷ canceled ∷ [])
    × (map (λ (u : BookUpdate). u.seq) after.sink ≡ 0 ∷ 1 ∷ 2 ∷ 3 ∷ 4 ∷ 5 ∷ 6 ∷ [])
unfolding photon_run after start Pool.allocate Pool.init FlatMap.insert FlatMap.init Pool.get
    Pool.put FlatMap.find FlatMap.erase Pool.deallocate
every_kind = (refl, refl)

photon_run-Sends_example : Sends keep start after
photon_run-Sends_example = photon_run-Sends keep session start after returned
