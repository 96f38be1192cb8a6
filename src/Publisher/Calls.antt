-- ===== src/Publisher/Calls.antt =====
-- The callbacks that a sequence of messages goes to.
use cpp_matching_engine.Base.{
  ◌<◌, ◌≡◌, refl, sym, ◌∙◌, true, List, [], ◌∷◌, arith, length, Bool, false, ◌++◌, ◌+◌, ◌%◌, ap,
  inl, inr, Bool-cases, append_assoc, append-nil, u64_mod, if◌then◌else◌,
}
use cpp_matching_engine.Publisher.{
  OutMsg, OutMsgType, trade, exec_report, call_if, add_trade, add_exec, Publisher, handle,
}

abbrev same_type : OutMsgType → OutMsgType → Bool
same_type trade trade = true
same_type exec_report exec_report = true
same_type trade exec_report = false
same_type exec_report trade = false

-- The messages of one type among these, in their order.
unfoldable pub of_type : OutMsgType → List OutMsg → List OutMsg
of_type t [] = []
of_type t (m ∷ ms) = let rest = of_type t ms in if same_type m.type t then m ∷ rest else rest

-- What a callback of that type has been given after `sent`, if it is there.
abbrev pub given : OutMsgType → Bool → List OutMsg → List OutMsg → List OutMsg
given t there calls sent = if there then calls ++ of_type t sent else calls

-- What the callbacks have been given, and what has been counted, between `p` and `p'`.
pub record Calls (p p' : Publisher) (sent : List OutMsg) : Type 0 where
  pub trades : p'.trade_calls ≡ given trade p.on_trade p.trade_calls sent
  pub execs : p'.exec_calls ≡ given exec_report p.on_exec p.exec_calls sent
  pub counted : p'.processed ≡ (p.processed + length sent) % u64_mod
  pub running : p'.running ≡ p.running

-- `handle` run on each of these messages, in their order.
unfoldable pub handle_all : Publisher → List OutMsg → Publisher
handle_all p [] = p
handle_all p (m ∷ ms) = handle_all (handle p m) ms

-- Giving a message to a callback and then the rest is giving them all.
given-cons :
    (t : OutMsgType) (there : Bool) (calls : List OutMsg) (m : OutMsg) (ms : List OutMsg)
    → given t there (if same_type m.type t then call_if there calls m else calls) ms
      ≡ given t there calls (m ∷ ms)
unfolding of_type
given-cons t false calls m ms = elim (Bool-cases (same_type m.type t)) [
  | inl e ↦ rw e refl
  | inr e ↦ rw e refl
]
given-cons t true calls m ms = elim (Bool-cases (same_type m.type t)) [
  | inl e ↦ rw e (append_assoc calls (m ∷ []) (of_type t ms))
  | inr e ↦ rw e refl
]

given-nil : (t : OutMsgType) (there : Bool) (calls : List OutMsg) → given t there calls [] ≡ calls
unfolding of_type
given-nil t false calls = refl
given-nil t true calls = append-nil calls

add_trade-same :
    (p : Publisher) (type : OutMsgType) (m : OutMsg)
    → add_trade p type m
      ≡ (if same_type type trade then call_if p.on_trade p.trade_calls m else p.trade_calls)
add_trade-same p trade m = refl
add_trade-same p exec_report m = refl

add_exec-same :
    (p : Publisher) (type : OutMsgType) (m : OutMsg)
    → add_exec p type m
      ≡ (if same_type type exec_report then call_if p.on_exec p.exec_calls m else p.exec_calls)
add_exec-same p trade m = refl
add_exec-same p exec_report m = refl

pub handle_all-Calls :
    (p : Publisher) (ms : List OutMsg) → p.processed < u64_mod → Calls p (handle_all p ms) ms
unfolding handle_all handle of_type
handle_all-Calls p [] h = record {
  trades = sym (given-nil trade p.on_trade p.trade_calls);
  execs = sym (given-nil exec_report p.on_exec p.exec_calls);
  counted = omega (arith, h);
  running = refl;
}
handle_all-Calls p (m ∷ ms) h =
    let rest = handle_all-Calls (handle p m) ms (omega arith) in
    record {
      trades =
          rest.trades
          ∙ ap (λ calls. given trade p.on_trade calls ms) (add_trade-same p m.type m)
          ∙ given-cons trade p.on_trade p.trade_calls m ms;
      execs =
          rest.execs
          ∙ ap (λ calls. given exec_report p.on_exec calls ms) (add_exec-same p m.type m)
          ∙ given-cons exec_report p.on_exec p.exec_calls m ms;
      counted = omega (arith, rest.counted);
      running = rest.running;
    }
