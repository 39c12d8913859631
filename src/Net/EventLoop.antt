-- ===== src/Net/EventLoop.antt =====
-- network/EventLoop.h and EventLoop.cpp: the functions that a loop is given, and its rounds. A function
-- is whatever `execute` runs: on the state of the program, with the functions that it gives the loop
-- with `RunInLoop` meanwhile, and whether it calls `Stop`. What the poller reports is an argument: the
-- handlers of the active channels, which are functions of the same kind.
pub mod Order
pub mod Rounds
use live_broadcast_server.Common.{
  ◌+◌, ◌-◌, ◌/◌, ap, Bool, true, false, some, List, [], ◌∷◌, ◌++◌, if◌then◌else◌,
}

pub record EventLoop (F : Type 0) : Type 0 where
  pub pending_func : List F
  pub looping : Bool

abbrev pub new_loop : {F : Type 0} → EventLoop F
new_loop = record { pending_func = []; looping = false }

pub run_in_loop : {F : Type 0} → F → EventLoop F → EventLoop F
run_in_loop f l = record l { pending_func = l.pending_func ++ (f ∷ []) }

pub stop : {F : Type 0} → EventLoop F → EventLoop F
stop l = record l { looping = false }

-- What a function does while it runs.
pub record Ran (F S : Type 0) : Type 0 where
  pub state : S
  pub given : List F
  pub stops : Bool

-- The loop, the local vector of `HandlePendingFunc`, the state of the program, and all functions of
-- that vector that have run, in order.
pub record Machine (F S : Type 0) : Type 0 where
  pub event_loop : EventLoop F
  pub swapped : List F
  pub state : S
  pub ran : List F

module _ {F S : Type 0} (execute : F → S → Ran F S) where
  -- The effects of a function on the loop.
  abbrev pub apply_given : List F → Bool → EventLoop F → EventLoop F
  apply_given fs b l = record l {
    pending_func = l.pending_func ++ fs;
    looping = (if b then false else l.looping);
  }

  unfoldable pub call : F → Machine F S → Machine F S
  call f m = record m {
    event_loop = apply_given (execute f m.state).given (execute f m.state).stops m.event_loop;
    state = (execute f m.state).state;
  }

  -- `HandleActiveChannel`
  pub handle_active_channel : List F → Machine F S → Machine F S
  unfolding call
  handle_active_channel [] m = m
  handle_active_channel (f ∷ fs) m = handle_active_channel fs (call f m)

  -- `pending_func.swap(pending_func_)`
  unfoldable pub swap : Machine F S → Machine F S
  swap m = record m {
    event_loop = record m.event_loop { pending_func = [] };
    swapped = m.event_loop.pending_func;
  }

  -- One function of the vector.
  unfoldable pub run_one : F → List F → Machine F S → Machine F S
  unfolding call
  run_one f fs m = record (call f m) { swapped = fs; ran = m.ran ++ (f ∷ []) }

  -- The `for` of `HandlePendingFunc`.
  unfoldable pub run_all : List F → Machine F S → Machine F S
  unfolding run_one
  run_all [] m = m
  run_all (f ∷ fs) m = run_all fs (run_one f fs m)

  unfoldable pub handle_pending_func : Machine F S → Machine F S
  unfolding swap run_all
  handle_pending_func m = run_all m.event_loop.pending_func (swap m)

  -- The body of the `while`, with the handlers of the channels that `LoopOnce` reports.
  pub round : List F → Machine F S → Machine F S
  unfolding handle_active_channel handle_pending_func
  round active m = handle_pending_func (handle_active_channel active m)

  -- The `while`, as long as the poller has something to report.
  pub rounds : List (List F) → Machine F S → Machine F S
  unfolding round
  rounds [] m = m
  rounds (active ∷ later) m =
      let next = rounds later (round active m) in if m.event_loop.looping then next else m

  pub loop : List (List F) → Machine F S → Machine F S
  unfolding rounds
  loop polls m = rounds polls (record m { event_loop = record m.event_loop { looping = true } })
