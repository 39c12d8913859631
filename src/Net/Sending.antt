-- ===== src/Net/Sending.antt =====
-- network/EventLoop.cpp with network/TcpConnection.cpp: `Send` from another thread gives the loop a call
-- of `SendInLoop` with a copy of the data, and the loop runs what it was given. A connection is a
-- number; what the kernel takes in a call is known with it.
use live_broadcast_server.Common.{
  ℕ, ◌≡◌, refl, sym, ap, ◌∙◌, inl, inr, false, List, [], ◌∷◌, ◌++◌, append-nil, append_assoc, ◌==◌,
  if◌then◌else◌, ==_iff, Bool-cases,
}
use live_broadcast_server.Net.EventLoop.{
  EventLoop, run_in_loop, Ran, Machine, call, run_one, run_all, swap, handle_pending_func,
}
use live_broadcast_server.Net.Tcp.{TcpConnection, SendResult, send_in_loop, is_connected}
use live_broadcast_server.Net.Tcp.Output.{output, is_lost, send_in_loop-output}

-- A call of `SendInLoop` with its arguments.
pub record SendCall : Type 0 where
  pub connection : ℕ
  pub str : List ℕ
  pub result : SendResult

abbrev pub Connections : Type 0
Connections = ℕ → TcpConnection

abbrev pub set_connection : ℕ → TcpConnection → Connections → Connections
set_connection i c cs = λ j. if j == i then c else cs j

-- `Send` in a thread that is not the loop's.
pub send_from_outside : SendCall → Connections → EventLoop SendCall → EventLoop SendCall
send_from_outside s cs l =
    if is_connected (cs s.connection).connection_status then run_in_loop s l else l

-- What the loop runs.
abbrev after_call : SendCall → Connections → Connections
after_call s cs = set_connection s.connection (send_in_loop (cs s.connection) s.str s.result).0 cs

pub execute_send : SendCall → Connections → Ran SendCall Connections
execute_send s cs = record { state = after_call s cs; given = []; stops = false }

-- The data that calls put out on a connection, one behind another, without those that are given up.
pub put_out_on : ℕ → List SendCall → Connections → List ℕ
put_out_on i [] cs = []
put_out_on i (s ∷ more) cs =
    let rest = put_out_on i more (after_call s cs) in
    if i == s.connection then (if is_lost (cs i) s.result then rest else s.str ++ rest) else rest

-- What one call puts out on a connection.
abbrev piece : ℕ → SendCall → Connections → List ℕ
piece i s cs = if i == s.connection then (if is_lost (cs i) s.result then [] else s.str) else []

piece-append :
    (i : ℕ) (s : SendCall) (more : List SendCall) (cs : Connections)
    → piece i s cs ++ put_out_on i more (after_call s cs) ≡ put_out_on i (s ∷ more) cs
unfolding put_out_on
piece-append i s more cs = elim (Bool-cases (i == s.connection)) [
  | inr n ↦ rw n refl
  | inl y ↦ (elim (Bool-cases (is_lost (cs i) s.result)) [
    | inl l ↦ rw (y, l) refl
    | inr l ↦ rw (y, l) refl
  ])
]

after_call-output :
    (i : ℕ) (s : SendCall) (cs : Connections)
    → output (after_call s cs i) ≡ output (cs i) ++ piece i s cs
after_call-output i s cs = elim (Bool-cases (i == s.connection)) [
  | inr n ↦ rw n (sym (append-nil (output (cs i))))
  | inl y ↦
      let same : s.connection ≡ i = sym ((==_iff i s.connection).0 y) in
      rw y (
        ap (λ j. output (send_in_loop (cs j) s.str s.result).0) same
        ∙ send_in_loop-output (cs i) s.str s.result)
]

run_all-output :
    (i : ℕ) (calls : List SendCall) (m : Machine SendCall Connections)
    → output ((run_all execute_send calls m).state i)
      ≡ output (m.state i) ++ put_out_on i calls m.state
unfolding run_all run_one call execute_send put_out_on
run_all-output i [] m = sym (append-nil (output (m.state i)))
run_all-output i (s ∷ more) m =
    let cs = m.state in
    let n = run_one execute_send s more m in
    run_all-output i more n
    ∙ ap (λ l. l ++ put_out_on i more (after_call s cs)) (after_call-output i s cs)
    ∙ append_assoc (output (cs i)) (piece i s cs) (put_out_on i more (after_call s cs))
    ∙ ap (λ l. output (cs i) ++ l) (piece-append i s more cs)

-- When a loop runs the calls of SendInLoop that other threads have given it, for any of its
-- connections, each connection's bytes, those that the kernel has and those that wait, grow by the
-- data of its own calls, in order and once, without the calls that are given up because the
-- connection closes or its peer is gone.
pub handle_pending_func-output :
    (i : ℕ) (m : Machine SendCall Connections)
    → output ((handle_pending_func execute_send m).state i)
      ≡ output (m.state i) ++ put_out_on i m.event_loop.pending_func m.state
unfolding handle_pending_func swap
handle_pending_func-output i m = run_all-output i m.event_loop.pending_func (swap execute_send m)
