-- ===== src/Tests/Servers.antt =====
-- Tests of network/TcpServer, network/EventLoop, network/EventLoopThread and thread/ThreadPool.
use live_broadcast_server.Common.{
  ℕ, zero, suc, ◌+◌, ◌%◌, ◌≡◌, refl, true, false, Option, some, List, [], ◌∷◌, ◌++◌, arith, ◌==◌,
}
use live_broadcast_server.Common.Names.{find_key, found}
use live_broadcast_server.Net.Address.{InetAddress, IsAddress, af_inet, to_ip_port}
use live_broadcast_server.Net.Server.{
  Accepted, TcpServer, new_server, set_thread_num, start, name_of, on_new_connection,
}
use live_broadcast_server.Net.Server.Names.{name_of-whole}
use live_broadcast_server.Net.Server.Fresh.{
  Reach, starts, accepts, on_new_connection-fresh, on_new_connection-loop,
}
use live_broadcast_server.Text.Decimal.{to_string, digits}
use live_broadcast_server.Common.Names.{put, compare_names}
use live_broadcast_server.Net.Loops.{get_next_loop, start_threads}
use live_broadcast_server.Net.Loops
use live_broadcast_server.Net.Address.{text_in}
use live_broadcast_server.Net.EventLoop.{Ran, Machine, rounds, handle_pending_func}
use live_broadcast_server.Net.EventLoop.Order.{Steps, given_so_far}
use live_broadcast_server.Net.EventLoop.Rounds.{rounds-order}
use live_broadcast_server.Net.Tcp.{new_connection}
use live_broadcast_server.Common.{◌≢◌}
use live_broadcast_server.Net.Server.Closing.{
  expected, connection_readable, connection_readable-expected,
}
use live_broadcast_server.Net.Tcp.{bytes_in, would_block, connected}
use live_broadcast_server.Net.Tcp.Output.{output}
use live_broadcast_server.Net.Sending.{
  SendCall, Connections, execute_send, put_out_on, handle_pending_func-output,
}
use live_broadcast_server.Net.LoopThread
use live_broadcast_server.Net.LoopThread.{LoopThread, IsStuck, destroy_early-IsStuck}
use live_broadcast_server.Thread.Pool.{Event, sets, turns, gives, act_all, new_work, all_given}
use live_broadcast_server.Thread.Pool.Idle.{act_all-by_callers}

abbrev server_text : List ℕ
server_text = b'r' ∷ b't' ∷ b'm' ∷ b'p' ∷ []

abbrev peer : InetAddress
peer = record { family = af_inet; ip = b'1' ∷ b'.' ∷ b'2' ∷ []; port = 1935 }

peer-IsAddress : IsAddress peer
peer-IsAddress = record { has_family = cc; ip_fits = omega arith; port_fits = omega arith }

abbrev threads : ℕ → ℕ
threads i = 100 + i

abbrev server : TcpServer
server = start threads (set_thread_num 2 (new_server 0 server_text))

server-Reach : Reach server_text threads 0 2 server
server-Reach = starts

name_of-whole_example :
    name_of server_text peer 7 ≡ server_text ++ ((b'-' ∷ to_ip_port peer) ++ (b'#' ∷ to_string 7))
name_of-whole_example = name_of-whole server_text peer 7 peer-IsAddress (omega arith)

abbrev one_there : TcpServer
one_there = on_new_connection 5 peer server

abbrev first_name : List ℕ
first_name = name_of server_text peer 0

abbrev first : Accepted
first = record { sockfd = 5; address = peer; io_loop = some 100; connection = new_connection }

one_there-Reach : Reach server_text threads 0 2 one_there
unfolding start set_thread_num on_new_connection
one_there-Reach = accepts 5 peer peer-IsAddress (omega arith) server-Reach

first-found : find_key first_name one_there.connection_map ≡ some first
unfolding start set_thread_num on_new_connection Loops.start Loops.set_thread_num get_next_loop
    start_threads name_of to_ip_port text_in to_string digits find_key put compare_names
first-found = refl

on_new_connection-fresh_example :
    find_key first_name (on_new_connection 6 peer one_there).connection_map ≡ some first
unfolding start set_thread_num on_new_connection
on_new_connection-fresh_example =
    on_new_connection-fresh server_text threads 0 2 one_there 6 peer first_name first
      one_there-Reach peer-IsAddress (omega arith) first-found

on_new_connection-loop_example :
    found {W = ℕ × Option ℕ}
      (λ v. (v.sockfd, v.io_loop))
      (find_key
        (name_of one_there.server_name peer one_there.connection_id)
        (on_new_connection 6 peer one_there).connection_map)
    ≡ some (6, some (threads (one_there.connection_id % 2)))
on_new_connection-loop_example =
    on_new_connection-loop server_text threads 0 2 one_there 6 peer one_there-Reach (omega arith)

-- A function is a number: it gives the loop the number below, and 7 stops it.
abbrev below : ℕ → List ℕ
below zero = []
below (suc n) = n ∷ []

abbrev runs : ℕ → ℕ → Ran ℕ ℕ
runs f total = record { state = total + f; given = below f; stops = f == 7 }

abbrev machine : Machine ℕ ℕ
machine = record {
  event_loop = record { pending_func = 3 ∷ 1 ∷ []; looping = true };
  swapped = [];
  state = 0;
  ran = [];
}

rounds-order_example :
    (given : List ℕ) × Steps runs machine given (rounds runs ((2 ∷ []) ∷ [] ∷ []) machine)
    × (given_so_far (rounds runs ((2 ∷ []) ∷ [] ∷ []) machine) ≡ given_so_far machine ++ given)
rounds-order_example = rounds-order runs ((2 ∷ []) ∷ [] ∷ []) machine refl

-- The loop is known, and not entered yet.
abbrev early : LoopThread
early = record {
  position = LoopThread.published;
  owner = LoopThread.has_loop;
  loop_set = true;
  looping = false;
}

destroy_early-IsStuck_example : IsStuck (LoopThread.enter_loop (LoopThread.destroy early))
destroy_early-IsStuck_example =
    destroy_early-IsStuck early (LoopThread.enter_loop (LoopThread.destroy early)) refl refl refl
      LoopThread.here

abbrev events : List (Event ℕ)
events = sets 2 ∷ Event.starts ∷ gives 5 ∷ turns ∷ gives 6 ∷ []

act_all-by_callers_example :
    ((act_all new_work events).by_callers ≡ all_given events)
    × ((act_all new_work events).by_threads ≡ [])
    × ((act_all new_work events).pool.task_deque ≡ [])
act_all-by_callers_example = act_all-by_callers events

abbrev silent : List ℕ
silent = b'x' ∷ []

abbrev named : TcpServer
named = record server { connection_map = (server_text, first) ∷ [] }

named-found : find_key server_text named.connection_map ≡ some first
unfolding start set_thread_num find_key compare_names
named-found = refl

silent-differs : silent ≢ server_text
silent-differs = cc

connection_readable-expected_example :
    (find_key server_text (connection_readable server_text (bytes_in (3 ∷ [])) named).connection_map
      ≡ expected first (bytes_in (3 ∷ [])))
    × (find_key silent (connection_readable server_text (bytes_in (3 ∷ [])) named).connection_map
        ≡ find_key silent named.connection_map)
connection_readable-expected_example =
    connection_readable-expected server_text silent first (bytes_in (3 ∷ [])) named named-found
      silent-differs

-- Two connections, and the calls that other threads gave the loop: the kernel takes one byte of the
-- first and all of the second.
abbrev given_calls : List SendCall
given_calls =
    record { connection = 1; str = 4 ∷ 5 ∷ []; result = record { size = 1; errno = would_block } }
    ∷ record { connection = 2; str = 6 ∷ []; result = record { size = 1; errno = would_block } }
    ∷ record { connection = 1; str = 7 ∷ []; result = record { size = 1; errno = would_block } }
    ∷ []

abbrev two_connections : Machine SendCall Connections
two_connections = record {
  event_loop = record { pending_func = given_calls; looping = true };
  swapped = [];
  state = λ i. record new_connection { connection_status = connected };
  ran = [];
}

handle_pending_func-output_example :
    output ((handle_pending_func execute_send two_connections).state 1)
    ≡ output (two_connections.state 1) ++ put_out_on 1 given_calls two_connections.state
handle_pending_func-output_example = handle_pending_func-output 1 two_connections
