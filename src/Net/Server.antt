-- ===== src/Net/Server.antt =====
-- network/TcpServer.cpp and Acceptor.cpp: the connections of a server under their names. What
-- `accept` returns is an argument; the calls of `Established` that the loops are given are a queue.
pub mod Names
pub mod Fresh
pub mod Closing
use live_broadcast_server.Common.{
  ℕ, ◌+◌, ◌-◌, ◌/◌, ◌%◌, ap, Bool, true, false, Option, none, some, List, [], ◌∷◌, ◌++◌, map,
}
use live_broadcast_server.Common.Names.{Map, put, erase, each}
use live_broadcast_server.Text.Decimal.{to_string}
use live_broadcast_server.Net.Address.{InetAddress, snprintf, to_ip_port}
use live_broadcast_server.Net.Loops.{EventLoopThreadPool, new_pool, get_next_loop}
use live_broadcast_server.Net.Loops
use live_broadcast_server.Net.Tcp.{TcpConnection, new_connection, Notice, connect_destroyed}

-- A connection with its socket, its peer and its loop.
pub record Accepted : Type 0 where
  pub sockfd : ℕ
  pub address : InetAddress
  pub io_loop : Option ℕ
  pub connection : TcpConnection

pub record TcpServer : Type 0 where
  pub server_name : List ℕ
  pub connection_id : ℕ
  pub connection_map : Map Accepted
  pub thread_pool : EventLoopThreadPool
  pub listening : Bool
  -- the functions given to `RunInLoop`: the loop, and the name of the connection to establish
  pub queued : List (Option ℕ × List ℕ)

abbrev pub new_server : ℕ → List ℕ → TcpServer
new_server loop name = record {
  server_name = name;
  connection_id = 0;
  connection_map = [];
  thread_pool = new_pool loop;
  listening = false;
  queued = [];
}

unfoldable pub set_thread_num : ℕ → TcpServer → TcpServer
set_thread_num n s = record s { thread_pool = Loops.set_thread_num s.thread_pool n }

unfoldable pub start : (ℕ → ℕ) → TcpServer → TcpServer
start thread s = record s { thread_pool = Loops.start thread s.thread_pool; listening = true }

-- `snprintf(buffer, sizeof buffer, "-%s#%d", ...)` behind the server's name.
abbrev suffix : InetAddress → ℕ → List ℕ
suffix address id = b'-' ∷ (to_ip_port address ++ (b'#' ∷ to_string id))

unfoldable pub name_of : List ℕ → InetAddress → ℕ → List ℕ
name_of name address id = name ++ snprintf 64 (suffix address id)

abbrev accepted : ℕ → InetAddress → Option ℕ → Accepted
accepted fd address loop = record {
  sockfd = fd;
  address = address;
  io_loop = loop;
  connection = new_connection;
}

unfoldable pub on_new_connection : ℕ → InetAddress → TcpServer → TcpServer
on_new_connection fd address s =
    let name = name_of s.server_name address s.connection_id in
    let next = get_next_loop s.thread_pool in
    record s {
      connection_id = s.connection_id + 1;
      thread_pool = next.1;
      connection_map = put name (accepted fd address next.0) s.connection_map;
      queued = s.queued ++ ((next.0, name) ∷ []);
    }

-- `Acceptor::OnReadable`. `none`: `accept` failed, and LOG_FATAL ends the program.
pub on_readable : Option ℕ → InetAddress → TcpServer → Option TcpServer
unfolding on_new_connection
on_readable none address s = none
on_readable (some fd) address s = some (on_new_connection fd address s)

pub on_close_connection : List ℕ → TcpServer → TcpServer
on_close_connection name s = record s { connection_map = erase name s.connection_map }

-- `~TcpServer`: every connection, and what it calls back.
pub destroy : TcpServer → Map Accepted × Map (List Notice)
destroy s =
    each (λ name a. let d = connect_destroyed a.connection in (record a { connection = d.0 }, d.1))
      s.connection_map
