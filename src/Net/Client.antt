-- ===== src/Net/Client.antt =====
-- network/TcpClient.h and TcpClient.cpp: a client's one connection. The objects are in a store by their
-- names, and a `shared_ptr` is a name; `none` is the use of a null pointer.
pub mod Close
use live_broadcast_server.Common.{
  ℕ, zero, suc, ◌+◌, ◌-◌, ◌/◌, ap, Bool, true, false, not, ◌&&◌, Option, none, some, List, [], ◌==◌,
  if◌then◌else◌,
}
use live_broadcast_server.Common.Names.{Map, find_key, put, compare_names, by_order}
use live_broadcast_server.Net.Address.{InetAddress}
use live_broadcast_server.Net.Server.{name_of}
use live_broadcast_server.Net.Tcp.{TcpConnection, new_connection, established, connect_destroyed}
use live_broadcast_server.Net.Connector.{
  Connector, Errno, new_connector, set_connect_callback, connect, re_connect,
}

pub record TcpClient : Type 0 where
  pub client_name : List ℕ
  pub connection_ptr : Option (List ℕ)
  pub connections : Map TcpConnection
  pub connector : Connector
  pub connection_id : ℕ
  pub retry : Bool
  pub connect_wanted : Bool
  -- the calls of `Connector::Connect` given to the loop
  pub queued : ℕ

abbrev pub new_client : List ℕ → TcpClient
new_client name = record {
  client_name = name;
  connection_ptr = none;
  connections = [];
  connector = set_connect_callback new_connector;
  connection_id = 0;
  retry = false;
  connect_wanted = false;
  queued = 0;
}

pub connect_client : TcpClient → TcpClient
connect_client c = record c { connect_wanted = true; queued = c.queued + 1 }

-- Its argument is not used.
pub set_re_connect : Bool → TcpClient → TcpClient
set_re_connect open_it c = record c { retry = true }

-- The loop runs a queued call.
run_connect_in : ℕ → Errno → ℕ → TcpClient → TcpClient
run_connect_in zero e fd c = c
run_connect_in (suc n) e fd c = record c { queued = n; connector = connect e fd c.connector }

pub run_connect : Errno → ℕ → TcpClient → TcpClient
unfolding run_connect_in
run_connect e fd c = run_connect_in c.queued e fd c

pub on_new_connection : InetAddress → TcpClient → TcpClient
on_new_connection address c =
    let name = name_of c.client_name address c.connection_id in
    record c {
      connection_id = c.connection_id + 1;
      connections = put name (established new_connection).0 c.connections;
      connection_ptr = some name;
    }

-- The parameter of `RemoveConnection`: a reference to the member, or another pointer.
pub data Pointer : Type 0 where
  own_member : Pointer
  another : List ℕ → Pointer

-- What is read through the parameter; the second argument is what the member holds at the time.
pub read_pointer : Pointer → Option (List ℕ) → Option (List ℕ)
read_pointer own_member member = member
read_pointer (another name) member = some name

-- `==` of two `shared_ptr`
pub same_pointer : Option (List ℕ) → Option (List ℕ) → Bool
same_pointer none none = true
same_pointer none (some own) = false
same_pointer (some name) none = false
same_pointer (some name) (some own) = by_order (compare_names name own) false true false

-- `connection_ptr == connection_ptr_`
pub is_own : Pointer → Option (List ℕ) → Bool
unfolding read_pointer same_pointer
is_own p member = same_pointer (read_pointer p member) member

-- `connection_ptr->ConnectDestroyed()`, after the member was reset.
pub destroy_found : List ℕ → Option TcpConnection → TcpClient → Option TcpClient
destroy_found name none c = none
destroy_found name (some t) c =
    some (record c { connections = put name (connect_destroyed t).0 c.connections })

pub destroy_at : Option (List ℕ) → TcpClient → Option TcpClient
unfolding destroy_found
destroy_at none c = none
destroy_at (some name) c = destroy_found name (find_key name c.connections) c

-- The parameter is read again here, behind the reset.
pub destroy_behind : Pointer → TcpClient → Option TcpClient
unfolding read_pointer destroy_at
destroy_behind p c = destroy_at (read_pointer p c.connection_ptr) c

-- `if (retry_ && connect_)`; what the new attempt brings is an argument.
pub reconnect : Errno → ℕ → Option TcpClient → Option TcpClient
reconnect e fd none = none
reconnect e fd (some c) =
    if c.retry && c.connect_wanted
    then some (record c { connector = re_connect e fd c.connector })
    else some c

pub remove_connection : Errno → ℕ → Pointer → TcpClient → Option TcpClient
unfolding is_own destroy_behind reconnect
remove_connection e fd p c =
    if is_own p c.connection_ptr
    then reconnect e fd (destroy_behind p (record c { connection_ptr = none }))
    else some c

pub dis_connect : Errno → ℕ → TcpClient → Option TcpClient
unfolding remove_connection
dis_connect e fd c = remove_connection e fd own_member (record c { connect_wanted = false })
