-- ===== src/Net/Connector.antt =====
-- network/Connector.h and Connector.cpp: the states of an outgoing connection. What `socket` returns and
-- the `errno` of `connect` are arguments. `none` is the use of a null pointer.
pub mod Safe
use live_broadcast_server.Common.{
  ℕ, suc, ◌+◌, ◌-◌, ◌/◌, Bool, true, false, Option, none, some, List, [], ◌∷◌, ◌++◌, ◌==◌,
  if◌then◌else◌,
}
use live_broadcast_server.Net.Channel.{Channel, new_channel, enable_writable}

pub data Status : Type 0 where
  disconnected connecting connected : Status

-- `save_errno`: 0, EINTR or EISCONN; EAGAIN or ECONNREFUSED; EBADF or EALREADY; any other.
pub data Errno : Type 0 where
  success eintr eisconn eagain econnrefused ebadf ealready unknown : Errno

pub record Connector : Type 0 where
  pub status : Status
  pub connect_wanted : Bool
  -- the channel and its socket
  pub channel_ptr : Option (ℕ × Channel)
  pub has_callback : Bool
  -- the sockets closed, and those handed to the callback, in order
  pub closed : List ℕ
  pub handed_on : List ℕ
  -- the sockets for which the loop's poller has the address of a channel
  pub watched : List ℕ

abbrev pub new_connector : Connector
new_connector = record {
  status = disconnected;
  connect_wanted = false;
  channel_ptr = none;
  has_callback = false;
  closed = [];
  handed_on = [];
  watched = [];
}

pub set_connect_callback : Connector → Connector
set_connect_callback c = record c { has_callback = true }

close_socket : ℕ → Connector → Connector
close_socket fd c = record c { closed = c.closed ++ (fd ∷ []) }

-- It logs that it retries, and returns.
pub retry : ℕ → Connector → Connector
unfolding close_socket
retry fd c = record (close_socket fd c) { status = disconnected }

-- A channel that is there is destroyed, its socket left open.
pub start_connecting : ℕ → Connector → Connector
start_connecting fd c = record c {
  status = connecting;
  channel_ptr = some (fd, enable_writable new_channel);
  watched = c.watched ++ (fd ∷ []);
}

-- The `switch` of `Connect`.
pub connect_in : Errno → ℕ → Connector → Connector
unfolding start_connecting retry close_socket
connect_in success fd c = start_connecting fd c
connect_in eintr fd c = start_connecting fd c
connect_in eisconn fd c = start_connecting fd c
connect_in eagain fd c = retry fd c
connect_in econnrefused fd c = retry fd c
connect_in ebadf fd c = close_socket fd c
connect_in ealready fd c = close_socket fd c
connect_in unknown fd c = close_socket fd c

pub connect : Errno → ℕ → Connector → Connector
unfolding connect_in
connect e fd c = connect_in e fd (record c { connect_wanted = true })

pub re_connect : Errno → ℕ → Connector → Connector
unfolding connect
re_connect e fd c = connect e fd (record c { status = disconnected; connect_wanted = true })

abbrev pub without : ℕ → List ℕ → List ℕ
without fd [] = []
without fd (x ∷ xs) = let rest = without fd xs in if x == fd then rest else x ∷ rest

-- `DisableAll`, `reset`: the socket of the channel, and the connector without it.
pub remove_in : Option (ℕ × Channel) → Connector → Option (ℕ × Connector)
remove_in none c = none
remove_in (some p) c = some (p.0, record c { channel_ptr = none; watched = without p.0 c.watched })

pub remove_and_reset_channel : Connector → Option (ℕ × Connector)
unfolding remove_in
remove_and_reset_channel c = remove_in c.channel_ptr c

abbrev pub is_connecting : Status → Bool
is_connecting connecting = true
is_connecting _ = false

abbrev pub without_socket : Option (ℕ × Connector) → Option Connector
without_socket none = none
without_socket (some r) = some r.1

pub disconnect : Connector → Option Connector
unfolding remove_and_reset_channel
disconnect c =
    let d = record c { connect_wanted = false } in
    if is_connecting c.status
    then without_socket (remove_and_reset_channel (record d { status = disconnected }))
    else some d

-- Behind `RemoveAndResetChannel`: the callback gets the socket.
pub call_back : Option (ℕ × Connector) → Option Connector
call_back none = none
call_back (some r) = some (record r.1 {
  status = connected;
  handed_on = (if r.1.has_callback then r.1.handed_on ++ (r.0 ∷ []) else r.1.handed_on);
})

pub handle_write : Connector → Option Connector
unfolding remove_and_reset_channel call_back
handle_write c = if is_connecting c.status then call_back (remove_and_reset_channel c) else some c

-- The calls of an owner and of the loop.
pub data Call : Type 0 where
  connects re_connects : Errno → ℕ → Call
  sets_callback disconnects writes : Call

pub call : Connector → Call → Option Connector
unfolding connect re_connect set_connect_callback disconnect handle_write
call c (connects e fd) = some (connect e fd c)
call c (re_connects e fd) = some (re_connect e fd c)
call c sets_callback = some (set_connect_callback c)
call c disconnects = disconnect c
call c writes = handle_write c

call_then : (Connector → Option Connector) → Option Connector → Option Connector
call_then f none = none
call_then f (some c) = f c

pub call_all : List Call → Connector → Option Connector
unfolding call call_then
call_all [] c = some c
call_all (a ∷ more) c = call_then (call_all more) (call c a)
