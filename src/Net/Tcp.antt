-- ===== src/Net/Tcp.antt =====
-- network/TcpConnection.h and TcpConnection.cpp: a connection with its two buffers. The socket is what
-- the kernel has taken for sending and whether its sending side is shut; what a call of `send` returns
-- is an argument. The callbacks that a handler calls are a result.
pub mod Output
pub mod Stall
use live_broadcast_server.Common.{
  ℕ, ◌+◌, ◌-◌, ◌/◌, min, ap, Bool, true, false, not, ◌&&◌, List, [], ◌∷◌, ◌++◌, ltb, ◌==◌,
  if◌then◌else◌, length, take, drop,
}
use live_broadcast_server.Fifo
use live_broadcast_server.Fifo.{Fifo}
use live_broadcast_server.Net.Channel.{
  Channel, new_channel, enable_readable, enable_writable, disable_writable, disable_all,
  tie_connection, is_writing,
}

pub data Status : Type 0 where
  disconnecting disconnected connecting connected : Status

pub record Socket : Type 0 where
  pub wire : List ℕ
  pub write_shut : Bool

pub record TcpConnection : Type 0 where
  pub connection_status : Status
  pub socket : Socket
  pub channel : Channel
  pub recv_buffer : Fifo
  pub send_buffer : Fifo
  -- the calls of `SendInLoop` that other threads have queued on the loop
  pub queued : List (List ℕ)

-- `TcpConnection(...)`
abbrev pub new_connection : TcpConnection
new_connection = record {
  connection_status = connecting;
  socket = record { wire = []; write_shut = false };
  channel = new_channel;
  recv_buffer = [];
  send_buffer = [];
  queued = [];
}

pub data Notice : Type 0 where
  connection_callback close_callback new_message write_complete : Notice

abbrev pub established : TcpConnection → TcpConnection × List Notice
established c = (
  record c { connection_status = connected; channel = enable_readable (tie_connection c.channel) },
  connection_callback ∷ [],
)

unfoldable pub on_close : TcpConnection → TcpConnection × List Notice
on_close c = (
  record c { connection_status = disconnected; channel = disable_all c.channel },
  connection_callback ∷ close_callback ∷ [],
)

abbrev pub is_connected : Status → Bool
is_connected connected = true
is_connected _ = false

abbrev pub connect_destroyed : TcpConnection → TcpConnection × List Notice
connect_destroyed c =
    if is_connected c.connection_status
    then (
      record c { connection_status = disconnected; channel = disable_all c.channel },
      connection_callback ∷ [],
    )
    else (c, [])

pub shutdown : TcpConnection → TcpConnection
shutdown c =
    if is_connected c.connection_status
    then record c {
      connection_status = disconnecting;
      socket = (if is_writing c.channel then c.socket else record c.socket { write_shut = true });
    }
    else c

-- What reading the socket brings: bytes, the end, or an error.
pub data Incoming : Type 0 where
  bytes_in : List ℕ → Incoming
  end_in error_in : Incoming

unfoldable pub on_readable : TcpConnection → Incoming → TcpConnection × List Notice
unfolding on_close
on_readable c (bytes_in []) = on_close c
on_readable c (bytes_in (x ∷ xs)) =
    (record c { recv_buffer = Fifo.append_data c.recv_buffer (x ∷ xs) }, new_message ∷ [])
on_readable c end_in = on_close c
on_readable c error_in = (c, [])

-- `errno` as the code tells it apart: EWOULDBLOCK, EPIPE or ECONNRESET, and the others.
pub data Errno : Type 0 where
  would_block peer_gone other_error : Errno

-- A call of `send`: how much the kernel took (0 also for an error), and `errno` after it.
pub record SendResult : Type 0 where
  pub size : ℕ
  pub errno : Errno

-- What the kernel takes of the bytes offered.
abbrev pub take_in : Socket → ℕ → List ℕ → Socket
take_in s n xs = record s { wire = s.wire ++ take n xs }

-- `if (connection_status_ == DISCONNECTING) Shutdown();`
pub after_drained : Status → TcpConnection → TcpConnection
unfolding shutdown
after_drained disconnecting c = shutdown c
after_drained _ c = c

-- Behind `AddReadIndex`: all sent, or more to send.
pub after_write : TcpConnection → TcpConnection × List Notice
unfolding after_drained
after_write d =
    if Fifo.readable_length d.send_buffer == 0
    then (
      after_drained d.connection_status (record d { channel = disable_writable d.channel }),
      write_complete ∷ [],
    )
    else (d, [])

pub on_writable : TcpConnection → SendResult → TcpConnection × List Notice
unfolding after_write
on_writable c r =
    if is_writing c.channel
    then if ltb 0 r.size
      then after_write (record c {
        socket = take_in c.socket r.size c.send_buffer;
        send_buffer = Fifo.add_read_index c.send_buffer r.size;
      })
      else (c, [])
    else (c, [])

-- The end of `SendInLoop`: what was not sent waits in the buffer.
pub keep_rest : TcpConnection → List ℕ → TcpConnection
keep_rest c rest =
    if ltb 0 (length rest)
    then record c {
      send_buffer = Fifo.append_data c.send_buffer rest;
      channel = (if is_writing c.channel then c.channel else enable_writable c.channel);
    }
    else c

abbrev pub is_fatal : Errno → Bool
is_fatal peer_gone = true
is_fatal _ = false

abbrev pub is_closing : Status → Bool
is_closing disconnecting = true
is_closing disconnected = true
is_closing _ = false

-- The direct call of `send`.
pub send_now : TcpConnection → List ℕ → SendResult → TcpConnection × List Notice
unfolding keep_rest shutdown
send_now c xs r =
    if ltb 0 r.size
    then (
      keep_rest (record c { socket = take_in c.socket r.size xs }) (drop r.size xs),
      if length xs == r.size then write_complete ∷ [] else [],
    )
    else if is_fatal r.errno
    then (shutdown c, [])
    else (keep_rest c xs, [])

pub send_in_loop : TcpConnection → List ℕ → SendResult → TcpConnection × List Notice
unfolding send_now keep_rest
send_in_loop c xs r =
    if is_closing c.connection_status
    then (c, [])
    else if not (is_writing c.channel) && (Fifo.readable_length c.send_buffer == 0)
    then send_now c xs r
    else (keep_rest c xs, [])

-- `Send`: in the loop's thread at once, else queued on the loop with a copy of the data.
pub send : TcpConnection → Bool → List ℕ → SendResult → TcpConnection × List Notice
unfolding send_in_loop
send c in_loop xs r =
    if is_connected c.connection_status
    then if in_loop then send_in_loop c xs r else (record c { queued = c.queued ++ (xs ∷ []) }, [])
    else (c, [])

-- The loop runs the oldest queued call.
pub run_queued : TcpConnection → SendResult → TcpConnection × List Notice
unfolding send_in_loop
run_queued c r = elim c.queued [
  | [] ↦ (c, [])
  | xs ∷ rest ↦ send_in_loop (record c { queued = rest }) xs r
]
