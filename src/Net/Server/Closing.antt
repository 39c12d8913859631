-- ===== src/Net/Server/Closing.antt =====
-- network/TcpServer.cpp with network/TcpConnection.cpp: what arrives on a connection of the server, and
-- the close callback that `OnNewConnection` gives every connection.
use live_broadcast_server.Common.{
  ℕ, ◌≡◌, refl, ap, ◌∙◌, ◌≢◌, Bool, true, false, Option, none, some, List, [], ◌∷◌, if◌then◌else◌,
}
use live_broadcast_server.Common.Names.{
  Map, find_key, put, find_key-put, find_key-put_other, find_key-erase, find_key-erase_other,
}
use live_broadcast_server.Fifo
use live_broadcast_server.Net.Tcp.{
  TcpConnection, Incoming, bytes_in, end_in, error_in, Notice, close_callback, on_readable,
  on_close,
}
use live_broadcast_server.Net.Server.{Accepted, TcpServer, on_close_connection}

-- Whether the close callback is called.
abbrev pub closes : List Notice → Bool
closes [] = false
closes (close_callback ∷ ns) = true
closes (n ∷ ns) = closes ns

-- The connection behind its handler, and the callback.
pub after_read : List ℕ → Accepted → TcpConnection × List Notice → TcpServer → TcpServer
unfolding on_close_connection
after_read name a r s =
    let t = record s {
      connection_map = put name (record a { connection = r.0 }) s.connection_map;
    } in
    if closes r.1 then on_close_connection name t else t

pub readable_in : List ℕ → Option Accepted → Incoming → TcpServer → TcpServer
unfolding after_read
readable_in name none incoming s = s
readable_in name (some a) incoming s = after_read name a (on_readable a.connection incoming) s

-- The connection of the name is readable.
pub connection_readable : List ℕ → Incoming → TcpServer → TcpServer
unfolding readable_in
connection_readable name incoming s = readable_in name (find_key name s.connection_map) incoming s

-- What is under the name afterwards.
pub expected : Accepted → Incoming → Option Accepted
expected a (bytes_in []) = none
expected a (bytes_in (x ∷ xs)) = some (record a {
  connection = record a.connection {
    recv_buffer = Fifo.append_data a.connection.recv_buffer (x ∷ xs);
  };
})
expected a end_in = none
expected a error_in = some a

after_read-closed :
    (name : List ℕ) (a : Accepted) (r : TcpConnection × List Notice) (s : TcpServer)
    → closes r.1 ≡ true
    → find_key name (after_read name a r s).connection_map ≡ none
unfolding after_read on_close_connection
after_read-closed name a r s e =
    ap
      (λ b.
        find_key name
          (let t = record s {
            connection_map = put name (record a { connection = r.0 }) s.connection_map;
          } in
            (if b then on_close_connection name t else t)).connection_map)
      e
    ∙ find_key-erase name (put name (record a { connection = r.0 }) s.connection_map)

after_read-open :
    (name : List ℕ) (a : Accepted) (r : TcpConnection × List Notice) (s : TcpServer)
    → closes r.1 ≡ false
    → find_key name (after_read name a r s).connection_map ≡ some (record a { connection = r.0 })
unfolding after_read on_close_connection
after_read-open name a r s e =
    ap
      (λ b.
        find_key name
          (let t = record s {
            connection_map = put name (record a { connection = r.0 }) s.connection_map;
          } in
            (if b then on_close_connection name t else t)).connection_map)
      e
    ∙ find_key-put name (record a { connection = r.0 }) s.connection_map

after_read-expected :
    (name : List ℕ) (a : Accepted) (incoming : Incoming) (s : TcpServer)
    → find_key name (after_read name a (on_readable a.connection incoming) s).connection_map
      ≡ expected a incoming
unfolding expected on_readable on_close
after_read-expected name a (bytes_in []) s = after_read-closed name a _ s refl
after_read-expected name a (bytes_in (x ∷ xs)) s = after_read-open name a _ s refl
after_read-expected name a end_in s = after_read-closed name a _ s refl
after_read-expected name a error_in s = after_read-open name a _ s refl

either_other :
    (name other : List ℕ) (m : Map Accepted) (b : Bool) (s : TcpServer)
    → other ≢ name
    → find_key other
        (let t = record s { connection_map = m } in
          (if b then on_close_connection name t else t)).connection_map
      ≡ find_key other m
unfolding on_close_connection
either_other name other m true s d = find_key-erase_other other name m d
either_other name other m false s d = refl

after_read-other :
    (name other : List ℕ) (a : Accepted) (r : TcpConnection × List Notice) (s : TcpServer)
    → other ≢ name
    → find_key other (after_read name a r s).connection_map ≡ find_key other s.connection_map
unfolding after_read
after_read-other name other a r s d =
    either_other name other (put name (record a { connection = r.0 }) s.connection_map) (closes r.1)
      s d
    ∙ find_key-put_other other name (record a { connection = r.0 }) s.connection_map d

-- When a connection of a server is readable, then at the end of its stream it leaves the map, and
-- otherwise it stays there, with what has arrived behind its buffer's data, or as it was after an
-- error; every other connection stays as it was.
pub connection_readable-expected :
    (name other : List ℕ) (a : Accepted) (incoming : Incoming) (s : TcpServer)
    → find_key name s.connection_map ≡ some a
    → other ≢ name
    → (find_key name (connection_readable name incoming s).connection_map ≡ expected a incoming)
      × (find_key other (connection_readable name incoming s).connection_map
          ≡ find_key other s.connection_map)
unfolding connection_readable readable_in
connection_readable-expected name other a incoming s e d =
    let here = ap (λ o. readable_in name o incoming s) e in
    (
      ap (λ (t : TcpServer). find_key name t.connection_map) here
          ∙ after_read-expected name a incoming s,
      ap (λ (t : TcpServer). find_key other t.connection_map) here
          ∙ after_read-other name other a (on_readable a.connection incoming) s d,
    )
