-- ===== src/Net/Client/Close.antt =====
-- network/TcpClient.cpp: how a connection ends.
use live_broadcast_server.Common.{
  ℕ, ◌≡◌, refl, ap, ◌∙◌, ◌≢◌, inl, inr, Bool, true, false, ◌&&◌, Option, none, some, List,
  if◌then◌else◌, Bool-cases,
}
use live_broadcast_server.Common.Names.{find_key, put, find_key-put, compare_names_refl}
use live_broadcast_server.Net.Tcp.{
  TcpConnection, connect_destroyed, Status, is_connected, disconnecting, connecting, connected,
  disconnected,
}
use live_broadcast_server.Net.Connector.{Connector, Errno, re_connect}
use live_broadcast_server.Net.Client.{
  TcpClient, own_member, another, read_pointer, same_pointer, is_own, destroy_found, destroy_at,
  destroy_behind, reconnect, remove_connection, dis_connect,
}

same_pointer_refl : (p : Option (List ℕ)) → same_pointer p p ≡ true
unfolding same_pointer
same_pointer_refl none = refl
same_pointer_refl (some name) = rw (compare_names_refl name) refl

is_own-member : (member : Option (List ℕ)) → is_own own_member member ≡ true
unfolding is_own read_pointer
is_own-member member = same_pointer_refl member

-- DisConnect, which the destructor calls too, uses a null pointer in every state of the client: its
-- argument is a reference to the member that it resets.
pub dis_connect-null : (e : Errno) (fd : ℕ) (c : TcpClient) → dis_connect e fd c ≡ none
unfolding dis_connect remove_connection destroy_behind destroy_at read_pointer reconnect
dis_connect-null e fd c = rw (is_own-member c.connection_ptr) refl

-- The connector after a connection has gone.
abbrev pub connector_after : Errno → ℕ → TcpClient → Connector
connector_after e fd c =
    if c.retry && c.connect_wanted then re_connect e fd c.connector else c.connector

is_own-same : (name : List ℕ) → is_own (another name) (some name) ≡ true
unfolding is_own read_pointer
is_own-same name = same_pointer_refl (some name)

-- The parts of the client that the end of its connection changes.
pub record IsClosed (e : Errno) (fd : ℕ) (c : TcpClient) (name : List ℕ) (d : TcpClient)
    : Type 0 where
  pub no_connection : d.connection_ptr ≡ none
  pub next_attempt : d.connector ≡ connector_after e fd c
  pub is_down :
      (t : TcpConnection) × (find_key name d.connections ≡ some t)
      × (t.connection_status ≢ connected)

reconnect-connector :
    (b : Bool) (e : Errno) (fd : ℕ) (c : TcpClient)
    → (if b then some (record c { connector = re_connect e fd c.connector }) else some c)
      ≡ some (record c { connector = (if b then re_connect e fd c.connector else c.connector) })
reconnect-connector true e fd c = refl
reconnect-connector false e fd c = refl

not_connected : (s : Status) → is_connected s ≡ false → s ≢ connected
not_connected disconnecting e = cc
not_connected disconnected e = cc
not_connected connecting e = cc
not_connected connected e = cc

connect_destroyed-status :
    (t : TcpConnection) → (connect_destroyed t).0.connection_status ≢ connected
connect_destroyed-status t = elim (Bool-cases (is_connected t.connection_status)) [
  | inl y ↦ rw y (cc)
  | inr n ↦ rw n (not_connected t.connection_status n)
]

-- When its connection closes, a client has no connection any more, the connection is not connected,
-- and the connector tries again exactly when reconnecting and connecting are wanted.
pub remove_connection-IsClosed :
    (e : Errno) (fd : ℕ) (c : TcpClient) (name : List ℕ) (t : TcpConnection)
    → c.connection_ptr ≡ some name
    → find_key name c.connections ≡ some t
    → (d : TcpClient) × (remove_connection e fd (another name) c ≡ some d) × IsClosed e fd c name d
unfolding remove_connection destroy_behind destroy_at destroy_found read_pointer reconnect
remove_connection-IsClosed e fd c name t p f =
    let after = (connect_destroyed t).0 in
    let c1 = record c { connection_ptr = none; connections = put name after c.connections } in
    (
      record c1 { connector = connector_after e fd c },
      is_current p
          ∙ ap (reconnect e fd)
              (ap (λ o. destroy_found name o (record c { connection_ptr = none })) f)
          ∙ reconnect-connector (c.retry && c.connect_wanted) e fd c1,
      record {
        no_connection = refl;
        next_attempt = refl;
        is_down = (after, find_key-put name after c.connections, connect_destroyed-status t);
      },
    )
  where
    is_current :
        c.connection_ptr ≡ some name
        → remove_connection e fd (another name) c
          ≡ reconnect e fd (destroy_behind (another name) (record c { connection_ptr = none }))
    is_current q =
        ap
          (λ b.
            if b
            then reconnect e fd (destroy_behind (another name) (record c { connection_ptr = none }))
            else some c)
          (ap (is_own (another name)) q ∙ is_own-same name)
