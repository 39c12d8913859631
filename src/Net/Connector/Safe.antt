-- ===== src/Net/Connector/Safe.antt =====
-- network/Connector.cpp: the channel is there when it is used, and each connection is reported once.
use live_broadcast_server.Common.{
  ℕ, ◌≡◌, refl, sym, ap, ◌∙◌, true, false, Option, none, some, List, [], ◌∷◌, if◌then◌else◌,
}
use live_broadcast_server.Net.Channel.{Channel, new_channel, enable_writable}
use live_broadcast_server.Net.Connector.{
  new_connector, Status, connecting, disconnected, connected, Errno, success, eintr, eisconn,
  eagain, econnrefused, ebadf, ealready, unknown, Connector, set_connect_callback, close_socket,
  retry, start_connecting, connect_in, connect, re_connect, without, remove_in,
  remove_and_reset_channel, is_connecting, without_socket, disconnect, call_back, handle_write,
  Call, connects, re_connects, sets_callback, disconnects, writes, call, call_then, call_all,
}

-- While it is connecting, the connector has a channel.
pub HasChannel : Connector → Type 0
HasChannel c = c.status ≡ connecting → (p : ℕ × Channel) × (c.channel_ptr ≡ some p)

connect_in-HasChannel :
    (e : Errno) (fd : ℕ) (c : Connector) → HasChannel c → HasChannel (connect_in e fd c)
unfolding HasChannel connect_in start_connecting retry close_socket
connect_in-HasChannel success fd c h s = ((fd, enable_writable new_channel), refl)
connect_in-HasChannel eintr fd c h s = ((fd, enable_writable new_channel), refl)
connect_in-HasChannel eisconn fd c h s = ((fd, enable_writable new_channel), refl)
connect_in-HasChannel eagain fd c h s = absurd (cc)
connect_in-HasChannel econnrefused fd c h s = absurd (cc)
connect_in-HasChannel ebadf fd c h s = h s
connect_in-HasChannel ealready fd c h s = h s
connect_in-HasChannel unknown fd c h s = h s

-- A call that goes well, and keeps the invariant.
IsFine : Option Connector → Type 0
IsFine o = (c : Connector) × (o ≡ some c) × HasChannel c

is_fine : (c : Connector) → HasChannel c → IsFine (some c)
unfolding IsFine
is_fine c h = (c, refl, h)

disconnect_in :
    (st : Status) (c d : Connector)
    → (st ≡ connecting → (p : ℕ × Channel) × (d.channel_ptr ≡ some p))
    → d.status ≡ disconnected
    → HasChannel c
    → IsFine (if is_connecting st then without_socket (remove_in d.channel_ptr d) else some c)
unfolding IsFine HasChannel remove_in
disconnect_in disconnected c d h e k = (c, refl, k)
disconnect_in connected c d h e k = (c, refl, k)
disconnect_in connecting c d h e k =
    let p = h refl in
    (
      record d { channel_ptr = none; watched = without p.0.0 d.watched },
      ap (λ o. without_socket (remove_in o d)) p.1,
      λ s. absurd (let q : disconnected ≡ connecting = sym e ∙ s in cc),
    )

disconnect-IsFine : (c : Connector) → HasChannel c → IsFine (disconnect c)
unfolding disconnect remove_and_reset_channel HasChannel
disconnect-IsFine c h =
    disconnect_in c.status (record c { connect_wanted = false })
      (record c { connect_wanted = false; status = disconnected }) h refl h

write_in :
    (st : Status) (c : Connector)
    → (st ≡ connecting → (p : ℕ × Channel) × (c.channel_ptr ≡ some p))
    → HasChannel c
    → IsFine (if is_connecting st then call_back (remove_in c.channel_ptr c) else some c)
unfolding IsFine HasChannel remove_in call_back
write_in disconnected c h k = (c, refl, k)
write_in connected c h k = (c, refl, k)
write_in connecting c h k =
    let p = h refl in (_, ap (λ o. call_back (remove_in o c)) p.1, λ s. absurd (cc))

handle_write-IsFine : (c : Connector) → HasChannel c → IsFine (handle_write c)
unfolding handle_write remove_and_reset_channel HasChannel
handle_write-IsFine c h = write_in c.status c h h

call-IsFine : (c : Connector) (a : Call) → HasChannel c → IsFine (call c a)
unfolding call connect re_connect set_connect_callback HasChannel
call-IsFine c (connects e fd) h =
    let d = record c { connect_wanted = true } in
    is_fine (connect_in e fd d) (connect_in-HasChannel e fd d h)
call-IsFine c (re_connects e fd) h =
    let d = record c { status = disconnected; connect_wanted = true } in
    is_fine (connect_in e fd d) (connect_in-HasChannel e fd d (λ s. absurd (cc)))
call-IsFine c sets_callback h = is_fine (record c { has_callback = true }) h
call-IsFine c disconnects h = disconnect-IsFine c h
call-IsFine c writes h = handle_write-IsFine c h

-- Whatever calls an owner and the loop make, with whatever outcome of connect, a connector never
-- uses a channel that is not there, and it has one whenever it is connecting.
pub call_all-HasChannel :
    (calls : List Call) (c : Connector)
    → HasChannel c
    → (d : Connector) × (call_all calls c ≡ some d) × HasChannel d
unfolding call_all call_then IsFine
call_all-HasChannel [] c h = (c, refl, h)
call_all-HasChannel (a ∷ more) c h =
    let first = call-IsFine c a h in
    let rest = call_all-HasChannel more first.0 first.2 in
    (rest.0, ap (call_then (call_all more)) first.1 ∙ rest.1, rest.2)

pub new_connector-HasChannel : HasChannel new_connector
unfolding HasChannel
new_connector-HasChannel e = absurd (cc)
