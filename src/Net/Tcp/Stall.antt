-- ===== src/Net/Tcp/Stall.antt =====
-- network/TcpConnection.cpp with network/Channel.cpp: `IsWriting` reads the event that the poller
-- returned last, also after `DisableWritable`.
use live_broadcast_server.Common.{
  ℕ, suc, ◌≤◌, ◌<◌, ◌≡◌, refl, sym, subst, ap, ◌∙◌, Bool, true, false, List, [], ◌∷◌, ◌++◌,
  append-nil, append_assoc, arith, if◌then◌else◌, lt→ltb, length, drop, drop_all, take_all,
}
use live_broadcast_server.Net.Channel.{is_writing, enable_writable, disable_writable}
use live_broadcast_server.Net.Tcp.{
  TcpConnection, Socket, SendResult, take_in, keep_rest, on_writable, after_write, after_drained,
  send_in_loop, send, connected,
}

-- Connected, told last that it may write, and no longer registered for that.
pub record IsStalled (c : TcpConnection) : Type 0 where
  pub is_connected_still : c.connection_status ≡ connected
  pub told_to_write : c.channel.event.writable ≡ true
  pub not_registered : c.channel.ep_event.writable ≡ false

send-keeps :
    (c : TcpConnection) (xs : List ℕ) (r : SendResult)
    → IsStalled c
    → send c true xs r ≡ (keep_rest c xs, [])
unfolding send send_in_loop is_writing
send-keeps c xs r v = rw (v.is_connected_still, v.told_to_write)

-- What a stalled connection does with data: it is stalled still, the kernel gets nothing, and the
-- data waits.
pub record Waits (c d : TcpConnection) (xs : List ℕ) : Type 0 where
  pub still : IsStalled d
  pub socket : d.socket ≡ c.socket
  pub waiting : d.send_buffer ≡ c.send_buffer ++ xs

if_true {ℓ} : {A : Type ℓ} (b : Bool) (x y : A) → b ≡ true → (if b then x else y) ≡ x
if_true true x y e = refl
if_true false x y e = absurd (cc)

keep_rest-Waits : (c : TcpConnection) (xs : List ℕ) → IsStalled c → Waits c (keep_rest c xs) xs
unfolding keep_rest is_writing
keep_rest-Waits c [] v = record {
  still = v;
  socket = refl;
  waiting = sym (append-nil c.send_buffer);
}
keep_rest-Waits c (x ∷ xs) v = rw (lt→ltb 0 (suc (length xs)) (omega arith)) (
    subst
      (λ h. Waits c (record c { send_buffer = c.send_buffer ++ (x ∷ xs); channel = h }) (x ∷ xs))
      (sym (if_true c.channel.event.writable c.channel (enable_writable c.channel) v.told_to_write))
      (record {
        still = record {
          is_connected_still = v.is_connected_still;
          told_to_write = v.told_to_write;
          not_registered = v.not_registered;
        };
        socket = refl;
        waiting = refl;
      }))

-- Any data sent by a stalled connection waits: the kernel gets none of it and the channel is not
-- registered for writing, so that the connection is stalled still.
send-Waits :
    (c : TcpConnection) (xs : List ℕ) (r : SendResult)
    → IsStalled c
    → Waits c (send c true xs r).0 xs
send-Waits c xs r v =
    subst (λ p. Waits c p.0 xs) (sym (send-keeps c xs r v)) (keep_rest-Waits c xs v)

pub send_all : TcpConnection → List (List ℕ × SendResult) → TcpConnection
unfolding send
send_all c [] = c
send_all c (x ∷ xs) = send_all (send c true x.0 x.1).0 xs

-- The data of all of them.
abbrev pub all_data : List (List ℕ × SendResult) → List ℕ
all_data [] = []
all_data (x ∷ xs) = x.0 ++ all_data xs

send_all-Waits :
    (c : TcpConnection) (xs : List (List ℕ × SendResult))
    → IsStalled c
    → Waits c (send_all c xs) (all_data xs)
unfolding send_all
send_all-Waits c [] v = record {
  still = v;
  socket = refl;
  waiting = sym (append-nil c.send_buffer);
}
send_all-Waits c (x ∷ xs) v =
    let w = send-Waits c x.0 x.1 v in
    let d = (send c true x.0 x.1).0 in
    let rest = send_all-Waits d xs w.still in
    record {
      still = rest.still;
      socket = rest.socket ∙ w.socket;
      waiting =
          rest.waiting
          ∙ ap (λ l. l ++ all_data xs) w.waiting
          ∙ append_assoc c.send_buffer x.0 (all_data xs);
    }

after_write-IsStalled :
    (d : TcpConnection)
    → d.connection_status ≡ connected
    → d.channel.event.writable ≡ true
    → d.send_buffer ≡ []
    → IsStalled (after_write d).0
unfolding after_write after_drained disable_writable
after_write-IsStalled d e w b =
    rw (b, e) (record { is_connected_still = refl; told_to_write = w; not_registered = refl })

on_writable-writes :
    (c : TcpConnection) (r : SendResult)
    → c.channel.event.writable ≡ true
    → 0 < r.size
    → on_writable c r
      ≡ after_write (record c {
        socket = take_in c.socket r.size c.send_buffer;
        send_buffer = drop r.size c.send_buffer;
      })
unfolding on_writable is_writing
on_writable-writes c r w p = rw (w, lt→ltb 0 r.size p)

on_writable-IsStalled :
    (c : TcpConnection) (r : SendResult)
    → c.connection_status ≡ connected
    → c.channel.event.writable ≡ true
    → 0 < r.size
    → length c.send_buffer ≤ r.size
    → IsStalled (on_writable c r).0
on_writable-IsStalled c r e w p h =
    let d = record c {
      socket = take_in c.socket r.size c.send_buffer;
      send_buffer = drop r.size c.send_buffer;
    } in
    subst (λ x. IsStalled x.0) (sym (on_writable-writes c r w p))
      (after_write-IsStalled d e w (drop_all r.size c.send_buffer h))

after_write-drained :
    (d : TcpConnection)
    → d.connection_status ≡ connected
    → d.send_buffer ≡ []
    → ((after_write d).0.socket ≡ d.socket) × ((after_write d).0.send_buffer ≡ [])
unfolding after_write after_drained
after_write-drained d e b = rw (b, e) (refl, refl)

-- What a connection comes to that had written all it had, and was then given data to send.
pub record Stalls (c d : TcpConnection) (xs : List ℕ) : Type 0 where
  pub stalled : IsStalled d
  pub wire : d.socket.wire ≡ c.socket.wire ++ c.send_buffer
  pub waiting : d.send_buffer ≡ xs

-- A connection that writes all it has, while connected, is stalled: the loop's thread may call Send
-- as often as it likes, whatever the kernel would take, and the kernel gets none of the data. All of
-- it waits in the send buffer, and the channel is not registered for writing.
pub on_writable-Stalls :
    (c : TcpConnection) (r : SendResult) (xs : List (List ℕ × SendResult))
    → c.connection_status ≡ connected
    → c.channel.event.writable ≡ true
    → 0 < r.size
    → length c.send_buffer ≤ r.size
    → Stalls c (send_all (on_writable c r).0 xs) (all_data xs)
on_writable-Stalls c r xs e w p h =
    let d = record c {
      socket = take_in c.socket r.size c.send_buffer;
      send_buffer = drop r.size c.send_buffer;
    } in
    let written = on_writable-writes c r w p in
    let empty = after_write-drained d e (drop_all r.size c.send_buffer h) in
    let all = send_all-Waits (on_writable c r).0 xs (on_writable-IsStalled c r e w p h) in
    record {
      stalled = all.still;
      wire =
          ap (λ (s : Socket). s.wire) (all.socket ∙ ap (λ x. x.0.socket) written ∙ empty.0)
          ∙ ap (λ l. c.socket.wire ++ l) (take_all r.size c.send_buffer h);
      waiting =
          all.waiting ∙ ap (λ l. l ++ all_data xs) (ap (λ x. x.0.send_buffer) written ∙ empty.1);
    }
