-- ===== src/Live/Publish/Streaming.antt =====
-- live/RtmpPushServer.cpp with live/connection/RtmpPushConnection.cpp: data of a publisher whose
-- handshake is over, and what its viewers are sent for it.
use live_broadcast_server.Common.{
  ℕ, ◌≤◌, ◌<◌, ◌≡◌, refl, ap, ◌∙◌, false, Option, none, some, List, [], ◌∷◌, length, drop, size_mod,
  AllBytes, sym, subst,
}
use live_broadcast_server.Common.Names.{find_key, find_key-put}
use live_broadcast_server.Fifo.{Fifo}
use live_broadcast_server.Rtmp.Pack.{RtmpPack}
use live_broadcast_server.Rtmp.Codec.Pack.{IsValid}
use live_broadcast_server.Rtmp.Manager.{RtmpManager, Handed, parse_data}
use live_broadcast_server.Rtmp.Manager.Data.{parse_data-total}
use live_broadcast_server.Flv.Transform.{transform_all}
use live_broadcast_server.Live.Pull.{HttpPullConnection}
use live_broadcast_server.Live.Pull.Chunked.{add_flv_tags}
use live_broadcast_server.Live.Push.{
  RtmpPushConnection, deliver, on_body_data, on_new_rtmp_pack, on_new_flv_tag,
}
use live_broadcast_server.Live.Push.Viewers.{broadcast, sent_to, sent_to-broadcast, broadcast-kept}
use live_broadcast_server.Live.Publish.{
  streaming, Publisher, RtmpPushServer, Published, Surroundings, store, streamed, message_in,
  on_message,
}

-- The packet that is handed on, if there is one, with what the stack holds.
abbrev pub packs : ℕ → Option RtmpPack → List (ℕ × RtmpPack)
packs garbage none = []
packs garbage (some k) = (garbage, k) ∷ []

deliver-broadcast :
    (garbage : ℕ) (p : RtmpPushConnection) (d : Option RtmpPack)
    → (deliver garbage p d).0 ≡ (broadcast p (packs garbage d)).0
unfolding broadcast
deliver-broadcast garbage p none = refl
deliver-broadcast garbage p (some k) = refl

sent_to-deliver :
    (garbage : ℕ) (p : RtmpPushConnection) (d : Option RtmpPack) (viewer : List ℕ)
    → sent_to viewer ((deliver garbage p d).1 ∷ [])
      ≡ sent_to viewer (broadcast p (packs garbage d)).1
unfolding broadcast sent_to find_key
sent_to-deliver garbage p none viewer = refl
sent_to-deliver garbage p (some k) viewer = refl

-- What has become of data: a first part of it is taken, the codec keeps its invariant, the next data
-- is of the stream too, and each viewer has had the tag of the packet handed on, if there was one.
pub record Streamed (garbage : ℕ) (name : List ℕ) (p : RtmpPushConnection) (q : Fifo)
    (s : RtmpPushServer) (r : Published) : Type 0 where
  pub handed : Handed
  pub is_handed : parse_data p.rtmp_manager q ≡ some handed
  pub push : RtmpPushConnection
  pub stored : find_key name r.server.publishers ≡ some (record { phase = streaming; push = push })
  pub valid : IsValid push.rtmp_manager.rtmp_codec
  pub taken : (n : ℕ) × (handed.result ≡ some n) × (n ≤ length q) × (r.buffer ≡ drop n q)
  pub viewers :
      (viewer : List ℕ) (c : HttpPullConnection)
      → find_key viewer p.client_connection_map ≡ some c
      → let had =
          add_flv_tags c (transform_all p.rtmp_to_flv_codec (packs garbage handed.delivered)).1 in
        (sent_to viewer (r.viewers ∷ []) ≡ had.1)
        × (find_key viewer push.client_connection_map ≡ some had.0)
  pub nothing_sent : r.sent ≡ []
  pub stays_open : r.shut ≡ false
  pub same_paths : r.server.rtmp_connection_map ≡ s.rtmp_connection_map

deliver-manager :
    (garbage : ℕ) (p : RtmpPushConnection) (d : Option RtmpPack)
    → (deliver garbage p d).0.rtmp_manager ≡ p.rtmp_manager
unfolding on_new_rtmp_pack on_new_flv_tag
deliver-manager garbage p none = refl
deliver-manager garbage p (some k) = refl

on_body_data_lem :
    (garbage : ℕ) (p : RtmpPushConnection) (q : Fifo) (h : Handed)
    → parse_data p.rtmp_manager q ≡ some h
    → let d = deliver garbage (record p { rtmp_manager = h.manager }) h.delivered in
      on_body_data garbage p q ≡ some (d.0, h.buffer, d.1)
on_body_data_lem garbage p q h e = rw (on_body_data, e) refl

-- Whatever bytes have arrived from a publisher whose handshake is over, fewer than 2 ^ 64, with a
-- valid codec, the server takes a first part of them without an error: the codec stays valid, each
-- viewer is sent the tag of the packet that ParseData hands on, if it does, and nothing else, and
-- the publisher is still streaming, under the same paths.
pub on_message-Streamed :
    (around : Surroundings) (name : List ℕ) (p : Publisher) (q : Fifo) (s : RtmpPushServer)
    → p.phase ≡ streaming
    → IsValid p.push.rtmp_manager.rtmp_codec
    → AllBytes q
    → length q < size_mod
    → (r : Published) × (on_message around name p q s ≡ some r)
      × Streamed around.garbage name p.push q s r
unfolding on_message message_in
on_message-Streamed around name p q s f v b l =
    let (h, e, w, took) = parse_data-total p.push.rtmp_manager q v b l in
    let m = record p.push { rtmp_manager = h.manager } in
    let d = deliver around.garbage m h.delivered in
    (
      record {
        server = store name streaming d.0 s;
        buffer = h.buffer;
        sent = [];
        viewers = d.1;
        shut = false;
      },
      ap (λ x. message_in x around name p.push q s) f
          ∙ ap (λ o. streamed name o s) (on_body_data_lem around.garbage p.push q h e),
      record {
        handed = h;
        is_handed = e;
        push = d.0;
        stored = find_key-put name (record { phase = streaming; push = d.0 }) s.publishers;
        valid =
            subst (λ (x : RtmpManager). IsValid x.rtmp_codec)
              (sym (deliver-manager around.garbage m h.delivered)) w;
        taken = took;
        viewers = λ viewer c e. (
          sent_to-deliver around.garbage m h.delivered viewer
              ∙ sent_to-broadcast m (packs around.garbage h.delivered) viewer c e,
          ap (λ (x : RtmpPushConnection). find_key viewer x.client_connection_map)
                (deliver-broadcast around.garbage m h.delivered)
              ∙ broadcast-kept m (packs around.garbage h.delivered) viewer c e,
        );
        nothing_sent = refl;
        stays_open = refl;
        same_paths = refl;
      },
    )
