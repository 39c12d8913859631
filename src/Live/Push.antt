-- ===== src/Live/Push.antt =====
-- live/connection/RtmpPushConnection.h and .cpp: a publisher's connection, its handshake, the stream
-- header for its viewers, and the sending of each packet to all of them. What it hands to
-- `TcpConnection::Send` is a result; the log, with `DebugParseSize`, is left out. `none` is an
-- exception or a null pointer read.
pub mod Handshake
pub mod Viewers
pub mod Start
pub mod Joining
use live_broadcast_server.Common.{
  ℕ, zero, suc, ◌+◌, ◌-◌, ◌/◌, ap, Bool, true, false, not, Option, none, some, List, [], ◌∷◌, ◌++◌,
  map, ◌==◌, if◌then◌else◌, length, be32,
}
use live_broadcast_server.Common.Names.{Map, put, erase, each}
use live_broadcast_server.Format.{get_path_from_url}
use live_broadcast_server.Fifo
use live_broadcast_server.Fifo.{Fifo}
use live_broadcast_server.Rtmp.Pack.{RtmpPack}
use live_broadcast_server.Rtmp.Codec.{RtmpCodec}
use live_broadcast_server.Rtmp.Manager.{
  ShakeHand, c01, c2, set_chunk_size, connect, release_stream, fcpublish, create_stream, publish,
  success, failed, data_not_enough, RtmpManager, Shaken, parse_shake_hand, Handed, parse_data,
  get_url_from_connect_pack, get_password_from_release_pack,
}
use live_broadcast_server.Flv.{FlvTag, new_tag, default_header, get_current_tag_size}
use live_broadcast_server.Flv.Transform.{Rtmp2FlvCodec, transform}
use live_broadcast_server.Live.Replies.{
  server_s01, server_s2, server_acknowledge_size, server_peer_bandwidth, server_set_chunk_size,
  server_connect_result, server_result, server_start,
}
use live_broadcast_server.Live.Pull.{
  HttpPullConnection, new_pull, send_header_on_connection, add_flv_tag,
}

-- `enum ShakeHandResult`
pub data ShakeHandResult : Type 0 where
  shake_authenticate shake_success shake_failed shake_data_not_enough : ShakeHandResult

pub record RtmpPushConnection : Type 0 where
  pub connection_name : List ℕ
  pub client_connection_map : Map HttpPullConnection
  pub rtmp_manager : RtmpManager
  pub rtmp_to_flv_codec : Rtmp2FlvCodec
  pub header_buffer : Fifo

-- What the `switch` of `ShakeHand` sends for a state passed.
abbrev pub responses : ShakeHand → List (List ℕ)
responses c01 = server_s01 ∷ []
responses c2 = server_s2 ∷ []
responses connect =
    server_acknowledge_size ∷ server_peer_bandwidth ∷ server_set_chunk_size ∷ server_connect_result
    ∷ []
responses create_stream = server_result ∷ []
responses publish = server_start ∷ []
responses _ = []

-- Where it returns.
abbrev pub returns : ShakeHand → Option ShakeHandResult
returns release_stream = some shake_authenticate
returns success = some shake_success
returns failed = some shake_failed
returns data_not_enough = some shake_data_not_enough
returns _ = none

pub record Shook : Type 0 where
  pub result : ShakeHandResult
  pub buffer : Fifo
  pub manager : RtmpManager
  pub sent : List (List ℕ)

-- The end of a round: return, or send and go on to the rounds that follow.
abbrev pub end_round : Option ShakeHandResult → Shaken → Option Shook → Option Shook
end_round (some result) r rest =
    some (record { result = result; buffer = r.buffer; manager = r.manager; sent = [] })
end_round none r none = none
end_round none r (some s) = some (record s { sent = responses r.answer ++ s.sent })

-- `ShakeHand`: `none` only if the fuel runs out.
unfoldable pub shake_hand_loop : ℕ → RtmpManager → Fifo → Option Shook
shake_hand_loop zero m buffer = none
shake_hand_loop (suc fuel) m buffer =
    let r = parse_shake_hand m buffer in
    let rest = shake_hand_loop fuel r.manager r.buffer in end_round (returns r.answer) r rest

-- Eight packets at most, and the round that returns.
unfoldable pub shake_hand : RtmpManager → Fifo → Option Shook
unfolding shake_hand_loop
shake_hand m buffer = shake_hand_loop 9 m buffer

unfoldable pub get_rtmp_url : RtmpPushConnection → Option (List ℕ)
get_rtmp_url p = get_url_from_connect_pack p.rtmp_manager

unfoldable pub get_rtmp_path : RtmpPushConnection → Option (List ℕ)
unfolding get_rtmp_url
get_rtmp_path p = elim (get_rtmp_url p) [ none ↦ none | some url ↦ get_path_from_url url ]

-- `AuthenticationCallback`, empty or a function of the name and the password.
abbrev pub Authentication : Type 0
Authentication = Option (List ℕ → List ℕ → Bool)

abbrev pub ask : Authentication → List ℕ → List ℕ → Bool
ask none username password = true
ask (some callback) username password = if callback username password then true else false

unfoldable pub authenticate : Authentication → List ℕ → RtmpPushConnection → Option Bool
unfolding get_rtmp_path
authenticate callback behind p = elim (get_rtmp_path p) [
  | none ↦ none
  | some username ↦ (elim (get_password_from_release_pack behind p.rtmp_manager) [
    | none ↦ none
    | some password ↦ some (ask callback username password)
  ])
]

-- What a handler does besides: `Shutdown()`, or the call of the success callback with the change of
-- the message callback to `OnBodyData`.
pub data Effect : Type 0 where
  no_effect shutdown shake_hand_success : Effect

pub record Handled : Type 0 where
  pub effect : Effect
  pub push : RtmpPushConnection
  pub buffer : Fifo
  pub sent : List (List ℕ)

abbrev authenticated : Option Bool → Option Effect
authenticated none = none
authenticated (some true) = some no_effect
authenticated (some false) = some shutdown

-- The `switch` of `OnConnectionShakeHand`.
abbrev shaken_effect :
    Authentication → List ℕ → RtmpPushConnection → ShakeHandResult → Option Effect
shaken_effect callback behind p shake_authenticate = authenticated (authenticate callback behind p)
shaken_effect callback behind p shake_success = some shake_hand_success
shaken_effect callback behind p shake_failed = some shutdown
shaken_effect callback behind p shake_data_not_enough = some no_effect

unfoldable pub on_connection_shake_hand :
    Authentication → List ℕ → RtmpPushConnection → Fifo → Option Handled
unfolding shake_hand
on_connection_shake_hand callback behind p buffer = elim (shake_hand p.rtmp_manager buffer) [
  | none ↦ none
  | some s ↦
      let q = record p { rtmp_manager = s.manager } in
      (elim (shaken_effect callback behind q s.result) [
        | none ↦ none
        | some e ↦ some (record { effect = e; push = q; buffer = s.buffer; sent = s.sent })
      ])
]

-- A tag in the stream header, behind the size of the one before.
abbrev pub append_tag : Fifo → ℕ → FlvTag → Fifo
append_tag buffer last t =
    Fifo.append_data (Fifo.append_data (Fifo.append_data buffer (be32 last)) t.header) t.body

-- The audio part of the header, where there is an audio packet.
abbrev pub append_audio : ℕ → Fifo → FlvTag → Rtmp2FlvCodec → Option RtmpPack → Rtmp2FlvCodec × Fifo
append_audio garbage buffer video c none = (c, buffer)
append_audio garbage buffer video c (some audio) =
    let a = transform garbage c audio new_tag in
    (a.0, append_tag buffer (get_current_tag_size video) a.1)

-- The body of the `if`; `stack` is what the stack holds at each transformation.
pub make_header : (ℕ → ℕ) → Rtmp2FlvCodec → RtmpCodec → Fifo → Option (Rtmp2FlvCodec × Fifo)
make_header stack c k buffer = elim k.first_script_pack [
  | none ↦ none
  | some script ↦ (elim k.first_video_pack [
    | none ↦ none
    | some video ↦
        let s = transform (stack 0) c script new_tag in
        let v = transform (stack 1) s.0 video new_tag in
        some (
          append_audio (stack 2)
            (append_tag (append_tag (Fifo.append_data buffer default_header) 0 s.1)
              (get_current_tag_size s.1) v.1)
            v.1 v.0 k.first_audio_pack)
  ])
]

abbrev pub keep_header :
    RtmpPushConnection → Option (Rtmp2FlvCodec × Fifo) → Option (RtmpPushConnection × Fifo)
keep_header p none = none
keep_header p (some h) = some (record p { rtmp_to_flv_codec = h.0; header_buffer = h.1 }, h.1)

unfoldable pub get_header_data_buffer :
    (ℕ → ℕ) → RtmpPushConnection → Option (RtmpPushConnection × Fifo)
unfolding make_header
get_header_data_buffer stack p =
    if Fifo.readable_length p.header_buffer == 0
    then keep_header p
        (make_header stack p.rtmp_to_flv_codec p.rtmp_manager.rtmp_codec p.header_buffer)
    else some (p, p.header_buffer)

abbrev pub send_header : Option (RtmpPushConnection × Fifo) → Option (RtmpPushConnection × List ℕ)
send_header none = none
send_header (some h) = some (h.0, send_header_on_connection h.1)

-- `AddClientConnection` with `SendHeaderToClientConnection`: the viewer is in the map even when
-- the header cannot be made. The result is what the viewer is sent.
unfoldable pub add_client_connection :
    (ℕ → ℕ) → List ℕ → RtmpPushConnection → Option (RtmpPushConnection × List ℕ)
unfolding get_header_data_buffer
add_client_connection stack name p =
    let q = record p { client_connection_map = put name new_pull p.client_connection_map } in
    send_header (get_header_data_buffer stack q)

-- `OnNewFlvTag`: what each viewer is sent.
unfoldable pub on_new_flv_tag : RtmpPushConnection → FlvTag → RtmpPushConnection × Map (List ℕ)
on_new_flv_tag p t =
    let r = each (λ name c. add_flv_tag c t) p.client_connection_map in
    (record p { client_connection_map = r.0 }, r.1)

unfoldable pub on_new_rtmp_pack :
    ℕ → RtmpPushConnection → RtmpPack → RtmpPushConnection × Map (List ℕ)
unfolding on_new_flv_tag
on_new_rtmp_pack garbage p pack =
    let t = transform garbage p.rtmp_to_flv_codec pack new_tag in
    on_new_flv_tag (record p { rtmp_to_flv_codec = t.0 }) t.1

-- `if (new_rtmp_pack_callback_)`, of the packet that `ParseData` hands on.
abbrev pub deliver : ℕ → RtmpPushConnection → Option RtmpPack → RtmpPushConnection × Map (List ℕ)
deliver garbage p none = (p, [])
deliver garbage p (some pack) = on_new_rtmp_pack garbage p pack

-- `OnBodyData`: the connection, what is left in the buffer, and what each viewer is sent.
abbrev pub on_body_data :
    ℕ → RtmpPushConnection → Fifo → Option (RtmpPushConnection × Fifo × Map (List ℕ))
on_body_data garbage p buffer = elim (parse_data p.rtmp_manager buffer) [
  | none ↦ none
  | some h ↦
      let d = deliver garbage (record p { rtmp_manager = h.manager }) h.delivered in
      some (d.0, h.buffer, d.1)
]

pub on_connection_close : RtmpPushConnection → List ℕ → RtmpPushConnection
on_connection_close p name = record p { client_connection_map = erase name p.client_connection_map }
