-- ===== src/Live/Publish.antt =====
-- live/RtmpPushServer.h and RtmpPushServer.cpp: the publishers, and the path under which each one is
-- found. A `shared_ptr` to a publisher is the name of its connection: `publishers` holds the objects,
-- which the server's map and the callbacks of connections share. An object is kept there after its
-- last owner is gone, since nothing can ask for it then.
pub mod Streaming
pub mod Bound
use live_broadcast_server.Common.{
  ℕ, ◌≡◌, subst, ◌≢◌, Bool, if◌then◌else◌, ◌∷◌, true, false, Option, none, some, List, [], arith,
}
use live_broadcast_server.Common.Names.{
  Map, find_key, put, erase, find_key-put, find_key-put_other, find_key-erase_other,
}
use live_broadcast_server.Fifo.{Fifo}
use live_broadcast_server.Rtmp.Manager.{RtmpManager}
use live_broadcast_server.Flv.Transform.{new_codec}
use live_broadcast_server.Logger.{Item, string, c_text, level_info}
use live_broadcast_server.Live.Log.{LogAt, logs}
use live_broadcast_server.Live.Push.{
  RtmpPushConnection, Authentication, Effect, no_effect, shutdown, shake_hand_success, Handled,
  on_connection_shake_hand, on_body_data, get_rtmp_path,
}

-- The message callback of a publisher's connection.
pub data Phase : Type 0 where
  shaking streaming : Phase

pub record Publisher : Type 0 where
  pub phase : Phase
  pub push : RtmpPushConnection

pub record RtmpPushServer : Type 0 where
  pub rtmp_connection_map : Map (List ℕ)
  pub publishers : Map Publisher
  pub authentication_callback : Authentication

-- `RtmpPushServer(...)` with `DefaultAuthenticateCallback`.
abbrev pub new_server : RtmpPushServer
new_server = record {
  rtmp_connection_map = [];
  publishers = [];
  authentication_callback = some (λ username password. true);
}

-- `RtmpPushConnection(connection_ptr)`, with the manager that it constructs.
abbrev new_push : RtmpManager → List ℕ → RtmpPushConnection
new_push manager name = record {
  connection_name = name;
  client_connection_map = [];
  rtmp_manager = manager;
  rtmp_to_flv_codec = new_codec;
  header_buffer = [];
}

unfoldable pub get_push_conn_by_url : List ℕ → RtmpPushServer → Option (List ℕ)
get_push_conn_by_url url s = find_key url s.rtmp_connection_map

-- The file's name in its log statements.
abbrev push_server_file : List ℕ
push_server_file =
    b'R' ∷ b't' ∷ b'm' ∷ b'p' ∷ b'P' ∷ b'u' ∷ b's' ∷ b'h' ∷ b'S' ∷ b'e' ∷ b'r' ∷ b'v' ∷ b'e' ∷ b'r'
    ∷ b'.' ∷ b'c' ∷ b'p' ∷ b'p' ∷ []

-- `LOG_INFO << "server: " << ... << " bind to " << path`
abbrev bind_items : List ℕ → List ℕ → List Item
bind_items name path =
    c_text (b's' ∷ b'e' ∷ b'r' ∷ b'v' ∷ b'e' ∷ b'r' ∷ b':' ∷ 32 ∷ [])
    ∷ string name
    ∷ c_text (32 ∷ b'b' ∷ b'i' ∷ b'n' ∷ b'd' ∷ 32 ∷ b't' ∷ b'o' ∷ 32 ∷ [])
    ∷ string path
    ∷ []

pub bind_path :
    LogAt → RtmpPushConnection → Option (List ℕ) → RtmpPushServer → Option RtmpPushServer
unfolding logs
bind_path log p none s = none
bind_path log p (some path) s =
    if logs log level_info push_server_file 58 (bind_items p.connection_name path)
    then some (record s { rtmp_connection_map = put path p.connection_name s.rtmp_connection_map })
    else none

-- `none`: the path of the publisher cannot be read, or is too long for the log.
pub on_shake_hand_success : LogAt → RtmpPushConnection → RtmpPushServer → Option RtmpPushServer
unfolding bind_path
on_shake_hand_success log p s = bind_path log p (get_rtmp_path p) s

remove_rtmp_push_connection : List ℕ → RtmpPushServer → RtmpPushServer
remove_rtmp_push_connection name s = record s {
  rtmp_connection_map = erase name s.rtmp_connection_map;
}

-- `OnConnection`, of a connection that is up or down.
pub on_connection : RtmpManager → Bool → List ℕ → RtmpPushServer → RtmpPushServer
unfolding remove_rtmp_push_connection
on_connection manager true name s = record s {
  publishers = put name (record { phase = shaking; push = new_push manager name }) s.publishers;
}
on_connection manager false name s = remove_rtmp_push_connection name s

abbrev store : List ℕ → Phase → RtmpPushConnection → RtmpPushServer → RtmpPushServer
store name phase p s = record s {
  publishers = put name (record { phase = phase; push = p }) s.publishers;
}

abbrev pub store_bound : List ℕ → RtmpPushConnection → Option RtmpPushServer → Option RtmpPushServer
store_bound name p none = none
store_bound name p (some t) = some (store name streaming p t)

-- The callbacks that follow from the handshake: success binds the path and changes the phase.
pub effect_in :
    LogAt → Effect → List ℕ → RtmpPushConnection → RtmpPushServer → Option RtmpPushServer
unfolding on_shake_hand_success
effect_in log no_effect name p s = some (store name shaking p s)
effect_in log shutdown name p s = some (store name shaking p s)
effect_in log shake_hand_success name p s = store_bound name p (on_shake_hand_success log p s)

after_shake : LogAt → List ℕ → Handled → RtmpPushServer → Option RtmpPushServer
unfolding effect_in
after_shake log name h s = effect_in log h.effect name h.push s

-- A message of a publisher: the server, what is left in the buffer, what the publisher is sent, and
-- what each of its viewers is sent.
pub record Published : Type 0 where
  pub server : RtmpPushServer
  pub buffer : Fifo
  pub sent : List (List ℕ)
  pub viewers : Map (List ℕ)
  pub shut : Bool

abbrev is_shutdown : Effect → Bool
is_shutdown shutdown = true
is_shutdown _ = false

abbrev pub shook : Handled → Option RtmpPushServer → Option Published
shook h none = none
shook h (some t) = some (record {
  server = t;
  buffer = h.buffer;
  sent = h.sent;
  viewers = [];
  shut = is_shutdown h.effect;
})

abbrev pub shake : LogAt → List ℕ → Option Handled → RtmpPushServer → Option Published
unfolding after_shake
shake log name none s = none
shake log name (some h) s = shook h (after_shake log name h s)

abbrev pub streamed :
    List ℕ → Option (RtmpPushConnection × Fifo × Map (List ℕ)) → RtmpPushServer → Option Published
streamed name none s = none
streamed name (some d) s = some (record {
  server = store name streaming d.0 s;
  buffer = d.1;
  sent = [];
  viewers = d.2;
  shut = false;
})

-- What a message callback finds outside the objects: the state of the log, the memory behind the
-- release packet's data, and what the stack holds at a transformation.
pub record Surroundings : Type 0 where
  pub log : LogAt
  pub behind_release : List ℕ
  pub garbage : ℕ

-- The two message callbacks.
pub message_in :
    Phase → Surroundings → List ℕ → RtmpPushConnection → Fifo → RtmpPushServer → Option Published
unfolding shake
message_in shaking around name p buffer s =
    shake around.log name
      (on_connection_shake_hand s.authentication_callback around.behind_release p buffer) s
message_in streaming around name p buffer s = streamed name (on_body_data around.garbage p buffer) s

pub on_message : Surroundings → List ℕ → Publisher → Fifo → RtmpPushServer → Option Published
unfolding message_in
on_message around name p buffer s = message_in p.phase around name p.push buffer s
