-- ===== src/Tests/Data.antt =====
-- Packets, messages, codecs and connections that the tests are run on.
use live_broadcast_server.Common.{replicate, refl, arith}
use live_broadcast_server.Logger.{level_debug, new_cache, format_time}
use live_broadcast_server.Live.Log.{LogContext, LogAt, IsLogContext}
use live_broadcast_server.Common.{ℕ, refl, false, none, some, List, [], ◌∷◌, ◌++◌, arith}
use live_broadcast_server.Rtmp.Pack.{RtmpPack, fmt0, video, script, other}
use live_broadcast_server.Rtmp.Pack.Header.{Header, IsHeader, encode_header, word_bytes}
use live_broadcast_server.Rtmp.Codec.{RtmpCodec, parse_first_header, parse_rtmp_header}
use live_broadcast_server.Rtmp.Codec.Pack.{IsValid}
use live_broadcast_server.Rtmp.Codec.Stream.{Message, last, Expects, at_header}
use live_broadcast_server.Rtmp.Manager.{RtmpManager, new_manager}
use live_broadcast_server.Flv.Transform.{new_codec}
use live_broadcast_server.Live.Pull.{new_pull}
use live_broadcast_server.Live.Push.{RtmpPushConnection}

abbrev pub three : List ℕ
three = 1 ∷ 2 ∷ 3 ∷ []

abbrev pub empty_pack : RtmpPack
empty_pack = record {
  fmt = fmt0;
  csid = 0;
  timestamp = word_bytes 0;
  data_size = word_bytes 0;
  pack_type = other;
  stream_id = 0;
  buffer = [];
}

abbrev pub script_pack : RtmpPack
script_pack = record empty_pack { data_size = word_bytes 3; pack_type = script; buffer = three }

abbrev pub video_pack : RtmpPack
video_pack = record empty_pack {
  timestamp = word_bytes 40;
  data_size = word_bytes 3;
  pack_type = video;
  buffer = three;
}

abbrev pub codec : RtmpCodec
codec = record {
  decode_data_status = parse_first_header;
  decode_pack_status = parse_rtmp_header;
  read_chunk_size = 0;
  current_rtmp_pack = empty_pack;
  chunk_over = false;
  last_rtmp_pack = empty_pack;
  first_script_pack = none;
  first_video_pack = none;
  first_audio_pack = none;
}

abbrev pub started_codec : RtmpCodec
started_codec = record codec {
  first_script_pack = some script_pack;
  first_video_pack = some video_pack;
}

abbrev pub header : Header
header = record { csid = 4; timestamp = 40; size = 3; pack_type = video; stream_id = 1 }

abbrev pub message : Message
message = record { timestamp = word_bytes 40; pack_type = video; stream_id = 1; body = three }

pub header-IsHeader : IsHeader header
header-IsHeader = record {
  csid_lt = omega arith;
  timestamp_lt = omega arith;
  size_lt = omega arith;
  stream_id_lt = omega arith;
}

pub codec-IsValid : IsValid codec
codec-IsValid = record { within_chunk = omega arith; at_header = λ e. refl }

abbrev pub wire : List ℕ
wire = encode_header fmt0 header ++ three

pub codec-Expects : Expects message codec wire
codec-Expects =
    at_header fmt0 header three three refl refl header-IsHeader
      (record {
        timestamp = refl;
        data_size = refl;
        pack_type = refl;
        stream_id = refl;
        body = refl;
        short = omega arith;
      })
      (last refl (omega arith) refl) refl

abbrev pub manager : RtmpManager
manager = new_manager codec empty_pack empty_pack

abbrev pub viewer : List ℕ
viewer = b'v' ∷ []

abbrev pub second_viewer : List ℕ
second_viewer = b'w' ∷ []

abbrev pub push : RtmpPushConnection
push = record {
  connection_name = b'p' ∷ [];
  client_connection_map = (viewer, new_pull) ∷ (second_viewer, new_pull) ∷ [];
  rtmp_manager = record manager { rtmp_codec = started_codec };
  rtmp_to_flv_codec = new_codec;
  header_buffer = [];
}

abbrev pub packets : List (ℕ × RtmpPack)
packets = (7, script_pack) ∷ (0, video_pack) ∷ []

-- What the stack holds.
abbrev pub stack : ℕ → ℕ
stack n = n

-- The log at every statement: its level puts out all, and every second has the same text.
abbrev pub log_context : LogContext
log_context = record {
  calendar = λ second. replicate 17 48;
  level = level_debug;
  cache = new_cache;
  tid = 12;
  time = 5000042;
}

abbrev pub log : LogAt
log line = log_context

pub log-IsLogContext : (line : ℕ) → IsLogContext (log line)
unfolding format_time
log-IsLogContext line = record { stamp = refl; tid_lt = omega arith }
