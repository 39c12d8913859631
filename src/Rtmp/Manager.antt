-- ===== src/Rtmp/Manager.antt =====
-- utils/codec/RtmpManager.h and RtmpManager.cpp: the handshake of a publisher, packet by packet, and
-- the handing on of the packets that follow, in the build without MONITOR_MODE.
pub mod Handshake
pub mod Data
use live_broadcast_server.Common.{
  ◌++◌, ℕ, zero, suc, ◌+◌, ◌-◌, ◌<◌, false, Option, none, some, List, [], ◌∷◌, ltb, ◌==◌,
  if◌then◌else◌, length, take, drop, get_elem?,
}
use live_broadcast_server.Text.{find, c_string}
use live_broadcast_server.Fifo
use live_broadcast_server.Fifo.{Fifo}
use live_broadcast_server.Rtmp.Pack.{RtmpPack}
use live_broadcast_server.Rtmp.Codec.{RtmpCodec, Decoded, decode_pack}
use live_broadcast_server.Rtmp.Codec.Data.{decode_data}

-- `enum ShakeHandPackType`: a state of the handshake, and what a call answers.
pub data ShakeHand : Type 0 where
  c01 c2 set_chunk_size connect release_stream fcpublish create_stream publish : ShakeHand
  success failed data_not_enough : ShakeHand

-- Members that the code never reads or only passes out (`parsed_status_`, `parsed_length_`,
-- `flv_manager_`, `last_flv_ptr_`) are left out; the packet callback is the `delivered` below.
pub record RtmpManager : Type 0 where
  pub rtmp_codec : RtmpCodec
  pub shake_hand_status : ShakeHand
  pub connect_pack : RtmpPack
  pub release_pack : RtmpPack

-- `RtmpManager()`; the scalars of the two packs are what they were made with.
abbrev pub new_manager : RtmpCodec → RtmpPack → RtmpPack → RtmpManager
new_manager codec connect_pack release_pack = record {
  rtmp_codec = codec;
  shake_hand_status = c01;
  connect_pack = record connect_pack { buffer = [] };
  release_pack = record release_pack { buffer = [] };
}

-- `ParseHeaderAndBody`: the result, the packet written, and what is left. A call that finishes no
-- packet returns 0, an error too.
pub record Parsed : Type 0 where
  pub parse : Option ℕ
  pub pack : RtmpPack
  pub buffer : Fifo
  pub codec : RtmpCodec

pub parse_header_and_body : RtmpCodec → Fifo → Parsed
parse_header_and_body c buffer =
    let d = decode_pack c buffer false in
    record {
      parse = if d.pack_finish then d.result else some 0;
      pack = d.codec.last_rtmp_pack;
      buffer = d.buffer;
      codec = d.codec;
    }

pub record Shaken : Type 0 where
  pub answer : ShakeHand
  pub buffer : Fifo
  pub manager : RtmpManager

-- The end of `ParseShakeHand`, reached when the packet of a state is not there: `parse` is 0 or -1.
not_parsed : Option ℕ → RtmpManager → Fifo → Shaken
not_parsed (some zero) m buffer = record { answer = data_not_enough; buffer = buffer; manager = m }
not_parsed _ m buffer = record {
  answer = failed;
  buffer = buffer;
  manager = record m { shake_hand_status = failed };
}

-- `if (parse > 0) { shake_hand_status_ = …; return …; } break;`
pub on_parse : Option ℕ → RtmpManager → Fifo → ShakeHand → ShakeHand → Shaken
unfolding not_parsed
on_parse (some (suc n)) m buffer answer next = record {
  answer = answer;
  buffer = buffer;
  manager = record m { shake_hand_status = next };
}
on_parse parse m buffer answer next = not_parsed parse m buffer

-- `if (ReadableLength() < n) return SHAKE_DATA_NOT_ENOUGH;` and the fixed-size packet otherwise.
pub skip_fixed : RtmpManager → Fifo → ℕ → ShakeHand → ShakeHand → Shaken
skip_fixed m buffer n answer next =
    if ltb (Fifo.readable_length buffer) n
    then record { answer = data_not_enough; buffer = buffer; manager = m }
    else record {
      answer = answer;
      buffer = Fifo.add_read_index buffer n;
      manager = record m { shake_hand_status = next };
    }

-- The state of `createStream`: a 0xc3 byte stands for a packet of 26 bytes.
pub parse_create_stream : RtmpManager → Fifo → Shaken
unfolding not_parsed on_parse
parse_create_stream m [] = not_parsed (some 0) m []
parse_create_stream m (x ∷ xs) =
    let p = parse_header_and_body m.rtmp_codec (x ∷ xs) in
    if x == 0xc3
    then record {
      answer = create_stream;
      buffer = Fifo.add_read_index (x ∷ xs) 26;
      manager = record m { shake_hand_status = publish };
    }
    else on_parse p.parse (record m { rtmp_codec = p.codec }) p.buffer create_stream publish

unfoldable pub parse_in : ShakeHand → RtmpManager → Fifo → Shaken
unfolding on_parse skip_fixed parse_create_stream
parse_in c01 m buffer = skip_fixed m buffer 1537 c01 c2
parse_in c2 m buffer = skip_fixed m buffer 1536 c2 set_chunk_size
parse_in set_chunk_size m buffer =
    let p = parse_header_and_body m.rtmp_codec buffer in
    on_parse p.parse (record m { rtmp_codec = p.codec }) p.buffer set_chunk_size connect
parse_in connect m buffer =
    let p = parse_header_and_body m.rtmp_codec buffer in
    on_parse p.parse (record m { rtmp_codec = p.codec; connect_pack = p.pack }) p.buffer connect
      release_stream
parse_in release_stream m buffer =
    let p = parse_header_and_body m.rtmp_codec buffer in
    on_parse p.parse (record m { rtmp_codec = p.codec; release_pack = p.pack }) p.buffer
      release_stream fcpublish
parse_in fcpublish m buffer =
    let p = parse_header_and_body m.rtmp_codec buffer in
    on_parse p.parse (record m { rtmp_codec = p.codec }) p.buffer fcpublish create_stream
parse_in create_stream m buffer = parse_create_stream m buffer
parse_in publish m buffer =
    let p = parse_header_and_body m.rtmp_codec buffer in
    on_parse p.parse (record m { rtmp_codec = p.codec }) p.buffer publish success
parse_in success m buffer = record { answer = success; buffer = buffer; manager = m }
parse_in failed m buffer = record { answer = failed; buffer = buffer; manager = m }
parse_in data_not_enough m buffer = record {
  answer = data_not_enough;
  buffer = buffer;
  manager = m;
}

unfoldable pub parse_shake_hand : RtmpManager → Fifo → Shaken
unfolding parse_in
parse_shake_hand m buffer = parse_in m.shake_hand_status m buffer

-- `ParseData`: the packet that goes to the callback, if one does.
pub record Handed : Type 0 where
  pub result : Option ℕ
  pub delivered : Option RtmpPack
  pub buffer : Fifo
  pub manager : RtmpManager

abbrev pub hand_on : RtmpManager → Decoded → Handed
hand_on m d = record {
  result = d.result;
  delivered = if d.pack_finish then some d.codec.last_rtmp_pack else none;
  buffer = d.buffer;
  manager = record m { rtmp_codec = d.codec };
}

abbrev pub hand_all : RtmpManager → Option Decoded → Option Handed
hand_all m none = none
hand_all m (some d) = some (hand_on m d)

-- `none` only if the fuel of `decode_data` runs out.
pub parse_data : RtmpManager → Fifo → Option Handed
parse_data m buffer = hand_all m (decode_data m.rtmp_codec buffer)

-- "rtmp"
abbrev rtmp_word : List ℕ
rtmp_word = b'r' ∷ b't' ∷ b'm' ∷ b'p' ∷ []

-- `GetUrlFromConnectPack`; `none` where the packet names no url and the code reads past the string.
unfoldable pub get_url_from_connect_pack : RtmpManager → Option (List ℕ)
get_url_from_connect_pack m = elim (find rtmp_word m.connect_pack.buffer) [
  | none ↦ none
  | some i ↦ some (c_string (drop i m.connect_pack.buffer))
]

-- `GetPasswordFromReleasePack`: a length byte at 28 and that many bytes behind it. `behind` is what the
-- packet's vector holds behind its data, which is read as well where the packet is short. `none` where
-- the vector ends before, or where the byte, a signed `char`, is negative.
abbrev pub get_password_from_release_pack : List ℕ → RtmpManager → Option (List ℕ)
get_password_from_release_pack behind m =
    let body = m.release_pack.buffer ++ behind in
    elim (get_elem? body 28) [
      | none ↦ none
      | some len ↦
          (if ltb len 128
            then (if ltb (length body) (29 + len) then none else some (take len (drop 29 body)))
            else none)
    ]
