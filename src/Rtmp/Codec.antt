-- ===== src/Rtmp/Codec.antt =====
-- utils/codec/RtmpCodec.h and RtmpCodec.cpp: the decoder of an RTMP chunk stream, in the build
-- without MONITOR_MODE (so a first audio packet is awaited, and the chunk size is 4096).
-- Buffers are the queues of `Fifo`. A `ssize_t` result is an `Option ℕ` whose `none` is -1.
pub mod Data
pub mod Pack
pub mod Valid
pub mod Chunks
pub mod Stream
pub mod Loops
pub mod Total
use live_broadcast_server.Common.{
  ℕ, zero, suc, ◌+◌, ◌-◌, Bool, true, false, ◌&&◌, Option, none, some, List, [], ltb, leb, ◌==◌,
  if◌then◌else◌, length, take, sub_u32, add_u32, not,
}
use live_broadcast_server.Fifo
use live_broadcast_server.Fifo.{Fifo}
use live_broadcast_server.Rtmp.Pack.{
  RtmpPack, PackType, other, abort, acknowledge, control, audio, video, script, decode_header,
  get_body_remain_size, append_data,
}

-- `enum DecodeDataStatus`
pub data DataStatus : Type 0 where
  parse_first_header parse_data_pack : DataStatus

-- `enum DecodePackStatus`
pub data PackStatus : Type 0 where
  parse_rtmp_header parse_rtmp_body : PackStatus

abbrev pub rtmp_start_parse_length : ℕ
rtmp_start_parse_length = 1000

-- `rtmp_chunk_size_`, which nothing changes.
abbrev pub rtmp_chunk_size : ℕ
rtmp_chunk_size = 4096

pub record RtmpCodec : Type 0 where
  pub decode_data_status : DataStatus
  pub decode_pack_status : PackStatus
  pub read_chunk_size : ℕ
  pub current_rtmp_pack : RtmpPack
  pub chunk_over : Bool
  pub last_rtmp_pack : RtmpPack
  pub first_script_pack : Option RtmpPack
  pub first_video_pack : Option RtmpPack
  pub first_audio_pack : Option RtmpPack

-- `RtmpCodec()` sets the two states only: what the other scalar members hold is an argument.
abbrev pub init : ℕ → Bool → RtmpPack → RtmpPack → RtmpCodec
init read_chunk_size chunk_over current last = record {
  decode_data_status = parse_first_header;
  decode_pack_status = parse_rtmp_header;
  read_chunk_size = read_chunk_size;
  current_rtmp_pack = record current { buffer = [] };
  chunk_over = chunk_over;
  last_rtmp_pack = record last { buffer = [] };
  first_script_pack = none;
  first_video_pack = none;
  first_audio_pack = none;
}

-- What `DecodeBody` returns, writes through `body_finish` and leaves behind.
pub record Body : Type 0 where
  pub read_length : ℕ
  pub body_finish : Bool
  pub codec : RtmpCodec

-- `current_rtmp_pack_.AppendData(data, n)`
pub take_in : RtmpCodec → List ℕ → ℕ → RtmpCodec
unfolding append_data
take_in c xs n = record c { current_rtmp_pack = append_data c.current_rtmp_pack (take n xs) }

-- The last chunk of a packet.
decode_last : RtmpCodec → List ℕ → ℕ → Body
unfolding take_in
decode_last c xs remain =
    if ltb (length xs) remain
    then record { read_length = length xs; body_finish = false; codec = take_in c xs (length xs) }
    else record { read_length = remain; body_finish = true; codec = take_in c xs remain }

-- A full chunk with more to come.
decode_chunk : RtmpCodec → List ℕ → Body
unfolding take_in
decode_chunk c xs =
    let chunk_remain = sub_u32 rtmp_chunk_size c.read_chunk_size in
    if ltb (length xs) chunk_remain
    then record {
      read_length = length xs;
      body_finish = false;
      codec = record (take_in c xs (length xs)) {
        read_chunk_size = add_u32 c.read_chunk_size (length xs);
      };
    }
    else record {
      read_length = chunk_remain;
      body_finish = true;
      codec = record (take_in c xs chunk_remain) { read_chunk_size = 0 };
    }

pub decode_body : RtmpCodec → List ℕ → Body
unfolding decode_last decode_chunk get_body_remain_size
decode_body c xs =
    let remain = get_body_remain_size c.current_rtmp_pack in
    if leb remain rtmp_chunk_size && c.read_chunk_size == 0
    then decode_last (record c { chunk_over = true }) xs remain
    else decode_chunk (record c { chunk_over = false }) xs

-- The result of a call that takes a `Buffer*` and a `bool* pack_finish`.
pub record Decoded : Type 0 where
  pub result : Option ℕ
  pub pack_finish : Bool
  pub buffer : Fifo
  pub codec : RtmpCodec

-- A packet is complete: it becomes the last one, and the body is dropped for the next.
pub finish_pack : RtmpCodec → RtmpCodec
finish_pack c = record c {
  last_rtmp_pack = c.current_rtmp_pack;
  current_rtmp_pack = record c.current_rtmp_pack {
    buffer = Fifo.drop_all_data c.current_rtmp_pack.buffer;
  };
}

-- `if (body_finish) { … }`
pub after_body : Body → ℕ → Fifo → Bool → Decoded
unfolding finish_pack
after_body d read buffer finish =
    let c = record d.codec { decode_pack_status = parse_rtmp_header } in
    let n = read + d.read_length in
    if d.body_finish
    then (if d.codec.chunk_over
        then record { result = some n; pack_finish = true; buffer = buffer; codec = finish_pack c }
        else record { result = some n; pack_finish = finish; buffer = buffer; codec = c })
    else record { result = some n; pack_finish = finish; buffer = buffer; codec = d.codec }

-- `if (decode_pack_status == PARSE_RTMP_BODY) { … }`, with `read` bytes of header read before.
pub body_step : RtmpCodec → Fifo → Bool → ℕ → Decoded
unfolding after_body
body_step c buffer finish read =
    let d = decode_body c (Fifo.read_begin buffer) in
    after_body d read (Fifo.add_read_index buffer d.read_length) finish

-- What follows the header's decoder, by its result.
pub after_header : Option ℕ → RtmpCodec → Fifo → Bool → Decoded
after_header none c buffer finish = record {
  result = none;
  pack_finish = finish;
  buffer = buffer;
  codec = c;
}
after_header (some zero) c buffer finish = record {
  result = some 0;
  pack_finish = finish;
  buffer = buffer;
  codec = c;
}
after_header (some (suc n)) c buffer finish =
    body_step (record c { decode_pack_status = parse_rtmp_body })
      (Fifo.add_read_index buffer (suc n)) finish (suc n)

pub header_step : RtmpCodec → Fifo → Bool → Decoded
header_step c buffer finish =
    let h = decode_header c.current_rtmp_pack (some (Fifo.read_begin buffer)) in
    after_header h.0 (record c { current_rtmp_pack = h.1 }) buffer finish

pub decode_pack_in : PackStatus → RtmpCodec → Fifo → Bool → Decoded
decode_pack_in parse_rtmp_header c buffer finish = header_step c buffer finish
decode_pack_in parse_rtmp_body c buffer finish = body_step c buffer finish 0

pub decode_pack : RtmpCodec → Fifo → Bool → Decoded
unfolding decode_pack_in
decode_pack c buffer finish =
    if Fifo.readable_length buffer == 0
    then record { result = some 0; pack_finish = finish; buffer = buffer; codec = c }
    else decode_pack_in c.decode_pack_status c buffer finish

-- The `switch` of `ParseFirstHeader` on a packet just finished.
pub store_first : RtmpCodec → PackType → RtmpCodec
store_first c audio = record c { first_audio_pack = some c.last_rtmp_pack }
store_first c video = record c { first_video_pack = some c.last_rtmp_pack }
store_first c script = record c { first_script_pack = some c.last_rtmp_pack }
store_first c _ = c

abbrev is_some {ℓ} : {A : Type ℓ} → Option A → Bool
is_some none = false
is_some (some a) = true

-- All three first packets are there.
abbrev pub has_first : RtmpCodec → Bool
has_first c =
    is_some c.first_audio_pack && (is_some c.first_video_pack && is_some c.first_script_pack)

-- The loop of `ParseFirstHeader`, on fuel; `none` means that the fuel ran out. An error leaves
-- `first_header_finish` false, as it was set at the start.
pub first_loop : ℕ → RtmpCodec → Fifo → ℕ → Option Decoded
first_loop zero c buffer sum = none
first_loop (suc fuel) c buffer sum =
    let d = decode_pack c buffer false in
    let c' =
      (if d.pack_finish then store_first d.codec d.codec.last_rtmp_pack.pack_type else d.codec) in
    elim (has_first c) [
      | true ↦ some (record { result = some sum; pack_finish = true; buffer = buffer; codec = c })
      | false ↦ elim d.result [
        | none ↦ some (record { result = none; pack_finish = false; buffer = d.buffer; codec = c' })
        | some zero ↦ some (record {
          result = some sum;
          pack_finish = has_first c';
          buffer = d.buffer;
          codec = c';
        })
        | some (suc n) ↦ first_loop fuel c' d.buffer (sum + suc n)
      ]
    ]

-- The fuel is more than the bytes there are, and each round but the last takes one at least.
pub parse_first : RtmpCodec → Fifo → Option Decoded
parse_first c buffer =
    if ltb (Fifo.readable_length buffer) rtmp_start_parse_length
    then some (record { result = some 0; pack_finish = false; buffer = buffer; codec = c })
    else first_loop (suc (Fifo.readable_length buffer)) c buffer 0
