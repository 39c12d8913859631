-- ===== src/Flv/Manager.antt =====
-- utils/codec/FlvManager.h and FlvManager.cpp: tags read back from a buffer. Files (utils/File) are
-- not modelled, nor the loop of `ParseFile` that refills the buffer from one; `flv_tags_` is an owner
-- only.
pub mod Reread
use live_broadcast_server.Common.{
  ℕ, ◌+◌, ◌-◌, zero, suc, ltb, leb, if◌then◌else◌, length, take, drop, sub_size, Option, none, some,
  Bool, true, false,
}
use live_broadcast_server.Fifo
use live_broadcast_server.Fifo.{Fifo}
use live_broadcast_server.Flv.{
  FlvHeader, FlvTag, get_data_size, get_body_data_length, append_data, decode_tag_header,
  decode_file_header, flv_tag_header_length,
}

-- `enum ParseStatus`
pub data ParseStatus : Type 0 where
  tag_header tag_data : ParseStatus

-- A tag being read: the result (`none` is -1), the tag, the status and the buffer.
pub record TagParse : Type 0 where
  pub parsed : Option ℕ
  pub tag : FlvTag
  pub status : ParseStatus
  pub buffer : Fifo

unfoldable pub parse_header : Fifo → FlvHeader → ℕ × Fifo × Option FlvHeader
unfolding decode_file_header
parse_header buffer h =
    let d = decode_file_header (Fifo.read_begin buffer) (some h) in
    (d.0, (if ltb 0 d.0 then Fifo.add_read_index buffer d.0 else buffer), d.1)

unfoldable pub parse_tag_header : Fifo → ParseStatus → FlvTag → TagParse
unfolding decode_tag_header
parse_tag_header buffer status t =
    if ltb (Fifo.readable_length buffer) flv_tag_header_length
    then record { parsed = some 0; tag = t; status = status; buffer = buffer }
    else let d = decode_tag_header (Fifo.read_begin buffer) t in
      if ltb 0 d.0
      then record {
        parsed = some d.0;
        tag = d.1;
        status = tag_data;
        buffer = Fifo.add_read_index buffer d.0;
      }
      else record { parsed = none; tag = d.1; status = status; buffer = buffer }

pub parse_tag_data : Fifo → ParseStatus → FlvTag → TagParse
unfolding get_data_size get_body_data_length append_data
parse_tag_data buffer status t =
    let remain_size = sub_size (get_data_size t) (get_body_data_length t) in
    if leb remain_size (Fifo.readable_length buffer)
    then record {
      parsed = some (get_data_size t);
      tag = append_data t (take remain_size (Fifo.read_begin buffer));
      status = tag_header;
      buffer = Fifo.add_read_index buffer remain_size;
    }
    else record {
      parsed = some 0;
      tag = append_data t (Fifo.read_begin buffer);
      status = status;
      buffer = Fifo.drop_all_data buffer;
    }

-- `if (parsed <= 0) return -1;`
abbrev is_positive : Option ℕ → Bool
is_positive (some (suc n)) = true
is_positive _ = false

abbrev or_zero : Option ℕ → ℕ
or_zero none = 0
or_zero (some n) = n

-- `ParseScripTag`, and a round of the loop in `ParseVideoAudio`: a whole tag, or an error.
pub parse_whole_tag : Fifo → ParseStatus → FlvTag → TagParse
unfolding parse_tag_header parse_tag_data
parse_whole_tag buffer status t =
    let h = parse_tag_header buffer status t in
    let d = parse_tag_data h.buffer h.status h.tag in
    if is_positive h.parsed
    then if is_positive d.parsed
      then record d { parsed = some (or_zero h.parsed + or_zero d.parsed) }
      else record d { parsed = none }
    else record h { parsed = none }

pub record TagsParse : Type 0 where
  pub sum_parsed : Option ℕ
  pub first : FlvTag
  pub second : FlvTag
  pub status : ParseStatus
  pub buffer : Fifo

-- `ParseVideoAudio`
unfoldable pub parse_video_audio : Fifo → ParseStatus → FlvTag → FlvTag → TagsParse
unfolding parse_whole_tag
parse_video_audio buffer status t u =
    let a = parse_whole_tag buffer status t in
    let b = parse_whole_tag a.buffer a.status u in
    if is_positive a.parsed
    then record {
      sum_parsed = elim b.parsed [ none ↦ none | some n ↦ some (or_zero a.parsed + n) ];
      first = a.tag;
      second = b.tag;
      status = b.status;
      buffer = b.buffer;
    }
    else record {
      sum_parsed = none;
      first = a.tag;
      second = u;
      status = a.status;
      buffer = a.buffer;
    }
