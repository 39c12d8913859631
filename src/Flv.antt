-- ===== src/Flv.antt =====
-- utils/codec/FlvCodec.h and FlvCodec.cpp: the header of an FLV file, and a tag with its header kept
-- in the form it is sent in. A `ssize_t` result that is never negative is an ℕ.
pub mod Tag
pub mod Transform
pub mod Manager
pub mod Reader
use live_broadcast_server.Common.{
  ℕ, ◌+◌, ◌*◌, ◌%◌, List, [], ◌∷◌, ltb, if◌then◌else◌, length, take, get_or, replicate, overwrite,
  be24, u32_mod, sub_u32, Option, none, some,
}
use live_broadcast_server.Rtmp.Pack.{Bytes3, u32_at}
use live_broadcast_server.Fifo
use live_broadcast_server.Fifo.{Fifo}

abbrev flv_header_length : ℕ
flv_header_length = 9

abbrev pub flv_tag_header_length : ℕ
flv_tag_header_length = 11

-- `DEFAULT_HEADER`
abbrev pub default_header : List ℕ
default_header = 0x46 ∷ 0x4C ∷ 0x56 ∷ 0x01 ∷ 0x01 ∷ 0x00 ∷ 0x00 ∷ 0x00 ∷ 0x09 ∷ []

pub record FlvHeader : Type 0 where
  pub flv : List ℕ
  pub version : ℕ
  pub type_flag : ℕ
  pub header_length : ℕ

-- `FlvHeader()`: 9, most significant byte first, as a word of a little-endian machine.
abbrev new_header : FlvHeader
new_header = record {
  flv = 0x46 ∷ 0x4C ∷ 0x56 ∷ [];
  version = 1;
  type_flag = 5;
  header_length = 0x09000000;
}

-- `EncodeToBuffer`, of a `dest` that has room for `size` bytes: the result, and the memory.
abbrev encode_to_buffer : List ℕ → ℕ → ℕ × List ℕ
encode_to_buffer dest size =
    if ltb size flv_header_length
    then (0, dest)
    else (flv_header_length, overwrite dest 0 default_header)

-- `none` for the tag is a null pointer.
pub decode_file_header : List ℕ → Option FlvHeader → ℕ × Option FlvHeader
decode_file_header bytes tag = if ltb (length bytes) flv_header_length then (0, tag) else (
  flv_header_length,
  elim tag [
    | none ↦ none
    | some h ↦ some (record {
      flv = take 3 bytes;
      version = get_or bytes 3 0;
      type_flag = get_or bytes 4 0;
      header_length = u32_at bytes 5;
    })
  ],
)

pub record FlvTag : Type 0 where
  pub header : List ℕ
  pub body : Fifo

-- `FlvTag()`: the header is zero.
abbrev pub new_tag : FlvTag
new_tag = record { header = replicate 11 0; body = [] }

pub set_tag_type : FlvTag → ℕ → FlvTag
set_tag_type t ty = record t { header = overwrite t.header 0 (ty ∷ []) }

-- `SetDataSize`, from three bytes.
pub set_data_size : FlvTag → Bytes3 → FlvTag
set_data_size t n = record t { header = overwrite t.header 1 (n.b0 ∷ n.b1 ∷ n.b2 ∷ []) }

-- `SetTimeStamp`: of the word in network order, the first byte is left out.
pub set_time_stamp : FlvTag → ℕ → FlvTag
set_time_stamp t timestamp = record t { header = overwrite t.header 4 (be24 timestamp) }

-- `SetSteamId`
pub set_stream_id : FlvTag → Bytes3 → FlvTag
set_stream_id t id = record t { header = overwrite t.header 8 (id.b0 ∷ id.b1 ∷ id.b2 ∷ []) }

abbrev get_tag_type : FlvTag → ℕ
get_tag_type t = get_or t.header 0 0

unfoldable pub get_data_size : FlvTag → ℕ
get_data_size t = get_or t.header 1 0 * 65536 + get_or t.header 2 0 * 256 + get_or t.header 3 0

unfoldable pub get_current_tag_size : FlvTag → ℕ
unfolding get_data_size
get_current_tag_size t = flv_tag_header_length + get_data_size t

-- `body_.ReadableLength()` as a `uint32_t`
pub get_body_data_length : FlvTag → ℕ
get_body_data_length t = Fifo.readable_length t.body % u32_mod

unfoldable get_remain_data_size : FlvTag → ℕ
unfolding get_data_size get_body_data_length
get_remain_data_size t = sub_u32 (get_data_size t) (get_body_data_length t)

unfoldable pub get_sum_size : FlvTag → ℕ
get_sum_size t = flv_tag_header_length + Fifo.readable_length t.body

unfoldable pub append_data : FlvTag → List ℕ → FlvTag
append_data t xs = record t { body = Fifo.append_data t.body xs }

-- `FlvTag::DecodeTagHander`; the codec's member has checked the length.
pub decode_tag_handler : FlvTag → List ℕ → ℕ × FlvTag
decode_tag_handler t bytes =
    (flv_tag_header_length, record t { header = overwrite t.header 0 (take 11 bytes) })

-- `FlvCodec::DecodeTagHander`
pub decode_tag_header : List ℕ → FlvTag → ℕ × FlvTag
unfolding decode_tag_handler
decode_tag_header bytes t =
    if ltb (length bytes) flv_tag_header_length then (0, t) else decode_tag_handler t bytes
