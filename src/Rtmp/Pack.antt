-- ===== src/Rtmp/Pack.antt =====
-- utils/codec/RtmpPack.h and RtmpPack.cpp: an RTMP packet, and the decoder of its chunk header.
-- A `ssize_t` result is an `Option ℕ` whose `none` is -1. Bytes are unsigned: the source casts or
-- masks each `char` that it computes with.
pub mod Header
use live_broadcast_server.Common.{
  ℕ, zero, suc, ◌+◌, ◌-◌, ◌*◌, ◌/◌, ◌%◌, ◌<◌, Option, none, some, List, [], ◌∷◌, ltb, ◌==◌,
  if◌then◌else◌, length, get_or, sub_u32, u32_mod,
}
use live_broadcast_server.Fifo
use live_broadcast_server.Fifo.{Fifo}

-- `enum RtmpPackFmt`
pub data Fmt : Type 0 where
  fmt0 fmt1 fmt2 fmt3 : Fmt

-- `enum RtmpPackType`
pub data PackType : Type 0 where
  other abort acknowledge control audio video script : PackType

-- The value of the enumerator.
abbrev pub type_code : PackType → ℕ
type_code other = 0
type_code abort = 2
type_code acknowledge = 3
type_code control = 4
type_code audio = 8
type_code video = 9
type_code script = 18

-- `uint8_t x[3]`
pub record Bytes3 : Type 0 where
  pub b0 : ℕ
  pub b1 : ℕ
  pub b2 : ℕ

pub record RtmpPack : Type 0 where
  pub fmt : Fmt
  pub csid : ℕ
  pub timestamp : Bytes3
  pub data_size : Bytes3
  pub pack_type : PackType
  pub stream_id : ℕ
  pub buffer : Fifo

abbrev fmt0_header_length : ℕ
fmt0_header_length = 11

abbrev fmt1_header_length : ℕ
fmt1_header_length = 7

abbrev fmt2_header_length : ℕ
fmt2_header_length = 3

-- `memcpy(x, &data[i], 3)`; the callers have checked that the bytes are there.
abbrev bytes3_at : List ℕ → ℕ → Bytes3
bytes3_at xs i = record { b0 = get_or xs i 0; b1 = get_or xs (i + 1) 0; b2 = get_or xs (i + 2) 0 }

-- `memcpy(&word, &data[i], 4)` on a little-endian machine.
abbrev pub u32_at : List ℕ → ℕ → ℕ
u32_at xs i =
    get_or xs i 0
    + get_or xs (i + 1) 0 * 256
    + get_or xs (i + 2) 0 * 65536
    + get_or xs (i + 3) 0 * 16777216

-- The cases of `SetPackType`.
pub type_of_code : ℕ → PackType
type_of_code t =
    if t == 8
    then audio
    else if t == 9
    then video
    else if t == 18
    then script
    else if t == 2
    then abort
    else if t == 3
    then acknowledge
    else if t == 4
    then control
    else other

unfoldable pub set_pack_type : RtmpPack → ℕ → RtmpPack
set_pack_type p t = record p { pack_type = type_of_code t }

unfoldable pub decode_fmt1 : RtmpPack → List ℕ → Option ℕ × RtmpPack
unfolding set_pack_type
decode_fmt1 p xs = if ltb (length xs) fmt1_header_length then (some 0, p) else (
  some fmt1_header_length,
  set_pack_type (record p { timestamp = bytes3_at xs 0; data_size = bytes3_at xs 3 })
      (get_or xs 6 0),
)

unfoldable pub decode_fmt0 : RtmpPack → List ℕ → Option ℕ × RtmpPack
unfolding decode_fmt1
decode_fmt0 p xs =
    if ltb (length xs) fmt0_header_length
    then (some 0, p)
    else (some fmt0_header_length, record (decode_fmt1 p xs).1 { stream_id = u32_at xs 7 })

decode_fmt2 : RtmpPack → List ℕ → Option ℕ × RtmpPack
decode_fmt2 p xs =
    if ltb (length xs) fmt2_header_length
    then (some 0, p)
    else (some fmt2_header_length, record p { timestamp = bytes3_at xs 0 })

-- `static_cast<RtmpPackFmt>(fmt)`, of a value that the guard has let through.
abbrev pub fmt_of : ℕ → Fmt
fmt_of n = if n == 0 then fmt0 else if n == 1 then fmt1 else if n == 2 then fmt2 else fmt3

-- `return result + 1`, unless there was an error or too little data.
abbrev plus_basic : Option ℕ × RtmpPack → Option ℕ × RtmpPack
plus_basic (none, p) = (none, p)
plus_basic (some zero, p) = (some 0, p)
plus_basic (some (suc n), p) = (some (suc n + 1), p)

-- The `switch` on the format, behind the basic header.
unfoldable pub decode_by_fmt : Fmt → RtmpPack → List ℕ → Option ℕ × RtmpPack
unfolding decode_fmt0 decode_fmt1 decode_fmt2
decode_by_fmt fmt0 p xs = plus_basic (decode_fmt0 p xs)
decode_by_fmt fmt1 p xs = plus_basic (decode_fmt1 p xs)
decode_by_fmt fmt2 p xs = plus_basic (decode_fmt2 p xs)
decode_by_fmt fmt3 p xs = (some 1, p)

-- `none` for `data` is a null pointer. The identifier is written before the guard.
unfoldable pub decode_header : RtmpPack → Option (List ℕ) → Option ℕ × RtmpPack
unfolding decode_by_fmt
decode_header p none = (none, p)
decode_header p (some []) = (some 0, p)
decode_header p (some (x ∷ xs)) =
    let q = record p { csid = x % 64 } in
    if ltb 3 (x / 64)
    then (none, q)
    else decode_by_fmt (fmt_of (x / 64)) (record q { fmt = fmt_of (x / 64) }) xs

unfoldable pub get_body_data_size : RtmpPack → ℕ
get_body_data_size p = p.data_size.b0 * 65536 + p.data_size.b1 * 256 + p.data_size.b2

-- `SetBodyDataSize`: the low three bytes of the word, most significant first.
pub set_body_data_size : RtmpPack → ℕ → RtmpPack
set_body_data_size p n = record p {
  data_size = record { b0 = n / 65536 % 256; b1 = n / 256 % 256; b2 = n % 256 };
}

-- `return buffer_.ReadableLength();` as a `uint32_t`
get_body_current_size : RtmpPack → ℕ
get_body_current_size p = Fifo.readable_length p.buffer % u32_mod

-- The unsigned difference wraps when the body is already longer than the size announced.
unfoldable pub get_body_remain_size : RtmpPack → ℕ
unfolding get_body_data_size get_body_current_size
get_body_remain_size p = sub_u32 (get_body_data_size p) (get_body_current_size p)

unfoldable pub append_data : RtmpPack → List ℕ → RtmpPack
append_data p xs = record p { buffer = Fifo.append_data p.buffer xs }
