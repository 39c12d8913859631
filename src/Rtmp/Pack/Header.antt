-- ===== src/Rtmp/Pack/Header.antt =====
-- utils/codec/RtmpPack.cpp, `DecodeHeader` and the size accessors, against the chunk header of the
-- RTMP specification.
use live_broadcast_server.Common.{
  ℕ, ◌+◌, ◌*◌, ◌/◌, ◌%◌, ◌^◌, ◌<◌, ◌≤◌, ◌-◌, ◌≡◌, refl, some, List, [], ◌∷◌, ◌++◌, length, arith,
  be24, u24_mod, u32_mod, ltb, ◌==◌, if◌then◌else◌,
}
use live_broadcast_server.Rtmp.Pack.{
  Fmt, fmt0, fmt1, fmt2, fmt3, PackType, other, abort, acknowledge, control, audio, video, script,
  type_code, type_of_code, Bytes3, RtmpPack, decode_header, get_body_data_size, set_body_data_size,
  fmt_of, decode_by_fmt, set_pack_type,
}

-- The fields that a chunk header carries.
pub record Header : Type 0 where
  pub csid : ℕ
  pub timestamp : ℕ
  pub size : ℕ
  pub pack_type : PackType
  pub stream_id : ℕ

pub record IsHeader (h : Header) : Type 0 where
  pub csid_lt : h.csid < 64
  pub timestamp_lt : h.timestamp < u24_mod
  pub size_lt : h.size < u24_mod
  pub stream_id_lt : h.stream_id < u32_mod

abbrev pub fmt_code : Fmt → ℕ
fmt_code fmt0 = 0
fmt_code fmt1 = 1
fmt_code fmt2 = 2
fmt_code fmt3 = 3

-- The stream identifier is the one little-endian field.
abbrev le32 : ℕ → List ℕ
le32 n = (n % 256) ∷ (n / 2 ^ 8 % 256) ∷ (n / 2 ^ 16 % 256) ∷ (n / 2 ^ 24 % 256) ∷ []

abbrev pub message_header : Fmt → Header → List ℕ
message_header fmt0 h =
    be24 h.timestamp ++ (be24 h.size ++ (type_code h.pack_type ∷ le32 h.stream_id))
message_header fmt1 h = be24 h.timestamp ++ (be24 h.size ++ (type_code h.pack_type ∷ []))
message_header fmt2 h = be24 h.timestamp
message_header fmt3 h = []

abbrev pub encode_header : Fmt → Header → List ℕ
encode_header f h = (fmt_code f * 64 + h.csid) ∷ message_header f h

abbrev pub word_bytes : ℕ → Bytes3
word_bytes n = record { b0 = n / 2 ^ 16 % 256; b1 = n / 2 ^ 8 % 256; b2 = n % 256 }

-- A packet after a header of each format: what the format leaves out keeps its old value.
abbrev pub with_header : Fmt → Header → RtmpPack → RtmpPack
with_header fmt0 h p = record {
  fmt = fmt0;
  csid = h.csid;
  timestamp = word_bytes h.timestamp;
  data_size = word_bytes h.size;
  pack_type = h.pack_type;
  stream_id = h.stream_id;
  buffer = p.buffer;
}
with_header fmt1 h p = record p {
  fmt = fmt1;
  csid = h.csid;
  timestamp = word_bytes h.timestamp;
  data_size = word_bytes h.size;
  pack_type = h.pack_type;
}
with_header fmt2 h p = record p { fmt = fmt2; csid = h.csid; timestamp = word_bytes h.timestamp }
with_header fmt3 h p = record p { fmt = fmt3; csid = h.csid }

type_of_code-type_code : (t : PackType) → type_of_code (type_code t) ≡ t
unfolding type_of_code
type_of_code-type_code other = refl
type_of_code-type_code abort = refl
type_of_code-type_code acknowledge = refl
type_of_code-type_code control = refl
type_of_code-type_code audio = refl
type_of_code-type_code video = refl
type_of_code-type_code script = refl

basic_fields :
    (f : Fmt) (c : ℕ)
    → c < 64
    → ((fmt_code f * 64 + c) % 64 ≡ c) × ((fmt_code f * 64 + c) / 64 ≡ fmt_code f)
basic_fields fmt0 c h = omega arith
basic_fields fmt1 c h = omega arith
basic_fields fmt2 c h = omega arith
basic_fields fmt3 c h = omega arith

decode_by_fmt-encode :
    (f : Fmt) (h : Header) (p : RtmpPack) (rest : List ℕ)
    → IsHeader h
    → decode_by_fmt f (record p { csid = h.csid; fmt = f }) (message_header f h ++ rest)
      ≡ (some (length (encode_header f h)), with_header f h p)
unfolding decode_by_fmt set_pack_type
decode_by_fmt-encode fmt0 h p rest v = ground (arith, type_of_code-type_code h.pack_type)
decode_by_fmt-encode fmt1 h p rest v = ground (arith, type_of_code-type_code h.pack_type)
decode_by_fmt-encode fmt2 h p rest v = ground arith
decode_by_fmt-encode fmt3 h p rest v = refl

pub decode_header-with_header :
    (f : Fmt) (h : Header) (p : RtmpPack) (rest : List ℕ)
    → IsHeader h
    → decode_header p (some (encode_header f h ++ rest))
      ≡ (some (length (encode_header f h)), with_header f h p)
unfolding decode_header
decode_header-with_header fmt0 h p rest v =
    let b = basic_fields fmt0 h.csid v.csid_lt in
    rw (b.0, b.1) (decode_by_fmt-encode fmt0 h p rest v)
decode_header-with_header fmt1 h p rest v =
    let b = basic_fields fmt1 h.csid v.csid_lt in
    rw (b.0, b.1) (decode_by_fmt-encode fmt1 h p rest v)
decode_header-with_header fmt2 h p rest v =
    let b = basic_fields fmt2 h.csid v.csid_lt in
    rw (b.0, b.1) (decode_by_fmt-encode fmt2 h p rest v)
decode_header-with_header fmt3 h p rest v =
    let b = basic_fields fmt3 h.csid v.csid_lt in rw (b.0, b.1) refl

-- Headers that the specification writes as `encode_header` does: with a basic header of one byte, for
-- which the identifiers 0 and 1 stand for longer ones, and without an extended time stamp, for which
-- the time stamp of three bytes full of ones stands.
pub record IsPlain (h : Header) : Type 0 where
  pub fields : IsHeader h
  pub one_byte : 2 ≤ h.csid
  pub not_extended : h.timestamp < u24_mod - 1

-- Of a chunk header whose basic header has one byte (identifiers 2 to 63) and that has no extended
-- time stamp, the only ones that the decoder knows, decoding what the specification encodes gives
-- back the fields, takes exactly the header's bytes and leaves what the format does not carry as it
-- was.
pub decode_header-encode_header :
    (f : Fmt) (h : Header) (p : RtmpPack) (rest : List ℕ)
    → IsPlain h
    → decode_header p (some (encode_header f h ++ rest))
      ≡ (some (length (encode_header f h)), with_header f h p)
decode_header-encode_header f h p rest v = decode_header-with_header f h p rest v.fields

-- How many bytes a header has whose first byte is `x`.
abbrev pub header_length : ℕ → ℕ
header_length x =
    if x / 64 == 0 then 12 else if x / 64 == 1 then 8 else if x / 64 == 2 then 4 else 1

-- On data that starts with the byte x the decoder never fails: it takes the whole header when all of
-- it is there, and otherwise takes nothing, waiting for more; either way the body collected so far
-- is left alone.
pub decode_header_cases :
    (p : RtmpPack) (x : ℕ) (xs : List ℕ)
    → x < 256
    → ((decode_header p (some (x ∷ xs))).0
        ≡ (if ltb (length (x ∷ xs)) (header_length x) then some 0 else some (header_length x)))
      × ((decode_header p (some (x ∷ xs))).1.buffer ≡ p.buffer)
unfolding decode_header
decode_header_cases p x xs h = ground arith

-- With too little data only the format and the chunk stream identifier have been written.
pub decode_header_short :
    (p : RtmpPack) (x : ℕ) (xs : List ℕ)
    → x < 256
    → length (x ∷ xs) < header_length x
    → (decode_header p (some (x ∷ xs))).1 ≡ record p { fmt = fmt_of (x / 64); csid = x % 64 }
unfolding decode_header
decode_header_short p x xs h short = ground arith

-- `SetBodyDataSize` stores the size modulo 2 ^ 24, and `GetBodyDataSize` reads it back.
get-set_body_data_size :
    (p : RtmpPack) (n : ℕ) → get_body_data_size (set_body_data_size p n) ≡ n % u24_mod
unfolding get_body_data_size set_body_data_size
get-set_body_data_size p n = omega arith

pub get_body_data_size-word_bytes :
    (p : RtmpPack) (n : ℕ) → n < u24_mod → p.data_size ≡ word_bytes n → get_body_data_size p ≡ n
unfolding get_body_data_size
get_body_data_size-word_bytes p n h e = rw e (omega arith)
