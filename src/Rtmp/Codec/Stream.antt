-- ===== src/Rtmp/Codec/Stream.antt =====
-- utils/codec/RtmpCodec.cpp against the chunk stream of the RTMP specification: what is on the wire
-- while a message is on its way, and what one call of the decoder may make of it.
pub mod Body
pub mod Step
pub mod Deliver
use live_broadcast_server.Common.{
  ℕ, ◌+◌, ◌-◌, ◌≤◌, ◌<◌, ◌≡◌, ap, true, false, List, [], ◌∷◌, ◌++◌, length, u24_mod, ◌/◌,
}
use native.Mathlib.Decide.{dec_lt}
use live_broadcast_server.Fifo.{Fifo}
use live_broadcast_server.Rtmp.Pack.{
  Fmt, fmt0, fmt1, fmt2, fmt3, Bytes3, PackType, other, RtmpPack, get_body_remain_size, append_data,
  decode_header, fmt_of,
}
use live_broadcast_server.Rtmp.Pack.Header.{
  Header, IsHeader, encode_header, message_header, with_header, word_bytes, header_length, fmt_code,
  decode_header-with_header, decode_header_short, decode_header_cases,
  get_body_data_size-word_bytes,
}
use live_broadcast_server.Rtmp.Codec.{
  RtmpCodec, parse_rtmp_header, parse_rtmp_body, rtmp_chunk_size, Decoded, finish_pack, body_step,
  decode_pack, decode_pack_in, after_header, header_step,
}
use live_broadcast_server.Rtmp.Codec.Pack.{decode_pack-at_header, decode_pack-at_body}
use live_broadcast_server.Rtmp.Codec.Chunks.{
  body_last_short, body_last, body_chunk_short, body_chunk,
}

-- A message of an RTMP stream.
pub record Message : Type 0 where
  pub timestamp : Bytes3
  pub pack_type : PackType
  pub stream_id : ℕ
  pub body : List ℕ

-- The packet is the message, but for the `left` bytes of the body that are still to come.
pub record Fits (m : Message) (p : RtmpPack) (left : List ℕ) : Type 0 where
  pub timestamp : p.timestamp ≡ m.timestamp
  pub data_size : p.data_size ≡ word_bytes (length m.body)
  pub pack_type : p.pack_type ≡ m.pack_type
  pub stream_id : p.stream_id ≡ m.stream_id
  pub body : p.buffer ++ left ≡ m.body
  pub short : length m.body < u24_mod

-- `stream` is what follows on the wire when `read` bytes of a chunk have gone by and `left` is still
-- to come of the body: the last chunk, or the rest of a full one, the header of format 3 and so on.
pub data Chunked (csid : ℕ) : ℕ → List ℕ → List ℕ → Type 0 where
  last :
      {read : ℕ} {left stream : List ℕ}
      → read ≡ 0
      → length left ≤ rtmp_chunk_size
      → stream ≡ left
      → Chunked csid read left stream
  more :
      {read : ℕ} {left stream : List ℕ} (xs left' stream' : List ℕ)
      → read + length xs ≡ rtmp_chunk_size
      → 0 < length xs
      → 0 < length left'
      → Chunked csid 0 left' stream'
      → left ≡ xs ++ left'
      → stream ≡ xs ++ ((192 + csid) ∷ stream')
      → Chunked csid read left stream

-- The decoder is on the way to the message `m`, and `stream` is what is still to come of it.
pub data Expects (m : Message) (c : RtmpCodec) (stream : List ℕ) : Type 0 where
  at_header :
      (f : Fmt) (h : Header) (left chunks : List ℕ)
      → c.decode_pack_status ≡ parse_rtmp_header
      → c.read_chunk_size ≡ 0
      → IsHeader h
      → Fits m (with_header f h c.current_rtmp_pack) left
      → Chunked h.csid 0 left chunks
      → stream ≡ encode_header f h ++ chunks
      → Expects m c stream
  at_body :
      (csid : ℕ) (left : List ℕ)
      → c.decode_pack_status ≡ parse_rtmp_body
      → csid < 64
      → 0 < length left
      → Fits m c.current_rtmp_pack left
      → Chunked csid c.read_chunk_size left stream
      → Expects m c stream

-- What a call has done with the bytes that had arrived, where `later` is still to arrive and `rest`
-- is what follows the message.
pub data Outcome (m : Message) (later rest : List ℕ) (d : Decoded) : Type 0 where
  delivered :
      d.pack_finish ≡ true
      → Fits m d.codec.last_rtmp_pack []
      → d.codec.current_rtmp_pack.buffer ≡ []
      → d.codec.decode_pack_status ≡ parse_rtmp_header
      → d.codec.read_chunk_size ≡ 0
      → d.buffer ++ later ≡ rest
      → Outcome m later rest d
  pending :
      (stream : List ℕ)
      → d.pack_finish ≡ false
      → Expects m d.codec stream
      → d.buffer ++ later ≡ stream ++ rest
      → Outcome m later rest d
