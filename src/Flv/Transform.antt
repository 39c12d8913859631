-- ===== src/Flv/Transform.antt =====
-- utils/codec/Rtmp2FlvCodec.h and Rtmp2FlvCodec.cpp: packets turned into tags, in the build without
-- MONITOR_MODE.
use live_broadcast_server.Common.{
  ℕ, ◌+◌, ◌*◌, ◌/◌, ◌%◌, ◌^◌, ◌≡◌, sym, ap, ap₂, ◌∙◌, List, [], ◌∷◌, ◌++◌, arith, length, u24_mod,
  add_u32, be24,
}
use live_broadcast_server.Rtmp.Pack.{RtmpPack, Bytes3, type_code, get_body_data_size}
use live_broadcast_server.Fifo
use live_broadcast_server.Flv.{
  FlvTag, new_tag, set_tag_type, set_data_size, set_time_stamp, get_data_size, get_current_tag_size,
  get_sum_size, append_data,
}
use live_broadcast_server.Flv.Tag.{layout}

pub record Rtmp2FlvCodec : Type 0 where
  pub base_timestamp : ℕ

abbrev pub new_codec : Rtmp2FlvCodec
new_codec = record { base_timestamp = 0 }

-- The local `timestamp`: its three low bytes are the packet's, and its top byte, which nothing
-- writes, is whatever the stack holds.
packet_timestamp : ℕ → Bytes3 → ℕ
packet_timestamp garbage t = t.b2 + t.b1 * 256 + t.b0 * 65536 + garbage * u24_mod

pub transform : ℕ → Rtmp2FlvCodec → RtmpPack → FlvTag → Rtmp2FlvCodec × FlvTag
unfolding packet_timestamp
transform garbage c p t =
    let base = add_u32 c.base_timestamp (packet_timestamp garbage p.timestamp) in
    (
      record { base_timestamp = base },
      append_data
          (set_time_stamp (set_data_size (set_tag_type t (type_code p.pack_type)) p.data_size) base)
          (Fifo.read_begin p.buffer),
    )

-- The three bytes of a packet's time stamp as a number.
abbrev ticks : RtmpPack → ℕ
ticks p = p.timestamp.b0 * 65536 + p.timestamp.b1 * 256 + p.timestamp.b2

pub tag_of : Rtmp2FlvCodec → RtmpPack → FlvTag
tag_of c p = record {
  header = layout (record {
    tag_type = type_code p.pack_type;
    data_size = p.data_size;
    timestamp = c.base_timestamp + ticks p;
    extension = 0;
    stream_id = record { b0 = 0; b1 = 0; b2 = 0 };
  });
  body = p.buffer;
}

tag_with : Rtmp2FlvCodec → RtmpPack → List ℕ → FlvTag
tag_with c p time = record {
  header =
      type_code p.pack_type ∷ p.data_size.b0 ∷ p.data_size.b1 ∷ p.data_size.b2 ∷ []
      ++ (time ++ (0 ∷ 0 ∷ 0 ∷ 0 ∷ []));
  body = p.buffer;
}

be24_cong : (a b : ℕ) → a % u24_mod ≡ b % u24_mod → be24 a ≡ be24 b
be24_cong a b e =
    ap₂ (λ x l. x ∷ l) (let h : a / 2 ^ 16 % 256 ≡ b / 2 ^ 16 % 256 = omega arith in h)
      (ap₂ (λ x l. x ∷ l) (let h : a / 2 ^ 8 % 256 ≡ b / 2 ^ 8 % 256 = omega arith in h)
        (ap (λ x. x ∷ []) (let h : a % 256 ≡ b % 256 = omega arith in h)))

-- A packet becomes the tag of the format with its type, its size, its body and the low three bytes
-- of the time so far plus its own, with extension and stream zero; what the stack held is not seen.
pub transform-tag :
    (garbage : ℕ) (c : Rtmp2FlvCodec) (p : RtmpPack)
    → (transform garbage c p new_tag).1 ≡ tag_of c p
unfolding transform packet_timestamp layout tag_of tag_with set_tag_type set_data_size
    set_time_stamp append_data
transform-tag garbage c p = ap (tag_with c p) (
    be24_cong (add_u32 c.base_timestamp (packet_timestamp garbage p.timestamp))
      (c.base_timestamp + ticks p) (omega arith))

pub length-transform :
    (garbage : ℕ) (c : Rtmp2FlvCodec) (p : RtmpPack)
    → length (transform garbage c p new_tag).1.header ≡ 11
unfolding tag_of layout
length-transform garbage c p = ap (λ (t : FlvTag). length t.header) (transform-tag garbage c p)

pub get_sum_size-transform :
    (garbage : ℕ) (c : Rtmp2FlvCodec) (p : RtmpPack)
    → get_sum_size (transform garbage c p new_tag).1 ≡ 11 + length p.buffer
unfolding tag_of get_sum_size
get_sum_size-transform garbage c p = ap get_sum_size (transform-tag garbage c p)

-- The tag of a packet announces the packet's data size.
get_data_size-transform :
    (garbage : ℕ) (c : Rtmp2FlvCodec) (p : RtmpPack)
    → get_data_size (transform garbage c p new_tag).1 ≡ get_body_data_size p
unfolding get_data_size get_body_data_size tag_of layout
get_data_size-transform garbage c p = ap get_data_size (transform-tag garbage c p)

-- Of a packet that holds all the data it announces, the size that the next tag is told (the one
-- announced) is the size of the tag sent.
pub get_current_tag_size-transform :
    (garbage : ℕ) (c : Rtmp2FlvCodec) (p : RtmpPack)
    → length p.buffer ≡ get_body_data_size p
    → get_current_tag_size (transform garbage c p new_tag).1
      ≡ get_sum_size (transform garbage c p new_tag).1
unfolding get_current_tag_size get_sum_size tag_of layout
get_current_tag_size-transform garbage c p e =
    ap (λ n. 11 + n) (get_data_size-transform garbage c p ∙ sym e)
    ∙ ap get_sum_size (sym (transform-tag garbage c p))

-- The packets of a stream in turn, each with what the stack holds at the time.
unfoldable pub transform_all : Rtmp2FlvCodec → List (ℕ × RtmpPack) → Rtmp2FlvCodec × List FlvTag
unfolding transform
transform_all c [] = (c, [])
transform_all c (p ∷ ps) =
    let r = transform p.0 c p.1 new_tag in let rest = transform_all r.0 ps in (rest.0, r.1 ∷ rest.1)

-- The clock that the format asks for: time stamps are differences, summed.
pub sum_ticks : List (ℕ × RtmpPack) → ℕ
sum_ticks [] = 0
sum_ticks (p ∷ ps) = ticks p.1 + sum_ticks ps

-- After any packets, the clock of the codec agrees with the sum of their time stamps in the three
-- bytes that a tag shows, whatever the stack held.
pub transform_all-base :
    (c : Rtmp2FlvCodec) (ps : List (ℕ × RtmpPack))
    → (transform_all c ps).0.base_timestamp % u24_mod ≡ (c.base_timestamp + sum_ticks ps) % u24_mod
unfolding transform_all transform packet_timestamp sum_ticks
transform_all-base c [] = omega arith
transform_all-base c (p ∷ ps) = omega (arith, transform_all-base (transform p.0 c p.1 new_tag).0 ps)
