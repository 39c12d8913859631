-- ===== src/Tests/Stream.antt =====
-- Tests of utils/codec.
use live_broadcast_server.Common.{
  ℕ, ◌+◌, ◌%◌, ◌≤◌, ◌≡◌, refl, false, some, [], ◌∷◌, ◌++◌, arith, length, take, drop, u24_mod,
}
use live_broadcast_server.Live.Publish.{
  Publisher, Published, Surroundings, streaming, on_message, new_server,
}
use live_broadcast_server.Live.Publish.Streaming.{Streamed, on_message-Streamed}
use live_broadcast_server.Tests.Data.{viewer, push, log}
use live_broadcast_server.Tests.Data.{
  three, empty_pack, video_pack, codec, header, message, header-IsHeader, codec-IsValid, wire,
  codec-Expects, manager, packets,
}
use live_broadcast_server.Rtmp.Pack.{fmt0, decode_header}
use live_broadcast_server.Rtmp.Pack.Header.{encode_header, with_header, decode_header-encode_header}
use live_broadcast_server.Rtmp.Codec.{Decoded, decode_pack}
use live_broadcast_server.Rtmp.Codec.Data.{decode_data}
use live_broadcast_server.Rtmp.Codec.Pack.{IsValid}
use live_broadcast_server.Rtmp.Codec.Total.{decode_data-total}
use live_broadcast_server.Rtmp.Codec.Stream.{Outcome}
use live_broadcast_server.Rtmp.Codec.Stream.Step.{decode_pack-Outcome}
use live_broadcast_server.Rtmp.Codec.Stream.Deliver.{Delivers, until_finish, until_finish-Delivers}
use live_broadcast_server.Rtmp.Manager.{c01, parse_shake_hand}
use live_broadcast_server.Rtmp.Manager.Handshake.{Step, Running, parse_shake_hand-Step}
use live_broadcast_server.Flv.{new_tag}
use live_broadcast_server.Flv.Transform.{
  new_codec, transform, transform_all, sum_ticks, tag_of, transform-tag, transform_all-base,
}

decode_header-encode_header_example :
    decode_header empty_pack (some (encode_header fmt0 header ++ three))
    ≡ (some (length (encode_header fmt0 header)), with_header fmt0 header empty_pack)
decode_header-encode_header_example =
    decode_header-encode_header fmt0 header empty_pack three
      (record { fields = header-IsHeader; one_byte = omega arith; not_extended = omega arith })

-- Five bytes have arrived.
decode_pack-Outcome_example :
    Outcome message (drop 5 wire ++ three) three (decode_pack codec (take 5 wire) false)
decode_pack-Outcome_example = decode_pack-Outcome codec (take 5 wire) wire codec-Expects refl

until_finish-Delivers_example : Delivers message (7 ∷ []) (until_finish 16 codec (wire ++ (7 ∷ [])))
until_finish-Delivers_example =
    until_finish-Delivers 16 codec wire (7 ∷ []) codec-Expects codec-IsValid (omega arith)

decode_data-total_example :
    (d : Decoded) × (decode_data codec three ≡ some d)
    × IsValid d.codec
    × ((n : ℕ) × (d.result ≡ some n) × (n ≤ 3) × (d.buffer ≡ drop n three))
decode_data-total_example =
    decode_data-total codec three codec-IsValid (omega arith, (omega arith, (omega arith, tt)))
      (omega arith)

parse_shake_hand-Step_example :
    Step c01 (parse_shake_hand manager three)
    × Running (parse_shake_hand manager three).manager.shake_hand_status
parse_shake_hand-Step_example = parse_shake_hand-Step manager three (λ e. cc, λ e. cc)

transform-tag_example : (transform 9 new_codec video_pack new_tag).1 ≡ tag_of new_codec video_pack
transform-tag_example = transform-tag 9 new_codec video_pack

transform_all-base_example :
    (transform_all new_codec packets).0.base_timestamp % u24_mod ≡ (0 + sum_ticks packets) % u24_mod
transform_all-base_example = transform_all-base new_codec packets

abbrev stream_publisher : Publisher
stream_publisher = record { phase = streaming; push = record push { rtmp_manager = manager } }

abbrev around : Surroundings
around = record { log = log; behind_release = []; garbage = 7 }

on_message-Streamed_example :
    (r : Published) × (on_message around viewer stream_publisher three new_server ≡ some r)
    × Streamed 7 viewer stream_publisher.push three new_server r
on_message-Streamed_example =
    on_message-Streamed around viewer stream_publisher three new_server refl codec-IsValid
      (omega arith, (omega arith, (omega arith, tt))) (omega arith)
