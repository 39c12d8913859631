-- ===== src/Rtmp/Codec/Data.antt =====
-- utils/codec/RtmpCodec.cpp, `DecodeData`: the loop that takes packets from a buffer until there is
-- too little data. On fuel; `none` means that the fuel ran out.
use live_broadcast_server.Common.{
  ℕ, zero, suc, Bool, false, Option, none, some, if◌then◌else◌, sub_size,
}
use live_broadcast_server.Fifo
use live_broadcast_server.Fifo.{Fifo}
use live_broadcast_server.Rtmp.Codec.{
  RtmpCodec, DataStatus, parse_first_header, parse_data_pack, Decoded, decode_pack, parse_first,
}

-- `if (*pack_finish) decode_data_status = PARSE_DATA_PACK;`
abbrev pub switch_status : Decoded → Decoded
switch_status d = record d {
  codec =
      if d.pack_finish then record d.codec { decode_data_status = parse_data_pack } else d.codec;
}

-- One round, by the state that it starts in.
unfoldable pub data_round : DataStatus → RtmpCodec → Fifo → Bool → Option Decoded
data_round parse_first_header c buffer finish = elim (parse_first c buffer) [
  | none ↦ none
  | some d ↦ some (switch_status d)
]
data_round parse_data_pack c buffer finish = some (decode_pack c buffer finish)

unfoldable pub data_loop : ℕ → RtmpCodec → Fifo → Bool → Option Decoded
unfolding data_round
data_loop zero c buffer finish = none
data_loop (suc fuel) c buffer finish = elim (data_round c.decode_data_status c buffer finish) [
  | none ↦ none
  | some d ↦ elim d.result [
    | none ↦ some d
    | some zero ↦ some d
    | some (suc n) ↦ data_loop fuel d.codec d.buffer d.pack_finish
  ]
]

-- `return static_cast<ssize_t>(before_readable_length - buffer->ReadableLength());`
abbrev pub with_total : ℕ → Decoded → Decoded
with_total before d = record d {
  result = elim d.result [
    | none ↦ none
    | some n ↦ some (sub_size before (Fifo.readable_length d.buffer))
  ];
}

unfoldable pub decode_data : RtmpCodec → Fifo → Option Decoded
unfolding data_loop
decode_data c buffer =
    let n = Fifo.readable_length buffer in
    elim (data_loop (suc n) c buffer false) [ none ↦ none | some d ↦ some (with_total n d) ]
