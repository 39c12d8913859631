-- ===== src/Live/Replies/Whole.antt =====
-- The replies of utils/codec/RtmpPack.h read by the server's own decoder of headers.
use live_broadcast_server.Common.{ℕ, ◌+◌, ◌≡◌, refl, some, List, length}
use live_broadcast_server.Rtmp.Pack.{
  RtmpPack, decode_header, get_body_data_size, decode_by_fmt, decode_fmt0, decode_fmt1,
  set_pack_type,
}
use live_broadcast_server.Live.Replies.{
  server_acknowledge_size, server_peer_bandwidth, server_set_chunk_size, server_connect_result,
  server_result, server_start,
}

-- A message in one chunk: a full header that announces exactly the bytes behind it.
pub record IsWhole (p : RtmpPack) (message : List ℕ) : Type 0 where
  pub header : (decode_header p (some message)).0 ≡ some 12
  pub body : get_body_data_size (decode_header p (some message)).1 + 12 ≡ length message

-- The six packets that the server answers with are whole messages, whatever packet they are decoded
-- into.
pub replies-IsWhole :
    (p : RtmpPack)
    → IsWhole p server_acknowledge_size
      × IsWhole p server_peer_bandwidth
      × IsWhole p server_set_chunk_size
      × IsWhole p server_connect_result
      × IsWhole p server_result
      × IsWhole p server_start
unfolding decode_header get_body_data_size decode_by_fmt decode_fmt0 decode_fmt1 set_pack_type
replies-IsWhole p = (
  record { header = refl; body = refl },
  record { header = refl; body = refl },
  record { header = refl; body = refl },
  record { header = refl; body = refl },
  record { header = refl; body = refl },
  record { header = refl; body = refl },
)
