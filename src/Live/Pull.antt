-- ===== src/Live/Pull.antt =====
-- live/connection/PullConnection.h and HttpPullConnection.h and .cpp: a viewer's connection, which
-- sends an FLV stream in HTTP chunks. What it hands to `TcpConnection::Send` is a result here; the
-- callback of a close is an argument of the push side (`Live.Push`).
pub mod Chunked
use live_broadcast_server.Common.{ℕ, ◌+◌, List, [], ◌∷◌, be32}
use live_broadcast_server.Format.{to_hex_string_with_crlf, crlf}
use live_broadcast_server.Fifo
use live_broadcast_server.Fifo.{Fifo}
use live_broadcast_server.Flv.{FlvTag, get_sum_size, get_current_tag_size}

pub record HttpPullConnection : Type 0 where
  pub last_tag_size : ℕ

abbrev pub new_pull : HttpPullConnection
new_pull = record { last_tag_size = 0 }

-- `response_header`
abbrev pub response_header : List ℕ
response_header =
    0x48 ∷ 0x54 ∷ 0x54 ∷ 0x50 ∷ 0x2f ∷ 0x31 ∷ 0x2e ∷ 0x31 ∷ 0x20 ∷ 0x32 ∷ 0x30 ∷ 0x30 ∷ 0x20 ∷ 0x4f
    ∷ 0x4b ∷ 0x0d ∷ 0x0a ∷ 0x53 ∷ 0x65 ∷ 0x72 ∷ 0x76 ∷ 0x65 ∷ 0x72 ∷ 0x3a ∷ 0x20 ∷ 0x46 ∷ 0x49
    ∷ 0x53 ∷ 0x48 ∷ 0x5f ∷ 0x4c ∷ 0x49 ∷ 0x56 ∷ 0x45 ∷ 0x0d ∷ 0x0a ∷ 0x44 ∷ 0x61 ∷ 0x74 ∷ 0x65
    ∷ 0x3a ∷ 0x20 ∷ 0x53 ∷ 0x75 ∷ 0x6e ∷ 0x2c ∷ 0x20 ∷ 0x32 ∷ 0x39 ∷ 0x20 ∷ 0x4e ∷ 0x6f ∷ 0x76
    ∷ 0x20 ∷ 0x32 ∷ 0x30 ∷ 0x32 ∷ 0x30 ∷ 0x20 ∷ 0x31 ∷ 0x35 ∷ 0x3a ∷ 0x33 ∷ 0x30 ∷ 0x3a ∷ 0x34
    ∷ 0x32 ∷ 0x20 ∷ 0x47 ∷ 0x4d ∷ 0x54 ∷ 0x0d ∷ 0x0a ∷ 0x43 ∷ 0x6f ∷ 0x6e ∷ 0x74 ∷ 0x65 ∷ 0x6e
    ∷ 0x74 ∷ 0x2d ∷ 0x54 ∷ 0x79 ∷ 0x70 ∷ 0x65 ∷ 0x3a ∷ 0x20 ∷ 0x76 ∷ 0x69 ∷ 0x64 ∷ 0x65 ∷ 0x6f
    ∷ 0x2f ∷ 0x78 ∷ 0x2d ∷ 0x66 ∷ 0x6c ∷ 0x76 ∷ 0x0d ∷ 0x0a ∷ 0x54 ∷ 0x72 ∷ 0x61 ∷ 0x6e ∷ 0x73
    ∷ 0x66 ∷ 0x65 ∷ 0x72 ∷ 0x2d ∷ 0x45 ∷ 0x6e ∷ 0x63 ∷ 0x6f ∷ 0x64 ∷ 0x69 ∷ 0x6e ∷ 0x67 ∷ 0x3a
    ∷ 0x20 ∷ 0x63 ∷ 0x68 ∷ 0x75 ∷ 0x6e ∷ 0x6b ∷ 0x65 ∷ 0x64 ∷ 0x0d ∷ 0x0a ∷ 0x43 ∷ 0x6f ∷ 0x6e
    ∷ 0x6e ∷ 0x65 ∷ 0x63 ∷ 0x74 ∷ 0x69 ∷ 0x6f ∷ 0x6e ∷ 0x3a ∷ 0x20 ∷ 0x6b ∷ 0x65 ∷ 0x65 ∷ 0x70
    ∷ 0x2d ∷ 0x61 ∷ 0x6c ∷ 0x69 ∷ 0x76 ∷ 0x65 ∷ 0x0d ∷ 0x0a ∷ 0x41 ∷ 0x63 ∷ 0x63 ∷ 0x65 ∷ 0x73
    ∷ 0x73 ∷ 0x2d ∷ 0x43 ∷ 0x6f ∷ 0x6e ∷ 0x74 ∷ 0x72 ∷ 0x6f ∷ 0x6c ∷ 0x2d ∷ 0x41 ∷ 0x6c ∷ 0x6c
    ∷ 0x6f ∷ 0x77 ∷ 0x2d ∷ 0x4f ∷ 0x72 ∷ 0x69 ∷ 0x67 ∷ 0x69 ∷ 0x6e ∷ 0x3a ∷ 0x20 ∷ 0x2a ∷ 0x0d
    ∷ 0x0a ∷ 0x0d ∷ 0x0a ∷ []

pub send_header_on_connection : Fifo → List ℕ
unfolding to_hex_string_with_crlf
send_header_on_connection buffer =
    Fifo.append_data
      (Fifo.append_data
        (Fifo.append_data (Fifo.append_data [] response_header)
          (to_hex_string_with_crlf (Fifo.readable_length buffer)))
        (Fifo.read_begin buffer))
      crlf

-- `AppendData(htonl(x))` puts the bytes of `x` most significant first.
pub add_flv_tag : HttpPullConnection → FlvTag → HttpPullConnection × List ℕ
unfolding to_hex_string_with_crlf get_sum_size get_current_tag_size
add_flv_tag c t = (
  record { last_tag_size = get_current_tag_size t },
  Fifo.append_data
      (Fifo.append_data
        (Fifo.append_data
          (Fifo.append_data (Fifo.append_data [] (to_hex_string_with_crlf (get_sum_size t + 4)))
            (be32 c.last_tag_size))
          t.header)
        (Fifo.read_begin t.body))
      crlf,
)
