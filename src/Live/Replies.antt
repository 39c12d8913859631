-- ===== src/Live/Replies.antt =====
-- The replies of the handshake in utils/codec/RtmpPack.h, byte for byte.
pub mod Whole
use live_broadcast_server.Common.{ℕ, List, [], ◌∷◌, replicate}

-- `RTMP_SERVER_S01[1537] = { 0x03 }`: the rest is zero.
abbrev pub server_s01 : List ℕ
server_s01 = 0x03 ∷ replicate 1536 0

abbrev pub server_s2 : List ℕ
server_s2 = replicate 1536 0

abbrev pub server_acknowledge_size : List ℕ
server_acknowledge_size =
    0x02 ∷ 0x00 ∷ 0x00 ∷ 0x00 ∷ 0x00 ∷ 0x00 ∷ 0x04 ∷ 0x05 ∷ 0x00 ∷ 0x00 ∷ 0x00 ∷ 0x00 ∷ 0x00 ∷ 0x4c
    ∷ 0x4b ∷ 0x40 ∷ []

abbrev pub server_peer_bandwidth : List ℕ
server_peer_bandwidth =
    0x02 ∷ 0x00 ∷ 0x00 ∷ 0x00 ∷ 0x00 ∷ 0x00 ∷ 0x05 ∷ 0x06 ∷ 0x00 ∷ 0x00 ∷ 0x00 ∷ 0x00 ∷ 0x00 ∷ 0x4c
    ∷ 0x4b ∷ 0x40 ∷ 0x02 ∷ []

abbrev pub server_set_chunk_size : List ℕ
server_set_chunk_size =
    0x02 ∷ 0x00 ∷ 0x00 ∷ 0x00 ∷ 0x00 ∷ 0x00 ∷ 0x04 ∷ 0x01 ∷ 0x00 ∷ 0x00 ∷ 0x00 ∷ 0x00 ∷ 0x00 ∷ 0x00
    ∷ 0x10 ∷ 0x00 ∷ []

abbrev pub server_connect_result : List ℕ
server_connect_result =
    0x03 ∷ 0x00 ∷ 0x00 ∷ 0x00 ∷ 0x00 ∷ 0x00 ∷ 0xbe ∷ 0x14 ∷ 0x00 ∷ 0x00 ∷ 0x00 ∷ 0x00 ∷ 0x02 ∷ 0x00
    ∷ 0x07 ∷ 0x5f ∷ 0x72 ∷ 0x65 ∷ 0x73 ∷ 0x75 ∷ 0x6c ∷ 0x74 ∷ 0x00 ∷ 0x3f ∷ 0xf0 ∷ 0x00 ∷ 0x00
    ∷ 0x00 ∷ 0x00 ∷ 0x00 ∷ 0x00 ∷ 0x03 ∷ 0x00 ∷ 0x06 ∷ 0x66 ∷ 0x6d ∷ 0x73 ∷ 0x56 ∷ 0x65 ∷ 0x72
    ∷ 0x02 ∷ 0x00 ∷ 0x0d ∷ 0x46 ∷ 0x4d ∷ 0x53 ∷ 0x2f ∷ 0x33 ∷ 0x2c ∷ 0x30 ∷ 0x2c ∷ 0x31 ∷ 0x2c
    ∷ 0x31 ∷ 0x32 ∷ 0x33 ∷ 0x00 ∷ 0x0c ∷ 0x63 ∷ 0x61 ∷ 0x70 ∷ 0x61 ∷ 0x62 ∷ 0x69 ∷ 0x6c ∷ 0x69
    ∷ 0x74 ∷ 0x69 ∷ 0x65 ∷ 0x73 ∷ 0x00 ∷ 0x40 ∷ 0x3f ∷ 0x00 ∷ 0x00 ∷ 0x00 ∷ 0x00 ∷ 0x00 ∷ 0x00
    ∷ 0x00 ∷ 0x00 ∷ 0x09 ∷ 0x03 ∷ 0x00 ∷ 0x05 ∷ 0x6c ∷ 0x65 ∷ 0x76 ∷ 0x65 ∷ 0x6c ∷ 0x02 ∷ 0x00
    ∷ 0x06 ∷ 0x73 ∷ 0x74 ∷ 0x61 ∷ 0x74 ∷ 0x75 ∷ 0x73 ∷ 0x00 ∷ 0x04 ∷ 0x63 ∷ 0x6f ∷ 0x64 ∷ 0x65
    ∷ 0x02 ∷ 0x00 ∷ 0x1d ∷ 0x4e ∷ 0x65 ∷ 0x74 ∷ 0x43 ∷ 0x6f ∷ 0x6e ∷ 0x6e ∷ 0x65 ∷ 0x63 ∷ 0x74
    ∷ 0x69 ∷ 0x6f ∷ 0x6e ∷ 0x2e ∷ 0x43 ∷ 0x6f ∷ 0x6e ∷ 0x6e ∷ 0x65 ∷ 0x63 ∷ 0x74 ∷ 0x2e ∷ 0x53
    ∷ 0x75 ∷ 0x63 ∷ 0x63 ∷ 0x65 ∷ 0x73 ∷ 0x73 ∷ 0x00 ∷ 0x0b ∷ 0x64 ∷ 0x65 ∷ 0x73 ∷ 0x63 ∷ 0x72
    ∷ 0x69 ∷ 0x70 ∷ 0x74 ∷ 0x69 ∷ 0x6f ∷ 0x6e ∷ 0x02 ∷ 0x00 ∷ 0x15 ∷ 0x43 ∷ 0x6f ∷ 0x6e ∷ 0x6e
    ∷ 0x65 ∷ 0x63 ∷ 0x74 ∷ 0x69 ∷ 0x6f ∷ 0x6e ∷ 0x20 ∷ 0x73 ∷ 0x75 ∷ 0x63 ∷ 0x63 ∷ 0x65 ∷ 0x65
    ∷ 0x64 ∷ 0x65 ∷ 0x64 ∷ 0x2e ∷ 0x00 ∷ 0x0e ∷ 0x6f ∷ 0x62 ∷ 0x6a ∷ 0x65 ∷ 0x63 ∷ 0x74 ∷ 0x45
    ∷ 0x6e ∷ 0x63 ∷ 0x6f ∷ 0x64 ∷ 0x69 ∷ 0x6e ∷ 0x67 ∷ 0x00 ∷ 0x00 ∷ 0x00 ∷ 0x00 ∷ 0x00 ∷ 0x00
    ∷ 0x00 ∷ 0x00 ∷ 0x00 ∷ 0x00 ∷ 0x00 ∷ 0x09 ∷ []

abbrev pub server_result : List ℕ
server_result =
    0x03 ∷ 0x00 ∷ 0x00 ∷ 0x00 ∷ 0x00 ∷ 0x00 ∷ 0x1d ∷ 0x14 ∷ 0x00 ∷ 0x00 ∷ 0x00 ∷ 0x00 ∷ 0x02 ∷ 0x00
    ∷ 0x07 ∷ 0x5f ∷ 0x72 ∷ 0x65 ∷ 0x73 ∷ 0x75 ∷ 0x6c ∷ 0x74 ∷ 0x00 ∷ 0x40 ∷ 0x10 ∷ 0x00 ∷ 0x00
    ∷ 0x00 ∷ 0x00 ∷ 0x00 ∷ 0x00 ∷ 0x05 ∷ 0x00 ∷ 0x3f ∷ 0xf0 ∷ 0x00 ∷ 0x00 ∷ 0x00 ∷ 0x00 ∷ 0x00
    ∷ 0x00 ∷ []

abbrev pub server_start : List ℕ
server_start =
    0x05 ∷ 0x00 ∷ 0x00 ∷ 0x00 ∷ 0x00 ∷ 0x00 ∷ 0x69 ∷ 0x14 ∷ 0x01 ∷ 0x00 ∷ 0x00 ∷ 0x00 ∷ 0x02 ∷ 0x00
    ∷ 0x08 ∷ 0x6f ∷ 0x6e ∷ 0x53 ∷ 0x74 ∷ 0x61 ∷ 0x74 ∷ 0x75 ∷ 0x73 ∷ 0x00 ∷ 0x00 ∷ 0x00 ∷ 0x00
    ∷ 0x00 ∷ 0x00 ∷ 0x00 ∷ 0x00 ∷ 0x00 ∷ 0x05 ∷ 0x03 ∷ 0x00 ∷ 0x05 ∷ 0x6c ∷ 0x65 ∷ 0x76 ∷ 0x65
    ∷ 0x6c ∷ 0x02 ∷ 0x00 ∷ 0x06 ∷ 0x73 ∷ 0x74 ∷ 0x61 ∷ 0x74 ∷ 0x75 ∷ 0x73 ∷ 0x00 ∷ 0x04 ∷ 0x63
    ∷ 0x6f ∷ 0x64 ∷ 0x65 ∷ 0x02 ∷ 0x00 ∷ 0x17 ∷ 0x4e ∷ 0x65 ∷ 0x74 ∷ 0x53 ∷ 0x74 ∷ 0x72 ∷ 0x65
    ∷ 0x61 ∷ 0x6d ∷ 0x2e ∷ 0x50 ∷ 0x75 ∷ 0x62 ∷ 0x6c ∷ 0x69 ∷ 0x73 ∷ 0x68 ∷ 0x2e ∷ 0x53 ∷ 0x74
    ∷ 0x61 ∷ 0x72 ∷ 0x74 ∷ 0x00 ∷ 0x0b ∷ 0x64 ∷ 0x65 ∷ 0x73 ∷ 0x63 ∷ 0x72 ∷ 0x69 ∷ 0x70 ∷ 0x74
    ∷ 0x69 ∷ 0x6f ∷ 0x6e ∷ 0x02 ∷ 0x00 ∷ 0x10 ∷ 0x53 ∷ 0x74 ∷ 0x61 ∷ 0x72 ∷ 0x74 ∷ 0x20 ∷ 0x70
    ∷ 0x75 ∷ 0x62 ∷ 0x6c ∷ 0x69 ∷ 0x73 ∷ 0x68 ∷ 0x69 ∷ 0x6e ∷ 0x67 ∷ 0x00 ∷ 0x00 ∷ 0x09 ∷ []
