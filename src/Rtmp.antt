-- ===== src/Rtmp.antt =====
-- utils/codec: the RTMP side. `Pack` is a packet with its chunk header, `Codec` the chunk stream
-- decoder, `Manager` the handshake.
pub mod Pack
pub mod Codec
pub mod Manager
