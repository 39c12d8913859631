-- ===== src/Flv/Tag.antt =====
-- The tag of utils/codec/FlvCodec.cpp: what its setters write and its getters read.
use live_broadcast_server.Common.{ℕ, ◌≡◌, refl, List, [], ◌∷◌, ◌++◌, be24}
use live_broadcast_server.Rtmp.Pack.{Bytes3}
use live_broadcast_server.Fifo
use live_broadcast_server.Flv.{set_tag_type, set_data_size, set_time_stamp, set_stream_id}

-- A tag as the format has it: type, data size, time stamp, its extension and the stream.
pub record Fields : Type 0 where
  pub tag_type : ℕ
  pub data_size : Bytes3
  pub timestamp : ℕ
  pub extension : ℕ
  pub stream_id : Bytes3

unfoldable pub layout : Fields → List ℕ
layout f =
    f.tag_type ∷ f.data_size.b0 ∷ f.data_size.b1 ∷ f.data_size.b2 ∷ []
    ++ (be24 f.timestamp ++ (f.extension ∷ f.stream_id.b0 ∷ f.stream_id.b1 ∷ f.stream_id.b2 ∷ []))

-- The setters, in any state of the tag, write the fields of the format and leave the extension
-- of the time stamp as it was.
setters-layout :
    (f : Fields) (body : Fifo.Fifo) (g : Fields)
    → set_stream_id
        (set_time_stamp
          (set_data_size
            (set_tag_type (record { header = layout g; body = body }) f.tag_type)
            f.data_size)
          f.timestamp)
        f.stream_id
      ≡ record { header = layout (record f { extension = g.extension }); body = body }
unfolding layout set_tag_type set_data_size set_time_stamp set_stream_id
setters-layout f body g = refl
