-- ===== src/Rtmp/Codec/Chunks.antt =====
-- utils/codec/RtmpCodec.cpp, `DecodePack` on a body: the four ways in which a call can end.
use live_broadcast_server.Common.{
  ℕ, ◌+◌, ◌≤◌, ◌<◌, ◌≡◌, refl, Bool, true, false, some, List, [], ◌++◌, length, arith, take_all,
  drop_all, take-append, drop-append, length-append,
}
use live_broadcast_server.Fifo.{Fifo}
use live_broadcast_server.Rtmp.Pack.{get_body_remain_size, append_data}
use live_broadcast_server.Rtmp.Codec.{
  RtmpCodec, parse_rtmp_header, rtmp_chunk_size, decode_body, finish_pack, body_step,
}

module _ (c : RtmpCodec) (finish : Bool) (read : ℕ) where
  -- The last chunk, with too little data: all of it is taken.
  pub body_last_short :
      (q : Fifo) (n : ℕ)
      → get_body_remain_size c.current_rtmp_pack ≡ n
      → n ≤ rtmp_chunk_size
      → c.read_chunk_size ≡ 0
      → length q < n
      → body_step c q finish read ≡ record {
        result = some (read + length q);
        pack_finish = finish;
        buffer = [];
        codec = record c {
          chunk_over = true;
          current_rtmp_pack = append_data c.current_rtmp_pack q;
        };
      }
  unfolding body_step decode_body
  body_last_short q n e le z lt = ground (arith, take_all (length q) q, drop_all (length q) q)

  -- The last chunk is complete: so is the packet.
  pub body_last :
      (xs ys : List ℕ)
      → get_body_remain_size c.current_rtmp_pack ≡ length xs
      → length xs ≤ rtmp_chunk_size
      → c.read_chunk_size ≡ 0
      → body_step c (xs ++ ys) finish read ≡ record {
        result = some (read + length xs);
        pack_finish = true;
        buffer = ys;
        codec = finish_pack (record c {
          decode_pack_status = parse_rtmp_header;
          chunk_over = true;
          current_rtmp_pack = append_data c.current_rtmp_pack xs;
        });
      }
  unfolding body_step decode_body
  body_last xs ys e le z = ground (
    arith,
    take-append (length xs) xs ys refl,
    drop-append (length xs) xs ys refl,
    length-append xs ys,
  )

  -- A full chunk, with too little data.
  pub body_chunk_short :
      (q : Fifo) (k : ℕ)
      → c.read_chunk_size + k ≡ rtmp_chunk_size
      → (c.read_chunk_size ≡ 0 → rtmp_chunk_size < get_body_remain_size c.current_rtmp_pack)
      → length q < k
      → body_step c q finish read ≡ record {
        result = some (read + length q);
        pack_finish = finish;
        buffer = [];
        codec = record c {
          chunk_over = false;
          current_rtmp_pack = append_data c.current_rtmp_pack q;
          read_chunk_size = c.read_chunk_size + length q;
        };
      }
  unfolding body_step decode_body
  body_chunk_short q k e big lt = ground (arith, take_all (length q) q, drop_all (length q) q)

  -- A full chunk is complete, and the packet is not: a header is next.
  pub body_chunk :
      (xs ys : List ℕ)
      → c.read_chunk_size + length xs ≡ rtmp_chunk_size
      → (c.read_chunk_size ≡ 0 → rtmp_chunk_size < get_body_remain_size c.current_rtmp_pack)
      → body_step c (xs ++ ys) finish read ≡ record {
        result = some (read + length xs);
        pack_finish = finish;
        buffer = ys;
        codec = record c {
          decode_pack_status = parse_rtmp_header;
          chunk_over = false;
          current_rtmp_pack = append_data c.current_rtmp_pack xs;
          read_chunk_size = 0;
        };
      }
  unfolding body_step decode_body
  body_chunk xs ys e big = ground (
    arith,
    take-append (length xs) xs ys refl,
    drop-append (length xs) xs ys refl,
    length-append xs ys,
  )
