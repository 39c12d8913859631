-- ===== src/Rtmp/Codec/Stream/Body.antt =====
-- utils/codec/RtmpCodec.cpp, `DecodePack` in the body of a message of which any part has arrived.
use live_broadcast_server.Common.{
  ℕ, ◌+◌, ◌≤◌, ◌<◌, ◌≡◌, refl, sym, ap, subst, ◌∙◌, false, List, [], ◌∷◌, ◌++◌, length, arith,
  length-append, append_assoc, append-nil, cut_short, cut_long,
}
use native.Mathlib.Decide.{dec_lt}
use live_broadcast_server.Rtmp.Pack.{fmt3, other, RtmpPack, get_body_remain_size, append_data}
use live_broadcast_server.Rtmp.Pack.Header.{Header, with_header, get_body_data_size-word_bytes}
use live_broadcast_server.Rtmp.Codec.{
  RtmpCodec, parse_rtmp_body, rtmp_chunk_size, finish_pack, body_step,
}
use live_broadcast_server.Rtmp.Codec.Chunks.{
  body_last_short, body_last, body_chunk_short, body_chunk,
}
use live_broadcast_server.Rtmp.Codec.Stream.{
  Message, Fits, Chunked, last, more, at_header, at_body, Outcome, delivered, pending,
}

Fits-append :
    {m : Message} {p : RtmpPack} (xs ys : List ℕ)
    → Fits m p (xs ++ ys)
    → Fits m (append_data p xs) ys
unfolding append_data
Fits-append {m} {p} xs ys f = record {
  timestamp = f.timestamp;
  data_size = f.data_size;
  pack_type = f.pack_type;
  stream_id = f.stream_id;
  body = append_assoc p.buffer xs ys ∙ f.body;
  short = f.short;
}

pub remain-Fits :
    {m : Message} {p : RtmpPack} (left : List ℕ)
    → Fits m p left
    → get_body_remain_size p ≡ length left
unfolding get_body_remain_size
remain-Fits {m} {p} left f = omega (
  arith,
  length-append p.buffer left,
  ap length f.body,
  get_body_data_size-word_bytes p (length m.body) f.short f.data_size,
)

-- A header of format 3 carries the chunk stream identifier only.
abbrev continuation : ℕ → Header
continuation c = record { csid = c; timestamp = 0; size = 0; pack_type = other; stream_id = 0 }

Fits-fmt3 :
    {m : Message} {p : RtmpPack} {left : List ℕ} (h : Header)
    → Fits m p left
    → Fits m (with_header fmt3 h p) left
Fits-fmt3 h f = record {
  timestamp = f.timestamp;
  data_size = f.data_size;
  pack_type = f.pack_type;
  stream_id = f.stream_id;
  body = f.body;
  short = f.short;
}

module _ {m : Message} {later rest : List ℕ} where
  body_last-Outcome :
      (c : RtmpCodec) (q left : List ℕ) (csid read : ℕ)
      → c.decode_pack_status ≡ parse_rtmp_body
      → csid < 64
      → Fits m c.current_rtmp_pack left
      → c.read_chunk_size ≡ 0
      → length left ≤ rtmp_chunk_size
      → q ++ later ≡ left ++ rest
      → Outcome m later rest (body_step c q false read)
  unfolding finish_pack
  body_last-Outcome c q left csid read s cs f z le e = elim (dec_lt (length q) (length left)) [
    | yes lt ↦
        (let (tail, cut, l) = cut_short q later left rest e (omega arith) in
          let f' = subst (Fits m c.current_rtmp_pack) cut f in
          rw (body_last_short c false read q (length left) (remain-Fits left f) le z lt) (
            pending tail refl
              (at_body csid tail s cs (omega (arith, ap length cut, length-append q tail))
                (Fits-append q tail f')
                (last z (omega (arith, ap length cut, length-append q tail)) refl))
              l))
    | no ge ↦
        (let (tail, cut, l) = cut_long q later left rest e (omega arith) in
          let f' = subst (Fits m c.current_rtmp_pack) (sym (append-nil left)) f in
          rw cut (
            rw (body_last c false read left tail (remain-Fits left f) le z)
              (delivered refl (Fits-append left [] f') refl refl z l)))
  ]

  body_more-Outcome :
      (c : RtmpCodec) (q left xs left' stream' : List ℕ) (csid read : ℕ)
      → c.decode_pack_status ≡ parse_rtmp_body
      → csid < 64
      → Fits m c.current_rtmp_pack left
      → c.read_chunk_size + length xs ≡ rtmp_chunk_size
      → 0 < length left'
      → Chunked csid 0 left' stream'
      → left ≡ xs ++ left'
      → q ++ later ≡ (xs ++ ((192 + csid) ∷ stream')) ++ rest
      → Outcome m later rest (body_step c q false read)
  body_more-Outcome c q left xs left' stream' csid read s cs f n pos k cut e =
      elim (dec_lt (length q) (length xs)) [
        | yes lt ↦
            (let (tail, part, l) = cut_short q later xs (next ++ rest) e' (omega arith) in
              let f' =
                subst (Fits m c.current_rtmp_pack)
                  (cut ∙ ap (λ l. l ++ left') part ∙ append_assoc q tail left') f in
              rw (body_chunk_short c false read q (length xs) n big lt) (
                pending (tail ++ next) refl
                  (at_body csid (tail ++ left') s cs (omega (arith, length-append tail left'))
                    (Fits-append q (tail ++ left') f')
                    (more tail left' stream' (omega (arith, ap length part, length-append q tail))
                      (omega (arith, ap length part, length-append q tail)) pos k refl refl))
                  (l ∙ sym (append_assoc tail next rest))))
        | no ge ↦
            (let (tail, part, l) = cut_long q later xs (next ++ rest) e' (omega arith) in
              let f' = Fits-append xs left' (subst (Fits m c.current_rtmp_pack) cut f) in
              rw part (
                rw (body_chunk c false read xs tail n big) (
                  pending next refl
                    (at_header fmt3 (continuation csid) left' stream' refl refl
                      (record {
                        csid_lt = cs;
                        timestamp_lt = omega arith;
                        size_lt = omega arith;
                        stream_id_lt = omega arith;
                      })
                      (Fits-fmt3 (continuation csid) f') k refl)
                    l)))
      ]
    where
      next : List ℕ
      next = (192 + csid) ∷ stream'

      e' : q ++ later ≡ xs ++ (next ++ rest)
      e' = e ∙ append_assoc xs next rest

      big : c.read_chunk_size ≡ 0 → rtmp_chunk_size < get_body_remain_size c.current_rtmp_pack
      big z = omega (arith, remain-Fits left f, ap length cut, length-append xs left')

  pub body-Outcome :
      (c : RtmpCodec) (q left stream : List ℕ) (csid read : ℕ)
      → c.decode_pack_status ≡ parse_rtmp_body
      → csid < 64
      → Fits m c.current_rtmp_pack left
      → Chunked csid c.read_chunk_size left stream
      → q ++ later ≡ stream ++ rest
      → Outcome m later rest (body_step c q false read)
  body-Outcome c q left stream csid read s cs f (last z le e) w =
      body_last-Outcome c q left csid read s cs f z le (w ∙ ap (λ l. l ++ rest) e)
  body-Outcome c q left stream csid read s cs f (more xs left' stream' n _ pos k cut e) w =
      body_more-Outcome c q left xs left' stream' csid read s cs f n pos k cut
        (w ∙ ap (λ l. l ++ rest) e)
