-- ===== src/Rtmp/Codec/Stream/Step.antt =====
-- utils/codec/RtmpCodec.cpp, `DecodePack` at a header of which any part has arrived, and the theorem
-- on the whole call.
use live_broadcast_server.Common.{
  ℕ, ◌+◌, ◌<◌, ◌≡◌, refl, sym, ap, subst, ◌∙◌, false, Option, some, List, [], ◌∷◌, ◌++◌, length,
  arith, append_assoc, cut_long, drop-append, ◌/◌, ◌%◌, ◌*◌, if◌then◌else◌, lt→ltb,
}
use native.Mathlib.Decide.{dec_lt}
use live_broadcast_server.Fifo.{Fifo}
use live_broadcast_server.Rtmp.Pack.{Fmt, fmt0, fmt1, fmt2, fmt3, RtmpPack, decode_header, fmt_of}
use live_broadcast_server.Rtmp.Pack.Header.{
  Header, IsHeader, encode_header, message_header, with_header, header_length, fmt_code,
  decode_header-with_header, decode_header_short, decode_header_cases,
}
use live_broadcast_server.Rtmp.Codec.{
  RtmpCodec, parse_rtmp_header, parse_rtmp_body, body_step, decode_pack, after_header, header_step,
}
use live_broadcast_server.Rtmp.Codec.Pack.{decode_pack-at_header, decode_pack-at_body}
use live_broadcast_server.Rtmp.Codec.Stream.{
  Message, Fits, Chunked, Expects, at_header, at_body, Outcome, pending,
}
use live_broadcast_server.Rtmp.Codec.Stream.Body.{body-Outcome}

header_step-eq :
    (c : RtmpCodec) (q : Fifo) (r : Option ℕ) (p : RtmpPack)
    → decode_header c.current_rtmp_pack (some q) ≡ (r, p)
    → header_step c q false ≡ after_header r (record c { current_rtmp_pack = p }) q false
unfolding header_step
header_step-eq c q r p e =
    ap (λ h. after_header h.0 (record c { current_rtmp_pack = h.1 }) q false) e

-- A header that is there whole is taken, and the call goes on with the body.
pub header_step-whole :
    (c : RtmpCodec) (f : Fmt) (h : Header) (tail : List ℕ)
    → IsHeader h
    → header_step c (encode_header f h ++ tail) false
      ≡ body_step
          (record c {
            current_rtmp_pack = with_header f h c.current_rtmp_pack;
            decode_pack_status = parse_rtmp_body;
          })
          tail
          false
          (length (encode_header f h))
unfolding after_header
header_step-whole c f h tail v =
    rw
      (header_step-eq c (encode_header f h ++ tail) (some (length (encode_header f h)))
        (with_header f h c.current_rtmp_pack)
        (decode_header-with_header f h c.current_rtmp_pack tail v))
      (rw (drop-append (length (message_header f h)) (message_header f h) tail refl))

with_header-forget :
    (f : Fmt) (h : Header) (p : RtmpPack) (a : Fmt) (b : ℕ)
    → with_header f h (record p { fmt = a; csid = b }) ≡ with_header f h p
with_header-forget fmt0 h p a b = refl
with_header-forget fmt1 h p a b = refl
with_header-forget fmt2 h p a b = refl
with_header-forget fmt3 h p a b = refl

header_length-encode :
    (f : Fmt) (h : Header)
    → IsHeader h
    → (header_length (fmt_code f * 64 + h.csid) ≡ length (encode_header f h))
      × (fmt_code f * 64 + h.csid < 256)
header_length-encode fmt0 h v = ground (arith, v.csid_lt)
header_length-encode fmt1 h v = ground (arith, v.csid_lt)
header_length-encode fmt2 h v = ground (arith, v.csid_lt)
header_length-encode fmt3 h v = ground (arith, v.csid_lt)

-- The packet after the first byte of a header that has not arrived whole.
abbrev after_first_byte : ℕ → RtmpPack → RtmpPack
after_first_byte x p = record p { fmt = fmt_of (x / 64); csid = x % 64 }

-- Such a header is left in the buffer.
header_step_short :
    (c : RtmpCodec) (x : ℕ) (xs : List ℕ)
    → x < 256
    → length (x ∷ xs) < header_length x
    → header_step c (x ∷ xs) false ≡ record {
      result = some 0;
      pack_finish = false;
      buffer = x ∷ xs;
      codec = record c { current_rtmp_pack = after_first_byte x c.current_rtmp_pack };
    }
unfolding after_header
header_step_short c x xs b lt =
    header_step-eq c (x ∷ xs) (some 0) (after_first_byte x c.current_rtmp_pack)
      (λ i. (result i, decode_header_short c.current_rtmp_pack x xs b lt i))
  where
    result : (decode_header c.current_rtmp_pack (some (x ∷ xs))).0 ≡ some 0
    result =
        (decode_header_cases c.current_rtmp_pack x xs b).0
        ∙ ap (λ t. if t then some 0 else some (header_length x)) (lt→ltb _ _ lt)

module _ {m : Message} {later rest : List ℕ} where
  header-Outcome :
      (c : RtmpCodec) (f : Fmt) (h : Header) (x : ℕ) (xs left chunks : List ℕ)
      → c.decode_pack_status ≡ parse_rtmp_header
      → c.read_chunk_size ≡ 0
      → IsHeader h
      → Fits m (with_header f h c.current_rtmp_pack) left
      → Chunked h.csid 0 left chunks
      → (x ∷ xs) ++ later ≡ (encode_header f h ++ chunks) ++ rest
      → Outcome m later rest (header_step c (x ∷ xs) false)
  header-Outcome c f h x xs left chunks s z v fits k e =
      elim (dec_lt (length (x ∷ xs)) (length (encode_header f h))) [
        | yes lt ↦
            (let first : fmt_code f * 64 + h.csid ≡ x = cc in
              let l = header_length-encode f h v in
              let short =
                subst (λ y. (header_length y ≡ length (encode_header f h)) × (y < 256)) first l in
              rw (header_step_short c x xs short.1 (omega arith)) (
                pending (encode_header f h ++ chunks) refl
                  (at_header f h left chunks s z v
                    (subst (λ p. Fits m p left)
                      (sym (with_header-forget f h c.current_rtmp_pack (fmt_of (x / 64)) (x % 64)))
                      fits)
                    k refl)
                  e))
        | no ge ↦
            (let (tail, cut, l) =
                cut_long (x ∷ xs) later (encode_header f h) (chunks ++ rest)
                  (e ∙ append_assoc (encode_header f h) chunks rest) (omega arith) in
              rw (cut, header_step-whole c f h tail v)
                (body-Outcome _ tail left chunks h.csid (length (encode_header f h)) refl v.csid_lt
                  fits (subst (λ n. Chunked h.csid n left chunks) (sym z) k) l))
      ]

  -- Whenever the decoder is on the way to a message and some of what is to come has arrived, in
  -- whatever portion, one call of DecodePack either delivers exactly that message and leaves what
  -- follows it, or says that no packet is finished and stays on the way, having lost no byte.
  pub decode_pack-Outcome :
      (c : RtmpCodec) (q stream : List ℕ)
      → Expects m c stream
      → q ++ later ≡ stream ++ rest
      → Outcome m later rest (decode_pack c q false)
  unfolding decode_pack
  decode_pack-Outcome c [] stream x e = pending stream refl x e
  decode_pack-Outcome c (y ∷ q) stream (at_header f h left chunks s z v fits k e') e =
      rw (decode_pack-at_header c y q false s)
        (header-Outcome c f h y q left chunks s z v fits k (e ∙ ap (λ l. l ++ rest) e'))
  decode_pack-Outcome c (y ∷ q) stream (at_body csid left s cs _ f k) e =
      rw (decode_pack-at_body c y q false s) (body-Outcome c (y ∷ q) left stream csid 0 s cs f k e)
