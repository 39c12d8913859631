-- ===== src/Rtmp/Codec/Stream/Deliver.antt =====
-- utils/codec/RtmpCodec.cpp: once a message has arrived whole, calls of `DecodePack` deliver it.
use live_broadcast_server.Common.{
  ℕ, zero, suc, ◌+◌, ◌<◌, ◌≡◌, ◌⊎◌, inl, inr, sym, ap, subst, ◌∙◌, true, false, Option, some, none,
  List, [], ◌∷◌, ◌++◌, length, arith, length-append, append_assoc, append-nil, length-drop, ◌*◌,
  if◌then◌else◌,
}
use live_broadcast_server.Fifo.{Fifo}
use live_broadcast_server.Rtmp.Pack.{Fmt, get_body_remain_size}
use live_broadcast_server.Rtmp.Pack.Header.{
  Header, IsHeader, encode_header, message_header, with_header, fmt_code,
}
use live_broadcast_server.Rtmp.Codec.{
  RtmpCodec, parse_rtmp_header, parse_rtmp_body, rtmp_chunk_size, Decoded, decode_body, decode_pack,
}
use live_broadcast_server.Rtmp.Codec.Pack.{decode_pack-at_header, decode_pack-at_body}
use live_broadcast_server.Rtmp.Codec.Chunks.{body_last, body_chunk}
use live_broadcast_server.Rtmp.Codec.Stream.{
  Message, Fits, Chunked, last, more, Expects, at_header, at_body, delivered, pending,
}
use live_broadcast_server.Rtmp.Codec.Stream.Body.{remain-Fits}
use live_broadcast_server.Rtmp.Codec.Stream.Step.{decode_pack-Outcome, header_step-whole}
use live_broadcast_server.Rtmp.Codec.Pack.{
  decode_pack-Consumes, body_step-result, IsValid, decode_pack-at_header, decode_pack-at_body,
}
use live_broadcast_server.Rtmp.Codec.Valid.{decode_pack-IsValid}

-- Calls of `DecodePack` on one buffer until a packet is finished; `none` when the fuel runs out.
pub until_finish : ℕ → RtmpCodec → Fifo → Option Decoded
until_finish zero c q = none
until_finish (suc fuel) c q =
    let d = decode_pack c q false in
    let more_calls = until_finish fuel d.codec d.buffer in
    if d.pack_finish then some d else more_calls

-- The call takes something.
abbrev Advances : Decoded → Type 0
Advances d = (n : ℕ) × (0 < n) × (d.result ≡ some n)

header-Advances :
    (c : RtmpCodec) (f : Fmt) (h : Header) (tail : List ℕ)
    → c.decode_pack_status ≡ parse_rtmp_header
    → IsHeader h
    → Advances (decode_pack c (encode_header f h ++ tail) false)
header-Advances c f h tail s v = (
  length (encode_header f h) + (decode_body after tail).read_length,
  omega arith,
  ap (λ d. d.result)
        (decode_pack-at_header c (fmt_code f * 64 + h.csid) (message_header f h ++ tail) false s
          ∙ header_step-whole c f h tail v)
      ∙ body_step-result after tail false (length (encode_header f h)),
)
  where
    after : RtmpCodec
    after = record c {
      current_rtmp_pack = with_header f h c.current_rtmp_pack;
      decode_pack_status = parse_rtmp_body;
    }

body-Advances :
    {m : Message} (c : RtmpCodec) (left stream rest : List ℕ) (csid : ℕ)
    → c.decode_pack_status ≡ parse_rtmp_body
    → 0 < length left
    → Fits m c.current_rtmp_pack left
    → Chunked csid c.read_chunk_size left stream
    → ((decode_pack c (stream ++ rest) false).pack_finish ≡ true)
      ⊎ Advances (decode_pack c (stream ++ rest) false)
body-Advances c [] stream rest csid s p f k = absurd (omega arith)
body-Advances c (y ∷ ys) stream rest csid s p f (last z le e) = inl (
    ap (λ l. (decode_pack c (l ++ rest) false).pack_finish) e
    ∙ ap (λ d. d.pack_finish)
        (decode_pack-at_body c y (ys ++ rest) false s
          ∙ body_last c false 0 (y ∷ ys) rest (remain-Fits (y ∷ ys) f) le z))
body-Advances c left stream rest csid s p f (more [] left' stream' n px pos k cut e) =
    absurd (omega arith)
body-Advances c left stream rest csid s p f (more (x ∷ xs) left' stream' n px pos k cut e) = inr (
  0 + length (x ∷ xs),
  omega arith,
  ap (λ l. (decode_pack c l false).result) (ap (λ l. l ++ rest) e ∙ append_assoc (x ∷ xs) next rest)
      ∙ ap (λ d. d.result)
          (decode_pack-at_body c x (xs ++ (next ++ rest)) false s
            ∙ body_chunk c false 0 (x ∷ xs) (next ++ rest) n big),
)
  where
    next : List ℕ
    next = (192 + csid) ∷ stream'

    big : c.read_chunk_size ≡ 0 → rtmp_chunk_size < get_body_remain_size c.current_rtmp_pack
    big z = omega (arith, remain-Fits left f, ap length cut, length-append (x ∷ xs) left')

-- A call on the whole of what is to come takes something, unless it finishes the packet.
progress :
    {m : Message} (c : RtmpCodec) (stream rest : List ℕ)
    → Expects m c stream
    → ((decode_pack c (stream ++ rest) false).pack_finish ≡ true)
      ⊎ Advances (decode_pack c (stream ++ rest) false)
progress c stream rest (at_header f h left chunks s z v fits k e) = inr (
    subst (λ l. Advances (decode_pack c l false))
      (sym (ap (λ l. l ++ rest) e ∙ append_assoc (encode_header f h) chunks rest))
      (header-Advances c f h (chunks ++ rest) s v))
progress c stream rest (at_body csid left s cs p f k) =
    body-Advances c left stream rest csid s p f k

shorter :
    (c : RtmpCodec) (stream stream' rest : List ℕ)
    → c.read_chunk_size < rtmp_chunk_size
    → (decode_pack c (stream ++ rest) false).buffer ≡ stream' ++ rest
    → Advances (decode_pack c (stream ++ rest) false)
    → length stream' < length stream
shorter c stream stream' rest w e (n, pos, r) =
    let t = decode_pack-Consumes c (stream ++ rest) false w n r in
    omega (
      arith,
      ap length (sym e ∙ t.1),
      length-append stream rest,
      length-append stream' rest,
      length-drop n (stream ++ rest),
      t.0,
    )

finishes :
    (fuel : ℕ) (c : RtmpCodec) (q : Fifo)
    → (decode_pack c q false).pack_finish ≡ true
    → until_finish (suc fuel) c q ≡ some (decode_pack c q false)
unfolding until_finish
finishes fuel c q e = rw e

goes_on :
    (fuel : ℕ) (c : RtmpCodec) (q : Fifo)
    → (decode_pack c q false).pack_finish ≡ false
    → until_finish (suc fuel) c q
      ≡ until_finish fuel (decode_pack c q false).codec (decode_pack c q false).buffer
unfolding until_finish
goes_on fuel c q e = rw e

-- The packet that the calls finish is the message, and what follows it stays in the buffer.
pub record Delivers (m : Message) (rest : List ℕ) (o : Option Decoded) : Type 0 where
  pub decoded : Decoded
  pub returns : o ≡ some decoded
  pub message : Fits m decoded.codec.last_rtmp_pack []
  pub remainder : decoded.buffer ≡ rest

-- Once all of a message is in the buffer, calls of DecodePack deliver it and leave what follows:
-- more calls than the message has bytes are always enough, whichever part of it had been read
-- before.
pub until_finish-Delivers :
    {m : Message} (fuel : ℕ) (c : RtmpCodec) (stream rest : List ℕ)
    → Expects m c stream
    → IsValid c
    → length stream < fuel
    → Delivers m rest (until_finish fuel c (stream ++ rest))
until_finish-Delivers zero c stream rest x v h = absurd (omega arith)
until_finish-Delivers {m} (suc fuel) c stream rest x v h =
    let q = stream ++ rest in
    let d = decode_pack c q false in
    elim (decode_pack-Outcome {m = m} {later = []} {rest = rest} c q stream x (append-nil q)) [
      | delivered e f _ _ _ b ↦ record {
        decoded = d;
        returns = finishes fuel c q e;
        message = f;
        remainder = sym (append-nil d.buffer) ∙ b;
      }
      | pending stream' e x' b ↦
          (let b' = sym (append-nil d.buffer) ∙ b in
            elim (progress c stream rest x) [
              | inl e' ↦ absurd (cc)
              | inr a ↦
                  subst (Delivers m rest)
                    (sym (goes_on fuel c q e ∙ ap (until_finish fuel d.codec) b'))
                    (until_finish-Delivers fuel d.codec stream' rest x'
                      (decode_pack-IsValid c q false v)
                      (omega (arith, shorter c stream stream' rest v.within_chunk b' a)))
            ])
    ]
