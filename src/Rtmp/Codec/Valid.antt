-- ===== src/Rtmp/Codec/Valid.antt =====
-- utils/codec/RtmpCodec.cpp, `DecodePack`: the invariant that it keeps, and when a packet is finished.
use live_broadcast_server.Common.{
  ℕ, zero, suc, ◌<◌, ◌≡◌, refl, sym, ap, ◌∙◌, ◌≢◌, inl, inr, Bool, true, false, Option, none, some,
  [], ◌∷◌, arith, Bool-cases, drop,
}
use live_broadcast_server.Fifo.{Fifo}
use live_broadcast_server.Rtmp.Codec.{
  RtmpCodec, PackStatus, parse_rtmp_header, parse_rtmp_body, rtmp_chunk_size, Body, finish_pack,
  after_body, body_step, after_header, header_step, decode_pack_in, decode_pack,
}
use live_broadcast_server.Rtmp.Codec.Pack.{
  IsValid, decode_body-Takes, decode_pack-cons, body_step-ne-none,
}

after_body-IsValid :
    (d : Body) (read : ℕ) (q : Fifo) (finish : Bool)
    → d.codec.read_chunk_size < rtmp_chunk_size
    → (d.body_finish ≡ true → d.codec.read_chunk_size ≡ 0)
    → d.codec.decode_pack_status ≡ parse_rtmp_body
    → IsValid (after_body d read q finish).codec
unfolding after_body finish_pack
after_body-IsValid d read q finish w r s = elim (Bool-cases d.body_finish) [
  | inl e ↦ (let z = r e in ground arith)
  | inr e ↦ ground arith
]

body_step-IsValid :
    (c : RtmpCodec) (q : Fifo) (finish : Bool) (read : ℕ)
    → c.read_chunk_size < rtmp_chunk_size
    → c.decode_pack_status ≡ parse_rtmp_body
    → IsValid (body_step c q finish read).codec
unfolding body_step
body_step-IsValid c q finish read w s =
    let t = decode_body-Takes c q w in
    after_body-IsValid _ read _ finish t.within_chunk t.reset (t.status ∙ s)

after_header-IsValid :
    (r : Option ℕ) (c : RtmpCodec) (q : Fifo) (finish : Bool)
    → IsValid c
    → IsValid (after_header r c q finish).codec
unfolding after_header
after_header-IsValid none c q finish v = v
after_header-IsValid (some zero) c q finish v = v
after_header-IsValid (some (suc n)) c q finish v =
    body_step-IsValid (record c { decode_pack_status = parse_rtmp_body }) (drop (suc n) q) finish
      (suc n) v.within_chunk refl

decode_pack_in-IsValid :
    (s : PackStatus) (c : RtmpCodec) (q : Fifo) (finish : Bool)
    → c.decode_pack_status ≡ s
    → IsValid c
    → IsValid (decode_pack_in s c q finish).codec
unfolding decode_pack_in header_step
decode_pack_in-IsValid parse_rtmp_header c q finish e v =
    after_header-IsValid _ _ q finish
      (record { within_chunk = v.within_chunk; at_header = v.at_header })
decode_pack_in-IsValid parse_rtmp_body c q finish e v =
    body_step-IsValid c q finish 0 v.within_chunk e

-- Every call of DecodePack keeps the invariant, whatever the bytes.
pub decode_pack-IsValid :
    (c : RtmpCodec) (q : Fifo) (finish : Bool) → IsValid c → IsValid (decode_pack c q finish).codec
unfolding decode_pack
decode_pack-IsValid c [] finish v = v
decode_pack-IsValid c (x ∷ q) finish v =
    rw (decode_pack-cons c x q finish)
      (decode_pack_in-IsValid c.decode_pack_status c (x ∷ q) finish refl v)

-- A call that finishes a packet has not failed.
after_header-finish :
    (r : Option ℕ) (c : RtmpCodec) (q : Fifo)
    → (after_header r c q false).pack_finish ≡ true
    → (after_header r c q false).result ≢ none
unfolding after_header
after_header-finish none c q h = cc
after_header-finish (some zero) c q h = cc
after_header-finish (some (suc k)) c q h = body_step-ne-none _ _ false (suc k)

decode_pack_in-finish :
    (s : PackStatus) (c : RtmpCodec) (q : Fifo)
    → (decode_pack_in s c q false).pack_finish ≡ true
    → (decode_pack_in s c q false).result ≢ none
unfolding decode_pack_in header_step
decode_pack_in-finish parse_rtmp_header c q h = after_header-finish _ _ q h
decode_pack_in-finish parse_rtmp_body c q h = body_step-ne-none c q false 0

pub decode_pack-finish :
    (c : RtmpCodec) (q : Fifo)
    → (decode_pack c q false).pack_finish ≡ true
    → (decode_pack c q false).result ≢ none
unfolding decode_pack
decode_pack-finish c [] h = λ e. cc
decode_pack-finish c (x ∷ q) h = λ e.
    let r = decode_pack-cons c x q false in
    decode_pack_in-finish c.decode_pack_status c (x ∷ q) (sym (ap (λ d. d.pack_finish) r) ∙ h)
      (sym (ap (λ d. d.result) r) ∙ e)
