-- ===== src/Rtmp/Codec/Pack.antt =====
-- utils/codec/RtmpCodec.cpp, `DecodePack` and `DecodeBody`: what one call takes and keeps.
use live_broadcast_server.Common.{
  ℕ, zero, suc, ◌+◌, ◌≤◌, ◌<◌, ◌≡◌, ◌≢◌, ◌⊎◌, refl, sym, ap, ◌∙◌, Bool, true, false, Option, none,
  some, List, [], ◌∷◌, length, take, drop, arith, length-drop, drop-drop, AllBytes, Bool-cases, inl,
  inr,
}
use live_broadcast_server.Fifo.{Fifo}
use live_broadcast_server.Rtmp.Pack.{RtmpPack, decode_header, append_data}
use live_broadcast_server.Rtmp.Codec.{
  RtmpCodec, PackStatus, parse_rtmp_header, parse_rtmp_body, rtmp_chunk_size, Body, decode_body,
  Decoded, after_body, body_step, after_header, header_step, decode_pack_in, decode_pack,
}

-- Between calls a chunk is never full, and between a chunk and the next header nothing of a chunk
-- has been read.
pub record IsValid (c : RtmpCodec) : Type 0 where
  pub within_chunk : c.read_chunk_size < rtmp_chunk_size
  pub at_header : c.decode_pack_status ≡ parse_rtmp_header → c.read_chunk_size ≡ 0

-- `DecodeBody` takes a prefix of the data, and all of it unless the part it works on is complete;
-- what it takes goes to the end of the packet's body. A chunk that is complete is counted from 0
-- again.
pub record Takes (c : RtmpCodec) (xs : List ℕ) (d : Body) : Type 0 where
  pub available : d.read_length ≤ length xs
  pub rest_taken : d.body_finish ≡ false → d.read_length ≡ length xs
  pub kept : d.codec.current_rtmp_pack ≡ append_data c.current_rtmp_pack (take d.read_length xs)
  pub within_chunk : d.codec.read_chunk_size < rtmp_chunk_size
  pub reset : d.body_finish ≡ true → d.codec.read_chunk_size ≡ 0
  pub status : d.codec.decode_pack_status ≡ c.decode_pack_status

pub decode_body-Takes :
    (c : RtmpCodec) (xs : List ℕ)
    → c.read_chunk_size < rtmp_chunk_size
    → Takes c xs (decode_body c xs)
unfolding decode_body
decode_body-Takes c xs h = record {
  available = ground arith;
  rest_taken = ground arith;
  kept = ground arith;
  within_chunk = ground arith;
  reset = ground arith;
  status = ground arith;
}

decode_header_le :
    (p : RtmpPack) (xs : List ℕ) (n : ℕ) → (decode_header p (some xs)).0 ≡ some n → n ≤ length xs
unfolding decode_header
decode_header_le p [] n h = ground arith
decode_header_le p (x ∷ xs) n h = ground arith

decode_header-ne-none :
    (p : RtmpPack) (xs : List ℕ) → AllBytes xs → (decode_header p (some xs)).0 ≢ none
unfolding decode_header
decode_header-ne-none p [] b = ground arith
decode_header-ne-none p (x ∷ xs) b = ground (arith, b.0)

-- A call that does not fail takes the first `n` bytes of the buffer and says so.
abbrev pub Consumes : Fifo → Decoded → Type 0
Consumes q d = (n : ℕ) → d.result ≡ some n → (n ≤ length q) × (d.buffer ≡ drop n q)

after_body_cases :
    (d : Body) (read : ℕ) (q : Fifo) (finish : Bool)
    → let r = after_body d read q finish in
      (r.result ≡ some (read + d.read_length))
      × (r.buffer ≡ q)
      × (r.codec.read_chunk_size ≡ d.codec.read_chunk_size)
      × ((d.body_finish ≡ true) ⊎ (r.codec ≡ d.codec))
unfolding after_body
after_body_cases d read q finish = elim (Bool-cases d.body_finish) [
  | inl e ↦ elim (Bool-cases d.codec.chunk_over) [
    | inl o ↦ (ground arith, ground arith, ground arith, inl e)
    | inr o ↦ (ground arith, ground arith, ground arith, inl e)
  ]
  | inr e ↦ (ground arith, ground arith, ground arith, inr (ground arith))
]

pub body_step-result :
    (c : RtmpCodec) (q : Fifo) (finish : Bool) (read : ℕ)
    → (body_step c q finish read).result ≡ some (read + (decode_body c q).read_length)
unfolding body_step
body_step-result c q finish read = (after_body_cases (decode_body c q) read _ finish).0

body_step-Consumes :
    (c : RtmpCodec) (finish : Bool) (read : ℕ) (q : Fifo)
    → c.read_chunk_size < rtmp_chunk_size
    → read ≤ length q
    → Consumes q (body_step c (drop read q) finish read)
unfolding body_step
body_step-Consumes c finish read q v h n r =
    let t = decode_body-Takes c (drop read q) v in
    let d = decode_body c (drop read q) in
    let a = after_body_cases d read (drop d.read_length (drop read q)) finish in
    let e : n ≡ read + d.read_length = ground arith in
    (
      omega (arith, length-drop read q, t.available),
      a.1 ∙ drop-drop read d.read_length q ∙ ap (λ k. drop k q) (sym e),
    )

after_header-Consumes :
    (r : Option ℕ) (c : RtmpCodec) (q : Fifo) (finish : Bool)
    → c.read_chunk_size < rtmp_chunk_size
    → ((n : ℕ) → r ≡ some n → n ≤ length q)
    → Consumes q (after_header r c q finish)
unfolding after_header
after_header-Consumes none c q finish v h n e = cc
after_header-Consumes (some zero) c q finish v h n e = ground arith
after_header-Consumes (some (suc k)) c q finish v h n e =
    body_step-Consumes (record c { decode_pack_status = parse_rtmp_body }) finish (suc k) q v
      (h (suc k) refl) n e

decode_pack_in-Consumes :
    (s : PackStatus) (c : RtmpCodec) (q : Fifo) (finish : Bool)
    → c.read_chunk_size < rtmp_chunk_size
    → Consumes q (decode_pack_in s c q finish)
unfolding decode_pack_in header_step
decode_pack_in-Consumes parse_rtmp_header c q finish v =
    after_header-Consumes _ _ q finish v (λ n e. decode_header_le c.current_rtmp_pack q n e)
decode_pack_in-Consumes parse_rtmp_body c q finish v =
    body_step-Consumes c finish 0 q v (omega arith)

-- On a buffer that is not empty the state decides.
pub decode_pack-cons :
    (c : RtmpCodec) (x : ℕ) (q : List ℕ) (finish : Bool)
    → decode_pack c (x ∷ q) finish ≡ decode_pack_in c.decode_pack_status c (x ∷ q) finish
unfolding decode_pack
decode_pack-cons c x q finish = ground arith

pub decode_pack-at_header :
    (c : RtmpCodec) (x : ℕ) (q : List ℕ) (finish : Bool)
    → c.decode_pack_status ≡ parse_rtmp_header
    → decode_pack c (x ∷ q) finish ≡ header_step c (x ∷ q) finish
unfolding decode_pack_in
decode_pack-at_header c x q finish s =
    decode_pack-cons c x q finish ∙ ap (λ t. decode_pack_in t c (x ∷ q) finish) s

pub decode_pack-at_body :
    (c : RtmpCodec) (x : ℕ) (q : List ℕ) (finish : Bool)
    → c.decode_pack_status ≡ parse_rtmp_body
    → decode_pack c (x ∷ q) finish ≡ body_step c (x ∷ q) finish 0
unfolding decode_pack_in
decode_pack-at_body c x q finish s =
    decode_pack-cons c x q finish ∙ ap (λ t. decode_pack_in t c (x ∷ q) finish) s

-- DecodePack, with a chunk that is not full, returns the number of bytes that it took from the front
-- of the buffer.
pub decode_pack-Consumes :
    (c : RtmpCodec) (q : Fifo) (finish : Bool)
    → c.read_chunk_size < rtmp_chunk_size
    → Consumes q (decode_pack c q finish)
unfolding decode_pack
decode_pack-Consumes c [] finish v n e = ground arith
decode_pack-Consumes c (x ∷ q) finish v n e =
    let r = decode_pack-cons c x q finish in
    let i =
      decode_pack_in-Consumes c.decode_pack_status c (x ∷ q) finish v n
        (sym (ap (λ d. d.result) r) ∙ e) in
    (i.0, ap (λ d. d.buffer) r ∙ i.1)

pub body_step-ne-none :
    (c : RtmpCodec) (q : Fifo) (finish : Bool) (read : ℕ)
    → (body_step c q finish read).result ≢ none
unfolding body_step
body_step-ne-none c q finish read e =
    let d = decode_body c q in
    let a = after_body_cases d read (drop d.read_length q) finish in cc a.0

after_header-ne-none :
    (r : Option ℕ) (c : RtmpCodec) (q : Fifo) (finish : Bool)
    → r ≢ none
    → (after_header r c q finish).result ≢ none
unfolding after_header
after_header-ne-none none c q finish h = absurd (h refl)
after_header-ne-none (some zero) c q finish h = λ e. cc
after_header-ne-none (some (suc k)) c q finish h = body_step-ne-none _ _ finish (suc k)

decode_pack_in-ne-none :
    (s : PackStatus) (c : RtmpCodec) (q : Fifo) (finish : Bool)
    → AllBytes q
    → (decode_pack_in s c q finish).result ≢ none
unfolding decode_pack_in header_step
decode_pack_in-ne-none parse_rtmp_header c q finish b =
    after_header-ne-none _ _ q finish (decode_header-ne-none c.current_rtmp_pack q b)
decode_pack_in-ne-none parse_rtmp_body c q finish b = body_step-ne-none c q finish 0

-- On bytes `DecodePack` never returns -1, whatever they are and in whatever state.
pub decode_pack-ne-none :
    (c : RtmpCodec) (q : Fifo) (finish : Bool) → AllBytes q → (decode_pack c q finish).result ≢ none
unfolding decode_pack
decode_pack-ne-none c [] finish b = λ e. cc
decode_pack-ne-none c (x ∷ q) finish b = λ e.
    decode_pack_in-ne-none c.decode_pack_status c (x ∷ q) finish b
      (sym (ap (λ d. d.result) (decode_pack-cons c x q finish)) ∙ e)
