-- ===== src/Live/Push/Start.antt =====
-- live/connection/RtmpPushConnection.cpp: the stream header, which is made once.
use live_broadcast_server.Common.{
  ℕ, ◌≤◌, ◌<◌, ◌≡◌, refl, sym, ap, subst, ◌∙◌, inl, inr, false, Option, none, some, List, [], ◌∷◌,
  ◌++◌, append-nil, append_assoc, arith, ◌==◌, Bool-cases, Option-cases, length, length-append,
  be32,
}
use live_broadcast_server.Fifo.{Fifo}
use live_broadcast_server.Rtmp.Pack.{RtmpPack}
use live_broadcast_server.Rtmp.Codec.{RtmpCodec}
use live_broadcast_server.Flv.{FlvTag, new_tag, default_header, get_current_tag_size}
use live_broadcast_server.Flv.Transform.{Rtmp2FlvCodec, transform, transform_all}
use live_broadcast_server.Live.Pull.Chunked.{flv_parts}
use live_broadcast_server.Live.Push.{
  RtmpPushConnection, append_tag, append_audio, make_header, keep_header, get_header_data_buffer,
}

pub flatten : List (List ℕ) → List ℕ
flatten [] = []
flatten (x ∷ xs) = x ++ flatten xs

-- The packets that a stream begins with.
abbrev pub first_packs : (ℕ → ℕ) → RtmpPack → RtmpPack → Option RtmpPack → List (ℕ × RtmpPack)
first_packs stack script video none = (stack 0, script) ∷ (stack 1, video) ∷ []
first_packs stack script video (some audio) =
    (stack 0, script) ∷ (stack 1, video) ∷ (stack 2, audio) ∷ []

-- Where there are a first script and a first video packet, the header that is made is an FLV file's:
-- its header, and the first script, video and, if there is one, audio packet as tags, each behind
-- the size of the tag before and the first behind 0.
pub make_header-parts :
    (stack : ℕ → ℕ) (c : Rtmp2FlvCodec) (k : RtmpCodec) (script video : RtmpPack)
    → k.first_script_pack ≡ some script
    → k.first_video_pack ≡ some video
    → make_header stack c k []
      ≡ some (
        (transform_all c (first_packs stack script video k.first_audio_pack)).0,
        default_header
            ++ flatten (
                flv_parts 0
                  (transform_all c (first_packs stack script video k.first_audio_pack)).1),
      )
unfolding make_header transform_all flv_parts flatten
make_header-parts stack c k script video e f = elim (Option-cases k.first_audio_pack) [
  | inl a ↦ rw (e, f, a) (simp (append_assoc, append-nil))
  | inr a ↦ rw (e, f, a.1) (simp (append_assoc, append-nil))
]

append_tag-length :
    (buffer : Fifo) (last : ℕ) (t : FlvTag) → length buffer ≤ length (append_tag buffer last t)
append_tag-length buffer last t = omega (
  arith,
  length-append ((buffer ++ be32 last) ++ t.header) t.body,
  length-append (buffer ++ be32 last) t.header,
  length-append buffer (be32 last),
)

append_audio-length :
    (g : ℕ) (buffer : Fifo) (t : FlvTag) (c : Rtmp2FlvCodec) (a : Option RtmpPack)
    → length buffer ≤ length (append_audio g buffer t c a).1
append_audio-length g buffer t c none = omega arith
append_audio-length g buffer t c (some a) =
    append_tag-length buffer (get_current_tag_size t) (transform g c a new_tag).1

pub some_inj {ℓ} : {A : Type ℓ} (a b : A) → some a ≡ some b → a ≡ b
some_inj a b e = cc

make_header-some :
    (stack : ℕ → ℕ) (c : Rtmp2FlvCodec) (k : RtmpCodec) (buffer : Fifo) (script video : RtmpPack)
    → k.first_script_pack ≡ some script
    → k.first_video_pack ≡ some video
    → let s = transform (stack 0) c script new_tag in
      let v = transform (stack 1) s.0 video new_tag in
      make_header stack c k buffer
      ≡ some (
          append_audio
            (stack 2)
            (append_tag
              (append_tag (buffer ++ default_header) 0 s.1)
              (get_current_tag_size s.1)
              v.1)
            v.1
            v.0
            k.first_audio_pack)
unfolding make_header
make_header-some stack c k buffer script video e f = rw (e, f)

make_header-length :
    (stack : ℕ → ℕ) (c : Rtmp2FlvCodec) (k : RtmpCodec) (buffer : Fifo) (h : Rtmp2FlvCodec × Fifo)
    → make_header stack c k buffer ≡ some h
    → 0 < length h.1
unfolding make_header
make_header-length stack c k buffer h e = elim (Option-cases k.first_script_pack) [
  | inl n ↦ absurd (ground arith)
  | inr s ↦ (elim (Option-cases k.first_video_pack) [
    | inl n ↦ absurd (ground arith)
    | inr v ↦
        let t = transform (stack 0) c s.0 new_tag in
        let u = transform (stack 1) t.0 v.0 new_tag in
        let first = append_tag (buffer ++ default_header) 0 t.1 in
        let second = append_tag first (get_current_tag_size t.1) u.1 in
        let made : append_audio (stack 2) second u.1 u.0 k.first_audio_pack ≡ h =
          some_inj _ h (sym (make_header-some stack c k buffer s.0 v.0 s.1 v.1) ∙ e) in
        subst (λ x. 0 < length x.1) made
          (omega (
            arith,
            length-append buffer default_header,
            append_tag-length (buffer ++ default_header) 0 t.1,
            append_tag-length first (get_current_tag_size t.1) u.1,
            append_audio-length (stack 2) second u.1 u.0 k.first_audio_pack,
          ))
  ])
]

keep_header-kept :
    (p : RtmpPushConnection) (o : Option (Rtmp2FlvCodec × Fifo)) (q : RtmpPushConnection × Fifo)
    → ((h : Rtmp2FlvCodec × Fifo) → o ≡ some h → 0 < length h.1)
    → keep_header p o ≡ some q
    → (q.0.header_buffer ≡ q.1) × (0 < length q.1)
keep_header-kept p none q long e = absurd (cc)
keep_header-kept p (some h) q long e =
    let made : (record p { rtmp_to_flv_codec = h.0; header_buffer = h.1 }, h.1) ≡ q = cc in
    subst (λ r. (r.0.header_buffer ≡ r.1) × (0 < length r.1)) made (refl, long h refl)

pub get_header_data_buffer-kept :
    (stack : ℕ → ℕ) (p : RtmpPushConnection) (q : RtmpPushConnection × Fifo)
    → get_header_data_buffer stack p ≡ some q
    → (q.0.header_buffer ≡ q.1) × (0 < length q.1)
unfolding get_header_data_buffer
get_header_data_buffer-kept stack p q e = elim (Bool-cases (length p.header_buffer == 0)) [
  | inl z ↦
      let made = make_header stack p.rtmp_to_flv_codec p.rtmp_manager.rtmp_codec p.header_buffer in
      keep_header-kept p made q
        (make_header-length stack p.rtmp_to_flv_codec p.rtmp_manager.rtmp_codec p.header_buffer)
        (ground arith)
  | inr z ↦
      let made : (p, p.header_buffer) ≡ q = ground arith in
      subst (λ r. (r.0.header_buffer ≡ r.1) × (0 < length r.1)) made (refl, ground arith)
]

-- The header is made once: a second call, whatever the stack holds then, gives the same bytes and
-- leaves the connection as it is.
pub get_header_data_buffer-again :
    (stack later : ℕ → ℕ) (p : RtmpPushConnection) (q : RtmpPushConnection × Fifo)
    → get_header_data_buffer stack p ≡ some q
    → get_header_data_buffer later q.0 ≡ some q
unfolding get_header_data_buffer
get_header_data_buffer-again stack later p q e =
    let k = get_header_data_buffer-kept stack p q e in
    let full : (length q.0.header_buffer == 0) ≡ false = ground (arith, k.0, k.1, ap length k.0) in
    rw full (ap (λ b. some (q.0, b)) k.0)

-- Where there are a first script and a first video packet, there is a header to be had.
pub get_header_data_buffer-some :
    (stack : ℕ → ℕ) (p : RtmpPushConnection) (script video : RtmpPack)
    → p.rtmp_manager.rtmp_codec.first_script_pack ≡ some script
    → p.rtmp_manager.rtmp_codec.first_video_pack ≡ some video
    → (q : RtmpPushConnection × Fifo) × (get_header_data_buffer stack p ≡ some q)
unfolding get_header_data_buffer
get_header_data_buffer-some stack p script video e f =
    elim (Bool-cases (length p.header_buffer == 0)) [
      | inl z ↦ rw z (
        _,
        ap (keep_header p) (
            make_header-some stack p.rtmp_to_flv_codec p.rtmp_manager.rtmp_codec p.header_buffer
              script video e f),
      )
      | inr z ↦ rw z ((p, p.header_buffer), refl)
    ]
