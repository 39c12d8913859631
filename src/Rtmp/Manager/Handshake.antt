-- ===== src/Rtmp/Manager/Handshake.antt =====
-- utils/codec/RtmpManager.cpp, `ParseShakeHand` as a state machine.
use live_broadcast_server.Common.{
  ℕ, zero, suc, ◌<◌, ◌≡◌, ◌≢◌, inl, inr, refl, sym, subst, false, Option, none, some, [], ◌∷◌, ltb,
  ◌==◌, length, arith, Bool-cases,
}
use live_broadcast_server.Fifo.{Fifo}
use live_broadcast_server.Rtmp.Codec.{RtmpCodec, decode_pack}
use live_broadcast_server.Rtmp.Codec.Valid.{decode_pack-finish}
use live_broadcast_server.Rtmp.Manager.{
  ShakeHand, c01, c2, set_chunk_size, connect, release_stream, fcpublish, create_stream, publish,
  success, failed, data_not_enough, RtmpManager, Shaken, parse_header_and_body, on_parse,
  skip_fixed, parse_create_stream, parse_in, parse_shake_hand,
}

-- The order of the handshake. The last three stay where they are.
abbrev pub next_state : ShakeHand → ShakeHand
next_state c01 = c2
next_state c2 = set_chunk_size
next_state set_chunk_size = connect
next_state connect = release_stream
next_state release_stream = fcpublish
next_state fcpublish = create_stream
next_state create_stream = publish
next_state publish = success
next_state s = s

-- How many packets have been accepted.
abbrev pub rank : ShakeHand → ℕ
rank c01 = 0
rank c2 = 1
rank set_chunk_size = 2
rank connect = 3
rank release_stream = 4
rank fcpublish = 5
rank create_stream = 6
rank publish = 7
rank _ = 8

-- What a call in a state may do: wait, or accept the packet of that very state and go one on.
pub data Step (s : ShakeHand) (r : Shaken) : Type 0 where
  waits : r.answer ≡ data_not_enough → r.manager.shake_hand_status ≡ s → Step s r
  accepts : rank s < 8 → r.answer ≡ s → r.manager.shake_hand_status ≡ next_state s → Step s r
  done : s ≡ success → r.answer ≡ success → r.manager.shake_hand_status ≡ success → Step s r

abbrev pub Running : ShakeHand → Type 0
Running s = (s ≢ failed) × (s ≢ data_not_enough)

parse-ne-none : (c : RtmpCodec) (q : Fifo) → (parse_header_and_body c q).parse ≢ none
unfolding parse_header_and_body
parse-ne-none c q e = elim (Bool-cases (decode_pack c q false).pack_finish) [
  | inl f ↦ decode_pack-finish c q f (ground arith)
  | inr f ↦ absurd (ground arith)
]

on_parse-Step :
    (r : Option ℕ) (m : RtmpManager) (q : Fifo) (s : ShakeHand)
    → r ≢ none
    → rank s < 8
    → m.shake_hand_status ≡ s
    → Step s (on_parse r m q s (next_state s))
unfolding on_parse
on_parse-Step none m q s h k e = absurd (h refl)
on_parse-Step (some zero) m q s h k e = waits refl e
on_parse-Step (some (suc n)) m q s h k e = accepts k refl refl

skip_fixed-Step :
    (m : RtmpManager) (q : Fifo) (n : ℕ) (s : ShakeHand)
    → rank s < 8
    → m.shake_hand_status ≡ s
    → Step s (skip_fixed m q n s (next_state s))
unfolding skip_fixed
skip_fixed-Step m q n s k e = elim (Bool-cases (ltb (length q) n)) [
  | inl l ↦ rw l (waits refl e)
  | inr g ↦ rw g (accepts k refl refl)
]

create_stream-Step :
    (m : RtmpManager) (q : Fifo)
    → m.shake_hand_status ≡ create_stream
    → Step create_stream (parse_create_stream m q)
unfolding parse_create_stream
create_stream-Step m [] e = waits refl e
create_stream-Step m (x ∷ xs) e = elim (Bool-cases (x == 0xc3)) [
  | inl y ↦ rw y (accepts (omega arith) refl refl)
  | inr n ↦
      rw n (on_parse-Step _ _ _ create_stream (parse-ne-none m.rtmp_codec (x ∷ xs)) (omega arith) e)
]

parse_in-Step :
    (s : ShakeHand) (m : RtmpManager) (q : Fifo)
    → m.shake_hand_status ≡ s
    → Running s
    → Step s (parse_in s m q)
unfolding parse_in
parse_in-Step c01 m q e r = skip_fixed-Step m q 1537 c01 (omega arith) e
parse_in-Step c2 m q e r = skip_fixed-Step m q 1536 c2 (omega arith) e
parse_in-Step set_chunk_size m q e r =
    on_parse-Step _ _ _ set_chunk_size (parse-ne-none m.rtmp_codec q) (omega arith) e
parse_in-Step connect m q e r =
    on_parse-Step _ _ _ connect (parse-ne-none m.rtmp_codec q) (omega arith) e
parse_in-Step release_stream m q e r =
    on_parse-Step _ _ _ release_stream (parse-ne-none m.rtmp_codec q) (omega arith) e
parse_in-Step fcpublish m q e r =
    on_parse-Step _ _ _ fcpublish (parse-ne-none m.rtmp_codec q) (omega arith) e
parse_in-Step create_stream m q e r = create_stream-Step m q e
parse_in-Step publish m q e r =
    on_parse-Step _ _ _ publish (parse-ne-none m.rtmp_codec q) (omega arith) e
parse_in-Step success m q e r = done refl refl e
parse_in-Step failed m q e r = absurd (r.0 refl)
parse_in-Step data_not_enough m q e r = absurd (r.1 refl)

next_state-Running : (s : ShakeHand) → Running s → Running (next_state s)
next_state-Running c01 r = (λ e. cc, λ e. cc)
next_state-Running c2 r = (λ e. cc, λ e. cc)
next_state-Running set_chunk_size r = (λ e. cc, λ e. cc)
next_state-Running connect r = (λ e. cc, λ e. cc)
next_state-Running release_stream r = (λ e. cc, λ e. cc)
next_state-Running fcpublish r = (λ e. cc, λ e. cc)
next_state-Running create_stream r = (λ e. cc, λ e. cc)
next_state-Running publish r = (λ e. cc, λ e. cc)
next_state-Running s r = r

Step-Running :
    (s : ShakeHand) (r : Shaken) → Running s → Step s r → Running r.manager.shake_hand_status
Step-Running s r v (waits a e) = subst Running (sym e) v
Step-Running s r v (accepts k a e) = subst Running (sym e) (next_state-Running s v)
Step-Running s r v (done f a e) = subst Running (sym e) (λ x. cc, λ x. cc)

-- In a handshake that runs, a call of ParseShakeHand either waits for more data with the state
-- unchanged, or accepts the packet of its state, answers with it and goes one state on, or has
-- succeeded for good; so it never fails: on no input is the state SHAKE_FAILED reached.
pub parse_shake_hand-Step :
    (m : RtmpManager) (q : Fifo)
    → Running m.shake_hand_status
    → Step m.shake_hand_status (parse_shake_hand m q)
      × Running (parse_shake_hand m q).manager.shake_hand_status
unfolding parse_shake_hand
parse_shake_hand-Step m q r =
    let s = parse_in-Step m.shake_hand_status m q refl r in
    (s, Step-Running m.shake_hand_status _ r s)
