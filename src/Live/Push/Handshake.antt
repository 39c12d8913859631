-- ===== src/Live/Push/Handshake.antt =====
-- live/connection/RtmpPushConnection.cpp, `ShakeHand`: it returns, and answers in order.
use live_broadcast_server.Common.{
  ℕ, zero, suc, ◌+◌, ◌≤◌, ◌<◌, ◌≡◌, sym, ap, subst, ◌∙◌, ◌⊎◌, inl, inr, Option, none, some, List,
  [], ◌∷◌, ◌++◌, arith,
}
use live_broadcast_server.Fifo.{Fifo}
use live_broadcast_server.Rtmp.Manager.{
  ShakeHand, c01, c2, set_chunk_size, connect, release_stream, fcpublish, create_stream, publish,
  success, failed, data_not_enough, RtmpManager, Shaken, parse_shake_hand,
}
use live_broadcast_server.Rtmp.Manager.Handshake.{
  next_state, rank, Step, waits, accepts, done, Running, parse_shake_hand-Step,
}
use live_broadcast_server.Live.Replies.{
  server_s01, server_s2, server_acknowledge_size, server_peer_bandwidth, server_set_chunk_size,
  server_connect_result, server_result, server_start,
}
use live_broadcast_server.Live.Push.{
  ShakeHandResult, shake_authenticate, shake_success, shake_data_not_enough, responses, returns,
  Shook, end_round, shake_hand_loop, shake_hand,
}

-- A run of the handshake: from a state, what is sent, what is returned, and the state after. The
-- packet of a state is answered as written at the state.
pub data Run : ShakeHand → List (List ℕ) → ShakeHandResult → ShakeHand → Type 0 where
  stops : {s : ShakeHand} → Run s [] shake_data_not_enough s
  after_c01 :
      {t : ShakeHand} {sent : List (List ℕ)} {result : ShakeHandResult}
      → Run c2 sent result t
      → Run c01 (server_s01 ∷ sent) result t
  after_c2 :
      {t : ShakeHand} {sent : List (List ℕ)} {result : ShakeHandResult}
      → Run set_chunk_size sent result t
      → Run c2 (server_s2 ∷ sent) result t
  after_set_chunk_size :
      {t : ShakeHand} {sent : List (List ℕ)} {result : ShakeHandResult}
      → Run connect sent result t
      → Run set_chunk_size sent result t
  after_connect :
      {t : ShakeHand} {sent : List (List ℕ)} {result : ShakeHandResult}
      → Run release_stream sent result t
      → Run connect
          (server_acknowledge_size ∷ server_peer_bandwidth ∷ server_set_chunk_size
            ∷ server_connect_result ∷ sent)
          result
          t
  asks_for_user : Run release_stream [] shake_authenticate fcpublish
  after_fcpublish :
      {t : ShakeHand} {sent : List (List ℕ)} {result : ShakeHandResult}
      → Run create_stream sent result t
      → Run fcpublish sent result t
  after_create_stream :
      {t : ShakeHand} {sent : List (List ℕ)} {result : ShakeHandResult}
      → Run publish sent result t
      → Run create_stream (server_result ∷ sent) result t
  after_publish :
      {t : ShakeHand} {sent : List (List ℕ)} {result : ShakeHandResult}
      → Run success sent result t
      → Run publish (server_start ∷ sent) result t
  is_over : Run success [] shake_success success

passes :
    (s : ShakeHand) {t : ShakeHand} {sent : List (List ℕ)} {result : ShakeHandResult}
    → returns s ≡ none
    → Run (next_state s) sent result t
    → Run s (responses s ++ sent) result t
passes c01 n r = after_c01 r
passes c2 n r = after_c2 r
passes set_chunk_size n r = after_set_chunk_size r
passes connect n r = after_connect r
passes fcpublish n r = after_fcpublish r
passes create_stream n r = after_create_stream r
passes publish n r = after_publish r
passes release_stream n r = absurd (cc)
passes success n r = absurd (cc)
passes failed n r = absurd (cc)
passes data_not_enough n r = absurd (cc)

rank_le : (s : ShakeHand) → rank s ≤ 8
rank_le s = ground arith

rank-next_state : (s : ShakeHand) → rank s < 8 → rank (next_state s) ≡ suc (rank s)
rank-next_state s h = ground arith

returns-cases : (s : ShakeHand) → rank s < 8 → (s ≡ release_stream) ⊎ (returns s ≡ none)
returns-cases s h = ground arith

-- A loop that comes to an end as a run from a state.
abbrev Comes : ShakeHand → Option Shook → Type 0
Comes s o = (x : Shook) × (o ≡ some x) × Run s x.sent x.result x.manager.shake_hand_status

end_round-Comes :
    (s : ShakeHand) (r : Shaken) (o : Option Shook)
    → returns s ≡ none
    → r.answer ≡ s
    → Comes (next_state s) o
    → Comes s (end_round (returns r.answer) r o)
end_round-Comes s r o n a c = (
  record c.0 { sent = responses s ++ c.0.sent },
  ap (λ x. end_round x r o) (ap returns a ∙ n)
      ∙ ap (end_round none r) c.1
      ∙ ap (λ x. some (record c.0 { sent = responses x ++ c.0.sent })) a,
  passes s n c.2,
)

round-Comes :
    (s : ShakeHand) (r : Shaken) (o : Option Shook)
    → Step s r
    → (rank s < 8 → r.manager.shake_hand_status ≡ next_state s → Comes (next_state s) o)
    → Comes s (end_round (returns r.answer) r o)
round-Comes s r o (waits a e) go = (
  record { result = shake_data_not_enough; buffer = r.buffer; manager = r.manager; sent = [] },
  ap (λ x. end_round (returns x) r o) a,
  subst (Run s [] shake_data_not_enough) (sym e) stops,
)
round-Comes s r o (done f a e) go = (
  record { result = shake_success; buffer = r.buffer; manager = r.manager; sent = [] },
  ap (λ x. end_round (returns x) r o) a,
  subst (λ t. Run s [] shake_success t) (sym e)
      (subst (λ t. Run t [] shake_success success) (sym f) is_over),
)
round-Comes s r o (accepts k a e) go = elim (returns-cases s k) [
  | inl f ↦ (
    record { result = shake_authenticate; buffer = r.buffer; manager = r.manager; sent = [] },
    ap (λ x. end_round (returns x) r o) (a ∙ f),
    subst (λ t. Run s [] shake_authenticate t) (sym (e ∙ ap next_state f))
        (subst (λ t. Run t [] shake_authenticate fcpublish) (sym f) asks_for_user),
  )
  | inr n ↦ end_round-Comes s r o n a (go k e)
]

shake_hand_loop-Comes :
    (fuel : ℕ) (m : RtmpManager) (q : Fifo)
    → Running m.shake_hand_status
    → 9 ≤ fuel + rank m.shake_hand_status
    → Comes m.shake_hand_status (shake_hand_loop fuel m q)
unfolding shake_hand_loop
shake_hand_loop-Comes zero m q v h = absurd (omega (arith, rank_le m.shake_hand_status))
shake_hand_loop-Comes (suc fuel) m q v h =
    let r = parse_shake_hand m q in
    let step = parse_shake_hand-Step m q v in
    round-Comes m.shake_hand_status r (shake_hand_loop fuel r.manager r.buffer) step.0 (λ k e.
      subst (λ t. Comes t (shake_hand_loop fuel r.manager r.buffer)) e
        (shake_hand_loop-Comes fuel r.manager r.buffer step.1
          (omega (arith, rank-next_state m.shake_hand_status k, ap rank e))))

-- In a handshake that runs, ShakeHand returns, and its rounds are a run of the handshake from the
-- state it was in: for each packet accepted it sends, in order, the constants of the code that
-- belong to it, whatever the packet's bytes are; it stops where the data ends, at the stream's
-- release to ask for the user, or when it is over, and never fails.
pub shake_hand-Run :
    (m : RtmpManager) (q : Fifo)
    → Running m.shake_hand_status
    → (x : Shook) × (shake_hand m q ≡ some x)
      × Run m.shake_hand_status x.sent x.result x.manager.shake_hand_status
unfolding shake_hand
shake_hand-Run m q v = shake_hand_loop-Comes 9 m q v (omega arith)
