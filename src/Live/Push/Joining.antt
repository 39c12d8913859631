-- ===== src/Live/Push/Joining.antt =====
-- live/connection/RtmpPushConnection.cpp: a viewer's coming and going.
use live_broadcast_server.Common.{
  ℕ, ◌≡◌, refl, sym, ap, subst, ◌∙◌, ◌≢◌, inl, inr, Option, none, some, List, arith, ◌==◌,
  Bool-cases, Option-cases, length,
}
use live_broadcast_server.Common.Names.{
  find_key, put, find_key-put, find_key-put_other, find_key-erase, find_key-erase_other,
}
use live_broadcast_server.Fifo.{Fifo}
use live_broadcast_server.Live.Pull.{new_pull, send_header_on_connection}
use live_broadcast_server.Live.Push.{
  RtmpPushConnection, make_header, send_header, get_header_data_buffer, add_client_connection,
  on_connection_close,
}
use live_broadcast_server.Live.Push.Start.{get_header_data_buffer-kept, some_inj}

get_header_data_buffer-viewers :
    (stack : ℕ → ℕ) (p : RtmpPushConnection) (q : RtmpPushConnection × Fifo)
    → get_header_data_buffer stack p ≡ some q
    → q.0.client_connection_map ≡ p.client_connection_map
unfolding get_header_data_buffer
get_header_data_buffer-viewers stack p q e = elim (Bool-cases (length p.header_buffer == 0)) [
  | inl z ↦
      (elim (Option-cases
        (make_header stack p.rtmp_to_flv_codec p.rtmp_manager.rtmp_codec p.header_buffer)) [
          | inl n ↦ absurd (ground arith)
          | inr h ↦
              ap (λ r. r.0.client_connection_map)
                (sym (
                  some_inj (record p { rtmp_to_flv_codec = h.0.0; header_buffer = h.0.1 }, h.0.1) q
                    (ground arith)))
        ])
  | inr z ↦
      ap (λ r. r.0.client_connection_map) (sym (some_inj (p, p.header_buffer) q (ground arith)))
]

-- What a viewer's coming does.
pub record Joined (name : List ℕ) (p q : RtmpPushConnection) (bytes : List ℕ) : Type 0 where
  pub sent_header : bytes ≡ send_header_on_connection q.header_buffer
  pub joined : find_key name q.client_connection_map ≡ some new_pull
  pub others :
      (other : List ℕ)
      → other ≢ name
      → find_key other q.client_connection_map ≡ find_key other p.client_connection_map

send_header-Joined :
    (stack : ℕ → ℕ) (name : List ℕ) (p q : RtmpPushConnection) (r : RtmpPushConnection × List ℕ)
    (o : Option (RtmpPushConnection × Fifo))
    → ((h : RtmpPushConnection × Fifo)
        → o ≡ some h
        → Joined name p h.0 (send_header_on_connection h.1))
    → send_header o ≡ some r
    → Joined name p r.0 r.1
send_header-Joined stack name p q r none j e = absurd (cc)
send_header-Joined stack name p q r (some h) j e =
    subst (λ x. Joined name p x.0 x.1) (some_inj (h.0, send_header_on_connection h.1) r e)
      (j h refl)

-- A viewer that joins is sent the stream header as it is kept, is a viewer from then on with no tag
-- sent, and leaves what the other viewers have had.
pub add_client_connection-Joined :
    (stack : ℕ → ℕ) (name : List ℕ) (p : RtmpPushConnection) (r : RtmpPushConnection × List ℕ)
    → add_client_connection stack name p ≡ some r
    → Joined name p r.0 r.1
unfolding add_client_connection
add_client_connection-Joined stack name p r e =
    let q = record p { client_connection_map = put name new_pull p.client_connection_map } in
    send_header-Joined stack name p q r (get_header_data_buffer stack q)
      (λ h f.
        let viewers = get_header_data_buffer-viewers stack q h f in
        record {
          sent_header =
              ap send_header_on_connection (sym (get_header_data_buffer-kept stack q h f).0);
          joined = ap (find_key name) viewers ∙ find_key-put name new_pull p.client_connection_map;
          others = λ other n.
              ap (find_key other) viewers
              ∙ find_key-put_other other name new_pull p.client_connection_map n;
        })
      e

-- A viewer that leaves is no viewer any more, and the others are as they were.
pub on_connection_close-left :
    (p : RtmpPushConnection) (name other : List ℕ)
    → (find_key name (on_connection_close p name).client_connection_map ≡ none)
      × (other ≢ name
          → find_key other (on_connection_close p name).client_connection_map
            ≡ find_key other p.client_connection_map)
unfolding on_connection_close
on_connection_close-left p name other = (
  find_key-erase name p.client_connection_map,
  λ n. find_key-erase_other other name p.client_connection_map n,
)
