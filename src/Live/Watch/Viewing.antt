-- ===== src/Live/Watch/Viewing.antt =====
-- live/HttpPullServer.cpp with live/connection/RtmpPushConnection.cpp and HttpPullConnection.cpp: a
-- viewer from its request to the chunks of the stream.
use live_broadcast_server.Live.Log.{LogAt, IsLogContext}
use live_broadcast_server.Common.{
  ◌≤◌, ℕ, suc, ◌+◌, ◌<◌, ◌≡◌, refl, sym, ap, ◌∙◌, ◌≢◌, some, List, [], ◌∷◌, ◌++◌, arith, length,
  size_mod,
}
use live_broadcast_server.Common.Names.{find_key, put, find_key-put, find_key-put_other}
use live_broadcast_server.Format.{space}
use live_broadcast_server.Text.{npos}
use live_broadcast_server.Text.Find.{Lacks}
use live_broadcast_server.Rtmp.Pack.{RtmpPack}
use live_broadcast_server.Flv.{new_tag}
use live_broadcast_server.Flv.Transform.{
  Rtmp2FlvCodec, transform, transform_all, length-transform, get_sum_size-transform,
}
use live_broadcast_server.Live.Pull.{new_pull, send_header_on_connection}
use live_broadcast_server.Live.Pull.Chunked.{
  AllWhole, read_chunks, flv_parts, add_flv_tags, read_chunks-add_flv_tags,
}
use live_broadcast_server.Live.Push.{RtmpPushConnection, send_header, add_client_connection}
use live_broadcast_server.Live.Push.Start.{get_header_data_buffer-some}
use live_broadcast_server.Live.Push.Joining.{add_client_connection-Joined}
use live_broadcast_server.Live.Push.Viewers.{broadcast, sent_to, sent_to-broadcast}
use live_broadcast_server.Live.Publish.{Publisher, RtmpPushServer, get_push_conn_by_url}
use live_broadcast_server.Live.Watch.{served, lookup, serve, on_client_message}
use live_broadcast_server.Live.Watch.Request.{request, on_client_message-request}

-- Packets whose bodies a size_t can count, with the tag around them.
abbrev pub AllShort : List (ℕ × RtmpPack) → Type 0
AllShort [] = Unit {0}
AllShort (k ∷ ks) = (length k.1.buffer + 15 < size_mod) × AllShort ks

transform_all-AllWhole :
    (c : Rtmp2FlvCodec) (ks : List (ℕ × RtmpPack)) → AllShort ks → AllWhole (transform_all c ks).1
unfolding transform_all
transform_all-AllWhole c [] a = tt
transform_all-AllWhole c (k ∷ ks) a = (
  length-transform k.0 c k.1,
  omega (arith, a.0, get_sum_size-transform k.0 c k.1),
  transform_all-AllWhole (transform k.0 c k.1 new_tag).0 ks a.1,
)

length-transform_all :
    (c : Rtmp2FlvCodec) (ks : List (ℕ × RtmpPack)) → length (transform_all c ks).1 ≡ length ks
unfolding transform_all
length-transform_all c [] = refl
length-transform_all c (k ∷ ks) = ap suc (length-transform_all (transform k.0 c k.1 new_tag).0 ks)

-- What is sent to a viewer that has had no tag reads as the stream.
sent_to-chunks :
    (p : RtmpPushConnection) (client : List ℕ) (ks : List (ℕ × RtmpPack)) (rest : List ℕ)
    → find_key client p.client_connection_map ≡ some new_pull
    → AllShort ks
    → read_chunks (length ks) (sent_to client (broadcast p ks).1 ++ rest)
      ≡ some (flv_parts 0 (transform_all p.rtmp_to_flv_codec ks).1, rest)
sent_to-chunks p client ks rest e a =
    let tags = (transform_all p.rtmp_to_flv_codec ks).1 in
    ap (λ l. read_chunks (length ks) (l ++ rest)) (sent_to-broadcast p ks client new_pull e)
    ∙ ap (λ n. read_chunks n ((add_flv_tags new_pull tags).1 ++ rest))
        (sym (length-transform_all p.rtmp_to_flv_codec ks))
    ∙ read_chunks-add_flv_tags new_pull tags rest (transform_all-AllWhole p.rtmp_to_flv_codec ks a)

add_client_connection-some :
    (stack : ℕ → ℕ) (client : List ℕ) (p : RtmpPushConnection) (script video : RtmpPack)
    → p.rtmp_manager.rtmp_codec.first_script_pack ≡ some script
    → p.rtmp_manager.rtmp_codec.first_video_pack ≡ some video
    → (r : RtmpPushConnection × List ℕ) × (add_client_connection stack client p ≡ some r)
unfolding add_client_connection
add_client_connection-some stack client p script video e f =
    let q = record p { client_connection_map = put client new_pull p.client_connection_map } in
    let h = get_header_data_buffer-some stack q script video e f in
    ((h.0.0, send_header_on_connection h.0.1), ap send_header h.1)

-- What a viewer has that was let in: the header of the publisher first, and then, whatever packets
-- OnNewRtmpPack is given, one chunk for each, which are the stream of their tags. The rest is as it
-- was.
pub record Viewing (name client bytes : List ℕ) (p : Publisher) (s t : RtmpPushServer)
    : Type 0 where
  pub publisher : Publisher
  pub stored : find_key name t.publishers ≡ some publisher
  pub begins : bytes ≡ send_header_on_connection publisher.push.header_buffer
  pub goes_on :
      (ks : List (ℕ × RtmpPack)) (rest : List ℕ)
      → AllShort ks
      → read_chunks (length ks) (sent_to client (broadcast publisher.push ks).1 ++ rest)
        ≡ some (flv_parts 0 (transform_all publisher.push.rtmp_to_flv_codec ks).1, rest)
  pub other_viewers :
      (other : List ℕ)
      → other ≢ client
      → find_key other publisher.push.client_connection_map
        ≡ find_key other p.push.client_connection_map
  pub other_publishers :
      (other : List ℕ) → other ≢ name → find_key other t.publishers ≡ find_key other s.publishers
  pub same_paths : t.rtmp_connection_map ≡ s.rtmp_connection_map

serve-Viewing :
    (stack : ℕ → ℕ) (client name : List ℕ) (s : RtmpPushServer) (p : Publisher)
    (r : RtmpPushConnection × List ℕ)
    → find_key name s.publishers ≡ some p
    → add_client_connection stack client p.push ≡ some r
    → (t : RtmpPushServer) × (serve stack client name s ≡ some (served r.1 t))
      × Viewing name client r.1 p s t
unfolding serve
serve-Viewing stack client name s p r e f =
    let j = add_client_connection-Joined stack client p.push r f in
    let q = record p { push = r.0 } in
    (
      record s { publishers = put name q s.publishers },
      rw (serve, e, f) refl,
      record {
        publisher = q;
        stored = find_key-put name q s.publishers;
        begins = j.sent_header;
        goes_on = λ ks rest a. sent_to-chunks r.0 client ks rest j.joined a;
        other_viewers = j.others;
        other_publishers = λ other d. find_key-put_other other name q s.publishers d;
        same_paths = refl;
      },
    )

-- A viewer's request for a path that leads to a publisher with a first script and a first video
-- packet is served, with the header that the publisher keeps from then on. Whatever packets are
-- handed to the publisher's OnNewRtmpPack later, if their bodies with 15 bytes more stay below 2 ^
-- 64, the viewer reads one chunk for each of these, and the chunks are the stream of their tags.
-- Other viewers of the publisher, other publishers and the paths stay as they are. The path and the
-- connection's name have 400 bytes together at most, which the log's array holds.
pub on_client_message-Viewing :
    (log : LogAt) (stack : ℕ → ℕ) (client word path rest name : List ℕ) (s : RtmpPushServer)
    (p : Publisher) (script video : RtmpPack)
    → ((line : ℕ) → IsLogContext (log line))
    → length client + length path ≤ 400
    → Lacks space word
    → Lacks space path
    → length word + length path + 3 < npos
    → get_push_conn_by_url path s ≡ some name
    → find_key name s.publishers ≡ some p
    → p.push.rtmp_manager.rtmp_codec.first_script_pack ≡ some script
    → p.push.rtmp_manager.rtmp_codec.first_video_pack ≡ some video
    → (bytes : List ℕ) × (t : RtmpPushServer) × (on_client_message log stack client
          (request word path rest)
          s
        ≡ some (served bytes t))
      × Viewing name client bytes p s t
on_client_message-Viewing log stack client word path rest name s p script video c m w l h e f g k =
    let r = add_client_connection-some stack client p.push script video g k in
    let v = serve-Viewing stack client name s p r.0 f r.1 in
    (
      r.0.1,
      v.0,
      on_client_message-request word path rest log stack client s c m w l h
          ∙ ap (λ o. lookup stack client o s) e
          ∙ v.1,
      v.2,
    )
