-- ===== src/Tests/Viewing.antt =====
-- Tests of live/.
use live_broadcast_server.Common.{
  ◌≡◌, refl, false, none, some, List, [], ◌∷◌, ◌++◌, arith, replicate,
}
use live_broadcast_server.Common.Names.{find_key, compare_names}
use live_broadcast_server.Flv.{FlvTag, default_header, get_sum_size}
use live_broadcast_server.Flv.Transform.{new_codec, transform_all}
use live_broadcast_server.Rtmp.Manager.{c01}
use live_broadcast_server.Live.Pull.{new_pull}
use live_broadcast_server.Live.Pull.Chunked.{
  read_chunks, add_flv_tags, flv_parts, read_chunks-add_flv_tags,
}
use live_broadcast_server.Live.Push.{shake_hand, Shook, shake_hand, make_header}
use live_broadcast_server.Live.Push.Handshake.{Run, shake_hand-Run}
use live_broadcast_server.Live.Push.Viewers.{broadcast, sent_to, sent_to-broadcast}
use live_broadcast_server.Live.Push.Start.{flatten, first_packs, make_header-parts}
use live_broadcast_server.Live.Publish.{Publisher, new_server, get_push_conn_by_url}
use live_broadcast_server.Common.{ℕ}
use live_broadcast_server.Tests.Data.{log, log-IsLogContext}
use live_broadcast_server.Live.Publish.{RtmpPushServer, streaming}
use live_broadcast_server.Live.Publish.Bound.{
  Event, comes, goes, act, Leads, nothing, event, IsBound, Leads-IsBound,
}
use live_broadcast_server.Live.Publish.{on_connection}
use live_broadcast_server.Common.{true, ◌≢◌, ap, get_or}
use live_broadcast_server.Live.Watch.{served, on_client_message}
use live_broadcast_server.Live.Watch.Request.{request}
use live_broadcast_server.Live.Watch.Viewing.{Viewing, on_client_message-Viewing}
use live_broadcast_server.Tests.Data.{
  three, script_pack, video_pack, started_codec, manager, viewer, second_viewer, push, packets,
  stack,
}

sent_to-broadcast_example :
    sent_to second_viewer (broadcast push packets).1
    ≡ (add_flv_tags new_pull (transform_all new_codec packets).1).1
unfolding find_key compare_names
sent_to-broadcast_example = sent_to-broadcast push packets second_viewer new_pull refl

abbrev tags : List FlvTag
tags =
    record { header = 9 ∷ 0 ∷ 0 ∷ 3 ∷ 0 ∷ 0 ∷ 40 ∷ 0 ∷ 0 ∷ 0 ∷ 0 ∷ []; body = three }
    ∷ record { header = 8 ∷ 0 ∷ 0 ∷ 0 ∷ 0 ∷ 0 ∷ 41 ∷ 0 ∷ 0 ∷ 0 ∷ 0 ∷ []; body = [] }
    ∷ []

read_chunks-add_flv_tags_example :
    read_chunks 2 ((add_flv_tags new_pull tags).1 ++ three) ≡ some (flv_parts 0 tags, three)
unfolding get_sum_size
read_chunks-add_flv_tags_example =
    read_chunks-add_flv_tags new_pull tags three (refl, omega arith, (refl, omega arith, tt))

shake_hand-Run_example :
    (x : Shook) × (shake_hand manager (replicate 1537 0) ≡ some x)
    × Run c01 x.sent x.result x.manager.shake_hand_status
shake_hand-Run_example = shake_hand-Run manager (replicate 1537 0) (λ e. cc, λ e. cc)

make_header-parts_example :
    make_header stack new_codec started_codec []
    ≡ some (
      (transform_all new_codec (first_packs stack script_pack video_pack none)).0,
      default_header
          ++ flatten (
              flv_parts 0
                (transform_all new_codec (first_packs stack script_pack video_pack none)).1),
    )
make_header-parts_example =
    make_header-parts stack new_codec started_codec script_pack video_pack refl refl

abbrev publisher_name : List ℕ
publisher_name = b'p' ∷ []

abbrev live_publisher : Publisher
live_publisher = record { phase = streaming; push = push }

abbrev live_server : RtmpPushServer
live_server = record new_server {
  rtmp_connection_map = (b'a' ∷ [], publisher_name) ∷ [];
  publishers = (publisher_name, live_publisher) ∷ [];
}

path-found : get_push_conn_by_url (b'a' ∷ []) live_server ≡ some publisher_name
unfolding get_push_conn_by_url find_key compare_names
path-found = refl

live_publisher-found : find_key publisher_name live_server.publishers ≡ some live_publisher
unfolding find_key compare_names
live_publisher-found = refl

on_client_message-Viewing_example :
    (bytes : List ℕ) × (t : RtmpPushServer) × (on_client_message log stack three
        (request (b'G' ∷ []) (b'a' ∷ []) [])
        live_server
      ≡ some (served bytes t))
    × Viewing publisher_name three bytes live_publisher live_server t
on_client_message-Viewing_example =
    on_client_message-Viewing log stack three (b'G' ∷ []) (b'a' ∷ []) [] publisher_name live_server
      live_publisher script_pack video_pack log-IsLogContext (omega arith) (omega arith, tt)
      (omega arith, tt) (omega arith) path-found live_publisher-found refl refl

-- Another publisher comes, and the one of the path goes.
abbrev events : List Event
events = comes manager viewer ∷ goes manager publisher_name ∷ []

abbrev after_comes : RtmpPushServer
after_comes = on_connection manager true viewer live_server

abbrev after_goes : RtmpPushServer
after_goes = on_connection manager false publisher_name after_comes

events-Leads : Leads live_server events after_goes
unfolding act
events-Leads = event refl (event refl nothing)

path-IsBound : IsBound (b'a' ∷ []) live_server
unfolding IsBound
path-IsBound = (publisher_name, path-found)

path-differs : b'a' ∷ [] ≢ publisher_name
path-differs e = let h : b'a' ≡ b'p' = ap (λ l. get_or l 0 0) e in omega (arith, h)

Leads-IsBound_example : IsBound (b'a' ∷ []) after_goes
Leads-IsBound_example = Leads-IsBound (b'a' ∷ []) (path-differs, tt) path-IsBound events-Leads
