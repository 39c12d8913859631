-- ===== src/Tests/Lines.antt =====
-- Tests of utils/Format and of live/HttpPullServer.
use live_broadcast_server.Common.{ℕ, ◌≡◌, List, [], ◌∷◌, arith}
use live_broadcast_server.Text.Find.{Lacks}
use live_broadcast_server.Format.{space}
use live_broadcast_server.Live.Publish.{RtmpPushServer, new_server, get_push_conn_by_url}
use live_broadcast_server.Live.Watch.{lookup, on_client_message}
use live_broadcast_server.Live.Watch.Request.{request, on_client_message-request}
use live_broadcast_server.Tests.Data.{stack, viewer, log, log-IsLogContext}

abbrev pub get_word : List ℕ
get_word = b'G' ∷ b'E' ∷ b'T' ∷ []

abbrev live_path : List ℕ
live_path = b'a' ∷ b'b' ∷ []

pub get_word-Lacks : Lacks space get_word
get_word-Lacks = (λ e. omega arith, (λ e. omega arith, (λ e. omega arith, tt)))

live_path-Lacks : Lacks space live_path
live_path-Lacks = (λ e. omega arith, (λ e. omega arith, tt))

abbrev bound_server : RtmpPushServer
bound_server = record new_server { rtmp_connection_map = (live_path, viewer) ∷ [] }

on_client_message-request_example :
    on_client_message log stack viewer (request get_word live_path get_word) bound_server
    ≡ lookup stack viewer (get_push_conn_by_url live_path bound_server) bound_server
on_client_message-request_example =
    on_client_message-request get_word live_path get_word log stack viewer bound_server
      log-IsLogContext (omega arith) get_word-Lacks live_path-Lacks (omega arith)
