-- ===== src/Live/Watch/Request.antt =====
-- live/HttpPullServer.cpp: the request line of a viewer, from its bytes to the publisher.
use live_broadcast_server.Common.{
  ◌≤◌, ◌^◌, [], Option, none, inl, inr, Option-cases, if◌then◌else◌, length-append, ℕ, suc, ◌+◌,
  ◌<◌, ◌≡◌, ap, ◌∙◌, some, List, ◌∷◌, ◌++◌, arith, le→ltb, length, take_all,
}
use live_broadcast_server.Format.{space, slash}
use live_broadcast_server.Format.Url.{get_url-between}
use live_broadcast_server.Text.{substr, npos}
use live_broadcast_server.Text.Find.{Lacks}
use live_broadcast_server.Live.Publish.{RtmpPushServer, get_push_conn_by_url}
use live_broadcast_server.Text.{c_string}
use live_broadcast_server.Logger.{item_text, level_info}
use live_broadcast_server.Logger.Lines.{all_text}
use live_broadcast_server.Live.Log.{LogAt, IsLogContext, logs-short}
use live_broadcast_server.Live.Watch.{
  lookup, requested, cut_first, with_url, on_client_message, log_and_lookup, request_items,
  outcome_text, outcome_line, pull_server_file,
}

substr-path : (path : List ℕ) → length path < npos → substr 1 npos (slash ∷ path) ≡ some path
unfolding substr
substr-path path h =
    rw (le→ltb (suc (length path)) 1 (omega arith), take_all npos path (omega arith))

-- ", request url: "
abbrev request_text : List ℕ
request_text =
    b',' ∷ 32 ∷ b'r' ∷ b'e' ∷ b'q' ∷ b'u' ∷ b'e' ∷ b's' ∷ b't' ∷ 32 ∷ b'u' ∷ b'r' ∷ b'l' ∷ b':' ∷ 32
    ∷ []

outcome_line_lt : (o : Option (List ℕ)) → outcome_line o < 2 ^ 31
outcome_line_lt none = omega arith
outcome_line_lt (some name) = omega arith

length-request_items :
    (client url : List ℕ) (o : Option (List ℕ))
    → length (all_text (request_items client url (outcome_text o)))
      ≤ length client + length url + 35
unfolding all_text item_text c_string
length-request_items client url o = elim (Option-cases o) [
  | inl n ↦ rw n (
      omega (
        arith,
        length-append client (request_text ++ (url ++ outcome_text none)),
        length-append url (outcome_text none),
      ))
  | inr y ↦ rw y.1 (
      omega (
        arith,
        length-append client (request_text ++ (url ++ outcome_text (some y.0))),
        length-append url (outcome_text (some y.0)),
      ))
]

log_and_lookup-short :
    (log : LogAt) (stack : ℕ → ℕ) (client url : List ℕ) (o : Option (List ℕ)) (s : RtmpPushServer)
    → ((line : ℕ) → IsLogContext (log line))
    → length client + length url ≤ 400
    → log_and_lookup log stack client url o s ≡ lookup stack client o s
unfolding log_and_lookup
log_and_lookup-short log stack client url o s v h =
    ap (λ b. if b then lookup stack client o s else none)
      (logs-short log level_info pull_server_file (outcome_line o)
        (request_items client url (outcome_text o)) (v (outcome_line o)) (outcome_line_lt o)
        (omega (arith, length-request_items client url o)))

-- A request for a path: a word such as GET, the path behind a slash, and the rest.
module _ (word path rest : List ℕ) where
  abbrev pub request : List ℕ
  request = word ++ (space ∷ ((slash ∷ path) ++ (space ∷ rest)))

  requested-request :
      Lacks space word
      → Lacks space path
      → length word + length path + 3 < npos
      → requested request ≡ some path
  unfolding requested
  requested-request w p h =
      ap cut_first
        (get_url-between word (slash ∷ path) rest w ((λ e. omega arith), p) (omega arith))
      ∙ substr-path path (omega arith)

  -- A request line of a word, a path behind a slash and a rest is answered by the publisher that the
  -- path leads to, and refused where there is none, if the path and the connection's name have 400
  -- bytes together at most, so that the log's array holds the line about them. The word and the path
  -- have no space and are shorter than any size_t.
  pub on_client_message-request :
      (log : LogAt) (stack : ℕ → ℕ) (client : List ℕ) (s : RtmpPushServer)
      → ((line : ℕ) → IsLogContext (log line))
      → length client + length path ≤ 400
      → Lacks space word
      → Lacks space path
      → length word + length path + 3 < npos
      → on_client_message log stack client request s
        ≡ lookup stack client (get_push_conn_by_url path s) s
  unfolding on_client_message
  on_client_message-request log stack client s v f w p h =
      ap (λ u. with_url log stack client u s) (requested-request w p h)
      ∙ log_and_lookup-short log stack client path (get_push_conn_by_url path s) s v f
