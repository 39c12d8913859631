-- ===== src/Live/Watch.antt =====
-- live/HttpPullServer.h and HttpPullServer.cpp: a viewer's request finds the publisher of the path it
-- names, or is refused.
pub mod Request
pub mod Viewing
use live_broadcast_server.Common.{
  [], ◌∷◌, if◌then◌else◌, ℕ, ◌-◌, ◌/◌, ap, subst, Option, none, some, List,
}
use live_broadcast_server.Common.Names.{Map, find_key, put}
use live_broadcast_server.Format.{get_url}
use live_broadcast_server.Text.{substr, npos}
use live_broadcast_server.Fifo
use live_broadcast_server.Fifo.{Fifo}
use live_broadcast_server.Logger.{Item, string, c_text, level_info}
use live_broadcast_server.Live.Log.{LogAt, logs}
use live_broadcast_server.Live.Push.{RtmpPushConnection, add_client_connection}
use live_broadcast_server.Live.Publish.{Publisher, RtmpPushServer, get_push_conn_by_url}

-- What becomes of a request: `none`, in the functions below, is an exception, a null
-- pointer read or a write past the log's array.
pub data Answer : Type 0 where
  refused : Answer
  served : List ℕ → RtmpPushServer → Answer

-- `AddClientConnection`, of the publisher with a name, and the object with what it changed.
pub serve : (ℕ → ℕ) → List ℕ → List ℕ → RtmpPushServer → Option Answer
serve stack client name s = elim (find_key name s.publishers) [
  | none ↦ none
  | some p ↦ (elim (add_client_connection stack client p.push) [
    | none ↦ none
    | some r ↦
        some
          (served r.1 (record s { publishers = put name (record p { push = r.0 }) s.publishers }))
  ])
]

-- `if (server_connection)`, without the log; the callback is the push server's `GetPushConnByUrl`, as
-- `main` sets it.
abbrev pub lookup : (ℕ → ℕ) → List ℕ → Option (List ℕ) → RtmpPushServer → Option Answer
lookup stack client none s = some refused
lookup stack client (some name) s = serve stack client name s

-- The file's name in its log statements.
abbrev pub pull_server_file : List ℕ
pull_server_file =
    b'H' ∷ b't' ∷ b't' ∷ b'p' ∷ b'P' ∷ b'u' ∷ b'l' ∷ b'l' ∷ b'S' ∷ b'e' ∷ b'r' ∷ b'v' ∷ b'e' ∷ b'r'
    ∷ b'.' ∷ b'c' ∷ b'p' ∷ b'p' ∷ []

-- The end of the line, and the number of the statement.
abbrev pub outcome_text : Option (List ℕ) → List ℕ
outcome_text none = 32 ∷ b'f' ∷ b'a' ∷ b'i' ∷ b'l' ∷ b'e' ∷ b'd' ∷ []
outcome_text (some name) = 32 ∷ b's' ∷ b'u' ∷ b'c' ∷ b'c' ∷ b'e' ∷ b's' ∷ b's' ∷ []

abbrev pub outcome_line : Option (List ℕ) → ℕ
outcome_line none = 61
outcome_line (some name) = 53

-- `LOG_INFO << "connection: " << ... << ", request url: " << url << ...`
abbrev pub request_items : List ℕ → List ℕ → List ℕ → List Item
request_items client url outcome =
    c_text (b'c' ∷ b'o' ∷ b'n' ∷ b'n' ∷ b'e' ∷ b'c' ∷ b't' ∷ b'i' ∷ b'o' ∷ b'n' ∷ b':' ∷ 32 ∷ [])
    ∷ string client
    ∷ c_text (
        b',' ∷ 32 ∷ b'r' ∷ b'e' ∷ b'q' ∷ b'u' ∷ b'e' ∷ b's' ∷ b't' ∷ 32 ∷ b'u' ∷ b'r' ∷ b'l' ∷ b':'
        ∷ 32 ∷ [])
    ∷ string url
    ∷ c_text outcome
    ∷ []

-- The statement, and what follows it.
pub log_and_lookup :
    LogAt → (ℕ → ℕ) → List ℕ → List ℕ → Option (List ℕ) → RtmpPushServer → Option Answer
unfolding logs serve
log_and_lookup log stack client url o s =
    if logs log level_info pull_server_file (outcome_line o)
      (request_items client url (outcome_text o))
    then lookup stack client o s
    else none

-- `.substr(1)`, which throws on an empty url.
abbrev pub cut_first : Option (List ℕ) → Option (List ℕ)
cut_first none = none
cut_first (some url) = substr 1 npos url

-- The url of the request, without its first character.
pub requested : Fifo → Option (List ℕ)
requested buffer = cut_first (get_url (Fifo.read_all_as_string buffer).0)

abbrev pub with_url : LogAt → (ℕ → ℕ) → List ℕ → Option (List ℕ) → RtmpPushServer → Option Answer
unfolding log_and_lookup
with_url log stack client none s = none
with_url log stack client (some url) s =
    log_and_lookup log stack client url (get_push_conn_by_url url s) s

pub on_client_message : LogAt → (ℕ → ℕ) → List ℕ → Fifo → RtmpPushServer → Option Answer
unfolding requested log_and_lookup
on_client_message log stack client buffer s = with_url log stack client (requested buffer) s
