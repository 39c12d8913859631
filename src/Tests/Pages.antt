-- ===== src/Tests/Pages.antt =====
-- Tests of live/HttpServer, utils/File and utils/Logger.
use live_broadcast_server.Common.{
  ℕ, ◌+◌, ◌%◌, ◌≡◌, refl, Bool, true, some, List, [], ◌∷◌, ◌++◌, arith, replicate,
}
use live_broadcast_server.Format.{space}
use live_broadcast_server.File.{Disk, read_file_as_string}
use live_broadcast_server.File.ReadAll.{read_file_as_string-Returns}
use live_broadcast_server.Live.Pages.{HttpServer, WebData, js_url, on_http_message}
use live_broadcast_server.Live.Pages.Response.{read_response}
use live_broadcast_server.Live.Pages.Choice.{page, on_http_message-page}
use live_broadcast_server.Logger.{
  Statement, level_info, level_debug, log_all, new_cache, int, string,
}
use live_broadcast_server.Logger.Lines.{AllLate, no_statements, late, lines, log_all-lines}
use live_broadcast_server.Tests.Data.{log, log-IsLogContext}
use live_broadcast_server.Tests.Lines.{get_word, get_word-Lacks}
use live_broadcast_server.Text.Find.{Lacks}

-- Every path leads to the same three bytes.
abbrev disk : Disk
disk = record { open_path = λ path mode. some (7 ∷ 8 ∷ 9 ∷ []); size_of = λ path. 3 }

abbrev web : WebData
web = record { js_data = 1 ∷ []; css_data = 2 ∷ []; index_data = 3 ∷ [] }

abbrev site : HttpServer
site = record { http_root = b'w' ∷ [] }

js_url-Lacks : Lacks space js_url
js_url-Lacks = (
  λ e. omega arith,
  (
    λ e. omega arith,
    (
      λ e. omega arith,
      (λ e. omega arith, (λ e. omega arith, (λ e. omega arith, (λ e. omega arith, tt)))),
    ),
  ),
)

abbrev b_name : List ℕ
b_name = b'b' ∷ []

on_http_message-page_example :
    (sent : List ℕ) × (on_http_message log b_name disk web site
        (get_word ++ (space ∷ (js_url ++ (space ∷ []))))
      ≡ some (sent, []))
    × (read_response (sent ++ (4 ∷ [])) ≡ some (page disk web site js_url, 4 ∷ []))
unfolding page
on_http_message-page_example =
    on_http_message-page log log-IsLogContext b_name disk web site get_word js_url [] (4 ∷ [])
      (omega arith) (omega arith) get_word-Lacks js_url-Lacks (omega arith) refl (omega arith)

read_file_as_string-Returns_example :
    (r : Bool × List ℕ) × (read_file_as_string disk js_url (1 ∷ []) ≡ some r)
read_file_as_string-Returns_example = read_file_as_string-Returns disk js_url (1 ∷ [])

abbrev calendar : ℕ → List ℕ
calendar second = replicate 17 (b'0' + second % 10)

abbrev statement : Statement
statement = record {
  level = level_info;
  file_name = b'a' ∷ [];
  line = 12;
  tid = 3;
  time = 5000042;
  items = string (b'h' ∷ b'i' ∷ []) ∷ int true 4 ∷ [];
}

abbrev statements : List Statement
statements =
    statement ∷ record statement { level = level_debug } ∷ record statement { time = 5000043 } ∷ []

statements-AllLate : AllLate statements
statements-AllLate = late (omega arith) (late (omega arith) (late (omega arith) no_statements))

log_all-lines_example :
    log_all calendar level_info statements new_cache ≡ lines calendar level_info statements
log_all-lines_example = log_all-lines calendar level_info statements statements-AllLate
