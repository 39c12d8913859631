-- ===== src/Live/Pages.antt =====
-- live/HttpServer.h and HttpServer.cpp: the pages for the browser. The disk is that of `File`, and the
-- constants of live/WebData.h, a page and a player, are an argument.
pub mod Response
pub mod Choice
use live_broadcast_server.Common.{
  ℕ, ◌+◌, ◌-◌, ◌/◌, Bool, true, false, not, Option, none, some, List, [], ◌∷◌, ◌++◌, ◌==◌,
  if◌then◌else◌, length,
}
use live_broadcast_server.Common.Names.{compare_names, by_order}
use live_broadcast_server.Fifo
use live_broadcast_server.Fifo.{Fifo}
use live_broadcast_server.File.{Disk, read_file_as_string}
use live_broadcast_server.Format.{get_url, crlf, space}
use live_broadcast_server.Logger.{Item, string, c_text, level_info, level_error}
use live_broadcast_server.Live.Log.{LogAt, logs}
use live_broadcast_server.Text.Decimal.{to_string}

pub record HttpServer : Type 0 where
  pub http_root : List ℕ

pub record WebData : Type 0 where
  pub js_data : List ℕ
  pub css_data : List ℕ
  pub index_data : List ℕ

pub set_http_root : List ℕ → HttpServer → HttpServer
set_http_root root s = record s { http_root = root }

abbrev pub js_url : List ℕ
js_url = b'/' ∷ b'f' ∷ b'l' ∷ b'v' ∷ b'.' ∷ b'j' ∷ b's' ∷ []

abbrev pub css_url : List ℕ
css_url = b'/' ∷ b'f' ∷ b'l' ∷ b'v' ∷ b'.' ∷ b'c' ∷ b's' ∷ b's' ∷ []

abbrev pub index_path : List ℕ
index_path = b'/' ∷ b'i' ∷ b'n' ∷ b'd' ∷ b'e' ∷ b'x' ∷ b'.' ∷ b'h' ∷ b't' ∷ b'm' ∷ b'l' ∷ []

-- `url == "..."`
pub same_url : List ℕ → List ℕ → Bool
same_url url other = by_order (compare_names url other) false true false

-- The tests of the url, in either function.
pub select : List ℕ → List ℕ → List ℕ → List ℕ → List ℕ
unfolding same_url
select url js css index =
    if same_url url js_url then js else if same_url url css_url then css else index

pub file_path : HttpServer → List ℕ → List ℕ
unfolding select
file_path s url =
    select url (s.http_root ++ js_url) (s.http_root ++ css_url) (s.http_root ++ index_path)

-- The file's name in its log statements.
abbrev pub http_server_file : List ℕ
http_server_file =
    b'H' ∷ b't' ∷ b't' ∷ b'p' ∷ b'S' ∷ b'e' ∷ b'r' ∷ b'v' ∷ b'e' ∷ b'r' ∷ b'.' ∷ b'c' ∷ b'p' ∷ b'p'
    ∷ []

-- `LOG_INFO << ... << " " << url`
abbrev pub request_items : List ℕ → List ℕ → List Item
request_items name url = string name ∷ c_text (32 ∷ []) ∷ string url ∷ []

-- `LOG_ERROR << "read file error " << file_path`
abbrev pub error_items : List ℕ → List Item
error_items path =
    c_text (
      b'r' ∷ b'e' ∷ b'a' ∷ b'd' ∷ 32 ∷ b'f' ∷ b'i' ∷ b'l' ∷ b'e' ∷ 32 ∷ b'e' ∷ b'r' ∷ b'r' ∷ b'o'
      ∷ b'r' ∷ 32 ∷ [])
    ∷ string path
    ∷ []

-- What was read is returned, also where reading failed, which is logged.
pub text_read : LogAt → List ℕ → Option (Bool × List ℕ) → Option (List ℕ)
unfolding logs
text_read log path none = none
text_read log path (some (true, text)) = some text
text_read log path (some (false, text)) =
    if logs log level_error http_server_file 73 (error_items path) then some text else none

pub get_response_text_from_file : LogAt → Disk → HttpServer → List ℕ → Option (List ℕ)
unfolding file_path text_read
get_response_text_from_file log disk s url =
    text_read log (file_path s url) (read_file_as_string disk (file_path s url) [])

pub get_response_test_from_var : WebData → List ℕ → List ℕ
unfolding select
get_response_test_from_var web url = select url web.js_data web.css_data web.index_data

-- `if (response_text.empty())`
pub or_var : List ℕ → Option (List ℕ) → Option (List ℕ)
or_var text none = none
or_var text (some []) = some text
or_var text (some (x ∷ xs)) = some (x ∷ xs)

pub get_response_text : LogAt → Disk → WebData → HttpServer → List ℕ → Option (List ℕ)
unfolding get_response_text_from_file get_response_test_from_var or_var
get_response_text log disk web s url =
    or_var (get_response_test_from_var web url)
      (if 0 == length s.http_root then some [] else get_response_text_from_file log disk s url)

-- `"HTTP/1.1 200 OK\r\nContent-Length: "`
abbrev pub status_line : List ℕ
status_line =
    b'H' ∷ b'T' ∷ b'T' ∷ b'P' ∷ b'/' ∷ b'1' ∷ b'.' ∷ b'1' ∷ space ∷ b'2' ∷ b'0' ∷ b'0' ∷ space
    ∷ b'O' ∷ b'K' ∷ 13 ∷ 10 ∷ b'C' ∷ b'o' ∷ b'n' ∷ b't' ∷ b'e' ∷ b'n' ∷ b't' ∷ b'-' ∷ b'L' ∷ b'e'
    ∷ b'n' ∷ b'g' ∷ b't' ∷ b'h' ∷ b':' ∷ space ∷ []

pub response : List ℕ → List ℕ
response text = ((status_line ++ to_string (length text)) ++ (crlf ++ crlf)) ++ text

pub answer_text : Fifo → Option (List ℕ) → Option (List ℕ × Fifo)
unfolding response
answer_text buffer none = none
answer_text buffer (some text) = some (response text, buffer)

-- What is sent, and the buffer; `none` where the url cannot be read, and where a line is too long for
-- the log's array.
pub answer :
    LogAt → List ℕ → Disk → WebData → HttpServer → Fifo → Option (List ℕ) → Option (List ℕ × Fifo)
unfolding answer_text logs
answer log name disk web s buffer none = none
answer log name disk web s buffer (some url) =
    if logs log level_info http_server_file 32 (request_items name url)
    then answer_text buffer (get_response_text log disk web s url)
    else none

-- `name` is the connection's.
pub on_http_message : LogAt → List ℕ → Disk → WebData → HttpServer → Fifo → Option (List ℕ × Fifo)
unfolding answer
on_http_message log name disk web s buffer =
    let r = Fifo.read_all_as_string buffer in answer log name disk web s r.1 (get_url r.0)
