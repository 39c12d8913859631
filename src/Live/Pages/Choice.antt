-- ===== src/Live/Pages/Choice.antt =====
-- live/HttpServer.cpp: which page a request is answered with.
use live_broadcast_server.Fifo.{Fifo}
use live_broadcast_server.Text.{c_string}
use live_broadcast_server.Logger.{item_text, level_info, level_error}
use live_broadcast_server.Logger.Lines.{all_text}
use live_broadcast_server.Live.Log.{LogAt, IsLogContext, logs-short}
use live_broadcast_server.Common.{
  ◌≤◌, suc, inl, inr, Bool-cases, append-nil, arith, length-append, ℕ, ◌+◌, ◌<◌, ◌≡◌, refl, ap, ◌∙◌,
  Bool, true, false, Option, none, some, List, [], ◌∷◌, ◌++◌, ◌==◌, if◌then◌else◌, length, size_mod,
}
use live_broadcast_server.File.{Disk, open_mode_to_string, o_rdonly}
use live_broadcast_server.File.ReadAll.{read_file_as_string-whole, read_file_as_string-missing}
use live_broadcast_server.Format.{space}
use live_broadcast_server.Format.Url.{get_url-between}
use live_broadcast_server.Text.{npos}
use live_broadcast_server.Text.Find.{Lacks}
use live_broadcast_server.Live.Pages.{
  HttpServer, WebData, file_path, select, same_url, js_url, css_url, index_path, error_items,
  request_items, http_server_file, text_read, get_response_text_from_file,
  get_response_test_from_var, or_var, get_response_text, response, answer, answer_text,
  on_http_message,
}
use live_broadcast_server.Live.Pages.Response.{read_response, read_response-response}

-- What a file holds, and nothing where there is none.
abbrev pub content_of : Option (List ℕ) → List ℕ
content_of none = []
content_of (some bytes) = bytes

-- The embedded page stands in for an empty text.
abbrev pub unless_empty : List ℕ → List ℕ → List ℕ
unless_empty [] text = text
unless_empty (x ∷ xs) text = x ∷ xs

-- The text of the page: the file under the root, if a root is set and the file is there and not empty,
-- and the embedded page otherwise.
unfoldable pub page : Disk → WebData → HttpServer → List ℕ → List ℕ
page disk web s url =
    unless_empty
      (if 0 == length s.http_root
        then []
        else content_of (disk.open_path (file_path s url) (open_mode_to_string o_rdonly)))
      (get_response_test_from_var web url)

or_var-some : (text xs : List ℕ) → or_var text (some xs) ≡ some (unless_empty xs text)
unfolding or_var
or_var-some text [] = refl
or_var-some text (x ∷ xs) = refl

-- "read file error " in the log.
abbrev error_text : List ℕ
error_text =
    b'r' ∷ b'e' ∷ b'a' ∷ b'd' ∷ 32 ∷ b'f' ∷ b'i' ∷ b'l' ∷ b'e' ∷ 32 ∷ b'e' ∷ b'r' ∷ b'r' ∷ b'o'
    ∷ b'r' ∷ 32 ∷ []

length-error_items : (path : List ℕ) → length (all_text (error_items path)) ≡ 16 + length path
unfolding all_text item_text c_string
length-error_items path =
    ap (λ l. length (error_text ++ l)) (append-nil path) ∙ length-append error_text path

length-select :
    (url js css index : List ℕ) (n : ℕ)
    → length js ≤ n
    → length css ≤ n
    → length index ≤ n
    → length (select url js css index) ≤ n
unfolding select
length-select url js css index n a b c = elim (Bool-cases (same_url url js_url)) [
  | inl y ↦ rw y a
  | inr x ↦ (elim (Bool-cases (same_url url css_url)) [ inl y ↦ rw (x, y) b | inr y ↦ rw (x, y) c ])
]

length-file_path :
    (s : HttpServer) (url : List ℕ) → length (file_path s url) ≤ length s.http_root + 11
unfolding file_path
length-file_path s url =
    length-select url (s.http_root ++ js_url) (s.http_root ++ css_url) (s.http_root ++ index_path)
      (length s.http_root + 11) (omega (arith, length-append s.http_root js_url))
      (omega (arith, length-append s.http_root css_url))
      (omega (arith, length-append s.http_root index_path))

module _ (log : LogAt) (v : (line : ℕ) → IsLogContext (log line)) where
  text_read-failed :
      (path text : List ℕ) → length path ≤ 425 → text_read log path (some (false, text)) ≡ some text
  unfolding text_read
  text_read-failed path text h =
      ap (λ b. if b then some text else none)
        (logs-short log level_error http_server_file 73 (error_items path) (v 73) (omega arith)
          (omega (arith, length-error_items path)))

  get_response_text_from_file_lem :
      (disk : Disk) (s : HttpServer) (url : List ℕ) (o : Option (List ℕ))
      → length s.http_root ≤ 400
      → disk.open_path (file_path s url) (open_mode_to_string o_rdonly) ≡ o
      → disk.size_of (file_path s url) ≡ length (content_of o)
      → get_response_text_from_file log disk s url ≡ some (content_of o)
  unfolding get_response_text_from_file text_read
  get_response_text_from_file_lem disk s url none r e z =
      ap (text_read log (file_path s url)) (read_file_as_string-missing disk (file_path s url) [] e)
      ∙ text_read-failed (file_path s url) [] (omega (arith, length-file_path s url))
  get_response_text_from_file_lem disk s url (some bytes) r e z =
      ap (text_read log (file_path s url))
        (read_file_as_string-whole disk (file_path s url) [] bytes e z)

either_text :
    (b : Bool) (o : Option (List ℕ)) (xs : List ℕ)
    → o ≡ some xs
    → (if b then some [] else o) ≡ some (if b then [] else xs)
either_text true o xs e = refl
either_text false o xs e = e

length-request_items :
    (name url : List ℕ) → length (all_text (request_items name url)) ≡ length name + length url + 1
unfolding all_text item_text c_string
length-request_items name url =
    length-append name (32 ∷ (url ++ []))
    ∙ ap (λ l. length name + suc (length l)) (append-nil url)
    ∙ (let e : length name + suc (length url) ≡ length name + length url + 1 = omega arith in e)

module _ (log : LogAt) (v : (line : ℕ) → IsLogContext (log line)) where
  get_response_text-page :
      (disk : Disk) (web : WebData) (s : HttpServer) (url : List ℕ)
      → length s.http_root ≤ 400
      → disk.size_of (file_path s url)
        ≡ length (content_of (disk.open_path (file_path s url) (open_mode_to_string o_rdonly)))
      → get_response_text log disk web s url ≡ some (page disk web s url)
  unfolding get_response_text page
  get_response_text-page disk web s url r z =
      let o = disk.open_path (file_path s url) (open_mode_to_string o_rdonly) in
      let b = 0 == length s.http_root in
      let var = get_response_test_from_var web url in
      ap (or_var var) (
        either_text b (get_response_text_from_file log disk s url) (content_of o)
          (get_response_text_from_file_lem log v disk s url o r refl z))
      ∙ or_var-some var (if b then [] else content_of o)

  answer-short :
      (name : List ℕ) (disk : Disk) (web : WebData) (s : HttpServer) (buffer : Fifo) (url : List ℕ)
      → length name + length url ≤ 400
      → answer log name disk web s buffer (some url)
        ≡ answer_text buffer (get_response_text log disk web s url)
  unfolding answer
  answer-short name disk web s buffer url h =
      ap (λ b. if b then answer_text buffer (get_response_text log disk web s url) else none)
        (logs-short log level_info http_server_file 32 (request_items name url) (v 32) (omega arith)
          (omega (arith, length-request_items name url)))

  -- A request line with a url is answered by a response that a browser reads, by its Content-Length,
  -- as the page of that url, with whatever follows left over: the file under the root, if a root is
  -- set and the file is there and not empty, and the embedded page otherwise. The url and the
  -- connection's name have 400 bytes together at most, and the root has 400 at most, so that the
  -- log's array holds the lines about them. The word and the url have no space and are shorter than
  -- any size_t, stat tells the size of what fopen opens, and a size_t holds the page's length.
  pub on_http_message-page :
      (name : List ℕ) (disk : Disk) (web : WebData) (s : HttpServer) (word url rest later : List ℕ)
      → length name + length url ≤ 400
      → length s.http_root ≤ 400
      → Lacks space word
      → Lacks space url
      → length word + length url + 2 < npos
      → disk.size_of (file_path s url)
        ≡ length (content_of (disk.open_path (file_path s url) (open_mode_to_string o_rdonly)))
      → length (page disk web s url) < size_mod
      → (sent : List ℕ) × (on_http_message log name disk web s
            (word ++ (space ∷ (url ++ (space ∷ rest))))
          ≡ some (sent, []))
        × (read_response (sent ++ later) ≡ some (page disk web s url, later))
  unfolding on_http_message answer_text
  on_http_message-page name disk web s word url rest later f r w u h z l =
      let text = page disk web s url in
      (
        response text,
        ap (answer log name disk web s []) (get_url-between word url rest w u h)
            ∙ answer-short name disk web s [] url f
            ∙ ap (answer_text []) (get_response_text-page disk web s url r z),
        read_response-response text later l,
      )
