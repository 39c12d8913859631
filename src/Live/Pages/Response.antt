-- ===== src/Live/Pages/Response.antt =====
-- live/HttpServer.cpp: the response as a browser reads it, by its Content-Length.
use live_broadcast_server.Common.{
  ℕ, ◌<◌, ◌≡◌, refl, ap, ap₂, ◌∙◌, Option, none, some, List, [], ◌∷◌, ◌++◌, append_assoc, arith,
  ◌==◌, if◌then◌else◌, length, take, drop, take-append, drop-append, size_mod,
}
use live_broadcast_server.Format.{crlf}
use live_broadcast_server.Text.Decimal.{
  to_string, read_number, read_number-to_string, read_number-stop,
}
use live_broadcast_server.Live.Pages.{status_line, response}

pub skip_prefix : List ℕ → List ℕ → Option (List ℕ)
skip_prefix [] ys = some ys
skip_prefix (x ∷ xs) [] = none
skip_prefix (x ∷ xs) (y ∷ ys) = let rest = skip_prefix xs ys in if x == y then rest else none

after_break : ℕ → Option (List ℕ) → Option (List ℕ × List ℕ)
after_break n none = none
after_break n (some rest) = some (take n rest, drop n rest)

after_length : ℕ × List ℕ → Option (List ℕ × List ℕ)
unfolding skip_prefix after_break
after_length r = after_break r.0 (skip_prefix (crlf ++ crlf) r.1)

after_status : Option (List ℕ) → Option (List ℕ × List ℕ)
unfolding after_length
after_status none = none
after_status (some rest) = after_length (read_number 0 rest)

-- A browser's reading of a response: its body, and what follows it.
pub read_response : List ℕ → Option (List ℕ × List ℕ)
unfolding skip_prefix after_status
read_response xs = after_status (skip_prefix status_line xs)

skip_prefix-append : (xs ys : List ℕ) → skip_prefix xs (xs ++ ys) ≡ some ys
unfolding skip_prefix
skip_prefix-append [] ys = refl
skip_prefix-append (x ∷ xs) ys = ground (arith, skip_prefix-append xs ys)

read_number-crlf : (n : ℕ) (rest : List ℕ) → read_number n (crlf ++ rest) ≡ (n, crlf ++ rest)
read_number-crlf n rest = read_number-stop n 13 (10 ∷ rest) refl

flatten :
    (status size gap text later : List ℕ)
    → (((status ++ size) ++ gap) ++ text) ++ later ≡ status ++ (size ++ (gap ++ (text ++ later)))
flatten status size gap text later = simp (append_assoc)

read_length :
    (text later : List ℕ)
    → length text < size_mod
    → after_status (some (to_string (length text) ++ ((crlf ++ crlf) ++ (text ++ later))))
      ≡ some (text, later)
unfolding after_status after_length after_break
read_length text later h =
    let n = length text in
    let gap = crlf ++ crlf in
    ap after_length (
      read_number-to_string n (gap ++ (text ++ later)) h
      ∙ read_number-crlf n (crlf ++ (text ++ later)))
    ∙ ap (after_break n) (skip_prefix-append gap (text ++ later))
    ∙ ap₂ (λ a b. some (a, b)) (take-append n text later refl) (drop-append n text later refl)

pub read_response-response :
    (text later : List ℕ)
    → length text < size_mod
    → read_response (response text ++ later) ≡ some (text, later)
unfolding read_response response
read_response-response text later h =
    let size = to_string (length text) in
    let gap = crlf ++ crlf in
    ap (λ l. after_status (skip_prefix status_line l)) (flatten status_line size gap text later)
    ∙ ap after_status (skip_prefix-append status_line (size ++ (gap ++ (text ++ later))))
    ∙ read_length text later h
