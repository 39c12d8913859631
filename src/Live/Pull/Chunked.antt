-- ===== src/Live/Pull/Chunked.antt =====
-- live/connection/HttpPullConnection.cpp as a viewer reads it: HTTP chunks with an FLV stream inside.
use live_broadcast_server.Common.{
  ℕ, zero, suc, ◌+◌, ◌<◌, ◌≡◌, refl, sym, ap, ap₂, ◌∙◌, ◌&&◌, Option, none, some, List, [], ◌∷◌,
  ◌++◌, append_assoc, arith, ◌==◌, if◌then◌else◌, length, take, drop, length-append, take-append,
  drop-append, size_mod, be32,
}
use live_broadcast_server.Format.{to_hex_string_with_crlf, crlf}
use live_broadcast_server.Format.Hex.{read_size, read_size-to_hex_string_with_crlf}
use live_broadcast_server.Flv.{FlvTag, get_sum_size, get_current_tag_size}
use live_broadcast_server.Live.Pull.{
  HttpPullConnection, response_header, send_header_on_connection, add_flv_tag,
}

-- The end of line behind a chunk.
after_chunk : List ℕ → List ℕ → Option (List ℕ × List ℕ)
after_chunk body (x ∷ y ∷ rest) = if (x == 13) && (y == 10) then some (body, rest) else none
after_chunk body _ = none

abbrev after_size : Option (ℕ × List ℕ) → Option (List ℕ × List ℕ)
unfolding after_chunk
after_size none = none
after_size (some r) = after_chunk (take r.0 r.1) (drop r.0 r.1)

-- A viewer's reading of one chunk: a size line, that many bytes, and an end of line.
pub read_chunk : List ℕ → Option (List ℕ × List ℕ)
unfolding read_size after_chunk
read_chunk xs = after_size (read_size 0 xs)

read_chunk-chunk :
    (body rest : List ℕ)
    → length body < size_mod
    → read_chunk (to_hex_string_with_crlf (length body) ++ (body ++ (crlf ++ rest)))
      ≡ some (body, rest)
unfolding read_chunk after_chunk
read_chunk-chunk body rest h =
    ap after_size (read_size-to_hex_string_with_crlf (length body) (body ++ (crlf ++ rest)) h)
    ∙ ap₂ after_chunk (take-append (length body) body (crlf ++ rest) refl)
        (drop-append (length body) body (crlf ++ rest) refl)

-- The part of the stream that a tag makes: the size of the tag before it, and the tag.
abbrev flv_part : ℕ → FlvTag → List ℕ
flv_part last t = be32 last ++ (t.header ++ t.body)

flatten_tag :
    (size prev header body rest : List ℕ)
    → ((((size ++ prev) ++ header) ++ body) ++ crlf) ++ rest
      ≡ size ++ ((prev ++ (header ++ body)) ++ (crlf ++ rest))
flatten_tag size prev header body rest = simp (append_assoc)

length-flv_part :
    (last : ℕ) (t : FlvTag) → length t.header ≡ 11 → length (flv_part last t) ≡ get_sum_size t + 4
unfolding get_sum_size
length-flv_part last t e = omega (arith, length-append t.header t.body)

flatten_header :
    (response size header rest : List ℕ)
    → (((response ++ size) ++ header) ++ crlf) ++ rest
      ≡ response ++ (size ++ (header ++ (crlf ++ rest)))
flatten_header response size header rest = simp (append_assoc)

read_chunk-add_flv_tag :
    (c : HttpPullConnection) (t : FlvTag) (rest : List ℕ)
    → length t.header ≡ 11
    → get_sum_size t + 4 < size_mod
    → read_chunk ((add_flv_tag c t).1 ++ rest) ≡ some (flv_part c.last_tag_size t, rest)
unfolding add_flv_tag
read_chunk-add_flv_tag c t rest e h =
    ap read_chunk (
      flatten_tag (to_hex_string_with_crlf (get_sum_size t + 4)) (be32 c.last_tag_size) t.header
        t.body rest)
    ∙ ap
        (λ n.
          read_chunk (to_hex_string_with_crlf n ++ (flv_part c.last_tag_size t ++ (crlf ++ rest))))
        (sym (length-flv_part c.last_tag_size t e))
    ∙ read_chunk-chunk (flv_part c.last_tag_size t) rest
        (omega (arith, length-flv_part c.last_tag_size t e))

-- The stream header, shorter than 2 ^ 64 bytes, arrives behind the response header, as one chunk.
pub read_chunk-send_header_on_connection :
    (header rest : List ℕ)
    → length header < size_mod
    → read_chunk (drop (length response_header) (send_header_on_connection header ++ rest))
      ≡ some (header, rest)
unfolding send_header_on_connection
read_chunk-send_header_on_connection header rest h =
    ap (λ l. read_chunk (drop (length response_header) l))
      (flatten_header response_header (to_hex_string_with_crlf (length header)) header rest)
    ∙ ap read_chunk (
        drop-append (length response_header) response_header
          (to_hex_string_with_crlf (length header) ++ (header ++ (crlf ++ rest))) refl)
    ∙ read_chunk-chunk header rest h

-- The tags that a viewer is sent, one after the other.
unfoldable pub add_flv_tags : HttpPullConnection → List FlvTag → HttpPullConnection × List ℕ
unfolding add_flv_tag
add_flv_tags c [] = (c, [])
add_flv_tags c (t ∷ ts) =
    let r = add_flv_tag c t in let rest = add_flv_tags r.0 ts in (rest.0, r.1 ++ rest.1)

-- The stream they make: each tag behind the size of the one before.
unfoldable pub flv_parts : ℕ → List FlvTag → List (List ℕ)
flv_parts last [] = []
flv_parts last (t ∷ ts) = flv_part last t ∷ flv_parts (get_current_tag_size t) ts

abbrev add_part : Option (List (List ℕ) × List ℕ) → List ℕ → Option (List (List ℕ) × List ℕ)
add_part none part = none
add_part (some s) part = some (part ∷ s.0, s.1)

pub read_chunks : ℕ → List ℕ → Option (List (List ℕ) × List ℕ)
unfolding read_chunk
read_chunks zero xs = some ([], xs)
read_chunks (suc n) xs = elim (read_chunk xs) [
  | none ↦ none
  | some r ↦ add_part (read_chunks n r.1) r.0
]

read_chunks-suc :
    (n : ℕ) (xs part rest : List ℕ)
    → read_chunk xs ≡ some (part, rest)
    → read_chunks (suc n) xs ≡ add_part (read_chunks n rest) part
unfolding read_chunks
read_chunks-suc n xs part rest e = rw (e, read_chunks)

-- Tags whose header is whole and whose length a `size_t` holds.
abbrev pub AllWhole : List FlvTag → Type 0
AllWhole [] = Unit {0}
AllWhole (t ∷ ts) = (length t.header ≡ 11) × (get_sum_size t + 4 < size_mod) × AllWhole ts

-- Whatever comes after them, tags with a whole header that a viewer is sent read as one HTTP chunk
-- each, and the chunks are the FLV stream: each tag behind the size of the one before it, the first
-- behind the size that the connection holds.
pub read_chunks-add_flv_tags :
    (c : HttpPullConnection) (ts : List FlvTag) (rest : List ℕ)
    → AllWhole ts
    → read_chunks (length ts) ((add_flv_tags c ts).1 ++ rest)
      ≡ some (flv_parts c.last_tag_size ts, rest)
unfolding add_flv_tags add_flv_tag flv_parts read_chunks
read_chunks-add_flv_tags c [] rest w = refl
read_chunks-add_flv_tags c (t ∷ ts) rest w =
    let r = add_flv_tag c t in
    let later = (add_flv_tags r.0 ts).1 in
    ap (read_chunks (suc (length ts))) (append_assoc r.1 later rest)
    ∙ read_chunks-suc (length ts) (r.1 ++ (later ++ rest)) (flv_part c.last_tag_size t)
        (later ++ rest) (read_chunk-add_flv_tag c t (later ++ rest) w.0 w.1)
    ∙ ap (λ s. add_part s (flv_part c.last_tag_size t)) (read_chunks-add_flv_tags r.0 ts rest w.2)
