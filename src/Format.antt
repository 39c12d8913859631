-- ===== src/Format.antt =====
-- utils/Format.h and Format.cpp: hexadecimal numbers, and the url of a request and of a publisher.
-- `none` is the exception `std::out_of_range`, which nothing catches.
pub mod Hex
pub mod Url
pub mod Path
use live_broadcast_server.Common.{
  ℕ, zero, suc, ◌+◌, ◌-◌, ◌/◌, ◌%◌, Bool, Option, none, some, List, [], ◌∷◌, ◌++◌, ltb, ◌==◌,
  if◌then◌else◌, length, add_size, sub_size,
}
use live_broadcast_server.Text.{npos, index_of, find_char, find, last_index_of, substr}

-- A digit as `std::hex` writes it.
abbrev pub hex_digit : ℕ → ℕ
hex_digit d = if ltb d 10 then b'0' + d else b'a' + (d - 10)

-- The digits of `n` in front of those written already; a `size_t` has 16 at most.
pub hex_digits : ℕ → ℕ → List ℕ → List ℕ
hex_digits zero n acc = acc
hex_digits (suc fuel) n acc =
    let rest = hex_digits fuel (n / 16) (hex_digit (n % 16) ∷ acc) in
    if ltb n 16 then hex_digit n ∷ acc else rest

pub to_hex_string : ℕ → List ℕ
unfolding hex_digits
to_hex_string n = hex_digits 16 n []

abbrev pub crlf : List ℕ
crlf = 13 ∷ 10 ∷ []

unfoldable pub to_hex_string_with_crlf : ℕ → List ℕ
unfolding to_hex_string
to_hex_string_with_crlf n = to_hex_string n ++ crlf

abbrev pub space : ℕ
space = 32

abbrev pub slash : ℕ
slash = b'/'

-- `str.find(' ') + 1` wraps to 0 where there is no space.
pub get_url : List ℕ → Option (List ℕ)
get_url str =
    let url_begin = add_size (find_char space 0 str) 1 in
    let url_end = find_char space url_begin str in substr url_begin (sub_size url_end url_begin) str

-- `path.find_last_of('/') == path.length() - 1`
abbrev pub ends_in_slash : List ℕ → Bool
ends_in_slash path = elim (last_index_of slash path) [
  | none ↦ npos == sub_size (length path) 1
  | some i ↦ i == sub_size (length path) 1
]

unfoldable pub trim_path : List ℕ → Option (List ℕ)
trim_path path =
    let path_len = (if ends_in_slash path then sub_size (length path) 1 else length path) in
    substr 1 (sub_size path_len 1) path

unfoldable pub get_path_from_url : List ℕ → Option (List ℕ)
get_path_from_url url =
    let idx : ℕ = elim (find (slash ∷ slash ∷ []) url) [ none ↦ npos | some i ↦ i ] in
    let idx1 = find_char slash (add_size idx 2) url in
    elim (substr idx1 npos url) [ none ↦ none | some path ↦ trim_path path ]
