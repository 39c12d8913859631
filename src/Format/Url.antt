-- ===== src/Format/Url.antt =====
-- utils/Format.cpp: the url of an HTTP request and the path of a publisher's url.
use live_broadcast_server.Common.{
  ℕ, ◌+◌, ◌≤◌, ◌<◌, ◌≡◌, sym, ap, ◌∙◌, some, List, [], ◌∷◌, ◌++◌, length, arith, size_mod, add_size,
  sub_size, append_assoc, length-append, take-append, drop-append, take_all, le→ltb,
}
use live_broadcast_server.Text.{npos, find_char, substr}
use live_broadcast_server.Text.Find.{Lacks, find_char-append, find_char-Lacks}
use live_broadcast_server.Format.{space, get_url}

-- `substr` of a middle part.
pub substr-middle :
    (xs ys zs : List ℕ) (pos n : ℕ)
    → pos ≡ length xs
    → n ≡ length ys
    → substr pos n (xs ++ (ys ++ zs)) ≡ some ys
unfolding substr
substr-middle xs ys zs pos n p e =
    rw
      (
        le→ltb (length (xs ++ (ys ++ zs))) pos (omega (arith, length-append xs (ys ++ zs))),
        drop-append pos xs (ys ++ zs) p,
      )
      (ap some (take-append n ys zs e))

-- `substr` up to the end.
pub substr-rest :
    (xs ys : List ℕ) (pos n : ℕ)
    → pos ≡ length xs
    → length ys ≤ n
    → substr pos n (xs ++ ys) ≡ some ys
unfolding substr
substr-rest xs ys pos n p h =
    rw
      (le→ltb (length (xs ++ ys)) pos (omega (arith, length-append xs ys)), drop-append pos xs ys p)
      (ap some (take_all n ys h))

-- The two searches of `GetUrl` at work.
get_url_found :
    (str : List ℕ) (p q : ℕ)
    → find_char space 0 str ≡ p
    → p + 1 < size_mod
    → find_char space (p + 1) str ≡ q
    → get_url str ≡ substr (p + 1) (sub_size q (p + 1)) str
unfolding get_url
get_url_found str p q first small second =
    let begin : add_size (find_char space 0 str) 1 ≡ p + 1 = omega arith in
    ap (λ k. substr k (sub_size (find_char space k str) k) str) begin
    ∙ ap (λ e. substr (p + 1) (sub_size e (p + 1)) str) second

-- A line `word SP tail`, cut behind the space.
cut_word : (word tail : List ℕ) → word ++ (space ∷ tail) ≡ (word ++ (space ∷ [])) ++ tail
cut_word word tail = sym (append_assoc word (space ∷ []) tail)

first_space :
    (word tail : List ℕ)
    → Lacks space word
    → find_char space 0 (word ++ (space ∷ tail)) ≡ length word
first_space word tail w =
    find_char-append space [] word tail w
    ∙ (let e : 0 + length word ≡ length word = omega arith in e)

-- The second search, in the part behind the first space.
second_search :
    (word tail : List ℕ) (q : ℕ)
    → find_char space (length (word ++ (space ∷ []))) ((word ++ (space ∷ [])) ++ tail) ≡ q
    → find_char space (length word + 1) (word ++ (space ∷ tail)) ≡ q
second_search word tail q e =
    ap (λ l. find_char space (length word + 1) l) (cut_word word tail)
    ∙ ap (λ k. find_char space k ((word ++ (space ∷ [])) ++ tail))
        (let l : length word + 1 ≡ length (word ++ (space ∷ [])) =
            omega (arith, length-append word (space ∷ [])) in
          l)
    ∙ e

-- Of a line that is shorter than any size_t the url is what stands between the first two spaces.
pub get_url-between :
    (word url rest : List ℕ)
    → Lacks space word
    → Lacks space url
    → length word + length url + 2 < npos
    → get_url (word ++ (space ∷ (url ++ (space ∷ rest)))) ≡ some url
get_url-between word url rest w u h =
    let tail = url ++ (space ∷ rest) in
    let front = word ++ (space ∷ []) in
    let n : length front ≡ length word + 1 = omega (arith, length-append word (space ∷ [])) in
    let q = length front + length url in
    get_url_found (word ++ (space ∷ tail)) (length word) q (first_space word tail w) (omega arith)
      (second_search word tail q (find_char-append space front url rest u))
    ∙ ap (substr (length word + 1) (sub_size q (length word + 1))) (cut_word word tail)
    ∙ substr-middle front url (space ∷ rest) (length word + 1) (sub_size q (length word + 1))
        (sym n) (omega arith)

-- Without a second space the rest of the line is the url.
pub get_url-to_end :
    (word url : List ℕ)
    → Lacks space word
    → Lacks space url
    → length word + length url + 2 < npos
    → get_url (word ++ (space ∷ url)) ≡ some url
get_url-to_end word url w u h =
    let front = word ++ (space ∷ []) in
    let n : length front ≡ length word + 1 = omega (arith, length-append word (space ∷ [])) in
    get_url_found (word ++ (space ∷ url)) (length word) npos (first_space word url w) (omega arith)
      (second_search word url npos (find_char-Lacks space front url u))
    ∙ ap (substr (length word + 1) (sub_size npos (length word + 1))) (cut_word word url)
    ∙ substr-rest front url (length word + 1) (sub_size npos (length word + 1)) (sym n)
        (omega arith)
