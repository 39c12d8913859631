-- ===== src/Format/Path.antt =====
-- utils/Format.cpp, `GetPathFromUrl`: from the url of a publisher to the path that names its stream.
use live_broadcast_server.Common.{
  ℕ, ◌+◌, ◌<◌, ◌≡◌, ◌≢◌, refl, sym, ap, ◌∙◌, true, false, some, List, [], ◌∷◌, ◌++◌, if◌then◌else◌,
  length, arith, add_size, sub_size, append_assoc, length-append, Option-cases, inl, inr,
}
use live_broadcast_server.Text.{npos, find_char, find, last_index_of, substr}
use live_broadcast_server.Text.Find.{
  Lacks, find_char-append, find-twice, last_index_of-append, last_index_of-lt,
}
use live_broadcast_server.Format.{slash, get_path_from_url, trim_path, ends_in_slash}
use live_broadcast_server.Format.Url.{substr-middle, substr-rest}

ends_in_slash-no :
    (xs : List ℕ) (last : ℕ)
    → last ≢ slash
    → length xs < npos
    → ends_in_slash (xs ++ (last ∷ [])) ≡ false
ends_in_slash-no xs last n h = elim (Option-cases (last_index_of slash (xs ++ (last ∷ [])))) [
  | inl e ↦ ground (arith, e, length-append xs (last ∷ []))
  | inr (i, e) ↦
      ground (arith, e, last_index_of-lt slash xs last i n e, length-append xs (last ∷ []))
]

ends_in_slash-yes : (xs : List ℕ) → length xs < npos → ends_in_slash (xs ++ (slash ∷ [])) ≡ true
ends_in_slash-yes xs h =
    ground (arith, last_index_of-append slash xs, length-append xs (slash ∷ []))

trim_plain :
    (path : List ℕ)
    → ends_in_slash (slash ∷ path) ≡ false
    → length path + 1 < npos
    → trim_path (slash ∷ path) ≡ some path
unfolding trim_path
trim_plain path e h =
    ap
      (λ b.
        substr 1
          (sub_size (if b then sub_size (length (slash ∷ path)) 1 else length (slash ∷ path)) 1)
          (slash ∷ path))
      e
    ∙ substr-rest (slash ∷ []) path 1 _ refl (omega arith)

trim_slash :
    (path : List ℕ)
    → ends_in_slash ((slash ∷ path) ++ (slash ∷ [])) ≡ true
    → length path + 2 < npos
    → trim_path ((slash ∷ path) ++ (slash ∷ [])) ≡ some path
unfolding trim_path
trim_slash path e h =
    let whole = (slash ∷ path) ++ (slash ∷ []) in
    ap (λ b. substr 1 (sub_size (if b then sub_size (length whole) 1 else length whole) 1) whole) e
    ∙ substr-middle (slash ∷ []) path (slash ∷ []) 1 _ refl
        (omega (arith, length-append path (slash ∷ [])))

get_path_found :
    (front tail : List ℕ) (i : ℕ)
    → let url = front ++ tail in
      find (slash ∷ slash ∷ []) url ≡ some i
      → find_char slash (add_size i 2) url ≡ length front
      → length tail < npos
      → get_path_from_url url ≡ trim_path tail
unfolding get_path_from_url
get_path_found front tail i first second h =
    ground (arith, first, second, substr-rest front tail (length front) npos refl)

-- The two searches of `GetPathFromUrl`, on `scheme//host` and what follows from the next slash on.
path_of_tail :
    (scheme host tail : List ℕ)
    → Lacks slash scheme
    → Lacks slash host
    → length scheme + length host + 3 < npos
    → length tail + 1 < npos
    → get_path_from_url (scheme ++ (slash ∷ slash ∷ (host ++ (slash ∷ tail))))
      ≡ trim_path (slash ∷ tail)
path_of_tail scheme host tail s h n k =
    let double = slash ∷ slash ∷ [] in
    let front = scheme ++ double in
    let before : length front ≡ length scheme + 2 = omega (arith, length-append scheme double) in
    let whole : length (front ++ host) ≡ length front + length host =
      omega (arith, length-append front host) in
    let url : scheme ++ (slash ∷ slash ∷ (host ++ (slash ∷ tail)))
        ≡ front ++ (host ++ (slash ∷ tail)) =
      sym (append_assoc scheme double (host ++ (slash ∷ tail))) in
    let regroup : front ++ (host ++ (slash ∷ tail)) ≡ (front ++ host) ++ (slash ∷ tail) =
      sym (append_assoc front host (slash ∷ tail)) in
    let at : length front ≡ add_size (length scheme) 2 = omega arith in
    let first = find-twice slash scheme (host ++ (slash ∷ tail)) s in
    let second =
      ap (λ k. find_char slash k (front ++ (host ++ (slash ∷ tail)))) (sym at)
      ∙ find_char-append slash front host tail h
      ∙ sym whole in
    ap get_path_from_url (url ∙ regroup)
    ∙ get_path_found (front ++ host) (slash ∷ tail) (length scheme)
        (ap (find (slash ∷ slash ∷ [])) (sym (url ∙ regroup)) ∙ first)
        (ap (find_char slash (add_size (length scheme) 2)) (sym regroup) ∙ second) (omega arith)

-- A url: scheme and host without a slash, and a path that ends in `last`.
module _ (scheme host init : List ℕ) (last : ℕ) where
  abbrev path : List ℕ
  path = init ++ (last ∷ [])

  -- The path that names a stream is what follows the host, without its first slash, where it does
  -- not end in one.
  pub get_path_from_url-plain :
      Lacks slash scheme
      → Lacks slash host
      → last ≢ slash
      → length scheme + length host + length init + 5 < npos
      → get_path_from_url (scheme ++ (slash ∷ slash ∷ (host ++ (slash ∷ path)))) ≡ some path
  get_path_from_url-plain s h n k =
      path_of_tail scheme host path s h (omega arith)
        (omega (arith, length-append init (last ∷ [])))
      ∙ trim_plain path (ends_in_slash-no (slash ∷ init) last n (omega arith))
          (omega (arith, length-append init (last ∷ [])))

  -- A slash at the end of the url is not part of the path that names a stream.
  pub get_path_from_url-slash :
      Lacks slash scheme
      → Lacks slash host
      → length scheme + length host + length init + 5 < npos
      → get_path_from_url (scheme ++ (slash ∷ slash ∷ (host ++ (slash ∷ (path ++ (slash ∷ []))))))
        ≡ some path
  get_path_from_url-slash s h k =
      path_of_tail scheme host (path ++ (slash ∷ [])) s h (omega arith)
        (omega (arith, length-append init (last ∷ []), length-append path (slash ∷ [])))
      ∙ trim_slash path
          (ends_in_slash-yes (slash ∷ path) (omega (arith, length-append init (last ∷ []))))
          (omega (arith, length-append init (last ∷ [])))
