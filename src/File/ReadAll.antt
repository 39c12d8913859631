-- ===== src/File/ReadAll.antt =====
-- utils/File.cpp, `ReadFileAsString`: it ends, and brings the whole file.
use live_broadcast_server.Common.{
  ℕ, zero, suc, ◌+◌, ◌≤◌, ◌<◌, ◌≡◌, refl, sym, ap, subst, ◌∙◌, Bool, true, false, Option, none,
  some, List, [], ◌∷◌, ◌++◌, append-nil, append_assoc, arith, ltb, if◌then◌else◌, lt→ltb, le→ltb,
  length, take, drop, length-take, length-drop, take-append-drop,
}
use live_broadcast_server.File.{
  Disk, File, o_rdonly, open_mode_to_string, file_at, is_opened, read_in, read, get_file_size,
  bytes_of, after_read, read_rounds, read_file_as_string,
}

-- An open file with `xs` before it.
abbrev opened : List ℕ → List ℕ → List ℕ → ℕ → File
opened path unread written size = record {
  path = path;
  file = some (record { unread = unread; written = written });
  st_size = size;
}

read_rounds_done :
    (fuel size got : ℕ) (f : File) (content : List ℕ)
    → size ≤ got
    → read_rounds fuel size got f content ≡ some (true, content)
unfolding read_rounds
read_rounds_done zero size got f content h = rw (le→ltb got size h)
read_rounds_done (suc fuel) size got f content h = rw (le→ltb got size h)

read_rounds_more :
    (fuel size got : ℕ) (path written content : List ℕ) (x : ℕ) (xs : List ℕ) (st : ℕ)
    → got < size
    → read_rounds (suc fuel) size got (opened path (x ∷ xs) written st) content
      ≡ read_rounds fuel size
          (got + length (take 1024 (x ∷ xs)))
          (opened path (drop 1024 (x ∷ xs)) written st)
          (content ++ take 1024 (x ∷ xs))
unfolding read_rounds read read_in after_read
read_rounds_more fuel size got path written content x xs st h = rw (lt→ltb got size h)

-- With a round for every byte that is left, all is read.
read_rounds-all :
    (fuel size got : ℕ) (path unread written content : List ℕ) (st : ℕ)
    → got + length unread ≡ size
    → length unread ≤ fuel
    → read_rounds fuel size got (opened path unread written st) content
      ≡ some (true, content ++ unread)
read_rounds-all fuel size got path [] written content st e h =
    read_rounds_done fuel size got (opened path [] written st) content (omega arith)
    ∙ ap (λ c. some (true, c)) (sym (append-nil content))
read_rounds-all zero size got path (x ∷ xs) written content st e h = absurd (omega arith)
read_rounds-all (suc fuel) size got path (x ∷ xs) written content st e h =
    let front = take 1024 (x ∷ xs) in
    let back = drop 1024 (x ∷ xs) in
    let lf = length-take 1024 (x ∷ xs) in
    let lb = length-drop 1024 (x ∷ xs) in
    read_rounds_more fuel size got path written content x xs st (omega arith)
    ∙ read_rounds-all fuel size (got + length front) path back written (content ++ front) st
        (omega (arith, lf, lb)) (omega (arith, lf, lb))
    ∙ ap (λ c. some (true, c))
        (append_assoc content front back ∙ ap (λ l. content ++ l) (take-append-drop 1024 (x ∷ xs)))

pub read_file_as_string-whole :
    (disk : Disk) (path content bytes : List ℕ)
    → disk.open_path path (open_mode_to_string o_rdonly) ≡ some bytes
    → disk.size_of path ≡ length bytes
    → read_file_as_string disk path content ≡ some (true, content ++ bytes)
unfolding read_file_as_string file_at get_file_size
read_file_as_string-whole disk path content bytes o z =
    rw (o, z)
      (read_rounds-all (length bytes) (length bytes) 0 path bytes [] content (length bytes)
        (omega arith) (omega arith))

Returns : Option (Bool × List ℕ) → Type 0
Returns o = (r : Bool × List ℕ) × (o ≡ some r)

returned : (r : Bool × List ℕ) → Returns (some r)
unfolding Returns
returned r = (r, refl)

opened_or_not :
    (b : Bool) (o : Option (Bool × List ℕ)) (content : List ℕ)
    → Returns o
    → Returns (if b then o else some (false, content))
opened_or_not true o content h = h
opened_or_not false o content h = returned (false, content)

after_read-Returns :
    (got : Option (List ℕ)) (content : List ℕ) (rest : Option (Bool × List ℕ))
    → (0 < length (bytes_of got) → Returns rest)
    → Returns (after_read got content rest)
unfolding after_read Returns
after_read-Returns none content rest h = ((false, content), refl)
after_read-Returns (some []) content rest h = ((true, content), refl)
after_read-Returns (some (x ∷ xs)) content rest h = h (omega arith)

either-Returns :
    (b : Bool) (o : Option (Bool × List ℕ)) (content : List ℕ)
    → (b ≡ true → Returns o)
    → Returns (if b then o else some (true, content))
unfolding Returns
either-Returns true o content h = h refl
either-Returns false o content h = ((true, content), refl)

read_rounds-Returns :
    (fuel size got : ℕ) (f : File) (content : List ℕ)
    → size ≤ got + fuel
    → Returns (read_rounds fuel size got f content)
unfolding read_rounds
read_rounds-Returns zero size got f content h =
    subst Returns (sym (read_rounds_done zero size got f content (omega arith)))
      (returned (true, content))
read_rounds-Returns (suc fuel) size got f content h =
    let r = read 1024 f in
    let rest = read_rounds fuel size (got + length (bytes_of r.0)) r.1 (content ++ bytes_of r.0) in
    either-Returns (ltb got size) (after_read r.0 content rest) content (λ l.
      after_read-Returns r.0 content rest (λ p.
        read_rounds-Returns fuel size (got + length (bytes_of r.0)) r.1 (content ++ bytes_of r.0)
          (omega arith)))

-- ReadFileAsString returns, for every disk and path, also where stat tells another size than the
-- file has: a round for every byte of that size is enough.
pub read_file_as_string-Returns :
    (disk : Disk) (path content : List ℕ)
    → (r : Bool × List ℕ) × (read_file_as_string disk path content ≡ some r)
unfolding read_file_as_string Returns
read_file_as_string-Returns disk path content =
    let f = file_at disk path o_rdonly in
    let size = get_file_size disk f in
    opened_or_not (is_opened f) (read_rounds size.0 size.0 0 size.1 content) content
      (read_rounds-Returns size.0 size.0 0 size.1 content (omega arith))

pub read_file_as_string-missing :
    (disk : Disk) (path content : List ℕ)
    → disk.open_path path (open_mode_to_string o_rdonly) ≡ none
    → read_file_as_string disk path content ≡ some (false, content)
unfolding read_file_as_string file_at get_file_size
read_file_as_string-missing disk path content o = rw o refl
