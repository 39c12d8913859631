-- ===== src/Text/Find.antt =====
-- What the searches of `Text` find.
use live_broadcast_server.Common.{
  ℕ, zero, suc, ◌+◌, ◌<◌, ◌≡◌, ◌≢◌, refl, none, some, List, [], ◌∷◌, ◌++◌, length, arith,
  drop-append,
}
use live_broadcast_server.Text.{npos, index_of, find_char, starts_with, find, last_index_of}

-- The byte `c` is not among `xs`.
abbrev pub Lacks : ℕ → List ℕ → Type 0
Lacks c [] = Unit {0}
Lacks c (x ∷ xs) = (x ≢ c) × Lacks c xs

index_of-append :
    (c : ℕ) (xs ys : List ℕ) → Lacks c xs → index_of c (xs ++ (c ∷ ys)) ≡ some (length xs)
unfolding index_of
index_of-append c [] ys l = ground arith
index_of-append c (x ∷ xs) ys l = ground (arith, l.0, index_of-append c xs ys l.1)

index_of-Lacks : (c : ℕ) (xs : List ℕ) → Lacks c xs → index_of c xs ≡ none
unfolding index_of
index_of-Lacks c [] l = refl
index_of-Lacks c (x ∷ xs) l = ground (arith, l.0, index_of-Lacks c xs l.1)

pub find_char-append :
    (c : ℕ) (xs ys zs : List ℕ)
    → Lacks c ys
    → find_char c (length xs) (xs ++ (ys ++ (c ∷ zs))) ≡ length xs + length ys
unfolding find_char
find_char-append c xs ys zs l =
    ground (arith, drop-append (length xs) xs (ys ++ (c ∷ zs)) refl, index_of-append c ys zs l)

pub find_char-Lacks :
    (c : ℕ) (xs ys : List ℕ) → Lacks c ys → find_char c (length xs) (xs ++ ys) ≡ npos
unfolding find_char
find_char-Lacks c xs ys l =
    ground (arith, drop-append (length xs) xs ys refl, index_of-Lacks c ys l)

-- The first "cc" stands where the first `c` stands.
pub find-twice :
    (c : ℕ) (xs ys : List ℕ)
    → Lacks c xs
    → find (c ∷ c ∷ []) (xs ++ (c ∷ c ∷ ys)) ≡ some (length xs)
unfolding find starts_with
find-twice c [] ys l = ground arith
find-twice c (x ∷ xs) ys l = ground (arith, l.0, find-twice c xs ys l.1)

last_index_of-Lacks : (c : ℕ) (xs : List ℕ) → Lacks c xs → last_index_of c xs ≡ none
unfolding last_index_of
last_index_of-Lacks c [] l = refl
last_index_of-Lacks c (x ∷ xs) l = ground (arith, l.0, last_index_of-Lacks c xs l.1)

pub last_index_of-append :
    (c : ℕ) (xs : List ℕ) → last_index_of c (xs ++ (c ∷ [])) ≡ some (length xs)
unfolding last_index_of
last_index_of-append c [] = ground arith
last_index_of-append c (x ∷ xs) = ground (arith, last_index_of-append c xs)

-- The last `c` of a text that ends in another byte is not its last byte.
pub last_index_of-lt :
    (c : ℕ) (xs : List ℕ) (y i : ℕ)
    → y ≢ c
    → last_index_of c (xs ++ (y ∷ [])) ≡ some i
    → i < length xs
unfolding last_index_of
last_index_of-lt c [] y i n e = ground arith
last_index_of-lt c (x ∷ xs) y zero n e = omega arith
last_index_of-lt c (x ∷ xs) y (suc i) n e =
    let r = last_index_of-lt c xs y i n (ground arith) in omega arith

Lacks-cut : (c : ℕ) (us ys vs : List ℕ) → Lacks c us → us ≢ ys ++ (c ∷ vs)
Lacks-cut c [] [] vs l e = cc
Lacks-cut c [] (y ∷ ys) vs l e = cc
Lacks-cut c (u ∷ us) [] vs l e = l.0 (cc)
Lacks-cut c (u ∷ us) (y ∷ ys) vs l e = Lacks-cut c us ys vs l.1 (cc)

-- What follows the last `c` is determined.
pub split_last :
    (c : ℕ) (xs ys us vs : List ℕ)
    → Lacks c us
    → Lacks c vs
    → xs ++ (c ∷ us) ≡ ys ++ (c ∷ vs)
    → us ≡ vs
split_last c [] [] us vs l m e = cc
split_last c [] (y ∷ ys) us vs l m e = absurd (Lacks-cut c us ys vs l (cc))
split_last c (x ∷ xs) [] us vs l m e = absurd (Lacks-cut c vs xs us m (cc))
split_last c (x ∷ xs) (y ∷ ys) us vs l m e = split_last c xs ys us vs l m (cc)
