-- ===== src/Text.antt =====
-- The operations of `std::string` that utils/Format.cpp and utils/codec/RtmpManager.cpp use, on lists
-- of bytes. A position is an `Option ℕ` whose `none` is `npos`, or a `size_t` where it is computed with.
pub mod Find
pub mod Decimal
use live_broadcast_server.Common.{
  ℕ, zero, suc, ◌+◌, ◌-◌, Bool, true, false, Option, none, some, List, [], ◌∷◌, ltb, ◌==◌,
  if◌then◌else◌, length, take, drop, size_mod,
}

abbrev pub npos : ℕ
npos = size_mod - 1

-- `find(c)`
unfoldable pub index_of : ℕ → List ℕ → Option ℕ
index_of c [] = none
index_of c (x ∷ xs) =
    let rest = index_of c xs in
    if x == c then some 0 else elim rest [ none ↦ none | some i ↦ some (suc i) ]

-- `find(c, pos)`, as a `size_t`.
unfoldable pub find_char : ℕ → ℕ → List ℕ → ℕ
unfolding index_of
find_char c pos xs = elim (index_of c (drop pos xs)) [ none ↦ npos | some i ↦ pos + i ]

unfoldable pub starts_with : List ℕ → List ℕ → Bool
starts_with [] ys = true
starts_with (x ∷ xs) [] = false
starts_with (x ∷ xs) (y ∷ ys) = let rest = starts_with xs ys in if x == y then rest else false

-- `find(const char*)`
unfoldable pub find : List ℕ → List ℕ → Option ℕ
unfolding starts_with
find xs [] = if starts_with xs [] then some 0 else none
find xs (y ∷ ys) =
    let rest = find xs ys in
    if starts_with xs (y ∷ ys) then some 0 else elim rest [ none ↦ none | some i ↦ some (suc i) ]

-- `find_last_of(c)`
unfoldable pub last_index_of : ℕ → List ℕ → Option ℕ
last_index_of c [] = none
last_index_of c (x ∷ xs) = elim (last_index_of c xs) [
  | none ↦ (if x == c then some 0 else none)
  | some i ↦ some (suc i)
]

-- `substr(pos, n)`, which throws `out_of_range` (here `none`) past the end.
unfoldable pub substr : ℕ → ℕ → List ℕ → Option (List ℕ)
substr pos n xs = if ltb (length xs) pos then none else some (take n (drop pos xs))

-- `strlen` as a cut: up to the first zero byte.
unfoldable pub c_string : List ℕ → List ℕ
c_string [] = []
c_string (x ∷ xs) = let rest = c_string xs in if x == 0 then [] else x ∷ rest
