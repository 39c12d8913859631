-- ===== src/Common/Names.antt =====
-- `std::string` as a key, and `std::map` from it: an association list in the order of the keys.
use Prim.Native.Nat.{ℕ}
use mathlib.Core.Path.{◌≡◌, refl, ap, ap₂, sym, ◌∙◌}
use mathlib.Core.Logic.{◌≢◌, ◌⊎◌, inl, inr}
use mathlib.Core.List.{List, [], ◌∷◌}
use mathlib.Core.Option.{Option, none, some}
use native.Mathlib.Omega.{arith}
use live_broadcast_server.Common.Tests.{ltb, if◌then◌else◌, ltb→le, Bool-cases}

pub data Comparison : Type 0 where
  less same more : Comparison

abbrev pub by_order {ℓ} : {A : Type ℓ} → Comparison → A → A → A → A
by_order less a b c = a
by_order same a b c = b
by_order more a b c = c

-- Lexicographic, as `std::string::compare`.
unfoldable pub compare_names : List ℕ → List ℕ → Comparison
compare_names [] [] = same
compare_names [] (y ∷ ys) = less
compare_names (x ∷ xs) [] = more
compare_names (x ∷ xs) (y ∷ ys) =
    let rest = compare_names xs ys in if ltb x y then less else if ltb y x then more else rest

pub Comparison-cases : (c : Comparison) → (c ≡ same) ⊎ (c ≡ less) ⊎ (c ≡ more)
Comparison-cases same = inl refl
Comparison-cases less = inr (inl refl)
Comparison-cases more = inr (inr refl)

not_same : (c : Comparison) → (c ≡ less) ⊎ (c ≡ more) → c ≢ same
not_same c (inl l) s = cc
not_same c (inr g) s = cc

pub compare_names_refl : (xs : List ℕ) → compare_names xs xs ≡ same
unfolding compare_names
compare_names_refl [] = refl
compare_names_refl (x ∷ xs) = ground (arith, compare_names_refl xs)

pub compare_names-eq : (xs ys : List ℕ) → compare_names xs ys ≡ same → xs ≡ ys
unfolding compare_names
compare_names-eq [] [] e = refl
compare_names-eq [] (y ∷ ys) e = absurd (cc)
compare_names-eq (x ∷ xs) [] e = absurd (cc)
compare_names-eq (x ∷ xs) (y ∷ ys) e = elim (Bool-cases (ltb x y)) [
  | inl l ↦ absurd (ground arith)
  | inr l ↦ elim (Bool-cases (ltb y x)) [
    | inl g ↦ absurd (ground arith)
    | inr g ↦
        ap₂ (λ a l. a ∷ l) (let p : x ≡ y = omega (arith, ltb→le x y l, ltb→le y x g) in p)
          (compare_names-eq xs ys (ground arith))
  ]
]

pub eq_or_ne : (xs ys : List ℕ) → (xs ≡ ys) ⊎ (xs ≢ ys)
eq_or_ne xs ys = elim (Comparison-cases (compare_names xs ys)) [
  | inl s ↦ inl (compare_names-eq xs ys s)
  | inr o ↦ inr λ e. not_same _ o (ap (λ z. compare_names xs z) (sym e) ∙ compare_names_refl xs)
]

-- `std::map<std::string, V>`
abbrev pub Map {ℓ} : Type ℓ → Type ℓ
Map V = List (List ℕ × V)

-- `m.find(k)`
unfoldable pub find_key {ℓ} : {V : Type ℓ} → List ℕ → Map V → Option V
find_key k [] = none
find_key k (e ∷ m) = let rest = find_key k m in by_order (compare_names k e.0) rest (some e.1) rest

-- `m[k] = v`
unfoldable pub put {ℓ} : {V : Type ℓ} → List ℕ → V → Map V → Map V
put k v [] = (k, v) ∷ []
put k v (e ∷ m) =
    let rest = put k v m in by_order (compare_names k e.0) ((k, v) ∷ e ∷ m) ((k, v) ∷ m) (e ∷ rest)

-- `m.erase(k)`
pub erase {ℓ} : {V : Type ℓ} → List ℕ → Map V → Map V
erase k [] = []
erase k (e ∷ m) = let rest = erase k m in by_order (compare_names k e.0) (e ∷ rest) rest (e ∷ rest)

module _ {ℓ} {V : Type ℓ} where
  pub find_key-nil : (k : List ℕ) → find_key k (let m : Map V = [] in m) ≡ none
  unfolding find_key
  find_key-nil k = refl

  find_key-hit :
      (k : List ℕ) (e : List ℕ × V) (m : Map V)
      → compare_names k e.0 ≡ same
      → find_key k (e ∷ m) ≡ some e.1
  unfolding find_key
  find_key-hit k e m h = rw h

  find_key-miss :
      (k : List ℕ) (e : List ℕ × V) (m : Map V)
      → compare_names k e.0 ≢ same
      → find_key k (e ∷ m) ≡ find_key k m
  unfolding find_key
  find_key-miss k e m h = elim (Comparison-cases (compare_names k e.0)) [
    | inl s ↦ absurd (h s)
    | inr (inl l) ↦ rw l
    | inr (inr l) ↦ rw l
  ]

  pub find_key-put : (k : List ℕ) (v : V) (m : Map V) → find_key k (put k v m) ≡ some v
  unfolding put
  find_key-put k v [] = find_key-hit k (k, v) [] (compare_names_refl k)
  find_key-put k v (e ∷ m) = elim (Comparison-cases (compare_names k e.0)) [
    | inl s ↦ rw s (find_key-hit k (k, v) m (compare_names_refl k))
    | inr (inl l) ↦ rw l (find_key-hit k (k, v) (e ∷ m) (compare_names_refl k))
    | inr (inr g) ↦ rw g (find_key-miss k e (put k v m) (λ s. cc) ∙ find_key-put k v m)
  ]

  pub find_key-put_other :
      (j k : List ℕ) (v : V) (m : Map V) → j ≢ k → find_key j (put k v m) ≡ find_key j m
  unfolding put
  find_key-put_other j k v [] n = find_key-miss j (k, v) [] (λ s. n (compare_names-eq j k s))
  find_key-put_other j k v (e ∷ m) n = elim (Comparison-cases (compare_names k e.0)) [
    | inl s ↦ rw s (
        find_key-miss j (k, v) m (λ t. n (compare_names-eq j k t))
        ∙ sym (
            find_key-miss j e m
              (λ t. n (compare_names-eq j e.0 t ∙ sym (compare_names-eq k e.0 s)))))
    | inr (inl l) ↦ rw l (find_key-miss j (k, v) (e ∷ m) (λ t. n (compare_names-eq j k t)))
    | inr (inr g) ↦ rw g (elim (Comparison-cases (compare_names j e.0)) [
      | inl s ↦ find_key-hit j e (put k v m) s ∙ sym (find_key-hit j e m s)
      | inr o ↦
          find_key-miss j e (put k v m) (not_same _ o)
          ∙ find_key-put_other j k v m n
          ∙ sym (find_key-miss j e m (not_same _ o))
    ])
  ]

  pub find_key-erase : (k : List ℕ) (m : Map V) → find_key k (erase k m) ≡ none
  unfolding erase
  find_key-erase k [] = find_key-nil k
  find_key-erase k (e ∷ m) = elim (Comparison-cases (compare_names k e.0)) [
    | inl s ↦ rw s (find_key-erase k m)
    | inr (inl l) ↦ rw l (find_key-miss k e (erase k m) (λ s. cc) ∙ find_key-erase k m)
    | inr (inr g) ↦ rw g (find_key-miss k e (erase k m) (λ s. cc) ∙ find_key-erase k m)
  ]

  find_key-cons :
      (j : List ℕ) (e : List ℕ × V) (m n : Map V)
      → find_key j m ≡ find_key j n
      → find_key j (e ∷ m) ≡ find_key j (e ∷ n)
  unfolding find_key
  find_key-cons j e m n h = rw h

  pub find_key-erase_other :
      (j k : List ℕ) (m : Map V) → j ≢ k → find_key j (erase k m) ≡ find_key j m
  unfolding erase
  find_key-erase_other j k [] n = refl
  find_key-erase_other j k (e ∷ m) n = elim (Comparison-cases (compare_names k e.0)) [
    | inl s ↦ rw s (
        find_key-erase_other j k m n
        ∙ sym (
            find_key-miss j e m
              (λ t. n (compare_names-eq j e.0 t ∙ sym (compare_names-eq k e.0 s)))))
    | inr (inl l) ↦ rw l (find_key-cons j e (erase k m) m (find_key-erase_other j k m n))
    | inr (inr g) ↦ rw g (find_key-cons j e (erase k m) m (find_key-erase_other j k m n))
  ]

-- Every value changed by its key and itself, with what each change puts out.
pub each {ℓ} : {V S : Type ℓ} → (List ℕ → V → V × S) → Map V → Map V × List (List ℕ × S)
each f [] = ([], [])
each f (e ∷ m) =
    let rest = each f m in ((e.0, (f e.0 e.1).0) ∷ rest.0, (e.0, (f e.0 e.1).1) ∷ rest.1)

-- What a function makes of the value found.
abbrev pub found {ℓ} : {V W : Type ℓ} → (V → W) → Option V → Option W
found f none = none
found f (some v) = some (f v)

module _ {ℓ} {V S : Type ℓ} (f : List ℕ → V → V × S) where
  -- A key finds its own value changed.
  pub find_key-each :
      (k : List ℕ) (m : Map V) → find_key k (each f m).0 ≡ found (λ v. (f k v).0) (find_key k m)
  unfolding each
  find_key-each k [] = find_key-nil k ∙ ap (found (λ v. (f k v).0)) (sym (find_key-nil k))
  find_key-each k (e ∷ m) = elim (Comparison-cases (compare_names k e.0)) [
    | inl s ↦
        find_key-hit k (e.0, (f e.0 e.1).0) (each f m).0 s
        ∙ ap (λ n. some (f n e.1).0) (sym (compare_names-eq k e.0 s))
        ∙ sym (ap (found (λ v. (f k v).0)) (find_key-hit k e m s))
    | inr o ↦
        find_key-miss k (e.0, (f e.0 e.1).0) (each f m).0 (not_same _ o)
        ∙ find_key-each k m
        ∙ sym (ap (found (λ v. (f k v).0)) (find_key-miss k e m (not_same _ o)))
  ]

  -- What is put out stands under the key that put it out.
  pub find_key-each_out :
      (k : List ℕ) (m : Map V) → find_key k (each f m).1 ≡ found (λ v. (f k v).1) (find_key k m)
  unfolding each
  find_key-each_out k [] = find_key-nil k ∙ ap (found (λ v. (f k v).1)) (sym (find_key-nil k))
  find_key-each_out k (e ∷ m) = elim (Comparison-cases (compare_names k e.0)) [
    | inl s ↦
        find_key-hit k (e.0, (f e.0 e.1).1) (each f m).1 s
        ∙ ap (λ n. some (f n e.1).1) (sym (compare_names-eq k e.0 s))
        ∙ sym (ap (found (λ v. (f k v).1)) (find_key-hit k e m s))
    | inr o ↦
        find_key-miss k (e.0, (f e.0 e.1).1) (each f m).1 (not_same _ o)
        ∙ find_key-each_out k m
        ∙ sym (ap (found (λ v. (f k v).1)) (find_key-miss k e m (not_same _ o)))
  ]
