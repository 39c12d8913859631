-- ===== src/Text/Decimal.antt =====
-- `std::to_string` of a number that a `size_t` holds, also `%d` of a number that is not negative,
-- against a reader of decimal numbers.
use live_broadcast_server.Common.{
  ℕ, zero, suc, ◌+◌, ◌-◌, ◌*◌, ◌/◌, ◌%◌, ◌≤◌, ◌<◌, ◌≡◌, refl, sym, ap, ◌∙◌, inl, inr, Bool, true,
  ◌&&◌, List, [], ◌∷◌, ◌++◌, arith, ltb, leb, if◌then◌else◌, false, ltb→lt, lt→ltb, le→ltb,
  Bool-cases, length, size_mod,
}
use native.Mathlib.Decide.{dec_lt}
use live_broadcast_server.Text.Find.{Lacks}

abbrev pub digit : ℕ → ℕ
digit d = b'0' + d

-- The digits of `n` in front of those written already; a `size_t` has 20 at most.
unfoldable pub digits : ℕ → ℕ → List ℕ → List ℕ
digits zero n acc = acc
digits (suc fuel) n acc =
    let rest = digits fuel (n / 10) (digit (n % 10) ∷ acc) in
    if ltb n 10 then digit n ∷ acc else rest

unfoldable pub to_string : ℕ → List ℕ
unfolding digits
to_string n = digits 20 n []

abbrev pub is_digit : ℕ → Bool
is_digit c = leb b'0' c && leb c b'9'

-- The number that the digits in front make, and what follows them.
pub read_number : ℕ → List ℕ → ℕ × List ℕ
read_number acc [] = (acc, [])
read_number acc (c ∷ cs) =
    let rest = read_number (acc * 10 + (c - b'0')) cs in if is_digit c then rest else (acc, c ∷ cs)

is_digit-digit : (d : ℕ) → d < 10 → is_digit (digit d) ≡ true
is_digit-digit d h = ground arith

read_number-digit :
    (acc d : ℕ) (cs : List ℕ)
    → d < 10
    → read_number acc (digit d ∷ cs) ≡ read_number (acc * 10 + d) cs
unfolding read_number
read_number-digit acc d cs h =
    rw (is_digit-digit d h)
      (ap (λ v. read_number (acc * 10 + v) cs) (let e : digit d - b'0' ≡ d = omega arith in e))

-- Numbers of at most `k` digits.
abbrev pub pow10 : ℕ → ℕ
pow10 zero = 1
pow10 (suc k) = 10 * pow10 k

digits-last : (k n : ℕ) (acc : List ℕ) → n < 10 → digits (suc k) n acc ≡ digit n ∷ acc
unfolding digits
digits-last k n acc h = rw (lt→ltb n 10 h)

digits-more :
    (k n : ℕ) (acc : List ℕ)
    → 10 ≤ n
    → digits (suc k) n acc ≡ digits k (n / 10) (digit (n % 10) ∷ acc)
unfolding digits
digits-more k n acc h = rw (le→ltb n 10 h)

positive : (k n : ℕ) → 10 ≤ n → n < pow10 (suc k) → 0 < k
positive zero n h l = absurd (omega arith)
positive (suc k) n h l = omega arith

digits-append : (k n : ℕ) (acc rest : List ℕ) → digits k n acc ++ rest ≡ digits k n (acc ++ rest)
unfolding digits
digits-append zero n acc rest = refl
digits-append (suc k) n acc rest = elim (Bool-cases (ltb n 10)) [
  | inl e ↦ rw e
  | inr e ↦ rw e (digits-append k (n / 10) (digit (n % 10) ∷ acc) rest)
]

read_number-digits :
    (k n : ℕ) (cs : List ℕ) → n < pow10 k → 0 < k → read_number 0 (digits k n cs) ≡ read_number n cs
read_number-digits zero n cs h p = absurd (omega arith)
read_number-digits (suc k) n cs h p = elim (dec_lt n 10) [
  | yes s ↦ rw (digits-last k n cs s) (
      read_number-digit 0 n cs s
      ∙ ap (λ v. read_number v cs) (let e : 0 * 10 + n ≡ n = omega arith in e))
  | no b ↦ rw (digits-more k n cs (omega arith)) (
      read_number-digits k (n / 10) (digit (n % 10) ∷ cs) (omega arith)
        (positive k n (omega arith) h)
      ∙ read_number-digit (n / 10) (n % 10) cs (omega arith)
      ∙ ap (λ v. read_number v cs) (let e : n / 10 * 10 + n % 10 ≡ n = omega arith in e))
]

-- A number behind which no digit stands reads back.
pub read_number-to_string :
    (n : ℕ) (rest : List ℕ)
    → n < size_mod
    → read_number 0 (to_string n ++ rest) ≡ read_number n rest
unfolding to_string
read_number-to_string n rest h =
    ap (read_number 0) (digits-append 20 n [] rest)
    ∙ read_number-digits 20 n rest (omega arith) (omega arith)

pub read_number-nil : (n : ℕ) → read_number n [] ≡ (n, [])
unfolding read_number
read_number-nil n = refl

pub to_string_injective :
    (m n : ℕ) → m < size_mod → n < size_mod → to_string m ≡ to_string n → m ≡ n
to_string_injective m n a b e =
    let back : (k : ℕ) → k < size_mod → (read_number 0 (to_string k ++ [])).0 ≡ k =
      λ k h. ap (λ r. r.0) (read_number-to_string k [] h ∙ read_number-nil k) in
    sym (back m a) ∙ ap (λ s. (read_number 0 (s ++ [])).0) e ∙ back n b

-- `k` digits are enough for a number below 10 ^ k.
length-digits :
    (k n b : ℕ) (acc : List ℕ)
    → n < pow10 b
    → 0 < b
    → b ≤ k
    → length (digits k n acc) ≤ b + length acc
length-digits zero n b acc h p l = absurd (omega arith)
length-digits (suc k) n zero acc h p l = absurd (omega arith)
length-digits (suc k) n (suc b) acc h p l = elim (dec_lt n 10) [
  | yes s ↦ rw (digits-last k n acc s) (omega arith)
  | no g ↦ rw (digits-more k n acc (omega arith)) (
      let r =
        length-digits k (n / 10) b (digit (n % 10) ∷ acc) (omega arith)
          (positive b n (omega arith) h) (omega arith) in
      omega (arith, r))
]

pub length-to_string : (n b : ℕ) → n < pow10 b → 0 < b → b ≤ 20 → length (to_string n) ≤ b
unfolding to_string
length-to_string n b h p l = omega (arith, length-digits 20 n b [] h p l)

-- Every byte of the digits is a digit.
data AllDigits : List ℕ → Type 0 where
  no_digits : AllDigits []
  one_digit : {c : ℕ} {cs : List ℕ} → is_digit c ≡ true → AllDigits cs → AllDigits (c ∷ cs)

digits-AllDigits : (k n : ℕ) (acc : List ℕ) → AllDigits acc → AllDigits (digits k n acc)
unfolding digits
digits-AllDigits zero n acc a = a
digits-AllDigits (suc k) n acc a = elim (Bool-cases (ltb n 10)) [
  | inl e ↦ rw e (one_digit (is_digit-digit n (ltb→lt n 10 e)) a)
  | inr e ↦ rw e (
      digits-AllDigits k (n / 10) (digit (n % 10) ∷ acc)
        (one_digit (is_digit-digit (n % 10) (omega arith)) a))
]

to_string-AllDigits : (n : ℕ) → AllDigits (to_string n)
unfolding to_string
to_string-AllDigits n = digits-AllDigits 20 n [] no_digits

AllDigits-Lacks : (c : ℕ) (xs : List ℕ) → is_digit c ≡ false → AllDigits xs → Lacks c xs
AllDigits-Lacks c [] n a = tt
AllDigits-Lacks c (x ∷ xs) n (one_digit d a) =
    (λ e. let p : is_digit x ≡ false = ap is_digit e ∙ n in cc, AllDigits-Lacks c xs n a)

-- A byte that is no digit does not stand in a number.
pub to_string-Lacks : (c n : ℕ) → is_digit c ≡ false → Lacks c (to_string n)
to_string-Lacks c n h = AllDigits-Lacks c (to_string n) h (to_string-AllDigits n)

pub read_number-stop :
    (n c : ℕ) (cs : List ℕ) → is_digit c ≡ false → read_number n (c ∷ cs) ≡ (n, c ∷ cs)
unfolding read_number
read_number-stop n c cs h = rw h
