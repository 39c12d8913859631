-- ===== src/Format/Hex.antt =====
-- utils/Format.cpp, `ToHexString`, against a reader of chunk sizes as RFC 9112 describes them.
use live_broadcast_server.Common.{
  ℕ, zero, suc, ◌+◌, ◌-◌, ◌*◌, ◌/◌, ◌%◌, ◌≤◌, ◌<◌, ◌≡◌, refl, ap, ◌∙◌, ◌&&◌, Option, none, some,
  List, [], ◌∷◌, ◌++◌, ltb, leb, ◌==◌, if◌then◌else◌, arith, size_mod, append_assoc, Bool-cases,
  inl, inr, lt→ltb, le→ltb,
}
use native.Mathlib.Decide.{dec_lt}
use live_broadcast_server.Format.{
  hex_digit, hex_digits, to_hex_string, to_hex_string_with_crlf, crlf,
}

-- The value of a hexadecimal digit.
abbrev digit_value : ℕ → Option ℕ
digit_value c =
    if leb b'0' c && leb c b'9'
    then some (c - b'0')
    else if leb b'a' c && leb c b'f'
    then some (c - b'a' + 10)
    else none

-- The line's end, CR LF, behind the digits.
abbrev line_end : ℕ → ℕ → List ℕ → Option (ℕ × List ℕ)
line_end acc c [] = none
line_end acc c (d ∷ cs) = if c == 13 && d == 10 then some (acc, cs) else none

-- A number up to the end of its line, and what follows.
unfoldable pub read_size : ℕ → List ℕ → Option (ℕ × List ℕ)
read_size acc [] = none
read_size acc (c ∷ cs) = elim (digit_value c) [
  | none ↦ line_end acc c cs
  | some v ↦ read_size (acc * 16 + v) cs
]

digit_value-hex_digit : (d : ℕ) → d < 16 → digit_value (hex_digit d) ≡ some d
digit_value-hex_digit d h = ground arith

read_size-hex_digit :
    (acc d : ℕ) (cs : List ℕ)
    → d < 16
    → read_size acc (hex_digit d ∷ cs) ≡ read_size (acc * 16 + d) cs
unfolding read_size
read_size-hex_digit acc d cs h = ground (arith, digit_value-hex_digit d h)

-- Numbers of at most `k` digits.
abbrev pow16 : ℕ → ℕ
pow16 zero = 1
pow16 (suc k) = 16 * pow16 k

-- The last digit is written alone, any other behind those before it.
hex_digits-last : (k n : ℕ) (acc : List ℕ) → n < 16 → hex_digits (suc k) n acc ≡ hex_digit n ∷ acc
unfolding hex_digits
hex_digits-last k n acc h = rw (lt→ltb n 16 h)

hex_digits-more :
    (k n : ℕ) (acc : List ℕ)
    → 16 ≤ n
    → hex_digits (suc k) n acc ≡ hex_digits k (n / 16) (hex_digit (n % 16) ∷ acc)
unfolding hex_digits
hex_digits-more k n acc h = rw (le→ltb n 16 h)

positive : (k n : ℕ) → 16 ≤ n → n < pow16 (suc k) → 0 < k
positive zero n h l = absurd (omega arith)
positive (suc k) n h l = omega arith

-- What stands behind the digits stays behind them.
hex_digits-append :
    (k n : ℕ) (acc rest : List ℕ) → hex_digits k n acc ++ rest ≡ hex_digits k n (acc ++ rest)
unfolding hex_digits
hex_digits-append zero n acc rest = refl
hex_digits-append (suc k) n acc rest = elim (Bool-cases (ltb n 16)) [
  | inl e ↦ rw e
  | inr e ↦ rw e (hex_digits-append k (n / 16) (hex_digit (n % 16) ∷ acc) rest)
]

read_size-hex_digits :
    (k n : ℕ) (cs : List ℕ) → n < pow16 k → 0 < k → read_size 0 (hex_digits k n cs) ≡ read_size n cs
read_size-hex_digits zero n cs h p = absurd (omega arith)
read_size-hex_digits (suc k) n cs h p = elim (dec_lt n 16) [
  | yes s ↦ rw (hex_digits-last k n cs s) (
      read_size-hex_digit 0 n cs s
      ∙ ap (λ v. read_size v cs) (let e : 0 * 16 + n ≡ n = omega arith in e))
  | no b ↦ rw (hex_digits-more k n cs (omega arith)) (
      read_size-hex_digits k (n / 16) (hex_digit (n % 16) ∷ cs) (omega arith)
        (positive k n (omega arith) h)
      ∙ read_size-hex_digit (n / 16) (n % 16) cs (omega arith)
      ∙ ap (λ v. read_size v cs) (let e : n / 16 * 16 + n % 16 ≡ n = omega arith in e))
]

read_size-crlf : (n : ℕ) (rest : List ℕ) → read_size n (crlf ++ rest) ≡ some (n, rest)
unfolding read_size
read_size-crlf n rest = refl

-- A chunk size line reads back as the number that was written, one that a size_t holds, whatever
-- follows it.
pub read_size-to_hex_string_with_crlf :
    (n : ℕ) (rest : List ℕ)
    → n < size_mod
    → read_size 0 (to_hex_string_with_crlf n ++ rest) ≡ some (n, rest)
unfolding to_hex_string_with_crlf
read_size-to_hex_string_with_crlf n rest h =
    ap (read_size 0)
      (append_assoc (to_hex_string n) crlf rest ∙ hex_digits-append 16 n [] (crlf ++ rest))
    ∙ read_size-hex_digits 16 n (crlf ++ rest) (omega arith) (omega arith)
    ∙ read_size-crlf n rest
