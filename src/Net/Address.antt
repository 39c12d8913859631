-- ===== src/Net/Address.antt =====
-- network/InetAddress.cpp: the text of an address. `inet_ntop` is an argument, the text it gives, with
-- no more than 39 characters: eight groups of four digits.
use live_broadcast_server.Common.{
  ℕ, ◌+◌, ◌-◌, ◌^◌, ◌≤◌, ◌<◌, ◌≡◌, refl, sym, ap, ◌∙◌, ◌≢◌, inl, inr, List, [], ◌∷◌, ◌++◌,
  append-nil, append_assoc, arith, ltb, if◌then◌else◌, lt→ltb, Bool-cases, length, take, drop,
  length-append, take_all, drop-append,
}
use live_broadcast_server.Text.Decimal.{
  to_string, read_number, read_number-to_string, length-to_string, read_number-nil,
}

-- `snprintf` into an array of `size` bytes: the text, or as much as fits with its zero byte.
abbrev pub snprintf : ℕ → List ℕ → List ℕ
snprintf size text = take (size - 1) text

-- `%hd` of a port: the sixteen bits as a signed number.
abbrev pub short_decimal : ℕ → List ℕ
short_decimal port = if ltb port (2 ^ 15) then to_string port else b'-' ∷ to_string (2 ^ 16 - port)

pub data Family : Type 0 where
  af_inet af_inet6 unspecified : Family

pub record InetAddress : Type 0 where
  pub family : Family
  pub ip : List ℕ
  pub port : ℕ

abbrev ip_port_text : List ℕ → ℕ → List ℕ
ip_port_text ip port = ip ++ snprintf (64 - length ip) (b':' ∷ short_decimal port)

unfoldable pub text_in : Family → List ℕ → ℕ → List ℕ
text_in af_inet ip port = ip_port_text ip port
text_in af_inet6 ip port = ip_port_text ip port
text_in unspecified ip port = []

unfoldable pub to_ip_port : InetAddress → List ℕ
unfolding text_in
to_ip_port a = text_in a.family a.ip a.port

-- The port is behind the ip and a colon.
abbrev port_of : InetAddress → ℕ × List ℕ
port_of a = read_number 0 (drop (length a.ip + 1) (to_ip_port a))

short_decimal-length : (port : ℕ) → port < 2 ^ 16 → length (short_decimal port) ≤ 6
short_decimal-length port h = elim (Bool-cases (ltb port (2 ^ 15))) [
  | inl e ↦ rw e (omega (arith, length-to_string port 5 (omega arith) (omega arith) (omega arith)))
  | inr e ↦
      rw e (
        omega (arith, length-to_string (2 ^ 16 - port) 5 (omega arith) (omega arith) (omega arith)))
]

-- With an ip of at most 39 characters nothing is cut off.
ip_port_text-whole :
    (ip : List ℕ) (port : ℕ)
    → length ip ≤ 39
    → port < 2 ^ 16
    → ip_port_text ip port ≡ ip ++ (b':' ∷ short_decimal port)
ip_port_text-whole ip port h p =
    ap (λ t. ip ++ t)
      (take_all (64 - length ip - 1) (b':' ∷ short_decimal port)
        (omega (arith, short_decimal-length port p)))

-- An address in use, of either family.
pub record IsAddress (a : InetAddress) : Type 0 where
  pub has_family : a.family ≢ unspecified
  pub ip_fits : length a.ip ≤ 39
  pub port_fits : a.port < 2 ^ 16

text_in-whole :
    (f : Family) (ip : List ℕ) (port : ℕ)
    → f ≢ unspecified
    → length ip ≤ 39
    → port < 2 ^ 16
    → text_in f ip port ≡ ip ++ (b':' ∷ short_decimal port)
unfolding text_in
text_in-whole af_inet ip port n h p = ip_port_text-whole ip port h p
text_in-whole af_inet6 ip port n h p = ip_port_text-whole ip port h p
text_in-whole unspecified ip port n h p = absurd (n refl)

to_ip_port-whole :
    (a : InetAddress) → IsAddress a → to_ip_port a ≡ a.ip ++ (b':' ∷ short_decimal a.port)
unfolding to_ip_port
to_ip_port-whole a v = text_in-whole a.family a.ip a.port v.has_family v.ip_fits v.port_fits

pub length-to_ip_port : (a : InetAddress) → IsAddress a → length (to_ip_port a) ≤ 46
length-to_ip_port a v = rw (to_ip_port-whole a v) (
    omega (
      arith,
      length-append a.ip (b':' ∷ short_decimal a.port),
      v.ip_fits,
      short_decimal-length a.port v.port_fits,
    ))

pub to_ip_port-port : (a : InetAddress) → IsAddress a → a.port < 2 ^ 15 → port_of a ≡ (a.port, [])
to_ip_port-port a v h =
    let front = a.ip ++ (b':' ∷ []) in
    let n : length a.ip + 1 ≡ length front = omega (arith, length-append a.ip (b':' ∷ [])) in
    ap (λ t. read_number 0 (drop (length a.ip + 1) t))
      (to_ip_port-whole a v ∙ sym (append_assoc a.ip (b':' ∷ []) (short_decimal a.port)))
    ∙ ap (read_number 0) (drop-append (length a.ip + 1) front (short_decimal a.port) n)
    ∙ rw (lt→ltb a.port (2 ^ 15) h) (
        ap (read_number 0) (sym (append-nil (to_string a.port)))
        ∙ read_number-to_string a.port [] (omega arith)
        ∙ read_number-nil a.port)
