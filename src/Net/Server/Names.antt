-- ===== src/Net/Server/Names.antt =====
-- network/TcpServer.cpp and TcpClient.cpp: the name of a connection, written through 64 bytes.
use live_broadcast_server.Common.{
  ℕ, ◌^◌, ◌≤◌, ◌<◌, ◌≡◌, refl, sym, ap, ◌∙◌, false, List, ◌∷◌, ◌++◌, append-cancel, arith, length,
  length-append, take_all,
}
use live_broadcast_server.Text.Decimal.{
  to_string, to_string_injective, length-to_string, to_string-Lacks, is_digit,
}
use live_broadcast_server.Text.Find.{split_last}
use live_broadcast_server.Net.Address.{InetAddress, IsAddress, to_ip_port, length-to_ip_port}
use live_broadcast_server.Net.Server.{suffix, name_of}

-- An `int` that is not negative.
abbrev pub max_int : ℕ
max_int = 2 ^ 31

length-suffix : (a : InetAddress) (id : ℕ) → IsAddress a → id < max_int → length (suffix a id) ≤ 58
length-suffix a id v h = omega (
  arith,
  length-append (to_ip_port a) (b'#' ∷ to_string id),
  length-to_ip_port a v,
  length-to_string id 10 (omega arith) (omega arith) (omega arith),
)

-- The array of 64 bytes that a connection's name is written through cuts nothing off, for every
-- address of either family and every number that an int holds.
pub name_of-whole :
    (name : List ℕ) (a : InetAddress) (id : ℕ)
    → IsAddress a
    → id < max_int
    → name_of name a id ≡ name ++ ((b'-' ∷ to_ip_port a) ++ (b'#' ∷ to_string id))
unfolding name_of
name_of-whole name a id v h =
    ap (λ t. name ++ t) (take_all 63 (suffix a id) (omega (arith, length-suffix a id v h)))

hash_no_digit : is_digit b'#' ≡ false
hash_no_digit = refl

-- A name tells the number of the connection, whatever the addresses.
pub name_of_injective :
    (name : List ℕ) (a b : InetAddress) (i j : ℕ)
    → IsAddress a
    → IsAddress b
    → i < max_int
    → j < max_int
    → name_of name a i ≡ name_of name b j
    → i ≡ j
name_of_injective name a b i j v w h k e =
    let whole = sym (name_of-whole name a i v h) ∙ e ∙ name_of-whole name b j w k in
    let tails = append-cancel name _ _ whole in
    to_string_injective i j (omega arith) (omega arith) (
      split_last b'#' (b'-' ∷ to_ip_port a) (b'-' ∷ to_ip_port b) (to_string i) (to_string j)
        (to_string-Lacks b'#' i hash_no_digit) (to_string-Lacks b'#' j hash_no_digit) tails)
