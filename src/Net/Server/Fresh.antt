-- ===== src/Net/Server/Fresh.antt =====
-- network/TcpServer.cpp: whatever connections come and go, no two have one name.
use live_broadcast_server.Common.{
  ℕ, ◌+◌, ◌%◌, ◌<◌, ◌≡◌, refl, sym, ap, ◌∙◌, inl, inr, Option, none, some, List, [], arith,
  Option-cases,
}
use live_broadcast_server.Common.Names.{
  found, Map, find_key, put, erase, find_key-put, find_key-put_other, find_key-erase,
  find_key-erase_other, find_key-nil, eq_or_ne,
}
use live_broadcast_server.Net.Address.{InetAddress, IsAddress}
use live_broadcast_server.Net.Loops.{
  after_calls, after_calls-zero, after_calls-suc, started, get_next_loop, get_next_loop-round,
}
use live_broadcast_server.Net.Server.Names.{max_int, name_of_injective}
use live_broadcast_server.Net.Server.{
  Accepted, TcpServer, name_of, new_server, set_thread_num, start, on_new_connection,
  on_close_connection,
}

-- A server with the threads `thread`, and what comes to it.
pub data Reach (name : List ℕ) (thread : ℕ → ℕ) (loop n : ℕ) : TcpServer → Type 0 where
  starts : Reach name thread loop n (start thread (set_thread_num n (new_server loop name)))
  accepts :
      {s : TcpServer} (fd : ℕ) (a : InetAddress)
      → IsAddress a
      → s.connection_id < max_int
      → Reach name thread loop n s
      → Reach name thread loop n (on_new_connection fd a s)
  closes :
      {s : TcpServer} (gone : List ℕ)
      → Reach name thread loop n s
      → Reach name thread loop n (on_close_connection gone s)

-- A name given before to the connection of a smaller number.
record WasGiven (name : List ℕ) (bound : ℕ) (k : List ℕ) : Type 0 where
  id : ℕ
  address : InetAddress
  is_old : id < bound
  id_fits : id < max_int
  is_address : IsAddress address
  is_name : k ≡ name_of name address id

-- Every name in the map was given before.
AllGiven : List ℕ → ℕ → Map Accepted → Type 0
AllGiven name bound m = (k : List ℕ) (v : Accepted) → find_key k m ≡ some v → WasGiven name bound k

WasGiven-suc :
    (name : List ℕ) (bound : ℕ) (k : List ℕ) → WasGiven name bound k → WasGiven name (bound + 1) k
WasGiven-suc name bound k w = record {
  id = w.id;
  address = w.address;
  is_old = omega (arith, w.is_old);
  id_fits = w.id_fits;
  is_address = w.is_address;
  is_name = w.is_name;
}

put-AllGiven :
    (name : List ℕ) (bound : ℕ) (a : InetAddress) (v : Accepted) (m : Map Accepted)
    → IsAddress a
    → bound < max_int
    → AllGiven name bound m
    → AllGiven name (bound + 1) (put (name_of name a bound) v m)
unfolding AllGiven
put-AllGiven name bound a v m i h g k u e = elim (eq_or_ne k (name_of name a bound)) [
  | inl s ↦ record {
    id = bound;
    address = a;
    is_old = omega arith;
    id_fits = h;
    is_address = i;
    is_name = s;
  }
  | inr d ↦
      WasGiven-suc name bound k
        (g k u (sym (find_key-put_other k (name_of name a bound) v m d) ∙ e))
]

erase-AllGiven :
    (name : List ℕ) (bound : ℕ) (gone : List ℕ) (m : Map Accepted)
    → AllGiven name bound m
    → AllGiven name bound (erase gone m)
unfolding AllGiven
erase-AllGiven name bound gone m g k u e = elim (eq_or_ne k gone) [
  | inl s ↦ absurd (
      let p : none ≡ some u =
        sym (find_key-erase gone m) ∙ ap (λ j. find_key j (erase gone m)) (sym s) ∙ e in
      cc)
  | inr d ↦ g k u (sym (find_key-erase_other k gone m d) ∙ e)
]

nil-AllGiven : (name : List ℕ) (bound : ℕ) → AllGiven name bound []
unfolding AllGiven
nil-AllGiven name bound k v e = absurd (let p : none ≡ some v = sym (find_key-nil k) ∙ e in cc)

-- A name that is not given yet is in no map of those given.
unused :
    (name : List ℕ) (a : InetAddress) (bound : ℕ) (m : Map Accepted)
    → IsAddress a
    → bound < max_int
    → AllGiven name bound m
    → find_key (name_of name a bound) m ≡ none
unfolding AllGiven
unused name a bound m i h g = elim (Option-cases (find_key (name_of name a bound) m)) [
  | inl e ↦ e
  | inr r ↦
      let w = g (name_of name a bound) r.0 r.1 in
      let same_id =
        name_of_injective name a w.address bound w.id i w.is_address h w.id_fits w.is_name in
      absurd (omega (arith, same_id, w.is_old))
]

module _ (name : List ℕ) (thread : ℕ → ℕ) (loop n : ℕ) where
  Reach-name : (s : TcpServer) → Reach name thread loop n s → s.server_name ≡ name
  unfolding start set_thread_num on_new_connection on_close_connection
  Reach-name _ starts = refl
  Reach-name _ (accepts {s} fd a i h r) = Reach-name s r
  Reach-name _ (closes {s} gone r) = Reach-name s r

  Reach-AllGiven :
      (s : TcpServer)
      → Reach name thread loop n s
      → AllGiven s.server_name s.connection_id s.connection_map
  unfolding start set_thread_num on_new_connection on_close_connection
  Reach-AllGiven _ starts = nil-AllGiven name 0
  Reach-AllGiven _ (accepts {s} fd a i h r) =
      put-AllGiven s.server_name s.connection_id a _ s.connection_map i h (Reach-AllGiven s r)
  Reach-AllGiven _ (closes {s} gone r) =
      erase-AllGiven s.server_name s.connection_id gone s.connection_map (Reach-AllGiven s r)

  -- Whatever connections a server has accepted and closed, in any order, fewer than 2 ^ 31,
  -- accepting another leaves every connection of the map under its name: a new name is never one
  -- that is in use, even for the same address.
  pub on_new_connection-fresh :
      (s : TcpServer) (fd : ℕ) (a : InetAddress) (k : List ℕ) (v : Accepted)
      → Reach name thread loop n s
      → IsAddress a
      → s.connection_id < max_int
      → find_key k s.connection_map ≡ some v
      → find_key k (on_new_connection fd a s).connection_map ≡ some v
  unfolding on_new_connection
  on_new_connection-fresh s fd a k v r i h e =
      let new_name = name_of s.server_name a s.connection_id in
      let free : find_key new_name s.connection_map ≡ none =
        unused s.server_name a s.connection_id s.connection_map i h (Reach-AllGiven s r) in
      find_key-put_other k new_name _ s.connection_map (λ q.
        let p : none ≡ some v = sym free ∙ ap (λ j. find_key j s.connection_map) (sym q) ∙ e in cc)
      ∙ e

  Reach-pool :
      (s : TcpServer)
      → Reach name thread loop n s
      → s.thread_pool ≡ after_calls s.connection_id (started thread loop n)
  unfolding start set_thread_num on_new_connection on_close_connection
  Reach-pool _ starts = after_calls-zero (started thread loop n)
  Reach-pool _ (accepts {s} fd a i h r) =
      ap (λ p. (get_next_loop p).1) (Reach-pool s r)
      ∙ after_calls-suc s.connection_id (started thread loop n)
  Reach-pool _ (closes {s} gone r) = Reach-pool s r

  -- A server with n threads, n not 0, that accepts the connection of number k puts it in its map
  -- under its name, with its socket and the loop of thread k % n, whatever has been accepted and
  -- closed before.
  pub on_new_connection-loop :
      (s : TcpServer) (fd : ℕ) (a : InetAddress)
      → Reach name thread loop n s
      → 0 < n
      → found {W = ℕ × Option ℕ}
          (λ v. (v.sockfd, v.io_loop))
          (find_key
            (name_of s.server_name a s.connection_id)
            (on_new_connection fd a s).connection_map)
        ≡ some (fd, some (thread (s.connection_id % n)))
  unfolding on_new_connection
  on_new_connection-loop s fd a r h =
      ap (found {W = ℕ × Option ℕ} (λ v. (v.sockfd, v.io_loop)))
        (find_key-put (name_of s.server_name a s.connection_id) _ s.connection_map)
      ∙ ap (λ o. some (fd, o))
          (ap (λ p. (get_next_loop p).0) (Reach-pool s r)
            ∙ get_next_loop-round thread loop n s.connection_id h)
