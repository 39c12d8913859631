-- ===== src/Net/Select.antt =====
-- network/multiplexing/Select.h and Select.cpp, the poller of the build for Windows. What `select`
-- returns, and the sets that it leaves, are an argument. A channel's address is its socket.
pub mod Lost
use live_broadcast_server.Common.{
  ℕ, ◌-◌, ◌/◌, ap, Bool, true, false, List, [], ◌∷◌, map, ltb, ◌==◌, if◌then◌else◌, take,
}
use live_broadcast_server.Net.Channel.{
  Channel, ChannelStatus, new_status, added_status, del_status, Events, set_channel_status,
  set_event,
}

-- `fd_set`, with FD_SET and FD_CLR
abbrev pub FdSet : Type 0
FdSet = ℕ → Bool

abbrev pub set_fd : ℕ → FdSet → FdSet
set_fd fd s = λ x. if x == fd then true else s x

abbrev pub clear_fd : ℕ → FdSet → FdSet
clear_fd fd s = λ x. if x == fd then false else s x

-- The keys of `channel_map_`, in order.
pub record Select : Type 0 where
  pub readset : FdSet
  pub writeset : FdSet
  pub channel_map : List ℕ

abbrev pub new_select : Select
new_select = record { readset = λ x. false; writeset = λ x. false; channel_map = [] }

abbrev pub insert_fd : ℕ → List ℕ → List ℕ
insert_fd fd [] = fd ∷ []
insert_fd fd (x ∷ xs) =
    let rest = insert_fd fd xs in
    if fd == x then x ∷ xs else if ltb fd x then fd ∷ x ∷ xs else x ∷ rest

abbrev pub erase_fd : ℕ → List ℕ → List ℕ
erase_fd fd [] = []
erase_fd fd (x ∷ xs) = let rest = erase_fd fd xs in if x == fd then rest else x ∷ rest

-- `FdSet`
pub add_fd : ℕ → Events → Select → Select
add_fd fd e s = record {
  readset = (if e.readable then set_fd fd s.readset else s.readset);
  writeset = (if e.writable then set_fd fd s.writeset else s.writeset);
  channel_map = insert_fd fd s.channel_map;
}

-- `FdClear`
pub fd_clear : ℕ → Select → Select
fd_clear fd s = record {
  readset = (if s.readset fd then clear_fd fd s.readset else s.readset);
  writeset = (if s.writeset fd then clear_fd fd s.writeset else s.writeset);
  channel_map = erase_fd fd s.channel_map;
}

-- `FdMod`, which only takes events away.
pub fd_mod : ℕ → Events → Select → Select
fd_mod fd e s = record s {
  readset = (if e.readable then s.readset else clear_fd fd s.readset);
  writeset = (if e.writable then s.writeset else clear_fd fd s.writeset);
}

pub update_in : ChannelStatus → Select → ℕ → Channel → Select × Channel
unfolding add_fd fd_clear fd_mod
update_in new_status s fd c = (add_fd fd c.ep_event s, set_channel_status c added_status)
update_in added_status s fd c = (fd_mod fd c.ep_event s, c)
update_in del_status s fd c = (fd_clear fd s, set_channel_status c new_status)

pub update_channel : Select → ℕ → Channel → Select × Channel
unfolding update_in
update_channel s fd c = update_in c.channel_status s fd c

-- `FillActiveSocketVector`: all channels, with the events in the two sets.
pub fill_active_socket_vector : FdSet → FdSet → List ℕ → (ℕ → Channel) → List (ℕ × Channel)
fill_active_socket_vector readset writeset [] channels = []
fill_active_socket_vector readset writeset (fd ∷ fds) channels =
    (fd, set_event (channels fd) (record { readable = readset fd; writable = writeset fd }))
    ∷ fill_active_socket_vector readset writeset fds channels

-- What `select` leaves in the copies of the two sets, or an error.
pub data Selected : Type 0 where
  socket_error : Selected
  leaves : FdSet → FdSet → Selected

-- The channels put in the vector, and what is returned.
pub loop_once : Selected → Select → (ℕ → Channel) → Bool × List (ℕ × Channel)
unfolding fill_active_socket_vector
loop_once socket_error s channels = (false, [])
loop_once (leaves r w) s channels = (true, fill_active_socket_vector r w s.channel_map channels)
