-- ===== src/Tests/Network.antt =====
-- Tests of network/TcpConnection.
use live_broadcast_server.Common.{
  ℕ, ◌≡◌, refl, true, false, Option, none, some, List, [], ◌∷◌, ◌++◌, arith, ◌==◌, if◌then◌else◌,
  ==_iff,
}
use live_broadcast_server.Net.Channel.{new_channel}
use live_broadcast_server.Net.Channel.{Events}
use live_broadcast_server.Net.Epoll.{Kernel, IsKernel}
use live_broadcast_server.Net.Epoll.Follows.{
  Follows, is_new, enables_readable, update, update-Follows,
}
use live_broadcast_server.Net.Tcp.{
  TcpConnection, new_connection, connected, would_block, SendResult, on_writable,
}
use live_broadcast_server.Net.Tcp.Output.{
  Action, sends, runs_queued, writes, act_all, put_out_all, output, act_all-output,
  on_writable-output,
}
use live_broadcast_server.Net.Tcp.Stall.{Stalls, send_all, all_data, on_writable-Stalls}

abbrev up : TcpConnection
up = record new_connection { connection_status = connected }

abbrev takes_two : SendResult
takes_two = record { size = 2; errno = would_block }

abbrev actions : List Action
actions =
    sends true (1 ∷ 2 ∷ 3 ∷ []) takes_two
    ∷ sends false (4 ∷ []) takes_two
    ∷ writes takes_two
    ∷ runs_queued takes_two
    ∷ []

act_all-output_example : output (act_all up actions) ≡ output up ++ put_out_all up actions
act_all-output_example = act_all-output up actions

-- Told that it may write, registered for it, and with two bytes waiting.
abbrev about_to_write : TcpConnection
about_to_write = record up {
  channel = record new_channel {
    event = record { readable = false; writable = true };
    ep_event = record { readable = true; writable = true };
  };
  send_buffer = 8 ∷ 9 ∷ [];
}

on_writable-output_example : output (on_writable about_to_write takes_two).0 ≡ 8 ∷ 9 ∷ []
on_writable-output_example = on_writable-output about_to_write takes_two

-- What is given to Send afterwards; the kernel would take all of it.
abbrev sent_later : List (List ℕ × SendResult)
sent_later = (4 ∷ 5 ∷ [], takes_two) ∷ (6 ∷ 7 ∷ [], takes_two) ∷ []

on_writable-Stalls_example :
    Stalls about_to_write
      (send_all (on_writable about_to_write takes_two).0 sent_later)
      (all_data sent_later)
on_writable-Stalls_example =
    on_writable-Stalls about_to_write takes_two sent_later refl refl (omega arith) (omega arith)

-- A kernel that holds what each descriptor is registered for.
abbrev pub kernel : Kernel
kernel = record {
  State = ℕ → Option Events;
  ctl_add = λ fd e s x. if x == fd then some e else s x;
  ctl_mod = λ fd e s x. if x == fd then some e else s x;
  ctl_del = λ fd s x. if x == fd then none else s x;
  registered = λ fd s. s fd;
}

same_fd {ℓ} : {A : Type ℓ} (fd : ℕ) (a b : A) → (if fd == fd then a else b) ≡ a
same_fd fd a b = rw ((==_iff fd fd).1 refl)

kernel-IsKernel : IsKernel kernel
kernel-IsKernel = record {
  adds = λ fd e s r. same_fd fd (some e) (s fd);
  modifies = λ fd e f s r. same_fd fd (some e) (s fd);
  deletes = λ fd s. same_fd fd none (s fd);
}

update-Follows_example :
    Follows kernel
      (update kernel (λ fd. none) 3 new_channel enables_readable).0
      3
      (update kernel (λ fd. none) 3 new_channel enables_readable).1
update-Follows_example =
    update-Follows kernel kernel-IsKernel (λ fd. none) 3 new_channel enables_readable
      (is_new refl refl)
