-- ===== src/Net/Epoll.antt =====
-- network/multiplexing/Epoll.h and Epoll.cpp: what is registered with the kernel follows the channels.
-- `epoll_ctl` is an interface, `Kernel`, with its documented behaviour as laws, `IsKernel`.
pub mod Follows
pub mod Wait
use live_broadcast_server.Common.{ℕ, ◌-◌, ◌/◌, ◌≡◌, Option, none, some}
use live_broadcast_server.Net.Channel.{
  Channel, ChannelStatus, new_status, added_status, del_status, Events, set_channel_status,
}

-- `epoll_ctl` with EPOLL_CTL_ADD, _MOD and _DEL, and what a descriptor is registered for.
pub record Kernel : Type 1 where
  pub State : Type 0
  pub ctl_add : ℕ → Events → State → State
  pub ctl_mod : ℕ → Events → State → State
  pub ctl_del : ℕ → State → State
  pub registered : ℕ → State → Option Events

pub record IsKernel (k : Kernel) : Type 0 where
  pub adds :
      (fd : ℕ) (e : Events) (s : k.State)
      → k.registered fd s ≡ none
      → k.registered fd (k.ctl_add fd e s) ≡ some e
  pub modifies :
      (fd : ℕ) (e f : Events) (s : k.State)
      → k.registered fd s ≡ some f
      → k.registered fd (k.ctl_mod fd e s) ≡ some e
  pub deletes : (fd : ℕ) (s : k.State) → k.registered fd (k.ctl_del fd s) ≡ none

-- `UpdateChannelInternal` with EPOLL_CTL_ADD, and with EPOLL_CTL_MOD.
pub add_channel : (k : Kernel) → k.State → ℕ → Channel → k.State × Channel
add_channel k s fd c = (k.ctl_add fd c.ep_event s, set_channel_status c added_status)

pub modify_channel : (k : Kernel) → k.State → ℕ → Channel → k.State × Channel
modify_channel k s fd c = (k.ctl_mod fd c.ep_event s, c)

pub remove_channel : (k : Kernel) → k.State → ℕ → Channel → k.State × Channel
remove_channel k s fd c = (k.ctl_del fd s, set_channel_status c new_status)

-- The `switch` of `UpdateChannel`.
pub update_in : (k : Kernel) → ChannelStatus → k.State → ℕ → Channel → k.State × Channel
unfolding add_channel modify_channel remove_channel
update_in k new_status s fd c = add_channel k s fd c
update_in k added_status s fd c = modify_channel k s fd c
update_in k del_status s fd c = remove_channel k s fd c

pub update_channel : (k : Kernel) → k.State → ℕ → Channel → k.State × Channel
unfolding update_in
update_channel k s fd c = update_in k c.channel_status s fd c
