-- ===== src/Net/Epoll/Follows.antt =====
-- network/multiplexing/Epoll.cpp with network/Channel.cpp: the kernel's view of a channel.
use live_broadcast_server.Common.{
  ℕ, ◌≡◌, refl, sym, ◌∙◌, ◌≢◌, inl, inr, Bool, true, false, none, some, Bool-cases,
}
use live_broadcast_server.Net.Channel.{
  Channel, ChannelStatus, new_status, added_status, del_status, Events, enable_readable,
  enable_writable, disable_writable, disable_all,
}
use live_broadcast_server.Net.Epoll.{Kernel, IsKernel, update_in, update_channel}

-- A channel that is new is not registered, and one that was added is registered for its events.
pub data Follows (k : Kernel) (s : k.State) (fd : ℕ) (c : Channel) : Type 0 where
  is_new : c.channel_status ≡ new_status → k.registered fd s ≡ none → Follows k s fd c
  is_added :
      c.channel_status ≡ added_status → k.registered fd s ≡ some c.ep_event → Follows k s fd c

-- The members of a channel that call `Update`.
pub data Change : Type 0 where
  enables_readable enables_writable disables_writable disables_all : Change

unfoldable pub change : Change → Channel → Channel
unfolding disable_writable
change enables_readable c = enable_readable c
change enables_writable c = enable_writable c
change disables_writable c = disable_writable c
change disables_all c = disable_all c

pub update : (k : Kernel) → k.State → ℕ → Channel → Change → k.State × Channel
unfolding change update_channel
update k s fd c a = update_channel k s fd (change a c)

abbrev pub is_removal : Change → Bool
is_removal disables_all = true
is_removal _ = false

pub change-status :
    (a : Change) (c : Channel)
    → is_removal a ≡ false
    → (change a c).channel_status ≡ c.channel_status
unfolding change
change-status enables_readable c e = refl
change-status enables_writable c e = refl
change-status disables_writable c e = refl
change-status disables_all c e = absurd (cc)

removal-status :
    (a : Change) (c : Channel)
    → is_removal a ≡ true
    → (st : ChannelStatus) → del_status ≢ st
    → (change a c).channel_status ≢ st
unfolding change
removal-status enables_readable c y st n e = cc
removal-status enables_writable c y st n e = cc
removal-status disables_writable c y st n e = cc
removal-status disables_all c y st n e = n e

module _ (k : Kernel) (laws : IsKernel k) where
  update_in-Follows :
      (st : ChannelStatus) (s : k.State) (fd : ℕ) (c : Channel)
      → c.channel_status ≡ st
      → (st ≡ new_status → k.registered fd s ≡ none)
      → (st ≡ added_status → (e : Events) × (k.registered fd s ≡ some e))
      → Follows k (update_in k st s fd c).0 fd (update_in k st s fd c).1
  unfolding update_in
  update_in-Follows new_status s fd c e n a = is_added refl (laws.adds fd c.ep_event s (n refl))
  update_in-Follows added_status s fd c e n a =
      is_added e (laws.modifies fd c.ep_event (a refl).0 s (a refl).1)
  update_in-Follows del_status s fd c e n a = is_new refl (laws.deletes fd s)

  when_new :
      (a : Change) (s : k.State) (fd : ℕ) (c : Channel)
      → Follows k s fd c
      → (change a c).channel_status ≡ new_status
      → k.registered fd s ≡ none
  unfolding change
  when_new a s fd c (is_new e r) n = r
  when_new a s fd c (is_added e r) n = elim (Bool-cases (is_removal a)) [
    | inl y ↦ absurd (removal-status a c y new_status (λ x. cc) n)
    | inr z ↦
        absurd (let p : added_status ≡ new_status = sym e ∙ sym (change-status a c z) ∙ n in cc)
  ]

  when_added :
      (a : Change) (s : k.State) (fd : ℕ) (c : Channel)
      → Follows k s fd c
      → (change a c).channel_status ≡ added_status
      → (e : Events) × (k.registered fd s ≡ some e)
  when_added a s fd c (is_added e r) n = (c.ep_event, r)
  when_added a s fd c (is_new e r) n = elim (Bool-cases (is_removal a)) [
    | inl y ↦ absurd (removal-status a c y added_status (λ x. cc) n)
    | inr z ↦
        absurd (let p : new_status ≡ added_status = sym e ∙ sym (change-status a c z) ∙ n in cc)
  ]

  -- Whatever member of a channel calls for an update, a kernel that keeps its laws follows: if the
  -- channel was registered for its events, or new and not registered, then afterwards it is
  -- registered for the events it has then, or new again and not registered.
  pub update-Follows :
      (s : k.State) (fd : ℕ) (c : Channel) (a : Change)
      → Follows k s fd c
      → Follows k (update k s fd c a).0 fd (update k s fd c a).1
  unfolding update
  update-Follows s fd c a f =
      update_in-Follows (change a c).channel_status s fd (change a c) refl (when_new a s fd c f)
        (when_added a s fd c f)
