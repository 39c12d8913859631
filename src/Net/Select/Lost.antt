-- ===== src/Net/Select/Lost.antt =====
-- network/multiplexing/Select.cpp: an event that was not there when the channel was added never comes.
use live_broadcast_server.Common.{
  ℕ, ◌≡◌, ap, ◌∙◌, Bool, true, false, List, [], ◌∷◌, arith, if◌then◌else◌,
}
use live_broadcast_server.Net.Channel.{Channel, added_status}
use live_broadcast_server.Net.Epoll.Follows.{Change, change, change-status, is_removal}
use live_broadcast_server.Net.Select.{Select, clear_fd, fd_mod, update_in, update_channel}

-- Changes of a channel, each followed by its update.
pub change_all : ℕ → List Change → Select × Channel → Select × Channel
unfolding change update_channel
change_all fd [] p = p
change_all fd (a ∷ more) p = change_all fd more (update_channel p.0 fd (change a p.1))

-- None of them takes the channel away.
pub data AllStay : List Change → Type 0 where
  no_changes : AllStay []
  stays :
      {a : Change} {more : List Change} → is_removal a ≡ false → AllStay more → AllStay (a ∷ more)

clear_fd-keeps :
    (b : Bool) (fd : ℕ) (s : ℕ → Bool) → s fd ≡ false → (if b then s else clear_fd fd s) fd ≡ false
clear_fd-keeps true fd s e = e
clear_fd-keeps false fd s e = ground arith

update-added :
    (s : Select) (fd : ℕ) (c : Channel)
    → c.channel_status ≡ added_status
    → update_channel s fd c ≡ (fd_mod fd c.ep_event s, c)
unfolding update_channel update_in
update-added s fd c e = ap (λ st. update_in st s fd c) e

-- Under the select poller a channel that was added without asking for writing is never watched for
-- it, however often writing is enabled, as long as the channel is not removed.
pub change_all-lost :
    (fd : ℕ) (changes : List Change) (s : Select) (c : Channel)
    → AllStay changes
    → c.channel_status ≡ added_status
    → s.writeset fd ≡ false
    → (change_all fd changes (s, c)).0.writeset fd ≡ false
unfolding change_all fd_mod
change_all-lost fd [] s c n a e = e
change_all-lost fd (x ∷ more) s c (stays r n) a e =
    let d = change x c in
    let st = change-status x c r ∙ a in
    ap (λ (p : Select × Channel). (change_all fd more p).0.writeset fd) (update-added s fd d st)
    ∙ change_all-lost fd more (fd_mod fd d.ep_event s) d n st
        (clear_fd-keeps d.ep_event.writable fd s.writeset e)
