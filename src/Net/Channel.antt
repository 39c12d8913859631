-- ===== src/Net/Channel.antt =====
-- network/Channel.h and Channel.cpp: the events of one descriptor. Of the bits of an event the two
-- that the code reads, EPOLLIN and EPOLLOUT, are kept; `Update` hands `ep_event` and the status to the
-- poller, which is not modelled; an expired `tie_` is a connection that is gone.
use live_broadcast_server.Common.{Bool, true, false, List, [], ◌∷◌, ◌++◌, if◌then◌else◌}

-- `EPOLLIN` and `EPOLLOUT`
pub record Events : Type 0 where
  pub readable : Bool
  pub writable : Bool

abbrev pub no_events : Events
no_events = record { readable = false; writable = false }

pub data ChannelStatus : Type 0 where
  new_status added_status del_status : ChannelStatus

pub record Channel : Type 0 where
  pub channel_status : ChannelStatus
  pub event : Events
  pub ep_event : Events
  pub tied : Bool

abbrev pub new_channel : Channel
new_channel = record {
  channel_status = new_status;
  event = no_events;
  ep_event = no_events;
  tied = false;
}

abbrev pub set_event : Channel → Events → Channel
set_event c e = record c { event = e }

abbrev pub set_channel_status : Channel → ChannelStatus → Channel
set_channel_status c s = record c { channel_status = s }

abbrev pub enable_readable : Channel → Channel
enable_readable c = record c { ep_event = record c.ep_event { readable = true } }

abbrev pub enable_writable : Channel → Channel
enable_writable c = record c { ep_event = record c.ep_event { writable = true } }

unfoldable pub disable_writable : Channel → Channel
disable_writable c = record c { ep_event = record c.ep_event { writable = false } }

abbrev pub disable_all : Channel → Channel
disable_all c = record c { ep_event = no_events; channel_status = del_status }

abbrev pub tie_connection : Channel → Channel
tie_connection c = record c { tied = true }

-- The event last returned by the poller, not the one registered with it.
unfoldable pub is_writing : Channel → Bool
is_writing c = c.event.writable

-- The callbacks that an event calls for.
pub data Callback : Type 0 where
  readable_callback writable_callback : Callback

handle_event : Channel → List Callback
handle_event c =
    (if c.event.readable then readable_callback ∷ [] else [])
    ++ (if c.event.writable then writable_callback ∷ [] else [])

-- `alive`: the connection that is tied has not been destroyed.
unfoldable handle_event_with_guard : Channel → Bool → List Callback
unfolding handle_event
handle_event_with_guard c alive =
    if c.tied then (if alive then handle_event c else []) else handle_event c
