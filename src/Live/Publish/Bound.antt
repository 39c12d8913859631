-- ===== src/Live/Publish/Bound.antt =====
-- live/RtmpPushServer.cpp: what becomes of the paths, whatever the publishers do.
use live_broadcast_server.Common.{
  ℕ, ◌≡◌, ◌≢◌, refl, sym, ap, subst, ◌∙◌, inl, inr, true, false, Option, none, some, List, [], ◌∷◌,
  if◌then◌else◌, Bool-cases,
}
use live_broadcast_server.Common.Names.{
  find_key, put, eq_or_ne, find_key-put, find_key-put_other, find_key-erase_other,
}
use live_broadcast_server.Fifo.{Fifo}
use live_broadcast_server.Logger.{level_info}
use live_broadcast_server.Rtmp.Manager.{RtmpManager}
use live_broadcast_server.Live.Log.{LogAt, logs}
use live_broadcast_server.Live.Push.{
  RtmpPushConnection, Effect, no_effect, shutdown, shake_hand_success, Handled,
  on_connection_shake_hand, on_body_data, get_rtmp_path,
}
use live_broadcast_server.Live.Push.Start.{some_inj}
use live_broadcast_server.Live.Publish.{
  Phase, shaking, streaming, Publisher, RtmpPushServer, Published, Surroundings,
  get_push_conn_by_url, bind_path, on_shake_hand_success, on_connection,
  remove_rtmp_push_connection, store_bound, effect_in, after_shake, shook, shake, streamed,
  message_in, on_message, push_server_file, bind_items,
}

-- A connection comes, goes, or has sent data.
pub data Event : Type 0 where
  comes goes : RtmpManager → List ℕ → Event
  sends : Surroundings → List ℕ → Fifo → Event

pub server_of : Option Published → Option RtmpPushServer
server_of none = none
server_of (some r) = some r.server

-- The data of a connection whose publisher is known.
pub say : Surroundings → List ℕ → Option Publisher → Fifo → RtmpPushServer → Option RtmpPushServer
unfolding server_of
say around name none buffer s = some s
say around name (some p) buffer s = server_of (on_message around name p buffer s)

-- `none` where the program ends.
unfoldable pub act : Event → RtmpPushServer → Option RtmpPushServer
unfolding say
act (comes manager name) s = some (on_connection manager true name s)
act (goes manager name) s = some (on_connection manager false name s)
act (sends around name buffer) s = say around name (find_key name s.publishers) buffer s

-- What a sequence of events leads to.
pub data Leads : RtmpPushServer → List Event → RtmpPushServer → Type 0 where
  nothing : {s : RtmpPushServer} → Leads s [] s
  event :
      {s t u : RtmpPushServer} {e : Event} {es : List Event}
      → act e s ≡ some t
      → Leads t es u
      → Leads s (e ∷ es) u

-- The path is not the name of a connection that goes.
abbrev pub IsNoName : List ℕ → List Event → Type 0
IsNoName path [] = Unit {0}
IsNoName path (goes manager name ∷ es) = (path ≢ name) × IsNoName path es
IsNoName path (e ∷ es) = IsNoName path es

-- The path leads to a publisher.
unfoldable pub IsBound : List ℕ → RtmpPushServer → Type 0
IsBound path s = (owner : List ℕ) × (get_push_conn_by_url path s ≡ some owner)

same_map-IsBound :
    (path : List ℕ) (s t : RtmpPushServer)
    → s.rtmp_connection_map ≡ t.rtmp_connection_map
    → IsBound path s
    → IsBound path t
unfolding IsBound get_push_conn_by_url
same_map-IsBound path s t e b = subst (λ m. (o : List ℕ) × (find_key path m ≡ some o)) e b

put-IsBound :
    (path other owner : List ℕ) (s : RtmpPushServer)
    → IsBound path s
    → IsBound path (record s { rtmp_connection_map = put other owner s.rtmp_connection_map })
unfolding IsBound get_push_conn_by_url
put-IsBound path other owner s b = elim (eq_or_ne path other) [
  | inl e ↦ (
    owner,
    ap (λ k. find_key k (put other owner s.rtmp_connection_map)) e
        ∙ find_key-put other owner s.rtmp_connection_map,
  )
  | inr n ↦ (b.0, find_key-put_other path other owner s.rtmp_connection_map n ∙ b.1)
]

module _ (path : List ℕ) (s : RtmpPushServer) (b : IsBound path s) where
  bind_path-IsBound :
      (log : LogAt) (p : RtmpPushConnection) (o : Option (List ℕ)) (t : RtmpPushServer)
      → bind_path log p o s ≡ some t
      → IsBound path t
  unfolding bind_path
  bind_path-IsBound log p none t e = absurd (cc)
  bind_path-IsBound log p (some other) t e =
      let u = record s {
        rtmp_connection_map = put other p.connection_name s.rtmp_connection_map;
      } in
      elim (Bool-cases
        (logs log level_info push_server_file 58 (bind_items p.connection_name other))) [
          | inl y ↦
              subst (IsBound path) (some_inj u t (sym (ap (λ c. if c then some u else none) y) ∙ e))
                (put-IsBound path other p.connection_name s b)
          | inr n ↦
              absurd
                (let q : none ≡ some t = sym (ap (λ c. if c then some u else none) n) ∙ e in cc)
        ]

  store_bound-IsBound :
      (name : List ℕ) (p : RtmpPushConnection) (o : Option RtmpPushServer) (t : RtmpPushServer)
      → ((u : RtmpPushServer) → o ≡ some u → IsBound path u)
      → store_bound name p o ≡ some t
      → IsBound path t
  store_bound-IsBound name p none t h e = absurd (cc)
  store_bound-IsBound name p (some u) t h e =
      same_map-IsBound path u t (ap (λ x. x.rtmp_connection_map) (some_inj _ t e)) (h u refl)

  effect_in-IsBound :
      (log : LogAt) (effect : Effect) (name : List ℕ) (p : RtmpPushConnection) (t : RtmpPushServer)
      → effect_in log effect name p s ≡ some t
      → IsBound path t
  unfolding effect_in on_shake_hand_success
  effect_in-IsBound log no_effect name p t e =
      same_map-IsBound path s t (ap (λ x. x.rtmp_connection_map) (some_inj _ t e)) b
  effect_in-IsBound log shutdown name p t e =
      same_map-IsBound path s t (ap (λ x. x.rtmp_connection_map) (some_inj _ t e)) b
  effect_in-IsBound log shake_hand_success name p t e =
      store_bound-IsBound name p (on_shake_hand_success log p s) t
        (bind_path-IsBound log p (get_rtmp_path p)) e

  shook-server :
      (h : Handled) (o : Option RtmpPushServer) (t : RtmpPushServer)
      → server_of (shook h o) ≡ some t
      → o ≡ some t
  unfolding server_of
  shook-server h none t e = absurd (cc)
  shook-server h (some u) t e = e

  shake-IsBound :
      (log : LogAt) (name : List ℕ) (o : Option Handled) (t : RtmpPushServer)
      → server_of (shake log name o s) ≡ some t
      → IsBound path t
  unfolding after_shake server_of
  shake-IsBound log name none t e = absurd (cc)
  shake-IsBound log name (some h) t e =
      effect_in-IsBound log h.effect name h.push t (shook-server h (after_shake log name h s) t e)

  streamed-IsBound :
      (name : List ℕ) (o : Option (RtmpPushConnection × Fifo × List (List ℕ × List ℕ)))
      (t : RtmpPushServer)
      → server_of (streamed name o s) ≡ some t
      → IsBound path t
  unfolding server_of
  streamed-IsBound name none t e = absurd (cc)
  streamed-IsBound name (some d) t e =
      same_map-IsBound path s t (ap (λ x. x.rtmp_connection_map) (some_inj _ t e)) b

  message_in-IsBound :
      (phase : Phase) (around : Surroundings) (name : List ℕ) (p : RtmpPushConnection) (q : Fifo)
      (t : RtmpPushServer)
      → server_of (message_in phase around name p q s) ≡ some t
      → IsBound path t
  unfolding message_in
  message_in-IsBound shaking around name p q t e =
      shake-IsBound around.log name
        (on_connection_shake_hand s.authentication_callback around.behind_release p q) t e
  message_in-IsBound streaming around name p q t e =
      streamed-IsBound name (on_body_data around.garbage p q) t e

  say-IsBound :
      (around : Surroundings) (name : List ℕ) (o : Option Publisher) (q : Fifo) (t : RtmpPushServer)
      → say around name o q s ≡ some t
      → IsBound path t
  unfolding say on_message
  say-IsBound around name none q t e = subst (IsBound path) (some_inj s t e) b
  say-IsBound around name (some p) q t e = message_in-IsBound p.phase around name p.push q t e

goes-IsBound :
    (path name : List ℕ) (manager : RtmpManager) (s : RtmpPushServer)
    → path ≢ name
    → IsBound path s
    → IsBound path (on_connection manager false name s)
unfolding IsBound get_push_conn_by_url on_connection remove_rtmp_push_connection
goes-IsBound path name manager s n b =
    (b.0, find_key-erase_other path name s.rtmp_connection_map n ∙ b.1)

comes-IsBound :
    (path name : List ℕ) (manager : RtmpManager) (s : RtmpPushServer)
    → IsBound path s
    → IsBound path (on_connection manager true name s)
unfolding IsBound get_push_conn_by_url on_connection
comes-IsBound path name manager s b = b

-- Whatever publishers come, go and send, in whatever order, a path that leads to a publisher's
-- connection leads to one for ever: also when the connection has gone. The path is not the name of a
-- connection that goes.
pub Leads-IsBound :
    {s t : RtmpPushServer} {es : List Event} (path : List ℕ)
    → IsNoName path es
    → IsBound path s
    → Leads s es t
    → IsBound path t
unfolding act
Leads-IsBound path n b nothing = b
Leads-IsBound {s = s} path n b (event {t = t} {e = comes manager name} a l) =
    Leads-IsBound path n
      (subst (IsBound path) (some_inj _ t a) (comes-IsBound path name manager s b)) l
Leads-IsBound {s = s} path n b (event {t = t} {e = goes manager name} a l) =
    Leads-IsBound path n.1
      (subst (IsBound path) (some_inj _ t a) (goes-IsBound path name manager s n.0 b)) l
Leads-IsBound {s = s} path n b (event {t = t} {e = sends around name q} a l) =
    Leads-IsBound path n (say-IsBound path s b around name (find_key name s.publishers) q t a) l
