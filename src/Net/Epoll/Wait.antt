-- ===== src/Net/Epoll/Wait.antt =====
-- network/multiplexing/Epoll.cpp, `LoopOnce`: the channels that are reported, with their events. What
-- `epoll_wait` returns is an argument; a channel's address is a number.
use live_broadcast_server.Common.{
  ℕ, ◌≡◌, refl, sym, ap, subst, ◌∙◌, true, false, Option, none, some, List, [], ◌∷◌, ◌++◌, ◌==◌,
  if◌then◌else◌, ==_iff, Bool-cases, append-nil, append_assoc, ◌⊎◌, inl, inr,
}
use mathlib.Core.Option.{some-injective}
use live_broadcast_server.Net.Channel.{Channel, Events, set_event}
use live_broadcast_server.Net.Epoll.{Kernel}
use live_broadcast_server.Net.Epoll.Follows.{Follows, is_new, is_added}

-- An error other than EINTR ends the program; EINTR and a timeout report nothing.
pub data Wait : Type 0 where
  failed interrupted timed_out : Wait
  ready : List (Option ℕ × Events) → Wait

abbrev pub Channels : Type 0
Channels = ℕ → Channel

abbrev pub set_channel : ℕ → Channel → Channels → Channels
set_channel fd c channels = λ x. if x == fd then c else channels x

-- One report: `SetEvent`, and the vector of active channels; a null pointer is left out.
pub fill_one : Option ℕ → Events → List ℕ × Channels → List ℕ × Channels
fill_one none e p = p
fill_one (some fd) e p = (p.0 ++ (fd ∷ []), set_channel fd (set_event (p.1 fd) e) p.1)

pub fill_active_socket_vector : List (Option ℕ × Events) → List ℕ × Channels → List ℕ × Channels
unfolding fill_one
fill_active_socket_vector [] p = p
fill_active_socket_vector (r ∷ rs) p = fill_active_socket_vector rs (fill_one r.0 r.1 p)

-- The active channels and all channels; `none` where the program ends.
pub loop_once : Wait → Channels → Option (List ℕ × Channels)
unfolding fill_active_socket_vector
loop_once failed channels = none
loop_once interrupted channels = some ([], channels)
loop_once timed_out channels = some ([], channels)
loop_once (ready reports) channels = some (fill_active_socket_vector reports ([], channels))

-- Every event of the first is one of the second.
pub record IsWithin (e f : Events) : Type 0 where
  pub reads : e.readable ≡ true → f.readable ≡ true
  pub writes : e.writable ≡ true → f.writable ≡ true

abbrev pub Reports : Type 0
Reports = List (Option ℕ × Events)

-- The channels that are reported, in order.
pub reported_channels : Reports → List ℕ
reported_channels [] = []
reported_channels ((none, e) ∷ rs) = reported_channels rs
reported_channels ((some fd, e) ∷ rs) = fd ∷ reported_channels rs

-- What is reported last for a channel, or the event of before.
pub last_event : Reports → ℕ → Events → Events
last_event [] x e = e
last_event ((none, f) ∷ rs) x e = last_event rs x e
last_event ((some fd, f) ∷ rs) x e = last_event rs x (if x == fd then f else e)

pub data IsReported (x : ℕ) : Reports → Type 0 where
  here : {fd : ℕ} {e : Events} {rs : Reports} → x ≡ fd → IsReported x ((some fd, e) ∷ rs)
  later : {r : Option ℕ × Events} {rs : Reports} → IsReported x rs → IsReported x (r ∷ rs)

last_event-unreported :
    (rs : Reports) (x : ℕ) (e : Events) → ¬ IsReported x rs → last_event rs x e ≡ e
unfolding last_event
last_event-unreported [] x e n = refl
last_event-unreported ((none, f) ∷ rs) x e n = last_event-unreported rs x e (λ i. n (later i))
last_event-unreported ((some fd, f) ∷ rs) x e n = elim (Bool-cases (x == fd)) [
  | inl y ↦ absurd (n (here ((==_iff x fd).0 y)))
  | inr y ↦ rw y (last_event-unreported rs x e (λ i. n (later i)))
]

set_channel-event :
    (fd x : ℕ) (f : Events) (rs : Reports) (channels : Channels)
    → let next = set_channel fd (set_event (channels fd) f) channels in
      record (next x) { event = last_event rs x (next x).event }
      ≡ record (channels x) { event = last_event rs x (if x == fd then f else (channels x).event) }
set_channel-event fd x f rs channels = elim (Bool-cases (x == fd)) [
  | inl y ↦
      let same : fd ≡ x = sym ((==_iff x fd).0 y) in
      rw y (ap (λ z. record (channels z) { event = last_event rs x f }) same)
  | inr n ↦ rw n refl
]

fill-channel :
    (rs : Reports) (active : List ℕ) (channels : Channels) (x : ℕ)
    → (fill_active_socket_vector rs (active, channels)).1 x
      ≡ record (channels x) { event = last_event rs x (channels x).event }
unfolding fill_active_socket_vector fill_one last_event
fill-channel [] active channels x = refl
fill-channel ((none, f) ∷ rs) active channels x = fill-channel rs active channels x
fill-channel ((some fd, f) ∷ rs) active channels x =
    fill-channel rs (active ++ (fd ∷ [])) (set_channel fd (set_event (channels fd) f) channels) x
    ∙ set_channel-event fd x f rs channels

fill-active :
    (rs : Reports) (active : List ℕ) (channels : Channels)
    → (fill_active_socket_vector rs (active, channels)).0 ≡ active ++ reported_channels rs
unfolding fill_active_socket_vector fill_one reported_channels
fill-active [] active channels = sym (append-nil active)
fill-active ((none, f) ∷ rs) active channels = fill-active rs active channels
fill-active ((some fd, f) ∷ rs) active channels =
    fill-active rs (active ++ (fd ∷ [])) (set_channel fd (set_event (channels fd) f) channels)
    ∙ append_assoc active (fd ∷ []) (reported_channels rs)

module _ (k : Kernel) (s : k.State) where
  -- `epoll_wait` reports only what a descriptor is registered for.
  pub data AllAllowed : Reports → Type 0 where
    no_reports : AllAllowed []
    no_channel : {e : Events} {rs : Reports} → AllAllowed rs → AllAllowed ((none, e) ∷ rs)
    allowed :
        {fd : ℕ} {e f : Events} {rs : Reports}
        → k.registered fd s ≡ some f
        → IsWithin e f
        → AllAllowed rs
        → AllAllowed ((some fd, e) ∷ rs)

  IsReported-registered :
      {x : ℕ} {rs : Reports}
      → IsReported x rs
      → AllAllowed rs
      → (f : Events) × (k.registered x s ≡ some f)
  IsReported-registered (here e) (allowed {f = f} r w a) = (f, ap (λ z. k.registered z s) e ∙ r)
  IsReported-registered (later i) (no_channel a) = IsReported-registered i a
  IsReported-registered (later i) (allowed r w a) = IsReported-registered i a

  -- The event of a channel stays within what it is registered for, and comes to be so by a report.
  last_event-IsWithin :
      (rs : Reports) (x : ℕ) (e g : Events)
      → AllAllowed rs
      → k.registered x s ≡ some g
      → (IsWithin e g ⊎ IsReported x rs)
      → IsWithin (last_event rs x e) g
  unfolding last_event
  last_event-IsWithin [] x e g a r (inl w) = w
  last_event-IsWithin [] x e g a r (inr i) = elim i [ ]
  last_event-IsWithin ((none, f) ∷ rs) x e g (no_channel a) r (inl w) =
      last_event-IsWithin rs x e g a r (inl w)
  last_event-IsWithin ((none, f) ∷ rs) x e g (no_channel a) r (inr (later i)) =
      last_event-IsWithin rs x e g a r (inr i)
  last_event-IsWithin ((some fd, f) ∷ rs) x e g (allowed {f = h} q v a) r w =
      elim (Bool-cases (x == fd)) [
        | inl y ↦
            let same = (==_iff x fd).0 y in
            let h_is : h ≡ g =
              some-injective h g (sym q ∙ ap (λ z. k.registered z s) (sym same) ∙ r) in
            rw y (last_event-IsWithin rs x f g a r (inl (subst (IsWithin f) h_is v)))
        | inr n ↦ rw n (last_event-IsWithin rs x e g a r (still_to_come n w))
      ]
    where
      still_to_come :
          (x == fd) ≡ false
          → (IsWithin e g ⊎ IsReported x ((some fd, f) ∷ rs))
          → (IsWithin e g ⊎ IsReported x rs)
      still_to_come n (inl v) = inl v
      still_to_come n (inr (later i)) = inr i
      still_to_come n (inr (here e)) = absurd (let y = (==_iff x fd).1 e in cc)

  asked_for :
      (fd : ℕ) (c : Channel) (e f : Events)
      → Follows k s fd c
      → k.registered fd s ≡ some f
      → IsWithin e f
      → IsWithin e c.ep_event
  asked_for fd c e f (is_new st n) r w = absurd (let p : none ≡ some f = sym n ∙ r in cc)
  asked_for fd c e f (is_added st n) r w =
      subst (IsWithin e) (some-injective f c.ep_event (sym r ∙ n)) w

  -- A channel behind LoopOnce: told what was reported last, which it has asked for, and otherwise, or
  -- where nothing was reported, as it was.
  pub record IsTold (reports : Reports) (x : ℕ) (before after : Channel) : Type 0 where
    pub told : after ≡ record before { event = last_event reports x before.event }
    pub asked : IsReported x reports → IsWithin after.event before.ep_event
    pub unreported : ¬ IsReported x reports → after ≡ before

  -- When all channels are new and not registered, or registered for their events, and the kernel
  -- reports only what a descriptor is registered for, then LoopOnce returns the reported channels in
  -- order, and each of them holds the event that was reported last for it, one that it has asked
  -- for. Nothing else of a channel changes, and a channel that is not reported stays as it was.
  pub loop_once-IsTold :
      (reports : Reports) (channels : Channels)
      → AllAllowed reports
      → ((fd : ℕ) → Follows k s fd (channels fd))
      → (after : Channels) × (loop_once (ready reports) channels
          ≡ some (reported_channels reports, after))
        × ((fd : ℕ) → IsTold reports fd (channels fd) (after fd))
  unfolding loop_once
  loop_once-IsTold reports channels a h =
      let r = fill_active_socket_vector reports ([], channels) in
      (
        r.1,
        ap (λ l. some (l, r.1)) (fill-active reports [] channels),
        λ fd.
            let e = fill-channel reports [] channels fd in
            record {
              told = e;
              asked = λ i.
                  let g = IsReported-registered i a in
                  subst (λ c. IsWithin c.event (channels fd).ep_event) (sym e)
                    (asked_for fd (channels fd) _ g.0 (h fd) g.1
                      (last_event-IsWithin reports fd (channels fd).event g.0 a g.1 (inr i)));
              unreported = λ n.
                  e
                  ∙ ap (λ v. record (channels fd) { event = v })
                      (last_event-unreported reports fd (channels fd).event n);
            },
      )
