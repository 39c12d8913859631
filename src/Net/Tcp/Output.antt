-- ===== src/Net/Tcp/Output.antt =====
-- network/TcpConnection.cpp, the sending side: the kernel gets the bytes in the order of the calls.
use live_broadcast_server.Common.{
  ℕ, suc, ◌≡◌, refl, sym, ap, ◌∙◌, inl, inr, Bool, true, false, not, ◌&&◌, ◌||◌, List, [], ◌∷◌,
  ◌++◌, append-nil, append_assoc, arith, ltb, ◌==◌, if◌then◌else◌, lt→ltb, Bool-cases, length, take,
  drop, take-append-drop,
}
use live_broadcast_server.Net.Channel.{is_writing, disable_writable}
use live_broadcast_server.Net.Tcp.{
  TcpConnection, Status, SendResult, take_in, keep_rest, shutdown, send_now, send_in_loop, send,
  on_writable, after_write, after_drained, is_fatal, is_closing, is_connected, run_queued,
  disconnecting,
}

-- All that was accepted for sending: what the kernel has, and what waits.
abbrev pub output : TcpConnection → List ℕ
output c = c.socket.wire ++ c.send_buffer

shutdown-output : (c : TcpConnection) → output (shutdown c) ≡ output c
unfolding shutdown
shutdown-output c = ground arith

keep_rest-output :
    (c : TcpConnection) (rest : List ℕ) → output (keep_rest c rest) ≡ output c ++ rest
unfolding keep_rest
keep_rest-output c [] = sym (append-nil (output c))
keep_rest-output c (x ∷ xs) =
    rw (lt→ltb 0 (suc (length xs)) (omega arith))
      (sym (append_assoc c.socket.wire c.send_buffer (x ∷ xs)))

empty-length : (xs : List ℕ) → (length xs == 0) ≡ true → xs ≡ []
empty-length [] e = refl
empty-length (x ∷ xs) e = absurd (ground arith)

-- Bytes given to a kernel that takes some of them, with nothing waiting, and the rest kept.
split-output :
    (wire waiting xs : List ℕ) (n : ℕ)
    → waiting ≡ []
    → ((wire ++ take n xs) ++ waiting) ++ drop n xs ≡ (wire ++ waiting) ++ xs
split-output wire waiting xs n e = rw (
  e,
  append-nil (wire ++ take n xs),
  append-nil wire,
  append_assoc wire (take n xs) (drop n xs),
  take-append-drop n xs,
)

-- The data of a direct call that the peer's end has made vain.
abbrev broken : SendResult → Bool
broken r = not (ltb 0 r.size) && is_fatal r.errno

send_now-output :
    (c : TcpConnection) (xs : List ℕ) (r : SendResult)
    → c.send_buffer ≡ []
    → output (send_now c xs r).0 ≡ output c ++ (if broken r then [] else xs)
unfolding send_now
send_now-output c xs r e = elim (Bool-cases (ltb 0 r.size)) [
  | inl p ↦ rw p (
      keep_rest-output (record c { socket = take_in c.socket r.size xs }) (drop r.size xs)
      ∙ split-output c.socket.wire c.send_buffer xs r.size e)
  | inr z ↦ (elim (Bool-cases (is_fatal r.errno)) [
    | inl f ↦ rw (z, f) (shutdown-output c ∙ sym (append-nil (output c)))
    | inr f ↦ rw (z, f) (keep_rest-output c xs)
  ])
]

-- A call sends directly when the channel is not at writing and nothing waits.
abbrev is_direct : TcpConnection → Bool
is_direct c = not (is_writing c.channel) && (length c.send_buffer == 0)

-- What of the data of a call is given up: all of it when the connection closes or is closed, or when
-- a direct call meets a peer that is gone; else nothing.
abbrev pub is_lost : TcpConnection → SendResult → Bool
is_lost c r = is_closing c.connection_status || (is_direct c && broken r)

-- Data sent is put at the end of all data accepted so far, of which the kernel has a first part;
-- data given up, because the connection closes or a direct call meets a peer that is gone, changes
-- nothing.
pub send_in_loop-output :
    (c : TcpConnection) (xs : List ℕ) (r : SendResult)
    → output (send_in_loop c xs r).0 ≡ output c ++ (if is_lost c r then [] else xs)
unfolding send_in_loop
send_in_loop-output c xs r = elim (Bool-cases (is_closing c.connection_status)) [
  | inl z ↦ rw z (sym (append-nil (output c)))
  | inr o ↦ (elim (Bool-cases (is_direct c)) [
    | inl d ↦ rw (o, d) (send_now-output c xs r (empty-length c.send_buffer (ground arith)))
    | inr d ↦ rw (o, d) (keep_rest-output c xs)
  ])
]

after_drained-output : (s : Status) (c : TcpConnection) → output (after_drained s c) ≡ output c
unfolding after_drained
after_drained-output disconnecting c = shutdown-output c
after_drained-output s c = refl

after_write-output : (c : TcpConnection) → output (after_write c).0 ≡ output c
unfolding after_write
after_write-output c = elim (Bool-cases (length c.send_buffer == 0)) [
  | inl z ↦
      rw z (
        after_drained-output c.connection_status
          (record c { channel = disable_writable c.channel }))
  | inr z ↦ rw z refl
]

-- Writing what waits takes nothing away and adds nothing.
pub on_writable-output :
    (c : TcpConnection) (r : SendResult) → output (on_writable c r).0 ≡ output c
unfolding on_writable
on_writable-output c r = elim (Bool-cases (is_writing c.channel)) [
  | inr w ↦ rw w refl
  | inl w ↦ (elim (Bool-cases (ltb 0 r.size)) [
    | inr z ↦ rw (w, z) refl
    | inl p ↦
        rw (w, p)
          (after_write-output (record c {
            socket = take_in c.socket r.size c.send_buffer;
            send_buffer = drop r.size c.send_buffer;
          })
            ∙ append_assoc c.socket.wire (take r.size c.send_buffer) (drop r.size c.send_buffer)
            ∙ ap (λ l. c.socket.wire ++ l) (take-append-drop r.size c.send_buffer))
  ])
]

-- The calls that reach the sending side.
pub data Action : Type 0 where
  sends : Bool → List ℕ → SendResult → Action
  runs_queued writes : SendResult → Action

act : TcpConnection → Action → TcpConnection
unfolding send run_queued on_writable
act c (sends in_loop xs r) = (send c in_loop xs r).0
act c (runs_queued r) = (run_queued c r).0
act c (writes r) = (on_writable c r).0

-- The data that an action puts out: the caller's, or the oldest queued call's; none when given up.
abbrev put_out : TcpConnection → Action → List ℕ
put_out c (sends in_loop xs r) =
    if is_connected c.connection_status && (in_loop && not (is_lost c r)) then xs else []
put_out c (runs_queued r) = elim c.queued [ [] ↦ [] | xs ∷ rest ↦ (if is_lost c r then [] else xs) ]
put_out c (writes r) = []

if_not : (b : Bool) (xs : List ℕ) → (if b then [] else xs) ≡ (if not b then xs else [])
if_not true xs = refl
if_not false xs = refl

send-direct :
    (c : TcpConnection) (xs : List ℕ) (r : SendResult)
    → is_connected c.connection_status ≡ true
    → send c true xs r ≡ send_in_loop c xs r
unfolding send
send-direct c xs r y = rw y

send-output :
    (c : TcpConnection) (in_loop : Bool) (xs : List ℕ) (r : SendResult)
    → output (send c in_loop xs r).0 ≡ output c ++ put_out c (sends in_loop xs r)
unfolding send
send-output c true xs r = elim (Bool-cases (is_connected c.connection_status)) [
  | inr n ↦ rw n (sym (append-nil (output c)))
  | inl y ↦
      ap (λ p. output p.0) (send-direct c xs r y)
      ∙ send_in_loop-output c xs r
      ∙ ap (λ l. output c ++ l)
          (if_not (is_lost c r) xs ∙ ap (λ b. if b && not (is_lost c r) then xs else []) (sym y))
]
send-output c false xs r = elim (Bool-cases (is_connected c.connection_status)) [
  | inr n ↦ rw n (sym (append-nil (output c)))
  | inl y ↦ rw y (sym (append-nil (output c)))
]

run_queued-output :
    (c : TcpConnection) (q : List (List ℕ)) (r : SendResult)
    → c.queued ≡ q
    → output (run_queued c r).0 ≡ output c ++ put_out c (runs_queued r)
unfolding run_queued
run_queued-output c [] r e = rw e (sym (append-nil (output c)))
run_queued-output c (xs ∷ rest) r e = rw e (send_in_loop-output (record c { queued = rest }) xs r)

act-output : (c : TcpConnection) (a : Action) → output (act c a) ≡ output c ++ put_out c a
unfolding act
act-output c (sends in_loop xs r) = send-output c in_loop xs r
act-output c (runs_queued r) = run_queued-output c c.queued r refl
act-output c (writes r) = on_writable-output c r ∙ sym (append-nil (output c))

pub act_all : TcpConnection → List Action → TcpConnection
unfolding act
act_all c [] = c
act_all c (a ∷ later) = act_all (act c a) later

pub put_out_all : TcpConnection → List Action → List ℕ
unfolding act
put_out_all c [] = []
put_out_all c (a ∷ later) = put_out c a ++ put_out_all (act c a) later

-- Over any sends, writes and queued calls, whatever the kernel takes of each, what it has and what
-- waits are together the data put out, in order and once.
pub act_all-output :
    (c : TcpConnection) (later : List Action)
    → output (act_all c later) ≡ output c ++ put_out_all c later
unfolding act_all put_out_all
act_all-output c [] = sym (append-nil (output c))
act_all-output c (a ∷ later) =
    act_all-output (act c a) later
    ∙ ap (λ l. l ++ put_out_all (act c a) later) (act-output c a)
    ∙ append_assoc (output c) (put_out c a) (put_out_all (act c a) later)
