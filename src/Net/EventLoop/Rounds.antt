-- ===== src/Net/EventLoop/Rounds.antt =====
-- network/EventLoop.cpp: the rounds of `Loop` are steps of the relation in Order, and what `Stop` does.
use live_broadcast_server.Common.{
  ◌≡◌, refl, sym, ap, subst, ◌∙◌, Bool, true, false, List, [], ◌∷◌, ◌++◌, append-nil, append_assoc,
  if◌then◌else◌,
}
use live_broadcast_server.Net.EventLoop.{
  stop, Ran, Machine, call, handle_active_channel, swap, run_one, run_all, handle_pending_func,
  round, rounds, loop,
}
use live_broadcast_server.Net.EventLoop.Order.{
  Step, handles, swaps, runs, Steps, none_yet, later, handle_pending_func-ran, given_so_far,
  Steps-order,
}

module _ {F S : Type 0} (execute : F → S → Ran F S) where
  Steps-append :
      (m n o : Machine F S) (given more : List F)
      → Steps execute m given n
      → Steps execute n more o
      → Steps execute m (given ++ more) o
  Steps-append m n _ given _ s none_yet =
      subst (λ l. Steps execute m l n) (sym (append-nil given)) s
  Steps-append m n o given _ s (later {given = g} {more = h} {n = p} t u) =
      subst (λ l. Steps execute m l o) (append_assoc given g h)
        (later (Steps-append m n p given g s t) u)

  -- Some functions are given meanwhile.
  Reaches : Machine F S → Machine F S → Type 0
  Reaches m n = (given : List F) × Steps execute m given n

  stays : (m : Machine F S) → Reaches m m
  unfolding Reaches
  stays m = ([], none_yet)

  then_step :
      (m n o : Machine F S) (given : List F) → Step execute m given n → Reaches n o → Reaches m o
  unfolding Reaches
  then_step m n o given s r =
      (([] ++ given) ++ r.0, Steps-append m n o ([] ++ given) r.0 (later none_yet s) r.1)

  then_all : (m n o : Machine F S) → Reaches m n → Reaches n o → Reaches m o
  unfolding Reaches
  then_all m n o r s = (r.0 ++ s.0, Steps-append m n o r.0 s.0 r.1 s.1)

  handle_active_channel-Reaches :
      (active : List F) (m : Machine F S) → Reaches m (handle_active_channel execute active m)
  unfolding handle_active_channel
  handle_active_channel-Reaches [] m = stays m
  handle_active_channel-Reaches (f ∷ fs) m =
      then_step m (call execute f m) _ _ (handles f)
        (handle_active_channel-Reaches fs (call execute f m))

  run_all-Reaches :
      (fs : List F) (m : Machine F S) → m.swapped ≡ fs → Reaches m (run_all execute fs m)
  unfolding run_all run_one
  run_all-Reaches [] m e = stays m
  run_all-Reaches (f ∷ fs) m e =
      then_step m (run_one execute f fs m) _ _ (runs f fs e)
        (run_all-Reaches fs (run_one execute f fs m) refl)

  handle_active_channel-swapped :
      (active : List F) (m : Machine F S)
      → (handle_active_channel execute active m).swapped ≡ m.swapped
  unfolding handle_active_channel call
  handle_active_channel-swapped [] m = refl
  handle_active_channel-swapped (f ∷ fs) m = handle_active_channel-swapped fs (call execute f m)

  handle_pending_func-Reaches :
      (m : Machine F S) → m.swapped ≡ [] → Reaches m (handle_pending_func execute m)
  unfolding handle_pending_func swap
  handle_pending_func-Reaches m e =
      then_step m (swap execute m) _ [] (swaps e)
        (run_all-Reaches m.event_loop.pending_func (swap execute m) refl)

  round-Reaches :
      (active : List F) (m : Machine F S) → m.swapped ≡ [] → Reaches m (round execute active m)
  unfolding round
  round-Reaches active m e =
      let n = handle_active_channel execute active m in
      then_all m n (round execute active m) (handle_active_channel-Reaches active m)
        (handle_pending_func-Reaches n (handle_active_channel-swapped active m ∙ e))

  round-swapped : (active : List F) (m : Machine F S) → (round execute active m).swapped ≡ []
  unfolding round
  round-swapped active m =
      (handle_pending_func-ran execute (handle_active_channel execute active m)).1

  either-Reaches : (b : Bool) (m n : Machine F S) → Reaches m n → Reaches m (if b then n else m)
  unfolding Reaches
  either-Reaches true m n r = r
  either-Reaches false m n r = ([], none_yet)

  rounds-Reaches :
      (polls : List (List F)) (m : Machine F S)
      → m.swapped ≡ []
      → Reaches m (rounds execute polls m)
  unfolding rounds
  rounds-Reaches [] m e = stays m
  rounds-Reaches (active ∷ polls) m e =
      let n = round execute active m in
      either-Reaches m.event_loop.looping m (rounds execute polls n) (
        then_all m n (rounds execute polls n) (round-Reaches active m e)
          (rounds-Reaches polls n (round-swapped active m)))

  -- However many rounds a loop makes, whatever its handlers and functions do, the rounds are steps
  -- of the relation in Order, and all the functions that were run, are swapped out or still wait
  -- are, in this order, those of before followed by those given meanwhile: none is lost, run twice
  -- or overtaken. The loop starts between two calls of HandlePendingFunc.
  pub rounds-order :
      (polls : List (List F)) (m : Machine F S)
      → m.swapped ≡ []
      → (given : List F) × Steps execute m given (rounds execute polls m)
        × (given_so_far (rounds execute polls m) ≡ given_so_far m ++ given)
  unfolding Reaches
  rounds-order polls m e =
      let r = rounds-Reaches polls m e in (r.0, r.1, Steps-order execute m _ r.0 r.1)

  rounds-stopped :
      (polls : List (List F)) (m : Machine F S)
      → m.event_loop.looping ≡ false
      → rounds execute polls m ≡ m
  unfolding rounds
  rounds-stopped [] m e = refl
  rounds-stopped (active ∷ polls) m e =
      ap (λ b. if b then rounds execute polls (round execute active m) else m) e

  pub rounds-stop :
      (active : List F) (polls : List (List F)) (m : Machine F S)
      → m.event_loop.looping ≡ true
      → (round execute active m).event_loop.looping ≡ false
      → rounds execute (active ∷ polls) m ≡ round execute active m
  unfolding rounds
  rounds-stop active polls m e s =
      ap (λ b. if b then rounds execute polls (round execute active m) else m) e
      ∙ rounds-stopped polls (round execute active m) s

  pub loop-early_stop :
      (polls : List (List F)) (m : Machine F S)
      → loop execute polls (record m { event_loop = stop m.event_loop }) ≡ loop execute polls m
  unfolding loop stop
  loop-early_stop polls m = refl
