-- ===== src/Net/EventLoop/Order.antt =====
-- network/EventLoop.cpp: the vector that is swapped out is one queue with the vector behind it.
use live_broadcast_server.Common.{
  ◌≡◌, refl, sym, ap, ◌∙◌, List, [], ◌∷◌, ◌++◌, append-nil, append_assoc,
}
use live_broadcast_server.Net.EventLoop.{
  run_in_loop, Ran, Machine, call, swap, run_one, run_all, handle_pending_func,
}

-- All the functions given to the loop so far that `HandlePendingFunc` has run or will.
abbrev pub given_so_far : {F S : Type 0} → Machine F S → List F
given_so_far m = m.ran ++ (m.swapped ++ m.event_loop.pending_func)

module _ {F S : Type 0} (execute : F → S → Ran F S) where
  -- A step of the loop's thread or of another one, with the functions that it gives the loop.
  pub data Step (m : Machine F S) : List F → Machine F S → Type 0 where
    posts : (f : F) → Step m (f ∷ []) (record m { event_loop = run_in_loop f m.event_loop })
    handles : (f : F) → Step m (execute f m.state).given (call execute f m)
    swaps : m.swapped ≡ [] → Step m [] (swap execute m)
    runs :
        (f : F) (fs : List F)
        → m.swapped ≡ f ∷ fs
        → Step m (execute f m.state).given (run_one execute f fs m)

  pub data Steps (m : Machine F S) : List F → Machine F S → Type 0 where
    none_yet : Steps m [] m
    later :
        {given more : List F} {n o : Machine F S}
        → Steps m given n
        → Step n more o
        → Steps m (given ++ more) o

  Step-order :
      (m n : Machine F S) (given : List F)
      → Step m given n
      → given_so_far n ≡ given_so_far m ++ given
  unfolding run_in_loop call swap run_one
  Step-order m _ _ (posts f) = simp (append_assoc)
  Step-order m _ _ (handles f) = simp (append_assoc)
  Step-order m _ _ (swaps e) = rw e (simp (append_assoc, append-nil))
  Step-order m _ _ (runs f fs e) = rw e (simp (append_assoc))

  pub Steps-order :
      (m n : Machine F S) (given : List F)
      → Steps m given n
      → given_so_far n ≡ given_so_far m ++ given
  Steps-order m _ _ none_yet = sym (append-nil (given_so_far m))
  Steps-order m o _ (later {given} {more} {n} s t) =
      Step-order n o more t
      ∙ ap (λ l. l ++ more) (Steps-order m n given s)
      ∙ append_assoc (given_so_far m) given more

  run_all-ran :
      (fs : List F) (m : Machine F S)
      → m.swapped ≡ fs
      → ((run_all execute fs m).ran ≡ m.ran ++ fs) × ((run_all execute fs m).swapped ≡ [])
  unfolding run_all run_one call
  run_all-ran [] m e = (sym (append-nil m.ran), e)
  run_all-ran (f ∷ fs) m e =
      let r = run_all-ran fs (run_one execute f fs m) refl in
      (r.0 ∙ append_assoc m.ran (f ∷ []) fs, r.1)

  -- A call of HandlePendingFunc ends, whatever the functions give the loop while they run: it runs
  -- exactly the functions that waited when it began, in order.
  pub handle_pending_func-ran :
      (m : Machine F S)
      → ((handle_pending_func execute m).ran ≡ m.ran ++ m.event_loop.pending_func)
        × ((handle_pending_func execute m).swapped ≡ [])
  unfolding handle_pending_func swap
  handle_pending_func-ran m = run_all-ran m.event_loop.pending_func (swap execute m) refl
