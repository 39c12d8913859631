-- ===== src/Thread/Pool/Idle.antt =====
-- thread/ThreadPool.cpp: the queue stays empty.
use live_broadcast_server.Common.{
  ◌≡◌, refl, sym, ap, ap₂, subst, ◌∙◌, Bool, true, false, none, some, List, [], ◌∷◌, ◌++◌,
  append-nil, append_assoc, if◌then◌else◌,
}
use live_broadcast_server.Thread.Pool.{
  ThreadPool, set_thread_num, start, stop, run, run_in, take_in, take_a_task, Work, listed, Event,
  sets, starts, stops, turns, wakes, gives, keep_or, turn_in, turn, act, act_all, given_by,
  all_given, new_work,
}

-- Callers have run what was given, and threads nothing.
record IsIdle {T : Type 0} (w : Work T) (given : List T) : Type 0 where
  empty : w.pool.task_deque ≡ []
  callers : w.by_callers ≡ given
  threads_none : w.by_threads ≡ []

module _ {T : Type 0} where
  run_in-IsIdle :
      (ds : List T) (t : T) (p : ThreadPool T)
      → ds ≡ []
      → ((run_in ds t p).0 ≡ some t) × ((run_in ds t p).1 ≡ p)
  unfolding run_in
  run_in-IsIdle [] t p e = (refl, refl)
  run_in-IsIdle (d ∷ ds) t p e = absurd (cc)

  take_in-IsIdle :
      (b : Bool) (ds : List T) (w : Work T) (given : List T)
      → ds ≡ []
      → IsIdle w given
      → IsIdle (turn_in w (take_in b ds w.pool)) given
  unfolding turn_in take_in
  take_in-IsIdle true [] w given e i = i
  take_in-IsIdle false [] w given e i = record {
    empty = i.empty;
    callers = i.callers;
    threads_none = append-nil w.by_threads ∙ i.threads_none;
  }
  take_in-IsIdle b (d ∷ ds) w given e i = absurd (cc)

  keep_or-deque :
      (b : Bool) (p q : ThreadPool T)
      → q.task_deque ≡ p.task_deque
      → (keep_or p (if b then none else some q)).task_deque ≡ p.task_deque
  keep_or-deque true p q e = refl
  keep_or-deque false p q e = e

  turn-IsIdle : (w : Work T) (given : List T) → IsIdle w given → IsIdle (turn w) given
  unfolding turn take_a_task
  turn-IsIdle w given i = either w.pool.started
    where
      either : (b : Bool) → IsIdle (if b then turn_in w (take_a_task w.pool) else w) given
      either true = take_in-IsIdle w.pool.started w.pool.task_deque w given i.empty i
      either false = i

  act-IsIdle :
      (w : Work T) (e : Event T) (given : List T)
      → IsIdle w given
      → IsIdle (act w e) (given ++ given_by e)
  unfolding act set_thread_num start stop run take_a_task
  act-IsIdle w (sets n) given i = record {
    empty = keep_or-deque w.pool.started w.pool _ refl ∙ i.empty;
    callers = i.callers ∙ sym (append-nil given);
    threads_none = i.threads_none;
  }
  act-IsIdle w starts given i = record {
    empty = keep_or-deque w.pool.started w.pool _ refl ∙ i.empty;
    callers = i.callers ∙ sym (append-nil given);
    threads_none = i.threads_none;
  }
  act-IsIdle w stops given i = record {
    empty = i.empty;
    callers = i.callers ∙ sym (append-nil given);
    threads_none = i.threads_none;
  }
  act-IsIdle w turns given i =
      subst (IsIdle (turn w)) (sym (append-nil given)) (turn-IsIdle w given i)
  act-IsIdle w wakes given i =
      subst (IsIdle (turn_in w (take_a_task w.pool))) (sym (append-nil given))
        (take_in-IsIdle w.pool.started w.pool.task_deque w given i.empty i)
  act-IsIdle w (gives t) given i =
      let r = run_in-IsIdle w.pool.task_deque t w.pool i.empty in
      record {
        empty = ap (λ p. p.task_deque) r.1 ∙ i.empty;
        callers = ap₂ (λ l o. l ++ listed o) i.callers r.0;
        threads_none = i.threads_none;
      }

  act_all-IsIdle :
      (es : List (Event T)) (w : Work T) (given : List T)
      → IsIdle w given
      → IsIdle (act_all w es) (given ++ all_given es)
  unfolding act_all
  act_all-IsIdle [] w given i = subst (IsIdle w) (sym (append-nil given)) i
  act_all-IsIdle (e ∷ es) w given i =
      subst (IsIdle (act_all (act w e) es)) (append_assoc given (given_by e) (all_given es))
        (act_all-IsIdle es (act w e) (given ++ given_by e) (act-IsIdle w e given i))

  -- Whatever happens to a new pool, in any order, every task is run by the thread that gave it, in
  -- order, the pool's threads run none, and the queue is empty.
  pub act_all-by_callers :
      (es : List (Event T))
      → ((act_all new_work es).by_callers ≡ all_given es)
        × ((act_all new_work es).by_threads ≡ [])
        × ((act_all new_work es).pool.task_deque ≡ [])
  act_all-by_callers es =
      let i =
        act_all-IsIdle es new_work []
          (record { empty = refl; callers = refl; threads_none = refl }) in
      (i.callers, i.threads_none, i.empty)
