-- ===== src/Thread/Pool.antt =====
-- thread/ThreadPool.h and ThreadPool.cpp: the queue of tasks and who runs them. The mutex makes each
-- operation one step; a thread that waits makes no step.
pub mod Idle
use live_broadcast_server.Common.{
  ℕ, ◌+◌, ◌-◌, ◌/◌, ap, Bool, true, false, Option, none, some, List, [], ◌∷◌, ◌++◌, if◌then◌else◌,
  take,
}

pub record ThreadPool (T : Type 0) : Type 0 where
  pub started : Bool
  pub thread_num : ℕ
  -- how many threads have been started
  pub threads : ℕ
  pub task_deque : List T

-- `TakeATask`: wait, or return the first task or none.
pub data Taken (T : Type 0) : Type 0 where
  waits : Taken T
  returns : Option T → ThreadPool T → Taken T

-- The pool with the tasks that callers and threads have run.
pub record Work (T : Type 0) : Type 0 where
  pub pool : ThreadPool T
  pub by_callers : List T
  pub by_threads : List T

-- What happens to a pool; `turns` is a round of `ThreadFunction` in some thread,
-- and `wakes` what is left of the round of a thread that waited.
pub data Event (T : Type 0) : Type 0 where
  sets : ℕ → Event T
  starts stops turns wakes : Event T
  gives : T → Event T

module _ {T : Type 0} where
  abbrev pub new_pool : ThreadPool T
  new_pool = record { started = false; thread_num = 0; threads = 0; task_deque = [] }

  -- `none`: the assertion fails.
  pub set_thread_num : ℕ → ThreadPool T → Option (ThreadPool T)
  set_thread_num n p = if p.started then none else some (record p { thread_num = n })

  pub start : ThreadPool T → Option (ThreadPool T)
  start p =
      if p.started
      then none
      else some (record p { started = true; threads = p.threads + p.thread_num })

  pub stop : ThreadPool T → ThreadPool T
  stop p = record p { started = false }

  run_in : List T → T → ThreadPool T → Option T × ThreadPool T
  run_in [] task p = (some task, p)
  run_in (t ∷ ts) task p = (none, record p { task_deque = p.task_deque ++ (task ∷ []) })

  -- `Run`: the task that the caller runs itself, if it does.
  pub run : T → ThreadPool T → Option T × ThreadPool T
  unfolding run_in
  run task p = run_in p.task_deque task p

  pub take_in : Bool → List T → ThreadPool T → Taken T
  take_in true [] p = waits
  take_in false [] p = returns none p
  take_in b (t ∷ ts) p = returns (some t) (record p { task_deque = ts })

  pub take_a_task : ThreadPool T → Taken T
  unfolding take_in
  take_a_task p = take_in p.started p.task_deque p

  abbrev pub listed : Option T → List T
  listed none = []
  listed (some t) = t ∷ []

  abbrev pub keep_or : ThreadPool T → Option (ThreadPool T) → ThreadPool T
  keep_or p none = p
  keep_or p (some q) = q

  pub turn_in : Work T → Taken T → Work T
  turn_in w waits = w
  turn_in w (returns o p) = record w { pool = p; by_threads = w.by_threads ++ listed o }

  -- `while (started_) { TaskFunc task(TakeATask()); if (task) task(); }`, one round.
  pub turn : Work T → Work T
  unfolding turn_in take_a_task
  turn w = if w.pool.started then turn_in w (take_a_task w.pool) else w

  pub act : Work T → Event T → Work T
  unfolding set_thread_num start stop run turn turn_in take_a_task
  act w (sets n) = record w { pool = keep_or w.pool (set_thread_num n w.pool) }
  act w starts = record w { pool = keep_or w.pool (start w.pool) }
  act w stops = record w { pool = stop w.pool }
  act w turns = turn w
  act w wakes = turn_in w (take_a_task w.pool)
  act w (gives t) = record w {
    pool = (run t w.pool).1;
    by_callers = w.by_callers ++ listed (run t w.pool).0;
  }

  pub act_all : Work T → List (Event T) → Work T
  unfolding act
  act_all w [] = w
  act_all w (e ∷ es) = act_all (act w e) es

  abbrev pub given_by : Event T → List T
  given_by (gives t) = t ∷ []
  given_by _ = []

  abbrev pub all_given : List (Event T) → List T
  all_given [] = []
  all_given (e ∷ es) = given_by e ++ all_given es

  abbrev pub new_work : Work T
  new_work = record { pool = new_pool; by_callers = []; by_threads = [] }
