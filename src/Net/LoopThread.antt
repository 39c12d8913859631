-- ===== src/Net/LoopThread.antt =====
-- network/EventLoopThread.cpp: a thread with its loop, and the owner that starts and destroys it.
use live_broadcast_server.Common.{◌≡◌, refl, ap, ◌∙◌, Bool, true, false}

-- Where the thread is in `ThreadFunc`.
pub data Position : Type 0 where
  not_started starting in_function published in_loop out_of_loop finished : Position

-- Where the owner is: before `Start`, in its wait, behind it, and in the `Join` of the destructor.
pub data Owner : Type 0 where
  before_start waiting has_loop joining destroyed : Owner

-- `loop_` is null or the loop on the thread's stack; `looping` is that loop's.
pub record LoopThread : Type 0 where
  pub position : Position
  pub owner : Owner
  pub loop_set : Bool
  pub looping : Bool

abbrev pub new_thread : LoopThread
new_thread = record {
  position = not_started;
  owner = before_start;
  loop_set = false;
  looping = false;
}

-- `thread_.Start()`
abbrev pub start_thread : LoopThread → LoopThread
start_thread t = record t { position = starting; owner = waiting }

-- `while (loop_ == nullptr) cond_.Wait(); loop = loop_;`
abbrev pub get_loop : LoopThread → LoopThread
get_loop t = record t { owner = has_loop }

-- `EventLoop loop;`
abbrev pub construct_loop : LoopThread → LoopThread
construct_loop t = record t { position = in_function; looping = false }

-- `loop_ = &loop;`
abbrev pub publish : LoopThread → LoopThread
publish t = record t { position = published; loop_set = true }

-- The first line of `loop.Loop()`.
abbrev pub enter_loop : LoopThread → LoopThread
enter_loop t = record t { position = in_loop; looping = true }

abbrev pub leave_loop : LoopThread → LoopThread
leave_loop t = record t { position = out_of_loop }

-- `loop_ = nullptr;`
abbrev pub clear_loop : LoopThread → LoopThread
clear_loop t = record t { position = finished; loop_set = false }

-- `~EventLoopThread`, up to the `Join`.
abbrev pub destroy_in : Bool → LoopThread → LoopThread
destroy_in true t = record t { owner = joining; looping = false }
destroy_in false t = record t { owner = destroyed }

abbrev pub destroy : LoopThread → LoopThread
destroy t = destroy_in t.loop_set t

abbrev pub join : LoopThread → LoopThread
join t = record t { owner = destroyed }

pub data Step (t : LoopThread) : LoopThread → Type 0 where
  starts : t.owner ≡ before_start → Step t (start_thread t)
  gets_loop : t.owner ≡ waiting → t.loop_set ≡ true → Step t (get_loop t)
  destroys : t.owner ≡ has_loop → Step t (destroy t)
  joins : t.owner ≡ joining → t.position ≡ finished → Step t (join t)
  constructs : t.position ≡ starting → Step t (construct_loop t)
  publishes : t.position ≡ in_function → Step t (publish t)
  enters : t.position ≡ published → Step t (enter_loop t)
  leaves : t.position ≡ in_loop → t.looping ≡ false → Step t (leave_loop t)
  clears : t.position ≡ out_of_loop → Step t (clear_loop t)

pub data Reach (t : LoopThread) : LoopThread → Type 0 where
  here : Reach t t
  next : {u v : LoopThread} → Reach t u → Step u v → Reach t v

-- The owner waits for a thread that stays in its loop.
pub record IsStuck (t : LoopThread) : Type 0 where
  pub in_while : t.position ≡ in_loop
  pub goes_on : t.looping ≡ true
  pub waits : t.owner ≡ joining

Step-IsStuck : (t u : LoopThread) → IsStuck t → Step t u → IsStuck u
Step-IsStuck t u s (starts e) = absurd (let p = s.waits in cc)
Step-IsStuck t u s (gets_loop e f) = absurd (let p = s.waits in cc)
Step-IsStuck t u s (destroys e) = absurd (let p = s.waits in cc)
Step-IsStuck t u s (joins e f) = absurd (let p = s.in_while in cc)
Step-IsStuck t u s (constructs e) = absurd (let p = s.in_while in cc)
Step-IsStuck t u s (publishes e) = absurd (let p = s.in_while in cc)
Step-IsStuck t u s (enters e) = absurd (let p = s.in_while in cc)
Step-IsStuck t u s (leaves e f) = absurd (let p = s.goes_on in cc)
Step-IsStuck t u s (clears e) = absurd (let p = s.in_while in cc)

Reach-IsStuck : (t u : LoopThread) → IsStuck t → Reach t u → IsStuck u
Reach-IsStuck t _ s here = s
Reach-IsStuck t v s (next {u} r p) = Step-IsStuck u v (Reach-IsStuck t u s r) p

-- If the owner destroys the thread after its loop is known but before Loop sets looping_, then Loop
-- undoes the Stop: whatever steps follow, the thread stays in its loop and the owner in Join.
pub destroy_early-IsStuck :
    (t u : LoopThread)
    → t.position ≡ published
    → t.owner ≡ has_loop
    → t.loop_set ≡ true
    → Reach (enter_loop (destroy t)) u
    → IsStuck u
destroy_early-IsStuck t u p o l r =
    Reach-IsStuck (enter_loop (destroy t)) u
      (record { in_while = refl; goes_on = refl; waits = ap (λ b. (destroy_in b t).owner) l }) r

-- The loop on the thread's stack is there, and known to the owner.
abbrev pub is_published : Position → Bool
is_published published = true
is_published in_loop = true
is_published out_of_loop = true
is_published _ = false

record IsSafe (t : LoopThread) : Type 0 where
  points : t.loop_set ≡ is_published t.position
  waits_first : t.owner ≡ before_start → t.position ≡ not_started

destroy_in-IsSafe : (b : Bool) (t : LoopThread) → IsSafe t → IsSafe (destroy_in b t)
destroy_in-IsSafe true t s = record { points = s.points; waits_first = λ e. absurd (cc) }
destroy_in-IsSafe false t s = record { points = s.points; waits_first = λ e. absurd (cc) }

Step-IsSafe : (t u : LoopThread) → IsSafe t → Step t u → IsSafe u
Step-IsSafe t u s (starts e) = record {
  points = s.points ∙ ap is_published (s.waits_first e);
  waits_first = λ f. absurd (cc);
}
Step-IsSafe t u s (gets_loop e f) = record { points = s.points; waits_first = λ g. absurd (cc) }
Step-IsSafe t u s (destroys e) = destroy_in-IsSafe t.loop_set t s
Step-IsSafe t u s (joins e f) = record { points = s.points; waits_first = λ g. absurd (cc) }
Step-IsSafe t u s (constructs e) = record {
  points = s.points ∙ ap is_published e;
  waits_first = λ g. absurd (let p = s.waits_first g in cc);
}
Step-IsSafe t u s (publishes e) = record {
  points = refl;
  waits_first = λ g. absurd (let p = s.waits_first g in cc);
}
Step-IsSafe t u s (enters e) = record {
  points = s.points ∙ ap is_published e;
  waits_first = λ g. absurd (let p = s.waits_first g in cc);
}
Step-IsSafe t u s (leaves e f) = record {
  points = s.points ∙ ap is_published e;
  waits_first = λ g. absurd (let p = s.waits_first g in cc);
}
Step-IsSafe t u s (clears e) = record {
  points = refl;
  waits_first = λ g. absurd (let p = s.waits_first g in cc);
}

Reach-IsSafe : (t : LoopThread) → Reach new_thread t → IsSafe t
Reach-IsSafe _ here = record { points = refl; waits_first = λ e. refl }
Reach-IsSafe v (next {u} r p) = Step-IsSafe u v (Reach-IsSafe u r) p

pub loop_set-published :
    (t : LoopThread) → Reach new_thread t → t.loop_set ≡ is_published t.position
loop_set-published t r = (Reach-IsSafe t r).points
