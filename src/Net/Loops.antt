-- ===== src/Net/Loops.antt =====
-- network/EventLoopThreadPool.h and EventLoopThreadPool.cpp: the loops of a server in turn. A loop is a
-- number; starting a thread, which gives the thread's loop, is an argument.
use live_broadcast_server.Common.{
  ℕ, zero, suc, ◌+◌, ◌%◌, ◌<◌, ◌≡◌, refl, sym, ap, ◌∙◌, false, Option, some, List, [], ◌∷◌, ◌++◌,
  arith, ◌==◌, if◌then◌else◌, get_elem?,
}
use native.Mathlib.Nat.{mod-lt, mod-add-mod, zero-mod}

pub record EventLoopThreadPool : Type 0 where
  pub base_loop : ℕ
  pub loops : List ℕ
  pub next_thread_id : ℕ
  pub thread_num : ℕ

abbrev pub new_pool : ℕ → EventLoopThreadPool
new_pool base = record { base_loop = base; loops = []; next_thread_id = 0; thread_num = 0 }

unfoldable pub set_thread_num : EventLoopThreadPool → ℕ → EventLoopThreadPool
set_thread_num p n = record p { thread_num = n }

-- The loops of the threads `i`, `i + 1` and so on, `n` of them.
unfoldable pub start_threads : (ℕ → ℕ) → ℕ → ℕ → List ℕ
start_threads thread i zero = []
start_threads thread i (suc n) = thread i ∷ start_threads thread (suc i) n

unfoldable pub start : (ℕ → ℕ) → EventLoopThreadPool → EventLoopThreadPool
unfolding start_threads
start thread p = record p { loops = p.loops ++ start_threads thread 0 p.thread_num }

-- `none`: an index past the end of the vector.
unfoldable pub get_next_loop : EventLoopThreadPool → Option ℕ × EventLoopThreadPool
get_next_loop p = if p.thread_num == 0 then (some p.base_loop, p) else (
  get_elem? p.loops p.next_thread_id,
  record p { next_thread_id = (p.next_thread_id + 1) % p.thread_num },
)

-- The pool after `k` calls.
pub after_calls : ℕ → EventLoopThreadPool → EventLoopThreadPool
unfolding get_next_loop
after_calls zero p = p
after_calls (suc k) p = (get_next_loop (after_calls k p)).1

pub after_calls-zero : (p : EventLoopThreadPool) → p ≡ after_calls 0 p
unfolding after_calls
after_calls-zero p = refl

pub after_calls-suc :
    (k : ℕ) (p : EventLoopThreadPool) → (get_next_loop (after_calls k p)).1 ≡ after_calls (k + 1) p
unfolding after_calls
after_calls-suc k p = ap (λ j. after_calls j p) (let e : suc k ≡ k + 1 = omega arith in e)

get_elem-start_threads :
    (thread : ℕ → ℕ) (i n j : ℕ)
    → j < n
    → get_elem? (start_threads thread i n) j ≡ some (thread (i + j))
unfolding start_threads
get_elem-start_threads thread i zero j h = absurd (omega arith)
get_elem-start_threads thread i (suc n) zero h =
    ap (λ x. some (thread x)) (let e : i ≡ i + 0 = omega arith in e)
get_elem-start_threads thread i (suc n) (suc j) h =
    get_elem-start_threads thread (suc i) n j (omega arith)
    ∙ ap (λ x. some (thread x)) (let e : suc i + j ≡ i + suc j = omega arith in e)

abbrev pub started : (ℕ → ℕ) → ℕ → ℕ → EventLoopThreadPool
started thread base n = start thread (set_thread_num (new_pool base) n)

not_zero : (n : ℕ) → 0 < n → (n == 0) ≡ false
not_zero n h = ground arith

next_mod : (n k : ℕ) → 0 < n → (k % n + 1) % n ≡ suc k % n
next_mod n k h = mod-add-mod k n 1 ∙ ap (λ x. x % n) (let e : k + 1 ≡ suc k = omega arith in e)

next-started :
    (thread : ℕ → ℕ) (base n i : ℕ)
    → 0 < n
    → (get_next_loop (record (started thread base n) { next_thread_id = i })).1
      ≡ record (started thread base n) { next_thread_id = (i + 1) % n }
unfolding get_next_loop start set_thread_num
next-started thread base n i h = rw (not_zero n h)

after_calls-started :
    (thread : ℕ → ℕ) (base n k : ℕ)
    → 0 < n
    → after_calls k (started thread base n)
      ≡ record (started thread base n) { next_thread_id = k % n }
unfolding after_calls start set_thread_num
after_calls-started thread base n zero h =
    ap (λ i. record (started thread base n) { next_thread_id = i }) (sym (zero-mod n))
after_calls-started thread base n (suc k) h =
    ap (λ p. (get_next_loop p).1) (after_calls-started thread base n k h)
    ∙ next-started thread base n (k % n) h
    ∙ ap (λ i. record (started thread base n) { next_thread_id = i }) (next_mod n k h)

loop-started :
    (thread : ℕ → ℕ) (base n i : ℕ)
    → 0 < n
    → i < n
    → (get_next_loop (record (started thread base n) { next_thread_id = i })).0 ≡ some (thread i)
unfolding get_next_loop start set_thread_num
loop-started thread base n i h l = rw (not_zero n h) (
    get_elem-start_threads thread 0 n i l
    ∙ ap (λ x. some (thread x)) (let e : 0 + i ≡ i = omega arith in e))

-- Of a pool that was started with some threads, the call of GetNextLoop after k others gives the
-- loop of thread k % n: the threads get the connections in turn.
pub get_next_loop-round :
    (thread : ℕ → ℕ) (base n k : ℕ)
    → 0 < n
    → (get_next_loop (after_calls k (started thread base n))).0 ≡ some (thread (k % n))
unfolding get_next_loop start set_thread_num
get_next_loop-round thread base n k h =
    ap (λ p. (get_next_loop p).0) (after_calls-started thread base n k h)
    ∙ loop-started thread base n (k % n) h (mod-lt k h)
