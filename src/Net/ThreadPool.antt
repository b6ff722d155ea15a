-- ===== src/Net/ThreadPool.antt =====
-- The pool of loops that connections are spread over: mytinyhttpd/net/event_loop_thread_pool.h and
-- event_loop_thread_pool.cc. A loop is a number; `new_loop i` is the one that thread `i` runs. The
-- calls of the initial callback are left out.
pub mod RoundRobin
use my_tiny_httpd.Prelude.{
  ℕ, zero, suc, ◌+◌, ◌-◌, ◌%◌, Bool, true, false, not, List, [], ◌∷◌, ◌++◌, Option, none, some,
  Outcome, ok, fault, out_of_range, ◌>>=◌, ◌>>◌, assert, ltb, leb, if◌then◌else◌, length, take,
  get_elem?,
}

-- `threads` holds the loop of each thread that is owned, `loops` what connections are given.
pub record ThreadPool : Type 0 where
  pub base_loop : ℕ
  pub is_started : Bool
  pub num_threads : ℕ
  pub next : ℕ
  pub threads : List ℕ
  pub loops : List ℕ

pub new_pool : ℕ → ThreadPool
new_pool base = record {
  base_loop = base;
  is_started = false;
  num_threads = 0;
  next = 0;
  threads = [];
  loops = [];
}

pub set_thread_num : ℕ → ThreadPool → ThreadPool
set_thread_num n p = record p { num_threads = n }

-- The rounds from `i` on of the loops that start threads.
pub start_loops : (ℕ → ℕ) → ℕ → ℕ → List ℕ
start_loops new_loop i zero = []
start_loops new_loop i (suc rounds) = new_loop i ∷ start_loops new_loop (suc i) rounds

pub start : (ℕ → ℕ) → ThreadPool → Outcome ThreadPool
start new_loop p = do
  assert (not p.is_started)
  let started = start_loops new_loop 0 p.num_threads
  ok (record p { is_started = true; threads = p.threads ++ started; loops = p.loops ++ started })

-- `ResizeThreadNum`; its loop is bounded by `num_threads_`.
pub resize_thread_num : (ℕ → ℕ) → ℕ → ThreadPool → Outcome ThreadPool
resize_thread_num new_loop n p = do
  assert p.is_started
  let old = length p.threads
  let started = start_loops new_loop old (p.num_threads - old)
  ok (
      if ltb n old
      then record p { threads = take n p.threads }
      else (if ltb old n
          then record p { threads = p.threads ++ started; loops = p.loops ++ started }
          else p))

-- `loops_[i]`.
pub loop_at : List ℕ → ℕ → Outcome ℕ
loop_at loops i = elim (get_elem? loops i) [ none ↦ fault out_of_range | some loop ↦ ok loop ]

abbrev pub is_none : List ℕ → Bool
is_none [] = true
is_none (x ∷ xs) = false

pub get_next_loop : ThreadPool → Outcome (ℕ × ThreadPool)
get_next_loop p = do
  assert p.is_started
  if is_none p.loops
      then ok (p.base_loop, p)
      else (loop_at p.loops p.next >>= λ loop.
          ok
            (loop, record p { next = if leb (length p.loops) (suc p.next) then 0 else suc p.next }))

pub get_loop_by_hash : ℕ → ThreadPool → Outcome ℕ
get_loop_by_hash hash p =
    if is_none p.loops then ok p.base_loop else loop_at p.loops (hash % length p.loops)

pub get_all_loops : ThreadPool → Outcome (List ℕ)
get_all_loops p = do assert p.is_started; ok (if is_none p.loops then p.base_loop ∷ [] else p.loops)
