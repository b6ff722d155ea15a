-- ===== src/Net/Connector/Backoff.antt =====
-- How mytinyhttpd/net/connector.cc spaces its attempts.
use native.Mathlib.Numerals.{unary_clauses}
use my_tiny_httpd.Prelude.{
  ℕ, suc, ◌+◌, ◌*◌, ◌^◌, min, ◌≡◌, refl, ap, ap₂, ◌∙◌, true, List, [], ◌∷◌, Outcome, ok, fault,
  assertion, ◌>>=◌, Returns, Returns->>=, Returns-map, arith, length,
}
use my_tiny_httpd.Net.Connector.{
  Connector, disconnected, Task, start_in_loop_after, unavailable, in_progress, new_connector,
  retry, begin_connecting, connect, start_in_loop, start, stop, stop_in_loop,
}

-- Attempts on the given sockets, each run by the timer that the one before it left, while the server is
-- not there.
pub attempts : List ℕ → Connector → Outcome Connector
attempts [] c = ok c
attempts (fd ∷ fds) c = start_in_loop unavailable fd c >>= attempts fds

-- The delay behind `k` attempts.
abbrev pub delay : ℕ → ℕ
delay k = min (500 * 2 ^ k) 30000

abbrev pub delays : ℕ → List ℕ → List Task → List Task
delays k [] tasks = tasks
delays k (fd ∷ fds) tasks = delays (suc k) fds (start_in_loop_after (delay k) ∷ tasks)

-- The descriptors in front of those that are there, the last one first.
abbrev pub onto : List ℕ → List ℕ → List ℕ
onto [] before = before
onto (fd ∷ fds) before = onto fds (fd ∷ before)

pow_suc : (k : ℕ) → 2 ^ suc k ≡ 2 * 2 ^ k
pow_suc k = simp unary_clauses (omega arith)

delay-suc : (k : ℕ) → min (delay k * 2) 30000 ≡ delay (suc k)
delay-suc k = omega (arith, pow_suc k)

record Waits (k : ℕ) (closed : List ℕ) (tasks : List Task) (c : Connector) : Type 0 where
  waits : c.state ≡ disconnected
  wants : c.is_connect ≡ true
  delayed : c.retry_delay_ms ≡ delay k
  all_closed : c.closed ≡ closed
  left : c.tasks ≡ tasks

attempt-Waits :
    (fd k : ℕ) (n : List ℕ) (tasks : List Task) (c : Connector)
    → Waits k n tasks c
    → Returns
        (Waits (suc k) (fd ∷ n) (start_in_loop_after (delay k) ∷ tasks))
        (start_in_loop unavailable fd c)
unfolding start_in_loop connect retry
attempt-Waits fd k n tasks c w =
    rw (start_in_loop, w.waits, w.wants)
      (record {
        waits = refl;
        wants = refl;
        delayed = ap (λ d. min (d * 2) 30000) w.delayed ∙ delay-suc k;
        all_closed = ap (λ l. fd ∷ l) w.all_closed;
        left = ap₂ (λ d ts. start_in_loop_after d ∷ ts) w.delayed w.left;
      })

attempts-Waits :
    (fds : List ℕ) (k m : ℕ) (n : List ℕ) (tasks : List Task) (c : Connector)
    → m ≡ k + length fds
    → Waits k n tasks c
    → Returns (Waits m (onto fds n) (delays k fds tasks)) (attempts fds c)
unfolding attempts
attempts-Waits [] k m n tasks c e w = record {
  waits = w.waits;
  wants = w.wants;
  delayed = w.delayed ∙ ap delay (omega arith);
  all_closed = w.all_closed;
  left = w.left;
}
attempts-Waits (fd ∷ fds) k m n tasks c e w =
    Returns->>= (Waits (suc k) (fd ∷ n) (start_in_loop_after (delay k) ∷ tasks))
      (Waits m (onto fds (fd ∷ n)) (delays k (fd ∷ fds) tasks)) (start_in_loop unavailable fd c)
      (attempts fds) (attempt-Waits fd k n tasks c w)
      (λ c' w'.
        attempts-Waits fds (suc k) m (fd ∷ n) (start_in_loop_after (delay k) ∷ tasks) c'
          (omega arith) w')

-- A new connector that wants to connect, and whose attempts all find the server unavailable, meets
-- its assertion each time. Attempt `i`, counted from 0, leaves one timer with a delay of 500 * 2 ^ i
-- milliseconds, or 30000 if that is less; the sockets of the attempts are closed, each once and in
-- their order, no other socket is, and no other task is left.
pub attempts_lem :
    (fds : List ℕ)
    → Returns
        (λ c.
          (c.tasks ≡ delays 0 fds [])
          × (c.closed ≡ onto fds [])
          × (c.retry_delay_ms ≡ min (500 * 2 ^ length fds) 30000))
        (attempts fds (record new_connector { is_connect = true }))
unfolding new_connector
attempts_lem fds =
    Returns-map (Waits (length fds) (onto fds []) (delays 0 fds []))
      (λ c.
        (c.tasks ≡ delays 0 fds [])
        × (c.closed ≡ onto fds [])
        × (c.retry_delay_ms ≡ min (500 * 2 ^ length fds) 30000))
      (attempts fds (record new_connector { is_connect = true }))
      (attempts-Waits fds 0 (length fds) [] [] (record new_connector { is_connect = true })
        (omega arith)
        (record { waits = refl; wants = refl; delayed = refl; all_closed = refl; left = refl }))
      (λ c w. (w.left, w.all_closed, w.delayed))

-- The timer of a retry survives a `Stop` and a `Start`: when an attempt fails, the user stops and
-- starts again, and the new attempt is under way, the old timer fails the assertion of
-- `StartInLoop`, whatever the descriptors are.
start_after_stop :
    (fd fd' fd'' : ℕ)
    → (do
      failed ← start unavailable fd new_connector
      stopped ← stop_in_loop (stop failed)
      again ← start in_progress fd' stopped
      start_in_loop in_progress fd'' again)
      ≡ fault assertion
unfolding start start_in_loop connect retry begin_connecting stop stop_in_loop new_connector
start_after_stop fd fd' fd'' = refl
