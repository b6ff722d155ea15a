-- ===== src/Net/ThreadPool/RoundRobin.antt =====
-- How mytinyhttpd/net/event_loop_thread_pool.cc hands out its loops.
use my_tiny_httpd.Prelude.{
  ℕ, zero, suc, ap₂, subst, ◌+◌, ◌<◌, ◌≡◌, refl, ap, sym, ◌∙◌, true, false, List, [], ◌∷◌, ◌++◌,
  some, Outcome, ok, ◌>>=◌, arith, Returns, leb, le→leb, lt→leb, if◌then◌else◌, length, drop,
  drop-all, get_elem?,
}
use my_tiny_httpd.Net.ThreadPool.{
  ThreadPool, new_pool, set_thread_num, start, start_loops, loop_at, is_none, get_next_loop,
}

-- `GetNextLoop` so many times.
pub next_loops : ℕ → ThreadPool → Outcome (List ℕ × ThreadPool)
next_loops zero p = ok ([], p)
next_loops (suc k) p =
    get_next_loop p >>= λ (loop, p'). next_loops k p' >>= λ (rest, p''). ok (loop ∷ rest, p'')

-- The element at an index, and what is behind it.
get_elem-drop :
    (xs : List ℕ) (i : ℕ)
    → i < length xs
    → (x : ℕ) × (get_elem? xs i ≡ some x) × (drop i xs ≡ x ∷ drop (suc i) xs)
get_elem-drop [] i h = absurd (omega arith)
get_elem-drop (x ∷ xs) zero h = (x, refl, refl)
get_elem-drop (x ∷ xs) (suc i) h = get_elem-drop xs i (omega arith)

not_none : (xs : List ℕ) → 0 < length xs → is_none xs ≡ false
not_none [] h = absurd (omega arith)
not_none (x ∷ xs) h = refl

get_next_loop_at :
    (i x : ℕ) (p : ThreadPool)
    → p.is_started ≡ true
    → p.next ≡ i
    → i < length p.loops
    → get_elem? p.loops i ≡ some x
    → get_next_loop p
      ≡ ok (x, record p { next = if leb (length p.loops) (suc i) then 0 else suc i })
unfolding get_next_loop loop_at
get_next_loop_at i x p s n h e =
    rw (get_next_loop, s, not_none p.loops (omega arith), n, loop_at, e)

-- From loop `i` on, the calls hand out the loops behind it, and then begin anew.
next_loops-drop :
    (k i : ℕ) (p : ThreadPool)
    → p.is_started ≡ true
    → p.next ≡ i
    → i + suc k ≡ length p.loops
    → next_loops (suc k) p ≡ ok (drop i p.loops, record p { next = 0 })
unfolding next_loops
next_loops-drop zero i p s n h =
    let (x, e, d) = get_elem-drop p.loops i (omega arith) in
    rw (get_next_loop_at i x p s n (omega arith) e, le→leb (length p.loops) (suc i) (omega arith))
      (ap (λ xs. ok (xs, record p { next = 0 }))
        (ap (λ ys. x ∷ ys) (sym (drop-all (suc i) p.loops (omega arith))) ∙ sym d))
next_loops-drop (suc k) i p s n h =
    let (x, e, d) = get_elem-drop p.loops i (omega arith) in
    rw
      (
        get_next_loop_at i x p s n (omega arith) e,
        lt→leb (length p.loops) (suc i) (omega arith),
        next_loops-drop k (suc i) (record p { next = suc i }) s refl (omega arith),
      )
      (ap (λ xs. ok (xs, record p { next = 0 })) (sym d))

start_loops-length : (f : ℕ → ℕ) (i n : ℕ) → length (start_loops f i n) ≡ n
unfolding start_loops
start_loops-length f i zero = refl
start_loops-length f i (suc n) = ap suc (start_loops-length f (suc i) n)

-- The loops of the threads below `n`, in their order.
abbrev pub loops_of : (ℕ → ℕ) → ℕ → List ℕ
loops_of new_loop zero = []
loops_of new_loop (suc n) = loops_of new_loop n ++ (new_loop n ∷ [])

start_loops-last :
    (f : ℕ → ℕ) (i n : ℕ) → start_loops f i (suc n) ≡ start_loops f i n ++ (f (i + n) ∷ [])
unfolding start_loops
start_loops-last f i zero = ap (λ k. f k ∷ []) (omega arith)
start_loops-last f i (suc n) =
    ap (λ l. f i ∷ l)
      (start_loops-last f (suc i) n ∙ ap (λ k. start_loops f (suc i) n ++ (f k ∷ [])) (omega arith))

start_loops-loops_of : (f : ℕ → ℕ) (n : ℕ) → start_loops f 0 n ≡ loops_of f n
unfolding start_loops
start_loops-loops_of f zero = refl
start_loops-loops_of f (suc n) =
    start_loops-last f 0 n ∙ ap₂ (λ l k. l ++ (f k ∷ [])) (start_loops-loops_of f n) (omega arith)

-- The pool that has been started with so many threads.
abbrev pub started_pool : ℕ → ℕ → (ℕ → ℕ) → ThreadPool
started_pool base n new_loop = record {
  base_loop = base;
  is_started = true;
  num_threads = n;
  next = 0;
  threads = loops_of new_loop n;
  loops = loops_of new_loop n;
}

start_lem :
    (base n : ℕ) (new_loop : ℕ → ℕ)
    → start new_loop (set_thread_num n (new_pool base)) ≡ ok (started_pool base n new_loop)
unfolding start set_thread_num new_pool
start_lem base n new_loop =
    ap (λ l. ok (record (started_pool base n new_loop) { threads = l; loops = l }))
      (start_loops-loops_of new_loop n)

-- `Start` on a new pool, told to have at least one thread, starts that many, thread `i` with loop
-- `new_loop i`; then as many calls of `GetNextLoop` hand out the loop of each thread once, in the
-- order of the threads, and leave the pool as it was, so that the calls go round.
pub next_loops-start :
    (base n : ℕ) (new_loop : ℕ → ℕ)
    → 0 < n
    → Returns
        (λ (given, p).
          (given ≡ loops_of new_loop n)
          × (p.threads ≡ loops_of new_loop n)
          × (start new_loop (set_thread_num n (new_pool base)) ≡ ok p))
        (start new_loop (set_thread_num n (new_pool base)) >>= next_loops n)
next_loops-start base zero new_loop h = absurd (omega arith)
next_loops-start base (suc n) new_loop h =
    subst Gives (sym (ap (λ m. m >>= next_loops (suc n)) (start_lem base (suc n) new_loop))) (
      subst Gives
        (sym (
          next_loops-drop n 0 started refl refl (
            omega (
              arith,
              ap length (start_loops-loops_of new_loop (suc n)),
              start_loops-length new_loop 0 (suc n),
            ))))
        (refl, refl, start_lem base (suc n) new_loop))
  where
    started : ThreadPool
    started = started_pool base (suc n) new_loop

    Gives : Outcome (List ℕ × ThreadPool) → Type 0
    Gives = Returns (λ r.
        (r.0 ≡ loops_of new_loop (suc n))
        × (r.1.threads ≡ loops_of new_loop (suc n))
        × (start new_loop (set_thread_num (suc n) (new_pool base)) ≡ ok r.1))
