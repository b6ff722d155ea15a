-- ===== src/Log/AsyncLogging/Delivered.antt =====
-- What the asynchronous log of mytinyhttpd/base/async_logging.cc has written and what waits,
-- whatever the order of its steps.
use my_tiny_httpd.Prelude.{
  ℕ, ◌<◌, ◌≡◌, refl, sym, ap, ◌∙◌, subst, false, inl, inr, ◌⊎◌, ==_iff, List, [], ◌∷◌, ◌++◌,
  append-nil, append_assoc, ◌==◌, length, Returns, Returns-map, Returns->>=, arith, Bool-cases,
}
use my_tiny_httpd.Log.FixedBuffer.{large_buffer, new_fixed}
use my_tiny_httpd.Log.FixedBuffer.Text.{fitting}
use my_tiny_httpd.Log.AsyncLogging.{
  Phase, testing, collecting, writing, finished, AsyncLog, new_async_log, stop_log, thread_step,
  Event, line, stop, step, on_event, on_events,
}
use my_tiny_httpd.Log.AsyncLogging.Held.{delivered, pending, logged, Local, Inv}
use my_tiny_httpd.Log.AsyncLogging.Appending.{bzero-IsLarge, append_line-Inv}
use my_tiny_httpd.Log.AsyncLogging.Collecting.{test_running-Inv, collect_buffers-Inv}
use my_tiny_httpd.Log.AsyncLogging.Writing.{write_buffers-Inv}

pub at_phase :
    (s : AsyncLog) {bytes : List ℕ} {p : Phase}
    → s.phase ≡ p
    → Inv bytes s
    → Local p s.new_buffer1 s.new_buffer2 s.buffers_to_write
at_phase s e inv = subst (λ p. Local p s.new_buffer1 s.new_buffer2 s.buffers_to_write) e inv.local

thread_step-Inv :
    (bytes note : List ℕ) (s : AsyncLog) (p : Phase)
    → s.phase ≡ p
    → Inv bytes s
    → Returns (Inv bytes) (thread_step p note s)
unfolding thread_step
thread_step-Inv bytes note s testing e inv = test_running-Inv bytes s inv (at_phase s e inv)
thread_step-Inv bytes note s collecting e inv = collect_buffers-Inv bytes s inv (at_phase s e inv)
thread_step-Inv bytes note s writing e inv = write_buffers-Inv bytes s inv (at_phase s e inv) note
thread_step-Inv bytes note s finished e inv = inv

module _ (memory : ℕ → List ℕ) (large : (n : ℕ) → length (memory n) ≡ large_buffer) where
  pub on_event-Inv :
      (bytes : List ℕ) (e : Event) (s : AsyncLog)
      → Inv bytes s
      → Returns (Inv (bytes ++ logged (e ∷ []))) (on_event memory e s)
  unfolding on_event stop_log
  on_event-Inv bytes (line l) s inv =
      Returns-map (Inv (bytes ++ fitting large_buffer l))
        (Inv (bytes ++ (fitting large_buffer l ++ []))) _
        (append_line-Inv memory large bytes l s inv)
        λ s'. subst (λ l'. Inv (bytes ++ l') s') (sym (append-nil (fitting large_buffer l)))
  on_event-Inv bytes stop s inv =
      subst (λ b. Inv b (record s { is_running = false })) (sym (append-nil bytes))
        (record {
          current = inv.current;
          next = inv.next;
          backed = inv.backed;
          larges = inv.larges;
          local = inv.local;
          whole = inv.whole;
        })
  on_event-Inv bytes (step note) s inv =
      subst (λ b. Returns (Inv b) (thread_step s.phase note s)) (sym (append-nil bytes))
        (thread_step-Inv bytes note s s.phase refl inv)

  logged-cons : (e : Event) (es : List Event) → logged (e ∷ []) ++ logged es ≡ logged (e ∷ es)
  logged-cons (line l) es = append_assoc (fitting large_buffer l) [] (logged es)
  logged-cons stop es = refl
  logged-cons (step note) es = refl

  pub on_events-Inv :
      (bytes : List ℕ) (es : List Event) (s : AsyncLog)
      → Inv bytes s
      → Returns (Inv (bytes ++ logged es)) (on_events memory es s)
  unfolding on_events
  on_events-Inv bytes [] s inv = subst (λ b. Inv b s) (sym (append-nil bytes)) inv
  on_events-Inv bytes (e ∷ es) s inv =
      Returns->>= (Inv (bytes ++ logged (e ∷ []))) (Inv (bytes ++ logged (e ∷ es)))
        (on_event memory e s) (on_events memory es) (on_event-Inv bytes e s inv)
        λ s' inv'.
          subst (λ b. Returns (Inv b) (on_events memory es s'))
            (append_assoc bytes (logged (e ∷ [])) (logged es) ∙ ap (◌++◌ bytes) (logged-cons e es))
            (on_events-Inv (bytes ++ logged (e ∷ [])) es s' inv')

  pub new_async_log-Inv : Inv [] (new_async_log memory)
  unfolding new_async_log new_fixed
  new_async_log-Inv = record {
    current = bzero-IsLarge memory large 0;
    next = (bzero-IsLarge memory large 1, refl);
    backed = tt;
    larges = tt;
    local = ((bzero-IsLarge memory large 2, refl), (bzero-IsLarge memory large 3, refl), refl);
    whole = λ z. refl;
  }

  -- In whatever order lines are appended, the log is stopped and its thread takes its steps, no
  -- assertion fails, no null pointer is followed and no byte is written outside a buffer; and
  -- unless buffers have been erased because more than 25 were waiting, the bytes given to the file
  -- and those that still wait are all the lines in order, only lines of 4000000 bytes or more left
  -- out.
  pub on_events-Delivered :
      (es : List Event)
      → Returns
          (λ s. (delivered s.calls ++ pending s ≡ logged es) ⊎ (0 < s.erased))
          (on_events memory es (new_async_log memory))
  on_events-Delivered es =
      Returns-map (Inv (logged es)) _ (on_events memory es (new_async_log memory))
        (on_events-Inv [] es (new_async_log memory) new_async_log-Inv)
        λ s inv. elim (Bool-cases (s.erased == 0)) [
          | inl e ↦ inl (inv.whole ((==_iff s.erased 0).0 e))
          | inr e ↦ inr (ground arith)
        ]
