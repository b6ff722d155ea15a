-- ===== src/Log/AsyncLogging/Drained.antt =====
-- How the thread of mytinyhttpd/base/async_logging.cc ends after `Stop`.
use my_tiny_httpd.Prelude.{
  ℕ, suc, ◌≤◌, ◌<◌, ◌≡◌, refl, sym, ap, ap₂, ◌∙◌, subst, false, not, List, [], ◌∷◌, ◌++◌,
  append-nil, some, ok, Returns-assert, Returns-both, le→ltb, length, take, length-append, Returns,
  Returns->>=, arith,
}
use my_tiny_httpd.Log.FixedBuffer.{large_buffer, text}
use my_tiny_httpd.Log.AsyncLogging.{
  flush, Phase, testing, collecting, writing, finished, AsyncLog, pointee, is_empty, refill,
  max_buffers, appends, new_async_log, stop_log, test_running, collect_buffers, write_buffers,
  thread_step, Event, stop, step, on_event, on_events,
}
use my_tiny_httpd.Log.AsyncLogging.Held.{
  texts, delivered, current_text, pending, logged, IsLarge, Fresh, Current, Local, Inv,
  texts-append, delivered-append, delivered-appends, AllLarge-take, pointee-Current,
}
use my_tiny_httpd.Log.AsyncLogging.Collecting.{collect_buffers-Inv, is_empty-cons}
use my_tiny_httpd.Log.AsyncLogging.Writing.{Refills, refill-Refills}
use my_tiny_httpd.Log.AsyncLogging.Delivered.{
  at_phase, on_event-Inv, on_events-Inv, new_async_log-Inv,
}

-- What collecting changes.
record Collected (s s1 : AsyncLog) : Type 0 where
  pub now_writing : s1.phase ≡ writing
  still : s1.is_running ≡ s.is_running
  same_calls : s1.calls ≡ s.calls
  all_texts : texts s1.buffers_to_write ≡ texts s.buffers ++ current_text s.current_buffer
  one_more : length s1.buffers_to_write ≡ suc (length s.buffers)

collect_buffers-Collected :
    (s : AsyncLog) → Current s.current_buffer → Returns (Collected s) (collect_buffers s)
unfolding collect_buffers
collect_buffers-Collected s h =
    Returns->>= (λ b. (s.current_buffer ≡ some b) × IsLarge b) (Collected s)
      (pointee s.current_buffer) _ (pointee-Current s.current_buffer h)
      λ b (e, k). record {
        now_writing = refl;
        still = refl;
        same_calls = refl;
        all_texts =
            texts-append s.buffers (b ∷ [])
            ∙ ap (λ t. texts s.buffers ++ t) (append-nil (text b) ∙ ap current_text (sym e));
        one_more = omega (arith, length-append s.buffers (b ∷ []));
      }

-- What writing changes where nothing is erased.
record Written (s s2 : AsyncLog) : Type 0 where
  now_testing : s2.phase ≡ testing
  still : s2.is_running ≡ s.is_running
  given : delivered s2.calls ≡ delivered s.calls ++ texts s.buffers_to_write

write_buffers-Written :
    (note : List ℕ) (s : AsyncLog)
    → Local writing s.new_buffer1 s.new_buffer2 s.buffers_to_write
    → length s.buffers_to_write ≤ max_buffers
    → Returns (Written s) (write_buffers note s)
unfolding write_buffers
write_buffers-Written note s local few =
    Returns-assert (Written s) (not (is_empty s.buffers_to_write)) _
      (is_empty-cons s.buffers_to_write local.3)
      (rw (le→ltb max_buffers (length s.buffers_to_write) few) (
        Returns->>= (Refills s.new_buffer2) (Written s)
          (refill s.new_buffer1 (take 2 s.buffers_to_write)) _
          (refill-Refills s local s.buffers_to_write (AllLarge-take 2 s.buffers_to_write local.2)
            refl)
          λ r (f, more).
            Returns->>= (λ q. Fresh q.0) (Written s) (refill s.new_buffer2 r.1) _ more
              λ q g. record {
                now_testing = refl;
                still = refl;
                given =
                    delivered-append s.calls (appends s.buffers_to_write ++ (flush ∷ []))
                    ∙ ap (◌++◌ (delivered s.calls)) (
                        delivered-appends s.buffers_to_write (flush ∷ [])
                        ∙ append-nil (texts s.buffers_to_write));
              }))

-- A stopped thread ends at its next test.
record Ended (s s3 : AsyncLog) : Type 0 where
  pub done : s3.phase ≡ finished
  pub given : delivered s3.calls ≡ delivered s.calls

test_running-Ended : (s : AsyncLog) → s.is_running ≡ false → Returns (Ended s) (test_running s)
unfolding test_running
test_running-Ended s e = rw e (record {
  done = refl;
  given = delivered-append s.calls (flush ∷ []) ∙ append-nil (delivered s.calls);
})

step_at :
    (P : AsyncLog → Type 0) (memory : ℕ → List ℕ) (note : List ℕ) (s : AsyncLog) (p : Phase)
    → s.phase ≡ p
    → Returns P (thread_step p note s)
    → Returns P (on_event memory (step note) s)
unfolding on_event
step_at P memory note s p e h = subst (λ q. Returns P (thread_step q note s)) (sym e) h

-- Three steps of the thread from where it waits.
abbrev pub Drains : AsyncLog → AsyncLog → Type 0
Drains s s3 = (s3.phase ≡ finished) × (delivered s3.calls ≡ delivered s.calls ++ pending s)

three_steps-Drains :
    (bytes n1 n2 n3 : List ℕ) (memory : ℕ → List ℕ) (s : AsyncLog)
    → Inv bytes s
    → s.is_running ≡ false
    → s.phase ≡ collecting
    → length s.buffers < max_buffers
    → Returns (Drains s) (on_events memory (step n1 ∷ step n2 ∷ step n3 ∷ []) s)
unfolding on_events thread_step
three_steps-Drains bytes n1 n2 n3 memory s inv stopped waiting few =
    Returns->>= (λ s1. Collected s s1 × Inv bytes s1) (Drains s) (on_event memory (step n1) s) _
      (step_at (λ s1. Collected s s1 × Inv bytes s1) memory n1 s collecting waiting
        (Returns-both (Collected s) (Inv bytes) (collect_buffers s)
          (collect_buffers-Collected s inv.current) (collect_buffers-Inv bytes s inv local)))
      λ s1 (c, inv1).
        Returns->>= (Written s1) (Drains s) (on_event memory (step n2) s1) _
          (step_at (Written s1) memory n2 s1 writing c.now_writing (
            write_buffers-Written n2 s1 (at_phase s1 c.now_writing inv1)
              (omega (arith, c.one_more))))
          λ s2 w.
            Returns->>= (Ended s2) (Drains s) (on_event memory (step n3) s2) _
              (step_at (Ended s2) memory n3 s2 testing w.now_testing
                (test_running-Ended s2 (w.still ∙ c.still ∙ stopped)))
              λ s3 e. (
                e.done,
                e.given
                    ∙ w.given
                    ∙ ap₂ (λ d t. delivered d ++ t) c.same_calls c.all_texts
                    ∙ ap
                        (λ t.
                          delivered s.calls
                          ++ (texts t ++ (texts s.buffers ++ current_text s.current_buffer)))
                        (sym local.2),
              )
  where
    local : Local collecting s.new_buffer1 s.new_buffer2 s.buffers_to_write
    local = at_phase s waiting inv

on_events-stop :
    (memory : ℕ → List ℕ) (es : List Event) (s : AsyncLog)
    → on_events memory (stop ∷ es) s ≡ on_events memory es (record s { is_running = false })
unfolding on_events on_event stop_log
on_events-stop memory es s = refl

-- A log that is stopped while its thread waits, with fewer than 25 full buffers, ends after three
-- more steps of the thread, which write every line that has been appended, whatever came before.
pub stop_log-Drains :
    (memory : ℕ → List ℕ)
    → ((n : ℕ) → length (memory n) ≡ large_buffer)
    → (es : List Event) (s : AsyncLog) → on_events memory es (new_async_log memory) ≡ ok s
    → s.phase ≡ collecting
    → length s.buffers < max_buffers
    → (n1 n2 n3 : List ℕ)
    → Returns (Drains s) (on_events memory (stop ∷ step n1 ∷ step n2 ∷ step n3 ∷ []) s)
unfolding on_event stop_log
stop_log-Drains memory large es s ran waiting few n1 n2 n3 =
    let inv : Inv (logged es) s =
      subst (Returns (Inv (logged es))) ran (
        on_events-Inv memory large [] es (new_async_log memory) (new_async_log-Inv memory large)) in
    rw (on_events-stop memory (step n1 ∷ step n2 ∷ step n3 ∷ []) s) (
      three_steps-Drains (logged es ++ []) n1 n2 n3 memory (record s { is_running = false })
        (on_event-Inv memory large (logged es) stop s inv) refl waiting few)
