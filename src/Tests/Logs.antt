-- ===== src/Tests/Logs.antt =====
-- The theorems about the log of mytinyhttpd/base at concrete inputs.
use my_tiny_httpd.Prelude.{
  ℕ, ◌+◌, ◌-◌, ◌^◌, ◌<◌, ◌≡◌, refl, ◌⊎◌, true, List, [], ◌∷◌, ◌++◌, none, some, ok, ◌>>=◌, lt→ltb,
  Outcome, map, length, replicate, length-replicate, codes, negsuc, strtol, Returns, Returns-value,
  arith,
}
use my_tiny_httpd.Net.Buffer.{slice, copy_to}
use my_tiny_httpd.Log.FixedBuffer.{FixedBuffer, large_buffer, new_fixed, put, bzero, text}
use my_tiny_httpd.Log.FixedBuffer.Text.{IsSound, Gains, fitting, put-Gains}
use my_tiny_httpd.Log.LogStream.{
  Item, bool, char, integer, pointer, c_string, convert, insert_all, insert, format_integer,
  format_pointer, end_digits, write_digits, zero_at,
}
use my_tiny_httpd.Log.LogStream.Kept.{all_kept, insert_all-Gains}
use my_tiny_httpd.Log.LogStream.ReadBack.{strtol-convert}
use my_tiny_httpd.Log.AsyncLogging.{
  AsyncLog, Call, append, flush, collecting, new_async_log, append_line, Event, line, stop, step,
  on_event, on_events, thread_step, test_running,
}
use my_tiny_httpd.Log.AsyncLogging.Held.{delivered, pending, logged}
use my_tiny_httpd.Log.AsyncLogging.Appending.{bzero-IsLarge}
use my_tiny_httpd.Log.AsyncLogging.Delivered.{on_events-Delivered}
use my_tiny_httpd.Log.AsyncLogging.Drained.{Drains, stop_log-Drains}
use my_tiny_httpd.Log.LogFile.{
  World, Answers, LogFile, roll_file, append_file, append_unlocked, check_period, flush_log,
  new_log_file, run_calls,
}
use my_tiny_httpd.Log.LogFile.Rolling.{Rolled, AllTaken, new_log_file-run_calls}

-- A buffer of 60 bytes, three of which are used.
abbrev sixty : FixedBuffer
sixty = record { store = replicate 60 b'x'; cur = 3 }

-- The address finds fewer than 48 bytes free.
abbrev items : List Item
items = integer (negsuc 41) ∷ c_string none ∷ char b'!' ∷ pointer 255 ∷ bool true ∷ []

insert_all-Gains_example : Returns (Gains (all_kept 57 items) sixty) (insert_all items sixty)
insert_all-Gains_example =
    insert_all-Gains items sixty (omega arith)
      (record { inside = omega arith; small = omega arith })

-- It is left out, and the truth value behind it is kept.
insert_all-text : (insert_all items sixty >>= λ b. ok (text b)) ≡ ok (codes "xxx-42(null)!1")
unfolding insert_all insert format_integer format_pointer put copy_to convert end_digits
    write_digits zero_at
insert_all-text = refl

strtol-convert_example :
    Returns
      (λ r. strtol (slice r.0 2 (2 + r.1)) ≡ negsuc (2 ^ 63 - 1))
      (convert 2 (negsuc (2 ^ 63 - 1)) (replicate 30 0))
strtol-convert_example =
    strtol-convert (replicate 30 0) 2 (negsuc (2 ^ 63 - 1)) (omega arith) (omega arith)

-- New buffers are full of zeros.
zeros : ℕ → ℕ → List ℕ
zeros size n = replicate size 0

zeros-length : (size n : ℕ) → length (zeros size n) ≡ size
unfolding zeros
zeros-length size n = length-replicate size 0

abbrev memory : ℕ → List ℕ
memory = zeros large_buffer

-- A line is appended while the thread waits, and one while it writes.
abbrev schedule : List Event
schedule = step [] ∷ line (codes "a") ∷ step [] ∷ line (codes "b") ∷ step [] ∷ stop ∷ step [] ∷ []

on_events-Delivered_example :
    Returns
      (λ s. (delivered s.calls ++ pending s ≡ logged schedule) ⊎ (0 < s.erased))
      (on_events memory schedule (new_async_log memory))
on_events-Delivered_example = on_events-Delivered memory (zeros-length large_buffer) schedule

abbrev first : FixedBuffer
first = bzero (new_fixed (memory 0))

first-IsSound : (length first.store ≡ large_buffer) × IsSound first
first-IsSound = let h = bzero-IsLarge memory (zeros-length large_buffer) 0 in (h.large, h.sound)

-- What putting a line into it leaves.
filled : (b : FixedBuffer) × (put (codes "a") first ≡ ok b)
filled =
    let (b, e, g) =
      Returns-value (Gains (fitting (length first.store - first.cur) (codes "a")) first)
        (put (codes "a") first) (put-Gains (codes "a") first first-IsSound.1) in
    (b, e)

-- The log whose thread waits behind the first line.
abbrev log_waiting : AsyncLog
log_waiting = record (new_async_log memory) { phase = collecting; current_buffer = some filled.0 }

waits : on_events memory (step [] ∷ line (codes "a") ∷ []) (new_async_log memory) ≡ ok log_waiting
unfolding on_events on_event thread_step test_running new_async_log append_line new_fixed
waits = rw (lt→ltb (first.cur + 1) (length first.store) room, filled.1)
  where
    room : first.cur + 1 < length first.store
    room = rw first-IsSound.0 (omega arith)

few : length log_waiting.buffers < 25
unfolding new_async_log
few = omega arith

stop_log-Drains_example :
    Returns
      (Drains log_waiting)
      (on_events memory (stop ∷ step [] ∷ step [] ∷ step [] ∷ []) log_waiting)
stop_log-Drains_example =
    stop_log-Drains memory (zeros-length large_buffer) (step [] ∷ line (codes "a") ∷ []) log_waiting
      waits refl few [] [] []

-- A file of more than four bytes is rolled, and so is one of another day.
abbrev world : World
world = record { stamp = λ n. n ∷ []; hostname = codes "h"; pid = codes "7" }

abbrev taking : ℕ → List ℕ → Answers
taking now bytes = record {
  now = now;
  roll_now = now;
  opens = true;
  writes = (length bytes, 0) ∷ [];
}

abbrev three_lines : List (Call × Answers)
three_lines =
    (append (codes "abc"), taking 11 (codes "abc"))
    ∷ (append (codes "de"), taking 12 (codes "de"))
    ∷ (append (codes "f"), taking 90000 (codes "f"))
    ∷ (flush, taking 90001 [])
    ∷ []

three_lines-AllTaken : AllTaken three_lines
three_lines-AllTaken = (refl, refl, (refl, refl, (refl, refl, tt)))

new_log_file-run_calls_example :
    Returns
      (Rolled world (codes "log") (codes "abcdef"))
      (new_log_file world 10 true (codes "log") 4 3 2 >>= run_calls world three_lines)
new_log_file-run_calls_example =
    new_log_file-run_calls world 10 true (codes "log") 4 3 2 three_lines (omega arith) refl refl
      three_lines-AllTaken (omega arith)

abbrev files_of : LogFile → Outcome (List (List ℕ) × ℕ)
files_of f = ok (map (λ g. g.content) f.closed, f.last_roll)

three_lines-rolled :
    (new_log_file world 10 true (codes "log") 4 3 1 >>= run_calls world three_lines >>= files_of)
    ≡ ok (codes "f" ∷ codes "abcde" ∷ [], 90000)
unfolding new_log_file roll_file append_unlocked check_period append_file flush_log
three_lines-rolled = refl
