-- ===== src/Log/AsyncLogging.antt =====
-- The asynchronous log of mytinyhttpd/base/async_logging.h and async_logging.cc: any thread appends
-- lines to a buffer, and one thread collects the buffers and writes them out.
-- Each section under the mutex is one step, and so is what the thread does between two of them; a
-- schedule is a list of steps of the thread, of lines appended and of `Stop`. A wait on the
-- condition may end at any time, as it also does by its timeout. A pointer that has been moved from
-- is `none`, and pushing it would be a fault.
pub mod Held
pub mod Appending
pub mod Collecting
pub mod Writing
pub mod Delivered
pub mod Drained
use my_tiny_httpd.Prelude.{
  ℕ, suc, ◌+◌, ◌-◌, Bool, true, false, not, List, [], ◌∷◌, ◌++◌, map, Option, none, some, Outcome,
  ok, fault, out_of_range, assertion, ◌>>=◌, ◌>>◌, assert, ltb, ◌==◌, if◌then◌else◌, length, take,
}
use my_tiny_httpd.Log.FixedBuffer.{FixedBuffer, new_fixed, put, reset_cur, bzero, text}

-- A call of the log file.
pub data Call : Type 0 where
  append : List ℕ → Call
  flush : Call

-- Where the thread stands: before the test of its loop, before the section that collects the
-- buffers, before writing them, and at its end.
pub data Phase : Type 0 where
  testing collecting writing finished : Phase

pub record AsyncLog : Type 0 where
  pub is_running : Bool
  pub current_buffer : Option FixedBuffer
  pub next_buffer : Option FixedBuffer
  pub buffers : List FixedBuffer
  -- The variables of `ThreadFunc`.
  pub phase : Phase
  pub new_buffer1 : Option FixedBuffer
  pub new_buffer2 : Option FixedBuffer
  pub buffers_to_write : List FixedBuffer
  -- How many buffers have been made, erased without being written, and the calls of the file.
  pub made : ℕ
  pub erased : ℕ
  pub calls : List Call

abbrev pub pointee : Option FixedBuffer → Outcome FixedBuffer
pointee none = fault out_of_range
pointee (some b) = ok b

-- A buffer behind a pointer that is not null is empty.
abbrev pub holds_empty : Option FixedBuffer → Bool
holds_empty none = false
holds_empty (some b) = b.cur == 0

abbrev pub is_empty : List FixedBuffer → Bool
is_empty [] = true
is_empty (b ∷ bs) = false

-- `back()` and the rest.
abbrev pub unsnoc : FixedBuffer → List FixedBuffer → List FixedBuffer × FixedBuffer
unsnoc b [] = ([], b)
unsnoc b (c ∷ bs) = let (front, last) = unsnoc c bs in (b ∷ front, last)

-- `if (!new_buffer) { ... }`: the last buffer that was written is used again.
pub refill : Option FixedBuffer → List FixedBuffer → Outcome (Option FixedBuffer × List FixedBuffer)
refill (some b) bs = ok (some b, bs)
refill none [] = fault assertion
refill none (b ∷ bs) = let (front, last) = unsnoc b bs in ok (some (reset_cur last), front)

abbrev pub max_buffers : ℕ
max_buffers = 25

-- `for (const auto& buffer : buffers_to_write) { output.Append(...); }`.
abbrev pub appends : List FixedBuffer → List Call
appends [] = []
appends (b ∷ bs) = append (text b) ∷ appends bs

-- `memory n` is what the n-th new buffer finds in its array.
module _ (memory : ℕ → List ℕ) where
  -- The constructor, `Start`, and `ThreadFunc` up to its loop.
  unfoldable pub new_async_log : AsyncLog
  new_async_log = record {
    is_running = true;
    current_buffer = some (bzero (new_fixed (memory 0)));
    next_buffer = some (bzero (new_fixed (memory 1)));
    buffers = [];
    phase = testing;
    new_buffer1 = some (bzero (new_fixed (memory 2)));
    new_buffer2 = some (bzero (new_fixed (memory 3)));
    buffers_to_write = [];
    made = 4;
    erased = 0;
    calls = [];
  }

  -- The buffer that follows a full one, and how many have been made then.
  pub take_next : Option FixedBuffer → ℕ → FixedBuffer × ℕ
  take_next (some b) made = (b, made)
  take_next none made = (new_fixed (memory made), suc made)

  -- The branch of `Append` where the current buffer `b` has no room for the line.
  pub append_next : List ℕ → FixedBuffer → AsyncLog → Outcome AsyncLog
  append_next line b s =
      let (fresh, made) = take_next s.next_buffer s.made in
      put line fresh >>= λ b'. ok (record s {
        buffers = s.buffers ++ (b ∷ []);
        current_buffer = some b';
        next_buffer = none;
        made = made;
      })

  -- `Append`.
  unfoldable pub append_line : List ℕ → AsyncLog → Outcome AsyncLog
  append_line line s = do
    b ← pointee s.current_buffer
    if ltb (b.cur + length line) (length b.store)
        then (put line b >>= λ b'. ok (record s { current_buffer = some b' }))
        else append_next line b s

-- `Stop`, up to joining the thread.
pub stop_log : AsyncLog → AsyncLog
stop_log s = record s { is_running = false }

-- The test of the loop, with the assertions behind it.
unfoldable pub test_running : AsyncLog → Outcome AsyncLog
test_running s =
    if s.is_running
    then (do
      assert (holds_empty s.new_buffer1)
      assert (holds_empty s.new_buffer2)
      assert (is_empty s.buffers_to_write)
      ok (record s { phase = collecting }))
    else ok (record s { phase = finished; calls = s.calls ++ (flush ∷ []) })

-- `if (!next_buffer_) { next_buffer_ = std::move(new_buffer2); }`: both pointers.
pub give_next : Option FixedBuffer → Option FixedBuffer → Option FixedBuffer × Option FixedBuffer
give_next (some b) new_buffer2 = (some b, new_buffer2)
give_next none new_buffer2 = (new_buffer2, none)

-- The section under the mutex, behind the wait.
pub collect_buffers : AsyncLog → Outcome AsyncLog
collect_buffers s = do
  b ← pointee s.current_buffer
  let (next, new_buffer2) = give_next s.next_buffer s.new_buffer2
  ok (record s {
    phase = writing;
    current_buffer = s.new_buffer1;
    next_buffer = next;
    buffers = s.buffers_to_write;
    new_buffer1 = none;
    new_buffer2 = new_buffer2;
    buffers_to_write = s.buffers ++ (b ∷ []);
  })

-- Writing; `note` is what is printed into `char buf[256]` when buffers are erased.
pub write_buffers : List ℕ → AsyncLog → Outcome AsyncLog
write_buffers note s = do
  assert (not (is_empty s.buffers_to_write))
  let stacked = ltb max_buffers (length s.buffers_to_write)
  let rest = if stacked then take 2 s.buffers_to_write else s.buffers_to_write
  let noted = if stacked then append (take 255 note) ∷ [] else []
  (b1, rest1) ← refill s.new_buffer1 (take 2 rest)
  (b2, rest2) ← refill s.new_buffer2 rest1
  ok (record s {
    phase = testing;
    new_buffer1 = b1;
    new_buffer2 = b2;
    buffers_to_write = [];
    erased = s.erased + (length s.buffers_to_write - length rest);
    calls = s.calls ++ (noted ++ (appends rest ++ (flush ∷ [])));
  })

unfoldable pub thread_step : Phase → List ℕ → AsyncLog → Outcome AsyncLog
thread_step testing note s = test_running s
thread_step collecting note s = collect_buffers s
thread_step writing note s = write_buffers note s
thread_step finished note s = ok s

pub data Event : Type 0 where
  line : List ℕ → Event
  stop : Event
  -- A step of the thread, with the note that it may print.
  step : List ℕ → Event

module _ (memory : ℕ → List ℕ) where
  unfoldable pub on_event : Event → AsyncLog → Outcome AsyncLog
  on_event (line l) s = append_line memory l s
  on_event stop s = ok (stop_log s)
  on_event (step note) s = thread_step s.phase note s

  unfoldable pub on_events : List Event → AsyncLog → Outcome AsyncLog
  on_events [] s = ok s
  on_events (e ∷ es) s = on_event e s >>= on_events es
