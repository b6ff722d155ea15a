-- ===== src/Log/LogFile.antt =====
-- The log file of mytinyhttpd/base/log_file.h and log_file.cc, over AppendFile of
-- mytinyhttpd/utils/file.h and file.cc.
-- A file that is open or closed is what `fwrite` has taken so far; the closed ones are kept, the
-- newest first. What the system answers to a call is an argument. The mutex of a log file that is
-- shared encloses the whole call, and `flush_interval` is not negative.
pub mod Rolling
use my_tiny_httpd.Prelude.{
  ℕ, suc, ◌+◌, ◌-◌, ◌*◌, ◌/◌, ◌^◌, Bool, true, false, not, ◌&&◌, List, [], ◌∷◌, ◌++◌, Option, none,
  some, Outcome, ok, fault, out_of_range, out_of_fuel, ◌>>=◌, ◌>>◌, assert, in_range, ltb, leb,
  ◌==◌, if◌then◌else◌, length, take, drop, codes,
}
use my_tiny_httpd.Log.AsyncLogging.{Call, append, flush}

-- What `strftime` prints of a time by the format ".%Y%m%d-%H%M%S.", the host and the process.
pub record World : Type 0 where
  pub stamp : ℕ → List ℕ
  pub hostname : List ℕ
  pub pid : List ℕ

-- What the system answers during a call: two readings of the clock, whether `fopen` succeeds, and
-- what `fwrite` and `ferror` return each time.
pub record Answers : Type 0 where
  pub now : ℕ
  pub roll_now : ℕ
  pub opens : Bool
  pub writes : List (ℕ × ℕ)

pub record AppendFile : Type 0 where
  pub filename : List ℕ
  pub content : List ℕ
  pub written_bytes : ℕ
  -- How many bytes have left the buffer of the `FILE`, at least.
  pub flushed : ℕ

pub record LogFile : Type 0 where
  pub basename : List ℕ
  pub roll_size : ℕ
  pub flush_interval : ℕ
  pub check_every_n : ℕ
  pub count : ℕ
  pub start_of_period : ℕ
  pub last_roll : ℕ
  pub last_flush : ℕ
  pub file : Option AppendFile
  pub closed : List AppendFile

abbrev pub roll_per_seconds : ℕ
roll_per_seconds = 60 * 60 * 24

-- `AppendFile::AppendFile`.
abbrev pub open_file : List ℕ → AppendFile
open_file name = record { filename = name; content = []; written_bytes = 0; flushed = 0 }

-- `AppendFile::Flush`, and what `fclose` does to the bytes.
abbrev pub flush_file : AppendFile → AppendFile
flush_file file = record file { flushed = length file.content }

-- The loop of `AppendFile::Append`: what is left of the line, and the content and `written` so far.
-- The bytes of a write that ends in an error are not counted.
abbrev pub write_rest : List (ℕ × ℕ) → List ℕ → List ℕ × ℕ → Outcome (List ℕ × ℕ)
write_rest answers [] so_far = ok so_far
write_rest [] (c ∷ cs) so_far = fault out_of_fuel
write_rest ((n, err) ∷ answers) (c ∷ cs) (content, written) =
    let taken = content ++ take n (c ∷ cs) in
    let rest = write_rest answers (drop n (c ∷ cs)) (taken, written + n) in
    if not (n == length (c ∷ cs)) && not (err == 0) then ok (taken, written) else rest

-- `AppendFile::Append`; the counter is an `off_t`.
unfoldable pub append_file : List (ℕ × ℕ) → List ℕ → AppendFile → Outcome AppendFile
append_file answers line file = do
  (content, written) ← write_rest answers line (file.content, 0)
  in_range (ltb (file.written_bytes + written) (2 ^ 63))
  ok (record file { content = content; written_bytes = file.written_bytes + written })

-- `GetLogFilename`.
abbrev pub get_log_filename : World → List ℕ → ℕ → List ℕ
get_log_filename w basename now =
    basename ++ w.stamp now ++ w.hostname ++ (b'.' ∷ w.pid) ++ codes ".log"

-- The file that `reset` destroys.
abbrev pub close_file : Option AppendFile → List AppendFile → List AppendFile
close_file none files = files
close_file (some file) files = flush_file file ∷ files

-- `RollFile`.
unfoldable pub roll_file : World → ℕ → Bool → LogFile → Outcome (Bool × LogFile)
roll_file w now opens f =
    if ltb f.last_roll now
    then assert opens
      >> ok (
        true,
        record f {
          last_roll = now;
          last_flush = now;
          start_of_period = now / roll_per_seconds * roll_per_seconds;
          file = some (open_file (get_log_filename w f.basename now));
          closed = close_file f.file f.closed;
        },
      )
    else ok (false, f)

-- `file_->`.
abbrev pub deref_file : Option AppendFile → Outcome AppendFile
deref_file none = fault out_of_range
deref_file (some file) = ok file

-- What `AppendUnlocked` does behind the write, when the file is not too large.
unfoldable pub check_period : World → Answers → AppendFile → LogFile → Outcome LogFile
check_period w a file f =
    if leb f.check_every_n (f.count + 1)
    then (if not (a.now / roll_per_seconds * roll_per_seconds == f.start_of_period)
        then (roll_file w a.roll_now a.opens (record f { count = 0 }) >>= λ (rolled, f'). ok f')
        else (if ltb f.flush_interval (a.now - f.last_flush)
            then ok (record f { count = 0; last_flush = a.now; file = some (flush_file file) })
            else ok (record f { count = 0 })))
    else ok (record f { count = f.count + 1 })

-- `AppendUnlocked`.
unfoldable pub append_unlocked : World → Answers → List ℕ → LogFile → Outcome LogFile
append_unlocked w a line f = do
  file ← deref_file f.file
  file' ← append_file a.writes line file
  let f' = record f { file = some file' }
  if ltb f.roll_size file'.written_bytes
      then (roll_file w a.roll_now a.opens f' >>= λ (rolled, f''). ok f'')
      else check_period w a file' f'

-- `Flush`.
unfoldable pub flush_log : LogFile → Outcome LogFile
flush_log f = do file ← deref_file f.file; ok (record f { file = some (flush_file file) })

abbrev pub has_slash : List ℕ → Bool
has_slash [] = false
has_slash (c ∷ cs) = if c == b'/' then true else has_slash cs

-- `LogFile::LogFile`, with the time and whether the first file opens.
unfoldable pub new_log_file : World → ℕ → Bool → List ℕ → ℕ → ℕ → ℕ → Outcome LogFile
new_log_file w now opens basename roll_size flush_interval check_every_n = do
  assert (not (has_slash basename))
  (rolled, f) ← roll_file w now opens (record {
    basename = basename;
    roll_size = roll_size;
    flush_interval = flush_interval;
    check_every_n = check_every_n;
    count = 0;
    start_of_period = 0;
    last_roll = 0;
    last_flush = 0;
    file = none;
    closed = [];
  })
  ok f

-- The calls that the thread of the asynchronous log makes, each with its answers.
abbrev pub run_calls : World → List (Call × Answers) → LogFile → Outcome LogFile
run_calls w [] f = ok f
run_calls w ((append line, a) ∷ calls) f = append_unlocked w a line f >>= run_calls w calls
run_calls w ((flush, a) ∷ calls) f = flush_log f >>= run_calls w calls
