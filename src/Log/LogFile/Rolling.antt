-- ===== src/Log/LogFile/Rolling.antt =====
-- The bytes of the log in the files of mytinyhttpd/base/log_file.cc.
use my_tiny_httpd.Prelude.{
  ℕ, suc, ◌+◌, ◌-◌, ◌*◌, ◌/◌, ◌^◌, ◌<◌, ◌≡◌, refl, sym, ap, ◌∙◌, subst, Bool, true, false, not,
  List, [], ◌∷◌, ◌++◌, append-nil, append_assoc, Option, none, some, Outcome, ok, ◌>>=◌, ltb, leb,
  ◌==◌, ==_refl, if◌then◌else◌, length, take-all, drop-all, length-append, lt→ltb, ltb→lt,
  Bool-cases, inl, inr, arith, Returns, Returns->>=,
}
use my_tiny_httpd.Log.AsyncLogging.{Call, append, flush}
use my_tiny_httpd.Log.AsyncLogging.Held.{delivered}
use my_tiny_httpd.Log.LogFile.{
  World, Answers, AppendFile, LogFile, roll_per_seconds, write_rest, append_file, get_log_filename,
  close_file, roll_file, deref_file, check_period, append_unlocked, flush_log, has_slash,
  new_log_file, run_calls,
}

-- What the closed files hold, from the oldest to the newest.
abbrev pub contents : List AppendFile → List ℕ
contents [] = []
contents (g ∷ gs) = contents gs ++ g.content

-- The closed files are flushed, and were opened one after another, the last of them before `last`.
abbrev pub Older : World → List ℕ → ℕ → List AppendFile → Type 0
Older w basename last [] = Unit {0}
Older w basename last (g ∷ gs) =
    (start : ℕ) × (start < last)
    × (g.filename ≡ get_log_filename w basename start)
    × (g.flushed ≡ length g.content)
    × Older w basename start gs

-- The open file was opened at `last`, counts its bytes, and ends what the closed ones begin.
abbrev pub Holds : World → List ℕ → List ℕ → ℕ → Option AppendFile → List AppendFile → Type 0
Holds w basename bytes last none closed = ⊥
Holds w basename bytes last (some file) closed =
    (file.filename ≡ get_log_filename w basename last)
    × (file.written_bytes ≡ length file.content)
    × (contents closed ++ file.content ≡ bytes)
    × Older w basename last closed

abbrev pub Rolled : World → List ℕ → List ℕ → LogFile → Type 0
Rolled w basename bytes f =
    (f.basename ≡ basename) × Holds w basename bytes f.last_roll f.file f.closed

-- The first `fwrite` takes the whole line.
abbrev pub Takes : List (ℕ × ℕ) → List ℕ → Type 0
Takes [] line = line ≡ []
Takes ((n, err) ∷ answers) line = n ≡ length line

-- Each file opens, and each line is taken whole.
abbrev pub AllTaken : List (Call × Answers) → Type 0
AllTaken [] = Unit {0}
AllTaken ((append line, a) ∷ calls) = (a.opens ≡ true) × Takes a.writes line × AllTaken calls
AllTaken ((flush, a) ∷ calls) = AllTaken calls

abbrev pub calls_of : List (Call × Answers) → List Call
calls_of [] = []
calls_of ((c, a) ∷ calls) = c ∷ calls_of calls

module _ {A B : Type 0} (P : B → Type 0) where
  Returns-ok :
      (m : Outcome A) (a : A) (k : A → Outcome B) → m ≡ ok a → Returns P (k a) → Returns P (m >>= k)
  Returns-ok m a k e h = rw e h

Returns-if :
    {A : Type 0} (P : A → Type 0) (b : Bool) (m n : Outcome A)
    → Returns P m
    → Returns P n
    → Returns P (if b then m else n)
Returns-if P true m n h k = h
Returns-if P false m n h k = k

write_rest-Takes :
    (answers : List (ℕ × ℕ)) (line content : List ℕ)
    → Takes answers line
    → write_rest answers line (content, 0) ≡ ok (content ++ line, length line)
write_rest-Takes answers [] content t = rw (append-nil content) refl
write_rest-Takes [] (c ∷ cs) content t = cc
write_rest-Takes ((n, err) ∷ answers) (c ∷ cs) content t =
    rw
      (
        t,
        ==_refl (suc (length cs)),
        take-all (length cs) cs (omega arith),
        drop-all (length cs) cs (omega arith),
      )
      (ap (λ m. ok (content ++ c ∷ cs, m)) (omega arith))

append_file-Takes :
    (answers : List (ℕ × ℕ)) (line : List ℕ) (file : AppendFile)
    → Takes answers line
    → file.written_bytes + length line < 2 ^ 63
    → append_file answers line file
      ≡ ok (record file {
        content = file.content ++ line;
        written_bytes = file.written_bytes + length line;
      })
unfolding append_file
append_file-Takes answers line file t small =
    rw (write_rest-Takes answers line file.content t, lt→ltb _ _ small) refl

-- A file that is closed joins the older ones.
Holds-closed :
    (w : World) (basename bytes : List ℕ) (last now : ℕ) (o : Option AppendFile)
    (closed : List AppendFile)
    → last < now
    → Holds w basename bytes last o closed
    → (contents (close_file o closed) ++ [] ≡ bytes) × Older w basename now (close_file o closed)
Holds-closed w basename bytes last now none closed later h = absurd h
Holds-closed w basename bytes last now (some file) closed later (name, count, joined, older) =
    (append-nil (contents closed ++ file.content) ∙ joined, (last, later, name, refl, older))

roll_file-Rolled :
    (w : World) (basename bytes : List ℕ) (now : ℕ) (opens : Bool) (f : LogFile)
    → opens ≡ true
    → Rolled w basename bytes f
    → Returns (λ r. Rolled w basename bytes r.1) (roll_file w now opens f)
unfolding roll_file
roll_file-Rolled w basename bytes now opens f o (b, h) = elim (Bool-cases (ltb f.last_roll now)) [
  | inl later ↦
      let (joined, older) =
        Holds-closed w basename bytes f.last_roll now f.file f.closed (ltb→lt f.last_roll now later)
          h in
      rw (later, o) (b, (ap (λ x. get_log_filename w x now) b, refl, joined, older))
  | inr early ↦ rw early (b, h)
]

check_period-Rolled :
    (w : World) (basename bytes : List ℕ) (a : Answers) (file : AppendFile) (f : LogFile)
    → a.opens ≡ true
    → f.file ≡ some file
    → Rolled w basename bytes f
    → Returns (Rolled w basename bytes) (check_period w a file f)
unfolding check_period
check_period-Rolled w basename bytes a file f o e r =
    Returns-if Here (leb f.check_every_n (f.count + 1)) _ _
      (Returns-if Here (not (a.now / roll_per_seconds * roll_per_seconds == f.start_of_period)) _ _
        (Returns->>= (λ x. Here x.1) Here (roll_file w a.roll_now a.opens (record f { count = 0 }))
          _ (roll_file-Rolled w basename bytes a.roll_now a.opens (record f { count = 0 }) o r)
          (λ x p. p))
        (Returns-if Here (ltb f.flush_interval (a.now - f.last_flush)) _ _
          (r.0, subst (λ file'. Holds w basename bytes f.last_roll file' f.closed) e r.1) r))
      r
  where
    Here : LogFile → Type 0
    Here = Rolled w basename bytes

-- The open file, and what it holds.
Holds-file :
    (w : World) (basename bytes : List ℕ) (last : ℕ) (o : Option AppendFile)
    (closed : List AppendFile)
    → Holds w basename bytes last o closed
    → (file : AppendFile) × (o ≡ some file) × Holds w basename bytes last (some file) closed
Holds-file w basename bytes last none closed h = absurd h
Holds-file w basename bytes last (some file) closed h = (file, refl, h)

append_unlocked-Rolled :
    (w : World) (basename bytes line : List ℕ) (a : Answers) (f : LogFile)
    → a.opens ≡ true
    → Takes a.writes line
    → length (bytes ++ line) < 2 ^ 63
    → Rolled w basename bytes f
    → Returns (Rolled w basename (bytes ++ line)) (append_unlocked w a line f)
unfolding append_unlocked
append_unlocked-Rolled w basename bytes line a f o t small (b, h) =
    let (file, e, (name, count, joined, older)) =
      Holds-file w basename bytes f.last_roll f.file f.closed h in
    let written : file.written_bytes + length line < 2 ^ 63 = omega (
      arith,
      small,
      count,
      length-append bytes line,
      ap length joined,
      length-append (contents f.closed) file.content,
    ) in
    let file' : AppendFile = record file {
      content = file.content ++ line;
      written_bytes = file.written_bytes + length line;
    } in
    let rolled : Rolled w basename (bytes ++ line) (record f { file = some file' }) = (
      b,
      (
        name,
        ap (λ n. n + length line) count ∙ sym (length-append file.content line),
        sym (append_assoc (contents f.closed) file.content line) ∙ ap (λ x. x ++ line) joined,
        older,
      ),
    ) in
    Returns-ok Here (deref_file f.file) file _ (ap deref_file e) (
      Returns-ok Here (append_file a.writes line file) file' _
        (append_file-Takes a.writes line file t written)
        (Returns-if Here (ltb f.roll_size file'.written_bytes) _ _
          (Returns->>= (λ x. Here x.1) Here
            (roll_file w a.roll_now a.opens (record f { file = some file' })) _
            (roll_file-Rolled w basename (bytes ++ line) a.roll_now a.opens
              (record f { file = some file' }) o rolled)
            (λ x p. p))
          (check_period-Rolled w basename (bytes ++ line) a file' (record f { file = some file' }) o
            refl rolled)))
  where
    Here : LogFile → Type 0
    Here = Rolled w basename (bytes ++ line)

flush_log-Rolled :
    (w : World) (basename bytes : List ℕ) (f : LogFile)
    → Rolled w basename bytes f
    → Returns (Rolled w basename bytes) (flush_log f)
unfolding flush_log
flush_log-Rolled w basename bytes f (b, h) =
    let (file, e, k) = Holds-file w basename bytes f.last_roll f.file f.closed h in
    Returns-ok (Rolled w basename bytes) (deref_file f.file) file _ (ap deref_file e) (b, k)

new_log_file-Rolled :
    (w : World) (now : ℕ) (opens : Bool) (basename : List ℕ)
    (roll_size flush_interval check_every_n : ℕ)
    → 0 < now
    → opens ≡ true
    → has_slash basename ≡ false
    → Returns
        (Rolled w basename [])
        (new_log_file w now opens basename roll_size flush_interval check_every_n)
unfolding new_log_file roll_file
new_log_file-Rolled w now opens basename roll_size flush_interval check_every_n later o plain =
    rw (plain, o, lt→ltb 0 now later) (refl, (refl, refl, refl, tt))

run_calls-Rolled :
    (w : World) (basename bytes : List ℕ) (calls : List (Call × Answers)) (f : LogFile)
    → AllTaken calls
    → length (bytes ++ delivered (calls_of calls)) < 2 ^ 63
    → Rolled w basename bytes f
    → Returns (Rolled w basename (bytes ++ delivered (calls_of calls))) (run_calls w calls f)
run_calls-Rolled w basename bytes [] f t small r =
    subst (λ x. Rolled w basename x f) (sym (append-nil bytes)) r
run_calls-Rolled w basename bytes ((append line, a) ∷ calls) f (o, takes, t) small r =
    let regroup : (bytes ++ line) ++ delivered (calls_of calls)
        ≡ bytes ++ (line ++ delivered (calls_of calls)) =
      append_assoc bytes line (delivered (calls_of calls)) in
    let small' : length ((bytes ++ line) ++ delivered (calls_of calls)) < 2 ^ 63 =
      subst (λ x. length x < 2 ^ 63) (sym regroup) small in
    Returns->>= (Rolled w basename (bytes ++ line)) (Rolled w basename _)
      (append_unlocked w a line f) (run_calls w calls)
      (append_unlocked-Rolled w basename bytes line a f o takes
        (omega (arith, small', length-append (bytes ++ line) (delivered (calls_of calls)))) r)
      (λ f' r'.
        subst (λ x. Returns (Rolled w basename x) (run_calls w calls f')) regroup
          (run_calls-Rolled w basename (bytes ++ line) calls f' t small' r'))
run_calls-Rolled w basename bytes ((flush, a) ∷ calls) f t small r =
    Returns->>= (Rolled w basename bytes) (Rolled w basename _) (flush_log f) (run_calls w calls)
      (flush_log-Rolled w basename bytes f r)
      (λ f' r'. run_calls-Rolled w basename bytes calls f' t small r')

-- A log file starts at a time that is not 0, under a name without a slash, and its first file
-- opens. Through any calls of `Append` and `Flush`, in which each file opens, each line is taken
-- whole and fewer than 2 ^ 63 bytes are appended, nothing faults. However often the file is rolled,
-- the files one after another, the open one last, hold the bytes that were appended; each closed
-- one has been flushed; and each is named after a time that is later than that of the file before
-- it.
pub new_log_file-run_calls :
    (w : World) (now : ℕ) (opens : Bool) (basename : List ℕ)
    (roll_size flush_interval check_every_n : ℕ) (calls : List (Call × Answers))
    → 0 < now
    → opens ≡ true
    → has_slash basename ≡ false
    → AllTaken calls
    → length (delivered (calls_of calls)) < 2 ^ 63
    → Returns (Rolled w basename (delivered (calls_of calls))) (
        new_log_file w now opens basename roll_size flush_interval check_every_n
        >>= run_calls w calls)
new_log_file-run_calls w now opens basename roll_size flush_interval check_every_n calls later o
      plain t small =
    Returns->>= (Rolled w basename []) (Rolled w basename (delivered (calls_of calls)))
      (new_log_file w now opens basename roll_size flush_interval check_every_n) (run_calls w calls)
      (new_log_file-Rolled w now opens basename roll_size flush_interval check_every_n later o
        plain)
      (λ f r. run_calls-Rolled w basename [] calls f t small r)
