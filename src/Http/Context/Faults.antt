-- ===== src/Http/Context/Faults.antt =====
-- Request lines that stop the server: mytinyhttpd/http/http_context.cc and the assertion of
-- SetMethod in mytinyhttpd/http/http_request.h.
use my_tiny_httpd.Prelude.{
  ℕ, suc, ◌+◌, ◌≡◌, refl, sym, ap, subst, ◌∙◌, false, List, ◌∷◌, ◌++◌, ok, ◌>>=◌, fault, Fault,
  out_of_range, assertion, ==_refl, lt→==, if◌then◌else◌, length, length-append, take-append_self,
  drop-append, Lacks, find-Lacks, find-append, Lacks-append, arith, append_assoc,
}
use my_tiny_httpd.Net.Buffer.{Buffer, contents, readable_bytes}
use my_tiny_httpd.Http.Request.{
  Request, set_receive_time, Method, invalid, is_invalid, new_request, set_method, set_path,
}
use my_tiny_httpd.Http.Context.{
  expect_request_line, expect_headers, Context, new_context, parse_request, process_request_line,
  set_target,
}
use my_tiny_httpd.Http.Context.Bytes.{
  run, run_request_line, Parsed, IsReady, Agrees, Agrees-ok, parse_loop-Agrees,
}
use my_tiny_httpd.Http.Context.Line.{
  Keyword, Keyword-Lacks, Keyword-Lacks_return, set_method-Keyword, find_crlf-line,
}

-- What stands behind the method where the path is empty: a second space, or a query and a space.
pub data NoPath : List ℕ → Type 0 where
  no_target : (text : List ℕ) → NoPath (32 ∷ text)
  only_query : (query text : List ℕ) → Lacks 32 query → NoPath (63 ∷ (query ++ (32 ∷ text)))

Agrees-fault : (m : Parsed Buffer) (f : Fault) → Agrees m (fault f) → m ≡ fault f
Agrees-fault (ok r) f a = elim a [ ]
Agrees-fault (fault e) f a = ap fault a

Keyword-known : {m : Method} {word : List ℕ} → Keyword m word → is_invalid m ≡ false
Keyword-known Keyword.get_word = refl
Keyword-known Keyword.post_word = refl
Keyword-known Keyword.head_word = refl
Keyword-known Keyword.put_word = refl
Keyword-known Keyword.delete_word = refl
Keyword-known Keyword.options_word = refl

process_request_line-NoPath :
    {m : Method} {word text : List ℕ} (req : Request)
    → Keyword m word
    → NoPath text
    → req.method ≡ invalid
    → process_request_line (word ++ (32 ∷ text)) req ≡ fault out_of_range
unfolding process_request_line set_target set_path
process_request_line-NoPath {m} {word} req k (no_target text) i = rw (
  find-append 32 word (32 ∷ text) (Keyword-Lacks k),
  lt→== (length word) (length (word ++ (32 ∷ 32 ∷ text)))
      (omega (arith, length-append word (32 ∷ 32 ∷ text))),
  set_method-Keyword (32 ∷ 32 ∷ text) req k i,
  drop-append (length word + 1) 1 word (32 ∷ 32 ∷ text) refl,
  lt→== 0 (suc (length text)) (omega arith),
)
process_request_line-NoPath {m} {word} req k (only_query query text l) i = rw (
  find-append 32 word (63 ∷ (query ++ (32 ∷ text))) (Keyword-Lacks k),
  lt→== (length word) (length (word ++ (32 ∷ 63 ∷ (query ++ (32 ∷ text)))))
      (omega (arith, length-append word (32 ∷ 63 ∷ (query ++ (32 ∷ text))))),
  set_method-Keyword (32 ∷ 63 ∷ (query ++ (32 ∷ text))) req k i,
  drop-append (length word + 1) 1 word (32 ∷ 63 ∷ (query ++ (32 ∷ text))) refl,
  find-append 32 query text l,
  lt→== (suc (length query)) (suc (length (query ++ (32 ∷ text))))
      (omega (arith, length-append query (32 ∷ text))),
  lt→== 0 (suc (length query)) (omega arith),
)

first_line :
    (n time : ℕ) (req : Request) (line rest : List ℕ)
    → Lacks 13 line
    → run (suc n) time expect_request_line req (line ++ (13 ∷ 10 ∷ rest)) ≡ (
        process_request_line line req >>= λ (good, req').
        if good
        then run n time expect_headers (set_receive_time time req') rest
        else ok (
          false,
          record { state = expect_request_line; request = req' },
          line ++ (13 ∷ 10 ∷ rest),
        ))
unfolding run run_request_line
first_line n time req line rest l = rw (
  run_request_line,
  find_crlf-line line rest l,
  take-append_self (length line) line (13 ∷ 10 ∷ rest) refl,
  drop-append (length line + 2) 2 line (13 ∷ 10 ∷ rest) refl,
)

-- The context before a request line.
abbrev pub at_request_line : Request → Context
at_request_line req = record { state = expect_request_line; request = req }

-- The first line of a buffer decides the first round of the loop.
parse_request_first :
    (time : ℕ) (b : Buffer) (req : Request) (line rest : List ℕ)
    → IsReady b
    → Lacks 13 line
    → contents b ≡ line ++ (13 ∷ 10 ∷ rest)
    → (next : Request → List ℕ → Parsed (List ℕ)) × Agrees
        (parse_request time (at_request_line req) b)
        (process_request_line line req >>= λ (good, req').
          if good
          then next (set_receive_time time req') rest
          else ok (false, at_request_line req', contents b))
unfolding parse_request
parse_request_first time b req line rest r l e = (
  run (readable_bytes b) time expect_headers,
  rw (← first) (parse_loop-Agrees (readable_bytes b + 1) time expect_request_line req b r),
)
  where
    one_more : readable_bytes b + 1 ≡ suc (readable_bytes b)
    one_more = omega arith

    Round : List ℕ → Type 0
    Round xs = run (readable_bytes b + 1) time expect_request_line req xs ≡ (
        process_request_line line req >>= λ (good, req').
        if good
        then run (readable_bytes b) time expect_headers (set_receive_time time req') rest
        else ok (false, at_request_line req', xs))

    first : Round (contents b)
    first = subst Round (sym e) (
        ap (λ n. run n time expect_request_line req (line ++ (13 ∷ 10 ∷ rest))) one_more
        ∙ first_line (readable_bytes b) time req line rest l)

-- On a new context, a known method followed by a second space, or by a question mark and later a
-- space, makes `ParseRequest` assign a path whose end lies in front of its start: the call does
-- not return.
pub parse_request-NoPath :
    {m : Method} {word text : List ℕ} (time : ℕ) (rest : List ℕ) (b : Buffer)
    → Keyword m word
    → NoPath text
    → Lacks 13 text
    → IsReady b
    → contents b ≡ (word ++ (32 ∷ text)) ++ (13 ∷ 10 ∷ rest)
    → parse_request time new_context b ≡ fault out_of_range
unfolding new_context
parse_request-NoPath {m} {word} {text} time rest b k n l r e =
    let line = word ++ (32 ∷ text) in
    let (next, a) =
      parse_request_first time b new_request line rest r
        (Lacks-append 13 word (32 ∷ text) (Keyword-Lacks_return k) (omega arith, l)) e in
    Agrees-fault (parse_request time new_context b) out_of_range
      (rw (process_request_line-NoPath new_request k n refl) at a)

-- A request line without a version, after a method that is known.
process_request_line_no_version :
    {m : Method} {word : List ℕ} (target : List ℕ) (req : Request)
    → Keyword m word
    → Lacks 32 target
    → req.method ≡ invalid
    → process_request_line (word ++ (32 ∷ target)) req ≡ ok (false, record req { method = m })
unfolding process_request_line
process_request_line_no_version {m} {word} target req k l i = rw (
  find-append 32 word target (Keyword-Lacks k),
  lt→== (length word) (length (word ++ (32 ∷ target)))
      (omega (arith, length-append word (32 ∷ target))),
  set_method-Keyword (32 ∷ target) req k i,
  drop-append (length word + 1) 1 word (32 ∷ target) refl,
  find-Lacks 32 target l,
  ==_refl (length target),
)

-- The method is set already.
process_request_line_again :
    {m : Method} {word : List ℕ} (target : List ℕ) (req : Request)
    → Keyword m word
    → req.method ≡ m
    → process_request_line (word ++ (32 ∷ target)) req ≡ fault assertion
unfolding process_request_line set_method
process_request_line_again {m} {word} target req k i = rw (
  find-append 32 word target (Keyword-Lacks k),
  lt→== (length word) (length (word ++ (32 ∷ target)))
      (omega (arith, length-append word (32 ∷ target))),
  i,
  Keyword-known k,
)

-- On a new context, a request line of a known method without a version is refused and stays in the
-- buffer, and when the connection's next message brings more bytes, or none, `ParseRequest` on the
-- context that was left fails the assertion of `SetMethod`.
pub parse_request_refused_again :
    {m : Method} {word : List ℕ} (target : List ℕ) (time time' : ℕ) (rest more : List ℕ)
    (b later : Buffer)
    → Keyword m word
    → Lacks 32 target
    → Lacks 13 target
    → IsReady b
    → IsReady later
    → contents b ≡ (word ++ (32 ∷ target)) ++ (13 ∷ 10 ∷ rest)
    → contents later ≡ contents b ++ more
    → (ctx : Context) × (left : Buffer) × (parse_request time new_context b ≡ ok (false, ctx, left))
      × (contents left ≡ contents b)
      × (parse_request time' ctx later ≡ fault assertion)
unfolding new_context
parse_request_refused_again {m} {word} target time time' rest more b later k l l' r r' e e' =
    let returns = Lacks-append 13 word (32 ∷ target) (Keyword-Lacks_return k) (omega arith, l') in
    let (next, a) = parse_request_first time b new_request line rest r returns e in
    let (next', a') = parse_request_first time' later named line (rest ++ more) r' returns both in
    let (left, refused, same, ready) =
      Agrees-ok (parse_request time new_context b) false (at_request_line named) (contents b)
        (rw (process_request_line_no_version target new_request k l refl) at a) in
    (
      at_request_line named,
      left,
      refused,
      same,
      Agrees-fault (parse_request time' (at_request_line named) later) assertion
          (rw (process_request_line_again target named k refl) at a'),
    )
  where
    line : List ℕ
    line = word ++ (32 ∷ target)

    named : Request
    named = record new_request { method = m }

    both : contents later ≡ line ++ (13 ∷ 10 ∷ (rest ++ more))
    both = e' ∙ ap (λ t. t ++ more) e ∙ append_assoc line (13 ∷ 10 ∷ rest) more
