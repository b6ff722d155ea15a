-- ===== src/Http/Context/RoundTrip.antt =====
-- A request that is printed as text is parsed to its parts: mytinyhttpd/http/http_context.cc.
use my_tiny_httpd.Prelude.{
  ℕ, suc, ◌+◌, ◌≡◌, ◌≢◌, refl, ap, ◌∙◌, true, false, List, [], ◌∷◌, ◌++◌, Option, none, ok, ◌==◌,
  if◌then◌else◌, length, take-append_self, drop-append, Lacks, Lacks-append, codes, arith, pos,
  strtol, Bool-cases, inl, inr,
}
use my_tiny_httpd.Net.Buffer.{Buffer, contents, readable_bytes}
use my_tiny_httpd.Net.Buffer.Space.{readable_bytes-length}
use my_tiny_httpd.Http.Request.{
  Request, Method, Version, Headers, new_request, set_receive_time, set_body, get_header,
}
use my_tiny_httpd.Http.Context.{
  expect_request_line, expect_headers, expect_body, got_all, new_context, has_body, body_refused,
  parse_request,
}
use my_tiny_httpd.Http.Context.Bytes.{
  run, run_body, run_request_line, Parsed, IsReady, Agrees, parse_loop-Agrees,
}
use my_tiny_httpd.Http.Context.Rounds.{run_enough}
use my_tiny_httpd.Http.Context.Line.{
  Keyword-Lacks_return, query_text, request_line, find_crlf-line, process_request_line-request_line,
}
use my_tiny_httpd.Http.Context.Printed.{
  headers_text, run_headers, IsRequest, request_text, parsed_request, VersionText-Lacks_return,
}

module _ {m : Method} {v : Version} {word version path : List ℕ} {query : Option (List ℕ)}
    {headers : Headers} (r : IsRequest m v word version path query headers) (time : ℕ)
    (rest : List ℕ) where
  line : List ℕ
  line = request_line word path query version

  behind : List ℕ
  behind = headers_text headers rest

  line-Lacks : Lacks 13 line
  unfolding line
  line-Lacks =
      Lacks-append 13 word (32 ∷ ((47 ∷ (path ++ query_text query)) ++ (32 ∷ version)))
        (Keyword-Lacks_return r.keyword)
        (
          omega arith,
          (
            omega arith,
            Lacks-append 13 (path ++ query_text query) (32 ∷ version)
                (Lacks-append 13 path (query_text query) r.path_returns r.query_returns)
                (omega arith, VersionText-Lacks_return r.version_text),
          ),
        )

  run_request_line_text :
      (next : Request → List ℕ → Parsed (List ℕ))
      → run_request_line next time new_request (line ++ (13 ∷ 10 ∷ behind))
        ≡ next (parsed_request time m v path query [] []) behind
  unfolding run_request_line set_receive_time line
  run_request_line_text next = rw (
    run_request_line,
    find_crlf-line line behind line-Lacks,
    take-append_self (length line) line (13 ∷ 10 ∷ behind) refl,
    drop-append (length line + 2) 2 line (13 ∷ 10 ∷ behind) refl,
    process_request_line-request_line path query new_request r.keyword r.version_text r.path_spaces
        r.path_questions r.query_spaces refl refl,
  )

  run-request_text :
      (n fuel : ℕ)
      → n ≡ length headers + fuel
      → run
          (suc (suc n))
          time
          expect_request_line
          new_request
          (request_text word version path query headers rest)
        ≡ run fuel time expect_body (parsed_request time m v path query headers []) rest
  unfolding run line behind
  run-request_text n fuel e =
      run_request_line_text (run (suc n) time expect_headers)
      ∙ run_headers headers n fuel time (parsed_request time m v path query [] []) rest e
          r.printable

  parse_text :
      (b : Buffer)
      → IsReady b
      → contents b ≡ request_text word version path query headers rest
      → Agrees
          (parse_request time new_context b)
          (run_body (parsed_request time m v path query headers []) rest)
  unfolding parse_request run new_context
  parse_text b ready e =
      rw (← enough)
        (parse_loop-Agrees (readable_bytes b + 1) time expect_request_line new_request b ready)
    where
      n : ℕ
      n = length headers + (suc (readable_bytes b))

      enough :
          run (readable_bytes b + 1) time expect_request_line new_request (contents b)
          ≡ run_body (parsed_request time m v path query headers []) rest
      enough =
          run_enough (readable_bytes b + 1) (suc (suc n)) time expect_request_line new_request
            (contents b) tt (omega (arith, readable_bytes-length b ready.valid))
            (omega (arith, readable_bytes-length b ready.valid))
          ∙ ap (run (suc (suc n)) time expect_request_line new_request) e
          ∙ run-request_text n (suc (readable_bytes b)) refl

-- When a request of a method without a body, whose parts hold none of the separators that end
-- them, has arrived whole, in a buffer whose reserved bytes are free, `ParseRequest` on a new
-- context answers true, has got all, and holds the method, version, path, query and headers that
-- were printed; the bytes behind the request are left in the buffer.
pub parse_request-request_text :
    {m : Method} {v : Version} {word version path : List ℕ} {query : Option (List ℕ)}
    {headers : Headers} (time : ℕ) (rest : List ℕ) (b : Buffer)
    → IsRequest m v word version path query headers
    → IsReady b
    → contents b ≡ request_text word version path query headers rest
    → has_body m ≡ false
    → Agrees (parse_request time new_context b) (
        ok (
          true,
          record { state = got_all; request = parsed_request time m v path query headers [] },
          rest,
        ))
unfolding run_body
parse_request-request_text {m} {v} {word} {version} {path} {query} {headers} time rest b r ready e
      h =
    rw (← untaken) (
      parse_text {m = m} {v = v} {word = word} {version = version} {path = path} {query = query}
        {headers = headers} r time rest b ready e)
  where
    req : Request
    req = parsed_request time m v path query headers []

    untaken : run_body req rest ≡ ok (true, record { state = got_all; request = req }, rest)
    untaken = rw (run_body, h)

-- The length that the headers announce.
abbrev pub announced : Headers → List ℕ
announced headers =
    get_header (codes "Content-Length")
      (parsed_request 0 Method.get Version.http11 [] none headers [])

length_not_nil : (xs : List ℕ) → xs ≢ [] → (length xs == 0) ≡ false
length_not_nil [] h = absurd (h refl)
length_not_nil (x ∷ xs) h = ground arith

run_body_taken :
    (req : Request) (xs : List ℕ) (n : ℕ)
    → has_body req.method ≡ true
    → get_header (codes "Content-Length") req ≢ []
    → strtol (get_header (codes "Content-Length") req) ≡ pos n
    → run_body req xs ≡ (
        if n == length xs
        then ok (true, record { state = got_all; request = set_body xs req }, [])
        else ok (false, record { state = expect_body; request = req }, xs))
unfolding run_body body_refused
run_body_taken req xs n h a s =
    rw (run_body, h, body_refused, length_not_nil (get_header (codes "Content-Length") req) a, s)
      (elim (Bool-cases (n == length xs)) [ inl e ↦ rw e refl | inr e ↦ rw e refl ])

-- When the head of such a POST or PUT request announces `n` bytes, `ParseRequest` on a new context
-- takes the body just if exactly `n` bytes have arrived behind the head: then it has got all, with
-- these bytes as the body and nothing left. With any other number it answers false, waits for a
-- body, and leaves the bytes.
pub parse_request-body :
    {m : Method} {v : Version} {word version path : List ℕ} {query : Option (List ℕ)}
    {headers : Headers} (time : ℕ) (arrived : List ℕ) (b : Buffer) (n : ℕ)
    → IsRequest m v word version path query headers
    → IsReady b
    → contents b ≡ request_text word version path query headers arrived
    → has_body m ≡ true
    → announced headers ≢ []
    → strtol (announced headers) ≡ pos n
    → Agrees (parse_request time new_context b) (
        if n == length arrived
        then ok (
          true,
          record { state = got_all; request = parsed_request time m v path query headers arrived },
          [],
        )
        else ok (
          false,
          record { state = expect_body; request = parsed_request time m v path query headers [] },
          arrived,
        ))
unfolding set_body get_header
parse_request-body {m} {v} {word} {version} {path} {query} {headers} time arrived b n r ready e h a
      s =
    rw (← run_body_taken (parsed_request time m v path query headers []) arrived n h a s) (
      parse_text {m = m} {v = v} {word = word} {version = version} {path = path} {query = query}
        {headers = headers} r time arrived b ready e)
