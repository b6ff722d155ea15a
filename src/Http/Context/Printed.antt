-- ===== src/Http/Context/Printed.antt =====
-- The text of a request, and how mytinyhttpd/http/http_context.cc takes its header lines.
use mathlib.Core.List.{reverse-reverse}
use my_tiny_httpd.Prelude.{
  ℕ, zero, suc, ◌+◌, ◌≡◌, refl, ap, ◌∙◌, List, [], ◌∷◌, ◌++◌, reverse, Option, lt→==, length,
  length-append, take-append_self, drop-append, Lacks, find-append, Lacks-append, arith,
}
use my_tiny_httpd.Http.Request.{
  Request, Method, Version, Headers, add_header, insert_header, skip_spaces, drop_spaces_at_end,
}
use my_tiny_httpd.Http.Context.{expect_headers, expect_body, find_crlf}
use my_tiny_httpd.Http.Context.Bytes.{run, run_header, Parsed}
use my_tiny_httpd.Http.Context.Line.{Keyword, VersionText, query_text, request_line, find_crlf-line}

abbrev pub header_line : List ℕ → List ℕ → List ℕ
header_line field value = field ++ (58 ∷ 32 ∷ value)

-- The header lines, the empty line behind them, and what follows.
abbrev pub headers_text : Headers → List ℕ → List ℕ
headers_text [] rest = 13 ∷ 10 ∷ rest
headers_text ((field, value) ∷ hs) rest =
    header_line field value ++ (13 ∷ 10 ∷ headers_text hs rest)

-- Each header put into the map, in the order of the lines.
abbrev pub insert_all : Headers → Headers → Headers
insert_all [] map = map
insert_all ((field, value) ∷ hs) map = insert_all hs (insert_header field value map)

-- No line end in the header, no colon in its name, no white space round its value.
abbrev pub IsPrintable : Headers → Type 0
IsPrintable [] = Unit {0}
IsPrintable ((field, value) ∷ hs) =
    Lacks 13 field
    × Lacks 58 field
    × Lacks 13 value
    × (skip_spaces value ≡ value)
    × (skip_spaces (reverse value) ≡ reverse value)
    × IsPrintable hs

add_header-header_line :
    (field value : List ℕ) (req : Request)
    → skip_spaces value ≡ value
    → skip_spaces (reverse value) ≡ reverse value
    → add_header (header_line field value) (length field) req
      ≡ record req { headers = insert_header field value req.headers }
unfolding add_header skip_spaces drop_spaces_at_end
add_header-header_line field value req s e =
    ap (λ h. record req { headers = h })
      (rw (
        take-append_self (length field) field (58 ∷ 32 ∷ value) refl,
        drop-append (length field + 1) 1 field (58 ∷ 32 ∷ value) refl,
        s,
        e,
        reverse-reverse value,
      ))

run_header_line :
    (last next : Request → List ℕ → Parsed (List ℕ)) (field value behind : List ℕ) (req : Request)
    → Lacks 13 field
    → Lacks 58 field
    → Lacks 13 value
    → skip_spaces value ≡ value
    → skip_spaces (reverse value) ≡ reverse value
    → run_header last next req (header_line field value ++ (13 ∷ 10 ∷ behind))
      ≡ next (record req { headers = insert_header field value req.headers }) behind
unfolding run_header
run_header_line last next field value behind req l l' l'' s e = rw (
  run_header,
  find_crlf-line line behind
      (Lacks-append 13 field (58 ∷ 32 ∷ value) l (omega arith, (omega arith, l''))),
  take-append_self (length line) line (13 ∷ 10 ∷ behind) refl,
  drop-append (length line + 2) 2 line (13 ∷ 10 ∷ behind) refl,
  find-append 58 field (32 ∷ value) l',
  lt→== (length field) (length line) (omega (arith, length-append field (58 ∷ 32 ∷ value))),
  add_header-header_line field value req s e,
)
  where
    line : List ℕ
    line = header_line field value

pub run_headers :
    (hs : Headers) (n fuel time : ℕ) (req : Request) (rest : List ℕ)
    → n ≡ length hs + fuel
    → IsPrintable hs
    → run (suc n) time expect_headers req (headers_text hs rest)
      ≡ run fuel time expect_body (record req { headers = insert_all hs req.headers }) rest
unfolding run run_header find_crlf
run_headers [] n fuel time req rest m p = ap (λ k. run k time expect_body req rest) (omega arith)
run_headers ((field, value) ∷ hs) zero fuel time req rest m p = absurd (omega arith)
run_headers ((field, value) ∷ hs) (suc n) fuel time req rest m (l, l', l'', s, e, p) =
    run_header_line (run (suc n) time expect_body) (run (suc n) time expect_headers) field value
      (headers_text hs rest) req l l' l'' s e
    ∙ run_headers hs n fuel time (record req { headers = insert_header field value req.headers })
        rest (omega arith) p

-- What a client may send: `word` and `version` are texts of the method and of the version.
pub record IsRequest (method : Method) (v : Version) (word version path : List ℕ)
    (query : Option (List ℕ)) (headers : Headers) : Type 0 where
  pub keyword : Keyword method word
  pub version_text : VersionText v version
  pub path_spaces : Lacks 32 path
  pub path_questions : Lacks 63 path
  pub path_returns : Lacks 13 path
  pub query_spaces : Lacks 32 (query_text query)
  pub query_returns : Lacks 13 (query_text query)
  pub printable : IsPrintable headers

-- The bytes of the request, with `rest` behind the empty line.
abbrev pub request_text : List ℕ → List ℕ → List ℕ → Option (List ℕ) → Headers → List ℕ → List ℕ
request_text word version path query headers rest =
    request_line word path query version ++ (13 ∷ 10 ∷ headers_text headers rest)

-- The request that was meant.
abbrev pub parsed_request :
    ℕ → Method → Version → List ℕ → Option (List ℕ) → Headers → List ℕ → Request
parsed_request time method v path query headers body = record {
  method = method;
  version = v;
  path = path;
  query = query_text query;
  receive_time = time;
  headers = insert_all headers [];
  body = body;
}

pub VersionText-Lacks_return : {v : Version} {text : List ℕ} → VersionText v text → Lacks 13 text
VersionText-Lacks_return VersionText.text10 = omega arith
VersionText-Lacks_return VersionText.text11 = omega arith
