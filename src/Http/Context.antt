-- ===== src/Http/Context.antt =====
-- The request parser of a connection: mytinyhttpd/http/http_context.h and http_context.cc.
-- A pointer into the buffer is its offset from `Peek()`. The `while` loop takes fuel: each round
-- but the last uses up a line end or goes on to the body, so that one more round than there are
-- readable bytes is enough. Logging is left out.
pub mod Rounds
pub mod Printed
pub mod Bytes
pub mod Fuel
pub mod Split
pub mod Line
pub mod RoundTrip
pub mod Faults
use my_tiny_httpd.Prelude.{
  ℕ, zero, suc, ◌+◌, ◌-◌, ◌≡◌, Bool, true, false, not, ◌&&◌, ◌||◌, List, [], ◌∷◌, ◌++◌, Option,
  none, some, Outcome, ok, fault, out_of_fuel, ◌>>=◌, ◌>>◌, assert, ◌==◌, if◌then◌else◌, length,
  take, drop, codes, find, bytes_eq, starts_with, ℤ, pos, negsuc, strtol, map,
}
use my_tiny_httpd.Net.Buffer.{Buffer, contents, readable_bytes, retrieve_until}
use my_tiny_httpd.Http.Request.{
  Request, Version, Method, new_request, set_method, set_path, set_query, set_version,
  set_receive_time, set_body, add_header, get_header, swap,
}

pub data State : Type 0 where
  expect_request_line expect_headers expect_body got_all : State

pub record Context : Type 0 where
  pub state : State
  pub request : Request

unfoldable pub new_context : Context
new_context = record { state = expect_request_line; request = new_request }

abbrev pub is_got_all : Context → Bool
is_got_all c = elim c.state [ got_all ↦ true | _ ↦ false ]

-- `Reset`: the request is exchanged with a new one.
unfoldable pub reset : Context → Context
reset c = record { state = expect_request_line; request = (swap c.request new_request).0 }

-- The version at the end of the request line.
pub parse_version : List ℕ → Request → Bool × Request
parse_version text req =
    if length text == 8 && bytes_eq (take 7 text) (codes "HTTP/1.")
    then (if bytes_eq (drop 7 text) (codes "1")
        then (true, set_version Version.http11 req)
        else (if bytes_eq (drop 7 text) (codes "0")
            then (true, set_version Version.http10 req)
            else (false, req)))
    else (false, req)

-- The path, up to `space`, and the query from the question mark, if there is one.
pub set_target : List ℕ → ℕ → Request → Outcome Request
set_target text space req =
    let question = find 63 (take space text) in
    if question == space
    then set_path text 1 space req
    else set_path text 1 question req >>= set_query text question space

-- `ProcessRequestLine(begin, end)`; `line` is the text between.
pub process_request_line : List ℕ → Request → Outcome (Bool × Request)
process_request_line line req =
    let space = find 32 line in
    let text = drop (space + 1) line in
    let space' = find 32 text in
    if space == length line
    then ok (false, req)
    else (set_method line req >>= λ named.
        if space' == length text
        then ok (false, named)
        else (set_target text space' named >>= λ aimed.
            ok (parse_version (drop (space' + 1) text) aimed)))

abbrev pub next_offset : Option ℕ → Option ℕ
next_offset none = none
next_offset (some i) = some (suc i)

-- `FindCrlf`: the offset of the first line end among the readable bytes.
unfoldable pub find_crlf : List ℕ → Option ℕ
find_crlf [] = none
find_crlf (c ∷ cs) =
    if c == 13 && starts_with (10 ∷ []) cs then some 0 else next_offset (find_crlf cs)

-- Whether a `long` is the given count.
abbrev pub is_count : ℤ → ℕ → Bool
is_count (pos n) k = n == k
is_count (negsuc n) k = false

abbrev pub has_body : Method → Bool
has_body Method.post = true
has_body Method.put = true
has_body _ = false

-- Whether the body cannot be taken: there is no length, or another one than `readable`.
pub body_refused : Request → ℕ → Bool
body_refused req readable =
    let len = get_header (codes "Content-Length") req in
    length len == 0 || not (is_count (strtol len) readable)

-- The branch of the `while` loop of `ParseRequest` for the body.
unfoldable pub parse_body : Request → Buffer → Outcome (Bool × Context × Buffer)
parse_body req buf =
    if not (has_body req.method)
    then ok (true, record { state = got_all; request = req }, buf)
    else (if body_refused req (readable_bytes buf)
        then ok (false, record { state = expect_body; request = req }, buf)
        else (retrieve_until (buf.reader_index + readable_bytes buf) buf >>= λ rest.
            ok (true, record { state = got_all; request = set_body (contents buf) req }, rest)))

-- A round of the `while` loop of `ParseRequest` in its first state; `next` is the rest of the loop.
unfoldable pub on_request_line :
    (Request → Buffer → Outcome (Bool × Context × Buffer))
    → ℕ
    → Request
    → Buffer
    → Outcome (Bool × Context × Buffer)
on_request_line next time req buf = elim (find_crlf (contents buf)) [
  | none ↦ ok (true, record { state = expect_request_line; request = req }, buf)
  | some crlf ↦ process_request_line (take crlf (contents buf)) req >>= λ (good, req').
      if good
      then retrieve_until (buf.reader_index + (crlf + 2)) buf >>= next (set_receive_time time req')
      else ok (false, record { state = expect_request_line; request = req' }, buf)
]

-- A round in the second state: `last` goes on with the body, `next` with another header.
unfoldable pub on_header :
    (Request → Buffer → Outcome (Bool × Context × Buffer))
    → (Request → Buffer → Outcome (Bool × Context × Buffer))
    → Request
    → Buffer
    → Outcome (Bool × Context × Buffer)
on_header last next req buf = elim (find_crlf (contents buf)) [
  | none ↦ ok (true, record { state = expect_headers; request = req }, buf)
  | some crlf ↦
      let line = take crlf (contents buf) in
      retrieve_until (buf.reader_index + (crlf + 2)) buf
      >>= (if find 58 line == length line
          then last req
          else next (add_header line (find 58 line) req))
]

-- The loop, with the two members of the context as variables. In the last state it has no branch
-- to take.
unfoldable pub parse_loop : ℕ → ℕ → State → Request → Buffer → Outcome (Bool × Context × Buffer)
parse_loop zero time state req buf = fault out_of_fuel
parse_loop (suc fuel) time expect_request_line req buf =
    on_request_line (parse_loop fuel time expect_headers) time req buf
parse_loop (suc fuel) time expect_headers req buf =
    on_header (parse_loop fuel time expect_body) (parse_loop fuel time expect_headers) req buf
parse_loop (suc fuel) time expect_body req buf = parse_body req buf
parse_loop (suc fuel) time got_all req buf = parse_loop fuel time got_all req buf

unfoldable pub parse_request : ℕ → Context → Buffer → Outcome (Bool × Context × Buffer)
parse_request time ctx buf = parse_loop (readable_bytes buf + 1) time ctx.state ctx.request buf
