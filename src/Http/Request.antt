-- ===== src/Http/Request.antt =====
-- A parsed request: mytinyhttpd/http/http_request.h.
-- A text is the list of its bytes. A pointer pair into the line that is parsed is a pair of offsets.
-- The map of headers is an association list: its order shows only in a debug log.
use my_tiny_httpd.Prelude.{
  ℕ, ◌+◌, ◌-◌, Bool, true, false, List, [], ◌∷◌, reverse, Option, none, some, Outcome, ok, ◌>>◌,
  assert, in_range, leb, if◌then◌else◌, take, drop, codes, starts_with, bytes_eq, is_space,
}

pub data Method : Type 0 where
  invalid get post head put delete track options : Method

pub data Version : Type 0 where
  unknown http10 http11 : Version

abbrev pub Headers : Type 0
Headers = List (List ℕ × List ℕ)

pub record Request : Type 0 where
  pub method : Method
  pub version : Version
  pub path : List ℕ
  pub query : List ℕ
  pub receive_time : ℕ
  pub headers : Headers
  pub body : List ℕ

-- `HttpRequest()`.
abbrev pub new_request : Request
new_request = record {
  method = invalid;
  version = unknown;
  path = [];
  query = [];
  receive_time = 0;
  headers = [];
  body = [];
}

abbrev pub is_invalid : Method → Bool
is_invalid invalid = true
is_invalid _ = false

-- The keyword comparisons of `SetMethod`. `memcmp` reads on from the start of the line; no keyword
-- holds a space, and the line holds one, so a match lies in the line.
abbrev pub method_of : List ℕ → Method
method_of line =
    if starts_with (codes "GET") line
    then get
    else (if starts_with (codes "POST") line
        then post
        else (if starts_with (codes "HEAD") line
            then head
            else (if starts_with (codes "PUT") line
                then put
                else (if starts_with (codes "DELETE") line
                    then delete
                    else (if starts_with (codes "OPTIONS") line then options else invalid)))))

unfoldable pub set_method : List ℕ → Request → Outcome Request
set_method line req = do assert (is_invalid req.method); ok (record req { method = method_of line })

-- `path_.assign(start, end)` over `text`; the pointers must be in order.
unfoldable pub set_path : List ℕ → ℕ → ℕ → Request → Outcome Request
set_path text from to req = do
  in_range (leb from to)
  ok (record req { path = take (to - from) (drop from text) })

unfoldable pub set_query : List ℕ → ℕ → ℕ → Request → Outcome Request
set_query text from to req = do
  in_range (leb from to)
  ok (record req { query = take (to - from) (drop from text) })

unfoldable pub set_version : Version → Request → Request
set_version v req = record req { version = v }

unfoldable pub set_receive_time : ℕ → Request → Request
set_receive_time t req = record req { receive_time = t }

unfoldable pub set_body : List ℕ → Request → Request
set_body text req = record req { body = text }

-- The loops of `AddHeader` over the white space round the value.
unfoldable pub skip_spaces : List ℕ → List ℕ
skip_spaces [] = []
skip_spaces (c ∷ cs) = if is_space c then skip_spaces cs else c ∷ cs

unfoldable pub drop_spaces_at_end : List ℕ → List ℕ
unfolding skip_spaces
drop_spaces_at_end text = reverse (skip_spaces (reverse text))

-- `headers_[field] = value`.
unfoldable pub insert_header : List ℕ → List ℕ → Headers → Headers
insert_header field value [] = (field, value) ∷ []
insert_header field value ((f, v) ∷ hs) =
    if bytes_eq f field then (f, value) ∷ hs else (f, v) ∷ insert_header field value hs

-- `AddHeader(start, colon, end)`: `line` is the text from `start` to `end`.
unfoldable pub add_header : List ℕ → ℕ → Request → Request
unfolding insert_header drop_spaces_at_end skip_spaces
add_header line colon req = record req {
  headers =
      insert_header (take colon line) (drop_spaces_at_end (skip_spaces (drop (colon + 1) line)))
        req.headers;
}

unfoldable pub find_header : List ℕ → Headers → Option (List ℕ)
find_header field [] = none
find_header field ((f, v) ∷ hs) = if bytes_eq f field then some v else find_header field hs

-- `GetHeader`: the empty text for a field that is not there.
unfoldable pub get_header : List ℕ → Request → List ℕ
unfolding find_header
get_header field req = elim (find_header field req.headers) [ none ↦ [] | some v ↦ v ]

-- `swap`: the bodies stay where they are.
unfoldable pub swap : Request → Request → Request × Request
swap a b = (record b { body = a.body }, record a { body = b.body })
