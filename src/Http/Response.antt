-- ===== src/Http/Response.antt =====
-- The response that a handler writes: mytinyhttpd/http/http_response.h and http_response.cc.
-- The bytes go to a buffer of the connection's kind. A file that is open for reading is its size,
-- as GetFileSize of mytinyhttpd/utils/file.cc tells it, and what reading that many bytes gives.
pub mod Text
pub mod Digits
pub mod Lines
use my_tiny_httpd.Prelude.{
  ℕ, zero, suc, ◌+◌, ◌-◌, ◌/◌, ◌%◌, ◌^◌, ◌≡◌, Bool, true, false, ◌||◌, List, [], ◌∷◌, ◌++◌, Option,
  none, some, Outcome, ok, ◌>>=◌, ◌>>◌, assert, ltb, if◌then◌else◌, length, take, codes,
}
use my_tiny_httpd.Net.Buffer.{Buffer, Allocation, new, initial_size, append, append_file}

pub data AppendState : Type 0 where
  append_nothing append_status_line append_header append_headers_end append_body : AppendState

pub record Response : Type 0 where
  pub state : AppendState
  pub is_close_connection : Bool
  pub buffer : Buffer

pub record OpenFile : Type 0 where
  pub size : ℕ
  pub bytes : Option (List ℕ)

abbrev pub is_nothing : AppendState → Bool
is_nothing append_nothing = true
is_nothing _ = false

abbrev pub is_status_line : AppendState → Bool
is_status_line append_status_line = true
is_status_line _ = false

abbrev pub is_header : AppendState → Bool
is_header append_header = true
is_header _ = false

abbrev pub is_headers_end : AppendState → Bool
is_headers_end append_headers_end = true
is_headers_end _ = false

-- `state_ >= kAppendHeader`.
abbrev pub past_status_line : AppendState → Bool
past_status_line append_nothing = false
past_status_line append_status_line = false
past_status_line _ = true

-- The digits of a number to base 10, which has at most as many as the fuel.
unfoldable pub digits : ℕ → ℕ → List ℕ
digits zero n = []
digits (suc fuel) n =
    let rest = digits fuel (n / 10) in
    if ltb n 10 then (48 + n) ∷ [] else rest ++ ((48 + n % 10) ∷ [])

-- `%d` of a number that is not negative.
unfoldable pub decimal : ℕ → List ℕ
decimal n = digits (suc n) n

-- `%zd` of a `size_t`.
pub decimal_size : ℕ → List ℕ
decimal_size n = if ltb n (2 ^ 63) then decimal n else 45 ∷ decimal (2 ^ 64 - n)

abbrev pub crlf : List ℕ
crlf = 13 ∷ 10 ∷ []

-- What `snprintf` leaves in `char buf[32]`.
abbrev pub printed : List ℕ → List ℕ
printed text = take 31 text

-- The destructor's assertion.
abbrev pub destroy : Response → Outcome (Unit {0})
destroy r = assert (past_status_line r.state)

module _ (alloc : Allocation) where
  pub new_response : Bool → Response
  new_response close = record {
    state = append_nothing;
    is_close_connection = close;
    buffer = new alloc initial_size;
  }

  -- Calls of `buffer_.Append` in a row.
  pub append_all : List (List ℕ) → Buffer → Outcome Buffer
  append_all [] b = ok b
  append_all (text ∷ texts) b = append alloc text b >>= append_all texts

  pub write : AppendState → List (List ℕ) → Response → Outcome Response
  write state texts r = do
    b ← append_all texts r.buffer
    ok (record r { state = state; buffer = b })

  pub append_status_line_of : ℕ → List ℕ → Response → Outcome Response
  append_status_line_of code message r = do
    assert (is_nothing r.state)
    write append_status_line
        (printed (codes "HTTP/1.1 " ++ (decimal code ++ codes " ")) ∷ message ∷ crlf ∷ []) r

  -- `AppendCloseConnection(bool on)`.
  pub append_close_connection_of : Bool → Response → Outcome Response
  append_close_connection_of on r = do
    assert (is_status_line r.state || is_header r.state)
    write append_header
        (((if on then codes "Connection: close" else codes "Connection: Keep-Alive") ++ crlf) ∷ [])
        (record r { is_close_connection = on })

  -- `AppendCloseConnection()`.
  pub append_close_connection : Response → Outcome Response
  append_close_connection r = append_close_connection_of r.is_close_connection r

  pub append_header_of : List ℕ → List ℕ → Response → Outcome Response
  append_header_of key value r = do
    assert (is_status_line r.state || is_header r.state)
    write append_header (key ∷ codes ": " ∷ value ∷ crlf ∷ []) r

  pub append_content_type : List ℕ → Response → Outcome Response
  append_content_type value = append_header_of (codes "Content-Type") value

  pub append_content_base : List ℕ → Response → Outcome Response
  append_content_base value = append_header_of (codes "Content-Base") value

  pub append_content_length : ℕ → Response → Outcome Response
  append_content_length len r = do
    assert (is_status_line r.state || is_header r.state)
    write append_header (printed (codes "Content-Length: " ++ (decimal_size len ++ crlf)) ∷ []) r

  pub append_headers_end_of : Bool → Response → Outcome Response
  append_headers_end_of has_body r = do
    r' ← if has_body then ok r else append_content_length 0 r
    assert (is_header r'.state)
    write append_headers_end (crlf ∷ []) r'

  -- `AppendBody(Slice body)` and `AppendBody(const unsigned char* body, size_t len)`.
  pub append_body_of : List ℕ → Response → Outcome Response
  append_body_of body r = do
    assert (is_header r.state)
    measured ← append_content_length (length body) r
    ended ← append_headers_end_of true measured
    assert (is_headers_end ended.state)
    write append_body (body ∷ []) ended

  -- `AppendBody(std::ifstream& is)`.
  pub append_file_body : OpenFile → Response → Outcome Response
  append_file_body file r = do
    assert (is_header r.state)
    measured ← append_content_length file.size r
    ended ← append_headers_end_of true measured
    assert (is_headers_end ended.state)
    b ← append_file alloc file.size file.bytes ended.buffer
    ok (record ended { state = append_body; buffer = b })
