-- ===== src/Http/Response/Lines.antt =====
-- The lines of a response, and the operations of mytinyhttpd/http/http_response.cc that add them.
use my_tiny_httpd.Prelude.{
  ℕ, ◌<◌, ◌≡◌, refl, subst, ap, ◌∙◌, Bool, true, false, ◌||◌, List, [], ◌∷◌, ◌++◌, some, ◌>>◌,
  assert, if◌then◌else◌, length, length-append, codes, append-nil, arith, ◌^◌, Returns, Returns->>=,
  Returns-assert,
}
use my_tiny_httpd.Net.Buffer.{Allocation, append_file}
use my_tiny_httpd.Net.Buffer.Append.{append_file_lem}
use my_tiny_httpd.Http.Response.{
  Response, AppendState, append_nothing, append_status_line, append_header, append_headers_end,
  append_body, is_nothing, is_status_line, is_header, is_headers_end, decimal, decimal_size, crlf,
  printed, write, append_status_line_of, append_close_connection_of, append_close_connection,
  append_header_of, append_content_type, append_content_base, append_content_length,
  append_headers_end_of, append_body_of, append_file_body,
}
use my_tiny_httpd.Http.Response.Text.{
  Holds, concat, Filled, append-Filled, room, write-Holds, write_one-Holds,
}
use my_tiny_httpd.Http.Response.Digits.{status_code_printed, content_length_printed}

abbrev pub status_text : ℕ → List ℕ → List ℕ
status_text code message = (codes "HTTP/1.1 " ++ (decimal code ++ codes " ")) ++ (message ++ crlf)

abbrev pub header_text : List ℕ → List ℕ → List ℕ
header_text key value = key ++ (codes ": " ++ (value ++ crlf))

abbrev pub connection_value : Bool → List ℕ
connection_value true = codes "close"
connection_value false = codes "Keep-Alive"

abbrev pub connection_text : Bool → List ℕ
connection_text close = header_text (codes "Connection") (connection_value close)

abbrev pub length_text : ℕ → List ℕ
length_text len = codes "Content-Length: " ++ (decimal len ++ crlf)

-- The states in which a header may be added.
abbrev pub TakesHeader : AppendState → Type 0
TakesHeader append_status_line = Unit {0}
TakesHeader append_header = Unit {0}
TakesHeader _ = ⊥

TakesHeader-true : (s : AppendState) → TakesHeader s → (is_status_line s || is_header s) ≡ true
TakesHeader-true append_status_line t = refl
TakesHeader-true append_header t = refl
TakesHeader-true append_nothing t = elim t [ ]
TakesHeader-true append_headers_end t = elim t [ ]
TakesHeader-true append_body t = elim t [ ]

pub shorter : (xs ys : List ℕ) → length (xs ++ ys) < room → length xs < room
shorter xs ys h = omega (arith, h, length-append xs ys)

module _ (alloc : Allocation) where
  pub append_status_line_of-Holds :
      (code : ℕ) (message : List ℕ) {close : Bool} {text : List ℕ} (r : Response)
      → code < 1000
      → Holds append_nothing close text r
      → length (text ++ status_text code message) < room
      → Returns
          (Holds append_status_line close (text ++ status_text code message))
          (append_status_line_of alloc code message r)
  unfolding append_status_line_of
  append_status_line_of-Holds code message {close} {text} r c h l =
      Returns-assert (Holds append_status_line close (text ++ status_text code message))
        (is_nothing r.state) _ (ap is_nothing h.at)
        (subst Written same (write-Holds alloc append_status_line pieces r h (rw same l)))
    where
      pieces : List (List ℕ)
      pieces = printed (codes "HTTP/1.1 " ++ (decimal code ++ codes " ")) ∷ message ∷ crlf ∷ []

      same : concat pieces ≡ status_text code message
      same = ap (λ t. t ++ (message ++ crlf)) (status_code_printed code c)

      Written : List ℕ → Type 0
      Written t =
          Returns (Holds append_status_line close (text ++ t))
            (write alloc append_status_line pieces r)

  -- A header line that is written in pieces.
  header-Holds :
      (pieces : List (List ℕ)) (line : List ℕ) {state : AppendState} {close : Bool} {text : List ℕ}
      (r : Response)
      → concat pieces ≡ line
      → TakesHeader state
      → Holds state close text r
      → length (text ++ line) < room
      → Returns (Holds append_header close (text ++ line)) (
          assert (is_status_line r.state || is_header r.state)
          >> write alloc append_header pieces r)
  header-Holds pieces line {state} {close} {text} r same t h l =
      Returns-assert (Holds append_header close (text ++ line))
        (is_status_line r.state || is_header r.state) _
        (ap (λ s. is_status_line s || is_header s) h.at ∙ TakesHeader-true state t)
        (subst Written same (write-Holds alloc append_header pieces r h (rw same l)))
    where
      Written : List ℕ → Type 0
      Written t =
          Returns (Holds append_header close (text ++ t)) (write alloc append_header pieces r)

  pub append_header_of-Holds :
      (key value : List ℕ) {state : AppendState} {close : Bool} {text : List ℕ} (r : Response)
      → TakesHeader state
      → Holds state close text r
      → length (text ++ header_text key value) < room
      → Returns
          (Holds append_header close (text ++ header_text key value))
          (append_header_of alloc key value r)
  unfolding append_header_of
  append_header_of-Holds key value r t h l =
      header-Holds (key ∷ codes ": " ∷ value ∷ crlf ∷ []) (header_text key value) r refl t h l

  pub append_content_length-Holds :
      (len : ℕ) {state : AppendState} {close : Bool} {text : List ℕ} (r : Response)
      → len < 10 ^ 13
      → TakesHeader state
      → Holds state close text r
      → length (text ++ length_text len) < room
      → Returns
          (Holds append_header close (text ++ length_text len))
          (append_content_length alloc len r)
  unfolding append_content_length
  append_content_length-Holds len r s t h l =
      header-Holds (printed (codes "Content-Length: " ++ (decimal_size len ++ crlf)) ∷ [])
        (length_text len) r
        (append-nil (printed (codes "Content-Length: " ++ (decimal_size len ++ crlf)))
          ∙ content_length_printed len s)
        t h l

  pub append_close_connection_of-Holds :
      (on : Bool) {state : AppendState} {close : Bool} {text : List ℕ} (r : Response)
      → TakesHeader state
      → Holds state close text r
      → length (text ++ connection_text on) < room
      → Returns
          (Holds append_header on (text ++ connection_text on))
          (append_close_connection_of alloc on r)
  unfolding append_close_connection_of
  append_close_connection_of-Holds on r t h l =
      header-Holds
        (((if on then codes "Connection: close" else codes "Connection: Keep-Alive") ++ crlf) ∷ [])
        (connection_text on) (record r { is_close_connection = on }) (line on) t
        (record { at = h.at; closes = refl; valid = h.valid; start = h.start; written = h.written })
        l
    where
      line :
          (on : Bool)
          → concat (
              ((if on then codes "Connection: close" else codes "Connection: Keep-Alive") ++ crlf)
              ∷ [])
            ≡ connection_text on
      line true = refl
      line false = refl

  -- The end of the headers, where the body, if there is one, is announced already.
  pub append_headers_end_of-Holds :
      {close : Bool} {text : List ℕ} (r : Response)
      → Holds append_header close text r
      → length (text ++ crlf) < room
      → Returns (Holds append_headers_end close (text ++ crlf)) (append_headers_end_of alloc true r)
  unfolding append_headers_end_of
  append_headers_end_of-Holds {close} {text} r h l =
      Returns-assert (Holds append_headers_end close (text ++ crlf)) (is_header r.state) _
        (ap is_header h.at) (write-Holds alloc append_headers_end (crlf ∷ []) r h l)

  -- The end of the headers of a response without a body.
  pub append_no_body-Holds :
      {state : AppendState} {close : Bool} {text : List ℕ} (r : Response)
      → TakesHeader state
      → Holds state close text r
      → length ((text ++ length_text 0) ++ crlf) < room
      → Returns
          (Holds append_headers_end close ((text ++ length_text 0) ++ crlf))
          (append_headers_end_of alloc false r)
  unfolding append_headers_end_of
  append_no_body-Holds {state} {close} {text} r t h l =
      Returns->>= (Holds append_header close (text ++ length_text 0))
        (Holds append_headers_end close ((text ++ length_text 0) ++ crlf))
        (append_content_length alloc 0 r) _
        (append_content_length-Holds 0 r (omega arith) t h (shorter (text ++ length_text 0) crlf l))
        (λ r' h'.
          Returns-assert (Holds append_headers_end close ((text ++ length_text 0) ++ crlf))
            (is_header r'.state) _ (ap is_header h'.at)
            (write-Holds alloc append_headers_end (crlf ∷ []) r' h' l))

  -- `AppendBody` on a response whose headers are not ended yet adds a line with the body's length,
  -- the empty line and the body, and nothing else, if the body is below 10 ^ 13 bytes and the
  -- whole below 2 ^ 62.
  pub append_body_of-Holds :
      (body : List ℕ) {close : Bool} {text : List ℕ} (r : Response)
      → length body < 10 ^ 13
      → Holds append_header close text r
      → length (((text ++ length_text (length body)) ++ crlf) ++ body) < room
      → Returns
          (Holds append_body close (((text ++ length_text (length body)) ++ crlf) ++ body))
          (append_body_of alloc body r)
  unfolding append_body_of
  append_body_of-Holds body {close} {text} r s h l =
      Returns-assert Done (is_header r.state) _ (ap is_header h.at) (
        Returns->>= (Holds append_header close measured) Done
          (append_content_length alloc (length body) r) _
          (append_content_length-Holds (length body) r s tt h
            (shorter measured crlf (shorter (measured ++ crlf) body l)))
          (λ r' h'.
            Returns->>= (Holds append_headers_end close (measured ++ crlf)) Done
              (append_headers_end_of alloc true r') _
              (append_headers_end_of-Holds r' h' (shorter (measured ++ crlf) body l))
              (λ r'' h''.
                Returns-assert Done (is_headers_end r''.state) _ (ap is_headers_end h''.at)
                  (write_one-Holds alloc append_body body r'' h'' l))))
    where
      measured : List ℕ
      measured = text ++ length_text (length body)

      Done : Response → Type 0
      Done = Holds append_body close ((measured ++ crlf) ++ body)

  -- The body that is a file whose size is what reading it gives.
  pub append_file_body-Holds :
      (bytes : List ℕ) {close : Bool} {text : List ℕ} (r : Response)
      → length bytes < 10 ^ 13
      → Holds append_header close text r
      → length (((text ++ length_text (length bytes)) ++ crlf) ++ bytes) < room
      → Returns
          (Holds append_body close (((text ++ length_text (length bytes)) ++ crlf) ++ bytes))
          (append_file_body alloc (record { size = length bytes; bytes = some bytes }) r)
  unfolding append_file_body
  append_file_body-Holds bytes {close} {text} r s h l =
      Returns-assert Done (is_header r.state) _ (ap is_header h.at) (
        Returns->>= (Holds append_header close measured) Done
          (append_content_length alloc (length bytes) r) _
          (append_content_length-Holds (length bytes) r s tt h
            (shorter measured crlf (shorter (measured ++ crlf) bytes l)))
          (λ r' h'.
            Returns->>= (Holds append_headers_end close (measured ++ crlf)) Done
              (append_headers_end_of alloc true r') _
              (append_headers_end_of-Holds r' h' (shorter (measured ++ crlf) bytes l))
              (λ r'' h''.
                Returns-assert Done (is_headers_end r''.state) _ (ap is_headers_end h''.at) (
                  Returns->>= (Filled ((measured ++ crlf) ++ bytes)) Done
                    (append_file alloc (length bytes) (some bytes) r''.buffer) _
                    (rw (append_file_lem alloc bytes r''.buffer) (
                      append-Filled alloc (measured ++ crlf) bytes r''.buffer
                        (record { valid = h''.valid; start = h''.start; written = h''.written }) l))
                    (λ b f. record {
                      at = refl;
                      closes = h''.closes;
                      valid = f.valid;
                      start = f.start;
                      written = f.written;
                    })))))
    where
      measured : List ℕ
      measured = text ++ length_text (length bytes)

      Done : Response → Type 0
      Done = Holds append_body close ((measured ++ crlf) ++ bytes)

  pub append_content_base-Holds :
      (value : List ℕ) {state : AppendState} {close : Bool} {text : List ℕ} (r : Response)
      → TakesHeader state
      → Holds state close text r
      → length (text ++ header_text (codes "Content-Base") value) < room
      → Returns
          (Holds append_header close (text ++ header_text (codes "Content-Base") value))
          (append_content_base alloc value r)
  unfolding append_content_base
  append_content_base-Holds value r t h l =
      append_header_of-Holds (codes "Content-Base") value r t h l

  pub append_content_type-Holds :
      (value : List ℕ) {state : AppendState} {close : Bool} {text : List ℕ} (r : Response)
      → TakesHeader state
      → Holds state close text r
      → length (text ++ header_text (codes "Content-Type") value) < room
      → Returns
          (Holds append_header close (text ++ header_text (codes "Content-Type") value))
          (append_content_type alloc value r)
  unfolding append_content_type
  append_content_type-Holds value r t h l =
      append_header_of-Holds (codes "Content-Type") value r t h l

  pub append_close_connection-Holds :
      {state : AppendState} {close : Bool} {text : List ℕ} (r : Response)
      → TakesHeader state
      → Holds state close text r
      → length (text ++ connection_text close) < room
      → Returns
          (Holds append_header close (text ++ connection_text close))
          (append_close_connection alloc r)
  unfolding append_close_connection append_close_connection_of
  append_close_connection-Holds {state} {close} {text} r t h l =
      rw h.closes (append_close_connection_of-Holds close r t h l)
