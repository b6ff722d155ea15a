-- ===== src/Http/Server/Reply.antt =====
-- The reply of mytinyhttpd/http/http_server.cc as a structure, and what its text is.
use my_tiny_httpd.Prelude.{
  ℕ, ◌<◌, Bool, true, List, [], ◌∷◌, ◌++◌, Option, none, some, Outcome, ◌>>=◌, length, codes, arith,
  ◌^◌, Returns, Returns->>=,
}
use my_tiny_httpd.Net.Buffer.{Allocation}
use my_tiny_httpd.Http.Response.{
  Response, AppendState, append_nothing, append_status_line, append_header, append_headers_end,
  append_body, decimal, crlf, append_status_line_of, append_close_connection,
  append_close_connection_of, append_content_type, append_content_base,
}
use my_tiny_httpd.Http.Response.Text.{Holds, room}
use my_tiny_httpd.Http.Response.Lines.{
  status_text, header_text, connection_value, connection_text, length_text, shorter,
  append_status_line_of-Holds, append_close_connection_of-Holds, append_no_body-Holds,
  append_content_base-Holds, append_content_type-Holds, append_close_connection-Holds,
  append_body_of-Holds,
}
use my_tiny_httpd.Http.Server.Pages.{html_type}
use my_tiny_httpd.Http.Server.{
  HttpServerConfig, get_mime_type, reply_page, reply_empty, reply_not_found, reply_file_headers,
}

pub record Reply : Type 0 where
  pub code : ℕ
  pub reason : List ℕ
  pub fields : List (List ℕ × List ℕ)
  pub body : Option (List ℕ)

abbrev pub print_fields : List (List ℕ × List ℕ) → List ℕ → List ℕ
print_fields [] text = text
print_fields ((key, value) ∷ fields) text = print_fields fields (text ++ header_text key value)

abbrev pub print_body : Option (List ℕ) → List ℕ → List ℕ
print_body none text = text
print_body (some body) text = text ++ body

abbrev pub print_reply : Reply → List ℕ
print_reply r = print_body r.body (print_fields r.fields (status_text r.code r.reason) ++ crlf)

-- The state behind the last call.
abbrev pub final_state : Option (List ℕ) → AppendState
final_state none = append_headers_end
final_state (some body) = append_body

-- The response holds exactly this reply.
abbrev pub Replies : Bool → Reply → Response → Type 0
Replies close reply = Holds (final_state reply.body) close (print_reply reply)

module _ (config : HttpServerConfig) where
  unfoldable pub page_reply : Bool → ℕ → List ℕ → List ℕ → Reply
  page_reply close code message html = record {
    code = code;
    reason = message;
    fields =
        (codes "Content-Base", config.domain)
        ∷ (codes "Connection", connection_value close)
        ∷ (codes "Content-Type", html_type)
        ∷ (codes "Content-Length", decimal (length html))
        ∷ [];
    body = some html;
  }

  unfoldable pub empty_reply : Bool → ℕ → List ℕ → Reply
  empty_reply close code message = record {
    code = code;
    reason = message;
    fields =
        (codes "Content-Base", config.domain)
        ∷ (codes "Connection", connection_value close)
        ∷ (codes "Content-Length", decimal 0)
        ∷ [];
    body = none;
  }

  -- The headers of a file, before its length.
  abbrev pub file_fields : Bool → List ℕ → List (List ℕ × List ℕ)
  file_fields close real_path =
      (codes "Content-Base", config.domain)
      ∷ (codes "Content-Type", get_mime_type real_path)
      ∷ (codes "Connection", connection_value close)
      ∷ []

  -- The reply to GET for a file that holds `bytes`.
  unfoldable pub file_reply : Bool → List ℕ → List ℕ → Reply
  file_reply close real_path bytes = record {
    code = 200;
    reason = codes "OK";
    fields =
        (codes "Content-Base", config.domain)
        ∷ (codes "Content-Type", get_mime_type real_path)
        ∷ (codes "Connection", connection_value close)
        ∷ (codes "Content-Length", decimal (length bytes))
        ∷ [];
    body = some bytes;
  }

  -- The reply to HEAD for it: the length is announced twice, the second time as none.
  unfoldable pub head_reply : Bool → List ℕ → ℕ → Reply
  head_reply close real_path size = record {
    code = 200;
    reason = codes "OK";
    fields =
        (codes "Content-Base", config.domain)
        ∷ (codes "Content-Type", get_mime_type real_path)
        ∷ (codes "Connection", connection_value close)
        ∷ (codes "Content-Length", decimal size)
        ∷ (codes "Content-Length", decimal 0)
        ∷ [];
    body = none;
  }

module _ (alloc : Allocation) (config : HttpServerConfig) where
  -- The status line and the first header.
  begun :
      (code : ℕ) (message : List ℕ) {close : Bool} (r : Response) (Q : Response → Type 0)
      (f : Response → Outcome Response)
      → code < 1000
      → Holds append_nothing close [] r
      → length (status_text code message ++ header_text (codes "Content-Base") config.domain) < room
      → ((r' : Response)
          → Holds append_header close
              (status_text code message ++ header_text (codes "Content-Base") config.domain)
              r'
          → Returns Q (f r'))
      → Returns Q (
          append_status_line_of alloc code message r >>= λ r1.
          append_content_base alloc config.domain r1 >>= f)
  begun code message {close} r Q f c h l k =
      Returns->>= (Holds append_status_line close (status_text code message)) Q
        (append_status_line_of alloc code message r) _
        (append_status_line_of-Holds alloc code message r c h
          (shorter (status_text code message) (header_text (codes "Content-Base") config.domain) l))
        (λ r1 h1.
          Returns->>=
            (Holds append_header close
              (status_text code message ++ header_text (codes "Content-Base") config.domain))
            Q (append_content_base alloc config.domain r1) f
            (append_content_base-Holds alloc config.domain r1 tt h1 l) k)

  pub reply_empty-Replies :
      (code : ℕ) (message : List ℕ) (close : Bool) (r : Response)
      → code < 1000
      → Holds append_nothing close [] r
      → length (print_reply (empty_reply config close code message)) < room
      → Returns
          (Replies close (empty_reply config close code message))
          (reply_empty alloc config code message r)
  unfolding reply_empty empty_reply
  reply_empty-Replies code message close r c h l =
      let l4 = shorter (connected ++ length_text 0) crlf l in
      let l3 = shorter connected (length_text 0) l4 in
      begun code message r (Replies close (empty_reply config close code message)) _ c h
        (shorter based (connection_text close) l3)
        (λ r2 h2.
          Returns->>= (Holds append_header close connected)
            (Replies close (empty_reply config close code message))
            (append_close_connection alloc r2) _ (append_close_connection-Holds alloc r2 tt h2 l3)
            (λ r3 h3. append_no_body-Holds alloc r3 tt h3 l))
    where
      based : List ℕ
      based = status_text code message ++ header_text (codes "Content-Base") config.domain

      connected : List ℕ
      connected = based ++ connection_text close

  pub reply_not_found-Replies :
      (close : Bool) (r : Response)
      → Holds append_nothing close [] r
      → length (print_reply (empty_reply config true 404 (codes "Not Found"))) < room
      → Returns
          (Replies true (empty_reply config true 404 (codes "Not Found")))
          (reply_not_found alloc config r)
  unfolding reply_not_found empty_reply
  reply_not_found-Replies close r h l =
      let l4 = shorter (connected ++ length_text 0) crlf l in
      let l3 = shorter connected (length_text 0) l4 in
      begun 404 (codes "Not Found") r
        (Replies true (empty_reply config true 404 (codes "Not Found"))) _ (omega arith) h
        (shorter based (connection_text true) l3)
        (λ r2 h2.
          Returns->>= (Holds append_header true connected)
            (Replies true (empty_reply config true 404 (codes "Not Found")))
            (append_close_connection_of alloc true r2) _
            (append_close_connection_of-Holds alloc true r2 tt h2 l3)
            (λ r3 h3. append_no_body-Holds alloc r3 tt h3 l))
    where
      based : List ℕ
      based =
          status_text 404 (codes "Not Found") ++ header_text (codes "Content-Base") config.domain

      connected : List ℕ
      connected = based ++ connection_text true

  pub reply_page-Replies :
      (code : ℕ) (message html : List ℕ) (close : Bool) (r : Response)
      → code < 1000
      → length html < 10 ^ 13
      → Holds append_nothing close [] r
      → length (print_reply (page_reply config close code message html)) < room
      → Returns
          (Replies close (page_reply config close code message html))
          (reply_page alloc config code message html r)
  unfolding reply_page page_reply
  reply_page-Replies code message html close r c s h l =
      let l5 = shorter ((typed ++ length_text (length html)) ++ crlf) html l in
      let l4 =
        shorter typed (length_text (length html))
          (shorter (typed ++ length_text (length html)) crlf l5) in
      let l3 = shorter connected (header_text (codes "Content-Type") html_type) l4 in
      begun code message r (Replies close (page_reply config close code message html)) _ c h
        (shorter based (connection_text close) l3)
        (λ r2 h2.
          Returns->>= (Holds append_header close connected)
            (Replies close (page_reply config close code message html))
            (append_close_connection alloc r2) _ (append_close_connection-Holds alloc r2 tt h2 l3)
            (λ r3 h3.
              Returns->>= (Holds append_header close typed)
                (Replies close (page_reply config close code message html))
                (append_content_type alloc html_type r3) _
                (append_content_type-Holds alloc html_type r3 tt h3 l4)
                (λ r4 h4. append_body_of-Holds alloc html r4 s h4 l)))
    where
      based : List ℕ
      based = status_text code message ++ header_text (codes "Content-Base") config.domain

      connected : List ℕ
      connected = based ++ connection_text close

      typed : List ℕ
      typed = connected ++ header_text (codes "Content-Type") html_type

  pub reply_file_headers-Holds :
      (real_path : List ℕ) (close : Bool) (r : Response)
      → Holds append_nothing close [] r
      → length (print_fields (file_fields config close real_path) (status_text 200 (codes "OK")))
        < room
      → Returns
          (Holds append_header close
            (print_fields (file_fields config close real_path) (status_text 200 (codes "OK"))))
          (reply_file_headers alloc config real_path r)
  unfolding reply_file_headers
  reply_file_headers-Holds real_path close r h l =
      let l2 = shorter typed (connection_text close) l in
      begun 200 (codes "OK") r (Holds append_header close (typed ++ connection_text close)) _
        (omega arith) h
        (shorter based (header_text (codes "Content-Type") (get_mime_type real_path)) l2)
        (λ r2 h2.
          Returns->>= (Holds append_header close typed)
            (Holds append_header close (typed ++ connection_text close))
            (append_content_type alloc (get_mime_type real_path) r2) _
            (append_content_type-Holds alloc (get_mime_type real_path) r2 tt h2 l2)
            (λ r3 h3. append_close_connection-Holds alloc r3 tt h3 l))
    where
      based : List ℕ
      based = status_text 200 (codes "OK") ++ header_text (codes "Content-Base") config.domain

      typed : List ℕ
      typed = based ++ header_text (codes "Content-Type") (get_mime_type real_path)
