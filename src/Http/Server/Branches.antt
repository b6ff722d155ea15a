-- ===== src/Http/Server/Branches.antt =====
-- The replies of mytinyhttpd/http/http_server.cc to each method, and the calls that give one reply.
use my_tiny_httpd.Prelude.{
  ℕ, ◌<◌, ◌≡◌, ◌≢◌, refl, Bool, true, false, List, [], ◌∷◌, ◌++◌, Option, none, some, ok, ◌>>=◌,
  if◌then◌else◌, length, codes, ◌^◌, Returns, Returns->>=,
}
use my_tiny_httpd.Net.Buffer.{Allocation}
use my_tiny_httpd.Http.Request.{Request, Method}
use my_tiny_httpd.Http.Response.{
  Response, OpenFile, append_nothing, append_header, append_content_length, append_headers_end_of,
  append_file_body, crlf,
}
use my_tiny_httpd.Http.Response.Text.{Holds, room}
use my_tiny_httpd.Http.Response.Lines.{
  shorter, status_text, length_text, append_content_length-Holds, append_no_body-Holds,
  append_file_body-Holds,
}
use my_tiny_httpd.Http.Server.Pages.{welcome_html, options_html, not_allowed_html}
use my_tiny_httpd.Http.Server.{
  HttpServerConfig, FileSystem, is_empty, ends_with_slash, removal_code, removal_message,
  reply_empty, reply_page, reply_not_found, reply_file_headers,
}
use my_tiny_httpd.Http.Server.Reply.{
  Reply, Replies, print_reply, print_fields, page_reply, empty_reply, file_reply, head_reply,
  file_fields, reply_empty-Replies, reply_page-Replies, reply_not_found-Replies,
  reply_file_headers-Holds,
}

-- The path below the root that a request names.
abbrev pub real_path : HttpServerConfig → List ℕ → List ℕ
real_path config path =
    config.docroot ++ ((if ends_with_slash config.docroot then [] else 47 ∷ []) ++ path)

-- A file that can be opened gives as many bytes as its size says, of which there are at most
-- thirteen digits.
pub record IsReadable {Files : Type 0} (system : FileSystem Files) : Type 0 where
  pub whole :
      (files : Files) (path : List ℕ) (file : OpenFile)
      → system.open_file files path ≡ some file
      → (bytes : List ℕ) × (file ≡ record { size = length bytes; bytes = some bytes })
        × (length bytes < 10 ^ 13)

pub not_empty : (xs : List ℕ) → xs ≢ [] → is_empty xs ≡ false
not_empty [] h = absurd (h refl)
not_empty (x ∷ xs) h = refl

abbrev pub bytes_of : OpenFile → List ℕ
bytes_of file = elim file.bytes [ none ↦ [] | some bytes ↦ bytes ]

-- The replies to a request for a file, with whether the connection closes.
abbrev pub get_reply : HttpServerConfig → Bool → List ℕ → Option OpenFile → Reply × Bool
get_reply config close path none = (empty_reply config true 404 (codes "Not Found"), true)
get_reply config close path (some file) = (file_reply config close path (bytes_of file), close)

abbrev pub named_reply : HttpServerConfig → Bool → List ℕ → Option OpenFile → Reply × Bool
named_reply config close path none = (empty_reply config true 404 (codes "Not Found"), true)
named_reply config close path (some file) = (head_reply config close path file.size, close)

module _ {Files : Type 0} (alloc : Allocation) (system : FileSystem Files)
    (config : HttpServerConfig) where
  abbrev pub put_reply : Bool → Option Files → Reply
  put_reply close none = empty_reply config close 500 (codes "Internal Server Error")
  put_reply close (some files) = empty_reply config close 200 (codes "OK")

  abbrev pub put_files : Files → Option Files → Files
  put_files files none = files
  put_files files (some files') = files'

  abbrev pub reply_by_method :
      Method → List ℕ → List ℕ → List ℕ → Files → Bool → Reply × Bool × Files
  reply_by_method Method.get path full body files close =
      if is_empty path
      then (page_reply config close 200 (codes "OK") welcome_html, close, files)
      else (let (reply, closes) = get_reply config close full (system.open_file files full) in
          (reply, closes, files))
  reply_by_method Method.post path full body files close =
      (empty_reply config close 200 (codes "OK"), close, files)
  reply_by_method Method.head path full body files close =
      let (reply, closes) = named_reply config close full (system.open_file files full) in
      (reply, closes, files)
  reply_by_method Method.put path full body files close =
      let written = system.write_file files full body in
      (put_reply close written, close, put_files files written)
  reply_by_method Method.delete path full body files close =
      let answer = system.remove files full in
      (empty_reply config close (removal_code answer.0) (removal_message answer.0), close, answer.1)
  reply_by_method Method.options path full body files close =
      (page_reply config close 200 (codes "OK") options_html, close, files)
  reply_by_method _ path full body files close =
      (page_reply config close 405 (codes "Method Not Allowd") not_allowed_html, close, files)

  -- The reply to a request, whether the connection closes, and the files behind it.
  abbrev pub reply_to : Request → Files → Bool → Reply × Bool × Files
  reply_to req files close =
      reply_by_method req.method req.path (real_path config req.path) req.body files close

  -- What the callback returns: the files, and a response that holds the reply.
  abbrev pub Answers : Reply × Bool × Files → Files × Response → Type 0
  Answers a (files', r) = (files' ≡ a.2) × Replies a.1 a.0 r

  pub empty-Answers :
      (code : ℕ) (message : List ℕ) (files : Files) {close : Bool} (r : Response)
      → code < 1000
      → Holds append_nothing close [] r
      → length (print_reply (empty_reply config close code message)) < room
      → Returns
          (Answers (empty_reply config close code message, close, files))
          (reply_empty alloc config code message r >>= λ r'. ok (files, r'))
  empty-Answers code message files {close} r c h l =
      Returns->>= (Replies close (empty_reply config close code message))
        (Answers (empty_reply config close code message, close, files))
        (reply_empty alloc config code message r) _
        (reply_empty-Replies alloc config code message close r c h l) (λ r' k. (refl, k))

  pub page-Answers :
      (code : ℕ) (message html : List ℕ) (files : Files) {close : Bool} (r : Response)
      → code < 1000
      → length html < 10 ^ 13
      → Holds append_nothing close [] r
      → length (print_reply (page_reply config close code message html)) < room
      → Returns
          (Answers (page_reply config close code message html, close, files))
          (reply_page alloc config code message html r >>= λ r'. ok (files, r'))
  page-Answers code message html files {close} r c s h l =
      Returns->>= (Replies close (page_reply config close code message html))
        (Answers (page_reply config close code message html, close, files))
        (reply_page alloc config code message html r) _
        (reply_page-Replies alloc config code message html close r c s h l) (λ r' k. (refl, k))

  pub not_found-Answers :
      (files : Files) {close : Bool} (r : Response)
      → Holds append_nothing close [] r
      → length (print_reply (empty_reply config true 404 (codes "Not Found"))) < room
      → Returns
          (Answers (empty_reply config true 404 (codes "Not Found"), true, files))
          (reply_not_found alloc config r >>= λ r'. ok (files, r'))
  not_found-Answers files {close} r h l =
      Returns->>= (Replies true (empty_reply config true 404 (codes "Not Found")))
        (Answers (empty_reply config true 404 (codes "Not Found"), true, files))
        (reply_not_found alloc config r) _ (reply_not_found-Replies alloc config close r h l)
        (λ r' k. (refl, k))

  pub file-Answers :
      (full bytes : List ℕ) (files : Files) {close : Bool} (r : Response)
      → length bytes < 10 ^ 13
      → Holds append_nothing close [] r
      → length (print_reply (file_reply config close full bytes)) < room
      → Returns (Answers (file_reply config close full bytes, close, files)) (
          reply_file_headers alloc config full r
          >>= append_file_body alloc (record { size = length bytes; bytes = some bytes })
          >>= λ r'. ok (files, r'))
  unfolding file_reply
  file-Answers full bytes files {close} r s h l =
      Returns->>= (Replies close (file_reply config close full bytes))
        (Answers (file_reply config close full bytes, close, files)) _ _
        (Returns->>= (Holds append_header close headed)
          (Replies close (file_reply config close full bytes))
          (reply_file_headers alloc config full r) _
          (reply_file_headers-Holds alloc config full close r h (
            shorter headed (length_text (length bytes)) (
              shorter (headed ++ length_text (length bytes)) crlf
                (shorter ((headed ++ length_text (length bytes)) ++ crlf) bytes l))))
          (λ r1 h1. append_file_body-Holds alloc bytes r1 s h1 l))
        (λ r' k. (refl, k))
    where
      headed : List ℕ
      headed = print_fields (file_fields config close full) (status_text 200 (codes "OK"))

  pub head-Answers :
      (full : List ℕ) (size : ℕ) (files : Files) {close : Bool} (r : Response)
      → size < 10 ^ 13
      → Holds append_nothing close [] r
      → length (print_reply (head_reply config close full size)) < room
      → Returns (Answers (head_reply config close full size, close, files)) (
          (reply_file_headers alloc config full r >>= λ r1.
          append_content_length alloc size r1 >>= append_headers_end_of alloc false)
          >>= λ r'. ok (files, r'))
  unfolding head_reply
  head-Answers full size files {close} r s h l =
      Returns->>= (Replies close (head_reply config close full size))
        (Answers (head_reply config close full size, close, files)) _ _
        (Returns->>= (Holds append_header close headed)
          (Replies close (head_reply config close full size))
          (reply_file_headers alloc config full r) _
          (reply_file_headers-Holds alloc config full close r h
            (shorter headed (length_text size) l2))
          (λ r1 h1.
            Returns->>= (Holds append_header close (headed ++ length_text size))
              (Replies close (head_reply config close full size))
              (append_content_length alloc size r1) _
              (append_content_length-Holds alloc size r1 s tt h1 l2)
              (λ r2 h2. append_no_body-Holds alloc r2 tt h2 l)))
        (λ r' k. (refl, k))
    where
      headed : List ℕ
      headed = print_fields (file_fields config close full) (status_text 200 (codes "OK"))

      l2 : length (headed ++ length_text size) < room
      l2 =
          shorter (headed ++ length_text size) (length_text 0)
            (shorter ((headed ++ length_text size) ++ length_text 0) crlf l)
