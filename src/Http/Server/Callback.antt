-- ===== src/Http/Server/Callback.antt =====
-- What the default callback of mytinyhttpd/http/http_server.cc replies to each request.
use my_tiny_httpd.Prelude.{
  ℕ, ◌<◌, ◌≡◌, ◌≢◌, refl, ap, sym, subst, Bool, false, List, [], Option, none, some, ok, ◌>>=◌, inl,
  inr, length, codes, arith, ◌^◌, Returns, Bool-cases,
}
use my_tiny_httpd.Net.Buffer.{Allocation}
use my_tiny_httpd.Http.Request.{Request, Method}
use my_tiny_httpd.Http.Response.{
  Response, OpenFile, append_nothing, append_content_length, append_headers_end_of,
  append_file_body,
}
use my_tiny_httpd.Http.Response.Text.{Holds, room}
use my_tiny_httpd.Http.Server.Pages.{
  welcome_html, options_html, not_allowed_html, length-welcome_html, length-options_html,
  length-not_allowed_html,
}
use my_tiny_httpd.Http.Server.{
  HttpServerConfig, FileSystem, Removal, is_empty, get_real_path, removal_code, removal_message,
  reply_get, reply_head, reply_put, reply_delete, reply_by, reply_empty, reply_not_found,
  reply_file_headers, default_http_callback,
}
use my_tiny_httpd.Http.Server.Reply.{print_reply, file_reply}
use my_tiny_httpd.Http.Server.Branches.{
  real_path, IsReadable, not_empty, bytes_of, get_reply, named_reply, put_reply, put_files,
  reply_by_method, reply_to, Answers, empty-Answers, page-Answers, not_found-Answers, file-Answers,
  head-Answers,
}

module _ {Files : Type 0} (alloc : Allocation) (system : FileSystem Files)
    (config : HttpServerConfig) where
  -- Whether a file is one that reads as its size says.
  abbrev Whole : OpenFile → Type 0
  Whole file =
      (bytes : List ℕ) × (file ≡ record { size = length bytes; bytes = some bytes })
      × (length bytes < 10 ^ 13)

  open_get-Answers :
      (full : List ℕ) (o : Option OpenFile) (files : Files) {close : Bool} (r : Response)
      → ((file : OpenFile) → o ≡ some file → Whole file)
      → Holds append_nothing close [] r
      → length (print_reply (get_reply config close full o).0) < room
      → Returns
          (Answers alloc system config
            ((get_reply config close full o).0, (get_reply config close full o).1, files))
          ((elim o [
            | none ↦ reply_not_found alloc config r
            | some file ↦ reply_file_headers alloc config full r >>= append_file_body alloc file
          ])
            >>= λ r'. ok (files, r'))
  open_get-Answers full none files r w h l = not_found-Answers alloc system config files r h l
  open_get-Answers full (some file) files {close} r w h l =
      let (bytes, e, s) = w file refl in
      subst Opened (sym e) (λ l'. file-Answers alloc system config full bytes files r s h l') l
    where
      Opened : OpenFile → Type 0
      Opened f =
          length (print_reply (file_reply config close full (bytes_of f))) < room
          → Returns
              (Answers alloc system config
                (file_reply config close full (bytes_of f), close, files))
              (reply_file_headers alloc config full r >>= append_file_body alloc f >>= λ r'.
                ok (files, r'))

  open_head-Answers :
      (full : List ℕ) (o : Option OpenFile) (files : Files) {close : Bool} (r : Response)
      → ((file : OpenFile) → o ≡ some file → Whole file)
      → Holds append_nothing close [] r
      → length (print_reply (named_reply config close full o).0) < room
      → Returns
          (Answers alloc system config
            ((named_reply config close full o).0, (named_reply config close full o).1, files))
          ((elim o [
            | none ↦ reply_not_found alloc config r
            | some file ↦ reply_file_headers alloc config full r >>= λ r1.
                append_content_length alloc file.size r1 >>= append_headers_end_of alloc false
          ])
            >>= λ r'. ok (files, r'))
  open_head-Answers full none files r w h l = not_found-Answers alloc system config files r h l
  open_head-Answers full (some file) files {close} r w h l =
      let (bytes, e, s) = w file refl in
      let small : file.size < 10 ^ 13 = omega (arith, ap (λ f. f.size) e, s) in
      head-Answers alloc system config full file.size files r small h l

  put-Answers :
      (o : Option Files) (files : Files) {close : Bool} (r : Response)
      → Holds append_nothing close [] r
      → length (print_reply (put_reply alloc system config close o)) < room
      → Returns
          (Answers alloc system config
            (put_reply alloc system config close o, close, put_files alloc system config files o))
          (elim o [
            | none ↦ reply_empty alloc config 500 (codes "Internal Server Error") r >>= λ r'.
                ok (files, r')
            | some files' ↦ reply_empty alloc config 200 (codes "OK") r >>= λ r'. ok (files', r')
          ])
  put-Answers none files r h l =
      empty-Answers alloc system config 500 (codes "Internal Server Error") files r (omega arith) h
        l
  put-Answers (some files') files r h l =
      empty-Answers alloc system config 200 (codes "OK") files' r (omega arith) h l

  removal_code-lt : (a : Removal) → removal_code a < 1000
  removal_code-lt Removal.removed = omega arith
  removal_code-lt Removal.no_entry = omega arith
  removal_code-lt Removal.other_error = omega arith

  module _ (ready : IsReadable system) (root : config.docroot ≢ []) where
    get-Answers :
        (req : Request) (files : Files) (close : Bool) (r : Response)
        → Holds append_nothing close [] r
        → length (
            print_reply
              (reply_by_method alloc system config Method.get req.path
                (real_path config req.path)
                req.body
                files
                close).0)
          < room
        → Returns
            (Answers alloc system config (
              reply_by_method alloc system config Method.get req.path
                (real_path config req.path)
                req.body
                files
                close))
            (reply_get alloc system config req files r)
    unfolding reply_get get_real_path
    get-Answers req files close r h l = elim (Bool-cases (is_empty req.path)) [
      | inl e ↦
          rw (reply_get, e)
            (page-Answers alloc system config 200 (codes "OK") welcome_html files r (omega arith)
              length-welcome_html h (rw e at l))
      | inr e ↦
          rw (reply_get, e, not_empty config.docroot root)
            (open_get-Answers (real_path config req.path)
              (system.open_file files (real_path config req.path)) files r
              (ready.whole files (real_path config req.path)) h (rw e at l))
    ]

    head_request-Answers :
        (req : Request) (files : Files) (close : Bool) (r : Response)
        → Holds append_nothing close [] r
        → length (
            print_reply
              (reply_by_method alloc system config Method.head req.path
                (real_path config req.path)
                req.body
                files
                close).0)
          < room
        → Returns
            (Answers alloc system config (
              reply_by_method alloc system config Method.head req.path
                (real_path config req.path)
                req.body
                files
                close))
            (reply_head alloc system config req files r)
    unfolding reply_head get_real_path
    head_request-Answers req files close r h l =
        rw (reply_head, not_empty config.docroot root)
          (open_head-Answers (real_path config req.path)
            (system.open_file files (real_path config req.path)) files r
            (ready.whole files (real_path config req.path)) h l)

    reply_by-Answers :
        (m : Method) (req : Request) (files : Files) (close : Bool) (r : Response)
        → Holds append_nothing close [] r
        → length (
            print_reply
              (reply_by_method alloc system config m req.path
                (real_path config req.path)
                req.body
                files
                close).0)
          < room
        → Returns
            (Answers alloc system config (
              reply_by_method alloc system config m req.path
                (real_path config req.path)
                req.body
                files
                close))
            (reply_by alloc system config m req files r)
    unfolding reply_put reply_delete get_real_path
    reply_by-Answers Method.get req files close r h l = get-Answers req files close r h l
    reply_by-Answers Method.head req files close r h l = head_request-Answers req files close r h l
    reply_by-Answers Method.post req files close r h l =
        empty-Answers alloc system config 200 (codes "OK") files r (omega arith) h l
    reply_by-Answers Method.put req files close r h l =
        rw (reply_put, not_empty config.docroot root)
          (put-Answers (system.write_file files (real_path config req.path) req.body) files r h l)
    reply_by-Answers Method.delete req files close r h l =
        let answer = system.remove files (real_path config req.path) in
        rw (reply_delete, not_empty config.docroot root)
          (empty-Answers alloc system config (removal_code answer.0) (removal_message answer.0)
            answer.1 r (removal_code-lt answer.0) h l)
    reply_by-Answers Method.options req files close r h l =
        page-Answers alloc system config 200 (codes "OK") options_html files r (omega arith)
          length-options_html h l
    reply_by-Answers Method.invalid req files close r h l =
        page-Answers alloc system config 405 (codes "Method Not Allowd") not_allowed_html files r
          (omega arith) length-not_allowed_html h l
    reply_by-Answers Method.track req files close r h l =
        page-Answers alloc system config 405 (codes "Method Not Allowd") not_allowed_html files r
          (omega arith) length-not_allowed_html h l

  -- With a root that is not empty, and files that read as their sizes say and are below 10 ^ 13
  -- bytes, the default callback, given an empty response, runs to its end on every request, with
  -- all assertions met: the response is in its last state, holds exactly the text of the reply
  -- that the request calls for and closes if that reply says so, and the files are left as the
  -- request asks, if the reply has less than 2 ^ 62 bytes.
  pub default_http_callback-Answers :
      (req : Request) (files : Files) (close : Bool) (r : Response)
      → IsReadable system
      → config.docroot ≢ []
      → Holds append_nothing close [] r
      → length (print_reply (reply_to alloc system config req files close).0) < room
      → Returns
          (Answers alloc system config (reply_to alloc system config req files close))
          (default_http_callback alloc system config req files r)
  unfolding default_http_callback
  default_http_callback-Answers req files close r ready root h l =
      reply_by-Answers ready root req.method req files close r h l
