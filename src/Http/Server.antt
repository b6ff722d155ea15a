-- ===== src/Http/Server.antt =====
-- The HTTP server: mytinyhttpd/http/http_server.h and http_server.cc.
-- Files are those of a `FileSystem`, with the answers that the code looks at. The bytes that a
-- handler leaves in the response, and the shutdown, are effects on the connection.
pub mod Branches
pub mod Pages
pub mod Reply
pub mod Callback
pub mod Serve
use my_tiny_httpd.Prelude.{
  ℕ, suc, ◌+◌, ◌-◌, ◌≡◌, Bool, true, false, not, ◌&&◌, ◌||◌, List, [], ◌∷◌, ◌++◌, reverse, Option,
  none, some, Outcome, ok, ◌>>=◌, ◌>>◌, in_range, ◌==◌, ltb, if◌then◌else◌, length, drop, codes,
  find, bytes_eq,
}
use my_tiny_httpd.Net.Buffer.{Buffer, Allocation, contents}
use my_tiny_httpd.Http.Request.{Request, Method, Version, http10, get_header}
use my_tiny_httpd.Http.Context.{Context, is_got_all, parse_request, reset}
use my_tiny_httpd.Http.Response.{
  Response, OpenFile, new_response, append_status_line_of, append_close_connection,
  append_close_connection_of, append_content_type, append_content_base, append_content_length,
  append_headers_end_of, append_body_of, append_file_body, destroy,
}
use my_tiny_httpd.Http.Server.Pages.{
  mime_type_map, octet_stream, html_type, bad_request, welcome_html, options_html, not_allowed_html,
}

-- `TcpServer::Option`.
pub data ReusePort : Type 0 where
  no_reuse_port reuse_port : ReusePort

pub record HttpServerConfig : Type 0 where
  pub is_valid : Bool
  pub port : ℕ
  pub domain : List ℕ
  pub docroot : List ℕ
  pub option : ReusePort

abbrev pub default_port : ℕ
default_port = 8000

pub new_config : HttpServerConfig
new_config = record {
  is_valid = false;
  port = default_port;
  domain = [];
  docroot = [];
  option = no_reuse_port;
}

abbrev pub is_empty : List ℕ → Bool
is_empty [] = true
is_empty (c ∷ cs) = false

abbrev pub replace_option : ReusePort → ReusePort → ReusePort
replace_option reuse_port old = reuse_port
replace_option no_reuse_port old = old

-- `ReplaceIfNotDefault(config)` on the configuration `c`.
pub replace_if_not_default : HttpServerConfig → HttpServerConfig → Bool × HttpServerConfig
replace_if_not_default config c = (
  config.is_valid,
  if config.is_valid
      then record c {
        port = if not (config.port == default_port) then config.port else c.port;
        domain = if not (is_empty config.domain) then config.domain else c.domain;
        docroot = if not (is_empty config.docroot) then config.docroot else c.docroot;
        option = replace_option config.option c.option;
      }
      else c,
)

abbrev pub ends_with_slash : List ℕ → Bool
ends_with_slash text = elim (reverse text) [ [] ↦ false | c ∷ cs ↦ c == 47 ]

-- The code reads the last byte of the root, which must be there.
pub get_real_path : HttpServerConfig → List ℕ → Outcome (List ℕ)
get_real_path config path = do
  in_range (not (is_empty config.docroot))
  ok (config.docroot ++ ((if ends_with_slash config.docroot then [] else 47 ∷ []) ++ path))

-- `find_last_of('.')` and `substr` from there.
unfoldable pub extension : List ℕ → Option (List ℕ)
extension path =
    let from_end = find 46 (reverse path) in
    if from_end == length path then none else some (drop (length path - suc from_end) path)

unfoldable pub look_up : List ℕ → List (List ℕ × List ℕ) → Option (List ℕ)
look_up key [] = none
look_up key ((k, v) ∷ map) = if bytes_eq k key then some v else look_up key map

-- `mime_type_map_[...]` puts a null into the map for a key that is not there, which reads the same.
unfoldable pub get_mime_type : List ℕ → List ℕ
get_mime_type real_path = elim (extension real_path) [
  | none ↦ octet_stream
  | some ext ↦ elim (look_up ext mime_type_map) [ none ↦ octet_stream | some type ↦ type ]
]

-- What `remove` answers: 0, or an error that is ENOENT or not.
pub data Removal : Type 0 where
  removed no_entry other_error : Removal

pub record FileSystem (Files : Type 0) : Type 1 where
  pub open_file : Files → List ℕ → Option OpenFile
  pub write_file : Files → List ℕ → List ℕ → Option Files
  pub remove : Files → List ℕ → Removal × Files

-- What is done to the connection.
pub data Effect : Type 0 where
  send : List ℕ → Effect
  shutdown : Effect

abbrev pub removal_code : Removal → ℕ
removal_code removed = 200
removal_code no_entry = 404
removal_code other_error = 500

abbrev pub removal_message : Removal → List ℕ
removal_message removed = codes "OK"
removal_message no_entry = codes "Not Found"
removal_message other_error = codes "Internal Server Error"

module _ (alloc : Allocation) (config : HttpServerConfig) where
  -- A page that is built in.
  pub reply_page : ℕ → List ℕ → List ℕ → Response → Outcome Response
  reply_page code message html r = do
    r1 ← append_status_line_of alloc code message r
    r2 ← append_content_base alloc config.domain r1
    r3 ← append_close_connection alloc r2
    r4 ← append_content_type alloc html_type r3
    append_body_of alloc html r4

  -- A reply that has no body.
  pub reply_empty : ℕ → List ℕ → Response → Outcome Response
  reply_empty code message r = do
    r1 ← append_status_line_of alloc code message r
    r2 ← append_content_base alloc config.domain r1
    r3 ← append_close_connection alloc r2
    append_headers_end_of alloc false r3

  pub reply_not_found : Response → Outcome Response
  reply_not_found r = do
    r1 ← append_status_line_of alloc 404 (codes "Not Found") r
    r2 ← append_content_base alloc config.domain r1
    r3 ← append_close_connection_of alloc true r2
    append_headers_end_of alloc false r3

  -- The headers of a file's reply.
  pub reply_file_headers : List ℕ → Response → Outcome Response
  reply_file_headers real_path r = do
    r1 ← append_status_line_of alloc 200 (codes "OK") r
    r2 ← append_content_base alloc config.domain r1
    r3 ← append_content_type alloc (get_mime_type real_path) r2
    append_close_connection alloc r3

module _ {Files : Type 0} (alloc : Allocation) (system : FileSystem Files)
    (config : HttpServerConfig) where
  open system use {open_file, write_file, remove}

  pub reply_get : Request → Files → Response → Outcome (Files × Response)
  reply_get req files r =
      if is_empty req.path
      then (do r' ← reply_page alloc config 200 (codes "OK") welcome_html r; ok (files, r'))
      else (do
        real_path ← get_real_path config req.path
        r' ← elim (open_file files real_path) [
          | none ↦ reply_not_found alloc config r
          | some file ↦ reply_file_headers alloc config real_path r >>= append_file_body alloc file
        ]
        ok (files, r'))

  pub reply_head : Request → Files → Response → Outcome (Files × Response)
  reply_head req files r = do
    real_path ← get_real_path config req.path
    r' ← elim (open_file files real_path) [
      | none ↦ reply_not_found alloc config r
      | some file ↦ do
        headed ← reply_file_headers alloc config real_path r
        measured ← append_content_length alloc file.size headed
        append_headers_end_of alloc false measured
    ]
    ok (files, r')

  pub reply_put : Request → Files → Response → Outcome (Files × Response)
  reply_put req files r = do
    real_path ← get_real_path config req.path
    elim (write_file files real_path req.body) [
      | none ↦
          reply_empty alloc config 500 (codes "Internal Server Error") r >>= λ r'. ok (files, r')
      | some files' ↦ reply_empty alloc config 200 (codes "OK") r >>= λ r'. ok (files', r')
    ]

  pub reply_delete : Request → Files → Response → Outcome (Files × Response)
  reply_delete req files r = do
    real_path ← get_real_path config req.path
    let answer = remove files real_path
    r' ← reply_empty alloc config (removal_code answer.0) (removal_message answer.0) r
    ok (answer.1, r')

  -- The branches of `DefaultHttpCallback`.
  abbrev pub reply_by : Method → Request → Files → Response → Outcome (Files × Response)
  reply_by Method.get req files r = reply_get req files r
  reply_by Method.post req files r =
      reply_empty alloc config 200 (codes "OK") r >>= λ r'. ok (files, r')
  reply_by Method.head req files r = reply_head req files r
  reply_by Method.put req files r = reply_put req files r
  reply_by Method.delete req files r = reply_delete req files r
  reply_by Method.options req files r =
      reply_page alloc config 200 (codes "OK") options_html r >>= λ r'. ok (files, r')
  reply_by _ req files r =
      reply_page alloc config 405 (codes "Method Not Allowd") not_allowed_html r >>= λ r'.
      ok (files, r')

  pub default_http_callback : Request → Files → Response → Outcome (Files × Response)
  default_http_callback req files r = reply_by req.method req files r

abbrev pub is_http10 : Version → Bool
is_http10 http10 = true
is_http10 _ = false

-- Whether the connection closes behind the response.
unfoldable pub asks_close : Request → Bool
asks_close req =
    let connection = get_header (codes "Connection") req in
    bytes_eq connection (codes "close")
    || (is_http10 req.version && not (bytes_eq connection (codes "Keep-Alive")))

module _ {Files : Type 0} (alloc : Allocation)
    (handler : Request → Files → Response → Outcome (Files × Response)) where
  -- `OnRequest`; `handler` is the callback that was set, or the default one.
  pub on_request : Request → Files → Outcome (Files × List Effect)
  on_request req files = do
    (files', response) ← handler req files (new_response alloc (asks_close req))
    destroy response
    ok (
      files',
      send (contents response.buffer)
          ∷ (if response.is_close_connection then shutdown ∷ [] else []),
    )

  -- `OnMessage`, without the idle timing, which has its own module.
  pub on_message : ℕ → Context → Buffer → Files → Outcome (Context × Buffer × Files × List Effect)
  on_message time ctx buf files = do
    (good, ctx', buf') ← parse_request time ctx buf
    let refused = if good then [] else send bad_request ∷ shutdown ∷ []
    if is_got_all ctx'
        then (on_request ctx'.request files >>= λ (files', effects).
            ok (reset ctx', buf', files', refused ++ effects))
        else ok (ctx', buf', files, refused)
