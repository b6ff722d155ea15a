-- ===== src/Http/Server/Serve.antt =====
-- A request that arrives whole is served: mytinyhttpd/http/http_server.cc.
use my_tiny_httpd.Prelude.{
  ℕ, ◌<◌, ◌≡◌, ◌≢◌, refl, ap, ap₂, ◌∙◌, Bool, true, false, List, [], ◌∷◌, Option, none, some,
  if◌then◌else◌, length, Returns, Returns->>=, Returns-assert,
}
use my_tiny_httpd.Net.Buffer.{Allocation, Buffer, contents}
use my_tiny_httpd.Http.Request.{Request, Method, Version, Headers, swap}
use my_tiny_httpd.Http.Context.{got_all, new_context, reset, has_body, parse_request}
use my_tiny_httpd.Http.Context.Bytes.{IsReady, Agrees-ok}
use my_tiny_httpd.Http.Context.RoundTrip.{parse_request-request_text}
use my_tiny_httpd.Http.Context.Printed.{IsRequest, request_text, parsed_request}
use my_tiny_httpd.Http.Response.{past_status_line, new_response}
use my_tiny_httpd.Http.Response.Text.{room, new_response-Holds}
use my_tiny_httpd.Http.Server.{
  HttpServerConfig, FileSystem, Effect, send, shutdown, asks_close, default_http_callback,
  on_request, on_message,
}
use my_tiny_httpd.Http.Server.Reply.{Reply, print_reply, final_state}
use my_tiny_httpd.Http.Server.Callback.{default_http_callback-Answers}
use my_tiny_httpd.Http.Server.Branches.{IsReadable, Answers, reply_to}

-- What a reply does to the connection.
abbrev pub reply_effects : Reply → Bool → List Effect
reply_effects reply closes = send (print_reply reply) ∷ (if closes then shutdown ∷ [] else [])

final_state-past : (body : Option (List ℕ)) → past_status_line (final_state body) ≡ true
final_state-past none = refl
final_state-past (some body) = refl

-- The files and the effects are those of the reply.
abbrev pub Serves :
    {Files : Type 0}
    → Allocation
    → FileSystem Files
    → HttpServerConfig
    → Request
    → Files
    → Files × List Effect
    → Type 0
Serves alloc system config req files (files', effects) =
    let reply = reply_to alloc system config req files (asks_close req) in
    (files' ≡ reply.2) × (effects ≡ reply_effects reply.0 reply.1)

module _ {Files : Type 0} (alloc : Allocation) (system : FileSystem Files)
    (config : HttpServerConfig) (ready : IsReadable system) (root : config.docroot ≢ []) where
  -- With a root that is not empty, and files that read as their sizes say and are below 10 ^ 13
  -- bytes, `OnRequest` with the default callback runs to its end, past the destructor's assertion: it
  -- sends exactly the text of the reply that the request calls for, shuts the connection down
  -- behind it just if that reply closes, and leaves the files as the request asks, if the reply has
  -- less than 2 ^ 62 bytes.
  pub on_request-Serves :
      (req : Request) (files : Files)
      → length (print_reply (reply_to alloc system config req files (asks_close req)).0) < room
      → Returns
          (Serves alloc system config req files)
          (on_request alloc (default_http_callback alloc system config) req files)
  unfolding on_request
  on_request-Serves req files l =
      Returns->>= (Answers alloc system config reply) (Serves alloc system config req files) _ _
        (default_http_callback-Answers alloc system config req files (asks_close req)
          (new_response alloc (asks_close req)) ready root
          (new_response-Holds alloc (asks_close req)) l)
        (λ (files', r) (same, h).
          Returns-assert (Serves alloc system config req files) (past_status_line r.state) _
            (ap past_status_line h.at ∙ final_state-past reply.0.body)
            (
              same,
              ap₂ (λ text closes. send text ∷ (if closes then shutdown ∷ [] else [])) h.written
                  h.closes,
            ))
    where
      reply : Reply × Bool × Files
      reply = reply_to alloc system config req files (asks_close req)

  -- With a root that is not empty, and files that read as their sizes say and are below 10 ^ 13
  -- bytes: when a whole request of a method without a body has arrived in a buffer whose
  -- reserved bytes are free, `OnMessage` on a new context runs to its end. It serves the request
  -- that was printed with the default callback, takes its bytes and no others out of the buffer,
  -- and the context is a new one again, if the reply has less than 2 ^ 62 bytes.
  pub on_message-request_text :
      {m : Method} {v : Version} {word version path : List ℕ} {query : Option (List ℕ)}
      {headers : Headers} (time : ℕ) (rest : List ℕ) (b : Buffer) (files : Files)
      → IsRequest m v word version path query headers
      → IsReady b
      → contents b ≡ request_text word version path query headers rest
      → has_body m ≡ false
      → length (
          print_reply
            (reply_to alloc system config
              (parsed_request time m v path query headers [])
              files
              (asks_close (parsed_request time m v path query headers []))).0)
        < room
      → Returns
          (λ (ctx, left, files', effects).
            (ctx ≡ new_context)
            × (contents left ≡ rest)
            × IsReady left
            × Serves alloc system config
                (parsed_request time m v path query headers [])
                files
                (files', effects))
          (on_message alloc (default_http_callback alloc system config) time new_context b files)
  unfolding on_message reset new_context swap
  on_message-request_text {m} {v} {word} {version} {path} {query} {headers} time rest b files r
        ready' e h l =
      let (left, parsed, rest_left, still_ready) =
        Agrees-ok (parse_request time new_context b) true
          (record { state = got_all; request = req }) rest
          (parse_request-request_text {headers = headers} time rest b r ready' e h) in
      rw parsed (
        Returns->>= (Serves alloc system config req files) _
          (on_request alloc (default_http_callback alloc system config) req files) _
          (on_request-Serves req files l)
          (λ (files', effects) s. (refl, rest_left, still_ready, s)))
    where
      req : Request
      req = parsed_request time m v path query headers []
