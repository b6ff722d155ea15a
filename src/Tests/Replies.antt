-- ===== src/Tests/Replies.antt =====
-- The theorems about the replies of mytinyhttpd/http at concrete inputs.
use my_tiny_httpd.Prelude.{
  ◌<◌, ◌≡◌, ◌≢◌, refl, true, false, [], ◌++◌, none, some, length, codes, arith, Returns,
}
use my_tiny_httpd.Net.Buffer.{contents}
use my_tiny_httpd.Http.Request.{Request, get, http11, get_header, find_header, insert_header}
use my_tiny_httpd.Http.Context.{new_context}
use my_tiny_httpd.Http.Context.Bytes.{IsReady}
use my_tiny_httpd.Http.Context.Printed.{parsed_request}
use my_tiny_httpd.Http.Response.{
  Response, append_header, append_body, new_response, crlf, decimal, digits, append_body_of,
}
use my_tiny_httpd.Http.Response.Text.{Holds, room, new_response-Holds}
use my_tiny_httpd.Http.Response.Lines.{length_text, append_body_of-Holds}
use my_tiny_httpd.Http.Server.{
  HttpServerConfig, FileSystem, Removal, no_reuse_port, asks_close, default_http_callback,
  on_request, on_message, get_mime_type, extension, look_up,
}
use my_tiny_httpd.Http.Server.Pages.{mime_type_map, html_type}
use my_tiny_httpd.Http.Server.Reply.{print_reply, file_reply}
use my_tiny_httpd.Http.Server.Callback.{default_http_callback-Answers}
use my_tiny_httpd.Http.Server.Branches.{IsReadable, Answers, reply_to}
use my_tiny_httpd.Http.Server.Serve.{Serves, on_request-Serves, on_message-request_text}
use my_tiny_httpd.Tests.{allocation, buffer_of, buffer_of-IsReady, contents-buffer_of}
use my_tiny_httpd.Tests.Requests.{get_text, get_text-IsRequest, host_header}

-- Every path names the same file, which nothing can write or remove.
abbrev one_file : FileSystem (Unit {0})
one_file = record {
  open_file = λ files path. some (record { size = 2; bytes = some (codes "hi") });
  write_file = λ files path bytes. none;
  remove = λ files path. (Removal.other_error, tt);
}

one_file-IsReadable : IsReadable one_file
one_file-IsReadable = record { whole = λ files path file e. (codes "hi", cc, omega arith) }

abbrev example_config : HttpServerConfig
example_config = record {
  is_valid = true;
  port = 8000;
  domain = codes "localhost";
  docroot = codes "/srv";
  option = no_reuse_port;
}

example_config_root : example_config.docroot ≢ []
example_config_root e = cc

abbrev example_request : Request
example_request = parsed_request 7 get http11 (codes "a.html") (some (codes "x=1")) host_header []

example_fits :
    length (
      print_reply
        (reply_to allocation one_file example_config example_request tt
          (asks_close example_request)).0)
    < room
unfolding room file_reply get_mime_type extension look_up mime_type_map html_type decimal digits
    asks_close get_header find_header insert_header
example_fits = omega arith

on_request-Serves_example : Returns (Serves allocation one_file example_config example_request tt) (
    on_request allocation
      (default_http_callback allocation one_file example_config)
      example_request
      tt)
on_request-Serves_example =
    on_request-Serves allocation one_file example_config one_file-IsReadable example_config_root
      example_request tt example_fits

on_message-request_text_example :
    Returns
      (λ (ctx, left, files', effects).
        (ctx ≡ new_context)
        × (contents left ≡ codes "GET")
        × IsReady left
        × Serves allocation one_file example_config example_request tt (files', effects))
      (on_message allocation
        (default_http_callback allocation one_file example_config)
        7
        new_context
        (buffer_of get_text)
        tt)
on_message-request_text_example =
    on_message-request_text allocation one_file example_config one_file-IsReadable
      example_config_root 7 (codes "GET") (buffer_of get_text) tt get_text-IsRequest
      (buffer_of-IsReady get_text (omega arith)) (contents-buffer_of get_text) refl example_fits

default_http_callback-Answers_example :
    Returns
      (Answers allocation one_file example_config (
        reply_to allocation one_file example_config example_request tt
          (asks_close example_request)))
      (default_http_callback allocation one_file example_config example_request tt
        (new_response allocation (asks_close example_request)))
default_http_callback-Answers_example =
    default_http_callback-Answers allocation one_file example_config example_request tt
      (asks_close example_request) (new_response allocation (asks_close example_request))
      one_file-IsReadable example_config_root
      (new_response-Holds allocation (asks_close example_request)) example_fits

-- A response that has its status line and a header already.
abbrev begun_response : Response
begun_response = record {
  state = append_header;
  is_close_connection = false;
  buffer = buffer_of (codes "HTTP/1.1 200 OK\r\nServer: x\r\n");
}

begun_response-Holds :
    Holds append_header false (codes "HTTP/1.1 200 OK\r\nServer: x\r\n") begun_response
begun_response-Holds = record {
  at = refl;
  closes = refl;
  valid = (buffer_of-IsReady (codes "HTTP/1.1 200 OK\r\nServer: x\r\n") (omega arith)).valid;
  start = refl;
  written = refl;
}

body_fits :
    length (
      ((codes "HTTP/1.1 200 OK\r\nServer: x\r\n" ++ length_text (length (codes "hi"))) ++ crlf)
      ++ codes "hi")
    < room
unfolding room decimal digits
body_fits = omega arith

append_body_of-Holds_example :
    Returns
      (Holds append_body false (
        ((codes "HTTP/1.1 200 OK\r\nServer: x\r\n" ++ length_text (length (codes "hi"))) ++ crlf)
        ++ codes "hi"))
      (append_body_of allocation (codes "hi") begun_response)
append_body_of-Holds_example =
    append_body_of-Holds allocation (codes "hi") begun_response (omega arith) begun_response-Holds
      body_fits
