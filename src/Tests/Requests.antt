-- ===== src/Tests/Requests.antt =====
-- The theorems about the request parser of mytinyhttpd/http at concrete inputs.
use my_tiny_httpd.Prelude.{
  ℕ, ◌≡◌, refl, true, false, List, [], ◌∷◌, ◌++◌, none, some, codes, ok, fault, assertion,
  out_of_range, arith, pos, strtol, digits_value, ◌≢◌,
}
use my_tiny_httpd.Net.Buffer.{Buffer, contents}
use my_tiny_httpd.Http.Request.{
  Headers, get, post, http11, new_request, skip_spaces, get_header, find_header, insert_header,
}
use my_tiny_httpd.Http.Context.{
  Context, expect_request_line, expect_body, got_all, new_context, parse_request, parse_loop,
  on_request_line, find_crlf,
}
use my_tiny_httpd.Http.Context.Bytes.{Agrees, run, parse_loop-Agrees}
use my_tiny_httpd.Http.Context.Fuel.{Ends, parse_request-Ends}
use my_tiny_httpd.Http.Context.Split.{SameParse, parse_request_split}
use my_tiny_httpd.Http.Context.Line.{get_word, post_word, text11}
use my_tiny_httpd.Http.Context.RoundTrip.{announced, parse_request-request_text, parse_request-body}
use my_tiny_httpd.Http.Context.Printed.{IsRequest, request_text, parsed_request}
use my_tiny_httpd.Http.Context.Faults.{no_target, parse_request-NoPath, parse_request_refused_again}
use my_tiny_httpd.Tests.{buffer_of, buffer_of-IsReady, contents-buffer_of}

abbrev pub host_header : Headers
host_header = (codes "Host", codes "a b") ∷ []

abbrev pub get_text : List ℕ
get_text =
    request_text (codes "GET") (codes "HTTP/1.1") (codes "a.html") (some (codes "x=1")) host_header
      (codes "GET")

pub get_text-IsRequest :
    IsRequest get http11
      (codes "GET")
      (codes "HTTP/1.1")
      (codes "a.html")
      (some (codes "x=1"))
      host_header
unfolding skip_spaces
get_text-IsRequest = record {
  keyword = get_word;
  version_text = text11;
  path_spaces = omega arith;
  path_questions = omega arith;
  path_returns = omega arith;
  query_spaces = omega arith;
  query_returns = omega arith;
  printable = (omega arith, omega arith, omega arith, refl, refl, tt);
}

parse_request-request_text_example : Agrees (parse_request 7 new_context (buffer_of get_text)) (
    ok (
      true,
      record {
        state = got_all;
        request = parsed_request 7 get http11 (codes "a.html") (some (codes "x=1")) host_header [];
      },
      codes "GET",
    ))
parse_request-request_text_example =
    parse_request-request_text 7 (codes "GET") (buffer_of get_text) get_text-IsRequest
      (buffer_of-IsReady get_text (omega arith)) (contents-buffer_of get_text) refl

abbrev length_header : Headers
length_header = (codes "Content-Length", codes "2") ∷ []

-- Only one of two bytes of the body has arrived.
abbrev post_text : List ℕ
post_text =
    request_text (codes "POST") (codes "HTTP/1.1") (codes "f") none length_header (codes "x")

post_text-IsRequest :
    IsRequest post http11 (codes "POST") (codes "HTTP/1.1") (codes "f") none length_header
unfolding skip_spaces
post_text-IsRequest = record {
  keyword = post_word;
  version_text = text11;
  path_spaces = omega arith;
  path_questions = omega arith;
  path_returns = omega arith;
  query_spaces = omega arith;
  query_returns = omega arith;
  printable = (omega arith, omega arith, omega arith, refl, refl, tt);
}

announced_length : announced length_header ≡ codes "2"
unfolding get_header find_header insert_header
announced_length = refl

not_nil : {xs : List ℕ} → xs ≡ codes "2" → xs ≢ []
not_nil e f = cc

announced_value : strtol (announced length_header) ≡ pos 2
unfolding get_header find_header insert_header strtol digits_value
announced_value = refl

parse_request-body_example : Agrees (parse_request 7 new_context (buffer_of post_text)) (
    ok (
      false,
      record {
        state = expect_body;
        request = parsed_request 7 post http11 (codes "f") none length_header [];
      },
      codes "x",
    ))
parse_request-body_example =
    parse_request-body 7 (codes "x") (buffer_of post_text) 2 post_text-IsRequest
      (buffer_of-IsReady post_text (omega arith)) (contents-buffer_of post_text) refl
      (not_nil announced_length) announced_value

-- The first piece ends inside the request line.
abbrev first_piece : Buffer
first_piece = buffer_of (codes "GET /a HT")

abbrev both_pieces : Buffer
both_pieces = buffer_of (codes "GET /a HT" ++ codes "TP/1.1\r\n")

first_piece_waits : parse_request 7 new_context first_piece ≡ ok (true, new_context, first_piece)
unfolding parse_request parse_loop on_request_line find_crlf new_context
first_piece_waits = refl

parse_request_split_example :
    SameParse (parse_request 7 new_context both_pieces) (parse_request 7 new_context both_pieces)
unfolding new_context
parse_request_split_example =
    parse_request_split 7 new_context new_context first_piece first_piece both_pieces both_pieces
      (codes "TP/1.1\r\n") (buffer_of-IsReady (codes "GET /a HT") (omega arith))
      (buffer_of-IsReady (codes "GET /a HT" ++ codes "TP/1.1\r\n") (omega arith))
      (buffer_of-IsReady (codes "GET /a HT" ++ codes "TP/1.1\r\n") (omega arith)) tt tt
      first_piece_waits refl refl

parse_request-Ends_example : Ends (parse_request 7 new_context first_piece)
unfolding new_context
parse_request-Ends_example =
    parse_request-Ends 7 new_context first_piece
      (buffer_of-IsReady (codes "GET /a HT") (omega arith)) tt

parse_loop-Agrees_example :
    Agrees
      (parse_loop 40 7 expect_request_line new_request (buffer_of get_text))
      (run 40 7 expect_request_line new_request (contents (buffer_of get_text)))
parse_loop-Agrees_example =
    parse_loop-Agrees 40 7 expect_request_line new_request (buffer_of get_text)
      (buffer_of-IsReady get_text (omega arith))

-- Two spaces between the method and the version.
abbrev no_path_text : List ℕ
no_path_text = codes "GET  HTTP/1.1\r\n"

parse_request-NoPath_example :
    parse_request 7 new_context (buffer_of no_path_text) ≡ fault out_of_range
parse_request-NoPath_example =
    parse_request-NoPath 7 [] (buffer_of no_path_text) get_word (no_target (codes "HTTP/1.1"))
      (omega arith) (buffer_of-IsReady no_path_text (omega arith)) refl

-- A request line without a version.
abbrev old_text : List ℕ
old_text = codes "GET /a\r\n"

parse_request_refused_again_example :
    (ctx : Context) × (left : Buffer) × (parse_request 7 new_context (buffer_of old_text)
      ≡ ok (false, ctx, left))
    × (contents left ≡ contents (buffer_of old_text))
    × (parse_request 8 ctx (buffer_of (old_text ++ codes "x")) ≡ fault assertion)
parse_request_refused_again_example =
    parse_request_refused_again (codes "/a") 7 8 [] (codes "x") (buffer_of old_text)
      (buffer_of (old_text ++ codes "x")) get_word (omega arith) (omega arith)
      (buffer_of-IsReady old_text (omega arith))
      (buffer_of-IsReady (old_text ++ codes "x") (omega arith)) refl refl
