-- ===== src/Http/Context/Line.antt =====
-- The lines of a request as text, and what mytinyhttpd/http/http_context.cc and http_request.h
-- make of each.
use my_tiny_httpd.Prelude.{
  ℕ, suc, ◌+◌, ◌-◌, ◌<◌, ◌≡◌, refl, sym, ap, ◌∙◌, true, List, [], ◌∷◌, ◌++◌, subst, Option, none,
  some, ok, ==_refl, lt→==, le→leb, length, drop, length-append, take-append_self, drop-append_self,
  take-append_le, drop-append, drop-append_le, Lacks, find-Lacks, find-append, Lacks-append, codes,
  arith, append-nil,
}
use my_tiny_httpd.Http.Request.{
  Request, Method, Version, invalid, get, post, head, put, delete, options, http10, http11,
  method_of, set_method, set_path, set_query, set_version,
}
use my_tiny_httpd.Http.Context.{find_crlf, process_request_line, set_target, parse_version}

-- The methods that the parser knows, with their keywords.
pub data Keyword : Method → List ℕ → Type 0 where
  get_word : Keyword get (codes "GET")
  post_word : Keyword post (codes "POST")
  head_word : Keyword head (codes "HEAD")
  put_word : Keyword put (codes "PUT")
  delete_word : Keyword delete (codes "DELETE")
  options_word : Keyword options (codes "OPTIONS")

pub data VersionText : Version → List ℕ → Type 0 where
  text10 : VersionText http10 (codes "HTTP/1.0")
  text11 : VersionText http11 (codes "HTTP/1.1")

abbrev pub query_text : Option (List ℕ) → List ℕ
query_text none = []
query_text (some q) = 63 ∷ q

-- The request line without its line end.
abbrev pub request_line : List ℕ → List ℕ → Option (List ℕ) → List ℕ → List ℕ
request_line word path query version =
    word ++ (32 ∷ ((47 ∷ (path ++ query_text query)) ++ (32 ∷ version)))

method_of-Keyword :
    {m : Method} {word : List ℕ} (rest : List ℕ) → Keyword m word → method_of (word ++ rest) ≡ m
method_of-Keyword rest get_word = refl
method_of-Keyword rest post_word = refl
method_of-Keyword rest head_word = refl
method_of-Keyword rest put_word = refl
method_of-Keyword rest delete_word = refl
method_of-Keyword rest options_word = refl

pub Keyword-Lacks : {m : Method} {word : List ℕ} → Keyword m word → Lacks 32 word
Keyword-Lacks get_word = omega arith
Keyword-Lacks post_word = omega arith
Keyword-Lacks head_word = omega arith
Keyword-Lacks put_word = omega arith
Keyword-Lacks delete_word = omega arith
Keyword-Lacks options_word = omega arith

pub Keyword-Lacks_return : {m : Method} {word : List ℕ} → Keyword m word → Lacks 13 word
Keyword-Lacks_return get_word = omega arith
Keyword-Lacks_return post_word = omega arith
Keyword-Lacks_return head_word = omega arith
Keyword-Lacks_return put_word = omega arith
Keyword-Lacks_return delete_word = omega arith
Keyword-Lacks_return options_word = omega arith

parse_version-VersionText :
    {v : Version} {text : List ℕ} (req : Request)
    → VersionText v text
    → parse_version text req ≡ (true, record req { version = v })
unfolding parse_version set_version
parse_version-VersionText req text10 = refl
parse_version-VersionText req text11 = refl

-- The line end behind a line that holds no carriage return.
pub find_crlf-line :
    (line rest : List ℕ) → Lacks 13 line → find_crlf (line ++ (13 ∷ 10 ∷ rest)) ≡ some (length line)
unfolding find_crlf
find_crlf-line [] rest h = refl
find_crlf-line (c ∷ cs) rest h = ground (arith, find_crlf-line cs rest h.1)

suc_minus_one : (n : ℕ) → suc n - 1 ≡ n
suc_minus_one n = omega arith

drop_past : (c n : ℕ) (xs ys : List ℕ) → n ≡ length xs + 1 → drop n (xs ++ (c ∷ ys)) ≡ ys
drop_past c n xs ys h = drop-append n 1 xs (c ∷ ys) h

length_past : (c : ℕ) (xs ys : List ℕ) → length xs < length (xs ++ (c ∷ ys))
length_past c xs ys = omega (arith, length-append xs (c ∷ ys))

set_target-path :
    (path version : List ℕ) (req : Request)
    → Lacks 63 path
    → set_target ((47 ∷ path) ++ (32 ∷ version)) (suc (length path)) req
      ≡ ok (record req { path = path })
unfolding set_target set_path
set_target-path path version req h = rw (
  take-append_self (length path) path (32 ∷ version) refl,
  find-Lacks 63 path h,
  ==_refl (suc (length path)),
  le→leb 1 (suc (length path)) (omega arith),
  suc_minus_one (length path),
  take-append_self (length path) path (32 ∷ version) refl,
)

set_target-query :
    (path query version : List ℕ) (req : Request)
    → Lacks 63 path
    → set_target
        ((47 ∷ (path ++ (63 ∷ query))) ++ (32 ∷ version))
        (suc (length (path ++ (63 ∷ query))))
        req
      ≡ ok (record req { path = path; query = 63 ∷ query })
unfolding set_target set_path set_query
set_target-query path query version req h = rw (
  take-append_self (length target) target (32 ∷ version) refl,
  find-append 63 path query h,
  lt→== (suc (length path)) (suc (length target)) (omega (arith, long)),
  le→leb 1 (suc (length path)) (omega arith),
  le→leb (suc (length path)) (suc (length target)) (omega (arith, long)),
  suc_minus_one (length path),
  take-append_le (length path) target (32 ∷ version) (omega (arith, long)),
  take-append_self (length path) path (63 ∷ query) refl,
  drop-append_le (length path) target (32 ∷ version) (omega (arith, long)),
  drop-append_self (length path) path (63 ∷ query) refl,
  between,
  take-append_self (length query) query (32 ∷ version) refl,
)
  where
    target : List ℕ
    target = path ++ (63 ∷ query)

    long : length target ≡ length path + suc (length query)
    long = length-append path (63 ∷ query)

    between : suc (length target) - suc (length path) ≡ suc (length query)
    between = omega (arith, long)

-- The three parts of a line with two spaces.
process_request_line_parts :
    (word target version : List ℕ) (req named aimed : Request)
    → Lacks 32 word
    → Lacks 32 target
    → set_method (word ++ (32 ∷ (target ++ (32 ∷ version)))) req ≡ ok named
    → set_target (target ++ (32 ∷ version)) (length target) named ≡ ok aimed
    → process_request_line (word ++ (32 ∷ (target ++ (32 ∷ version)))) req
      ≡ ok (parse_version version aimed)
unfolding process_request_line
process_request_line_parts word target version req named aimed w t m a = rw (
  find-append 32 word text w,
  lt→== (length word) (length (word ++ (32 ∷ text))) (length_past 32 word text),
  m,
  drop_past 32 (length word + 1) word text refl,
  find-append 32 target version t,
  lt→== (length target) (length text) (length_past 32 target version),
  a,
  drop_past 32 (length target + 1) target version refl,
)
  where
    text : List ℕ
    text = target ++ (32 ∷ version)

pub set_method-Keyword :
    {m : Method} {word : List ℕ} (rest : List ℕ) (req : Request)
    → Keyword m word
    → req.method ≡ invalid
    → set_method (word ++ rest) req ≡ ok (record req { method = m })
unfolding set_method
set_method-Keyword rest req k i = rw (i, method_of-Keyword rest k)

-- A well-formed request line is taken, and its parts are what the request then holds.
pub process_request_line-request_line :
    {m : Method} {v : Version} {word text : List ℕ} (path : List ℕ) (query : Option (List ℕ))
    (req : Request)
    → Keyword m word
    → VersionText v text
    → Lacks 32 path
    → Lacks 63 path
    → Lacks 32 (query_text query)
    → req.method ≡ invalid
    → req.query ≡ []
    → process_request_line (request_line word path query text) req
      ≡ ok (true, record req { method = m; version = v; path = path; query = query_text query })
process_request_line-request_line {m} {v} {word} {text} path none req k t p p' q i e =
    process_request_line_parts word (47 ∷ (path ++ [])) text req named aimed (Keyword-Lacks k)
      (omega arith, Lacks-append 32 path [] p q)
      (set_method-Keyword (32 ∷ ((47 ∷ (path ++ [])) ++ (32 ∷ text))) req k i)
      (subst (λ t. set_target ((47 ∷ t) ++ (32 ∷ text)) (suc (length t)) named ≡ ok aimed)
        (sym (append-nil path)) (set_target-path path text named p'))
    ∙ ap ok (
        parse_version-VersionText aimed t
        ∙ ap (λ q. (true, record aimed { version = v; query = q })) e)
  where
    named : Request
    named = record req { method = m }

    aimed : Request
    aimed = record named { path = path }
process_request_line-request_line {m} {v} {word} {text} path (some query) req k t p p' q i e =
    process_request_line_parts word target text req named aimed (Keyword-Lacks k)
      (omega arith, Lacks-append 32 path (63 ∷ query) p q)
      (set_method-Keyword (32 ∷ (target ++ (32 ∷ text))) req k i)
      (set_target-query path query text named p')
    ∙ ap ok (parse_version-VersionText aimed t)
  where
    target : List ℕ
    target = 47 ∷ (path ++ (63 ∷ query))

    named : Request
    named = record req { method = m }

    aimed : Request
    aimed = record named { path = path; query = 63 ∷ query }
