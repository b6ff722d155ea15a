-- ===== src/Http/Context/Fuel.antt =====
-- The loop of `ParseRequest` in mytinyhttpd/http/http_context.cc ends.
use my_tiny_httpd.Prelude.{
  ℕ, zero, suc, ◌+◌, ◌<◌, Bool, true, false, not, ◌≢◌, inl, inr, List, Outcome, ok, fault, Fault,
  assertion, out_of_range, out_of_fuel, ◌>>=◌, ◌==◌, if◌then◌else◌, length, take, drop, length-drop,
  find, arith, Option-cases, leb, assert, in_range,
}
use my_tiny_httpd.Net.Buffer.{Buffer, contents, readable_bytes}
use my_tiny_httpd.Net.Buffer.Space.{readable_bytes-length}
use my_tiny_httpd.Http.Request.{
  Request, is_invalid, set_method, set_path, set_query, set_receive_time, add_header,
}
use my_tiny_httpd.Http.Context.{
  State, expect_request_line, expect_headers, expect_body, got_all, Context, set_target,
  body_refused, has_body, process_request_line, find_crlf, parse_request,
}
use my_tiny_httpd.Http.Context.Bytes.{
  Parsed, run_body, run_request_line, run_header, run, find_crlf-le, IsReady, Agrees,
  parse_loop-Agrees,
}

-- The value was returned, or the fault is another one than a loop without end.
pub data Ends {ℓ} {A : Type ℓ} : Outcome A → Type ℓ where
  returned : (a : A) → Ends (ok a)
  asserted : Ends (fault assertion)
  overran : Ends (fault out_of_range)

module _ {ℓ} {A : Type ℓ} where
  pub Ends-ne : {m : Outcome A} → Ends m → m ≢ fault out_of_fuel
  Ends-ne (returned a) e = cc
  Ends-ne asserted e = cc
  Ends-ne overran e = cc

  Ends->>= {κ} :
      {B : Type κ} {m : Outcome A} {f : A → Outcome B}
      → Ends m
      → ((a : A) → Ends (f a))
      → Ends (m >>= f)
  Ends->>= (returned a) k = k a
  Ends->>= asserted k = asserted
  Ends->>= overran k = overran

  Ends-if : (b : Bool) {m n : Outcome A} → Ends m → Ends n → Ends (if b then m else n)
  Ends-if true h k = h
  Ends-if false h k = k

Ends-assert : (b : Bool) → Ends (assert b)
Ends-assert true = returned tt
Ends-assert false = asserted

Ends-in_range : (b : Bool) → Ends (in_range b)
Ends-in_range true = returned tt
Ends-in_range false = overran

set_path-Ends : (text : List ℕ) (i j : ℕ) (req : Request) → Ends (set_path text i j req)
unfolding set_path
set_path-Ends text i j req = Ends->>= (Ends-in_range (leb i j)) (λ _. returned _)

set_query-Ends : (text : List ℕ) (i j : ℕ) (req : Request) → Ends (set_query text i j req)
unfolding set_query
set_query-Ends text i j req = Ends->>= (Ends-in_range (leb i j)) (λ _. returned _)

set_target-Ends : (text : List ℕ) (space : ℕ) (req : Request) → Ends (set_target text space req)
unfolding set_target
set_target-Ends text space req =
    Ends-if (find 63 (take space text) == space) (set_path-Ends text 1 space req) (
      Ends->>= (set_path-Ends text 1 (find 63 (take space text)) req)
        (set_query-Ends text (find 63 (take space text)) space))

set_method-Ends : (line : List ℕ) (req : Request) → Ends (set_method line req)
unfolding set_method
set_method-Ends line req = Ends->>= (Ends-assert (is_invalid req.method)) (λ _. returned _)

pub process_request_line-Ends :
    (line : List ℕ) (req : Request) → Ends (process_request_line line req)
unfolding process_request_line
process_request_line-Ends line req = Ends-if (find 32 line == length line) (returned _) (
    Ends->>= (set_method-Ends line req) (λ named.
      Ends-if (find 32 text == length text) (returned _)
        (Ends->>= (set_target-Ends text (find 32 text) named) (λ _. returned _))))
  where
    text : List ℕ
    text = drop (find 32 line + 1) line

-- The states in which the loop has a branch to take.
abbrev pub CanParse : State → Type 0
CanParse got_all = ⊥
CanParse _ = Unit {0}

run_body-Ends : (req : Request) (xs : List ℕ) → Ends (run_body req xs)
unfolding run_body
run_body-Ends req xs =
    Ends-if (not (has_body req.method)) (returned _)
      (Ends-if (body_refused req (length xs)) (returned _) (returned _))

-- One more round than there are bytes is enough.
run-Ends :
    (fuel time : ℕ) (state : State) (req : Request) (xs : List ℕ)
    → CanParse state
    → length xs < fuel
    → Ends (run fuel time state req xs)
unfolding run run_request_line run_header
run-Ends zero time state req xs c h = absurd (omega arith)
run-Ends (suc fuel) time expect_request_line req xs c h = elim (Option-cases (find_crlf xs)) [
  | inl e ↦ rw (e, run_request_line) (returned _)
  | inr (i, e) ↦
      rw (e, run_request_line)
        (Ends->>= (process_request_line-Ends (take i xs) req) (λ (good, req').
          Ends-if good
            (run-Ends fuel time expect_headers (set_receive_time time req') (drop (i + 2) xs) tt
              (omega (arith, length-drop (i + 2) xs, find_crlf-le xs i e)))
            (returned _)))
]
run-Ends (suc fuel) time expect_headers req xs c h = elim (Option-cases (find_crlf xs)) [
  | inl e ↦ rw (e, run_header) (returned _)
  | inr (i, e) ↦
      rw (e, run_header)
        (Ends-if (find 58 (take i xs) == length (take i xs))
          (run-Ends fuel time expect_body req (drop (i + 2) xs) tt
            (omega (arith, length-drop (i + 2) xs, find_crlf-le xs i e)))
          (run-Ends fuel time expect_headers (add_header (take i xs) (find 58 (take i xs)) req)
            (drop (i + 2) xs) tt (omega (arith, length-drop (i + 2) xs, find_crlf-le xs i e))))
]
run-Ends (suc fuel) time expect_body req xs c h = run_body-Ends req xs
run-Ends (suc fuel) time got_all req xs c h = elim c [ ]

fault-Ends :
    {f : Fault}
    → Ends {A = Bool × Context × List ℕ} (fault f)
    → Ends {A = Bool × Context × Buffer} (fault f)
fault-Ends asserted = asserted
fault-Ends overran = overran

Agrees-Ends : (m : Parsed Buffer) (n : Parsed (List ℕ)) → Agrees m n → Ends n → Ends m
Agrees-Ends (ok r) (ok s) a e = returned r
Agrees-Ends (ok r) (fault f) a e = elim a [ ]
Agrees-Ends (fault f) (ok s) a e = elim a [ ]
Agrees-Ends (fault f) (fault g) a e = rw a (fault-Ends e)

-- In each state but the last, and on every buffer whose reserved bytes are free, `ParseRequest`
-- ends: one more round than there are readable bytes is enough, so that it returns, or stops at an
-- assertion or an access out of range, but never for lack of rounds.
pub parse_request-Ends :
    (time : ℕ) (ctx : Context) (b : Buffer)
    → IsReady b
    → CanParse ctx.state
    → Ends (parse_request time ctx b)
unfolding parse_request
parse_request-Ends time ctx b r c =
    Agrees-Ends _ _ (parse_loop-Agrees (readable_bytes b + 1) time ctx.state ctx.request b r) (
      run-Ends (readable_bytes b + 1) time ctx.state ctx.request (contents b) c
        (omega (arith, readable_bytes-length b r.valid)))
