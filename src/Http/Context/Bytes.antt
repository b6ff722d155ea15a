-- ===== src/Http/Context/Bytes.antt =====
-- The parser of mytinyhttpd/http/http_context.cc over the readable bytes alone, and the proof that
-- the buffer adds nothing to it.
use my_tiny_httpd.Prelude.{
  ℕ, zero, suc, ◌+◌, ◌≤◌, ◌≡◌, refl, ap₂, ◌∙◌, Bool, true, false, not, List, [], ◌∷◌, none, some,
  Outcome, ok, fault, out_of_fuel, ◌>>=◌, ◌==◌, if◌then◌else◌, length, take, drop, drop-all, find,
  Returns-value, Bool-cases, Option-cases, inl, inr, arith,
}
use my_tiny_httpd.Net.Buffer.{Buffer, contents, retrieve_until, cheap_prepend}
use my_tiny_httpd.Net.Buffer.Space.{IsValid, readable_bytes-length}
use my_tiny_httpd.Net.Buffer.Retrieve.{Retrieved, retrieve_until-Retrieved}
use my_tiny_httpd.Http.Request.{Request, set_receive_time, set_body, add_header}
use my_tiny_httpd.Http.Context.{
  State, expect_request_line, expect_headers, expect_body, got_all, Context, process_request_line,
  find_crlf, on_request_line, on_header, body_refused, has_body, parse_body, parse_loop,
}

abbrev pub Parsed : Type 0 → Type 0
Parsed B = Outcome (Bool × Context × B)

unfoldable pub run_body : Request → List ℕ → Parsed (List ℕ)
run_body req xs =
    if not (has_body req.method)
    then ok (true, record { state = got_all; request = req }, xs)
    else (if body_refused req (length xs)
        then ok (false, record { state = expect_body; request = req }, xs)
        else ok (true, record { state = got_all; request = set_body xs req }, []))

unfoldable pub run_request_line :
    (Request → List ℕ → Parsed (List ℕ)) → ℕ → Request → List ℕ → Parsed (List ℕ)
run_request_line next time req xs = elim (find_crlf xs) [
  | none ↦ ok (true, record { state = expect_request_line; request = req }, xs)
  | some crlf ↦ process_request_line (take crlf xs) req >>= λ (good, req').
      if good
      then next (set_receive_time time req') (drop (crlf + 2) xs)
      else ok (false, record { state = expect_request_line; request = req' }, xs)
]

unfoldable pub run_header :
    (Request → List ℕ → Parsed (List ℕ))
    → (Request → List ℕ → Parsed (List ℕ))
    → Request
    → List ℕ
    → Parsed (List ℕ)
run_header last next req xs = elim (find_crlf xs) [
  | none ↦ ok (true, record { state = expect_headers; request = req }, xs)
  | some crlf ↦
      let line = take crlf xs in
      if find 58 line == length line
      then last req (drop (crlf + 2) xs)
      else next (add_header line (find 58 line) req) (drop (crlf + 2) xs)
]

unfoldable pub run : ℕ → ℕ → State → Request → List ℕ → Parsed (List ℕ)
run zero time state req xs = fault out_of_fuel
run (suc fuel) time expect_request_line req xs =
    run_request_line (run fuel time expect_headers) time req xs
run (suc fuel) time expect_headers req xs =
    run_header (run fuel time expect_body) (run fuel time expect_headers) req xs
run (suc fuel) time expect_body req xs = run_body req xs
run (suc fuel) time got_all req xs = run fuel time got_all req xs

pub find_crlf-le : (xs : List ℕ) (i : ℕ) → find_crlf xs ≡ some i → i + 2 ≤ length xs
unfolding find_crlf
find_crlf-le [] i h = cc
find_crlf-le (c ∷ []) i h = ground arith
find_crlf-le (c ∷ d ∷ cs) i h = elim (Option-cases (find_crlf (d ∷ cs))) [
  | inl e ↦ ground (arith, e)
  | inr (k, e) ↦ ground (arith, e, find_crlf-le (d ∷ cs) k e)
]

-- A buffer whose reserved bytes have not been used.
pub record IsReady (b : Buffer) : Type 0 where
  pub valid : IsValid b
  pub cheap : cheap_prepend ≤ b.reader_index

-- Both fault alike, or both return the same, the one with a buffer that holds what the other left.
abbrev pub Agrees : Parsed Buffer → Parsed (List ℕ) → Type 0
Agrees (ok (g, c, b)) (ok (g', c', xs)) = (g ≡ g') × (c ≡ c') × (contents b ≡ xs) × IsReady b
Agrees (fault e) (fault e') = e ≡ e'
Agrees _ _ = ⊥

-- A run that agrees with one that returns does too.
pub Agrees-ok :
    (m : Parsed Buffer) (g : Bool) (c : Context) (xs : List ℕ)
    → Agrees m (ok (g, c, xs))
    → (left : Buffer) × (m ≡ ok (g, c, left)) × (contents left ≡ xs) × IsReady left
Agrees-ok (ok (g', c', left)) g c xs (e, e', h, r) = (left, ap₂ (λ g c. ok (g, c, left)) e e', h, r)
Agrees-ok (fault f) g c xs a = elim a [ ]

retrieve_then :
    (n : ℕ) (b : Buffer) (k : Buffer → Parsed Buffer) (m : Parsed (List ℕ))
    → IsReady b
    → n ≤ length (contents b)
    → ((b' : Buffer) → IsReady b' → contents b' ≡ drop n (contents b) → Agrees (k b') m)
    → Agrees (retrieve_until (b.reader_index + n) b >>= k) m
retrieve_then n b k m r h go =
    let (b', e, q) = Returns-value (Retrieved n b) _ (retrieve_until-Retrieved n b r.valid h) in
    rw e (go b' (record { valid = q.valid; cheap = q.cheap r.cheap }) q.rest)

parse_body-Agrees :
    (req : Request) (b : Buffer) → IsReady b → Agrees (parse_body req b) (run_body req (contents b))
unfolding parse_body run_body
parse_body-Agrees req b r =
    rw (readable_bytes-length b r.valid) (elim (Bool-cases (not (has_body req.method))) [
      | inl e ↦ rw e (refl, refl, refl, r)
      | inr e ↦ elim (Bool-cases (body_refused req (length (contents b)))) [
        | inl f ↦ rw (e, f) (refl, refl, refl, r)
        | inr f ↦
            rw (e, f)
              (retrieve_then (length (contents b)) b _ _ r (omega arith) (λ b' r' c.
                (refl, refl, c ∙ drop-all (length (contents b)) (contents b) (omega arith), r')))
      ]
    ])

-- Two ways to go on that agree on each buffer.
abbrev pub Agree :
    (Request → Buffer → Parsed Buffer) → (Request → List ℕ → Parsed (List ℕ)) → Type 0
Agree k m = (req : Request) (b : Buffer) → IsReady b → Agrees (k req b) (m req (contents b))

on_request_line-Agrees :
    (k : Request → Buffer → Parsed Buffer) (m : Request → List ℕ → Parsed (List ℕ)) (time : ℕ)
    → Agree k m
    → Agree (on_request_line k time) (run_request_line m time)
unfolding on_request_line run_request_line
on_request_line-Agrees k m time a req b r = elim (Option-cases (find_crlf (contents b))) [
  | inl e ↦ rw (e, on_request_line, run_request_line) (refl, refl, refl, r)
  | inr (i, e) ↦
      rw (e, on_request_line, run_request_line)
        (decided (process_request_line (take i (contents b)) req) i (find_crlf-le (contents b) i e))
]
  where
    went_on :
        (i : ℕ) (req' : Request)
        → i + 2 ≤ length (contents b)
        → Agrees
            (retrieve_until (b.reader_index + (i + 2)) b >>= k req')
            (m req' (drop (i + 2) (contents b)))
    went_on i req' h = retrieve_then (i + 2) b (k req') _ r h (λ b' r' c. rw (← c) (a req' b' r'))

    decided :
        (o : Outcome (Bool × Request)) (i : ℕ)
        → i + 2 ≤ length (contents b)
        → Agrees
            (o >>= λ (good, req').
              if good
              then retrieve_until (b.reader_index + (i + 2)) b >>= k (set_receive_time time req')
              else ok (false, record { state = expect_request_line; request = req' }, b))
            (o >>= λ (good, req').
              if good
              then m (set_receive_time time req') (drop (i + 2) (contents b))
              else ok (false, record { state = expect_request_line; request = req' }, contents b))
    decided (fault f) i h = refl
    decided (ok (true, req')) i h = went_on i (set_receive_time time req') h
    decided (ok (false, req')) i h = (refl, refl, refl, r)

on_header-Agrees :
    (k k' : Request → Buffer → Parsed Buffer) (m m' : Request → List ℕ → Parsed (List ℕ))
    → Agree k m
    → Agree k' m'
    → Agree (on_header k k') (run_header m m')
unfolding on_header run_header
on_header-Agrees k k' m m' a a' req b r = elim (Option-cases (find_crlf (contents b))) [
  | inl e ↦ rw (e, on_header, run_header) (refl, refl, refl, r)
  | inr (i, e) ↦
      rw (e, on_header, run_header)
        (retrieve_then (i + 2) b _ _ r (find_crlf-le (contents b) i e) (λ b' r' c.
          rw (← c)
            (chosen (find 58 (take i (contents b)) == length (take i (contents b))) b' _ r')))
]
  where
    chosen :
        (t : Bool) (b' : Buffer) (req' : Request)
        → IsReady b'
        → Agrees
            ((if t then k req else k' req') b')
            (if t then m req (contents b') else m' req' (contents b'))
    chosen true b' req' r' = a req b' r'
    chosen false b' req' r' = a' req' b' r'

-- In a buffer whose reserved bytes are still free, the loop of the parser does what the parser over
-- the readable bytes alone does with the same fuel: both fault alike, or both return the same answer
-- and the same context, with a buffer, again with its reserved bytes free, that holds exactly the
-- bytes that the other left.
pub parse_loop-Agrees :
    (fuel time : ℕ) (state : State) (req : Request) (b : Buffer)
    → IsReady b
    → Agrees (parse_loop fuel time state req b) (run fuel time state req (contents b))
unfolding parse_loop run
parse_loop-Agrees zero time state req b r = refl
parse_loop-Agrees (suc fuel) time expect_request_line req b r =
    on_request_line-Agrees _ _ time (parse_loop-Agrees fuel time expect_headers) req b r
parse_loop-Agrees (suc fuel) time expect_headers req b r =
    on_header-Agrees _ _ _ _ (parse_loop-Agrees fuel time expect_body)
      (parse_loop-Agrees fuel time expect_headers) req b r
parse_loop-Agrees (suc fuel) time expect_body req b r = parse_body-Agrees req b r
parse_loop-Agrees (suc fuel) time got_all req b r = parse_loop-Agrees fuel time got_all req b r
