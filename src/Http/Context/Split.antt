-- ===== src/Http/Context/Split.antt =====
-- A request that arrives in pieces: mytinyhttpd/http/http_context.cc.
use my_tiny_httpd.Prelude.{
  ℕ, zero, suc, ◌+◌, ◌≤◌, ◌<◌, ◌≡◌, sym, ap, ◌∙◌, Bool, true, false, not, inl, inr, List, [], ◌++◌,
  Outcome, ok, fault, ◌>>=◌, ◌==◌, if◌then◌else◌, length, take, drop, length-drop, length-append,
  find, arith, Bool-cases, Option-cases,
}
use my_tiny_httpd.Http.Request.{Request, set_receive_time, set_body, add_header}
use my_tiny_httpd.Http.Context.{
  State, expect_request_line, expect_headers, expect_body, got_all, Context, body_refused, has_body,
  process_request_line, find_crlf, parse_request,
}
use my_tiny_httpd.Http.Context.Bytes.{
  Parsed, run_body, run_request_line, run_header, run, find_crlf-le, IsReady, Agrees,
  parse_loop-Agrees,
}
use my_tiny_httpd.Net.Buffer.{Buffer, contents, readable_bytes}
use my_tiny_httpd.Net.Buffer.Space.{readable_bytes-length}
use my_tiny_httpd.Http.Context.Fuel.{CanParse}
use my_tiny_httpd.Http.Context.Rounds.{run_enough, line_of}

module _ (ys : List ℕ) (ctx : Context) (rest : List ℕ) where
  -- Going on with the bytes `ys`: what is left, `xs`, leads to `ctx` and `rest`.
  abbrev GoesOn :
      (Request → List ℕ → Parsed (List ℕ))
      → (Request → List ℕ → Parsed (List ℕ))
      → Parsed (List ℕ)
      → List ℕ
      → Type 0
  GoesOn k k' m xs =
      (req : Request) (i : ℕ)
      → i + 2 ≤ length xs
      → k req (drop (i + 2) xs) ≡ ok (true, ctx, rest)
      → m ≡ k' req (drop (i + 2) xs ++ ys)

  run_request_line-append :
      (k k' : Request → List ℕ → Parsed (List ℕ)) (m : Parsed (List ℕ)) (time : ℕ) (req : Request)
      (xs : List ℕ)
      → GoesOn k k' m xs
      → (ctx ≡ record { state = expect_request_line; request = req }
          → rest ≡ xs
          → m ≡ run_request_line k' time req (xs ++ ys))
      → run_request_line k time req xs ≡ ok (true, ctx, rest)
      → m ≡ run_request_line k' time req (xs ++ ys)
  unfolding run_request_line
  run_request_line-append k k' m time req xs s stay h = elim (Option-cases (find_crlf xs)) [
    | inl e ↦ let w = rw (e, run_request_line) at h in stay (cc) (cc)
    | inr (i, e) ↦
        let (found, same, behind) = line_of xs ys i e in
        rw (found, run_request_line, same, behind)
          (decided (process_request_line (take i xs) req) i (find_crlf-le xs i e)
            (rw (e, run_request_line) at h))
  ]
    where
      decided :
          (o : Outcome (Bool × Request)) (i : ℕ)
          → i + 2 ≤ length xs
          → (o >>= λ (good, req').
              if good
              then k (set_receive_time time req') (drop (i + 2) xs)
              else ok (false, record { state = expect_request_line; request = req' }, xs))
            ≡ ok (true, ctx, rest)
          → m ≡ (
              o >>= λ (good, req').
              if good
              then k' (set_receive_time time req') (drop (i + 2) xs ++ ys)
              else ok (false, record { state = expect_request_line; request = req' }, xs ++ ys))
      decided (fault f) i l q = cc
      decided (ok (true, req')) i l q = s (set_receive_time time req') i l q
      decided (ok (false, req')) i l q = cc

  run_header-append :
      (l l' k k' : Request → List ℕ → Parsed (List ℕ)) (m : Parsed (List ℕ)) (req : Request)
      (xs : List ℕ)
      → GoesOn l l' m xs
      → GoesOn k k' m xs
      → (ctx ≡ record { state = expect_headers; request = req }
          → rest ≡ xs
          → m ≡ run_header l' k' req (xs ++ ys))
      → run_header l k req xs ≡ ok (true, ctx, rest)
      → m ≡ run_header l' k' req (xs ++ ys)
  unfolding run_header
  run_header-append l l' k k' m req xs s t stay h = elim (Option-cases (find_crlf xs)) [
    | inl e ↦ let w = rw (e, run_header) at h in stay (cc) (cc)
    | inr (i, e) ↦
        let (found, same, behind) = line_of xs ys i e in
        rw (found, run_header, same, behind)
          (chosen (find 58 (take i xs) == length (take i xs)) i
            (add_header (take i xs) (find 58 (take i xs)) req) (find_crlf-le xs i e)
            (rw (e, run_header) at h))
  ]
    where
      chosen :
          (b : Bool) (i : ℕ) (req' : Request)
          → i + 2 ≤ length xs
          → (if b then l req (drop (i + 2) xs) else k req' (drop (i + 2) xs)) ≡ ok (true, ctx, rest)
          → m ≡ (if b then l' req (drop (i + 2) xs ++ ys) else k' req' (drop (i + 2) xs ++ ys))
      chosen true i req' h q = s req i h q
      chosen false i req' h q = t req' i h q

  run_body-waits :
      (req : Request) (xs : List ℕ)
      → CanParse ctx.state
      → run_body req xs ≡ ok (true, ctx, rest)
      → ⊥
  unfolding run_body
  run_body-waits req xs c h = elim (Bool-cases (not (has_body req.method))) [
    | inl e ↦ finished req xs (rw (e, run_body) at h)
    | inr e ↦ elim (Bool-cases (body_refused req (length xs))) [
      | inl r ↦ let w = rw (e, run_body, r) at h in cc
      | inr r ↦ finished (set_body xs req) [] (rw (e, run_body, r) at h)
    ]
  ]
    where
      finished :
          (r : Request) (zs : List ℕ)
          → ◌≡◌ {A = Parsed (List ℕ)}
              (ok (true, record { state = got_all; request = r }, zs))
              (ok (true, ctx, rest))
          → ⊥
      finished r zs q = let e : ctx.state ≡ got_all = cc in let n = rw e at c in n

  stays :
      (g p time : ℕ) (state : State) (req : Request) (xs : List ℕ)
      → CanParse state
      → length xs + length ys < g
      → length rest + length ys < p
      → ctx ≡ record { state = state; request = req }
      → rest ≡ xs
      → run p time ctx.state ctx.request (rest ++ ys) ≡ run g time state req (xs ++ ys)
  stays g p time state req xs c k j e e' =
      rw (e, e')
        (run_enough p g time state req (xs ++ ys) c
          (omega (arith, length-append xs ys, ap length e')) (omega (arith, length-append xs ys)))

  -- If the loop waits after `xs`, then with the bytes `ys` it goes on as if all had come at once.
  pub run-append :
      (f g p time : ℕ) (state : State) (req : Request) (xs : List ℕ)
      → CanParse state
      → CanParse ctx.state
      → length xs < f
      → length xs + length ys < g
      → length rest + length ys < p
      → run f time state req xs ≡ ok (true, ctx, rest)
      → run p time ctx.state ctx.request (rest ++ ys) ≡ run g time state req (xs ++ ys)
  unfolding run
  run-append zero g p time state req xs c d h k j w = absurd (omega arith)
  run-append (suc f) zero p time state req xs c d h k j w = absurd (omega arith)
  run-append (suc f) (suc g) p time expect_request_line req xs c d h k j w =
      run_request_line-append _ _ _ time req xs
        (λ req' i l q.
          run-append f g p time expect_headers req' (drop (i + 2) xs) tt d
            (omega (arith, length-drop (i + 2) xs)) (omega (arith, length-drop (i + 2) xs)) j q)
        (stays (suc g) p time expect_request_line req xs tt k j) w
  run-append (suc f) (suc g) p time expect_headers req xs c d h k j w =
      run_header-append _ _ _ _ _ req xs
        (λ req' i l q.
          run-append f g p time expect_body req' (drop (i + 2) xs) tt d
            (omega (arith, length-drop (i + 2) xs)) (omega (arith, length-drop (i + 2) xs)) j q)
        (λ req' i l q.
          run-append f g p time expect_headers req' (drop (i + 2) xs) tt d
            (omega (arith, length-drop (i + 2) xs)) (omega (arith, length-drop (i + 2) xs)) j q)
        (stays (suc g) p time expect_headers req xs tt k j) w
  run-append (suc f) (suc g) p time expect_body req xs c d h k j w =
      absurd (run_body-waits req xs d w)
  run-append (suc f) (suc g) p time got_all req xs c d h k j w = elim c [ ]

-- The same answer, the same context and the same bytes left, or the same fault.
abbrev pub SameParse : Parsed Buffer → Parsed Buffer → Type 0
SameParse (ok (g, c, b)) (ok (g', c', b')) = (g ≡ g') × (c ≡ c') × (contents b ≡ contents b')
SameParse (fault e) (fault e') = e ≡ e'
SameParse _ _ = ⊥

Agrees-SameParse :
    (m n : Parsed Buffer) (a : Parsed (List ℕ)) → Agrees m a → Agrees n a → SameParse m n
Agrees-SameParse (ok r) (ok s) (ok t) p q = (p.0 ∙ sym q.0, p.1 ∙ sym q.1, p.2 ∙ sym q.2)
Agrees-SameParse (fault e) (fault f) (fault d) p q = p ∙ sym q
Agrees-SameParse (ok r) _ (fault d) p q = elim p [ ]
Agrees-SameParse (fault e) _ (ok t) p q = elim p [ ]
Agrees-SameParse (ok r) (fault f) (ok t) p q = elim q [ ]
Agrees-SameParse (fault e) (ok s) (fault d) p q = elim q [ ]

Agrees-ok :
    (g : Bool) (c : Context) (b : Buffer) (m : Parsed (List ℕ))
    → Agrees (ok (g, c, b)) m
    → m ≡ ok (g, c, contents b)
Agrees-ok g c b (ok (g', c', xs)) (e, e', e'', r) = cc (e, e', e'')
Agrees-ok g c b (fault f) a = elim a [ ]

parse_request-Agrees :
    (time : ℕ) (ctx : Context) (b : Buffer)
    → IsReady b
    → Agrees
        (parse_request time ctx b)
        (run (readable_bytes b + 1) time ctx.state ctx.request (contents b))
unfolding parse_request
parse_request-Agrees time ctx b r =
    parse_loop-Agrees (readable_bytes b + 1) time ctx.state ctx.request b r

-- A request may arrive in two pieces at any byte, inside a line end too: when the parser answers
-- true on the first piece and is not done, parsing on with the second piece behind what is left
-- gives the answer, the context and the left bytes, or the fault, that parsing both pieces at once
-- gives. The reserved bytes of the buffers are free, and both calls are given the same receive
-- time.
pub parse_request_split :
    (time : ℕ) (ctx ctx' : Context) (first left later whole : Buffer) (ys : List ℕ)
    → IsReady first
    → IsReady later
    → IsReady whole
    → CanParse ctx.state
    → CanParse ctx'.state
    → parse_request time ctx first ≡ ok (true, ctx', left)
    → contents later ≡ contents left ++ ys
    → contents whole ≡ contents first ++ ys
    → SameParse (parse_request time ctx' later) (parse_request time ctx whole)
parse_request_split time ctx ctx' first left later whole ys f l w c c' e p q =
    Agrees-SameParse _ _ _ (rw joined at (parse_request-Agrees time ctx' later l))
      (parse_request-Agrees time ctx whole w)
  where
    waits :
        run (readable_bytes first + 1) time ctx.state ctx.request (contents first)
        ≡ ok (true, ctx', contents left)
    waits = Agrees-ok true ctx' left _ (rw e at (parse_request-Agrees time ctx first f))

    joined :
        run (readable_bytes later + 1) time ctx'.state ctx'.request (contents later)
        ≡ run (readable_bytes whole + 1) time ctx.state ctx.request (contents whole)
    joined =
        rw (p, q)
          (run-append ys ctx' (contents left) (readable_bytes first + 1) (readable_bytes whole + 1)
            (readable_bytes later + 1) time ctx.state ctx.request (contents first) c c'
            (omega (arith, readable_bytes-length first f.valid))
            (omega (
              arith,
              readable_bytes-length whole w.valid,
              ap length q,
              length-append (contents first) ys,
            ))
            (omega (
              arith,
              readable_bytes-length later l.valid,
              ap length p,
              length-append (contents left) ys,
            ))
            waits)
