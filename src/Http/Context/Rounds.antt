-- ===== src/Http/Context/Rounds.antt =====
-- When the number of rounds of the parser in mytinyhttpd/http/http_context.cc does not matter.
use my_tiny_httpd.Prelude.{
  ℕ, zero, suc, ◌+◌, ◌≤◌, ◌<◌, ◌≡◌, refl, ap, ap₂, false, inl, inr, List, [], ◌∷◌, ◌++◌, some,
  Outcome, ok, fault, ◌>>=◌, ◌==◌, if◌then◌else◌, length, take, drop, length-drop, take-append_le,
  drop-append_le, find, arith, Option-cases,
}
use my_tiny_httpd.Http.Request.{Request, set_receive_time, add_header}
use my_tiny_httpd.Http.Context.{
  State, expect_request_line, expect_headers, expect_body, got_all, process_request_line, find_crlf,
}
use my_tiny_httpd.Http.Context.Bytes.{Parsed, run_request_line, run_header, run, find_crlf-le}
use my_tiny_httpd.Http.Context.Fuel.{CanParse}

bind_cong {ℓ κ} :
    {A : Type ℓ} {B : Type κ} (o : Outcome A) (f g : A → Outcome B)
    → ((a : A) → f a ≡ g a)
    → (o >>= f) ≡ (o >>= g)
bind_cong (ok a) f g h = h a
bind_cong (fault e) f g h = refl

-- What follows a line end, for the two ways to go on behind it.
abbrev Same :
    (Request → List ℕ → Parsed (List ℕ)) → (Request → List ℕ → Parsed (List ℕ)) → List ℕ → Type 0
Same k k' xs =
    (req : Request) (i : ℕ) → i + 2 ≤ length xs → k req (drop (i + 2) xs) ≡ k' req (drop (i + 2) xs)

run_request_line_cong :
    (k k' : Request → List ℕ → Parsed (List ℕ)) (time : ℕ) (req : Request) (xs : List ℕ)
    → Same k k' xs
    → run_request_line k time req xs ≡ run_request_line k' time req xs
unfolding run_request_line
run_request_line_cong k k' time req xs s = elim (Option-cases (find_crlf xs)) [
  | inl e ↦ rw (e, run_request_line)
  | inr (i, e) ↦
      rw (e, run_request_line)
        (bind_cong (process_request_line (take i xs) req) _ _ (λ (good, req').
          ap
            (λ m.
              if good
              then m
              else ok (false, record { state = expect_request_line; request = req' }, xs))
            (s (set_receive_time time req') i (find_crlf-le xs i e))))
]

run_header_cong :
    (l l' k k' : Request → List ℕ → Parsed (List ℕ)) (req : Request) (xs : List ℕ)
    → Same l l' xs
    → Same k k' xs
    → run_header l k req xs ≡ run_header l' k' req xs
unfolding run_header
run_header_cong l l' k k' req xs s t = elim (Option-cases (find_crlf xs)) [
  | inl e ↦ rw (e, run_header)
  | inr (i, e) ↦
      rw (e, run_header)
        (ap₂ (λ m n. if find 58 (take i xs) == length (take i xs) then m else n)
          (s req i (find_crlf-le xs i e))
          (t (add_header (take i xs) (find 58 (take i xs)) req) i (find_crlf-le xs i e)))
]

-- With enough rounds the number of rounds does not matter.
pub run_enough :
    (f g time : ℕ) (state : State) (req : Request) (xs : List ℕ)
    → CanParse state
    → length xs < f
    → length xs < g
    → run f time state req xs ≡ run g time state req xs
unfolding run
run_enough zero g time state req xs c h k = absurd (omega arith)
run_enough (suc f) zero time state req xs c h k = absurd (omega arith)
run_enough (suc f) (suc g) time expect_request_line req xs c h k =
    run_request_line_cong _ _ time req xs (λ req' i l.
      run_enough f g time expect_headers req' (drop (i + 2) xs) tt
        (omega (arith, length-drop (i + 2) xs)) (omega (arith, length-drop (i + 2) xs)))
run_enough (suc f) (suc g) time expect_headers req xs c h k =
    run_header_cong _ _ _ _ req xs
      (λ req' i l.
        run_enough f g time expect_body req' (drop (i + 2) xs) tt
          (omega (arith, length-drop (i + 2) xs)) (omega (arith, length-drop (i + 2) xs)))
      (λ req' i l.
        run_enough f g time expect_headers req' (drop (i + 2) xs) tt
          (omega (arith, length-drop (i + 2) xs)) (omega (arith, length-drop (i + 2) xs)))
run_enough (suc f) (suc g) time expect_body req xs c h k = refl
run_enough (suc f) (suc g) time got_all req xs c h k = elim c [ ]

pub find_crlf-append :
    (xs ys : List ℕ) (i : ℕ) → find_crlf xs ≡ some i → find_crlf (xs ++ ys) ≡ some i
unfolding find_crlf
find_crlf-append [] ys i h = cc
find_crlf-append (c ∷ []) ys i h = ground arith
find_crlf-append (c ∷ d ∷ cs) ys i h = elim (Option-cases (find_crlf (d ∷ cs))) [
  | inl e ↦ ground (arith, e)
  | inr (k, e) ↦ ground (arith, e, find_crlf-append (d ∷ cs) ys k e)
]

-- The bytes of the first line and what is behind it, with more bytes at the end.
pub line_of :
    (xs ys : List ℕ) (i : ℕ)
    → find_crlf xs ≡ some i
    → (find_crlf (xs ++ ys) ≡ some i)
      × (take i (xs ++ ys) ≡ take i xs)
      × (drop (i + 2) (xs ++ ys) ≡ drop (i + 2) xs ++ ys)
line_of xs ys i e =
    let l = find_crlf-le xs i e in
    (
      find_crlf-append xs ys i e,
      take-append_le i xs ys (omega arith),
      drop-append_le (i + 2) xs ys l,
    )
