-- ===== src/Http/Response/Digits.antt =====
-- The numbers in a response: `%d` and `%zd` of mytinyhttpd/http/http_response.cc.
use native.Mathlib.Numerals.{unary_clauses}
use my_tiny_httpd.Prelude.{
  ℕ, zero, suc, ◌+◌, ◌-◌, ◌*◌, ◌/◌, ◌%◌, ◌^◌, ◌≤◌, ◌<◌, ◌≡◌, refl, ap, ◌∙◌, true, false, inl, inr,
  List, [], ◌∷◌, ◌++◌, ltb, ◌==◌, lt→leb, clamp_pos, sym, append-nil, append_assoc, ltb→lt, lt→ltb,
  le→leb, length, length-append, take-all, codes, arith, Bool-cases, digits_value, pos, strtol,
}
use my_tiny_httpd.Http.Response.{digits, decimal, decimal_size, printed, crlf}

gt→== : (a b : ℕ) → b < a → (a == b) ≡ false
gt→== a b h = ground arith

pow_suc : (k : ℕ) → 10 ^ suc k ≡ 10 * 10 ^ k
pow_suc k = simp unary_clauses (omega arith)

-- A number below 10 ^ (k + 1) has at most k + 1 digits.
pub length-digits : (fuel k n : ℕ) → n < 10 ^ suc k → length (digits fuel n) ≤ suc k
unfolding digits
length-digits zero k n h = omega arith
length-digits (suc fuel) zero n h = rw (digits, lt→ltb n 10 h) (omega arith)
length-digits (suc fuel) (suc k) n h = elim (Bool-cases (ltb n 10)) [
  | inl e ↦ rw (digits, e) (omega arith)
  | inr e ↦
      rw (digits, e)
        (omega (
          arith,
          length-digits fuel k (n / 10) (omega (arith, pow_suc (suc k))),
          length-append (digits fuel (n / 10)) ((48 + n % 10) ∷ []),
        ))
]

pub status_code_printed :
    (code : ℕ)
    → code < 1000
    → printed (codes "HTTP/1.1 " ++ (decimal code ++ codes " "))
      ≡ codes "HTTP/1.1 " ++ (decimal code ++ codes " ")
unfolding decimal
status_code_printed code h =
    take-all 31 (codes "HTTP/1.1 " ++ (decimal code ++ codes " "))
      (omega (arith, length-digits (suc code) 2 code h, length-append (decimal code) (codes " ")))

-- The line for a length that has at most thirteen digits is not cut.
pub content_length_printed :
    (len : ℕ)
    → len < 10 ^ 13
    → printed (codes "Content-Length: " ++ (decimal_size len ++ crlf))
      ≡ codes "Content-Length: " ++ (decimal len ++ crlf)
unfolding decimal decimal_size
content_length_printed len h = rw (lt→ltb len (2 ^ 63) (omega arith)) (
    take-all 31 (codes "Content-Length: " ++ (decimal len ++ crlf))
      (omega (arith, length-digits (suc len) 12 len h, length-append (decimal len) crlf)))

digit_step :
    (acc d : ℕ) (rest : List ℕ)
    → d < 10
    → digits_value acc ((48 + d) ∷ rest) ≡ digits_value (acc * 10 + d) rest
unfolding digits_value
digit_step acc d rest h =
    let same : acc * 10 + (48 + d - 48) ≡ acc * 10 + d = omega arith in
    rw (le→leb 48 (48 + d) (omega arith), le→leb (48 + d) 57 (omega arith), same)

-- Reading digits goes on where the first ones end.
digits_value-digits :
    (fuel n : ℕ) (rest : List ℕ)
    → n < fuel
    → digits_value 0 (digits fuel n ++ rest) ≡ digits_value n rest
unfolding digits
digits_value-digits zero n rest h = absurd (omega arith)
digits_value-digits (suc fuel) n rest h = elim (Bool-cases (ltb n 10)) [
  | inl e ↦
      rw (digits, e)
        (digit_step 0 n rest (ltb→lt n 10 e) ∙ ap (λ k. digits_value k rest) (omega arith))
  | inr e ↦
      let whole : n / 10 * 10 + n % 10 ≡ n = omega arith in
      rw (digits, e, append_assoc (digits fuel (n / 10)) ((48 + n % 10) ∷ []) rest)
        (digits_value-digits fuel (n / 10) ((48 + n % 10) ∷ rest) (smaller e)
          ∙ digit_step (n / 10) (n % 10) rest (omega arith)
          ∙ ap (λ k. digits_value k rest) whole)
]
  where
    smaller : ltb n 10 ≡ false → n / 10 < fuel
    smaller e = ground arith

-- A number is printed with a digit in front.
digits-head :
    (fuel n : ℕ)
    → n < fuel
    → (c : ℕ) × (cs : List ℕ) × (digits fuel n ≡ c ∷ cs) × (48 ≤ c) × (c ≤ 57)
unfolding digits
digits-head zero n h = absurd (omega arith)
digits-head (suc fuel) n h = elim (Bool-cases (ltb n 10)) [
  | inl e ↦ (48 + n, [], rw (digits, e), omega arith, small e)
  | inr e ↦
      let (c, cs, f, l, u) = digits-head fuel (n / 10) (smaller e) in
      (c, cs ++ ((48 + n % 10) ∷ []), rw (digits, e, f), l, u)
]
  where
    smaller : ltb n 10 ≡ false → n / 10 < fuel
    smaller e = ground arith

    small : ltb n 10 ≡ true → 48 + n ≤ 57
    small e = ground arith

strtol-digit :
    (c : ℕ) (cs : List ℕ) → 48 ≤ c → c ≤ 57 → strtol (c ∷ cs) ≡ clamp_pos (digits_value 0 (c ∷ cs))
unfolding strtol
strtol-digit c cs l u = rw (
  gt→== c 32 (omega arith),
  gt→== c 45 (omega arith),
  gt→== c 43 (omega arith),
  lt→leb c 13 (omega arith),
  le→leb 9 c (omega arith),
)

pub digits_value-decimal : (n : ℕ) → digits_value 0 (decimal n) ≡ n
unfolding decimal digits_value
digits_value-decimal n =
    ap (digits_value 0) (sym (append-nil (digits (suc n) n)))
    ∙ digits_value-digits (suc n) n [] (omega arith)
    ∙ nothing n
  where
    nothing : (n : ℕ) → digits_value n [] ≡ n
    nothing n = refl

pub strtol-decimal : (n : ℕ) → n < 2 ^ 63 → strtol (decimal n) ≡ pos n
unfolding decimal
strtol-decimal n h =
    let (c, cs, e, l, u) = digits-head (suc n) n (omega arith) in
    let value : digits_value 0 (c ∷ cs) ≡ n =
      ap (digits_value 0) (sym e) ∙ digits_value-decimal n in
    rw (e, strtol-digit c cs l u, value, lt→ltb n (2 ^ 63) h)
