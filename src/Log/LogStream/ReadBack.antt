-- ===== src/Log/LogStream/ReadBack.antt =====
-- An integer that `Convert` of mytinyhttpd/base/log_stream.cc has printed, read back.
use my_tiny_httpd.Prelude.{
  ℕ, zero, suc, ◌+◌, ◌/◌, ◌%◌, ◌^◌, ◌≤◌, ◌<◌, ◌≡◌, refl, ap, ◌∙◌, true, false, inl, inr, List, [],
  ◌∷◌, ◌++◌, append_assoc, ◌==◌, ltb, if◌then◌else◌, length, take, drop, le→leb, lt→ltb, ltb→lt, ℤ,
  pos, negsuc, strtol, digits_value, Returns, arith, Bool-cases, clamp_neg,
}
use my_tiny_httpd.Net.Buffer.{slice}
use my_tiny_httpd.Http.Response.{digits, decimal}
use my_tiny_httpd.Http.Response.Digits.{strtol-decimal, digits_value-decimal}
use my_tiny_httpd.Log.FixedBuffer.Over.{slice-parts}
use my_tiny_httpd.Log.LogStream.{convert}
use my_tiny_httpd.Log.LogStream.Numeral.{numeral, numeral_step}
use my_tiny_httpd.Log.LogStream.Digits.{
  decimal_face, decimal_numeral, integer_text, IsWord, decimal-IsBase, convert-integer_text,
}

digits_step :
    (fuel n : ℕ)
    → digits (suc fuel) n
      ≡ (if ltb n 10 then (48 + n) ∷ [] else digits fuel (n / 10) ++ ((48 + n % 10) ∷ []))
unfolding digits
digits_step fuel n = refl

numeral_next :
    (k n : ℕ)
    → numeral 10 decimal_face (suc k) n
      ≡ (if n / 10 == 0 then [] else numeral 10 decimal_face k (n / 10)) ++ ((48 + n % 10) ∷ [])
numeral_next = numeral_step (decimal-IsBase false)

one : (n : ℕ) → n < 10 → ((n / 10 == 0) ≡ true) × (n % 10 ≡ n)
one n h = ground arith

several : (n : ℕ) → ltb n 10 ≡ false → (n / 10 == 0) ≡ false
several n h = ground arith

-- The digits do not depend on how much fuel there is.
numeral-digits :
    (k fuel n : ℕ) → n < 10 ^ suc k → n < fuel → numeral 10 decimal_face (suc k) n ≡ digits fuel n
numeral-digits k zero n h f = absurd (omega arith)
numeral-digits zero (suc fuel) n h f =
    let (single, last) = one n (omega arith) in
    rw (digits_step fuel n, numeral_next 0 n, lt→ltb n 10 (omega arith), single, last)
numeral-digits (suc k) (suc fuel) n h f = elim (Bool-cases (ltb n 10)) [
  | inl e ↦
      let (single, last) = one n (ltb→lt n 10 e) in
      rw (digits_step fuel n, numeral_next (suc k) n, e, single, last)
  | inr e ↦
      rw (digits_step fuel n, numeral_next (suc k) n, e, several n e)
        (ap (λ l. l ++ ((48 + n % 10) ∷ []))
          (numeral-digits k fuel (n / 10) ((decimal-IsBase false).shrinks (suc k) n h) (smaller e)))
]
  where
    smaller : ltb n 10 ≡ false → n / 10 < fuel
    smaller e = ground arith

decimal_numeral-decimal : (n : ℕ) → n < 2 ^ 64 → decimal_numeral n ≡ decimal n
unfolding decimal
decimal_numeral-decimal n h = numeral-digits 63 (suc n) n (omega arith) (omega arith)

-- A `long`.
abbrev pub IsLong : ℤ → Type 0
IsLong (pos n) = n < 2 ^ 63
IsLong (negsuc n) = n < 2 ^ 63

IsLong-IsWord : (v : ℤ) → IsLong v → IsWord v
IsLong-IsWord (pos n) h = omega arith
IsLong-IsWord (negsuc n) h = h

minus_sign : (cs : List ℕ) → strtol (b'-' ∷ cs) ≡ clamp_neg (digits_value 0 cs)
unfolding strtol
minus_sign cs = refl

strtol-integer_text : (v : ℤ) → IsLong v → strtol (integer_text v) ≡ v
strtol-integer_text (pos n) h =
    ap strtol (decimal_numeral-decimal n (omega arith)) ∙ strtol-decimal n h
strtol-integer_text (negsuc n) h =
    let value : digits_value 0 (decimal_numeral (suc n)) ≡ suc n =
      ap (digits_value 0) (decimal_numeral-decimal (suc n) (omega arith))
      ∙ digits_value-decimal (suc n) in
    rw (minus_sign (decimal_numeral (suc n)), value, le→leb (suc n) (2 ^ 63) (omega arith))
      (ground arith)

-- What `Convert` leaves in memory of any `long`, the least one included, is text that `strtol`
-- reads back as this `long`, if 22 bytes are there.
pub strtol-convert :
    (memory : List ℕ) (i : ℕ) (v : ℤ)
    → IsLong v
    → i + 22 ≤ length memory
    → Returns (λ r. strtol (slice r.0 i (i + r.1)) ≡ v) (convert i v memory)
strtol-convert memory i v h room = rw (convert-integer_text memory i v (IsLong-IsWord v h) room) (
    ap (λ l. strtol (slice l i (i + length (integer_text v))))
      (ap (λ l. take i memory ++ l)
        (append_assoc (integer_text v) (0 ∷ [])
          (drop (i + length (integer_text v ++ (0 ∷ []))) memory)))
    ∙ ap strtol (
        slice-parts memory i (integer_text v)
          (0 ∷ drop (i + length (integer_text v ++ (0 ∷ []))) memory) (omega arith))
    ∙ strtol-integer_text v h)
