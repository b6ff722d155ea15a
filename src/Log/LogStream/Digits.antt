-- ===== src/Log/LogStream/Digits.antt =====
-- `Convert` and `ConvertHex` of mytinyhttpd/base/log_stream.cc: the digits that they print.
use my_tiny_httpd.Prelude.{
  quot, rem, ℕ, zero, suc, ◌+◌, ◌-◌, ◌*◌, ◌/◌, ◌%◌, ◌^◌, ◌≤◌, ◌<◌, ◌≡◌, refl, sym, ap, ap₂, ◌∙◌,
  Bool, true, false, List, [], ◌∷◌, ◌++◌, reverse, Outcome, ok, fault, ◌==◌, ltb, if◌then◌else◌,
  length, length-append, ℤ, pos, negsuc, arith, ◌&&◌,
}
use mathlib.Core.List.{reverse-append, reverse-reverse}
use native.Mathlib.Numerals.{unary_clauses}
use my_tiny_httpd.Log.FixedBuffer.Over.{over, over-nil, copy_to-over}
use my_tiny_httpd.Log.LogStream.{zero_at, hex_at, write_digits, convert, convert_hex}
use my_tiny_httpd.Log.LogStream.Numeral.{
  numeral, signed, IsBase, length-numeral, write_digits-numeral, end_digits-over, length-reverse,
}

-- The characters of a decimal and of a hexadecimal digit.
abbrev pub decimal_face : ℕ → ℕ
decimal_face d = b'0' + d

abbrev pub hex_face : ℕ → ℕ
hex_face d = if ltb d 10 then b'0' + d else b'A' + (d - 10)

pow10_suc : (k : ℕ) → 10 ^ suc k ≡ 10 * 10 ^ k
pow10_suc k = simp unary_clauses (omega arith)

pow16_suc : (k : ℕ) → 16 ^ suc k ≡ 16 * 16 ^ k
pow16_suc k = simp unary_clauses (omega arith)

gives : ℕ → Outcome ℕ → Bool
gives c (ok d) = d == c
gives c (fault e) = false

gives→eq : (c : ℕ) (o : Outcome ℕ) → gives c o ≡ true → o ≡ ok c
unfolding gives
gives→eq c (ok d) h = ground arith
gives→eq c (fault e) h = cc

all_below : ℕ → (ℕ → Bool) → Bool
all_below zero p = true
all_below (suc n) p = p n && all_below n p

all_below_sound : (n : ℕ) (p : ℕ → Bool) (d : ℕ) → all_below n p ≡ true → d < n → p d ≡ true
unfolding all_below
all_below_sound zero p d h lt = absurd (omega arith)
all_below_sound (suc n) p d h lt = ground (arith, all_below_sound n p d)

-- Each entry of the two tables.
zero_table :
    (sign : Bool) → all_below 10 (λ d. gives (decimal_face d) (zero_at (signed sign d))) ≡ true
unfolding all_below gives zero_at
zero_table true = refl
zero_table false = refl

hex_table : all_below 16 (λ d. gives (hex_face d) (hex_at (pos d))) ≡ true
unfolding all_below gives hex_at
hex_table = refl

zero_at-signed : (sign : Bool) (d : ℕ) → d < 10 → zero_at (signed sign d) ≡ ok (decimal_face d)
zero_at-signed sign d h = gives→eq (decimal_face d) (zero_at (signed sign d)) (
    all_below_sound 10 (λ e. gives (decimal_face e) (zero_at (signed sign e))) d (zero_table sign)
      h)

hex_at-pos : (d : ℕ) → d < 16 → hex_at (pos d) ≡ ok (hex_face d)
hex_at-pos d h =
    gives→eq (hex_face d) (hex_at (pos d))
      (all_below_sound 16 (λ e. gives (hex_face e) (hex_at (pos e))) d hex_table h)

rem-signed : (sign : Bool) (n : ℕ) → rem 10 (signed sign n) ≡ signed sign (n % 10)
rem-signed false n = refl
rem-signed true zero = refl
rem-signed true (suc n) = refl

quot-signed : (sign : Bool) (n : ℕ) → quot 10 (signed sign n) ≡ signed sign (n / 10)
quot-signed false n = refl
quot-signed true zero = refl
quot-signed true (suc n) = refl

pub decimal-IsBase : (sign : Bool) → IsBase 10 decimal_face sign zero_at
decimal-IsBase sign = record {
  at_rem = λ n. rw (rem-signed sign n) (zero_at-signed sign (n % 10) (omega arith));
  quot_lem = quot-signed sign;
  shrinks = λ k n h. omega (arith, h, pow10_suc k);
  one_digit = λ n h. omega (arith, h);
}

pub hex-IsBase : IsBase 16 hex_face false hex_at
hex-IsBase = record {
  at_rem = λ n. hex_at-pos (n % 16) (omega arith);
  quot_lem = λ n. refl;
  shrinks = λ k n h. omega (arith, h, pow16_suc k);
  one_digit = λ n h. omega (arith, h);
}

abbrev pub decimal_numeral : ℕ → List ℕ
decimal_numeral n = numeral 10 decimal_face 64 n

-- An integer to base 10, and an address to base 16.
abbrev pub integer_text : ℤ → List ℕ
integer_text (pos n) = decimal_numeral n
integer_text (negsuc n) = b'-' ∷ decimal_numeral (suc n)

abbrev pub hex_text : ℕ → List ℕ
hex_text n = numeral 16 hex_face 64 n

-- The integers of 64 bits, signed or unsigned.
abbrev pub IsWord : ℤ → Type 0
IsWord (pos n) = n < 2 ^ 64
IsWord (negsuc n) = n < 2 ^ 63

pub length-decimal_numeral : (n : ℕ) → n < 2 ^ 64 → length (decimal_numeral n) ≤ 20
length-decimal_numeral n h = length-numeral (decimal-IsBase false) 64 19 n (omega arith)

pub length-hex_text : (n : ℕ) → n < 2 ^ 64 → length (hex_text n) ≤ 16
length-hex_text n h = length-numeral hex-IsBase 64 15 n (omega arith)

pub length-integer_text : (v : ℤ) → IsWord v → length (integer_text v) ≤ 21
length-integer_text (pos n) h = omega (arith, length-decimal_numeral n h)
length-integer_text (negsuc n) h = omega (arith, length-decimal_numeral (suc n) (omega arith))

-- The digits alone, the last one first.
module _ {base : ℕ} {face : ℕ → ℕ} {sign : Bool} {at : ℤ → Outcome ℕ}
    (b : IsBase base face sign at) where
  digits_written :
      (memory : List ℕ) (i n : ℕ)
      → n < base ^ 64
      → i + length (numeral base face 64 n) ≤ length memory
      → write_digits base at 64 (signed sign n) memory i
        ≡ ok (
          over memory i (reverse (numeral base face 64 n)),
          i + length (reverse (numeral base face 64 n)),
        )
  digits_written memory i n h room =
      let at_start : i ≡ i + 0 = omega arith in
      ap₂ (write_digits base at 64 (signed sign n)) (sym (over-nil memory i)) at_start
      ∙ write_digits-numeral b memory i 63 n [] h (omega arith)

-- The conversion writes the text and a zero, and nothing else.
pub convert-integer_text :
    (memory : List ℕ) (i : ℕ) (v : ℤ)
    → IsWord v
    → i + 22 ≤ length memory
    → convert i v memory ≡ ok (over memory i (integer_text v ++ (0 ∷ [])), length (integer_text v))
unfolding convert
convert-integer_text memory i (pos n) h room =
    let ds : List ℕ = decimal_numeral n in
    let short = length-decimal_numeral n h in
    let len = length-reverse ds in
    rw (
      digits_written (decimal-IsBase false) memory i n (omega arith) (omega arith),
      end_digits-over memory i (reverse ds) (omega arith),
      reverse-reverse ds,
      len,
    )
convert-integer_text memory i (negsuc n) h room =
    let ds : List ℕ = decimal_numeral (suc n) in
    let short = length-decimal_numeral (suc n) (omega arith) in
    let len = length-reverse ds in
    let signed_len : length (reverse ds ++ (b'-' ∷ [])) ≡ suc (length ds) =
      omega (arith, length-append (reverse ds) (b'-' ∷ [])) in
    let next : i + length (reverse ds) + 1 ≡ i + length (reverse ds ++ (b'-' ∷ [])) = omega arith in
    let turned : reverse (reverse ds ++ (b'-' ∷ [])) ≡ b'-' ∷ ds =
      reverse-append (reverse ds) (b'-' ∷ []) ∙ ap (λ l. b'-' ∷ l) (reverse-reverse ds) in
    rw (
      digits_written (decimal-IsBase true) memory i (suc n) (omega arith) (omega arith),
      copy_to-over memory i (reverse ds) (omega arith) (b'-' ∷ []) (omega arith),
      next,
      end_digits-over memory i (reverse ds ++ (b'-' ∷ [])) (omega arith),
      turned,
      signed_len,
    )

pub convert_hex-hex_text :
    (memory : List ℕ) (i n : ℕ)
    → n < 2 ^ 64
    → i + 17 ≤ length memory
    → convert_hex i n memory ≡ ok (over memory i (hex_text n ++ (0 ∷ [])), length (hex_text n))
unfolding convert_hex
convert_hex-hex_text memory i n h room =
    let ds : List ℕ = hex_text n in
    let short = length-hex_text n h in
    let len = length-reverse ds in
    rw (
      digits_written hex-IsBase memory i n (omega arith) (omega arith),
      end_digits-over memory i (reverse ds) (omega arith),
      reverse-reverse ds,
      len,
    )
