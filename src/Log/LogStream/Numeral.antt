-- ===== src/Log/LogStream/Numeral.antt =====
-- What the loop of `Convert` and `ConvertHex` in mytinyhttpd/base/log_stream.cc writes, for any base.
use my_tiny_httpd.Prelude.{
  neg, quot, rem, ℕ, zero, suc, ◌+◌, ◌-◌, ◌/◌, ◌%◌, ◌^◌, ◌≤◌, ◌<◌, ◌≡◌, refl, sym, ap, ◌∙◌, Bool,
  true, false, inl, inr, List, [], ◌∷◌, ◌++◌, reverse, append_assoc, Outcome, ok, ◌==◌,
  if◌then◌else◌, length, take, drop, length-append, ℤ, pos, arith, Bool-cases,
}
use mathlib.Core.List.{reverse-append, reverse-cons}
use my_tiny_httpd.Log.FixedBuffer.Over.{over, copy_to-over, take-parts, slice-parts, drop-parts}
use my_tiny_httpd.Log.LogStream.{is_zero, write_digits, reverse_range, end_digits}

-- The digits of a number, at most as many as the fuel, the first digit first.
pub numeral : ℕ → (ℕ → ℕ) → ℕ → ℕ → List ℕ
numeral base face zero n = []
numeral base face (suc fuel) n =
    let rest = numeral base face fuel (n / base) in
    (if n / base == 0 then [] else rest) ++ (face (n % base) ∷ [])

-- An integer by its sign and size.
abbrev pub signed : Bool → ℕ → ℤ
signed false n = pos n
signed true n = neg n

-- What the loop relies on of its base and its table of digits.
pub record IsBase (base : ℕ) (face : ℕ → ℕ) (sign : Bool) (at : ℤ → Outcome ℕ) : Type 0 where
  pub at_rem : (n : ℕ) → at (rem base (signed sign n)) ≡ ok (face (n % base))
  pub quot_lem : (n : ℕ) → quot base (signed sign n) ≡ signed sign (n / base)
  pub shrinks : (k n : ℕ) → n < base ^ suc k → n / base < base ^ k
  pub one_digit : (n : ℕ) → n < base ^ 1 → n / base ≡ 0

is_zero-signed : (sign : Bool) (n : ℕ) → is_zero (signed sign n) ≡ (n == 0)
is_zero-signed false n = refl
is_zero-signed true zero = refl
is_zero-signed true (suc n) = ground arith

module _ {base : ℕ} {face : ℕ → ℕ} {sign : Bool} {at : ℤ → Outcome ℕ}
    (b : IsBase base face sign at) where
  pub length-numeral : (fuel k n : ℕ) → n < base ^ suc k → length (numeral base face fuel n) ≤ suc k
  unfolding numeral
  length-numeral zero k n h = omega arith
  length-numeral (suc fuel) zero n h = rw (b.one_digit n h) (omega arith)
  length-numeral (suc fuel) (suc k) n h = elim (Bool-cases (n / base == 0)) [
    | inl e ↦ rw e (omega arith)
    | inr e ↦ rw e (
        omega (
          arith,
          length-numeral fuel k (n / base) (b.shrinks (suc k) n h),
          length-append (numeral base face fuel (n / base)) (face (n % base) ∷ []),
        ))
  ]

  pub numeral_step :
      (fuel n : ℕ)
      → numeral base face (suc fuel) n
        ≡ (if n / base == 0 then [] else numeral base face fuel (n / base))
          ++ (face (n % base) ∷ [])
  unfolding numeral
  numeral_step fuel n = refl

  length_lem : (fuel n : ℕ) → 0 < length (numeral base face (suc fuel) n)
  length_lem fuel n = rw (numeral_step fuel n) (
      omega (
        arith,
        length-append (if n / base == 0 then [] else numeral base face fuel (n / base))
            (face (n % base) ∷ []),
      ))

  module _ (memory : List ℕ) (i : ℕ) where
    -- The digits written so far, and where the next one goes.
    abbrev at_end : List ℕ → List ℕ × ℕ
    at_end bytes = (over memory i bytes, i + length bytes)

    write_step :
        (fuel n : ℕ) (bytes : List ℕ)
        → i + length bytes < length memory
        → write_digits base at (suc fuel) (signed sign n) (over memory i bytes) (i + length bytes)
          ≡ (if n / base == 0
              then ok (at_end (bytes ++ (face (n % base) ∷ [])))
              else write_digits base at fuel
                  (signed sign (n / base))
                  (over memory i (bytes ++ (face (n % base) ∷ [])))
                  (i + length (bytes ++ (face (n % base) ∷ []))))
    unfolding write_digits
    write_step fuel n bytes room =
        let next : i + length bytes + 1 ≡ i + length (bytes ++ (face (n % base) ∷ [])) =
          omega (arith, length-append bytes (face (n % base) ∷ [])) in
        rw (
          b.at_rem n,
          copy_to-over memory i bytes (omega arith) (face (n % base) ∷ []) (omega arith),
          b.quot_lem n,
          is_zero-signed sign (n / base),
          next,
        )

    pub write_digits-numeral :
        (k n : ℕ) (bytes : List ℕ)
        → n < base ^ suc k
        → i + length bytes + length (numeral base face (suc k) n) ≤ length memory
        → write_digits base at (suc k) (signed sign n) (over memory i bytes) (i + length bytes)
          ≡ ok (at_end (bytes ++ reverse (numeral base face (suc k) n)))
    write_digits-numeral zero n bytes h room = rw (
      write_step zero n bytes (omega (arith, length_lem zero n)),
      numeral_step zero n,
      b.one_digit n h,
    )
    write_digits-numeral (suc k) n bytes h room = elim (Bool-cases (n / base == 0)) [
      | inl e ↦ rw (
        write_step (suc k) n bytes (omega (arith, length_lem (suc k) n)),
        numeral_step (suc k) n,
        e,
      )
      | inr e ↦
          let c : List ℕ = face (n % base) ∷ [] in
          let ds : List ℕ = numeral base face (suc k) (n / base) in
          let printed : numeral base face (suc (suc k)) n ≡ ds ++ c =
            rw (numeral_step (suc k) n, e) in
          let turned : (bytes ++ c) ++ reverse ds ≡ bytes ++ reverse (ds ++ c) =
            append_assoc bytes c (reverse ds) ∙ ap (λ l. bytes ++ l) (sym (reverse-append ds c)) in
          rw (write_step (suc k) n bytes (omega (arith, length_lem (suc k) n)), e, printed)
            (write_digits-numeral k (n / base) (bytes ++ c) (b.shrinks (suc k) n h)
                (omega (arith, ap length printed, length-append ds c, length-append bytes c))
              ∙ ap (λ l. ok (at_end l)) turned)
    ]

pub length-reverse : (xs : List ℕ) → length (reverse xs) ≡ length xs
length-reverse [] = refl
length-reverse (x ∷ xs) =
    rw (reverse-cons x xs) (omega (arith, length-append (reverse xs) (x ∷ []), length-reverse xs))

module _ (memory : List ℕ) (i : ℕ) (bytes : List ℕ) (h : i + length bytes < length memory) where
  rest : List ℕ
  rest = 0 ∷ drop (i + length (bytes ++ (0 ∷ []))) memory

  turn :
      reverse_range i (i + length bytes) (over memory i (bytes ++ (0 ∷ [])))
      ≡ over memory i (reverse bytes ++ (0 ∷ []))
  unfolding rest
  turn =
      rw
        (
          append_assoc bytes (0 ∷ []) (drop (i + length (bytes ++ (0 ∷ []))) memory),
          take-parts memory i bytes rest (omega arith),
          slice-parts memory i bytes rest (omega arith),
          drop-parts memory i bytes rest (omega arith),
          append_assoc (reverse bytes) (0 ∷ [])
              (drop (i + length (reverse bytes ++ (0 ∷ []))) memory),
        )
        (ap (λ n. take i memory ++ (reverse bytes ++ (0 ∷ drop n memory)))
          (omega (
            arith,
            length-append bytes (0 ∷ []),
            length-append (reverse bytes) (0 ∷ []),
            length-reverse bytes,
          )))

  pub end_digits-over :
      end_digits i (over memory i bytes) (i + length bytes)
      ≡ ok (over memory i (reverse bytes ++ (0 ∷ [])), length bytes)
  unfolding end_digits
  end_digits-over =
      let len : i + length bytes - i ≡ length bytes = omega arith in
      rw (copy_to-over memory i bytes (omega arith) (0 ∷ []) (omega arith), turn, len)
