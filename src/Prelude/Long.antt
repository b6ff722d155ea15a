-- ===== src/Prelude/Long.antt =====
-- Signed integers, `long`, and `strtol` to base 10.
use Prim.Native.Nat.{ℕ, zero, suc, ◌+◌, ◌-◌, ◌*◌, ◌/◌, ◌%◌, ◌^◌, ◌≤◌}
use mathlib.Core.Bool.{Bool, ◌&&◌}
use mathlib.Core.List.{List, [], ◌∷◌}
use my_tiny_httpd.Prelude.Tests.{◌==◌, leb, ltb, if◌then◌else◌}
use my_tiny_httpd.Prelude.Scan.{is_space}

-- `negsuc n` is -(n + 1).
pub data ℤ : Type 0 where
  pos : ℕ → ℤ
  negsuc : ℕ → ℤ

abbrev pub neg : ℕ → ℤ
neg zero = pos 0
neg (suc n) = negsuc n

-- Division and remainder, towards zero.
abbrev pub quot : ℕ → ℤ → ℤ
quot base (pos n) = pos (n / base)
quot base (negsuc n) = neg (suc n / base)

abbrev pub rem : ℕ → ℤ → ℤ
rem base (pos n) = pos (n % base)
rem base (negsuc n) = neg (suc n % base)

abbrev pub pos_part : ℤ → ℕ
pos_part (pos n) = n
pos_part (negsuc n) = 0

abbrev pub neg_part : ℤ → ℕ
neg_part (pos n) = 0
neg_part (negsuc n) = suc n

-- a - b, as an integer.
abbrev pub sub_ℕ : ℕ → ℕ → ℤ
sub_ℕ a b = if leb b a then pos (a - b) else negsuc (b - a - 1)

infixl 65 ◌+ℤ◌ ◌-ℤ◌
abbrev pub ◌+ℤ◌ : ℤ → ℤ → ℤ
a +ℤ b = sub_ℕ (pos_part a + pos_part b) (neg_part a + neg_part b)

abbrev pub ◌-ℤ◌ : ℤ → ℤ → ℤ
a -ℤ b = sub_ℕ (pos_part a + neg_part b) (neg_part a + pos_part b)

-- A multiple by a number.
abbrev pub times : ℤ → ℕ → ℤ
times (pos n) k = pos (n * k)
times (negsuc n) k = neg (suc n * k)

abbrev pub lt_ℤ : ℤ → ℤ → Bool
lt_ℤ a b = ltb (pos_part a + neg_part b) (pos_part b + neg_part a)

abbrev pub eq_ℤ : ℤ → ℤ → Bool
eq_ℤ a b = pos_part a + neg_part b == pos_part b + neg_part a

infix 50 ◌≤ℤ◌
abbrev pub ◌≤ℤ◌ : ℤ → ℤ → Type 0
a ≤ℤ b = pos_part a + neg_part b ≤ pos_part b + neg_part a

-- The value of the digits in front.
unfoldable pub digits_value : ℕ → List ℕ → ℕ
digits_value acc [] = acc
digits_value acc (c ∷ cs) =
    let rest = digits_value (acc * 10 + (c - 48)) cs in if leb 48 c && leb c 57 then rest else acc

-- Values outside the type are cut to its ends.
abbrev pub clamp_pos : ℕ → ℤ
clamp_pos n = if ltb n (2 ^ 63) then pos n else pos (2 ^ 63 - 1)

abbrev pub clamp_neg : ℕ → ℤ
clamp_neg n =
    if n == 0 then pos 0 else (if leb n (2 ^ 63) then negsuc (n - 1) else negsuc (2 ^ 63 - 1))

unfoldable pub strtol : List ℕ → ℤ
unfolding digits_value
strtol [] = pos 0
strtol (c ∷ cs) =
    let rest = strtol cs in
    if is_space c
    then rest
    else (if c == 45
        then clamp_neg (digits_value 0 cs)
        else (if c == 43
            then clamp_pos (digits_value 0 cs)
            else clamp_pos (digits_value 0 (c ∷ cs))))
