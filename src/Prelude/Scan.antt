-- ===== src/Prelude/Scan.antt =====
-- Searching and comparing bytes, as `std::find`, `std::search` and `memcmp` do.
use Prim.Native.Nat.{ℕ, suc, ◌≤◌}
use mathlib.Core.Path.{◌≡◌, refl}
use mathlib.Core.Logic.{◌≢◌}
use mathlib.Core.Bool.{Bool, true, false, ◌&&◌, ◌||◌}
use mathlib.Core.List.{List, [], ◌∷◌, ◌++◌}
use native.Mathlib.Omega.{arith}
use my_tiny_httpd.Prelude.Tests.{◌==◌, leb, if◌then◌else◌}
use my_tiny_httpd.Prelude.Lists.{length}

-- `std::find`: the offset of the first `c`, or the length where there is none.
abbrev pub find : ℕ → List ℕ → ℕ
find c [] = 0
find c (x ∷ xs) = if x == c then 0 else suc (find c xs)

-- Whether the bytes begin with `word`: `memcmp(start, word, length) == 0`.
abbrev pub starts_with : List ℕ → List ℕ → Bool
starts_with [] xs = true
starts_with (w ∷ word) [] = false
starts_with (w ∷ word) (x ∷ xs) = x == w && starts_with word xs

-- Two byte strings are equal.
abbrev pub bytes_eq : List ℕ → List ℕ → Bool
bytes_eq [] [] = true
bytes_eq [] (y ∷ ys) = false
bytes_eq (x ∷ xs) [] = false
bytes_eq (x ∷ xs) (y ∷ ys) = x == y && bytes_eq xs ys

-- `isspace` in the C locale.
abbrev pub is_space : ℕ → Bool
is_space c = c == 32 || (leb 9 c && leb c 13)

-- No byte of the list is `c`.
abbrev pub Lacks : ℕ → List ℕ → Type 0
Lacks c [] = Unit {0}
Lacks c (x ∷ xs) = (x ≢ c) × Lacks c xs

pub find-le : (c : ℕ) (xs : List ℕ) → find c xs ≤ length xs
find-le c [] = omega arith
find-le c (x ∷ xs) = ground (arith, find-le c xs)

pub find-Lacks : (c : ℕ) (xs : List ℕ) → Lacks c xs → find c xs ≡ length xs
find-Lacks c [] h = refl
find-Lacks c (x ∷ xs) h = ground (arith, find-Lacks c xs h.1)

pub find-append : (c : ℕ) (xs ys : List ℕ) → Lacks c xs → find c (xs ++ c ∷ ys) ≡ length xs
find-append c [] ys h = ground arith
find-append c (x ∷ xs) ys h = ground (arith, find-append c xs ys h.1)

pub Lacks-append : (c : ℕ) (xs ys : List ℕ) → Lacks c xs → Lacks c ys → Lacks c (xs ++ ys)
Lacks-append c [] ys h k = k
Lacks-append c (x ∷ xs) ys h k = (h.0, Lacks-append c xs ys h.1 k)

pub bytes_eq_refl : (xs : List ℕ) → bytes_eq xs xs ≡ true
bytes_eq_refl [] = refl
bytes_eq_refl (x ∷ xs) = ground (arith, bytes_eq_refl xs)

pub bytes_eq→eq : (xs ys : List ℕ) → bytes_eq xs ys ≡ true → xs ≡ ys
bytes_eq→eq [] [] h = refl
bytes_eq→eq [] (y ∷ ys) h = cc
bytes_eq→eq (x ∷ xs) [] h = cc
bytes_eq→eq (x ∷ xs) (y ∷ ys) h = ground (arith, bytes_eq→eq xs ys)

pub starts_with-append : (word ys : List ℕ) → starts_with word (word ++ ys) ≡ true
starts_with-append [] ys = refl
starts_with-append (w ∷ word) ys = ground (arith, starts_with-append word ys)
