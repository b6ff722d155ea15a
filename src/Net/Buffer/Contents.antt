-- ===== src/Net/Buffer/Contents.antt =====
-- How the operations of mytinyhttpd/net/buffer.h on the byte vector act on a slice of it.
use my_tiny_httpd.Prelude.{
  ℕ, ◌+◌, ◌-◌, ◌≤◌, ◌≡◌, sym, ap, ap₂, ◌∙◌, List, [], ◌++◌, append-nil, arith, length, take, drop,
  length-append, length-take, length-drop, take-append, take-append_le, drop-append_le, drop-take,
  drop-drop, take-take,
}
use my_tiny_httpd.Net.Buffer.{slice}

module _ (xs bytes : List ℕ) where
  pub length-slice : (i j : ℕ) → i ≤ j → j ≤ length xs → length (slice xs i j) ≡ j - i
  length-slice i j h k = omega (arith, length-take (j - i) (drop i xs), length-drop i xs)

  -- A copy keeps the size of the vector.
  pub length-copy :
      (i : ℕ)
      → i + length bytes ≤ length xs
      → length (take i xs ++ (bytes ++ drop (i + length bytes) xs)) ≡ length xs
  length-copy i h = omega (
    arith,
    length-append (take i xs) (bytes ++ drop (i + length bytes) xs),
    length-append bytes (drop (i + length bytes) xs),
    length-take i xs,
    length-drop (i + length bytes) xs,
  )

  slice_split :
      (i j : ℕ) (rest : List ℕ)
      → i ≤ j
      → j ≤ length xs
      → drop i (take j xs ++ rest) ≡ slice xs i j ++ rest
  slice_split i j rest h k =
      drop-append_le i (take j xs) rest (omega (arith, length-take j xs))
      ∙ ap (λ l. l ++ rest) (drop-take i j xs)

  take_exactly : (rest : List ℕ) → take (length bytes) (bytes ++ rest) ≡ bytes
  take_exactly rest = take-append (length bytes) 0 bytes rest (omega arith) ∙ append-nil bytes

  -- Bytes copied to the end of a slice extend it.
  pub slice-copy_end :
      (i j : ℕ)
      → i ≤ j
      → j + length bytes ≤ length xs
      → slice (take j xs ++ (bytes ++ drop (j + length bytes) xs)) i (j + length bytes)
        ≡ slice xs i j ++ bytes
  slice-copy_end i j h k =
      ap (take (j + length bytes - i)) (slice_split i j _ h (omega arith))
      ∙ take-append (j + length bytes - i) (length bytes) (slice xs i j) _
          (omega (arith, length-slice i j h (omega arith)))
      ∙ ap (◌++◌ (slice xs i j)) (take_exactly _)

  -- Bytes copied in front of a slice extend it the other way.
  pub slice-copy_front :
      (i k j : ℕ)
      → k ≡ i + length bytes
      → k ≤ j
      → j ≤ length xs
      → slice (take i xs ++ (bytes ++ drop k xs)) i j ≡ bytes ++ slice xs k j
  slice-copy_front i k j e h h' =
      ap (take (j - i)) (slice_split i i _ (omega arith) (omega arith) ∙ none_taken)
      ∙ take-append (j - i) (j - k) bytes (drop k xs) (omega arith)
    where
      none_taken : slice xs i i ++ (bytes ++ drop k xs) ≡ bytes ++ drop k xs
      none_taken =
          let e : i - i ≡ 0 = omega arith in ap (λ n. take n (drop i xs) ++ (bytes ++ drop k xs)) e

module _ (xs : List ℕ) where
  pub slice-empty : (i : ℕ) → slice xs i i ≡ []
  slice-empty i = let e : i - i ≡ 0 = omega arith in ap (λ n. take n (drop i xs)) e

  -- Bytes added behind a vector are outside each slice of it.
  pub slice-append :
      (i j : ℕ) (rest : List ℕ) → i ≤ j → j ≤ length xs → slice (xs ++ rest) i j ≡ slice xs i j
  slice-append i j rest h k =
      ap (take (j - i)) (drop-append_le i xs rest (omega arith))
      ∙ take-append_le (j - i) (drop i xs) rest (omega (arith, length-drop i xs))

  pub slice-drop : (i j n : ℕ) → i + n ≤ j → slice xs (i + n) j ≡ drop n (slice xs i j)
  slice-drop i j n h =
      let e : j - (i + n) ≡ j - i - n = omega arith in
      ap₂ take e (sym (drop-drop n i xs)) ∙ sym (drop-take n (j - i) (drop i xs))

  pub slice-take : (i j k : ℕ) → i ≤ k → k ≤ j → slice xs i k ≡ take (k - i) (slice xs i j)
  slice-take i j k h h' = take-take (k - i) (j - i) (drop i xs) (omega arith)
