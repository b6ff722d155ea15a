-- ===== src/Log/FixedBuffer/Over.antt =====
-- Memory in which some bytes have been written over what it held, as the conversions of
-- mytinyhttpd/base/log_stream.cc do from the cursor of a buffer on.
use my_tiny_httpd.Prelude.{
  ℕ, ◌+◌, ◌≤◌, ◌≡◌, refl, sym, ap, ap₂, ◌∙◌, List, [], ◌++◌, append_assoc, ok, le→leb, length, take,
  drop, length-append, length-take, take-append_self, drop-append, drop-append_self, drop-drop,
  take-append-drop, arith,
}
use my_tiny_httpd.Net.Buffer.{copy_to, slice}
use my_tiny_httpd.Net.Buffer.Contents.{length-copy}
use my_tiny_httpd.Log.FixedBuffer.Text.{take-copy}

abbrev pub over : List ℕ → ℕ → List ℕ → List ℕ
over memory i bytes = take i memory ++ (bytes ++ drop (i + length bytes) memory)

module _ (memory : List ℕ) (i : ℕ) (bytes : List ℕ) (h : i + length bytes ≤ length memory) where
  pub length-over : length (over memory i bytes) ≡ length memory
  length-over = length-copy memory bytes i h

  pub drop-over :
      (n : ℕ)
      → drop (i + length bytes + n) (over memory i bytes) ≡ drop (i + length bytes + n) memory
  drop-over n =
      drop-append (i + length bytes + n) (length bytes + n) (take i memory)
        (bytes ++ drop (i + length bytes) memory) (omega (arith, length-take i memory))
      ∙ drop-append (length bytes + n) n bytes (drop (i + length bytes) memory) refl
      ∙ drop-drop n (i + length bytes) memory

  pub over-over :
      (more : List ℕ)
      → over (over memory i bytes) (i + length bytes) more ≡ over memory i (bytes ++ more)
  over-over more =
      rw
        (
          take-copy memory bytes (drop (i + length bytes) memory) i (omega arith),
          drop-over (length more),
          append_assoc (take i memory) bytes (more ++ drop (i + length bytes + length more) memory),
          append_assoc bytes more (drop (i + length (bytes ++ more)) memory),
        )
        (ap (λ n. take i memory ++ (bytes ++ (more ++ drop n memory)))
          (omega (arith, length-append bytes more)))

  -- Writing goes on behind the bytes written so far.
  pub copy_to-over :
      (more : List ℕ)
      → i + length bytes + length more ≤ length memory
      → copy_to (over memory i bytes) (i + length bytes) more ≡ ok (over memory i (bytes ++ more))
  unfolding copy_to
  copy_to-over more k =
      rw
        (le→leb (i + length bytes + length more) (length (over memory i bytes))
          (omega (arith, length-over)))
        (ap ok (over-over more))

-- The parts of a memory whose bytes from `i` on are known.
module _ (memory : List ℕ) (i : ℕ) (bytes rest : List ℕ) (h : i ≤ length memory) where
  pub take-parts : take i (take i memory ++ (bytes ++ rest)) ≡ take i memory
  take-parts =
      take-append_self i (take i memory) (bytes ++ rest) (omega (arith, length-take i memory))

  behind : drop i (take i memory ++ (bytes ++ rest)) ≡ bytes ++ rest
  behind = drop-append_self i (take i memory) (bytes ++ rest) (omega (arith, length-take i memory))

  pub slice-parts : slice (take i memory ++ (bytes ++ rest)) i (i + length bytes) ≡ bytes
  slice-parts = ap₂ take (omega arith) behind ∙ take-append_self (length bytes) bytes rest refl

  pub drop-parts : drop (i + length bytes) (take i memory ++ (bytes ++ rest)) ≡ rest
  drop-parts =
      sym (drop-drop (length bytes) i (take i memory ++ (bytes ++ rest)))
      ∙ ap (drop (length bytes)) behind
      ∙ drop-append_self (length bytes) bytes rest refl

pub over-nil : (memory : List ℕ) (i : ℕ) → over memory i [] ≡ memory
over-nil memory i =
    ap (λ n. take i memory ++ drop n memory) (omega arith) ∙ take-append-drop i memory

pub copy_to-fresh :
    (memory : List ℕ) (i : ℕ) (bytes : List ℕ)
    → i + length bytes ≤ length memory
    → copy_to memory i bytes ≡ ok (over memory i bytes)
unfolding copy_to
copy_to-fresh memory i bytes h = rw (le→leb (i + length bytes) (length memory) h)
