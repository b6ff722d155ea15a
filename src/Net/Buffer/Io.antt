-- ===== src/Net/Buffer/Io.antt =====
-- What reading from a descriptor, `Prepend` and `Unwrite` of mytinyhttpd/net/buffer.h do to the readable bytes of a valid buffer.
use my_tiny_httpd.Prelude.{
  ℕ, ◌+◌, ◌-◌, ◌^◌, ◌≤◌, ◌<◌, ◌≡◌, refl, ap, ◌∙◌, false, inl, inr, List, ◌++◌, arith, Returns,
  Returns->>=, Returns-map, leb, le→leb, Bool-cases, length, take, drop, length-drop, length-take,
  append_assoc, take-append-drop,
}
use my_tiny_httpd.Net.Buffer.{
  Buffer, Allocation, size_add, size_sub, cheap_prepend, readable_bytes, writable_bytes, contents,
  slice, copy_to, append, unwrite, prepend, read_from_fd, read_in_place,
}
use my_tiny_httpd.Net.Buffer.Contents.{length-copy, slice-copy_front, slice-take}
use my_tiny_httpd.Net.Buffer.Append.{Appended, append-Appended}
use my_tiny_httpd.Net.Buffer.Space.{IsValid, length-contents, readable_bytes-length, copy_to-ok}

-- `Prepend` on a valid buffer puts the bytes in front of the readable ones and keeps it valid, if
-- there are as many prependable bytes.
pub prepend_lem :
    (bytes : List ℕ) (b : Buffer)
    → IsValid b
    → length bytes ≤ b.reader_index
    → Returns (λ b'. IsValid b' × (contents b' ≡ bytes ++ contents b)) (prepend bytes b)
unfolding prepend copy_to
prepend_lem bytes b v h = rw (le→leb (length bytes) b.reader_index h) (
    rw
      (le→leb (size_sub b.reader_index (length bytes) + length bytes) (length b.store)
        (omega (arith, start, v.inside, v.ordered)))
      (
        record {
          ordered = omega (arith, start, v.ordered);
          inside = omega (arith, size, v.inside);
          held = omega (arith, size, v.held);
          reserved = omega (arith, size, v.reserved);
          small = omega (arith, size, v.small);
        },
        slice-copy_front b.store bytes at (at + length bytes) b.writer_index refl
              (omega (arith, start, v.ordered)) v.inside
            ∙ ap (λ i. bytes ++ slice b.store i b.writer_index) start,
      ))
  where
    at : ℕ
    at = size_sub b.reader_index (length bytes)

    start : at + length bytes ≡ b.reader_index
    start = omega (arith, v.ordered, v.inside, v.small)

    size : length (take at b.store ++ (bytes ++ drop (at + length bytes) b.store)) ≡ length b.store
    size = length-copy b.store bytes at (omega (arith, start, v.ordered, v.inside))

-- `Unwrite` on a valid buffer takes the last `n` readable bytes away and keeps it valid, if there
-- are as many.
pub unwrite_lem :
    (n : ℕ) (b : Buffer)
    → IsValid b
    → n ≤ length (contents b)
    → Returns
        (λ b'. IsValid b' × (contents b' ≡ take (length (contents b) - n) (contents b)))
        (unwrite n b)
unfolding unwrite
unwrite_lem n b v h = rw (le→leb n (readable_bytes b) (omega (arith, readable_bytes-length b v))) (
  record {
    ordered = omega (arith, end, length-contents b v);
    inside = omega (arith, end, v.inside);
    held = v.held;
    reserved = v.reserved;
    small = v.small;
  },
  ap (slice b.store b.reader_index) end
      ∙ slice-take b.store b.reader_index b.writer_index (b.writer_index - n)
          (omega (arith, length-contents b v)) (omega arith)
      ∙ ap (λ k. take k (contents b)) left,
)
  where
    left : b.writer_index - n - b.reader_index ≡ length (contents b) - n
    left = omega (arith, length-contents b v)

    end : size_sub b.writer_index n ≡ b.writer_index - n
    end = omega (arith, length-contents b v, v.inside, v.small)

read_in_place_lem :
    (read : List ℕ) (b : Buffer)
    → IsValid b
    → b.writer_index + length read ≤ length b.store
    → Returns (λ b'. IsValid b' × (contents b' ≡ contents b ++ read)) (read_in_place b read)
unfolding read_in_place
read_in_place_lem read b v h =
    Returns->>= Copied (λ b'. IsValid b' × (contents b' ≡ contents b ++ read))
      (copy_to b.store b.writer_index read) _
      (copy_to-ok b.store b.writer_index read Copied h (λ ys l s. (l, s b.reader_index v.ordered)))
      (λ ys d. (
        record {
          ordered = omega (arith, end, v.ordered);
          inside = omega (arith, end, d.0);
          held = omega (arith, d.0, v.held);
          reserved = omega (arith, d.0, v.reserved);
          small = omega (arith, d.0, v.small);
        },
        ap (slice ys b.reader_index) end ∙ d.1,
      ))
  where
    Copied : List ℕ → Type 0
    Copied ys =
        (length ys ≡ length b.store)
        × (slice ys b.reader_index (b.writer_index + length read) ≡ contents b ++ read)

    end : size_add b.writer_index (length read) ≡ b.writer_index + length read
    end = omega (arith, v.small)

module _ (alloc : Allocation) where
  -- `ReadFromFd` on a valid buffer whose reserved bytes are free adds exactly the bytes that were
  -- read behind the readable ones, whether they fit or spill over to the stack, and keeps it
  -- valid, if no size comes near 2 ^ 63.
  pub read_from_fd_lem :
      (read : List ℕ) (b : Buffer)
      → IsValid b
      → cheap_prepend ≤ b.reader_index
      → length b.store + length read + 8 < 2 ^ 63
      → Returns (λ b'. IsValid b' × (contents b' ≡ contents b ++ read)) (read_from_fd alloc read b)
  unfolding read_from_fd
  read_from_fd_lem read b v c fits = elim (Bool-cases (leb (length read) (writable_bytes b))) [
    | inl e ↦ rw e (read_in_place_lem read b v (ground arith))
    | inr e ↦ rw e (
        Returns->>= Copied Got (copy_to b.store b.writer_index (take room read)) _
          (copy_to-ok b.store b.writer_index (take room read) Copied (omega (arith, exact e))
            (λ ys l s. (l, s b.reader_index v.ordered)))
          (λ ys d. overflow ys d (exact e)))
  ]
    where
      room : ℕ
      room = writable_bytes b

      Copied : List ℕ → Type 0
      Copied ys =
          (length ys ≡ length b.store)
          × (slice ys b.reader_index (b.writer_index + length (take room read))
              ≡ contents b ++ take room read)

      Got : Buffer → Type 0
      Got b' = IsValid b' × (contents b' ≡ contents b ++ read)

      exact :
          leb (length read) room ≡ false → b.writer_index + length (take room read) ≡ length b.store
      exact e = ground (arith, length-take room read)

      overflow :
          (ys : List ℕ)
          → Copied ys
          → b.writer_index + length (take room read) ≡ length b.store
          → Returns Got
              (append alloc (drop room read) (record b { store = ys; writer_index = length ys }))
      overflow ys d x =
          Returns-map (Appended (drop room read) filled) Got (append alloc (drop room read) filled)
            (append-Appended alloc (drop room read) filled
              (record {
                ordered = omega (arith, d.0, v.ordered, v.inside);
                inside = omega arith;
                held = omega (arith, d.0, v.held);
                reserved = omega (arith, d.0, v.reserved);
                small = omega (arith, d.0, v.small);
              })
              (inl c) (omega (arith, d.0, length-drop room read)))
            (λ b' a. (a.valid, a.extended ∙ joined))
        where
          filled : Buffer
          filled = record b { store = ys; writer_index = length ys }

          joined : contents filled ++ drop room read ≡ contents b ++ read
          joined =
              ap (λ k. slice ys b.reader_index k ++ drop room read) (omega (arith, d.0, x))
              ∙ ap (λ l. l ++ drop room read) d.1
              ∙ append_assoc (contents b) (take room read) (drop room read)
              ∙ ap (◌++◌ (contents b)) (take-append-drop room read)
