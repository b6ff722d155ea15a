-- ===== src/Net/Buffer/Append.antt =====
-- What `Append` and `Shrink` of mytinyhttpd/net/buffer.h do to the readable bytes of a valid buffer.
use my_tiny_httpd.Prelude.{
  ℕ, refl, some, take-all, take, ◌%◌, ◌+◌, ◌^◌, ◌≤◌, ◌<◌, max, ◌≡◌, ap, ◌∙◌, ◌⊎◌, inl, inr, List,
  ◌++◌, arith, fault, assertion, Returns, Returns->>=, le→leb, lt→ltb, lt→leb, le→ltb, length,
  ◌>>=◌,
}
use my_tiny_httpd.Net.Buffer.{
  Buffer, Allocation, size_add, size_sub, cheap_prepend, initial_size, readable_bytes,
  writable_bytes, contents, slice, copy_to, move_readable_front, new, grow, make_space,
  ensure_writable_bytes, has_written, append, append_file, shrink,
}
use my_tiny_httpd.Net.Buffer.Contents.{slice-empty}
use my_tiny_httpd.Net.Buffer.Space.{
  IsValid, Roomy, length-contents, copy_to-ok, ensure_writable_bytes-Roomy, new-IsValid,
}

-- `b'` holds what `b` held and then `bytes`.
pub record Appended (bytes : List ℕ) (b b' : Buffer) : Type 0 where
  pub valid : IsValid b'
  pub extended : contents b' ≡ contents b ++ bytes
  pub prependable : b'.reader_index ≡ b.reader_index ⊎ b'.reader_index ≡ cheap_prepend
  pub bounded :
      length b'.store ≤ max (length b.store) (cheap_prepend + (b.writer_index + length bytes))

-- The bytes of `Append` once there is room for them.
write-Appended :
    (bytes : List ℕ) (b b' : Buffer)
    → Roomy (length bytes) b b'
    → Returns (Appended bytes b) (
        copy_to b'.store b'.writer_index bytes >>= λ store.
        has_written (length bytes) (record b' { store = store }))
unfolding has_written
write-Appended bytes b b' r =
    Returns->>= Copied (Appended bytes b) _ _
      (copy_to-ok b'.store b'.writer_index bytes Copied r.room
        (λ ys l s. (l, s b'.reader_index r.valid.ordered)))
      finish
  where
    Copied : List ℕ → Type 0
    Copied ys =
        (length ys ≡ length b'.store)
        × (slice ys b'.reader_index (b'.writer_index + length bytes) ≡ contents b' ++ bytes)

    end : size_add b'.writer_index (length bytes) ≡ b'.writer_index + length bytes
    end = omega (arith, r.room, r.valid.small)

    finish :
        (ys : List ℕ)
        → Copied ys
        → Returns (Appended bytes b) (has_written (length bytes) (record b' { store = ys }))
    finish ys c =
        rw
          (le→leb (length bytes) (size_sub (length ys) b'.writer_index)
            (omega (arith, c.0, r.room, r.valid.small)))
          (record {
            valid = record {
              ordered = omega (arith, end, r.valid.ordered);
              inside = omega (arith, end, c.0, r.room);
              held = omega (arith, c.0, r.valid.held);
              reserved = omega (arith, c.0, r.valid.reserved);
              small = omega (arith, c.0, r.valid.small);
            };
            extended = ap (slice ys b'.reader_index) end ∙ c.1 ∙ ap (λ l. l ++ bytes) r.same;
            prependable = r.prependable;
            bounded = omega (arith, c.0, r.bounded);
          })

module _ (alloc : Allocation) where
  -- `Append` on a valid buffer runs to its end, keeps it valid and adds exactly the given bytes
  -- behind the readable ones, if the bytes in front are still reserved or there is room already,
  -- and no size comes near 2 ^ 63. The vector grows at most to the bytes in front of the new end
  -- and the reserved ones.
  pub append-Appended :
      (bytes : List ℕ) (b : Buffer)
      → IsValid b
      → (cheap_prepend ≤ b.reader_index) ⊎ (b.writer_index + length bytes ≤ length b.store)
      → b.writer_index + length bytes + 8 < 2 ^ 63
      → Returns (Appended bytes b) (append alloc bytes b)
  unfolding append
  append-Appended bytes b v c fits =
      Returns->>= (Roomy (length bytes) b) (Appended bytes b)
        (ensure_writable_bytes alloc (length bytes) b) _
        (ensure_writable_bytes-Roomy alloc (length bytes) b v c fits) (write-Appended bytes b)

  -- Once `Prepend` has used some of the reserved bytes of a valid buffer, an `Append` for which
  -- neither the vector's size nor its capacity is enough fails the assertion of
  -- `MoveReadableFront`, if no size comes near 2 ^ 63.
  pub append_after_prepend :
      (bytes : List ℕ) (b : Buffer)
      → IsValid b
      → b.reader_index < cheap_prepend
      → b.capacity ≤ b.writer_index + length bytes
      → length b.store < b.writer_index + length bytes
      → b.writer_index + length bytes + 8 < 2 ^ 63
      → append alloc bytes b ≡ fault assertion
  unfolding append ensure_writable_bytes make_space grow move_readable_front
  append_after_prepend bytes b v used tight full fits = rw (
    lt→ltb (writable_bytes b) (length bytes) (omega (arith, v.inside)),
    lt→ltb (size_add (writable_bytes b) b.reader_index) (size_add (length bytes) 8)
        (omega (arith, v.inside)),
    le→ltb (size_add b.writer_index (length bytes)) b.capacity (omega arith),
    lt→leb cheap_prepend b.reader_index used,
  )

  -- `Shrink` on a valid buffer with fewer than 2 ^ 31 readable bytes runs to its end and leaves a
  -- valid buffer with the same readable bytes, if no size comes near 2 ^ 63.
  pub shrink-Roomy :
      (reserve : ℕ) (b : Buffer)
      → IsValid b
      → length b.store + reserve + 2048 < 2 ^ 63
      → length (contents b) < 2 ^ 31
      → Returns (λ b'. IsValid b' × (contents b' ≡ contents b)) (shrink alloc reserve b)
  unfolding shrink new
  shrink-Roomy reserve b v fits small =
      Returns->>= (Roomy asked fresh) Kept (ensure_writable_bytes alloc asked fresh) _
        (ensure_writable_bytes-Roomy alloc asked fresh fresh_valid.0 (inl (omega arith))
          (omega (arith, asked_lem)))
        (λ roomy r.
          rw (sliced, lt→ltb _ _ small_size, all_taken)
            (Returns->>= (Appended (contents b) roomy) Kept (append alloc (contents b) roomy) _
              (append-Appended (contents b) roomy r.valid (inr (omega (arith, r.room, asked_lem)))
                (omega (arith, r.room, asked_lem, r.bounded, fresh_valid.1)))
              (λ full a. (
                record {
                  ordered = a.valid.ordered;
                  inside = a.valid.inside;
                  held = alloc.shrunk_holds (length full.store);
                  reserved = a.valid.reserved;
                  small = a.valid.small;
                },
                a.extended ∙ ap (λ l. l ++ contents b) (r.same ∙ slice-empty fresh.store 8),
              ))))
    where
      sliced : readable_bytes b % 2 ^ 32 ≡ readable_bytes b
      sliced = omega (arith, small, length-contents b v)

      small_size : readable_bytes b < 2 ^ 31
      small_size = omega (arith, small, length-contents b v)

      all_taken : take (readable_bytes b) (contents b) ≡ contents b
      all_taken = take-all (readable_bytes b) (contents b) (omega (arith, length-contents b v))

      asked : ℕ
      asked = size_add (readable_bytes b) reserve

      asked_lem : asked ≡ length (contents b) + reserve
      asked_lem = omega (arith, length-contents b v, v.inside)

      fresh : Buffer
      fresh = new alloc initial_size

      fresh_valid : IsValid fresh × (length fresh.store ≡ initial_size + 8)
      fresh_valid = new-IsValid alloc initial_size (omega arith)

      Kept : Buffer → Type 0
      Kept b' = IsValid b' × (contents b' ≡ contents b)

  -- A file that gives all its bytes is appended as they are.
  pub append_file_lem :
      (bytes : List ℕ) (b : Buffer)
      → append_file alloc (length bytes) (some bytes) b ≡ append alloc bytes b
  unfolding append_file append
  append_file_lem bytes b = refl
