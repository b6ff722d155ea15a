-- ===== src/Net/Buffer/Space.antt =====
-- Room in the buffer: what mytinyhttpd/net/buffer.h and buffer.cc do to make space for more bytes.
use my_tiny_httpd.Prelude.{
  ℕ, ◌+◌, ◌-◌, ◌^◌, ◌≤◌, ◌<◌, max, ◌≡◌, refl, ap, ◌∙◌, Bool, false, ◌⊎◌, inl, inr, List, [], ◌++◌,
  arith, ok, Returns, Returns->>=, Returns-assert, Returns-in_range, ◌>>◌, assert, Returns-map, ltb,
  leb, le→leb, lt→ltb, Bool-cases, length, length-append, length-replicate, replicate,
}
use my_tiny_httpd.Net.Buffer.{
  Buffer, Allocation, size_add, cheap_prepend, readable_bytes, writable_bytes, contents, slice,
  copy_to, move_readable_front, new, grow, make_space, ensure_writable_bytes,
}
use my_tiny_httpd.Net.Buffer.Contents.{
  length-slice, length-copy, slice-copy_end, slice-empty, slice-append,
}

-- The layout of a buffer: prependable, readable and writable bytes, in this order, all in the
-- vector. Its size is far from what a `size_t` holds.
pub record IsValid (b : Buffer) : Type 0 where
  pub ordered : b.reader_index ≤ b.writer_index
  pub inside : b.writer_index ≤ length b.store
  pub held : length b.store ≤ b.capacity
  pub reserved : cheap_prepend ≤ length b.store
  pub small : length b.store < 2 ^ 63

pub length-contents :
    (b : Buffer) → IsValid b → length (contents b) ≡ b.writer_index - b.reader_index
length-contents b v = length-slice b.store [] b.reader_index b.writer_index v.ordered v.inside

-- `readable_bytes()` counts the contents.
pub readable_bytes-length : (b : Buffer) → IsValid b → readable_bytes b ≡ length (contents b)
readable_bytes-length b v = omega (arith, length-contents b v)

pub copy_to-ok :
    (xs : List ℕ) (i : ℕ) (bytes : List ℕ) (P : List ℕ → Type 0)
    → i + length bytes ≤ length xs
    → ((ys : List ℕ)
        → length ys ≡ length xs
        → ((j : ℕ) → j ≤ i → slice ys j (i + length bytes) ≡ slice xs j i ++ bytes)
        → P ys)
    → Returns P (copy_to xs i bytes)
unfolding copy_to
copy_to-ok xs i bytes P h k =
    Returns-in_range P _ (ok _) (le→leb _ _ h)
      (k _ (length-copy xs bytes i h) (λ j hj. slice-copy_end xs bytes j i hj h))

-- `dst` holds the contents of `src` right behind the reserved bytes.
record Moved (src dst b : Buffer) : Type 0 where
  size : length b.store ≡ length dst.store
  capacity : b.capacity ≡ dst.capacity
  reader : b.reader_index ≡ cheap_prepend
  writer : b.writer_index ≡ cheap_prepend + length (contents src)
  same : contents b ≡ contents src

move_readable_front-Moved :
    (src dst : Buffer)
    → IsValid src
    → cheap_prepend ≤ src.reader_index
    → cheap_prepend + length (contents src) ≤ length dst.store
    → length dst.store < 2 ^ 63
    → Returns (Moved src dst) (move_readable_front src dst)
unfolding move_readable_front
move_readable_front-Moved src dst v cheap fits small =
    Returns-assert (Moved src dst) _ _ (le→leb _ _ cheap) (
      Returns->>= Done (Moved src dst) _ _
        (copy_to-ok dst.store cheap_prepend (contents src) Done fits
          (λ ys l s. (l, s 8 (omega arith))))
        (λ ys d. record {
          size = d.0;
          capacity = refl;
          reader = refl;
          writer = end;
          same = ap (slice ys 8) end ∙ d.1 ∙ ap (λ l. l ++ contents src) (slice-empty dst.store 8);
        }))
  where
    Done : List ℕ → Type 0
    Done ys =
        (length ys ≡ length dst.store)
        × (slice ys 8 (8 + length (contents src)) ≡ slice dst.store 8 8 ++ contents src)

    end : size_add cheap_prepend (readable_bytes src) ≡ cheap_prepend + length (contents src)
    end = omega (arith, length-contents src v)

-- What making room for `n` more bytes leaves as it was, and what it gives.
pub record Roomy (n : ℕ) (b b' : Buffer) : Type 0 where
  pub valid : IsValid b'
  pub same : contents b' ≡ contents b
  pub room : b'.writer_index + n ≤ length b'.store
  pub prependable : b'.reader_index ≡ b.reader_index ⊎ b'.reader_index ≡ cheap_prepend
  pub bounded : length b'.store ≤ max (length b.store) (cheap_prepend + (b.writer_index + n))

module _ (alloc : Allocation) where
  open alloc use {fresh_capacity, left_over, fresh_holds, left_over_length}

  pub new-IsValid :
      (n : ℕ) → n + 8 < 2 ^ 63 → IsValid (new alloc n) × (length (new alloc n).store ≡ n + 8)
  unfolding new
  new-IsValid n h = (
    record {
      ordered = omega arith;
      inside = omega (arith, zeros);
      held = omega (arith, zeros, fresh_holds (size_add cheap_prepend n));
      reserved = omega (arith, zeros);
      small = omega (arith, zeros);
    },
    omega (arith, zeros),
  )
    where
      zeros :
          length (replicate (size_add cheap_prepend n) (let z : ℕ = 0 in z))
          ≡ size_add cheap_prepend n
      zeros = length-replicate (size_add cheap_prepend n) _

  resize-Roomy :
      (n : ℕ) (b : Buffer)
      → IsValid b
      → length b.store < b.writer_index + n
      → b.writer_index + n < b.capacity
      → b.writer_index + n + 8 < 2 ^ 63
      → Roomy n b (record b {
        store = b.store ++ left_over (length b.store) (size_add b.writer_index n - length b.store);
      })
  resize-Roomy n b v full fits small = record {
    valid = record {
      ordered = v.ordered;
      inside = omega (arith, size, v.inside);
      held = omega (arith, size);
      reserved = omega (arith, size, v.reserved);
      small = omega (arith, size);
    };
    same = slice-append b.store b.reader_index b.writer_index _ v.ordered v.inside;
    room = omega (arith, size);
    prependable = inl refl;
    bounded = omega (arith, size);
  }
    where
      extra : ℕ
      extra = size_add b.writer_index n - length b.store

      size : length (b.store ++ left_over (length b.store) extra) ≡ b.writer_index + n
      size = omega (
        arith,
        length-append b.store (left_over (length b.store) extra),
        left_over_length (length b.store) extra,
      )

  Moved-Roomy :
      (n : ℕ) (b dst b' : Buffer)
      → IsValid b
      → length dst.store ≤ dst.capacity
      → length dst.store < 2 ^ 63
      → cheap_prepend + length (contents b) + n ≤ length dst.store
      → length dst.store ≤ max (length b.store) (cheap_prepend + (b.writer_index + n))
      → Moved b dst b'
      → Roomy n b b'
  Moved-Roomy n b dst b' v held small room bounded m = record {
    valid = record {
      ordered = omega arith;
      inside = omega arith;
      held = omega arith;
      reserved = omega arith;
      small = omega arith;
    };
    same = m.same;
    room = omega arith;
    prependable = inr m.reader;
    bounded = omega arith;
  }

  grow-Roomy :
      (n : ℕ) (b : Buffer)
      → IsValid b
      → cheap_prepend ≤ b.reader_index
      → length b.store < b.writer_index + n
      → b.writer_index + n + 8 < 2 ^ 63
      → Returns (Roomy n b) (grow alloc n b)
  unfolding grow
  grow-Roomy n b v cheap full fits =
      elim (Bool-cases (ltb (size_add b.writer_index n) b.capacity)) [
        | inl roomy ↦ rw roomy (resize-Roomy n b v full (ground arith) fits)
        | inr tight ↦ rw tight moved
      ]
    where
      wide : Buffer
      wide = new alloc (size_add b.writer_index n)

      fresh : IsValid wide × (length wide.store ≡ size_add b.writer_index n + 8)
      fresh = new-IsValid (size_add b.writer_index n) (omega arith)

      moved : Returns (Roomy n b) (move_readable_front b wide)
      moved =
          Returns-map (Moved b wide) (Roomy n b) (move_readable_front b wide)
            (move_readable_front-Moved b wide v cheap (omega (arith, length-contents b v, fresh))
              (omega (arith, fresh)))
            (λ b' m.
              Moved-Roomy n b wide b' v (fresh.0.held) (omega (arith, fresh))
                (omega (arith, length-contents b v, fresh)) (omega (arith, fresh)) m)

  make_space-Roomy :
      (n : ℕ) (b : Buffer)
      → IsValid b
      → cheap_prepend ≤ b.reader_index
      → length b.store < b.writer_index + n
      → b.writer_index + n + 8 < 2 ^ 63
      → Returns (Roomy n b) (make_space alloc n b)
  unfolding make_space
  make_space-Roomy n b v cheap full fits =
      rw (lt→ltb (writable_bytes b) n (omega (arith, v.inside))) (elim (Bool-cases short) [
        | inl e ↦ rw e (grow-Roomy n b v cheap full fits)
        | inr e ↦ rw e (moved (enough e))
      ])
    where
      short : Bool
      short = ltb (size_add (writable_bytes b) b.reader_index) (size_add n cheap_prepend)

      enough : short ≡ false → cheap_prepend + length (contents b) + n ≤ length b.store
      enough e = ground (arith, length-contents b v)

      moved :
          cheap_prepend + length (contents b) + n ≤ length b.store
          → Returns (Roomy n b) (move_readable_front b b)
      moved fit =
          Returns-map (Moved b b) (Roomy n b) (move_readable_front b b)
            (move_readable_front-Moved b b v cheap (omega arith) v.small)
            (λ b' m. Moved-Roomy n b b b' v v.held v.small fit (omega arith) m)

  -- `EnsureWritableBytes` leaves the contents alone and room behind them. Room that is there
  -- already needs no reserved bytes in front.
  pub ensure_writable_bytes-Roomy :
      (n : ℕ) (b : Buffer)
      → IsValid b
      → (cheap_prepend ≤ b.reader_index) ⊎ (b.writer_index + n ≤ length b.store)
      → b.writer_index + n + 8 < 2 ^ 63
      → Returns (Roomy n b) (ensure_writable_bytes alloc n b)
  unfolding ensure_writable_bytes
  ensure_writable_bytes-Roomy n b v c fits = elim (Bool-cases (ltb (writable_bytes b) n)) [
    | inl e ↦ rw e (
        Returns->>= (Roomy n b) (Roomy n b) (make_space alloc n b) _
          (make_space-Roomy n b v (ground arith) (ground arith) fits) checked)
    | inr e ↦ rw e (checked b (unchanged (ground arith)))
  ]
    where
      checked :
          (b' : Buffer)
          → Roomy n b b'
          → Returns (Roomy n b) (assert (leb n (writable_bytes b')) >> ok b')
      checked b' r =
          rw (le→leb n (writable_bytes b') (omega (arith, r.room, r.valid.inside, r.valid.small))) r

      unchanged : b.writer_index + n ≤ length b.store → Roomy n b b
      unchanged h = record {
        valid = v;
        same = refl;
        room = h;
        prependable = inl refl;
        bounded = omega arith;
      }

pub new-empty :
    (alloc : Allocation) (n : ℕ)
    → ((new alloc n).reader_index ≡ cheap_prepend) × (contents (new alloc n) ≡ [])
unfolding new
new-empty alloc n = (refl, slice-empty (replicate (size_add cheap_prepend n) 0) 8)
