-- ===== src/Net/Buffer.antt =====
-- The input and output buffer of a connection: mytinyhttpd/net/buffer.h and buffer.cc.
-- A `size_t` is a number below 2 ^ 64 whose sums and differences wrap. A pointer into the buffer
-- is its offset from `begin()`. The byte vector is boost's: `Allocation` says what the code relies
-- on, how much a vector of n bytes may hold and what bytes a `default_init` resize leaves.
pub mod Contents
pub mod Space
pub mod Append
pub mod Retrieve
pub mod Io
pub mod Words
use my_tiny_httpd.Prelude.{
  ℕ, ◌+◌, ◌-◌, ◌*◌, ◌/◌, ◌%◌, ◌^◌, ◌≤◌, ◌≡◌, Bool, List, [], ◌∷◌, ◌++◌, Option, none, some, Outcome,
  ok, fault, out_of_range, ◌>>=◌, ◌>>◌, assert, in_range, ltb, leb, if◌then◌else◌, length, take,
  drop, replicate,
}

-- `size_t` addition and subtraction.
abbrev pub size_add : ℕ → ℕ → ℕ
size_add a b = (a + b) % 2 ^ 64

abbrev pub size_sub : ℕ → ℕ → ℕ
size_sub a b = (a + 2 ^ 64 - b) % 2 ^ 64

-- boost::container::vector<char>: how many bytes a vector made with `n` bytes may hold, how many
-- after `shrink_to_fit`, and the bytes that a resize with `default_init` leaves in place.
pub record Allocation : Type 0 where
  pub fresh_capacity : ℕ → ℕ
  pub shrunk_capacity : ℕ → ℕ
  pub left_over : ℕ → ℕ → List ℕ
  pub fresh_holds : (n : ℕ) → n ≤ fresh_capacity n
  pub shrunk_holds : (n : ℕ) → n ≤ shrunk_capacity n
  pub left_over_length : (from n : ℕ) → length (left_over from n) ≡ n

pub record Buffer : Type 0 where
  pub store : List ℕ
  pub capacity : ℕ
  pub reader_index : ℕ
  pub writer_index : ℕ

abbrev pub cheap_prepend : ℕ
cheap_prepend = 8

abbrev pub initial_size : ℕ
initial_size = 1024

abbrev pub readable_bytes : Buffer → ℕ
readable_bytes b = size_sub b.writer_index b.reader_index

abbrev pub writable_bytes : Buffer → ℕ
writable_bytes b = size_sub (length b.store) b.writer_index

abbrev pub prependable_bytes : Buffer → ℕ
prependable_bytes b = b.reader_index

-- The bytes of `xs` from index `i` up to index `j`.
abbrev pub slice : List ℕ → ℕ → ℕ → List ℕ
slice xs i j = take (j - i) (drop i xs)

-- What `Peek()` and `readable_bytes()` show of the buffer.
abbrev pub contents : Buffer → List ℕ
contents b = slice b.store b.reader_index b.writer_index

-- `ToSlice`, with the bytes of its slice: the number of readable bytes goes through an `int`, and
-- one that comes out negative is a size far outside the object.
abbrev pub to_slice : Buffer → Outcome (List ℕ)
to_slice b =
    let n = readable_bytes b % 2 ^ 32 in in_range (ltb n (2 ^ 31)) >> ok (take n (contents b))

-- `std::copy` of `bytes` to offset `i` of a vector.
unfoldable pub copy_to : List ℕ → ℕ → List ℕ → Outcome (List ℕ)
copy_to xs i bytes = do
  in_range (leb (i + length bytes) (length xs))
  ok (take i xs ++ (bytes ++ drop (i + length bytes) xs))

pub has_written : ℕ → Buffer → Outcome Buffer
has_written n b = do
  assert (leb n (writable_bytes b))
  ok (record b { writer_index = size_add b.writer_index n })

pub unwrite : ℕ → Buffer → Outcome Buffer
unwrite n b = do
  assert (leb n (readable_bytes b))
  ok (record b { writer_index = size_sub b.writer_index n })

pub retrieve_all : Buffer → Buffer
retrieve_all b = record b { reader_index = cheap_prepend; writer_index = cheap_prepend }

pub retrieve : ℕ → Buffer → Outcome Buffer
retrieve n b = do
  assert (leb n (readable_bytes b))
  ok (
      if ltb n (readable_bytes b)
      then record b { reader_index = size_add b.reader_index n }
      else retrieve_all b)

-- `end` is an offset from `begin()`.
pub retrieve_until : ℕ → Buffer → Outcome Buffer
retrieve_until end b = do
  assert (leb b.reader_index end)
  assert (leb end b.writer_index)
  retrieve (size_sub end b.reader_index) b

pub retrieve_as_string : ℕ → Buffer → Outcome (List ℕ × Buffer)
retrieve_as_string n b = do
  assert (leb n (readable_bytes b))
  b' ← retrieve n b
  ok (take n (contents b), b')

pub retrieve_all_as_string : Buffer → Outcome (List ℕ × Buffer)
retrieve_all_as_string b = retrieve_as_string (readable_bytes b) b

-- The readable bytes of `src` go to the front of `dst`, which may be `src` itself.
pub move_readable_front : Buffer → Buffer → Outcome Buffer
move_readable_front src dst = do
  assert (leb cheap_prepend src.reader_index)
  store ← copy_to dst.store cheap_prepend (contents src)
  ok (record dst {
    store = store;
    reader_index = cheap_prepend;
    writer_index = size_add cheap_prepend (readable_bytes src);
  })

pub prepend : List ℕ → Buffer → Outcome Buffer
prepend bytes b = do
  assert (leb (length bytes) (prependable_bytes b))
  let at = size_sub b.reader_index (length bytes)
  store ← copy_to b.store at bytes
  ok (record b { store = store; reader_index = at })

abbrev pub extra_size : ℕ
extra_size = 65536

-- How much `readv` may return.
abbrev pub readv_limit : Buffer → ℕ
readv_limit b =
    if ltb (writable_bytes b) extra_size then writable_bytes b + extra_size else writable_bytes b

pub read_in_place : Buffer → List ℕ → Outcome Buffer
read_in_place b read = do
  store ← copy_to b.store b.writer_index read
  ok (record b { store = store; writer_index = size_add b.writer_index (length read) })

module _ (alloc : Allocation) where
  open alloc use {fresh_capacity, shrunk_capacity, left_over}

  -- `Buffer(size_t initial_size)`; the vector's bytes start as zero.
  pub new : ℕ → Buffer
  new n = record {
    store = replicate (size_add cheap_prepend n) 0;
    capacity = fresh_capacity (size_add cheap_prepend n);
    reader_index = cheap_prepend;
    writer_index = cheap_prepend;
  }

  -- The first branch of `MakeSpace`: there is no room in front of the readable bytes either.
  pub grow : ℕ → Buffer → Outcome Buffer
  grow n b =
      if ltb (size_add b.writer_index n) b.capacity
      then ok (record b {
        store = b.store ++ left_over (length b.store) (size_add b.writer_index n - length b.store);
      })
      else move_readable_front b (new (size_add b.writer_index n))

  pub make_space : ℕ → Buffer → Outcome Buffer
  make_space n b = do
    assert (ltb (writable_bytes b) n)
    if ltb (size_add (writable_bytes b) (prependable_bytes b)) (size_add n cheap_prepend)
        then grow n b
        else move_readable_front b b

  pub ensure_writable_bytes : ℕ → Buffer → Outcome Buffer
  ensure_writable_bytes n b = do
    b' ← if ltb (writable_bytes b) n then make_space n b else ok b
    assert (leb n (writable_bytes b'))
    ok b'

  -- `Append(const char* data, size_t len)`, to which the other overloads reduce.
  pub append : List ℕ → Buffer → Outcome Buffer
  append bytes b = do
    b' ← ensure_writable_bytes (length bytes) b
    store ← copy_to b'.store b'.writer_index bytes
    has_written (length bytes) (record b' { store = store })

  -- `Append(std::ifstream& is, long len)`: the read gives `len` bytes, or the stream fails and
  -- nothing is appended.
  pub append_file : ℕ → Option (List ℕ) → Buffer → Outcome Buffer
  append_file len read b = do
    b' ← ensure_writable_bytes len b
    elim read [
      | none ↦ ok b'
      | some bytes ↦ do
        store ← copy_to b'.store b'.writer_index bytes
        has_written len (record b' { store = store })
    ]

  -- The new buffer takes the place of the old. Its bytes are those of the slice.
  pub shrink : ℕ → Buffer → Outcome Buffer
  shrink reserve b = do
    roomy ← ensure_writable_bytes (size_add (readable_bytes b) reserve) (new initial_size)
    bytes ← to_slice b
    full ← append bytes roomy
    ok (record full { capacity = shrunk_capacity (length full.store) })

  -- `ReadFromFd`: `read` is what `readv` put into the writable bytes and, past them, into the
  -- 65536 bytes on the stack.
  pub read_from_fd : List ℕ → Buffer → Outcome Buffer
  read_from_fd read b = if leb (length read) (writable_bytes b) then read_in_place b read else (do
    store ← copy_to b.store b.writer_index (take (writable_bytes b) read)
    append (drop (writable_bytes b) read) (record b { store = store; writer_index = length store }))
