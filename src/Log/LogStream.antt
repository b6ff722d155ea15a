-- ===== src/Log/LogStream.antt =====
-- The stream that formats a log line: `Convert`, `ConvertHex` and `LogStream` of
-- mytinyhttpd/base/log_stream.h and log_stream.cc. An integer of any of the C++ types is an integer
-- here; division and remainder go towards zero. What `snprintf` prints of a `double` is an argument.
pub mod Numeral
pub mod Digits
pub mod Kept
pub mod ReadBack
use my_tiny_httpd.Prelude.{
  ℕ, zero, suc, ◌+◌, ◌-◌, ◌/◌, ◌%◌, Bool, true, false, List, [], ◌∷◌, ◌++◌, reverse, Option, none,
  some, Outcome, ok, fault, out_of_range, out_of_fuel, ◌>>=◌, in_range, leb, ◌==◌, if◌then◌else◌,
  length, get_elem?, take, drop, codes, ℤ, pos, negsuc, quot, rem,
}
use my_tiny_httpd.Net.Buffer.{copy_to, slice}
use my_tiny_httpd.Log.FixedBuffer.{FixedBuffer, has_avail, put, add_cur, reset_cur, text}

abbrev pub is_zero : ℤ → Bool
is_zero (pos n) = n == 0
is_zero (negsuc n) = false

abbrev pub is_negative : ℤ → Bool
is_negative (pos n) = false
is_negative (negsuc n) = true

abbrev pub table_at : List ℕ → ℕ → Outcome ℕ
table_at table i = elim (get_elem? table i) [ none ↦ fault out_of_range | some c ↦ ok c ]

abbrev pub digits_table : List ℕ
digits_table = codes "9876543210123456789"

-- `zero[lsd]`, where `zero` is `digits + 9`.
unfoldable pub zero_at : ℤ → Outcome ℕ
zero_at (pos d) = table_at digits_table (9 + d)
zero_at (negsuc d) = if leb (suc d) 9 then table_at digits_table (9 - suc d) else fault out_of_range

-- `digits_hex[lsd]`.
pub hex_at : ℤ → Outcome ℕ
hex_at (pos d) = table_at (codes "0123456789ABCDEF") d
hex_at (negsuc d) = fault out_of_range

-- The loop of both conversions, which writes the last digit first.
unfoldable pub write_digits : ℕ → (ℤ → Outcome ℕ) → ℕ → ℤ → List ℕ → ℕ → Outcome (List ℕ × ℕ)
write_digits base at zero i store p = fault out_of_fuel
write_digits base at (suc fuel) i store p = do
  c ← at (rem base i)
  store' ← copy_to store p (c ∷ [])
  let rest = write_digits base at fuel (quot base i) store' (p + 1)
  if is_zero (quot base i) then ok (store', p + 1) else rest

-- `std::reverse(buf, p)`.
abbrev pub reverse_range : ℕ → ℕ → List ℕ → List ℕ
reverse_range buf p store = take buf store ++ (reverse (slice store buf p) ++ drop p store)

-- The zero behind the text, and the turn.
unfoldable pub end_digits : ℕ → List ℕ → ℕ → Outcome (List ℕ × ℕ)
end_digits buf store p = do
  store' ← copy_to store p (0 ∷ [])
  ok (reverse_range buf p store', p - buf)

-- More rounds than a number of 64 bits has digits to either base.
abbrev pub rounds : ℕ
rounds = 64

-- Both conversions return the array and the length.
unfoldable pub convert : ℕ → ℤ → List ℕ → Outcome (List ℕ × ℕ)
convert buf value store = do
  (store', p) ← write_digits 10 zero_at rounds value store buf
  if is_negative value
      then (copy_to store' p (b'-' ∷ []) >>= λ store''. end_digits buf store'' (p + 1))
      else end_digits buf store' p

pub convert_hex : ℕ → ℕ → List ℕ → Outcome (List ℕ × ℕ)
convert_hex buf value store = do
  (store', p) ← write_digits 16 hex_at rounds (pos value) store buf
  end_digits buf store' p

abbrev pub max_numeric_size : ℕ
max_numeric_size = 48

-- `FormatInteger`, which each `<<` of an integer calls.
unfoldable pub format_integer : ℤ → FixedBuffer → Outcome FixedBuffer
format_integer v b =
    if has_avail max_numeric_size b
    then (convert b.cur v b.store >>= λ (store, len). ok (add_cur len (record b { store = store })))
    else ok b

-- `<< const void*`.
unfoldable pub format_pointer : ℕ → FixedBuffer → Outcome FixedBuffer
format_pointer v b =
    if has_avail max_numeric_size b
    then (do
      store ← copy_to b.store b.cur (codes "0x")
      (store', len) ← convert_hex (b.cur + 2) v store
      ok (add_cur (len + 2) (record b { store = store' })))
    else ok b

-- `<< double`, where `snprintf` prints `printed`, cuts it to the size and ends it with a zero.
pub format_double : List ℕ → FixedBuffer → Outcome FixedBuffer
format_double printed b =
    if has_avail max_numeric_size b
    then (copy_to b.store b.cur (take (max_numeric_size - 1) printed ++ (0 ∷ [])) >>= λ store.
        ok (add_cur (length printed) (record b { store = store })))
    else ok b

-- What is put into a stream: one constructor for each kind of `<<`.
pub data Item : Type 0 where
  bool : Bool → Item
  char : ℕ → Item
  integer : ℤ → Item
  pointer : ℕ → Item
  double : List ℕ → Item
  -- A `const char*`, which may be null.
  c_string : Option (List ℕ) → Item
  string : List ℕ → Item
  -- Another buffer.
  buffer : FixedBuffer → Item

unfoldable pub insert : Item → FixedBuffer → Outcome FixedBuffer
insert (bool v) b = put (if v then codes "1" else codes "0") b
insert (char v) b = put (v ∷ []) b
insert (integer v) b = format_integer v b
insert (pointer v) b = format_pointer v b
insert (double printed) b = format_double printed b
insert (c_string none) b = put (codes "(null)") b
insert (c_string (some s)) b = put s b
insert (string s) b = put s b
insert (buffer v) b = put (text v) b

-- `stream << item << item ...`.
unfoldable pub insert_all : List Item → FixedBuffer → Outcome FixedBuffer
insert_all [] b = ok b
insert_all (item ∷ items) b = insert item b >>= insert_all items

-- `ResetBuffer()`.
abbrev pub reset_buffer : FixedBuffer → FixedBuffer
reset_buffer b = reset_cur b
