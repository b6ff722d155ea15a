-- ===== src/Log/FixedBuffer.antt =====
-- The buffer of fixed size that log lines are put together in: `detail::FixedBuffer` of
-- mytinyhttpd/base/log_stream.h and log_stream.cc. `store` is `data_`, whose length is `SIZE`, and
-- a pointer into it is an offset; a write outside it is a fault.
pub mod Text
pub mod Over
use my_tiny_httpd.Prelude.{
  ℕ, ◌+◌, ◌*◌, ◌≡◌, Bool, List, [], ◌∷◌, Outcome, ok, ◌>>=◌, ltb, leb, if◌then◌else◌, length, take,
  replicate,
}
use my_tiny_httpd.Net.Buffer.{size_sub, copy_to}

pub record FixedBuffer : Type 0 where
  pub store : List ℕ
  pub cur : ℕ

abbrev pub small_buffer : ℕ
small_buffer = 4000

abbrev pub large_buffer : ℕ
large_buffer = 4000 * 1000

-- `FixedBuffer()`, over memory that it does not clear.
unfoldable pub new_fixed : List ℕ → FixedBuffer
new_fixed memory = record { store = memory; cur = 0 }

-- `static_cast<size_t>(avail())`.
abbrev pub avail_size : FixedBuffer → ℕ
avail_size b = size_sub (length b.store) b.cur

-- `avail() >= n`.
abbrev pub has_avail : ℕ → FixedBuffer → Bool
has_avail n b = leb (b.cur + n) (length b.store)

unfoldable pub put : List ℕ → FixedBuffer → Outcome FixedBuffer
put bytes b =
    if ltb (length bytes) (avail_size b)
    then (copy_to b.store b.cur bytes >>= λ store.
        ok (record { store = store; cur = b.cur + length bytes }))
    else ok b

abbrev pub add_cur : ℕ → FixedBuffer → FixedBuffer
add_cur len b = record b { cur = b.cur + len }

abbrev pub reset_cur : FixedBuffer → FixedBuffer
reset_cur b = record b { cur = 0 }

abbrev pub bzero : FixedBuffer → FixedBuffer
bzero b = record b { store = replicate (length b.store) 0 }

-- `ToString()` and `ToSlice()`.
abbrev pub text : FixedBuffer → List ℕ
text b = take b.cur b.store

-- `ToDebugString`, which ends the text with a zero.
pub to_debug_string : FixedBuffer → Outcome FixedBuffer
to_debug_string b = copy_to b.store b.cur (0 ∷ []) >>= λ store. ok (record b { store = store })
