-- ===== src/Log/FixedBuffer/Text.antt =====
-- What the operations of `detail::FixedBuffer` in mytinyhttpd/base/log_stream.h leave in it.
use my_tiny_httpd.Prelude.{
  ℕ, ◌+◌, ◌-◌, ◌^◌, ◌≤◌, ◌<◌, ◌≡◌, refl, sym, ap, ◌∙◌, true, inl, inr, List, [], ◌++◌, append-nil,
  Returns, ltb, ltb→lt, le→leb, if◌then◌else◌, length, take, drop, length-take, take-append, arith,
  Bool-cases,
}
use my_tiny_httpd.Net.Buffer.{copy_to}
use my_tiny_httpd.Net.Buffer.Contents.{length-copy}
use my_tiny_httpd.Log.FixedBuffer.{FixedBuffer, avail_size, put, text}

-- The cursor stands on a byte of the array, and the array's size is an `int`.
pub record IsSound (b : FixedBuffer) : Type 0 where
  pub inside : b.cur < length b.store
  pub small : length b.store < 2 ^ 31

-- A write behind the first `i` bytes.
pub take-copy :
    (xs bytes rest : List ℕ) (i : ℕ)
    → i ≤ length xs
    → take (i + length bytes) (take i xs ++ (bytes ++ rest)) ≡ take i xs ++ bytes
take-copy xs bytes rest i h =
    take-append (i + length bytes) (length bytes) (take i xs) (bytes ++ rest)
      (omega (arith, length-take i xs))
    ∙ ap (λ l. take i xs ++ l)
        (take-append (length bytes) 0 bytes rest (omega arith) ∙ append-nil bytes)

-- The buffer has gained these bytes and nothing else has changed.
pub record Gains (bytes : List ℕ) (b b' : FixedBuffer) : Type 0 where
  pub sound : IsSound b'
  pub size : length b'.store ≡ length b.store
  pub gained : text b' ≡ text b ++ bytes

pub avail_lem : (b : FixedBuffer) → IsSound b → avail_size b ≡ length b.store - b.cur
avail_lem b s = omega arith

-- The bytes of `put` that fit.
abbrev pub fitting : ℕ → List ℕ → List ℕ
fitting room bytes = if ltb (length bytes) room then bytes else []

pub put-Gains :
    (bytes : List ℕ) (b : FixedBuffer)
    → IsSound b
    → Returns (Gains (fitting (length b.store - b.cur) bytes) b) (put bytes b)
unfolding put copy_to
put-Gains bytes b s = elim (Bool-cases (ltb (length bytes) (length b.store - b.cur))) [
  | inl e ↦
      rw
        (
          avail_lem b s,
          e,
          le→leb (b.cur + length bytes) (length b.store)
              (fits (ltb→lt (length bytes) (length b.store - b.cur) e)),
        )
        (record {
          sound = record {
            inside = rw (size e) (fits' (ltb→lt (length bytes) (length b.store - b.cur) e));
            small = rw (size e) s.small;
          };
          size = size e;
          gained =
              take-copy b.store bytes (drop (b.cur + length bytes) b.store) b.cur (omega arith);
        })
  | inr e ↦
      rw (avail_lem b s, e) (record { sound = s; size = refl; gained = sym (append-nil (text b)) })
]
  where
    fits : length bytes < length b.store - b.cur → b.cur + length bytes ≤ length b.store
    fits h = omega (arith, s.inside)

    fits' : length bytes < length b.store - b.cur → b.cur + length bytes < length b.store
    fits' h = omega (arith, s.inside)

    size :
        ltb (length bytes) (length b.store - b.cur) ≡ true
        → length (take b.cur b.store ++ (bytes ++ drop (b.cur + length bytes) b.store))
          ≡ length b.store
    size e =
        length-copy b.store bytes b.cur (fits (ltb→lt (length bytes) (length b.store - b.cur) e))
