-- ===== src/Net/Buffer/Words.antt =====
-- Integers in network byte order in a buffer: `AppendInt64` and its kin of
-- mytinyhttpd/net/buffer.h, over mytinyhttpd/net/endian.h. An integer of `k` bytes is its bit
-- pattern, a number modulo 256 ^ k.
use native.Mathlib.Nat.{
  mod-eq_of_lt, add-mul-mod_self_right, pow-suc, mod-lt, one-le-pow, div-add-mod',
}
use my_tiny_httpd.Prelude.{
  ℕ, zero, suc, ◌+◌, ◌*◌, ◌/◌, ◌%◌, ◌^◌, ◌≤◌, ◌<◌, ◌≡◌, refl, sym, ap, ◌∙◌, inl, List, [], ◌∷◌,
  ◌++◌, arith, Outcome, ok, Returns, Returns->>=, leb, le→leb, length, length-append, take,
  take-append_self, drop-append_self, append-nil, ◌>>◌, ◌>>=◌, assert, drop,
}
use my_tiny_httpd.Net.Buffer.{
  Buffer, Allocation, cheap_prepend, readable_bytes, contents, append, retrieve, prepend,
}
use my_tiny_httpd.Net.Buffer.Space.{IsValid, readable_bytes-length}
use my_tiny_httpd.Net.Buffer.Append.{Appended, append-Appended}
use my_tiny_httpd.Net.Buffer.Retrieve.{Retrieved, retrieve-Retrieved}

-- `HostToNetwork64` and its kin, read as the bytes in memory, most significant first.
pub host_to_network : ℕ → ℕ → List ℕ
host_to_network zero x = []
host_to_network (suc k) x = host_to_network k (x / 256) ++ x % 256 ∷ []

pub network_to_host : ℕ → List ℕ → ℕ
network_to_host acc [] = acc
network_to_host acc (b ∷ bytes) = network_to_host (acc * 256 + b) bytes

length-host_to_network : (k x : ℕ) → length (host_to_network k x) ≡ k
unfolding host_to_network
length-host_to_network zero x = refl
length-host_to_network (suc k) x = omega (
  arith,
  length-append (host_to_network k (x / 256)) (x % 256 ∷ []),
  length-host_to_network k (x / 256),
)

network_to_host-append :
    (acc : ℕ) (xs : List ℕ) (b : ℕ)
    → network_to_host acc (xs ++ b ∷ []) ≡ network_to_host acc xs * 256 + b
unfolding network_to_host
network_to_host-append acc [] b = refl
network_to_host-append acc (x ∷ xs) b = network_to_host-append (acc * 256 + x) xs b

mod-mul_256 : (x m : ℕ) → 0 < m → (x / 256) % m * 256 + x % 256 ≡ x % (m * 256)
mod-mul_256 x m h =
    sym (mod-eq_of_lt (omega (arith, mod-lt (x / 256) h)))
    ∙ sym (add-mul-mod_self_right low (x / 256 / m) (m * 256))
    ∙ ap (λ n. n % (m * 256)) (omega (arith, div-add-mod' (x / 256) m))
  where
    low : ℕ
    low = (x / 256) % m * 256 + x % 256

-- Network order and back: the value modulo 256 ^ k.
network_to_host-host_to_network : (k x : ℕ) → network_to_host 0 (host_to_network k x) ≡ x % 256 ^ k
unfolding host_to_network network_to_host
network_to_host-host_to_network zero x = omega arith
network_to_host-host_to_network (suc k) x =
    network_to_host-append 0 (host_to_network k (x / 256)) (x % 256)
    ∙ ap (λ n. n * 256 + x % 256) (network_to_host-host_to_network k (x / 256))
    ∙ mod-mul_256 x (256 ^ k) (one-le-pow k 256 (omega arith))
    ∙ ap (λ n. x % n) (sym (pow-suc 256 k))

-- `PeekInt64` and its kin.
pub peek_int : ℕ → Buffer → Outcome ℕ
peek_int k b = do assert (leb k (readable_bytes b)); ok (network_to_host 0 (take k (contents b)))

-- `ReadInt64` and its kin.
pub read_int : ℕ → Buffer → Outcome (ℕ × Buffer)
read_int k b = do value ← peek_int k b; b' ← retrieve k b; ok (value, b')

pub prepend_int : ℕ → ℕ → Buffer → Outcome Buffer
prepend_int k x b = prepend (host_to_network k x) b

pub append_int : Allocation → ℕ → ℕ → Buffer → Outcome Buffer
append_int alloc k x b = append alloc (host_to_network k x) b

-- A read of `k` bytes that gives `x` back and leaves `rest`.
abbrev pub ReadBack : ℕ → ℕ → List ℕ → ℕ × Buffer → Type 0
ReadBack k x rest (value, b') = (value ≡ x % 256 ^ k) × (contents b' ≡ rest) × IsValid b'

-- A buffer that starts with the bytes of `x` gives `x` back, modulo the width, and then holds the
-- bytes behind them.
pub read_int_lem :
    (k x : ℕ) (rest : List ℕ) (b : Buffer)
    → IsValid b
    → contents b ≡ host_to_network k x ++ rest
    → Returns (ReadBack k x rest) (read_int k b)
unfolding read_int peek_int
read_int_lem k x rest b v e =
    rw (le→leb k (readable_bytes b) (omega (arith, readable_bytes-length b v, long))) (
      Returns->>= (Retrieved k b) (ReadBack k x rest) (retrieve k b) _
        (retrieve-Retrieved k b v (omega (arith, long)))
        (λ b' r. (
          ap (network_to_host 0)
                (ap (take k) e ∙ take-append_self k (host_to_network k x) rest full)
              ∙ network_to_host-host_to_network k x,
          r.rest ∙ ap (drop k) e ∙ drop-append_self k (host_to_network k x) rest full,
          r.valid,
        )))
  where
    full : k ≡ length (host_to_network k x)
    full = sym (length-host_to_network k x)

    long : length (contents b) ≡ k + length rest
    long =
        ap length e
        ∙ length-append (host_to_network k x) rest
        ∙ ap (λ n. n + length rest) (length-host_to_network k x)

-- Two integers of `k` and `l` bytes that are appended to an empty valid buffer, whose reserved
-- bytes are free, are read back in this order with their values modulo 256 ^ k and 256 ^ l, and
-- leave it empty, if no size comes near 2 ^ 62.
pub read_int-append_int :
    (alloc : Allocation) (k l x y : ℕ) (b : Buffer)
    → IsValid b
    → contents b ≡ []
    → cheap_prepend ≤ b.reader_index
    → length b.store + k + l + 64 < 2 ^ 62
    → Returns
        (λ (u, v, b'). (u ≡ x % 256 ^ k) × (v ≡ y % 256 ^ l) × (contents b' ≡ []))
        (do
          one ← append_int alloc k x b
          two ← append_int alloc l y one
          (u, three) ← read_int k two
          (v, four) ← read_int l three
          ok (u, v, four))
unfolding append_int
read_int-append_int alloc k l x y b valid e cheap fits =
    Returns->>= (Appended (host_to_network k x) b) Both _ _
      (append-Appended alloc (host_to_network k x) b valid (inl cheap)
        (omega (arith, length-host_to_network k x, valid.inside)))
      (λ one a.
        Returns->>= (Appended (host_to_network l y) one) Both _ _
          (append-Appended alloc (host_to_network l y) one a.valid
            (inl (omega (arith, a.prependable, cheap)))
            (omega (
              arith,
              length-host_to_network l y,
              length-host_to_network k x,
              a.valid.inside,
              a.bounded,
              valid.inside,
            )))
          (λ two a'.
            Returns->>= (ReadBack k x (host_to_network l y)) Both _ _
              (read_int_lem k x (host_to_network l y) two a'.valid (
                a'.extended
                ∙ ap (λ t. t ++ host_to_network l y)
                    (a.extended ∙ ap (λ t. t ++ host_to_network k x) e)))
              (λ (u, three) r.
                Returns->>= (ReadBack l y []) Both _ _
                  (read_int_lem l y [] three r.2 (r.1 ∙ sym (append-nil (host_to_network l y))))
                  (λ (v, four) q. (r.0, q.0, q.1)))))
  where
    Both : ℕ × ℕ × Buffer → Type 0
    Both (u, v, b') = (u ≡ x % 256 ^ k) × (v ≡ y % 256 ^ l) × (contents b' ≡ [])
