-- ===== src/Net/Buffer/Retrieve.antt =====
-- What the `Retrieve` family of mytinyhttpd/net/buffer.h do to the readable bytes of a valid buffer.
use my_tiny_httpd.Prelude.{
  drop-all, ℕ, ◌+◌, ◌≤◌, ◌<◌, max, ◌≡◌, refl, sym, ap, ◌∙◌, inl, inr, List, ◌++◌, arith, fault,
  assertion, Returns, Returns->>=, ltb, le→leb, lt→leb, Bool-cases, length, take, drop, length-take,
  take-append-drop,
}
use my_tiny_httpd.Net.Buffer.{
  Buffer, size_add, size_sub, cheap_prepend, readable_bytes, contents, slice, retrieve,
  retrieve_all, retrieve_until, retrieve_as_string,
}
use my_tiny_httpd.Net.Buffer.Contents.{slice-empty, slice-drop}
use my_tiny_httpd.Net.Buffer.Space.{IsValid, length-contents, readable_bytes-length}

-- What `Retrieve` leaves: all but the first `n` readable bytes.
pub record Retrieved (n : ℕ) (b b' : Buffer) : Type 0 where
  pub valid : IsValid b'
  pub rest : contents b' ≡ drop n (contents b)
  pub store : b'.store ≡ b.store
  pub cheap : cheap_prepend ≤ b.reader_index → cheap_prepend ≤ b'.reader_index
  pub bounded : b'.writer_index ≤ max b.writer_index cheap_prepend

-- `Retrieve` removes exactly the first `n` readable bytes.
pub retrieve-Retrieved :
    (n : ℕ) (b : Buffer)
    → IsValid b
    → n ≤ length (contents b)
    → Returns (Retrieved n b) (retrieve n b)
unfolding retrieve retrieve_all
retrieve-Retrieved n b v h =
    rw (le→leb n (readable_bytes b) (omega (arith, readable_bytes-length b v)))
      (elim (Bool-cases (ltb n (readable_bytes b))) [
        | inl e ↦ rw e (record {
          valid = record {
            ordered = omega (arith, length-contents b v, v.inside, v.small);
            inside = v.inside;
            held = v.held;
            reserved = v.reserved;
            small = v.small;
          };
          rest =
              ap (λ i. slice b.store i b.writer_index) moved
              ∙ slice-drop b.store b.reader_index b.writer_index n
                  (omega (arith, length-contents b v));
          store = refl;
          cheap = λ c. omega (arith, moved);
          bounded = omega arith;
        })
        | inr e ↦ rw e (record {
          valid = record {
            ordered = omega arith;
            inside = v.reserved;
            held = v.held;
            reserved = v.reserved;
            small = v.small;
          };
          rest =
              slice-empty b.store 8
              ∙ sym (drop-all n (contents b) (ground (arith, readable_bytes-length b v)));
          store = refl;
          cheap = λ c. omega arith;
          bounded = omega arith;
        })
      ])
  where
    moved : size_add b.reader_index n ≡ b.reader_index + n
    moved = omega (arith, length-contents b v, v.inside, v.small)

-- `Retrieve` of more bytes than a valid buffer has fails its assertion.
pub retrieve_too_much :
    (n : ℕ) (b : Buffer) → IsValid b → length (contents b) < n → retrieve n b ≡ fault assertion
unfolding retrieve
retrieve_too_much n b v h =
    rw (lt→leb n (readable_bytes b) (omega (arith, readable_bytes-length b v)))

-- `RetrieveAsString` on a valid buffer returns its first `n` bytes, if there are as many, and
-- leaves a valid buffer with the rest.
pub retrieve_as_string_lem :
    (n : ℕ) (b : Buffer)
    → IsValid b
    → n ≤ length (contents b)
    → Returns
        (λ (text, b'). (text ++ contents b' ≡ contents b) × (length text ≡ n) × Retrieved n b b')
        (retrieve_as_string n b)
unfolding retrieve_as_string
retrieve_as_string_lem n b v h =
    rw (le→leb n (readable_bytes b) (omega (arith, readable_bytes-length b v))) (
      Returns->>= (Retrieved n b) Split (retrieve n b) _ (retrieve-Retrieved n b v h) (λ b' r. (
        ap (λ l. take n (contents b) ++ l) r.rest ∙ take-append-drop n (contents b),
        omega (arith, length-take n (contents b)),
        r,
      )))
  where
    Split : List ℕ × Buffer → Type 0
    Split (text, b') = (text ++ contents b' ≡ contents b) × (length text ≡ n) × Retrieved n b b'

-- `RetrieveUntil` drops the bytes in front of the given one.
pub retrieve_until-Retrieved :
    (n : ℕ) (b : Buffer)
    → IsValid b
    → n ≤ length (contents b)
    → Returns (Retrieved n b) (retrieve_until (b.reader_index + n) b)
unfolding retrieve_until
retrieve_until-Retrieved n b v h =
    rw
      (
        le→leb b.reader_index (b.reader_index + n) (omega arith),
        le→leb (b.reader_index + n) b.writer_index (omega (arith, length-contents b v)),
        span,
      )
      (retrieve-Retrieved n b v h)
  where
    span : size_sub (b.reader_index + n) b.reader_index ≡ n
    span = omega (arith, length-contents b v, v.inside, v.small)
