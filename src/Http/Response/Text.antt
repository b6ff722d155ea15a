-- ===== src/Http/Response/Text.antt =====
-- What each operation of mytinyhttpd/http/http_response.cc adds to the response.
use my_tiny_httpd.Prelude.{
  ℕ, ◌+◌, ◌<◌, ◌≡◌, refl, subst, ap, ◌∙◌, Bool, inl, inr, List, [], ◌∷◌, ◌++◌, ok, length,
  length-append, append_assoc, append-nil, arith, ◌^◌, Returns, Returns->>=, Returns-map,
}
use my_tiny_httpd.Net.Buffer.{Buffer, Allocation, initial_size, append, contents, cheap_prepend}
use my_tiny_httpd.Net.Buffer.Space.{IsValid, length-contents, new-IsValid, new-empty}
use my_tiny_httpd.Net.Buffer.Append.{Appended, append-Appended}
use my_tiny_httpd.Http.Response.{
  Response, AppendState, append_nothing, new_response, append_all, write,
}

-- A response in the given state that holds exactly the text.
pub record Holds (state : AppendState) (close : Bool) (text : List ℕ) (r : Response) : Type 0 where
  pub at : r.state ≡ state
  pub closes : r.is_close_connection ≡ close
  pub valid : IsValid r.buffer
  pub start : r.buffer.reader_index ≡ cheap_prepend
  pub written : contents r.buffer ≡ text

abbrev pub concat : List (List ℕ) → List ℕ
concat [] = []
concat (t ∷ ts) = t ++ concat ts

-- The buffer of a response: the text begins behind the reserved bytes.
pub record Filled (text : List ℕ) (b : Buffer) : Type 0 where
  pub valid : IsValid b
  pub start : b.reader_index ≡ cheap_prepend
  pub written : contents b ≡ text

unfoldable pub room : ℕ
room = 2 ^ 62

module _ (alloc : Allocation) where
  pub append-Filled :
      (text more : List ℕ) (b : Buffer)
      → Filled text b
      → length (text ++ more) < room
      → Returns (Filled (text ++ more)) (append alloc more b)
  unfolding room
  append-Filled text more b f h =
      Returns-map (Appended more b) (Filled (text ++ more)) (append alloc more b)
        (append-Appended alloc more b f.valid (inl (omega (arith, f.start)))
          (omega (arith, size, length-append text more)))
        (λ b' a. record {
          valid = a.valid;
          start = elim a.prependable [ inl e ↦ e ∙ f.start | inr e ↦ e ];
          written = a.extended ∙ ap (λ t. t ++ more) f.written;
        })
    where
      size : b.writer_index ≡ 8 + length text
      size = omega (arith, length-contents b f.valid, f.start, f.valid.ordered, ap length f.written)

  append_all-Filled :
      (texts : List (List ℕ)) (text : List ℕ) (b : Buffer)
      → Filled text b
      → length (text ++ concat texts) < room
      → Returns (Filled (text ++ concat texts)) (append_all alloc texts b)
  unfolding append_all
  append_all-Filled [] text b f h = rw (append-nil text) f
  append_all-Filled (t ∷ ts) text b f h =
      Returns->>= (Filled (text ++ t)) (Filled (text ++ (t ++ concat ts))) (append alloc t b)
        (append_all alloc ts)
        (append-Filled text t b f (
          omega (
            arith,
            h,
            length-append text t,
            length-append text (t ++ concat ts),
            length-append t (concat ts),
          )))
        (λ b' f'.
          rw (← append_assoc text t (concat ts))
            (append_all-Filled ts (text ++ t) b' f' (rw (append_assoc text t (concat ts)) h)))

  pub new_response-Holds :
      (close : Bool) → Returns (Holds append_nothing close []) (ok (new_response alloc close))
  unfolding new_response
  new_response-Holds close = record {
    at = refl;
    closes = refl;
    valid = (new-IsValid alloc initial_size (omega arith)).0;
    start = (new-empty alloc initial_size).0;
    written = (new-empty alloc initial_size).1;
  }

  pub write-Holds :
      (state : AppendState) (texts : List (List ℕ)) {old : AppendState} {close : Bool}
      {text : List ℕ} (r : Response)
      → Holds old close text r
      → length (text ++ concat texts) < room
      → Returns (Holds state close (text ++ concat texts)) (write alloc state texts r)
  unfolding write
  write-Holds state texts {old} {close} {text} r h l =
      Returns->>= (Filled (text ++ concat texts)) (Holds state close (text ++ concat texts))
        (append_all alloc texts r.buffer) _
        (append_all-Filled texts text r.buffer
          (record { valid = h.valid; start = h.start; written = h.written }) l)
        (λ b f. record {
          at = refl;
          closes = h.closes;
          valid = f.valid;
          start = f.start;
          written = f.written;
        })

  pub write_one-Holds :
      (state : AppendState) (piece : List ℕ) {old : AppendState} {close : Bool} {text : List ℕ}
      (r : Response)
      → Holds old close text r
      → length (text ++ piece) < room
      → Returns (Holds state close (text ++ piece)) (write alloc state (piece ∷ []) r)
  write_one-Holds state piece {old} {close} {text} r h l =
      subst Written (append-nil piece)
        (write-Holds state (piece ∷ []) r h (rw (append-nil piece) l))
    where
      Written : List ℕ → Type 0
      Written t = Returns (Holds state close (text ++ t)) (write alloc state (piece ∷ []) r)
