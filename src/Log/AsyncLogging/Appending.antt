-- ===== src/Log/AsyncLogging/Appending.antt =====
-- `Append` of mytinyhttpd/base/async_logging.cc.
use my_tiny_httpd.Prelude.{
  ℕ, ◌+◌, ◌-◌, ◌≡◌, refl, ap, ap₂, ◌∙◌, true, inl, inr, List, [], ◌∷◌, ◌++◌, Option, none, some, ok,
  ◌>>=◌, ltb, ltb→lt, lt→ltb, length, take, replicate, length-replicate, length-append, Returns,
  Returns-map, Returns->>=, arith, Bool-cases,
}
use my_tiny_httpd.Log.FixedBuffer.{FixedBuffer, large_buffer, new_fixed, put, bzero, text}
use my_tiny_httpd.Log.FixedBuffer.Text.{fitting}
use my_tiny_httpd.Log.AsyncLogging.{AsyncLog, pointee, take_next, append_next, append_line}
use my_tiny_httpd.Log.AsyncLogging.Held.{
  texts, delivered, IsLarge, Spare, Inv, texts-append, AllLarge-append, put-IsLarge, moved, longer,
  known, pointee-Current, new-IsLarge,
}

module _ (memory : ℕ → List ℕ) (large : (n : ℕ) → length (memory n) ≡ large_buffer) where
  pub made-IsLarge : (n : ℕ) → IsLarge (new_fixed (memory n))
  unfolding new_fixed
  made-IsLarge n = new-IsLarge (memory n) (large n)

  pub bzero-IsLarge : (n : ℕ) → IsLarge (bzero (new_fixed (memory n)))
  unfolding new_fixed
  bzero-IsLarge n =
      new-IsLarge (replicate (length (memory n)) 0)
        (length-replicate (length (memory n)) 0 ∙ large n)

  take_next-Fresh :
      (o : Option FixedBuffer) (m : ℕ)
      → Spare o
      → IsLarge (take_next memory o m).0 × ((take_next memory o m).0.cur ≡ 0)
  unfolding take_next new_fixed
  take_next-Fresh (some b) m h = h
  take_next-Fresh none m h = (made-IsLarge m, refl)

  append_next-Inv :
      (bytes l : List ℕ) (b : FixedBuffer) (s : AsyncLog)
      → s.current_buffer ≡ some b
      → IsLarge b
      → Inv bytes s
      → Returns (Inv (bytes ++ fitting large_buffer l)) (append_next memory l b s)
  unfolding append_next
  append_next-Inv bytes l b s e h inv =
      let (m, z) = take_next-Fresh s.next_buffer s.made inv.next in
      let fresh = (take_next memory s.next_buffer s.made).0 in
      Returns->>= (λ b'. IsLarge b' × (text b' ≡ fitting large_buffer l))
        (Inv (bytes ++ fitting large_buffer l)) (put l fresh) _
        (Returns-map _ _ (put l fresh) (put-IsLarge l fresh m)
          λ b' g. (g.0, g.1 ∙ ap (λ n. take n fresh.store ++ fitting (large_buffer - n) l) z))
        λ b' g. record {
          current = g.0;
          next = tt;
          backed = omega (arith, length-append s.buffers (b ∷ []));
          larges = AllLarge-append s.buffers (b ∷ []) inv.larges (h, tt);
          local = inv.local;
          whole = λ none_erased.
              ap₂ (λ t u. delivered s.calls ++ (texts s.buffers_to_write ++ (t ++ u)))
                (texts-append s.buffers (b ∷ [])) g.1
              ∙ moved (delivered s.calls) (texts s.buffers_to_write) (texts s.buffers) (text b)
                  (fitting large_buffer l)
              ∙ ap (λ t. t ++ fitting large_buffer l) (known bytes b s e inv none_erased);
        }

  put_here-Inv :
      (bytes l : List ℕ) (b : FixedBuffer) (s : AsyncLog)
      → s.current_buffer ≡ some b
      → IsLarge b
      → ltb (b.cur + length l) (length b.store) ≡ true
      → Inv bytes s
      → Returns
          (Inv (bytes ++ fitting large_buffer l))
          (put l b >>= λ b'. ok (record s { current_buffer = some b' }))
  put_here-Inv bytes l b s e h room inv =
      Returns->>= (λ b'. IsLarge b' × (text b' ≡ text b ++ fitting large_buffer l))
        (Inv (bytes ++ fitting large_buffer l)) (put l b) _
        (Returns-map (λ b'. IsLarge b' × (text b' ≡ text b ++ fitting (large_buffer - b.cur) l)) _
          (put l b) (put-IsLarge l b h) λ b' g. (g.0, g.1 ∙ ap (◌++◌ (text b)) fits))
        λ b' g. record {
          current = g.0;
          next = inv.next;
          backed = inv.backed;
          larges = inv.larges;
          local = inv.local;
          whole = λ none_erased.
              ap (λ t. delivered s.calls ++ (texts s.buffers_to_write ++ (texts s.buffers ++ t)))
                g.1
              ∙ longer (delivered s.calls) (texts s.buffers_to_write) (texts s.buffers) (text b)
                  (fitting large_buffer l)
              ∙ ap (λ t. t ++ fitting large_buffer l) (known bytes b s e inv none_erased);
        }
    where
      fits : fitting (large_buffer - b.cur) l ≡ fitting large_buffer l
      fits = rw (
        lt→ltb (length l) (large_buffer - b.cur)
            (omega (arith, h.large, ltb→lt (b.cur + length l) (length b.store) room)),
        lt→ltb (length l) large_buffer
            (omega (arith, h.large, ltb→lt (b.cur + length l) (length b.store) room)),
      )

  pub append_line-Inv :
      (bytes l : List ℕ) (s : AsyncLog)
      → Inv bytes s
      → Returns (Inv (bytes ++ fitting large_buffer l)) (append_line memory l s)
  unfolding append_line
  append_line-Inv bytes l s inv =
      Returns->>= (λ b. (s.current_buffer ≡ some b) × IsLarge b)
        (Inv (bytes ++ fitting large_buffer l)) (pointee s.current_buffer) _
        (pointee-Current s.current_buffer inv.current)
        λ b (e, h). elim (Bool-cases (ltb (b.cur + length l) (length b.store))) [
          | inl room ↦ rw room (put_here-Inv bytes l b s e h room inv)
          | inr full ↦ rw full (append_next-Inv bytes l b s e h inv)
        ]
