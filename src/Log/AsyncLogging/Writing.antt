-- ===== src/Log/AsyncLogging/Writing.antt =====
-- How `ThreadFunc` of mytinyhttpd/base/async_logging.cc writes what it has collected.
use my_tiny_httpd.Prelude.{
  ℕ, suc, ◌+◌, ◌-◌, ◌≤◌, ◌≡◌, refl, sym, ap, ap₂, ◌∙◌, not, inl, inr, List, [], ◌∷◌, ◌++◌,
  append-nil, append_assoc, Option, none, some, ok, ◌>>=◌, Returns-assert, ltb, ltb→lt, length,
  take, length-take, take-take, Returns, Returns-map, Returns->>=, arith, Bool-cases,
}
use my_tiny_httpd.Log.FixedBuffer.{FixedBuffer, reset_cur}
use my_tiny_httpd.Log.AsyncLogging.{
  Call, append, flush, testing, writing, AsyncLog, is_empty, unsnoc, refill, max_buffers, appends,
  write_buffers,
}
use my_tiny_httpd.Log.AsyncLogging.Held.{
  texts, delivered, current_text, IsLarge, Spare, Fresh, AllLarge, Backed, Local, Inv,
  delivered-append, delivered-appends, AllLarge-take, new-IsLarge,
}
use my_tiny_httpd.Log.AsyncLogging.Collecting.{is_empty-cons}

reset_cur-IsLarge : (b : FixedBuffer) → IsLarge b → IsLarge (reset_cur b)
reset_cur-IsLarge b h = new-IsLarge b.store h.large

-- The last buffer of a list and those in front of it.
unsnoc-AllLarge :
    (b : FixedBuffer) (bs : List FixedBuffer)
    → AllLarge (b ∷ bs)
    → AllLarge (unsnoc b bs).0 × IsLarge (unsnoc b bs).1 × (length (unsnoc b bs).0 ≡ length bs)
unsnoc-AllLarge b [] h = (tt, h.0, refl)
unsnoc-AllLarge b (c ∷ bs) h =
    let (front, last, len) = unsnoc-AllLarge c bs h.1 in ((h.0, front), last, ap suc len)

refill-none :
    (bs : List FixedBuffer)
    → AllLarge bs
    → 1 ≤ length bs
    → Returns (λ r. Fresh r.0 × AllLarge r.1 × (suc (length r.1) ≡ length bs)) (refill none bs)
unfolding refill
refill-none [] h k = absurd (omega arith)
refill-none (b ∷ bs) h k =
    let (front, last, len) = unsnoc-AllLarge b bs h in
    ((reset_cur-IsLarge (unsnoc b bs).1 last, refl), front, ap suc len)

refill-Fresh :
    (o : Option FixedBuffer) (bs : List FixedBuffer)
    → Spare o
    → AllLarge bs
    → Backed 1 o bs
    → Returns (λ r. Fresh r.0) (refill o bs)
unfolding refill
refill-Fresh none bs h a k =
    Returns-map _ (λ r. Fresh r.0) (refill none bs) (refill-none bs a k) λ r p. p.0
refill-Fresh (some b) bs h a k = h

Backed-length :
    (o : Option FixedBuffer) (m n : ℕ) (bs cs : List FixedBuffer)
    → Backed m o bs
    → (m ≤ length bs → n ≤ length cs)
    → Backed n o cs
Backed-length none m n bs cs h k = k h
Backed-length (some b) m n bs cs h k = tt

refill_both :
    (n1 n2 : Option FixedBuffer) (bs : List FixedBuffer)
    → n1 ≡ none
    → Spare n2
    → AllLarge bs
    → 1 ≤ length bs
    → Backed 2 n2 bs
    → Returns (λ r. Fresh r.0 × Returns (λ q. Fresh q.0) (refill n2 r.1)) (refill n1 bs)
refill_both none n2 bs e h a k b =
    Returns-map _ _ (refill none bs) (refill-none bs a k) λ r (f, rest, len).
      (f, refill-Fresh n2 r.1 h rest (Backed-length n2 2 1 bs r.1 b (λ m. omega arith)))
refill_both (some c) n2 bs e h a k b = cc

-- Both refills in a row give empty buffers.
abbrev pub Refills : Option FixedBuffer → Option FixedBuffer × List FixedBuffer → Type 0
Refills n2 r = Fresh r.0 × Returns (λ q. Fresh q.0) (refill n2 r.1)

module _ (s : AsyncLog) (local : Local writing s.new_buffer1 s.new_buffer2 s.buffers_to_write) where
  pub refill-Refills :
      (rest : List FixedBuffer)
      → AllLarge (take 2 rest)
      → length (take 2 rest) ≡ length (take 2 s.buffers_to_write)
      → Returns (Refills s.new_buffer2) (refill s.new_buffer1 (take 2 rest))
  refill-Refills rest larges same =
      let two = length-take 2 s.buffers_to_write in
      refill_both s.new_buffer1 s.new_buffer2 (take 2 rest) local.0 local.1 larges
        (omega (arith, local.3))
        (Backed-length s.new_buffer2 2 2 s.buffers_to_write (take 2 rest) local.4
          (λ m. omega arith))

-- Writing `rest`, which is all that there is unless something is erased.
module _ (bytes : List ℕ) (s : AsyncLog) (inv : Inv bytes s)
    (local : Local writing s.new_buffer1 s.new_buffer2 s.buffers_to_write) where
  write_rest-Inv :
      (rest : List FixedBuffer) (noted : List Call)
      → AllLarge (take 2 rest)
      → length (take 2 rest) ≡ length (take 2 s.buffers_to_write)
      → (length s.buffers_to_write - length rest ≡ 0 → (rest ≡ s.buffers_to_write) × (noted ≡ []))
      → Returns (Inv bytes) (do
        (b1, rest1) ← refill s.new_buffer1 (take 2 rest)
        (b2, rest2) ← refill s.new_buffer2 rest1
        ok (record s {
          phase = testing;
          new_buffer1 = b1;
          new_buffer2 = b2;
          buffers_to_write = [];
          erased = s.erased + (length s.buffers_to_write - length rest);
          calls = s.calls ++ (noted ++ (appends rest ++ (flush ∷ [])));
        }))
  write_rest-Inv rest noted larges same all =
      Returns->>= (Refills s.new_buffer2) (Inv bytes) (refill s.new_buffer1 (take 2 rest)) _
        (refill-Refills s local rest larges same)
        λ r (f1, more).
          Returns->>= (λ q. Fresh q.0) (Inv bytes) (refill s.new_buffer2 r.1) _ more
            λ q f2. record {
              current = inv.current;
              next = inv.next;
              backed = inv.backed;
              larges = inv.larges;
              local = (f1, f2, refl);
              whole = λ none_erased. written none_erased;
            }
    where
      written :
          s.erased + (length s.buffers_to_write - length rest) ≡ 0
          → delivered (s.calls ++ (noted ++ (appends rest ++ (flush ∷ []))))
              ++ (texts s.buffers ++ current_text s.current_buffer)
            ≡ bytes
      written h =
          let (same_rest, no_note) = all (omega arith) in
          let held = texts s.buffers ++ current_text s.current_buffer in
          ap₂ (λ n t. delivered (s.calls ++ (n ++ (appends t ++ (flush ∷ [])))) ++ held) no_note
            same_rest
          ∙ ap (λ d. d ++ held)
              (delivered-append s.calls (appends s.buffers_to_write ++ (flush ∷ []))
                ∙ ap (◌++◌ (delivered s.calls)) (
                    delivered-appends s.buffers_to_write (flush ∷ [])
                    ∙ append-nil (texts s.buffers_to_write)))
          ∙ append_assoc (delivered s.calls) (texts s.buffers_to_write) held
          ∙ inv.whole (omega arith)

  pub write_buffers-Inv : (note : List ℕ) → Returns (Inv bytes) (write_buffers note s)
  unfolding write_buffers
  write_buffers-Inv note =
      Returns-assert (Inv bytes) (not (is_empty s.buffers_to_write)) _
        (is_empty-cons s.buffers_to_write local.3)
        (elim (Bool-cases (ltb max_buffers (length s.buffers_to_write))) [
          | inl e ↦ rw e (
              write_rest-Inv (take 2 s.buffers_to_write) (append (take 255 note) ∷ [])
                (AllLarge-take 2 (take 2 s.buffers_to_write) two)
                (ap length (sym (take-take 2 2 s.buffers_to_write (omega arith))))
                (λ z. absurd (
                  omega (
                    arith,
                    z,
                    ltb→lt max_buffers (length s.buffers_to_write) e,
                    length-take 2 s.buffers_to_write,
                  ))))
          | inr e ↦ rw e (write_rest-Inv s.buffers_to_write [] two refl (λ z. (refl, refl)))
        ])
    where
      two : AllLarge (take 2 s.buffers_to_write)
      two = AllLarge-take 2 s.buffers_to_write local.2
