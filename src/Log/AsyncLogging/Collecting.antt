-- ===== src/Log/AsyncLogging/Collecting.antt =====
-- The test of the loop in `ThreadFunc` of mytinyhttpd/base/async_logging.cc, and the section that
-- collects the buffers.
use my_tiny_httpd.Prelude.{
  ℕ, ◌≤◌, ◌≡◌, refl, sym, ap, ap₂, ◌∙◌, subst, true, not, inl, inr, List, [], ◌∷◌, ◌++◌, append-nil,
  Option, none, some, Returns-assert, length, take, length-append, Returns, Returns->>=, arith,
  Bool-cases,
}
use my_tiny_httpd.Log.FixedBuffer.{FixedBuffer, text}
use my_tiny_httpd.Log.AsyncLogging.{
  flush, testing, collecting, AsyncLog, pointee, holds_empty, is_empty, test_running, give_next,
  collect_buffers,
}
use my_tiny_httpd.Log.AsyncLogging.Held.{
  texts, delivered, current_text, pending, IsLarge, Spare, Fresh, Current, AllLarge, Backed, Local,
  Inv, texts-append, delivered-append, AllLarge-append, known, pointee-Current,
}

holds_empty-Fresh : (o : Option FixedBuffer) → Fresh o → holds_empty o ≡ true
holds_empty-Fresh none h = elim h [ ]
holds_empty-Fresh (some b) h = ground (arith, h.1)

pub Fresh-Current : (o : Option FixedBuffer) → Fresh o → Current o × (current_text o ≡ [])
Fresh-Current none h = elim h [ ]
Fresh-Current (some b) h = (h.0, ap (λ n. take n b.store) h.1)

pub Fresh-Backed :
    (o : Option FixedBuffer) (n : ℕ) (bs : List FixedBuffer) → Fresh o → Backed n o bs
Fresh-Backed none n bs h = elim h [ ]
Fresh-Backed (some b) n bs h = tt

pub Fresh-Spare : (o : Option FixedBuffer) → Fresh o → Spare o
Fresh-Spare none h = elim h [ ]
Fresh-Spare (some b) h = h

give_next-Fresh :
    (o n : Option FixedBuffer)
    → Spare o
    → Fresh n
    → Fresh (give_next o n).0 × Spare (give_next o n).1
unfolding give_next
give_next-Fresh none n h k = (k, tt)
give_next-Fresh (some b) n h k = (h, Fresh-Spare n k)

give_next-Backed :
    (o n : Option FixedBuffer) (bs : List FixedBuffer) (b : FixedBuffer)
    → Backed 1 o bs
    → Fresh n
    → Backed 2 (give_next o n).1 (bs ++ (b ∷ []))
unfolding give_next
give_next-Backed none n bs b h k = omega (arith, length-append bs (b ∷ []))
give_next-Backed (some c) n bs b h k = Fresh-Backed n 2 (bs ++ (b ∷ [])) k

is_empty-nil : (bs : List FixedBuffer) → bs ≡ [] → is_empty bs ≡ true
is_empty-nil [] h = refl
is_empty-nil (b ∷ bs) h = cc

pub is_empty-cons : (bs : List FixedBuffer) → 1 ≤ length bs → not (is_empty bs) ≡ true
is_empty-cons [] h = absurd (omega arith)
is_empty-cons (b ∷ bs) h = refl

-- The test finds the two spare buffers of the thread.
pub test_running-Inv :
    (bytes : List ℕ) (s : AsyncLog)
    → Inv bytes s
    → Local testing s.new_buffer1 s.new_buffer2 s.buffers_to_write
    → Returns (Inv bytes) (test_running s)
unfolding test_running
test_running-Inv bytes s inv local = elim (Bool-cases s.is_running) [
  | inl e ↦ rw e (
      Returns-assert (Inv bytes) (holds_empty s.new_buffer1) _
        (holds_empty-Fresh s.new_buffer1 local.0)
        (Returns-assert (Inv bytes) (holds_empty s.new_buffer2) _
          (holds_empty-Fresh s.new_buffer2 local.1)
          (Returns-assert (Inv bytes) (is_empty s.buffers_to_write) _
            (is_empty-nil s.buffers_to_write local.2)
            (record {
              current = inv.current;
              next = inv.next;
              backed = inv.backed;
              larges = inv.larges;
              local = local;
              whole = inv.whole;
            }))))
  | inr e ↦ rw e (record {
    current = inv.current;
    next = inv.next;
    backed = inv.backed;
    larges = inv.larges;
    local = local.2;
    whole = λ none_erased.
        ap (λ d. d ++ pending s)
          (delivered-append s.calls (flush ∷ []) ∙ append-nil (delivered s.calls))
        ∙ inv.whole none_erased;
  })
]

pub collect_buffers-Inv :
    (bytes : List ℕ) (s : AsyncLog)
    → Inv bytes s
    → Local collecting s.new_buffer1 s.new_buffer2 s.buffers_to_write
    → Returns (Inv bytes) (collect_buffers s)
unfolding collect_buffers
collect_buffers-Inv bytes s inv local =
    let (current, no_text) = Fresh-Current s.new_buffer1 local.0 in
    let (next, spare) = give_next-Fresh s.next_buffer s.new_buffer2 inv.next local.1 in
    Returns->>= (λ b. (s.current_buffer ≡ some b) × IsLarge b) (Inv bytes)
      (pointee s.current_buffer) _ (pointee-Current s.current_buffer inv.current)
      λ b (e, h). record {
        current = current;
        next = Fresh-Spare (give_next s.next_buffer s.new_buffer2).0 next;
        backed = Fresh-Backed (give_next s.next_buffer s.new_buffer2).0 1 s.buffers_to_write next;
        larges = subst AllLarge (sym local.2) tt;
        local = (
          refl,
          spare,
          AllLarge-append s.buffers (b ∷ []) inv.larges (h, tt),
          omega (arith, length-append s.buffers (b ∷ [])),
          give_next-Backed s.next_buffer s.new_buffer2 s.buffers b inv.backed local.1,
        );
        whole = λ none_erased.
            ap₂ (λ t u. delivered s.calls ++ (t ++ (texts u ++ current_text s.new_buffer1)))
              (texts-append s.buffers (b ∷ [])) local.2
            ∙ ap (λ t. delivered s.calls ++ ((texts s.buffers ++ (text b ++ [])) ++ t)) no_text
            ∙ collected (delivered s.calls) (texts s.buffers) (text b)
            ∙ ap (λ u. delivered s.calls ++ (texts u ++ (texts s.buffers ++ text b))) (sym local.2)
            ∙ known bytes b s e inv none_erased;
      }
  where
    collected : (d b t : List ℕ) → d ++ ((b ++ (t ++ [])) ++ []) ≡ d ++ (b ++ t)
    collected d b t = simp append-nil
