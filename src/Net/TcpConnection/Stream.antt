-- ===== src/Net/TcpConnection/Stream.antt =====
-- The bytes that a connection sends, in mytinyhttpd/net/tcp_connnection.cc: nothing is lost,
-- doubled or put out of order between the calls of Send and the socket.
use my_tiny_httpd.Prelude.{
  ℕ, ◌+◌, ◌^◌, ◌≤◌, ◌<◌, min, ◌≡◌, refl, sym, ap, ◌∙◌, Bool, true, false, not, ◌&&◌, ◌⊎◌, inl, inr,
  List, [], ◌∷◌, ◌++◌, append_assoc, append-nil, Returns, Returns->>=, Returns-assert, Returns-map,
  Bool-cases, le→leb, arith, ◌==◌, ltb, leb, if◌then◌else◌, length, length-drop, take, drop,
  take-append-drop, take-all,
}
use my_tiny_httpd.Net.Buffer.{Allocation, size_sub, cheap_prepend, readable_bytes, contents, append}
use my_tiny_httpd.Net.Buffer.Space.{IsValid, readable_bytes-length}
use my_tiny_httpd.Net.Buffer.Append.{Appended, append-Appended}
use my_tiny_httpd.Net.TcpConnection.{
  Connection, State, disconnected, connecting, connected, disconnecting, WriteAnswer, takes,
  is_connected, is_disconnected, call_if, taken, is_broken, keep_remaining, send_rest, send_in_loop,
  send, write_complete_callback,
}

-- The output side of a connection that was given the bytes `sent` to send.
pub record IsStream (sent : List ℕ) (c : Connection) : Type 0 where
  pub valid : IsValid c.output_buffer
  pub cheap : cheap_prepend ≤ c.output_buffer.reader_index
  -- What the socket took and what is still in the buffer are the bytes, in order.
  pub stream : c.wire ++ contents c.output_buffer ≡ sent
  -- Bytes that wait are waited for, as long as the connection lives.
  pub waiting :
      (is_disconnected c.state ≡ true)
      ⊎ (c.channel_writing ≡ true)
      ⊎ (contents c.output_buffer ≡ [])
  -- The write side is shut down only behind the last byte.
  pub flushed :
      (c.is_shut ≡ false) ⊎ ((is_connected c.state ≡ false) × (contents c.output_buffer ≡ []))

-- The changes that `SendInLoop` makes to a connection.
pub record Sent (sent : List ℕ) (cost : ℕ) (c c' : Connection) : Type 0 where
  pub stream : IsStream sent c'
  pub bounded : length c'.output_buffer.store ≤ length c.output_buffer.store + cost

module _ (alloc : Allocation) where
  keep_remaining-Sent :
      (sent rest : List ℕ) (remaining : ℕ) (c : Connection)
      → IsValid c.output_buffer
      → cheap_prepend ≤ c.output_buffer.reader_index
      → length c.output_buffer.store + length rest + 8 < 2 ^ 63
      → c.is_shut ≡ false
      → c.wire ++ (contents c.output_buffer ++ rest) ≡ sent
      → Returns (Sent sent (length rest + 8) c) (keep_remaining alloc rest remaining c)
  unfolding keep_remaining
  keep_remaining-Sent sent rest remaining c v p fits unshut same =
      Returns->>= (Appended rest c.output_buffer) (Sent sent (length rest + 8) c)
        (append alloc rest c.output_buffer) _
        (append-Appended alloc rest c.output_buffer v (inl p) (omega (arith, v.inside)))
        (λ b a. record {
          stream = record {
            valid = a.valid;
            cheap = elim a.prependable [ inl e ↦ omega (arith, e, p) | inr e ↦ omega (arith, e) ];
            stream = ap (λ t. c.wire ++ t) a.extended ∙ same;
            waiting = inr (inl refl);
            flushed = inl unshut;
          };
          bounded = omega (arith, a.bounded, v.inside);
        })

  send_rest-Sent :
      (before bytes : List ℕ) (n : ℕ) (c : Connection)
      → IsStream (before ++ take n bytes) c
      → n ≤ length bytes
      → c.is_shut ≡ false
      → length c.output_buffer.store + length bytes + 8 < 2 ^ 62
      → Returns (Sent (before ++ bytes) (length bytes + 8) c) (send_rest alloc bytes n false c)
  unfolding send_rest
  send_rest-Sent before bytes n c s h unshut fits =
      Returns-assert (Sent (before ++ bytes) (length bytes + 8) c) (leb remaining (length bytes)) _
        (le→leb remaining (length bytes) (omega arith))
        (elim (Bool-cases (ltb 0 remaining)) [
          | inl e ↦ rw e (
              Returns-map (Sent (before ++ bytes) (length (drop n bytes) + 8) c)
                (Sent (before ++ bytes) (length bytes + 8) c)
                (keep_remaining alloc (drop n bytes) remaining c)
                (keep_remaining-Sent (before ++ bytes) (drop n bytes) remaining c s.valid s.cheap
                  (omega (arith, length-drop n bytes)) unshut whole)
                (λ c' k. record {
                  stream = k.stream;
                  bounded = omega (arith, k.bounded, length-drop n bytes);
                }))
          | inr e ↦ rw e (record {
            stream = record {
              valid = s.valid;
              cheap = s.cheap;
              stream = s.stream ∙ ap (λ t. before ++ t) (take-all n bytes (all e));
              waiting = s.waiting;
              flushed = s.flushed;
            };
            bounded = omega arith;
          })
        ])
    where
      remaining : ℕ
      remaining = size_sub (length bytes) n

      all : ltb 0 remaining ≡ false → length bytes ≤ n
      all e = ground arith

      whole : c.wire ++ (contents c.output_buffer ++ drop n bytes) ≡ before ++ bytes
      whole =
          sym (append_assoc c.wire (contents c.output_buffer) (drop n bytes))
          ∙ ap (λ t. t ++ drop n bytes) s.stream
          ∙ append_assoc before (take n bytes) (drop n bytes)
          ∙ ap (λ t. before ++ t) (take-append-drop n bytes)

  -- The bytes that the socket took at once.
  idle-Sent :
      (sent bytes : List ℕ) (n : ℕ) (b : Bool) (c : Connection)
      → IsStream sent c
      → contents c.output_buffer ≡ []
      → c.is_shut ≡ false
      → n ≤ length bytes
      → length c.output_buffer.store + length bytes + 8 < 2 ^ 62
      → Returns (Sent (sent ++ bytes) (length bytes + 8) c) (
          send_rest alloc bytes n false
            (call_if b write_complete_callback (record c { wire = c.wire ++ take n bytes })))
  idle-Sent sent bytes n b c s none unshut h fits =
      Returns-map (Sent (sent ++ bytes) (length bytes + 8) c')
        (Sent (sent ++ bytes) (length bytes + 8) c) (send_rest alloc bytes n false c')
        (send_rest-Sent sent bytes n c'
          (record {
            valid = s.valid;
            cheap = s.cheap;
            stream = moved;
            waiting = inr (inr none);
            flushed = inl unshut;
          })
          h unshut fits)
        (λ c'' k. record { stream = k.stream; bounded = k.bounded })
    where
      c' : Connection
      c' = call_if b write_complete_callback (record c { wire = c.wire ++ take n bytes })

      moved : (c.wire ++ take n bytes) ++ contents c.output_buffer ≡ sent ++ take n bytes
      moved =
          ap (λ t. (c.wire ++ take n bytes) ++ t) none
          ∙ append-nil (c.wire ++ take n bytes)
          ∙ ap (λ t. t ++ take n bytes)
              (sym (append-nil c.wire) ∙ ap (λ t. c.wire ++ t) (sym none) ∙ s.stream)

  -- A message that is given up leaves the connection as it is.
  broken-Sent :
      (sent bytes : List ℕ) (b : Bool) (c : Connection)
      → IsStream sent c
      → length c.output_buffer.store + length bytes + 8 < 2 ^ 62
      → Returns (Sent sent (length bytes + 8) c) (
          send_rest alloc bytes 0 true
            (call_if b write_complete_callback (record c { wire = c.wire ++ [] })))
  unfolding send_rest
  broken-Sent sent bytes b c s fits =
      Returns-assert (Sent sent (length bytes + 8) c)
        (leb (size_sub (length bytes) 0) (length bytes)) _
        (le→leb (size_sub (length bytes) 0) (length bytes) (omega arith))
        (record {
          stream = record {
            valid = s.valid;
            cheap = s.cheap;
            stream = ap (λ t. t ++ contents c.output_buffer) (append-nil c.wire) ∙ s.stream;
            waiting = s.waiting;
            flushed = s.flushed;
          };
          bounded = omega arith;
        })

-- Whether `SendInLoop` tries the socket at once.
abbrev pub is_idle : Connection → Bool
is_idle c = not c.channel_writing && readable_bytes c.output_buffer == 0

-- The bytes that a call of `Send` leaves to be sent: none on a connection that is not up, or on
-- one whose peer turns out to be gone.
abbrev pub accepted : WriteAnswer → List ℕ → Connection → List ℕ
accepted answer bytes c =
    if is_connected c.state then (if is_broken answer && is_idle c then [] else bytes) else []

connected_lem : (s : State) → is_connected s ≡ true → is_disconnected s ≡ false
connected_lem connected h = refl
connected_lem disconnected h = cc
connected_lem connecting h = refl
connected_lem disconnecting h = refl

pub length_nil : (xs : List ℕ) → length xs ≡ 0 → xs ≡ []
length_nil [] h = refl
length_nil (x ∷ xs) h = absurd (omega arith)

and_false : (b : Bool) → (b && false) ≡ false
and_false true = refl
and_false false = refl

unshut_lem :
    {sent : List ℕ} (c : Connection)
    → IsStream sent c
    → is_connected c.state ≡ true
    → c.is_shut ≡ false
unshut_lem c s h = elim s.flushed [ inl e ↦ e | inr (e, f) ↦ absurd (no (sym e ∙ h)) ]
  where
    no : false ≡ true → ⊥
    no e = cc

idle_lem :
    (c : Connection) → IsValid c.output_buffer → is_idle c ≡ true → contents c.output_buffer ≡ []
idle_lem c v h = elim (Bool-cases c.channel_writing) [
  | inl e ↦ absurd (no (rw e at h))
  | inr e ↦ length_nil (contents c.output_buffer) (counted (rw e at h))
]
  where
    no : false ≡ true → ⊥
    no e = cc

    counted : (readable_bytes c.output_buffer == 0) ≡ true → length (contents c.output_buffer) ≡ 0
    counted e = ground (arith, readable_bytes-length c.output_buffer v)

module _ (alloc : Allocation) where
  tried-Sent :
      (answer : WriteAnswer) (sent bytes : List ℕ) (b : Bool) (c : Connection)
      → IsStream sent c
      → contents c.output_buffer ≡ []
      → c.is_shut ≡ false
      → length c.output_buffer.store + length bytes + 8 < 2 ^ 62
      → Returns
          (Sent (sent ++ (if is_broken answer && true then [] else bytes)) (length bytes + 8) c)
          (send_rest alloc bytes (taken answer (length bytes)) (is_broken answer) (
            call_if b write_complete_callback
              (record c { wire = c.wire ++ take (taken answer (length bytes)) bytes })))
  tried-Sent (takes n) sent bytes b c s none unshut fits =
      idle-Sent alloc sent bytes (min n (length bytes)) b c s none unshut (omega arith) fits
  tried-Sent WriteAnswer.would_block sent bytes b c s none unshut fits =
      idle-Sent alloc sent bytes 0 b c s none unshut (omega arith) fits
  tried-Sent WriteAnswer.fails sent bytes b c s none unshut fits =
      idle-Sent alloc sent bytes 0 b c s none unshut (omega arith) fits
  tried-Sent WriteAnswer.broken sent bytes b c s none unshut fits =
      rw (append-nil sent) (broken-Sent alloc sent bytes b c s fits)

  pub send-Sent :
      (answer : WriteAnswer) (sent bytes : List ℕ) (c : Connection)
      → IsStream sent c
      → length c.output_buffer.store + length bytes + 8 < 2 ^ 62
      → Returns
          (Sent (sent ++ accepted answer bytes c) (length bytes + 8) c)
          (send alloc answer bytes c)
  unfolding send send_in_loop
  send-Sent answer sent bytes c s fits = elim (Bool-cases (is_connected c.state)) [
    | inl e ↦ elim (Bool-cases (is_idle c)) [
      | inl f ↦
          rw (e, connected_lem c.state e, f)
            (tried-Sent answer sent bytes _ c s (idle_lem c s.valid f) (unshut_lem c s e) fits)
      | inr f ↦
          rw (e, connected_lem c.state e, f, and_false (is_broken answer))
            (send_rest-Sent alloc sent bytes 0 c (rw (append-nil sent) s) (omega arith)
              (unshut_lem c s e) fits)
    ]
    | inr e ↦ rw (e, append-nil sent) (record { stream = s; bounded = omega arith })
  ]
