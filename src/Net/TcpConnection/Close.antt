-- ===== src/Net/TcpConnection/Close.antt =====
-- Writing, shutting down and closing a connection in mytinyhttpd/net/tcp_connnection.cc keep the
-- bytes in order, and whole runs of a connection.
use my_tiny_httpd.Prelude.{
  ℕ, ap₂, subst, sym, ◌+◌, ◌^◌, ◌≤◌, ◌<◌, ◌≡◌, refl, ap, ◌∙◌, Bool, true, false, ◌&&◌, ◌⊎◌, inl,
  inr, List, [], ◌∷◌, ◌++◌, append_assoc, append-nil, Outcome, ok, ◌>>=◌, Returns, Returns->>=,
  Bool-cases, arith, ◌==◌, ltb, if◌then◌else◌, length, take, drop, take-append-drop, drop-nil,
}
use my_tiny_httpd.Net.Buffer.{Buffer, Allocation, readable_bytes, contents, retrieve}
use my_tiny_httpd.Net.Buffer.Space.{IsValid, readable_bytes-length}
use my_tiny_httpd.Net.Buffer.Retrieve.{Retrieved, retrieve-Retrieved}
use my_tiny_httpd.Net.TcpConnection.{
  Connection, State, WriteAnswer, is_connected, is_disconnecting, is_open, taken, shutdown,
  force_close, handle_write, drained,
}
use my_tiny_httpd.Net.TcpConnection.Stream.{IsStream, Sent, accepted, send-Sent, length_nil}
use my_tiny_httpd.Net.TcpConnection.Life.{
  Operation, sends, writable, establishes, destroys, reads_end, shuts_down,
  shuts_down_and_force_closes, force_closes, force_closes_later, runs_force_close, starts_read,
  stops_read, operate, after_state, after_reading, after_registered, Allowed, AllAllowed, IsQuiet,
  Steps,
}
use my_tiny_httpd.Net.TcpConnection.Moves.{Returns-Keeps, operate-Steps}
use my_tiny_httpd.Net.TcpConnection.Shutdown.{
  handle_close-Sent, shutdown_and_force_close_after-Sent, force_close_with_delay-Sent,
  run_force_close-Sent, start_read-Sent, stop_read-Sent, connect_established-Sent,
  connect_destroyed-Sent, disconnecting_not_connected, shutdown-IsStream, force_close-IsStream,
}

and_left : (a b : Bool) → (a && b) ≡ true → a ≡ true
and_left true b h = refl
and_left false b h = cc

pub handle_write-Sent :
    (answer : WriteAnswer) (sent : List ℕ) (c : Connection)
    → IsStream sent c
    → Returns (Sent sent 0 c) (handle_write answer c)
unfolding handle_write
handle_write-Sent answer sent c s = elim (Bool-cases (c.channel_writing && ltb 0 n)) [
  | inl e ↦ rw e (
      Returns->>= (Retrieved n c.output_buffer) (Sent sent 0 c) (retrieve n c.output_buffer) _
        (retrieve-Retrieved n c.output_buffer s.valid (enough answer)) (λ left r. wrote left e r))
  | inr e ↦ rw e (record { stream = s; bounded = omega arith })
]
  where
    n : ℕ
    n = taken answer (readable_bytes c.output_buffer)

    enough :
        (a : WriteAnswer)
        → taken a (readable_bytes c.output_buffer) ≤ length (contents c.output_buffer)
    enough (WriteAnswer.takes k) = omega (arith, readable_bytes-length c.output_buffer s.valid)
    enough WriteAnswer.would_block = omega arith
    enough WriteAnswer.broken = omega arith
    enough WriteAnswer.fails = omega arith

    moved :
        (left : Buffer)
        → contents left ≡ drop n (contents c.output_buffer)
        → (c.wire ++ take n (contents c.output_buffer)) ++ contents left ≡ sent
    moved left e =
        ap (λ t. (c.wire ++ take n (contents c.output_buffer)) ++ t) e
        ∙ append_assoc c.wire (take n (contents c.output_buffer))
            (drop n (contents c.output_buffer))
        ∙ ap (λ t. c.wire ++ t) (take-append-drop n (contents c.output_buffer))
        ∙ s.stream

    still_flushed :
        (left : Buffer)
        → contents left ≡ drop n (contents c.output_buffer)
        → (c.is_shut ≡ false) ⊎ ((is_connected c.state ≡ false) × (contents left ≡ []))
    still_flushed left e = elim s.flushed [
      | inl f ↦ inl f
      | inr (f, g) ↦ inr (f, e ∙ ap (drop n) g ∙ drop-nil n)
    ]

    moved_on : Buffer → Connection
    moved_on left = record c {
      output_buffer = left;
      wire = c.wire ++ take n (contents c.output_buffer);
    }

    size :
        (left : Buffer)
        → left.store ≡ c.output_buffer.store
        → length left.store ≤ length c.output_buffer.store + 0
    size left e = omega (arith, ap length e)

    finished :
        (left : Buffer)
        → Retrieved n c.output_buffer left
        → contents left ≡ []
        → Sent sent 0 c (drained (moved_on left))
    finished left r none = elim (Bool-cases (is_disconnecting c.state)) [
      | inl d ↦ rw d (record {
        stream = record {
          valid = r.valid;
          cheap = r.cheap s.cheap;
          stream = moved left r.rest;
          waiting = inr (inr none);
          flushed = inr (disconnecting_not_connected c.state d, none);
        };
        bounded = size left r.store;
      })
      | inr d ↦ rw d (record {
        stream = record {
          valid = r.valid;
          cheap = r.cheap s.cheap;
          stream = moved left r.rest;
          waiting = inr (inr none);
          flushed = still_flushed left r.rest;
        };
        bounded = size left r.store;
      })
    ]

    emptied :
        (left : Buffer) → IsValid left → (readable_bytes left == 0) ≡ true → contents left ≡ []
    emptied left v f = length_nil (contents left) (ground (arith, readable_bytes-length left v))

    wrote :
        (left : Buffer)
        → (c.channel_writing && ltb 0 n) ≡ true
        → Retrieved n c.output_buffer left
        → Sent sent 0 c
            (if readable_bytes left == 0 then drained (moved_on left) else moved_on left)
    wrote left e r = elim (Bool-cases (readable_bytes left == 0)) [
      | inl f ↦ rw f (finished left r (emptied left r.valid f))
      | inr f ↦ rw f (record {
        stream = record {
          valid = r.valid;
          cheap = r.cheap s.cheap;
          stream = moved left r.rest;
          waiting = inr (inl (and_left c.channel_writing (ltb 0 n) e));
          flushed = still_flushed left r.rest;
        };
        bounded = size left r.store;
      })
    ]

shutdown_same : (c : Connection) → (shutdown c).output_buffer ≡ c.output_buffer
unfolding shutdown
shutdown_same c = elim (Bool-cases (is_connected c.state)) [ inl e ↦ rw e refl | inr e ↦ rw e refl ]

force_close_same : (c : Connection) → (force_close c).output_buffer ≡ c.output_buffer
unfolding force_close
force_close_same c = elim (Bool-cases (is_open c.state)) [ inl e ↦ rw e refl | inr e ↦ rw e refl ]

-- A channel that may be removed is known to the poller, or is made so first.
known_in :
    (s : State) (reading registered : Bool)
    → Allowed destroys s reading registered
    → Allowed destroys s reading true
known_in s reading registered (inl up) = inl up
known_in s reading registered (inr (down, r, k)) = inr (down, r, refl)

surely :
    {b : Bool} (s : State) (reading registered : Bool)
    → (registered ≡ true → b ≡ true)
    → Allowed destroys s reading registered
    → is_connected s ≡ false
    → b ≡ true
surely s reading registered k (inl up) e = cc
surely s reading registered k (inr (down, r, known)) e = k known

after_known :
    (o : Operation) (s : State) (a b : Bool)
    → (a ≡ true → b ≡ true)
    → after_registered o s a ≡ true
    → after_registered o s b ≡ true
after_known establishes s a b k e = refl
after_known destroys s a b k e = cc
after_known reads_end s a b k e = refl
after_known runs_force_close s a b k e = elim (Bool-cases (is_open s)) [
  | inl up ↦ rw up refl
  | inr down ↦ rw down (k (rw down at e))
]
after_known (sends answer bytes) s a b k e = k e
after_known (writable answer) s a b k e = k e
after_known shuts_down s a b k e = k e
after_known shuts_down_and_force_closes s a b k e = k e
after_known force_closes s a b k e = k e
after_known force_closes_later s a b k e = k e
after_known starts_read s a b k e = k e
after_known stops_read s a b k e = k e

module _ (alloc : Allocation) where
  abbrev pub added : Operation → Connection → List ℕ
  added (sends answer bytes) c = accepted answer bytes c
  added _ c = []

  -- The operations in a row, with all bytes that were accepted so far.
  pub operate_all : List Operation → List ℕ → Connection → Outcome (List ℕ × Connection)
  operate_all [] sent c = ok (sent, c)
  operate_all (o ∷ os) sent c = operate alloc o c >>= λ c'. operate_all os (sent ++ added o c) c'

  -- How much the output buffer may grow.
  abbrev pub cost : Operation → ℕ
  cost (sends answer bytes) = length bytes + 8
  cost _ = 0

  abbrev pub costs : List Operation → ℕ
  costs [] = 0
  costs (o ∷ os) = cost o + costs os

  operate-Sent :
      (o : Operation) (sent : List ℕ) (c : Connection) (registered : Bool)
      → IsStream sent c
      → IsQuiet c
      → (registered ≡ true → c.is_registered ≡ true)
      → Allowed o c.state c.channel_reading registered
      → length c.output_buffer.store + cost o < 2 ^ 62
      → Returns (Sent (sent ++ added o c) (cost o) c) (operate alloc o c)
  operate-Sent (sends answer bytes) sent c r s q k a h =
      send-Sent alloc answer sent bytes c s (omega arith)
  operate-Sent (writable answer) sent c r s q k a h =
      rw (append-nil sent) (handle_write-Sent answer sent c s)
  operate-Sent establishes sent c r s q k a h =
      rw (append-nil sent) (connect_established-Sent sent c s a (q.fresh a))
  operate-Sent destroys sent c r s q k a h = rw (append-nil sent) (
      connect_destroyed-Sent sent c s q (known_in c.state c.channel_reading r a)
        (λ e. surely c.state c.channel_reading r k a e))
  operate-Sent reads_end sent c r s q k a h = rw (append-nil sent) (handle_close-Sent sent c s a)
  operate-Sent shuts_down sent c r s q k a h = rw (append-nil sent) (record {
    stream = shutdown-IsStream sent c s;
    bounded = omega (arith, ap (λ b. length b.store) (shutdown_same c));
  })
  operate-Sent shuts_down_and_force_closes sent c r s q k a h =
      rw (append-nil sent) (shutdown_and_force_close_after-Sent sent c s)
  operate-Sent force_closes sent c r s q k a h = rw (append-nil sent) (record {
    stream = force_close-IsStream sent c s;
    bounded = omega (arith, ap (λ b. length b.store) (force_close_same c));
  })
  operate-Sent force_closes_later sent c r s q k a h =
      rw (append-nil sent) (force_close_with_delay-Sent sent c s)
  operate-Sent runs_force_close sent c r s q k a h =
      rw (append-nil sent) (run_force_close-Sent sent c s)
  operate-Sent starts_read sent c r s q k a h = rw (append-nil sent) (start_read-Sent sent c s)
  operate-Sent stops_read sent c r s q k a h = rw (append-nil sent) (stop_read-Sent sent c s)

  operate_all-Steps :
      (os : List Operation) (sent : List ℕ) (c : Connection) (s : State) (reading registered : Bool)
      → IsStream sent c
      → Steps s reading registered c
      → AllAllowed os s reading registered
      → length c.output_buffer.store + costs os < 2 ^ 62
      → Returns (λ (sent', c'). IsStream sent' c') (operate_all os sent c)
  unfolding operate_all
  operate_all-Steps [] sent c s reading registered i t a h = i
  operate_all-Steps (o ∷ os) sent c s reading registered i t a h =
      let allowed : Allowed o c.state c.channel_reading registered = rw (t.state, t.reads) a.0 in
      Returns->>=
        (λ c'.
          Sent (sent ++ added o c) (cost o) c c'
          × Steps (after_state o c.state) (after_reading o c.state c.channel_reading)
              (after_registered o c.state c.is_registered) c')
        (λ (sent', c'). IsStream sent' c') (operate alloc o c) _
        (Returns-Keeps _ _ (operate alloc o c)
          (operate-Sent o sent c registered i t.quiet t.known allowed (omega arith))
          (operate-Steps alloc o c t.quiet))
        (λ c' (k, u).
          operate_all-Steps os (sent ++ added o c) c' (after_state o s) (after_reading o s reading)
            (after_registered o s registered) k.stream
            (record {
              state = u.state ∙ ap (after_state o) t.state;
              reads = u.reads ∙ ap₂ (after_reading o) t.state t.reads;
              known = λ e. u.known (
                  after_known o c.state registered c.is_registered t.known
                    (subst (λ x. after_registered o x registered ≡ true) (sym t.state) e));
              quiet = u.quiet;
            })
            a.1 (omega (arith, k.bounded)))

  -- A connection may be asked, in any order and with any answers of the socket, to send, to write
  -- what waits, to shut down, to close at once or later, and to start or stop reading; it may be
  -- established while it is new, the end of the stream may be read while it is up, and it may be
  -- destroyed while it is connected, or once it is closed, does not read again and is known to the
  -- poller. Then no assertion fails, and the bytes that the socket took, followed by those in the
  -- output buffer, are the bytes that the calls of `Send` left to be sent, in order. Bytes that wait
  -- are waited for as long as the connection lives, and the write side is shut down only when none
  -- wait. It is assumed that this held before, that a closed connection did not write and a new one
  -- was not shut down, and that the buffer, with all that is sent, stays below 2 ^ 62 bytes. Bytes
  -- that arrive, which change only the input buffer, are left out.
  pub operate_all-IsStream :
      (os : List Operation) (sent : List ℕ) (c : Connection)
      → IsStream sent c
      → IsQuiet c
      → AllAllowed os c.state c.channel_reading c.is_registered
      → length c.output_buffer.store + costs os < 2 ^ 62
      → Returns (λ (sent', c'). IsStream sent' c') (operate_all os sent c)
  operate_all-IsStream os sent c i q a h =
      operate_all-Steps os sent c c.state c.channel_reading c.is_registered i
        (record { state = refl; reads = refl; known = λ e. e; quiet = q }) a h
