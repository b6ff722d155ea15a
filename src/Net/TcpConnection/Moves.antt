-- ===== src/Net/TcpConnection/Moves.antt =====
-- Each operation of a connection of mytinyhttpd/net/tcp_connnection.cc leaves the state that is said.
use my_tiny_httpd.Prelude.{
  ℕ, ◌≡◌, refl, ap, ◌∙◌, Bool, true, false, not, ◌&&◌, ◌||◌, inl, inr, List, ◌++◌, Outcome, ok,
  fault, ◌>>=◌, ◌>>◌, assert, Returns, Bool-cases, ◌==◌, ltb, leb, if◌then◌else◌, length, take,
  drop,
}
use my_tiny_httpd.Net.Buffer.{
  Buffer, Allocation, append, retrieve, readable_bytes, size_sub, contents,
}
use my_tiny_httpd.Net.TcpConnection.{
  Connection, State, disconnected, connecting, connected, disconnecting, WriteAnswer, is_connected,
  is_disconnected, is_connecting, is_disconnecting, is_open, taken, is_broken, shutdown,
  shutdown_and_force_close_after, force_close, force_close_with_delay, start_read, stop_read,
  connect_established, connect_destroyed, handle_close, run_force_close, drained, handle_write,
  keep_remaining, send_rest, send_in_loop, send,
}
use my_tiny_httpd.Net.TcpConnection.Life.{
  Operation, operate, after_state, after_reading, after_registered, IsQuiet, Steps, sends, writable,
  establishes, destroys, reads_end, shuts_down, shuts_down_and_force_closes, force_closes,
  force_closes_later, runs_force_close, starts_read, stops_read,
}

-- If the code returns, what it returns has the property.
abbrev pub Keeps {ℓ κ} : {A : Type ℓ} → (A → Type κ) → Outcome A → Type κ
Keeps P (ok a) = P a
Keeps P (fault e) = Unit

module _ {ℓ κ μ} {A : Type ℓ} {B : Type κ} (Q : B → Type μ) where
  Keeps->>= : (m : Outcome A) (f : A → Outcome B) → ((a : A) → Keeps Q (f a)) → Keeps Q (m >>= f)
  Keeps->>= (ok a) f k = k a
  Keeps->>= (fault e) f k = tt

module _ {ℓ κ μ} {A : Type ℓ} (P : A → Type κ) (Q : A → Type μ) where
  pub Returns-Keeps : (m : Outcome A) → Returns P m → Keeps Q m → Returns (λ a. P a × Q a) m
  Returns-Keeps (ok a) h k = (h, k)
  Returns-Keeps (fault e) h k = elim h [ ]

Keeps-if :
    {A : Type 0} (P : A → Type 0) (b : Bool) (m n : Outcome A)
    → (b ≡ true → Keeps P m)
    → (b ≡ false → Keeps P n)
    → Keeps P (if b then m else n)
Keeps-if P true m n h k = h refl
Keeps-if P false m n h k = k refl

Keeps-assert :
    {A : Type 0} (P : A → Type 0) (b : Bool) (m : Outcome A) → Keeps P m → Keeps P (assert b >> m)
Keeps-assert P true m h = h
Keeps-assert P false m h = tt

if-both :
    {A : Type 0} (P : A → Type 0) (b : Bool) (x y : A)
    → (b ≡ true → P x)
    → (b ≡ false → P y)
    → P (if b then x else y)
if-both P true x y h k = h refl
if-both P false x y h k = k refl

stays_true : (b r : Bool) → r ≡ true → (if b then r else true) ≡ true
stays_true true r h = h
stays_true false r h = refl

already_read : (a b : Bool) → (not a || not b) ≡ false → b ≡ true
already_read a true h = refl
already_read true false h = cc
already_read false false h = cc

not_read : (a b : Bool) → (a || b) ≡ false → b ≡ false
not_read true b h = cc
not_read false b h = h

connected_only :
    (s : State) → is_connected s ≡ true → (is_disconnected s ≡ false) × (is_connecting s ≡ false)
connected_only connected h = (refl, refl)
connected_only disconnected h = cc
connected_only connecting h = cc
connected_only disconnecting h = cc

disconnecting_only : (s : State) → is_disconnecting s ≡ true → is_connecting s ≡ false
disconnecting_only disconnecting h = refl
disconnecting_only disconnected h = cc
disconnecting_only connecting h = cc
disconnecting_only connected h = cc

-- A call that changes neither the state nor what is read.
record IsAlike (c c' : Connection) : Type 0 where
  state : c'.state ≡ c.state
  reads : c'.channel_reading ≡ c.channel_reading
  known : c.is_registered ≡ true → c'.is_registered ≡ true

IsAlike-refl : (c : Connection) → IsAlike c c
IsAlike-refl c = record { state = refl; reads = refl; known = λ e. e }

IsAlike-trans :
    (c d : Connection)
    → IsAlike c d
    → (m : Outcome Connection) → Keeps (IsAlike d) m
    → Keeps (IsAlike c) m
IsAlike-trans c d a (ok e) b = record {
  state = b.state ∙ a.state;
  reads = b.reads ∙ a.reads;
  known = λ r. b.known (a.known r);
}
IsAlike-trans c d a (fault e) b = tt

Steps-refl : (c : Connection) → IsQuiet c → Steps c.state c.channel_reading c.is_registered c
Steps-refl c q = record { state = refl; reads = refl; known = λ e. e; quiet = q }

drained-Steps :
    (c : Connection) → IsQuiet c → Steps c.state c.channel_reading c.is_registered (drained c)
drained-Steps c q =
    if-both (Steps c.state c.channel_reading c.is_registered) (is_disconnecting c.state) _ _
      (λ e. record {
        state = refl;
        reads = refl;
        known = λ r. refl;
        quiet = record {
          closed = λ d. refl;
          fresh = λ f. let never = disconnecting_only c.state e in cc;
        };
      })
      (λ e. record {
        state = refl;
        reads = refl;
        known = λ r. refl;
        quiet = record { closed = λ d. refl; fresh = q.fresh };
      })

handle_write-Steps :
    (answer : WriteAnswer) (c : Connection)
    → IsQuiet c
    → Keeps (Steps c.state c.channel_reading c.is_registered) (handle_write answer c)
unfolding handle_write
handle_write-Steps answer c q =
    Keeps-if Here (c.channel_writing && ltb 0 n) _ _
      (λ e. Keeps->>= Here (retrieve n c.output_buffer) _ (λ left.
        if-both Here (readable_bytes left == 0) _ _
          (λ f. drained-Steps (written left) (record { closed = q.closed; fresh = q.fresh }))
          (λ f. Steps-refl (written left) (record { closed = q.closed; fresh = q.fresh }))))
      (λ e. Steps-refl c q)
  where
    Here : Connection → Type 0
    Here = Steps c.state c.channel_reading c.is_registered

    n : ℕ
    n = taken answer (readable_bytes c.output_buffer)

    written : Buffer → Connection
    written left = record c {
      output_buffer = left;
      wire = c.wire ++ take n (contents c.output_buffer);
    }

module _ (alloc : Allocation) where
  keep_remaining-IsAlike :
      (rest : List ℕ) (remaining : ℕ) (c : Connection)
      → Keeps (IsAlike c) (keep_remaining alloc rest remaining c)
  unfolding keep_remaining
  keep_remaining-IsAlike rest remaining c =
      Keeps->>= (IsAlike c) (append alloc rest c.output_buffer) _ (λ b. record {
        state = refl;
        reads = refl;
        known = stays_true c.channel_writing c.is_registered;
      })

  send_rest-IsAlike :
      (bytes : List ℕ) (nwrote : ℕ) (broken : Bool) (c : Connection)
      → Keeps (IsAlike c) (send_rest alloc bytes nwrote broken c)
  unfolding send_rest
  send_rest-IsAlike bytes nwrote broken c =
      Keeps-assert (IsAlike c) (leb remaining (length bytes)) _ (
        Keeps-if (IsAlike c) (not broken && ltb 0 remaining) _ _
          (λ e. keep_remaining-IsAlike (drop nwrote bytes) remaining c) (λ e. IsAlike-refl c))
    where
      remaining : ℕ
      remaining = size_sub (length bytes) nwrote

  send_in_loop-IsAlike :
      (answer : WriteAnswer) (bytes : List ℕ) (c : Connection)
      → Keeps (IsAlike c) (send_in_loop alloc answer bytes c)
  unfolding send_in_loop
  send_in_loop-IsAlike answer bytes c =
      Keeps-if (IsAlike c) (is_disconnected c.state) _ _ (λ e. IsAlike-refl c)
        (λ e.
          Keeps-if (IsAlike c) (not c.channel_writing && readable_bytes c.output_buffer == 0) _ _
            (λ f.
              IsAlike-trans c _ (record { state = refl; reads = refl; known = λ r. r }) _
                (send_rest-IsAlike bytes n (is_broken answer) _))
            (λ f. send_rest-IsAlike bytes 0 false c))
    where
      n : ℕ
      n = taken answer (length bytes)

  send-Steps :
      (answer : WriteAnswer) (bytes : List ℕ) (c : Connection)
      → IsQuiet c
      → Keeps (Steps c.state c.channel_reading c.is_registered) (send alloc answer bytes c)
  unfolding send
  send-Steps answer bytes c q =
      Keeps-if (Steps c.state c.channel_reading c.is_registered) (is_connected c.state) _ _
        (λ e.
          alike (connected_only c.state e) (send_in_loop alloc answer bytes c)
            (send_in_loop-IsAlike answer bytes c))
        (λ e. Steps-refl c q)
    where
      alike :
          (is_disconnected c.state ≡ false) × (is_connecting c.state ≡ false)
          → (m : Outcome Connection) → Keeps (IsAlike c) m
          → Keeps (Steps c.state c.channel_reading c.is_registered) m
      alike (nd, nc) (ok c') a = record {
        state = a.state;
        reads = a.reads;
        known = a.known;
        quiet = record {
          closed = λ d. let same = ap is_disconnected a.state in cc;
          fresh = λ f. let same = ap is_connecting a.state in cc;
        };
      }
      alike n (fault e) a = tt

module _ (alloc : Allocation) where
  abbrev Stepped : Operation → Connection → Connection → Type 0
  Stepped o c =
      Steps (after_state o c.state) (after_reading o c.state c.channel_reading)
        (after_registered o c.state c.is_registered)

  pub operate-Steps :
      (o : Operation) (c : Connection) → IsQuiet c → Keeps (Stepped o c) (operate alloc o c)
  unfolding connect_established handle_close run_force_close shutdown shutdown_and_force_close_after
      force_close force_close_with_delay start_read stop_read connect_destroyed
  operate-Steps (sends answer bytes) c q = send-Steps alloc answer bytes c q
  operate-Steps (writable answer) c q = handle_write-Steps answer c q
  operate-Steps establishes c q =
      Keeps-assert (Stepped establishes c) (is_connecting c.state) _ (record {
        state = refl;
        reads = refl;
        known = λ e. refl;
        quiet = record { closed = λ e. cc; fresh = λ e. cc };
      })
  operate-Steps destroys c q = elim (Bool-cases (is_connected c.state)) [
    | inl e ↦ rw e (record {
      state = refl;
      reads = refl;
      known = λ r. cc;
      quiet = record { closed = λ d. refl; fresh = λ f. cc };
    })
    | inr e ↦ rw e (
        Keeps-assert Gone (not c.channel_reading && not c.channel_writing) _ (
          Keeps-assert Gone c.is_registered _ (record {
            state = refl;
            reads = refl;
            known = λ r. cc;
            quiet = record { closed = q.closed; fresh = q.fresh };
          })))
  ]
    where
      Gone : Connection → Type 0
      Gone = Steps c.state c.channel_reading false
  operate-Steps reads_end c q = Keeps-assert (Stepped reads_end c) (is_open c.state) _ (record {
    state = refl;
    reads = refl;
    known = λ e. refl;
    quiet = record { closed = λ e. refl; fresh = λ e. cc };
  })
  operate-Steps shuts_down c q = elim (Bool-cases (is_connected c.state)) [
    | inl e ↦ rw e (record {
      state = refl;
      reads = refl;
      known = λ r. r;
      quiet = record { closed = λ d. cc; fresh = λ f. cc };
    })
    | inr e ↦ rw e (Steps-refl c q)
  ]
  operate-Steps shuts_down_and_force_closes c q = elim (Bool-cases (is_connected c.state)) [
    | inl e ↦ rw e (record {
      state = refl;
      reads = refl;
      known = λ r. r;
      quiet = record { closed = λ d. cc; fresh = λ f. cc };
    })
    | inr e ↦ rw e (Steps-refl c q)
  ]
  operate-Steps force_closes c q = elim (Bool-cases (is_open c.state)) [
    | inl e ↦ rw e (record {
      state = refl;
      reads = refl;
      known = λ r. r;
      quiet = record { closed = λ d. cc; fresh = λ f. cc };
    })
    | inr e ↦ rw e (Steps-refl c q)
  ]
  operate-Steps force_closes_later c q = elim (Bool-cases (is_open c.state)) [
    | inl e ↦ rw e (record {
      state = refl;
      reads = refl;
      known = λ r. r;
      quiet = record { closed = λ d. cc; fresh = λ f. cc };
    })
    | inr e ↦ rw e (Steps-refl c q)
  ]
  operate-Steps runs_force_close c q = elim (Bool-cases (is_open c.state)) [
    | inl e ↦ rw e (record {
      state = refl;
      reads = refl;
      known = λ r. refl;
      quiet = record { closed = λ d. refl; fresh = λ f. cc };
    })
    | inr e ↦ rw e (Steps-refl c q)
  ]
  operate-Steps starts_read c q = elim (Bool-cases (not c.is_reading || not c.channel_reading)) [
    | inl e ↦ rw e (record {
      state = refl;
      reads = refl;
      known = λ r. refl;
      quiet = record { closed = q.closed; fresh = q.fresh };
    })
    | inr e ↦ rw e (record {
      state = refl;
      reads = already_read c.is_reading c.channel_reading e;
      known = λ r. r;
      quiet = q;
    })
  ]
  operate-Steps stops_read c q = elim (Bool-cases (c.is_reading || c.channel_reading)) [
    | inl e ↦ rw e (record {
      state = refl;
      reads = refl;
      known = λ r. refl;
      quiet = record { closed = q.closed; fresh = q.fresh };
    })
    | inr e ↦ rw e (record {
      state = refl;
      reads = not_read c.is_reading c.channel_reading e;
      known = λ r. r;
      quiet = q;
    })
  ]
