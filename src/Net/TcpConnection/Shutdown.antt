-- ===== src/Net/TcpConnection/Shutdown.antt =====
-- Shutting down a connection in mytinyhttpd/net/tcp_connnection.cc keeps the bytes in order.
use my_tiny_httpd.Prelude.{
  ℕ, ◌≡◌, refl, Bool, not, ◌&&◌, Returns-assert, ◌||◌, true, false, ◌⊎◌, inl, inr, List, [],
  Returns, Bool-cases, arith,
}
use my_tiny_httpd.Net.Buffer.{contents}
use my_tiny_httpd.Net.TcpConnection.{
  Connection, State, disconnected, connecting, connected, disconnecting, is_connected,
  is_disconnected, is_disconnecting, is_open, is_connecting, shutdown_in_loop, shutdown,
  shutdown_and_force_close_after, force_close, force_close_with_delay, run_force_close,
  handle_close, start_read, stop_read, connect_established, connect_destroyed,
}
use my_tiny_httpd.Net.TcpConnection.Stream.{IsStream, Sent}
use my_tiny_httpd.Net.TcpConnection.Life.{IsQuiet, Allowed, destroys}

pub not_both : {b : Bool} → b ≡ true → b ≡ false → ⊥
not_both t f = cc

connected_not_disconnected : (s : State) → is_connected s ≡ true → is_disconnected s ≡ false
connected_not_disconnected connected h = refl
connected_not_disconnected disconnected h = cc
connected_not_disconnected connecting h = refl
connected_not_disconnected disconnecting h = refl

open_not_disconnected : (s : State) → is_open s ≡ true → is_disconnected s ≡ false
open_not_disconnected connected h = refl
open_not_disconnected disconnected h = cc
open_not_disconnected connecting h = refl
open_not_disconnected disconnecting h = refl

pub disconnecting_not_connected : (s : State) → is_disconnecting s ≡ true → is_connected s ≡ false
disconnecting_not_connected connected h = cc
disconnecting_not_connected disconnected h = refl
disconnecting_not_connected connecting h = refl
disconnecting_not_connected disconnecting h = refl

-- A connection whose channel does not wait for the socket has nothing left to write.
waited :
    {sent : List ℕ} (c : Connection)
    → IsStream sent c
    → is_disconnected c.state ≡ false
    → c.channel_writing ≡ false
    → contents c.output_buffer ≡ []
waited c s d w = elim s.waiting [
  | inl e ↦ absurd (not_both e d)
  | inr (inl e) ↦ absurd (not_both e w)
  | inr (inr e) ↦ e
]

pub shutdown-IsStream :
    (sent : List ℕ) (c : Connection) → IsStream sent c → IsStream sent (shutdown c)
unfolding shutdown
shutdown-IsStream sent c s = elim (Bool-cases (is_connected c.state)) [
  | inl e ↦ rw e (elim (Bool-cases c.channel_writing) [
    | inl w ↦ record {
      valid = s.valid;
      cheap = s.cheap;
      stream = s.stream;
      waiting = inr (inl w);
      flushed = elim s.flushed [ inl f ↦ rw w (inl f) | inr (f, g) ↦ absurd (not_both e f) ];
    }
    | inr w ↦ record {
      valid = s.valid;
      cheap = s.cheap;
      stream = s.stream;
      waiting = inr (inr (waited c s (connected_not_disconnected c.state e) w));
      flushed = inr (refl, waited c s (connected_not_disconnected c.state e) w);
    }
  ])
  | inr e ↦ rw e s
]

-- A connection that goes from an open state to another that is not up.
leaving :
    {sent : List ℕ} (c : Connection)
    → IsStream sent c
    → is_open c.state ≡ true
    → (is_disconnected disconnecting ≡ true)
      ⊎ (c.channel_writing ≡ true)
      ⊎ (contents c.output_buffer ≡ [])
leaving c s e = elim s.waiting [
  | inl f ↦ absurd (not_both f (open_not_disconnected c.state e))
  | inr f ↦ inr f
]

left_flushed :
    {sent : List ℕ} (c : Connection)
    → IsStream sent c
    → (c.is_shut ≡ false) ⊎ ((false ≡ false) × (contents c.output_buffer ≡ []))
left_flushed c s = elim s.flushed [ inl f ↦ inl f | inr (f, g) ↦ inr (refl, g) ]

pub force_close-IsStream :
    (sent : List ℕ) (c : Connection) → IsStream sent c → IsStream sent (force_close c)
unfolding force_close
force_close-IsStream sent c s = elim (Bool-cases (is_open c.state)) [
  | inl e ↦ rw e (record {
    valid = s.valid;
    cheap = s.cheap;
    stream = s.stream;
    waiting = leaving c s e;
    flushed = left_flushed c s;
  })
  | inr e ↦ rw e s
]

pub handle_close-Sent :
    (sent : List ℕ) (c : Connection)
    → IsStream sent c
    → is_open c.state ≡ true
    → Returns (Sent sent 0 c) (handle_close c)
unfolding handle_close
handle_close-Sent sent c s e = rw e (record {
  stream = record {
    valid = s.valid;
    cheap = s.cheap;
    stream = s.stream;
    waiting = inl refl;
    flushed = left_flushed c s;
  };
  bounded = omega arith;
})

pub run_force_close-Sent :
    (sent : List ℕ) (c : Connection) → IsStream sent c → Returns (Sent sent 0 c) (run_force_close c)
unfolding run_force_close
run_force_close-Sent sent c s = elim (Bool-cases (is_open c.state)) [
  | inl e ↦ rw e (handle_close-Sent sent c s e)
  | inr e ↦ rw e (record { stream = s; bounded = omega arith })
]

-- Calls that are left for later, and reading, do not touch the bytes that are sent.
pub shutdown_and_force_close_after-Sent :
    (sent : List ℕ) (c : Connection)
    → IsStream sent c
    → Sent sent 0 c (shutdown_and_force_close_after c)
unfolding shutdown_and_force_close_after shutdown
shutdown_and_force_close_after-Sent sent c s =
    let t = shutdown-IsStream sent c s in
    elim (Bool-cases (is_connected c.state)) [
      | inl e ↦
          let u : IsStream sent (shutdown_in_loop (record c { state = disconnecting })) =
            rw e at t in
          rw e (record {
            stream = record {
              valid = u.valid;
              cheap = u.cheap;
              stream = u.stream;
              waiting = u.waiting;
              flushed = u.flushed;
            };
            bounded = omega arith;
          })
      | inr e ↦ rw e (record { stream = s; bounded = omega arith })
    ]

pub force_close_with_delay-Sent :
    (sent : List ℕ) (c : Connection) → IsStream sent c → Sent sent 0 c (force_close_with_delay c)
unfolding force_close_with_delay
force_close_with_delay-Sent sent c s = elim (Bool-cases (is_open c.state)) [
  | inl e ↦ rw e (record {
    stream = record {
      valid = s.valid;
      cheap = s.cheap;
      stream = s.stream;
      waiting = leaving c s e;
      flushed = left_flushed c s;
    };
    bounded = omega arith;
  })
  | inr e ↦ rw e (record { stream = s; bounded = omega arith })
]

pub start_read-Sent :
    (sent : List ℕ) (c : Connection) → IsStream sent c → Sent sent 0 c (start_read c)
unfolding start_read
start_read-Sent sent c s = elim (Bool-cases (not c.is_reading || not c.channel_reading)) [
  | inl e ↦ rw e (record {
    stream = record {
      valid = s.valid;
      cheap = s.cheap;
      stream = s.stream;
      waiting = s.waiting;
      flushed = s.flushed;
    };
    bounded = omega arith;
  })
  | inr e ↦ rw e (record { stream = s; bounded = omega arith })
]

pub stop_read-Sent :
    (sent : List ℕ) (c : Connection) → IsStream sent c → Sent sent 0 c (stop_read c)
unfolding stop_read
stop_read-Sent sent c s = elim (Bool-cases (c.is_reading || c.channel_reading)) [
  | inl e ↦ rw e (record {
    stream = record {
      valid = s.valid;
      cheap = s.cheap;
      stream = s.stream;
      waiting = s.waiting;
      flushed = s.flushed;
    };
    bounded = omega arith;
  })
  | inr e ↦ rw e (record { stream = s; bounded = omega arith })
]

connecting_only : (s : State) → is_connecting s ≡ true → is_disconnected s ≡ false
connecting_only connecting h = refl
connecting_only disconnected h = cc
connecting_only connected h = cc
connecting_only disconnecting h = cc

-- The beginning and the end of a connection.
pub connect_established-Sent :
    (sent : List ℕ) (c : Connection)
    → IsStream sent c
    → is_connecting c.state ≡ true
    → c.is_shut ≡ false
    → Returns (Sent sent 0 c) (connect_established c)
unfolding connect_established
connect_established-Sent sent c s e unshut = rw e (record {
  stream = record {
    valid = s.valid;
    cheap = s.cheap;
    stream = s.stream;
    waiting = elim s.waiting [
      | inl d ↦ absurd (not_both d (connecting_only c.state e))
      | inr w ↦ inr w
    ];
    flushed = inl unshut;
  };
  bounded = omega arith;
})

pub connect_destroyed-Sent :
    (sent : List ℕ) (c : Connection)
    → IsStream sent c
    → IsQuiet c
    → Allowed destroys c.state c.channel_reading true
    → (is_connected c.state ≡ false → c.is_registered ≡ true)
    → Returns (Sent sent 0 c) (connect_destroyed c)
unfolding connect_destroyed
connect_destroyed-Sent sent c s q a known = elim (Bool-cases (is_connected c.state)) [
  | inl e ↦ rw e (record {
    stream = record {
      valid = s.valid;
      cheap = s.cheap;
      stream = s.stream;
      waiting = inl refl;
      flushed = elim s.flushed [ inl f ↦ inl f | inr (f, g) ↦ inr (refl, g) ];
    };
    bounded = omega arith;
  })
  | inr e ↦ elim a [
    | inl up ↦ absurd (not_both up e)
    | inr (down, reads, k) ↦ rw e (
        Returns-assert (Sent sent 0 c) (not c.channel_reading && not c.channel_writing) _
          (rw (reads, q.closed down) refl)
          (Returns-assert (Sent sent 0 c) c.is_registered _ (known e) (record {
            stream = record {
              valid = s.valid;
              cheap = s.cheap;
              stream = s.stream;
              waiting = s.waiting;
              flushed = s.flushed;
            };
            bounded = omega arith;
          })))
  ]
]
