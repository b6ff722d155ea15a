-- ===== src/Tests/Buffers.antt =====
-- The theorems about mytinyhttpd/net at concrete inputs.
use my_tiny_httpd.Prelude.{
  ℕ, ◌-◌, ◌^◌, ◌%◌, ◌≡◌, refl, true, false, inl, inr, List, [], ◌∷◌, ◌++◌, length, take, codes, ok,
  fault, assertion, ◌>>=◌, Returns, arith,
}
use my_tiny_httpd.Net.Buffer.{
  Buffer, contents, append, shrink, retrieve_as_string, read_from_fd, prepend, unwrite,
}
use my_tiny_httpd.Net.Buffer.Space.{IsValid}
use my_tiny_httpd.Net.Buffer.Append.{Appended, append-Appended, append_after_prepend, shrink-Roomy}
use my_tiny_httpd.Net.Buffer.Retrieve.{Retrieved, retrieve_as_string_lem}
use my_tiny_httpd.Net.Buffer.Io.{prepend_lem, unwrite_lem, read_from_fd_lem}
use my_tiny_httpd.Net.Buffer.Words.{append_int, read_int, read_int-append_int}
use my_tiny_httpd.Net.TcpConnection.{Connection, WriteAnswer, connecting}
use my_tiny_httpd.Net.TcpConnection.Stream.{IsStream}
use my_tiny_httpd.Net.TcpConnection.Life.{Operation, IsQuiet}
use my_tiny_httpd.Net.TcpConnection.Close.{operate_all, operate_all-IsStream}
use my_tiny_httpd.Tests.{allocation, buffer_of, buffer_of-IsReady}

abbrev hello : List ℕ
hello = codes "hello"

abbrev greeting : Buffer
greeting = buffer_of (codes "hello")

greeting-IsValid : IsValid greeting
greeting-IsValid = (buffer_of-IsReady (codes "hello") (omega arith)).valid

append-Appended_example :
    Returns (Appended (codes ", world") greeting) (append allocation (codes ", world") greeting)
append-Appended_example =
    append-Appended allocation (codes ", world") greeting greeting-IsValid (inl (omega arith))
      (omega arith)

-- Four of the reserved bytes are used.
abbrev prepended : Buffer
prepended = record greeting { reader_index = 4 }

prepended-IsValid : IsValid prepended
prepended-IsValid = record {
  ordered = omega arith;
  inside = omega arith;
  held = omega arith;
  reserved = omega arith;
  small = omega arith;
}

append_after_prepend_example : append allocation (codes ", world") prepended ≡ fault assertion
append_after_prepend_example =
    append_after_prepend allocation (codes ", world") prepended prepended-IsValid (omega arith)
      (omega arith) (omega arith) (omega arith)

shrink-Roomy_example :
    Returns (λ b'. IsValid b' × (contents b' ≡ contents greeting)) (shrink allocation 16 greeting)
shrink-Roomy_example =
    shrink-Roomy allocation 16 greeting greeting-IsValid (omega arith) (omega arith)

retrieve_as_string_lem_example :
    Returns
      (λ (text, b').
        (text ++ contents b' ≡ contents greeting) × (length text ≡ 2) × Retrieved 2 greeting b')
      (retrieve_as_string 2 greeting)
retrieve_as_string_lem_example = retrieve_as_string_lem 2 greeting greeting-IsValid (omega arith)

prepend_lem_example :
    Returns
      (λ b'. IsValid b' × (contents b' ≡ codes "oh, " ++ contents greeting))
      (prepend (codes "oh, ") greeting)
prepend_lem_example = prepend_lem (codes "oh, ") greeting greeting-IsValid (omega arith)

unwrite_lem_example :
    Returns
      (λ b'. IsValid b' × (contents b' ≡ take (length (contents greeting) - 1) (contents greeting)))
      (unwrite 1 greeting)
unwrite_lem_example = unwrite_lem 1 greeting greeting-IsValid (omega arith)

read_from_fd_lem_example :
    Returns
      (λ b'. IsValid b' × (contents b' ≡ contents greeting ++ codes " again"))
      (read_from_fd allocation (codes " again") greeting)
read_from_fd_lem_example =
    read_from_fd_lem allocation (codes " again") greeting greeting-IsValid (omega arith)
      (omega arith)

read_int-append_int_example :
    Returns
      (λ (u, v, b'). (u ≡ 70000 % 256 ^ 4) × (v ≡ 513 % 256 ^ 2) × (contents b' ≡ []))
      (do
        one ← append_int allocation 4 70000 (buffer_of [])
        two ← append_int allocation 2 513 one
        (u, three) ← read_int 4 two
        (v, four) ← read_int 2 three
        ok (u, v, four))
read_int-append_int_example =
    read_int-append_int allocation 4 2 70000 513 (buffer_of [])
      (buffer_of-IsReady [] (omega arith)).valid refl (omega arith) (omega arith)

-- A new connection.
abbrev fresh_connection : Connection
fresh_connection = record {
  state = connecting;
  is_reading = true;
  channel_reading = false;
  channel_writing = false;
  is_registered = false;
  input_buffer = buffer_of [];
  output_buffer = buffer_of [];
  high_water_mark = 64;
  has_write_complete = true;
  has_high_water_mark = true;
  wire = [];
  is_shut = false;
  calls = [];
}

fresh_connection-IsStream : IsStream [] fresh_connection
fresh_connection-IsStream = record {
  valid = (buffer_of-IsReady [] (omega arith)).valid;
  cheap = omega arith;
  stream = refl;
  waiting = inr (inr refl);
  flushed = inl refl;
}

fresh_connection-IsQuiet : IsQuiet fresh_connection
fresh_connection-IsQuiet = record { closed = λ e. refl; fresh = λ e. refl }

-- The socket takes two bytes at once, the user shuts down, and the rest goes out later.
abbrev farewell : List Operation
farewell =
    Operation.establishes
    ∷ Operation.sends (WriteAnswer.takes 2) (codes "goodbye")
    ∷ Operation.shuts_down
    ∷ Operation.writable (WriteAnswer.takes 3)
    ∷ Operation.writable (WriteAnswer.takes 9)
    ∷ Operation.runs_force_close
    ∷ Operation.destroys
    ∷ []

operate_all-IsStream_example :
    Returns (λ (sent', c'). IsStream sent' c') (operate_all allocation farewell [] fresh_connection)
operate_all-IsStream_example =
    operate_all-IsStream allocation farewell [] fresh_connection fresh_connection-IsStream
      fresh_connection-IsQuiet (refl, (tt, (tt, (tt, (tt, (tt, (inr (refl, refl, refl), tt)))))))
      (omega arith)
