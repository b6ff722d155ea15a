-- ===== src/Tests.antt =====
-- Concrete inputs for the theorems about mytinyhttpd/net, mytinyhttpd/http, mytinyhttpd/base and
-- mytinyhttpd/utils.
pub mod Buffers
pub mod Requests
pub mod Replies
pub mod Loops
pub mod Logs
pub mod Times
use my_tiny_httpd.Prelude.{
  ℕ, ◌+◌, ◌-◌, ◌≤◌, ◌<◌, ◌^◌, ◌≡◌, ap, ◌∙◌, List, [], ◌∷◌, ◌++◌, length, replicate,
  length-replicate, take, take-all, arith,
}
use my_tiny_httpd.Net.Buffer.{Allocation, Buffer, contents}
use my_tiny_httpd.Http.Context.Bytes.{IsReady}

-- A vector that holds no more than it must, with zeros for the bytes it leaves as they were.
abbrev pub allocation : Allocation
allocation = record {
  fresh_capacity = λ n. n;
  shrunk_capacity = λ n. n;
  left_over = λ from n. replicate n 0;
  fresh_holds = λ n. omega arith;
  shrunk_holds = λ n. omega arith;
  left_over_length = λ from n. length-replicate n 0;
}

-- A buffer that holds just the text.
abbrev pub buffer_of : List ℕ → Buffer
buffer_of text = record {
  store = replicate 8 0 ++ text;
  capacity = 8 + length text;
  reader_index = 8;
  writer_index = 8 + length text;
}

pub buffer_of-IsReady : (text : List ℕ) → length text < 2 ^ 62 → IsReady (buffer_of text)
buffer_of-IsReady text h = record {
  valid = record {
    ordered = omega arith;
    inside = omega arith;
    held = omega arith;
    reserved = omega arith;
    small = omega arith;
  };
  cheap = omega arith;
}

pub contents-buffer_of : (text : List ℕ) → contents (buffer_of text) ≡ text
contents-buffer_of text = take-all (8 + length text - 8) text (omega arith)
