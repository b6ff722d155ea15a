-- ===== src/Log/LogStream/Kept.antt =====
-- What is kept of the items that are put into a stream of mytinyhttpd/base/log_stream.h and
-- log_stream.cc.
use my_tiny_httpd.Prelude.{
  ℕ, ◌+◌, ◌-◌, ◌^◌, ◌≤◌, ◌<◌, ◌≡◌, refl, sym, ap, ◌∙◌, true, false, inl, inr, List, [], ◌∷◌, ◌++◌,
  append-nil, append_assoc, none, some, Outcome, ok, leb, le→leb, leb→le, if◌then◌else◌, length,
  take, drop, length-append, length-take, take-all, ℤ, codes, Returns, Returns-map, Returns->>=,
  arith, Bool-cases, subst,
}
use my_tiny_httpd.Net.Buffer.{copy_to}
use my_tiny_httpd.Log.FixedBuffer.{FixedBuffer, has_avail, text}
use my_tiny_httpd.Log.FixedBuffer.Text.{IsSound, Gains, fitting, take-copy, put-Gains}
use my_tiny_httpd.Log.FixedBuffer.Over.{over, length-over, over-over, copy_to-fresh}
use my_tiny_httpd.Log.LogStream.{
  Item, bool, char, integer, pointer, double, c_string, string, buffer, max_numeric_size,
  format_integer, format_pointer, format_double, insert, insert_all,
}
use my_tiny_httpd.Log.LogStream.Digits.{
  integer_text, hex_text, IsWord, length-integer_text, length-hex_text, convert-integer_text,
  convert_hex-hex_text,
}

-- A value that the C++ types admit; `%.12g` prints fewer than 48 characters of any `double`.
abbrev pub IsItem : Item → Type 0
IsItem (integer v) = IsWord v
IsItem (pointer v) = v < 2 ^ 64
IsItem (double printed) = length printed < 48
IsItem _ = Unit {0}

abbrev pub AreItems : List Item → Type 0
AreItems [] = Unit {0}
AreItems (item ∷ items) = IsItem item × AreItems items

-- A number needs room for 48 bytes.
abbrev numeric : ℕ → List ℕ → List ℕ
numeric room bytes = if leb max_numeric_size room then bytes else []

-- The bytes that are kept of an item, where so many are free.
abbrev pub kept : ℕ → Item → List ℕ
kept room (bool true) = fitting room (codes "1")
kept room (bool false) = fitting room (codes "0")
kept room (char c) = fitting room (c ∷ [])
kept room (integer v) = numeric room (integer_text v)
kept room (pointer v) = numeric room (codes "0x" ++ hex_text v)
kept room (double printed) = numeric room printed
kept room (c_string none) = fitting room (codes "(null)")
kept room (c_string (some s)) = fitting room s
kept room (string s) = fitting room s
kept room (buffer v) = fitting room (text v)

abbrev pub all_kept : ℕ → List Item → List ℕ
all_kept room [] = []
all_kept room (item ∷ items) = kept room item ++ all_kept (room - length (kept room item)) items

abbrev free : FixedBuffer → ℕ
free b = length b.store - b.cur

-- The buffer behind a number whose text and zero are written at the cursor.
module _ (b : FixedBuffer) (s : IsSound b) (bytes rest : List ℕ) (len : ℕ) where
  grown-Gains :
      len ≡ length bytes
      → b.cur + length bytes < length b.store
      → length (take b.cur b.store ++ (bytes ++ rest)) ≡ length b.store
      → Gains bytes b (record { store = take b.cur b.store ++ (bytes ++ rest); cur = b.cur + len })
  grown-Gains e h size = record {
    sound = record { inside = omega arith; small = omega (arith, s.small) };
    size = size;
    gained =
        ap (λ n. take (b.cur + n) (take b.cur b.store ++ (bytes ++ rest))) e
        ∙ take-copy b.store bytes rest b.cur (omega arith);
  }

over-Gains :
    (b : FixedBuffer)
    → IsSound b
    → (bytes : List ℕ) → b.cur + length bytes < length b.store
    → Gains bytes b
        (record { store = over b.store b.cur (bytes ++ (0 ∷ [])); cur = b.cur + length bytes })
over-Gains b s bytes h =
    let shape : over b.store b.cur (bytes ++ (0 ∷ []))
        ≡ take b.cur b.store ++ (bytes ++ (0 ∷ drop (b.cur + length (bytes ++ (0 ∷ []))) b.store)) =
      ap (λ l. take b.cur b.store ++ l)
        (append_assoc bytes (0 ∷ []) (drop (b.cur + length (bytes ++ (0 ∷ []))) b.store)) in
    subst (λ m. Gains bytes b (record { store = m; cur = b.cur + length bytes })) (sym shape)
      (grown-Gains b s bytes (0 ∷ drop (b.cur + length (bytes ++ (0 ∷ []))) b.store) (length bytes)
        refl h
        (ap length (sym shape)
          ∙ length-over b.store b.cur (bytes ++ (0 ∷ []))
              (omega (arith, length-append bytes (0 ∷ [])))))

nothing-Gains : (b : FixedBuffer) → IsSound b → Gains [] b b
nothing-Gains b s = record { sound = s; size = refl; gained = sym (append-nil (text b)) }

numeric-Gains :
    (b : FixedBuffer) (bytes : List ℕ) (m : Outcome FixedBuffer)
    → IsSound b
    → (b.cur + 48 ≤ length b.store → Returns (Gains bytes b) m)
    → Returns (Gains (numeric (free b) bytes) b) (if has_avail max_numeric_size b then m else ok b)
numeric-Gains b bytes m s k = elim (Bool-cases (leb 48 (free b))) [
  | inl e ↦ rw (e, le→leb (b.cur + 48) (length b.store) (wide e)) (k (wide e))
  | inr e ↦ rw (e, tight e) (nothing-Gains b s)
]
  where
    wide : leb 48 (free b) ≡ true → b.cur + 48 ≤ length b.store
    wide e = omega (arith, leb→le 48 (free b) e)

    tight : leb 48 (free b) ≡ false → leb (b.cur + 48) (length b.store) ≡ false
    tight e = ground (arith, s.inside)

module _ (b : FixedBuffer) (s : IsSound b) where
  integer-Gains :
      (v : ℤ)
      → IsWord v
      → Returns (Gains (numeric (free b) (integer_text v)) b) (format_integer v b)
  unfolding format_integer
  integer-Gains v h = numeric-Gains b (integer_text v) _ s λ room.
      rw (convert-integer_text b.store b.cur v h (omega arith))
        (over-Gains b s (integer_text v) (omega (arith, length-integer_text v h)))

  double-Gains :
      (printed : List ℕ)
      → length printed < 48
      → Returns (Gains (numeric (free b) printed) b) (format_double printed b)
  unfolding format_double copy_to
  double-Gains printed h = numeric-Gains b printed _ s λ room.
      let whole : take 47 printed ≡ printed = take-all 47 printed (omega arith) in
      let fits =
        le→leb (b.cur + length (printed ++ (0 ∷ []))) (length b.store)
          (omega (arith, length-append printed (0 ∷ []))) in
      rw (whole, fits) (over-Gains b s printed (omega arith))

  pointer-Gains :
      (v : ℕ)
      → v < 2 ^ 64
      → Returns (Gains (numeric (free b) (codes "0x" ++ hex_text v)) b) (format_pointer v b)
  unfolding format_pointer
  pointer-Gains v h = numeric-Gains b (codes "0x" ++ hex_text v) _ s λ room.
      let short = length-hex_text v h in
      let prefix = codes "0x" in
      let whole : over (over b.store b.cur prefix) (b.cur + 2) (hex_text v ++ (0 ∷ []))
          ≡ over b.store b.cur ((prefix ++ hex_text v) ++ (0 ∷ [])) =
        over-over b.store b.cur prefix (omega arith) (hex_text v ++ (0 ∷ [])) in
      let len : length (hex_text v) + 2 ≡ length (prefix ++ hex_text v) = omega arith in
      let size = length-over b.store b.cur prefix (omega arith) in
      rw
        (
          copy_to-fresh b.store b.cur prefix (omega arith),
          convert_hex-hex_text (over b.store b.cur prefix) (b.cur + 2) v h (omega arith),
          whole,
          len,
        )
        (over-Gains b s (prefix ++ hex_text v) (omega arith))

  insert-Gains :
      (item : Item) → IsItem item → Returns (Gains (kept (free b) item) b) (insert item b)
  unfolding insert
  insert-Gains (bool true) h = put-Gains (codes "1") b s
  insert-Gains (bool false) h = put-Gains (codes "0") b s
  insert-Gains (char c) h = put-Gains (c ∷ []) b s
  insert-Gains (integer v) h = integer-Gains v h
  insert-Gains (pointer v) h = pointer-Gains v h
  insert-Gains (double printed) h = double-Gains printed h
  insert-Gains (c_string none) h = put-Gains (codes "(null)") b s
  insert-Gains (c_string (some t)) h = put-Gains t b s
  insert-Gains (string t) h = put-Gains t b s
  insert-Gains (buffer v) h = put-Gains (text v) b s

Gains-trans :
    (b b' b'' : FixedBuffer) (xs ys : List ℕ)
    → Gains xs b b'
    → Gains ys b' b''
    → Gains (xs ++ ys) b b''
Gains-trans b b' b'' xs ys g h = record {
  sound = h.sound;
  size = h.size ∙ g.size;
  gained = h.gained ∙ ap (λ l. l ++ ys) g.gained ∙ append_assoc (text b) xs ys;
}

free_after :
    (b b' : FixedBuffer) (xs : List ℕ) → IsSound b → Gains xs b b' → free b' ≡ free b - length xs
free_after b b' xs s g = omega (
  arith,
  s.inside,
  g.sound.inside,
  g.size,
  ap length g.gained,
  length-append (text b) xs,
  length-take b.cur b.store,
  length-take b'.cur b'.store,
)

-- Whatever is put into a stream, no byte is written outside the array, and the text grows by the
-- items in order, each of which is kept whole or left out whole: text if it leaves a byte free, and
-- a number if 48 bytes are free, an integer by its decimal digits with a sign where it is negative.
pub insert_all-Gains :
    (items : List Item) (b : FixedBuffer)
    → AreItems items
    → IsSound b
    → Returns (Gains (all_kept (free b) items) b) (insert_all items b)
unfolding insert_all
insert_all-Gains [] b h s = nothing-Gains b s
insert_all-Gains (item ∷ items) b h s =
    Returns->>= (Gains (kept (free b) item) b) (Gains (all_kept (free b) (item ∷ items)) b)
      (insert item b) (insert_all items) (insert-Gains b s item h.0)
      λ b' g.
        Returns-map (Gains (all_kept (free b') items) b')
          (Gains (all_kept (free b) (item ∷ items)) b) (insert_all items b')
          (insert_all-Gains items b' h.1 g.sound)
          λ b'' g'.
            Gains-trans b b' b'' (kept (free b) item)
              (all_kept (free b - length (kept (free b) item)) items) g
              (subst (λ n. Gains (all_kept n items) b' b'')
                (free_after b b' (kept (free b) item) s g) g')
