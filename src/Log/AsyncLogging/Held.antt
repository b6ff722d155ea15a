-- ===== src/Log/AsyncLogging/Held.antt =====
-- What the asynchronous log of mytinyhttpd/base/async_logging.cc holds between two of its steps.
use my_tiny_httpd.Prelude.{
  ℕ, zero, suc, ◌-◌, ◌≤◌, ◌≡◌, refl, sym, ap, ◌∙◌, List, [], ◌∷◌, ◌++◌, append-nil, append_assoc,
  Option, none, some, Never, length, take, Returns, Returns-map, arith,
}
use my_tiny_httpd.Log.FixedBuffer.{FixedBuffer, large_buffer, put, text}
use my_tiny_httpd.Log.FixedBuffer.Text.{IsSound, Gains, fitting, put-Gains}
use my_tiny_httpd.Log.AsyncLogging.{
  Call, append, flush, Phase, testing, collecting, writing, finished, AsyncLog, pointee, appends,
  Event, line, stop, step,
}

abbrev pub texts : List FixedBuffer → List ℕ
texts [] = []
texts (b ∷ bs) = text b ++ texts bs

-- The bytes that have been given to the file.
abbrev pub delivered : List Call → List ℕ
delivered [] = []
delivered (append bytes ∷ calls) = bytes ++ delivered calls
delivered (flush ∷ calls) = delivered calls

abbrev pub current_text : Option FixedBuffer → List ℕ
current_text none = []
current_text (some b) = text b

-- The bytes that have been appended and not yet given to the file, in their order.
abbrev pub pending : AsyncLog → List ℕ
pending s = texts s.buffers_to_write ++ (texts s.buffers ++ current_text s.current_buffer)

-- The bytes that a schedule appends; a line as long as a whole buffer is left out.
abbrev pub logged : List Event → List ℕ
logged [] = []
logged (line l ∷ es) = fitting large_buffer l ++ logged es
logged (stop ∷ es) = logged es
logged (step note ∷ es) = logged es

pub record IsLarge (b : FixedBuffer) : Type 0 where
  pub sound : IsSound b
  pub large : length b.store ≡ large_buffer

abbrev pub Spare : Option FixedBuffer → Type 0
Spare none = Unit {0}
Spare (some b) = IsLarge b × (b.cur ≡ 0)

abbrev pub Fresh : Option FixedBuffer → Type 0
Fresh none = Never {0}
Fresh (some b) = IsLarge b × (b.cur ≡ 0)

abbrev pub Current : Option FixedBuffer → Type 0
Current none = Never {0}
Current (some b) = IsLarge b

abbrev pub AllLarge : List FixedBuffer → Type 0
AllLarge [] = Unit {0}
AllLarge (b ∷ bs) = IsLarge b × AllLarge bs

-- A pointer that is null has left so many buffers in the list.
abbrev pub Backed : ℕ → Option FixedBuffer → List FixedBuffer → Type 0
Backed n none bs = n ≤ length bs
Backed n (some b) bs = Unit {0}

abbrev pub Local : Phase → Option FixedBuffer → Option FixedBuffer → List FixedBuffer → Type 0
Local testing n1 n2 bs = Fresh n1 × Fresh n2 × (bs ≡ [])
Local collecting n1 n2 bs = Fresh n1 × Fresh n2 × (bs ≡ [])
Local writing n1 n2 bs = (n1 ≡ none) × Spare n2 × AllLarge bs × (1 ≤ length bs) × Backed 2 n2 bs
Local finished n1 n2 bs = bs ≡ []

pub record Inv (bytes : List ℕ) (s : AsyncLog) : Type 0 where
  pub current : Current s.current_buffer
  pub next : Spare s.next_buffer
  pub backed : Backed 1 s.next_buffer s.buffers
  pub larges : AllLarge s.buffers
  pub local : Local s.phase s.new_buffer1 s.new_buffer2 s.buffers_to_write
  pub whole : s.erased ≡ 0 → delivered s.calls ++ pending s ≡ bytes

pub texts-append : (bs cs : List FixedBuffer) → texts (bs ++ cs) ≡ texts bs ++ texts cs
texts-append [] cs = refl
texts-append (b ∷ bs) cs = simp (texts-append bs cs, append_assoc)

pub delivered-append : (c d : List Call) → delivered (c ++ d) ≡ delivered c ++ delivered d
delivered-append [] d = refl
delivered-append (append bytes ∷ c) d = simp (delivered-append c d, append_assoc)
delivered-append (flush ∷ c) d = delivered-append c d

pub delivered-appends :
    (bs : List FixedBuffer) (d : List Call) → delivered (appends bs ++ d) ≡ texts bs ++ delivered d
delivered-appends [] d = refl
delivered-appends (b ∷ bs) d = simp (delivered-appends bs d, append_assoc)

pub AllLarge-append : (bs cs : List FixedBuffer) → AllLarge bs → AllLarge cs → AllLarge (bs ++ cs)
AllLarge-append [] cs h k = k
AllLarge-append (b ∷ bs) cs h k = (h.0, AllLarge-append bs cs h.1 k)

pub AllLarge-take : (n : ℕ) (bs : List FixedBuffer) → AllLarge bs → AllLarge (take n bs)
AllLarge-take zero bs h = tt
AllLarge-take (suc n) [] h = tt
AllLarge-take (suc n) (b ∷ bs) h = (h.0, AllLarge-take n bs h.1)

-- Putting a line into a large buffer.
pub put-IsLarge :
    (l : List ℕ) (b : FixedBuffer)
    → IsLarge b
    → Returns (λ b'. IsLarge b' × (text b' ≡ text b ++ fitting (large_buffer - b.cur) l)) (put l b)
put-IsLarge l b h =
    Returns-map (Gains (fitting (length b.store - b.cur) l) b) _ (put l b) (put-Gains l b h.sound)
      λ b' g. (
        record { sound = g.sound; large = g.size ∙ h.large },
        g.gained ∙ ap (λ n. text b ++ fitting (n - b.cur) l) h.large,
      )

pub moved : (d w b t f : List ℕ) → d ++ (w ++ ((b ++ (t ++ [])) ++ f)) ≡ (d ++ (w ++ (b ++ t))) ++ f
moved d w b t f = simp (append-nil, append_assoc)

pub longer : (d w b t f : List ℕ) → d ++ (w ++ (b ++ (t ++ f))) ≡ (d ++ (w ++ (b ++ t))) ++ f
longer d w b t f = simp append_assoc

pub known :
    (bytes : List ℕ) (b : FixedBuffer) (s : AsyncLog)
    → s.current_buffer ≡ some b
    → Inv bytes s
    → s.erased ≡ 0
    → delivered s.calls ++ (texts s.buffers_to_write ++ (texts s.buffers ++ text b)) ≡ bytes
known bytes b s e inv none_erased =
    ap (λ o. delivered s.calls ++ (texts s.buffers_to_write ++ (texts s.buffers ++ current_text o)))
      (sym e)
    ∙ inv.whole none_erased

pub pointee-Current :
    (o : Option FixedBuffer) → Current o → Returns (λ b. (o ≡ some b) × IsLarge b) (pointee o)
pointee-Current none h = elim h [ ]
pointee-Current (some b) h = (refl, h)

pub new-IsLarge :
    (xs : List ℕ) → length xs ≡ large_buffer → IsLarge (record { store = xs; cur = 0 })
new-IsLarge xs h = record {
  sound = record { inside = omega (arith, h); small = omega (arith, h) };
  large = h;
}
